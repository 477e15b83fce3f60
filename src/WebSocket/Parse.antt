-- ===== src/WebSocket/Parse.antt =====
-- `HttpRequestParser::parse_websocket_frame` of src/http_request_parser.cpp, in the stages of its
-- body. `nullopt` is `none`. Whether `char` is signed is the platform's choice, so it is a parameter.
pub mod Length
pub mod Header
pub mod RoundTrip
pub mod Bounds
use gouda_http_server.Common.{
  ℕ, suc, ◌+◌, ◌-◌, ◌*◌, ◌/◌, ◌%◌, ◌^◌, bit_or, bit_xor, Bool, false, not, ◌&&◌, ◌||◌, Option, none,
  some, [], ◌∷◌, leb, ◌==◌, if◌then◌else◌, length, take, drop, get_or,
}
use gouda_http_server.Common.Bytes.{Bytes}
use gouda_http_server.Common.Options.{◌>>=◌, ◌>>◌, guard}
use gouda_http_server.WebSocket.Frame.{MaskingKey, WebSocketFrame}

-- `DEFAULT_MAX_WEBSOCKET_PAYLOAD_SIZE` of include/http_constants.hpp, 1 MiB.
abbrev pub default_max_websocket_payload_size : ℕ
default_max_websocket_payload_size = 1 * 1024 * 1024

-- `frame_data[i]`; every read stands behind a size check.
abbrev pub byte_at : Bytes → ℕ → ℕ
byte_at frame_data i = get_or frame_data i 0

-- Bit `k` of a byte, as `(b & (1 << k)) != 0`.
abbrev pub bit : ℕ → ℕ → Bool
bit b k = b / 2 ^ k % 2 == 1

-- `static_cast<uint64_t>(c)` of a `char` with the byte `b`: a signed char extends its sign.
abbrev pub widen : Bool → ℕ → ℕ
widen char_signed b = if char_signed && leb 128 b then b + 2 ^ 64 - 256 else b

-- `x << k` on `uint64_t`.
abbrev pub shl : ℕ → ℕ → ℕ
shl x k = x * 2 ^ k % 2 ^ 64

-- `masking_key[i]`, for `i` below 4.
abbrev pub key_at : MaskingKey → ℕ → ℕ
key_at key i =
    if i == 0 then key.k0 else if i == 1 then key.k1 else if i == 2 then key.k2 else key.k3

-- The loop `frame.payload[i] ^= masking_key[i % 4]`, from the index `i` on.
unfoldable pub unmask : MaskingKey → ℕ → Bytes → Bytes
unmask key i [] = []
unmask key i (b ∷ payload) = bit_xor b (key_at key (i % 4)) ∷ unmask key (suc i) payload

module _ (char_signed : Bool) (frame_data : Bytes) where
  -- The byte at `i`, widened and shifted.
  abbrev pub wide : ℕ → ℕ → ℕ
  wide i k = shl (widen char_signed (byte_at frame_data i)) k

  -- The two-byte length.
  unfoldable pub length_16 : ℕ → ℕ
  length_16 offset = bit_or (wide offset 8) (wide (offset + 1) 0)

  -- The eight-byte length.
  unfoldable pub length_64 : ℕ → ℕ
  length_64 offset =
      bit_or
        (bit_or
          (bit_or
            (bit_or
              (bit_or
                (bit_or (bit_or (wide offset 56) (wide (offset + 1) 48)) (wide (offset + 2) 40))
                (wide (offset + 3) 32))
              (wide (offset + 4) 24))
            (wide (offset + 5) 16))
          (wide (offset + 6) 8))
        (wide (offset + 7) 0)

  -- The payload length and the offset behind it.
  unfoldable pub extended_length : ℕ → Option (ℕ × ℕ)
  extended_length payload_length =
      if payload_length == 126
      then if leb 4 (length frame_data) then some (length_16 2, 4) else none
      else if payload_length == 127
      then if leb 10 (length frame_data) then some (length_64 2, 10) else none
      else some (payload_length, 2)

-- From the check of the mask bit on: the key, the checks of the length, and the payload.
unfoldable pub read_payload : Bytes → WebSocketFrame → ℕ → Option WebSocketFrame
read_payload frame_data frame offset = do
  guard frame.mask
  guard (leb (offset + 4) (length frame_data))
  let masking_key : MaskingKey = record {
    k0 = byte_at frame_data offset;
    k1 = byte_at frame_data (offset + 1);
    k2 = byte_at frame_data (offset + 2);
    k3 = byte_at frame_data (offset + 3);
  }
  guard (leb ((offset + 4 + frame.payload_length) % 2 ^ 64) (length frame_data))
  guard (leb frame.payload_length default_max_websocket_payload_size)
  some (record frame {
    payload = unmask masking_key 0 (take frame.payload_length (drop (offset + 4) frame_data));
  })

-- The fields that the first two bytes give, and the payload length.
abbrev pub read_header : Bytes → ℕ → WebSocketFrame
read_header frame_data payload_length = record {
  fin = bit (byte_at frame_data 0) 7;
  rsv1 = bit (byte_at frame_data 0) 6;
  rsv2 = bit (byte_at frame_data 0) 5;
  rsv3 = bit (byte_at frame_data 0) 4;
  opcode = byte_at frame_data 0 % 2 ^ 4;
  mask = bit (byte_at frame_data 1) 7;
  payload_length = payload_length;
  masking_key = none;
  payload = [];
}

unfoldable pub parse_websocket_frame : Bool → Bytes → Option WebSocketFrame
parse_websocket_frame char_signed frame_data = do
  guard (leb 2 (length frame_data))
  let b0 = byte_at frame_data 0
  guard (not (bit b0 6 || bit b0 5 || bit b0 4))
  (len, offset) ← extended_length char_signed frame_data (byte_at frame_data 1 % 2 ^ 7)
  read_payload frame_data (read_header frame_data len) offset
