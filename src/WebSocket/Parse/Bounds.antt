-- ===== src/WebSocket/Parse/Bounds.antt =====
-- What a parsed frame satisfies, and the extended lengths that a signed `char` makes unreadable.
use gouda_http_server.Common.{
  ℕ, ◌+◌, ◌-◌, ◌%◌, ◌^◌, ◌≤◌, ◌<◌, ◌≡◌, refl, Bool, true, false, ◌⊎◌, inl, inr, none, some, arith,
  length, take, drop, length-take, length-drop, Option-cases,
}
use gouda_http_server.Common.Bits.{bit_or_bounds}
use gouda_http_server.Common.Bytes.{Bytes}
use gouda_http_server.WebSocket.Frame.{WebSocketFrame, MaskingKey}
use gouda_http_server.WebSocket.Parse.{
  byte_at, wide, length_16, extended_length, read_payload, read_header, parse_websocket_frame,
  default_max_websocket_payload_size,
}
use gouda_http_server.WebSocket.Parse.RoundTrip.{length-unmask}

-- What holds of a frame that the parser returns.
pub record IsParsed (f : WebSocketFrame) : Type 0 where
  pub rsv1 : f.rsv1 ≡ false
  pub rsv2 : f.rsv2 ≡ false
  pub rsv3 : f.rsv3 ≡ false
  pub opcode : f.opcode < 16
  pub mask : f.mask ≡ true
  pub masking_key : f.masking_key ≡ none
  pub sized : length f.payload ≡ f.payload_length
  pub within : f.payload_length ≤ default_max_websocket_payload_size

-- The fields that are set before the payload is read.
record IsStarted (f : WebSocketFrame) : Type 0 where
  rsv1 : f.rsv1 ≡ false
  rsv2 : f.rsv2 ≡ false
  rsv3 : f.rsv3 ≡ false
  opcode : f.opcode < 16
  masking_key : f.masking_key ≡ none

-- The key that `read_payload` takes.
abbrev key_of : Bytes → ℕ → MaskingKey
key_of frame_data offset = record {
  k0 = byte_at frame_data offset;
  k1 = byte_at frame_data (offset + 1);
  k2 = byte_at frame_data (offset + 2);
  k3 = byte_at frame_data (offset + 3);
}

read_payload-IsParsed :
    (frame_data : Bytes) (frame f : WebSocketFrame) (offset : ℕ)
    → IsStarted frame
    → offset ≤ 10
    → read_payload frame_data frame offset ≡ some f
    → IsParsed f
unfolding read_payload
read_payload-IsParsed frame_data frame f offset s h e =
    let rest = drop (offset + 4) frame_data in
    ground (
      arith,
      length-unmask (key_of frame_data offset) 0 (take frame.payload_length rest),
      length-take frame.payload_length rest,
      length-drop (offset + 4) frame_data,
    )

header_offset :
    (char_signed : Bool) (frame_data : Bytes) (n len offset : ℕ)
    → extended_length char_signed frame_data n ≡ some (len, offset)
    → offset ≤ 10
unfolding extended_length
header_offset char_signed frame_data n len offset e = ground arith

-- Every frame that the parser returns has the mask bit, no reserved bit and a four-bit opcode; its
-- payload has the stated length, which is at most 1 MiB; its masking key is unset.
pub parse-IsParsed :
    (char_signed : Bool) (frame_data : Bytes) (f : WebSocketFrame)
    → parse_websocket_frame char_signed frame_data ≡ some f
    → IsParsed f
unfolding parse_websocket_frame
parse-IsParsed char_signed frame_data f e =
    elim (Option-cases (extended_length char_signed frame_data (byte_at frame_data 1 % 2 ^ 7))) [
      | inl missing ↦ absurd (ground arith)
      | inr ((len, offset), extended) ↦
          read_payload-IsParsed frame_data (read_header frame_data len) f offset
            (record {
              rsv1 = ground arith;
              rsv2 = ground arith;
              rsv3 = ground arith;
              opcode = omega arith;
              masking_key = refl;
            })
            (header_offset char_signed frame_data _ len offset extended) (ground arith)
    ]

-- A sign-extended byte makes the two-byte length larger than any limit.
length_16_signed :
    (frame_data : Bytes)
    → byte_at frame_data 2 < 256
    → byte_at frame_data 3 < 256
    → (128 ≤ byte_at frame_data 2) ⊎ (128 ≤ byte_at frame_data 3)
    → 2 ^ 64 - 2 ^ 15 ≤ length_16 true frame_data 2
unfolding length_16
length_16_signed frame_data h l (inl p) =
    ground (arith, bit_or_bounds (wide true frame_data 2 8) (wide true frame_data 3 0))
length_16_signed frame_data h l (inr p) =
    ground (arith, bit_or_bounds (wide true frame_data 2 8) (wide true frame_data 3 0))

read_payload_too_large :
    (frame_data : Bytes) (frame : WebSocketFrame) (offset : ℕ)
    → default_max_websocket_payload_size < frame.payload_length
    → read_payload frame_data frame offset ≡ none
unfolding read_payload
read_payload_too_large frame_data frame offset h = ground arith

-- Where `char` is signed, a frame whose second byte announces a two-byte length is refused whenever
-- one of the two length bytes is 128 or more, whatever the rest of the frame.
pub parse_signed_length :
    (frame_data : Bytes)
    → byte_at frame_data 1 % 2 ^ 7 ≡ 126
    → byte_at frame_data 2 < 256
    → byte_at frame_data 3 < 256
    → (128 ≤ byte_at frame_data 2) ⊎ (128 ≤ byte_at frame_data 3)
    → parse_websocket_frame true frame_data ≡ none
unfolding parse_websocket_frame extended_length
parse_signed_length frame_data m h l p =
    let len = length_16 true frame_data 2 in
    let large : default_max_websocket_payload_size < len =
      omega (arith, length_16_signed frame_data h l p) in
    ground (arith, read_payload_too_large frame_data (read_header frame_data len) 4 large)
