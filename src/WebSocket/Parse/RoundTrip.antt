-- ===== src/WebSocket/Parse/RoundTrip.antt =====
-- A frame that `build_websocket_frame` writes is read back by `parse_websocket_frame`.
use gouda_http_server.Common.{
  ℕ, suc, ◌+◌, ◌%◌, ◌^◌, ◌≤◌, ◌<◌, ◌≡◌, refl, ap, ◌∙◌, Bool, true, false, none, some, [], ◌∷◌, ◌++◌,
  append_assoc, arith, length, le→leb, get_or-length, length-append, take-length_append,
  drop-append, get_or-append,
}
use gouda_http_server.Common.Bits.{bit_xor_twice}
use gouda_http_server.Common.Bytes.{Bytes, IsBytes}
use gouda_http_server.WebSocket.Frame.{MaskingKey, WebSocketFrame, IsKey}
use gouda_http_server.WebSocket.Build.{length_bytes, key_bytes, build_websocket_frame}
use gouda_http_server.WebSocket.Parse.{
  key_at, unmask, read_payload, parse_websocket_frame, default_max_websocket_payload_size,
}
use gouda_http_server.WebSocket.Parse.Header.{
  IsReadable, header_length, length_bytes_shape, first_byte, first_byte_fields,
}

key_at-lt : (key : MaskingKey) (i : ℕ) → IsKey key → key_at key i < 256
key_at-lt key i h = ground arith

-- Masking a payload twice with one key gives it back.
unmask_twice :
    (key : MaskingKey) (i : ℕ) (payload : Bytes)
    → IsKey key
    → IsBytes payload
    → unmask key i (unmask key i payload) ≡ payload
unfolding unmask
unmask_twice key i [] k h = refl
unmask_twice key i (b ∷ payload) k (hb, h) = rw (
  bit_xor_twice b (key_at key (i % 4)) hb (key_at-lt key (i % 4) k),
  unmask_twice key (suc i) payload k h,
)

pub length-unmask :
    (key : MaskingKey) (i : ℕ) (payload : Bytes) → length (unmask key i payload) ≡ length payload
unfolding unmask
length-unmask key i [] = refl
length-unmask key i (b ∷ payload) = ap suc (length-unmask key (suc i) payload)

abbrev keyed : MaskingKey → Bytes → Bytes
keyed key tail = key.k0 ∷ key.k1 ∷ key.k2 ∷ key.k3 ∷ tail

-- Behind a header of any shape the key and the payload are read.
read_payload-append :
    (header payload rest : Bytes) (key : MaskingKey) (frame : WebSocketFrame)
    → frame.mask ≡ true
    → frame.payload_length ≡ length payload
    → length payload ≤ default_max_websocket_payload_size
    → length header ≤ 10
    → read_payload (header ++ keyed key (payload ++ rest)) frame (length header)
      ≡ some (record frame { payload = unmask key 0 payload })
unfolding read_payload
read_payload-append header payload rest key frame m e h l =
    let tail = payload ++ rest in
    let size : length (header ++ keyed key tail)
        ≡ length header + 4 + (length payload + length rest) =
      omega (arith, length-append header (keyed key tail), length-append payload rest) in
    rw (
      m,
      e,
      size,
      le→leb (length header + 4) (length header + 4 + (length payload + length rest)) (omega arith),
      le→leb ((length header + 4 + length payload) % 2 ^ 64)
          (length header + 4 + (length payload + length rest)) (omega arith),
      le→leb (length payload) default_max_websocket_payload_size h,
      get_or-length header key.k0 (key.k1 ∷ key.k2 ∷ key.k3 ∷ tail) 0,
      get_or-append header (keyed key tail) 1 0,
      get_or-append header (keyed key tail) 2 0,
      get_or-append header (keyed key tail) 3 0,
      drop-append header (keyed key tail) 4,
      take-length_append payload rest,
    )

-- A frame that the parser can hand on: no reserved bits, a four-bit opcode, and a payload of bytes
-- of the stated length within the limit.
pub record IsSendable (f : WebSocketFrame) : Type 0 where
  pub rsv1 : f.rsv1 ≡ false
  pub rsv2 : f.rsv2 ≡ false
  pub rsv3 : f.rsv3 ≡ false
  pub opcode : f.opcode < 16
  pub sized : f.payload_length ≡ length f.payload
  pub within : length f.payload ≤ default_max_websocket_payload_size
  pub bytes : IsBytes f.payload

-- The frame as a client puts it on the wire, before the builder: masked by `key`.
abbrev pub masked : MaskingKey → WebSocketFrame → WebSocketFrame
masked key f = record f { mask = true; masking_key = some key; payload = unmask key 0 f.payload }

build-masked :
    (key : MaskingKey) (f : WebSocketFrame) (rest : Bytes)
    → build_websocket_frame (masked key f) ++ rest
      ≡ (first_byte f.fin f.opcode ∷ length_bytes 0x80 f.payload_length)
        ++ keyed key (unmask key 0 f.payload ++ rest)
unfolding build_websocket_frame key_bytes first_byte
build-masked key f rest =
    ap (◌∷◌ (first_byte f.fin f.opcode))
      (append_assoc (length_bytes 0x80 f.payload_length) (keyed key (unmask key 0 f.payload)) rest)

-- What follows the frame in the buffer is not read.
parse-wire :
    (char_signed : Bool) (key : MaskingKey) (f : WebSocketFrame) (rest : Bytes)
    → IsSendable f
    → IsKey key
    → IsReadable char_signed f.payload_length
    → parse_websocket_frame char_signed (
        (first_byte f.fin f.opcode ∷ length_bytes 0x80 f.payload_length)
        ++ keyed key (unmask key 0 f.payload ++ rest))
      ≡ some (record f { mask = true; masking_key = none })
unfolding parse_websocket_frame
parse-wire char_signed key f rest s k r =
    let first = first_byte f.fin f.opcode in
    let header = length_bytes 0x80 f.payload_length in
    let tail = keyed key (unmask key 0 f.payload ++ rest) in
    let (same, masks, low, high) = length_bytes_shape f.payload_length tail in
    let (fin, rsv1, rsv2, rsv3, opcode) = first_byte_fields f.fin f.opcode s.opcode in
    rw
      (
        le→leb 2 (length (first ∷ (header ++ tail))) (omega (arith, length-append header tail)),
        same,
        masks,
        fin,
        rsv1,
        rsv2,
        rsv3,
        opcode,
        header_length char_signed first f.payload_length tail r (omega (arith, s.sized, s.within)),
      )
      (read_payload-append (first ∷ header) (unmask key 0 f.payload) rest key _ refl
          (omega (arith, s.sized, length-unmask key 0 f.payload))
          (omega (arith, s.within, length-unmask key 0 f.payload)) (omega arith)
        ∙ cc (s.rsv1, s.rsv2, s.rsv3, unmask_twice key 0 f.payload k s.bytes))

-- Let a client frame carry a payload of at most 1 MiB, masked by any key, and let its length be
-- readable: `char` is unsigned, or the length is at most 125, or the two low bytes of the length
-- are below 128. Then the parser gives back every field and the unmasked payload from the bytes
-- that the builder writes, whatever follows them; only the masking key is left unset.
pub parse-build :
    (char_signed : Bool) (key : MaskingKey) (f : WebSocketFrame) (rest : Bytes)
    → IsSendable f
    → IsKey key
    → IsReadable char_signed f.payload_length
    → parse_websocket_frame char_signed (build_websocket_frame (masked key f) ++ rest)
      ≡ some (record f { mask = true; masking_key = none })
parse-build char_signed key f rest s k r =
    rw (build-masked key f rest) (parse-wire char_signed key f rest s k r)
