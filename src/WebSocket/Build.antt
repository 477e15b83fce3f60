-- ===== src/WebSocket/Build.antt =====
-- `HttpResponseBuilder::build_websocket_frame` of src/http_response_builder.cpp.
use gouda_http_server.Common.{
  ℕ, zero, suc, ◌*◌, ◌/◌, ◌%◌, ◌^◌, bit_or, Bool, true, Option, some, [], ◌∷◌, ◌++◌, leb,
  if◌then◌else◌,
}
use gouda_http_server.Common.Bytes.{Bytes}
use gouda_http_server.WebSocket.Frame.{MaskingKey, WebSocketFrame}

-- The loop `for (i = n - 1; i >= 0; --i)` over the bytes of a length, the highest first.
unfoldable pub be_bytes : ℕ → ℕ → Bytes
be_bytes zero len = []
be_bytes (suc i) len = len / 2 ^ (8 * i) % 256 ∷ be_bytes i len

-- The second byte, with the mask bit `mask`, and the extended length.
unfoldable pub length_bytes : ℕ → ℕ → Bytes
length_bytes mask len =
    if leb len 125
    then bit_or mask len ∷ []
    else if leb len 0xffff
    then bit_or mask 126 ∷ len / 2 ^ 8 % 256 ∷ len % 256 ∷ []
    else bit_or mask 127 ∷ be_bytes 8 len

-- `if (frame.mask && frame.masking_key)`.
unfoldable pub key_bytes : Bool → Option MaskingKey → Bytes
key_bytes true (some k) = k.k0 ∷ k.k1 ∷ k.k2 ∷ k.k3 ∷ []
key_bytes _ _ = []

unfoldable pub build_websocket_frame : WebSocketFrame → Bytes
build_websocket_frame f =
    bit_or (if f.fin then 0x80 else 0x00) (f.opcode % 2 ^ 4)
    ∷ (length_bytes (if f.mask then 0x80 else 0x00) f.payload_length
        ++ (key_bytes f.mask f.masking_key ++ f.payload))
