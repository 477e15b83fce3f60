-- ===== src/WebSocket/Tests.antt =====
-- Runs of the frame parser, the builder and the handler, and the theorems at concrete inputs.
use gouda_http_server.Common.{
  ℕ, ◌≡◌, refl, inr, true, false, none, some, [], ◌∷◌, ◌++◌, map, length, ◌<◌, arith,
}
use gouda_http_server.Common.Bytes.{Bytes, codes}
use gouda_http_server.WebSocket.Frame.{MaskingKey, WebSocketFrame, IsKey}
use gouda_http_server.WebSocket.Parse.{parse_websocket_frame, unmask}
use gouda_http_server.WebSocket.Parse.Header.{short}
use gouda_http_server.WebSocket.Parse.RoundTrip.{IsSendable, masked, parse-build}
use gouda_http_server.WebSocket.Parse.Bounds.{IsParsed, parse-IsParsed, parse_signed_length}
use gouda_http_server.WebSocket.Build.{build_websocket_frame, length_bytes, key_bytes, be_bytes}
use gouda_http_server.WebSocket.Parse.{extended_length, length_16, length_64, read_payload}
use gouda_http_server.WebSocket.Handler.{process_frame}
use gouda_http_server.WebSocket.Handler.Replies.{server_frame, process_frame-build, close_truncated}

-- The definitions that a run computes with.
program : Unit {0}
unfolding parse_websocket_frame extended_length length_16 length_64 read_payload unmask
    build_websocket_frame length_bytes key_bytes be_bytes
program = tt

abbrev key : MaskingKey
key = record { k0 = 0x37; k1 = 0xfa; k2 = 0x21; k3 = 0x3d }

abbrev hello : WebSocketFrame
hello = record {
  fin = true;
  rsv1 = false;
  rsv2 = false;
  rsv3 = false;
  opcode = 1;
  mask = true;
  payload_length = 5;
  masking_key = none;
  payload = codes "Hello";
}

-- The masked "Hello" of RFC 6455, section 5.7.
abbrev hello_wire : Bytes
hello_wire = 0x81 ∷ 0x85 ∷ 0x37 ∷ 0xfa ∷ 0x21 ∷ 0x3d ∷ 0x7f ∷ 0x9f ∷ 0x4d ∷ 0x51 ∷ 0x58 ∷ []

build_hello : build_websocket_frame (masked key hello) ≡ hello_wire
unfolding program
build_hello = refl

parse_hello : parse_websocket_frame true hello_wire ≡ some hello
unfolding program
parse_hello = refl

hello-IsSendable : IsSendable hello
hello-IsSendable = record {
  rsv1 = refl;
  rsv2 = refl;
  rsv3 = refl;
  opcode = omega arith;
  sized = refl;
  within = omega arith;
  bytes = omega arith;
}

key-IsKey : IsKey key
key-IsKey = omega arith

parse-build_example :
    parse_websocket_frame true (build_websocket_frame (masked key hello) ++ codes "rest")
    ≡ some hello
parse-build_example =
    parse-build true key hello (codes "rest") hello-IsSendable key-IsKey (short (omega arith))

parse-IsParsed_example : IsParsed hello
parse-IsParsed_example = parse-IsParsed true hello_wire hello parse_hello

-- A frame of 200 bytes, whose length byte is 0xc8.
abbrev long_head : Bytes
long_head = 0x82 ∷ 0xfe ∷ 0x00 ∷ 0xc8 ∷ []

parse_signed_length_example : parse_websocket_frame true (0x82 ∷ 0xfe ∷ 0x00 ∷ 0xc8 ∷ []) ≡ none
parse_signed_length_example =
    parse_signed_length long_head refl (omega arith) (omega arith) (inr (omega arith))

-- The echo handler of routes.hpp.
abbrev echo : WebSocketFrame → ℕ → ℕ → Bytes
echo frame conn_id req_id = frame.payload

process_frame-build_example :
    process_frame true echo 1 2 (build_websocket_frame (masked key hello) ++ [])
    ≡ (true, map build_websocket_frame (server_frame 1 (codes "Hello") ∷ []))
process_frame-build_example =
    process_frame-build echo 1 2 true key hello [] hello-IsSendable key-IsKey (short (omega arith))
      (omega arith)

-- A masked close with no payload.
abbrev close_wire : Bytes
close_wire = 0x88 ∷ 0x80 ∷ 1 ∷ 2 ∷ 3 ∷ 4 ∷ []

abbrev close : WebSocketFrame
close = record hello { opcode = 8; payload_length = 0; payload = [] }

close_truncated_example :
    (s : Bytes) × (process_frame true echo 1 2 close_wire ≡ (false, s ∷ []))
    × ((g : WebSocketFrame) → length s < length (build_websocket_frame g))
    × (s ++ 0 ∷ [] ≡ build_websocket_frame (server_frame 0x8 []))
unfolding program
close_truncated_example = close_truncated echo 1 2 true close_wire close refl refl
