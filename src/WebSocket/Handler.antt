-- ===== src/WebSocket/Handler.antt =====
-- `WebSocketHandler` of include/websocket_handler.hpp and src/websocket_handler.cpp. The calls of
-- `sock.send` are a list, the earliest first: what `send` returns only reaches the log. The
-- handler function is a parameter, at the connection and request ids.
pub mod Replies
use gouda_http_server.Common.{
  ℕ, zero, suc, ◌/◌, ◌%◌, ◌*◌, ◌^◌, bit_or, Bool, true, false, ◌||◌, Option, none, some, List, [],
  ◌∷◌, ◌++◌, leb, ◌==◌, if◌then◌else◌, length,
}
use gouda_http_server.Common.Bytes.{Bytes}
use gouda_http_server.WebSocket.Frame.{WebSocketFrame}
use gouda_http_server.WebSocket.Parse.{parse_websocket_frame}
use gouda_http_server.WebSocket.Build.{be_bytes}

pub encode_payload_length : ℕ → Bytes → Bytes
encode_payload_length len frame =
    if leb len 125
    then frame ++ len ∷ []
    else if leb len 0xffff
    then frame ++ 126 ∷ len / 2 ^ 8 % 256 ∷ len % 256 ∷ []
    else frame ++ 127 ∷ be_bytes 8 len

-- The constructor of `std::string` from a C string: the bytes before the first zero byte.
abbrev pub c_string : Bytes → Bytes
c_string [] = []
c_string (zero ∷ s) = []
c_string (suc c ∷ s) = suc c ∷ c_string s

-- The bytes of the literal "\x88\x00", with the zero byte that ends every literal.
abbrev pub close_literal : Bytes
close_literal = 0x88 ∷ 0x00 ∷ 0x00 ∷ []

-- `std::string close_frame = "\x88\x00"`.
abbrev pub close_frame : Bytes
close_frame = c_string close_literal

module _ (handler : WebSocketFrame → ℕ → ℕ → Bytes) (conn_id req_id : ℕ) where
  -- The branches on the opcode: whether to go on, and what is sent.
  pub answer : WebSocketFrame → Bool × List Bytes
  answer frame =
      if frame.opcode == 0x8
      then (false, close_frame ∷ [])
      else if frame.opcode == 0x9
      then (true, (encode_payload_length frame.payload_length (0x8a ∷ []) ++ frame.payload) ∷ [])
      else if frame.opcode == 0x1 || frame.opcode == 0x2
      then (let response = handler frame conn_id req_id in
          (
            true,
            (encode_payload_length (length response) (bit_or 0x80 frame.opcode ∷ []) ++ response)
                ∷ [],
          ))
      else (true, [])

pub process_frame : Bool → (WebSocketFrame → ℕ → ℕ → Bytes) → ℕ → ℕ → Bytes → Bool × List Bytes
process_frame char_signed handler conn_id req_id frame_data =
    elim (parse_websocket_frame char_signed frame_data) [
      | none ↦ (true, [])
      | some frame ↦ answer handler conn_id req_id frame
    ]
