-- ===== src/WebSocket.antt =====
-- WebSocket frames: the frame of include/http_structs.hpp (`WebSocketFrame`), its parser in
-- src/http_request_parser.cpp and its builder in src/http_response_builder.cpp, and the handler of
-- src/websocket_handler.cpp with include/websocket_handler.hpp.
-- Log calls are left out. A `uint64_t` is a native number, with the wrap-around written out.
mod Tests
pub mod Frame
pub mod Parse
pub mod Build
pub mod Handler
