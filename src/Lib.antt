-- ===== src/Lib.antt =====
-- A model of the Gouda HTTP server: the code that reads requests, routes them, answers them from the
-- handlers of its site and from files that it caches, and sends the answers; WebSockets; the thread
-- pool and the owners of sockets; and the logger.
--
-- `Server` accepts connections, each of which becomes a task of the `ThreadPool`. `ClientHandler`
-- reads the bytes of a connection and cuts the requests off, which become `HttpRequest`s in
-- `HttpRequestParser::parse`; that calls the text helpers for the query and for forms. `Router::route`
-- answers with an `HttpResponse`, whose files come from the `FileCache` or are streamed, and
-- `ClientHandler` sends what `HttpResponseBuilder` writes. After an upgrade the bytes go to
-- `WebSocketHandler::process_frame`, which parses one frame and sends at most one reply.
--
-- Parts, by file:
-- - Common: the shared names, Boolean tests, lists and options; byte strings with the members of
--   `std::string` and the functions of `<cctype>` (Common/Bytes), the bits of bytes (Common/Bits),
--   `std::map` and `flat_map` as sorted lists (Common/SortedMap), decimal numbers (Common/Decimal).
-- - Utils: include/http_utils.hpp. Utils/Text has `trim`, `split_lines` and the printing helpers,
--   Utils/Url `url_decode` and `url_encode`, Utils/Query `parse_query_params`.
-- - Http: include/http_structs.hpp, include/http_status.hpp and `build` and `build_headers_only` of
--   src/http_response_builder.cpp, under the names of the source.
-- - Parser: `HttpRequestParser::parse` of src/http_request_parser.cpp, one definition for each stage
--   of its body.
-- - WebSocket: `parse_websocket_frame` of src/http_request_parser.cpp (WebSocket/Parse),
--   `build_websocket_frame` of src/http_response_builder.cpp (WebSocket/Build), and
--   `WebSocketHandler` of src/websocket_handler.cpp (WebSocket/Handler).
-- - Cache: `FileCache` of src/file_cache.cpp. Cache/Lru is its specification, a list of entries in
--   order of use; Cache/Tracks is the invariant that ties the map to the list.
-- - Client: `ClientHandler` of src/client_handler.cpp. Client has the reading of a request and
--   `should_keep_alive`, Client/Send `send_raw`, Client/Cut and Client/Process
--   `process_single_request`, `process_websocket` and `handle`. What the calls of `recv` and `send`
--   give are lists. Client/Chunks, Client/Process/Conversation and Client/Process/Wire are about
--   requests in chunks and what goes out for them, Client/Process/AnyCache about the file cache.
-- - Pool: `ThreadPool` of src/thread_pool.cpp, its operations and the steps of its workers in every
--   interleaving, with the calls on `m_condition` as steps of their own. Pool/Counted, Pool/Live,
--   Pool/Progress and Pool/Stranded are about all of these.
-- - Router: src/router.cpp, include/router.hpp and the error pages of include/http_constants.hpp.
--   Router/Outside lists what is used of the file system and of other libraries, Router/Static is
--   `handle_static_file` with the responses of Router/Responses, Router/Routes has `add_route` and
--   the searches, Router/Dispatch `route`.
-- - Sockets: include/socket_wrapper.h, the owners of descriptors and the calls of `::close`, and
--   Sockets/Server, `Server` of src/http_server.cpp with what `poll` and `accept` give.
-- - Site: src/routes.hpp and what src/main.cpp sets up. Site/Text has the responses and the JSON
--   values that handlers write, Site/Handlers the handlers, Site/Favicon the one that uses the file
--   cache, Site the middlewares and `setup_routes`. Site/Guarded, Site/Echo, Site/Cached and
--   Site/Connection compose it with `route`, `process_websocket` and `handle`.
-- - Log: `Logger` of src/logger.cpp.
--
-- Conventions. A string is a list of bytes, and a view is the part of the list it shows. `size_t`
-- and `uint64_t` are native numbers with their wrap-around written out. `std::nullopt` is `none`. A
-- `char` may be signed or not, which is a parameter of the frame parser. The calls of `send` are a
-- list. An iterator into the list of the cache is the number of its node. A cache operation runs
-- under its mutex and is one step.
--
-- Fuel: `evict_if_needed` runs on the length of the list, and each round shortens the list by one.
-- The loop over pipelined requests runs on the bytes that are there or still come, of which each
-- round takes two; the loop that streams a file runs on the bytes to send.
-- `to_string` runs on the number itself, and each digit divides the number by ten. What a call of
-- `recv` in WebSocket mode leaves of a chunk is cut on the length of the chunk, by 1024 a call.
--
-- Not modelled: the calls that `Socket` only passes on, the signal masks and `format_last_modified`.
-- Of the thread pool, `m_wait_condition` is left out, and so when `wait_for_all` wakes up; the stop
-- tokens are one flag for all workers. The lines that go to the log are left out but for the logger itself. SHA-1 and base64 of OpenSSL,
-- nlohmann::json, std::regex and the file system are parameters. A handler of a route is a function
-- on the file cache, and may throw. The file system is taken as it is while one request is handled.
pub mod Common
pub mod Utils
pub mod Http
pub mod Parser
pub mod WebSocket
pub mod Cache
pub mod Client
pub mod Log
pub mod Pool
pub mod Router
pub mod Site
pub mod Sockets
