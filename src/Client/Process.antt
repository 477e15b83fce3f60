-- ===== src/Client/Process.antt =====
-- `ClientHandler::process_single_request`, `process_websocket` and `handle` of
-- src/client_handler.cpp. What goes to `send_raw`, and to the calls of `send` in WebSocket mode, is
-- a list of outputs: what `send` gives back changes nothing here.
pub mod Ends
pub mod Pipeline
pub mod Steady
pub mod AnyCache
pub mod Conversation
pub mod Wire
use gouda_http_server.Common.{
  ℕ, zero, suc, ◌+◌, ◌%◌, ◌^◌, Bool, true, false, ◌&&◌, ◌||◌, not, Option, none, some, List, [],
  ◌∷◌, ◌++◌, ltb, leb, map, if◌then◌else◌, length, take, drop,
}
use gouda_http_server.Common.Bytes.{Bytes, codes, find}
use gouda_http_server.Cache.{FileCache}
use gouda_http_server.Client.{
  Recv, received, Outcome, returned, refused, timed_out, waiting, should_keep_alive,
  get_content_length, read_body, read_requests,
}
use gouda_http_server.Client.Send.{error_response, status_error_response}
use gouda_http_server.Http.Headers.{has_header}
use gouda_http_server.Http.Message.{HttpRequest, HttpResponse, text, stream, websocket}
use gouda_http_server.Http.Status.{bad_request, request_timeout}
use gouda_http_server.Http.Words.{HttpVersion, http_1_1}
use gouda_http_server.Parser.{parse}
use gouda_http_server.Router.Dispatch.{route}
use gouda_http_server.Router.Outside.{FileSystem, Library}
use gouda_http_server.Router.Responses.{with_header, occurs}
use gouda_http_server.Router.Routes.{WebSocketHandler, Router, get_websocket_handler}
use gouda_http_server.Utils.Text.{trim_back}
use gouda_http_server.WebSocket.Handler.{process_frame}
use gouda_http_server.Client.Cut.{
  Setting, Piece, Cut, piece, incomplete, invalid_json, pending, cut_request,
}

pub data Output : Type 0 where
  response : HttpResponse → Output
  frame : Bytes → Output

-- How `process_single_request` ends: with `true`, with `false` or with `nullopt`. It may wait for
-- `recv`, or end by an exception of the router. `exhausted` is the end of the fuel.
pub data Ending : Type 0 where
  keeps : List Output → List Recv → FileCache → Ending
  closes fails : List Output → FileCache → Ending
  waits throws exhausted : List Output → Ending

-- The outputs before.
abbrev pub behind : List Output → Ending → Ending
behind o (keeps p reads c) = keeps (o ++ p) reads c
behind o (closes p c) = closes (o ++ p) c
behind o (fails p c) = fails (o ++ p) c
behind o (waits p) = waits (o ++ p)
behind o (throws p) = throws (o ++ p)
behind o (exhausted p) = exhausted (o ++ p)

-- The end of the loops goes on with what follows.
abbrev pub and_next : Ending → (List Recv → FileCache → Ending) → Ending
and_next (keeps o reads c) k = behind o (k reads c)
and_next (closes o c) k = closes o c
and_next (fails o c) k = fails o c
and_next (waits o) k = waits o
and_next (throws o) k = throws o
and_next (exhausted o) k = exhausted o

-- The bytes that the calls of `recv` give.
abbrev pub total : List Recv → ℕ
total [] = 0
total (received chunk ∷ reads) = length chunk + total reads
total (r ∷ reads) = total reads

abbrev pub is_http_1_1 : HttpVersion → Bool
is_http_1_1 http_1_1 = true
is_http_1_1 _ = false

abbrev pub lacks_host : HttpRequest → Bool
lacks_host request = is_http_1_1 request.version && not (has_header (codes "host") request.headers)

-- `send_error_response`, and `nullopt`.
abbrev pub bad : Bytes → FileCache → Ending
bad message c = fails (response (error_response bad_request message (codes "text/plain")) ∷ []) c

-- `REQUEST_BUFFER_SIZE` of include/http_constants.hpp.
abbrev pub request_buffer_size : ℕ
request_buffer_size = 1024

-- What calls of `recv` with a buffer of that size give for a chunk that is there, on fuel: its
-- length is enough.
unfoldable pub limited_chunk : ℕ → Bytes → List Recv
limited_chunk zero chunk = received chunk ∷ []
limited_chunk (suc fuel) chunk =
    let rest = limited_chunk fuel (drop request_buffer_size chunk) in
    if leb (length chunk) request_buffer_size
    then received chunk ∷ []
    else received (take request_buffer_size chunk) ∷ rest

unfoldable pub limited : List Recv → List Recv
limited [] = []
limited (received chunk ∷ reads) = limited_chunk (length chunk) chunk ++ limited reads
limited (r ∷ reads) = r ∷ limited reads

module _ {Json : Type 0} (setting : Setting Json) where
  -- The loop of `process_websocket`. What one call of `recv` gives is one frame to `process_frame`.
  unfoldable pub websocket_loop : WebSocketHandler → List Recv → FileCache → Ending
  websocket_loop handler [] c = waits []
  websocket_loop handler (received chunk ∷ reads) c =
      let (go_on, sends) =
        process_frame setting.char_signed handler setting.connection_id setting.request_id chunk in
      elim go_on [
        | true ↦ behind (map frame sends) (websocket_loop handler reads c)
        | false ↦ closes (map frame sends) c
      ]
  websocket_loop handler (r ∷ reads) c = closes [] c

  unfoldable pub process_websocket : HttpRequest → List Recv → FileCache → Ending
  process_websocket request reads c =
      elim (get_websocket_handler setting.library setting.router request) [
        | none ↦ closes [] c
        | some handler ↦
            if setting.timeout_is_set then websocket_loop handler (limited reads) c else closes [] c
      ]

  -- The response of the router to a request with WebSocket data, and to any other one.
  unfoldable pub answer_upgrade : HttpRequest → List Recv → HttpResponse × FileCache → Ending
  answer_upgrade request reads (r, c) = elim r.body [
    | text body ↦ bad (codes "Invalid WebSocket route") c
    | stream body ↦ bad (codes "Invalid WebSocket route") c
    | websocket accept ↦ behind (response r ∷ []) (process_websocket request reads c)
  ]

  unfoldable pub answer_plain : HttpRequest → List Recv → HttpResponse × FileCache → Ending
  answer_plain request reads (r, c) =
      if should_keep_alive request
      then keeps (response (with_header (codes "Connection") (codes "keep-alive") r) ∷ []) reads c
      else closes (response (with_header (codes "Connection") (codes "close") r) ∷ []) c

  -- The rest of the body of the loop, behind the parser.
  unfoldable pub answer_request : HttpRequest → Option Json → List Recv → FileCache → Ending
  answer_request request json_body reads c =
      if lacks_host request
      then bad (codes "Missing Host header") c
      else (elim (route setting.library request setting.fs setting.router json_body c) [
        | none ↦ throws []
        | some answer ↦ elim request.websocket_data [
          | some ws_data ↦ answer_upgrade request reads answer
          | none ↦ answer_plain request reads answer
        ]
      ])

  unfoldable pub answer_piece : Piece Json → FileCache → Ending
  answer_piece p c = elim (parse p.text) [
    | none ↦ bad (codes "Malformed request") c
    | some request ↦ answer_request request p.json_body p.reads c
  ]

  -- The loop over the requests in the buffer; `keep_alive` is that of the last one.
  unfoldable pub requests_loop : ℕ → Bool → ℕ → Bytes → List Recv → FileCache → Ending
  requests_loop zero keep_alive processed_bytes raw reads c = exhausted []
  requests_loop (suc fuel) keep_alive processed_bytes raw reads c =
      elim (ltb processed_bytes (length raw)) [
        | false ↦ if keep_alive then keeps [] reads c else closes [] c
        | true ↦ elim (cut_request setting processed_bytes raw reads) [
          | incomplete ↦ fails [] c
          | invalid_json ↦ bad (codes "Invalid JSON") c
          | pending ↦ waits []
          | piece p ↦ and_next (answer_piece p c) (requests_loop fuel true p.processed_bytes p.raw)
        ]
      ]

  -- Each round takes two bytes at least, of those that are there or still come.
  unfoldable pub process_single_request : List Recv → FileCache → Ending
  process_single_request reads c =
      elim (read_requests setting.max_header_size setting.max_content_length reads) [
        | returned raw rest ↦ requests_loop (suc (length raw + total rest)) false 0 raw rest c
        | refused ↦ fails [] c
        | timed_out ↦
            fails (response (status_error_response request_timeout (codes "text/plain")) ∷ []) c
        | waiting ↦ waits []
      ]

  -- The loop of `handle`, on `max_requests - handled_requests`.
  unfoldable pub handle : ℕ → List Recv → FileCache → Ending
  handle zero reads c = closes [] c
  handle (suc left) reads c = and_next (process_single_request reads c) (handle left)
