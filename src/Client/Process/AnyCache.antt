-- ===== src/Client/Process/AnyCache.antt =====
-- The file cache does not show in what a connection sends, when it does not show in what `route`
-- answers.
use gouda_http_server.Common.{
  ℕ, zero, suc, ◌+◌, ◌≡◌, refl, Bool, true, false, Option, none, some, List, [], ◌∷◌, map, ltb,
  length, Bool-cases, Option-cases, inl, inr,
}
use gouda_http_server.Common.Bytes.{Bytes, codes}
use gouda_http_server.Cache.{empty}
use gouda_http_server.Client.{
  Recv, received, closed, would_block, failed, Outcome, returned, refused, timed_out, waiting,
  should_keep_alive, read_requests,
}
use gouda_http_server.Client.Cut.{
  Setting, Piece, Cut, piece, incomplete, invalid_json, pending, cut_request,
}
use gouda_http_server.Client.Process.{
  response, frame, keeps, closes, fails, waits, throws, exhausted, and_next, bad, lacks_host,
  limited, websocket_loop, process_websocket, answer_upgrade, answer_plain, answer_request,
  answer_piece, requests_loop, total, process_single_request, handle,
}
use gouda_http_server.Client.Process.Steady.{SteadyRun, ends, behind-Steady, and_next-Steady}
use gouda_http_server.Http.Message.{
  HttpRequest, HttpResponse, ResponseBody, text, stream, websocket,
}
use gouda_http_server.Http.Status.{request_timeout}
use gouda_http_server.Client.Send.{status_error_response}
use gouda_http_server.Router.Responses.{with_header}
use gouda_http_server.Parser.{parse}
use gouda_http_server.Router.Dispatch.{route}
use gouda_http_server.Router.Routes.{WebSocketHandler, get_websocket_handler}
use gouda_http_server.Router.Static.Steady.{Steady}
use gouda_http_server.WebSocket.Handler.{process_frame}

module _ {Json : Type 0} (setting : Setting Json) where
  websocket_loop-Steady :
      (handler : WebSocketHandler) (reads : List Recv)
      → SteadyRun setting.fs (websocket_loop setting handler reads)
  unfolding websocket_loop
  websocket_loop-Steady handler [] = ends setting.fs (waits [])
  websocket_loop-Steady handler (received chunk ∷ reads) =
      let (go_on, sends) =
        process_frame setting.char_signed handler setting.connection_id setting.request_id chunk in
      elim (Bool-cases go_on) [
        | inl e ↦
            rw (e, websocket_loop)
              (behind-Steady setting.fs (map frame sends) _ (websocket_loop-Steady handler reads))
        | inr e ↦ rw (e, websocket_loop) (ends setting.fs (closes (map frame sends) empty))
      ]
  websocket_loop-Steady handler (closed ∷ reads) = ends setting.fs (closes [] empty)
  websocket_loop-Steady handler (would_block ∷ reads) = ends setting.fs (closes [] empty)
  websocket_loop-Steady handler (failed ∷ reads) = ends setting.fs (closes [] empty)

  process_websocket-Steady :
      (request : HttpRequest) (reads : List Recv)
      → SteadyRun setting.fs (process_websocket setting request reads)
  unfolding process_websocket
  process_websocket-Steady request reads =
      elim (Option-cases (get_websocket_handler setting.library setting.router request)) [
        | inl e ↦ rw (e, process_websocket) (ends setting.fs (closes [] empty))
        | inr (handler, e) ↦ elim (Bool-cases setting.timeout_is_set) [
          | inl g ↦ simp (e, g, process_websocket) (websocket_loop-Steady handler (limited reads))
          | inr g ↦ simp (e, g, process_websocket) (ends setting.fs (closes [] empty))
        ]
      ]

  upgrade-Steady :
      (request : HttpRequest) (reads : List Recv) (r : HttpResponse) (b : ResponseBody)
      → r.body ≡ b
      → SteadyRun setting.fs (λ c. answer_upgrade setting request reads (r, c))
  unfolding answer_upgrade
  upgrade-Steady request reads r (text s) e =
      simp (e, answer_upgrade) (ends setting.fs (bad (codes "Invalid WebSocket route") empty))
  upgrade-Steady request reads r (stream s) e =
      simp (e, answer_upgrade) (ends setting.fs (bad (codes "Invalid WebSocket route") empty))
  upgrade-Steady request reads r (websocket accept) e =
      simp (e, answer_upgrade)
        (behind-Steady setting.fs (response r ∷ []) _ (process_websocket-Steady request reads))

  plain-Steady :
      (request : HttpRequest) (reads : List Recv) (r : HttpResponse)
      → SteadyRun setting.fs (λ c. answer_plain setting request reads (r, c))
  unfolding answer_plain
  plain-Steady request reads r = elim (Bool-cases (should_keep_alive request)) [
    | inl e ↦
        simp (e, answer_plain)
          (ends setting.fs (
            keeps (response (with_header (codes "Connection") (codes "keep-alive") r) ∷ []) reads
              empty))
    | inr e ↦
        simp (e, answer_plain)
          (ends setting.fs
            (closes (response (with_header (codes "Connection") (codes "close") r) ∷ []) empty))
  ]

  -- What follows a response of the router, at each cache.
  answer-Steady :
      (request : HttpRequest) (reads : List Recv) (r : HttpResponse)
      → SteadyRun setting.fs (λ c. elim request.websocket_data [
        | some ws_data ↦ answer_upgrade setting request reads (r, c)
        | none ↦ answer_plain setting request reads (r, c)
      ])
  answer-Steady request reads r = elim (Option-cases request.websocket_data) [
    | inl e ↦ simp e (plain-Steady request reads r)
    | inr (d, e) ↦ simp e (upgrade-Steady request reads r r.body refl)
  ]

  -- The router answers every request alike, whatever the cache.
  module _
      (steady : (request : HttpRequest) (json_body : Option Json)
        → Steady setting.fs
            (route setting.library request setting.fs setting.router json_body)) where
    answer_request-Steady :
        (request : HttpRequest) (json_body : Option Json) (reads : List Recv)
        → SteadyRun setting.fs (answer_request setting request json_body reads)
    unfolding answer_request
    answer_request-Steady request json_body reads = elim (Bool-cases (lacks_host request)) [
      | inl e ↦ rw (e, answer_request) (ends setting.fs (bad (codes "Missing Host header") empty))
      | inr e ↦ rw (e, answer_request) (routed (steady request json_body))
    ]
      where
        routed :
            Steady setting.fs (route setting.library request setting.fs setting.router json_body)
            → SteadyRun setting.fs (λ c.
              elim (route setting.library request setting.fs setting.router json_body c) [
                | none ↦ throws []
                | some answer ↦ elim request.websocket_data [
                  | some ws_data ↦ answer_upgrade setting request reads answer
                  | none ↦ answer_plain setting request reads answer
                ]
              ])
        routed (none, s) = (throws [], λ c w i. let (c', w', j, p) = s c w i in (c', w', j, rw p))
        routed (some r, s) =
            let (e, next) = answer-Steady request reads r in
            (
              e,
              λ c w i.
                  let (c', w', j, p) = s c w i in
                  let (b, v, l, q) = next c' w' j in (b, v, l, rw p q),
            )

    answer_piece-Steady : (p : Piece Json) → SteadyRun setting.fs (answer_piece setting p)
    unfolding answer_piece
    answer_piece-Steady p = elim (Option-cases (parse p.text)) [
      | inl e ↦ simp (e, answer_piece) (ends setting.fs (bad (codes "Malformed request") empty))
      | inr (request, e) ↦
          simp (e, answer_piece) (answer_request-Steady request p.json_body p.reads)
    ]

    requests_loop-Steady :
        (fuel : ℕ) (keep_alive : Bool) (processed_bytes : ℕ) (raw : Bytes) (reads : List Recv)
        → SteadyRun setting.fs (requests_loop setting fuel keep_alive processed_bytes raw reads)
    unfolding requests_loop
    requests_loop-Steady zero keep_alive n raw reads = ends setting.fs (exhausted [])
    requests_loop-Steady (suc fuel) keep_alive n raw reads =
        elim (Bool-cases (ltb n (length raw))) [
          | inr e ↦ elim (Bool-cases keep_alive) [
            | inl g ↦ rw (e, g, requests_loop) (ends setting.fs (keeps [] reads empty))
            | inr g ↦ rw (e, g, requests_loop) (ends setting.fs (closes [] empty))
          ]
          | inl e ↦
              rw (e, requests_loop)
                (cut (requests_loop-Steady fuel true) (cut_request setting n raw reads))
        ]
      where
        cut :
            ((n : ℕ) (raw : Bytes) (reads : List Recv)
              → SteadyRun setting.fs (requests_loop setting fuel true n raw reads))
            → (o : Cut Json)
            → SteadyRun setting.fs (λ c. elim o [
              | incomplete ↦ fails [] c
              | invalid_json ↦ bad (codes "Invalid JSON") c
              | pending ↦ waits []
              | piece p ↦
                  and_next
                    (answer_piece setting p c)
                    (requests_loop setting fuel true p.processed_bytes p.raw)
            ])
        cut next incomplete = ends setting.fs (fails [] empty)
        cut next invalid_json = ends setting.fs (bad (codes "Invalid JSON") empty)
        cut next pending = ends setting.fs (waits [])
        cut next (piece p) =
            and_next-Steady setting.fs (answer_piece setting p) _ (answer_piece-Steady p)
              (next p.processed_bytes p.raw)

    process_single_request-Steady :
        (reads : List Recv) → SteadyRun setting.fs (process_single_request setting reads)
    unfolding process_single_request
    process_single_request-Steady reads =
        after_reading (read_requests setting.max_header_size setting.max_content_length reads)
      where
        after_reading :
            (o : Outcome Bytes)
            → SteadyRun setting.fs (λ c. elim o [
              | returned raw rest ↦
                  requests_loop setting (suc (length raw + total rest)) false 0 raw rest c
              | refused ↦ fails [] c
              | timed_out ↦
                  fails
                    (response (status_error_response request_timeout (codes "text/plain")) ∷ [])
                    c
              | waiting ↦ waits []
            ])
        after_reading (returned raw rest) =
            requests_loop-Steady (suc (length raw + total rest)) false 0 raw rest
        after_reading refused = ends setting.fs (fails [] empty)
        after_reading timed_out = ends setting.fs (
            fails (response (status_error_response request_timeout (codes "text/plain")) ∷ [])
              empty)
        after_reading waiting = ends setting.fs (waits [])

    pub handle-Steady :
        (left : ℕ) (reads : List Recv) → SteadyRun setting.fs (handle setting left reads)
    unfolding handle
    handle-Steady zero reads = ends setting.fs (closes [] empty)
    handle-Steady (suc left) reads =
        and_next-Steady setting.fs (process_single_request setting reads) _
          (process_single_request-Steady reads) (handle-Steady left)
