-- ===== src/Client/Process/Pipeline.antt =====
-- Pipelined requests: heads that stand one behind the other in the buffer.
use gouda_http_server.Common.{
  drop-drop, ℕ, zero, suc, ◌+◌, ◌<◌, ◌≡◌, refl, sym, ap, ◌∙◌, Bool, true, false, Option, none, some,
  List, [], ◌∷◌, ◌++◌, lt→ltb, ge→ltb, length, take, drop, length-append, length-drop,
  take-length_append, drop-length_append, All, arith,
}
use gouda_http_server.Common.Search.{find-append}
use gouda_http_server.Common.Bytes.{Bytes, codes, find}
use gouda_http_server.Cache.{FileCache}
use gouda_http_server.Client.{Recv, returned, should_keep_alive, get_content_length, read_requests}
use gouda_http_server.Client.Cut.{Setting, cut_head, piece, cut_request}
use gouda_http_server.Client.Process.{
  Output, response, Ending, keeps, throws, behind, and_next, lacks_host, answer_plain,
  answer_upgrade, answer_request, answer_piece, requests_loop, process_single_request,
}
use gouda_http_server.Http.Message.{HttpRequest, HttpResponse, WebSocketRequestData}
use gouda_http_server.Parser.{parse}
use gouda_http_server.Router.Dispatch.{route}
use gouda_http_server.Router.Responses.{with_header}

-- A response that keeps the connection.
abbrev pub kept : HttpResponse → List Output
kept r = response (with_header (codes "Connection") (codes "keep-alive") r) ∷ []

module _ {Json : Type 0} (setting : Setting Json) where
  -- A head with no body, of a request that is answered and keeps the connection.
  pub record IsPlain (head : Bytes) (request : HttpRequest) : Type 0 where
    pub head_end : ℕ
    pub found : find (codes "\r\n\r\n") head ≡ some head_end
    pub is_end : length head ≡ head_end + 4
    pub no_body : get_content_length setting.max_content_length head ≡ some 0
    pub parsed : parse head ≡ some request
    pub has_host : lacks_host request ≡ false
    pub no_upgrade : request.websocket_data ≡ none
    pub keeps_alive : should_keep_alive request ≡ true

  abbrev pub raw_of : List (Bytes × HttpRequest) → Bytes
  raw_of [] = []
  raw_of ((head, request) ∷ ps) = head ++ raw_of ps

  -- The requests one after the other, each with the cache that the one before leaves.
  abbrev pub answers : List Recv → List (Bytes × HttpRequest) → FileCache → Ending
  answers rest [] c = keeps [] rest c
  answers rest ((head, request) ∷ ps) c =
      elim (route setting.library request setting.fs setting.router none c) [
        | none ↦ throws []
        | some (r, c') ↦ behind (kept r) (answers rest ps c')
      ]

  cut_request-IsPlain :
      (k : ℕ) (raw t head : Bytes) (request : HttpRequest) (reads : List Recv)
      → IsPlain head request
      → drop k raw ≡ head ++ t
      → cut_request setting k raw reads
        ≡ piece (record {
          text = head;
          json_body = none;
          processed_bytes = k + length head;
          raw = raw;
          reads = reads;
        })
  unfolding cut_request cut_head
  cut_request-IsPlain k raw t head request reads i d =
      let found =
        ap (find (codes "\r\n\r\n")) d ∙ find-append (codes "\r\n\r\n") head t i.head_end i.found in
      let taken =
        ap (take (i.head_end + 4)) d
        ∙ (ap (λ n. take n (head ++ t)) (sym i.is_end) ∙ take-length_append head t) in
      let moved : k + i.head_end + 4 ≡ k + length head = omega (arith, i.is_end) in
      rw (found, taken, i.no_body, cut_request, cut_head, taken, moved)

  answered-plain :
      (request : HttpRequest) (reads : List Recv) (w : Option WebSocketRequestData)
      (o : Option (HttpResponse × FileCache))
      → w ≡ none
      → should_keep_alive request ≡ true
      → (elim o [
        | none ↦ throws []
        | some answer ↦ elim w [
          | some ws_data ↦ answer_upgrade setting request reads answer
          | none ↦ answer_plain setting request reads answer
        ]
      ])
        ≡ (elim o [ none ↦ throws [] | some (r, c') ↦ keeps (kept r) reads c' ])
  unfolding answer_plain
  answered-plain request reads w none h k = refl
  answered-plain request reads none (some (r, c)) h k = rw k
  answered-plain request reads (some ws_data) (some (r, c)) h k = cc

  answer_piece-IsPlain :
      (k : ℕ) (raw head : Bytes) (request : HttpRequest) (reads : List Recv) (c : FileCache)
      → IsPlain head request
      → answer_piece setting
          (record { text = head; json_body = none; processed_bytes = k; raw = raw; reads = reads })
          c
        ≡ (elim (route setting.library request setting.fs setting.router none c) [
          | none ↦ throws []
          | some (r, c') ↦ keeps (kept r) reads c'
        ])
  unfolding answer_piece answer_request
  answer_piece-IsPlain k raw head request reads c i =
      rw (i.parsed, answer_piece, i.has_host)
        (answered-plain request reads request.websocket_data
          (route setting.library request setting.fs setting.router none c) i.no_upgrade
          i.keeps_alive)

  abbrev IsReady : Bool → List (Bytes × HttpRequest) → Type 0
  IsReady false [] = ⊥
  IsReady _ _ = Unit

  requests_loop-answers :
      (fuel : ℕ) (keep_alive : Bool) (k : ℕ) (raw : Bytes) (reads : List Recv) (c : FileCache)
      (ps : List (Bytes × HttpRequest))
      → IsReady keep_alive ps
      → All (λ p. IsPlain p.0 p.1) ps
      → drop k raw ≡ raw_of ps
      → length (raw_of ps) < fuel
      → requests_loop setting fuel keep_alive k raw reads c ≡ answers reads ps c
  unfolding requests_loop
  requests_loop-answers zero keep_alive k raw reads c ps r a d f = absurd (omega arith)
  requests_loop-answers (suc fuel) true k raw reads c [] r a d f =
      rw (ge→ltb k (length raw) (omega (arith, length-drop k raw, ap length d)), requests_loop)
  requests_loop-answers (suc fuel) false k raw reads c [] r a d f = absurd r
  requests_loop-answers (suc fuel) keep_alive k raw reads c ((head, request) ∷ ps) r (i, a) d f =
      let t = raw_of ps in
      let l = length-append head t in
      let more =
        lt→ltb k (length raw) (omega (arith, length-drop k raw, ap length d, l, i.is_end)) in
      let next = k + length head in
      let d' =
        drop-drop k (length head) raw ∙ (ap (drop (length head)) d ∙ drop-length_append head t) in
      rw
        (
          more,
          cut_request-IsPlain k raw t head request reads i d,
          requests_loop,
          answer_piece-IsPlain next raw head request reads c i,
        )
        (onward _ (route setting.library request setting.fs setting.router none c) (λ c'.
          requests_loop-answers fuel true next raw reads c' ps tt a d'
            (omega (arith, l, i.is_end))))
    where
      onward :
          (next : List Recv → FileCache → Ending) (o : Option (HttpResponse × FileCache))
          → ((c : FileCache) → next reads c ≡ answers reads ps c)
          → and_next (elim o [ none ↦ throws [] | some (r, c') ↦ keeps (kept r) reads c' ]) next
            ≡ (elim o [ none ↦ throws [] | some (r, c') ↦ behind (kept r) (answers reads ps c') ])
      onward next none g = refl
      onward next (some (r, c')) g = ap (behind (kept r)) (g c')

  -- Let the bytes that were read be heads of requests with no body, one behind the other, each of
  -- them with a host if its version is 1.1, no upgrade, and a connection that is kept. Then they are
  -- answered one after the other, in their order, each by the router with the cache that the one
  -- before left.
  pub process_single_request-answers :
      (reads rest : List Recv) (c : FileCache) (p : Bytes × HttpRequest)
      (ps : List (Bytes × HttpRequest))
      → All (λ p. IsPlain p.0 p.1) (p ∷ ps)
      → read_requests setting.max_header_size setting.max_content_length reads
        ≡ returned (raw_of (p ∷ ps)) rest
      → process_single_request setting reads c ≡ answers rest (p ∷ ps) c
  unfolding process_single_request
  process_single_request-answers reads rest c p ps a e =
      rw (e, process_single_request)
        (requests_loop-answers _ false 0 (raw_of (p ∷ ps)) rest c (p ∷ ps) tt a refl (omega arith))
