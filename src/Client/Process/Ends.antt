-- ===== src/Client/Process/Ends.antt =====
-- That the loops of a connection end.
pub mod Reads
pub mod Cuts
pub mod Rounds
use gouda_http_server.Common.{
  either, ℕ, zero, suc, ◌+◌, ◌*◌, ◌-◌, ◌%◌, ◌^◌, ◌≤◌, ◌<◌, ◌≡◌, refl, sym, ap, ◌∙◌, subst, Bool,
  true, false, ◌&&◌, not, Option, none, some, List, [], ◌∷◌, ◌++◌, ltb, if◌then◌else◌, length, take,
  drop, length-drop, arith, Bool-cases, Option-cases, inl, inr,
}
use gouda_http_server.Common.Bytes.{Bytes, codes, find, starts_with}
use gouda_http_server.Cache.{FileCache}
use gouda_http_server.Client.{
  Recv, received, closed, would_block, failed, Outcome, returned, refused, timed_out, waiting,
  should_keep_alive, get_content_length, read_requests,
}
use gouda_http_server.Client.Complete.{get_content_length-le}
use gouda_http_server.Client.Head.{Returns}
use gouda_http_server.Client.Cut.{
  Setting, cut_head, Piece, Cut, piece, incomplete, invalid_json, pending, complete_body, cut_body,
  cut_request,
}
use gouda_http_server.Client.Process.{
  lacks_host, Output, response, bad, Ending, keeps, closes, fails, waits, throws, exhausted, behind,
  and_next, websocket_loop, process_websocket, answer_upgrade, answer_plain, answer_request,
  answer_piece, requests_loop, total, process_single_request, handle,
}
use gouda_http_server.Client.Process.Ends.Reads.{read_requests-total}
use gouda_http_server.Client.Process.Ends.Cuts.{IsNext, cut_request-IsNext}
use gouda_http_server.Http.Message.{
  HttpRequest, HttpResponse, WebSocketRequestData, text, stream, websocket,
}
use gouda_http_server.Client.Send.{status_error_response}
use gouda_http_server.Http.Status.{request_timeout}
use gouda_http_server.Parser.{parse}
use gouda_http_server.Router.Dispatch.{route}
use gouda_http_server.Router.Routes.{WebSocketHandler, get_websocket_handler}
use gouda_http_server.Client.Process.Ends.Rounds.{Stays, IsLast, behind-IsLast, answer_piece-Stays}

-- The end of a loop is not the end of the fuel, and where the connection goes on, at most `b` bytes
-- still come.
abbrev Within : ℕ → Ending → Type 0
Within b (keeps o rest c) = total rest ≤ b
Within b (exhausted o) = ⊥
Within b _ = Unit

behind-Within : (b : ℕ) (o : List Output) (e : Ending) → Within b e → Within b (behind o e)
behind-Within b o (keeps p rest c) h = h
behind-Within b o (closes p c) h = tt
behind-Within b o (fails p c) h = tt
behind-Within b o (waits p) h = tt
behind-Within b o (throws p) h = tt
behind-Within b o (exhausted p) h = h

and_next-Within :
    (b : ℕ) (reads : List Recv) (e : Ending) (k : List Recv → FileCache → Ending)
    → Stays reads e
    → ((c : FileCache) → Within b (k reads c))
    → Within b (and_next e k)
and_next-Within b reads (keeps o rest c) k h f =
    behind-Within b o (k rest c) (subst (λ r. Within b (k r c)) (sym h) (f c))
and_next-Within b reads (closes o c) k h f = tt
and_next-Within b reads (fails o c) k h f = tt
and_next-Within b reads (waits o) k h f = tt
and_next-Within b reads (throws o) k h f = tt
and_next-Within b reads (exhausted o) k h f = h

weaken : (a b : ℕ) (e : Ending) → a ≤ b → Within a e → Within b e
weaken a b (keeps o rest c) l h = omega (arith, l, h)
weaken a b (closes o c) l h = tt
weaken a b (fails o c) l h = tt
weaken a b (waits o) l h = tt
weaken a b (throws o) l h = tt
weaken a b (exhausted o) l h = h

module _ {Json : Type 0} (setting : Setting Json) where
  round-Within :
      (k sum : ℕ) (c : FileCache) (next : Piece Json → List Recv → FileCache → Ending)
      (o : Cut Json)
      → IsNext setting k sum o
      → ((p : Piece Json)
          → IsNext setting k sum (piece p)
          → (c : FileCache) → Within sum (next p p.reads c))
      → Within sum (elim o [
        | incomplete ↦ fails [] c
        | invalid_json ↦ bad (codes "Invalid JSON") c
        | pending ↦ waits []
        | piece p ↦ and_next (answer_piece setting p c) (next p)
      ])
  round-Within k sum c next incomplete h f = tt
  round-Within k sum c next invalid_json h f = tt
  round-Within k sum c next pending h f = tt
  round-Within k sum c next (piece p) h f =
      and_next-Within sum p.reads (answer_piece setting p c) (next p)
        (answer_piece-Stays setting p c) (f p h)

  requests_loop-Within :
      (fuel : ℕ) (keep_alive : Bool) (processed_bytes : ℕ) (raw : Bytes) (reads : List Recv)
      (c : FileCache)
      → processed_bytes ≤ length raw
      → length raw + total reads < fuel + processed_bytes
      → length raw + total reads + setting.max_content_length < 2 ^ 64
      → Within
          (length raw + total reads)
          (requests_loop setting fuel keep_alive processed_bytes raw reads c)
  unfolding requests_loop
  requests_loop-Within zero keep_alive k raw reads c l f b = absurd (omega arith)
  requests_loop-Within (suc fuel) keep_alive k raw reads c l f b =
      elim (Bool-cases (ltb k (length raw))) [
        | inr e ↦
            rw (e, requests_loop)
              (either (Within (length raw + total reads)) keep_alive (omega arith) tt)
        | inl e ↦
            rw (e, requests_loop)
              (round-Within k (length raw + total reads) c
                (λ p. requests_loop setting fuel true p.processed_bytes p.raw)
                (cut_request setting k raw reads) (cut_request-IsNext setting k raw reads l b)
                (λ p (n, m, same) c'.
                  subst
                    (λ s.
                      Within s (requests_loop setting fuel true p.processed_bytes p.raw p.reads c'))
                    same
                    (requests_loop-Within fuel true p.processed_bytes p.raw p.reads c' m
                      (omega arith) (omega arith))))
      ]

  process_single_request-Within :
      (reads : List Recv) (c : FileCache)
      → total reads + setting.max_content_length + 4 < 2 ^ 64
      → Within (total reads + 4) (process_single_request setting reads c)
  unfolding process_single_request
  process_single_request-Within reads c b =
      go (read_requests setting.max_header_size setting.max_content_length reads)
        (read_requests-total setting.max_header_size setting.max_content_length reads (omega arith))
    where
      go :
          (o : Outcome Bytes)
          → Returns (λ buffer rest. length buffer + total rest ≤ total reads + 4) o
          → Within (total reads + 4) (elim o [
            | returned raw rest ↦
                requests_loop setting (suc (length raw + total rest)) false 0 raw rest c
            | refused ↦ fails [] c
            | timed_out ↦
                fails (response (status_error_response request_timeout (codes "text/plain")) ∷ []) c
            | waiting ↦ waits []
          ])
      go (returned raw rest) h = weaken (length raw + total rest) (total reads + 4) _ h (
          requests_loop-Within (suc (length raw + total rest)) false 0 raw rest c (omega arith)
            (omega arith) (omega arith))
      go refused h = tt
      go timed_out h = tt
      go waiting h = tt

  next-IsLast :
      (b : ℕ) (e : Ending) (k : List Recv → FileCache → Ending)
      → Within b e
      → ((rest : List Recv) (c : FileCache) → total rest ≤ b → IsLast (k rest c))
      → IsLast (and_next e k)
  next-IsLast b (keeps o rest c) k h f = behind-IsLast o (k rest c) (f rest c h)
  next-IsLast b (closes o c) k h f = tt
  next-IsLast b (fails o c) k h f = tt
  next-IsLast b (waits o) k h f = tt
  next-IsLast b (throws o) k h f = tt
  next-IsLast b (exhausted o) k h f = h

  -- Let the bytes that `recv` gives, the limit on bodies and four bytes for each round of `handle`
  -- fit in 64 bits together. Then no loop of the connection runs out of its fuel, whatever the client
  -- sends, and the connection ends: it is closed or fails, an exception of the router leaves it, or
  -- it waits for `recv`.
  pub handle-IsLast :
      (left : ℕ) (reads : List Recv) (c : FileCache)
      → total reads + setting.max_content_length + 4 * left < 2 ^ 64
      → IsLast (handle setting left reads c)
  unfolding handle
  handle-IsLast zero reads c b = tt
  handle-IsLast (suc left) reads c b =
      next-IsLast (total reads + 4) (process_single_request setting reads c) (handle setting left)
        (process_single_request-Within reads c (omega arith))
        (λ rest c' l. handle-IsLast left rest c' (omega arith))
