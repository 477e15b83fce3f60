-- ===== src/Client/Process/Wire.antt =====
-- What goes out on the wire for a whole connection.
use mathlib.Core.Option.{some-injective}
use gouda_http_server.Common.{
  ℕ, ◌+◌, ◌≤◌, ◌<◌, ◌≡◌, refl, sym, ap, ◌∙◌, Option, none, some, List, [], ◌∷◌, ◌++◌, append-nil,
  map, All, length, length-append, take, arith, Option-cases, inl, inr,
}
use gouda_http_server.Common.Bytes.{Bytes, codes}
use gouda_http_server.Cache.{FileCache}
use gouda_http_server.Client.{Recv}
use gouda_http_server.Client.Cut.{Setting}
use gouda_http_server.Client.Process.{
  Output, response, frame, keeps, closes, behind, and_next, handle,
}
use gouda_http_server.Client.Process.Conversation.{IsSent, sent, whole, handle-answers}
use gouda_http_server.Client.Process.Pipeline.{kept, answers}
use gouda_http_server.Client.Send.{
  Send, accepted, send_failed, Transfer, done, stopped, blocked, prepend, send_raw,
}
use gouda_http_server.Client.Send.Delivered.{
  IsProgress, Delivers, message, send_body-Delivers, prepend-Delivers,
}
use gouda_http_server.Http.Message.{HttpRequest, HttpResponse}
use gouda_http_server.Router.Dispatch.{route}
use gouda_http_server.Router.Outside.{FileSystem, Library}
use gouda_http_server.Router.Responses.{with_header}

-- The next output follows whatever became of the last one, unless that waits.
abbrev go_on : Transfer → (List Send → Transfer) → Transfer
go_on (done s sends) k = prepend s (k sends)
go_on (stopped s sends) k = prepend s (k sends)
go_on (blocked s) k = blocked s

go_on-Delivers :
    (s t : Bytes) (r : Transfer) (k : List Send → Transfer)
    → Delivers s (length t + 0) r
    → ((sends : List Send)
        → All IsProgress sends
        → length t + 0 ≤ length sends
        → Delivers t 0 (k sends))
    → Delivers (s ++ t) 0 (go_on r k)
go_on-Delivers s t r k (rest, p, l, e) f = rw e (prepend-Delivers s t 0 (k rest) (f rest p l))

module _ (fs : FileSystem) (library : Library) where
  abbrev pub messages : List HttpResponse → Bytes
  messages [] = []
  messages (r ∷ rs) = message fs library r ++ messages rs

module _ (stream_buffer_size : ℕ) (fs : FileSystem) (library : Library) where
  -- A response goes through `send_raw`; a frame is one call of `send`, whatever that takes.
  unfoldable pub send_output : Output → List Send → Transfer
  send_output (response r) sends = send_raw stream_buffer_size fs library r sends
  send_output (frame f) [] = blocked []
  send_output (frame f) (accepted n ∷ sends) = done (take n f) sends
  send_output (frame f) (send_failed ∷ sends) = done [] sends

  -- The outputs of a connection, one after the other.
  unfoldable pub transmit : List Output → List Send → Transfer
  transmit [] sends = done [] sends
  transmit (o ∷ os) sends = go_on (send_output o sends) (transmit os)

  transmit-Delivers :
      0 < stream_buffer_size
      → (rs : List HttpResponse) (sends : List Send) → All IsProgress sends
      → length (messages fs library rs) ≤ length sends
      → Delivers (messages fs library rs) 0 (transmit (map response rs) sends)
  unfolding transmit send_output
  transmit-Delivers b [] sends p h = (sends, p, omega arith, refl)
  transmit-Delivers b (r ∷ rs) sends p h =
      go_on-Delivers (message fs library r) (messages fs library rs) _ (transmit (map response rs))
        (send_body-Delivers stream_buffer_size b fs library r r.body sends
          (length (messages fs library rs) + 0) p
          (omega (arith, h, length-append (message fs library r) (messages fs library rs))))
        (λ rest q l. transmit-Delivers b rs rest q (omega (arith, l)))

module _ {Json : Type 0} (setting : Setting Json) where
  -- The responses to requests that come one after the other, each made with the cache that the one
  -- before leaves, and with the header of a connection that is kept.
  unfoldable pub replies :
      List (Bytes × HttpRequest) → FileCache → Option (List HttpResponse × FileCache)
  replies [] c = some ([], c)
  replies ((head, request) ∷ ps) c =
      elim (route setting.library request setting.fs setting.router none c) [
        | none ↦ none
        | some (r, c') ↦ elim (replies ps c') [
          | none ↦ none
          | some (rs, c1) ↦ some (with_header (codes "Connection") (codes "keep-alive") r ∷ rs, c1)
        ]
      ]

  answers-replies :
      (rest : List Recv) (ps : List (Bytes × HttpRequest)) (c c' : FileCache)
      (rs : List HttpResponse)
      → replies ps c ≡ some (rs, c')
      → answers setting rest ps c ≡ keeps (map response rs) rest c'
  unfolding replies
  answers-replies rest [] c c' rs e =
      ap (λ p. keeps (map response p.0) rest p.1) (some-injective _ _ e)
  answers-replies rest ((head, request) ∷ ps) c c' rs e =
      elim (Option-cases (route setting.library request setting.fs setting.router none c)) [
        | inl g ↦ absurd (cc (rw (g, replies) at e))
        | inr ((r, c1), g) ↦ elim (Option-cases (replies ps c1)) [
          | inl k ↦ absurd (cc (rw (g, k, replies) at e))
          | inr ((qs, c2), k) ↦
              rw (g, answers)
                (ap (behind (kept r)) (answers-replies rest ps c1 c2 qs k)
                  ∙ ap (λ p. keeps (map response p.0) rest p.1)
                      (some-injective _ _ (rw (g, k, replies) at e)))
        ]
      ]

  -- Let a client send as many requests as the limit of `handle` allows, with no body, on one
  -- connection, each in any number of chunks, none of them empty, with a head within the limit and
  -- fewer than 2 ^ 64 bytes, no two line feeds in a row, a host if its version is 1.1, no upgrade,
  -- and a connection that is kept; and let the router answer each with the cache that the one before
  -- left, without an exception. If each call of `send` takes a byte at least and there are as many
  -- calls as bytes to send, with a stream buffer that is not empty, then the connection ends, and
  -- what went out are the messages of these responses with the header of a kept connection, in
  -- order, complete, and nothing else.
  pub handle-transmit :
      (stream_buffer_size : ℕ) (ps : List (List Bytes × HttpRequest)) (rest : List Recv)
      (c c' : FileCache) (rs : List HttpResponse) (sends : List Send)
      → 0 < stream_buffer_size
      → All (λ p. IsSent setting p.0 p.1) ps
      → replies (whole ps) c ≡ some (rs, c')
      → All IsProgress sends
      → length (messages setting.fs setting.library rs) ≤ length sends
      → (os : List Output) × (left : List Send) × (handle setting (length ps) (sent ps rest) c
          ≡ closes os c')
        × (transmit stream_buffer_size setting.fs setting.library os sends
            ≡ done (messages setting.fs setting.library rs) left)
  unfolding handle
  handle-transmit n ps rest c c' rs sends b a e p h =
      let (left, _, _, out) = transmit-Delivers n setting.fs setting.library b rs sends p h in
      (
        map response rs,
        left,
        ap (λ k. handle setting k (sent ps rest) c) (sym (add_zero (length ps)))
            ∙ handle-answers setting 0 ps rest c a
            ∙ ap (λ x. and_next x (handle setting 0)) (answers-replies rest (whole ps) c c' rs e)
            ∙ ap (λ os. closes os c') (append-nil (map response rs)),
        out,
      )
    where
      add_zero : (n : ℕ) → n + 0 ≡ n
      add_zero n = omega arith
