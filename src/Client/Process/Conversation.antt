-- ===== src/Client/Process/Conversation.antt =====
-- A connection that is kept: one request after the other, each of them in any number of chunks.
use gouda_http_server.Common.{
  ℕ, inl, ◌+◌, zero_add, suc_add, ◌^◌, ◌≤◌, ◌<◌, ◌≡◌, refl, sym, ap, ◌∙◌, none, some, Option, List,
  [], ◌∷◌, ◌++◌, append_assoc, append-nil, map, All, length, take_all, arith,
}
use gouda_http_server.Common.Bytes.{Bytes, codes, find}
use gouda_http_server.Cache.{FileCache}
use gouda_http_server.Client.{Recv, received, returned, get_content_length}
use gouda_http_server.Client.Chunks.{joined, IsChunk, read_requests-pieces}
use gouda_http_server.Client.Cut.{Setting}
use gouda_http_server.Client.Process.{
  Output, Ending, keeps, closes, fails, waits, throws, exhausted, behind, and_next,
  process_single_request, handle,
}
use gouda_http_server.Client.Process.Pipeline.{
  IsPlain, kept, answers, process_single_request-answers,
}
use gouda_http_server.Http.Message.{HttpRequest, HttpResponse}
use gouda_http_server.Router.Dispatch.{route}

behind-nil : (e : Ending) → behind [] e ≡ e
behind-nil (keeps o reads c) = refl
behind-nil (closes o c) = refl
behind-nil (fails o c) = refl
behind-nil (waits o) = refl
behind-nil (throws o) = refl
behind-nil (exhausted o) = refl

behind-append : (o p : List Output) (e : Ending) → behind (o ++ p) e ≡ behind o (behind p e)
behind-append o p (keeps q reads c) = ap (λ s. keeps s reads c) (append_assoc o p q)
behind-append o p (closes q c) = ap (λ s. closes s c) (append_assoc o p q)
behind-append o p (fails q c) = ap (λ s. fails s c) (append_assoc o p q)
behind-append o p (waits q) = ap waits (append_assoc o p q)
behind-append o p (throws q) = ap throws (append_assoc o p q)
behind-append o p (exhausted q) = ap exhausted (append_assoc o p q)

and_next-behind :
    (o : List Output) (e : Ending) (k : List Recv → FileCache → Ending)
    → and_next (behind o e) k ≡ behind o (and_next e k)
and_next-behind o (keeps p reads c) k = behind-append o p (k reads c)
and_next-behind o (closes p c) k = refl
and_next-behind o (fails p c) k = refl
and_next-behind o (waits p) k = refl
and_next-behind o (throws p) k = refl
and_next-behind o (exhausted p) k = refl

-- What `recv` gives for requests in chunks, and then `rest`.
abbrev pub sent : List (List Bytes × HttpRequest) → List Recv → List Recv
sent [] rest = rest
sent ((chunks, request) ∷ ps) rest = map received chunks ++ sent ps rest

-- The requests in one piece each.
abbrev pub whole : List (List Bytes × HttpRequest) → List (Bytes × HttpRequest)
whole [] = []
whole ((chunks, request) ∷ ps) = (joined chunks, request) ∷ whole ps

module _ {Json : Type 0} (setting : Setting Json) where
  -- Chunks of a head with no body, within the limit, of a request that is answered and keeps the
  -- connection.
  pub record IsSent (chunks : List Bytes) (request : HttpRequest) : Type 0 where
    pub nonempty : All IsChunk chunks
    pub is_plain : IsPlain setting (joined chunks) request
    pub no_feeds : find (codes "\n\n") (joined chunks) ≡ none
    pub fits : length (joined chunks) ≤ setting.max_header_size
    pub small : length (joined chunks) < 2 ^ 64

  process_single_request-IsSent :
      (chunks : List Bytes) (request : HttpRequest) (rest : List Recv) (c : FileCache)
      → IsSent chunks request
      → process_single_request setting (map received chunks ++ rest) c
        ≡ answers setting rest ((joined chunks, request) ∷ []) c
  process_single_request-IsSent chunks request rest c i =
      let plain = i.is_plain in
      let all = take_all (plain.head_end + 4) (joined chunks) (omega (arith, plain.is_end)) in
      process_single_request-answers setting (map received chunks ++ rest) rest c
        (joined chunks, request) [] (plain, tt)
        (read_requests-pieces setting.max_header_size setting.max_content_length plain.head_end 0
            chunks rest i.nonempty plain.found (ap (find (codes "\n\n")) all ∙ i.no_feeds)
            (omega (arith, i.fits, plain.is_end))
            (ap (get_content_length setting.max_content_length) all ∙ plain.no_body)
            (omega (arith, plain.is_end)) i.small (inl refl)
          ∙ ap (λ b. returned b rest) (sym (append-nil (joined chunks))))

  -- Let a client send requests with no body on one connection, each in any number of chunks, none of
  -- them empty, with a head within the limit and fewer than 2 ^ 64 bytes, no "\\n\\n" in it, a host
  -- if its version is 1.1, no upgrade, and a connection that is kept. Then `handle`, when its limit
  -- lets it, answers each of them in order as the router does with the cache that the one before
  -- left, and goes on with what follows them; an exception of the router ends it.
  pub handle-answers :
      (left : ℕ) (ps : List (List Bytes × HttpRequest)) (rest : List Recv) (c : FileCache)
      → All (λ p. IsSent p.0 p.1) ps
      → handle setting (length ps + left) (sent ps rest) c
        ≡ and_next (answers setting rest (whole ps) c) (handle setting left)
  unfolding handle
  handle-answers left [] rest c a =
      ap (λ n. handle setting n rest c) (zero_add left)
      ∙ sym (behind-nil (handle setting left rest c))
  handle-answers left ((chunks, request) ∷ ps) rest c (i, a) =
      let k = handle setting (length ps + left) in
      ap (λ n. handle setting n (sent ((chunks, request) ∷ ps) rest) c) (suc_add (length ps) left)
      ∙ ap (λ e. and_next e k) (process_single_request-IsSent chunks request (sent ps rest) c i)
      ∙ onward (route setting.library request setting.fs setting.router none c)
          (λ c'. handle-answers left ps rest c' a)
    where
      onward :
          (o : Option (HttpResponse × FileCache))
          → ((c' : FileCache)
              → handle setting (length ps + left) (sent ps rest) c'
                ≡ and_next (answers setting rest (whole ps) c') (handle setting left))
          → and_next
              (elim o [
                | none ↦ throws []
                | some (r, c') ↦ behind (kept r) (keeps [] (sent ps rest) c')
              ])
              (handle setting (length ps + left))
            ≡ and_next
                (elim o [
                  | none ↦ throws []
                  | some (r, c') ↦ behind (kept r) (answers setting rest (whole ps) c')
                ])
                (handle setting left)
      onward none h = refl
      onward (some (r, c')) h =
          ap (behind (kept r)) (h c')
          ∙ sym
              (and_next-behind (kept r) (answers setting rest (whole ps) c') (handle setting left))
