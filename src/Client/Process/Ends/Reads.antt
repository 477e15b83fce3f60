-- ===== src/Client/Process/Ends/Reads.antt =====
-- How many bytes are there, and how many still come.
use gouda_http_server.Common.{
  ℕ, ◌+◌, ◌%◌, ◌^◌, ◌≤◌, ◌<◌, ◌≡◌, refl, subst, length-take, some, List, [], ◌∷◌, ◌++◌, ltb, length,
  length-append, arith, Bool-cases, Option-cases, inl, inr,
}
use gouda_http_server.Common.Bytes.{Bytes, codes, find}
use gouda_http_server.Common.Options.{some-subst}
use gouda_http_server.Client.{
  Recv, received, closed, would_block, failed, Outcome, returned, refused, timed_out, waiting,
  normalized, find_headers, read_headers, get_content_length, wants_more, check_body, body_loop,
  read_body, read_rest, read_requests,
}
use gouda_http_server.Client.Head.{Returns, length-normalized}
use gouda_http_server.Client.Cut.{Setting, complete_body}
use gouda_http_server.Client.Process.{total}

-- No byte is lost, and the body is there.
abbrev pub IsLong : ℕ → ℕ → Bytes → List Recv → Type 0
IsLong sum room b rest = (length b + total rest ≡ sum) × (room ≤ length b)

module _ (max n header_end : ℕ) where
  check_body-IsLong :
      (buffer : Bytes) (size : ℕ) (reads : List Recv)
      → header_end + size ≡ length buffer
      → Returns
          (IsLong (length buffer + total reads) (header_end + n))
          (check_body max n header_end buffer size reads)
  check_body-IsLong buffer size reads e = elim (Bool-cases (ltb size n)) [
    | inl f ↦ rw f tt
    | inr f ↦ rw f (refl, ground arith)
  ]

  body_loop-IsLong :
      (buffer : Bytes) (size : ℕ) (reads : List Recv)
      → header_end + size ≡ length buffer
      → Returns
          (IsLong (length buffer + total reads) (header_end + n))
          (body_loop max n header_end buffer size reads)
  unfolding body_loop
  body_loop-IsLong buffer size [] e = elim (Bool-cases (wants_more max n header_end buffer size)) [
    | inl f ↦ rw f tt
    | inr f ↦ rw f (check_body-IsLong buffer size [] e)
  ]
  body_loop-IsLong buffer size (received chunk ∷ reads) e =
      let l = length-append buffer chunk in
      elim (Bool-cases (wants_more max n header_end buffer size)) [
        | inl f ↦
            let again =
              body_loop-IsLong (buffer ++ chunk) (size + length chunk) reads (omega (arith, l)) in
            rw (f, body_loop)
              (subst
                (λ k.
                  Returns (IsLong k (header_end + n))
                    (body_loop max n header_end (buffer ++ chunk) (size + length chunk) reads))
                (omega (arith, l)) again)
        | inr f ↦ rw (f, body_loop) (check_body-IsLong buffer size (received chunk ∷ reads) e)
      ]
  body_loop-IsLong buffer size (closed ∷ reads) e =
      elim (Bool-cases (wants_more max n header_end buffer size)) [
        | inl f ↦ rw f tt
        | inr f ↦ rw f (check_body-IsLong buffer size (closed ∷ reads) e)
      ]
  body_loop-IsLong buffer size (would_block ∷ reads) e =
      elim (Bool-cases (wants_more max n header_end buffer size)) [
        | inl f ↦ rw f tt
        | inr f ↦ rw f (check_body-IsLong buffer size (would_block ∷ reads) e)
      ]
  body_loop-IsLong buffer size (failed ∷ reads) e =
      elim (Bool-cases (wants_more max n header_end buffer size)) [
        | inl f ↦ rw f tt
        | inr f ↦ rw f (check_body-IsLong buffer size (failed ∷ reads) e)
      ]

  pub read_body-IsLong :
      (buffer : Bytes) (reads : List Recv)
      → header_end ≤ length buffer
      → length buffer < 2 ^ 64
      → Returns
          (IsLong (length buffer + total reads) (header_end + n))
          (read_body max n header_end buffer reads)
  unfolding read_body
  read_body-IsLong buffer reads h b = body_loop-IsLong buffer _ reads (omega arith)

module _ {Json : Type 0} (setting : Setting Json) where
  pub complete_body-IsLong :
      (n request_end : ℕ) (raw : Bytes) (reads : List Recv)
      → request_end ≤ length raw
      → length raw + n < 2 ^ 64
      → Returns
          (IsLong (length raw + total reads) (request_end + n))
          (complete_body setting n request_end raw reads)
  unfolding complete_body
  complete_body-IsLong n request_end raw reads h b =
      elim (Bool-cases (ltb (length raw) ((request_end + n) % 2 ^ 64))) [
        | inl f ↦
            rw f
              (read_body-IsLong setting.max_content_length n request_end raw reads h (omega arith))
        | inr f ↦ rw f (refl, ground arith)
      ]

-- The headers stand in a buffer, which with what still comes holds at most `bound` bytes.
abbrev IsShort : ℕ → Bytes × Bytes → List Recv → Type 0
IsShort bound (headers, buffer) rest =
    (length headers ≤ length buffer) × (length buffer + total rest ≤ bound)

find_headers-IsShort :
    (buffer : Bytes) (found : Bytes × Bytes) (rest : List Recv)
    → find_headers buffer ≡ some found
    → IsShort (length buffer + total rest + 4) found rest
unfolding find_headers
find_headers-IsShort buffer found rest h = elim (Option-cases (find (codes "\r\n\r\n") buffer)) [
  | inr (i, e) ↦
      some-subst (λ p. IsShort (length buffer + total rest + 4) p rest) (rw (e, find_headers) at h)
        (omega (arith, length-take (i + 4) buffer), omega arith)
  | inl e ↦ elim (Option-cases (find (codes "\n\n") buffer)) [
    | inr (i, f) ↦
        some-subst (λ p. IsShort (length buffer + total rest + 4) p rest)
          (rw (e, f, find_headers) at h)
          (
            omega (arith, length-take (i + 2) (normalized i buffer)),
            omega (arith, length-normalized i buffer),
          )
    | inl f ↦ absurd (cc (rw (e, f, find_headers) at h))
  ]
]

read_headers-IsShort :
    (max : ℕ) (buffer : Bytes) (reads : List Recv)
    → Returns (IsShort (length buffer + total reads + 4)) (read_headers max buffer reads)
unfolding read_headers
read_headers-IsShort max buffer [] = elim (Bool-cases (ltb (length buffer) max)) [
  | inl e ↦ rw e tt
  | inr e ↦ rw e tt
]
read_headers-IsShort max buffer (received chunk ∷ reads) =
    elim (Bool-cases (ltb (length buffer) max)) [
      | inr e ↦ rw (e, read_headers) tt
      | inl e ↦
          let l = length-append buffer chunk in
          elim (Option-cases (find_headers (buffer ++ chunk))) [
            | inl f ↦
                rw (e, f, read_headers)
                  (subst (λ k. Returns (IsShort (k + 4)) (read_headers max (buffer ++ chunk) reads))
                    (omega (arith, l)) (read_headers-IsShort max (buffer ++ chunk) reads))
            | inr (found, f) ↦
                rw (e, f, read_headers)
                  (subst (λ k. IsShort (k + 4) found reads) (omega (arith, l))
                    (find_headers-IsShort (buffer ++ chunk) found reads f))
          ]
    ]
read_headers-IsShort max [] (would_block ∷ reads) = elim (Bool-cases (ltb 0 max)) [
  | inl e ↦ rw e tt
  | inr e ↦ rw e tt
]
read_headers-IsShort max (c ∷ s) (would_block ∷ reads) =
    elim (Bool-cases (ltb (length (c ∷ s)) max)) [ inl e ↦ rw e tt | inr e ↦ rw e tt ]
read_headers-IsShort max buffer (closed ∷ reads) = tt
read_headers-IsShort max buffer (failed ∷ reads) = tt

-- At most `bound` bytes, with what still comes.
abbrev AtMost : ℕ → Bytes → List Recv → Type 0
AtMost bound b rest = length b + total rest ≤ bound

IsLong-AtMost :
    (sum room bound : ℕ) (o : Outcome Bytes)
    → sum ≤ bound
    → Returns (IsLong sum room) o
    → Returns (AtMost bound) o
IsLong-AtMost sum room bound (returned b r) h w = omega (arith, w.0)
IsLong-AtMost sum room bound refused h w = tt
IsLong-AtMost sum room bound timed_out h w = tt
IsLong-AtMost sum room bound waiting h w = tt

read_rest-AtMost :
    (mc bound : ℕ) (headers buffer : Bytes) (rest : List Recv)
    → bound < 2 ^ 64
    → IsShort bound (headers, buffer) rest
    → Returns (AtMost bound) (read_rest mc headers buffer rest)
unfolding read_rest
read_rest-AtMost mc bound headers buffer rest small (l, t) =
    elim (Option-cases (get_content_length mc headers)) [
      | inl e ↦ rw (e, read_rest) tt
      | inr (n, e) ↦ elim (Bool-cases (ltb 0 n)) [
        | inr f ↦ rw (e, f, read_rest) t
        | inl f ↦
            rw (e, f, read_rest)
              (IsLong-AtMost _ _ bound _ t
                (read_body-IsLong mc n (length headers) buffer rest l (omega arith)))
      ]
    ]

-- What is read and what still comes are at most four bytes more than what came: the line feeds that
-- `read_headers` replaces.
pub read_requests-total :
    (max_header_size max_content_length : ℕ) (reads : List Recv)
    → total reads + 4 < 2 ^ 64
    → Returns
        (λ buffer rest. length buffer + total rest ≤ total reads + 4)
        (read_requests max_header_size max_content_length reads)
unfolding read_requests
read_requests-total mh mc reads small = go (read_headers mh [] reads) (
    subst (λ k. Returns (IsShort k) (read_headers mh [] reads)) (omega arith)
      (read_headers-IsShort mh [] reads))
  where
    go :
        (o : Outcome (Bytes × Bytes))
        → Returns (IsShort (total reads + 4)) o
        → Returns (AtMost (total reads + 4)) (elim o [
          | returned (headers, buffer) rest ↦ read_rest mc headers buffer rest
          | refused ↦ refused
          | timed_out ↦ timed_out
          | waiting ↦ waiting
        ])
    go refused h = tt
    go timed_out h = tt
    go waiting h = tt
    go (returned (headers, buffer) rest) h = read_rest-AtMost mc _ headers buffer rest small h
