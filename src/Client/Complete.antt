-- ===== src/Client/Complete.antt =====
-- What a request that was read holds: complete headers, the whole announced body, and no more than
-- the limits allow.
use gouda_http_server.Common.{
  ℕ, ◌+◌, ◌^◌, ◌≤◌, ◌<◌, ◌≡◌, refl, subst, ◌∙◌, Bool, true, false, Option, none, some, List, [],
  ◌∷◌, ◌++◌, ltb, if◌then◌else◌, length, take, length-append, take-append, arith, Option-cases,
  Bool-cases, inl, inr, All,
}
use gouda_http_server.Common.Bytes.{Bytes}
use gouda_http_server.Common.Decimal.{stoull}
use gouda_http_server.Common.Options.{>>=-eq-some, if-eq-some, some-subst}
use gouda_http_server.Client.{
  Recv, received, closed, would_block, failed, Outcome, returned, refused, timed_out, waiting,
  read_headers, get_content_length, bounded_length, occurrences, last_value, digits_prefix,
  wants_more, check_body, body_loop, read_body, read_rest, read_requests,
}
use gouda_http_server.Client.Head.{Returns, IsChunk, IsHead, read_headers-IsHead}

bounded_length-le : (max : ℕ) (value : Bytes) {n : ℕ} → bounded_length max value ≡ some n → n ≤ max
unfolding bounded_length
bounded_length-le max value h =
    let (m, e, g) = >>=-eq-some (stoull value) _ h in
    if-eq-some (ltb max m) g (λ c f. cc) (λ c f. some-subst (λ k. k ≤ max) f (ground arith))

pub get_content_length-le :
    (max : ℕ) (headers : Bytes) {n : ℕ} → get_content_length max headers ≡ some n → n ≤ max
unfolding get_content_length
get_content_length-le max headers h =
    if-eq-some (ltb 1 (length (occurrences headers))) h (λ c f. cc)
      (λ c f. go (last_value (occurrences headers) none) f)
  where
    go :
        (o : Option Bytes) {n : ℕ}
        → (elim o [ none ↦ some 0 | some value ↦ bounded_length max (digits_prefix value) ])
          ≡ some n
        → n ≤ max
    go none f = some-subst (λ k. k ≤ max) f (omega arith)
    go (some value) f = bounded_length-le max (digits_prefix value) f

-- The headers, a body of `n` bytes behind them, and fewer than `bound` bytes in all.
abbrev pub IsWhole : Bytes → ℕ → ℕ → Bytes → Type 0
IsWhole headers n bound buffer =
    (take (length headers) buffer ≡ headers)
    × (length headers + n ≤ length buffer)
    × (length buffer < bound)

unless :
    {A : Type 0} (P : A → List Recv → Type 0) (x y : Outcome A) (b : Bool)
    → Returns P x
    → Returns P y
    → Returns P (if b then x else y)
unless P x y true p q = p
unless P x y false p q = q

pub Returns-map :
    {A : Type 0} (P Q : A → Type 0) (f : (a : A) → P a → Q a) (o : Outcome A)
    → Returns (λ a rest. P a) o
    → Returns (λ a rest. Q a) o
Returns-map P Q f (returned a reads) p = f a p
Returns-map P Q f refused p = tt
Returns-map P Q f timed_out p = tt
Returns-map P Q f waiting p = tt

module _ (max n bound : ℕ) (headers : Bytes) (room : max + length headers + 512 ≤ bound) where
  check_body-IsWhole :
      (buffer : Bytes) (size : ℕ) (reads : List Recv)
      → IsWhole headers 0 bound buffer
      → length headers + size ≡ length buffer
      → Returns
          (λ b rest. IsWhole headers n bound b)
          (check_body max n (length headers) buffer size reads)
  check_body-IsWhole buffer size reads (p, l, u) e = elim (Bool-cases (ltb size n)) [
    | inl f ↦ rw f tt
    | inr f ↦ rw f (p, ground arith, u)
  ]

  body_loop-IsWhole :
      (buffer : Bytes) (size : ℕ) (reads : List Recv)
      → All IsChunk reads
      → IsWhole headers 0 bound buffer
      → length headers + size ≡ length buffer
      → Returns
          (λ b rest. IsWhole headers n bound b)
          (body_loop max n (length headers) buffer size reads)
  unfolding body_loop
  body_loop-IsWhole buffer size [] h w e =
      unless (λ b rest. IsWhole headers n bound b) _ _
        (wants_more max n (length headers) buffer size) tt (check_body-IsWhole buffer size [] w e)
  body_loop-IsWhole buffer size (received chunk ∷ reads) (hc, h) (p, l, u) e =
      elim (Bool-cases (wants_more max n (length headers) buffer size)) [
        | inl f ↦
            rw (f, body_loop)
              (body_loop-IsWhole (buffer ++ chunk) (size + length chunk) reads h
                (
                  take-append (length headers) buffer chunk (omega arith) ∙ p,
                  omega (arith, length-append buffer chunk),
                  ground (arith, length-append buffer chunk),
                )
                (omega (arith, length-append buffer chunk)))
        | inr f ↦
            rw (f, body_loop) (check_body-IsWhole buffer size (received chunk ∷ reads) (p, l, u) e)
      ]
  body_loop-IsWhole buffer size (closed ∷ reads) h w e =
      unless (λ b rest. IsWhole headers n bound b) _ _
        (wants_more max n (length headers) buffer size) tt
        (check_body-IsWhole buffer size (closed ∷ reads) w e)
  body_loop-IsWhole buffer size (would_block ∷ reads) h w e =
      unless (λ b rest. IsWhole headers n bound b) _ _
        (wants_more max n (length headers) buffer size) tt
        (check_body-IsWhole buffer size (would_block ∷ reads) w e)
  body_loop-IsWhole buffer size (failed ∷ reads) h w e =
      unless (λ b rest. IsWhole headers n bound b) _ _
        (wants_more max n (length headers) buffer size) tt
        (check_body-IsWhole buffer size (failed ∷ reads) w e)

-- The body that the headers announce is there, within both limits.
abbrev pub HasBody : ℕ → ℕ → Bytes → Bytes → Type 0
HasBody max_header_size max_content_length headers buffer =
    (n : ℕ) × (get_content_length max_content_length headers ≡ some n)
    × (n ≤ max_content_length)
    × IsWhole headers n (max_header_size + max_content_length + 1028) buffer

-- The headers are what `read_headers` returned.
abbrev pub IsComplete : ℕ → ℕ → List Recv → Bytes → Type 0
IsComplete max_header_size max_content_length reads buffer =
    (headers : Bytes) × (first : Bytes) × (left : List Recv) × (read_headers max_header_size []
        reads
      ≡ returned (headers, first) left)
    × HasBody max_header_size max_content_length headers buffer

read_rest-HasBody :
    (mh mc : ℕ) (headers buffer : Bytes) (reads : List Recv)
    → mh + 516 ≤ 2 ^ 64
    → All IsChunk reads
    → IsHead mh (headers, buffer)
    → Returns (λ b rest. HasBody mh mc headers b) (read_rest mc headers buffer reads)
unfolding read_rest read_body
read_rest-HasBody mh mc headers buffer reads room h (p, l, u) =
    elim (Option-cases (get_content_length mc headers)) [
      | inl e ↦ rw (e, read_rest) tt
      | inr (n, e) ↦ elim (Bool-cases (ltb 0 n)) [
        | inl f ↦
            rw (e, f, read_rest)
              (Returns-map (IsWhole headers n (mh + mc + 1028)) _
                (λ b w. (n, refl, get_content_length-le mc headers e, w)) _
                (body_loop-IsWhole mc n (mh + mc + 1028) headers (omega arith) buffer _ reads h
                  (p, omega arith, omega arith) (omega arith)))
        | inr f ↦
            rw (e, f, read_rest)
              (n, refl, get_content_length-le mc headers e, (p, ground arith, omega arith))
      ]
    ]

-- Let `recv` give at most 512 bytes a call, and let the limit on headers leave room in 64 bits. A
-- request that is read holds the headers that `read_headers` returned at the front and, behind them, all of the body that they
-- announce, which is within the limit; the buffer stays below both limits and 1028 bytes together.
pub read_requests-IsComplete :
    (max_header_size max_content_length : ℕ) (reads : List Recv)
    → max_header_size + 516 ≤ 2 ^ 64
    → All IsChunk reads
    → Returns
        (λ buffer rest. IsComplete max_header_size max_content_length reads buffer)
        (read_requests max_header_size max_content_length reads)
unfolding read_requests
read_requests-IsComplete mh mc reads room h =
    go (read_headers mh [] reads) refl (read_headers-IsHead mh [] reads h)
  where
    go :
        (o : Outcome (Bytes × Bytes))
        → read_headers mh [] reads ≡ o
        → Returns (λ h rest. IsHead mh h × All IsChunk rest) o
        → Returns (λ b rest. IsComplete mh mc reads b) (read_requests mh mc reads)
    go (returned (headers, buffer) rest) e (i, k) =
        subst (Returns (λ b rest. IsComplete mh mc reads b)) (rw (e, read_requests)) (
          Returns-map (HasBody mh mc headers) (IsComplete mh mc reads)
            (λ b w. (headers, buffer, rest, e, w)) (read_rest mc headers buffer rest)
            (read_rest-HasBody mh mc headers buffer rest room k i))
    go refused e i = rw (e, read_requests) tt
    go timed_out e i = rw (e, read_requests) tt
    go waiting e i = rw (e, read_requests) tt
