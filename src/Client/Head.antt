-- ===== src/Client/Head.antt =====
-- What `read_headers` returns: the head of a buffer within its limit.
use gouda_http_server.Common.{
  ℕ, zero, suc, ◌+◌, ◌≤◌, ◌<◌, ◌≡◌, refl, ap, Option, none, some, List, [], ◌∷◌, ◌++◌, ltb, ltb→lt,
  length, take, drop, length-append, length-take, length-drop, arith, Option-cases, Bool-cases, inl,
  inr, All,
}
use gouda_http_server.Common.Bytes.{Bytes, codes, find}
use gouda_http_server.Client.{
  Recv, received, closed, would_block, failed, Outcome, returned, normalized, find_headers,
  read_headers,
}

-- What holds of a value that is returned and of the calls that are left.
abbrev pub Returns {ℓ κ} : {A : Type ℓ} → (A → List Recv → Type κ) → Outcome A → Type κ
Returns P (returned a reads) = P a reads
Returns P _ = Unit

abbrev IfSome {ℓ κ} : {A : Type ℓ} → (A → Type κ) → Option A → Type κ
IfSome P (some a) = P a
IfSome P none = Unit

-- `recv` fills a buffer of 512 bytes.
abbrev pub IsChunk : Recv → Type 0
IsChunk (received chunk) = length chunk ≤ 512
IsChunk _ = Unit

-- The headers stand at the front of a buffer that is within the limit.
abbrev pub IsHead : ℕ → Bytes × Bytes → Type 0
IsHead max (headers, buffer) =
    (take (length headers) buffer ≡ headers)
    × (length headers ≤ length buffer)
    × (length buffer < max + 516)

take-length-take : (n : ℕ) (s : Bytes) → take (length (take n s)) s ≡ take n s
take-length-take zero s = refl
take-length-take (suc n) [] = refl
take-length-take (suc n) (c ∷ s) = ap (◌∷◌ c) (take-length-take n s)

take-IsHead : (max n : ℕ) (s : Bytes) → length s < max + 516 → IsHead max (take n s, s)
take-IsHead max n s h = (take-length-take n s, omega (arith, length-take n s), h)

pub length-normalized : (n : ℕ) (s : Bytes) → length (normalized n s) ≤ length s + 4
length-normalized n s = omega (
  arith,
  length-append (take n s) (codes "\r\n\r\n" ++ drop (n + 2) s),
  length-take n s,
  length-drop (n + 2) s,
)

find_headers-IsHead :
    (max : ℕ) (buffer : Bytes)
    → length buffer < max + 512
    → IfSome (IsHead max) (find_headers buffer)
unfolding find_headers
find_headers-IsHead max buffer h = elim (Option-cases (find (codes "\r\n\r\n") buffer)) [
  | inr (n, f) ↦ rw (f, find_headers) (take-IsHead max (n + 4) buffer (omega arith))
  | inl f ↦ elim (Option-cases (find (codes "\n\n") buffer)) [
    | inr (n, g) ↦
        rw (f, g, find_headers)
          (take-IsHead max (n + 2) (normalized n buffer)
            (omega (arith, length-normalized n buffer)))
    | inl g ↦ rw (f, g, find_headers) tt
  ]
]

pub read_headers-IsHead :
    (max : ℕ) (buffer : Bytes) (reads : List Recv)
    → All IsChunk reads
    → Returns (λ h rest. IsHead max h × All IsChunk rest) (read_headers max buffer reads)
unfolding read_headers
read_headers-IsHead max buffer [] h = elim (Bool-cases (ltb (length buffer) max)) [
  | inl e ↦ rw e tt
  | inr e ↦ rw e tt
]
read_headers-IsHead max buffer (received chunk ∷ reads) (hc, h) =
    elim (Bool-cases (ltb (length buffer) max)) [
      | inr e ↦ rw (e, read_headers) tt
      | inl e ↦ elim (Option-cases (find_headers (buffer ++ chunk))) [
        | inl f ↦ rw (e, f, read_headers) (read_headers-IsHead max (buffer ++ chunk) reads h)
        | inr (found, f) ↦
            rw (e, f, read_headers)
              (
                rw f at (
                    find_headers-IsHead max (buffer ++ chunk) (
                      omega (arith, ltb→lt (length buffer) max e, length-append buffer chunk, hc))),
                h,
              )
      ]
    ]
read_headers-IsHead max [] (would_block ∷ reads) h = elim (Bool-cases (ltb 0 max)) [
  | inl e ↦ rw e tt
  | inr e ↦ rw e tt
]
read_headers-IsHead max (c ∷ s) (would_block ∷ reads) h =
    elim (Bool-cases (ltb (length (c ∷ s)) max)) [ inl e ↦ rw e tt | inr e ↦ rw e tt ]
read_headers-IsHead max buffer (closed ∷ reads) h = tt
read_headers-IsHead max buffer (failed ∷ reads) h = tt
