-- ===== src/Common/Search.antt =====
-- Where `starts_with` and `find` look.
use gouda_http_server.Common.{
  ℕ, suc, ◌+◌, ◌≤◌, ◌<◌, ◌≡◌, refl, ◌∙◌, true, none, some, [], ◌∷◌, ◌++◌, length, arith, Bool-cases,
  Option-cases, inl, inr,
}
use mathlib.Core.Option.{some-injective}
use gouda_http_server.Common.Bytes.{Bytes, starts_with, find}

starts_with-le : (p s : Bytes) → starts_with p s ≡ true → length p ≤ length s
starts_with-le [] s h = omega arith
starts_with-le (a ∷ p) [] h = cc
starts_with-le (a ∷ p) (b ∷ s) h = ground (arith, starts_with-le p s)

pub find-le : (p s : Bytes) (i : ℕ) → find p s ≡ some i → i + length p ≤ length s
find-le p [] i h = cc
find-le p (b ∷ s) i h = elim (Bool-cases (starts_with p (b ∷ s))) [
  | inl e ↦ ground (arith, starts_with-le p (b ∷ s) e)
  | inr e ↦ elim (Option-cases (find p s)) [
    | inl f ↦ absurd (ground arith)
    | inr (j, f) ↦ ground (arith, find-le p s j f)
  ]
]

starts_with-append :
    (p s t : Bytes) → length p ≤ length s → starts_with p (s ++ t) ≡ starts_with p s
starts_with-append [] s t h = refl
starts_with-append (a ∷ p) [] t h = absurd (omega arith)
starts_with-append (a ∷ p) (b ∷ s) t h = rw (starts_with-append p s t (omega arith))

pub find-append : (p s t : Bytes) (i : ℕ) → find p s ≡ some i → find p (s ++ t) ≡ some i
find-append p [] t i h = cc
find-append p (b ∷ s) t i h =
    let same = starts_with-append p (b ∷ s) t (omega (arith, find-le p (b ∷ s) i h)) in
    elim (Bool-cases (starts_with p (b ∷ s))) [
      | inl e ↦ rw (same ∙ e) (rw e at h)
      | inr e ↦ elim (Option-cases (find p s)) [
        | inl f ↦ absurd (cc (rw (e, f) at h))
        | inr (j, f) ↦ rw (same ∙ e, find-append p s t j f) (rw (e, f) at h)
      ]
    ]

-- Where a text has no match, its beginnings have none.
pub find-beginning : (p s t : Bytes) → find p (s ++ t) ≡ none → find p s ≡ none
find-beginning p s t h = elim (Option-cases (find p s)) [
  | inl e ↦ e
  | inr (i, e) ↦ absurd (cc (find-append p s t i e))
]

-- A match that ends within the first text is found there.
pub find-whole :
    (p s t : Bytes) (i : ℕ)
    → 0 < length p
    → find p (s ++ t) ≡ some i
    → i + length p ≤ length s
    → find p s ≡ some i
find-whole p [] t i pos h l = absurd (omega (arith, pos, l))
find-whole p (b ∷ s) t i pos h l =
    let same = starts_with-append p (b ∷ s) t (omega (arith, l)) in
    elim (Bool-cases (starts_with p (b ∷ s))) [
      | inl e ↦ rw e (rw (same ∙ e) at h)
      | inr e ↦ elim (Option-cases (find p (s ++ t))) [
        | inl f ↦ absurd (cc (rw (same ∙ e, f) at h))
        | inr (j, f) ↦
            let g : some (suc j) ≡ some i = rw (same ∙ e, f) at h in
            rw (e, find-whole p s t j pos f (omega (arith, some-injective _ _ g, l))) g
      ]
    ]
