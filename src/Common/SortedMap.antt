-- ===== src/Common/SortedMap.antt =====
-- `std::map` and `std::flat_map` from strings: a list in the order of a comparator. The comparator
-- compares the images of the keys under `norm` as `std::string` does, byte by byte: `norm` is the
-- identity for `std::less`, and the lower case for `CaseInsensitiveCompare`.
use mathlib.Core.Option
use mathlib.Core.Bool.{Bool, true, false}
use mathlib.Core.List.{List, [], ◌∷◌}
use mathlib.Core.Option.{Option, none, some}
use mathlib.Core.Path.{◌≡◌, refl}
use native.Mathlib.Omega.{arith}
use gouda_http_server.Common.Tests.{ltb, if◌then◌else◌}
use gouda_http_server.Common.Bytes.{Bytes, eq, eq_iff}

-- `std::lexicographical_compare` on bytes.
unfoldable pub lex : Bytes → Bytes → Bool
lex [] [] = false
lex [] (b ∷ t) = true
lex (a ∷ s) [] = false
lex (a ∷ s) (b ∷ t) = if ltb a b then true else if ltb b a then false else lex s t

pub lex_asym : (s t : Bytes) → lex s t ≡ true → lex t s ≡ false
unfolding lex
lex_asym [] [] h = cc
lex_asym [] (b ∷ t) h = refl
lex_asym (a ∷ s) [] h = cc
lex_asym (a ∷ s) (b ∷ t) h = ground (arith, lex_asym s t)

pub lex_trans : (s t u : Bytes) → lex s t ≡ true → lex t u ≡ true → lex s u ≡ true
unfolding lex
lex_trans [] [] u h k = cc
lex_trans [] (b ∷ t) [] h k = cc
lex_trans [] (b ∷ t) (c ∷ u) h k = refl
lex_trans (a ∷ s) [] u h k = cc
lex_trans (a ∷ s) (b ∷ t) [] h k = cc
lex_trans (a ∷ s) (b ∷ t) (c ∷ u) h k = ground (arith, lex_trans s t u)

pub lex_total : (s t : Bytes) → lex s t ≡ false → lex t s ≡ false → s ≡ t
unfolding lex
lex_total [] [] h k = refl
lex_total [] (b ∷ t) h k = cc
lex_total (a ∷ s) [] h k = cc
lex_total (a ∷ s) (b ∷ t) h k = ground (arith, lex_total s t)

pub lex_irrefl : (s : Bytes) → lex s s ≡ false
unfolding lex
lex_irrefl [] = refl
lex_irrefl (a ∷ s) = ground (arith, lex_irrefl s)

abbrev pub less : (Bytes → Bytes) → Bytes → Bytes → Bool
less norm j k = lex (norm j) (norm k)

-- The keys that the comparator cannot tell apart.
abbrev pub same : (Bytes → Bytes) → Bytes → Bytes → Bool
same norm j k = eq (norm j) (norm k)

module _ {ℓ} {V : Type ℓ} (norm : Bytes → Bytes) where
  -- The first entry that is not less than the key, if the key is not less than it.
  unfoldable pub find_entry : Bytes → List (Bytes × V) → Option V
  find_entry k [] = none
  find_entry k ((j, v) ∷ m) =
      if less norm j k then find_entry k m else if less norm k j then none else some v

  -- The entry of the key is changed by `f`, or made by it at the key's place.
  unfoldable pub alter : Bytes → (Option V → V) → List (Bytes × V) → List (Bytes × V)
  alter k f [] = (k, f none) ∷ []
  alter k f ((j, v) ∷ m) =
      if less norm j k
      then (j, v) ∷ alter k f m
      else if less norm k j
      then (k, f none) ∷ (j, v) ∷ m
      else (j, f (some v)) ∷ m

  -- `emplace` and `try_emplace`: an entry that exists is kept.
  unfoldable pub emplace : Bytes → V → List (Bytes × V) → List (Bytes × V)
  emplace k v m = alter k (λ old. Option.get_or old v) m

  pub find-alter :
      (k q : Bytes) (f : Option V → V) (m : List (Bytes × V))
      → find_entry q (alter k f m)
        ≡ (if same norm k q then some (f (find_entry k m)) else find_entry q m)
  unfolding find_entry alter
  find-alter k q f [] =
      ground (arith, eq_iff (norm k) (norm q), lex_total (norm k) (norm q), lex_irrefl (norm k))
  find-alter k q f ((j, v) ∷ m) = ground (
    arith,
    find-alter k q f m,
    eq_iff (norm k) (norm q),
    lex_total (norm k) (norm q),
    lex_total (norm j) (norm k),
    lex_irrefl (norm k),
    lex_asym (norm k) (norm j),
    lex_asym (norm q) (norm j),
    lex_trans (norm q) (norm k) (norm j),
  )
