-- ===== src/Cache/Assoc.antt =====
-- `std::unordered_map` from paths as an association list, with the laws of its lookup.
use gouda_http_server.Common.{
  suc, ◌≡◌, refl, Option, none, some, List, [], ◌∷◌, if◌then◌else◌, arith, length,
}
use gouda_http_server.Common.Bytes.{Bytes, eq, eq_iff, eq_refl}

module _ {ℓ} {V : Type ℓ} where
  -- `find`.
  unfoldable pub lookup : Bytes → List (Bytes × V) → Option V
  lookup p [] = none
  lookup p ((k, v) ∷ m) = if eq k p then some v else lookup p m

  -- `erase` of a key.
  unfoldable pub erase_key : Bytes → List (Bytes × V) → List (Bytes × V)
  erase_key p [] = []
  erase_key p ((k, v) ∷ m) = if eq k p then m else (k, v) ∷ erase_key p m

  -- `m[p] = v`.
  unfoldable pub assign : Bytes → V → List (Bytes × V) → List (Bytes × V)
  assign p v [] = (p, v) ∷ []
  assign p v ((k, w) ∷ m) = if eq k p then (k, v) ∷ m else (k, w) ∷ assign p v m

  -- No key stands twice.
  abbrev pub IsDistinct : List (Bytes × V) → Type ℓ
  IsDistinct [] = Unit
  IsDistinct ((k, v) ∷ m) = (lookup k m ≡ none) × IsDistinct m

  pub lookup-erase_key :
      (p q : Bytes) (m : List (Bytes × V))
      → IsDistinct m
      → lookup q (erase_key p m) ≡ (if eq p q then none else lookup q m)
  unfolding lookup erase_key
  lookup-erase_key p q [] d = ground arith
  lookup-erase_key p q ((k, v) ∷ m) d =
      ground (arith, eq_iff p q, eq_iff k p, eq_iff k q, lookup-erase_key p q m d.1)

  pub erase_key-IsDistinct :
      (p : Bytes) (m : List (Bytes × V)) → IsDistinct m → IsDistinct (erase_key p m)
  unfolding lookup erase_key
  erase_key-IsDistinct p [] d = tt
  erase_key-IsDistinct p ((k, v) ∷ m) d =
      ground (arith, erase_key-IsDistinct p m d.1, lookup-erase_key p k m d.1)

  pub length-erase_key :
      (p : Bytes) (m : List (Bytes × V)) (v : V)
      → lookup p m ≡ some v
      → suc (length (erase_key p m)) ≡ length m
  unfolding lookup erase_key
  length-erase_key p [] v e = cc
  length-erase_key p ((k, w) ∷ m) v e = ground (arith, length-erase_key p m v)

  pub lookup-assign :
      (p q : Bytes) (v : V) (m : List (Bytes × V))
      → lookup q (assign p v m) ≡ (if eq p q then some v else lookup q m)
  unfolding lookup assign
  lookup-assign p q v [] = ground arith
  lookup-assign p q v ((k, w) ∷ m) =
      ground (arith, eq_iff p q, eq_iff k p, eq_iff k q, lookup-assign p q v m)

  pub assign-IsDistinct :
      (p : Bytes) (v : V) (m : List (Bytes × V)) → IsDistinct m → IsDistinct (assign p v m)
  unfolding lookup assign
  assign-IsDistinct p v [] d = (refl, tt)
  assign-IsDistinct p v ((k, w) ∷ m) d =
      ground (arith, eq_iff p k, eq_iff k p, assign-IsDistinct p v m d.1, lookup-assign p k v m)

  pub length-assign_new :
      (p : Bytes) (v : V) (m : List (Bytes × V))
      → lookup p m ≡ none
      → length (assign p v m) ≡ suc (length m)
  unfolding lookup assign
  length-assign_new p v [] e = refl
  length-assign_new p v ((k, w) ∷ m) e = ground (arith, length-assign_new p v m)

  pub length-assign_old :
      (p : Bytes) (v w : V) (m : List (Bytes × V))
      → lookup p m ≡ some w
      → length (assign p v m) ≡ length m
  unfolding lookup assign
  length-assign_old p v w [] e = cc
  length-assign_old p v w ((k, u) ∷ m) e = ground (arith, length-assign_old p v w m)

  pub erase_key_absent : (p : Bytes) (m : List (Bytes × V)) → lookup p m ≡ none → erase_key p m ≡ m
  unfolding lookup erase_key
  erase_key_absent p [] e = refl
  erase_key_absent p ((k, v) ∷ m) e = ground (arith, erase_key_absent p m)

  pub lookup-erase_key_self :
      (p : Bytes) (m : List (Bytes × V)) → IsDistinct m → lookup p (erase_key p m) ≡ none
  lookup-erase_key_self p m d = rw (lookup-erase_key p p m d, eq_refl p)
