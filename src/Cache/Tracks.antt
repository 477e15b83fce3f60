-- ===== src/Cache/Tracks.antt =====
-- The map and the linked list of the cache hold one list of slots: the invariant of the cache, and
-- its refinement of the specification.
use gouda_http_server.Common.{
  ℕ, zero, suc, ◌+◌, ◌%◌, ◌^◌, ◌≤◌, ◌<◌, ◌≡◌, refl, ap, ◌⊎◌, inl, inr, none, some, List, [], ◌∷◌,
  map, arith, length, take, Bool-cases,
}
use gouda_http_server.Common.Bytes.{Bytes, eq, eq_iff, eq_refl}
use gouda_http_server.Cache.{Slot, Node, FileCache, erase_node, sub_size, back, pop_back}
use gouda_http_server.Cache.Assoc.{lookup, erase_key, IsDistinct}
use gouda_http_server.Cache.Lru.{total}

abbrev pub node_of : Bytes × Slot → Node
node_of (path, slot) = record { id = slot.node; path = path }

-- Node numbers fall along the list, since each new node goes to the front.
abbrev pub IsBelow : ℕ → List (Bytes × Slot) → Type 0
IsBelow n [] = Unit {0}
IsBelow n ((path, slot) ∷ w) = (slot.node < n) × IsBelow slot.node w

-- The cache holds the slots `w`, the most recently used first.
pub record Tracks (c : FileCache) (w : List (Bytes × Slot)) : Type 0 where
  pub nodes : c.lru_list ≡ map node_of w
  pub agrees : (q : Bytes) → lookup q c.cache_map ≡ lookup q w
  pub map_distinct : IsDistinct c.cache_map
  pub distinct : IsDistinct w
  pub below : IsBelow c.next_node w
  pub counts : length c.cache_map ≡ length w
  pub sizes : c.total_size ≡ total w % 2 ^ 64

pub IsBelow-mono : {m n : ℕ} (w : List (Bytes × Slot)) → m ≤ n → IsBelow m w → IsBelow n w
IsBelow-mono [] h b = tt
IsBelow-mono (e ∷ w) h b = (omega arith, b.1)

pub erase_key-IsBelow :
    (p : Bytes) (n : ℕ) (w : List (Bytes × Slot)) → IsBelow n w → IsBelow n (erase_key p w)
unfolding erase_key
erase_key-IsBelow p n [] b = tt
erase_key-IsBelow p n ((k, slot) ∷ w) b =
    ground (arith, erase_key-IsBelow p slot.node w b.1, IsBelow-mono {m = slot.node} {n = n} w)

lookup-IsBelow :
    (p : Bytes) (n : ℕ) (w : List (Bytes × Slot)) (slot : Slot)
    → IsBelow n w
    → lookup p w ≡ some slot
    → slot.node < n
unfolding lookup
lookup-IsBelow p n [] slot b e = cc
lookup-IsBelow p n ((k, s) ∷ w) slot b e = ground (arith, lookup-IsBelow p s.node w slot b.1)

-- The iterator of a path's entry points to the path's node.
pub erase_node-node_of :
    (p : Bytes) (n : ℕ) (w : List (Bytes × Slot)) (slot : Slot)
    → IsBelow n w
    → lookup p w ≡ some slot
    → erase_node slot.node (map node_of w) ≡ map node_of (erase_key p w)
unfolding lookup erase_key erase_node
erase_node-node_of p n [] slot b e = cc
erase_node-node_of p n ((k, s) ∷ w) slot b e =
    ground (arith, lookup-IsBelow p s.node w slot b.1, erase_node-node_of p s.node w slot b.1)

pub total-erase_key :
    (p : Bytes) (w : List (Bytes × Slot)) (slot : Slot)
    → lookup p w ≡ some slot
    → total (erase_key p w) + length slot.entry.content ≡ total w
unfolding lookup erase_key total
total-erase_key p [] slot e = cc
total-erase_key p ((k, s) ∷ w) slot e = ground (arith, total-erase_key p w slot)

pub sub_size_lem : (s n r : ℕ) → r + n ≡ s → sub_size (s % 2 ^ 64) n ≡ r % 2 ^ 64
sub_size_lem s n r e = omega arith

-- The last node is that of the last slot, whose key is found, and to drop it is to erase its key.
pub back-node_of :
    (w : List (Bytes × Slot))
    → IsDistinct w
    → ((w ≡ []) × (back (map node_of w) ≡ none))
      ⊎ ((p : Bytes) × (slot : Slot) × (back (map node_of w) ≡ some (node_of (p, slot)))
          × (lookup p w ≡ some slot)
          × (pop_back w ≡ erase_key p w))
unfolding lookup erase_key back pop_back
back-node_of [] d = inl (refl, refl)
back-node_of ((k, s) ∷ []) d = inr (k, s, refl, rw (eq_refl k), rw (eq_refl k))
back-node_of ((k, s) ∷ (j, t) ∷ w) d = elim (back-node_of ((j, t) ∷ w) d.1) [
  | inl (e, _) ↦ absurd (cc)
  | inr (p, slot, b, l, q) ↦ elim (Bool-cases (eq k p)) [
    | inl same ↦ absurd (cc (d.0, l, (eq_iff k p).0 same))
    | inr other ↦ inr (p, slot, b, rw other l, rw other (ap (◌∷◌ (k, s)) q))
  ]
]

pub pop_back-node_of :
    (w : List (Bytes × Slot)) → pop_back (map node_of w) ≡ map node_of (pop_back w)
unfolding pop_back
pop_back-node_of [] = refl
pop_back-node_of (e ∷ []) = refl
pop_back-node_of (e ∷ f ∷ w) = ap (◌∷◌ (node_of e)) (pop_back-node_of (f ∷ w))

pub take-pop_back {ℓ} :
    {A : Type ℓ} (n : ℕ) (w : List A) → n < length w → take n (pop_back w) ≡ take n w
unfolding pop_back
take-pop_back zero w h = refl
take-pop_back (suc n) [] h = absurd (omega arith)
take-pop_back (suc n) (e ∷ []) h = absurd (omega arith)
take-pop_back (suc n) (e ∷ f ∷ w) h = ap (◌∷◌ e) (take-pop_back n (f ∷ w) (omega arith))

pub length-pop_back {ℓ} :
    {A : Type ℓ} (w : List A) → 0 < length w → suc (length (pop_back w)) ≡ length w
unfolding pop_back
length-pop_back [] h = absurd (omega arith)
length-pop_back (e ∷ []) h = refl
length-pop_back (e ∷ f ∷ w) h = ap suc (length-pop_back (f ∷ w) (omega arith))
