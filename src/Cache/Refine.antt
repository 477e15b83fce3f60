-- ===== src/Cache/Refine.antt =====
-- Each operation of the cache refines the specification and keeps the invariant.
use mathlib.Core.Option
use gouda_http_server.Common.{
  ℕ, zero, suc, ◌≤◌, ◌≡◌, refl, ap, ◌∙◌, inl, inr, none, some, List, [], ◌∷◌, map, ◌==◌, arith,
  length, take, Bool-cases, Option-cases,
}
use gouda_http_server.Common.Bytes.{Bytes}
use gouda_http_server.Cache.{
  FileCacheEntry, Slot, FileCache, erase_node, get, remove_existing, add_entry, put,
}
use gouda_http_server.Cache.Assoc.{
  lookup, erase_key, assign, lookup-erase_key, erase_key-IsDistinct, length-erase_key,
  lookup-assign, assign-IsDistinct, length-assign_new, length-assign_old, erase_key_absent,
  lookup-erase_key_self,
}
use gouda_http_server.Cache.Lru.{lru_get, lru_put, total, entries}
use gouda_http_server.Cache.Tracks.{
  node_of, Tracks, erase_key-IsBelow, erase_node-node_of, total-erase_key,
}
use gouda_http_server.Cache.Evict.{Tracks-erase, evict_if_needed-Tracks}

remove_existing-Tracks :
    (c : FileCache) (w : List (Bytes × Slot)) (p : Bytes)
    → Tracks c w
    → Tracks (remove_existing c p) (erase_key p w) × ((remove_existing c p).max_size ≡ c.max_size)
unfolding remove_existing
remove_existing-Tracks c w p t = elim (Option-cases (lookup p w)) [
  | inl e ↦ rw (remove_existing, t.agrees p, e, erase_key_absent p w e) (t, refl)
  | inr (slot, e) ↦
      rw (remove_existing, t.agrees p, e)
        (
          Tracks-erase c w p slot _ t e (
              ap (erase_node slot.node) t.nodes
              ∙ erase_node-node_of p c.next_node w slot t.below e),
          refl,
        )
]

add_entry-Tracks :
    (c : FileCache) (w : List (Bytes × Slot)) (p : Bytes) (entry : FileCacheEntry)
    → Tracks c w
    → lookup p w ≡ none
    → Tracks (add_entry c p entry) ((p, record { entry = entry; node = c.next_node }) ∷ w)
unfolding add_entry lookup total
add_entry-Tracks c w p entry t e = record {
  nodes = ap (◌∷◌ (record { id = c.next_node; path = p })) t.nodes;
  agrees = λ q. rw (lookup-assign p q _ c.cache_map, t.agrees q);
  map_distinct = assign-IsDistinct p _ c.cache_map t.map_distinct;
  distinct = (e, t.distinct);
  below = (omega arith, t.below);
  counts = omega (arith, length-assign_new p _ c.cache_map (t.agrees p ∙ e), t.counts);
  sizes = omega (arith, t.sizes);
}

entries-take : (n : ℕ) (w : List (Bytes × Slot)) → entries (take n w) ≡ take n (entries w)
entries-take zero w = refl
entries-take (suc n) [] = refl
entries-take (suc n) (e ∷ w) = ap (◌∷◌ (e.0, e.1.entry)) (entries-take n w)

entries-erase_key :
    (p : Bytes) (w : List (Bytes × Slot)) → entries (erase_key p w) ≡ erase_key p (entries w)
unfolding erase_key
entries-erase_key p [] = refl
entries-erase_key p ((k, s) ∷ w) = ground (arith, entries-erase_key p w)

lookup-entries :
    (p : Bytes) (w : List (Bytes × Slot))
    → lookup p (entries w) ≡ Option.map (λ s. s.entry) (lookup p w)
unfolding lookup
lookup-entries p [] = refl
lookup-entries p ((k, s) ∷ w) = ground (arith, lookup-entries p w)

length-map_node : (w : List (Bytes × Slot)) → length (map node_of w) ≡ length w
length-map_node [] = refl
length-map_node (e ∷ w) = ap suc (length-map_node w)

-- `put` never takes the back of an empty list, its loop ends, and it does what the specification
-- says, whatever limit `initialize` has set meanwhile; the limit itself stays.
pub put-lru_put :
    (c : FileCache) (w : List (Bytes × Slot)) (path content : Bytes) (last_modified : ℕ)
    → Tracks c w
    → (c' : FileCache) × (w' : List (Bytes × Slot)) × (put c path content last_modified ≡ some c')
      × Tracks c' w'
      × (entries w' ≡ lru_put c.max_size (entries w) path content last_modified)
      × (c'.max_size ≡ c.max_size)
unfolding put lru_put add_entry
put-lru_put c w path [] last_modified t = (c, w, refl, t, refl, refl)
put-lru_put c w path (b ∷ bs) last_modified t =
    let entry : FileCacheEntry = record { content = b ∷ bs; last_modified = last_modified } in
    let c1 = remove_existing c path in
    let w2 : List (Bytes × Slot) =
      (path, record { entry = entry; node = c1.next_node }) ∷ erase_key path w in
    let (t1, m1) = remove_existing-Tracks c w path t in
    let t2 =
      add_entry-Tracks c1 (erase_key path w) path entry t1
        (lookup-erase_key_self path w t.distinct) in
    let fuel : length w2 ≤ length (add_entry c1 path entry).lru_list =
      omega (arith, ap length t2.nodes, length-map_node w2) in
    let (c3, done, t3, m3) = evict_if_needed-Tracks _ (add_entry c1 path entry) w2 t2 fuel in
    let limit : (add_entry c1 path entry).max_size ≡ c.max_size = m1 in
    (
      c3,
      take (add_entry c1 path entry).max_size w2,
      done,
      t3,
      entries-take _ w2
          ∙ ap (λ n. take n (entries w2)) limit
          ∙ ap (λ v. take c.max_size ((path, entry) ∷ v)) (entries-erase_key path w),
      m3 ∙ limit,
    )

-- The state after a hit.
abbrev touched : FileCache → Bytes → Slot → FileCache
touched c path slot = record c {
  lru_list = record { id = c.next_node; path = path } ∷ erase_node slot.node c.lru_list;
  cache_map = assign path (record slot { node = c.next_node }) c.cache_map;
  next_node = suc c.next_node;
}

touched-Tracks :
    (c : FileCache) (w : List (Bytes × Slot)) (path : Bytes) (slot : Slot)
    → Tracks c w
    → lookup path w ≡ some slot
    → Tracks (touched c path slot) ((path, record slot { node = c.next_node }) ∷ erase_key path w)
unfolding lookup total
touched-Tracks c w path slot t e = record {
  nodes =
      ap (◌∷◌ (record { id = c.next_node; path = path }))
        (ap (erase_node slot.node) t.nodes ∙ erase_node-node_of path c.next_node w slot t.below e);
  agrees = λ q. ground (
    arith,
    lookup-assign path q (record slot { node = c.next_node }) c.cache_map,
    lookup-erase_key path q w t.distinct,
    t.agrees q,
  );
  map_distinct = assign-IsDistinct path _ c.cache_map t.map_distinct;
  distinct = (lookup-erase_key_self path w t.distinct, erase_key-IsDistinct path w t.distinct);
  below = (omega arith, erase_key-IsBelow path c.next_node w t.below);
  counts = omega (
    arith,
    length-assign_old path (record slot { node = c.next_node }) slot c.cache_map
        (t.agrees path ∙ e),
    length-erase_key path w slot e,
    t.counts,
  );
  sizes = omega (arith, t.sizes, total-erase_key path w slot e);
}

-- `get` gives what the specification gives, and moves the path in the same cases.
pub get-lru_get :
    (c : FileCache) (w : List (Bytes × Slot)) (path : Bytes) (last_modified : ℕ)
    → Tracks c w
    → (w' : List (Bytes × Slot)) × Tracks (get c path last_modified).0 w'
      × (lru_get (entries w) path last_modified ≡ (entries w', (get c path last_modified).1))
unfolding get lru_get
get-lru_get c w path last_modified t = elim (Option-cases (lookup path w)) [
  | inl e ↦ (w, rw (get, t.agrees path, e) t, ground (arith, lookup-entries path w, t.agrees path))
  | inr (slot, e) ↦ elim (Bool-cases (slot.entry.last_modified == last_modified)) [
    | inl fresh ↦ (
      (path, record slot { node = c.next_node }) ∷ erase_key path w,
      rw (get, t.agrees path, e, fresh) (touched-Tracks c w path slot t e),
      ground (arith, lookup-entries path w, t.agrees path, entries-erase_key path w),
    )
    | inr stale ↦ (
      w,
      rw (get, t.agrees path, e, stale) t,
      ground (arith, lookup-entries path w, t.agrees path),
    )
  ]
]
