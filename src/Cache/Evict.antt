-- ===== src/Cache/Evict.antt =====
-- The eviction loop, and the removal of one path from the cache.
use gouda_http_server.Common.{
  ℕ, zero, suc, ◌≤◌, ◌<◌, ◌≡◌, refl, ap, subst, ◌∙◌, inl, inr, some, List, map, ltb, arith, length,
  take, take_all, Bool-cases,
}
use gouda_http_server.Common.Bytes.{Bytes}
use gouda_http_server.Cache.{Slot, Node, FileCache, sub_size, pop_back, evict_one, evict_if_needed}
use gouda_http_server.Cache.Assoc.{
  lookup, erase_key, lookup-erase_key, erase_key-IsDistinct, length-erase_key,
}
use gouda_http_server.Cache.Tracks.{
  node_of, Tracks, erase_key-IsBelow, total-erase_key, sub_size_lem, back-node_of, pop_back-node_of,
  take-pop_back, length-pop_back,
}

abbrev pub without : FileCache → Bytes → Slot → List Node → FileCache
without c p slot ns = record c {
  total_size = sub_size c.total_size (length slot.entry.content);
  lru_list = ns;
  cache_map = erase_key p c.cache_map;
}

-- To take a present path out of the map, the list and the size is to erase its slot.
pub Tracks-erase :
    (c : FileCache) (w : List (Bytes × Slot)) (p : Bytes) (slot : Slot) (ns : List Node)
    → Tracks c w
    → lookup p w ≡ some slot
    → ns ≡ map node_of (erase_key p w)
    → Tracks (without c p slot ns) (erase_key p w)
Tracks-erase c w p slot ns t found e = record {
  nodes = e;
  agrees = λ q. rw (
    lookup-erase_key p q c.cache_map t.map_distinct,
    lookup-erase_key p q w t.distinct,
    t.agrees q,
  );
  map_distinct = erase_key-IsDistinct p c.cache_map t.map_distinct;
  distinct = erase_key-IsDistinct p w t.distinct;
  below = erase_key-IsBelow p c.next_node w t.below;
  counts = omega (
    arith,
    length-erase_key p c.cache_map slot (t.agrees p ∙ found),
    length-erase_key p w slot found,
    t.counts,
  );
  sizes = rw t.sizes (sub_size_lem _ _ _ (total-erase_key p w slot found));
}

evict_one-Tracks :
    (c : FileCache) (w : List (Bytes × Slot))
    → Tracks c w
    → 0 < length w
    → (c' : FileCache) × (evict_one c ≡ some c')
      × Tracks c' (pop_back w)
      × (c'.max_size ≡ c.max_size)
unfolding evict_one
evict_one-Tracks c w t h = elim (back-node_of w t.distinct) [
  | inl (e, _) ↦ absurd (omega (arith, ap length e))
  | inr (p, slot, last, found, dropped) ↦
      let evicts : evict_one c ≡ some (without c p slot (pop_back c.lru_list)) =
        ground (arith, t.nodes, last, t.agrees p, found) in
      (
        without c p slot (pop_back c.lru_list),
        evicts,
        rw dropped (
            Tracks-erase c w p slot _ t found
              (ap pop_back t.nodes ∙ pop_back-node_of w ∙ ap (map node_of) dropped)),
        refl,
      )
]

-- The loop ends with the `max_size` most recently used slots, and with fuel for each slot it ends.
pub evict_if_needed-Tracks :
    (fuel : ℕ) (c : FileCache) (w : List (Bytes × Slot))
    → Tracks c w
    → length w ≤ fuel
    → (c' : FileCache) × (evict_if_needed fuel c ≡ some c')
      × Tracks c' (take c.max_size w)
      × (c'.max_size ≡ c.max_size)
unfolding evict_if_needed
evict_if_needed-Tracks zero c w t h =
    (c, ground (arith, t.counts), rw (take_all c.max_size w (omega arith)) t, refl)
evict_if_needed-Tracks (suc fuel) c w t h =
    elim (Bool-cases (ltb c.max_size (length c.cache_map))) [
      | inl over ↦
          let size : c.max_size < length w = ground (arith, t.counts) in
          let len : suc (length (pop_back w)) ≡ length w = length-pop_back w (omega arith) in
          let (c1, one, t1, m1) = evict_one-Tracks c w t (omega arith) in
          let (c2, more, t2, m2) =
            evict_if_needed-Tracks fuel c1 (pop_back w) t1 (omega (arith, len)) in
          (
            c2,
            rw (over, evict_if_needed, one) more,
            subst (Tracks c2) (ap (λ n. take n (pop_back w)) m1 ∙ take-pop_back c.max_size w size)
                t2,
            m2 ∙ m1,
          )
      | inr fits ↦ (
        c,
        rw (fits, evict_if_needed),
        rw (take_all c.max_size w (ground (arith, t.counts))) t,
        refl,
      )
    ]
