-- ===== src/Cache/History.antt =====
-- Whole histories of calls, and what one call leaves for the next.
use gouda_http_server.Common.{
  ℕ, zero, suc, ◌≤◌, ◌<◌, ◌≡◌, refl, sym, ap, ◌∙◌, ◌≢◌, Option, none, some, List, [], ◌∷◌, ltb,
  if◌then◌else◌, arith, length, length-take-le, take,
}
use gouda_http_server.Common.Bytes.{Bytes, eq_refl}
use gouda_http_server.Cache.{
  FileCacheEntry, Slot, FileCache, empty, initialize, get, put, default_max_file_cache_size,
}
use gouda_http_server.Cache.Assoc.{lookup, erase_key}
use gouda_http_server.Cache.Lru.{Lru, lru_get, lru_put, total, entries}
use gouda_http_server.Cache.Tracks.{Tracks}
use gouda_http_server.Cache.Refine.{put-lru_put, get-lru_get}

pub data Call : Type 0 where
  initializes : ℕ → Call
  gets : Bytes → ℕ → Call
  puts : Bytes → Bytes → ℕ → Call

-- `none` where a call faults.
unfoldable pub run : List Call → FileCache → Option FileCache
run [] c = some c
run (initializes n ∷ calls) c = run calls (initialize n c)
run (gets path t ∷ calls) c = run calls (get c path t).0
run (puts path content t ∷ calls) c = elim (put c path content t) [
  | none ↦ none
  | some c' ↦ run calls c'
]

-- The same history on the limit and the list of entries.
unfoldable pub lru_run : List Call → ℕ × Lru → ℕ × Lru
lru_run [] (n, v) = (n, v)
lru_run (initializes m ∷ calls) (n, v) =
    lru_run calls (if ltb 0 m then m else default_max_file_cache_size, v)
lru_run (gets path t ∷ calls) (n, v) = lru_run calls (n, (lru_get v path t).0)
lru_run (puts path content t ∷ calls) (n, v) = lru_run calls (n, lru_put n v path content t)

initialize-Tracks :
    (n : ℕ) (c : FileCache) (w : List (Bytes × Slot)) → Tracks c w → Tracks (initialize n c) w
unfolding initialize
initialize-Tracks n c w t = record {
  nodes = t.nodes;
  agrees = t.agrees;
  map_distinct = t.map_distinct;
  distinct = t.distinct;
  below = t.below;
  counts = t.counts;
  sizes = t.sizes;
}

get-max_size : (c : FileCache) (path : Bytes) (t : ℕ) → (get c path t).0.max_size ≡ c.max_size
unfolding get
get-max_size c path t = ground arith

run-lru_run :
    (calls : List Call) (c : FileCache) (w : List (Bytes × Slot)) (n : ℕ)
    → Tracks c w
    → c.max_size ≡ n
    → (c' : FileCache) × (w' : List (Bytes × Slot)) × (run calls c ≡ some c')
      × Tracks c' w'
      × (lru_run calls (n, entries w) ≡ (c'.max_size, entries w'))
unfolding run lru_run
run-lru_run [] c w n t e = (c, w, refl, t, ap (λ m. (m, entries w)) (sym e))
run-lru_run (initializes m ∷ calls) c w n t e =
    run-lru_run calls (initialize m c) w (if ltb 0 m then m else default_max_file_cache_size)
      (initialize-Tracks m c w t) (unfold initialize in refl)
run-lru_run (gets path s ∷ calls) c w n t e =
    let (w1, t1, same) = get-lru_get c w path s t in
    let (c2, w2, ran, t2, spec) =
      run-lru_run calls (get c path s).0 w1 n t1 (get-max_size c path s ∙ e) in
    (c2, w2, ran, t2, ap (λ v. lru_run calls (n, v.0)) same ∙ spec)
run-lru_run (puts path content s ∷ calls) c w n t e =
    let (c1, w1, done, t1, same, limit) = put-lru_put c w path content s t in
    let (c2, w2, ran, t2, spec) = run-lru_run calls c1 w1 n t1 (limit ∙ e) in
    (
      c2,
      w2,
      rw (done, run) ran,
      t2,
      ap (λ m. lru_run calls (n, lru_put m (entries w) path content s)) (sym e)
          ∙ ap (λ v. lru_run calls (n, v)) (sym same)
          ∙ spec,
    )

length-entries : (w : List (Bytes × Slot)) → length (entries w) ≡ length w
length-entries [] = refl
length-entries (e ∷ w) = ap suc (length-entries w)

pub empty-Tracks : Tracks empty []
unfolding empty lookup total
empty-Tracks = record {
  nodes = refl;
  agrees = λ q. refl;
  map_distinct = tt;
  distinct = tt;
  below = tt;
  counts = refl;
  sizes = refl;
}

-- Every history of calls on the initial cache runs with no fault, and leaves the cache with the
-- limit and the entries, in order of use, that the specification has; the map and the list agree,
-- and `s_total_size` is the number of bytes held, modulo 2 ^ 64.
pub run-empty :
    (calls : List Call)
    → (c : FileCache) × (w : List (Bytes × Slot)) × (run calls empty ≡ some c)
      × Tracks c w
      × (lru_run calls (default_max_file_cache_size, []) ≡ (c.max_size, entries w))
run-empty calls =
    run-lru_run calls empty [] default_max_file_cache_size empty-Tracks (unfold empty in refl)

-- After `put` of a non-empty file the cache holds at most `max_size` entries, also where it held
-- more before.
put_bounded :
    (c c' : FileCache) (w : List (Bytes × Slot)) (path content : Bytes) (t : ℕ)
    → Tracks c w
    → content ≢ []
    → put c path content t ≡ some c'
    → (length c'.cache_map ≤ c'.max_size) × (c'.max_size ≡ c.max_size)
unfolding lru_put
put_bounded c c' w path [] t tr n e = absurd (n refl)
put_bounded c c' w path (b ∷ bs) t tr n e =
    let (c1, w1, done, t1, same, limit) = put-lru_put c w path (b ∷ bs) t tr in
    let same_state : c' ≡ c1 = cc in
    rw same_state (
      omega (
        arith,
        t1.counts,
        length-entries w1,
        ap length same,
        limit,
        length-take-le c.max_size ((path, _) ∷ erase_key path (entries w)),
      ),
      limit,
    )

lru_get_front :
    (n : ℕ) (path : Bytes) (entry : FileCacheEntry) (v : Lru)
    → 0 < n
    → (lru_get (take n ((path, entry) ∷ v)) path entry.last_modified).1 ≡ some entry
unfolding lru_get lookup
lru_get_front zero path entry v h = absurd (omega arith)
lru_get_front (suc n) path entry v h = ground (arith, eq_refl path)

-- Where the limit is not zero, a `get` after the `put` of a non-empty file hits: it gives the
-- content, provided that it asks with the same time stamp.
pub get-put :
    (c c' : FileCache) (w : List (Bytes × Slot)) (path content : Bytes) (t : ℕ)
    → Tracks c w
    → content ≢ []
    → 0 < c.max_size
    → put c path content t ≡ some c'
    → (get c' path t).1 ≡ some (record { content = content; last_modified = t })
unfolding lru_put
get-put c c' w path [] t tr n h e = absurd (n refl)
get-put c c' w path (b ∷ bs) t tr n h e =
    let entry : FileCacheEntry = record { content = b ∷ bs; last_modified = t } in
    let (c1, w1, done, t1, same, limit) = put-lru_put c w path (b ∷ bs) t tr in
    let same_state : c' ≡ c1 = cc in
    let (w2, t2, spec) = get-lru_get c1 w1 path t t1 in
    rw same_state (
      sym (ap (λ r. r.1) spec)
      ∙ ap (λ v. (lru_get v path t).1) same
      ∙ lru_get_front c.max_size path entry (erase_key path (entries w)) h)
