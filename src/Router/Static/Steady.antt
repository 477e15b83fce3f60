-- ===== src/Router/Static/Steady.antt =====
-- Computations whose response does not depend on the file cache.
use mathlib.Core.Option
use gouda_http_server.Common.{
  ℕ, ◌≡◌, refl, subst, sym, ap, ◌∙◌, Option, none, some, List, Option-cases, inl, inr,
}
use gouda_http_server.Common.Bytes.{Bytes}
use gouda_http_server.Cache as FileCache
use gouda_http_server.Cache.{FileCache, FileCacheEntry, Slot}
use gouda_http_server.Cache.Lru.{entries}
use gouda_http_server.Cache.Tracks.{Tracks}
use gouda_http_server.Cache.Refine.{put-lru_put, get-lru_get}
use gouda_http_server.Router.Static.Fresh.{
  IsFresh, entries-IsDistinct, lru_get_hit, lru_get-IsFresh, lru_put-IsFresh,
}
use gouda_http_server.Http.Message.{HttpResponse}
use gouda_http_server.Router.Outside.{FileSystem}
use gouda_http_server.Router.Static.{M, with_cache}

-- A cache in its invariant, with entries that hold what their files hold.
abbrev pub IsCache : FileSystem → FileCache → List (Bytes × Slot) → Type 0
IsCache fs c w = Tracks c w × IsFresh fs (entries w)

-- The response, whatever becomes of the cache.
abbrev pub response_of : Option (HttpResponse × FileCache) → Option HttpResponse
response_of = Option.map (λ p. p.0)

same_cache :
    {c d : FileCache} (p : Option HttpResponse) {r : HttpResponse}
    → with_cache c p ≡ some (r, d)
    → c ≡ d
same_cache none h = cc
same_cache (some q) h = cc

response_of-with_cache :
    (c : FileCache) (p : Option HttpResponse) → response_of (with_cache c p) ≡ p
response_of-with_cache c none = refl
response_of-with_cache c (some r) = refl

module _ (fs : FileSystem) where
  -- With every cache the response is `p`, and the cache that is left holds what the files hold.
  abbrev pub IsSteady : M HttpResponse → Option HttpResponse → Type 0
  IsSteady m p =
      (c : FileCache) (w : List (Bytes × Slot))
      → IsCache fs c w
      → (c' : FileCache) × (w' : List (Bytes × Slot)) × IsCache fs c' w' × (m c ≡ with_cache c' p)

  return-IsSteady : (r : HttpResponse) → IsSteady (λ c. some (r, c)) (some r)
  return-IsSteady r c w i = (c, w, i, refl)

  -- There is one response, whatever the cache.
  abbrev pub Steady : M HttpResponse → Type 0
  Steady m = (p : Option HttpResponse) × IsSteady m p

  pub returned : (r : HttpResponse) → Steady (λ c. some (r, c))
  returned r = (some r, return-IsSteady r)

  pub with_cache-Steady : (p : Option HttpResponse) → Steady (λ c. with_cache c p)
  with_cache-Steady p = (p, λ c w i. (c, w, i, refl))

  -- The response does not depend on the cache.
  pub Steady-cached :
      (m : M HttpResponse)
      → Steady m
      → (c d : FileCache) (w v : List (Bytes × Slot)) → IsCache fs c w
      → IsCache fs d v
      → response_of (m c) ≡ response_of (m d)
  Steady-cached m (p, steady) c d w v i j =
      let (c', w', _, e) = steady c w i in
      let (d', v', _, g) = steady d v j in
      ap response_of e
      ∙ response_of-with_cache c' p
      ∙ sym (ap response_of g ∙ response_of-with_cache d' p)

  -- The cache stays one.
  pub Steady-IsCache :
      (m : M HttpResponse)
      → Steady m
      → (c c' : FileCache) (w : List (Bytes × Slot)) (r : HttpResponse) → IsCache fs c w
      → m c ≡ some (r, c')
      → (w' : List (Bytes × Slot)) × IsCache fs c' w'
  Steady-IsCache m (p, steady) c c' w r i h =
      let (c1, w', i', e) = steady c w i in
      (w', subst (λ c. IsCache fs c w') (same_cache p (sym e ∙ h)) i')

  -- One step after the other.
  abbrev pub and_then : M HttpResponse → (HttpResponse → M HttpResponse) → M HttpResponse
  and_then m k c = elim (m c) [ none ↦ none | some (r, c') ↦ k r c' ]

  pub and_then-Steady :
      (m : M HttpResponse) (k : HttpResponse → M HttpResponse)
      → Steady m
      → ((r : HttpResponse) → Steady (k r))
      → Steady (and_then m k)
  and_then-Steady m k (none, s) h =
      (none, λ c w i. let (c', w', j, e) = s c w i in (c', w', j, rw (e, and_then)))
  and_then-Steady m k (some r, s) h = (
    (h r).0,
    λ c w i.
        let (c', w', j, e) = s c w i in
        let (c1, w1, j1, e1) = (h r).1 c' w' j in (c1, w1, j1, rw (e, e1, and_then)),
  )

  -- A file by way of the cache: `failed` where it cannot be read, and `answer` of its content.
  module _ (path : Bytes) (time : ℕ) (failed : HttpResponse)
      (answer : Bytes → Option HttpResponse) where
    abbrev read_and_put : M HttpResponse
    read_and_put c = elim (fs.read_file path) [
      | none ↦ some (failed, c)
      | some content ↦ elim (FileCache.put c path content time) [
        | none ↦ none
        | some c' ↦ with_cache c' (answer content)
      ]
    ]

    abbrev pub get_or_read : M HttpResponse
    get_or_read c = elim (FileCache.get c path time).1 [
      | none ↦ read_and_put c
      | some entry ↦ with_cache (FileCache.get c path time).0 (answer entry.content)
    ]

    abbrev pub from_file : Option HttpResponse
    from_file = elim (fs.read_file path) [ none ↦ some failed | some content ↦ answer content ]

    read_and_put-IsSteady : fs.last_write_time path ≡ some time → IsSteady read_and_put from_file
    read_and_put-IsSteady t c w (i, f) = elim (Option-cases (fs.read_file path)) [
      | inl e ↦ (c, w, (i, f), rw (e, read_and_put, from_file))
      | inr (content, e) ↦
          let (c', w', done, i', same, m) = put-lru_put c w path content time i in
          let f' : IsFresh fs (entries w') = rw same (
            lru_put-IsFresh fs c.max_size (entries w) path content time
              (entries-IsDistinct w i.distinct) t e f) in
          (c', w', (i', f'), rw (e, done, read_and_put, from_file))
    ]

    -- A hit is the entry of the file, which holds what the file holds.
    pub get_or_read-IsSteady : fs.last_write_time path ≡ some time → IsSteady get_or_read from_file
    get_or_read-IsSteady t c w (i, f) = elim (Option-cases (FileCache.get c path time).1) [
      | inl g ↦ rw (g, get_or_read) (read_and_put-IsSteady t c w (i, f))
      | inr (entry, g) ↦
          let (w', i', same) = get-lru_get c w path time i in
          let (found, new) = lru_get_hit (entries w) path time entry (ap (λ p. p.1) same ∙ g) in
          let content = f path entry found (t ∙ ap some (sym new)) in
          let f' : IsFresh fs (entries w') =
            subst (IsFresh fs) (ap (λ p. p.0) same)
              (lru_get-IsFresh fs (entries w) path time (entries-IsDistinct w i.distinct) f) in
          (
            (FileCache.get c path time).0,
            w',
            (i', f'),
            rw (g, content, get_or_read, from_file) refl,
          )
    ]
