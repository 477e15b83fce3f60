-- ===== src/Router/Static/Fresh.antt =====
-- The entries of the cache, against the files that they come from.
use gouda_http_server.Common.{
  ℕ, zero, suc, ◌≡◌, refl, none, some, List, [], ◌∷◌, arith, take, ◌==◌, Bool-cases, Option-cases,
  inl, inr,
}
use gouda_http_server.Common.Bytes.{Bytes, eq, eq_iff}
use gouda_http_server.Cache.{FileCacheEntry, Slot}
use gouda_http_server.Cache.Assoc.{lookup, erase_key, lookup-erase_key, IsDistinct}
use gouda_http_server.Cache.Lru.{Lru, lru_get, lru_put, entries}
use gouda_http_server.Router.Outside.{FileSystem}

-- An entry with the time stamp of its file holds what the file holds.
abbrev pub IsFresh : FileSystem → Lru → Type 0
IsFresh fs v =
    (path : Bytes) (entry : FileCacheEntry)
    → lookup path v ≡ some entry
    → fs.last_write_time path ≡ some entry.last_modified
    → fs.read_file path ≡ some entry.content

pub entries-IsDistinct : (w : List (Bytes × Slot)) → IsDistinct w → IsDistinct (entries w)
unfolding lookup
entries-IsDistinct [] d = tt
entries-IsDistinct ((k, slot) ∷ w) (e, d) = (absent w e, entries-IsDistinct w d)
  where
    absent : (w : List (Bytes × Slot)) → lookup k w ≡ none → lookup k (entries w) ≡ none
    absent [] e = refl
    absent ((j, slot) ∷ w) e = ground (arith, absent w)

lookup-take :
    (n : ℕ) (path : Bytes) (v : Lru) (entry : FileCacheEntry)
    → lookup path (take n v) ≡ some entry
    → lookup path v ≡ some entry
unfolding lookup
lookup-take zero path v entry h = cc
lookup-take (suc n) path [] entry h = cc
lookup-take (suc n) path ((k, e) ∷ v) entry h = ground (arith, lookup-take n path v entry)

-- A hit is the entry that was looked up, and of the time that was asked for.
pub lru_get_hit :
    (v : Lru) (path : Bytes) (time : ℕ) (entry : FileCacheEntry)
    → (lru_get v path time).1 ≡ some entry
    → (lookup path v ≡ some entry) × (entry.last_modified ≡ time)
unfolding lru_get
lru_get_hit v path time entry h = ground arith

module _ (fs : FileSystem) where
  -- An entry that goes to the front in place of the old one.
  cons-IsFresh :
      (v : Lru) (path : Bytes) (entry : FileCacheEntry)
      → IsDistinct v
      → (fs.last_write_time path ≡ some entry.last_modified
          → fs.read_file path ≡ some entry.content)
      → IsFresh fs v
      → IsFresh fs ((path, entry) ∷ erase_key path v)
  unfolding lookup
  cons-IsFresh v path entry d new f q e h t = elim (Bool-cases (eq path q)) [
    | inl same ↦ ground (arith, (eq_iff path q).0 same, new)
    | inr other ↦ f q e (ground (arith, lookup-erase_key path q v d)) t
  ]

  pub lru_get-IsFresh :
      (v : Lru) (path : Bytes) (time : ℕ)
      → IsDistinct v
      → IsFresh fs v
      → IsFresh fs (lru_get v path time).0
  unfolding lru_get lookup
  lru_get-IsFresh v path time d f = elim (Option-cases (lookup path v)) [
    | inl e ↦ rw (e, lru_get) f
    | inr (entry, e) ↦ elim (Bool-cases (entry.last_modified == time)) [
      | inl g ↦ rw (e, g, lru_get) (cons-IsFresh v path entry d (f path entry e) f)
      | inr g ↦ rw (e, g, lru_get) f
    ]
  ]

  pub lru_put-IsFresh :
      (n : ℕ) (v : Lru) (path content : Bytes) (time : ℕ)
      → IsDistinct v
      → fs.last_write_time path ≡ some time
      → fs.read_file path ≡ some content
      → IsFresh fs v
      → IsFresh fs (lru_put n v path content time)
  unfolding lru_put
  lru_put-IsFresh n v path [] time d t r f = f
  lru_put-IsFresh n v path (b ∷ bs) time d t r f =
      let entry : FileCacheEntry = record { content = b ∷ bs; last_modified = time } in
      let stored = cons-IsFresh v path entry d (λ _. r) f in
      λ q e h. stored q e (lookup-take n q _ e h)
