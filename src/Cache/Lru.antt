-- ===== src/Cache/Lru.antt =====
-- The specification of the cache: a list of entries, the most recently used first.
use gouda_http_server.Common.{
  ℕ, ◌+◌, Option, none, some, List, [], ◌∷◌, map, ◌==◌, if◌then◌else◌, length, take,
}
use gouda_http_server.Common.Bytes.{Bytes}
use gouda_http_server.Cache.{FileCacheEntry, Slot}
use gouda_http_server.Cache.Assoc.{lookup, erase_key}

abbrev pub Lru : Type 0
Lru = List (Bytes × FileCacheEntry)

-- A fresh entry is used: it moves to the front.
unfoldable pub lru_get : Lru → Bytes → ℕ → Lru × Option FileCacheEntry
lru_get v path last_modified = elim (lookup path v) [
  | none ↦ (v, none)
  | some entry ↦
      if entry.last_modified == last_modified
      then ((path, entry) ∷ erase_key path v, some entry)
      else (v, none)
]

-- A non-empty file goes to the front in place of what the path had; the `max_size` most recently
-- used entries stay. An empty file is not stored.
unfoldable pub lru_put : ℕ → Lru → Bytes → Bytes → ℕ → Lru
lru_put max_size v path content last_modified = elim content [
  | [] ↦ v
  | b ∷ bs ↦
      take max_size
        ((path, record { content = b ∷ bs; last_modified = last_modified }) ∷ erase_key path v)
]

-- The bytes that the entries hold.
unfoldable pub total : List (Bytes × Slot) → ℕ
total [] = 0
total ((path, slot) ∷ w) = length slot.entry.content + total w

-- The entries of a list of slots.
abbrev pub entries : List (Bytes × Slot) → Lru
entries = map (λ p. (p.0, p.1.entry))
