-- ===== src/Cache.antt =====
-- `FileCache` of include/file_cache.hpp and src/file_cache.cpp. Its static members are the fields
-- of a record; each operation runs under `s_mutex`, so it is one step. The iterator that an entry
-- of the map holds is the number of its list node, taken from a counter that the program does not
-- have. A path is a byte string and `file_time_type` a number that is only compared.
mod Tests
pub mod Assoc
pub mod Lru
pub mod Tracks
pub mod Evict
pub mod Refine
pub mod History
use gouda_http_server.Common.{
  ℕ, zero, suc, ◌+◌, ◌-◌, ◌%◌, ◌^◌, Bool, true, false, Option, none, some, List, [], ◌∷◌, ltb, ◌==◌,
  if◌then◌else◌, length,
}
use gouda_http_server.Common.Bytes.{Bytes}
use Assoc.{lookup, erase_key, assign}

pub record FileCacheEntry : Type 0 where
  pub content : Bytes
  pub last_modified : ℕ

-- A value of the map: `std::pair<FileCacheEntry, iterator>`.
pub record Slot : Type 0 where
  pub entry : FileCacheEntry
  pub node : ℕ

-- A node of `s_lru_list`.
pub record Node : Type 0 where
  pub id : ℕ
  pub path : Bytes

pub record FileCache : Type 0 where
  pub cache_map : List (Bytes × Slot)
  pub lru_list : List Node
  pub max_size : ℕ
  pub total_size : ℕ
  pub next_node : ℕ

-- `DEFAULT_MAX_FILE_CACHE_SIZE` of include/http_constants.hpp.
abbrev pub default_max_file_cache_size : ℕ
default_max_file_cache_size = 100

-- The static initialisers.
unfoldable pub empty : FileCache
empty = record {
  cache_map = [];
  lru_list = [];
  max_size = default_max_file_cache_size;
  total_size = 0;
  next_node = 0;
}

pub initialize : ℕ → FileCache → FileCache
initialize max_size c = record c {
  max_size = if ltb 0 max_size then max_size else default_max_file_cache_size;
}

-- `s_lru_list.erase(iterator)`.
unfoldable pub erase_node : ℕ → List Node → List Node
erase_node id [] = []
erase_node id (n ∷ ns) = if n.id == id then ns else n ∷ erase_node id ns

-- `s_total_size -= n` on `size_t`.
abbrev pub sub_size : ℕ → ℕ → ℕ
sub_size total n = (total + (2 ^ 64 - n % 2 ^ 64)) % 2 ^ 64

-- A hit gives the entry, which the program copies into its argument, and moves the path to the
-- front; a missing or stale entry is a miss.
unfoldable pub get : FileCache → Bytes → ℕ → FileCache × Option FileCacheEntry
get c path last_modified = elim (lookup path c.cache_map) [
  | none ↦ (c, none)
  | some slot ↦
      if slot.entry.last_modified == last_modified
      then (
        record c {
          lru_list = record { id = c.next_node; path = path } ∷ erase_node slot.node c.lru_list;
          cache_map = assign path (record slot { node = c.next_node }) c.cache_map;
          next_node = suc c.next_node;
        },
        some slot.entry,
      )
      else (c, none)
]

-- `s_lru_list.back()`, undefined on the empty list.
unfoldable pub back : List Node → Option Node
back [] = none
back (n ∷ []) = some n
back (n ∷ m ∷ ns) = back (m ∷ ns)

-- `s_lru_list.pop_back()`.
pub pop_back {ℓ} : {A : Type ℓ} → List A → List A
pop_back [] = []
pop_back (n ∷ []) = []
pop_back (n ∷ m ∷ ns) = n ∷ pop_back (m ∷ ns)

-- One round of the loop of `evict_if_needed`, behind its test.
unfoldable pub evict_one : FileCache → Option FileCache
evict_one c = elim (back c.lru_list) [
  | none ↦ none
  | some n ↦ elim (lookup n.path c.cache_map) [
    | none ↦ some (record c { lru_list = pop_back c.lru_list })
    | some slot ↦ some (record c {
      total_size = sub_size c.total_size (length slot.entry.content);
      lru_list = pop_back c.lru_list;
      cache_map = erase_key n.path c.cache_map;
    })
  ]
]

-- The loop, on fuel. `none` is `back()` of an empty list, or fuel that ran out.
unfoldable pub evict_if_needed : ℕ → FileCache → Option FileCache
evict_if_needed zero c = if ltb c.max_size (length c.cache_map) then none else some c
evict_if_needed (suc fuel) c = elim (ltb c.max_size (length c.cache_map)) [
  | false ↦ some c
  | true ↦ elim (evict_one c) [ none ↦ none | some c' ↦ evict_if_needed fuel c' ]
]

-- The removal of an existing entry in `put`.
unfoldable pub remove_existing : FileCache → Bytes → FileCache
remove_existing c path = elim (lookup path c.cache_map) [
  | none ↦ c
  | some slot ↦ record c {
    total_size = sub_size c.total_size (length slot.entry.content);
    lru_list = erase_node slot.node c.lru_list;
    cache_map = erase_key path c.cache_map;
  }
]

-- The new entry, at the front.
unfoldable pub add_entry : FileCache → Bytes → FileCacheEntry → FileCache
add_entry c path entry = record c {
  lru_list = record { id = c.next_node; path = path } ∷ c.lru_list;
  cache_map = assign path (record { entry = entry; node = c.next_node }) c.cache_map;
  total_size = (c.total_size + length entry.content) % 2 ^ 64;
  next_node = suc c.next_node;
}

-- Each round of the eviction shortens the list by one, which is the fuel.
unfoldable pub put : FileCache → Bytes → Bytes → ℕ → Option FileCache
put c path content last_modified = elim content [
  | [] ↦ some c
  | b ∷ bs ↦
      (let c' =
          add_entry (remove_existing c path) path
            (record { content = b ∷ bs; last_modified = last_modified }) in
        evict_if_needed (length c'.lru_list) c')
]
