-- ===== src/Cache/Tests.antt =====
-- Runs of the cache, and the theorems at concrete inputs.
use gouda_http_server.Common.{◌≡◌, refl, some, List, [], ◌∷◌, arith}
use gouda_http_server.Common.Bytes.{Bytes, codes}
use gouda_http_server.Cache.{
  Slot, FileCache, empty, initialize, get, put, evict_if_needed, evict_one, remove_existing,
  add_entry, erase_node, back, pop_back,
}
use gouda_http_server.Cache.Assoc.{lookup, erase_key, assign}
use gouda_http_server.Cache.Lru.{lru_get, lru_put, total, entries}
use gouda_http_server.Cache.Tracks.{Tracks}
use gouda_http_server.Cache.Refine.{put-lru_put}
use gouda_http_server.Cache.History.{
  Call, initializes, gets, puts, run, lru_run, run-empty, get-put, empty-Tracks,
}

program : Unit {0}
unfolding empty initialize get put evict_if_needed evict_one remove_existing add_entry erase_node
    back pop_back lookup erase_key assign run lru_run lru_get lru_put total
program = tt

abbrev a_css : Bytes
a_css = codes "a.css"

abbrev b_js : Bytes
b_js = codes "b.js"

abbrev calls : List Call
calls =
    initializes 2
    ∷ puts a_css (codes "aaa") 1
    ∷ puts b_js (codes "bb") 1
    ∷ gets a_css 1
    ∷ puts (codes "c") (codes "c") 2
    ∷ []

-- The third file evicts the one that was not read.
run_calls : lru_run calls (100, []) ≡ (
  2,
  (codes "c", record { content = codes "c"; last_modified = 2 })
      ∷ (a_css, record { content = codes "aaa"; last_modified = 1 })
      ∷ [],
)
unfolding program
run_calls = refl

run-empty_example :
    (c : FileCache) × (w : List (Bytes × Slot)) × (run calls empty ≡ some c)
    × Tracks c w
    × (lru_run calls (100, []) ≡ (c.max_size, entries w))
run-empty_example = run-empty calls

abbrev after_put : FileCache
after_put = record {
  cache_map =
      (a_css, record { entry = record { content = codes "aaa"; last_modified = 1 }; node = 0 })
      ∷ [];
  lru_list = record { id = 0; path = a_css } ∷ [];
  max_size = 100;
  total_size = 3;
  next_node = 1;
}

put-lru_put_example :
    (c' : FileCache) × (w' : List (Bytes × Slot)) × (put empty a_css (codes "aaa") 1 ≡ some c')
    × Tracks c' w'
    × (entries w' ≡ lru_put empty.max_size [] a_css (codes "aaa") 1)
    × (c'.max_size ≡ empty.max_size)
put-lru_put_example = put-lru_put empty [] a_css (codes "aaa") 1 empty-Tracks

get-put_example :
    (get after_put a_css 1).1 ≡ some (record { content = codes "aaa"; last_modified = 1 })
unfolding program
get-put_example =
    get-put empty after_put [] a_css (codes "aaa") 1 empty-Tracks (λ e. cc) (omega arith) refl
