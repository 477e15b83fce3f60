-- ===== src/Client/Process/Steady.antt =====
-- Parts of a connection that end alike with every file cache.
use gouda_http_server.Common.{◌≡◌, refl, ap, ◌∙◌, List}
use gouda_http_server.Common.Bytes.{Bytes}
use gouda_http_server.Cache.{FileCache, Slot, empty}
use gouda_http_server.Client.{Recv}
use gouda_http_server.Client.Process.{
  Output, Ending, keeps, closes, fails, waits, throws, exhausted, behind, and_next,
}
use gouda_http_server.Router.Outside.{FileSystem}
use gouda_http_server.Router.Static.Steady.{IsCache}

-- The same ending with another cache.
abbrev pub swap : FileCache → Ending → Ending
swap c (keeps o reads d) = keeps o reads c
swap c (closes o d) = closes o c
swap c (fails o d) = fails o c
swap c (waits o) = waits o
swap c (throws o) = throws o
swap c (exhausted o) = exhausted o

swap-behind :
    (c : FileCache) (o : List Output) (e : Ending) → behind o (swap c e) ≡ swap c (behind o e)
swap-behind c o (keeps p reads d) = refl
swap-behind c o (closes p d) = refl
swap-behind c o (fails p d) = refl
swap-behind c o (waits p) = refl
swap-behind c o (throws p) = refl
swap-behind c o (exhausted p) = refl

swap-swap : (b c : FileCache) (e : Ending) → swap b (swap c e) ≡ swap b e
swap-swap b c (keeps p reads d) = refl
swap-swap b c (closes p d) = refl
swap-swap b c (fails p d) = refl
swap-swap b c (waits p) = refl
swap-swap b c (throws p) = refl
swap-swap b c (exhausted p) = refl

module _ (fs : FileSystem) where
  -- With every cache the ending is `e`, but for the cache that is left.
  abbrev Ends : (FileCache → Ending) → Ending → Type 0
  Ends m e =
      (c : FileCache) (w : List (Bytes × Slot))
      → IsCache fs c w
      → (c' : FileCache) × (w' : List (Bytes × Slot)) × IsCache fs c' w' × (m c ≡ swap c' e)

  -- There is one ending, whatever the cache.
  abbrev pub SteadyRun : (FileCache → Ending) → Type 0
  SteadyRun m = (e : Ending) × Ends m e

  pub SteadyRun-cached :
      (m : FileCache → Ending)
      → SteadyRun m
      → (c d : FileCache) (w v : List (Bytes × Slot)) → IsCache fs c w
      → IsCache fs d v
      → swap empty (m c) ≡ swap empty (m d)
  SteadyRun-cached m (e, steady) c d w v i j =
      let (c', w', _, p) = steady c w i in
      let (d', v', _, q) = steady d v j in rw (p, q, swap-swap empty c' e, swap-swap empty d' e)

  -- An ending that takes the cache as it is.
  pub ends : (e : Ending) → SteadyRun (λ c. swap c e)
  ends e = (e, λ c w i. (c, w, i, refl))

  pub behind-Steady :
      (o : List Output) (m : FileCache → Ending) → SteadyRun m → SteadyRun (λ c. behind o (m c))
  behind-Steady o m (e, steady) = (
    behind o e,
    λ c w i. let (c', w', j, p) = steady c w i in (c', w', j, ap (behind o) p ∙ swap-behind c' o e),
  )

  unchanged :
      (m : FileCache → Ending) (k : List Recv → FileCache → Ending) (e : Ending)
      → Ends m e
      → ((c : FileCache) → and_next (swap c e) k ≡ swap c e)
      → SteadyRun (λ c. and_next (m c) k)
  unchanged m k e steady h =
      (e, λ c w i. let (c', w', j, p) = steady c w i in (c', w', j, rw p (h c')))

  pub and_next-Steady :
      (m : FileCache → Ending) (k : List Recv → FileCache → Ending)
      → SteadyRun m
      → ((reads : List Recv) → SteadyRun (k reads))
      → SteadyRun (λ c. and_next (m c) k)
  and_next-Steady m k (keeps o reads d, steady) h =
      let (e, next) = behind-Steady o (k reads) (h reads) in
      (
        e,
        λ c w i.
            let (c', w', j, p) = steady c w i in
            let (b, v, l, q) = next c' w' j in (b, v, l, rw (p) q),
      )
  and_next-Steady m k (closes o d, steady) h = unchanged m k (closes o d) steady (λ c. refl)
  and_next-Steady m k (fails o d, steady) h = unchanged m k (fails o d) steady (λ c. refl)
  and_next-Steady m k (waits o, steady) h = unchanged m k (waits o) steady (λ c. refl)
  and_next-Steady m k (throws o, steady) h = unchanged m k (throws o) steady (λ c. refl)
  and_next-Steady m k (exhausted o, steady) h = unchanged m k (exhausted o) steady (λ c. refl)
