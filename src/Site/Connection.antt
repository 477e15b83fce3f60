-- ===== src/Site/Connection.antt =====
-- A whole connection to the site, from reading to the endings of `handle`.
use gouda_http_server.Common.{ℕ, ◌≡◌, some, List}
use gouda_http_server.Common.Bytes.{Bytes}
use gouda_http_server.Cache.{FileCache, Slot, empty}
use gouda_http_server.Client.{Recv}
use gouda_http_server.Client.Cut.{Setting}
use gouda_http_server.Client.Process.{handle}
use gouda_http_server.Client.Process.AnyCache.{handle-Steady}
use gouda_http_server.Client.Process.Steady.{swap, SteadyRun-cached}
use gouda_http_server.Router.Routes.{initial}
use gouda_http_server.Router.Static.Steady.{IsCache}
use gouda_http_server.Site.{setup_routes}
use gouda_http_server.Site.Cached.{site-Steady}
use gouda_http_server.Site.Text.{JsonLibrary}

module _ {Json : Type 0} (setting : Setting Json) where
  -- Let the router of a connection be what `setup_routes` gives, and let two caches be in their
  -- invariant, with entries that hold what the files hold, where they have the files' time stamps.
  -- Then whatever a client sends, `handle` with a limit of any number of requests makes the same
  -- outputs in the same order with both caches and ends in the same way; only the caches that are
  -- left may differ.
  pub handle-cached :
      (json : JsonLibrary Json) (left : ℕ) (reads : List Recv) (c d : FileCache)
      (w v : List (Bytes × Slot))
      → setup_routes setting.fs setting.library json initial ≡ some setting.router
      → IsCache setting.fs c w
      → IsCache setting.fs d v
      → swap empty (handle setting left reads c) ≡ swap empty (handle setting left reads d)
  handle-cached json left reads c d w v h =
      SteadyRun-cached setting.fs (handle setting left reads)
        (handle-Steady setting
          (λ request json_body.
            site-Steady setting.fs setting.library json setting.router request json_body h)
          left reads)
        c d w v
