-- ===== src/Site.antt =====
-- The routes of the site: `setup_routes` of src/routes.hpp, and what src/main.cpp sets up. The lines
-- that go to the log are left out.
pub mod Text
pub mod Favicon
pub mod Handlers
pub mod Guarded
pub mod Cached
pub mod Echo
pub mod Connection
mod Tests
use gouda_http_server.Common.{Bool, true, false, Option, none, some, List, [], ◌∷◌, if◌then◌else◌}
use gouda_http_server.Common.Bytes.{Bytes, codes, eq, starts_with}
use gouda_http_server.Cache as FileCache
use gouda_http_server.Cache.{FileCache, default_max_file_cache_size}
use gouda_http_server.Http.Headers.{get_header}
use gouda_http_server.Http.Message.{HttpRequest}
use gouda_http_server.Http.Status.{unauthorized}
use gouda_http_server.Http.Words.{HttpMethod, get, post, put, patch, delete}
use gouda_http_server.Router.Outside.{FileSystem, Library}
use gouda_http_server.Router.Routes.{
  Route, RouteHandler, WebSocketHandler, Middleware, Router, initial, make_route, add_route,
  add_middleware,
}
use gouda_http_server.Router.Static.{with_cache}
use Text.{JsonLibrary, json_error}
use Favicon.{favicon}
use Handlers.{
  PageHandler, echo_handler, home_page, about_page, echo_body, receive_json, show_query, show_form,
  user_page, change_user, echo_page,
}

-- Whether `it->second != "Bearer dummy_token"` is false, for a header that there is.
abbrev pub has_token : HttpRequest → Bool
has_token request = elim (get_header (codes "Authorization") request.headers) [
  | none ↦ false
  | some value ↦ eq value (codes "Bearer dummy_token")
]

module _ {Json : Type 0} where
  -- It logs the request and the response of `next`, and returns that. A body is one of the three
  -- that `std::visit` knows, so nothing is caught.
  unfoldable pub log_requests : Middleware Json
  log_requests request json_body next c = elim (next c) [
    | none ↦ none
    | some (response, c') ↦ some (response, c')
  ]

  unfoldable pub authenticate : Library → Middleware Json
  authenticate library request json_body next c =
      if starts_with (codes "/user/") request.path
      then (if has_token request
          then next c
          else some (json_error library unauthorized (codes "Unauthorized"), c))
      else next c

  -- `Router::add_route` with a handler that leaves the cache alone.
  abbrev page_route : HttpMethod → Bytes → PageHandler Json → Option WebSocketHandler → Route Json
  page_route method path handler =
      make_route method path
        (λ request params json_body c. with_cache c (handler request params json_body))

  -- `add_route`, one after the other.
  unfoldable pub add_routes : Library → List (Route Json) → Router Json → Option (Router Json)
  add_routes library [] router = some router
  add_routes library (route ∷ routes) router = elim (add_route library route router) [
    | none ↦ none
    | some router' ↦ add_routes library routes router'
  ]

  unfoldable pub echo_route : Library → JsonLibrary Json → Route Json
  echo_route library json =
      page_route get (codes "/ws/echo") (echo_page library json) (some echo_handler)

  module _ (fs : FileSystem) (library : Library) (json : JsonLibrary Json) where
    -- The routes, in the order of their calls of `add_route`.
    unfoldable pub site_routes : List (Route Json)
    site_routes =
        page_route get (codes "/") (home_page library json) none
        ∷ make_route get (codes "/favicon.ico")
            (λ request params json_body. favicon fs library request) none
        ∷ page_route get (codes "/about") (about_page library json) none
        ∷ page_route post (codes "/echo") (echo_body library json) none
        ∷ page_route post (codes "/json") (receive_json library json) none
        ∷ page_route get (codes "/query") (show_query library json) none
        ∷ page_route post (codes "/form") (show_form library json) none
        ∷ page_route get (codes "/user/:id") (user_page library json (codes "User found")) none
        ∷ page_route put (codes "/user/:id") (change_user library json (codes "User updated")) none
        ∷ page_route delete (codes "/user/:id") (user_page library json (codes "User deleted")) none
        ∷ page_route patch (codes "/user/:id") (change_user library json (codes "User patched"))
            none
        ∷ echo_route library json
        ∷ []

    -- `none` is the exception of `std::regex`.
    unfoldable pub setup_routes : Router Json → Option (Router Json)
    setup_routes router =
        add_routes library site_routes
          (add_middleware (authenticate library) (add_middleware log_requests router))

    -- What `main` sets up before the server runs: the cache and the router.
    unfoldable pub set_up : Option (FileCache × Router Json)
    set_up = elim (setup_routes initial) [
      | none ↦ none
      | some router ↦
          some (FileCache.initialize default_max_file_cache_size FileCache.empty, router)
    ]
