-- ===== src/Router/Routes.antt =====
-- The routes of `Router`: `add_route`, `add_middleware` and the searches, of include/router.hpp and
-- src/router.cpp. The values of `nlohmann::json` are a type parameter.
pub mod First
pub mod Every
use gouda_http_server.Common.{
  ℕ, Bool, true, false, Option, none, some, List, [], ◌∷◌, ◌++◌, ◌==◌, if◌then◌else◌,
}
use gouda_http_server.Common.Bytes.{Bytes, codes}
use gouda_http_server.Http.Message.{HttpRequest, HttpResponse}
use gouda_http_server.Http.Words.{HttpMethod, method_index}
use gouda_http_server.Router.Outside.{Library}
use gouda_http_server.Router.Params.{param_names, route_pattern}
use gouda_http_server.Router.Static.{M, StaticFiles, default_static_files}
use gouda_http_server.WebSocket.Frame.{WebSocketFrame}

-- `HttpRequestParams`, a `std::map`.
abbrev pub HttpRequestParams : Type 0
HttpRequestParams = List (Bytes × Bytes)

abbrev pub WebSocketHandler : Type 0
WebSocketHandler = WebSocketFrame → ℕ → ℕ → Bytes

-- A handler runs on the file cache, and may throw.
abbrev pub RouteHandler : Type 0 → Type 0
RouteHandler Json = HttpRequest → HttpRequestParams → Option Json → M HttpResponse

pub record Route (Json : Type 0) : Type 0 where
  pub method : HttpMethod
  pub pattern : Bytes
  pub handler : RouteHandler Json
  pub param_names : List Bytes
  pub websocket_handler : Option WebSocketHandler

abbrev pub Middleware : Type 0 → Type 0
Middleware Json = HttpRequest → Option Json → M HttpResponse → M HttpResponse

-- The static members.
pub record Router (Json : Type 0) : Type 0 where
  pub static_files : StaticFiles
  pub routes_by_method : List (HttpMethod × List (Route Json))
  pub middlewares : List (Middleware Json)
  pub allowed_origins : List Bytes

unfoldable pub same_method : HttpMethod → HttpMethod → Bool
same_method m n = method_index m == method_index n

module _ {Json : Type 0} where
  -- The static initialisers.
  abbrev pub initial : Router Json
  initial = record {
    static_files = default_static_files;
    routes_by_method = [];
    middlewares = [];
    allowed_origins = codes "http://localhost:8080" ∷ [];
  }

  -- `s_routes_by_method.find`.
  unfoldable pub find_routes :
      HttpMethod → List (HttpMethod × List (Route Json)) → Option (List (Route Json))
  find_routes method [] = none
  find_routes method ((m, routes) ∷ more) =
      if same_method m method then some routes else find_routes method more

  -- `s_routes_by_method[method].emplace_back(route)`.
  unfoldable pub emplace_route :
      HttpMethod
      → Route Json
      → List (HttpMethod × List (Route Json))
      → List (HttpMethod × List (Route Json))
  emplace_route method route [] = (method, route ∷ []) ∷ []
  emplace_route method route ((m, routes) ∷ more) =
      if same_method m method
      then (m, routes ++ route ∷ []) ∷ more
      else (m, routes) ∷ emplace_route method route more

  unfoldable pub add_middleware : Middleware Json → Router Json → Router Json
  add_middleware middleware router = record router {
    middlewares = router.middlewares ++ middleware ∷ [];
  }

  -- The route that `add_route` makes.
  unfoldable pub make_route :
      HttpMethod → Bytes → RouteHandler Json → Option WebSocketHandler → Route Json
  make_route method path handler ws_handler = record {
    method = method;
    pattern = route_pattern path;
    handler = handler;
    param_names = param_names path;
    websocket_handler = ws_handler;
  }

  -- `none` is the exception of `std::regex` for a pattern that it refuses.
  unfoldable pub add_route : Library → Route Json → Router Json → Option (Router Json)
  add_route library route router =
      if library.is_regex (route.pattern)
      then some (record router {
        routes_by_method = emplace_route (route.method) route (router.routes_by_method);
      })
      else none

  -- The loop of `match_route`: the route, and the groups of its match.
  unfoldable pub first_match :
      Library → Bytes → List (Route Json) → Option (Route Json × List Bytes)
  first_match library path [] = none
  first_match library path (route ∷ routes) = elim (library.regex_match path (route.pattern)) [
    | some groups ↦ some (route, groups)
    | none ↦ first_match library path routes
  ]

  unfoldable pub match_route :
      Library → Router Json → HttpRequest → Option (Route Json × List Bytes)
  match_route library router request =
      elim (find_routes (request.method) (router.routes_by_method)) [
        | none ↦ none
        | some routes ↦ first_match library (request.path) routes
      ]

  -- The loop of `get_websocket_handler`: a match with no handler is passed over.
  unfoldable pub first_handler : Library → Bytes → List (Route Json) → Option WebSocketHandler
  first_handler library path [] = none
  first_handler library path (route ∷ routes) = elim (library.regex_match path (route.pattern)) [
    | none ↦ first_handler library path routes
    | some groups ↦ elim (route.websocket_handler) [
      | none ↦ first_handler library path routes
      | some handler ↦ some handler
    ]
  ]

  unfoldable pub get_websocket_handler :
      Library → Router Json → HttpRequest → Option WebSocketHandler
  get_websocket_handler library router request =
      elim (find_routes (request.method) (router.routes_by_method)) [
        | none ↦ none
        | some routes ↦ first_handler library (request.path) routes
      ]

  abbrev pub has_method_routes : Router Json → HttpMethod → Bool
  has_method_routes router method = elim (find_routes method (router.routes_by_method)) [
    | none ↦ false
    | some routes ↦ true
  ]
