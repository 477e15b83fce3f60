-- ===== src/Router/Routes/First.antt =====
-- The first route that matches is taken.
use mathlib.Core.Option
use gouda_http_server.Common.{
  ℕ, ◌==◌, ==_iff, sym, ap, ◌∙◌, ◌≡◌, refl, true, false, Option, none, some, List, [], ◌∷◌, ◌++◌,
  if◌then◌else◌, Bool-cases, Option-cases, inl, inr,
}
use gouda_http_server.Common.Bytes.{Bytes}
use gouda_http_server.Common.Options.{if-eq-some, some-subst}
use gouda_http_server.Http.Message.{HttpRequest}
use gouda_http_server.Http.Words.{HttpMethod, method_index}
use gouda_http_server.Router.Outside.{Library}
use gouda_http_server.Router.Routes.{
  Route, Router, same_method, find_routes, emplace_route, add_route, first_match, match_route,
  WebSocketHandler, first_handler, get_websocket_handler,
}

-- The first of two results.
abbrev pub or_else {ℓ} : {A : Type ℓ} → Option A → Option A → Option A
or_else none b = b
or_else (some a) b = some a

same_method_left : (m n k : HttpMethod) → same_method m n ≡ true → same_method m k ≡ same_method n k
unfolding same_method
same_method_left m n k h = ap (λ (i : ℕ). i == method_index k) ((==_iff _ _).0 h)

same_method_sym : (m n : HttpMethod) → same_method m n ≡ true → same_method n m ≡ true
unfolding same_method
same_method_sym m n h = (==_iff _ _).1 (sym ((==_iff _ _).0 h))

pub or_else-none {ℓ} : {A : Type ℓ} (o : Option A) → or_else o none ≡ o
or_else-none none = refl
or_else-none (some a) = refl

module _ {Json : Type 0} where
  find_routes-emplace_route :
      (m method : HttpMethod) (route : Route Json) (rs : List (HttpMethod × List (Route Json)))
      → find_routes method (emplace_route m route rs) ≡ (
          if same_method m method
          then some (Option.get_or (find_routes method rs) [] ++ route ∷ [])
          else find_routes method rs)
  unfolding find_routes emplace_route
  find_routes-emplace_route m method route [] = refl
  find_routes-emplace_route m method route ((n, routes) ∷ rs) =
      elim (Bool-cases (same_method n m)) [
        | inl e ↦
            rw (e, emplace_route, same_method_left n m method e)
              (elim (Bool-cases (same_method m method)) [ inl g ↦ rw g | inr g ↦ rw g ])
        | inr e ↦
            rw (e, emplace_route)
              (elim (Bool-cases (same_method n method)) [
                | inl g ↦ rw (g, other e g)
                | inr g ↦ rw g (find_routes-emplace_route m method route rs)
              ])
      ]
    where
      other : same_method n m ≡ false → same_method n method ≡ true → same_method m method ≡ false
      other e g = elim (Bool-cases (same_method m method)) [
        | inl k ↦ cc (same_method_left n method m g, same_method_sym m method k)
        | inr k ↦ k
      ]

  -- A search through the routes of a method, `one` being what a single route gives.
  module _ {A : Type 0} (search : List (Route Json) → Option A) (one : Route Json → Option A) where
    abbrev search_in : HttpMethod → Router Json → Option A
    search_in method router = elim (find_routes method router.routes_by_method) [
      | none ↦ none
      | some routes ↦ search routes
    ]

    -- A route that is added comes last.
    abbrev Adds : Router Json → Router Json → Route Json → HttpMethod → Type 0
    Adds router router' route method =
        search_in method router'
        ≡ or_else (search_in method router)
            (if same_method route.method method then one route else none)

    search-add_route :
        (library : Library) (route : Route Json) (router router' : Router Json)
        (method : HttpMethod)
        → search [] ≡ none
        → ((r : Route Json) (routes : List (Route Json))
            → search (routes ++ r ∷ []) ≡ or_else (search routes) (one r))
        → add_route library route router ≡ some router'
        → Adds router router' route method
    unfolding add_route
    search-add_route library route router router' method nothing more h =
        if-eq-some (library.is_regex route.pattern) h
          (λ c g. some-subst (λ r. Adds router r route method) g added) (λ c g. cc)
      where
        added :
            Adds router
              (record router {
                routes_by_method = emplace_route route.method route router.routes_by_method;
              })
              route
              method
        added =
            let rs = router.routes_by_method in
            let found = find_routes-emplace_route route.method method route rs in
            elim (Bool-cases (same_method route.method method)) [
              | inr s ↦ rw (found, s, Adds, search_in) (sym (or_else-none _))
              | inl s ↦ elim (Option-cases (find_routes method rs)) [
                | inl e ↦
                    rw (found, s, e, Adds, search_in)
                      (more route [] ∙ ap (λ o. or_else o (one route)) nothing)
                | inr (routes, e) ↦ rw (found, s, e, Adds, search_in) (more route routes)
              ]
            ]

  module _ (library : Library) where
    -- What a single route makes of a path.
    abbrev pub match_one : Bytes → Route Json → Option (Route Json × List Bytes)
    match_one path route =
        Option.map (λ groups. (route, groups)) (library.regex_match path route.pattern)

    abbrev pub handler_one : Bytes → Route Json → Option WebSocketHandler
    handler_one path route = elim (library.regex_match path route.pattern) [
      | none ↦ none
      | some groups ↦ route.websocket_handler
    ]

    first_match-append :
        (path : Bytes) (route : Route Json) (routes : List (Route Json))
        → first_match library path (routes ++ route ∷ [])
          ≡ or_else (first_match library path routes) (match_one path route)
    unfolding first_match
    first_match-append path route [] =
        elim (Option-cases (library.regex_match path route.pattern)) [
          | inl e ↦ rw (e, first_match)
          | inr (groups, e) ↦ rw (e, first_match)
        ]
    first_match-append path route (r ∷ routes) =
        elim (Option-cases (library.regex_match path r.pattern)) [
          | inl e ↦ rw (e, first_match) (first_match-append path route routes)
          | inr (groups, e) ↦ rw (e, first_match)
        ]

    first_handler-append :
        (path : Bytes) (route : Route Json) (routes : List (Route Json))
        → first_handler library path (routes ++ route ∷ [])
          ≡ or_else (first_handler library path routes) (handler_one path route)
    unfolding first_handler
    first_handler-append path route [] =
        elim (Option-cases (library.regex_match path route.pattern)) [
          | inl e ↦ rw (e, first_handler, handler_one)
          | inr (groups, e) ↦ elim (Option-cases route.websocket_handler) [
            | inl g ↦ rw (e, g, first_handler, handler_one)
            | inr (h, g) ↦ rw (e, g, first_handler, handler_one)
          ]
        ]
    first_handler-append path route (r ∷ routes) =
        elim (Option-cases (library.regex_match path r.pattern)) [
          | inl e ↦ rw (e, first_handler) (first_handler-append path route routes)
          | inr (groups, e) ↦ elim (Option-cases r.websocket_handler) [
            | inl g ↦ rw (e, g, first_handler) (first_handler-append path route routes)
            | inr (h, g) ↦ rw (e, g, first_handler)
          ]
        ]

    -- A route that is added, its pattern being one that `std::regex` takes, changes no request that a route matched before; it takes those of its
    -- method that no route matched and that its own pattern matches.
    pub match_route-add_route :
        (route : Route Json) (router router' : Router Json) (request : HttpRequest)
        → add_route library route router ≡ some router'
        → match_route library router' request
          ≡ or_else (match_route library router request) (
              if same_method route.method request.method
              then match_one request.path route
              else none)
    unfolding match_route first_match
    match_route-add_route route router router' request =
        search-add_route (first_match library request.path) (match_one request.path) library route
          router router' request.method refl (first_match-append request.path)

    -- The same for the WebSocket handlers.
    pub get_websocket_handler-add_route :
        (route : Route Json) (router router' : Router Json) (request : HttpRequest)
        → add_route library route router ≡ some router'
        → get_websocket_handler library router' request
          ≡ or_else (get_websocket_handler library router request) (
              if same_method route.method request.method
              then handler_one request.path route
              else none)
    unfolding get_websocket_handler first_handler
    get_websocket_handler-add_route route router router' request =
        search-add_route (first_handler library request.path) (handler_one request.path) library
          route router router' request.method refl (first_handler-append request.path)
