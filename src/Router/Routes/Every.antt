-- ===== src/Router/Routes/Every.antt =====
-- What holds of every route holds of the one that matches.
use gouda_http_server.Common.{
  ◌≡◌, some, List, [], ◌∷◌, All, All-append, Bool-cases, Option-cases, inl, inr,
}
use gouda_http_server.Common.Bytes.{Bytes}
use gouda_http_server.Common.Options.{if-eq-some, some-subst}
use gouda_http_server.Http.Message.{HttpRequest}
use gouda_http_server.Http.Words.{HttpMethod}
use gouda_http_server.Router.Outside.{Library}
use gouda_http_server.Router.Routes.{
  Route, Router, same_method, find_routes, emplace_route, add_route, first_match, match_route,
}

module _ {Json : Type 0} (P : Route Json → Type 0) where
  abbrev EveryRoute : List (HttpMethod × List (Route Json)) → Type 0
  EveryRoute = All (λ entry. All P entry.1)

  abbrev pub Every : Router Json → Type 0
  Every router = EveryRoute router.routes_by_method

  emplace_route-EveryRoute :
      (method : HttpMethod) (route : Route Json) (rs : List (HttpMethod × List (Route Json)))
      → P route
      → EveryRoute rs
      → EveryRoute (emplace_route method route rs)
  unfolding emplace_route
  emplace_route-EveryRoute method route [] p h = ((p, tt), tt)
  emplace_route-EveryRoute method route ((m, routes) ∷ rs) p (h, hs) =
      elim (Bool-cases (same_method m method)) [
        | inl e ↦ rw (e, emplace_route) (All-append P routes (route ∷ []) h (p, tt), hs)
        | inr e ↦ rw (e, emplace_route) (h, emplace_route-EveryRoute method route rs p hs)
      ]

  find_routes-All :
      (method : HttpMethod) (rs : List (HttpMethod × List (Route Json)))
      (routes : List (Route Json))
      → EveryRoute rs
      → find_routes method rs ≡ some routes
      → All P routes
  unfolding find_routes
  find_routes-All method [] routes h e = cc
  find_routes-All method ((m, found) ∷ rs) routes (h, hs) e =
      if-eq-some (same_method m method) e (λ c g. some-subst (All P) g h)
        (λ c g. find_routes-All method rs routes hs g)

  module _ (library : Library) where
    pub add_route-Every :
        (route : Route Json) (router router' : Router Json)
        → P route
        → Every router
        → add_route library route router ≡ some router'
        → Every router'
    unfolding add_route
    add_route-Every route router router' p h e =
        if-eq-some (library.is_regex route.pattern) e
          (λ c g.
            some-subst Every g
              (emplace_route-EveryRoute route.method route router.routes_by_method p h))
          (λ c g. cc)

    first_match-Every :
        (path : Bytes) (routes : List (Route Json)) (route : Route Json) (groups : List Bytes)
        → All P routes
        → first_match library path routes ≡ some (route, groups)
        → P route
    unfolding first_match
    first_match-Every path [] route groups h e = cc
    first_match-Every path (r ∷ routes) route groups (p, h) e =
        elim (Option-cases (library.regex_match path r.pattern)) [
          | inl g ↦ first_match-Every path routes route groups h (rw (g, first_match) at e)
          | inr (found, g) ↦ some-subst (λ m. P m.0) (rw (g, first_match) at e) p
        ]

    pub match_route-Every :
        (router : Router Json) (request : HttpRequest) (route : Route Json) (groups : List Bytes)
        → Every router
        → match_route library router request ≡ some (route, groups)
        → P route
    unfolding match_route
    match_route-Every router request route groups h e =
        elim (Option-cases (find_routes request.method router.routes_by_method)) [
          | inl g ↦ cc
          | inr (routes, g) ↦
              first_match-Every request.path routes route groups
                (find_routes-All request.method router.routes_by_method routes h g)
                (rw (g, match_route) at e)
        ]
