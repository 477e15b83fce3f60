-- ===== src/Site/Guarded.antt =====
-- What the middlewares of the site make of `route`.
use gouda_http_server.Common.{
  ◌≡◌, ◌∙◌, refl, true, not, ◌&&◌, if◌then◌else◌, Bool-cases, Option, none, some, List, [], ◌∷◌,
  Option-cases, inl, inr,
}
use gouda_http_server.Common.Bytes.{codes, starts_with}
use gouda_http_server.Common.Options.{if-eq-some, some-subst}
use gouda_http_server.Cache.{FileCache}
use gouda_http_server.Http.Message.{HttpRequest, HttpResponse}
use gouda_http_server.Http.Status.{unauthorized}
use gouda_http_server.Router.Dispatch.{has_good_origin, base_handler, route}
use gouda_http_server.Router.Dispatch.Answers.{route-middlewares}
use gouda_http_server.Router.Outside.{FileSystem, Library}
use gouda_http_server.Router.Routes.{Route, Router, add_route, add_middleware, initial}
use gouda_http_server.Router.Static.{M}
use gouda_http_server.Site.{
  add_routes, setup_routes, site_routes, log_requests, authenticate, has_token,
}
use gouda_http_server.Site.Text.{JsonLibrary, json_error}

module _ {Json : Type 0} where
  pub log_requests-next :
      (request : HttpRequest) (json_body : Option Json) (next : M HttpResponse) (c : FileCache)
      → log_requests request json_body next c ≡ next c
  unfolding log_requests
  log_requests-next request json_body next c = elim (Option-cases (next c)) [
    | inl e ↦ rw (e, log_requests)
    | inr (r, e) ↦ rw (e, log_requests)
  ]

  module _ (library : Library) where
    add_route-middlewares :
        (r : Route Json) (router router' : Router Json)
        → add_route library r router ≡ some router'
        → router'.middlewares ≡ router.middlewares
    unfolding add_route
    add_route-middlewares r router router' h =
        if-eq-some (library.is_regex r.pattern) h
          (λ c g. some-subst (λ s. s.middlewares ≡ router.middlewares) g refl) (λ c g. cc)

    add_routes-middlewares :
        (routes : List (Route Json)) (router router' : Router Json)
        → add_routes library routes router ≡ some router'
        → router'.middlewares ≡ router.middlewares
    unfolding add_routes
    add_routes-middlewares [] router router' h =
        some-subst (λ s. s.middlewares ≡ router.middlewares) h refl
    add_routes-middlewares (r ∷ routes) router router' h =
        elim (Option-cases (add_route library r router)) [
          | inl e ↦ cc
          | inr (added, e) ↦
              add_routes-middlewares routes added router' (rw (e, add_routes) at h)
              ∙ add_route-middlewares r router added e
        ]

  module _ (fs : FileSystem) (library : Library) (json : JsonLibrary Json) where
    pub setup_routes-middlewares :
        (site : Router Json)
        → setup_routes fs library json initial ≡ some site
        → site.middlewares ≡ log_requests ∷ authenticate library ∷ []
    unfolding setup_routes add_middleware
    setup_routes-middlewares site h =
        add_routes-middlewares library (site_routes fs library json) _ site h

    -- Let `setup_routes` give a router. A request with no WebSocket data and a good origin that asks
    -- for a path under "/user/" without the header Authorization of value "Bearer dummy_token" is
    -- answered with 401 and the message "Unauthorized", and the file cache stays as it is. Every
    -- other such request is answered as the innermost handler answers it.
    pub route-authenticate :
        (site : Router Json) (request : HttpRequest) (json_body : Option Json) (c : FileCache)
        → setup_routes fs library json initial ≡ some site
        → request.websocket_data ≡ none
        → has_good_origin library request site ≡ true
        → route library request fs site json_body c ≡ (
            if starts_with (codes "/user/") request.path && not (has_token request)
            then some (json_error library unauthorized (codes "Unauthorized"), c)
            else base_handler library request fs site json_body c)
    unfolding authenticate
    route-authenticate site request json_body c h w o =
        route-middlewares library request fs site json_body c w o
        ∙ rw (setup_routes-middlewares site h) (
            log_requests-next request json_body _ c
            ∙ elim (Bool-cases (starts_with (codes "/user/") request.path)) [
              | inr e ↦ rw (e, authenticate)
              | inl e ↦ elim (Bool-cases (has_token request)) [
                | inl g ↦ rw (e, g, authenticate)
                | inr g ↦ rw (e, g, authenticate)
              ]
            ])
