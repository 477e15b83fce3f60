-- ===== src/Site/Cached.antt =====
-- What is cached does not show in the answers of the site.
use gouda_http_server.Common.{
  ◌≡◌, not, ◌||◌, Bool, Option, some, List, [], ◌∷◌, All, Bool-cases, Option-cases, inl, inr,
}
use gouda_http_server.Common.Bytes.{Bytes, codes}
use gouda_http_server.Common.Options.{some-subst}
use gouda_http_server.Cache.{FileCache, Slot}
use gouda_http_server.Http.Message.{HttpRequest, HttpRequestRange, HttpResponse}
use gouda_http_server.Http.Status.{internal_server_error}
use gouda_http_server.Router.Dispatch.{route}
use gouda_http_server.Router.Dispatch.Steady.{IsSteadyRoute, IsSteadyMiddleware, route-Steady}
use gouda_http_server.Router.Outside.{FileSystem, Library}
use gouda_http_server.Router.Pages.{error_500_html, client_prefers_html}
use gouda_http_server.Router.Responses.{error_response}
use gouda_http_server.Router.Routes.{
  HttpRequestParams, Route, Router, make_route, add_route, add_middleware, initial,
}
use gouda_http_server.Router.Routes.Every.{Every, add_route-Every}
use gouda_http_server.Router.Static.{with_cache}
use gouda_http_server.Router.Static.Steady.{
  IsCache, Steady, returned, with_cache-Steady, and_then-Steady, get_or_read-IsSteady,
  Steady-IsCache,
}
use gouda_http_server.Site.{
  add_routes, setup_routes, echo_route, site_routes, log_requests, authenticate, has_token,
}
use gouda_http_server.Site.Favicon.{
  favicon_path, favicon_content, read_favicon, find_favicon, serve_favicon, favicon,
}
use gouda_http_server.Site.Handlers.{
  PageHandler, home_page, about_page, echo_body, receive_json, show_query, show_form, user_page,
  change_user, echo_page,
}
use gouda_http_server.Site.Guarded.{setup_routes-middlewares}
use gouda_http_server.Site.Text.{JsonLibrary}
use gouda_http_server.Common.Bytes.{starts_with}

-- A pair, for the proofs of a list one after the other.
infixr 2 ◌&◌
abbrev ◌&◌ {ℓ κ} : {A : Type ℓ} {B : Type κ} → A → B → A × B
a & b = (a, b)

module _ {Json : Type 0} (fs : FileSystem) where
  log_requests-Steady : IsSteadyMiddleware {Json = Json} fs log_requests
  unfolding log_requests
  log_requests-Steady request json_body next s =
      and_then-Steady fs next (λ r c. some (r, c)) s (returned fs)

  authenticate-Steady :
      (library : Library) → IsSteadyMiddleware {Json = Json} fs (authenticate library)
  unfolding authenticate
  authenticate-Steady library request json_body next s =
      elim (Bool-cases (starts_with (codes "/user/") request.path)) [
        | inr e ↦ rw (e, authenticate) s
        | inl e ↦ elim (Bool-cases (has_token request)) [
          | inl g ↦ rw (e, g, authenticate) s
          | inr g ↦ rw (e, g, authenticate) (returned fs _)
        ]
      ]

module _ (fs : FileSystem) (library : Library) (html : Bool) (range : Option HttpRequestRange) where
  serve_favicon-Steady : Steady fs (serve_favicon fs library html range)
  unfolding serve_favicon find_favicon read_favicon
  serve_favicon-Steady =
      elim (Bool-cases (not (fs.exists favicon_path) || fs.is_directory favicon_path)) [
        | inl e ↦ rw (e, serve_favicon) (returned fs _)
        | inr e ↦ elim (Option-cases (fs.file_size favicon_path)) [
          | inl g ↦ rw (e, g, serve_favicon) (returned fs _)
          | inr (size, g) ↦ elim (Option-cases (fs.last_write_time favicon_path)) [
            | inl t ↦ rw (e, g, t, serve_favicon) (returned fs _)
            | inr (time, t) ↦
                rw (e, g, t, serve_favicon)
                  (
                    _,
                    get_or_read-IsSteady fs favicon_path time
                        (error_response library html internal_server_error error_500_html
                          (codes "Failed to read favicon"))
                        (favicon_content library html range size time) t,
                  )
          ]
        ]
      ]

module _ {Json : Type 0} (fs : FileSystem) (library : Library) (json : JsonLibrary Json) where
  site_routes-IsSteadyRoute : All (IsSteadyRoute fs) (site_routes fs library json)
  unfolding site_routes echo_route make_route favicon
  site_routes-IsSteadyRoute =
      page (home_page library json)
      & (λ request params json_body.
          serve_favicon-Steady fs library (client_prefers_html request) request.range)
      & page (about_page library json)
      & page (echo_body library json)
      & page (receive_json library json)
      & page (show_query library json)
      & page (show_form library json)
      & page (user_page library json _)
      & page (change_user library json _)
      & page (user_page library json _)
      & page (change_user library json _)
      & page (echo_page library json)
      & tt
    where
      page :
          (h : PageHandler Json) (request : HttpRequest) (params : HttpRequestParams)
          (json_body : Option Json)
          → Steady fs (λ c. with_cache c (h request params json_body))
      page h request params json_body = with_cache-Steady fs (h request params json_body)

  add_routes-Every :
      (routes : List (Route Json)) (router router' : Router Json)
      → All (IsSteadyRoute fs) routes
      → Every (IsSteadyRoute fs) router
      → add_routes library routes router ≡ some router'
      → Every (IsSteadyRoute fs) router'
  unfolding add_routes
  add_routes-Every [] router router' p h e = some-subst (Every (IsSteadyRoute fs)) e h
  add_routes-Every (r ∷ routes) router router' (p, ps) h e =
      elim (Option-cases (add_route library r router)) [
        | inl g ↦ cc
        | inr (added, g) ↦
            add_routes-Every routes added router' ps
              (add_route-Every (IsSteadyRoute fs) library r router added p h g)
              (rw (g, add_routes) at e)
      ]

  pub site-Steady :
      (site : Router Json) (request : HttpRequest) (json_body : Option Json)
      → setup_routes fs library json initial ≡ some site
      → Steady fs (route library request fs site json_body)
  unfolding setup_routes add_middleware
  site-Steady site request json_body h =
      route-Steady fs library request site
        (add_routes-Every (site_routes fs library json) _ site site_routes-IsSteadyRoute tt h)
        json_body
        (rw (setup_routes-middlewares fs library json site h)
          (authenticate-Steady fs library, (log_requests-Steady fs, tt)))

  -- Let `setup_routes` give a router. A request that is answered leaves the file cache in its
  -- invariant and with what the files hold, when it was so before.
  pub route-IsCache :
      (site : Router Json) (request : HttpRequest) (json_body : Option Json) (c c' : FileCache)
      (w : List (Bytes × Slot)) (r : HttpResponse)
      → setup_routes fs library json initial ≡ some site
      → IsCache fs c w
      → route library request fs site json_body c ≡ some (r, c')
      → (w' : List (Bytes × Slot)) × IsCache fs c' w'
  route-IsCache site request json_body c c' w r h =
      Steady-IsCache fs (route library request fs site json_body)
        (site-Steady site request json_body h) c c' w r
