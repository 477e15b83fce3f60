-- ===== src/Router/Dispatch/Steady.antt =====
-- The file cache does not show in what `route` answers, when it does not show in what the handlers
-- and the middlewares answer.
use mathlib.Core.List.{reverse}
use gouda_http_server.Common.{
  Option, some, List, [], ◌∷◌, All, Bool-cases, Option-cases, inl, inr, if◌then◌else◌,
}
use gouda_http_server.Http.Message.{HttpRequest, HttpResponse}
use gouda_http_server.Router.Outside.{FileSystem, Library}
use gouda_http_server.Router.Routes.{
  HttpRequestParams, Route, Middleware, Router, match_route, has_method_routes,
}
use gouda_http_server.Router.Routes.Every.{Every, match_route-Every}
use gouda_http_server.Router.Static.{M, handle_static_file, is_valid_static_response}
use gouda_http_server.Router.Static.Steady.{Steady, returned, and_then-Steady}
use gouda_http_server.Router.Static.Cached.{handle_static_file-Steady}
use gouda_http_server.Router.Dispatch.{has_good_origin, answer_route, base_handler, wrap_all, route}

module _ {Json : Type 0} (fs : FileSystem) where
  -- The handler of a route answers the same with every cache.
  abbrev pub IsSteadyRoute : Route Json → Type 0
  IsSteadyRoute r =
      (request : HttpRequest) (params : HttpRequestParams) (json_body : Option Json)
      → Steady fs (r.handler request params json_body)

  -- So does a middleware, around what does.
  abbrev pub IsSteadyMiddleware : Middleware Json → Type 0
  IsSteadyMiddleware f =
      (request : HttpRequest) (json_body : Option Json) (next : M HttpResponse)
      → Steady fs next
      → Steady fs (f request json_body next)

  module _ (library : Library) (request : HttpRequest) (router : Router Json)
      (steady : Every IsSteadyRoute router) where
    answer_route-Steady :
        (json_body : Option Json) → Steady fs (answer_route library request router json_body)
    unfolding answer_route
    answer_route-Steady json_body = elim (Option-cases (match_route library router request)) [
      | inr ((r, groups), e) ↦
          rw (e, answer_route)
            (match_route-Every IsSteadyRoute library router request r groups steady e request _
              json_body)
      | inl e ↦ elim (Bool-cases (has_method_routes router request.method)) [
        | inl g ↦ rw (e, g, answer_route) (returned fs _)
        | inr g ↦ rw (e, g, answer_route) (returned fs _)
      ]
    ]

    base_handler-Steady :
        (json_body : Option Json) → Steady fs (base_handler library request fs router json_body)
    unfolding base_handler
    base_handler-Steady json_body =
        and_then-Steady fs (handle_static_file fs library router.static_files request)
          (λ r c.
            if is_valid_static_response r
            then some (r, c)
            else answer_route library request router json_body c)
          (handle_static_file-Steady fs library router.static_files request) (λ r. either_way r)
      where
        either_way :
            (r : HttpResponse)
            → Steady fs (λ c.
              if is_valid_static_response r
              then some (r, c)
              else answer_route library request router json_body c)
        either_way r = elim (Bool-cases (is_valid_static_response r)) [
          | inl e ↦ rw e (returned fs r)
          | inr e ↦ rw e (answer_route-Steady json_body)
        ]

    wrap_all-Steady :
        (json_body : Option Json) (ms : List (Middleware Json)) (m : M HttpResponse)
        → All IsSteadyMiddleware ms
        → Steady fs m
        → Steady fs (wrap_all library request json_body ms m)
    unfolding wrap_all
    wrap_all-Steady json_body [] m h s = s
    wrap_all-Steady json_body (f ∷ ms) m (hf, h) s =
        wrap_all-Steady json_body ms (f request json_body m) h (hf request json_body m s)

    pub route-Steady :
        (json_body : Option Json)
        → All IsSteadyMiddleware (reverse router.middlewares)
        → Steady fs (route library request fs router json_body)
    unfolding route
    route-Steady json_body h = elim (Bool-cases (has_good_origin library request router)) [
      | inr e ↦ rw (e, route) (returned fs _)
      | inl e ↦ elim (Option-cases request.websocket_data) [
        | inr (d, g) ↦ rw (e, g, route) (returned fs _)
        | inl g ↦
            rw (e, g, route)
              (wrap_all-Steady json_body (reverse router.middlewares) _ h
                (base_handler-Steady json_body))
      ]
    ]
