-- ===== src/Router/Dispatch/Answers.antt =====
-- What `route` answers.
use mathlib.Core.List.{reverse, foldr, reverse-cons}
use gouda_http_server.Common.{
  ◌≡◌, ◌≢◌, refl, ap, true, Option, none, some, List, [], ◌∷◌, ◌++◌, arith,
}
use gouda_http_server.Cache.{FileCache}
use gouda_http_server.Http.Message.{
  HttpRequest, HttpResponse, WebSocketRequestData, WebSocketResponseData, websocket, text_response,
  websocket_response,
}
use gouda_http_server.Router.Outside.{FileSystem, Library, compute_websocket_accept}
use gouda_http_server.Router.Routes.{Middleware, Router, get_websocket_handler}
use gouda_http_server.Router.Static.{M}
use gouda_http_server.Router.Dispatch.{
  has_good_origin, route_error, base_handler, wrap_all, upgrade, route,
}

module _ {Json : Type 0} (library : Library) (request : HttpRequest) where
  -- A request with WebSocket data is answered with a handshake only if its origin, if it names one,
  -- is allowed and a route of its method and path has a WebSocket handler. The handshake carries the
  -- accept key of the request's key and its protocol, and no extensions, and the file cache stays as
  -- it is.
  pub route-websocket :
      (fs : FileSystem) (router : Router Json) (json_body : Option Json) (c c' : FileCache)
      (d : WebSocketRequestData) (r : HttpResponse) (w : WebSocketResponseData)
      → request.websocket_data ≡ some d
      → route library request fs router json_body c ≡ some (r, c')
      → r.body ≡ websocket w
      → (has_good_origin library request router ≡ true)
        × (get_websocket_handler library router request ≢ none)
        × (w.accept_key ≡ compute_websocket_accept library d.key)
        × (w.protocol ≡ d.protocol)
        × (w.extensions ≡ none)
        × (c' ≡ c)
  unfolding route upgrade route_error text_response websocket_response
  route-websocket fs router json_body c c' d r w e h b = ground arith

  wrap_all-append :
      (json_body : Option Json) (xs ys : List (Middleware Json)) (m : M HttpResponse)
      → wrap_all library request json_body (xs ++ ys) m
        ≡ wrap_all library request json_body ys (wrap_all library request json_body xs m)
  unfolding wrap_all
  wrap_all-append json_body [] ys m = refl
  wrap_all-append json_body (x ∷ xs) ys m = wrap_all-append json_body xs ys (x request json_body m)

  wrap_all-reverse :
      (json_body : Option Json) (ms : List (Middleware Json)) (m : M HttpResponse)
      → wrap_all library request json_body (reverse ms) m
        ≡ foldr (λ f k. f request json_body k) m ms
  unfolding wrap_all
  wrap_all-reverse json_body [] m = refl
  wrap_all-reverse json_body (f ∷ ms) m = rw (
    reverse-cons f ms,
    wrap_all-append json_body (reverse ms) (f ∷ []) m,
    wrap_all-reverse json_body ms m,
  )

  -- A request with no WebSocket data and a good origin is answered by the middlewares around the
  -- innermost handler, the one that was added first outermost.
  pub route-middlewares :
      (fs : FileSystem) (router : Router Json) (json_body : Option Json) (c : FileCache)
      → request.websocket_data ≡ none
      → has_good_origin library request router ≡ true
      → route library request fs router json_body c
        ≡ foldr
            (λ f k. f request json_body k)
            (base_handler library request fs router json_body)
            (router.middlewares)
            c
  unfolding route
  route-middlewares fs router json_body c w o =
      simp (o, w)
        (ap (λ k. k c)
          (wrap_all-reverse json_body router.middlewares
            (base_handler library request fs router json_body)))
