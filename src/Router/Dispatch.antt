-- ===== src/Router/Dispatch.antt =====
-- `Router::route` of src/router.cpp.
pub mod Answers
pub mod Steady
use mathlib.Core.List.{reverse}
use gouda_http_server.Common.{
  ℕ, Bool, true, false, Option, none, some, List, [], ◌∷◌, ◌==◌, if◌then◌else◌,
}
use gouda_http_server.Common.Bytes.{Bytes, codes, eq}
use gouda_http_server.Common.SortedMap.{alter}
use gouda_http_server.Http.Headers.{get_header}
use gouda_http_server.Http.Message.{
  HttpRequest, HttpResponse, WebSocketRequestData, WebSocketResponseData, text_response,
  websocket_response, content_type_plain_utf8,
}
use gouda_http_server.Http.Status.{
  HttpStatusCode, forbidden, not_found, method_not_allowed, switching_protocols,
}
use gouda_http_server.Router.Outside.{FileSystem, Library, compute_websocket_accept}
use gouda_http_server.Router.Pages.{
  content_type_json, error_404_html, error_500_html, client_prefers_html, page_or_json,
}
use gouda_http_server.Router.Routes.{
  HttpRequestParams, Route, Middleware, Router, match_route, get_websocket_handler,
  has_method_routes,
}
use gouda_http_server.Router.Static.{M, handle_static_file, is_valid_static_response}
use gouda_http_server.Utils.Query.{plain}

-- `std::ranges::find(s_allowed_origins, origin) != end`.
unfoldable pub is_allowed_origin : Bytes → List Bytes → Bool
is_allowed_origin origin [] = false
is_allowed_origin origin (o ∷ origins) =
    if eq o origin then true else is_allowed_origin origin origins

-- The loop over the parameter names; a group that the match does not have is empty.
unfoldable pub bind_params : List Bytes → List Bytes → HttpRequestParams → HttpRequestParams
bind_params [] groups params = params
bind_params (name ∷ names) [] params = bind_params names [] (alter plain name (λ old. []) params)
bind_params (name ∷ names) (group ∷ groups) params =
    bind_params names groups (alter plain name (λ old. group) params)

-- An error page, or JSON; a page is sent as plain text.
unfoldable pub route_error : Library → HttpRequest → HttpStatusCode → Bytes → Bytes → HttpResponse
route_error library request status page message =
    let prefers_html = client_prefers_html request in
    text_response status (page_or_json library prefers_html page message)
      (if prefers_html then content_type_plain_utf8 else content_type_json)

module _ {Json : Type 0} (library : Library) (request : HttpRequest) where
  -- What the innermost handler answers when there is no static file.
  unfoldable pub answer_route : Router Json → Option Json → M HttpResponse
  answer_route router json_body c = elim (match_route library router request) [
    | none ↦
        if has_method_routes router (request.method)
        then some (route_error library request not_found error_404_html (codes "Page not found"), c)
        else some (
          route_error library request method_not_allowed error_500_html
              (codes "Method not allowed"),
          c,
        )
    | some (matched_route, groups) ↦
        matched_route.handler request (bind_params (matched_route.param_names) groups []) json_body
          c
  ]

  -- The innermost handler.
  unfoldable pub base_handler : FileSystem → Router Json → Option Json → M HttpResponse
  base_handler fs router json_body c =
      elim (handle_static_file fs library (router.static_files) request c) [
        | none ↦ none
        | some (static_response, c') ↦
            if is_valid_static_response static_response
            then some (static_response, c')
            else answer_route router json_body c'
      ]

  -- The loop over the middlewares, which are given in reverse.
  unfoldable pub wrap_all : Option Json → List (Middleware Json) → M HttpResponse → M HttpResponse
  wrap_all json_body [] handler = handler
  wrap_all json_body (middleware ∷ more) handler =
      wrap_all json_body more (middleware request json_body handler)

  -- The upgrade to a WebSocket; extensions are not taken up.
  unfoldable pub upgrade : Router Json → WebSocketRequestData → HttpResponse
  upgrade router ws_data = elim (get_websocket_handler library router request) [
    | none ↦
        route_error library request not_found error_404_html (codes "No WebSocket handler for path")
    | some handler ↦ websocket_response switching_protocols (record {
      accept_key = compute_websocket_accept library (ws_data.key);
      protocol = ws_data.protocol;
      extensions = none;
    })
  ]

  -- Whether the origin, if the request has one, is allowed.
  abbrev pub has_good_origin : Router Json → Bool
  has_good_origin router = elim (get_header (codes "origin") (request.headers)) [
    | none ↦ true
    | some origin ↦ is_allowed_origin origin (router.allowed_origins)
  ]

  unfoldable pub route : FileSystem → Router Json → Option Json → M HttpResponse
  route fs router json_body c =
      if has_good_origin router
      then (elim (request.websocket_data) [
        | some ws_data ↦ some (upgrade router ws_data, c)
        | none ↦
            wrap_all json_body (reverse (router.middlewares)) (base_handler fs router json_body) c
      ])
      else some (
        text_response forbidden (library.dump_error (codes "Unauthorized origin"))
            content_type_json,
        c,
      )
