-- ===== src/Site/Handlers.antt =====
-- The handlers of src/routes.hpp that make a response and leave the file cache alone. `none` is an
-- exception that leaves the handler.
use gouda_http_server.Common.{Option, none, some, [], ◌∷◌, length}
use gouda_http_server.Common.Bytes.{Bytes, codes}
use gouda_http_server.Common.SortedMap.{find_entry}
use gouda_http_server.Http.Message.{HttpRequest, HttpResponse, default_response}
use gouda_http_server.Http.Status.{bad_request}
use gouda_http_server.Router.Outside.{Library}
use gouda_http_server.Router.Routes.{HttpRequestParams, WebSocketHandler}
use gouda_http_server.Utils.Query.{plain}
use gouda_http_server.Site.Text.{
  object, string, number, parsed, JsonLibrary, plain_page, json_error, json_page, params_body,
}

-- A handler that makes a response from the request, or throws.
abbrev pub PageHandler : Type 0 → Type 0
PageHandler Json = HttpRequest → HttpRequestParams → Option Json → Option HttpResponse

-- The handler of "/ws/echo".
unfoldable pub echo_handler : WebSocketHandler
echo_handler frame conn_id req_id = frame.payload

module _ {Json : Type 0} (library : Library) (json : JsonLibrary Json) where
  unfoldable pub home_page : PageHandler Json
  home_page request params json_body = plain_page (codes "Welcome to the home page!")

  unfoldable pub about_page : PageHandler Json
  about_page request params json_body = plain_page (codes "About page: This is a simple server.")

  unfoldable pub echo_body : PageHandler Json
  echo_body request params json_body = plain_page request.body

  -- The exceptions of `json` are caught.
  unfoldable pub receive_json : PageHandler Json
  receive_json request params none =
      some (json_error library bad_request (codes "Missing or invalid JSON body"))
  receive_json request params (some json_body) = elim (json.name_of json_body) [
    | none ↦ some (json_error library bad_request (codes "Invalid JSON structure"))
    | some name ↦
        elim (json_page json (
          object (
            (codes "status", string (codes "received"))
            ∷ (codes "name", string name)
            ∷ (codes "size", number (length request.body))
            ∷ []))) [
              | none ↦ some (json_error library bad_request (codes "Invalid JSON structure"))
              | some page ↦ some page
            ]
  ]

  unfoldable pub show_query : PageHandler Json
  show_query request params json_body = json_page json (params_body request.query_params)

  unfoldable pub show_form : PageHandler Json
  show_form request params json_body = elim request.form_params [
    | [] ↦ some (json_error library bad_request (codes "No form data or invalid Content-Type"))
    | p ∷ ps ↦ json_page json (params_body (p ∷ ps))
  ]

  -- `params.at("id")` throws where there is none.
  abbrev pub with_id : (Bytes → Option HttpResponse) → HttpRequestParams → Option HttpResponse
  with_id answer params = elim (find_entry plain (codes "id") params) [
    | none ↦ none
    | some id ↦ answer id
  ]

  -- The handlers of GET and of DELETE differ in the message.
  unfoldable pub user_page : Bytes → PageHandler Json
  user_page message request params json_body =
      with_id
        (λ id.
          json_page json
            (object ((codes "id", string id) ∷ (codes "message", string message) ∷ [])))
        params

  -- So do those of PUT and of PATCH.
  unfoldable pub change_user : Bytes → PageHandler Json
  change_user message request params none =
      some (json_error library bad_request (codes "Missing JSON body"))
  change_user message request params (some json_body) =
      with_id
        (λ id. json_page json (
          object (
            (codes "id", string id)
            ∷ (codes "message", string message)
            ∷ (codes "data", parsed json_body)
            ∷ [])))
        params

  -- The handshake is made by `route`.
  unfoldable pub echo_page : PageHandler Json
  echo_page request params json_body = some default_response
