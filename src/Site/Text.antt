-- ===== src/Site/Text.antt =====
-- What src/routes.hpp builds responses from: `make_response` of include/http_utils.hpp, and the JSON
-- values that its handlers write. `nlohmann::json` is a parameter.
use gouda_http_server.Common.{ℕ, Option, none, some, List, [], ◌∷◌}
use gouda_http_server.Common.Bytes.{Bytes, codes}
use gouda_http_server.Http.Message.{HttpResponse, text_response}
use gouda_http_server.Http.Status.{HttpStatusCode, ok}
use gouda_http_server.Router.Outside.{Library}
use gouda_http_server.Router.Pages.{content_type_json}
use gouda_http_server.Utils.Query.{Params}

-- A value of a member: a text, a number, an array of texts, or a value that was parsed.
pub data Member (Json : Type 0) : Type 0 where
  string : Bytes → Member Json
  number : ℕ → Member Json
  strings : List Bytes → Member Json
  parsed : Json → Member Json

-- A `Json` with no value, or an object.
pub data Built (Json : Type 0) : Type 0 where
  null : Built Json
  object : List (Bytes × Member Json) → Built Json

pub record JsonLibrary (Json : Type 0) : Type 0 where
  -- `dump()`; `none` is the exception for a text that is not UTF-8.
  pub dump : Built Json → Option Bytes
  -- `value("name", "Unknown")`; `none` is the exception for a value that is no object, or a name
  -- that is no text.
  pub name_of : Json → Option Bytes

abbrev pub content_type_plain : Bytes
content_type_plain = codes "text/plain"

unfoldable pub make_response : HttpStatusCode → Bytes → Bytes → HttpResponse
make_response code content_type body = text_response code body content_type

-- A page of plain text.
abbrev pub plain_page : Bytes → Option HttpResponse
plain_page body = some (make_response ok content_type_plain body)

-- `make_response(status, CONTENT_TYPE_JSON, Json{{"error", message}}.dump())`.
abbrev pub json_error : Library → HttpStatusCode → Bytes → HttpResponse
json_error library status message =
    make_response status content_type_json (library.dump_error message)

module _ {Json : Type 0} where
  -- `make_response(OK, CONTENT_TYPE_JSON, value.dump())`.
  abbrev pub json_page : JsonLibrary Json → Built Json → Option HttpResponse
  json_page json value = elim (json.dump value) [
    | none ↦ none
    | some body ↦ some (make_response ok content_type_json body)
  ]

  -- A single value as a text, several as an array.
  unfoldable pub values_member : List Bytes → Member Json
  values_member (v ∷ []) = string v
  values_member vs = strings vs

  -- `response_body[key] = ...` for each parameter, from a `Json` with no value.
  unfoldable pub set_members : Params → List (Bytes × Member Json)
  set_members [] = []
  set_members ((key, values) ∷ params) = (key, values_member values) ∷ set_members params

  unfoldable pub params_body : Params → Built Json
  params_body [] = null
  params_body (p ∷ params) = object (set_members (p ∷ params))
