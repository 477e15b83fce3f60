-- ===== src/Router/Pages.antt =====
-- The error pages of include/http_constants.hpp, and the choice between a page and JSON.
use gouda_http_server.Common.{Bool, false, none, some, List, [], ◌∷◌, ◌++◌, if◌then◌else◌}
use gouda_http_server.Common.Bytes.{Bytes, codes}
use gouda_http_server.Http.Headers.{get_header}
use gouda_http_server.Http.Message.{HttpRequest}
use gouda_http_server.Utils.Text.{contains_ignore_case}
use gouda_http_server.Router.Outside.{Library}

-- A raw string: each line behind a line feed, and one at the end.
abbrev lines : List Bytes → Bytes
lines [] = 10 ∷ []
lines (l ∷ ls) = 10 ∷ (l ++ lines ls)

abbrev pub content_type_json : Bytes
content_type_json = codes "application/json"

-- The apostrophes take three bytes.
abbrev apostrophe : Bytes
apostrophe = 0xe2 ∷ 0x80 ∷ 0x99 ∷ []

unfoldable pub error_404_html : Bytes
error_404_html = lines (
    codes "<!DOCTYPE html>"
    ∷ codes "<html>"
    ∷ codes "<head><title>404 Not Found</title></head>"
    ∷ codes "<body>"
    ∷ codes "  <h1>404</h1>"
    ∷ (codes "  <p>Oops! The page you"
        ++ (apostrophe ++ (codes "re looking for can" ++ (apostrophe ++ codes "t be found.</p>"))))
    ∷ codes "  <p><a href=\"/\">Return to Home</a></p>"
    ∷ codes "</body>"
    ∷ codes "</html>"
    ∷ [])

-- A page with a title that is also its headline, and one sentence.
unfoldable pub simple_page : Bytes → Bytes → Bytes
simple_page title sentence = lines (
    codes "<!DOCTYPE html>"
    ∷ codes "<html>"
    ∷ (codes "<head><title>" ++ (title ++ codes "</title></head>"))
    ∷ codes "<body>"
    ∷ (codes "<h1>" ++ (title ++ codes "</h1>"))
    ∷ (codes "<p>" ++ (sentence ++ codes "</p>"))
    ∷ codes "</body>"
    ∷ codes "</html>"
    ∷ [])

unfoldable pub error_403_html : Bytes
unfolding simple_page
error_403_html =
    simple_page (codes "403 Forbidden") (codes "Access to the requested resource is denied.")

unfoldable pub error_500_html : Bytes
unfolding simple_page
error_500_html =
    simple_page (codes "500 Internal Server Error")
      (codes "An error occurred while processing your request.")

unfoldable pub error_416_html : Bytes
unfolding simple_page
error_416_html =
    simple_page (codes "416 Range Not Satisfiable")
      (codes "An error occurred while processing your request.")

unfoldable pub client_prefers_html : HttpRequest → Bool
client_prefers_html request = elim (get_header (codes "Accept") (request.headers)) [
  | none ↦ false
  | some value ↦ contains_ignore_case value (codes "text/html")
]

-- `prefers_html ? page : Json{{"error", message}}.dump()`.
abbrev pub page_or_json : Library → Bool → Bytes → Bytes → Bytes
page_or_json library prefers_html page message =
    if prefers_html then page else library.dump_error message
