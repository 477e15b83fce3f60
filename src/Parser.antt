-- ===== src/Parser.antt =====
-- `HttpRequestParser::parse` of src/http_request_parser.cpp, as far as a request is made from its
-- bytes; what is logged is left out. A `size_t` keeps its wrap-around at 2 ^ 64.
pub mod Range
pub mod Kept
pub mod Upgrade
mod Tests
use mathlib.Core.Option
use mathlib.Core.List.{foldl}
use gouda_http_server.Common.{
  ℕ, suc, ◌+◌, ◌-◌, ◌%◌, ◌^◌, ◌≡◌, Bool, true, false, not, ◌&&◌, ◌||◌, Option, none, some, List, [],
  ◌∷◌, ltb, ◌==◌, if◌then◌else◌, length, take, drop,
}
use gouda_http_server.Common.Bytes.{Bytes, codes, eq, find, find_char, isdigit}
use gouda_http_server.Common.Decimal.{stoull}
use gouda_http_server.Common.Options.{◌>>=◌, ◌>>◌, guard}
use gouda_http_server.Http.Headers.{HeaderMap, set_header, get_header, has_header}
use gouda_http_server.Http.Message.{
  HttpRequest, HttpRequestRange, WebSocketRequestData, empty_request,
}
use gouda_http_server.Http.Words.{
  HttpMethod, HttpVersion, get, post, get_method, string_to_http_version,
}
use gouda_http_server.Utils.Query.{Params, parse_query_params}
use gouda_http_server.Utils.Text.{trim, split_lines, to_lowercase}

-- The digits in front, and what follows them.
unfoldable pub span_digits : Bytes → Bytes × Bytes
span_digits [] = ([], [])
span_digits (c ∷ s) =
    let rest = span_digits s in if isdigit c then (c ∷ rest.0, rest.1) else ([], c ∷ s)

-- A match of `\d+` is not empty.
abbrev pub nonempty : Bytes → Bool
nonempty [] = false
nonempty (c ∷ s) = true

-- `range_regex`, `bytes=(\d+)-(\d*)`, matched against the whole value: its two groups.
unfoldable pub match_range : Bytes → Option (Bytes × Bytes)
match_range value =
    guard (eq (take 6 value) (codes "bytes="))
    >> (let first = span_digits (drop 6 value) in
        guard (nonempty first.0) >> (elim first.1 [
          | [] ↦ none
          | c ∷ s ↦
              let second = span_digits s in
              if c == b'-' && not (nonempty second.1) then some (first.0, second.0) else none
        ]))

-- An empty second group is 0.
abbrev pub range_end : Bytes → Option ℕ
range_end digits = if nonempty digits then stoull digits else some 0

-- The value of a `Range` header; `none` is both early returns, of a malformed value and of a number
-- out of range.
unfoldable pub parse_range : Bytes → Option HttpRequestRange
parse_range value = match_range value >>= λ groups. stoull groups.0 >>= λ start.
    range_end groups.1 >>= λ end. some (record { start = start; end = end })

-- `request`, `is_websocket` and `ws_data`.
pub record HeaderState : Type 0 where
  pub request : HttpRequest
  pub is_websocket : Bool
  pub ws_data : WebSocketRequestData

abbrev pub empty_ws_data : WebSocketRequestData
empty_ws_data = record { key = []; version = []; protocol = none; extensions = none }

-- The tests on the key behind the one for `Range`.
unfoldable pub websocket_header : Bytes → Bytes → HeaderState → HeaderState
websocket_header key_lower value state =
    let ws_data = state.ws_data in
    if eq key_lower (codes "upgrade") && eq (to_lowercase value) (codes "websocket")
    then record state { is_websocket = true }
    else if eq key_lower (codes "sec-websocket-key")
    then record state { ws_data = record ws_data { key = value } }
    else if eq key_lower (codes "sec-websocket-version")
    then (if eq value (codes "13")
        then record state { ws_data = record ws_data { version = value } }
        else state)
    else if eq key_lower (codes "sec-websocket-protocol")
    then record state { ws_data = record ws_data { protocol = some value } }
    else if eq key_lower (codes "sec-websocket-extensions")
    then record state { ws_data = record ws_data { extensions = some value } }
    else state

-- The chain of tests on the key, behind `set_header`.
unfoldable pub special_header : Bytes → Bytes → HeaderState → Option HeaderState
special_header key_lower value state =
    if eq key_lower (codes "range")
    then (parse_range value >>= λ range.
        some (record state { request = record (state.request) { range = some range } }))
    else some (websocket_header key_lower value state)

-- A header line with a colon.
unfoldable pub read_header : Bytes → Bytes → HeaderState → Option HeaderState
read_header key value state =
    let key_lower = to_lowercase key in
    special_header key_lower value (record state {
      request = record (state.request) {
        headers = set_header key_lower value (state.request.headers);
      };
    })

-- One round of the loop: an empty line and a line with no colon are passed over.
unfoldable pub read_line : Bytes → HeaderState → Option HeaderState
read_line [] state = some state
read_line (c ∷ s) state =
    let line = c ∷ s in
    elim (find_char b':' line) [
      | none ↦ some state
      | some colon_pos ↦
          read_header (trim (take colon_pos line)) (trim (drop (suc colon_pos) line)) state
    ]

unfoldable pub read_lines : List Bytes → HeaderState → Option HeaderState
read_lines [] state = some state
read_lines (line ∷ lines) state = read_line line state >>= λ next. read_lines lines next

-- `is_get`, for the test on the method.
abbrev pub is_get : HttpMethod → Bool
is_get get = true
is_get _ = false

abbrev pub is_post : HttpMethod → Bool
is_post post = true
is_post _ = false

-- A header that is there, with `p` in its value.
abbrev pub mentions : Bytes → Option Bytes → Bool
mentions p none = false
mentions p (some value) = elim (find p value) [ none ↦ false | some i ↦ true ]

-- What keeps the upgrade: the key, the method, `Connection` and the version.
unfoldable pub is_upgrade : HeaderState → Bool
is_upgrade state =
    state.is_websocket
    && nonempty (state.ws_data.key)
    && is_get (state.request.method)
    && mentions (codes "upgrade")
        (Option.map to_lowercase (get_header (codes "connection") (state.request.headers)))
    && eq (state.ws_data.version) (codes "13")

unfoldable pub set_websocket : HeaderState → HttpRequest
set_websocket state =
    if is_upgrade state
    then record (state.request) { websocket_data = some (state.ws_data) }
    else state.request

abbrev pub content_type_form_urlencoded : Bytes
content_type_form_urlencoded = codes "application/x-www-form-urlencoded"

-- A POST request with a form.
abbrev pub has_form : HttpRequest → Bool
has_form request =
    is_post (request.method)
    && mentions content_type_form_urlencoded (get_header (codes "content-type") (request.headers))

unfoldable pub set_form : Bytes → HttpRequest → HttpRequest
set_form body request =
    if has_form request
    then record request { form_params = parse_query_params body (request.form_params) }
    else request

-- The body behind the headers, when there is one.
unfoldable pub set_body : Bytes → HttpRequest → HttpRequest
set_body [] request = request
set_body (c ∷ s) request = set_form (c ∷ s) (record request { body = c ∷ s })

-- The path, and the parameters where a query follows it.
unfoldable pub set_path : Bytes → HttpRequest → HttpRequest
set_path full_path request = elim (find_char b'?' full_path) [
  | none ↦ record request { path = full_path }
  | some query_start ↦ record request {
    path = take query_start full_path;
    query_params = parse_query_params (drop (suc query_start) full_path) (request.query_params);
  }
]

-- The request line without its end: the method, the path and the version.
unfoldable pub read_request_line : Bytes → Option HttpRequest
read_request_line first_line = find_char b' ' first_line >>= λ method_end.
    let after_method = drop (suc method_end) first_line in
    find_char b' ' after_method >>= λ path_len.
    some (record (set_path (take path_len after_method) empty_request) {
      method = get_method (take method_end first_line);
      version = string_to_http_version (drop (suc path_len) after_method);
    })

-- `headers_end - first_line_end - 2` wraps around where no header stands between the two.
unfoldable pub header_block : ℕ → ℕ → Bytes → Bytes
header_block first_line_end headers_end request_view =
    take ((headers_end + 2 ^ 64 - first_line_end - 2) % 2 ^ 64)
      (drop (first_line_end + 2) request_view)

unfoldable pub parse : Bytes → Option HttpRequest
parse request_view = find (codes "\r\n") request_view >>= λ first_line_end.
    find (codes "\r\n\r\n") request_view >>= λ headers_end.
    read_request_line (take first_line_end request_view) >>= λ request.
    read_lines (split_lines (header_block first_line_end headers_end request_view)) (record {
      request = record request { raw = request_view };
      is_websocket = false;
      ws_data = empty_ws_data;
    })
    >>= λ state. some (set_body (drop (headers_end + 4) request_view) (set_websocket state))
