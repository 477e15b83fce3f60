-- ===== src/Router/Responses.antt =====
-- The responses of `Router::handle_static_file`, src/router.cpp: errors, whole files and parts.
use gouda_http_server.Common.{
  ℕ, ◌+◌, ◌-◌, ◌*◌, ◌%◌, ◌^◌, Bool, true, false, ◌||◌, Option, none, some, List, [], ◌∷◌, ◌++◌, ltb,
  leb, ◌==◌, if◌then◌else◌, length, take, drop,
}
use gouda_http_server.Common.Bytes.{Bytes, codes, eq, find}
use gouda_http_server.Common.Decimal.{to_string}
use gouda_http_server.Http.Headers.{set_header}
use gouda_http_server.Http.Message.{HttpRequestRange, HttpResponse, text_response, stream_response}
use gouda_http_server.Http.Status.{HttpStatusCode, ok, partial_content, range_not_satisfiable}
use gouda_http_server.Router.Outside.{Library}
use gouda_http_server.Router.Pages.{content_type_json, error_416_html, page_or_json}

-- `DEFAULT_STREAM_THRESHOLD` of include/http_constants.hpp, 1 MiB.
abbrev pub default_stream_threshold : ℕ
default_stream_threshold = 1 * 1024 * 1024

abbrev pub mime_types : List (Bytes × Bytes)
mime_types =
    (codes ".html", codes "text/html")
    ∷ (codes ".css", codes "text/css")
    ∷ (codes ".js", codes "application/javascript")
    ∷ (codes ".png", codes "image/png")
    ∷ (codes ".jpg", codes "image/jpeg")
    ∷ (codes ".jpeg", codes "image/jpeg")
    ∷ (codes ".gif", codes "image/gif")
    ∷ (codes ".svg", codes "image/svg+xml")
    ∷ (codes ".json", codes "application/json")
    ∷ (codes ".ico", codes "image/x-icon")
    ∷ (codes ".txt", codes "text/plain")
    ∷ []

unfoldable pub mime_of : Bytes → List (Bytes × Bytes) → Bytes
mime_of ext [] = codes "application/octet-stream"
mime_of ext ((e, mime) ∷ more) = if eq e ext then mime else mime_of ext more

-- `response.set_header`.
abbrev pub with_header : Bytes → Bytes → HttpResponse → HttpResponse
with_header key value r = record r { headers = set_header key value (r.headers) }

-- `s.find(p) != npos`.
abbrev pub occurs : Bytes → Bytes → Bool
occurs p s = elim (find p s) [ none ↦ false | some i ↦ true ]

-- `request.range->end == 0 ? file_size - 1 : request.range->end`, on `uint64_t`.
abbrev pub last_byte : HttpRequestRange → ℕ → ℕ
last_byte range file_size = if range.end == 0 then (file_size + 2 ^ 64 - 1) % 2 ^ 64 else range.end

-- The test of a range that cannot be satisfied.
abbrev pub is_unsatisfiable : HttpRequestRange → ℕ → Bool
is_unsatisfiable range file_size =
    leb file_size (range.start)
    || ltb (last_byte range file_size) (range.start)
    || leb file_size (last_byte range file_size)

-- `{}-{}/{}` behind "bytes ".
abbrev pub content_range : ℕ → ℕ → ℕ → Bytes
content_range start end file_size =
    codes "bytes "
    ++ (to_string start ++ (codes "-" ++ (to_string end ++ (codes "/" ++ to_string file_size))))

module _ (library : Library) where
  -- The headers of a whole file, and of a part.
  unfoldable pub whole_headers : ℕ → HttpResponse → HttpResponse
  whole_headers last_modified r =
      with_header (codes "Last-Modified") (library.format_last_modified last_modified)
        (with_header (codes "Accept-Ranges") (codes "bytes") r)

  unfoldable pub part_headers : ℕ → ℕ → ℕ → ℕ → HttpResponse → HttpResponse
  unfolding whole_headers
  part_headers start end file_size last_modified r =
      whole_headers last_modified
        (with_header (codes "Content-Range") (content_range start end file_size) r)

  unfoldable pub cache_control : HttpResponse → HttpResponse
  cache_control = with_header (codes "Cache-Control") (codes "max-age=3600")

  module _ (prefers_html : Bool) where
    -- An error of a status, with its page and its message.
    unfoldable pub error_response : HttpStatusCode → Bytes → Bytes → HttpResponse
    error_response status page message =
        text_response status (page_or_json library prefers_html page message)
          (if prefers_html then codes "text/html; charset=utf-8" else content_type_json)

    unfoldable pub range_error : ℕ → HttpResponse
    range_error file_size =
        with_header (codes "Content-Range") (codes "bytes */" ++ to_string file_size)
          (error_response range_not_satisfiable error_416_html (codes "Invalid range"))

    module _ (range : Option HttpRequestRange) (content_type : Bytes)
        (file_size last_modified : ℕ) where
      -- A content, of the cache or of the file: the program has this twice. `substr` throws where
      -- the part starts behind the content.
      unfoldable pub serve_content : Bytes → Option HttpResponse
      serve_content content = elim range [
        | none ↦
            some
              (cache_control (whole_headers last_modified (text_response ok content content_type)))
        | some r ↦
            let end = last_byte r file_size in
            if is_unsatisfiable r file_size
            then some (range_error file_size)
            else if leb (r.start) (length content)
            then some (
                cache_control (
                  part_headers (r.start) end file_size last_modified (
                    text_response partial_content
                      (take (end - r.start + 1) (drop (r.start) content)) content_type)))
            else none
      ]

      -- A file over the threshold.
      unfoldable pub serve_stream : Bytes → HttpResponse
      serve_stream full_path = elim range [
        | none ↦ cache_control (
            whole_headers last_modified (
              stream_response ok
                (record { file_path = full_path; file_size = file_size; offset = 0 }) content_type))
        | some r ↦
            let end = last_byte r file_size in
            if is_unsatisfiable r file_size
            then range_error file_size
            else cache_control (
                part_headers (r.start) end file_size last_modified (
                  stream_response partial_content
                    (record {
                      file_path = full_path;
                      file_size = end - r.start + 1;
                      offset = r.start;
                    })
                    content_type))
      ]
