-- ===== src/Site/Favicon.antt =====
-- The handler of "/favicon.ico" of src/routes.hpp. It shares the file cache with the static files.
use gouda_http_server.Common.{
  ℕ, ◌+◌, ◌-◌, Bool, not, ◌||◌, Option, none, some, leb, if◌then◌else◌, length, take, drop,
}
use gouda_http_server.Common.Bytes.{Bytes, codes}
use gouda_http_server.Cache as FileCache
use gouda_http_server.Http.Message.{HttpRequest, HttpRequestRange, HttpResponse, text_response}
use gouda_http_server.Http.Status.{ok, partial_content, not_found, internal_server_error}
use gouda_http_server.Router.Outside.{FileSystem, Library}
use gouda_http_server.Router.Pages.{error_404_html, error_500_html, client_prefers_html}
use gouda_http_server.Router.Responses.{
  with_header, last_byte, is_unsatisfiable, part_headers, error_response, range_error,
}
use gouda_http_server.Router.Static.{M, with_cache}

abbrev pub favicon_path : Bytes
favicon_path = codes "static/favicon.ico"

abbrev pub icon_type : Bytes
icon_type = codes "image/x-icon"

module _ (library : Library) (prefers_html : Bool) (range : Option HttpRequestRange) where
  -- The icon, or a part of it; the program has this twice. `substr` throws where the part starts
  -- behind the content. A part has no Cache-Control.
  unfoldable pub favicon_content : ℕ → ℕ → Bytes → Option HttpResponse
  favicon_content file_size last_modified content = elim range [
    | none ↦ some (
        with_header (codes "Accept-Ranges") (codes "bytes") (
          with_header (codes "Last-Modified") (library.format_last_modified last_modified) (
            with_header (codes "Cache-Control") (codes "max-age=3600")
              (text_response ok content icon_type))))
    | some r ↦
        let end = last_byte r file_size in
        if is_unsatisfiable r file_size
        then some (range_error library prefers_html file_size)
        else if leb r.start (length content)
        then some (
            part_headers library r.start end file_size last_modified (
              text_response partial_content (take (end - r.start + 1) (drop r.start content))
                icon_type))
        else none
  ]

module _ (fs : FileSystem) (library : Library) where
  module _ (prefers_html : Bool) (range : Option HttpRequestRange) where
    -- An icon that is not in the cache: it is read, and put there.
    unfoldable pub read_favicon : ℕ → ℕ → M HttpResponse
    read_favicon file_size last_modified c = elim (fs.read_file favicon_path) [
      | none ↦ some (
        error_response library prefers_html internal_server_error error_500_html
            (codes "Failed to read favicon"),
        c,
      )
      | some content ↦ elim (FileCache.put c favicon_path content last_modified) [
        | none ↦ none
        | some c' ↦
            with_cache c'
              (favicon_content library prefers_html range file_size last_modified content)
      ]
    ]

    unfoldable pub find_favicon : ℕ → ℕ → M HttpResponse
    find_favicon file_size last_modified c = elim (FileCache.get c favicon_path last_modified).1 [
      | none ↦ read_favicon file_size last_modified c
      | some entry ↦
          with_cache (FileCache.get c favicon_path last_modified).0
            (favicon_content library prefers_html range file_size last_modified entry.content)
    ]

    unfoldable pub serve_favicon : M HttpResponse
    serve_favicon c =
        if not (fs.exists favicon_path) || fs.is_directory favicon_path
        then some (
          error_response library prefers_html not_found error_404_html (codes "Favicon not found"),
          c,
        )
        else (elim (fs.file_size favicon_path) [
          | none ↦ some (
            error_response library prefers_html internal_server_error error_500_html
                (codes "Failed to read favicon"),
            c,
          )
          | some file_size ↦ elim (fs.last_write_time favicon_path) [
            | none ↦ some (
              error_response library prefers_html internal_server_error error_500_html
                  (codes "Failed to read favicon metadata"),
              c,
            )
            | some last_modified ↦ find_favicon file_size last_modified c
          ]
        ])

  unfoldable pub favicon : HttpRequest → M HttpResponse
  favicon request = serve_favicon (client_prefers_html request) request.range
