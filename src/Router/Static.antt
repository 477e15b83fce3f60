-- ===== src/Router/Static.antt =====
-- `Router::handle_static_file` of src/router.cpp. It runs on the file cache, which it returns; `none`
-- is an exception of `substr`, or a fault of the cache.
pub mod Served
pub mod Fresh
pub mod Steady
pub mod Cached
pub mod Part
use gouda_http_server.Common.{
  ℕ, ◌+◌, ◌-◌, ◌*◌, ◌%◌, ◌^◌, Bool, true, false, not, ◌&&◌, ◌||◌, Option, none, some, List, [], ◌∷◌,
  ◌++◌, ltb, leb, ◌==◌, if◌then◌else◌, length, take, drop,
}
use gouda_http_server.Common.Bytes.{Bytes, codes, eq, find, starts_with}
use gouda_http_server.Common.Decimal.{to_string}
use gouda_http_server.Cache as FileCache
use gouda_http_server.Cache.{FileCache, FileCacheEntry}
use gouda_http_server.Http.Headers.{set_header}
use gouda_http_server.Http.Message.{
  HttpRequest, HttpRequestRange, HttpResponse, HttpStreamData, text, stream, websocket,
  default_response, text_response, stream_response,
}
use gouda_http_server.Http.Status.{
  HttpStatusCode, ok, partial_content, forbidden, not_found, internal_server_error,
  range_not_satisfiable,
}
use gouda_http_server.Parser.{is_get}
use gouda_http_server.Router.Outside.{FileSystem, Library}
use gouda_http_server.Router.Responses.{
  default_stream_threshold, mime_types, mime_of, occurs, error_response, serve_content,
  serve_stream,
}
use gouda_http_server.Router.Pages.{
  content_type_json, error_403_html, error_404_html, error_416_html, error_500_html,
  client_prefers_html, page_or_json,
}

-- A computation on the file cache.
abbrev pub M : Type 0 → Type 0
M A = FileCache → Option (A × FileCache)

-- A response that may have thrown, and the cache.
abbrev pub with_cache : FileCache → Option HttpResponse → Option (HttpResponse × FileCache)
with_cache c none = none
with_cache c (some r) = some (r, c)

-- `s_static_files_directory` and `s_static_url_prefix`.
pub record StaticFiles : Type 0 where
  pub directory : Bytes
  pub url_prefix : Bytes

-- The static initialisers.
abbrev pub default_static_files : StaticFiles
default_static_files = record { directory = codes "static"; url_prefix = codes "/assets/" }

-- `s_static_url_prefix` ends in a slash.
unfoldable pub with_slash : Bytes → Bytes
with_slash [] = []
with_slash (c ∷ []) = if c == b'/' then c ∷ [] else c ∷ b'/' ∷ []
with_slash (c ∷ d ∷ s) = c ∷ with_slash (d ∷ s)

-- A configuration that is refused leaves the old one.
unfoldable pub set_static_files_directory : FileSystem → Bytes → Bytes → StaticFiles → StaticFiles
set_static_files_directory fs [] url_prefix s = s
set_static_files_directory fs (p ∷ ps) url_prefix s =
    if starts_with (codes "/") url_prefix
    then (elim (fs.canonical (p ∷ ps)) [
      | none ↦ s
      | some canonical_path ↦
          if fs.is_directory canonical_path
          then record { directory = canonical_path; url_prefix = with_slash url_prefix }
          else s
    ])
    else s

module _ (fs : FileSystem) (library : Library) where
  module _ (prefers_html : Bool) where
    module _ (range : Option HttpRequestRange) (content_type : Bytes)
        (file_size last_modified : ℕ) where
      -- A file that is not in the cache: it is read, and put there.
      unfoldable pub serve_file : Bytes → M HttpResponse
      serve_file full_path c = elim (fs.read_file full_path) [
        | none ↦ some (
          error_response library prefers_html internal_server_error error_500_html
              (codes "Failed to read file"),
          c,
        )
        | some content ↦ elim (FileCache.put c full_path content last_modified) [
          | none ↦ none
          | some c' ↦ with_cache c' (
              serve_content library prefers_html range content_type file_size last_modified content)
        ]
      ]

      -- The three ways to a response.
      unfoldable pub serve : Bytes → M HttpResponse
      serve full_path c =
          if leb file_size default_stream_threshold
          then (elim ((FileCache.get c full_path last_modified).1) [
            | none ↦ serve_file full_path c
            | some entry ↦ with_cache ((FileCache.get c full_path last_modified).0) (
                serve_content library prefers_html range content_type file_size last_modified
                  (entry.content))
          ])
          else some (
            serve_stream library prefers_html range content_type file_size last_modified full_path,
            c,
          )

    -- From the check that the file exists on.
    unfoldable pub check_file : Option HttpRequestRange → Bytes → M HttpResponse
    check_file range full_path c =
        if not (fs.exists full_path) || fs.is_directory full_path
        then some (
          error_response library prefers_html not_found error_404_html (codes "File not found"),
          c,
        )
        else (elim (fs.file_size full_path) [
          | none ↦ some (
            error_response library prefers_html internal_server_error error_500_html
                (codes "Failed to read file"),
            c,
          )
          | some file_size ↦ elim (fs.last_write_time full_path) [
            | none ↦ some (
              error_response library prefers_html internal_server_error error_500_html
                  (codes "Failed to read file metadata"),
              c,
            )
            | some last_modified ↦
                serve range (mime_of (fs.extension full_path) mime_types) file_size last_modified
                  full_path c
          ]
        ])

    -- The check that the path stays within the root.
    unfoldable pub check_path : Bytes → Option HttpRequestRange → Bytes → M HttpResponse
    check_path directory range full_path c = elim (fs.weakly_canonical full_path) [
      | none ↦ some (
        error_response library prefers_html internal_server_error error_500_html
            (codes "Failed to resolve file"),
        c,
      )
      | some canonical_path ↦ elim (fs.canonical directory) [
        | none ↦ some (
          error_response library prefers_html forbidden error_403_html (codes "Access denied"),
          c,
        )
        | some canonical_root ↦
            if starts_with canonical_root canonical_path
            then check_file range full_path c
            else some (
              error_response library prefers_html forbidden error_403_html (codes "Access denied"),
              c,
            )
      ]
    ]

  -- `return {}` is a response with an empty text, which `route` does not take.
  unfoldable pub handle_static_file : StaticFiles → HttpRequest → M HttpResponse
  handle_static_file s request c =
      if is_get (request.method) && starts_with (s.url_prefix) (request.path)
      then (let prefers_html = client_prefers_html request in
          let relative_path = drop (length (s.url_prefix)) (request.path) in
          if occurs (codes "..") relative_path
          then some (
            error_response library prefers_html forbidden error_403_html (codes "Access denied"),
            c,
          )
          else check_path prefers_html (s.directory) (request.range)
              (fs.joined (s.directory) relative_path) c)
      else some (default_response, c)

-- What `route` takes of it: a text that is not empty, or a stream.
abbrev pub is_valid_static_response : HttpResponse → Bool
is_valid_static_response r = elim r.body [
  | text [] ↦ false
  | text (c ∷ s) ↦ true
  | stream s ↦ true
  | websocket w ↦ false
]
