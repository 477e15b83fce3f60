-- ===== src/Router/Static/Cached.antt =====
-- The file cache does not show in the responses.
use gouda_http_server.Common.{
  not, ◌&&◌, ◌||◌, drop, ℕ, ◌≡◌, Bool, Option, some, List, leb, length, Bool-cases, Option-cases,
  inl, inr,
}
use gouda_http_server.Common.Bytes.{Bytes, codes, starts_with}
use gouda_http_server.Cache.{FileCache, Slot}
use gouda_http_server.Http.Status.{internal_server_error}
use gouda_http_server.Router.Pages.{error_500_html, client_prefers_html}
use gouda_http_server.Parser.{is_get}
use gouda_http_server.Http.Message.{HttpRequest, HttpRequestRange, HttpResponse}
use gouda_http_server.Router.Outside.{FileSystem, Library}
use gouda_http_server.Router.Responses.{
  occurs, default_stream_threshold, error_response, serve_content,
}
use gouda_http_server.Router.Static.{
  StaticFiles, serve_file, serve, check_file, check_path, handle_static_file,
}
use gouda_http_server.Router.Static.Steady.{
  IsCache, response_of, Steady, returned, Steady-cached, Steady-IsCache, get_or_read-IsSteady,
}

module _ (fs : FileSystem) where
  module _ (library : Library) (html : Bool) (range : Option HttpRequestRange) where
    serve-Steady :
        (content_type : Bytes) (size time : ℕ) (full_path : Bytes)
        → fs.last_write_time full_path ≡ some time
        → Steady fs (serve fs library html range content_type size time full_path)
    unfolding serve serve_file
    serve-Steady content_type size time full_path t =
        elim (Bool-cases (leb size default_stream_threshold)) [
          | inr e ↦ rw (e, serve) (returned fs _)
          | inl e ↦
              rw (e, serve)
                (
                  _,
                  get_or_read-IsSteady fs full_path time
                      (error_response library html internal_server_error error_500_html
                        (codes "Failed to read file"))
                      (serve_content library html range content_type size time) t,
                )
        ]

    check_file-Steady : (full_path : Bytes) → Steady fs (check_file fs library html range full_path)
    unfolding check_file
    check_file-Steady full_path =
        elim (Bool-cases (not (fs.exists full_path) || fs.is_directory full_path)) [
          | inl e ↦ rw (e, check_file) (returned fs _)
          | inr e ↦ elim (Option-cases (fs.file_size full_path)) [
            | inl g ↦ rw (e, g, check_file) (returned fs _)
            | inr (size, g) ↦ elim (Option-cases (fs.last_write_time full_path)) [
              | inl t ↦ rw (e, g, t, check_file) (returned fs _)
              | inr (time, t) ↦ rw (e, g, t, check_file) (serve-Steady _ size time full_path t)
            ]
          ]
        ]

    check_path-Steady :
        (directory full_path : Bytes)
        → Steady fs (check_path fs library html directory range full_path)
    unfolding check_path
    check_path-Steady directory full_path = elim (Option-cases (fs.weakly_canonical full_path)) [
      | inl e ↦ rw (e, check_path) (returned fs _)
      | inr (path, e) ↦ elim (Option-cases (fs.canonical directory)) [
        | inl g ↦ rw (e, g, check_path) (returned fs _)
        | inr (root, g) ↦ elim (Bool-cases (starts_with root path)) [
          | inl h ↦ rw (e, g, h, check_path) (check_file-Steady full_path)
          | inr h ↦ rw (e, g, h, check_path) (returned fs _)
        ]
      ]
    ]

  module _ (library : Library) (s : StaticFiles) (request : HttpRequest) where
    pub handle_static_file-Steady : Steady fs (handle_static_file fs library s request)
    unfolding handle_static_file
    handle_static_file-Steady =
        elim (Bool-cases (is_get request.method && starts_with s.url_prefix request.path)) [
          | inr e ↦ rw (e, handle_static_file) (returned fs _)
          | inl e ↦
              elim (Bool-cases (occurs (codes "..") (drop (length s.url_prefix) request.path))) [
                | inl g ↦ rw (e, g, handle_static_file) (returned fs _)
                | inr g ↦
                    rw (e, g, handle_static_file)
                      (check_path-Steady library (client_prefers_html request) request.range
                        s.directory
                        (fs.joined s.directory (drop (length s.url_prefix) request.path)))
              ]
        ]

    -- Let two caches be in their invariant, with entries that hold what the files hold, where they
    -- have the files' time stamps. Then a request for a static file gets the same response with
    -- both, an exception included: what is cached does not show.
    handle_static_file-cached :
        (c d : FileCache) (w v : List (Bytes × Slot))
        → IsCache fs c w
        → IsCache fs d v
        → response_of (handle_static_file fs library s request c)
          ≡ response_of (handle_static_file fs library s request d)
    handle_static_file-cached c d w v =
        Steady-cached fs (handle_static_file fs library s request) handle_static_file-Steady c d w v

    -- A cache that is in its invariant and holds what the files hold is left so.
    handle_static_file-IsCache :
        (c c' : FileCache) (w : List (Bytes × Slot)) (r : HttpResponse)
        → IsCache fs c w
        → handle_static_file fs library s request c ≡ some (r, c')
        → (w' : List (Bytes × Slot)) × IsCache fs c' w'
    handle_static_file-IsCache c c' w r =
        Steady-IsCache fs (handle_static_file fs library s request) handle_static_file-Steady c c' w
          r
