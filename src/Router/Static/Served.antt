-- ===== src/Router/Static/Served.antt =====
-- Which requests get a file.
use gouda_http_server.Common.{
  ◌≡◌, Bool, true, false, ◌&&◌, Option, none, some, length, drop, arith, Bool-cases, inl, inr,
}
use gouda_http_server.Common.Bytes.{Bytes, codes, starts_with}
use gouda_http_server.Cache.{FileCache}
use gouda_http_server.Http.Message.{
  HttpRequest, HttpRequestRange, HttpResponse, default_response, text_response,
}
use gouda_http_server.Http.Status.{HttpStatusCode, ok, partial_content}
use gouda_http_server.Parser.{is_get}
use gouda_http_server.Router.Outside.{FileSystem, Library}
use gouda_http_server.Router.Pages.{client_prefers_html}
use gouda_http_server.Router.Responses.{occurs, error_response}
use gouda_http_server.Router.Static.{
  StaticFiles, is_valid_static_response, check_file, check_path, handle_static_file,
}

abbrev pub is_success : HttpStatusCode → Bool
is_success ok = true
is_success partial_content = true
is_success _ = false

-- The text of the canonical path begins with the text of the canonical root, as the code tests it.
-- This is no test of containment: no separator has to follow, so a file of a sibling directory
-- whose name begins with the name of the root passes.
abbrev pub has_root_prefix : FileSystem → Bytes → Bytes → Bool
has_root_prefix fs directory full_path = elim (fs.weakly_canonical full_path) [
  | none ↦ false
  | some canonical_path ↦ elim (fs.canonical directory) [
    | none ↦ false
    | some canonical_root ↦ starts_with canonical_root canonical_path
  ]
]

-- The path of the request behind the prefix.
abbrev pub relative_path : StaticFiles → HttpRequest → Bytes
relative_path s request = drop (length s.url_prefix) request.path

-- A GET request under the prefix, with no ".." behind it, for a file that exists, is no
-- directory, and has a canonical path whose text begins with that of the canonical root.
pub record IsAllowed (fs : FileSystem) (s : StaticFiles) (request : HttpRequest) : Type 0 where
  pub method : is_get request.method ≡ true
  pub prefixed : starts_with s.url_prefix request.path ≡ true
  pub no_parent : occurs (codes "..") (relative_path s request) ≡ false
  pub rooted :
      has_root_prefix fs s.directory (fs.joined s.directory (relative_path s request)) ≡ true
  pub is_there : fs.exists (fs.joined s.directory (relative_path s request)) ≡ true
  pub is_file : fs.is_directory (fs.joined s.directory (relative_path s request)) ≡ false

module _ (fs : FileSystem) (library : Library) where
  check_file-exists :
      (html : Bool) (range : Option HttpRequestRange) (full_path : Bytes) (c c' : FileCache)
      (r : HttpResponse)
      → check_file fs library html range full_path c ≡ some (r, c')
      → is_success r.status_code ≡ true
      → (fs.exists full_path ≡ true) × (fs.is_directory full_path ≡ false)
  unfolding check_file error_response text_response
  check_file-exists html range full_path c c' r h s = ground arith

  check_path-has_root_prefix :
      (html : Bool) (directory : Bytes) (range : Option HttpRequestRange) (full_path : Bytes)
      (c c' : FileCache) (r : HttpResponse)
      → check_path fs library html directory range full_path c ≡ some (r, c')
      → is_success r.status_code ≡ true
      → (has_root_prefix fs directory full_path ≡ true)
        × (fs.exists full_path ≡ true)
        × (fs.is_directory full_path ≡ false)
  unfolding check_path error_response text_response
  check_path-has_root_prefix html directory range full_path c c' r h s =
      ground (arith, check_file-exists html range full_path c c' r)

  -- Every response of status 200 or 206 with a body that `route` takes comes from an allowed request:
  -- a GET request under the prefix with no ".." behind it, whose file exists, is no directory, and
  -- has a canonical path whose text begins with the text of the canonical root. The file of a
  -- sibling directory whose name begins with the name of the root is not excluded.
  pub handle_static_file-IsAllowed :
      (s : StaticFiles) (request : HttpRequest) (c c' : FileCache) (r : HttpResponse)
      → handle_static_file fs library s request c ≡ some (r, c')
      → is_success r.status_code ≡ true
      → is_valid_static_response r ≡ true
      → IsAllowed fs s request
  unfolding handle_static_file error_response text_response default_response
  handle_static_file-IsAllowed s request c c' r h k v =
      elim (Bool-cases (is_get request.method && starts_with s.url_prefix request.path)) [
        | inr e ↦ absurd (ground arith)
        | inl e ↦ elim (Bool-cases (occurs (codes "..") (relative_path s request))) [
          | inl f ↦ absurd (ground arith)
          | inr f ↦
              let full_path = fs.joined s.directory (relative_path s request) in
              let (w, x, d) =
                check_path-has_root_prefix (client_prefers_html request) s.directory request.range
                  full_path c c' r (ground arith) k in
              record {
                method = ground arith;
                prefixed = ground arith;
                no_parent = f;
                rooted = w;
                is_there = x;
                is_file = d;
              }
        ]
      ]
