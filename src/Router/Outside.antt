-- ===== src/Router/Outside.antt =====
-- What the router uses of other code: the file system, `nlohmann::json`, OpenSSL, `std::put_time` and
-- `std::regex`.
use gouda_http_server.Common.{ℕ, Bool, Option, List, ◌++◌}
use gouda_http_server.Common.Bytes.{Bytes, codes}

-- `std::filesystem` while one request is handled; `none` sets the error code, or fails to open. The
-- exceptions of `exists` and `is_directory` are left out.
pub record FileSystem : Type 0 where
  -- `p / q`.
  pub joined : Bytes → Bytes → Bytes
  pub extension : Bytes → Bytes
  pub canonical : Bytes → Option Bytes
  pub weakly_canonical : Bytes → Option Bytes
  pub exists : Bytes → Bool
  pub is_directory : Bytes → Bool
  pub file_size : Bytes → Option ℕ
  pub last_write_time : Bytes → Option ℕ
  -- An `std::ifstream`, and all that it reads.
  pub read_file : Bytes → Option Bytes

pub record Library : Type 0 where
  -- `Json{{"error", message}}.dump()`.
  pub dump_error : Bytes → Bytes
  -- The text of `std::put_time` for a file's time, or "" where it throws.
  pub format_last_modified : ℕ → Bytes
  -- `SHA1`, and base64 with no line feeds.
  pub sha1 : Bytes → Bytes
  pub base64 : Bytes → Bytes
  -- Whether `std::regex` takes a pattern, and `std::regex_match` of a text with it: the groups.
  pub is_regex : Bytes → Bool
  pub regex_match : Bytes → Bytes → Option (List Bytes)

-- `HttpRequestParser::compute_websocket_accept`.
unfoldable pub compute_websocket_accept : Library → Bytes → Bytes
compute_websocket_accept library key =
    library.base64 (library.sha1 (key ++ codes "258EAFA5-E914-47DA-95CA-C5AB0DC85B11"))
