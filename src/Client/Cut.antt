-- ===== src/Client/Cut.antt =====
-- The part of `process_single_request`, src/client_handler.cpp, that cuts one request off the
-- buffer, up to the parser, and what a connection works with.
use gouda_http_server.Common.{
  ℕ, zero, suc, ◌+◌, ◌%◌, ◌^◌, Bool, ◌||◌, Option, none, some, List, ◌++◌, ltb, if◌then◌else◌,
  length, take, drop,
}
use gouda_http_server.Common.Bytes.{Bytes, codes, find}
use gouda_http_server.Client.{
  Recv, Outcome, returned, refused, timed_out, waiting, get_content_length, read_body,
}
use gouda_http_server.Router.Outside.{FileSystem, Library}
use gouda_http_server.Router.Responses.{occurs}
use gouda_http_server.Router.Routes.{Router}
use gouda_http_server.Utils.Text.{trim_back}

-- What a connection works with: the configuration and the router, which do not change; other code;
-- what the one call of `set_recv_timeout` gives; and the ids, which only reach the log and the
-- WebSocket handler. `parse_json` is `Json::parse`, `none` being `Json::parse_error`.
pub record Setting (Json : Type 0) : Type 0 where
  pub fs : FileSystem
  pub library : Library
  pub parse_json : Bytes → Option Json
  pub router : Router Json
  pub max_header_size : ℕ
  pub max_content_length : ℕ
  pub char_signed : Bool
  pub timeout_is_set : Bool
  pub connection_id : ℕ
  pub request_id : ℕ

-- `single_request` and `request_end`: the head of the request from `processed_bytes` on.
unfoldable pub cut_head : ℕ → Bytes → Option (Bytes × ℕ)
cut_head processed_bytes raw =
    let rest = drop processed_bytes raw in
    elim (find (codes "\r\n\r\n") rest) [
      | some i ↦ some (take (i + 4) rest, processed_bytes + i + 4)
      | none ↦ elim (find (codes "\n\n") rest) [
        | some i ↦ some (take (i + 2) rest ++ codes "\r\n\r\n", processed_bytes + i + 2)
        | none ↦ none
      ]
    ]

abbrev pub content_type_json_full : Bytes
content_type_json_full = codes "Content-Type: application/json"

abbrev pub content_type_plain_full : Bytes
content_type_plain_full = codes "Content-Type: text/plain"

-- A text body loses the blanks at its end.
unfoldable pub strip_body : Bytes → Bytes → Bytes
strip_body single_request body =
    if occurs content_type_json_full single_request || occurs content_type_plain_full single_request
    then trim_back body
    else body

-- A request that was cut off: its text, its JSON, and the new `processed_bytes`, buffer and calls.
pub record Piece (Json : Type 0) : Type 0 where
  pub text : Bytes
  pub json_body : Option Json
  pub processed_bytes : ℕ
  pub raw : Bytes
  pub reads : List Recv

-- The early returns: `nullopt`, and `nullopt` behind a response; or the wait for `recv`.
pub data Cut (Json : Type 0) : Type 0 where
  piece : Piece Json → Cut Json
  incomplete invalid_json pending : Cut Json

module _ {Json : Type 0} (setting : Setting Json) where
  -- The wait for the body where the buffer does not hold it: the buffer.
  unfoldable pub complete_body : ℕ → ℕ → Bytes → List Recv → Outcome Bytes
  complete_body content_length request_end raw reads =
      if ltb (length raw) ((request_end + content_length) % 2 ^ 64)
      then read_body setting.max_content_length content_length request_end raw reads
      else returned raw reads

  -- The body is cut off, and read as JSON where the head says so.
  unfoldable pub cut_body : ℕ → Bytes → ℕ → Bytes → List Recv → Cut Json
  cut_body content_length single_request request_end raw reads =
      let body = strip_body single_request (take content_length (drop request_end raw)) in
      let piece_of = λ (json_body : Option Json). piece (record {
        text = single_request ++ body;
        json_body = json_body;
        processed_bytes = (request_end + content_length) % 2 ^ 64;
        raw = raw;
        reads = reads;
      }) in
      if occurs content_type_json_full single_request
      then (elim (setting.parse_json body) [
        | none ↦ invalid_json
        | some value ↦ piece_of (some value)
      ])
      else piece_of none

  unfoldable pub cut_request : ℕ → Bytes → List Recv → Cut Json
  cut_request processed_bytes raw reads = elim (cut_head processed_bytes raw) [
    | none ↦ incomplete
    | some (single_request, request_end) ↦
        elim (get_content_length setting.max_content_length single_request) [
          | none ↦ incomplete
          | some zero ↦ piece (record {
            text = single_request;
            json_body = none;
            processed_bytes = request_end;
            raw = raw;
            reads = reads;
          })
          | some (suc n) ↦ elim (complete_body (suc n) request_end raw reads) [
            | returned raw' reads' ↦ cut_body (suc n) single_request request_end raw' reads'
            | refused ↦ incomplete
            | timed_out ↦ incomplete
            | waiting ↦ pending
          ]
        ]
  ]
