-- ===== src/Parser/Tests.antt =====
-- Runs of the parser, and the theorems at concrete inputs.
use mathlib.Core.Option
use gouda_http_server.Common.{◌≡◌, refl, none, some, [], ◌∷◌, ◌++◌, arith}
use gouda_http_server.Common.Bytes.{Bytes, codes}
use gouda_http_server.Common.Decimal.{to_string, stoull, digits_value}
use gouda_http_server.Common.SortedMap.{emplace, alter, lex, find_entry}
use gouda_http_server.Http.Headers.{set_header, get_header}
use gouda_http_server.Http.Message.{HttpRequest}
use gouda_http_server.Http.Words.{get, http_1_1, get_method, string_to_http_version}
use gouda_http_server.Utils.Query.{parse_query_params, parts, store, read_pair, push_back}
use gouda_http_server.Utils.Url.{url_decode}
use gouda_http_server.Utils.Text.{
  trim, trim_front, trim_back, split_lines, split_parts, to_lowercase,
}
use gouda_http_server.Parser.{
  span_digits, match_range, parse_range, websocket_header, special_header, read_header, read_line,
  read_lines, is_upgrade, set_websocket, set_form, set_body, set_path, read_request_line,
  header_block, parse,
}
use gouda_http_server.Parser.Range.{print_range, parse_range-print_range}
use gouda_http_server.Parser.Upgrade.{IsUpgrade, parse-IsUpgrade}

program : Unit {0}
unfolding span_digits match_range parse_range websocket_header special_header read_header read_line
    read_lines is_upgrade set_websocket set_form set_body set_path read_request_line header_block
    parse trim trim_front trim_back split_lines split_parts to_lowercase url_decode
    parse_query_params parts store read_pair push_back get_method string_to_http_version set_header
    get_header emplace alter lex find_entry stoull digits_value
program = tt

-- An upgrade with a query and a range.
abbrev upgrade : Bytes
upgrade =
    codes
      "GET /ws?b=2&a=1 HTTP/1.1\r\nConnection: keep-alive, Upgrade\r\nupgrade: WebSocket\r\nRange: bytes=3-9\r\n"
    ++ codes "Sec-WebSocket-Version: 13\r\nSec-WebSocket-Key: k\r\n\r\n"

abbrev upgrade_request : HttpRequest
upgrade_request = record {
  method = get;
  version = http_1_1;
  path = codes "/ws";
  headers =
      (codes "connection", codes "keep-alive, Upgrade")
      ∷ (codes "range", codes "bytes=3-9")
      ∷ (codes "sec-websocket-key", codes "k")
      ∷ (codes "sec-websocket-version", codes "13")
      ∷ (codes "upgrade", codes "WebSocket")
      ∷ [];
  body = [];
  raw = upgrade;
  range = some (record { start = 3; end = 9 });
  query_params = (codes "a", codes "1" ∷ []) ∷ (codes "b", codes "2" ∷ []) ∷ [];
  form_params = [];
  websocket_data =
      some (record { key = codes "k"; version = codes "13"; protocol = none; extensions = none });
}

parses : parse upgrade ≡ some upgrade_request
unfolding program
parses = refl

-- With no header the length of the header block wraps around, and the body is read for headers.
reads_body :
    Option.map (λ q. q.headers) (parse (codes "GET / HTTP/1.1\r\n\r\na: b"))
    ≡ some ((codes "a", codes "b") ∷ [])
unfolding program
reads_body = refl

-- A range that is malformed, or out of range, refuses the request.
refuses : parse (codes "GET / HTTP/1.1\r\nRange: bytes=-5\r\n\r\n") ≡ none
unfolding program
refuses = refl

parse-IsUpgrade_example :
    IsUpgrade upgrade_request
      (record { key = codes "k"; version = codes "13"; protocol = none; extensions = none })
parse-IsUpgrade_example =
    parse-IsUpgrade upgrade upgrade_request
      (record { key = codes "k"; version = codes "13"; protocol = none; extensions = none }) parses
      refl

parse_range-print_range_example :
    (parse_range (print_range (to_string 5) (to_string 90)) ≡ some (record { start = 5; end = 90 }))
    × (parse_range (print_range (to_string 5) []) ≡ some (record { start = 5; end = 0 }))
parse_range-print_range_example = parse_range-print_range 5 90 (omega arith) (omega arith)
