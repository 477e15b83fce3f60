-- ===== src/Client/Tests.antt =====
-- Runs of the reading of a request, and the theorems at concrete inputs.
use gouda_http_server.Common.{
  map, ℕ, zero, suc, ◌≤◌, none, length, All, false, if◌then◌else◌, ◌≡◌, refl, some, List, [], ◌∷◌,
  ◌++◌, arith,
}
use gouda_http_server.Common.Bytes.{Bytes, codes, eq}
use gouda_http_server.Common.SortedMap.{emplace, alter, lex, find_entry}
use gouda_http_server.Common.Decimal.{stoull, digits_value}
use gouda_http_server.Client.{
  Recv, received, closed, would_block, returned, timed_out, find_headers, read_headers, occurrences,
  from_digit, last_value, digits_prefix, bounded_length, get_content_length, body_loop, read_body,
  read_rest, read_requests,
}
use gouda_http_server.Client.{should_keep_alive}
use gouda_http_server.Client.Cut.{Setting}
use gouda_http_server.Client.Process.{process_single_request, handle}
use gouda_http_server.Client.Process.Ends.{handle-IsLast}
use gouda_http_server.Client.Process.Ends.Rounds.{IsLast}
use gouda_http_server.Client.Process.Pipeline.{IsPlain, answers, process_single_request-answers}
use gouda_http_server.Client.Send.{Send, accepted, done, send_raw}
use gouda_http_server.Client.Send.Delivered.{IsProgress, message, send_raw-message}
use gouda_http_server.Cache.{empty}
use gouda_http_server.Common.Decimal.{to_string, digits_of}
use gouda_http_server.Http.Builder.{build, body_part, status_line, header_lines, build_headers_only}
use gouda_http_server.Http.Headers.{set_header, get_header, has_header}
use gouda_http_server.Http.Message.{
  HttpRequest, HttpResponse, empty_request, default_response, stream_response, set_default_headers,
}
use gouda_http_server.Http.Status.{partial_content, status_number, status_code_to_string_view}
use gouda_http_server.Http.Words.{
  get, get_method, string_to_http_version, http_version_to_string_view,
}
use gouda_http_server.Parser.{
  special_header, websocket_header, read_header, read_line, read_lines, is_upgrade, set_websocket,
  set_form, set_body, set_path, read_request_line, header_block, parse,
}
use gouda_http_server.Router.Outside.{FileSystem, Library}
use gouda_http_server.Router.Routes.{Route, initial}
use gouda_http_server.Utils.Text.{
  trim, trim_front, trim_back, split_lines, split_parts, to_lowercase,
}
use gouda_http_server.Client.Head.{Returns}
use gouda_http_server.Client.Whole.{HasRequest, read_requests-HasRequest}
use gouda_http_server.Client.Process.Conversation.{IsSent, sent, whole, handle-answers}
use gouda_http_server.Client.Process.{Output, closes, and_next}
use gouda_http_server.Client.Process.Wire.{replies, messages, transmit, handle-transmit}
use gouda_http_server.Router.Dispatch.{route, base_handler, answer_route, wrap_all, bind_params}
use gouda_http_server.Router.Static.{handle_static_file}
use gouda_http_server.Router.Responses.{with_header}
use gouda_http_server.Router.Routes.{match_route, first_match, find_routes, same_method}
use gouda_http_server.Client.Chunks.{joined, read_requests-chunks}

program : Unit {0}
unfolding find_headers read_headers occurrences from_digit last_value digits_prefix bounded_length
    get_content_length body_loop read_body read_rest read_requests stoull digits_value
program = tt

abbrev head : Bytes
head = codes "POST / HTTP/1.1\r\nContent-Length: 3\r\n\r\n"

abbrev parts : List Recv
parts =
    received (codes "POST / HTTP/1.1\r\nContent-Length: 3\r\n\r")
    ∷ received (codes "\na")
    ∷ received (codes "bc")
    ∷ []

reads_parts : read_requests 8192 100 parts ≡ returned (head ++ codes "abc") []
unfolding program
reads_parts = refl

times_out : read_requests 8192 100 (received (codes "GET") ∷ would_block ∷ []) ≡ timed_out
unfolding program
times_out = refl

-- The name is read in one spelling only.
misses_length : get_content_length 100 (codes "content-length: 3\r\n\r\n") ≡ some 0
unfolding program
misses_length = refl

read_requests-HasRequest_example :
    Returns (λ buffer rest. HasRequest 8192 100 buffer) (read_requests 8192 100 parts)
read_requests-HasRequest_example =
    read_requests-HasRequest 8192 100 parts (omega arith)
      (omega arith, (omega arith, (omega arith, tt))) refl

head_length : get_content_length 100 head ≡ some 3
unfolding program
head_length = refl

-- The same request in four parts.
abbrev pieces : List Bytes
pieces =
    codes "POST / HTTP/1.1\r\nContent-Len" ∷ codes "gth: 3\r\n\r" ∷ codes "\na" ∷ codes "bc" ∷ []

read_requests-chunks_example :
    read_requests 8192 100 (map received pieces ++ closed ∷ [])
    ≡ returned (joined pieces) (closed ∷ [])
read_requests-chunks_example =
    read_requests-chunks 8192 100 34 3 pieces (closed ∷ [])
      (omega arith, (omega arith, (omega arith, (omega arith, tt)))) refl refl (omega arith)
      head_length (omega arith) (omega arith) (omega arith)

parser : Unit {0}
unfolding special_header websocket_header read_header read_line read_lines is_upgrade set_websocket
    set_form set_body set_path read_request_line header_block parse trim trim_front trim_back
    split_lines split_parts to_lowercase get_method string_to_http_version set_header get_header
    has_header emplace alter lex find_entry should_keep_alive
parser = tt

-- Every path is a file of four characters.
abbrev disk : FileSystem
disk = record {
  joined = λ p q. p ++ q;
  extension = λ p. codes ".css";
  canonical = λ p. some p;
  weakly_canonical = λ p. some p;
  exists = λ p. false;
  is_directory = λ p. false;
  file_size = λ p. some 4;
  last_write_time = λ p. some 7;
  read_file = λ p. some (codes "a {}");
}

abbrev plain_library : Library
plain_library = record {
  dump_error = λ s. s;
  format_last_modified = λ t. codes "today";
  sha1 = λ s. s;
  base64 = λ s. s;
  is_regex = λ p. false;
  regex_match = λ path p. if eq path p then some [] else none;
}

abbrev home : Route Unit
home = record {
  method = get;
  pattern = codes "/";
  handler = λ request params json_body c. some (default_response, c);
  param_names = [];
  websocket_handler = none;
}

abbrev home_setting : Setting Unit
home_setting = record {
  fs = disk;
  library = plain_library;
  parse_json = λ s. none;
  router = record initial { routes_by_method = (get, home ∷ []) ∷ [] };
  max_header_size = 8192;
  max_content_length = 100;
  char_signed = false;
  timeout_is_set = false;
  connection_id = 1;
  request_id = 2;
}

abbrev home_head : Bytes
home_head = codes "GET / HTTP/1.1\r\nHost: a\r\n\r\n"

abbrev home_request : HttpRequest
home_request = record empty_request {
  method = get;
  path = codes "/";
  headers = (codes "host", codes "a") ∷ [];
  raw = home_head;
}

home_head-IsPlain : IsPlain home_setting home_head home_request
unfolding program parser
home_head-IsPlain = record {
  head_end = 23;
  found = refl;
  is_end = refl;
  no_body = refl;
  parsed = refl;
  has_host = refl;
  no_upgrade = refl;
  keeps_alive = refl;
}

abbrev two_requests : List Recv
two_requests = received (home_head ++ home_head) ∷ closed ∷ []

process_single_request-answers_example :
    process_single_request home_setting two_requests empty
    ≡ answers home_setting
        (closed ∷ [])
        ((home_head, home_request) ∷ (home_head, home_request) ∷ [])
        empty
unfolding program
process_single_request-answers_example =
    process_single_request-answers home_setting two_requests (closed ∷ []) empty
      (home_head, home_request) ((home_head, home_request) ∷ [])
      (home_head-IsPlain, (home_head-IsPlain, tt)) refl

-- The same request in two parts.
abbrev home_chunks : List Bytes
home_chunks = codes "GET / HT" ∷ codes "TP/1.1\r\nHost: a\r\n\r\n" ∷ []

home_chunks-IsSent : IsSent home_setting home_chunks home_request
home_chunks-IsSent = record {
  nonempty = (omega arith, (omega arith, tt));
  is_plain = home_head-IsPlain;
  no_feeds = refl;
  fits = omega arith;
  small = omega arith;
}

abbrev two_sent : List (List Bytes × HttpRequest)
two_sent = (home_chunks, home_request) ∷ (home_chunks, home_request) ∷ []

handle-answers_example :
    handle home_setting 3 (sent two_sent (closed ∷ [])) empty
    ≡ and_next (answers home_setting (closed ∷ []) (whole two_sent) empty) (handle home_setting 1)
handle-answers_example =
    handle-answers home_setting 1 two_sent (closed ∷ []) empty
      (home_chunks-IsSent, (home_chunks-IsSent, tt))

handle-IsLast_example : IsLast (handle home_setting 100 two_requests empty)
handle-IsLast_example = handle-IsLast home_setting 100 two_requests empty (omega arith)

abbrev ones : ℕ → List Send
ones zero = []
ones (suc n) = accepted 1 ∷ ones n

ones-IsProgress : (n : ℕ) → All IsProgress (ones n)
ones-IsProgress zero = tt
ones-IsProgress (suc n) = (omega arith, ones-IsProgress n)

-- Two bytes of the file, behind the head.
abbrev part : HttpResponse
part =
    stream_response partial_content
      (record { file_path = codes "a.css"; file_size = 2; offset = 1 }) (codes "text/css")

part_short : length (message disk plain_library part) ≤ length (ones 300)
unfolding stream_response set_default_headers set_header emplace alter find_entry lex
    build_headers_only status_line header_lines to_string digits_of status_number
    status_code_to_string_view http_version_to_string_view
part_short = omega arith

send_raw-message_example :
    (rest : List Send) × (send_raw 64 disk plain_library part (ones 300)
      ≡ done (message disk plain_library part) rest)
send_raw-message_example =
    send_raw-message 64 (omega arith) disk plain_library part (ones 300) (ones-IsProgress 300)
      part_short

-- The answer to each of the two requests.
abbrev home_kept : HttpResponse
home_kept = with_header (codes "Connection") (codes "keep-alive") default_response

two_replies : replies home_setting (whole two_sent) empty ≡ some (home_kept ∷ home_kept ∷ [], empty)
unfolding replies route base_handler answer_route wrap_all handle_static_file match_route
    first_match find_routes same_method bind_params get_header find_entry lex default_response
two_replies = refl

two_messages_short :
    length (messages disk plain_library (home_kept ∷ home_kept ∷ [])) ≤ length (ones 400)
unfolding default_response set_default_headers set_header emplace alter find_entry lex build
    build_headers_only status_line header_lines to_string digits_of status_number
    status_code_to_string_view http_version_to_string_view body_part
two_messages_short = omega arith

handle-transmit_example :
    (os : List Output) × (left : List Send) × (handle home_setting 2
        (sent two_sent (closed ∷ []))
        empty
      ≡ closes os empty)
    × (transmit 64 disk plain_library os (ones 400)
        ≡ done (messages disk plain_library (home_kept ∷ home_kept ∷ [])) left)
handle-transmit_example =
    handle-transmit home_setting 64 two_sent (closed ∷ []) empty empty (home_kept ∷ home_kept ∷ [])
      (ones 400) (omega arith) (home_chunks-IsSent, (home_chunks-IsSent, tt)) two_replies
      (ones-IsProgress 400) two_messages_short
