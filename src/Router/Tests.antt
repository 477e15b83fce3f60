-- ===== src/Router/Tests.antt =====
-- Runs of the router, and the theorems at concrete inputs.
use gouda_http_server.Common.{
  ◌≡◌, ◌≢◌, refl, true, false, none, some, List, [], ◌∷◌, ◌++◌, if◌then◌else◌, arith,
}
use gouda_http_server.Common.Bytes.{Bytes, codes, eq}
use gouda_http_server.Cache.{
  Slot, FileCache, empty, put, evict_if_needed, remove_existing, add_entry, erase_node,
}
use gouda_http_server.Cache as FileCache
use gouda_http_server.Cache.Assoc.{lookup, erase_key, assign}
use gouda_http_server.Http.Headers.{get_header, set_header}
use gouda_http_server.Http.Message.{HttpRequestRange, text}
use gouda_http_server.Http.Message.{
  HttpRequest, HttpResponse, WebSocketRequestData, WebSocketResponseData, empty_request,
  default_response, text_response, websocket_response,
}
use gouda_http_server.Http.Words.{get}
use gouda_http_server.Http.Status.{ok, partial_content}
use gouda_http_server.Common.SortedMap.{alter, emplace, find_entry, lex}
use gouda_http_server.Router.Outside.{FileSystem, Library, compute_websocket_accept}
use gouda_http_server.Router.Params.{name_at, param_names, replace_params, route_pattern}
use gouda_http_server.Router.Params.Segments.{IsPieces, param_names-path_of}
use gouda_http_server.Router.Responses.{
  serve_stream, mime_of, whole_headers, cache_control, serve_content,
}
use gouda_http_server.Router.Static.{
  default_static_files, serve_file, serve, check_file, check_path, handle_static_file,
}
use gouda_http_server.Parser.{parse_range}
use gouda_http_server.Router.Static.Part.{range_text, IsPart, body_bytes, serve_content-IsPart}
use gouda_http_server.Router.Static.Served.{IsAllowed, handle_static_file-IsAllowed}
use gouda_http_server.Router.Routes.{
  Route, Middleware, Router, initial, same_method, find_routes, emplace_route, add_route,
  make_route, first_match, match_route, get_websocket_handler, first_handler,
}
use gouda_http_server.Router.Routes.First.{match_route-add_route}
use gouda_http_server.Router.Dispatch.{
  is_allowed_origin, has_good_origin, base_handler, upgrade, route, wrap_all,
}
use gouda_http_server.Router.Dispatch.Answers.{route-websocket}

program : Unit {0}
unfolding compute_websocket_accept name_at param_names replace_params route_pattern mime_of
    whole_headers cache_control serve_content serve_file serve check_file check_path
    handle_static_file same_method find_routes emplace_route add_route make_route first_match
    match_route get_websocket_handler first_handler is_allowed_origin upgrade route base_handler
    wrap_all text_response websocket_response set_header get_header alter emplace find_entry lex put
    evict_if_needed add_entry erase_node lookup erase_key assign empty FileCache.get remove_existing
program = tt

-- Every path is a file of four characters.
abbrev disk : FileSystem
disk = record {
  joined = λ p q. p ++ (codes "/" ++ q);
  extension = λ p. codes ".css";
  canonical = λ p. some p;
  weakly_canonical = λ p. some p;
  exists = λ p. true;
  is_directory = λ p. false;
  file_size = λ p. some 4;
  last_write_time = λ p. some 7;
  read_file = λ p. some (codes "a {}");
}

-- A pattern matches its own text.
abbrev plain_library : Library
plain_library = record {
  dump_error = λ s. s;
  format_last_modified = λ t. codes "today";
  sha1 = λ s. s;
  base64 = λ s. s;
  is_regex = λ p. true;
  regex_match = λ path p. if eq path p then some [] else none;
}

abbrev a_css : HttpRequest
a_css = record empty_request { method = get; path = codes "/assets/a.css" }

abbrev a_response : HttpResponse
a_response =
    cache_control plain_library
      (whole_headers plain_library 7 (text_response ok (codes "a {}") (codes "text/css")))

abbrev after_a : FileCache
after_a = record {
  cache_map =
      (
        codes "static/a.css",
        record { entry = record { content = codes "a {}"; last_modified = 7 }; node = 0 },
      )
      ∷ [];
  lru_list = record { id = 0; path = codes "static/a.css" } ∷ [];
  max_size = 100;
  total_size = 4;
  next_node = 1;
}

serves_a :
    handle_static_file disk plain_library default_static_files a_css empty
    ≡ some (a_response, after_a)
unfolding program
serves_a = refl

handle_static_file-IsAllowed_example : IsAllowed disk default_static_files a_css
unfolding program
handle_static_file-IsAllowed_example =
    handle_static_file-IsAllowed disk plain_library default_static_files a_css empty after_a
      a_response serves_a refl refl

abbrev user_pieces : List (Bytes × Bytes)
user_pieces = (codes "/users/", codes "id") ∷ (codes "/posts/", codes "post_1") ∷ []

user_pieces-IsPieces : IsPieces user_pieces (codes "/x")
unfolding program
user_pieces-IsPieces = ground arith

param_names-path_of_example :
    (param_names (codes "/users/:id/posts/:post_1/x") ≡ codes "id" ∷ codes "post_1" ∷ [])
    × (replace_params false (codes "/users/:id/posts/:post_1/x")
        ≡ codes "/users/([^/]+)/posts/([^/]+)/x")
param_names-path_of_example = param_names-path_of user_pieces (codes "/x") user_pieces-IsPieces

abbrev home : Route Unit
home = record {
  method = get;
  pattern = codes "/";
  handler = λ request params json_body c. some (default_response, c);
  param_names = [];
  websocket_handler = some (λ frame conn_id req_id. codes "hi");
}

abbrev home_router : Router Unit
home_router = record initial { routes_by_method = (get, home ∷ []) ∷ [] }

abbrev home_request : HttpRequest
home_request = record empty_request { method = get; path = codes "/" }

match_route-add_route_example : match_route plain_library home_router home_request ≡ some (home, [])
unfolding program
match_route-add_route_example =
    match_route-add_route plain_library home initial home_router home_request refl

abbrev handshake : WebSocketRequestData
handshake = record {
  key = codes "k";
  version = codes "13";
  protocol = none;
  extensions = some (codes "e");
}

abbrev answer : WebSocketResponseData
answer = record {
  accept_key = compute_websocket_accept plain_library (codes "k");
  protocol = none;
  extensions = none;
}

abbrev upgrade_request : HttpRequest
upgrade_request = record home_request { websocket_data = some handshake }

route-websocket_example :
    (has_good_origin plain_library upgrade_request home_router ≡ true)
    × (get_websocket_handler plain_library home_router upgrade_request ≢ none)
    × (answer.accept_key ≡ compute_websocket_accept plain_library handshake.key)
    × (answer.protocol ≡ handshake.protocol)
    × (answer.extensions ≡ none)
    × (empty ≡ empty)
unfolding program
route-websocket_example =
    route-websocket plain_library upgrade_request disk home_router none empty empty handshake
      (upgrade plain_library upgrade_request home_router handshake) answer refl refl refl

abbrev stamp : Middleware Unit
stamp request json_body next c = next c

abbrev stamped : Router Unit
stamped = record home_router { middlewares = stamp ∷ [] }

serve_content-IsPart_example :
    (range : HttpRequestRange) × (parse_range (range_text 1 (some 2)) ≡ some range)
    × (r : HttpResponse) × (s : Bytes) × (serve_content plain_library false
          (some range)
          (codes "text/css")
          4
          7
          (codes "a {}")
        ≡ some r)
    × (r.status_code ≡ partial_content)
    × (r.body ≡ text s)
    × IsPart 1 2 (codes "a {}") s
    × (body_bytes disk
          (serve_stream plain_library false
            (some range)
            (codes "text/css")
            4
            7
            (codes "a.css")).body
        ≡ some s)
serve_content-IsPart_example =
    serve_content-IsPart disk plain_library false (codes "text/css") (codes "a.css") 7
      (codes "a {}") 1 (some 2) (omega arith) refl (λ e. cc) (omega arith) (omega arith)
