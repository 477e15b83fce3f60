-- ===== src/Site/Tests.antt =====
-- Runs of the site, and the theorems at concrete inputs.
use mathlib.Core.Option
use gouda_http_server.Common.{
  ◌≡◌, refl, true, false, none, some, List, [], ◌∷◌, ◌++◌, map, if◌then◌else◌, ◌&&◌, drop, arith,
  inl, inr, ℕ, ◌⊎◌, All,
}
use gouda_http_server.Common.Bytes.{Bytes, codes, eq, starts_with}
use gouda_http_server.Common.SortedMap.{alter, emplace, find_entry, lex}
use gouda_http_server.Cache as FileCache
use gouda_http_server.Cache.{
  Slot, FileCache, empty, put, evict_if_needed, remove_existing, add_entry, erase_node,
}
use gouda_http_server.Cache.Assoc.{lookup, erase_key, assign}
use gouda_http_server.Cache.History.{empty-Tracks}
use gouda_http_server.Client.{Recv, received, closed}
use gouda_http_server.Client.Process.Steady.{swap}
use gouda_http_server.Site.Connection.{handle-cached}
use gouda_http_server.Client.Cut.{Setting}
use gouda_http_server.Client.Process.{waits, process_websocket, handle}
use gouda_http_server.Http.Headers.{get_header, set_header}
use gouda_http_server.Http.Message.{
  HttpRequest, HttpResponse, empty_request, text, text_response, default_response,
  set_default_headers, server_name_version, powered_by_text,
}
use gouda_http_server.Http.Status.{unauthorized, ok}
use gouda_http_server.Http.Words.{get}
use gouda_http_server.Router.Dispatch.{
  bind_params, is_allowed_origin, upgrade, route, base_handler, answer_route, wrap_all,
}
use gouda_http_server.Router.Outside.{FileSystem, Library}
use gouda_http_server.Router.Params.{name_at, param_names, replace_params, route_pattern}
use gouda_http_server.Router.Responses.{whole_headers, part_headers, error_response, range_error}
use gouda_http_server.Router.Routes.{
  Router, initial, same_method, find_routes, emplace_route, add_route, add_middleware, make_route,
  first_match, match_route, get_websocket_handler, first_handler,
}
use gouda_http_server.Router.Static.{handle_static_file}
use gouda_http_server.Router.Static.Steady.{IsCache}
use gouda_http_server.Site.{
  add_routes, setup_routes, echo_route, site_routes, log_requests, authenticate,
}
use gouda_http_server.Site.Cached.{route-IsCache}
use gouda_http_server.Site.Echo.{
  Message, IsMessage, as_chunk, as_reply, get_websocket_handler-setup_routes,
  process_websocket-echo,
}
use gouda_http_server.Site.Favicon.{
  favicon_path, favicon_content, read_favicon, find_favicon, serve_favicon, favicon,
}
use gouda_http_server.Site.Guarded.{route-authenticate}
use gouda_http_server.Site.Handlers.{
  echo_handler, home_page, about_page, echo_body, receive_json, show_query, show_form, user_page,
  change_user, echo_page,
}
use gouda_http_server.Site.Text.{
  null, object, JsonLibrary, make_response, json_error, values_member, set_members, params_body,
}
use gouda_http_server.WebSocket.Frame.{MaskingKey, WebSocketFrame}
use gouda_http_server.WebSocket.Build.{build_websocket_frame, length_bytes, key_bytes}
use gouda_http_server.WebSocket.Parse.{unmask}
use gouda_http_server.WebSocket.Parse.Header.{short}
use gouda_http_server.WebSocket.Parse.RoundTrip.{IsSendable}

program : Unit {0}
unfolding alter emplace find_entry lex put evict_if_needed remove_existing add_entry erase_node
    FileCache.get empty set_default_headers lookup erase_key assign get_header set_header
    text_response default_response bind_params is_allowed_origin upgrade route base_handler
    answer_route wrap_all name_at param_names replace_params route_pattern whole_headers
    part_headers error_response range_error same_method find_routes emplace_route add_route
    add_middleware make_route first_match match_route get_websocket_handler first_handler
    handle_static_file add_routes setup_routes echo_route site_routes log_requests authenticate
    favicon_content read_favicon find_favicon serve_favicon favicon echo_handler home_page
    about_page echo_body receive_json show_query show_form user_page change_user echo_page
    make_response values_member set_members params_body
program = tt

-- One file, the icon.
abbrev disk : FileSystem
disk = record {
  joined = λ p q. p ++ (codes "/" ++ q);
  extension = λ p. codes ".ico";
  canonical = λ p. some p;
  weakly_canonical = λ p. some p;
  exists = λ p. eq p favicon_path;
  is_directory = λ p. false;
  file_size = λ p. some 3;
  last_write_time = λ p. some 7;
  read_file = λ p. some (codes "ico");
}

-- A pattern matches the text between its anchors; one more pattern has a group.
abbrev plain_library : Library
plain_library = record {
  dump_error = λ s. s;
  format_last_modified = λ t. codes "today";
  sha1 = λ s. s;
  base64 = λ s. s;
  is_regex = λ p. true;
  regex_match = λ path p.
      if eq p (codes "^" ++ (path ++ codes "$"))
      then some []
      else if eq p (codes "^/user/([^/]+)$") && starts_with (codes "/user/") path
      then some (drop 6 path ∷ [])
      else none;
}

-- A text for the id of a user.
abbrev shown : JsonLibrary Unit
shown = record {
  dump = λ b. elim b [ null ↦ some (codes "null") | object ms ↦ some (codes "object") ];
  name_of = λ j. none;
}

abbrev site : Router Unit
site = Option.get_or (setup_routes disk plain_library shown initial) initial

site_set_up : setup_routes disk plain_library shown initial ≡ some site
unfolding program
site_set_up = refl

abbrev icon_request : HttpRequest
icon_request = record empty_request { method = get; path = codes "/favicon.ico" }

abbrev user_request : HttpRequest
user_request = record empty_request { method = get; path = codes "/user/7" }

abbrev with_token : HttpRequest
with_token = record user_request {
  headers = (codes "authorization", codes "Bearer dummy_token") ∷ [];
}

user_found :
    route plain_library with_token disk site none empty
    ≡ some (make_response ok (codes "application/json") (codes "object"), empty)
unfolding program
user_found = refl

route-authenticate_example :
    route plain_library user_request disk site none empty
    ≡ some (json_error plain_library unauthorized (codes "Unauthorized"), empty)
unfolding program
route-authenticate_example =
    route-authenticate disk plain_library shown site user_request none empty site_set_up refl refl

abbrev after_icon : FileCache
after_icon = record {
  cache_map =
      (
        favicon_path,
        record { entry = record { content = codes "ico"; last_modified = 7 }; node = 0 },
      )
      ∷ [];
  lru_list = record { id = 0; path = favicon_path } ∷ [];
  max_size = 100;
  total_size = 3;
  next_node = 1;
}

abbrev icon_response : HttpResponse
icon_response = record {
  status_code = ok;
  content_type = codes "image/x-icon";
  headers =
      (codes "Accept-Ranges", codes "bytes")
      ∷ (codes "Cache-Control", codes "max-age=3600")
      ∷ (codes "Content-Type", codes "image/x-icon")
      ∷ (codes "Last-Modified", codes "today")
      ∷ (codes "Server", server_name_version)
      ∷ (codes "X-Powered-By", powered_by_text)
      ∷ [];
  body = text (codes "ico");
}

serves_icon :
    route plain_library icon_request disk site none empty ≡ some (icon_response, after_icon)
unfolding program
serves_icon = refl

empty-IsCache : IsCache disk empty []
unfolding lookup
empty-IsCache = (empty-Tracks, λ path entry h t. cc)

route-IsCache_example : (w : List (Bytes × Slot)) × IsCache disk after_icon w
route-IsCache_example =
    route-IsCache disk plain_library shown site icon_request none empty after_icon [] icon_response
      site_set_up empty-IsCache serves_icon

abbrev socket_request : HttpRequest
socket_request = record empty_request { method = get; path = codes "/ws/echo" }

get_websocket_handler-setup_routes_example :
    get_websocket_handler plain_library site socket_request ≡ some echo_handler
unfolding program
get_websocket_handler-setup_routes_example =
    get_websocket_handler-setup_routes disk plain_library shown site socket_request site_set_up

abbrev site_setting : Setting Unit
site_setting = record {
  fs = disk;
  library = plain_library;
  parse_json = λ s. none;
  router = site;
  max_header_size = 8192;
  max_content_length = 100;
  char_signed = true;
  timeout_is_set = true;
  connection_id = 1;
  request_id = 2;
}

abbrev key : MaskingKey
key = record { k0 = 1; k1 = 2; k2 = 3; k3 = 4 }

abbrev greeting : WebSocketFrame
greeting = record {
  fin = true;
  rsv1 = false;
  rsv2 = false;
  rsv3 = false;
  opcode = 1;
  mask = false;
  payload_length = 3;
  masking_key = none;
  payload = codes "hey";
}

abbrev greetings : List Message
greetings = (key, greeting, []) ∷ (key, record greeting { opcode = 2 }, codes "more") ∷ []

greetings-IsMessage : All (IsMessage true) greetings
unfolding program build_websocket_frame length_bytes key_bytes unmask
greetings-IsMessage = (
  (sendable (inl refl), omega arith, short (omega arith), inl refl, refl, omega arith),
  ((sendable (inr refl), omega arith, short (omega arith), inr refl, refl, omega arith), tt),
)
  where
    sendable : {n : ℕ} → ((n ≡ 1) ⊎ (n ≡ 2)) → IsSendable (record greeting { opcode = n })
    sendable o = record {
      rsv1 = refl;
      rsv2 = refl;
      rsv3 = refl;
      opcode = ground (arith, o);
      sized = refl;
      within = omega arith;
      bytes = omega arith;
    }

process_websocket-echo_example :
    process_websocket site_setting socket_request (map as_chunk greetings) empty
    ≡ waits (map as_reply greetings)
unfolding program
process_websocket-echo_example =
    process_websocket-echo site_setting shown socket_request [] greetings empty site_set_up refl
      refl refl greetings-IsMessage

-- Two requests for the icon, one with a part of it.
abbrev icon_reads : List Recv
icon_reads =
    received (
      codes "GET /favicon.ico HTTP/1.1\r\nHost: a\r\nRange: bytes=1-\r\n\r\n"
      ++ codes "GET /favicon.ico HTTP/1.1\r\nHost: a\r\n\r\n")
    ∷ closed
    ∷ []

handle-cached_example :
    swap empty (handle site_setting 100 icon_reads empty)
    ≡ swap empty (handle site_setting 100 icon_reads after_icon)
handle-cached_example =
    handle-cached site_setting shown 100 icon_reads empty after_icon [] route-IsCache_example.0
      site_set_up empty-IsCache route-IsCache_example.1
