-- ===== src/Http/Message.antt =====
-- `HttpRequest`, `HttpResponse` and their parts, of include/http_structs.hpp.
use gouda_http_server.Common.{ℕ, Option, none, [], ◌∷◌, ◌++◌}
use gouda_http_server.Common.Bytes.{Bytes, codes}
use gouda_http_server.Http.Headers.{HeaderMap, set_header}
use gouda_http_server.Http.Status.{HttpStatusCode, ok}
use gouda_http_server.Http.Words.{HttpMethod, HttpVersion, unknown, http_1_1}
use gouda_http_server.Utils.Query.{Params}

pub record HttpRequestRange : Type 0 where
  pub start : ℕ
  pub end : ℕ

pub record HttpStreamData : Type 0 where
  pub file_path : Bytes
  pub file_size : ℕ
  pub offset : ℕ

pub record WebSocketRequestData : Type 0 where
  pub key : Bytes
  pub version : Bytes
  pub protocol : Option Bytes
  pub extensions : Option Bytes

pub record WebSocketResponseData : Type 0 where
  pub accept_key : Bytes
  pub protocol : Option Bytes
  pub extensions : Option Bytes

pub record HttpRequest : Type 0 where
  pub method : HttpMethod
  pub version : HttpVersion
  pub path : Bytes
  pub headers : HeaderMap
  pub body : Bytes
  pub raw : Bytes
  pub range : Option HttpRequestRange
  pub query_params : Params
  pub form_params : Params
  pub websocket_data : Option WebSocketRequestData

-- The default member values.
abbrev pub empty_request : HttpRequest
empty_request = record {
  method = unknown;
  version = http_1_1;
  path = [];
  headers = [];
  body = [];
  raw = [];
  range = none;
  query_params = [];
  form_params = [];
  websocket_data = none;
}

-- `std::variant<std::string, HttpStreamData, WebSocketResponseData>`.
pub data ResponseBody : Type 0 where
  text : Bytes → ResponseBody
  stream : HttpStreamData → ResponseBody
  websocket : WebSocketResponseData → ResponseBody

pub record HttpResponse : Type 0 where
  pub status_code : HttpStatusCode
  pub content_type : Bytes
  pub headers : HeaderMap
  pub body : ResponseBody

-- Of include/http_constants.hpp; the last character of `POWERED_BY_TEXT` takes three bytes.
abbrev pub server_name_version : Bytes
server_name_version = codes "GoudaWebserver/1.0"

abbrev pub powered_by_text : Bytes
powered_by_text = codes "C++23 and " ++ 0xe2 ∷ 0x98 ∷ 0x95 ∷ []

abbrev pub content_type_plain_utf8 : Bytes
content_type_plain_utf8 = codes "text/plain; charset=utf-8"

-- `try_emplace` of both default headers.
unfoldable pub set_default_headers : HeaderMap → HeaderMap
set_default_headers headers =
    set_header (codes "Server") server_name_version
      (set_header (codes "X-Powered-By") powered_by_text headers)

-- The default constructor.
unfoldable pub default_response : HttpResponse
unfolding set_default_headers
default_response = record {
  status_code = ok;
  content_type = content_type_plain_utf8;
  headers = set_default_headers [];
  body = text [];
}

-- The constructors of a text and of a stream body.
unfoldable pub text_response : HttpStatusCode → Bytes → Bytes → HttpResponse
unfolding set_default_headers
text_response status_code body content_type = record {
  status_code = status_code;
  content_type = content_type;
  headers = set_header (codes "Content-Type") content_type (set_default_headers []);
  body = text body;
}

unfoldable pub stream_response : HttpStatusCode → HttpStreamData → Bytes → HttpResponse
unfolding set_default_headers
stream_response status_code body content_type = record {
  status_code = status_code;
  content_type = content_type;
  headers = set_header (codes "Content-Type") content_type (set_default_headers []);
  body = stream body;
}

-- The constructor of a WebSocket handshake.
unfoldable pub websocket_response : HttpStatusCode → WebSocketResponseData → HttpResponse
unfolding set_default_headers
websocket_response status_code ws_data = record {
  status_code = status_code;
  content_type = content_type_plain_utf8;
  headers =
      set_header (codes "Connection") (codes "Upgrade")
        (set_header (codes "Upgrade") (codes "websocket") (set_default_headers []));
  body = websocket ws_data;
}
