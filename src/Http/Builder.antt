-- ===== src/Http/Builder.antt =====
-- `HttpResponseBuilder::build` and `build_headers_only` of src/http_response_builder.cpp.
use gouda_http_server.Common.{Option, none, some, [], ◌∷◌, ◌++◌, length}
use gouda_http_server.Common.Bytes.{Bytes, codes}
use gouda_http_server.Common.Decimal.{to_string}
use gouda_http_server.Http.Headers.{HeaderMap}
use gouda_http_server.Http.Message.{HttpResponse, ResponseBody, text, stream, websocket}
use gouda_http_server.Http.Status.{status_number, status_code_to_string_view}
use gouda_http_server.Http.Words.{http_version_to_string_view, http_1_1}

abbrev pub crlf : Bytes
crlf = 13 ∷ 10 ∷ []

-- A header line in front of what follows it.
abbrev pub header_line : Bytes → Bytes → Bytes → Bytes
header_line key value rest = key ++ (codes ": " ++ (value ++ (crlf ++ rest)))

-- The status line.
unfoldable pub status_line : HttpResponse → Bytes → Bytes
status_line response rest =
    http_version_to_string_view http_1_1
    ++ (codes " "
        ++ (to_string (status_number response.status_code)
            ++ (codes " " ++ (status_code_to_string_view response.status_code ++ (crlf ++ rest)))))

-- The loop over the headers.
unfoldable pub header_lines : HeaderMap → Bytes → Bytes
header_lines [] rest = rest
header_lines ((key, value) ∷ headers) rest = header_line key value (header_lines headers rest)

-- A header that is written if it has a value.
abbrev pub optional_line : Bytes → Option Bytes → Bytes → Bytes
optional_line key none rest = rest
optional_line key (some value) rest = header_line key value rest

-- The cases of `std::visit`.
unfoldable pub body_part : ResponseBody → Bytes
body_part (text body) =
    header_line (codes "Content-Length") (to_string (length body)) (crlf ++ body)
body_part (stream body) = header_line (codes "Content-Length") (to_string body.file_size) crlf
body_part (websocket body) = header_line (codes "Sec-WebSocket-Accept") body.accept_key (
    optional_line (codes "Sec-WebSocket-Protocol") body.protocol
      (optional_line (codes "Sec-WebSocket-Extensions") body.extensions crlf))

unfoldable pub build : HttpResponse → Bytes
build response = status_line response (header_lines response.headers (body_part response.body))

unfoldable pub build_headers_only : HttpResponse → Bytes
build_headers_only response = status_line response (header_lines response.headers crlf)
