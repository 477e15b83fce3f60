-- ===== src/Http/Tests.antt =====
-- Runs of the response builder, and the theorems at concrete inputs.
use mathlib.Core.Option
use gouda_http_server.Common.{◌≡◌, refl, some, [], ◌∷◌, ◌++◌, arith, length}
use gouda_http_server.Common.Decimal.{stoull}
use gouda_http_server.Http.Message.{HttpResponse, text}
use gouda_http_server.Http.Builder.{crlf, header_line, build, build_headers_only}
use gouda_http_server.Http.Announced.{build-announced}
use gouda_http_server.Common.Bytes.{Bytes, codes}
use gouda_http_server.Http.Status.{ok}
use gouda_http_server.Http.Headers.{HeaderMap}

abbrev headers : HeaderMap
headers = (codes "Host", codes "a") ∷ []

-- A response of two bytes.
abbrev greeting : HttpResponse
greeting = record {
  status_code = ok;
  content_type = codes "text/plain";
  headers = headers;
  body = text (codes "hi");
}

build-announced_example :
    (head : Bytes) × (digits : Bytes) × (build_headers_only greeting ≡ head ++ crlf)
    × (build greeting ≡ head ++ header_line (codes "Content-Length") digits (crlf ++ codes "hi"))
    × (stoull digits ≡ some (length (codes "hi")))
build-announced_example = build-announced greeting (codes "hi") refl (omega arith)
