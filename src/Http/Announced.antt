-- ===== src/Http/Announced.antt =====
-- What a built response announces of its body.
use gouda_http_server.Common.{
  ◌<◌, ◌^◌, ◌≡◌, refl, ap, ◌∙◌, some, [], ◌∷◌, ◌++◌, append_assoc, length,
}
use gouda_http_server.Common.Bytes.{Bytes, codes}
use gouda_http_server.Common.Decimal.{to_string, stoull, stoull-to_string}
use gouda_http_server.Http.Headers.{HeaderMap}
use gouda_http_server.Http.Message.{HttpResponse, text}
use gouda_http_server.Http.Status.{status_number, status_code_to_string_view}
use gouda_http_server.Http.Words.{http_version_to_string_view, http_1_1}
use gouda_http_server.Http.Builder.{
  crlf, header_line, status_line, header_lines, body_part, build, build_headers_only,
}

header_line-append :
    (key value s t : Bytes) → header_line key value (s ++ t) ≡ header_line key value s ++ t
header_line-append key value s t =
    rw (append_assoc key (codes ": " ++ (value ++ (crlf ++ s))) t, append_assoc value (crlf ++ s) t)

header_lines-append :
    (headers : HeaderMap) (s t : Bytes)
    → header_lines headers (s ++ t) ≡ header_lines headers s ++ t
unfolding header_lines
header_lines-append [] s t = refl
header_lines-append ((key, value) ∷ headers) s t =
    ap (header_line key value) (header_lines-append headers s t)
    ∙ header_line-append key value (header_lines headers s) t

status_line-append :
    (r : HttpResponse) (s t : Bytes) → status_line r (s ++ t) ≡ status_line r s ++ t
unfolding status_line
status_line-append r s t =
    three (http_version_to_string_view http_1_1) (to_string (status_number r.status_code))
      (status_code_to_string_view r.status_code)
  where
    three :
        (a b c : Bytes)
        → a ++ 32 ∷ (b ++ 32 ∷ (c ++ 13 ∷ 10 ∷ (s ++ t)))
          ≡ (a ++ 32 ∷ (b ++ 32 ∷ (c ++ 13 ∷ 10 ∷ s))) ++ t
    three a b c = rw (
      append_assoc a (32 ∷ (b ++ 32 ∷ (c ++ 13 ∷ 10 ∷ s))) t,
      append_assoc b (32 ∷ (c ++ 13 ∷ 10 ∷ s)) t,
      append_assoc c (13 ∷ 10 ∷ s) t,
    )

-- What `build` and `build_headers_only` write in front of the body.
head_of : HttpResponse → Bytes
head_of r = status_line r (header_lines r.headers [])

head_of-append :
    (r : HttpResponse) (rest : Bytes)
    → status_line r (header_lines r.headers rest) ≡ head_of r ++ rest
unfolding head_of
head_of-append r rest =
    ap (status_line r) (header_lines-append r.headers [] rest)
    ∙ status_line-append r (header_lines r.headers []) rest

-- A text response of fewer than 2 ^ 64 bytes is built as the head that `build_headers_only` writes,
-- a `Content-Length` whose digits `std::stoull` reads as the length of the body, an empty line, and
-- the body; `build_headers_only` writes the head and the empty line, with no `Content-Length`.
pub build-announced :
    (r : HttpResponse) (body : Bytes)
    → r.body ≡ text body
    → length body < 2 ^ 64
    → (head : Bytes) × (digits : Bytes) × (build_headers_only r ≡ head ++ crlf)
      × (build r ≡ head ++ header_line (codes "Content-Length") digits (crlf ++ body))
      × (stoull digits ≡ some (length body))
unfolding build build_headers_only body_part
build-announced r body e small = (
  head_of r,
  to_string (length body),
  head_of-append r crlf,
  ap (λ b. status_line r (header_lines r.headers (body_part b))) e ∙ head_of-append r _,
  stoull-to_string (length body) small,
)
