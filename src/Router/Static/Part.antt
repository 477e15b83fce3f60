-- ===== src/Router/Static/Part.antt =====
-- The answers to a range request, from the content of a file and as a stream.
use gouda_http_server.Common.{
  zero, suc, ◌≢◌, [], subst, get_or-take, get_or-drop, ℕ, ◌+◌, ◌-◌, ◌^◌, ◌≤◌, ◌<◌, ◌≡◌, refl, Bool,
  false, Option, none, some, length, take, drop, get_or, length-take, length-drop, arith, ◌∙◌,
  le→leb,
}
use gouda_http_server.Common.Bytes.{Bytes}
use gouda_http_server.Http.Message.{
  HttpRequestRange, HttpResponse, ResponseBody, text, stream, websocket, text_response,
  stream_response,
}
use gouda_http_server.Http.Status.{partial_content}
use gouda_http_server.Common.Decimal.{to_string}
use gouda_http_server.Parser.{parse_range}
use gouda_http_server.Parser.Range.{print_range, parse_range-print_range}
use gouda_http_server.Router.Outside.{FileSystem, Library}
use gouda_http_server.Router.Responses.{
  is_unsatisfiable, last_byte, whole_headers, part_headers, cache_control, serve_content,
  serve_stream,
}

-- The text of a `Range` header: "bytes=first-last", or "bytes=first-" with no last byte.
abbrev pub range_text : ℕ → Option ℕ → Bytes
range_text first none = print_range (to_string first) []
range_text first (some last) = print_range (to_string first) (to_string last)

-- The last byte that the header asks for, of a file of `n` bytes.
abbrev pub last_asked : Option ℕ → ℕ → ℕ
last_asked none n = n - 1
last_asked (some last) n = last

-- The bytes from `first` to `last`, both of them included.
abbrev pub IsPart : ℕ → ℕ → Bytes → Bytes → Type 0
IsPart first last content s =
    (length s ≡ last - first + 1)
    × ((i : ℕ) → i ≤ last - first → get_or s i 0 ≡ get_or content (first + i) 0)

-- The bytes that are sent for a body.
abbrev pub body_bytes : FileSystem → ResponseBody → Option Bytes
body_bytes fs (text s) = some s
body_bytes fs (stream s) = elim (fs.read_file s.file_path) [
  | none ↦ none
  | some content ↦ some (take s.file_size (drop s.offset content))
]
body_bytes fs (websocket w) = none

take-drop-IsPart :
    (first last : ℕ) (content : Bytes)
    → first ≤ last
    → last < length content
    → IsPart first last content (take (last - first + 1) (drop first content))
take-drop-IsPart first last content h l =
    let rest = drop first content in
    (
      omega (arith, length-take (last - first + 1) rest, length-drop first content),
      λ i k. get_or-take (last - first + 1) i rest 0 (omega arith) ∙ get_or-drop first i content 0,
    )

-- How the code reads a header whose last byte is not written as 0.
parse_range-last_byte :
    (first n : ℕ) (end : Option ℕ)
    → n < 2 ^ 64
    → end ≢ some 0
    → first ≤ last_asked end n
    → last_asked end n < n
    → (range : HttpRequestRange) × (parse_range (range_text first end) ≡ some range)
      × (range.start ≡ first)
      × (last_byte range n ≡ last_asked end n)
parse_range-last_byte first n none small ne h l =
    (_, (parse_range-print_range first 0 (omega arith) (omega arith)).1, refl, omega arith)
parse_range-last_byte first n (some zero) small ne h l = absurd (ne refl)
parse_range-last_byte first n (some (suc last)) small ne h l = (
  _,
  (parse_range-print_range first (suc last) (omega arith) (omega arith)).0,
  refl,
  ground arith,
)

is_unsatisfiable-eq-false :
    (range : HttpRequestRange) (n : ℕ)
    → range.start ≤ last_byte range n
    → last_byte range n < n
    → is_unsatisfiable range n ≡ false
is_unsatisfiable-eq-false range n h l = ground arith

module _ (fs : FileSystem) (library : Library) (prefers_html : Bool) (content_type path : Bytes)
    (last_modified : ℕ) (content : Bytes) where
  serve_content-last_byte :
      (range : HttpRequestRange)
      → fs.read_file path ≡ some content
      → range.start ≤ last_byte range (length content)
      → last_byte range (length content) < length content
      → (r : HttpResponse) × (s : Bytes) × (serve_content library prefers_html
            (some range)
            content_type
            (length content)
            last_modified
            content
          ≡ some r)
        × (r.status_code ≡ partial_content)
        × (r.body ≡ text s)
        × IsPart range.start (last_byte range (length content)) content s
        × (body_bytes fs
              (serve_stream library prefers_html
                (some range)
                content_type
                (length content)
                last_modified
                path).body
            ≡ some s)
  unfolding serve_content serve_stream part_headers whole_headers cache_control text_response
      stream_response
  serve_content-last_byte range e h l =
      let n = length content in
      let s = take (last_byte range n - range.start + 1) (drop range.start content) in
      rw (is_unsatisfiable-eq-false range n h l, le→leb range.start n (omega arith))
        (_, s, refl, refl, refl, take-drop-IsPart range.start (last_byte range n) content h l, rw e)

  -- Let the file have fewer than 2^64 bytes, and let the `Range` header be "bytes=first-last", with
  -- `last` not 0, or "bytes=first-", which asks for all bytes from `first` on. Let the bytes that it
  -- asks for be there. Then the header is read as a range for which the content in memory gives a
  -- response 206 with exactly the bytes from the first to the last, both of them included, and so
  -- does the stream, when it reads the file with that content.
  pub serve_content-IsPart :
      (first : ℕ) (end : Option ℕ)
      → length content < 2 ^ 64
      → fs.read_file path ≡ some content
      → end ≢ some 0
      → first ≤ last_asked end (length content)
      → last_asked end (length content) < length content
      → (range : HttpRequestRange) × (parse_range (range_text first end) ≡ some range)
        × (r : HttpResponse) × (s : Bytes) × (serve_content library prefers_html
              (some range)
              content_type
              (length content)
              last_modified
              content
            ≡ some r)
        × (r.status_code ≡ partial_content)
        × (r.body ≡ text s)
        × IsPart first (last_asked end (length content)) content s
        × (body_bytes fs
              (serve_stream library prefers_html
                (some range)
                content_type
                (length content)
                last_modified
                path).body
            ≡ some s)
  serve_content-IsPart first end small e ne h l =
      let (range, read, start, last) =
        parse_range-last_byte first (length content) end small ne h l in
      let (r, s, ok, status, body, part, streamed) =
        serve_content-last_byte range e (omega (arith, start, last, h)) (omega (arith, last, l)) in
      (
        range,
        read,
        r,
        s,
        ok,
        status,
        body,
        subst (λ a. IsPart a (last_asked end (length content)) content s) start
            (subst (λ b. IsPart range.start b content s) last part),
        streamed,
      )
