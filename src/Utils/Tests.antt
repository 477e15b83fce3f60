-- ===== src/Utils/Tests.antt =====
-- Runs of the text helpers, and the theorems at concrete inputs.
use gouda_http_server.Common.{◌≡◌, refl, true, List, [], ◌∷◌, ◌++◌, arith}
use gouda_http_server.Common.Bytes.{Bytes, codes}
use gouda_http_server.Common.SortedMap.{lex, find_entry, alter}
use gouda_http_server.Utils.Text.{
  trim, trim_front, trim_back, split_lines, split_parts, escape_string, to_hex,
  contains_ignore_case, contains,
}
use gouda_http_server.Utils.Url.{url_decode, url_encode, encode_byte, url_decode-url_encode}
use gouda_http_server.Utils.Query.{parts, store, read_pair, push_back, parse_query_params}
use gouda_http_server.Utils.Query.RoundTrip.{encode_pairs, store_all, parse-encode_pairs}
use gouda_http_server.Utils.Query.Values.{values, values_of, values-parse}

program : Unit {0}
unfolding trim trim_front trim_back split_lines split_parts escape_string to_hex
    contains_ignore_case contains url_decode url_encode encode_byte parts store read_pair push_back
    parse_query_params lex alter find_entry encode_pairs store_all
program = tt

trims : trim (codes "  a b ") ≡ codes "a b"
unfolding program
trims = refl

splits : split_lines (codes "a: 1\r\n\r\nb") ≡ codes "a: 1" ∷ [] ∷ codes "b" ∷ []
unfolding program
splits = refl

decodes : url_decode (codes "a%20b+c%zz%4") ≡ codes "a b c%zz%4"
unfolding program
decodes = refl

encodes : url_encode (codes "a b/z~") ≡ codes "a+b%2Fz~"
unfolding program
encodes = refl

prefers : contains_ignore_case (codes "Text/HTML,*/*") (codes "text/html") ≡ true
unfolding program
prefers = refl

parses :
    parse_query_params (codes "b=2&a=1&&=x& b = 3 &c") []
    ≡ (codes "a", codes "1" ∷ [])
      ∷ (codes "b", codes "2" ∷ codes "3" ∷ [])
      ∷ (codes "c", [] ∷ [])
      ∷ []
unfolding program
parses = refl

abbrev pairs : List (Bytes × Bytes)
pairs = (codes "q", codes "a&b") ∷ (codes "q", codes "c d") ∷ []

url_decode-url_encode_example :
    url_decode (url_encode (codes "a b") ++ codes "%41") ≡ codes "a b" ++ url_decode (codes "%41")
url_decode-url_encode_example = url_decode-url_encode (codes "a b") (codes "%41") (omega arith)

parse-encode_pairs_example : parse_query_params (encode_pairs pairs) [] ≡ store_all [] pairs
parse-encode_pairs_example =
    parse-encode_pairs pairs []
      (((λ e. cc), omega arith, omega arith), (((λ e. cc), omega arith, omega arith), tt))

values-parse_example :
    values (codes "q") (parse_query_params (encode_pairs pairs) []) ≡ values_of (codes "q") pairs
values-parse_example =
    values-parse (codes "q") pairs
      (((λ e. cc), omega arith, omega arith), (((λ e. cc), omega arith, omega arith), tt))
