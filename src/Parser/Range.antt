-- ===== src/Parser/Range.antt =====
-- The `Range` header, printed and read back.
use gouda_http_server.Common.{ℕ, ◌^◌, ◌<◌, ◌≡◌, refl, true, some, [], ◌∷◌, ◌++◌, append-nil}
use gouda_http_server.Common.Bytes.{Bytes, codes}
use gouda_http_server.Common.Decimal.{
  IsDigits, to_string, stoull-to_string, to_string-IsDigits, to_string-cons,
}
use gouda_http_server.Parser.{span_digits, nonempty, match_range, parse_range}

span_digits-append :
    (s t : Bytes) → IsDigits s → span_digits t ≡ ([], t) → span_digits (s ++ t) ≡ (s, t)
unfolding span_digits
span_digits-append [] t h e = e
span_digits-append (c ∷ s) t h e = rw (h.0, span_digits-append s t h.1 e)

span_digits_all : (s : Bytes) → IsDigits s → span_digits s ≡ (s, [])
unfolding span_digits
span_digits_all s h = rw (append-nil s) at (span_digits-append s [] h refl)

nonempty-to_string : (n : ℕ) → nonempty (to_string n) ≡ true
nonempty-to_string n = let (c, s, e) = to_string-cons n in rw e

abbrev pub print_range : Bytes → Bytes → Bytes
print_range start end = codes "bytes=" ++ (start ++ b'-' ∷ end)

match_range-print_range :
    (start end : Bytes)
    → IsDigits start
    → nonempty start ≡ true
    → IsDigits end
    → match_range (print_range start end) ≡ some (start, end)
unfolding match_range span_digits
match_range-print_range start end hs ne he = rw (
  span_digits-append start (b'-' ∷ end) hs refl,
  ne,
  span_digits_all end he,
  span_digits-append start (b'-' ∷ end) hs refl,
)

-- A range of 64-bit numbers is read back from its decimal digits, and one with no end has the end 0.
pub parse_range-print_range :
    (start end : ℕ)
    → start < 2 ^ 64
    → end < 2 ^ 64
    → (parse_range (print_range (to_string start) (to_string end))
        ≡ some (record { start = start; end = end }))
      × (parse_range (print_range (to_string start) []) ≡ some (record { start = start; end = 0 }))
unfolding parse_range
parse_range-print_range start end hs he = (
  rw (
    match_range-print_range (to_string start) (to_string end) (to_string-IsDigits start)
        (nonempty-to_string start) (to_string-IsDigits end),
    stoull-to_string start hs,
    nonempty-to_string end,
    stoull-to_string end he,
  ),
  rw (
    match_range-print_range (to_string start) [] (to_string-IsDigits start)
        (nonempty-to_string start) tt,
    stoull-to_string start hs,
  ),
)
