-- ===== src/Utils/Url.antt =====
-- `url_decode` and `url_encode` of include/http_utils.hpp, and the round trip.
use gouda_http_server.Common.{
  ℕ, ◌+◌, ◌-◌, ◌*◌, ◌/◌, ◌%◌, ◌<◌, ◌≡◌, refl, ap, ◌∙◌, ◌≢◌, Bool, true, false, ◌&&◌, ◌||◌, [], ◌∷◌,
  ◌++◌, arith, leb, ltb, ◌==◌, if◌then◌else◌, Bool-cases, inl, inr, append_assoc,
}
use gouda_http_server.Common.Bytes.{Bytes, IsBytes, isdigit, isalnum, isxdigit}

-- The value of a hexadecimal digit, as `std::stoi(hex, nullptr, 16)` reads it.
abbrev pub hex_value : ℕ → ℕ
hex_value c = if isdigit c then c - b'0' else if leb b'a' c then c - b'a' + 10 else c - b'A' + 10

-- `i + 2 < sv.size()` is that two more bytes follow. Two digits never make `stoi` throw.
unfoldable pub url_decode : Bytes → Bytes
url_decode [] = []
url_decode (c ∷ []) = (if c == b'+' then 32 else c) ∷ []
url_decode (c ∷ h ∷ []) = (if c == b'+' then 32 else c) ∷ url_decode (h ∷ [])
url_decode (c ∷ h ∷ l ∷ s) = elim (c == b'%' && isxdigit h && isxdigit l) [
  | true ↦ (hex_value h * 16 + hex_value l) ∷ url_decode s
  | false ↦ (if c == b'+' then 32 else c) ∷ url_decode (h ∷ l ∷ s)
]

-- A digit of `%02X`.
abbrev pub hex_upper : ℕ → ℕ
hex_upper n = if ltb n 10 then n + b'0' else n + b'A' - 10

abbrev pub is_unreserved : ℕ → Bool
is_unreserved c = isalnum c || c == b'-' || c == b'_' || c == b'.' || c == b'~'

unfoldable pub encode_byte : ℕ → Bytes
encode_byte c =
    if is_unreserved c
    then c ∷ []
    else if c == 32
    then b'+' ∷ []
    else b'%' ∷ hex_upper (c / 16) ∷ hex_upper (c % 16) ∷ []

unfoldable pub url_encode : Bytes → Bytes
url_encode [] = []
url_encode (c ∷ s) = encode_byte c ++ url_encode s

-- A byte that is no escape stands for itself, a plus for a space.
decode_plain :
    (c : ℕ) (s : Bytes)
    → c ≢ b'%'
    → url_decode (c ∷ s) ≡ (if c == b'+' then 32 else c) ∷ url_decode s
unfolding url_decode
decode_plain c [] h = refl
decode_plain c (d ∷ []) h = refl
decode_plain c (d ∷ e ∷ s) h = ground arith

hex_upper_digit : (n : ℕ) → n < 16 → (isxdigit (hex_upper n) ≡ true) × (hex_value (hex_upper n) ≡ n)
hex_upper_digit n h = ground arith

decode_digits :
    (h l : ℕ) (s : Bytes)
    → isxdigit h ≡ true
    → isxdigit l ≡ true
    → url_decode (b'%' ∷ h ∷ l ∷ s) ≡ (hex_value h * 16 + hex_value l) ∷ url_decode s
unfolding url_decode
decode_digits h l s p q = ground arith

decode_escape :
    (c : ℕ) (s : Bytes)
    → c < 256
    → url_decode (b'%' ∷ hex_upper (c / 16) ∷ hex_upper (c % 16) ∷ s) ≡ c ∷ url_decode s
decode_escape c s h =
    let (x, u) = hex_upper_digit (c / 16) (omega arith) in
    let (y, v) = hex_upper_digit (c % 16) (omega arith) in
    let e : hex_value (hex_upper (c / 16)) * 16 + hex_value (hex_upper (c % 16)) ≡ c =
      omega (arith, u, v) in
    decode_digits _ _ s x y ∙ ap (λ (d : ℕ). d ∷ url_decode s) e

decode-encode_byte :
    (c : ℕ) (s : Bytes) → c < 256 → url_decode (encode_byte c ++ s) ≡ c ∷ url_decode s
unfolding encode_byte
decode-encode_byte c s h = elim (Bool-cases (is_unreserved c)) [
  | inl p ↦ rw p (ground (arith, decode_plain c s))
  | inr p ↦ rw p (elim (Bool-cases (c == 32)) [
    | inl q ↦ rw q (ground (arith, decode_plain b'+' s))
    | inr q ↦ rw q (decode_escape c s h)
  ])
]

-- What `url_encode` writes, `url_decode` reads back, whatever text follows.
pub url_decode-url_encode :
    (s rest : Bytes) → IsBytes s → url_decode (url_encode s ++ rest) ≡ s ++ url_decode rest
unfolding url_encode
url_decode-url_encode [] rest h = refl
url_decode-url_encode (c ∷ s) rest (hc, h) =
    rw (append_assoc (encode_byte c) (url_encode s) rest)
      (decode-encode_byte c (url_encode s ++ rest) hc ∙ ap (◌∷◌ c) (url_decode-url_encode s rest h))
