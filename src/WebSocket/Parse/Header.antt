-- ===== src/WebSocket/Parse/Header.antt =====
-- The two to ten bytes before the masking key: what the builder writes is what the parser reads.
use gouda_http_server.Common.{
  ℕ, suc, ◌+◌, ◌/◌, ◌%◌, ◌^◌, ◌≤◌, ◌<◌, ◌≡◌, refl, ◌∙◌, bit_or, Bool, true, false, inl, inr, some,
  ◌∷◌, ◌++◌, arith, length, leb, if◌then◌else◌, Bool-cases,
}
use gouda_http_server.Common.Bits.{bit_or_shifted}
use gouda_http_server.Common.Bytes.{Bytes}
use gouda_http_server.WebSocket.Build.{be_bytes, length_bytes}
use gouda_http_server.WebSocket.Parse.{
  byte_at, bit, extended_length, length_16, length_64, default_max_websocket_payload_size,
}
use gouda_http_server.WebSocket.Parse.Length.{
  IsPlain, IsPlainByte, length_16_plain, length_64_plain,
}

-- Both length bytes of a short extended length are below 128, or `char` is unsigned, or the length
-- stands in the second byte.
pub data IsReadable (char_signed : Bool) (len : ℕ) : Type 0 where
  unsigned : char_signed ≡ false → IsReadable char_signed len
  short : len ≤ 125 → IsReadable char_signed len
  low_bytes : len % 256 < 128 → len / 256 % 256 < 128 → IsReadable char_signed len

IsReadable-low :
    {char_signed : Bool} {len : ℕ}
    → IsReadable char_signed len
    → 125 < len
    → IsPlain char_signed (len / 256 % 256) × IsPlain char_signed (len % 256)
IsReadable-low (unsigned e) h = (inl e, inl e)
IsReadable-low (short l) h = absurd (omega arith)
IsReadable-low (low_bytes lo hi) h = (inr hi, inr lo)

medium_length :
    (char_signed : Bool) (first len : ℕ) (rest : Bytes)
    → IsReadable char_signed len
    → 125 < len
    → len ≤ 0xffff
    → length_16 char_signed (first ∷ 254 ∷ len / 256 % 256 ∷ len % 256 ∷ rest) 2 ≡ len
medium_length char_signed first len rest r l h = omega (
  arith,
  length_16_plain char_signed (first ∷ 254 ∷ len / 256 % 256 ∷ len % 256 ∷ rest) (len / 256 % 256)
      (len % 256) refl refl (omega arith) (omega arith) (IsReadable-low r l).0
      (IsReadable-low r l).1,
)

long_length :
    (char_signed : Bool) (first len : ℕ) (rest : Bytes)
    → IsReadable char_signed len
    → 0xffff < len
    → len ≤ default_max_websocket_payload_size
    → length_64 char_signed (first ∷ 255 ∷ (be_bytes 8 len ++ rest)) 2 ≡ len
unfolding be_bytes
long_length char_signed first len rest r l h =
    length_64_plain char_signed rest first 255 _ _ _ _ _ _ _ _ (small 56 (omega arith))
      (small 48 (omega arith)) (small 40 (omega arith)) (small 32 (omega arith))
      (small 24 (omega arith)) (small 16 (omega arith))
      (omega arith, (IsReadable-low r (omega arith)).0)
      (omega arith, at_zero (IsReadable-low r (omega arith)).1)
    ∙ omega arith
  where
    small : (k : ℕ) → len / 2 ^ k % 256 < 128 → IsPlainByte char_signed (len / 2 ^ k % 256)
    small k p = (omega arith, inr p)

    at_zero : IsPlain char_signed (len % 256) → IsPlain char_signed (len / 1 % 256)
    at_zero p = let e : len / 1 ≡ len = omega arith in rw e p

-- The header that the builder writes gives back the length, and the offset behind it.
pub header_length :
    (char_signed : Bool) (first len : ℕ) (rest : Bytes)
    → IsReadable char_signed len
    → len ≤ default_max_websocket_payload_size
    → extended_length char_signed
        (first ∷ (length_bytes 0x80 len ++ rest))
        (byte_at (length_bytes 0x80 len) 0 % 2 ^ 7)
      ≡ some (len, suc (length (length_bytes 0x80 len)))
unfolding extended_length length_bytes
header_length char_signed first len rest r h = elim (Bool-cases (leb len 125)) [
  | inl p ↦
      let e : bit_or 128 len ≡ 128 + len = omega (arith, bit_or_shifted 7 1 len (ground arith)) in
      rw p (ground (arith, e))
  | inr p ↦ rw p (elim (Bool-cases (leb len 0xffff)) [
    | inl q ↦
        rw (q, medium_length char_signed first len rest r (ground arith) (ground arith))
          (ground arith)
    | inr q ↦
        rw (q, long_length char_signed first len rest r (ground arith) h)
          (unfold be_bytes in ground arith)
  ])
]

-- The second byte has the mask bit, and stands first.
pub length_bytes_shape :
    (len : ℕ) (rest : Bytes)
    → (byte_at (length_bytes 0x80 len ++ rest) 0 ≡ byte_at (length_bytes 0x80 len) 0)
      × (bit (byte_at (length_bytes 0x80 len) 0) 7 ≡ true)
      × (1 ≤ length (length_bytes 0x80 len))
      × (length (length_bytes 0x80 len) ≤ 9)
unfolding length_bytes be_bytes
length_bytes_shape len rest = elim (Bool-cases (leb len 125)) [
  | inl p ↦
      let e : bit_or 128 len ≡ 128 + len = omega (arith, bit_or_shifted 7 1 len (ground arith)) in
      rw p (refl, ground (arith, e), omega arith, omega arith)
  | inr p ↦ rw p (elim (Bool-cases (leb len 0xffff)) [
    | inl q ↦ rw q (refl, refl, omega arith, omega arith)
    | inr q ↦ rw q (refl, refl, omega arith, omega arith)
  ])
]

unfoldable pub first_byte : Bool → ℕ → ℕ
first_byte fin opcode = bit_or (if fin then 0x80 else 0x00) (opcode % 2 ^ 4)

first_byte_lem :
    (fin : Bool) (opcode : ℕ) → first_byte fin opcode ≡ (if fin then 128 else 0) + opcode % 16
unfolding first_byte
first_byte_lem true opcode = omega (arith, bit_or_shifted 7 1 (opcode % 16) (omega arith))
first_byte_lem false opcode = omega (arith, bit_or_shifted 7 0 (opcode % 16) (omega arith))

pub first_byte_fields :
    (fin : Bool) (opcode : ℕ)
    → opcode < 16
    → (bit (first_byte fin opcode) 7 ≡ fin)
      × (bit (first_byte fin opcode) 6 ≡ false)
      × (bit (first_byte fin opcode) 5 ≡ false)
      × (bit (first_byte fin opcode) 4 ≡ false)
      × (first_byte fin opcode % 2 ^ 4 ≡ opcode)
first_byte_fields true opcode h = rw first_byte_lem (ground arith)
first_byte_fields false opcode h = rw first_byte_lem (ground arith)
