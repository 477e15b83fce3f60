-- ===== src/WebSocket/Parse/Length.antt =====
-- The extended payload length as a number, where the bytes widen to themselves.
use native.Mathlib.Nat.{mod-eq_of_lt}
use gouda_http_server.Common.{
  ℕ, ◌+◌, ◌*◌, ◌^◌, ◌<◌, ◌≡◌, refl, ap, bit_or, Bool, false, ◌⊎◌, ◌∷◌, arith,
}
use gouda_http_server.Common.Bits.{bit_or_shifted}
use gouda_http_server.Common.Bytes.{Bytes}
use gouda_http_server.WebSocket.Parse.{byte_at, wide, length_16, length_64}

-- The `char` with this byte is not negative.
abbrev pub IsPlain : Bool → ℕ → Type 0
IsPlain char_signed b = (char_signed ≡ false) ⊎ (b < 128)

module _ (char_signed : Bool) (frame_data : Bytes) where
  wide_plain :
      (i k b : ℕ)
      → byte_at frame_data i ≡ b
      → IsPlain char_signed b
      → b * 2 ^ k < 2 ^ 64
      → wide char_signed frame_data i k ≡ b * 2 ^ k
  wide_plain i k b e p h = rw e (ground (arith, mod-eq_of_lt h))

  pub length_16_plain :
      (hi lo : ℕ)
      → byte_at frame_data 2 ≡ hi
      → byte_at frame_data 3 ≡ lo
      → hi < 256
      → lo < 256
      → IsPlain char_signed hi
      → IsPlain char_signed lo
      → length_16 char_signed frame_data 2 ≡ hi * 256 + lo
  unfolding length_16
  length_16_plain hi lo e f h l p q =
      rw (wide_plain 2 8 hi e p (omega arith), wide_plain 3 0 lo f q (omega arith))
        (omega (arith, bit_or_shifted 8 hi (lo * 1) (omega arith)))

-- The next byte joins below what has been read.
joined :
    (k a b t : ℕ) → 2 ^ k ≡ 256 * t → b * t < 2 ^ k → bit_or (a * 2 ^ k) (b * t) ≡ (a * 256 + b) * t
joined k a b t e h = omega (arith, bit_or_shifted k a (b * t) h, ap (λ (u : ℕ). a * u) e)

-- A byte of a frame that widens to itself.
abbrev pub IsPlainByte : Bool → ℕ → Type 0
IsPlainByte char_signed b = (b < 256) × IsPlain char_signed b

module _ (char_signed : Bool) (rest : Bytes) (h0 h1 b0 b1 b2 b3 b4 b5 b6 b7 : ℕ) where
  abbrev frame_64 : Bytes
  frame_64 = h0 ∷ h1 ∷ b0 ∷ b1 ∷ b2 ∷ b3 ∷ b4 ∷ b5 ∷ b6 ∷ b7 ∷ rest

  pub length_64_plain :
      IsPlainByte char_signed b0
      → IsPlainByte char_signed b1
      → IsPlainByte char_signed b2
      → IsPlainByte char_signed b3
      → IsPlainByte char_signed b4
      → IsPlainByte char_signed b5
      → IsPlainByte char_signed b6
      → IsPlainByte char_signed b7
      → length_64 char_signed frame_64 2
        ≡ ((((((b0 * 256 + b1) * 256 + b2) * 256 + b3) * 256 + b4) * 256 + b5) * 256 + b6) * 256
          + b7
  unfolding length_64
  length_64_plain (l0, p0) (l1, p1) (l2, p2) (l3, p3) (l4, p4) (l5, p5) (l6, p6) (l7, p7) =
      rw
        (
          wide_plain char_signed frame_64 2 56 b0 refl p0 (omega arith),
          wide_plain char_signed frame_64 3 48 b1 refl p1 (omega arith),
          wide_plain char_signed frame_64 4 40 b2 refl p2 (omega arith),
          wide_plain char_signed frame_64 5 32 b3 refl p3 (omega arith),
          wide_plain char_signed frame_64 6 24 b4 refl p4 (omega arith),
          wide_plain char_signed frame_64 7 16 b5 refl p5 (omega arith),
          wide_plain char_signed frame_64 8 8 b6 refl p6 (omega arith),
          wide_plain char_signed frame_64 9 0 b7 refl p7 (omega arith),
          joined 56 b0 b1 (2 ^ 48) refl (omega arith),
          joined 48 (b0 * 256 + b1) b2 (2 ^ 40) refl (omega arith),
          joined 40 _ b3 (2 ^ 32) refl (omega arith),
          joined 32 _ b4 (2 ^ 24) refl (omega arith),
          joined 24 _ b5 (2 ^ 16) refl (omega arith),
          joined 16 _ b6 (2 ^ 8) refl (omega arith),
          joined 8 _ b7 (2 ^ 0) refl (omega arith),
        )
        (omega arith)
