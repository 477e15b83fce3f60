-- ===== src/Common/Decimal.antt =====
-- Numbers in decimal: `std::to_string`, and `std::stoull` on a run of digits.
use Prim.Native.Nat.{ℕ, zero, suc, ◌+◌, ◌-◌, ◌*◌, ◌/◌, ◌%◌, ◌^◌, ◌<◌, ◌≤◌}
use mathlib.Core.Bool.{true, false}
use mathlib.Core.List.{[], ◌∷◌, ◌++◌}
use mathlib.Core.Logic.{inl, inr}
use mathlib.Core.Option.{Option, none, some}
use mathlib.Core.Path.{◌≡◌, refl, ◌∙◌}
use native.Mathlib.Omega.{arith}
use gouda_http_server.Common.Tests.{ltb, if◌then◌else◌, Bool-cases, lt→ltb, ltb→lt}
use gouda_http_server.Common.Lists.{All, All-append}
use gouda_http_server.Common.Bytes.{Bytes, isdigit}

-- The digits of a number, the last one first found; the number itself is fuel enough.
unfoldable pub digits_of : ℕ → ℕ → Bytes
digits_of zero n = (n % 10 + b'0') ∷ []
digits_of (suc fuel) n = elim (ltb n 10) [
  | true ↦ (n + b'0') ∷ []
  | false ↦ digits_of fuel (n / 10) ++ (n % 10 + b'0') ∷ []
]

unfoldable pub to_string : ℕ → Bytes
to_string n = digits_of n n

-- The value of a run of digits, behind what has been read.
unfoldable pub digits_value : ℕ → Bytes → ℕ
digits_value acc [] = acc
digits_value acc (c ∷ s) = digits_value (acc * 10 + (c - b'0')) s

-- `std::stoull` and, where `unsigned long` has 64 bits, `std::stoul` throw `out_of_range` at 2 ^ 64.
unfoldable pub stoull : Bytes → Option ℕ
stoull s = let n = digits_value 0 s in if ltb n (2 ^ 64) then some n else none

abbrev pub IsDigits : Bytes → Type 0
IsDigits = All (λ c. isdigit c ≡ true)

digits_value-append :
    (acc : ℕ) (s t : Bytes) → digits_value acc (s ++ t) ≡ digits_value (digits_value acc s) t
unfolding digits_value
digits_value-append acc [] t = refl
digits_value-append acc (c ∷ s) t = digits_value-append (acc * 10 + (c - b'0')) s t

digits_of_last : (fuel n : ℕ) → n < 10 → digits_of (suc fuel) n ≡ (n + b'0') ∷ []
unfolding digits_of
digits_of_last fuel n h = ground arith

digits_of_more :
    (fuel n : ℕ) → 10 ≤ n → digits_of (suc fuel) n ≡ digits_of fuel (n / 10) ++ (n % 10 + b'0') ∷ []
unfolding digits_of
digits_of_more fuel n h = ground arith

digits_value-last : (n : ℕ) → n ≤ 0 → digits_value 0 (digits_of zero n) ≡ n
unfolding digits_of digits_value
digits_value-last n h = omega arith

digits_value-digits_of : (fuel n : ℕ) → n ≤ fuel → digits_value 0 (digits_of fuel n) ≡ n
unfolding digits_value
digits_value-digits_of zero n h = digits_value-last n h
digits_value-digits_of (suc fuel) n h = elim (Bool-cases (ltb n 10)) [
  | inl p ↦ rw (digits_of_last fuel n (ltb→lt n 10 p)) (omega arith)
  | inr p ↦
      rw
        (
          digits_of_more fuel n (ground arith),
          digits_value-append 0 (digits_of fuel (n / 10)) ((n % 10 + b'0') ∷ []),
        )
        (ground (arith, digits_value-digits_of fuel (n / 10)))
]

-- A number below 2 ^ 64 is read back from its decimal digits.
pub stoull-to_string : (n : ℕ) → n < 2 ^ 64 → stoull (to_string n) ≡ some n
unfolding stoull to_string
stoull-to_string n h = rw (digits_value-digits_of n n (omega arith), lt→ltb n (2 ^ 64) h)

digits_of-IsDigits : (fuel n : ℕ) → n ≤ fuel → IsDigits (digits_of fuel n)
unfolding digits_of
digits_of-IsDigits zero n h = ground arith
digits_of-IsDigits (suc fuel) n h = elim (Bool-cases (ltb n 10)) [
  | inl p ↦ rw (p, digits_of) (ground arith)
  | inr p ↦
      rw (p, digits_of)
        (All-append (λ c. isdigit c ≡ true) (digits_of fuel (n / 10)) ((n % 10 + b'0') ∷ [])
          (digits_of-IsDigits fuel (n / 10) (ground arith)) (ground arith))
]

pub to_string-IsDigits : (n : ℕ) → IsDigits (to_string n)
unfolding to_string
to_string-IsDigits n = digits_of-IsDigits n n (omega arith)

-- There is a first digit.
pub to_string-cons : (n : ℕ) → (c : ℕ) × (s : Bytes) × (to_string n ≡ c ∷ s)
unfolding to_string digits_of
to_string-cons zero = (b'0', [], refl)
to_string-cons (suc n) = elim (Bool-cases (ltb (suc n) 10)) [
  | inl p ↦ (suc n + b'0', [], digits_of_last n (suc n) (ltb→lt (suc n) 10 p))
  | inr p ↦
      let (c, s, e) = snoc (digits_of n (suc n / 10)) (suc n % 10 + b'0') in
      (c, s, digits_of_more n (suc n) (ground arith) ∙ e)
]
  where
    snoc : (s : Bytes) (d : ℕ) → (c : ℕ) × (t : Bytes) × (s ++ d ∷ [] ≡ c ∷ t)
    snoc [] d = (d, [], refl)
    snoc (c ∷ s) d = (c, s ++ d ∷ [], refl)
