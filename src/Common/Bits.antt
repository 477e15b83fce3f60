-- ===== src/Common/Bits.antt =====
-- Laws of the bitwise operations at variables: `|` of a shifted field and a field below it, `|` as
-- an upper bound, and `^` as its own inverse on bytes.
use Prim.Native.Nat.{
  ℕ, zero, suc, ◌+◌, ◌*◌, ◌/◌, ◌%◌, ◌^◌, ◌≤◌, ◌<◌, max, bit_or, bit_xor, digits, bit_or-bitwise,
}
use mathlib.Core.Path.{◌≡◌, refl, ap, sym, ◌∙◌}
use mathlib.Core.Bool.{Bool, true, false}
use native.Mathlib.Omega.{arith}
use native.Mathlib.Nat.{pow-suc}
use gouda_http_server.Common.Tests.{◌==◌, ==_iff, if◌then◌else◌}

-- Whether a test passes on every number below a bound.
passes : (ℕ → Bool) → ℕ → Bool
passes test zero = true
passes test (suc n) = if test n then passes test n else false

passes_at : (test : ℕ → Bool) (n x : ℕ) → x < n → passes test n ≡ true → test x ≡ true
unfolding passes
passes_at test zero x below e = absurd (omega arith)
passes_at test (suc n) x below e = ground (arith, passes_at test n x)

unmasks : ℕ → ℕ → Bool
unmasks k x = bit_xor (bit_xor x k) k == x

every_key_unmasks : passes (λ k. passes (unmasks k) 256) 256 ≡ true
unfolding passes unmasks
every_key_unmasks = refl

-- Masking a byte twice with one key byte gives it back.
pub bit_xor_twice : (x k : ℕ) → x < 256 → k < 256 → bit_xor (bit_xor x k) k ≡ x
unfolding unmasks
bit_xor_twice x k hx hk = (==_iff _ x).0 (
    passes_at (unmasks k) 256 x hx
      (passes_at (λ j. passes (unmasks j) 256) 256 k hk every_key_unmasks))

-- `bit_or` goes digit by digit, in `n` rounds.
abbrev rounds : ℕ → ℕ → ℕ → ℕ
rounds = digits (λ d. d) max

rounds-zero : (n b : ℕ) → rounds n 0 b ≡ b
rounds-zero zero b = refl
rounds-zero (suc n) b = refl

-- From `a` rounds on, their number does not matter.
rounds_agree : (a b n m : ℕ) → a ≤ n → a ≤ m → rounds n a b ≡ rounds m a b
rounds_agree zero b n m hn hm = rounds-zero n b ∙ sym (rounds-zero m b)
rounds_agree (suc a) b zero m hn hm = absurd (omega arith)
rounds_agree (suc a) b (suc n) zero hn hm = absurd (omega arith)
rounds_agree (suc a) b (suc n) (suc m) hn hm =
    let halves = rounds_agree (suc a / 2) (b / 2) n m (omega arith) (omega arith) in
    omega (arith, halves)

zero-bit_or : (b : ℕ) → bit_or 0 b ≡ b
zero-bit_or = bit_or-bitwise 0

-- The lowest digit, and the halves.
bit_or_step : (a b : ℕ) → bit_or a b ≡ max (a % 2) (b % 2) + 2 * bit_or (a / 2) (b / 2)
bit_or_step zero b = omega (zero-bit_or b, zero-bit_or (b / 2), arith)
bit_or_step (suc a) b =
    let half = suc a / 2 in
    omega (
      rounds_agree half (b / 2) a half (omega arith) (omega arith),
      bit_or-bitwise half (b / 2),
      bit_or-bitwise (suc a) b,
      arith,
    )

bit_or_bounds_below : (n a b : ℕ) → a ≤ n → (a ≤ bit_or a b) × (b ≤ bit_or a b)
bit_or_bounds_below n zero b h = omega (arith, zero-bit_or b)
bit_or_bounds_below zero (suc a) b h = absurd (omega arith)
bit_or_bounds_below (suc n) (suc a) b h = omega (
  arith,
  bit_or_step (suc a) b,
  (bit_or_bounds_below n (suc a / 2) (b / 2) (omega arith)).0,
  (bit_or_bounds_below n (suc a / 2) (b / 2) (omega arith)).1,
)

-- `a | b` is at least `a` and at least `b`.
pub bit_or_bounds : (a b : ℕ) → (a ≤ bit_or a b) × (b ≤ bit_or a b)
bit_or_bounds a b = bit_or_bounds_below a a b (omega arith)

bit_or-zero_below : (n a : ℕ) → a ≤ n → bit_or a 0 ≡ a
bit_or-zero_below n zero h = refl
bit_or-zero_below zero (suc a) h = absurd (omega arith)
bit_or-zero_below (suc n) (suc a) h =
    omega (arith, bit_or_step (suc a) 0, bit_or-zero_below n (suc a / 2) (omega arith))

doubled : (a k : ℕ) → a * 2 ^ suc k ≡ 2 * (a * 2 ^ k)
doubled a k = omega (arith, ap (λ (t : ℕ). a * t) (pow-suc 2 k))

-- A field shifted past `k` bits and a field of `k` bits join as a sum.
pub bit_or_shifted : (k a b : ℕ) → b < 2 ^ k → bit_or (a * 2 ^ k) b ≡ a * 2 ^ k + b
bit_or_shifted zero a b h = ground (arith, bit_or-zero_below a a (omega arith))
bit_or_shifted (suc k) a b h = ground (
  arith,
  bit_or_step (a * 2 ^ suc k) b,
  doubled a k,
  pow-suc 2 k,
  bit_or_shifted k a (b / 2) (omega arith),
)
