-- ===== src/Common/Options.antt =====
-- `std::optional` as a chain of steps: `nullopt` leaves the chain.
use mathlib.Core.Bool.{Bool, true, false}
use mathlib.Core.Option.{Option, none, some, some-injective}
use mathlib.Core.Path.{◌≡◌, refl, subst}
use gouda_http_server.Common.Tests.{if◌then◌else◌}

infixl 5 ◌>>=◌ ◌>>◌
abbrev pub ◌>>=◌ {ℓ κ} : {A : Type ℓ} {B : Type κ} → Option A → (A → Option B) → Option B
none >>= f = none
some a >>= f = f a

abbrev pub ◌>>◌ {ℓ} : {B : Type ℓ} → Option (Unit {0}) → Option B → Option B
m >> k = m >>= λ _. k

-- A check that returns `nullopt` when it fails.
abbrev pub guard : Bool → Option (Unit {0})
guard b = if b then some tt else none

-- Inversion of a chain that gives a value.
pub >>=-eq-some {ℓ κ} :
    {A : Type ℓ} {B : Type κ} (m : Option A) (f : A → Option B) {b : B}
    → (m >>= f) ≡ some b
    → (a : A) × (m ≡ some a) × (f a ≡ some b)
>>=-eq-some none f h = cc
>>=-eq-some (some a) f h = (a, refl, h)

-- Either branch gave the value.
pub if-eq-some {ℓ κ} :
    {A : Type ℓ} {C : Type κ} (c : Bool) {x y : Option A} {a : A}
    → (if c then x else y) ≡ some a
    → (c ≡ true → x ≡ some a → C)
    → (c ≡ false → y ≡ some a → C)
    → C
if-eq-some true h f g = f refl h
if-eq-some false h f g = g refl h

-- What holds of a value that is returned holds of the result.
pub some-subst {ℓ κ} : {A : Type ℓ} (P : A → Type κ) {x y : A} → some x ≡ some y → P x → P y
some-subst P {x} {y} h p = subst P (some-injective x y h) p
