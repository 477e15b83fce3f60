-- ===== src/Common/Bytes.antt =====
-- Bytes and byte strings: `std::string` and `std::string_view` as lists of byte values, with the
-- members and the `<cctype>` functions (in the "C" locale) that the program calls.
use Prim.Native.Char.{code}
use Prim.Native.String.{String}
use gouda_http_server.Common.Tests.{ltb, leb, ◌==◌, if◌then◌else◌}
use gouda_http_server.Common.Lists.{length, All}
use Prim.Native.Nat.{ℕ, suc, ◌+◌, ◌<◌}
use mathlib.Core.Path.{◌≡◌, refl}
use mathlib.Core.Logic.{◌≢◌, ◌↔◌}
use mathlib.Core.Bool.{Bool, true, false, ◌&&◌, ◌||◌}
use mathlib.Core.Option.{Option, none, some}
use mathlib.Core.Option
use mathlib.Core.List.{List, [], ◌∷◌, ◌++◌}
use native.Mathlib.Omega.{arith}

abbrev pub Bytes : Type 0
Bytes = List ℕ

-- The bytes of an ASCII literal.
abbrev pub codes : String → Bytes
codes String.[] = []
codes (String.◌∷◌ c s) = code c ∷ codes s

abbrev pub IsBytes : Bytes → Type 0
IsBytes = All (λ b. b < 256)

-- `operator==` on strings.
abbrev pub eq : Bytes → Bytes → Bool
eq [] [] = true
eq [] (b ∷ t) = false
eq (a ∷ s) [] = false
eq (a ∷ s) (b ∷ t) = a == b && eq s t

pub eq_iff : (s t : Bytes) → (eq s t ≡ true) ↔ (s ≡ t)
eq_iff [] [] = ((λ h. refl), λ h. refl)
eq_iff [] (b ∷ t) = ((λ h. cc), λ h. cc)
eq_iff (a ∷ s) [] = ((λ h. cc), λ h. cc)
eq_iff (a ∷ s) (b ∷ t) = ground (arith, eq_iff s t)

pub eq_refl : (s : Bytes) → eq s s ≡ true
eq_refl s = (eq_iff s s).1 refl

-- `s.find(c)`, `npos` being `none`.
abbrev pub find_char : ℕ → Bytes → Option ℕ
find_char c [] = none
find_char c (b ∷ s) = if b == c then some 0 else Option.map suc (find_char c s)

-- `s.starts_with(p)`.
abbrev pub starts_with : Bytes → Bytes → Bool
starts_with [] s = true
starts_with (a ∷ p) [] = false
starts_with (a ∷ p) (b ∷ s) = a == b && starts_with p s

-- `s.find(p)`, for a non-empty `p`.
abbrev pub find : Bytes → Bytes → Option ℕ
find p [] = none
find p (b ∷ s) = if starts_with p (b ∷ s) then some 0 else Option.map suc (find p s)

abbrev pub isdigit : ℕ → Bool
isdigit c = leb b'0' c && leb c b'9'

abbrev pub isupper : ℕ → Bool
isupper c = leb b'A' c && leb c b'Z'

abbrev pub islower : ℕ → Bool
islower c = leb b'a' c && leb c b'z'

abbrev pub isalnum : ℕ → Bool
isalnum c = isdigit c || isupper c || islower c

-- Space, and \t \n \v \f \r.
abbrev pub isspace : ℕ → Bool
isspace c = c == 32 || (leb 9 c && leb c 13)

abbrev pub isxdigit : ℕ → Bool
isxdigit c = isdigit c || (leb b'A' c && leb c b'F') || (leb b'a' c && leb c b'f')

abbrev pub isprint : ℕ → Bool
isprint c = leb 32 c && ltb c 127

abbrev pub tolower : ℕ → ℕ
tolower c = if isupper c then c + 32 else c

pub tolower_idem : (c : ℕ) → tolower (tolower c) ≡ tolower c
tolower_idem c = ground arith

abbrev pub Without : ℕ → Bytes → Type 0
Without c = All (λ b. b ≢ c)

pub find_char-first :
    (c : ℕ) (s t : Bytes) → Without c s → find_char c (s ++ c ∷ t) ≡ some (length s)
find_char-first c [] t h = ground arith
find_char-first c (b ∷ s) t h = ground (arith, find_char-first c s t h.1)

pub find_char-none : (c : ℕ) (s : Bytes) → Without c s → find_char c s ≡ none
find_char-none c [] h = refl
find_char-none c (b ∷ s) h = ground (arith, find_char-none c s h.1)
