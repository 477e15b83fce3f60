-- ===== src/Utils/Text.antt =====
-- `trim`, `split_lines`, `to_lowercase`, `contains_ignore_case`, `escape_string` and `to_hex` of
-- include/http_utils.hpp.
use gouda_http_server.Common.{
  ℕ, ◌+◌, ◌-◌, ◌/◌, ◌%◌, Bool, true, false, ◌&&◌, List, [], ◌∷◌, ◌++◌, map, ltb, ◌==◌,
  if◌then◌else◌,
}
use gouda_http_server.Common.Bytes.{Bytes, codes, isspace, isprint, tolower, starts_with}

-- The loop of `remove_prefix`.
unfoldable pub trim_front : Bytes → Bytes
trim_front [] = []
trim_front (c ∷ s) = if isspace c then trim_front s else c ∷ s

-- The loop of `remove_suffix`: a blank goes where only blanks follow it.
unfoldable pub trim_back : Bytes → Bytes
trim_back [] = []
trim_back (c ∷ s) = elim (trim_back s) [ [] ↦ if isspace c then [] else c ∷ [] | d ∷ t ↦ c ∷ d ∷ t ]

unfoldable pub trim : Bytes → Bytes
trim s = trim_back (trim_front s)

-- A character in front of the first line.
abbrev pub before_first : ℕ → List Bytes → List Bytes
before_first c [] = (c ∷ []) ∷ []
before_first c (l ∷ ls) = (c ∷ l) ∷ ls

-- `views::split` by "\r\n"; an empty range has no parts.
unfoldable pub split_parts : Bytes → List Bytes
split_parts [] = [] ∷ []
split_parts (c ∷ []) = (c ∷ []) ∷ []
split_parts (c ∷ d ∷ s) = elim (c == 13 && d == 10) [
  | true ↦ [] ∷ split_parts s
  | false ↦ before_first c (split_parts (d ∷ s))
]

unfoldable pub split_lines : Bytes → List Bytes
split_lines [] = []
split_lines (c ∷ s) = split_parts (c ∷ s)

unfoldable pub to_lowercase : Bytes → Bytes
to_lowercase = map tolower

-- `ranges::search` with a non-empty result.
unfoldable pub contains : Bytes → Bytes → Bool
contains p [] = starts_with p []
contains p (c ∷ s) = if starts_with p (c ∷ s) then true else contains p s

unfoldable pub contains_ignore_case : Bytes → Bytes → Bool
contains_ignore_case [] [] = true
contains_ignore_case [] (c ∷ p) = false
contains_ignore_case (b ∷ s) [] = true
contains_ignore_case (b ∷ s) (c ∷ p) = contains (map tolower (c ∷ p)) (map tolower (b ∷ s))

-- A digit of `{:02x}`.
abbrev pub hex_lower : ℕ → ℕ
hex_lower n = if ltb n 10 then n + b'0' else n + b'a' - 10

unfoldable pub escape_string : Bytes → Bytes
escape_string [] = []
escape_string (c ∷ s) =
    let rest = escape_string s in
    if c == 13
    then codes "\\r" ++ rest
    else if c == 10
    then codes "\\n" ++ rest
    else if isprint c
    then c ∷ rest
    else codes "\\x" ++ hex_lower (c / 16) ∷ hex_lower (c % 16) ∷ rest

unfoldable pub to_hex : Bytes → Bytes
to_hex [] = []
to_hex (c ∷ s) = hex_lower (c / 16) ∷ hex_lower (c % 16) ∷ 32 ∷ to_hex s
