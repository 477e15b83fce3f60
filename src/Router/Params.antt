-- ===== src/Router/Params.antt =====
-- The path parameters of `Router::add_route`, include/router.hpp: `:name` in a path is taken out by
-- `param_regex`, `:([a-zA-Z_][a-zA-Z0-9_]*)`.
pub mod Segments
use gouda_http_server.Common.{
  ℕ, Bool, true, false, ◌&&◌, ◌||◌, List, [], ◌∷◌, ◌++◌, ◌==◌, if◌then◌else◌,
}
use gouda_http_server.Common.Bytes.{Bytes, codes, isalnum, isupper, islower}

abbrev pub is_name_start : Bytes → Bool
is_name_start [] = false
is_name_start (c ∷ s) = isupper c || islower c || c == b'_'

abbrev pub is_name_char : ℕ → Bool
is_name_char c = isalnum c || c == b'_'

-- The longest run of characters of a name.
unfoldable pub name_at : Bytes → Bytes
name_at [] = []
name_at (c ∷ s) = let rest = name_at s in if is_name_char c then c ∷ rest else []

-- The matches of `std::sregex_iterator`. No colon stands in a name, so the search may go on in it.
unfoldable pub param_names : Bytes → List Bytes
param_names [] = []
param_names (c ∷ s) =
    let rest = param_names s in if c == b':' && is_name_start s then name_at s ∷ rest else rest

-- `std::regex_replace`; the flag is that a name is being left out.
unfoldable pub replace_params : Bool → Bytes → Bytes
replace_params in_name [] = []
replace_params in_name (c ∷ s) =
    let left_out = replace_params true s in
    let kept = replace_params false s in
    if in_name && is_name_char c
    then left_out
    else if c == b':' && is_name_start s
    then codes "([^/]+)" ++ left_out
    else c ∷ kept

-- The pattern of a route.
unfoldable pub route_pattern : Bytes → Bytes
route_pattern path = codes "^" ++ (replace_params false path ++ codes "$")
