-- ===== src/Utils/Query.antt =====
-- `parse_query_params` of include/http_utils.hpp. The parameters are a `std::map` from keys to
-- lists of values; the view `query.substr(start)` of a round is what is left of the list.
pub mod RoundTrip
pub mod Values
use mathlib.Core.Option
use mathlib.Core.List.{foldl}
use gouda_http_server.Common.{
  ℕ, suc, Bool, true, false, Option, none, some, List, [], ◌∷◌, ◌++◌, ◌==◌, if◌then◌else◌, take,
  drop,
}
use gouda_http_server.Common.Bytes.{Bytes, find_char}
use gouda_http_server.Common.SortedMap.{alter, find_entry}
use gouda_http_server.Utils.Text.{trim, before_first}
use gouda_http_server.Utils.Url.{url_decode}

abbrev pub Params : Type 0
Params = List (Bytes × List Bytes)

-- `std::less` compares the keys as they are.
abbrev pub plain : Bytes → Bytes
plain k = k

-- `params[key].push_back(value)`.
unfoldable pub push_back : Bytes → Bytes → Params → Params
push_back key value params =
    alter plain key (λ values. Option.get_or values [] ++ value ∷ []) params

-- The parts of the query, one to a round of the loop: nothing follows a last "&".
unfoldable pub parts : Bytes → List Bytes
parts [] = []
parts (c ∷ s) = if c == b'&' then [] ∷ parts s else before_first c (parts s)

-- A pair is stored if its decoded key is not empty.
unfoldable pub store : Bytes → Bytes → Params → Params
store [] value params = params
store (c ∷ key) value params = push_back (c ∷ key) value params

-- The trimmed part, behind the test `pair.empty()`.
unfoldable pub read_pair : Bytes → Params → Params
read_pair [] params = params
read_pair (c ∷ s) params =
    let pair = c ∷ s in
    elim (find_char b'=' pair) [
      | none ↦ store (url_decode (trim pair)) [] params
      | some eq_pos ↦
          store (url_decode (trim (take eq_pos pair))) (url_decode (trim (drop (suc eq_pos) pair)))
            params
    ]

abbrev pub read_part : Params → Bytes → Params
read_part params part = read_pair (trim part) params

unfoldable pub parse_query_params : Bytes → Params → Params
parse_query_params query params = foldl read_part params (parts query)
