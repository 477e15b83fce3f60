-- ===== src/Utils/Query/Values.antt =====
-- The values that a parsed form holds under a key.
use mathlib.Core.Option
use gouda_http_server.Common.{
  ◌≡◌, sym, ap, ◌∙◌, inl, inr, List, [], ◌∷◌, ◌++◌, append_assoc, append-nil, if◌then◌else◌, arith,
  All, Bool-cases,
}
use gouda_http_server.Common.Bytes.{Bytes, eq, eq_iff}
use gouda_http_server.Common.SortedMap.{find_entry, find-alter}
use gouda_http_server.Utils.Query.{Params, plain, push_back, parse_query_params}
use gouda_http_server.Utils.Query.RoundTrip.{IsPair, encode_pairs, store_all, parse-encode_pairs}

-- All values under a key, none where the key is missing.
pub values : Bytes → Params → List Bytes
values key params = Option.get_or (find_entry plain key params) []

-- The values that a list of pairs gives a key, in order.
pub values_of : Bytes → List (Bytes × Bytes) → List Bytes
values_of key [] = []
values_of key ((k, v) ∷ ps) = if eq k key then v ∷ values_of key ps else values_of key ps

values-push_back :
    (key k v : Bytes) (params : Params)
    → values key (push_back k v params)
      ≡ (if eq k key then values key params ++ v ∷ [] else values key params)
unfolding values push_back
values-push_back key k v params =
    ground
      (arith, find-alter plain k key (λ vs. Option.get_or vs [] ++ v ∷ []) params, eq_iff k key)

values-store_all :
    (key : Bytes) (params : Params) (ps : List (Bytes × Bytes))
    → values key (store_all params ps) ≡ values key params ++ values_of key ps
unfolding store_all values_of
values-store_all key params [] = sym (append-nil _)
values-store_all key params ((k, v) ∷ ps) =
    values-store_all key (push_back k v params) ps ∙ (elim (Bool-cases (eq k key)) [
      | inl e ↦ rw (values-push_back key k v params, e) (append_assoc _ (v ∷ []) (values_of key ps))
      | inr e ↦ rw (values-push_back key k v params, e)
    ])

-- Let a form be written with `url_encode` from pairs of bytes with keys that are not empty. Parsed
-- into an empty map, it holds under every key exactly the values that the pairs give the key, in the
-- order of the pairs, and none under any other key.
pub values-parse :
    (key : Bytes) (ps : List (Bytes × Bytes))
    → All IsPair ps
    → values key (parse_query_params (encode_pairs ps) []) ≡ values_of key ps
unfolding values find_entry
values-parse key ps h = ap (values key) (parse-encode_pairs ps [] h) ∙ values-store_all key [] ps
