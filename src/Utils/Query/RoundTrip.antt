-- ===== src/Utils/Query/RoundTrip.antt =====
-- Parameters that are encoded as a form is are read back.
use mathlib.Core.List.{foldl}
use gouda_http_server.Common.{
  ℕ, suc, ◌≡◌, refl, sym, ap, ◌∙◌, ◌≢◌, ◌<◌, ◌%◌, ◌/◌, inl, inr, false, List, [], ◌∷◌, ◌++◌, map,
  append-nil, ◌==◌, arith, All, All-append, All-map, length, drop, take-length_append, Bool-cases,
}
use gouda_http_server.Common.Bytes.{Bytes, IsBytes, find_char-first, isspace, Without}
use gouda_http_server.Utils.Text.{trim, trim_front, trim_back}
use gouda_http_server.Utils.Url.{
  url_decode, url_encode, encode_byte, is_unreserved, hex_upper, url_decode-url_encode,
}
use gouda_http_server.Utils.Query.{
  Params, push_back, parts, store, read_pair, read_part, parse_query_params,
}

-- A byte that no test of the parser looks for.
abbrev IsQuiet : ℕ → Type 0
IsQuiet c = (isspace c ≡ false) × (c ≢ b'&') × (c ≢ b'=')

encode_byte-IsQuiet : (c : ℕ) → c < 256 → All IsQuiet (encode_byte c)
unfolding encode_byte
encode_byte-IsQuiet c h = elim (Bool-cases (is_unreserved c)) [
  | inl p ↦ rw p (ground arith)
  | inr p ↦ rw p (elim (Bool-cases (c == 32)) [
    | inl q ↦ rw q (ground arith)
    | inr q ↦
        rw q
          (ground arith, (hex_quiet (c / 16) (omega arith), (hex_quiet (c % 16) (omega arith), tt)))
  ])
]
  where
    hex_quiet : (n : ℕ) → n < 16 → IsQuiet (hex_upper n)
    hex_quiet n h = ground arith

url_encode-IsQuiet : (s : Bytes) → IsBytes s → All IsQuiet (url_encode s)
unfolding url_encode
url_encode-IsQuiet [] h = tt
url_encode-IsQuiet (c ∷ s) (hc, h) =
    All-append IsQuiet (encode_byte c) (url_encode s) (encode_byte-IsQuiet c hc)
      (url_encode-IsQuiet s h)

abbrev HasNoBlank : Bytes → Type 0
HasNoBlank = All (λ c. isspace c ≡ false)

trim_back_id : (s : Bytes) → HasNoBlank s → trim_back s ≡ s
unfolding trim_back
trim_back_id [] h = refl
trim_back_id (c ∷ []) h = rw (h.0)
trim_back_id (c ∷ d ∷ s) h = rw (trim_back_id (d ∷ s) h.1, trim_back)

trim_id : (s : Bytes) → HasNoBlank s → trim s ≡ s
unfolding trim trim_front trim_back
trim_id [] h = refl
trim_id (c ∷ s) h = rw (h.0) (trim_back_id (c ∷ s) h)

parts_one : (s : Bytes) → s ≢ [] → Without b'&' s → parts s ≡ s ∷ []
unfolding parts
parts_one [] n h = absurd (n refl)
parts_one (c ∷ []) n h = ground arith
parts_one (c ∷ d ∷ s) n h = ground (arith, parts_one (d ∷ s) (λ e. cc) h.1)

parts_more : (s t : Bytes) → Without b'&' s → parts (s ++ b'&' ∷ t) ≡ s ∷ parts t
unfolding parts
parts_more [] t h = refl
parts_more (c ∷ s) t h = ground (arith, parts_more s t h.1)

drop_past : (s : Bytes) (c : ℕ) (t : Bytes) → drop (suc (length s)) (s ++ c ∷ t) ≡ t
drop_past [] c t = refl
drop_past (d ∷ s) c t = drop_past s c t

read_pair_split :
    (s t : Bytes) (params : Params)
    → Without b'=' s
    → read_pair (s ++ b'=' ∷ t) params ≡ store (url_decode (trim s)) (url_decode (trim t)) params
unfolding read_pair
read_pair_split [] t params h = refl
read_pair_split (c ∷ s) t params h = rw (
  find_char-first b'=' (c ∷ s) t h,
  read_pair,
  take-length_append (c ∷ s) (b'=' ∷ t),
  drop_past (c ∷ s) b'=' t,
)

-- A pair as a form encodes it, and the pairs joined.
abbrev pub encode_pair : Bytes × Bytes → Bytes
encode_pair (key, value) = url_encode key ++ b'=' ∷ url_encode value

unfoldable pub encode_pairs : List (Bytes × Bytes) → Bytes
encode_pairs [] = []
encode_pairs (p ∷ []) = encode_pair p
encode_pairs (p ∷ q ∷ ps) = encode_pair p ++ b'&' ∷ encode_pairs (q ∷ ps)

-- A key that can be stored, with its value.
abbrev pub IsPair : Bytes × Bytes → Type 0
IsPair (key, value) = (key ≢ []) × IsBytes key × IsBytes value

decode_encoded : (s : Bytes) → IsBytes s → url_decode (trim (url_encode s)) ≡ s
unfolding url_decode
decode_encoded s h =
    rw (trim_id (url_encode s) (All-map (λ c q. q.0) (url_encode s) (url_encode-IsQuiet s h))) (
      ap url_decode (sym (append-nil (url_encode s))) ∙ url_decode-url_encode s [] h ∙ append-nil s)

store_ne_nil :
    (key value : Bytes) (params : Params)
    → key ≢ []
    → store key value params ≡ push_back key value params
unfolding store
store_ne_nil [] value params n = absurd (n refl)
store_ne_nil (c ∷ key) value params n = refl

encode_pair-HasNoBlank :
    (key value : Bytes) → IsBytes key → IsBytes value → HasNoBlank (encode_pair (key, value))
encode_pair-HasNoBlank key value k v =
    All-append (λ c. isspace c ≡ false) (url_encode key) (b'=' ∷ url_encode value)
      (All-map (λ c q. q.0) (url_encode key) (url_encode-IsQuiet key k))
      (refl, All-map (λ c q. q.0) (url_encode value) (url_encode-IsQuiet value v))

encode_pair-Without :
    (key value : Bytes) → IsBytes key → IsBytes value → Without b'&' (encode_pair (key, value))
encode_pair-Without key value k v =
    All-append (λ c. c ≢ b'&') (url_encode key) (b'=' ∷ url_encode value)
      (All-map (λ c q. q.1) (url_encode key) (url_encode-IsQuiet key k))
      (ground arith, All-map (λ c q. q.1) (url_encode value) (url_encode-IsQuiet value v))

read_part-encode_pair :
    (key value : Bytes) (params : Params)
    → IsPair (key, value)
    → read_part params (encode_pair (key, value)) ≡ push_back key value params
read_part-encode_pair key value params (n, k, v) =
    rw
      (
        trim_id (encode_pair (key, value)) (encode_pair-HasNoBlank key value k v),
        read_pair_split (url_encode key) (url_encode value) params
            (All-map (λ c q. q.2) (url_encode key) (url_encode-IsQuiet key k)),
        decode_encoded key k,
        decode_encoded value v,
      )
      (store_ne_nil key value params n)

append-cons_ne_nil : (s : Bytes) (c : ℕ) (t : Bytes) → s ++ c ∷ t ≢ []
append-cons_ne_nil [] c t = λ e. cc
append-cons_ne_nil (d ∷ s) c t = λ e. cc

parts-encode_pairs :
    (ps : List (Bytes × Bytes)) → All IsPair ps → parts (encode_pairs ps) ≡ map encode_pair ps
unfolding encode_pairs
parts-encode_pairs [] h = unfold parts in refl
parts-encode_pairs ((k, v) ∷ []) ((n, hk, hv), h) =
    parts_one (encode_pair (k, v)) (append-cons_ne_nil (url_encode k) b'=' (url_encode v))
      (encode_pair-Without k v hk hv)
parts-encode_pairs ((k, v) ∷ q ∷ ps) ((n, hk, hv), h) =
    parts_more (encode_pair (k, v)) (encode_pairs (q ∷ ps)) (encode_pair-Without k v hk hv)
    ∙ ap (◌∷◌ (encode_pair (k, v))) (parts-encode_pairs (q ∷ ps) h)

-- The pairs, stored one after the other.
unfoldable pub store_all : Params → List (Bytes × Bytes) → Params
store_all params [] = params
store_all params ((key, value) ∷ ps) = store_all (push_back key value params) ps

foldl-read_part :
    (ps : List (Bytes × Bytes)) (params : Params)
    → All IsPair ps
    → foldl read_part params (map encode_pair ps) ≡ store_all params ps
unfolding store_all
foldl-read_part [] params h = refl
foldl-read_part ((k, v) ∷ ps) params (p, h) =
    ap (λ m. foldl read_part m (map encode_pair ps)) (read_part-encode_pair k v params p)
    ∙ foldl-read_part ps (push_back k v params) h

-- A form of pairs with keys that are not empty, encoded by `url_encode` and joined by "=" and "&",
-- is parsed into exactly these pairs, stored in their order.
pub parse-encode_pairs :
    (ps : List (Bytes × Bytes)) (params : Params)
    → All IsPair ps
    → parse_query_params (encode_pairs ps) params ≡ store_all params ps
unfolding parse_query_params
parse-encode_pairs ps params h =
    ap (foldl read_part params) (parts-encode_pairs ps h) ∙ foldl-read_part ps params h
