-- ===== src/Router/Params/Segments.antt =====
-- The parameters of a path that is written as pieces.
use gouda_http_server.Common.{◌≡◌, refl, ap, ◌∙◌, true, false, List, [], ◌∷◌, ◌++◌, map, arith, All}
use gouda_http_server.Common.Bytes.{Bytes, codes, Without}
use gouda_http_server.Router.Params.{
  is_name_start, is_name_char, name_at, param_names, replace_params,
}

-- Pieces of literal text, each with a parameter behind it, and the text at the end.
abbrev pub path_of : List (Bytes × Bytes) → Bytes → Bytes
path_of [] last = last
path_of ((text, name) ∷ ps) last = text ++ b':' ∷ (name ++ path_of ps last)

-- The same with a group for each parameter.
abbrev pub pattern_of : List (Bytes × Bytes) → Bytes → Bytes
pattern_of [] last = last
pattern_of ((text, name) ∷ ps) last = text ++ (codes "([^/]+)" ++ pattern_of ps last)

abbrev pub IsName : Bytes → Type 0
IsName name = (is_name_start name ≡ true) × All (λ c. is_name_char c ≡ true) name

-- What follows a name does not go on with it.
abbrev pub IsNameEnd : Bytes → Type 0
IsNameEnd [] = Unit
IsNameEnd (c ∷ s) = is_name_char c ≡ false

abbrev pub IsPieces : List (Bytes × Bytes) → Bytes → Type 0
IsPieces [] last = Without b':' last
IsPieces ((text, name) ∷ ps) last =
    Without b':' text × IsName name × IsNameEnd (path_of ps last) × IsPieces ps last

param_names-text : (t s : Bytes) → Without b':' t → param_names (t ++ s) ≡ param_names s
unfolding param_names
param_names-text [] s h = refl
param_names-text (c ∷ t) s h = ground (arith, param_names-text t s h.1)

param_names-name :
    (n s : Bytes) → All (λ c. is_name_char c ≡ true) n → param_names (n ++ s) ≡ param_names s
unfolding param_names
param_names-name [] s h = refl
param_names-name (c ∷ n) s h = ground (arith, param_names-name n s h.1)

replace_params-text :
    (t s : Bytes) → Without b':' t → replace_params false (t ++ s) ≡ t ++ replace_params false s
unfolding replace_params
replace_params-text [] s h = refl
replace_params-text (c ∷ t) s h = ground (arith, replace_params-text t s h.1)

replace_params-end : (s : Bytes) → IsNameEnd s → replace_params true s ≡ replace_params false s
unfolding replace_params
replace_params-end [] h = refl
replace_params-end (c ∷ s) h = ground arith

replace_params-name :
    (n s : Bytes)
    → All (λ c. is_name_char c ≡ true) n
    → IsNameEnd s
    → replace_params true (n ++ s) ≡ replace_params false s
unfolding replace_params
replace_params-name [] s h e = replace_params-end s e
replace_params-name (c ∷ n) s h e = ground (arith, replace_params-name n s h.1)

name_at-append :
    (n s : Bytes) → All (λ c. is_name_char c ≡ true) n → IsNameEnd s → name_at (n ++ s) ≡ n
unfolding name_at
name_at-append [] [] h e = refl
name_at-append [] (c ∷ s) h e = ground arith
name_at-append (c ∷ n) s h e = ground (arith, name_at-append n s h.1)

is_name_start-append : (n s : Bytes) → is_name_start n ≡ true → is_name_start (n ++ s) ≡ true
is_name_start-append [] s h = cc
is_name_start-append (c ∷ n) s h = h

param_names-colon :
    (n s : Bytes) → IsName n → IsNameEnd s → param_names (b':' ∷ (n ++ s)) ≡ n ∷ param_names s
unfolding param_names
param_names-colon n s h e =
    rw (is_name_start-append n s h.0, name_at-append n s h.1 e, param_names-name n s h.1)

replace_params-colon :
    (n s : Bytes)
    → IsName n
    → IsNameEnd s
    → replace_params false (b':' ∷ (n ++ s)) ≡ codes "([^/]+)" ++ replace_params false s
unfolding replace_params
replace_params-colon n s h e = rw (is_name_start-append n s h.0, replace_params-name n s h.1 e)

param_names-last : (last : Bytes) → Without b':' last → param_names last ≡ []
unfolding param_names
param_names-last [] h = refl
param_names-last (c ∷ last) h = ground (arith, param_names-last last h.1)

replace_params-last : (last : Bytes) → Without b':' last → replace_params false last ≡ last
unfolding replace_params
replace_params-last [] h = refl
replace_params-last (c ∷ last) h = ground (arith, replace_params-last last h.1)

-- Let a path be made of pieces of text with no colon and of parameters, each followed by a character
-- that is not of a name, or by the end. Then its parameter names are those of the pieces, in their
-- order, and its pattern has one group in the place of each.
pub param_names-path_of :
    (ps : List (Bytes × Bytes)) (last : Bytes)
    → IsPieces ps last
    → (param_names (path_of ps last) ≡ map (λ p. p.1) ps)
      × (replace_params false (path_of ps last) ≡ pattern_of ps last)
param_names-path_of [] last h = (param_names-last last h, replace_params-last last h)
param_names-path_of ((text, name) ∷ ps) last (t, n, e, h) =
    let (names, pattern) = param_names-path_of ps last h in
    (
      param_names-text text _ t
          ∙ (param_names-colon name (path_of ps last) n e ∙ ap (◌∷◌ name) names),
      replace_params-text text _ t
          ∙ ap (λ s. text ++ s)
              (replace_params-colon name (path_of ps last) n e
                ∙ ap (λ s. codes "([^/]+)" ++ s) pattern),
    )
