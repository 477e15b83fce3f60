-- ===== src/Http/Words.antt =====
-- The request methods and the protocol versions of include/http_structs.hpp, with their words.
use gouda_http_server.Common.{ℕ, suc, ◌≡◌, refl, List, [], ◌∷◌, ltb, if◌then◌else◌, length, get_or}
use gouda_http_server.Common.Bytes.{Bytes, codes, eq}

pub data HttpMethod : Type 0 where
  unknown get post put delete head options patch trace connect : HttpMethod

pub data HttpVersion : Type 0 where
  http_0_9 http_1_0 http_1_1 http_2_0 http_3_0 : HttpVersion

abbrev pub method_strings : List Bytes
method_strings =
    codes "UNKNOWN"
    ∷ codes "GET"
    ∷ codes "POST"
    ∷ codes "PUT"
    ∷ codes "DELETE"
    ∷ codes "HEAD"
    ∷ codes "OPTIONS"
    ∷ codes "PATCH"
    ∷ codes "TRACE"
    ∷ codes "CONNECT"
    ∷ []

-- `static_cast<u8>(method)`.
abbrev pub method_index : HttpMethod → ℕ
method_index unknown = 0
method_index get = 1
method_index post = 2
method_index put = 3
method_index delete = 4
method_index head = 5
method_index options = 6
method_index patch = 7
method_index trace = 8
method_index connect = 9

-- `static_cast<HttpMethod>(i)`.
abbrev pub method_of_index : ℕ → HttpMethod
method_of_index i =
    get_or (unknown ∷ get ∷ post ∷ put ∷ delete ∷ head ∷ options ∷ patch ∷ trace ∷ connect ∷ []) i
      unknown

unfoldable pub method_to_string_view : HttpMethod → Bytes
method_to_string_view method =
    let index = method_index method in
    if ltb index (length method_strings) then get_or method_strings index [] else codes "UNKNOWN"

-- The loop of `get_method` over the strings from index `i` on.
pub method_from : ℕ → Bytes → List Bytes → HttpMethod
method_from i method_str [] = unknown
method_from i method_str (s ∷ more) =
    if eq s method_str then method_of_index i else method_from (suc i) method_str more

unfoldable pub get_method : Bytes → HttpMethod
unfolding method_from
get_method method_str = method_from 0 method_str method_strings

-- `static_cast<u8>(version)`.
abbrev pub version_index : HttpVersion → ℕ
version_index http_0_9 = 0
version_index http_1_0 = 1
version_index http_1_1 = 2
version_index http_2_0 = 3
version_index http_3_0 = 4

abbrev pub version_strings : List Bytes
version_strings =
    codes "HTTP/0.9" ∷ codes "HTTP/1.0" ∷ codes "HTTP/1.1" ∷ codes "HTTP/2" ∷ codes "HTTP/3" ∷ []

unfoldable pub http_version_to_string_view : HttpVersion → Bytes
http_version_to_string_view version =
    let index = version_index version in
    if ltb index (length version_strings) then get_or version_strings index [] else codes "UNKNOWN"

-- The lookup in the map of `string_to_http_version`.
pub version_of : Bytes → List (Bytes × HttpVersion) → HttpVersion
version_of str [] = http_1_1
version_of str ((s, v) ∷ more) = if eq s str then v else version_of str more

unfoldable pub string_to_http_version : Bytes → HttpVersion
unfolding version_of
string_to_http_version str = version_of str (
    (codes "HTTP/0.9", http_0_9)
    ∷ (codes "HTTP/1.0", http_1_0)
    ∷ (codes "HTTP/1.1", http_1_1)
    ∷ (codes "HTTP/2", http_2_0)
    ∷ (codes "HTTP/3", http_3_0)
    ∷ [])

-- Every method is read back from its word.
get_method-method_to_string_view : (m : HttpMethod) → get_method (method_to_string_view m) ≡ m
unfolding get_method method_to_string_view
get_method-method_to_string_view get = refl
get_method-method_to_string_view _ = refl

-- Every version is read back from its word.
string_to_http_version-http_version_to_string_view :
    (v : HttpVersion) → string_to_http_version (http_version_to_string_view v) ≡ v
unfolding string_to_http_version http_version_to_string_view
string_to_http_version-http_version_to_string_view http_1_1 = refl
string_to_http_version-http_version_to_string_view _ = refl
