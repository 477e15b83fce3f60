-- ===== src/Parser/Upgrade.antt =====
-- When a request that `parse` returns asks for a WebSocket.
use mathlib.Core.Option
use gouda_http_server.Common.{
  suc, ◌+◌, ◌≡◌, ◌≢◌, refl, Bool, true, false, ◌&&◌, none, some, [], ◌∷◌, take, drop, Bool-cases,
  Option-cases, inl, inr,
}
use gouda_http_server.Common.Bytes.{Bytes, codes, eq, eq_iff, find, find_char}
use gouda_http_server.Common.Options.{>>=-eq-some, some-subst}
use gouda_http_server.Http.Headers.{get_header}
use gouda_http_server.Http.Message.{HttpRequest, WebSocketRequestData, empty_request}
use gouda_http_server.Http.Words.{HttpMethod, get}
use gouda_http_server.Utils.Text.{to_lowercase, split_lines}
use gouda_http_server.Parser.{
  HeaderState, read_lines, nonempty, is_get, mentions, is_upgrade, set_websocket, has_form,
  set_form, set_body, set_path, read_request_line, header_block, parse,
}
use gouda_http_server.Parser.Kept.{IsKept, read_lines-kept}

-- A GET request with a key, version 13, and "upgrade" in its `Connection`.
abbrev pub IsUpgrade : HttpRequest → WebSocketRequestData → Type 0
IsUpgrade q d =
    (q.method ≡ get)
    × (d.key ≢ [])
    × (d.version ≡ codes "13")
    × (mentions (codes "upgrade")
          (Option.map to_lowercase (get_header (codes "connection") (q.headers)))
        ≡ true)

abbrev IsSound : HttpRequest → Type 0
IsSound q = (d : WebSocketRequestData) → q.websocket_data ≡ some d → IsUpgrade q d

abbrev IsPlain : HttpRequest → Type 0
IsPlain q = q.websocket_data ≡ none

IsPlain-kept : IsKept IsPlain
IsPlain-kept = record { header = λ key value q p. p; range = λ value r q e p. p }

is_get_iff : (m : HttpMethod) → is_get m ≡ true → m ≡ get
is_get_iff get h = refl
is_get_iff _ h = cc

nonempty-ne-nil : (s : Bytes) → nonempty s ≡ true → s ≢ []
nonempty-ne-nil [] h = λ e. cc
nonempty-ne-nil (c ∷ s) h = λ e. cc

&&-true : (a b : Bool) → a && b ≡ true → (a ≡ true) × (b ≡ true)
&&-true true b h = (refl, h)
&&-true false b h = cc

is_upgrade-IsUpgrade :
    (state : HeaderState) → is_upgrade state ≡ true → IsUpgrade (state.request) (state.ws_data)
unfolding is_upgrade
is_upgrade-IsUpgrade state h =
    let (h1, version) = &&-true _ (eq (state.ws_data.version) (codes "13")) h in
    let upgrades =
      mentions (codes "upgrade")
        (Option.map to_lowercase (get_header (codes "connection") (state.request.headers))) in
    let (h2, connection) = &&-true _ upgrades h1 in
    let (h3, method) = &&-true _ (is_get (state.request.method)) h2 in
    let (_, key) = &&-true (state.is_websocket) (nonempty (state.ws_data.key)) h3 in
    (
      is_get_iff (state.request.method) method,
      nonempty-ne-nil (state.ws_data.key) key,
      (eq_iff (state.ws_data.version) (codes "13")).0 version,
      connection,
    )

set_websocket-IsSound :
    (state : HeaderState) → IsPlain (state.request) → IsSound (set_websocket state)
unfolding set_websocket
set_websocket-IsSound state p = elim (Bool-cases (is_upgrade state)) [
  | inl e ↦ rw e (λ d h. some-subst (IsUpgrade (state.request)) h (is_upgrade-IsUpgrade state e))
  | inr e ↦ rw e (λ d h. cc)
]

set_body-IsSound : (body : Bytes) (q : HttpRequest) → IsSound q → IsSound (set_body body q)
unfolding set_body set_form
set_body-IsSound [] q i = i
set_body-IsSound (c ∷ s) q i = elim (Bool-cases (has_form q)) [ inl e ↦ rw e i | inr e ↦ rw e i ]

set_path-IsPlain :
    (full_path : Bytes) (q : HttpRequest) → IsPlain q → IsPlain (set_path full_path q)
unfolding set_path
set_path-IsPlain full_path q i = elim (Option-cases (find_char b'?' full_path)) [
  | inl e ↦ rw (e, set_path) i
  | inr (n, e) ↦ rw (e, set_path) i
]

read_request_line-IsPlain :
    (first_line : Bytes) {q : HttpRequest} → read_request_line first_line ≡ some q → IsPlain q
unfolding read_request_line
read_request_line-IsPlain first_line h =
    let (method_end, e, h1) = >>=-eq-some (find_char b' ' first_line) _ h in
    let after_method = drop (suc method_end) first_line in
    let (path_len, e1, h2) = >>=-eq-some (find_char b' ' after_method) _ h1 in
    some-subst IsPlain h2 (set_path-IsPlain (take path_len after_method) empty_request refl)

-- A request that carries WebSocket data is a GET request whose `Connection` header holds "upgrade",
-- with a key that is not empty and version 13.
pub parse-IsUpgrade :
    (s : Bytes) (q : HttpRequest) (d : WebSocketRequestData)
    → parse s ≡ some q
    → q.websocket_data ≡ some d
    → IsUpgrade q d
unfolding parse
parse-IsUpgrade s q d h =
    let (line_end, _, h1) = >>=-eq-some (find (codes "\r\n") s) _ h in
    let (headers_end, _, h2) = >>=-eq-some (find (codes "\r\n\r\n") s) _ h1 in
    let (request, e, h3) = >>=-eq-some (read_request_line (take line_end s)) _ h2 in
    let lines = split_lines (header_block line_end headers_end s) in
    let (state, g, h4) = >>=-eq-some (read_lines lines _) _ h3 in
    some-subst IsSound h4
      (set_body-IsSound (drop (headers_end + 4) s) (set_websocket state) (
        set_websocket-IsSound state (
          read_lines-kept IsPlain IsPlain-kept lines _ g
            (read_request_line-IsPlain (take line_end s) e))))
      d
