-- ===== src/Parser/Kept.antt =====
-- What the loop over the header lines keeps of a request, and what holds of a request it returns.
use gouda_http_server.Common.{
  ℕ, suc, ◌≡◌, refl, sym, subst, Option, none, some, List, [], ◌∷◌, take, drop, arith,
}
use gouda_http_server.Common.Bytes.{Bytes, codes, eq, find_char}
use gouda_http_server.Common.Options.{>>=-eq-some, if-eq-some, some-subst}
use gouda_http_server.Http.Headers.{set_header}
use gouda_http_server.Http.Message.{HttpRequest, HttpRequestRange}
use gouda_http_server.Utils.Text.{trim, to_lowercase}
use gouda_http_server.Parser.{
  HeaderState, parse_range, websocket_header, special_header, read_header, read_line, read_lines,
}

websocket_header-request :
    (key_lower value : Bytes) (state : HeaderState)
    → (websocket_header key_lower value state).request ≡ state.request
unfolding websocket_header
websocket_header-request key_lower value state = ground arith

-- A predicate that neither a header nor a range that was read can break.
pub record IsKept {ℓ} (P : HttpRequest → Type ℓ) : Type ℓ where
  pub header :
      (key value : Bytes) (q : HttpRequest)
      → P q
      → P (record q { headers = set_header key value (q.headers) })
  pub range :
      (value : Bytes) (r : HttpRequestRange) (q : HttpRequest)
      → parse_range value ≡ some r
      → P q
      → P (record q { range = some r })

module _ {ℓ} (P : HttpRequest → Type ℓ) (k : IsKept P) where
  abbrev Holds : HeaderState → Type ℓ
  Holds state = P (state.request)

  special_header-kept :
      (key_lower value : Bytes) (state : HeaderState) {next : HeaderState}
      → special_header key_lower value state ≡ some next
      → P (state.request)
      → P (next.request)
  unfolding special_header
  special_header-kept key_lower value state h p =
      if-eq-some (eq key_lower (codes "range")) h
        (λ c h.
          let (r, e, g) = >>=-eq-some (parse_range value) _ h in
          some-subst Holds g (k.range value r (state.request) e p))
        (λ c h.
          some-subst Holds h (subst P (sym (websocket_header-request key_lower value state)) p))

  read_line-kept :
      (line : Bytes) (state : HeaderState) {next : HeaderState}
      → read_line line state ≡ some next
      → P (state.request)
      → P (next.request)
  unfolding read_line read_header
  read_line-kept [] state h p = some-subst Holds h p
  read_line-kept (c ∷ s) state {next} h p = go (find_char b':' (c ∷ s)) refl
    where
      go : (o : Option ℕ) → find_char b':' (c ∷ s) ≡ o → P (next.request)
      go none e = some-subst Holds (rw (e, read_line) at h) p
      go (some n) e = special_header-kept _ _ _ (rw (e, read_line) at h) (
          k.header (to_lowercase (trim (take n (c ∷ s)))) (trim (drop (suc n) (c ∷ s)))
            (state.request) p)

  pub read_lines-kept :
      (lines : List Bytes) (state : HeaderState) {next : HeaderState}
      → read_lines lines state ≡ some next
      → P (state.request)
      → P (next.request)
  unfolding read_lines
  read_lines-kept [] state h p = some-subst Holds h p
  read_lines-kept (line ∷ lines) state h p =
      let (mid, e, g) = >>=-eq-some (read_line line state) _ h in
      read_lines-kept lines mid g (read_line-kept line state e p)
