-- ===== src/Client/Whole.antt =====
-- A request that was read, where its head does not end in two line feeds.
use gouda_http_server.Common.{
  ℕ, ◌+◌, ◌≤◌, ◌<◌, ◌^◌, ◌≡◌, refl, sym, ap, ◌∙◌, subst, none, some, List, [], ◌∷◌, ◌++◌,
  append_assoc, ltb, length, take, drop, take-drop, length-take, All, arith, Bool-cases,
  Option-cases, inl, inr,
}
use gouda_http_server.Common.Bytes.{Bytes, codes, find}
use gouda_http_server.Common.Search.{find-le, find-append, find-beginning, find-whole}
use gouda_http_server.Client.{
  Recv, received, closed, would_block, failed, find_headers, read_headers, get_content_length,
  read_requests,
}
use gouda_http_server.Client.Complete.{IsComplete, Returns-map, read_requests-IsComplete}
use gouda_http_server.Client.Head.{Returns, IsChunk}

-- The bytes that the calls of `recv` give.
abbrev pub bytes : List Recv → Bytes
bytes [] = []
bytes (received chunk ∷ reads) = chunk ++ bytes reads
bytes (closed ∷ reads) = bytes reads
bytes (would_block ∷ reads) = bytes reads
bytes (failed ∷ reads) = bytes reads

-- The headers end in the first "\r\n\r\n" of the buffer.
abbrev EndsThere : Bytes × Bytes → Type 0
EndsThere (headers, buffer) =
    (e : ℕ) × (find (codes "\r\n\r\n") buffer ≡ some e) × (headers ≡ take (e + 4) buffer)

read_headers-EndsThere :
    (max : ℕ) (buffer : Bytes) (reads : List Recv)
    → find (codes "\n\n") (buffer ++ bytes reads) ≡ none
    → Returns (λ h rest. EndsThere h) (read_headers max buffer reads)
unfolding read_headers find_headers
read_headers-EndsThere max buffer [] h = elim (Bool-cases (ltb (length buffer) max)) [
  | inl e ↦ rw e tt
  | inr e ↦ rw e tt
]
read_headers-EndsThere max buffer (received chunk ∷ reads) h =
    let all = sym (append_assoc buffer chunk (bytes reads)) in
    let h' : find (codes "\n\n") ((buffer ++ chunk) ++ bytes reads) ≡ none = rw (← all) h in
    elim (Bool-cases (ltb (length buffer) max)) [
      | inr e ↦ rw (e, read_headers) tt
      | inl e ↦ elim (Option-cases (find (codes "\r\n\r\n") (buffer ++ chunk))) [
        | inr (i, f) ↦ rw (e, f, read_headers, find_headers) (i, f, refl)
        | inl f ↦
            rw
              (
                e,
                f,
                find-beginning (codes "\n\n") (buffer ++ chunk) (bytes reads) h',
                read_headers,
                find_headers,
              )
              (read_headers-EndsThere max (buffer ++ chunk) reads h')
      ]
    ]
read_headers-EndsThere max [] (would_block ∷ reads) h = elim (Bool-cases (ltb 0 max)) [
  | inl e ↦ rw e tt
  | inr e ↦ rw e tt
]
read_headers-EndsThere max (c ∷ s) (would_block ∷ reads) h =
    elim (Bool-cases (ltb (length (c ∷ s)) max)) [ inl e ↦ rw e tt | inr e ↦ rw e tt ]
read_headers-EndsThere max buffer (closed ∷ reads) h = tt
read_headers-EndsThere max buffer (failed ∷ reads) h = tt

-- A head up to the first "\r\n\r\n" and all of the body that it announces, within the limits.
abbrev pub HasRequest : ℕ → ℕ → Bytes → Type 0
HasRequest max_header_size max_content_length buffer =
    (head_end : ℕ) × (n : ℕ) × (find (codes "\r\n\r\n") buffer ≡ some head_end)
    × (get_content_length max_content_length (take (head_end + 4) buffer) ≡ some n)
    × (n ≤ max_content_length)
    × (head_end + 4 + n ≤ length buffer)
    × (length buffer < max_header_size + max_content_length + 1028)

IsComplete-HasRequest :
    (mh mc : ℕ) (reads : List Recv) (buffer : Bytes)
    → find (codes "\n\n") (bytes reads) ≡ none
    → IsComplete mh mc reads buffer
    → HasRequest mh mc buffer
IsComplete-HasRequest mh mc reads buffer no_feeds
      (headers, first, left, r, (n, g, l, (p, room, u))) =
    let crlf = codes "\r\n\r\n" in
    let (e, f, same) =
      subst (Returns (λ h rest. EndsThere h)) r (read_headers-EndsThere mh [] reads no_feeds) in
    let size : length headers ≡ e + 4 =
      omega (arith, ap length same, length-take (e + 4) first, find-le crlf first e f) in
    let in_headers : find crlf headers ≡ some e =
      find-whole crlf headers (drop (e + 4) first) e (omega arith)
        (ap (find crlf) (ap (λ h. h ++ drop (e + 4) first) same ∙ take-drop (e + 4) first) ∙ f)
        (omega (arith, size)) in
    let front : take (e + 4) buffer ≡ headers = ap (λ k. take k buffer) (sym size) ∙ p in
    let whole : headers ++ drop (e + 4) buffer ≡ buffer =
      ap (λ h. h ++ drop (e + 4) buffer) (sym front) ∙ take-drop (e + 4) buffer in
    (
      e,
      n,
      ap (find crlf) (sym whole) ∙ find-append crlf headers (drop (e + 4) buffer) e in_headers,
      ap (get_content_length mc) front ∙ g,
      l,
      omega (arith, size, room),
      u,
    )

-- Let `recv` give at most 512 bytes a call, let the limit on headers leave room in 64 bits, and let
-- there be no two line feeds in a row in what is received. A request that is read has a head up to
-- the first "\r\n\r\n" and behind it all of the body that the head announces, whose length is within
-- the limit; the buffer stays below both limits and 1028 bytes together.
pub read_requests-HasRequest :
    (max_header_size max_content_length : ℕ) (reads : List Recv)
    → max_header_size + 516 ≤ 2 ^ 64
    → All IsChunk reads
    → find (codes "\n\n") (bytes reads) ≡ none
    → Returns
        (λ buffer rest. HasRequest max_header_size max_content_length buffer)
        (read_requests max_header_size max_content_length reads)
read_requests-HasRequest mh mc reads room h no_feeds =
    Returns-map (IsComplete mh mc reads) (HasRequest mh mc)
      (λ buffer w. IsComplete-HasRequest mh mc reads buffer no_feeds w) _
      (read_requests-IsComplete mh mc reads room h)
