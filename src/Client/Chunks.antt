-- ===== src/Client/Chunks.antt =====
-- A request that comes in any number of calls.
use mathlib.Core.Option.{some-injective}
use gouda_http_server.Common.{
  ℕ, ◌⊎◌, ◌+◌, ◌-◌, ◌^◌, ◌%◌, ◌≤◌, ◌<◌, ◌≡◌, refl, sym, ap, ◌∙◌, none, some, List, [], ◌∷◌, ◌++◌,
  append_assoc, append-nil, map, All, ltb, lt→ltb, length, length-append, length-take, take,
  take-append, take-long_append, arith, Bool-cases, Option-cases, inl, inr,
}
use gouda_http_server.Common.Bytes.{Bytes, codes, find}
use gouda_http_server.Common.Search.{find-le, find-append, find-beginning, find-whole}
use gouda_http_server.Client.{
  Recv, received, returned, find_headers, read_headers, get_content_length, body_loop, read_body,
  read_rest, read_requests,
}
use gouda_http_server.Client.Complete.{get_content_length-le}
use gouda_http_server.Client.OneCall.{body_loop_there}

abbrev pub joined : List Bytes → Bytes
joined [] = []
joined (s ∷ more) = s ++ joined more

-- A call that receives gives a byte at least.
abbrev pub IsChunk : Bytes → Type 0
IsChunk s = 0 < length s

joined-eq-nil : (cs : List Bytes) → All IsChunk cs → length (joined cs) ≡ 0 → cs ≡ []
joined-eq-nil [] h e = refl
joined-eq-nil (c ∷ cs) h e = absurd (omega (arith, h.0, length-append c (joined cs)))

-- The rest of a body, in chunks that add up to it.
body_loop-chunks :
    (mc n k size : ℕ) (buffer request : Bytes) (cs : List Bytes) (rest : List Recv)
    → All IsChunk cs
    → buffer ++ joined cs ≡ request
    → length request ≡ k + n
    → length buffer ≡ k + size
    → n ≤ mc
    → mc + k < 2 ^ 64
    → body_loop mc n k buffer size (map received cs ++ rest) ≡ returned request rest
unfolding body_loop
body_loop-chunks mc n k size buffer request [] rest h e l s m r =
    let same : buffer ≡ request = sym (append-nil buffer) ∙ e in
    body_loop_there mc n k buffer size rest (omega (arith, s, l, ap length same))
    ∙ ap (λ b. returned b rest) same
body_loop-chunks mc n k size buffer request (c ∷ cs) rest (hc, h) e l s m r =
    let total : length buffer + (length c + length (joined cs)) ≡ length request =
      omega
        (arith, length-append buffer (c ++ joined cs), length-append c (joined cs), ap length e) in
    rw
      (
        lt→ltb size n (omega (arith, hc, total, l, s)),
        lt→ltb (length buffer) ((mc + k) % 2 ^ 64) (omega (arith, hc, total, l, m, r)),
        body_loop,
      )
      (body_loop-chunks mc n k (size + length c) (buffer ++ c) request cs rest h
        (append_assoc buffer c (joined cs) ∙ e) l (omega (arith, length-append buffer c, s)) m r)

module _ (mh : ℕ) (request : Bytes) (head_end : ℕ)
    (found : find (codes "\r\n\r\n") request ≡ some head_end)
    (plain : find (codes "\n\n") (take (head_end + 4) request) ≡ none)
    (fits : head_end + 4 ≤ mh) where
  -- Within the head nothing is found.
  find_headers-none :
      (b t : Bytes) → b ++ t ≡ request → length b < head_end + 4 → find_headers b ≡ none
  unfolding find_headers
  find_headers-none b t e l = elim (Option-cases (find (codes "\r\n\r\n") b)) [
    | inr (i, f) ↦ absurd (
        omega (
          arith,
          l,
          find-le (codes "\r\n\r\n") b i f,
          some-injective _ _ (
              sym found
              ∙ ap (find (codes "\r\n\r\n")) (sym e)
              ∙ find-append (codes "\r\n\r\n") b t i f),
        ))
    | inl f ↦ rw (
      f,
      find-beginning (codes "\n\n") b (take (head_end + 4 - length b) t) (
          ap (find (codes "\n\n"))
            (sym (take-long_append (head_end + 4) b t (omega arith)) ∙ ap (take (head_end + 4)) e)
          ∙ plain),
      find_headers,
    )
  ]

  -- With the head there it is.
  find_headers-some :
      (b t : Bytes)
      → b ++ t ≡ request
      → head_end + 4 ≤ length b
      → find_headers b ≡ some (take (head_end + 4) request, b)
  unfolding find_headers
  find_headers-some b t e l =
      rw
        (
          find-whole (codes "\r\n\r\n") b t head_end (omega arith)
              (ap (find (codes "\r\n\r\n")) e ∙ found) l,
          find_headers,
        )
        (ap (λ h. some (h, b))
          (sym (take-append (head_end + 4) b t l) ∙ ap (take (head_end + 4)) e))

  read_headers-chunks :
      (b : Bytes) (cs : List Bytes) (rest : List Recv)
      → All IsChunk cs
      → b ++ joined cs ≡ request
      → length b < head_end + 4
      → (b' : Bytes) × (cs' : List Bytes) × All IsChunk cs'
        × (b' ++ joined cs' ≡ request)
        × (head_end + 4 ≤ length b')
        × (read_headers mh b (map received cs ++ rest)
            ≡ returned (take (head_end + 4) request, b') (map received cs' ++ rest))
  unfolding read_headers
  read_headers-chunks b [] rest h e l = absurd (
      omega (
        arith,
        l,
        find-le (codes "\r\n\r\n") request head_end found,
        ap length (sym (append-nil b) ∙ e),
      ))
  read_headers-chunks b (c ∷ cs) rest (hc, h) e l =
      let whole = append_assoc b c (joined cs) ∙ e in
      elim (Bool-cases (ltb (length (b ++ c)) (head_end + 4))) [
        | inl g ↦
            let (b', cs', h', e', l', r) =
              read_headers-chunks (b ++ c) cs rest h whole (ground (arith, g)) in
            (
              b',
              cs',
              h',
              e',
              l',
              rw
                  (
                    lt→ltb (length b) mh (omega arith),
                    find_headers-none (b ++ c) (joined cs) whole (ground (arith, g)),
                    read_headers,
                  )
                  r,
            )
        | inr g ↦
            let l' : head_end + 4 ≤ length (b ++ c) = ground (arith, g) in
            (
              b ++ c,
              cs,
              h,
              whole,
              l',
              rw (
                lt→ltb (length b) mh (omega arith),
                find_headers-some (b ++ c) (joined cs) whole l',
                read_headers,
              ),
            )
      ]

  read_rest-chunks :
      (mc n : ℕ) (b : Bytes) (cs : List Bytes) (rest : List Recv)
      → All IsChunk cs
      → b ++ joined cs ≡ request
      → head_end + 4 ≤ length b
      → get_content_length mc (take (head_end + 4) request) ≡ some n
      → length request ≡ head_end + 4 + n
      → length request < 2 ^ 64
      → (n ≡ 0) ⊎ (mc + (head_end + 4) < 2 ^ 64)
      → read_rest mc (take (head_end + 4) request) b (map received cs ++ rest)
        ≡ returned request rest
  unfolding read_rest read_body
  read_rest-chunks mc n b cs rest h e l g size small room =
      let k = length (take (head_end + 4) request) in
      let same : k ≡ head_end + 4 = omega (arith, length-take (head_end + 4) request) in
      let total : length b + length (joined cs) ≡ length request =
        omega (arith, length-append b (joined cs), ap length e) in
      elim (Bool-cases (ltb 0 n)) [
        | inl f ↦
            rw (g, f, read_rest)
              (body_loop-chunks mc n k ((length b + 2 ^ 64 - k) % 2 ^ 64) b request cs rest h e
                (omega arith) (omega arith) (get_content_length-le mc _ g)
                (ground (arith, same, f, room)))
        | inr f ↦
            let none_left = joined-eq-nil cs h (ground (arith, total, size, f)) in
            rw (g, f, none_left, read_rest)
              (ap (λ b. returned b rest)
                (sym (append-nil b) ∙ ap (λ cs. b ++ joined cs) (sym none_left) ∙ e))
      ]

-- The sum of the limits stays in 64 bits, or is not looked at.
pub read_requests-pieces :
    (max_header_size max_content_length head_end n : ℕ) (chunks : List Bytes) (rest : List Recv)
    → All IsChunk chunks
    → find (codes "\r\n\r\n") (joined chunks) ≡ some head_end
    → find (codes "\n\n") (take (head_end + 4) (joined chunks)) ≡ none
    → head_end + 4 ≤ max_header_size
    → get_content_length max_content_length (take (head_end + 4) (joined chunks)) ≡ some n
    → length (joined chunks) ≡ head_end + 4 + n
    → length (joined chunks) < 2 ^ 64
    → (n ≡ 0) ⊎ (max_content_length + (head_end + 4) < 2 ^ 64)
    → read_requests max_header_size max_content_length (map received chunks ++ rest)
      ≡ returned (joined chunks) rest
unfolding read_requests
read_requests-pieces mh mc head_end n chunks rest h found plain fits g size small room =
    let request = joined chunks in
    let (b, cs, h', e, l, r) =
      read_headers-chunks mh request head_end found plain fits [] chunks rest h refl
        (omega arith) in
    rw (r, read_requests)
      (read_rest-chunks mh request head_end found plain fits mc n b cs rest h' e l g size small
        room)

-- Let a client send a request in any number of chunks, none of them empty. Its head ends in the
-- first "\r\n\r\n", is within the limit and has no "\n\n"; the length that the head announces is
-- read and within its limit, and that many bytes follow the head, fewer than 2 ^ 64 in all, as are
-- the limit on the body and the head together. Then the request is read whole, however it is cut,
-- and what comes behind it is left to the next call.
pub read_requests-chunks :
    (max_header_size max_content_length head_end n : ℕ) (chunks : List Bytes) (rest : List Recv)
    → All IsChunk chunks
    → find (codes "\r\n\r\n") (joined chunks) ≡ some head_end
    → find (codes "\n\n") (take (head_end + 4) (joined chunks)) ≡ none
    → head_end + 4 ≤ max_header_size
    → get_content_length max_content_length (take (head_end + 4) (joined chunks)) ≡ some n
    → length (joined chunks) ≡ head_end + 4 + n
    → length (joined chunks) < 2 ^ 64
    → max_content_length + (head_end + 4) < 2 ^ 64
    → read_requests max_header_size max_content_length (map received chunks ++ rest)
      ≡ returned (joined chunks) rest
read_requests-chunks mh mc head_end n chunks rest h found plain fits g size small room =
    read_requests-pieces mh mc head_end n chunks rest h found plain fits g size small (inr room)
