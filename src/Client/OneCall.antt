-- ===== src/Client/OneCall.antt =====
-- A request that comes in one call.
use gouda_http_server.Common.{
  ℕ, ◌+◌, ◌^◌, ◌≤◌, ◌<◌, ◌≡◌, some, List, [], ◌∷◌, ltb, lt→ltb, ge→ltb, length-take, length, take,
  arith, Bool-cases, inl, inr,
}
use gouda_http_server.Common.Bytes.{Bytes, codes, find}
use gouda_http_server.Client.{
  Recv, received, closed, would_block, failed, returned, find_headers, read_headers,
  get_content_length, body_loop, read_body, read_rest, read_requests,
}

pub body_loop_there :
    (mc n k : ℕ) (buffer : Bytes) (size : ℕ) (reads : List Recv)
    → n ≤ size
    → body_loop mc n k buffer size reads ≡ returned buffer reads
unfolding body_loop
body_loop_there mc n k buffer size [] h = ground arith
body_loop_there mc n k buffer size (received chunk ∷ reads) h =
    rw (ge→ltb size n h, body_loop, ge→ltb size n h)
body_loop_there mc n k buffer size (closed ∷ reads) h = ground arith
body_loop_there mc n k buffer size (would_block ∷ reads) h = ground arith
body_loop_there mc n k buffer size (failed ∷ reads) h = ground arith

read_body_there :
    (mc n k : ℕ) (buffer : Bytes) (reads : List Recv)
    → length buffer < 2 ^ 64
    → k + n ≤ length buffer
    → read_body mc n k buffer reads ≡ returned buffer reads
unfolding read_body
read_body_there mc n k buffer reads small h = body_loop_there mc n k buffer _ reads (omega arith)

-- A request that comes in one call is read whole, and no call is made for more: its head ends in
-- "\r\n\r\n" and the body that its head announces is there.
read_requests-received :
    (max_header_size max_content_length head_end n : ℕ) (request : Bytes) (reads : List Recv)
    → 0 < max_header_size
    → length request < 2 ^ 64
    → find (codes "\r\n\r\n") request ≡ some head_end
    → get_content_length max_content_length (take (head_end + 4) request) ≡ some n
    → head_end + 4 + n ≤ length request
    → read_requests max_header_size max_content_length (received request ∷ reads)
      ≡ returned request reads
unfolding read_requests read_headers find_headers read_rest read_body
read_requests-received mh mc head_end n request reads pos small e g room =
    let k = length (take (head_end + 4) request) in
    let fits : k + n ≤ length request = omega (arith, length-take (head_end + 4) request) in
    rw (lt→ltb 0 mh pos, e, read_headers, find_headers, read_requests, read_rest, g)
      (elim (Bool-cases (ltb 0 n)) [
        | inl f ↦ rw f (read_body_there mc n k request reads small fits)
        | inr f ↦ rw f
      ])
