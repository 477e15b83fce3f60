-- ===== src/Client/Process/Ends/Cuts.antt =====
-- One request that is cut off the buffer.
use gouda_http_server.Common.{
  either, ℕ, zero, suc, ◌+◌, ◌%◌, ◌^◌, ◌≤◌, ◌<◌, ◌≡◌, refl, subst, none, some, List, ◌++◌, length,
  take, drop, length-drop, arith, Option-cases, inl, inr,
}
use gouda_http_server.Common.Search.{find-le}
use gouda_http_server.Common.Bytes.{Bytes, codes, find}
use gouda_http_server.Common.Options.{some-subst}
use gouda_http_server.Client.{
  Recv, Outcome, returned, refused, timed_out, waiting, get_content_length,
}
use gouda_http_server.Client.Complete.{get_content_length-le}
use gouda_http_server.Client.Head.{Returns}
use gouda_http_server.Client.Cut.{
  Setting, Cut, piece, incomplete, invalid_json, pending, cut_head, content_type_json_full,
  strip_body, complete_body, cut_body, cut_request,
}
use gouda_http_server.Client.Process.{total}
use gouda_http_server.Client.Process.Ends.Reads.{IsLong, complete_body-IsLong}
use gouda_http_server.Router.Responses.{occurs}

module _ {Json : Type 0} (setting : Setting Json) where
  -- A piece takes two bytes at least, of those that are there, and no byte is lost.
  abbrev pub IsNext : ℕ → ℕ → Cut Json → Type 0
  IsNext processed_bytes sum (piece p) =
      (processed_bytes + 2 ≤ p.processed_bytes)
      × (p.processed_bytes ≤ length p.raw)
      × (length p.raw + total p.reads ≡ sum)
  IsNext processed_bytes sum _ = Unit

  cut_head-le :
      (processed_bytes : ℕ) (raw single_request : Bytes) (request_end : ℕ)
      → processed_bytes ≤ length raw
      → cut_head processed_bytes raw ≡ some (single_request, request_end)
      → (processed_bytes + 2 ≤ request_end) × (request_end ≤ length raw)
  unfolding cut_head
  cut_head-le k raw single_request request_end l h =
      let rest = drop k raw in
      elim (Option-cases (find (codes "\r\n\r\n") rest)) [
        | inr (i, e) ↦
            some-subst (λ p. (k + 2 ≤ p.1) × (p.1 ≤ length raw)) (rw (e, cut_head) at h)
              (omega arith, omega (arith, find-le (codes "\r\n\r\n") rest i e, length-drop k raw))
        | inl e ↦ elim (Option-cases (find (codes "\n\n") rest)) [
          | inr (i, f) ↦
              some-subst (λ p. (k + 2 ≤ p.1) × (p.1 ≤ length raw)) (rw (e, f, cut_head) at h)
                (omega arith, omega (arith, find-le (codes "\n\n") rest i f, length-drop k raw))
          | inl f ↦ absurd (cc (rw (e, f, cut_head) at h))
        ]
      ]

  cut_body-IsNext :
      (n k : ℕ) (single_request : Bytes) (request_end : ℕ) (raw : Bytes) (reads : List Recv)
      → k + 2 ≤ request_end
      → request_end + n ≤ length raw
      → length raw < 2 ^ 64
      → IsNext k
          (length raw + total reads)
          (cut_body setting n single_request request_end raw reads)
  unfolding cut_body
  cut_body-IsNext n k single_request request_end raw reads h l b =
      let body = strip_body single_request (take n (drop request_end raw)) in
      either (IsNext k (length raw + total reads)) (occurs content_type_json_full single_request)
        (elim (setting.parse_json body)
          as (λ o. IsNext k (length raw + total reads) (elim o [
            | none ↦ invalid_json
            | some value ↦ piece (record {
              text = single_request ++ body;
              json_body = some value;
              processed_bytes = (request_end + n) % 2 ^ 64;
              raw = raw;
              reads = reads;
            })
          ])) [ none ↦ tt | some value ↦ (omega arith, omega arith, refl) ])
        (omega arith, omega arith, refl)

  body-IsNext :
      (n k sum : ℕ) (single_request : Bytes) (request_end : ℕ) (o : Outcome Bytes)
      → k + 2 ≤ request_end
      → sum < 2 ^ 64
      → Returns (IsLong sum (request_end + suc n)) o
      → IsNext k sum (elim o [
        | returned raw' reads' ↦ cut_body setting (suc n) single_request request_end raw' reads'
        | refused ↦ incomplete
        | timed_out ↦ incomplete
        | waiting ↦ pending
      ])
  body-IsNext n k sum single_request request_end (returned raw reads) h b (e, l) =
      subst (λ s. IsNext k s (cut_body setting (suc n) single_request request_end raw reads)) e
        (cut_body-IsNext (suc n) k single_request request_end raw reads h l (omega arith))
  body-IsNext n k sum single_request request_end refused h b w = tt
  body-IsNext n k sum single_request request_end timed_out h b w = tt
  body-IsNext n k sum single_request request_end waiting h b w = tt

  pub cut_request-IsNext :
      (processed_bytes : ℕ) (raw : Bytes) (reads : List Recv)
      → processed_bytes ≤ length raw
      → length raw + total reads + setting.max_content_length < 2 ^ 64
      → IsNext processed_bytes
          (length raw + total reads)
          (cut_request setting processed_bytes raw reads)
  unfolding cut_request
  cut_request-IsNext k raw reads l b = elim (Option-cases (cut_head k raw)) [
    | inl e ↦ rw (e, cut_request) tt
    | inr ((single_request, request_end), e) ↦
        let (low, high) = cut_head-le k raw single_request request_end l e in
        elim (Option-cases (get_content_length setting.max_content_length single_request)) [
          | inl f ↦ rw (e, f, cut_request) tt
          | inr (n, f) ↦
              rw (e, f, cut_request)
                (length_of n single_request request_end low high
                  (get_content_length-le setting.max_content_length single_request f))
        ]
  ]
    where
      length_of :
          (n : ℕ) (single_request : Bytes) (request_end : ℕ)
          → k + 2 ≤ request_end
          → request_end ≤ length raw
          → n ≤ setting.max_content_length
          → IsNext k (length raw + total reads) (elim n [
            | zero ↦ piece (record {
              text = single_request;
              json_body = none;
              processed_bytes = request_end;
              raw = raw;
              reads = reads;
            })
            | suc n ↦ elim (complete_body setting (suc n) request_end raw reads) [
              | returned raw' reads' ↦
                  cut_body setting (suc n) single_request request_end raw' reads'
              | refused ↦ incomplete
              | timed_out ↦ incomplete
              | waiting ↦ pending
            ]
          ])
      length_of zero single_request request_end low high m = (low, high, refl)
      length_of (suc n) single_request request_end low high m =
          body-IsNext n k (length raw + total reads) single_request request_end _ low (omega arith)
            (complete_body-IsLong setting (suc n) request_end raw reads high (omega arith))
