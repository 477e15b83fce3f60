-- ===== src/Client/Send/Delivered.antt =====
-- What reaches the client.
use native.Mathlib.Numerals.{unary_clauses}
use gouda_http_server.Common.{
  take_nil, take-drop, ℕ, zero, suc, ◌+◌, ◌-◌, ◌≤◌, ◌<◌, min, ◌≡◌, refl, ap, none, some, List, [],
  ◌∷◌, ◌++◌, length, take, drop, arith, All, ◌⊎◌, inl, inr, length-append, length-drop, subst,
  Option-cases,
}
use gouda_http_server.Common.Bytes.{Bytes, codes}
use gouda_http_server.Http.Builder.{build, build_headers_only}
use gouda_http_server.Http.Message.{
  HttpResponse, ResponseBody, text, stream, websocket, text_response,
}
use gouda_http_server.Http.Status.{internal_server_error}
use gouda_http_server.Router.Outside.{FileSystem, Library}
use gouda_http_server.Router.Pages.{content_type_json}
use gouda_http_server.Client.Send.{
  Send, accepted, send_failed, Transfer, done, prepend, and_then, send_all, stream_loop, send_body,
  send_raw,
}

-- A call that takes a byte at least.
abbrev pub IsProgress : Send → Type 0
IsProgress (accepted n) = 0 < n
IsProgress send_failed = ⊥

sub_zero : (n : ℕ) → n - 0 ≡ n
sub_zero n = omega arith

-- A chunk, and what comes behind it.
take-chunk :
    (k n : ℕ) (s : Bytes)
    → k ≤ n
    → take k s ++ take (n - length (take k s)) (drop (length (take k s)) s) ≡ take n s
take-chunk zero n s h = rw (sub_zero n)
take-chunk (suc k) zero s h = absurd (omega arith)
take-chunk (suc k) (suc n) [] h = take_nil _
take-chunk (suc k) (suc n) (c ∷ s) h =
    simp unary_clauses (ap (◌∷◌ c) (take-chunk k n s (omega arith)))

take-eq-nil : (k n : ℕ) (s : Bytes) → 0 < k → take (min k n) s ≡ [] → take n s ≡ []
take-eq-nil k zero s b h = refl
take-eq-nil k (suc n) [] b h = refl
take-eq-nil zero (suc n) (c ∷ s) b h = absurd (omega arith)
take-eq-nil (suc k) (suc n) (c ∷ s) b h = absurd (cc (simp unary_clauses at h))

cases : (s : Bytes) → (s ≡ []) ⊎ ((c : ℕ) × (t : Bytes) × (s ≡ c ∷ t))
cases [] = inl refl
cases (c ∷ t) = inr (c, t, refl)

-- All of a message goes out, and the calls that are left are as many as the bytes of `more`.
abbrev pub Delivers : Bytes → ℕ → Transfer → Type 0
Delivers message more t =
    (rest : List Send) × All IsProgress rest × (more ≤ length rest) × (t ≡ done message rest)

send_all-Delivers :
    (s : Bytes) (sends : List Send) (more : ℕ)
    → All IsProgress sends
    → length s + more ≤ length sends
    → Delivers s more (send_all s sends)
unfolding send_all
send_all-Delivers [] sends more p h = (sends, p, omega arith, refl)
send_all-Delivers (c ∷ s) [] more p h = absurd (omega arith)
send_all-Delivers (c ∷ s) (send_failed ∷ sends) more p h = absurd p.0
send_all-Delivers (c ∷ s) (accepted zero ∷ sends) more p h = absurd (omega (arith, p.0))
send_all-Delivers (c ∷ s) (accepted (suc n) ∷ sends) more p h =
    let (rest, q, l, e) =
      send_all-Delivers (drop n s) sends more p.1 (omega (arith, length-drop n s, h)) in
    (rest, q, l, rw (e, take-drop n s))

pub prepend-Delivers :
    (s t : Bytes) (more : ℕ) (r : Transfer)
    → Delivers t more r
    → Delivers (s ++ t) more (prepend s r)
prepend-Delivers s t more r (rest, p, l, e) = (rest, p, l, rw e)

and_then-Delivers :
    (s t : Bytes) (more : ℕ) (r : Transfer) (k : List Send → Transfer)
    → Delivers s (length t + more) r
    → ((sends : List Send)
        → All IsProgress sends
        → length t + more ≤ length sends
        → Delivers t more (k sends))
    → Delivers (s ++ t) more (and_then r k)
and_then-Delivers s t more r k (rest, p, l, e) f =
    rw e (prepend-Delivers s t more (k rest) (f rest p l))

module _ (fs : FileSystem) (library : Library) where
  -- What is to be sent for a response: a text or a handshake as it is built, a stream as its head
  -- and its part of the file, or an error where the file does not open.
  abbrev pub body_message : HttpResponse → ResponseBody → Bytes
  body_message response (text body) = build response
  body_message response (stream body) = elim (fs.read_file body.file_path) [
    | none ↦ build (
        text_response internal_server_error (library.dump_error (codes "Failed to stream file"))
          content_type_json)
    | some content ↦ build_headers_only response ++ take body.file_size (drop body.offset content)
  ]
  body_message response (websocket body) = build response

  abbrev pub message : HttpResponse → Bytes
  message response = body_message response response.body

module _ (stream_buffer_size : ℕ) (b : 0 < stream_buffer_size) where
  stream_loop-Delivers :
      (fuel remaining : ℕ) (left : Bytes) (sends : List Send) (more : ℕ)
      → remaining ≤ fuel
      → All IsProgress sends
      → length (take remaining left) + more ≤ length sends
      → Delivers
          (take remaining left)
          more
          (stream_loop stream_buffer_size fuel remaining left sends)
  unfolding stream_loop
  stream_loop-Delivers zero zero left sends more f p h = (sends, p, omega arith, refl)
  stream_loop-Delivers zero (suc remaining) left sends more f p h = absurd (omega arith)
  stream_loop-Delivers (suc fuel) n left sends more f p h =
      elim (cases (take (min stream_buffer_size n) left)) [
        | inl e ↦
            rw (e, take-eq-nil stream_buffer_size n left b e, stream_loop)
              (sends, p, omega arith, refl)
        | inr (c, s, e) ↦
            let split = rw e at (take-chunk (min stream_buffer_size n) n left (omega arith)) in
            let more_left = take (n - length (c ∷ s)) (drop (length (c ∷ s)) left) in
            let l = length-append (c ∷ s) more_left in
            rw (e, stream_loop)
              (subst
                (λ m. Delivers m more (
                  and_then (send_all (c ∷ s) sends) (
                    stream_loop stream_buffer_size fuel (n - length (c ∷ s))
                      (drop (length (c ∷ s)) left))))
                split
                (and_then-Delivers (c ∷ s) more_left more _ _
                  (send_all-Delivers (c ∷ s) sends (length more_left + more) p
                    (omega (arith, l, ap length split)))
                  (λ rest q k. stream_loop-Delivers fuel _ _ rest more (omega arith) q k)))
      ]

  module _ (fs : FileSystem) (library : Library) where
    pub send_body-Delivers :
        (response : HttpResponse) (body : ResponseBody) (sends : List Send) (more : ℕ)
        → All IsProgress sends
        → length (body_message fs library response body) + more ≤ length sends
        → Delivers
            (body_message fs library response body)
            more
            (send_body stream_buffer_size fs library response body sends)
    unfolding send_body
    send_body-Delivers response (text body) sends more p h =
        send_all-Delivers (build response) sends more p h
    send_body-Delivers response (websocket body) sends more p h =
        send_all-Delivers (build response) sends more p h
    send_body-Delivers response (stream body) sends more p h =
        elim (Option-cases (fs.read_file body.file_path)) [
          | inl e ↦
              rw (e, send_body, body_message)
                (send_all-Delivers _ sends more p (rw (e, length) at h))
          | inr (content, e) ↦
              let head = build_headers_only response in
              let part = take body.file_size (drop body.offset content) in
              let h' : length (head ++ part) + more ≤ length sends = rw (e, length) at h in
              rw (e, send_body, body_message)
                (and_then-Delivers head part more _ _
                  (send_all-Delivers head sends (length part + more) p
                    (omega (arith, h', length-append head part)))
                  (λ rest q k. stream_loop-Delivers _ body.file_size _ rest more (omega arith) q k))
        ]

    -- Let each call of `send` take a byte at least, and let there be as many calls as the message has
    -- bytes, with a buffer that is not empty. Then `send_raw` ends, and what it sends is the message:
    -- the loops lose no byte and repeat none, however the calls cut it.
    pub send_raw-message :
        (response : HttpResponse) (sends : List Send)
        → All IsProgress sends
        → length (message fs library response) ≤ length sends
        → (rest : List Send) × (send_raw stream_buffer_size fs library response sends
            ≡ done (message fs library response) rest)
    send_raw-message response sends p h =
        let (rest, _, _, e) =
          send_body-Delivers response response.body sends 0 p (omega (arith, h)) in
        (rest, e)
