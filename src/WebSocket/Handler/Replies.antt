-- ===== src/WebSocket/Handler/Replies.antt =====
-- What the handler sends, against the frames of the response builder.
use gouda_http_server.Common.{
  ℕ, ◌≡◌, refl, ◌∙◌, ◌≢◌, ◌↔◌, inl, inr, bit_or, Bool, true, false, none, some, List, [], ◌∷◌, ◌++◌,
  map, ◌<◌, ◌%◌, ◌||◌, ◌==◌, if◌then◌else◌, arith, length, leb, Bool-cases, Option-cases,
}
use gouda_http_server.Common.Bits.{bit_or_shifted}
use gouda_http_server.Common.Bytes.{Bytes}
use gouda_http_server.WebSocket.Frame.{MaskingKey, WebSocketFrame, IsKey}
use gouda_http_server.WebSocket.Parse.{parse_websocket_frame}
use gouda_http_server.WebSocket.Parse.Header.{IsReadable}
use gouda_http_server.WebSocket.Parse.RoundTrip.{IsSendable, masked, parse-build}
use gouda_http_server.WebSocket.Build.{build_websocket_frame, length_bytes, key_bytes}
use gouda_http_server.WebSocket.Handler.{encode_payload_length, close_frame, answer, process_frame}

-- An unmasked, final frame.
abbrev pub server_frame : ℕ → Bytes → WebSocketFrame
server_frame opcode payload = record {
  fin = true;
  rsv1 = false;
  rsv2 = false;
  rsv3 = false;
  opcode = opcode;
  mask = false;
  payload_length = length payload;
  masking_key = none;
  payload = payload;
}

zero-bit_or : (n : ℕ) → n < 128 → bit_or 0 n ≡ n
zero-bit_or n h = omega (arith, bit_or_shifted 7 0 n h)

-- The handler's own encoding is the response builder's.
encode-build :
    (opcode : ℕ) (payload : Bytes)
    → opcode < 16
    → encode_payload_length (length payload) (bit_or 0x80 opcode ∷ []) ++ payload
      ≡ build_websocket_frame (server_frame opcode payload)
unfolding encode_payload_length build_websocket_frame length_bytes key_bytes
encode-build opcode payload h =
    let e : opcode % 16 ≡ opcode = omega arith in
    rw e (elim (Bool-cases (leb (length payload) 125)) [
      | inl p ↦ rw (p, zero-bit_or (length payload) (ground arith))
      | inr p ↦
          rw p (elim (Bool-cases (leb (length payload) 0xffff)) [ inl q ↦ rw q | inr q ↦ rw q ])
    ])

close_frame-build : close_frame ++ 0 ∷ [] ≡ build_websocket_frame (server_frame 0x8 [])
unfolding build_websocket_frame length_bytes key_bytes
close_frame-build = refl

-- Every frame that the builder writes has two bytes or more.
length-build_websocket_frame :
    (g : WebSocketFrame) → length close_frame < length (build_websocket_frame g)
unfolding build_websocket_frame length_bytes key_bytes
length-build_websocket_frame g = elim (Bool-cases (leb g.payload_length 125)) [
  | inl p ↦ rw p (omega arith)
  | inr p ↦ rw p (elim (Bool-cases (leb g.payload_length 0xffff)) [
    | inl q ↦ rw q (omega arith)
    | inr q ↦ rw q (omega arith)
  ])
]

module _ (handler : WebSocketFrame → ℕ → ℕ → Bytes) (conn_id req_id : ℕ) where
  -- The frames that a frame other than a close is to be answered with.
  abbrev pub replies : WebSocketFrame → List WebSocketFrame
  replies f =
      if f.opcode == 0x9
      then server_frame 0xa f.payload ∷ []
      else if f.opcode == 0x1 || f.opcode == 0x2
      then server_frame f.opcode (handler f conn_id req_id) ∷ []
      else []

  answer-replies :
      (f : WebSocketFrame)
      → f.payload_length ≡ length f.payload
      → f.opcode ≢ 0x8
      → answer handler conn_id req_id f ≡ (true, map build_websocket_frame (replies f))
  unfolding answer
  answer-replies f e n = elim (Bool-cases (f.opcode == 0x8)) [
    | inl p ↦ absurd (n (ground arith))
    | inr p ↦ rw p (elim (Bool-cases (f.opcode == 0x9)) [
      | inl q ↦ rw (q, e, ← encode-build 0xa f.payload (omega arith))
      | inr q ↦ rw q (elim (Bool-cases (f.opcode == 0x1 || f.opcode == 0x2)) [
        | inl t ↦ rw (t, ← encode-build f.opcode (handler f conn_id req_id) (ground arith))
        | inr t ↦ rw t
      ])
    ])
  ]

  process_frame_of_some :
      (char_signed : Bool) (frame_data : Bytes) (f : WebSocketFrame)
      → parse_websocket_frame char_signed frame_data ≡ some f
      → process_frame char_signed handler conn_id req_id frame_data
        ≡ answer handler conn_id req_id f
  unfolding process_frame
  process_frame_of_some char_signed frame_data f e = rw (e, process_frame)

  -- The connection is left exactly on a frame that parses and has the close opcode.
  process_frame-eq-false_iff :
      (char_signed : Bool) (frame_data : Bytes)
      → ((process_frame char_signed handler conn_id req_id frame_data).0 ≡ false) ↔ (
          (f : WebSocketFrame) × (parse_websocket_frame char_signed frame_data ≡ some f)
          × (f.opcode ≡ 0x8))
  unfolding process_frame answer
  process_frame-eq-false_iff char_signed frame_data =
      elim (Option-cases (parse_websocket_frame char_signed frame_data)) [
        | inl e ↦ rw (e, process_frame) (ground arith)
        | inr (f, e) ↦
            rw (e, process_frame) (λ stop. (f, refl, ground arith), λ (g, same, o). ground arith)
      ]

  -- A client frame other than a close, with a readable length of at most 1 MiB, is answered with
  -- the frames that the builder makes of the replies: a ping with a pong of its payload, a text or
  -- binary frame with the handler's result under its opcode, any other with nothing. What follows
  -- the frame in the buffer has no effect.
  pub process_frame-build :
      (char_signed : Bool) (key : MaskingKey) (f : WebSocketFrame) (rest : Bytes)
      → IsSendable f
      → IsKey key
      → IsReadable char_signed f.payload_length
      → f.opcode ≢ 0x8
      → process_frame char_signed handler conn_id req_id
          (build_websocket_frame (masked key f) ++ rest)
        ≡ (true, map build_websocket_frame (replies (record f { mask = true; masking_key = none })))
  process_frame-build char_signed key f rest s k r n =
      process_frame_of_some char_signed _ _ (parse-build char_signed key f rest s k r)
      ∙ (answer-replies (record f { mask = true; masking_key = none }) s.sized n)

  -- A close frame of a client ends the connection, and what is sent is one string that is no frame
  -- at all: every frame that the builder writes is longer. It is the close frame of the server
  -- without its last byte, the length.
  pub close_truncated :
      (char_signed : Bool) (frame_data : Bytes) (f : WebSocketFrame)
      → parse_websocket_frame char_signed frame_data ≡ some f
      → f.opcode ≡ 0x8
      → (s : Bytes) × (process_frame char_signed handler conn_id req_id frame_data
          ≡ (false, s ∷ []))
        × ((g : WebSocketFrame) → length s < length (build_websocket_frame g))
        × (s ++ 0 ∷ [] ≡ build_websocket_frame (server_frame 0x8 []))
  unfolding answer
  close_truncated char_signed frame_data f e o = (
    close_frame,
    process_frame_of_some char_signed frame_data f e ∙ ground arith,
    length-build_websocket_frame,
    close_frame-build,
  )
