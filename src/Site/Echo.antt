-- ===== src/Site/Echo.antt =====
-- The one WebSocket route of the site, and what a connection to it sends.
use gouda_http_server.Common.{
  ℕ, zero, suc, ◌≤◌, length, le→leb, ◌≡◌, ◌⊎◌, Bool, refl, sym, ap, ◌∙◌, true, Option, none, some,
  List, [], ◌∷◌, ◌++◌, All, take, map, if◌then◌else◌, arith, Bool-cases, Option-cases, inl, inr,
}
use gouda_http_server.Common.Bytes.{Bytes, codes}
use gouda_http_server.Common.Options.{some-subst}
use gouda_http_server.Cache.{FileCache}
use gouda_http_server.Client.{Recv, received}
use gouda_http_server.Client.Cut.{Setting}
use gouda_http_server.Client.Process.{
  Output, frame, waits, behind, limited_chunk, limited, websocket_loop, process_websocket,
}
use gouda_http_server.Http.Message.{HttpRequest}
use gouda_http_server.Http.Words.{get}
use gouda_http_server.Router.Outside.{FileSystem, Library}
use gouda_http_server.Router.Params.{route_pattern, replace_params, name_at}
use gouda_http_server.Router.Routes.{
  Route, Router, WebSocketHandler, same_method, find_routes, add_route, add_middleware, make_route,
  initial, get_websocket_handler,
}
use gouda_http_server.Router.Routes.First.{
  or_else, or_else-none, handler_one, get_websocket_handler-add_route,
}
use gouda_http_server.Site.{add_routes, setup_routes, echo_route, site_routes}
use gouda_http_server.Site.Handlers.{echo_handler}
use gouda_http_server.Site.Text.{JsonLibrary}
use gouda_http_server.WebSocket.Build.{build_websocket_frame}
use gouda_http_server.WebSocket.Frame.{MaskingKey, WebSocketFrame, IsKey}
use gouda_http_server.WebSocket.Handler.{process_frame}
use gouda_http_server.WebSocket.Handler.Replies.{server_frame, process_frame-build}
use gouda_http_server.WebSocket.Parse.Header.{IsReadable}
use gouda_http_server.WebSocket.Parse.RoundTrip.{IsSendable, masked}

or_else_assoc {ℓ} :
    {A : Type ℓ} (a b c : Option A) → or_else (or_else a b) c ≡ or_else a (or_else b c)
or_else_assoc none b c = refl
or_else_assoc (some a) b c = refl

module _ {Json : Type 0} (library : Library) (request : HttpRequest) where
  -- The handler that a route offers for a request.
  abbrev offer : Route Json → Option WebSocketHandler
  offer r = if same_method r.method request.method then handler_one library request.path r else none

  abbrev offers : List (Route Json) → Option WebSocketHandler
  offers [] = none
  offers (r ∷ rs) = or_else (offer r) (offers rs)

  offer-none : (r : Route Json) → r.websocket_handler ≡ none → offer r ≡ none
  offer-none r h = elim (Bool-cases (same_method r.method request.method)) [
    | inr e ↦ rw e
    | inl e ↦ elim (Option-cases (library.regex_match request.path r.pattern)) [
      | inl g ↦ rw (e, g, handler_one)
      | inr (groups, g) ↦ rw (e, g, handler_one) h
    ]
  ]

  offers-append :
      (rs : List (Route Json)) (r : Route Json)
      → All (λ r. r.websocket_handler ≡ none) rs
      → offers (rs ++ r ∷ []) ≡ offer r
  offers-append [] r h = or_else-none (offer r)
  offers-append (q ∷ rs) r (hq, h) = rw (offer-none q hq) (offers-append rs r h)

  add_routes-offers :
      (rs : List (Route Json)) (router site : Router Json)
      → add_routes library rs router ≡ some site
      → get_websocket_handler library site request
        ≡ or_else (get_websocket_handler library router request) (offers rs)
  unfolding add_routes
  add_routes-offers [] router site h =
      some-subst
        (λ s.
          get_websocket_handler library s request
          ≡ or_else (get_websocket_handler library router request) none)
        h (sym (or_else-none _))
  add_routes-offers (r ∷ rs) router site h = elim (Option-cases (add_route library r router)) [
    | inl e ↦ cc
    | inr (added, e) ↦
        add_routes-offers rs added site (rw (e, add_routes) at h)
        ∙ ap (λ o. or_else o (offers rs))
            (get_websocket_handler-add_route library r router added request e)
        ∙ or_else_assoc (get_websocket_handler library router request) (offer r) (offers rs)
  ]

module _ {Json : Type 0} (fs : FileSystem) (library : Library) (json : JsonLibrary Json) where
  -- Let `setup_routes` give a router. The handler of a request is the echo handler if its method is
  -- GET and its path matches the pattern "^/ws/echo$", and there is none for any other request.
  pub get_websocket_handler-setup_routes :
      (site : Router Json) (request : HttpRequest)
      → setup_routes fs library json initial ≡ some site
      → get_websocket_handler library site request ≡ (
          if same_method get request.method
          then (elim (library.regex_match request.path (codes "^/ws/echo$")) [
            | none ↦ none
            | some groups ↦ some echo_handler
          ])
          else none)
  unfolding setup_routes add_middleware site_routes echo_route make_route get_websocket_handler
      find_routes route_pattern replace_params name_at
  get_websocket_handler-setup_routes site request h =
      add_routes-offers library request (site_routes fs library json) _ site h
      ∙ offers-append library request (take 11 (site_routes fs library json))
          (echo_route library json)
          (refl, (refl, (refl, (refl, (refl, (refl, (refl, (refl, (refl, (refl, (refl, tt)))))))))))

-- A text or binary frame of a client, the key that masks it, and what follows it in the same call
-- of `recv`.
abbrev pub Message : Type 0
Message = MaskingKey × WebSocketFrame × Bytes

-- The bytes of a message: the frame that the builder writes, and what follows it.
abbrev pub wire : Message → Bytes
wire (key, f, rest) = build_websocket_frame (masked key f) ++ rest

-- The frame is final, text or binary, the frame parser reads it, and one call of `recv` gives all
-- of it.
abbrev pub IsMessage : Bool → Message → Type 0
IsMessage char_signed (key, f, rest) =
    IsSendable f
    × IsKey key
    × IsReadable char_signed f.payload_length
    × ((f.opcode ≡ 0x1) ⊎ (f.opcode ≡ 0x2))
    × (f.fin ≡ true)
    × (length (wire (key, f, rest)) ≤ 1024)

abbrev pub as_chunk : Message → Recv
as_chunk m = received (wire m)

-- The same message from the server, with nothing behind it.
abbrev pub as_reply : Message → Output
as_reply (key, f, rest) = frame (build_websocket_frame (server_frame f.opcode f.payload))

limited_chunk-eq :
    (fuel : ℕ) (chunk : Bytes)
    → length chunk ≤ 1024
    → limited_chunk fuel chunk ≡ received chunk ∷ []
unfolding limited_chunk
limited_chunk-eq zero chunk h = refl
limited_chunk-eq (suc fuel) chunk h = rw (le→leb (length chunk) 1024 h)

limited-eq :
    (char_signed : Bool) (ms : List Message)
    → All (IsMessage char_signed) ms
    → limited (map as_chunk ms) ≡ map as_chunk ms
unfolding limited
limited-eq char_signed [] h = refl
limited-eq char_signed ((key, f, rest) ∷ ms) ((s, k, r, o, e, l), h) =
    rw (limited_chunk-eq (length (wire (key, f, rest))) (wire (key, f, rest)) l)
      (ap (λ l. as_chunk (key, f, rest) ∷ l) (limited-eq char_signed ms h))

module _ {Json : Type 0} (setting : Setting Json) where
  process_frame-echo :
      (m : Message)
      → IsMessage setting.char_signed m
      → process_frame setting.char_signed echo_handler setting.connection_id setting.request_id
          (wire m)
        ≡ (true, build_websocket_frame (server_frame m.1.opcode m.1.payload) ∷ [])
  unfolding echo_handler
  process_frame-echo (key, f, rest) (s, k, r, o, e, l) =
      process_frame-build echo_handler setting.connection_id setting.request_id setting.char_signed
        key f rest s k r (ground (arith, o))
      ∙ elim o [ inl e ↦ rw e | inr e ↦ rw e ]

  websocket_loop-echo :
      (ms : List Message) (c : FileCache)
      → All (IsMessage setting.char_signed) ms
      → websocket_loop setting echo_handler (map as_chunk ms) c ≡ waits (map as_reply ms)
  unfolding websocket_loop
  websocket_loop-echo [] c h = refl
  websocket_loop-echo (m ∷ ms) c (hm, h) =
      let e = process_frame-echo m hm in
      rw (ap (λ p. p.0) e, ap (λ p. p.1) e, websocket_loop)
        (ap (behind (as_reply m ∷ [])) (websocket_loop-echo ms c h))

  -- Let the router of a connection be what `setup_routes` gives, and let it enter WebSocket mode,
  -- its time limit being set, for a GET request whose path matches "^/ws/echo$". Let each chunk
  -- that arrives then have at most 1024 bytes, so that one call of `recv` gives it whole, and begin
  -- with a final text or binary frame as a client masks it, with a length that the frame parser
  -- reads. Each of these frames is answered, in order, with one frame of its opcode and its
  -- payload; what follows it in its chunk is dropped; and the connection waits for more.
  pub process_websocket-echo :
      (json : JsonLibrary Json) (request : HttpRequest) (groups : List Bytes) (ms : List Message)
      (c : FileCache)
      → setup_routes setting.fs setting.library json initial ≡ some setting.router
      → setting.timeout_is_set ≡ true
      → same_method get request.method ≡ true
      → setting.library.regex_match request.path (codes "^/ws/echo$") ≡ some groups
      → All (IsMessage setting.char_signed) ms
      → process_websocket setting request (map as_chunk ms) c ≡ waits (map as_reply ms)
  unfolding process_websocket websocket_loop
  process_websocket-echo json request groups ms c h t g p a =
      rw
        (
          get_websocket_handler-setup_routes setting.fs setting.library json setting.router request
              h,
          g,
          p,
          t,
          limited-eq setting.char_signed ms a,
          process_websocket,
        )
        (websocket_loop-echo ms c a)
