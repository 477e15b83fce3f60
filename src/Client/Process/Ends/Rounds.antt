-- ===== src/Client/Process/Ends/Rounds.antt =====
-- One round of the loop: what is answered, and which calls are left.
use gouda_http_server.Common.{
  either, ◌≡◌, refl, Bool, true, false, Option, none, some, List, [], ◌∷◌, if◌then◌else◌,
  Bool-cases, inl, inr,
}
use gouda_http_server.Common.Bytes.{codes}
use gouda_http_server.Cache.{FileCache}
use gouda_http_server.Client.{Recv, received, closed, would_block, failed, should_keep_alive}
use gouda_http_server.Client.Cut.{Setting, Piece}
use gouda_http_server.Client.Process.{
  lacks_host, Output, response, bad, Ending, keeps, closes, fails, waits, throws, exhausted, behind,
  limited, websocket_loop, process_websocket, answer_upgrade, answer_plain, answer_request,
  answer_piece,
}
use gouda_http_server.Http.Message.{
  HttpRequest, HttpResponse, WebSocketRequestData, text, stream, websocket,
}
use gouda_http_server.Parser.{parse}
use gouda_http_server.Router.Dispatch.{route}
use gouda_http_server.Router.Routes.{WebSocketHandler, get_websocket_handler}

-- The end of a round: it is never the end of the fuel, and what goes on has these calls left.
abbrev pub Stays : List Recv → Ending → Type 0
Stays reads (keeps o rest c) = rest ≡ reads
Stays reads (exhausted o) = ⊥
Stays reads _ = Unit

-- It ends, and does not go on.
abbrev pub IsLast : Ending → Type 0
IsLast (keeps o rest c) = ⊥
IsLast (exhausted o) = ⊥
IsLast _ = Unit

pub behind-IsLast : (o : List Output) (e : Ending) → IsLast e → IsLast (behind o e)
behind-IsLast o (keeps p rest c) h = h
behind-IsLast o (closes p c) h = tt
behind-IsLast o (fails p c) h = tt
behind-IsLast o (waits p) h = tt
behind-IsLast o (throws p) h = tt
behind-IsLast o (exhausted p) h = h

IsLast-Stays : (reads : List Recv) (e : Ending) → IsLast e → Stays reads e
IsLast-Stays reads (keeps p rest c) h = absurd h
IsLast-Stays reads (closes p c) h = tt
IsLast-Stays reads (fails p c) h = tt
IsLast-Stays reads (waits p) h = tt
IsLast-Stays reads (throws p) h = tt
IsLast-Stays reads (exhausted p) h = absurd h

frames-IsLast :
    (b : Bool) (o : List Output) (c : FileCache) (e : Ending)
    → IsLast e
    → IsLast (elim b [ true ↦ behind o e | false ↦ closes o c ])
frames-IsLast true o c e h = behind-IsLast o e h
frames-IsLast false o c e h = tt

module _ {Json : Type 0} (setting : Setting Json) where
  websocket_loop-IsLast :
      (handler : WebSocketHandler) (reads : List Recv) (c : FileCache)
      → IsLast (websocket_loop setting handler reads c)
  unfolding websocket_loop
  websocket_loop-IsLast handler [] c = tt
  websocket_loop-IsLast handler (received chunk ∷ reads) c =
      frames-IsLast _ _ c (websocket_loop setting handler reads c)
        (websocket_loop-IsLast handler reads c)
  websocket_loop-IsLast handler (closed ∷ reads) c = tt
  websocket_loop-IsLast handler (would_block ∷ reads) c = tt
  websocket_loop-IsLast handler (failed ∷ reads) c = tt

  process_websocket-IsLast :
      (request : HttpRequest) (reads : List Recv) (c : FileCache)
      → IsLast (process_websocket setting request reads c)
  unfolding process_websocket
  process_websocket-IsLast request reads c =
      elim (get_websocket_handler setting.library setting.router request)
        as (λ o. IsLast (elim o [
          | none ↦ closes [] c
          | some handler ↦
              if setting.timeout_is_set
              then websocket_loop setting handler (limited reads) c
              else closes [] c
        ])) [
          | none ↦ tt
          | some handler ↦
              either IsLast setting.timeout_is_set (websocket_loop-IsLast handler (limited reads) c)
                tt
        ]

  answer_upgrade-IsLast :
      (request : HttpRequest) (reads : List Recv) (r : HttpResponse) (c : FileCache)
      → IsLast (answer_upgrade setting request reads (r, c))
  unfolding answer_upgrade
  answer_upgrade-IsLast request reads r c =
      elim r.body
        as (λ b. IsLast (elim b [
          | text body ↦ bad (codes "Invalid WebSocket route") c
          | stream body ↦ bad (codes "Invalid WebSocket route") c
          | websocket accept ↦ behind (response r ∷ []) (process_websocket setting request reads c)
        ])) [
          | text body ↦ tt
          | stream body ↦ tt
          | websocket accept ↦
              behind-IsLast (response r ∷ []) _ (process_websocket-IsLast request reads c)
        ]

  answer_plain-Stays :
      (request : HttpRequest) (reads : List Recv) (answer : HttpResponse × FileCache)
      → Stays reads (answer_plain setting request reads answer)
  unfolding answer_plain
  answer_plain-Stays request reads (r, c) = either (Stays reads) (should_keep_alive request) refl tt

  answered-Stays :
      (request : HttpRequest) (reads : List Recv) (o : Option (HttpResponse × FileCache))
      (w : Option WebSocketRequestData)
      → Stays reads (elim o [
        | none ↦ throws []
        | some answer ↦ elim w [
          | some ws_data ↦ answer_upgrade setting request reads answer
          | none ↦ answer_plain setting request reads answer
        ]
      ])
  answered-Stays request reads none w = tt
  answered-Stays request reads (some (r, c)) (some ws_data) =
      IsLast-Stays reads _ (answer_upgrade-IsLast request reads r c)
  answered-Stays request reads (some answer) none = answer_plain-Stays request reads answer

  answer_request-Stays :
      (request : HttpRequest) (json_body : Option Json) (reads : List Recv) (c : FileCache)
      → Stays reads (answer_request setting request json_body reads c)
  unfolding answer_request
  answer_request-Stays request json_body reads c = elim (Bool-cases (lacks_host request)) [
    | inl e ↦ rw (e, answer_request) tt
    | inr e ↦
        rw (e, answer_request)
          (answered-Stays request reads
            (route setting.library request setting.fs setting.router json_body c)
            request.websocket_data)
  ]

  pub answer_piece-Stays :
      (p : Piece Json) (c : FileCache) → Stays p.reads (answer_piece setting p c)
  unfolding answer_piece
  answer_piece-Stays p c =
      elim (parse p.text)
        as (λ o. Stays p.reads (elim o [
          | none ↦ bad (codes "Malformed request") c
          | some request ↦ answer_request setting request p.json_body p.reads c
        ])) [ none ↦ tt | some request ↦ answer_request-Stays request p.json_body p.reads c ]
