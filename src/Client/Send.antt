-- ===== src/Client/Send.antt =====
-- `ClientHandler::send_raw` and `send_error_response` of src/client_handler.cpp. What the calls of
-- `send` give is a list, the first call first; where it ends, the next call waits. A call takes at
-- most the bytes that it is given.
pub mod Delivered
use gouda_http_server.Common.{
  ℕ, zero, suc, ◌-◌, min, Option, none, some, List, [], ◌∷◌, ◌++◌, length, take, drop,
}
use gouda_http_server.Common.Bytes.{Bytes, codes}
use gouda_http_server.Http.Builder.{build, build_headers_only}
use gouda_http_server.Http.Message.{
  HttpResponse, ResponseBody, text, stream, websocket, text_response,
}
use gouda_http_server.Http.Status.{
  HttpStatusCode, internal_server_error, status_code_to_string_view,
}
use gouda_http_server.Router.Outside.{FileSystem, Library}
use gouda_http_server.Router.Pages.{content_type_json}
use gouda_http_server.Router.Responses.{with_header}

-- One call of `send`: the number of bytes it took, or -1.
pub data Send : Type 0 where
  accepted : ℕ → Send
  send_failed : Send

-- The bytes that went out: all of them, with the calls that are left; those before an error; or
-- those before a call that waits.
pub data Transfer : Type 0 where
  done stopped : Bytes → List Send → Transfer
  blocked : Bytes → Transfer

abbrev pub prepend : Bytes → Transfer → Transfer
prepend s (done t sends) = done (s ++ t) sends
prepend s (stopped t sends) = stopped (s ++ t) sends
prepend s (blocked t) = blocked (s ++ t)

-- What follows, unless there was an error.
abbrev pub and_then : Transfer → (List Send → Transfer) → Transfer
and_then (done s sends) k = prepend s (k sends)
and_then (stopped s sends) k = stopped s sends
and_then (blocked s) k = blocked s

-- The loop `while (sent_total < raw.size())`, on the bytes from `sent_total` on.
unfoldable pub send_all : Bytes → List Send → Transfer
send_all [] sends = done [] sends
send_all (c ∷ s) [] = blocked []
send_all (c ∷ s) (send_failed ∷ sends) = stopped [] sends
send_all (c ∷ s) (accepted n ∷ sends) = prepend (take n (c ∷ s)) (send_all (drop n (c ∷ s)) sends)

module _ (stream_buffer_size : ℕ) where
  -- The loop `while (bytes_sent < bytes_to_send)`, on the difference of the two, and on the bytes
  -- from the position of the file on. Each round sends a byte at least, so `bytes_to_send` is enough
  -- fuel, and no fuel is the end of the loop.
  unfoldable pub stream_loop : ℕ → ℕ → Bytes → List Send → Transfer
  stream_loop zero remaining left sends = done [] sends
  stream_loop (suc fuel) remaining left sends =
      elim (take (min stream_buffer_size remaining) left) [
        | [] ↦ done [] sends
        | c ∷ s ↦
            and_then (send_all (c ∷ s) sends)
              (stream_loop fuel (remaining - length (c ∷ s)) (drop (length (c ∷ s)) left))
      ]

  module _ (fs : FileSystem) (library : Library) where
    -- The function that `std::visit` takes, on the kinds of body.
    unfoldable pub send_body : HttpResponse → ResponseBody → List Send → Transfer
    send_body response (text body) sends = send_all (build response) sends
    send_body response (stream body) sends = elim (fs.read_file body.file_path) [
      | none ↦
          send_all
            (build (
              text_response internal_server_error
                (library.dump_error (codes "Failed to stream file")) content_type_json))
            sends
      | some content ↦
          and_then (send_all (build_headers_only response) sends)
            (stream_loop body.file_size body.file_size (drop body.offset content))
    ]
    send_body response (websocket body) sends = send_all (build response) sends

    abbrev pub send_raw : HttpResponse → List Send → Transfer
    send_raw response sends = send_body response response.body sends

-- The response of `send_error_response`, which hands it to `send_raw`, and the one with the words of
-- the status.
unfoldable pub error_response : HttpStatusCode → Bytes → Bytes → HttpResponse
error_response code body content_type =
    with_header (codes "Connection") (codes "close") (text_response code body content_type)

unfoldable pub status_error_response : HttpStatusCode → Bytes → HttpResponse
unfolding error_response
status_error_response code content_type =
    error_response code (status_code_to_string_view code) content_type
