-- ===== src/Client.antt =====
-- The reading of a request in `ClientHandler`, src/client_handler.cpp: `read_headers`,
-- `get_content_length`, `read_body`, `read_requests` and `should_keep_alive`. What the calls of
-- `recv` give is a list, the first call first; where it ends, the next call waits.
pub mod Head
pub mod Complete
pub mod Whole
pub mod OneCall
pub mod Chunks
pub mod Send
pub mod Cut
pub mod Process
mod Tests
use mathlib.Core.Option
use gouda_http_server.Common.{
  ℕ, suc, ◌+◌, ◌-◌, ◌%◌, ◌^◌, Bool, true, false, ◌&&◌, ◌||◌, Option, none, some, List, [], ◌∷◌,
  ◌++◌, ltb, ◌==◌, if◌then◌else◌, length, take, drop,
}
use gouda_http_server.Common.Bytes.{Bytes, codes, eq, find, isdigit, starts_with}
use gouda_http_server.Common.Decimal.{stoull}
use gouda_http_server.Common.Options.{◌>>=◌, ◌>>◌, guard}
use gouda_http_server.Http.Headers.{get_header}
use gouda_http_server.Http.Message.{HttpRequest}
use gouda_http_server.Http.Words.{HttpVersion, http_1_1}

-- One call of `recv`: bytes, the end of the connection, a timeout (`EAGAIN`), another error.
pub data Recv : Type 0 where
  received : Bytes → Recv
  closed would_block failed : Recv

-- What a reading function does: it returns a value, and the calls that are left; it returns
-- `nullopt` or `false`; it returns it behind the response 408; or it waits.
pub data Outcome {ℓ} (A : Type ℓ) : Type ℓ where
  returned : A → List Recv → Outcome A
  refused timed_out waiting : Outcome A

-- The value of a header that is looked up, or whether the version is 1.1.
unfoldable pub should_keep_alive : HttpRequest → Bool
should_keep_alive request = elim (get_header (codes "Connection") (request.headers)) [
  | some value ↦ eq value (codes "keep-alive")
  | none ↦ elim (request.version) [ http_1_1 ↦ true | _ ↦ false ]
]

-- `buffer` with "\r\n\r\n" in place of the two line feeds at `alt_end`.
abbrev pub normalized : ℕ → Bytes → Bytes
normalized alt_end buffer = take alt_end buffer ++ (codes "\r\n\r\n" ++ drop (alt_end + 2) buffer)

-- The two searches behind `buffer.append`: the headers and the buffer.
unfoldable pub find_headers : Bytes → Option (Bytes × Bytes)
find_headers buffer = elim (find (codes "\r\n\r\n") buffer) [
  | some header_end ↦ some (take (header_end + 4) buffer, buffer)
  | none ↦ elim (find (codes "\n\n") buffer) [
    | some alt_end ↦
        some (take (alt_end + 2) (normalized alt_end buffer), normalized alt_end buffer)
    | none ↦ none
  ]
]

-- The early returns of `read_headers` when nothing was received.
abbrev pub on_timeout : Bytes → Outcome (Bytes × Bytes)
on_timeout [] = refused
on_timeout (c ∷ s) = timed_out

-- The loop: the headers and the buffer, which the program returns by reference.
unfoldable pub read_headers : ℕ → Bytes → List Recv → Outcome (Bytes × Bytes)
read_headers max_header_size buffer [] =
    if ltb (length buffer) max_header_size then waiting else refused
read_headers max_header_size buffer (received chunk ∷ reads) =
    elim (ltb (length buffer) max_header_size) [
      | false ↦ refused
      | true ↦ elim (find_headers (buffer ++ chunk)) [
        | some found ↦ returned found reads
        | none ↦ read_headers max_header_size (buffer ++ chunk) reads
      ]
    ]
read_headers max_header_size buffer (would_block ∷ reads) =
    if ltb (length buffer) max_header_size then on_timeout buffer else refused
read_headers max_header_size buffer (closed ∷ reads) = refused
read_headers max_header_size buffer (failed ∷ reads) = refused

-- The text behind each "Content-Length:". Two occurrences cannot overlap, so the search from behind
-- the last one finds each of them.
unfoldable pub occurrences : Bytes → List Bytes
occurrences [] = []
occurrences (c ∷ s) =
    let rest = occurrences s in
    if starts_with (codes "Content-Length:") (c ∷ s) then drop 14 s ∷ rest else rest

-- `find_first_of("0123456789", pos)`: the text from there on.
unfoldable pub from_digit : Bytes → Option Bytes
from_digit [] = none
from_digit (c ∷ s) = if isdigit c then some (c ∷ s) else from_digit s

-- `last_value_start`, as the text from there on.
unfoldable pub last_value : List Bytes → Option Bytes → Option Bytes
last_value [] last = last
last_value (s ∷ more) last =
    last_value more (elim (from_digit s) [ some value ↦ some value | none ↦ last ])

-- The digits in front; behind a digit the two calls of `erase` find no blank at either end.
unfoldable pub digits_prefix : Bytes → Bytes
digits_prefix [] = []
digits_prefix (c ∷ s) = let rest = digits_prefix s in if isdigit c then c ∷ rest else []

-- `std::stoul` and the limit.
unfoldable pub bounded_length : ℕ → Bytes → Option ℕ
bounded_length max_content_length value = stoull value >>= λ content_length.
    if ltb max_content_length content_length then none else some content_length

unfoldable pub get_content_length : ℕ → Bytes → Option ℕ
get_content_length max_content_length headers =
    let found = occurrences headers in
    if ltb 1 (length found) then none else (elim (last_value found none) [
      | none ↦ some 0
      | some value ↦ bounded_length max_content_length (digits_prefix value)
    ])

module _ (max_content_length content_length header_end : ℕ) where
  -- The test of the loop of `read_body`, whose sum is of `size_t`, and what follows the loop.
  abbrev pub wants_more : Bytes → ℕ → Bool
  wants_more buffer current_body_size =
      ltb current_body_size content_length
      && ltb (length buffer) ((max_content_length + header_end) % 2 ^ 64)

  abbrev pub check_body : Bytes → ℕ → List Recv → Outcome Bytes
  check_body buffer current_body_size reads =
      if ltb current_body_size content_length then refused else returned buffer reads

  -- The loop: the buffer, when the body is complete.
  unfoldable pub body_loop : Bytes → ℕ → List Recv → Outcome Bytes
  body_loop buffer current_body_size [] =
      if wants_more buffer current_body_size
      then waiting
      else check_body buffer current_body_size []
  body_loop buffer current_body_size (received chunk ∷ reads) =
      elim (wants_more buffer current_body_size) [
        | false ↦ check_body buffer current_body_size (received chunk ∷ reads)
        | true ↦ body_loop (buffer ++ chunk) (current_body_size + length chunk) reads
      ]
  body_loop buffer current_body_size (r ∷ reads) =
      if wants_more buffer current_body_size
      then refused
      else check_body buffer current_body_size (r ∷ reads)

  -- The first body size is a difference of sizes.
  unfoldable pub read_body : Bytes → List Recv → Outcome Bytes
  read_body buffer reads = body_loop buffer ((length buffer + 2 ^ 64 - header_end) % 2 ^ 64) reads

-- `read_requests` behind the headers.
unfoldable pub read_rest : ℕ → Bytes → Bytes → List Recv → Outcome Bytes
read_rest max_content_length headers buffer reads =
    elim (get_content_length max_content_length headers) [
      | none ↦ refused
      | some content_length ↦
          if ltb 0 content_length
          then read_body max_content_length content_length (length headers) buffer reads
          else returned buffer reads
    ]

unfoldable pub read_requests : ℕ → ℕ → List Recv → Outcome Bytes
read_requests max_header_size max_content_length reads =
    elim (read_headers max_header_size [] reads) [
      | returned (headers, buffer) rest ↦ read_rest max_content_length headers buffer rest
      | refused ↦ refused
      | timed_out ↦ timed_out
      | waiting ↦ waiting
    ]
