-- ===== src/Sockets.antt =====
-- `Socket`, `SocketFactory` and `accept_socket` of include/socket_wrapper.h: who owns a descriptor,
-- and which calls of `::close` are made. What the system calls give is an argument.
pub mod Closed
pub mod Server
mod Tests
use gouda_http_server.Common.{
  ℕ, Bool, true, false, not, ◌&&◌, Option, none, some, List, [], ◌∷◌, ◌++◌, if◌then◌else◌,
}

-- `Socket::Type`.
pub data SocketType : Type 0 where
  client_type server_type : SocketType

abbrev pub is_server : SocketType → Bool
is_server server_type = true
is_server client_type = false

-- `m_fd`, `none` being -1, and `m_type`.
pub record Socket : Type 0 where
  pub fd : Option ℕ
  pub type : SocketType

-- The constructor, which throws for -1.
unfoldable pub create : Option ℕ → SocketType → Option Socket
create none type = none
create (some fd) type = some (record { fd = some fd; type = type })

-- The destructor: the calls of `::close` so far, the first one first, and this one.
unfoldable pub destroy : Socket → List ℕ → List ℕ
destroy sock closes = elim sock.fd [ none ↦ closes | some fd ↦ closes ++ fd ∷ [] ]

-- The move constructor: the new socket, and what is left of the old one.
unfoldable pub move : Socket → Socket × Socket
move other = (other, record other { fd = none })

-- The move assignment, of another socket.
unfoldable pub move_assign : Socket → Socket → List ℕ → Socket × Socket × List ℕ
move_assign sock other closes = (
  record { fd = other.fd; type = other.type },
  record other { fd = none },
  elim sock.fd [ none ↦ closes | some fd ↦ closes ++ fd ∷ [] ],
)

-- `bind`, `listen` and `connect`, with what the system call gives.
abbrev pub bind : Socket → Bool → Bool
bind sock is_done = is_server sock.type && is_done

abbrev pub listen : Socket → Bool → Bool
listen sock is_done = is_server sock.type && is_done

abbrev pub connect : Socket → Bool → Bool
connect sock is_done = not (is_server sock.type) && is_done

abbrev pub is_valid : Socket → Bool
is_valid sock = elim sock.fd [ none ↦ false | some fd ↦ true ]

-- An address of `getaddrinfo`, with what `socket`, `set_reuse`, `bind`, `listen` and `connect` give.
pub record Address : Type 0 where
  pub fd : Option ℕ
  pub is_reused : Bool
  pub is_bound : Bool
  pub is_listening : Bool
  pub is_connected : Bool

-- `std::expected<Socket, std::string>`, with a constructor for each error.
pub data Made : Type 0 where
  made : Socket → Made
  getaddrinfo_failed reuse_failed no_address : Made

-- The loop of `make_server_socket`. A round that fails closes the descriptor, and so does the
-- destructor of its socket.
unfoldable pub server_loop : List Address → List ℕ → Made × List ℕ
server_loop [] closes = (no_address, closes)
server_loop (p ∷ addresses) closes = elim p.fd [
  | none ↦ server_loop addresses closes
  | some fd ↦
      let sock : Socket = record { fd = some fd; type = server_type } in
      elim p.is_reused [
        | false ↦ (reuse_failed, destroy sock closes)
        | true ↦ elim (bind sock p.is_bound && listen sock p.is_listening) [
          | true ↦ (made (move sock).0, destroy (move sock).1 closes)
          | false ↦ server_loop addresses (destroy sock (closes ++ fd ∷ []))
        ]
      ]
]

-- The loop of `make_client_socket`: the socket is destroyed first.
unfoldable pub client_loop : List Address → List ℕ → Made × List ℕ
client_loop [] closes = (no_address, closes)
client_loop (p ∷ addresses) closes = elim p.fd [
  | none ↦ client_loop addresses closes
  | some fd ↦
      let sock : Socket = record { fd = some fd; type = client_type } in
      elim (connect sock p.is_connected) [
        | true ↦ (made (move sock).0, destroy (move sock).1 closes)
        | false ↦ client_loop addresses (destroy sock closes ++ fd ∷ [])
      ]
]

-- The addresses are `none` where `getaddrinfo` fails.
unfoldable pub make_server_socket : Option (List Address) → Made × List ℕ
make_server_socket none = (getaddrinfo_failed, [])
make_server_socket (some addresses) = server_loop addresses []

unfoldable pub make_client_socket : Option (List Address) → Made × List ℕ
make_client_socket none = (getaddrinfo_failed, [])
make_client_socket (some addresses) = client_loop addresses []

-- `accept_socket`, with what `accept` gives; both errors are `none`.
unfoldable pub accept_socket : Socket → Option ℕ → Option Socket
accept_socket server_socket client_fd =
    if is_server server_socket.type then create client_fd client_type else none
