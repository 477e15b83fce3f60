-- ===== src/Sockets/Closed.antt =====
-- Which descriptors are closed.
use gouda_http_server.Common.{
  ℕ, ◌≡◌, refl, ap, ◌∙◌, true, false, ◌&&◌, none, some, List, [], ◌∷◌, ◌++◌, append-nil, All,
  Option-cases, inl, inr,
}
use gouda_http_server.Sockets.{
  server_type, destroy, move, bind, listen, Address, made, server_loop, make_server_socket,
}

-- `set_reuse` works, and `bind` or `listen` fails.
abbrev pub IsRefused : Address → Type 0
IsRefused p = (p.is_reused ≡ true) × ((p.is_bound && p.is_listening) ≡ false)

-- Each descriptor two times.
abbrev pub twice : List Address → List ℕ
twice [] = []
twice (p ∷ addresses) = elim p.fd [ none ↦ twice addresses | some fd ↦ fd ∷ fd ∷ twice addresses ]

append_two :
    (xs : List ℕ) (d : ℕ) (ys : List ℕ) → ((xs ++ d ∷ []) ++ d ∷ []) ++ ys ≡ xs ++ d ∷ d ∷ ys
append_two [] d ys = refl
append_two (x ∷ xs) d ys = ap (◌∷◌ x) (append_two xs d ys)

server_loop-twice :
    (refused : List Address) (p : Address) (more : List Address) (fd : ℕ) (closes : List ℕ)
    → All IsRefused refused
    → p.fd ≡ some fd
    → p.is_reused ≡ true
    → (p.is_bound && p.is_listening) ≡ true
    → server_loop (refused ++ p ∷ more) closes
      ≡ (made (record { fd = some fd; type = server_type }), closes ++ twice refused)
unfolding server_loop destroy move
server_loop-twice [] p more fd closes a e r b =
    rw (e, r, server_loop, bind, listen, b, append-nil closes)
server_loop-twice (q ∷ refused) p more fd closes ((g, h), a) e r b = elim (Option-cases q.fd) [
  | inl f ↦ rw (f, server_loop) (server_loop-twice refused p more fd closes a e r b)
  | inr (d, f) ↦
      rw (f, g, server_loop, bind, listen, h, twice)
        (server_loop-twice refused p more fd ((closes ++ d ∷ []) ++ d ∷ []) a e r b
          ∙ ap (λ l. (made (record { fd = some fd; type = server_type }), l))
              (append_two closes d (twice refused)))
]

-- For the first addresses let `set_reuse` work, and `bind` or `listen` fail; let all work for the
-- address behind them. Then `make_server_socket` returns the socket of that one, and leaves it open;
-- but each descriptor of the ones before has been closed two times.
pub make_server_socket-twice :
    (refused : List Address) (p : Address) (more : List Address) (fd : ℕ)
    → All IsRefused refused
    → p.fd ≡ some fd
    → p.is_reused ≡ true
    → (p.is_bound && p.is_listening) ≡ true
    → make_server_socket (some (refused ++ p ∷ more))
      ≡ (made (record { fd = some fd; type = server_type }), twice refused)
unfolding make_server_socket
make_server_socket-twice refused p more fd a e r b = server_loop-twice refused p more fd [] a e r b
