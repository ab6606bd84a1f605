-- ===== src/Gateway/Sockets.antt =====
-- setup_server_socket of src/tcp_server.cpp, and the end of `start`. What the system calls return is an
-- argument, as is inet_pton; the calls whose result the code ignores are left out.
use lloms.Base.{
  ℕ, ◌≡◌, ◌⊎◌, inl, inr, arith, refl, Bool, true, false, Option, none, some, List, [], ◌∷◌, ◌==◌,
  if◌then◌else◌, Bool-cases, Option-cases,
}
use lloms.Base.Text.{Text}

-- `server_fd_` and `epoll_fd_`, of which `none` is a negative value, and the descriptors that the
-- kernel has given out and that are not closed.
pub record Sockets : Type 0 where
  pub server_fd : Option ℕ
  pub epoll_fd : Option ℕ
  pub descriptors : List ℕ

-- What the calls return: a descriptor or an error, and whether the others succeed.
pub record SetupCalls : Type 0 where
  pub socket : Option ℕ
  pub bind : ℕ → ℕ → Bool
  pub listen : Bool
  pub epoll_create1 : Option ℕ
  pub epoll_ctl : Bool

-- `close`
unfoldable pub close : ℕ → List ℕ → List ℕ
close fd [] = []
close fd (x ∷ xs) = if x == fd then xs else x ∷ close fd xs

-- INADDR_ANY, if the host is no address.
unfoldable pub address : (Text → Option ℕ) → Text → ℕ
address inet_pton host = elim (inet_pton host) [ none ↦ 0 | some addr ↦ addr ]

-- The last test of the set-up, with both descriptors open.
unfoldable pub register : SetupCalls → ℕ → ℕ → Sockets → Bool × Sockets
unfolding close
register calls server epoll k = if calls.epoll_ctl then (true, k) else (
  false,
  record {
    server_fd = none;
    epoll_fd = none;
    descriptors = close server (close epoll k.descriptors);
  },
)

-- The set-up from `bind` on, with the server's descriptor open.
unfoldable pub bind_server : SetupCalls → ℕ → ℕ → ℕ → Sockets → Bool × Sockets
unfolding register close
bind_server calls addr port server k =
    let failed : Bool × Sockets =
      (false, record k { server_fd = none; descriptors = close server k.descriptors }) in
    if calls.bind addr port
    then if calls.listen
      then elim calls.epoll_create1 [
        | none ↦ (false, record (failed.1) { epoll_fd = none })
        | some epoll ↦
            register calls server epoll
              (record k { epoll_fd = some epoll; descriptors = epoll ∷ k.descriptors })
      ]
      else failed
    else failed

unfoldable pub setup_server_socket :
    (Text → Option ℕ) → Text → ℕ → SetupCalls → Sockets → Bool × Sockets
unfolding bind_server address
setup_server_socket inet_pton host port calls k = elim calls.socket [
  | none ↦ (false, record k { server_fd = none })
  | some server ↦
      bind_server calls (address inet_pton host) port server
        (record k { server_fd = some server; descriptors = server ∷ k.descriptors })
]

abbrev pub close_if_open : Option ℕ → List ℕ → List ℕ
close_if_open none xs = xs
close_if_open (some fd) xs = close fd xs

-- The end of `start`: `epoll_fd_` first.
unfoldable pub close_sockets : Sockets → Sockets
unfolding close
close_sockets k = record {
  server_fd = none;
  epoll_fd = none;
  descriptors = close_if_open k.server_fd (close_if_open k.epoll_fd k.descriptors);
}

-- Each call that setup_server_socket tests.
pub record Succeeds (addr port server epoll : ℕ) (calls : SetupCalls) : Type 0 where
  pub socket_made : calls.socket ≡ some server
  pub bound : calls.bind addr port ≡ true
  pub listening : calls.listen ≡ true
  pub epoll_made : calls.epoll_create1 ≡ some epoll
  pub registered : calls.epoll_ctl ≡ true

abbrev pub closed : List ℕ → Sockets
closed xs = record { server_fd = none; epoll_fd = none; descriptors = xs }

abbrev pub opened : ℕ → ℕ → List ℕ → Sockets
opened server epoll xs = record {
  server_fd = some server;
  epoll_fd = some epoll;
  descriptors = epoll ∷ server ∷ xs;
}

-- From a server without descriptors, whatever the system calls return: either setup_server_socket
-- returns true, each of the five calls that it tests has succeeded, and the server has the two new
-- descriptors; or it returns false, one of the five has failed, and the server has none and none is
-- left open. What has been set up is closed again by the end of start.
pub setup_server_socket-releases :
    (inet_pton : Text → Option ℕ) (host : Text) (port : ℕ) (calls : SetupCalls) (xs : List ℕ)
    → let r = setup_server_socket inet_pton host port calls (closed xs) in
      ((server : ℕ) × (epoll : ℕ) × Succeeds (address inet_pton host) port server epoll calls
        × (r ≡ (true, opened server epoll xs))
        × (close_sockets (opened server epoll xs) ≡ closed xs))
      ⊎ (((server epoll : ℕ) → ¬ Succeeds (address inet_pton host) port server epoll calls)
          × (r ≡ (false, closed xs)))
unfolding setup_server_socket close_sockets
setup_server_socket-releases inet_pton host port calls xs = elim (Option-cases calls.socket) [
  | inl e ↦ inr (λ server epoll h. cc (e, h.socket_made), rw (e, setup_server_socket) refl)
  | inr (server, made) ↦ elim (Bool-cases (calls.bind (address inet_pton host) port)) [
    | inr e ↦ inr (λ server' epoll h. cc (e, h.bound), ground (arith, made, e))
    | inl bound ↦ elim (Bool-cases calls.listen) [
      | inr e ↦ inr (λ server' epoll h. cc (e, h.listening), ground (arith, made, bound, e))
      | inl listening ↦ elim (Option-cases calls.epoll_create1) [
        | inl e ↦
            inr (λ server' epoll h. cc (e, h.epoll_made), ground (arith, made, bound, listening, e))
        | inr (epoll, epoll_made) ↦ elim (Bool-cases calls.epoll_ctl) [
          | inr e ↦ inr (
            λ server' epoll' h. cc (e, h.registered),
            ground (arith, made, bound, listening, epoll_made, e),
          )
          | inl registered ↦ inl (
            server,
            epoll,
            record {
              socket_made = made;
              bound = bound;
              listening = listening;
              epoll_made = epoll_made;
              registered = registered;
            },
            ground (arith, made, bound, listening, epoll_made, registered),
            ground arith,
          )
        ]
      ]
    ]
  ]
]
