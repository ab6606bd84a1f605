-- ===== src/Gateway/Connections.antt =====
-- `clients_` of src/tcp_server.cpp through the operations of the polling thread.

use lloms.Base.{ℕ, ◌+◌, ◌≡◌, refl, inl, inr, false, some, List, [], ◌∷◌, arith, drop, Option-cases}
use lloms.Base.Dict
use lloms.Base.Dict.{lookup-insert, lookup-erase}
use lloms.Base.Text.{Text}
use lloms.Gateway.Execute.{IngressMessage, ResponseMessage}
use lloms.Gateway.Server.{
  ClientConnection, Clients, TcpServer, Written, again, flush_loop, flush_client_write_buffer,
  deliver, handle_client_write, accept_client, set_read_buffer, enqueue,
}
use lloms.Gateway.Replies.{Keyed, Keyed-flushed}
use lloms.Gateway.Poll.{handle_new_connection}

flush_loop_again : (counts : List ℕ) (s : Text) → (flush_loop counts again s).failed ≡ false
unfolding flush_loop
flush_loop_again counts [] = refl
flush_loop_again [] (c ∷ s) = refl
flush_loop_again (sent ∷ counts) (c ∷ s) = flush_loop_again counts (drop sent (c ∷ s))

-- A client is there as long as no write to it fails.
abbrev pub Present : ℕ → Clients → Type 0
Present fd clients = (client : ClientConnection) × (Dict.lookup fd clients ≡ some client)

pub flush-Present :
    (w : Written) (client : ClientConnection) (clients : Clients)
    → w.ending ≡ again
    → Present client.fd (flush_client_write_buffer w client clients).0
unfolding flush_client_write_buffer
flush-Present w client clients e =
    let f = flush_loop w.counts w.ending client.write_buffer in
    let kept = record client { write_buffer = f.left } in
    let fine : f.failed ≡ false = rw e (flush_loop_again w.counts client.write_buffer) in
    (kept, ground (arith, fine, lookup-insert client.fd client.fd kept clients))

insert-Keyed :
    (fd : ℕ) (client : ClientConnection) (clients : Clients)
    → client.fd ≡ fd
    → Keyed clients
    → Keyed (Dict.insert fd client clients)
insert-Keyed fd client clients e k key c found =
    ground (arith, lookup-insert fd key client clients, k key c, e, found)

pub erase-Keyed : (fd : ℕ) (clients : Clients) → Keyed clients → Keyed (Dict.erase fd clients)
erase-Keyed fd clients k key c found = ground (arith, lookup-erase fd key clients, k key c, found)

pub set_read_buffer-Keyed :
    (fd : ℕ) (text : Text) (s : TcpServer)
    → Keyed s.clients
    → Keyed (set_read_buffer fd text s).clients
unfolding set_read_buffer
set_read_buffer-Keyed fd text s k = elim (Option-cases (Dict.lookup fd s.clients)) [
  | inl e ↦ rw (e, set_read_buffer) k
  | inr (client, e) ↦ rw (e, set_read_buffer) (insert-Keyed fd _ s.clients (k fd client e) k)
]

pub set_read_buffer-Present :
    (fd : ℕ) (text : Text) (s : TcpServer)
    → Present fd s.clients
    → Present fd (set_read_buffer fd text s).clients
unfolding set_read_buffer
set_read_buffer-Present fd text s (client, e) =
    let kept = record client { read_buffer = text } in
    rw (e, set_read_buffer) (kept, ground (arith, lookup-insert fd fd kept s.clients))

pub handle_new_connection-Keyed :
    (fds : List ℕ) (s : TcpServer) → Keyed s.clients → Keyed (handle_new_connection fds s).clients
unfolding handle_new_connection accept_client
handle_new_connection-Keyed [] s k = k
handle_new_connection-Keyed (fd ∷ fds) s k =
    handle_new_connection-Keyed fds (accept_client fd s) (insert-Keyed fd _ s.clients refl k)

pub deliver-Keyed :
    (writes : ℕ → Written) (i : ℕ) (responses : List ResponseMessage) (clients : Clients)
    → Keyed clients
    → Keyed (deliver writes i responses clients).0
unfolding deliver
deliver-Keyed writes i [] clients k = k
deliver-Keyed writes i (resp ∷ responses) clients k =
    elim (Option-cases (Dict.lookup resp.client_fd clients)) [
      | inl e ↦ rw (e, deliver) (deliver-Keyed writes (i + 1) responses clients k)
      | inr (c, e) ↦
          rw (e, deliver)
            (deliver-Keyed writes (i + 1) responses _ (Keyed-flushed (writes i) _ clients k))
    ]

pub handle_client_write-Keyed :
    (w : Written) (fd : ℕ) (s : TcpServer)
    → Keyed s.clients
    → Keyed (handle_client_write w fd s).clients
unfolding handle_client_write
handle_client_write-Keyed w fd s k = elim (Option-cases (Dict.lookup fd s.clients)) [
  | inl e ↦ rw (e, handle_client_write) k
  | inr (client, e) ↦ rw (e, handle_client_write) (Keyed-flushed w client s.clients k)
]

-- What the loop over the lines needs of the client that it reads from.
pub record Kept (fd : ℕ) (clients : Clients) : Type 0 where
  pub keyed : Keyed clients
  pub present : Present fd clients

pub enqueue-clients :
    (msg : IngressMessage) (s t : TcpServer) → enqueue msg s ≡ some t → t.clients ≡ s.clients
unfolding enqueue
enqueue-clients msg s t e = ground arith
