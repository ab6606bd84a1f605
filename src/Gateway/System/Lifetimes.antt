-- ===== src/Gateway/System/Lifetimes.antt =====
-- The references to clients that handle_client_read of src/tcp_server.cpp keeps over its calls.

use lloms.Base.{
  ℕ, ◌≡◌, refl, sym, subst, inl, inr, false, Option, some, List, [], ◌∷◌, ◌++◌, arith, is_nil, All,
  Option-cases, Bool-cases,
}
use lloms.Base.Dict
use lloms.Base.Dict.{lookup-insert, lookup-erase}
use lloms.Base.Text.{Text}
use lloms.Protocol.{new, cancel, flush, unknown, CommandType, parse_line, format_reject}
use lloms.Gateway.{find_newline, strip_cr, would_block, disconnected}
use lloms.Gateway.Execute.{IngressMessage}
use lloms.Spsc.{pop_batch}
use lloms.Gateway.Server.{
  ClientConnection, Clients, TcpServer, Written, again, no_response, flush_client_write_buffer,
  drain_response_queue, enqueue, process_client_line,
}
use lloms.Gateway.Replies.{Keyed, Keyed-flushed}
use lloms.Gateway.Connections.{
  Kept, flush-Present, erase-Keyed, set_read_buffer-Keyed, set_read_buffer-Present,
  handle_new_connection-Keyed, deliver-Keyed, handle_client_write-Keyed, enqueue-clients,
}
use lloms.Gateway.Poll.{
  Task, drain, accept, hang_up, read, parse, write, LineCalls, Outcome, waits, undefined, goes,
  read_all, parse_line_of, parse_next, perform,
}

module _ (from_chars : ℕ → Text → Option (ℕ × ℕ)) (to_string : ℕ → Text) where
  queued-Kept :
      (msg : IngressMessage) (fd : ℕ) (s t : TcpServer)
      → enqueue msg s ≡ some t
      → Kept fd s.clients
      → Kept fd t.clients
  queued-Kept msg fd s t went k = subst (Kept fd) (sym (enqueue-clients msg s t went)) k

  typed_line-Kept :
      (now now_ns : ℕ) (w : Written) (client : ClientConnection) (line : Text) (s t : TcpServer)
      (type : CommandType)
      → is_nil line ≡ false
      → (parse_line from_chars now line).type ≡ type
      → process_client_line from_chars to_string now now_ns w client line s ≡ some t
      → Kept client.fd s.clients
      → w.ending ≡ again
      → Kept client.fd t.clients
  unfolding process_client_line
  typed_line-Kept now now_ns w client line s t unknown full e went k fine =
      let cmd = parse_line from_chars now line in
      let rejected = record client {
        write_buffer = format_reject to_string 0 cmd.error_msg client.write_buffer;
      } in
      let same : t.clients ≡ (flush_client_write_buffer w rejected s.clients).0 =
        ground (arith, full, e, went) in
      rw same (record {
        keyed = Keyed-flushed w rejected s.clients k.keyed;
        present = flush-Present w rejected s.clients fine;
      })
  typed_line-Kept now now_ns w client line s t new full e went k fine =
      queued-Kept _ client.fd s t (rw (full, e, process_client_line) at went) k
  typed_line-Kept now now_ns w client line s t cancel full e went k fine =
      queued-Kept _ client.fd s t (rw (full, e, process_client_line) at went) k
  typed_line-Kept now now_ns w client line s t flush full e went k fine =
      queued-Kept _ client.fd s t (rw (full, e, process_client_line) at went) k

  line-Kept :
      (now now_ns : ℕ) (w : Written) (client : ClientConnection) (line : Text) (s t : TcpServer)
      → process_client_line from_chars to_string now now_ns w client line s ≡ some t
      → Kept client.fd s.clients
      → w.ending ≡ again
      → Kept client.fd t.clients
  unfolding process_client_line
  line-Kept now now_ns w client line s t went k fine = elim (Bool-cases (is_nil line)) [
    | inl nothing ↦ let same : t ≡ s = cc (rw (nothing, process_client_line) at went) in rw same k
    | inr full ↦
        typed_line-Kept now now_ns w client line s t (parse_line from_chars now line).type full refl
          went k fine
  ]

-- No write that refuses a line fails.
abbrev pub Fine : (ℕ → LineCalls) → Type 0
Fine calls = (i : ℕ) → (calls i).writes.ending ≡ again

-- A piece that is not in the midst of a read.
abbrev pub Whole : Task → Type 0
Whole (drain writes) = Unit {0}
Whole (accept fds) = Unit {0}
Whole (hang_up fd) = Unit {0}
Whole (read fd bytes_read ending calls) = Fine calls
Whole (parse fd i calls) = ⊥
Whole (write fd w) = Unit {0}

-- Only the first piece may be in the midst of a read, and then its client is there.
abbrev pub Sound : Clients → List Task → Type 0
Sound clients [] = Keyed clients
Sound clients (parse fd i calls ∷ tasks) = Kept fd clients × Fine calls × All Whole tasks
Sound clients (drain writes ∷ tasks) = Keyed clients × All Whole tasks
Sound clients (accept fds ∷ tasks) = Keyed clients × All Whole tasks
Sound clients (hang_up fd ∷ tasks) = Keyed clients × All Whole tasks
Sound clients (read fd bytes_read ending calls ∷ tasks) =
    Keyed clients × Fine calls × All Whole tasks
Sound clients (write fd w ∷ tasks) = Keyed clients × All Whole tasks

pub Whole-Sound :
    (clients : Clients) (tasks : List Task) → Keyed clients → All Whole tasks → Sound clients tasks
Whole-Sound clients [] k w = k
Whole-Sound clients (drain writes ∷ tasks) k w = (k, w.1)
Whole-Sound clients (accept fds ∷ tasks) k w = (k, w.1)
Whole-Sound clients (hang_up fd ∷ tasks) k w = (k, w.1)
Whole-Sound clients (read fd bytes_read ending calls ∷ tasks) k w = (k, w.0, w.1)
Whole-Sound clients (parse fd i calls ∷ tasks) k w = absurd w.0
Whole-Sound clients (write fd w' ∷ tasks) k w = (k, w.1)

-- What a piece must not do, and what holds after it.
abbrev pub Safe : List Task → Outcome (TcpServer × List Task) → Type 0
Safe tasks waits = Unit {0}
Safe tasks undefined = ⊥
Safe tasks (goes (t, more)) = Sound t.clients (more ++ tasks)

module _ (from_chars : ℕ → Text → Option (ℕ × ℕ)) (to_string : ℕ → Text) where
  parse_line_of-Safe :
      (client : ClientConnection) (line rest : Text) (i : ℕ) (calls : ℕ → LineCalls) (s : TcpServer)
      (tasks : List Task)
      → Kept client.fd s.clients
      → Fine calls
      → All Whole tasks
      → Safe tasks (parse_line_of from_chars to_string client line rest client.fd i calls s)
  unfolding parse_line_of
  parse_line_of-Safe client line rest i calls s tasks k fine w =
      let c = calls i in
      let fd = client.fd in
      elim (Option-cases
        (process_client_line from_chars to_string c.now c.now_ns c.writes client line s)) [
          | inl full ↦ rw (full, parse_line_of) tt
          | inr (t, done) ↦
              let kept =
                line-Kept from_chars to_string c.now c.now_ns c.writes client line s t done k
                  (fine i) in
              rw (done, kept.present.1, parse_line_of)
                (
                  record {
                    keyed = set_read_buffer-Keyed fd rest t kept.keyed;
                    present = set_read_buffer-Present fd rest t kept.present;
                  },
                  fine,
                  w,
                )
        ]

  parse-Safe :
      (fd i : ℕ) (calls : ℕ → LineCalls) (s : TcpServer) (tasks : List Task)
      → Kept fd s.clients
      → Fine calls
      → All Whole tasks
      → Safe tasks (parse_next from_chars to_string fd i calls s)
  unfolding parse_next
  parse-Safe fd i calls s tasks k fine w =
      let (client, e) = k.present in
      let own : client.fd ≡ fd = k.keyed fd client e in
      elim (Option-cases (find_newline client.read_buffer)) [
        | inl none_left ↦ rw (e, none_left, parse_next) (Whole-Sound s.clients tasks k.keyed w)
        | inr ((line, rest), found) ↦
            rw (e, found, parse_next)
              (subst
                (λ fd'.
                  Safe tasks
                    (parse_line_of from_chars to_string client (strip_cr line) rest fd' i calls s))
                own
                (parse_line_of-Safe client (strip_cr line) rest i calls s tasks
                  (subst (λ fd'. Kept fd' s.clients) (sym own) k) fine w))
      ]

  pub perform-Safe :
      (task : Task) (tasks : List Task) (s : TcpServer)
      → Sound s.clients (task ∷ tasks)
      → Safe tasks (perform from_chars to_string task s)
  unfolding perform drain_response_queue read_all
  perform-Safe (drain writes) tasks s (k, w) =
      Whole-Sound _ tasks
        (deliver-Keyed writes 0 (pop_batch no_response s.response_queue [] 64).1 s.clients k) w
  perform-Safe (accept fds) tasks s (k, w) =
      Whole-Sound _ tasks (handle_new_connection-Keyed fds s k) w
  perform-Safe (hang_up fd) tasks s (k, w) = Whole-Sound _ tasks (erase-Keyed fd s.clients k) w
  perform-Safe (read fd bytes_read disconnected calls) tasks s (k, fine, w) =
      Whole-Sound _ tasks (erase-Keyed fd s.clients k) w
  perform-Safe (read fd bytes_read would_block calls) tasks s (k, fine, w) =
      elim (Option-cases (Dict.lookup fd s.clients)) [
        | inl e ↦ rw (e, read_all) (Whole-Sound s.clients tasks k w)
        | inr (client, e) ↦
            let text = client.read_buffer ++ bytes_read in
            rw (e, read_all)
              (
                record {
                  keyed = set_read_buffer-Keyed fd text s k;
                  present = set_read_buffer-Present fd text s (client, e);
                },
                fine,
                w,
              )
      ]
  perform-Safe (parse fd i calls) tasks s (k, fine, w) = parse-Safe fd i calls s tasks k fine w
  perform-Safe (write fd w') tasks s (k, w) =
      Whole-Sound _ tasks (handle_client_write-Keyed w' fd s k) w
