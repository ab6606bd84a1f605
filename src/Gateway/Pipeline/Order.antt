-- ===== src/Gateway/Pipeline/Order.antt =====
-- Any steps of the threads of src/tcp_server.cpp, on a new server.
use lloms.Base.{
  ℕ, ◌^◌, ◌≤◌, ◌≡◌, refl, sym, ap, inl, inr, false, Option, some, List, [], ◌∷◌, ◌++◌, is_nil,
  append_assoc, append-nil, Option-cases, Bool-cases,
}
use lloms.Base.Dict
use lloms.Base.Text.{Text}
use lloms.Protocol.{new, cancel, flush, unknown, CommandType, parse_line}
use lloms.Pool.{Book}
use lloms.Spsc.History.{init-IsValid}
use lloms.Gateway.Execute.{IngressMessage}
use lloms.Gateway.Server.{
  ClientConnection, TcpServer, Written, no_message, no_response, new_server, handle_client_write,
  process_client_line, execute_next, accept_client, set_read_buffer,
}
use lloms.Gateway.Pipeline.{
  Event, client_accepted, client_closed, clients_closed, input_kept, line_read, socket_ready,
  responses_drained, commands_popped, command_executed, step, line_messages, messages_of, run,
  execute_all, Pipeline,
}
use lloms.Gateway.Pipeline.Keeps.{
  Allowed, Ordered, clients_changed, enqueue_lem, pop_commands_lem, drain_lem, execute_next_lem,
}

module _ (from_chars : ℕ → Text → Option (ℕ × ℕ)) (to_string : ℕ → Text) (book : Book) where
  abbrev Follows : List IngressMessage → TcpServer → Type 0
  Follows = Ordered from_chars to_string book

  typed_line_lem :
      (ms : List IngressMessage) (s : TcpServer) (now now_ns : ℕ) (w : Written)
      (client : ClientConnection) (line : Text) (t : CommandType)
      → is_nil line ≡ false
      → (parse_line from_chars now line).type ≡ t
      → Follows ms s
      → Allowed
          (Follows
            (ms ++ line_messages from_chars to_string now now_ns s.next_sequence client line))
          (process_client_line from_chars to_string now now_ns w client line s)
  unfolding process_client_line
  typed_line_lem ms s now now_ns w client line unknown some_text e p =
      rw (some_text, e, append-nil) (clients_changed from_chars to_string book ms s _ p)
  typed_line_lem ms s now now_ns w client line new some_text e p =
      rw (some_text, e) (enqueue_lem from_chars to_string book ms s _ p refl)
  typed_line_lem ms s now now_ns w client line cancel some_text e p =
      rw (some_text, e) (enqueue_lem from_chars to_string book ms s _ p refl)
  typed_line_lem ms s now now_ns w client line flush some_text e p =
      rw (some_text, e) (enqueue_lem from_chars to_string book ms s _ p refl)

  line_lem :
      (ms : List IngressMessage) (s : TcpServer) (now now_ns : ℕ) (w : Written)
      (client : ClientConnection) (line : Text)
      → Follows ms s
      → Allowed
          (Follows
            (ms ++ line_messages from_chars to_string now now_ns s.next_sequence client line))
          (process_client_line from_chars to_string now now_ns w client line s)
  unfolding process_client_line
  line_lem ms s now now_ns w client line p = elim (Bool-cases (is_nil line)) [
    | inl nothing ↦ rw (nothing, append-nil) p
    | inr some_text ↦
        typed_line_lem ms s now now_ns w client line (parse_line from_chars now line).type some_text
          refl p
  ]

  execute_lem :
      (ms : List IngressMessage) (s : TcpServer) (batch : List IngressMessage)
      → s.batch ≡ batch
      → Follows ms s
      → Allowed (Follows ms) (execute_next from_chars to_string s)
  unfolding execute_next
  execute_lem ms s [] e p = rw (e, execute_next) tt
  execute_lem ms s (msg ∷ batch) e p = execute_next_lem from_chars to_string book ms s msg batch e p

  step_lem :
      (ms : List IngressMessage) (s : TcpServer) (e : Event)
      → Follows ms s
      → Allowed
          (Follows (ms ++ messages_of from_chars to_string s e))
          (step from_chars to_string s e)
  unfolding step messages_of accept_client handle_client_write set_read_buffer
  step_lem ms s (client_accepted fd) p =
      rw append-nil (clients_changed from_chars to_string book ms s _ p)
  step_lem ms s (client_closed fd) p =
      rw append-nil (clients_changed from_chars to_string book ms s _ p)
  step_lem ms s clients_closed p =
      rw append-nil (clients_changed from_chars to_string book ms s _ p)
  step_lem ms s (input_kept fd text) p = elim (Option-cases (Dict.lookup fd s.clients)) [
    | inl e ↦ rw (e, set_read_buffer, append-nil) p
    | inr (client, e) ↦
        rw (e, set_read_buffer, append-nil) (clients_changed from_chars to_string book ms s _ p)
  ]
  step_lem ms s (line_read now now_ns w fd line) p =
      elim (Option-cases (Dict.lookup fd s.clients)) [
        | inl e ↦ rw (e, step, messages_of, append-nil) p
        | inr (client, e) ↦ rw (e, step, messages_of) (line_lem ms s now now_ns w client line p)
      ]
  step_lem ms s (socket_ready w fd) p = elim (Option-cases (Dict.lookup fd s.clients)) [
    | inl e ↦ rw (e, handle_client_write, append-nil) p
    | inr (client, e) ↦
        rw (e, handle_client_write, append-nil) (clients_changed from_chars to_string book ms s _ p)
  ]
  step_lem ms s (responses_drained writes) p =
      rw append-nil (drain_lem from_chars to_string book ms s writes p)
  step_lem ms s commands_popped p =
      rw append-nil (pop_commands_lem from_chars to_string book ms s p)
  step_lem ms s command_executed p = rw append-nil (execute_lem ms s s.batch refl p)

  run_lem :
      (events : List Event) (ms : List IngressMessage) (s : TcpServer)
      → Follows ms s
      → Allowed (λ r. Follows (ms ++ r.1) r.0) (run from_chars to_string s events)
  unfolding run
  run_lem [] ms s p = rw append-nil p
  run_lem (e ∷ events) ms s p =
      let here = step_lem ms s e p in
      elim (Option-cases (step from_chars to_string s e)) [
        | inl stuck ↦ rw (stuck, run) tt
        | inr (s', went) ↦
            let later =
              run_lem events (ms ++ messages_of from_chars to_string s e) s' (rw went at here) in
            elim (Option-cases (run from_chars to_string s' events)) [
              | inl stuck ↦ rw (went, run, stuck) tt
              | inr (r, ended) ↦ rw (went, run, ended) (rw append_assoc at (rw ended at later))
            ]
      ]

  new_server_lem :
      (capacity : ℕ) (s : TcpServer)
      → capacity ≤ 2 ^ 63
      → new_server book capacity ≡ some s
      → Follows [] s
  unfolding new_server execute_all
  new_server_lem capacity s small e =
      let (q, made, valid, none_yet, _) = init-IsValid no_message capacity small in
      let (r, made', valid', none_yet', _) = init-IsValid no_response capacity small in
      let first : Allowed (Follows []) (new_server book capacity) =
        rw (made, made', new_server)
          (record {
            executed = [];
            drained = [];
            in_order = sym none_yet;
            results = ap (λ rs. (book, rs)) (sym none_yet');
            processed = refl;
            numbered = tt;
            next = refl;
            ingress = valid;
            response = valid';
          }) in
      rw e at first

-- On a new server, with queues of a capacity up to 2 to the 63, whatever steps of the two threads have
-- been made and in whatever order: the messages made of the clients' lines are numbered from 1 in their
-- order, the first of them are executed, on the book and with the answers that they have one after the
-- other, the others wait in their order in the batch and the queue; and the answers are drained or wait
-- in their order.
pub run-Pipeline :
    (from_chars : ℕ → Text → Option (ℕ × ℕ)) (to_string : ℕ → Text) (book : Book) (capacity : ℕ)
    (s t : TcpServer) (events : List Event) (ms : List IngressMessage)
    → capacity ≤ 2 ^ 63
    → new_server book capacity ≡ some s
    → run from_chars to_string s events ≡ some (t, ms)
    → Pipeline from_chars to_string book ms t
run-Pipeline from_chars to_string book capacity s t events ms small made ran =
    let start = new_server_lem from_chars to_string book capacity s small made in
    rw ran at (run_lem from_chars to_string book events [] s start)
