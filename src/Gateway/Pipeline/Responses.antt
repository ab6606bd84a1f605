-- ===== src/Gateway/Pipeline/Responses.antt =====
-- From the clients' lines to the responses, through both queues and the pool book of src/tcp_server.cpp.
use lloms.Base.{
  ℕ, suc, ◌+◌, ◌^◌, ◌≤◌, ◌≡◌, ◌≢◌, refl, sym, ap, ◌∙◌, inl, inr, false, Option, some, List, [], ◌∷◌,
  ◌++◌, map, arith, All, All-append, is_nil, append_assoc, length, length-append, Option-cases,
  Bool-cases,
}
use lloms.Base.Dict
use lloms.Base.Text.{Text}
use lloms.Protocol.{new, cancel, flush, unknown, CommandType, parse_line}
use lloms.Spec
use lloms.Pool.{Book, init, invalid_idx}
use lloms.Pool.Orders.{submit_order}
use lloms.Pool.Allot.{HasRoom}
use lloms.Pool.Represent.{Represents, count_orders, submit_order-Follows}
use lloms.Pool.Withdraw.{cancel_order-Represents}
use lloms.Pool.Fresh.{no_orders, init-Represents, clear-Represents}
use lloms.Pool.Histories.{count-submit, count-cancel}
use lloms.Spsc.Valid.{contents}
use lloms.Gateway.Execute.{
  IngressMessage, ResponseMessage, execute_new, execute_cancel, execute_payload, execute_command,
}
use lloms.Gateway.Responds.{execute_command-responds}
use lloms.Gateway.Server.{TcpServer, ClientConnection, no_message, no_response, new_server}
use lloms.Gateway.Pipeline.{
  Event, client_accepted, client_closed, clients_closed, input_kept, line_read, socket_ready,
  responses_drained, commands_popped, command_executed, step, line_messages, messages_of, run,
  execute_all, Pipeline,
}
use lloms.Gateway.Pipeline.Keeps.{Allowed}
use lloms.Gateway.Pipeline.Order.{run-Pipeline}

-- Whom a message is from, or a response for, and its number.
abbrev pub sender : IngressMessage → ℕ × ℕ
sender m = (m.client_fd, m.sequence)

abbrev pub receiver : ResponseMessage → ℕ × ℕ
receiver r = (r.client_fd, r.sequence)

abbrev IsKnown : IngressMessage → Type 0
IsKnown m = m.command.type ≢ unknown

-- The book after a command.
record Executes (v : Spec.Book) (b : Book) : Type 0 where
  after : Spec.Book
  book : Represents b after
  grows : count_orders after ≤ suc (count_orders v)

module _ (to_string : ℕ → Text) where
  book-execute_new :
      (b : Book) (m : IngressMessage)
      → (execute_new to_string b m.command.order).0 ≡ (submit_order b m.command.order []).book
  unfolding execute_new
  book-execute_new b m = elim (Bool-cases (submit_order b m.command.order []).accepted) [
    | inl e ↦ rw e refl
    | inr e ↦ rw e refl
  ]

  execute_command-Executes :
      (b : Book) (v : Spec.Book) (m : IngressMessage) (t : CommandType)
      → m.command.type ≡ t
      → Represents b v
      → HasRoom (count_orders v)
      → Executes v (execute_command to_string b m).0
  unfolding execute_command execute_payload execute_cancel
  execute_command-Executes b v m unknown e r room =
      rw (e, execute_payload) (record { after = v; book = r; grows = omega arith })
  execute_command-Executes b v m flush e r room =
      rw (e, execute_payload)
        (record {
          after = no_orders;
          book = clear-Represents b r.linked.kept.small;
          grows = omega arith;
        })
  execute_command-Executes b v m cancel e r room =
      let (done, book) = cancel_order-Represents b v m.command.cancel_id r in
      rw (e, execute_payload)
        (record {
          after = (Spec.cancel v m.command.cancel_id).1;
          book = book;
          grows = omega (arith, count-cancel v m.command.cancel_id);
        })
  execute_command-Executes b v m new e r room =
      rw (e, execute_payload, book-execute_new b m)
        (record {
          after = (Spec.submit v m.command.order).book;
          book = (submit_order-Follows b v m.command.order [] r room).book;
          grows = count-submit v m.command.order;
        })

  execute_all-receivers :
      (from_chars : ℕ → Text → Option (ℕ × ℕ)) (b : Book) (v : Spec.Book) (ms : List IngressMessage)
      → Represents b v
      → HasRoom (count_orders v + length ms)
      → All IsKnown ms
      → map receiver (execute_all from_chars to_string b ms).1 ≡ map sender ms
  unfolding execute_all
  execute_all-receivers from_chars b v [] r room known = refl
  execute_all-receivers from_chars b v (m ∷ ms) r room known =
      let here : HasRoom (count_orders v) = omega (arith, room) in
      let (resp, answer, client, number, filled) =
        execute_command-responds to_string b v m r here known.0 in
      let e = execute_command-Executes b v m m.command.type refl r here in
      let later =
        execute_all-receivers from_chars (execute_command to_string b m).0 e.after ms e.book
          (omega (arith, room, e.grows)) known.1 in
      rw (answer, client, number, later)

module _ (from_chars : ℕ → Text → Option (ℕ × ℕ)) (to_string : ℕ → Text) where
  -- Only commands become messages.
  typed_line-IsKnown :
      (now now_ns n : ℕ) (client : ClientConnection) (line : Text) (t : CommandType)
      → is_nil line ≡ false
      → (parse_line from_chars now line).type ≡ t
      → All IsKnown (line_messages from_chars to_string now now_ns n client line)
  typed_line-IsKnown now now_ns n client line unknown full e = rw (full, e) tt
  typed_line-IsKnown now now_ns n client line new full e = rw (full, e) ((λ h. cc (e, h)), tt)
  typed_line-IsKnown now now_ns n client line cancel full e = rw (full, e) ((λ h. cc (e, h)), tt)
  typed_line-IsKnown now now_ns n client line flush full e = rw (full, e) ((λ h. cc (e, h)), tt)

  line-IsKnown :
      (now now_ns n : ℕ) (client : ClientConnection) (line : Text)
      → All IsKnown (line_messages from_chars to_string now now_ns n client line)
  line-IsKnown now now_ns n client line = elim (Bool-cases (is_nil line)) [
    | inl e ↦ rw e tt
    | inr e ↦
        typed_line-IsKnown now now_ns n client line (parse_line from_chars now line).type e refl
  ]

  messages_of-IsKnown :
      (s : TcpServer) (e : Event) → All IsKnown (messages_of from_chars to_string s e)
  unfolding messages_of
  messages_of-IsKnown s (line_read now now_ns w fd line) =
      elim (Option-cases (Dict.lookup fd s.clients)) [
        | inl e ↦ rw (e, messages_of) tt
        | inr (client, e) ↦
            rw (e, messages_of) (line-IsKnown now now_ns s.next_sequence client line)
      ]
  messages_of-IsKnown s (client_accepted fd) = tt
  messages_of-IsKnown s (client_closed fd) = tt
  messages_of-IsKnown s clients_closed = tt
  messages_of-IsKnown s (input_kept fd text) = tt
  messages_of-IsKnown s (socket_ready w fd) = tt
  messages_of-IsKnown s (responses_drained writes) = tt
  messages_of-IsKnown s commands_popped = tt
  messages_of-IsKnown s command_executed = tt

  run-IsKnown :
      (events : List Event) (s : TcpServer)
      → Allowed (λ r. All IsKnown r.1) (run from_chars to_string s events)
  unfolding run
  run-IsKnown [] s = tt
  run-IsKnown (e ∷ events) s = elim (Option-cases (step from_chars to_string s e)) [
    | inl stuck ↦ rw (stuck, run) tt
    | inr (s', went) ↦
        let later = run-IsKnown events s' in
        elim (Option-cases (run from_chars to_string s' events)) [
          | inl stuck ↦ rw (went, run, stuck) tt
          | inr (r, ended) ↦
              rw (went, run, ended)
                (All-append IsKnown (messages_of from_chars to_string s e) r.1
                  (messages_of-IsKnown s e) (rw ended at later))
        ]
  ]

All_front :
    (P : IngressMessage → Type 0) (xs ys : List IngressMessage) → All P (xs ++ ys) → All P xs
All_front P [] ys h = tt
All_front P (x ∷ xs) ys h = (h.0, All_front P xs ys h.1)

-- On a new server with a new pool book, whatever fewer than 2 to the 31 commands its clients have sent and
-- whatever steps of the two threads have been made: the commands go their way as `Pipeline` says, and the
-- responses that were drained or wait are one for each executed command, in the same order, for the client
-- that sent the command and with its sequence number.
pub run-receivers :
    (from_chars : ℕ → Text → Option (ℕ × ℕ)) (to_string : ℕ → Text) (capacity queue_capacity : ℕ)
    (s t : TcpServer) (events : List Event) (ms : List IngressMessage)
    → capacity ≤ invalid_idx
    → queue_capacity ≤ 2 ^ 63
    → new_server (init capacity) queue_capacity ≡ some s
    → run from_chars to_string s events ≡ some (t, ms)
    → HasRoom (length ms)
    → (p : Pipeline from_chars to_string (init capacity) ms t) × (map receiver
          (p.drained ++ contents no_response t.response_queue)
        ≡ map sender p.executed)
run-receivers from_chars to_string capacity queue_capacity s t events ms small queue_small made ran
      room =
    let p =
      run-Pipeline from_chars to_string (init capacity) queue_capacity s t events ms queue_small
        made ran in
    let known : All IsKnown ms = rw ran at (run-IsKnown from_chars to_string events s) in
    let rest = t.batch ++ contents no_message t.ingress_queue in
    let split : ms ≡ p.executed ++ rest = p.in_order ∙ append_assoc p.executed t.batch _ in
    let size : length ms ≡ length p.executed + length rest =
      ap length split ∙ length-append p.executed rest in
    let first : All IsKnown p.executed = All_front IsKnown p.executed rest (rw split at known) in
    (
      p,
      ap (λ (r : Book × List ResponseMessage). map receiver r.1) (sym p.results)
          ∙ execute_all-receivers to_string from_chars (init capacity) no_orders p.executed
              (init-Represents capacity small) (omega (arith, room, size)) first,
    )
