-- ===== src/Gateway/Pipeline.antt =====
-- The two threads of src/tcp_server.cpp, with the queues between them: whatever order their steps come
-- in, the commands are executed as they were queued.
pub mod Keeps
pub mod Order
pub mod Progress
pub mod Responses
use mathlib.Core.Option
use lloms.Base.{
  ℕ, suc, ◌+◌, ◌%◌, ◌≡◌, refl, sym, ap, ap₂, ◌∙◌, inl, inr, Bool, true, false, Option, none, some,
  List, [], ◌∷◌, ◌++◌, arith, if◌then◌else◌, is_nil, take, drop, append_assoc, append-nil, length,
  length-append, Option-cases, Bool-cases,
}
use lloms.Base.Dict
use lloms.Base.Text.{Text}
use lloms.Types.{u64_mod}
use lloms.Protocol.{new, cancel, flush, unknown, CommandType, ParsedCommand, parse_line}
use lloms.Pool.{Book}
use lloms.Spsc.{Queue, push, pop_batch}
use lloms.Spsc.Valid.{IsValid, contents}
use lloms.Spsc.Refine.{offer, push_refines}
use lloms.Spsc.Drain.{pop_batch_lem}
use lloms.Gateway.Execute.{IngressMessage, ResponseMessage, execute_command}
use lloms.Gateway.Server.{
  ClientConnection, TcpServer, Written, no_message, no_response, drain_response_queue,
  handle_client_write, enqueue, message_of, process_client_line, pop_commands, execute_next,
  accept_client, close_connection, set_read_buffer,
}

-- The steps of the two threads: of the one that polls the first seven, of the matching thread the last two.
pub data Event : Type 0 where
  client_accepted : ℕ → Event
  client_closed : ℕ → Event
  clients_closed : Event
  input_kept : ℕ → Text → Event
  line_read : ℕ → ℕ → Written → ℕ → Text → Event
  socket_ready : Written → ℕ → Event
  responses_drained : (ℕ → Written) → Event
  commands_popped : Event
  command_executed : Event

module _ {A : Type 0} (fresh : A) {q : Queue A} (v : IsValid q) where
  pub push_done :
      (x : A)
      → (push q x).0 ≡ true
      → (contents fresh (push q x).1 ≡ contents fresh q ++ x ∷ []) × IsValid (push q x).1
  unfolding offer
  push_done x done =
      let (same, valid) = push_refines fresh v x in (ground (arith, same, done), valid)

  pub popped :
      (max_items : ℕ)
      → let r = pop_batch fresh q [] max_items in
        (contents fresh q ≡ r.1 ++ contents fresh r.2) × IsValid r.2
  popped max_items =
      let (n, taken, left, valid) = pop_batch_lem fresh v [] max_items in
      (
        rw (taken, left) (sym (take_drop (pop_batch fresh q [] max_items).0 (contents fresh q))),
        valid,
      )
    where
      take_drop : (n : ℕ) (xs : List A) → take n xs ++ drop n xs ≡ xs
      take_drop ℕ.zero xs = refl
      take_drop (suc n) [] = refl
      take_drop (suc n) (x ∷ xs) = ap (◌∷◌ x) (take_drop n xs)

-- Sequence numbers count up from `i`, in 64 bits.
abbrev pub Numbered : ℕ → List IngressMessage → Type 0
Numbered i [] = Unit {0}
Numbered i (m ∷ ms) = (m.sequence ≡ i % u64_mod) × Numbered (i + 1) ms

pub Numbered-append :
    (i n : ℕ) (ms : List IngressMessage) (m : IngressMessage)
    → Numbered i ms
    → n ≡ i + length ms
    → m.sequence ≡ n % u64_mod
    → Numbered i (ms ++ m ∷ [])
Numbered-append i n [] m h len e =
    let same : n ≡ i = omega (arith, len) in (e ∙ ap (λ x. x % u64_mod) same, tt)
Numbered-append i n (m' ∷ ms) m h len e =
    (h.0, Numbered-append (i + 1) n ms m h.1 (omega (arith, len)) e)

module _ (from_chars : ℕ → Text → Option (ℕ × ℕ)) (to_string : ℕ → Text) where
  unfoldable pub step : TcpServer → Event → Option TcpServer
  step s (client_accepted fd) = some (accept_client fd s)
  step s (client_closed fd) = some (record s { clients = close_connection fd s.clients })
  step s clients_closed = some (record s { clients = [] })
  step s (input_kept fd text) = some (set_read_buffer fd text s)
  step s (line_read now now_ns w fd line) = elim (Dict.lookup fd s.clients) [
    | none ↦ some s
    | some client ↦ process_client_line from_chars to_string now now_ns w client line s
  ]
  step s (socket_ready w fd) = some (handle_client_write w fd s)
  step s (responses_drained writes) = some (drain_response_queue writes s).0
  step s commands_popped = pop_commands s
  step s command_executed = execute_next from_chars to_string s

  -- The message that a line is to become: none if its client is gone, if it is empty or no command.
  abbrev pub line_messages : ℕ → ℕ → ℕ → ClientConnection → Text → List IngressMessage
  line_messages now now_ns sequence client line =
      let msg = message_of from_chars to_string now now_ns sequence client.fd line in
      if is_nil line then [] else elim msg.command.type [
        | unknown ↦ []
        | new ↦ msg ∷ []
        | cancel ↦ msg ∷ []
        | flush ↦ msg ∷ []
      ]

  unfoldable pub messages_of : TcpServer → Event → List IngressMessage
  messages_of s (line_read now now_ns w fd line) = elim (Dict.lookup fd s.clients) [
    | none ↦ []
    | some client ↦ line_messages now now_ns s.next_sequence client line
  ]
  messages_of s (client_accepted fd) = []
  messages_of s (client_closed fd) = []
  messages_of s clients_closed = []
  messages_of s (input_kept fd text) = []
  messages_of s (socket_ready w fd) = []
  messages_of s (responses_drained writes) = []
  messages_of s commands_popped = []
  messages_of s command_executed = []

  -- The server after the steps, and the messages of their lines.
  unfoldable pub run : TcpServer → List Event → Option (TcpServer × List IngressMessage)
  unfolding step messages_of
  run s [] = some (s, [])
  run s (e ∷ events) = elim (step s e) [
    | none ↦ none
    | some s' ↦ Option.map (λ r. (r.0, messages_of s e ++ r.1)) (run s' events)
  ]

  abbrev pub answers : Option ResponseMessage → List ResponseMessage
  answers none = []
  answers (some resp) = resp ∷ []

  -- The commands one after the other, without queues.
  unfoldable pub execute_all : Book → List IngressMessage → Book × List ResponseMessage
  execute_all b [] = (b, [])
  execute_all b (m ∷ ms) =
      let (b', answer) = execute_command to_string b m in
      let (last, responses) = execute_all b' ms in (last, answers answer ++ responses)

  pub execute_all-append :
      (b : Book) (ms : List IngressMessage) (m : IngressMessage)
      → execute_all b (ms ++ m ∷ [])
        ≡ let (b', responses) = execute_all b ms in
          let (b2, answer) = execute_command to_string b' m in (b2, responses ++ answers answer)
  unfolding execute_all
  execute_all-append b [] m = rw append-nil
  execute_all-append b (m' ∷ ms) m =
      rw (execute_all-append (execute_command to_string b m').0 ms m, append_assoc)

  -- Of the messages that were made, in their order, the first ones are executed, on the book and with the
  -- answers that they have one after the other, and the others wait; the answers were drained or wait.
  pub record Pipeline (book : Book) (ms : List IngressMessage) (s : TcpServer) : Type 0 where
    pub executed : List IngressMessage
    pub drained : List ResponseMessage
    pub in_order : ms ≡ executed ++ s.batch ++ contents no_message s.ingress_queue
    pub results :
        execute_all book executed ≡ (s.order_book, drained ++ contents no_response s.response_queue)
    pub processed : s.processed_orders ≡ length executed % u64_mod
    pub numbered : Numbered 1 ms
    pub next : s.next_sequence ≡ (1 + length ms) % u64_mod
    pub ingress : IsValid s.ingress_queue
    pub response : IsValid s.response_queue
