-- ===== src/Gateway/Server.antt =====
-- The work of the two threads of src/tcp_server.cpp between the sockets: process_client_line,
-- drain_response_queue and the writes of the thread that polls, and matching_thread_loop. What a system
-- call returns is an argument; `none` means that a full queue lets the thread yield and try again.
use mathlib.Core.Option
use lloms.Base.{
  ℕ, ◌+◌, ◌-◌, ◌%◌, Bool, true, false, Option, none, some, List, [], ◌∷◌, ◌++◌, if◌then◌else◌,
  is_nil, take, drop,
}
use lloms.Base.Dict
use lloms.Base.Text.{Text}
use lloms.Types.{u32_mod, u64_mod}
use lloms.Protocol.{new, cancel, flush, unknown, no_order, parse_line, format_reject}
use lloms.Pool.{Book}
use lloms.Spsc.{Queue, init, push, pop_batch}
use lloms.Gateway.Execute.{IngressMessage, ResponseMessage, execute_command}

pub record ClientConnection : Type 0 where
  pub fd : ℕ
  pub read_buffer : Text
  pub write_buffer : Text

abbrev pub Clients : Type 0
Clients = List (ℕ × ClientConnection)

-- `clients_`, the sequence counter, the queues, the book, the counter of commands, and what is left of
-- the matching thread's `batch`.
pub record TcpServer : Type 0 where
  pub clients : Clients
  pub next_sequence : ℕ
  pub ingress_queue : Queue IngressMessage
  pub response_queue : Queue ResponseMessage
  pub order_book : Book
  pub processed_orders : ℕ
  pub batch : List IngressMessage

-- `int client_fd{-1}`, as a 32-bit word.
abbrev pub no_fd : ℕ
no_fd = u32_mod - 1

-- The members' initialisers.
abbrev pub no_message : IngressMessage
no_message = record {
  sequence = 0;
  client_fd = no_fd;
  ingress_timestamp = 0;
  command = record { type = unknown; order = no_order; cancel_id = 0; error_msg = [] };
}

abbrev pub no_response : ResponseMessage
no_response = record { client_fd = no_fd; sequence = 0; payload = [] }

-- The constructor; `none` when the rounding of the capacity never ends.
unfoldable pub new_server : Book → ℕ → Option TcpServer
new_server order_book queue_capacity = elim (init no_message queue_capacity) [
  | none ↦ none
  | some ingress ↦
      Option.map
        (λ response. record {
          clients = [];
          next_sequence = 1;
          ingress_queue = ingress;
          response_queue = response;
          order_book = order_book;
          processed_orders = 0;
          batch = [];
        })
        (init no_response queue_capacity)
]

-- What the calls of `write` of one flush return: the counts of bytes, and then EAGAIN or another error.
pub data WriteEnd : Type 0 where
  again broken : WriteEnd

pub record Written : Type 0 where
  pub counts : List ℕ
  pub ending : WriteEnd

-- The bytes that go out, those that stay, and whether the connection is to be closed.
pub record Flushed : Type 0 where
  pub out : Text
  pub left : Text
  pub failed : Bool

abbrev is_broken : WriteEnd → Bool
is_broken again = false
is_broken broken = true

-- `while (!client.write_buffer.empty())`
unfoldable pub flush_loop : List ℕ → WriteEnd → Text → Flushed
flush_loop counts ending [] = record { out = []; left = []; failed = false }
flush_loop [] ending (c ∷ s) = record { out = []; left = c ∷ s; failed = is_broken ending }
flush_loop (sent ∷ counts) ending (c ∷ s) =
    let rest = flush_loop counts ending (drop sent (c ∷ s)) in
    record rest { out = take sent (c ∷ s) ++ rest.out }

abbrev pub close_connection : ℕ → Clients → Clients
close_connection client_fd clients = Dict.erase client_fd clients

-- The clients after the flush, and the bytes that go out.
unfoldable pub flush_client_write_buffer : Written → ClientConnection → Clients → Clients × Text
unfolding flush_loop
flush_client_write_buffer w client clients =
    let f = flush_loop w.counts w.ending client.write_buffer in
    (
      if f.failed
          then close_connection client.fd clients
          else Dict.insert client.fd (record client { write_buffer = f.left }) clients,
      f.out,
    )

-- The loop of drain_response_queue; `writes i` is for the `i`-th response.
unfoldable pub deliver :
    (ℕ → Written) → ℕ → List ResponseMessage → Clients → Clients × List (ℕ × Text)
unfolding flush_client_write_buffer
deliver writes i [] clients = (clients, [])
deliver writes i (resp ∷ responses) clients =
    let known = λ (client : ClientConnection).
      flush_client_write_buffer (writes i)
        (record client { write_buffer = client.write_buffer ++ resp.payload }) clients in
    elim (Dict.lookup resp.client_fd clients) [
      | none ↦ deliver writes (i + 1) responses clients
      | some client ↦
          let (clients', out) = known client in
          let (last, outs) = deliver writes (i + 1) responses clients' in
          (last, (resp.client_fd, out) ∷ outs)
    ]

unfoldable pub drain_response_queue : (ℕ → Written) → TcpServer → TcpServer × List (ℕ × Text)
unfolding deliver
drain_response_queue writes s =
    let (n, responses, q) = pop_batch no_response s.response_queue [] 64 in
    let (clients, outs) = deliver writes 0 responses s.clients in
    (record s { clients = clients; response_queue = q }, outs)

unfoldable pub handle_client_write : Written → ℕ → TcpServer → TcpServer
unfolding flush_client_write_buffer
handle_client_write w client_fd s = elim (Dict.lookup client_fd s.clients) [
  | none ↦ s
  | some client ↦ record s { clients = (flush_client_write_buffer w client s.clients).0 }
]

-- `clients_[client_fd] = ClientConnection{…}`, for a descriptor that `accept` returns.
unfoldable pub accept_client : ℕ → TcpServer → TcpServer
accept_client client_fd s = record s {
  clients =
      Dict.insert client_fd (record { fd = client_fd; read_buffer = []; write_buffer = [] })
        s.clients;
}

-- `read_buffer` of a client takes another value.
unfoldable pub set_read_buffer : ℕ → Text → TcpServer → TcpServer
set_read_buffer client_fd text s = elim (Dict.lookup client_fd s.clients) [
  | none ↦ s
  | some client ↦ record s {
    clients = Dict.insert client_fd (record client { read_buffer = text }) s.clients;
  }
]

-- `while (!ingress_queue_.push(std::move(msg)))`, and the counter that the message has taken.
unfoldable pub enqueue : IngressMessage → TcpServer → Option TcpServer
enqueue msg s =
    let (done, q) = push s.ingress_queue msg in
    if done
    then some (record s { ingress_queue = q; next_sequence = (s.next_sequence + 1) % u64_mod })
    else none

-- `pop_batch` of matching_thread_loop, when the batch before is done.
unfoldable pub pop_commands : TcpServer → Option TcpServer
pop_commands s =
    let (n, batch, q) = pop_batch no_message s.ingress_queue [] 64 in
    if is_nil s.batch then some (record s { batch = batch; ingress_queue = q }) else none

module _ (from_chars : ℕ → Text → Option (ℕ × ℕ)) (to_string : ℕ → Text) where
  abbrev pub message_of : ℕ → ℕ → ℕ → ℕ → Text → IngressMessage
  message_of now now_ns sequence client_fd line = record {
    sequence = sequence;
    client_fd = client_fd;
    ingress_timestamp = now_ns;
    command = parse_line from_chars now line;
  }

  -- The clock is read twice: when the line is parsed, and for the message.
  unfoldable pub process_client_line :
      ℕ → ℕ → Written → ClientConnection → Text → TcpServer → Option TcpServer
  unfolding flush_client_write_buffer enqueue
  process_client_line now now_ns w client line s =
      let cmd = parse_line from_chars now line in
      let queued = enqueue (message_of now now_ns s.next_sequence client.fd line) s in
      let rejected = record client {
        write_buffer = format_reject to_string 0 cmd.error_msg client.write_buffer;
      } in
      if is_nil line then some s else elim cmd.type [
        | unknown ↦ some (record s { clients = (flush_client_write_buffer w rejected s.clients).0 })
        | new ↦ queued
        | cancel ↦ queued
        | flush ↦ queued
      ]

  -- One round of the loop over the batch, with the push of the response.
  unfoldable pub execute_next : TcpServer → Option TcpServer
  execute_next s = elim s.batch [
    | [] ↦ none
    | msg ∷ batch ↦
        let (book, answer) = execute_command to_string s.order_book msg in
        let s' = record s {
          order_book = book;
          batch = batch;
          processed_orders = (s.processed_orders + 1) % u64_mod;
        } in
        elim answer [
          | none ↦ some s'
          | some resp ↦
              let (done, q) = push s.response_queue resp in
              if done then some (record s' { response_queue = q }) else none
        ]
  ]
