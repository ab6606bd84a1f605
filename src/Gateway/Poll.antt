-- ===== src/Gateway/Poll.antt =====
-- poll_events of src/tcp_server.cpp with what it calls, in pieces between which the matching thread may
-- run. What the system calls and the clock return is part of a piece.
use lloms.Base.{ℕ, ◌+◌, Bool, Option, none, some, List, [], ◌∷◌, ◌++◌, ◌==◌, if◌then◌else◌, take}
use lloms.Base.Dict
use lloms.Base.Text.{Text}
use lloms.Gateway.{find_newline, strip_cr, ReadEnd, would_block, disconnected}
use lloms.Gateway.Execute.{IngressMessage}
use lloms.Gateway.Server.{
  ClientConnection, TcpServer, Written, close_connection, accept_client, set_read_buffer,
  drain_response_queue, handle_client_write, process_client_line,
}
use lloms.Gateway.Pipeline.{line_messages}

-- For one line: both readings of the clock, and the writes if the line is refused.
pub record LineCalls : Type 0 where
  pub now : ℕ
  pub now_ns : ℕ
  pub writes : Written

-- One entry of `events`, with what the calls for it return: the descriptors that `accept` gives until it
-- fails, or what is read and written.
pub record Ready : Type 0 where
  pub fd : ℕ
  pub hung_up : Bool
  pub readable : Bool
  pub writable : Bool
  pub accepted : List ℕ
  pub bytes_read : Text
  pub read_end : ReadEnd
  pub line_calls : ℕ → LineCalls
  pub writes : Written

-- `parse fd i calls` is the loop over the lines of one read, before the `i`-th of them.
pub data Task : Type 0 where
  drain : (ℕ → Written) → Task
  accept : List ℕ → Task
  hang_up : ℕ → Task
  read : ℕ → Text → ReadEnd → (ℕ → LineCalls) → Task
  parse : ℕ → ℕ → (ℕ → LineCalls) → Task
  write : ℕ → Written → Task

-- The body of the loop over the events.
unfoldable pub handle_event : Option ℕ → Ready → List Task
handle_event server_fd r =
    let from_client =
      if r.hung_up
      then hang_up r.fd ∷ []
      else (if r.readable then read r.fd r.bytes_read r.read_end r.line_calls ∷ [] else [])
        ++ (if r.writable then write r.fd r.writes ∷ [] else []) in
    elim server_fd [
      | none ↦ from_client
      | some fd ↦ if r.fd == fd then accept r.accepted ∷ [] else from_client
    ]

unfoldable pub handle_events : Option ℕ → List Ready → List Task
unfolding handle_event
handle_events server_fd [] = []
handle_events server_fd (r ∷ rs) = handle_event server_fd r ++ handle_events server_fd rs

-- What one call of poll_events is told: by the writes of both drains, and by epoll_wait.
pub record PollCalls : Type 0 where
  pub before : ℕ → Written
  pub ready : List Ready
  pub after : ℕ → Written

abbrev pub max_epoll_events : ℕ
max_epoll_events = 64

unfoldable pub poll_events : Option ℕ → Option ℕ → PollCalls → List Task
unfolding handle_events
poll_events epoll_fd server_fd calls = elim epoll_fd [
  | none ↦ []
  | some fd ↦
      drain calls.before
      ∷ (handle_events server_fd (take max_epoll_events calls.ready) ++ drain calls.after ∷ [])
]

-- The loop of handle_new_connection.
unfoldable pub handle_new_connection : List ℕ → TcpServer → TcpServer
unfolding accept_client
handle_new_connection [] s = s
handle_new_connection (fd ∷ fds) s = handle_new_connection fds (accept_client fd s)

-- `waits` is a push into a full queue, which is tried again; `undefined` a use of an erased client.
pub data Outcome (A : Type 0) : Type 0 where
  waits undefined : Outcome A
  goes : A → Outcome A

-- The first loop of handle_client_read.
unfoldable pub read_all : ℕ → Text → ReadEnd → (ℕ → LineCalls) → TcpServer → TcpServer × List Task
unfolding set_read_buffer
read_all fd bytes_read would_block calls s = elim (Dict.lookup fd s.clients) [
  | none ↦ (s, [])
  | some client ↦ (set_read_buffer fd (client.read_buffer ++ bytes_read) s, parse fd 0 calls ∷ [])
]
read_all fd bytes_read disconnected calls s =
    (record s { clients = close_connection fd s.clients }, [])

module _ (from_chars : ℕ → Text → Option (ℕ × ℕ)) (to_string : ℕ → Text) where
  -- process_client_line, and the `erase` after it, which needs the client.
  unfoldable pub parse_line_of :
      ClientConnection
      → Text
      → Text
      → ℕ
      → ℕ
      → (ℕ → LineCalls)
      → TcpServer
      → Outcome (TcpServer × List Task)
  parse_line_of client line rest fd i calls s =
      let c = calls i in
      elim (process_client_line from_chars to_string c.now c.now_ns c.writes client line s) [
        | none ↦ waits
        | some s' ↦ elim (Dict.lookup fd s'.clients) [
          | none ↦ undefined
          | some client' ↦ goes (set_read_buffer fd rest s', parse fd (i + 1) calls ∷ [])
        ]
      ]

  -- A round of the loop over the lines.
  unfoldable pub parse_next : ℕ → ℕ → (ℕ → LineCalls) → TcpServer → Outcome (TcpServer × List Task)
  unfolding parse_line_of
  parse_next fd i calls s = elim (Dict.lookup fd s.clients) [
    | none ↦ undefined
    | some client ↦ elim (find_newline client.read_buffer) [
      | none ↦ goes (s, [])
      | some (line, rest) ↦ parse_line_of client (strip_cr line) rest fd i calls s
    ]
  ]

  -- The state after a piece, and the pieces that it leaves to do.
  unfoldable pub perform : Task → TcpServer → Outcome (TcpServer × List Task)
  unfolding read_all parse_next handle_new_connection
  perform (drain writes) s = goes ((drain_response_queue writes s).0, [])
  perform (accept fds) s = goes (handle_new_connection fds s, [])
  perform (hang_up fd) s = goes (record s { clients = close_connection fd s.clients }, [])
  perform (read fd bytes_read ending calls) s = goes (read_all fd bytes_read ending calls s)
  perform (parse fd i calls) s = parse_next fd i calls s
  perform (write fd w) s = goes (handle_client_write w fd s, [])

  -- The message that the round of a piece queues.
  unfoldable pub queued_by : Task → TcpServer → List IngressMessage
  queued_by (parse fd i calls) s = elim (Dict.lookup fd s.clients) [
    | none ↦ []
    | some client ↦ elim (find_newline client.read_buffer) [
      | none ↦ []
      | some (line, rest) ↦
          let c = calls i in
          line_messages from_chars to_string c.now c.now_ns s.next_sequence client (strip_cr line)
    ]
  ]
  queued_by (drain writes) s = []
  queued_by (accept fds) s = []
  queued_by (hang_up fd) s = []
  queued_by (read fd bytes_read ending calls) s = []
  queued_by (write fd w) s = []
