-- ===== src/Gateway/System.antt =====
-- start and stop of src/tcp_server.cpp and its two threads: the polling thread, which runs start, and the
-- matching thread. A move is one step of either, or a call of stop.
pub mod Moves
pub mod Steps
pub mod Refines
pub mod Shutdown
pub mod Deadlock
pub mod Receivers
pub mod Parked
pub mod Polled
pub mod Dangling
pub mod Buffers
pub mod Lines
pub mod Heard
pub mod Recorded
pub mod Followed
pub mod Scanned
pub mod Settled
pub mod Received
pub mod Lifetimes
use lloms.Base.{
  ℕ, Bool, true, false, Option, none, some, List, [], ◌∷◌, ◌++◌, if◌then◌else◌, is_nil, ◌||◌, not,
  length,
}
use mathlib.Core.Option
use lloms.Base.Text.{Text}
use lloms.Pool.{Book}
use lloms.Spsc.{is_empty, size}
use lloms.Gateway.Execute.{IngressMessage}
use lloms.Gateway.Server.{
  TcpServer, Written, new_server, drain_response_queue, pop_commands, execute_next,
}
use lloms.Gateway.Sockets.{Sockets, SetupCalls, setup_server_socket, close_sockets}
use lloms.Gateway.Poll.{
  Task, PollCalls, Outcome, waits, undefined, goes, poll_events, perform, queued_by,
}

-- Where the polling thread is: outside start, behind the set-up, in the loop, or behind it.
pub data Phase : Type 0 where
  stopped ready polling joining : Phase

-- Where the matching thread is: at the test of its loop (or in the batch), behind the test, or at its end.
pub data Matching : Type 0 where
  testing popping ended : Matching

pub record System : Type 0 where
  pub server : TcpServer
  pub sockets : Sockets
  pub running : Bool
  pub phase : Phase
  pub todo : List Task
  pub matching : Matching

pub data Move : Type 0 where
  starts : SetupCalls → Move
  launches : Move
  polls : PollCalls → Move
  performs : Move
  returns : (ℕ → Written) → Move
  tests : Move
  pops : Move
  executes : Move
  stops : Move

unfoldable pub new_system : Book → ℕ → Option System
new_system order_book queue_capacity =
    Option.map
      (λ s. record {
        server = s;
        sockets = record { server_fd = none; epoll_fd = none; descriptors = [] };
        running = false;
        phase = stopped;
        todo = [];
        matching = ended;
      })
      (new_server order_book queue_capacity)

-- What other threads may ask for.
abbrev pub is_running : System → Bool
is_running s = s.running

abbrev pub connected_clients : System → ℕ
connected_clients s = length s.server.clients

abbrev pub processed_orders_count : System → ℕ
processed_orders_count s = s.server.processed_orders

unfoldable pub ingress_queue_depth : System → ℕ
ingress_queue_depth s = size s.server.ingress_queue

unfoldable pub response_queue_depth : System → ℕ
response_queue_depth s = size s.server.response_queue

-- `stop`, which any thread or a signal handler calls.
unfoldable pub stop : System → System
stop s = record s { running = false }

-- The test of the loop of `start`, and the call of poll_events.
unfoldable pub poll_loop : PollCalls → System → System
poll_loop calls s =
    if s.running
    then record s { todo = poll_events s.sockets.epoll_fd s.sockets.server_fd calls }
    else record s { phase = joining }

-- The test of matching_thread_loop.
unfoldable pub test_loop : System → System
test_loop s = record s {
  matching = if s.running || not (is_empty s.server.ingress_queue) then popping else ended;
}

-- The end of `start`, when the matching thread has been joined.
unfoldable pub finish : (ℕ → Written) → System → System
unfolding close_sockets
finish writes s = record s {
  server = record ((drain_response_queue writes s.server).0) { clients = [] };
  sockets = close_sockets s.sockets;
  phase = stopped;
}

abbrev pub served : System → Option TcpServer → Matching → Outcome System
served s none at = waits
served s (some server) at = goes (record s { server = server; matching = at })

abbrev pub performed : System → List Task → Outcome (TcpServer × List Task) → Outcome System
performed s tasks waits = waits
performed s tasks undefined = undefined
performed s tasks (goes (server, more)) = goes (record s { server = server; todo = more ++ tasks })

module _ (from_chars : ℕ → Text → Option (ℕ × ℕ)) (to_string : ℕ → Text) where
  -- The head of what poll_events has left to do.
  unfoldable pub perform_next : List Task → System → Outcome System
  perform_next [] s = waits
  perform_next (task ∷ tasks) s = performed s tasks (perform from_chars to_string task s.server)

  -- The message that a move queues.
  unfoldable pub queued_in : System → Move → List IngressMessage
  queued_in s performs = elim s.todo [
    | [] ↦ []
    | task ∷ tasks ↦ queued_by from_chars to_string task s.server
  ]
  queued_in s (starts calls) = []
  queued_in s launches = []
  queued_in s (polls calls) = []
  queued_in s (returns writes) = []
  queued_in s tests = []
  queued_in s pops = []
  queued_in s executes = []
  queued_in s stops = []

module _ (from_chars : ℕ → Text → Option (ℕ × ℕ)) (to_string : ℕ → Text)
    (inet_pton : Text → Option ℕ) (host : Text) (port : ℕ) where
  -- The beginning of `start`, up to the set-up.
  unfoldable pub start : SetupCalls → System → System
  start calls s =
      let (done, sockets) = setup_server_socket inet_pton host port calls s.sockets in
      if s.running
      then s
      else record s { sockets = sockets; phase = if done then ready else stopped }

  -- A move that its thread is not at waits.
  unfoldable pub advance : System → Move → Outcome System
  unfolding start stop poll_loop test_loop finish perform_next
  advance s (starts calls) = elim s.phase [
    | stopped ↦ goes (start calls s)
    | ready ↦ waits
    | polling ↦ waits
    | joining ↦ waits
  ]
  advance s launches = elim s.phase [
    | stopped ↦ waits
    | ready ↦ goes (record s { running = true; phase = polling; matching = testing })
    | polling ↦ waits
    | joining ↦ waits
  ]
  advance s (polls calls) = elim s.phase [
    | stopped ↦ waits
    | ready ↦ waits
    | polling ↦ if is_nil s.todo then goes (poll_loop calls s) else waits
    | joining ↦ waits
  ]
  advance s performs = perform_next from_chars to_string s.todo s
  advance s (returns writes) = elim s.phase [
    | stopped ↦ waits
    | ready ↦ waits
    | polling ↦ waits
    | joining ↦ elim s.matching [
      | testing ↦ waits
      | popping ↦ waits
      | ended ↦ goes (finish writes s)
    ]
  ]
  advance s tests = elim s.matching [
    | testing ↦ if is_nil s.server.batch then goes (test_loop s) else waits
    | popping ↦ waits
    | ended ↦ waits
  ]
  advance s pops = elim s.matching [
    | testing ↦ waits
    | popping ↦ served s (pop_commands s.server) testing
    | ended ↦ waits
  ]
  advance s executes = elim s.matching [
    | testing ↦ served s (execute_next from_chars to_string s.server) testing
    | popping ↦ waits
    | ended ↦ waits
  ]
  advance s stops = goes (stop s)

  -- The system after the moves, and the messages that were queued.
  unfoldable pub proceed : System → List Move → Option (System × List IngressMessage)
  unfolding advance queued_in
  proceed s [] = some (s, [])
  proceed s (m ∷ moves) = elim (advance s m) [
    | waits ↦ none
    | undefined ↦ none
    | goes s' ↦
        Option.map (λ r. (r.0, queued_in from_chars to_string s m ++ r.1)) (proceed s' moves)
  ]
