-- ===== src/Tests/Systems.antt =====
-- src/tcp_server.cpp and src/main.cpp from start to its end, with one client.
use lloms.Base.{
  map, ℕ, ◌≡◌, ◌≢◌, ◌⊎◌, refl, true, false, Option, none, some, List, [], ◌∷◌, ◌++◌, arith, All,
}
use lloms.Base.Dict
use lloms.Base.Text.{Text, bytes}
use lloms.Protocol.{
  format_info, skip_blanks, next_token, split_loop, split_tokens, parse_tokens, parse_line,
}
use lloms.Pool.{linked_nodes}
use lloms.Pool.{init as init_pool}
use lloms.Pool.Orders.{clear, relink}
use lloms.Spsc.{
  size, is_empty, push, pop_batch, read_slots, init, round_up_loop, round_up_power_of_two,
}
use lloms.Spsc.Valid.{contents}
use lloms.Gateway.{would_block, find_newline, strip_cr, take_input}
use lloms.Gateway.Execute.{execute_command, execute_payload}
use lloms.Gateway.Server.{
  no_message, no_response, new_server, drain_response_queue, deliver, flush_client_write_buffer,
  flush_loop, enqueue, process_client_line, pop_commands, execute_next, set_read_buffer,
}
use lloms.Gateway.Pipeline.{Pipeline}
use lloms.Gateway.Pipeline.Responses.{sender, receiver}
use lloms.Gateway.Sockets.{
  SetupCalls, setup_server_socket, address, close_sockets, Succeeds, closed, opened,
  setup_server_socket-releases,
}
use lloms.Gateway.Poll.{
  LineCalls, Ready, PollCalls, undefined, poll_events, handle_new_connection, read_all,
  parse_line_of, parse_next, perform, queued_by,
}
use lloms.Gateway.System.{
  System, Move, stopped, joining, testing, ended, starts, launches, polls, performs, returns, tests,
  pops, executes, stops, new_system, connected_clients, processed_orders_count, ingress_queue_depth,
  start, stop, poll_loop, test_loop, finish, perform_next, advance, queued_in, proceed,
}
use lloms.Gateway.System.Refines.{proceed-Pipeline}
use lloms.Gateway.System.Receivers.{proceed-receivers}
use lloms.Gateway.System.Shutdown.{IsLater, shutdown-executes}
use lloms.Gateway.System.Deadlock.{joining_never_returns}
use lloms.Gateway.System.Dangling.{IsFine, never_dangling}
use lloms.Gateway.System.Lines.{nothing_yet, told}
use lloms.Gateway.System.Recorded.{of_client, Makes}
use lloms.Gateway.System.Followed.{told_in, follow}
use lloms.Gateway.System.Scanned.{at_parse}
use lloms.Gateway.System.Received.{proceed-take_input}
use lloms.Tests.Servers.{
  queue, server, from_chars, to_string, written, message, client, response, flushed, waiting,
}

abbrev inet_pton : Text → Option ℕ
inet_pton host = none

abbrev host : Text
host = bytes "0.0.0.0"

abbrev calls : SetupCalls
calls = record {
  socket = some 3;
  bind = λ addr port. true;
  listen = true;
  epoll_create1 = some 4;
  epoll_ctl = true;
}

-- The epoll instance is not made: nothing stays open.
setup_server_socket-releases_example :
    let r =
      setup_server_socket inet_pton host 8080 (record calls { epoll_create1 = none }) (closed []) in
    ((s : ℕ) × (epoll : ℕ) × Succeeds
        (address inet_pton host)
        8080
        s
        epoll
        (record calls { epoll_create1 = none })
      × (r ≡ (true, opened s epoll []))
      × (close_sockets (opened s epoll []) ≡ closed []))
    ⊎ (((s epoll : ℕ)
          → ¬ Succeeds
              (address inet_pton host)
              8080
              s
              epoll
              (record calls { epoll_create1 = none }))
        × (r ≡ (false, closed [])))
setup_server_socket-releases_example =
    setup_server_socket-releases inet_pton host 8080 (record calls { epoll_create1 = none }) []

abbrev line_calls : ℕ → LineCalls
line_calls i = record { now = 0; now_ns = 7; writes = written }

abbrev event : ℕ → List ℕ → Text → Ready
event fd accepted bytes_read = record {
  fd = fd;
  hung_up = false;
  readable = true;
  writable = false;
  accepted = accepted;
  bytes_read = bytes_read;
  read_end = would_block;
  line_calls = line_calls;
  writes = written;
}

abbrev poll : List Ready → PollCalls
poll ready = record { before = λ i. written; ready = ready; after = λ i. written }

-- A client connects and sends FLUSH; stop is called before the matching thread has seen the command.
abbrev before : List Move
before =
    starts calls
    ∷ launches
    ∷ polls (poll (event 3 (5 ∷ []) [] ∷ []))
    ∷ performs
    ∷ performs
    ∷ performs
    ∷ polls (poll (event 5 [] (bytes "FLUSH\n") ∷ []))
    ∷ performs
    ∷ performs
    ∷ performs
    ∷ performs
    ∷ stops
    ∷ performs
    ∷ polls (poll [])
    ∷ []

abbrev after : List Move
after = tests ∷ pops ∷ executes ∷ tests ∷ returns (λ i. written) ∷ []

abbrev fresh : System
fresh = record {
  server = server;
  sockets = closed [];
  running = false;
  phase = stopped;
  todo = [];
  matching = ended;
}

abbrev joined : System
joined = record {
  server = record server {
    clients = (5, client) ∷ [];
    next_sequence = 2;
    ingress_queue = queue no_message 1 message;
  };
  sockets = opened 3 4 [];
  running = false;
  phase = joining;
  todo = [];
  matching = testing;
}

abbrev returned : System
returned = record fresh {
  server = record flushed {
    clients = [];
    response_queue = record (queue no_response 1 response) { head = 1 };
  };
}

made : new_system (init_pool 0) 2 ≡ some fresh
unfolding new_system new_server init round_up_power_of_two round_up_loop init_pool linked_nodes
made = refl

ran : proceed from_chars to_string inet_pton host 8080 fresh before ≡ some (joined, message ∷ [])
unfolding proceed advance queued_in queued_by start stop poll_loop setup_server_socket poll_events
    perform_next perform read_all parse_next parse_line_of handle_new_connection process_client_line
    enqueue push find_newline strip_cr parse_line parse_tokens split_tokens split_loop skip_blanks
    next_token Dict.insert set_read_buffer drain_response_queue pop_batch read_slots deliver
ran = refl

closes : proceed from_chars to_string inet_pton host 8080 joined after ≡ some (returned, [])
unfolding proceed advance queued_in test_loop is_empty finish close_sockets pop_commands
    execute_next execute_command execute_payload clear relink format_info push pop_batch read_slots
    drain_response_queue deliver flush_client_write_buffer flush_loop Dict.insert
closes = refl

proceed-Pipeline_example : Pipeline from_chars to_string (init_pool 0) (message ∷ []) joined.server
proceed-Pipeline_example =
    proceed-Pipeline from_chars to_string inet_pton host 8080 (init_pool 0) 2 fresh joined before
      (message ∷ []) (omega arith) made ran

proceed-receivers_example :
    (p : Pipeline from_chars to_string (init_pool 0) (message ∷ []) joined.server) × (map receiver
        (p.drained ++ contents no_response joined.server.response_queue)
      ≡ map sender p.executed)
proceed-receivers_example =
    proceed-receivers from_chars to_string inet_pton host 8080 0 2 fresh joined before
      (message ∷ []) (omega arith) (omega arith) made ran (omega arith)

after-IsLater : All IsLater after
after-IsLater = (tt, (tt, (tt, (tt, (tt, tt)))))

shutdown-executes_example :
    (p : Pipeline from_chars to_string (init_pool 0) ((message ∷ []) ++ []) returned.server)
    × (p.executed ≡ (message ∷ []) ++ [])
shutdown-executes_example =
    shutdown-executes from_chars to_string inet_pton host 8080 (init_pool 0) 2 fresh joined returned
      before after (message ∷ []) [] (omega arith) made ran refl (λ e. cc e) after-IsLater closes
      refl

before-IsFine : All IsFine before
before-IsFine = (
  tt,
  (
    tt,
    (
      ((λ i. refl), tt),
      (tt, (tt, (tt, (((λ i. refl), tt), (tt, (tt, (tt, (tt, (tt, (tt, (tt, tt))))))))))),
    ),
  ),
)

never_dangling_example :
    advance from_chars to_string inet_pton host 8080 joined performs ≢ undefined
never_dangling_example =
    never_dangling from_chars to_string inet_pton host 8080 (init_pool 0) 2 fresh joined before
      (message ∷ []) performs made before-IsFine ran

heard : follow from_chars to_string inet_pton host 8080 5 fresh before nothing_yet ≡ record {
  received = bytes "FLUSH\n";
  lines = bytes "FLUSH" ∷ [];
  queued = message ∷ [];
  earlier = [];
}
unfolding follow told_in told advance start stop poll_loop setup_server_socket poll_events
    perform_next perform read_all parse_next parse_line_of handle_new_connection process_client_line
    enqueue push find_newline strip_cr parse_line parse_tokens split_tokens split_loop skip_blanks
    next_token Dict.insert set_read_buffer drain_response_queue pop_batch read_slots deliver
heard = refl

-- The line of the client has been processed, and nothing of it waits.
proceed-take_input_example :
    let h = follow from_chars to_string inet_pton host 8080 5 fresh before nothing_yet in
    let waiting = take_input [] client.read_buffer in
    (p : Pipeline from_chars to_string (init_pool 0) (message ∷ []) joined.server) × (take_input []
        h.received
      ≡ (h.lines ++ waiting.0, waiting.1))
    × (of_client 5
          (p.executed ++ joined.server.batch ++ contents no_message joined.server.ingress_queue)
        ≡ h.earlier ++ h.queued)
    × Makes from_chars to_string 5 h.lines h.queued
    × ((at_parse 5 joined.todo ≡ true) ⊎ (waiting ≡ ([], client.read_buffer)))
proceed-take_input_example =
    proceed-take_input from_chars to_string inet_pton host 8080 5 (init_pool 0) 2 fresh joined
      before (message ∷ []) client (omega arith) made before-IsFine ran refl

-- The answers of the monitors before and after the matching thread has taken the command.
monitors :
    (ingress_queue_depth joined ≡ 1)
    × (processed_orders_count joined ≡ 0)
    × (connected_clients joined ≡ 1)
    × (ingress_queue_depth returned ≡ 0)
    × (processed_orders_count returned ≡ 1)
    × (connected_clients returned ≡ 0)
unfolding ingress_queue_depth size
monitors = (refl, refl, refl, refl, refl, refl)

-- The response queue is full when the matching thread is joined.
abbrev stuck : System
stuck = record joined { server = waiting; running = true }

answered : (execute_command to_string stuck.server.order_book message).1 ≡ some response
unfolding execute_command execute_payload clear relink format_info
answered = refl

full : (push stuck.server.response_queue response).0 ≡ false
unfolding push
full = refl

stuck_ran :
    proceed from_chars to_string inet_pton host 8080 stuck (stops ∷ [])
    ≡ some (record stuck { running = false }, [])
unfolding proceed advance queued_in stop
stuck_ran = refl

joining_never_returns_example :
    ((record stuck { running = false }).phase ≡ joining)
    × ((record stuck { running = false }).server ≡ stuck.server)
joining_never_returns_example =
    joining_never_returns from_chars to_string inet_pton host 8080 stuck
      (record stuck { running = false }) (stops ∷ []) [] [] message response refl refl refl refl
      answered full stuck_ran

-- The matching thread sees no command and ends; one that is queued after that is never executed.
abbrev race : List Move
race =
    starts calls
    ∷ launches
    ∷ polls (poll (event 3 (5 ∷ []) [] ∷ []))
    ∷ performs
    ∷ performs
    ∷ performs
    ∷ polls (poll (event 5 [] (bytes "FLUSH\n") ∷ []))
    ∷ performs
    ∷ performs
    ∷ stops
    ∷ tests
    ∷ performs
    ∷ performs
    ∷ performs
    ∷ polls (poll [])
    ∷ returns (λ i. written)
    ∷ []

lost :
    proceed from_chars to_string inet_pton host 8080 fresh race
    ≡ some (
      record fresh {
        server = record server { next_sequence = 2; ingress_queue = queue no_message 1 message };
      },
      message ∷ [],
    )
unfolding proceed advance queued_in queued_by start stop poll_loop test_loop is_empty finish
    close_sockets setup_server_socket poll_events perform_next perform read_all parse_next
    parse_line_of handle_new_connection process_client_line enqueue push find_newline strip_cr
    parse_line parse_tokens split_tokens split_loop skip_blanks next_token Dict.insert
    set_read_buffer drain_response_queue pop_batch read_slots deliver
lost = refl
