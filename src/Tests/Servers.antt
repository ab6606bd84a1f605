-- ===== src/Tests/Servers.antt =====
-- src/tcp_server.cpp on one client, with queues of two.
use lloms.Base.{drop, ℕ, ◌≡◌, refl, Option, none, some, List, [], ◌∷◌, ◌++◌, arith, take}
use lloms.Base.Dict
use lloms.Base.Dict.{lookup}
use lloms.Base.Text.{Text, bytes}
use lloms.Protocol.{
  flush, no_order, format_info, skip_blanks, next_token, split_loop, split_tokens, parse_tokens,
  parse_line,
}
use lloms.Pool.{Book, linked_nodes}
use lloms.Pool.{init as init_pool}
use lloms.Pool.Orders.{clear, relink}
use lloms.Spsc.{Queue, push, pop_batch, read_slots, init, round_up_loop, round_up_power_of_two}
use lloms.Spsc.Valid.{IsValid, contents}
use lloms.Gateway.Execute.{IngressMessage, ResponseMessage, execute_command, execute_payload}
use lloms.Gateway.Server.{
  ClientConnection, TcpServer, Written, again, no_message, no_response, new_server,
  drain_response_queue, deliver, flush_client_write_buffer, flush_loop, enqueue,
  process_client_line, pop_commands, execute_next, accept_client,
}
use lloms.Gateway.Pipeline.{
  Event, client_accepted, line_read, commands_popped, command_executed, step, messages_of, run,
}
use lloms.Gateway.Pipeline.Progress.{execute_many, execute_many-drain_response_queue}
use lloms.Gateway.Replies.{sent_to, payloads, drain_response_queue-delivers}

abbrev book : Book
book = record {
  store = record { nodes = []; free_head = 4294967295; order_index = [] };
  bids = [];
  asks = [];
}

abbrev pub queue : {A : Type 0} → A → ℕ → A → Queue A
queue fresh tail first = record {
  capacity = 2;
  mask = 1;
  buffer = first ∷ fresh ∷ [];
  tail = tail;
  head = 0;
}

abbrev pub server : TcpServer
server = record {
  clients = [];
  next_sequence = 1;
  ingress_queue = queue no_message 0 no_message;
  response_queue = queue no_response 0 no_response;
  order_book = book;
  processed_orders = 0;
  batch = [];
}

abbrev pub from_chars : ℕ → Text → Option (ℕ × ℕ)
from_chars bits s = none

abbrev pub to_string : ℕ → Text
to_string n = n ∷ []

abbrev pub written : Written
written = record { counts = []; ending = again }

-- A client sends FLUSH, which is executed.
abbrev events : List Event
events =
    client_accepted 5
    ∷ line_read 0 7 written 5 (bytes "FLUSH")
    ∷ commands_popped
    ∷ command_executed
    ∷ []

abbrev pub message : IngressMessage
message = record {
  sequence = 1;
  client_fd = 5;
  ingress_timestamp = 7;
  command = record { type = flush; order = no_order; cancel_id = 0; error_msg = [] };
}

abbrev pub client : ClientConnection
client = record { fd = 5; read_buffer = []; write_buffer = [] }

abbrev pub response : ResponseMessage
response = record { client_fd = 5; sequence = 1; payload = bytes "INFO BOOK_FLUSHED\n" }

abbrev pub flushed : TcpServer
flushed = record server {
  clients = (5, client) ∷ [];
  next_sequence = 2;
  ingress_queue = record (queue no_message 1 message) { head = 1 };
  response_queue = queue no_response 1 response;
  processed_orders = 1;
}

made : new_server book 2 ≡ some server
unfolding new_server init round_up_power_of_two round_up_loop
made = refl

ran : run from_chars to_string server events ≡ some (flushed, message ∷ [])
unfolding run step messages_of accept_client process_client_line enqueue pop_commands execute_next
    execute_command execute_payload clear relink format_info push pop_batch read_slots parse_line
    parse_tokens split_tokens split_loop skip_blanks next_token Dict.insert
ran = refl

pub made_empty : new_server (init_pool 0) 2 ≡ some server
unfolding new_server init round_up_power_of_two round_up_loop init_pool linked_nodes
made_empty = refl

-- The same with a full response queue: the next command waits.
abbrev pub full_queue : Queue ResponseMessage
full_queue = record {
  capacity = 2;
  mask = 1;
  buffer = response ∷ response ∷ [];
  tail = 2;
  head = 0;
}

abbrev pub waiting : TcpServer
waiting = record flushed { response_queue = full_queue; batch = message ∷ [] }

pub waits : execute_next from_chars to_string waiting ≡ none
unfolding execute_next execute_command execute_payload clear relink format_info push
waits = refl

full_queue-IsValid : IsValid full_queue
full_queue-IsValid = record {
  exponent = 1;
  small = omega arith;
  power = refl;
  masked = refl;
  slots = refl;
  head_fits = omega arith;
  tail_fits = omega arith;
  within = omega arith;
}

-- The sockets take five bytes at first, and then one.
abbrev writes : ℕ → Written
writes ℕ.zero = record { counts = 5 ∷ []; ending = again }
writes (ℕ.suc i) = record { counts = 1 ∷ []; ending = again }

abbrev two_left : TcpServer
two_left = record waiting { batch = message ∷ message ∷ [] }

execute_many-drain_response_queue_example :
    (t : TcpServer) × (execute_many from_chars to_string 2 (drain_response_queue writes two_left).0
      ≡ some t)
    × (t.batch ≡ drop 2 two_left.batch)
execute_many-drain_response_queue_example =
    execute_many-drain_response_queue from_chars to_string two_left writes 2 full_queue-IsValid
      (omega arith) (omega arith) (omega arith)

-- Two answers of 18 bytes are for the client, and six bytes of them are sent.
abbrev last : ClientConnection
last = record { fd = 5; read_buffer = []; write_buffer = bytes "OOK_FLUSHED\nINFO BOOK_FLUSHED\n" }

left : lookup 5 (drain_response_queue writes waiting).0.clients ≡ some last
unfolding drain_response_queue pop_batch read_slots deliver flush_client_write_buffer flush_loop
    Dict.insert Dict.erase
left = refl

one_client : (fd : ℕ) (c : ClientConnection) → lookup fd waiting.clients ≡ some c → c.fd ≡ fd
one_client fd c e = ground (arith, e)

drain_response_queue-delivers_example :
    sent_to 5 (drain_response_queue writes waiting).1 ++ last.write_buffer
    ≡ client.write_buffer ++ payloads 5 (take 64 (contents no_response waiting.response_queue))
drain_response_queue-delivers_example =
    drain_response_queue-delivers waiting writes 5 client last full_queue-IsValid one_client refl
      left
