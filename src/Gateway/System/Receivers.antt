-- ===== src/Gateway/System/Receivers.antt =====
-- The responses of the server of src/tcp_server.cpp, from start to its end.
use lloms.Base.{ℕ, ◌^◌, ◌≤◌, ◌≡◌, Option, some, List, ◌++◌, map, length}
use lloms.Base.Text.{Text}
use lloms.Pool.{init, invalid_idx}
use lloms.Pool.Allot.{HasRoom}
use lloms.Spsc.Valid.{contents}
use lloms.Gateway.Execute.{IngressMessage}
use lloms.Gateway.Server.{no_response}
use lloms.Gateway.Pipeline.{Pipeline}
use lloms.Gateway.Pipeline.Responses.{sender, receiver, run-receivers}
use lloms.Gateway.System.{System, Move, new_system, proceed}
use lloms.Gateway.System.Refines.{new_system-new_server, proceed-Steps}

-- On a new server with a queue capacity of at most 2 ^ 63 and a new pool book, for which at most 2 ^ 32 - 1
-- nodes are reserved, whatever start, stop, poll_events and matching_thread_loop have done, as long as
-- the clients have sent fewer than 2 to the 31 commands: the commands go their way as
-- `Pipeline` says, and the responses that were drained or wait are one for each executed command, in
-- the same order, for the client that sent the command and with its sequence number.
pub proceed-receivers :
    (from_chars : ℕ → Text → Option (ℕ × ℕ)) (to_string : ℕ → Text) (inet_pton : Text → Option ℕ)
    (host : Text) (port capacity queue_capacity : ℕ) (s t : System) (moves : List Move)
    (ms : List IngressMessage)
    → capacity ≤ invalid_idx
    → queue_capacity ≤ 2 ^ 63
    → new_system (init capacity) queue_capacity ≡ some s
    → proceed from_chars to_string inet_pton host port s moves ≡ some (t, ms)
    → HasRoom (length ms)
    → (p : Pipeline from_chars to_string (init capacity) ms t.server) × (map receiver
          (p.drained ++ contents no_response t.server.response_queue)
        ≡ map sender p.executed)
proceed-receivers from_chars to_string inet_pton host port capacity queue_capacity s t moves ms
      small queue_small made ran room =
    let (events, went) = proceed-Steps from_chars to_string inet_pton host port moves s t ms ran in
    run-receivers from_chars to_string capacity queue_capacity s.server t.server events ms small
      queue_small (new_system-new_server (init capacity) queue_capacity s made).0 went room
