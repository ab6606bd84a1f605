-- ===== src/Main/Service.antt =====
-- What the server that src/main.cpp starts does for its clients.
use lloms.Base.{ℕ, ◌≡◌, inl, inr, Option, some, List, ◌++◌, map, arith, length, Option-cases}
use lloms.Base.Text.{Text}
use lloms.Pool.{init}
use lloms.Pool.Allot.{HasRoom}
use lloms.Spsc.Valid.{contents}
use lloms.Spsc.History.{init-IsValid}
use lloms.Gateway.Execute.{IngressMessage}
use lloms.Gateway.Server.{no_message, no_response, new_server}
use lloms.Gateway.Pipeline.{Pipeline}
use lloms.Gateway.Pipeline.Responses.{sender, receiver}
use lloms.Gateway.System.{System, Move, new_system, proceed}
use lloms.Gateway.System.Receivers.{proceed-receivers}
use lloms.Main.{main_system}

-- The constructors end.
main_system-some : (s : System) × (main_system ≡ some s)
unfolding main_system new_system new_server
main_system-some =
    let ingress = init-IsValid no_message 65536 (omega arith) in
    let response = init-IsValid no_response 65536 (omega arith) in
    elim (Option-cases main_system) [
      | inl none_made ↦ cc (rw (ingress.1, response.1, new_server, new_system) at none_made)
      | inr made ↦ made
    ]

-- The capacities of main are small enough.
main-receivers :
    (from_chars : ℕ → Text → Option (ℕ × ℕ)) (to_string : ℕ → Text) (inet_pton : Text → Option ℕ)
    (host : Text) (port : ℕ) (s t : System) (moves : List Move) (ms : List IngressMessage)
    → main_system ≡ some s
    → proceed from_chars to_string inet_pton host port s moves ≡ some (t, ms)
    → HasRoom (length ms)
    → (p : Pipeline from_chars to_string (init 1000000) ms t.server) × (map receiver
          (p.drained ++ contents no_response t.server.response_queue)
        ≡ map sender p.executed)
unfolding main_system
main-receivers from_chars to_string inet_pton host port s t moves ms made ran room =
    proceed-receivers from_chars to_string inet_pton host port 1000000 65536 s t moves ms
      (omega arith) (omega arith) made ran room
