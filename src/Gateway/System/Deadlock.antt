-- ===== src/Gateway/System/Deadlock.antt =====
-- The join in start of src/tcp_server.cpp, when the response queue is full.
use lloms.Base.{ℕ, ◌≡◌, refl, false, Option, none, some, List, [], ◌∷◌, arith, is_nil}
use lloms.Base.Text.{Text}
use lloms.Spsc.{push}
use lloms.Gateway.Execute.{IngressMessage, ResponseMessage, execute_command}
use lloms.Gateway.Server.{TcpServer, execute_next}
use lloms.Gateway.Poll.{goes}
use lloms.Gateway.System.{
  System, Move, joining, testing, starts, launches, polls, performs, returns, tests, pops, executes,
  stops, stop, perform_next, advance, proceed,
}
use lloms.Gateway.System.Moves.{proceed_always}

module _ (from_chars : ℕ → Text → Option (ℕ × ℕ)) (to_string : ℕ → Text)
    (inet_pton : Text → Option ℕ) (host : Text) (port : ℕ) where
  -- The polling thread waits for the matching thread, and that one for room.
  record Waiting (server : TcpServer) (s : System) : Type 0 where
    pub todo_done : s.todo ≡ []
    pub joined : s.phase ≡ joining
    pub looping : s.matching ≡ testing
    pub same : s.server ≡ server
    pub busy : is_nil server.batch ≡ false
    pub full : execute_next from_chars to_string server ≡ none

  advance-Waiting :
      (server : TcpServer) (s t : System) (m : Move)
      → advance from_chars to_string inet_pton host port s m ≡ goes t
      → Waiting server s
      → Waiting server t
  unfolding advance stop perform_next
  advance-Waiting server s t (starts calls) went w = cc (rw (w.joined, advance) at went)
  advance-Waiting server s t launches went w = cc (rw (w.joined, advance) at went)
  advance-Waiting server s t (polls calls) went w = cc (rw (w.joined, advance) at went)
  advance-Waiting server s t performs went w = cc (rw (w.todo_done, perform_next) at went)
  advance-Waiting server s t (returns writes) went w =
      cc (rw (w.joined, w.looping, advance) at went)
  advance-Waiting server s t tests went w =
      let here : is_nil s.server.batch ≡ false = rw w.same w.busy in
      cc (rw (w.looping, here, advance) at went)
  advance-Waiting server s t pops went w = cc (rw (w.looping, advance) at went)
  advance-Waiting server s t executes went w =
      let here : execute_next from_chars to_string s.server ≡ none = rw w.same w.full in
      cc (rw (w.looping, here, advance) at went)
  advance-Waiting server s t stops went w = ground arith

  -- If start waits for the matching thread while that one has a batch whose next command has a
  -- response, and the response queue is full, then start never returns: whatever moves come, it still
  -- waits and nothing of the server has changed.
  pub joining_never_returns :
      (s t : System) (moves : List Move) (ms batch : List IngressMessage) (msg : IngressMessage)
      (resp : ResponseMessage)
      → s.todo ≡ []
      → s.phase ≡ joining
      → s.matching ≡ testing
      → s.server.batch ≡ msg ∷ batch
      → (execute_command to_string s.server.order_book msg).1 ≡ some resp
      → (push s.server.response_queue resp).0 ≡ false
      → proceed from_chars to_string inet_pton host port s moves ≡ some (t, ms)
      → (t.phase ≡ joining) × (t.server ≡ s.server)
  unfolding execute_next
  joining_never_returns s t moves ms batch msg resp idle joined looping next answered full ran =
      let w =
        proceed_always from_chars to_string inet_pton host port (Waiting s.server)
          (advance-Waiting s.server) moves s t ms ran
          (record {
            todo_done = idle;
            joined = joined;
            looping = looping;
            same = refl;
            busy = rw next refl;
            full = rw (next, answered, full, execute_next) refl;
          }) in
      (w.joined, w.same)
