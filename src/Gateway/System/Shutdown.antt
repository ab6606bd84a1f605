-- ===== src/Gateway/System/Shutdown.antt =====
-- The end of start in src/tcp_server.cpp: the matching thread is joined, and what it still does.
use lloms.Base.{
  ℕ, ◌^◌, ◌≤◌, ◌≡◌, ◌≢◌, ◌⊎◌, refl, sym, ap₂, ◌∙◌, inl, inr, true, Option, none, some, List, [],
  ◌++◌, arith, All, append-nil,
}
use lloms.Base.Text.{Text}
use lloms.Pool.{Book}
use lloms.Spsc.{Queue, is_empty}
use lloms.Spsc.Valid.{contents, count}
use lloms.Gateway.Execute.{IngressMessage}
use lloms.Gateway.Server.{TcpServer, no_message, drain_response_queue, pop_commands, execute_next}
use lloms.Gateway.Pipeline.{Pipeline}
use lloms.Gateway.Poll.{goes}
use lloms.Gateway.System.{
  System, Move, stopped, joining, testing, ended, starts, launches, polls, performs, returns, tests,
  pops, executes, stops, new_system, poll_loop, stop, test_loop, finish, served, perform_next,
  advance, proceed,
}
use lloms.Gateway.System.Moves.{pops-served, executes-served, proceed_keeps, proceed_always}
use lloms.Gateway.System.Parked.{Parked, advance-Parked}
use lloms.Gateway.System.Steps.{then-Steps}
use lloms.Gateway.System.Refines.{new_system-new_server, Steps-Pipeline, proceed-Steps}

-- A move that does not call start again.
abbrev pub IsLater : Move → Type 0
IsLater (starts calls) = ⊥
IsLater launches = Unit {0}
IsLater (polls calls) = Unit {0}
IsLater performs = Unit {0}
IsLater (returns writes) = Unit {0}
IsLater tests = Unit {0}
IsLater pops = Unit {0}
IsLater executes = Unit {0}
IsLater stops = Unit {0}

-- The polling thread has left its loop, and the matching thread does not end before its work is done.
record Closing (s : System) : Type 0 where
  todo_done : s.todo ≡ []
  behind : (s.phase ≡ joining) ⊎ (s.phase ≡ stopped)
  at_end : s.phase ≡ stopped → s.matching ≡ ended
  emptied : s.matching ≡ ended → (s.server.batch ≡ []) × (is_empty s.server.ingress_queue ≡ true)

served-Closing :
    (s t : System) (server : Option TcpServer)
    → s.matching ≢ ended
    → served s server testing ≡ goes t
    → Closing s
    → Closing t
served-Closing s t none busy went c = cc went
served-Closing s t (some server) busy went c = ground arith

module _ (from_chars : ℕ → Text → Option (ℕ × ℕ)) (to_string : ℕ → Text)
    (inet_pton : Text → Option ℕ) (host : Text) (port : ℕ) where
  advance-Closing :
      (s t : System) (m : Move)
      → advance from_chars to_string inet_pton host port s m ≡ goes t
      → IsLater m
      → Closing s
      → Closing t
  unfolding advance poll_loop test_loop stop perform_next finish drain_response_queue
  advance-Closing s t (starts calls) went later c = absurd later
  advance-Closing s t launches went later c = ground arith
  advance-Closing s t (polls calls) went later c = ground arith
  advance-Closing s t performs went later c = cc (rw (c.todo_done, perform_next) at went)
  advance-Closing s t (returns writes) went later c = ground arith
  advance-Closing s t tests went later c = ground arith
  advance-Closing s t pops went later c =
      let (at, did) = pops-served from_chars to_string inet_pton host port s t went in
      served-Closing s t (pop_commands s.server) (λ h. cc (at, h)) did c
  advance-Closing s t executes went later c =
      let (at, did) = executes-served from_chars to_string inet_pton host port s t went in
      served-Closing s t (execute_next from_chars to_string s.server) (λ h. cc (at, h)) did c
  advance-Closing s t stops went later c = ground arith

empty_contents : {A : Type 0} (fresh : A) (q : Queue A) → is_empty q ≡ true → contents fresh q ≡ []
unfolding is_empty
empty_contents fresh q e =
    let same : q.tail ≡ q.head = ground arith in
    let none_left : count q ≡ 0 = omega (arith, same) in rw none_left refl

all_executed :
    (from_chars : ℕ → Text → Option (ℕ × ℕ)) (to_string : ℕ → Text) (book : Book)
    (ms : List IngressMessage) (s : TcpServer) (p : Pipeline from_chars to_string book ms s)
    → s.batch ≡ []
    → contents no_message s.ingress_queue ≡ []
    → p.executed ≡ ms
all_executed from_chars to_string book ms s p no_batch nothing = sym (
    p.in_order
    ∙ (ap₂ (λ xs ys. (p.executed ++ xs) ++ ys) no_batch nothing
        ∙ (append-nil (p.executed ++ []) ∙ append-nil p.executed)))

-- On a new server, with queues of a capacity up to 2 to the 63, whatever moves stop, the two threads
-- and start have made until the polling thread has left its loop, and whatever moves but another start
-- come after them: if the matching thread had not ended before, then once start has returned every
-- message that was made of the clients' lines has been executed, in their order.
pub shutdown-executes :
    (from_chars : ℕ → Text → Option (ℕ × ℕ)) (to_string : ℕ → Text) (inet_pton : Text → Option ℕ)
    (host : Text) (port : ℕ) (book : Book) (capacity : ℕ) (s t u : System)
    (before after : List Move) (ms ns : List IngressMessage)
    → capacity ≤ 2 ^ 63
    → new_system book capacity ≡ some s
    → proceed from_chars to_string inet_pton host port s before ≡ some (t, ms)
    → t.phase ≡ joining
    → t.matching ≢ ended
    → All IsLater after
    → proceed from_chars to_string inet_pton host port t after ≡ some (u, ns)
    → u.phase ≡ stopped
    → (p : Pipeline from_chars to_string book (ms ++ ns) u.server) × (p.executed ≡ ms ++ ns)
shutdown-executes from_chars to_string inet_pton host port book capacity s t u before after ms ns
      small made ran joined busy later ran' returned =
    let (made_server, idle) = new_system-new_server book capacity s made in
    let parked =
      proceed_always from_chars to_string inet_pton host port Parked
        (advance-Parked from_chars to_string inet_pton host port) before s t ms ran
        (record { quiet = inr idle }) in
    let closing =
      proceed_keeps from_chars to_string inet_pton host port IsLater Closing
        (advance-Closing from_chars to_string inet_pton host port) after t u ns later ran'
        (record {
          todo_done = ground (arith, parked.quiet);
          behind = inl joined;
          at_end = λ e. cc (e, joined);
          emptied = λ e. absurd (busy e);
        }) in
    let (no_batch, no_more) = closing.emptied (closing.at_end returned) in
    let p = Steps-Pipeline from_chars to_string book capacity s u.server (ms ++ ns) small made (
      then-Steps from_chars to_string s.server t.server u.server ms ns
        (proceed-Steps from_chars to_string inet_pton host port before s t ms ran)
        (proceed-Steps from_chars to_string inet_pton host port after t u ns ran')) in
    let nothing = empty_contents no_message u.server.ingress_queue no_more in
    (p, all_executed from_chars to_string book (ms ++ ns) u.server p no_batch nothing)
