-- ===== src/Gateway/System/Refines.antt =====
-- The loops of src/tcp_server.cpp make steps of the two threads only.
use lloms.Base.{
  ℕ, ◌^◌, ◌≤◌, ◌≡◌, refl, ◌∙◌, inl, inr, Option, some, List, [], ◌∷◌, arith, Option-cases,
}
use lloms.Base.Text.{Text}
use lloms.Pool.{Book}
use lloms.Gateway.Execute.{IngressMessage}
use lloms.Gateway.Server.{
  TcpServer, Written, new_server, drain_response_queue, pop_commands, execute_next,
}
use lloms.Gateway.Pipeline.{
  clients_closed, responses_drained, commands_popped, command_executed, step, messages_of, Pipeline,
}
use lloms.Gateway.Pipeline.Order.{run-Pipeline}
use lloms.Gateway.Poll.{goes}
use lloms.Gateway.System.Moves.{proceed-Between, pops-served, executes-served}
use lloms.Gateway.System.Steps.{
  Steps, no-Steps, one-Steps, then-Steps, served-Steps, perform_next-Steps,
}
use lloms.Gateway.System.{
  System, Move, testing, starts, launches, stop, test_loop, polls, performs, returns, tests, pops,
  executes, stops, new_system, poll_loop, start, finish, advance, queued_in, proceed,
}

module _ (from_chars : ℕ → Text → Option (ℕ × ℕ)) (to_string : ℕ → Text)
    (inet_pton : Text → Option ℕ) (host : Text) (port : ℕ) where
  same_server :
      (s t : System) → t.server ≡ s.server → Steps from_chars to_string s.server t.server []
  same_server s t same = rw same (no-Steps from_chars to_string s.server)

  finish-Steps :
      (writes : ℕ → Written) (s : System)
      → Steps from_chars to_string s.server (finish writes s).server []
  unfolding finish step messages_of
  finish-Steps writes s =
      let drained = (drain_response_queue writes s.server).0 in
      then-Steps from_chars to_string s.server drained (finish writes s).server [] []
        (one-Steps from_chars to_string s.server drained (responses_drained writes) refl)
        (one-Steps from_chars to_string drained (finish writes s).server clients_closed refl)

  -- Each move makes steps of the server, and the messages of these.
  pub advance-Steps :
      (s t : System) (m : Move)
      → advance from_chars to_string inet_pton host port s m ≡ goes t
      → Steps from_chars to_string s.server t.server (queued_in from_chars to_string s m)
  unfolding advance queued_in step messages_of start poll_loop test_loop stop
  advance-Steps s t (starts calls) went = same_server s t (ground arith)
  advance-Steps s t launches went = same_server s t (ground arith)
  advance-Steps s t (polls calls) went = same_server s t (ground arith)
  advance-Steps s t performs went = perform_next-Steps from_chars to_string s t s.todo refl went
  advance-Steps s t (returns writes) went =
      let same : t ≡ finish writes s = ground arith in rw same (finish-Steps writes s)
  advance-Steps s t tests went = same_server s t (ground arith)
  advance-Steps s t pops went =
      served-Steps from_chars to_string s t (pop_commands s.server) testing commands_popped
        (pops-served from_chars to_string inet_pton host port s t went).1 refl
  advance-Steps s t executes went =
      served-Steps from_chars to_string s t (execute_next from_chars to_string s.server) testing
        command_executed (executes-served from_chars to_string inet_pton host port s t went).1 refl
  advance-Steps s t stops went = same_server s t (cc went)

  -- Whatever moves the threads make, the server makes steps of `Pipeline`, with the messages of these.
  pub proceed-Steps :
      (moves : List Move) (s t : System) (ms : List IngressMessage)
      → proceed from_chars to_string inet_pton host port s moves ≡ some (t, ms)
      → Steps from_chars to_string s.server t.server ms
  unfolding proceed
  proceed-Steps [] s t ms ran =
      let same : t ≡ s = cc ran in
      let none_made : ms ≡ [] = cc ran in
      rw (same, none_made) (no-Steps from_chars to_string s.server)
  proceed-Steps (m ∷ moves) s t ms ran =
      let b = proceed-Between from_chars to_string inet_pton host port s t m moves ms ran in
      rw (b.all) (
        then-Steps from_chars to_string s.server b.at.server t.server _ b.later
          (advance-Steps s b.at m b.moved) (proceed-Steps moves b.at t b.later b.went_on))

-- The initialisers of the members.
pub new_system-new_server :
    (book : Book) (capacity : ℕ) (s : System)
    → new_system book capacity ≡ some s
    → (new_server book capacity ≡ some s.server) × (s.todo ≡ [])
unfolding new_system
new_system-new_server book capacity s made = elim (Option-cases (new_server book capacity)) [
  | inl none_made ↦ cc (rw (none_made, new_system) at made)
  | inr (server, e) ↦ let same = rw (e, new_system) at made in (e ∙ ground arith, ground arith)
]

pub Steps-Pipeline :
    (from_chars : ℕ → Text → Option (ℕ × ℕ)) (to_string : ℕ → Text) (book : Book) (capacity : ℕ)
    (s : System) (t : TcpServer) (ms : List IngressMessage)
    → capacity ≤ 2 ^ 63
    → new_system book capacity ≡ some s
    → Steps from_chars to_string s.server t ms
    → Pipeline from_chars to_string book ms t
Steps-Pipeline from_chars to_string book capacity s t ms small made (events, went) =
    run-Pipeline from_chars to_string book capacity s.server t events ms small
      (new_system-new_server book capacity s made).0 went

-- On a new server, with queues of a capacity up to 2 to the 63, whatever moves start, stop, poll_events
-- and matching_thread_loop have made, in whatever order: the messages that were queued are numbered
-- from 1 in their order, the first of them are executed, on the book and with the answers that they
-- have one after the other, the others wait in their order in the batch and the queue; and the answers
-- are drained or wait in their order.
pub proceed-Pipeline :
    (from_chars : ℕ → Text → Option (ℕ × ℕ)) (to_string : ℕ → Text) (inet_pton : Text → Option ℕ)
    (host : Text) (port : ℕ) (book : Book) (capacity : ℕ) (s t : System) (moves : List Move)
    (ms : List IngressMessage)
    → capacity ≤ 2 ^ 63
    → new_system book capacity ≡ some s
    → proceed from_chars to_string inet_pton host port s moves ≡ some (t, ms)
    → Pipeline from_chars to_string book ms t.server
proceed-Pipeline from_chars to_string inet_pton host port book capacity s t moves ms small made
      ran =
    Steps-Pipeline from_chars to_string book capacity s t.server ms small made
      (proceed-Steps from_chars to_string inet_pton host port moves s t ms ran)
