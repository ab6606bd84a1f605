-- ===== src/Gateway/System/Parked.antt =====
-- What is left of poll_events in src/tcp_server.cpp when start is not in its loop.
use lloms.Base.{ℕ, ◌≡◌, ◌⊎◌, refl, Option, none, some, List, [], ◌∷◌, arith}
use lloms.Base.Text.{Text}
use lloms.Gateway.Server.{TcpServer}
use lloms.Gateway.Poll.{Task, Outcome, waits, undefined, goes, perform}
use lloms.Gateway.System.{
  System, Move, polling, testing, starts, launches, polls, performs, returns, tests, pops, executes,
  stops, poll_loop, start, stop, test_loop, finish, served, performed, perform_next, advance,
}

-- Outside the loop over poll_events nothing of it is left to do.
pub record Parked (s : System) : Type 0 where
  pub quiet : (s.phase ≡ polling) ⊎ (s.todo ≡ [])

performed-phase :
    (s t : System) (tasks : List Task) (o : Outcome (TcpServer × List Task))
    → performed s tasks o ≡ goes t
    → t.phase ≡ s.phase
performed-phase s t tasks waits went = cc went
performed-phase s t tasks undefined went = cc went
performed-phase s t tasks (goes (server, more)) went = ground arith

served-Parked :
    (s t : System) (server : Option TcpServer)
    → served s server testing ≡ goes t
    → Parked s
    → Parked t
served-Parked s t none went c = cc went
served-Parked s t (some server) went c = ground arith

module _ (from_chars : ℕ → Text → Option (ℕ × ℕ)) (to_string : ℕ → Text)
    (inet_pton : Text → Option ℕ) (host : Text) (port : ℕ) where
  performs-Parked :
      (s t : System) (tasks : List Task)
      → s.todo ≡ tasks
      → perform_next from_chars to_string tasks s ≡ goes t
      → Parked s
      → Parked t
  unfolding perform_next
  performs-Parked s t [] e went p = cc went
  performs-Parked s t (task ∷ tasks) e went p =
      let same = performed-phase s t tasks (perform from_chars to_string task s.server) went in
      ground (arith, same, e)

  pub advance-Parked :
      (s t : System) (m : Move)
      → advance from_chars to_string inet_pton host port s m ≡ goes t
      → Parked s
      → Parked t
  unfolding advance start poll_loop test_loop stop perform_next finish
  advance-Parked s t (starts calls) went p = ground arith
  advance-Parked s t launches went p = ground arith
  advance-Parked s t (polls calls) went p = ground arith
  advance-Parked s t performs went p = performs-Parked s t s.todo refl went p
  advance-Parked s t (returns writes) went p = ground arith
  advance-Parked s t tests went p = ground arith
  advance-Parked s t pops went p = ground arith
  advance-Parked s t executes went p = ground arith
  advance-Parked s t stops went p = ground arith
