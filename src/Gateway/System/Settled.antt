-- ===== src/Gateway/System/Settled.antt =====
-- The newlines in the read buffers of src/tcp_server.cpp, over the moves of the two threads.
use lloms.Base.{
  ℕ, ◌≡◌, refl, subst, inl, inr, Option, some, List, [], ◌∷◌, ◌++◌, arith, All, Bool-cases,
}
use lloms.Base.Text.{Text}
use lloms.Gateway.Execute.{IngressMessage}
use lloms.Gateway.Server.{TcpServer, pop_commands, execute_next}
use lloms.Gateway.Replies.{Keyed}
use lloms.Gateway.Poll.{Task, PollCalls, Outcome, waits, undefined, goes, perform}
use lloms.Gateway.System.{
  System, Move, starts, launches, polls, performs, returns, tests, pops, executes, stops, start,
  stop, poll_loop, test_loop, finish, performed, perform_next, advance, proceed,
}
use lloms.Gateway.System.Moves.{
  moved_keeps, served_keeps, proceed_keeps, pops-served, executes-served,
}
use lloms.Gateway.System.Polled.{Sound-Keyed}
use lloms.Gateway.System.Dangling.{
  IsFine, Referring, pop_commands-clients, execute_next-clients, advance-Referring,
}
use lloms.Gateway.System.Scanned.{Scanned, perform-Scanned}

polled-Scanned :
    (fd : ℕ) (s : System) (calls : PollCalls)
    → s.todo ≡ []
    → Scanned fd s.server.clients s.todo
    → Scanned fd (poll_loop calls s).server.clients (poll_loop calls s).todo
unfolding poll_loop
polled-Scanned fd s calls done h =
    let quiet = subst (Scanned fd s.server.clients) done h refl in
    elim (Bool-cases s.running) [
      | inl e ↦ rw (e, poll_loop) (λ out. quiet)
      | inr e ↦ rw (e, poll_loop) h
    ]

module _ (from_chars : ℕ → Text → Option (ℕ × ℕ)) (to_string : ℕ → Text) (fd : ℕ) where
  performed-Scanned :
      (task : Task) (tasks : List Task) (s t : System) (o : Outcome (TcpServer × List Task))
      → perform from_chars to_string task s.server ≡ o
      → performed s tasks o ≡ goes t
      → Keyed s.server.clients
      → Scanned fd s.server.clients (task ∷ tasks)
      → Scanned fd t.server.clients t.todo
  performed-Scanned task tasks s t waits e went k h = cc went
  performed-Scanned task tasks s t undefined e went k h = cc went
  performed-Scanned task tasks s t (goes (server, more)) e went k h =
      let same : t ≡ record s { server = server; todo = more ++ tasks } = cc went in
      rw same (perform-Scanned from_chars to_string fd task tasks s.server server more e k h)

  performs-Scanned :
      (s t : System) (todo : List Task)
      → perform_next from_chars to_string todo s ≡ goes t
      → Keyed s.server.clients
      → Scanned fd s.server.clients todo
      → Scanned fd t.server.clients t.todo
  unfolding perform_next
  performs-Scanned s t [] went k h = cc went
  performs-Scanned s t (task ∷ tasks) went k h = performed-Scanned task tasks s t _ refl went k h

module _ (from_chars : ℕ → Text → Option (ℕ × ℕ)) (to_string : ℕ → Text)
    (inet_pton : Text → Option ℕ) (host : Text) (port fd : ℕ) where
  advance-Scanned :
      (s t : System) (m : Move)
      → advance from_chars to_string inet_pton host port s m ≡ goes t
      → Keyed s.server.clients
      → Scanned fd s.server.clients s.todo
      → Scanned fd t.server.clients t.todo
  unfolding advance start stop test_loop finish
  advance-Scanned s t (starts calls) went k h =
      moved_keeps (Scanned fd) s t (ground arith) (ground arith) h
  advance-Scanned s t launches went k h =
      moved_keeps (Scanned fd) s t (ground arith) (ground arith) h
  advance-Scanned s t (polls calls) went k h =
      let same : t ≡ poll_loop calls s = ground arith in
      rw same (polled-Scanned fd s calls (ground (arith, went)) h)
  advance-Scanned s t performs went k h =
      performs-Scanned from_chars to_string fd s t s.todo went k h
  advance-Scanned s t (returns writes) went k h =
      let gone : t.server.clients ≡ [] = ground arith in rw gone (λ out client found. cc found)
  advance-Scanned s t tests went k h = moved_keeps (Scanned fd) s t (ground arith) (ground arith) h
  advance-Scanned s t pops went k h =
      served_keeps (Scanned fd) s t (pop_commands s.server)
        (pops-served from_chars to_string inet_pton host port s t went).1
        (pop_commands-clients s.server) h
  advance-Scanned s t executes went k h =
      served_keeps (Scanned fd) s t (execute_next from_chars to_string s.server)
        (executes-served from_chars to_string inet_pton host port s t went).1
        (execute_next-clients from_chars to_string s.server) h
  advance-Scanned s t stops went k h = moved_keeps (Scanned fd) s t (ground arith) (ground arith) h

  pub proceed-Scanned :
      (moves : List Move) (s t : System) (ms : List IngressMessage)
      → All IsFine moves
      → proceed from_chars to_string inet_pton host port s moves ≡ some (t, ms)
      → Referring s
      → s.server.clients ≡ []
      → Scanned fd t.server.clients t.todo
  proceed-Scanned moves s t ms fine ran r alone =
      (proceed_keeps from_chars to_string inet_pton host port IsFine
        (λ u. Referring u × Scanned fd u.server.clients u.todo)
        (λ u v m went fine (r, h). (
          advance-Referring from_chars to_string inet_pton host port u v m went fine r,
          advance-Scanned u v m went (Sound-Keyed u.server.clients u.todo r.sound) h,
        ))
        moves s t ms fine ran (r, rw alone (λ out client found. cc found))).1
