-- ===== src/Gateway/System/Dangling.antt =====
-- The reference to the client in handle_client_read of src/tcp_server.cpp, in the whole program.
use lloms.Base.{
  ℕ, ◌≡◌, ◌≢◌, refl, inr, Bool, true, false, Option, none, some, List, [], ◌∷◌, ◌++◌, arith, All,
}
use lloms.Base.Text.{Text}
use lloms.Pool.{Book}
use lloms.Gateway.Execute.{IngressMessage}
use lloms.Gateway.Server.{TcpServer, new_server, pop_commands, execute_next}
use lloms.Gateway.Poll.{Task, PollCalls, Outcome, waits, undefined, goes, perform}
use lloms.Gateway.System.{
  System, Matching, Move, testing, starts, launches, polls, performs, returns, tests, pops,
  executes, stops, new_system, poll_loop, start, stop, test_loop, finish, served, performed,
  perform_next, advance, proceed,
}
use lloms.Gateway.System.Moves.{
  moved_keeps, served_keeps, proceed_keeps, pops-served, executes-served,
}
use lloms.Gateway.System.Refines.{new_system-new_server}
use lloms.Gateway.System.Parked.{Parked, advance-Parked}
use lloms.Gateway.System.Polled.{poll_events-Whole, Sound-Keyed}
use lloms.Gateway.System.Lifetimes.{Fine, Sound, Safe, Whole-Sound, perform-Safe}

-- In a call of poll_events no write that refuses a line fails.
abbrev pub IsFine : Move → Type 0
IsFine (polls calls) = All (λ r. Fine r.line_calls) calls.ready
IsFine (starts calls) = Unit {0}
IsFine launches = Unit {0}
IsFine performs = Unit {0}
IsFine (returns writes) = Unit {0}
IsFine tests = Unit {0}
IsFine pops = Unit {0}
IsFine executes = Unit {0}
IsFine stops = Unit {0}

-- What the polling thread has left to do is sound.
pub record Referring (s : System) : Type 0 where
  pub sound : Sound s.server.clients s.todo
  pub parked : Parked s

pub pop_commands-clients : (s t : TcpServer) → pop_commands s ≡ some t → t.clients ≡ s.clients
unfolding pop_commands
pop_commands-clients s t e = ground arith

pub execute_next-clients :
    (from_chars : ℕ → Text → Option (ℕ × ℕ)) (to_string : ℕ → Text) (s t : TcpServer)
    → execute_next from_chars to_string s ≡ some t
    → t.clients ≡ s.clients
unfolding execute_next
execute_next-clients from_chars to_string s t e = ground arith

performed-Sound :
    (s t : System) (tasks : List Task) (o : Outcome (TcpServer × List Task))
    → performed s tasks o ≡ goes t
    → Safe tasks o
    → Sound t.server.clients t.todo
performed-Sound s t tasks waits went safe = cc went
performed-Sound s t tasks undefined went safe = absurd safe
performed-Sound s t tasks (goes (server, more)) went safe =
    let same : t ≡ record s { server = server; todo = more ++ tasks } = cc went in rw same safe

polled-Sound :
    (s : System) (calls : PollCalls) (running : Bool)
    → s.running ≡ running
    → All (λ r. Fine r.line_calls) calls.ready
    → s.todo ≡ []
    → Sound s.server.clients s.todo
    → Sound (poll_loop calls s).server.clients (poll_loop calls s).todo
unfolding poll_loop
polled-Sound s calls false e fine done h = rw (e, poll_loop) h
polled-Sound s calls true e fine done h =
    rw (e, poll_loop)
      (Whole-Sound s.server.clients _ (Sound-Keyed s.server.clients s.todo h)
        (poll_events-Whole s.sockets.epoll_fd s.sockets.server_fd calls fine))

module _ (from_chars : ℕ → Text → Option (ℕ × ℕ)) (to_string : ℕ → Text) where
  performs-Sound :
      (s t : System) (tasks : List Task)
      → perform_next from_chars to_string tasks s ≡ goes t
      → Sound s.server.clients tasks
      → Sound t.server.clients t.todo
  unfolding perform_next
  performs-Sound s t [] went h = cc went
  performs-Sound s t (task ∷ tasks) went h =
      performed-Sound s t tasks (perform from_chars to_string task s.server) went
        (perform-Safe from_chars to_string task tasks s.server h)

served-ne-undefined :
    (s : System) (server : Option TcpServer) (at : Matching) → served s server at ≢ undefined
served-ne-undefined s none at e = cc e
served-ne-undefined s (some server) at e = cc e

performed-ne-undefined :
    (s : System) (tasks : List Task) (o : Outcome (TcpServer × List Task))
    → Safe tasks o
    → performed s tasks o ≢ undefined
performed-ne-undefined s tasks waits safe e = cc e
performed-ne-undefined s tasks undefined safe e = safe
performed-ne-undefined s tasks (goes r) safe e = cc e

perform_next-ne-undefined :
    (from_chars : ℕ → Text → Option (ℕ × ℕ)) (to_string : ℕ → Text) (s : System) (tasks : List Task)
    → Sound s.server.clients tasks
    → perform_next from_chars to_string tasks s ≢ undefined
unfolding perform_next
perform_next-ne-undefined from_chars to_string s [] h e = cc e
perform_next-ne-undefined from_chars to_string s (task ∷ tasks) h e =
    performed-ne-undefined s tasks (perform from_chars to_string task s.server)
      (perform-Safe from_chars to_string task tasks s.server h) e

module _ (from_chars : ℕ → Text → Option (ℕ × ℕ)) (to_string : ℕ → Text)
    (inet_pton : Text → Option ℕ) (host : Text) (port : ℕ) where
  advance-Sound :
      (s t : System) (m : Move)
      → advance from_chars to_string inet_pton host port s m ≡ goes t
      → IsFine m
      → Parked s
      → Sound s.server.clients s.todo
      → Sound t.server.clients t.todo
  unfolding advance start stop test_loop finish
  advance-Sound s t (starts calls) went fine p h =
      moved_keeps Sound s t (ground arith) (ground arith) h
  advance-Sound s t launches went fine p h = moved_keeps Sound s t (ground arith) (ground arith) h
  advance-Sound s t (polls calls) went fine p h =
      let same : t ≡ poll_loop calls s = ground arith in
      let done : s.todo ≡ [] = ground (arith, went) in
      rw same (polled-Sound s calls s.running refl fine done h)
  advance-Sound s t performs went fine p h = performs-Sound from_chars to_string s t s.todo went h
  advance-Sound s t (returns writes) went fine p h =
      let done : t.todo ≡ [] = ground (arith, p.quiet) in
      let gone : t.server.clients ≡ [] = ground arith in rw (done, gone) (λ fd c found. cc found)
  advance-Sound s t tests went fine p h = moved_keeps Sound s t (ground arith) (ground arith) h
  advance-Sound s t pops went fine p h =
      served_keeps Sound s t (pop_commands s.server)
        (pops-served from_chars to_string inet_pton host port s t went).1
        (pop_commands-clients s.server) h
  advance-Sound s t executes went fine p h =
      served_keeps Sound s t (execute_next from_chars to_string s.server)
        (executes-served from_chars to_string inet_pton host port s t went).1
        (execute_next-clients from_chars to_string s.server) h
  advance-Sound s t stops went fine p h = moved_keeps Sound s t (ground arith) (ground arith) h

  advance-ne-undefined :
      (s : System) (m : Move)
      → Sound s.server.clients s.todo
      → advance from_chars to_string inet_pton host port s m ≢ undefined
  unfolding advance
  advance-ne-undefined s (starts calls) h e = ground arith
  advance-ne-undefined s launches h e = ground arith
  advance-ne-undefined s (polls calls) h e = ground arith
  advance-ne-undefined s performs h e = perform_next-ne-undefined from_chars to_string s s.todo h e
  advance-ne-undefined s (returns writes) h e = ground arith
  advance-ne-undefined s tests h e = ground arith
  advance-ne-undefined s pops h e =
      ground (arith, served-ne-undefined s (pop_commands s.server) testing)
  advance-ne-undefined s executes h e =
      ground (arith, served-ne-undefined s (execute_next from_chars to_string s.server) testing)
  advance-ne-undefined s stops h e = cc e

  pub advance-Referring :
      (s t : System) (m : Move)
      → advance from_chars to_string inet_pton host port s m ≡ goes t
      → IsFine m
      → Referring s
      → Referring t
  advance-Referring s t m went fine r = record {
    sound = advance-Sound s t m went fine r.parked r.sound;
    parked = advance-Parked from_chars to_string inet_pton host port s t m went r.parked;
  }

pub new_server-clients :
    (book : Book) (capacity : ℕ) (s : TcpServer)
    → new_server book capacity ≡ some s
    → s.clients ≡ []
unfolding new_server
new_server-clients book capacity s made = ground arith

pub new_system-Referring :
    (book : Book) (capacity : ℕ) (s : System) → new_system book capacity ≡ some s → Referring s
new_system-Referring book capacity s made =
    let (made_server, idle) = new_system-new_server book capacity s made in
    let alone = new_server-clients book capacity s.server made_server in
    record {
      sound = rw (idle, alone) (λ fd c found. cc found);
      parked = record { quiet = inr idle };
    }

-- Whatever start, stop and the two threads have done on a new server, if no write of the answer to a
-- refused line has failed: no move uses a client that has been erased.
pub never_dangling :
    (from_chars : ℕ → Text → Option (ℕ × ℕ)) (to_string : ℕ → Text) (inet_pton : Text → Option ℕ)
    (host : Text) (port : ℕ) (book : Book) (capacity : ℕ) (s t : System) (moves : List Move)
    (ms : List IngressMessage) (m : Move)
    → new_system book capacity ≡ some s
    → All IsFine moves
    → proceed from_chars to_string inet_pton host port s moves ≡ some (t, ms)
    → advance from_chars to_string inet_pton host port t m ≢ undefined
never_dangling from_chars to_string inet_pton host port book capacity s t moves ms m made fine ran =
    let r =
      proceed_keeps from_chars to_string inet_pton host port IsFine Referring
        (advance-Referring from_chars to_string inet_pton host port) moves s t ms fine ran
        (new_system-Referring book capacity s made) in
    advance-ne-undefined from_chars to_string inet_pton host port t m r.sound
