-- ===== src/Gateway/System/Received.antt =====
-- The bytes of a client of src/tcp_server.cpp and its lines, over the moves of the two threads.
use lloms.Base.{
  ◌∙◌, ◌≤◌, ◌^◌, ap, ℕ, ◌≡◌, ◌⊎◌, true, refl, sym, subst, inl, inr, Option, some, List, [], ◌∷◌,
  ◌++◌, arith, All, Bool-cases,
}
use lloms.Base.Dict
use lloms.Base.Text.{Text}
use lloms.Pool.{Book}
use lloms.Gateway.{take_input}
use lloms.Gateway.Framing.{take_input-frame, take_input-none}
use lloms.Gateway.Execute.{IngressMessage}
use lloms.Spsc.Valid.{contents}
use lloms.Gateway.Pipeline.{Pipeline}
use lloms.Gateway.Server.{no_message, ClientConnection, TcpServer, pop_commands, execute_next}
use lloms.Gateway.Replies.{Keyed}
use lloms.Gateway.Poll.{Task, PollCalls, Outcome, waits, undefined, goes, perform}
use lloms.Gateway.System.{
  System, Move, starts, launches, polls, performs, returns, tests, pops, executes, stops,
  new_system, start, stop, poll_loop, test_loop, finish, performed, perform_next, advance, proceed,
}
use lloms.Gateway.System.Moves.{served_keeps, proceed-Between, pops-served, executes-served}
use lloms.Gateway.System.Refines.{proceed-Pipeline, new_system-new_server}
use lloms.Gateway.System.Polled.{Sound-Keyed}
use lloms.Gateway.System.Dangling.{
  IsFine, Referring, pop_commands-clients, execute_next-clients, advance-Referring,
  new_system-Referring, new_server-clients,
}
use lloms.Gateway.System.Lines.{History, nothing_yet, told, Framed}
use lloms.Gateway.System.Recorded.{of_client, Makes}
use lloms.Gateway.System.Scanned.{at_parse}
use lloms.Gateway.System.Settled.{proceed-Scanned}
use lloms.Gateway.System.Followed.{told_in, follow, proceed-Recorded}
use lloms.Gateway.System.Heard.{perform-Framed}

polled-clients :
    (s : System) (calls : PollCalls) → (poll_loop calls s).server.clients ≡ s.server.clients
unfolding poll_loop
polled-clients s calls = elim (Bool-cases s.running) [ inl e ↦ rw e refl | inr e ↦ rw e refl ]

module _ (from_chars : ℕ → Text → Option (ℕ × ℕ)) (to_string : ℕ → Text) (fd : ℕ) where
  performed-Framed :
      (task : Task) (tasks : List Task) (h : History) (s t : System)
      (o : Outcome (TcpServer × List Task))
      → perform from_chars to_string task s.server ≡ o
      → performed s tasks o ≡ goes t
      → Keyed s.server.clients
      → Framed fd h s.server.clients
      → Framed fd (told from_chars to_string fd task s.server h) t.server.clients
  performed-Framed task tasks h s t waits e went k f = cc went
  performed-Framed task tasks h s t undefined e went k f = cc went
  performed-Framed task tasks h s t (goes (server, more)) e went k f =
      let same : t ≡ record s { server = server; todo = more ++ tasks } = cc went in
      rw same (perform-Framed from_chars to_string fd task h s.server server more e k f)

  performs-Framed :
      (h : History) (s t : System) (todo : List Task)
      → s.todo ≡ todo
      → perform_next from_chars to_string todo s ≡ goes t
      → Keyed s.server.clients
      → Framed fd h s.server.clients
      → Framed fd (told_in from_chars to_string fd s performs h) t.server.clients
  unfolding perform_next told_in
  performs-Framed h s t [] e went k f = cc went
  performs-Framed h s t (task ∷ tasks) e went k f =
      rw (e, told_in) (performed-Framed task tasks h s t _ refl went k f)

module _ (from_chars : ℕ → Text → Option (ℕ × ℕ)) (to_string : ℕ → Text)
    (inet_pton : Text → Option ℕ) (host : Text) (port fd : ℕ) where
  advance-Framed :
      (h : History) (s t : System) (m : Move)
      → advance from_chars to_string inet_pton host port s m ≡ goes t
      → Keyed s.server.clients
      → Framed fd h s.server.clients
      → Framed fd (told_in from_chars to_string fd s m h) t.server.clients
  unfolding advance start stop test_loop finish told_in
  advance-Framed h s t (starts calls) went k f = subst (Framed fd h) (ground arith) f
  advance-Framed h s t launches went k f = subst (Framed fd h) (ground arith) f
  advance-Framed h s t (polls calls) went k f =
      let same : t ≡ poll_loop calls s = ground arith in
      rw same (subst (Framed fd h) (sym (polled-clients s calls)) f)
  advance-Framed h s t performs went k f =
      performs-Framed from_chars to_string fd h s t s.todo refl went k f
  advance-Framed h s t (returns writes) went k f =
      let gone : t.server.clients ≡ [] = ground arith in rw gone (λ client found. cc found)
  advance-Framed h s t tests went k f = subst (Framed fd h) (ground arith) f
  advance-Framed h s t pops went k f =
      served_keeps (λ clients todo. Framed fd h clients) s t (pop_commands s.server)
        (pops-served from_chars to_string inet_pton host port s t went).1
        (pop_commands-clients s.server) f
  advance-Framed h s t executes went k f =
      served_keeps (λ clients todo. Framed fd h clients) s t
        (execute_next from_chars to_string s.server)
        (executes-served from_chars to_string inet_pton host port s t went).1
        (execute_next-clients from_chars to_string s.server) f
  advance-Framed h s t stops went k f = subst (Framed fd h) (ground arith) f

  proceed-Framed :
      (moves : List Move) (h : History) (s t : System) (ms : List IngressMessage)
      → All IsFine moves
      → proceed from_chars to_string inet_pton host port s moves ≡ some (t, ms)
      → Referring s
      → Framed fd h s.server.clients
      → Framed fd (follow from_chars to_string inet_pton host port fd s moves h) t.server.clients
  unfolding proceed follow
  proceed-Framed [] h s t ms fine ran r f = let same : t ≡ s = cc ran in rw same f
  proceed-Framed (m ∷ moves) h s t ms fine ran r f =
      let b = proceed-Between from_chars to_string inet_pton host port s t m moves ms ran in
      rw (b.moved, follow)
        (proceed-Framed moves (told_in from_chars to_string fd s m h) b.at t b.later fine.1
          b.went_on
          (advance-Referring from_chars to_string inet_pton host port s b.at m b.moved fine.0 r)
          (advance-Framed h s b.at m b.moved (Sound-Keyed s.server.clients s.todo r.sound) f))

-- On a new server with a queue capacity of at most 2 ^ 63, whatever start, stop and the two threads have
-- done, if no write of the answer to a refused line has failed, and however the reads have cut what a
-- connected client has sent. The lines that were taken from its read buffer, with those that wait there
-- behind them, are the lines of all bytes that were read from it, and the buffer ends with the part of a
-- line that those end with. The messages with its descriptor that were executed, that are left of the
-- batch and that the ingress queue holds are, behind those of earlier connections with the descriptor, the
-- commands of the lines that were taken, in their order. Unless the polling thread is next in the loop
-- over the lines of that client, no line waits.
pub proceed-take_input :
    (from_chars : ℕ → Text → Option (ℕ × ℕ)) (to_string : ℕ → Text) (inet_pton : Text → Option ℕ)
    (host : Text) (port fd : ℕ) (book : Book) (capacity : ℕ) (s t : System) (moves : List Move)
    (ms : List IngressMessage) (client : ClientConnection)
    → capacity ≤ 2 ^ 63
    → new_system book capacity ≡ some s
    → All IsFine moves
    → proceed from_chars to_string inet_pton host port s moves ≡ some (t, ms)
    → Dict.lookup fd t.server.clients ≡ some client
    → let h = follow from_chars to_string inet_pton host port fd s moves nothing_yet in
      let waiting = take_input [] client.read_buffer in
      (p : Pipeline from_chars to_string book ms t.server) × (take_input [] h.received
        ≡ (h.lines ++ waiting.0, waiting.1))
      × (of_client fd (p.executed ++ t.server.batch ++ contents no_message t.server.ingress_queue)
          ≡ h.earlier ++ h.queued)
      × Makes from_chars to_string fd h.lines h.queued
      × ((at_parse fd t.todo ≡ true) ⊎ (waiting ≡ ([], client.read_buffer)))
unfolding of_client
proceed-take_input from_chars to_string inet_pton host port fd book capacity s t moves ms client
      small made fine ran found =
    let (made_server, idle) = new_system-new_server book capacity s made in
    let alone = new_server-clients book capacity s.server made_server in
    let r = new_system-Referring book capacity s made in
    let framed =
      proceed-Framed from_chars to_string inet_pton host port fd moves nothing_yet s t ms fine ran r
        (rw alone (λ c e. cc e)) client found in
    let recorded =
      proceed-Recorded from_chars to_string inet_pton host port fd moves nothing_yet s t [] ms fine
        ran r (record { made = refl; all = refl }) in
    let scanned =
      proceed-Scanned from_chars to_string inet_pton host port fd moves s t ms fine ran r alone in
    let h = follow from_chars to_string inet_pton host port fd s moves nothing_yet in
    let p =
      proceed-Pipeline from_chars to_string inet_pton host port book capacity s t moves ms small
        made ran in
    (
      p,
      rw (take_input-frame [] h.received tt, take_input-frame [] client.read_buffer tt) framed,
      ap (of_client fd) (sym p.in_order) ∙ sym recorded.all,
      recorded.made,
      elim (Bool-cases (at_parse fd t.todo)) [
        | inl parsing ↦ inl parsing
        | inr out ↦ inr (take_input-none client.read_buffer (scanned out client found))
      ],
    )
