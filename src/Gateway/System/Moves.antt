-- ===== src/Gateway/System/Moves.antt =====
-- Runs of the two threads of src/tcp_server.cpp, taken apart into moves.

use lloms.Base.{
  ℕ, ◌≡◌, refl, sym, subst, ◌∙◌, inl, inr, Option, none, some, All, List, [], ◌∷◌, ◌++◌, arith,
  Option-cases,
}
use lloms.Base.Text.{Text}
use lloms.Gateway.Execute.{IngressMessage}
use lloms.Gateway.Poll.{Task, Outcome, waits, undefined, goes}
use lloms.Gateway.Server.{Clients, TcpServer, pop_commands, execute_next}
use lloms.Gateway.System.{
  System, Matching, testing, popping, ended, Move, pops, executes, served, advance, queued_in,
  proceed,
}

-- What holds of the clients and of what is left to do, moved along equations.
pub moved_keeps :
    (P : Clients → List Task → Type 0) (s t : System)
    → t.server.clients ≡ s.server.clients
    → t.todo ≡ s.todo
    → P s.server.clients s.todo
    → P t.server.clients t.todo
moved_keeps P s t e f h =
    subst (λ clients. P clients t.todo) (sym e) (subst (P s.server.clients) (sym f) h)

-- The matching thread does not change it if it keeps the clients.
pub served_keeps :
    (P : Clients → List Task → Type 0) (s t : System) (server : Option TcpServer)
    → served s server testing ≡ goes t
    → ((u : TcpServer) → server ≡ some u → u.clients ≡ s.server.clients)
    → P s.server.clients s.todo
    → P t.server.clients t.todo
served_keeps P s t none went same h = cc went
served_keeps P s t (some u) went same h =
    let e : t.server.clients ≡ u.clients = ground (arith, went) in
    moved_keeps P s t (e ∙ same u refl) (ground (arith, went)) h

module _ (from_chars : ℕ → Text → Option (ℕ × ℕ)) (to_string : ℕ → Text)
    (inet_pton : Text → Option ℕ) (host : Text) (port : ℕ) where
  -- The state between the first move and the others.
  pub record Between (s t : System) (m : Move) (moves : List Move) (ms : List IngressMessage)
      : Type 0 where
    pub at : System
    pub later : List IngressMessage
    pub moved : advance from_chars to_string inet_pton host port s m ≡ goes at
    pub went_on : proceed from_chars to_string inet_pton host port at moves ≡ some (t, later)
    pub all : ms ≡ queued_in from_chars to_string s m ++ later

  between_lem :
      (s t : System) (m : Move) (moves : List Move) (ms : List IngressMessage) (o : Outcome System)
      → advance from_chars to_string inet_pton host port s m ≡ o
      → proceed from_chars to_string inet_pton host port s (m ∷ moves) ≡ some (t, ms)
      → Between s t m moves ms
  unfolding proceed
  between_lem s t m moves ms waits e ran = cc (rw (e, proceed) at ran)
  between_lem s t m moves ms undefined e ran = cc (rw (e, proceed) at ran)
  between_lem s t m moves ms (goes u) e ran =
      elim (Option-cases (proceed from_chars to_string inet_pton host port u moves)) [
        | inl stuck ↦ cc (rw (e, proceed, stuck) at ran)
        | inr ((t', later), went) ↦
            let same : ◌≡◌ {A = Option (System × List IngressMessage)}
                (some (t', queued_in from_chars to_string s m ++ later)) (some (t, ms)) =
              rw (e, proceed, went) at ran in
            record { at = u; later = later; moved = e; went_on = cc (went, same); all = cc same }
      ]

  pub proceed-Between :
      (s t : System) (m : Move) (moves : List Move) (ms : List IngressMessage)
      → proceed from_chars to_string inet_pton host port s (m ∷ moves) ≡ some (t, ms)
      → Between s t m moves ms
  proceed-Between s t m moves ms ran = between_lem s t m moves ms _ refl ran

  -- What every move of a kind keeps holds after such moves.
  pub proceed_keeps :
      (Q : Move → Type 0) (P : System → Type 0)
      → ((s t : System) (m : Move)
          → advance from_chars to_string inet_pton host port s m ≡ goes t
          → Q m
          → P s
          → P t)
      → (moves : List Move) (s t : System) (ms : List IngressMessage) → All Q moves
      → proceed from_chars to_string inet_pton host port s moves ≡ some (t, ms)
      → P s
      → P t
  unfolding proceed
  proceed_keeps Q P keep [] s t ms q ran p = let same : t ≡ s = cc ran in rw same p
  proceed_keeps Q P keep (m ∷ moves) s t ms q ran p =
      let b = proceed-Between s t m moves ms ran in
      proceed_keeps Q P keep moves b.at t b.later q.1 b.went_on (keep s b.at m b.moved q.0 p)

  any_moves : (moves : List Move) → All (λ m. Unit {0}) moves
  any_moves [] = tt
  any_moves (m ∷ moves) = (tt, any_moves moves)

  -- What every move keeps holds at the end.
  pub proceed_always :
      (P : System → Type 0)
      → ((s t : System) (m : Move)
          → advance from_chars to_string inet_pton host port s m ≡ goes t
          → P s
          → P t)
      → (moves : List Move) (s t : System) (ms : List IngressMessage)
      → proceed from_chars to_string inet_pton host port s moves ≡ some (t, ms)
      → P s
      → P t
  proceed_always P keep moves s t ms =
      proceed_keeps (λ m. Unit {0}) P (λ s t m went any. keep s t m went) moves s t ms
        (any_moves moves)

  pops_at :
      (s t : System) (at : Matching)
      → s.matching ≡ at
      → advance from_chars to_string inet_pton host port s pops ≡ goes t
      → (at ≡ popping) × (served s (pop_commands s.server) testing ≡ goes t)
  unfolding advance
  pops_at s t testing e went = cc (rw (e, advance) at went)
  pops_at s t ended e went = cc (rw (e, advance) at went)
  pops_at s t popping e went = (refl, rw (e, advance) at went)

  -- Where the matching thread is when it pops a batch, and what it does.
  pub pops-served :
      (s t : System)
      → advance from_chars to_string inet_pton host port s pops ≡ goes t
      → (s.matching ≡ popping) × (served s (pop_commands s.server) testing ≡ goes t)
  pops-served s t went = pops_at s t s.matching refl went

  executes_at :
      (s t : System) (at : Matching)
      → s.matching ≡ at
      → advance from_chars to_string inet_pton host port s executes ≡ goes t
      → (at ≡ testing) × (served s (execute_next from_chars to_string s.server) testing ≡ goes t)
  unfolding advance
  executes_at s t popping e went = cc (rw (e, advance) at went)
  executes_at s t ended e went = cc (rw (e, advance) at went)
  executes_at s t testing e went = (refl, rw (e, advance) at went)

  pub executes-served :
      (s t : System)
      → advance from_chars to_string inet_pton host port s executes ≡ goes t
      → (s.matching ≡ testing)
        × (served s (execute_next from_chars to_string s.server) testing ≡ goes t)
  executes-served s t went = executes_at s t s.matching refl went
