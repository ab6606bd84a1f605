-- ===== src/Gateway/System/Followed.antt =====
-- The history of a client of src/tcp_server.cpp over the moves of the two threads.
use lloms.Base.{append_assoc, ℕ, ◌≡◌, refl, subst, Option, some, List, [], ◌∷◌, ◌++◌, All}
use lloms.Base.Text.{Text}
use lloms.Gateway.Execute.{IngressMessage}
use lloms.Gateway.Replies.{Keyed}
use lloms.Gateway.Poll.{Task, waits, undefined, goes}
use lloms.Gateway.System.{
  queued_in, System, Move, starts, launches, polls, performs, returns, tests, pops, executes, stops,
  advance, proceed,
}
use lloms.Gateway.System.Moves.{proceed-Between}
use lloms.Gateway.System.Polled.{Sound-Keyed}
use lloms.Gateway.System.Dangling.{IsFine, Referring, advance-Referring}
use lloms.Gateway.System.Lines.{History, told}
use lloms.Gateway.System.Recorded.{Recorded, quiet-Recorded, told-Recorded}

module _ (from_chars : ℕ → Text → Option (ℕ × ℕ)) (to_string : ℕ → Text) (fd : ℕ) where
  -- A move, in the history of the descriptor `fd`: only the polling thread reads.
  unfoldable pub told_in : System → Move → History → History
  unfolding told
  told_in s performs h = elim s.todo [
    | [] ↦ h
    | task ∷ tasks ↦ told from_chars to_string fd task s.server h
  ]
  told_in s (starts calls) h = h
  told_in s launches h = h
  told_in s (polls calls) h = h
  told_in s (returns writes) h = h
  told_in s tests h = h
  told_in s pops h = h
  told_in s executes h = h
  told_in s stops h = h

  performs-Recorded :
      (s : System) (todo : List Task) (h : History) (past : List IngressMessage)
      → s.todo ≡ todo
      → Keyed s.server.clients
      → Recorded from_chars to_string fd h past
      → Recorded from_chars to_string fd
          (told_in s performs h)
          (past ++ queued_in from_chars to_string s performs)
  unfolding told_in queued_in
  performs-Recorded s [] h past e k r =
      rw (e, told_in, queued_in) (quiet-Recorded from_chars to_string fd h past r)
  performs-Recorded s (task ∷ tasks) h past e k r =
      rw (e, told_in, queued_in) (told-Recorded from_chars to_string fd task s.server h past k r)

  -- The messages that a move queues are recorded.
  pub told_in-Recorded :
      (s : System) (m : Move) (h : History) (past : List IngressMessage)
      → Keyed s.server.clients
      → Recorded from_chars to_string fd h past
      → Recorded from_chars to_string fd
          (told_in s m h)
          (past ++ queued_in from_chars to_string s m)
  unfolding told_in queued_in
  told_in-Recorded s performs h past k r = performs-Recorded s s.todo h past refl k r
  told_in-Recorded s (starts calls) h past k r = quiet-Recorded from_chars to_string fd h past r
  told_in-Recorded s launches h past k r = quiet-Recorded from_chars to_string fd h past r
  told_in-Recorded s (polls calls) h past k r = quiet-Recorded from_chars to_string fd h past r
  told_in-Recorded s (returns writes) h past k r = quiet-Recorded from_chars to_string fd h past r
  told_in-Recorded s tests h past k r = quiet-Recorded from_chars to_string fd h past r
  told_in-Recorded s pops h past k r = quiet-Recorded from_chars to_string fd h past r
  told_in-Recorded s executes h past k r = quiet-Recorded from_chars to_string fd h past r
  told_in-Recorded s stops h past k r = quiet-Recorded from_chars to_string fd h past r

module _ (from_chars : ℕ → Text → Option (ℕ × ℕ)) (to_string : ℕ → Text)
    (inet_pton : Text → Option ℕ) (host : Text) (port fd : ℕ) where
  -- The history after the moves.
  unfoldable pub follow : System → List Move → History → History
  unfolding advance told_in
  follow s [] h = h
  follow s (m ∷ moves) h = elim (advance from_chars to_string inet_pton host port s m) [
    | waits ↦ h
    | undefined ↦ h
    | goes s' ↦ follow s' moves (told_in from_chars to_string fd s m h)
  ]

  pub proceed-Recorded :
      (moves : List Move) (h : History) (s t : System) (past ms : List IngressMessage)
      → All IsFine moves
      → proceed from_chars to_string inet_pton host port s moves ≡ some (t, ms)
      → Referring s
      → Recorded from_chars to_string fd h past
      → Recorded from_chars to_string fd (follow s moves h) (past ++ ms)
  unfolding proceed follow
  proceed-Recorded [] h s t past ms fine ran r f =
      let none_new : ms ≡ [] = cc ran in
      rw none_new (quiet-Recorded from_chars to_string fd h past f)
  proceed-Recorded (m ∷ moves) h s t past ms fine ran r f =
      let b = proceed-Between from_chars to_string inet_pton host port s t m moves ms ran in
      let new_messages = queued_in from_chars to_string s m in
      let later =
        proceed-Recorded moves (told_in from_chars to_string fd s m h) b.at t (past ++ new_messages)
          b.later fine.1 b.went_on
          (advance-Referring from_chars to_string inet_pton host port s b.at m b.moved fine.0 r)
          (told_in-Recorded from_chars to_string fd s m h past
            (Sound-Keyed s.server.clients s.todo r.sound) f) in
      rw (b.moved, follow, b.all)
        (subst
          (Recorded from_chars to_string fd
            (follow b.at moves (told_in from_chars to_string fd s m h)))
          (append_assoc past new_messages b.later) later)
