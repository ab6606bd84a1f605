-- ===== src/Gateway/System/Polled.antt =====
-- What poll_events of src/tcp_server.cpp sets out to do is no half of a read.
use lloms.Gateway.Replies.{Keyed}
use lloms.Base.{ℕ, zero, suc, Option, none, some, List, [], ◌∷◌, arith, All, All-append, take}
use lloms.Gateway.Server.{Clients}
use lloms.Gateway.Poll.{
  Task, Ready, PollCalls, handle_event, handle_events, poll_events, max_epoll_events,
}
use lloms.Gateway.System.Lifetimes.{Fine, Whole, Sound}

handle_event-Whole :
    (server_fd : Option ℕ) (r : Ready) → Fine r.line_calls → All Whole (handle_event server_fd r)
unfolding handle_event
handle_event-Whole none r fine = ground (arith, fine)
handle_event-Whole (some fd) r fine = ground (arith, fine)

handle_events-Whole :
    (server_fd : Option ℕ) (rs : List Ready)
    → All (λ r. Fine r.line_calls) rs
    → All Whole (handle_events server_fd rs)
unfolding handle_events
handle_events-Whole server_fd [] fine = tt
handle_events-Whole server_fd (r ∷ rs) fine =
    All-append Whole (handle_event server_fd r) (handle_events server_fd rs)
      (handle_event-Whole server_fd r fine.0) (handle_events-Whole server_fd rs fine.1)

take-All : (n : ℕ) (P : Ready → Type 0) (rs : List Ready) → All P rs → All P (take n rs)
take-All zero P rs h = tt
take-All (suc n) P [] h = tt
take-All (suc n) P (r ∷ rs) h = (h.0, take-All n P rs h.1)

pub poll_events-Whole :
    (epoll_fd server_fd : Option ℕ) (calls : PollCalls)
    → All (λ r. Fine r.line_calls) calls.ready
    → All Whole (poll_events epoll_fd server_fd calls)
unfolding poll_events
poll_events-Whole none server_fd calls fine = tt
poll_events-Whole (some fd) server_fd calls fine =
    let rs = take max_epoll_events calls.ready in
    (
      tt,
      All-append Whole (handle_events server_fd rs) (Task.drain calls.after ∷ [])
          (handle_events-Whole server_fd rs (take-All max_epoll_events _ calls.ready fine))
          (tt, tt),
    )

pub Sound-Keyed : (clients : Clients) (tasks : List Task) → Sound clients tasks → Keyed clients
Sound-Keyed clients [] h = h
Sound-Keyed clients (Task.drain writes ∷ tasks) h = h.0
Sound-Keyed clients (Task.accept fds ∷ tasks) h = h.0
Sound-Keyed clients (Task.hang_up fd ∷ tasks) h = h.0
Sound-Keyed clients (Task.read fd bytes_read ending calls ∷ tasks) h = h.0
Sound-Keyed clients (Task.parse fd i calls ∷ tasks) h = h.0.keyed
Sound-Keyed clients (Task.write fd w ∷ tasks) h = h.0
