-- ===== src/Gateway/System/Steps.antt =====
-- The pieces of poll_events in src/tcp_server.cpp are steps of the polling thread.
use lloms.Base.{
  ℕ, ◌≡◌, refl, ap, ◌∙◌, sym, inl, inr, Option, none, some, List, [], ◌∷◌, ◌++◌, arith,
  append_assoc, append-nil, Option-cases,
}
use lloms.Base.Dict
use lloms.Base.Text.{Text}
use lloms.Gateway.{find_newline, strip_cr, ReadEnd, would_block, disconnected}
use lloms.Gateway.Execute.{IngressMessage}
use lloms.Gateway.Server.{
  ClientConnection, TcpServer, drain_response_queue, process_client_line, set_read_buffer,
  accept_client,
}
use lloms.Gateway.Pipeline.{
  Event, client_accepted, client_closed, input_kept, line_read, socket_ready, responses_drained,
  step, messages_of, run, line_messages,
}
use lloms.Gateway.Poll.{
  Task, drain, accept, hang_up, read, parse, write, LineCalls, Outcome, waits, undefined, goes,
  perform, queued_by, read_all, parse_next, parse_line_of, handle_new_connection,
}
use lloms.Gateway.System.{System, Matching, performs, served, performed, perform_next, queued_in}

module _ (from_chars : ℕ → Text → Option (ℕ × ℕ)) (to_string : ℕ → Text) where
  -- Some steps lead from one state of the server to the other, and make these messages.
  abbrev pub Steps : TcpServer → TcpServer → List IngressMessage → Type 0
  Steps s t ms = (events : List Event) × (run from_chars to_string s events ≡ some (t, ms))

  pub no-Steps : (s : TcpServer) → Steps s s []
  unfolding run
  no-Steps s = ([], refl)

  pub one-Steps :
      (s t : TcpServer) (e : Event)
      → step from_chars to_string s e ≡ some t
      → Steps s t (messages_of from_chars to_string s e)
  unfolding run
  one-Steps s t e went = (e ∷ [], rw (went, run, append-nil) refl)

  run-append :
      (es fs : List Event) (s t u : TcpServer) (ms ns : List IngressMessage)
      → run from_chars to_string s es ≡ some (t, ms)
      → run from_chars to_string t fs ≡ some (u, ns)
      → run from_chars to_string s (es ++ fs) ≡ some (u, ms ++ ns)
  unfolding run
  run-append [] fs s t u ms ns p q = ground (arith, p, q)
  run-append (e ∷ es) fs s t u ms ns p q = elim (Option-cases (step from_chars to_string s e)) [
    | inl stuck ↦ cc (rw (stuck, run) at p)
    | inr (s', went) ↦ elim (Option-cases (run from_chars to_string s' es)) [
      | inl stuck ↦ cc (rw (went, run, stuck) at p)
      | inr ((t', ms'), ran) ↦
          let made = messages_of from_chars to_string s e in
          let same : ◌≡◌ {A = Option (TcpServer × List IngressMessage)} (some (t', made ++ ms'))
              (some (t, ms)) =
            rw (went, run, ran) at p in
          let there : t' ≡ t = cc same in
          let all : made ++ ms' ≡ ms = cc same in
          let later = run-append es fs s' t u ms' ns (ran ∙ cc there) q in
          rw (went, run, later)
            (ap (λ xs. some (u, xs)) (sym (append_assoc made ms' ns) ∙ ap (λ xs. xs ++ ns) all))
    ]
  ]

  pub then-Steps :
      (s t u : TcpServer) (ms ns : List IngressMessage)
      → Steps s t ms
      → Steps t u ns
      → Steps s u (ms ++ ns)
  then-Steps s t u ms ns p q = (p.0 ++ q.0, run-append p.0 q.0 s t u ms ns p.1 q.1)

  accept-Steps : (fds : List ℕ) (s : TcpServer) → Steps s (handle_new_connection fds s) []
  unfolding handle_new_connection step messages_of
  accept-Steps [] s = no-Steps s
  accept-Steps (fd ∷ fds) s =
      let s' = accept_client fd s in
      then-Steps s s' (handle_new_connection fds s') [] []
        (one-Steps s s' (client_accepted fd) refl) (accept-Steps fds s')

  read-Steps :
      (fd : ℕ) (bytes_read : Text) (ending : ReadEnd) (calls : ℕ → LineCalls) (s : TcpServer)
      → Steps s (read_all fd bytes_read ending calls s).0 []
  unfolding read_all step messages_of
  read-Steps fd bytes_read disconnected calls s = one-Steps s _ (client_closed fd) refl
  read-Steps fd bytes_read would_block calls s = elim (Option-cases (Dict.lookup fd s.clients)) [
    | inl e ↦ rw (e, read_all) (no-Steps s)
    | inr (client, e) ↦
        rw (e, read_all) (one-Steps s _ (input_kept fd (client.read_buffer ++ bytes_read)) refl)
  ]

  parse_line_of-Steps :
      (client : ClientConnection) (line rest : Text) (fd i : ℕ) (calls : ℕ → LineCalls)
      (s t : TcpServer) (more : List Task)
      → Dict.lookup fd s.clients ≡ some client
      → parse_line_of from_chars to_string client line rest fd i calls s ≡ goes (t, more)
      → Steps s t (
          line_messages from_chars to_string
            (calls i).now
            (calls i).now_ns
            s.next_sequence
            client
            line)
  unfolding parse_line_of step messages_of
  parse_line_of-Steps client line rest fd i calls s t more known went =
      let c = calls i in
      elim (Option-cases
        (process_client_line from_chars to_string c.now c.now_ns c.writes client line s)) [
          | inl full ↦ cc (rw (full, parse_line_of) at went)
          | inr (s', done) ↦ elim (Option-cases (Dict.lookup fd s'.clients)) [
            | inl gone ↦ cc (rw (done, gone, parse_line_of) at went)
            | inr (client', there) ↦
                let same : t ≡ set_read_buffer fd rest s' =
                  cc (rw (done, there, parse_line_of) at went) in
                let e = line_read c.now c.now_ns c.writes fd line in
                let first : Steps s s' (messages_of from_chars to_string s e) =
                  one-Steps s s' e (rw (known, step) done) in
                rw (same) (
                  rw append-nil at (
                    then-Steps s s' (set_read_buffer fd rest s') _ []
                      (rw (known, messages_of) at first)
                      (one-Steps s' (set_read_buffer fd rest s') (input_kept fd rest) refl)))
          ]
        ]

  parse-Steps :
      (fd i : ℕ) (calls : ℕ → LineCalls) (s t : TcpServer) (more : List Task)
      → parse_next from_chars to_string fd i calls s ≡ goes (t, more)
      → Steps s t (queued_by from_chars to_string (parse fd i calls) s)
  unfolding parse_next queued_by
  parse-Steps fd i calls s t more went = elim (Option-cases (Dict.lookup fd s.clients)) [
    | inl gone ↦ cc (rw (gone, parse_next) at went)
    | inr (client, known) ↦ elim (Option-cases (find_newline client.read_buffer)) [
      | inl none_left ↦
          let same : t ≡ s = cc (rw (known, none_left, parse_next) at went) in
          rw (known, none_left, queued_by, same) (no-Steps s)
      | inr ((line, rest), found) ↦
          rw (known, found, queued_by)
            (parse_line_of-Steps client (strip_cr line) rest fd i calls s t more known
              (rw (known, found, parse_next) at went))
    ]
  ]

  pub perform-Steps :
      (task : Task) (s t : TcpServer) (more : List Task)
      → perform from_chars to_string task s ≡ goes (t, more)
      → Steps s t (queued_by from_chars to_string task s)
  unfolding perform queued_by step messages_of
  perform-Steps (drain writes) s t more went =
      let same : t ≡ (drain_response_queue writes s).0 = cc went in
      rw same (one-Steps s _ (responses_drained writes) refl)
  perform-Steps (accept fds) s t more went =
      let same : t ≡ handle_new_connection fds s = cc went in rw same (accept-Steps fds s)
  perform-Steps (hang_up fd) s t more went = one-Steps s t (client_closed fd) (cc went)
  perform-Steps (read fd bytes_read ending calls) s t more went =
      let same : t ≡ (read_all fd bytes_read ending calls s).0 = cc went in
      rw same (read-Steps fd bytes_read ending calls s)
  perform-Steps (parse fd i calls) s t more went = parse-Steps fd i calls s t more went
  perform-Steps (write fd w) s t more went = one-Steps s t (socket_ready w fd) (cc went)

  pub served-Steps :
      (s t : System) (server : Option TcpServer) (at : Matching) (e : Event)
      → served s server at ≡ goes t
      → step from_chars to_string s.server e ≡ server
      → Steps s.server t.server (messages_of from_chars to_string s.server e)
  served-Steps s t none at e went made = cc went
  served-Steps s t (some server) at e went made =
      let same : t ≡ record s { server = server; matching = at } = cc went in
      rw same (one-Steps s.server server e made)

  performed-Steps :
      (s t : System) (tasks : List Task) (o : Outcome (TcpServer × List Task))
      (ms : List IngressMessage)
      → performed s tasks o ≡ goes t
      → ((server : TcpServer) (more : List Task)
          → o ≡ goes (server, more)
          → Steps s.server server ms)
      → Steps s.server t.server ms
  performed-Steps s t tasks waits ms went steps = cc went
  performed-Steps s t tasks undefined ms went steps = cc went
  performed-Steps s t tasks (goes (server, more)) ms went steps =
      let same : t ≡ record s { server = server; todo = more ++ tasks } = cc went in
      rw same (steps server more refl)

  pub perform_next-Steps :
      (s t : System) (tasks : List Task)
      → s.todo ≡ tasks
      → perform_next from_chars to_string s.todo s ≡ goes t
      → Steps s.server t.server (queued_in from_chars to_string s performs)
  unfolding perform_next queued_in
  perform_next-Steps s t [] e went = cc (rw (e, perform_next) at went)
  perform_next-Steps s t (task ∷ tasks) e went =
      rw (e, queued_in)
        (performed-Steps s t tasks (perform from_chars to_string task s.server) _
          (rw (e, perform_next) at went) (perform-Steps task s.server))
