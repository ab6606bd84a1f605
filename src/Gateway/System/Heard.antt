-- ===== src/Gateway/System/Heard.antt =====
-- Every piece of poll_events of src/tcp_server.cpp in the history of a client: its bytes, and its lines that
-- were processed.
use lloms.Base.{
  Bool-cases, ℕ, ◌+◌, ◌≡◌, refl, sym, subst, inl, inr, true, Option, some, List, [], ◌∷◌, ◌++◌,
  arith, ◌==◌, if◌then◌else◌, Option-cases,
}
use lloms.Base.Dict
use lloms.Base.Text.{Text}
use lloms.Gateway.{find_newline, strip_cr, would_block, disconnected}
use lloms.Gateway.Execute.{IngressMessage}
use lloms.Gateway.Pipeline.{line_messages}
use lloms.Gateway.Server.{
  ClientConnection, TcpServer, drain_response_queue, set_read_buffer, process_client_line,
  handle_client_write,
}
use lloms.Gateway.Replies.{Keyed}
use lloms.Gateway.Poll.{
  Task, drain, accept, hang_up, read, parse, write, LineCalls, Outcome, goes, handle_new_connection,
  read_all, parse_line_of, parse_next, perform,
}
use lloms.Gateway.System.Buffers.{erase-Keeps, deliver-Keeps, handle_client_write-Keeps, line-Keeps}
use lloms.Gateway.System.Lines.{
  History, reopened, contains, told, Framed, Keeps-Framed, parse-Framed, set_read_buffer-Framed,
  handle_new_connection-Framed, read_all-Framed,
}

-- A new connection with the descriptor has no bytes and no lines.
accepted-Framed :
    (fd : ℕ) (fds : List ℕ) (h : History) (s : TcpServer)
    → Framed fd h s.clients
    → Framed fd (if contains fd fds then reopened h else h) (handle_new_connection fds s).clients
accepted-Framed fd fds h s f =
    let fresh = handle_new_connection-Framed fd fds h s f in
    elim (Bool-cases (contains fd fds)) [
      | inl e ↦ rw e (rw e at fresh)
      | inr e ↦ rw e (rw e at fresh)
    ]

module _ (from_chars : ℕ → Text → Option (ℕ × ℕ)) (to_string : ℕ → Text) where
  parse_line_of-Framed :
      (fd key i : ℕ) (calls : ℕ → LineCalls) (client : ClientConnection) (line rest : Text)
      (h : History) (ms : List IngressMessage) (s t : TcpServer) (more : List Task)
      → parse_line_of from_chars to_string client (strip_cr line) rest key i calls s
        ≡ goes (t, more)
      → Dict.lookup key s.clients ≡ some client
      → find_newline client.read_buffer ≡ some (line, rest)
      → Keyed s.clients
      → Framed fd h s.clients
      → Framed fd
          (if key == fd
            then record h { lines = h.lines ++ strip_cr line ∷ []; queued = h.queued ++ ms }
            else h)
          t.clients
  unfolding parse_line_of
  parse_line_of-Framed fd key i calls client line rest h ms s t more went there found k f =
      let c = calls i in
      elim (Option-cases (
        process_client_line from_chars to_string c.now c.now_ns c.writes client (strip_cr line)
          s)) [
            | inl e ↦ cc (rw (e, parse_line_of) at went)
            | inr (s', e) ↦ elim (Option-cases (Dict.lookup key s'.clients)) [
              | inl gone ↦ cc (rw (e, gone, parse_line_of) at went)
              | inr (client', still) ↦
                  let same : ◌≡◌ {A = Outcome (TcpServer × List Task)}
                      (goes (set_read_buffer key rest s', parse key (i + 1) calls ∷ []))
                      (goes (t, more)) =
                    rw (e, still, parse_line_of) at went in
                  let reached : t ≡ set_read_buffer key rest s' = cc same in
                  let own : Dict.lookup client.fd s.clients ≡ some client =
                    subst (λ j. Dict.lookup j s.clients ≡ some client) (sym (k key client there))
                      there in
                  let h' : History =
                    if key == fd
                    then record h { lines = h.lines ++ strip_cr line ∷ []; queued = h.queued ++ ms }
                    else h in
                  rw reached (
                    set_read_buffer-Framed fd key h h' rest s'
                      (Keeps-Framed fd h s.clients s'.clients
                        (line-Keeps from_chars to_string fd c.now c.now_ns c.writes client
                          (strip_cr line) s s' e own)
                        f)
                      (λ o. rw o refl)
                      (λ here.
                        let o : (key == fd) ≡ true = ground (arith, here) in
                        rw o (
                          parse-Framed h client.read_buffer line rest found (
                            f client
                              (subst (λ j. Dict.lookup j s.clients ≡ some client) here there)))))
            ]
          ]

  parse_next-Framed :
      (fd key i : ℕ) (calls : ℕ → LineCalls) (h : History) (s t : TcpServer) (more : List Task)
      → parse_next from_chars to_string key i calls s ≡ goes (t, more)
      → Keyed s.clients
      → Framed fd h s.clients
      → Framed fd (told from_chars to_string fd (parse key i calls) s h) t.clients
  unfolding parse_next told
  parse_next-Framed fd key i calls h s t more went k f =
      elim (Option-cases (Dict.lookup key s.clients)) [
        | inl e ↦ cc (rw (e, parse_next) at went)
        | inr (client, e) ↦ elim (Option-cases (find_newline client.read_buffer)) [
          | inl no_line ↦
              let same : ◌≡◌ {A = Outcome (TcpServer × List Task)} (goes (s, [])) (goes (t, more)) =
                rw (e, no_line, parse_next) at went in
              let reached : t ≡ s = cc same in rw (e, no_line, told, reached) f
          | inr ((line, rest), found) ↦
              rw (e, found, told)
                (parse_line_of-Framed fd key i calls client line rest h
                  (line_messages from_chars to_string (calls i).now (calls i).now_ns s.next_sequence
                    client (strip_cr line))
                  s t more (rw (e, found, parse_next) at went) e found k f)
        ]
      ]

  pub perform-Framed :
      (fd : ℕ) (task : Task) (h : History) (s t : TcpServer) (more : List Task)
      → perform from_chars to_string task s ≡ goes (t, more)
      → Keyed s.clients
      → Framed fd h s.clients
      → Framed fd (told from_chars to_string fd task s h) t.clients
  unfolding perform told drain_response_queue
  perform-Framed fd (drain writes) h s t more went k f =
      let same : t ≡ (drain_response_queue writes s).0 = cc went in
      rw same (
        Keeps-Framed fd h s.clients (drain_response_queue writes s).0.clients
          (deliver-Keeps fd writes 0 _ s.clients k) f)
  perform-Framed fd (accept fds) h s t more went k f =
      let same : t ≡ handle_new_connection fds s = cc went in rw same (accepted-Framed fd fds h s f)
  perform-Framed fd (hang_up key) h s t more went k f =
      let same : t.clients ≡ Dict.erase key s.clients = ground (arith, went) in
      rw same (Keeps-Framed fd h s.clients _ (erase-Keeps fd key s.clients) f)
  perform-Framed fd (read key bytes_read would_block calls) h s t more went k f =
      let same : t ≡ (read_all key bytes_read would_block calls s).0 = ground (arith, went) in
      rw same (read_all-Framed from_chars to_string fd key bytes_read calls h s f)
  perform-Framed fd (read key bytes_read disconnected calls) h s t more went k f =
      let same : t.clients ≡ Dict.erase key s.clients = ground (arith, went) in
      rw same (Keeps-Framed fd h s.clients _ (erase-Keeps fd key s.clients) f)
  perform-Framed fd (parse key i calls) h s t more went k f =
      parse_next-Framed fd key i calls h s t more went k f
  perform-Framed fd (write key w) h s t more went k f =
      let same : t ≡ handle_client_write w key s = cc went in
      rw same (
        Keeps-Framed fd h s.clients (handle_client_write w key s).clients
          (handle_client_write-Keeps fd w key s k) f)
