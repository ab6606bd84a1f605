-- ===== src/Gateway/System/Scanned.antt =====
-- The loop over the lines in handle_client_read of src/tcp_server.cpp leaves no newline in the buffer.
use lloms.Base.{
  ℕ, ◌+◌, ◌≡◌, refl, sym, subst, ◌∙◌, inl, inr, Bool, false, Option, none, some, List, [], ◌∷◌,
  ◌++◌, arith, ◌==◌, Option-cases, Bool-cases,
}
use lloms.Base.Dict
use lloms.Base.Dict.{lookup-insert}
use lloms.Base.Text.{Text}
use lloms.Gateway.{find_newline, strip_cr, would_block, disconnected}
use lloms.Gateway.Server.{
  ClientConnection, Clients, TcpServer, drain_response_queue, accept_client, set_read_buffer,
  process_client_line, handle_client_write,
}
use lloms.Gateway.Replies.{Keyed}
use lloms.Gateway.Poll.{
  Task, drain, accept, hang_up, read, parse, write, LineCalls, Outcome, goes, handle_new_connection,
  read_all, parse_line_of, parse_next, perform,
}
use lloms.Gateway.System.Buffers.{
  Keeps, erase-Keeps, deliver-Keeps, handle_client_write-Keeps, line-Keeps,
}
use lloms.Gateway.System.Lines.{set_read_buffer_other}

-- Whether the next piece is in the loop over the lines of a client.
abbrev pub at_parse : ℕ → List Task → Bool
at_parse fd [] = false
at_parse fd (parse key i calls ∷ tasks) = key == fd
at_parse fd (drain writes ∷ tasks) = false
at_parse fd (accept fds ∷ tasks) = false
at_parse fd (hang_up key ∷ tasks) = false
at_parse fd (read key bytes_read ending calls ∷ tasks) = false
at_parse fd (write key w ∷ tasks) = false

-- No newline waits in the client's buffer.
abbrev pub Quiet : ℕ → Clients → Type 0
Quiet fd clients =
    (client : ClientConnection)
    → Dict.lookup fd clients ≡ some client
    → find_newline client.read_buffer ≡ none

-- Nor does one if the next piece is not in that loop.
abbrev pub Scanned : ℕ → Clients → List Task → Type 0
Scanned fd clients todo = at_parse fd todo ≡ false → Quiet fd clients

Keeps-Quiet :
    (fd : ℕ) (before after : Clients) → Keeps fd before after → Quiet fd before → Quiet fd after
Keeps-Quiet fd before after kept q client e =
    let r = kept client e in rw (← r.same) (q r.earlier r.found)

accept_client-Quiet :
    (fd x : ℕ) (s : TcpServer) → Quiet fd s.clients → Quiet fd (accept_client x s).clients
unfolding accept_client find_newline
accept_client-Quiet fd x s q client e =
    let fresh : ClientConnection = record { fd = x; read_buffer = []; write_buffer = [] } in
    elim (Bool-cases (x == fd)) [
      | inl o ↦
          let empty : client.read_buffer ≡ [] =
            ground (arith, o, e, lookup-insert x fd fresh s.clients) in
          rw empty refl
      | inr o ↦ q client (ground (arith, o, e, lookup-insert x fd fresh s.clients))
    ]

handle_new_connection-Quiet :
    (fd : ℕ) (fds : List ℕ) (s : TcpServer)
    → Quiet fd s.clients
    → Quiet fd (handle_new_connection fds s).clients
unfolding handle_new_connection
handle_new_connection-Quiet fd [] s q = q
handle_new_connection-Quiet fd (x ∷ xs) s q =
    handle_new_connection-Quiet fd xs (accept_client x s) (accept_client-Quiet fd x s q)

-- A read of a client that is there goes to the loop.
read_all-Scanned :
    (fd key : ℕ) (bytes_read : Text) (calls : ℕ → LineCalls) (tasks : List Task) (s t : TcpServer)
    (more : List Task)
    → read_all key bytes_read would_block calls s ≡ (t, more)
    → Quiet fd s.clients
    → Scanned fd t.clients (more ++ tasks)
unfolding read_all
read_all-Scanned fd key bytes_read calls tasks s t more went q =
    elim (Option-cases (Dict.lookup key s.clients)) [
      | inl e ↦ let same : t ≡ s = cc (rw (e, read_all) at went) in rw same (λ out. q)
      | inr (c, e) ↦
          let went' : ◌≡◌ {A = TcpServer × List Task}
              (set_read_buffer key (c.read_buffer ++ bytes_read) s, parse key 0 calls ∷ [])
              (t, more) =
            rw (e, read_all) at went in
          let reached : t ≡ set_read_buffer key (c.read_buffer ++ bytes_read) s = cc went' in
          let next : more ≡ parse key 0 calls ∷ [] = cc went' in
          rw (reached, next)
            (λ out client found. q client (sym (set_read_buffer_other fd key _ s out) ∙ found))
    ]

module _ (from_chars : ℕ → Text → Option (ℕ × ℕ)) (to_string : ℕ → Text) where
  parse_line_of-Scanned :
      (fd key i : ℕ) (calls : ℕ → LineCalls) (client : ClientConnection) (line rest : Text)
      (tasks : List Task) (s t : TcpServer) (more : List Task)
      → parse_line_of from_chars to_string client line rest key i calls s ≡ goes (t, more)
      → Dict.lookup client.fd s.clients ≡ some client
      → ((key == fd) ≡ false → Quiet fd s.clients)
      → Scanned fd t.clients (more ++ tasks)
  unfolding parse_line_of
  parse_line_of-Scanned fd key i calls client line rest tasks s t more went there q =
      let c = calls i in
      elim (Option-cases
        (process_client_line from_chars to_string c.now c.now_ns c.writes client line s)) [
          | inl e ↦ cc (rw (e, parse_line_of) at went)
          | inr (s', e) ↦ elim (Option-cases (Dict.lookup key s'.clients)) [
            | inl gone ↦ cc (rw (e, gone, parse_line_of) at went)
            | inr (client', still) ↦
                let same : ◌≡◌ {A = Outcome (TcpServer × List Task)}
                    (goes (set_read_buffer key rest s', parse key (i + 1) calls ∷ []))
                    (goes (t, more)) =
                  rw (e, still, parse_line_of) at went in
                let reached : t ≡ set_read_buffer key rest s' = cc same in
                let next : more ≡ parse key (i + 1) calls ∷ [] = cc same in
                let kept =
                  line-Keeps from_chars to_string fd c.now c.now_ns c.writes client line s s' e
                    there in
                rw (reached, next)
                  (λ out x found.
                    Keeps-Quiet fd s.clients s'.clients kept (q out) x
                      (sym (set_read_buffer_other fd key rest s' out) ∙ found))
          ]
        ]

  parse_next-Scanned :
      (fd key i : ℕ) (calls : ℕ → LineCalls) (tasks : List Task) (s t : TcpServer)
      (more : List Task)
      → parse_next from_chars to_string key i calls s ≡ goes (t, more)
      → Keyed s.clients
      → ((key == fd) ≡ false → Quiet fd s.clients)
      → Scanned fd t.clients (more ++ tasks)
  unfolding parse_next
  parse_next-Scanned fd key i calls tasks s t more went k q =
      elim (Option-cases (Dict.lookup key s.clients)) [
        | inl e ↦ cc (rw (e, parse_next) at went)
        | inr (client, e) ↦ elim (Option-cases (find_newline client.read_buffer)) [
          | inl no_line ↦
              let same : ◌≡◌ {A = Outcome (TcpServer × List Task)} (goes (s, [])) (goes (t, more)) =
                rw (e, no_line, parse_next) at went in
              let reached : t ≡ s = cc same in
              rw reached (λ out x found. elim (Bool-cases (key == fd)) [
                | inr o ↦ q o x found
                | inl o ↦
                    let here : key ≡ fd = ground (arith, o) in
                    let own = subst (λ j. Dict.lookup j s.clients ≡ some client) here e in
                    let alike : client ≡ x = cc (own, found) in rw (← alike) no_line
              ])
          | inr ((line, rest), found) ↦
              parse_line_of-Scanned fd key i calls client (strip_cr line) rest tasks s t more
                (rw (e, found, parse_next) at went)
                (subst (λ j. Dict.lookup j s.clients ≡ some client) (sym (k key client e)) e) q
        ]
      ]

  pub perform-Scanned :
      (fd : ℕ) (task : Task) (tasks : List Task) (s t : TcpServer) (more : List Task)
      → perform from_chars to_string task s ≡ goes (t, more)
      → Keyed s.clients
      → Scanned fd s.clients (task ∷ tasks)
      → Scanned fd t.clients (more ++ tasks)
  unfolding perform drain_response_queue
  perform-Scanned fd (drain writes) tasks s t more went k q =
      let same : t ≡ (drain_response_queue writes s).0 = cc went in
      rw same (λ out.
        Keeps-Quiet fd s.clients (drain_response_queue writes s).0.clients
          (deliver-Keeps fd writes 0 _ s.clients k) (q refl))
  perform-Scanned fd (accept fds) tasks s t more went k q =
      let same : t ≡ handle_new_connection fds s = cc went in
      rw same (λ out. handle_new_connection-Quiet fd fds s (q refl))
  perform-Scanned fd (hang_up key) tasks s t more went k q =
      let same : t.clients ≡ Dict.erase key s.clients = ground (arith, went) in
      rw same (λ out. Keeps-Quiet fd s.clients _ (erase-Keeps fd key s.clients) (q refl))
  perform-Scanned fd (read key bytes_read would_block calls) tasks s t more went k q =
      read_all-Scanned fd key bytes_read calls tasks s t more (cc went) (q refl)
  perform-Scanned fd (read key bytes_read disconnected calls) tasks s t more went k q =
      let same : t.clients ≡ Dict.erase key s.clients = ground (arith, went) in
      rw same (λ out. Keeps-Quiet fd s.clients _ (erase-Keeps fd key s.clients) (q refl))
  perform-Scanned fd (parse key i calls) tasks s t more went k q =
      parse_next-Scanned fd key i calls tasks s t more went k q
  perform-Scanned fd (write key w) tasks s t more went k q =
      let same : t ≡ handle_client_write w key s = cc went in
      rw same (λ out.
        Keeps-Quiet fd s.clients (handle_client_write w key s).clients
          (handle_client_write-Keeps fd w key s k) (q refl))
