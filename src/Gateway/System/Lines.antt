-- ===== src/Gateway/System/Lines.antt =====
-- The bytes of each client of src/tcp_server.cpp, and the lines that are processed, from start to its end.
use lloms.Base.{
  Option, ℕ, ◌≡◌, refl, sym, ap, subst, ◌∙◌, inl, inr, Bool, true, false, none, some, List, [], ◌∷◌,
  ◌++◌, ◌||◌, arith, ◌==◌, if◌then◌else◌, append_assoc, Option-cases, Bool-cases,
}
use lloms.Base.Dict
use lloms.Base.Dict.{lookup-insert, lookup-erase}
use lloms.Base.Text.{Text}
use lloms.Gateway.{find_newline, strip_cr, would_block, disconnected}
use lloms.Gateway.Framing.{frame, frame-append, frame-find_newline}
use lloms.Gateway.Execute.{IngressMessage}
use lloms.Gateway.Pipeline.{line_messages}
use lloms.Gateway.Server.{ClientConnection, Clients, TcpServer, accept_client, set_read_buffer}
use lloms.Gateway.Poll.{
  Task, drain, accept, hang_up, read, parse, write, LineCalls, handle_new_connection, read_all,
}
use lloms.Gateway.System.Buffers.{Keeps}

-- What has been read from the connection with a descriptor, the lines that were taken from its buffer, and
-- the messages of these; `earlier` has those of the connections that had the descriptor before.
pub record History : Type 0 where
  pub received : Text
  pub lines : List Text
  pub queued : List IngressMessage
  pub earlier : List IngressMessage

abbrev pub nothing_yet : History
nothing_yet = record { received = []; lines = []; queued = []; earlier = [] }

-- The descriptor is given to another connection.
abbrev pub reopened : History → History
reopened h = record nothing_yet { earlier = h.earlier ++ h.queued }

abbrev pub contains : ℕ → List ℕ → Bool
contains fd [] = false
contains fd (x ∷ xs) = (x == fd) || contains fd xs

module _ (from_chars : ℕ → Text → Option (ℕ × ℕ)) (to_string : ℕ → Text) where
  -- A piece of poll_events, in the history of the descriptor `fd`.
  unfoldable pub told : ℕ → Task → TcpServer → History → History
  told fd (accept fds) s h = if contains fd fds then reopened h else h
  told fd (read fd' bytes_read would_block calls) s h =
      if fd' == fd then record h { received = h.received ++ bytes_read } else h
  told fd (read fd' bytes_read disconnected calls) s h = h
  told fd (parse fd' i calls) s h = elim (Dict.lookup fd' s.clients) [
    | none ↦ h
    | some client ↦ elim (find_newline client.read_buffer) [
      | none ↦ h
      | some (line, rest) ↦
          let c = calls i in
          let ms =
            line_messages from_chars to_string c.now c.now_ns s.next_sequence client
              (strip_cr line) in
          if fd' == fd
          then record h { lines = h.lines ++ strip_cr line ∷ []; queued = h.queued ++ ms }
          else h
    ]
  ]
  told fd (drain writes) s h = h
  told fd (hang_up fd') s h = h
  told fd (write fd' w) s h = h

-- The lines that were processed, and those that wait in the buffer, are the lines of what has been read; and
-- the buffer ends as that does.
abbrev pub Framed : ℕ → History → Clients → Type 0
Framed fd h clients =
    (client : ClientConnection)
    → Dict.lookup fd clients ≡ some client
    → frame [] h.received
      ≡ (h.lines ++ (frame [] client.read_buffer).0, (frame [] client.read_buffer).1)

pub Keeps-Framed :
    (fd : ℕ) (h : History) (before after : Clients)
    → Keeps fd before after
    → Framed fd h before
    → Framed fd h after
Keeps-Framed fd h before after kept f client e =
    let r = kept client e in
    f r.earlier r.found ∙ ap (λ b. (h.lines ++ (frame [] b).0, (frame [] b).1)) r.same

read-Framed :
    (h : History) (bytes_read buffer : Text)
    → frame [] h.received ≡ (h.lines ++ (frame [] buffer).0, (frame [] buffer).1)
    → frame [] (h.received ++ bytes_read)
      ≡ (h.lines ++ (frame [] (buffer ++ bytes_read)).0, (frame [] (buffer ++ bytes_read)).1)
read-Framed h bytes_read buffer e =
    rw (frame-append h.received bytes_read [], e, frame-append buffer bytes_read [], append_assoc)
      refl

pub parse-Framed :
    (h : History) (buffer line rest : Text)
    → find_newline buffer ≡ some (line, rest)
    → frame [] h.received ≡ (h.lines ++ (frame [] buffer).0, (frame [] buffer).1)
    → frame [] h.received
      ≡ ((h.lines ++ strip_cr line ∷ []) ++ (frame [] rest).0, (frame [] rest).1)
parse-Framed h buffer line rest found e =
    e ∙ rw (frame-find_newline buffer [] line rest found, append_assoc) refl

pub set_read_buffer_other :
    (fd key : ℕ) (text : Text) (s : TcpServer)
    → (key == fd) ≡ false
    → Dict.lookup fd (set_read_buffer key text s).clients ≡ Dict.lookup fd s.clients
unfolding set_read_buffer
set_read_buffer_other fd key text s other = elim (Option-cases (Dict.lookup key s.clients)) [
  | inl e ↦ rw (e, set_read_buffer) refl
  | inr (c, e) ↦
      rw (e, set_read_buffer)
        (ground (arith, other, lookup-insert key fd (record c { read_buffer = text }) s.clients))
]

set_read_buffer_own :
    (key : ℕ) (text : Text) (s : TcpServer) (client : ClientConnection)
    → Dict.lookup key (set_read_buffer key text s).clients ≡ some client
    → client.read_buffer ≡ text
unfolding set_read_buffer
set_read_buffer_own key text s client found = elim (Option-cases (Dict.lookup key s.clients)) [
  | inl e ↦ cc (rw (e, set_read_buffer) at found, e)
  | inr (c, e) ↦
      let stored = rw (e, set_read_buffer) at found in
      ground (arith, stored, lookup-insert key key (record c { read_buffer = text }) s.clients)
]

-- The buffer of one client takes another value.
pub set_read_buffer-Framed :
    (fd key : ℕ) (h h' : History) (text : Text) (s : TcpServer)
    → Framed fd h s.clients
    → ((key == fd) ≡ false → h' ≡ h)
    → (key ≡ fd → frame [] h'.received ≡ (h'.lines ++ (frame [] text).0, (frame [] text).1))
    → Framed fd h' (set_read_buffer key text s).clients
set_read_buffer-Framed fd key h h' text s f other own client e = elim (Bool-cases (key == fd)) [
  | inr o ↦ rw (other o) (f client (sym (set_read_buffer_other fd key text s o) ∙ e))
  | inl o ↦
      let here : key ≡ fd = ground (arith, o) in
      let same = set_read_buffer_own key text s client (
        subst (λ j. Dict.lookup j (set_read_buffer key text s).clients ≡ some client) (sym here)
          e) in
      own here ∙ ap (λ b. (h'.lines ++ (frame [] b).0, (frame [] b).1)) (sym same)
]

accept_client-Framed :
    (fd x : ℕ) (h : History) (s : TcpServer)
    → Framed fd h s.clients
    → Framed fd (if x == fd then nothing_yet else h) (accept_client x s).clients
unfolding accept_client frame
accept_client-Framed fd x h s f client e = elim (Bool-cases (x == fd)) [
  | inl o ↦
      let empty : client.read_buffer ≡ [] = ground (
        arith,
        o,
        e,
        lookup-insert x fd (record { fd = x; read_buffer = []; write_buffer = [] }) s.clients,
      ) in
      rw (o, empty) refl
  | inr o ↦
      let found : Dict.lookup fd s.clients ≡ some client = ground (
        arith,
        o,
        e,
        lookup-insert x fd (record { fd = x; read_buffer = []; write_buffer = [] }) s.clients,
      ) in
      rw o (f client found)
]

pub handle_new_connection-Framed :
    (fd : ℕ) (fds : List ℕ) (h : History) (s : TcpServer)
    → Framed fd h s.clients
    → Framed fd (if contains fd fds then nothing_yet else h) (handle_new_connection fds s).clients
unfolding handle_new_connection
handle_new_connection-Framed fd [] h s f = f
handle_new_connection-Framed fd (x ∷ xs) h s f =
    let later =
      handle_new_connection-Framed fd xs (if x == fd then nothing_yet else h) (accept_client x s)
        (accept_client-Framed fd x h s f) in
    let same : (if contains fd xs then nothing_yet else (if x == fd then nothing_yet else h))
        ≡ (if (x == fd) || contains fd xs then nothing_yet else h) =
      ground arith in
    subst (λ g. Framed fd g (handle_new_connection xs (accept_client x s)).clients) same later

pub read_all-Framed :
    (from_chars : ℕ → Text → Option (ℕ × ℕ)) (to_string : ℕ → Text) (fd key : ℕ) (bytes_read : Text)
    (calls : ℕ → LineCalls) (h : History) (s : TcpServer)
    → Framed fd h s.clients
    → Framed fd
        (told from_chars to_string fd (read key bytes_read would_block calls) s h)
        (read_all key bytes_read would_block calls s).0.clients
unfolding told read_all
read_all-Framed from_chars to_string fd key bytes_read calls h s f =
    elim (Option-cases (Dict.lookup key s.clients)) [
      | inl e ↦
          rw (e, read_all)
            (λ client found. elim (Bool-cases (key == fd)) [
              | inl o ↦
                  let here : key ≡ fd = ground (arith, o) in
                  cc (found, subst (λ j. Dict.lookup j s.clients ≡ none) here e)
              | inr o ↦ rw o (f client found)
            ])
      | inr (c, e) ↦
          rw (e, read_all)
            (set_read_buffer-Framed fd key h
              (told from_chars to_string fd (read key bytes_read would_block calls) s h)
              (c.read_buffer ++ bytes_read) s f (λ o. rw o refl)
              (λ here.
                let o : (key == fd) ≡ true = ground (arith, here) in
                rw o (
                  read-Framed h bytes_read c.read_buffer
                    (f c (subst (λ j. Dict.lookup j s.clients ≡ some c) here e)))))
    ]
