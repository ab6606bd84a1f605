-- ===== src/Gateway/System/Recorded.antt =====
-- The messages that src/tcp_server.cpp queues for a client, against its lines.
use lloms.Base.{
  ℕ, ◌≡◌, refl, ap, inl, inr, Option, List, [], ◌∷◌, ◌++◌, arith, ◌==◌, if◌then◌else◌, is_nil,
  append-nil, append_assoc, Option-cases, Bool-cases,
}
use lloms.Base.Dict
use lloms.Base.Text.{Text}
use lloms.Protocol.{new, cancel, flush, unknown, CommandType}
use lloms.Gateway.{find_newline, strip_cr, would_block, disconnected}
use lloms.Gateway.Execute.{IngressMessage}
use lloms.Gateway.Server.{ClientConnection, TcpServer, message_of}
use lloms.Gateway.Replies.{Keyed}
use lloms.Gateway.Pipeline.{line_messages}
use lloms.Gateway.Poll.{Task, drain, accept, hang_up, read, parse, write, queued_by}
use lloms.Gateway.System.Lines.{History, reopened, contains, told}

-- The messages of one descriptor.
unfoldable pub of_client : ℕ → List IngressMessage → List IngressMessage
of_client fd [] = []
of_client fd (m ∷ ms) = (if m.client_fd == fd then m ∷ [] else []) ++ of_client fd ms

of_client-append :
    (fd : ℕ) (ms ms' : List IngressMessage)
    → of_client fd (ms ++ ms') ≡ of_client fd ms ++ of_client fd ms'
unfolding of_client
of_client-append fd [] ms' = refl
of_client-append fd (m ∷ ms) ms' = rw (of_client-append fd ms ms', append_assoc) refl

typed-of_client :
    (fd : ℕ) (m : IngressMessage) (type : CommandType)
    → let ms : List IngressMessage = elim type [
      | unknown ↦ []
      | new ↦ m ∷ []
      | cancel ↦ m ∷ []
      | flush ↦ m ∷ []
    ] in
      of_client fd ms ≡ (if m.client_fd == fd then ms else [])
unfolding of_client
typed-of_client fd m unknown = ground arith
typed-of_client fd m new = ground arith
typed-of_client fd m cancel = ground arith
typed-of_client fd m flush = ground arith

module _ (from_chars : ℕ → Text → Option (ℕ × ℕ)) (to_string : ℕ → Text) where
  -- Each line makes one message, at some time and with some number, if it is a command, and else none.
  abbrev pub Makes : ℕ → List Text → List IngressMessage → Type 0
  Makes fd [] ms = ms ≡ []
  Makes fd (line ∷ lines) ms =
      (now : ℕ) × (now_ns : ℕ) × (sequence : ℕ) × (rest : List IngressMessage) × (ms
        ≡ line_messages from_chars to_string now now_ns sequence
            (record { fd = fd; read_buffer = []; write_buffer = [] }) line
          ++ rest)
      × Makes fd lines rest

  Makes-append :
      (fd now now_ns sequence : ℕ) (client : ClientConnection) (line : Text) (lines : List Text)
      (ms : List IngressMessage)
      → client.fd ≡ fd
      → Makes fd lines ms
      → Makes fd
          (lines ++ line ∷ [])
          (ms ++ line_messages from_chars to_string now now_ns sequence client line)
  Makes-append fd now now_ns sequence client line [] ms own h =
      let same : line_messages from_chars to_string now now_ns sequence client line
          ≡ line_messages from_chars to_string now now_ns sequence
              (record { fd = fd; read_buffer = []; write_buffer = [] }) line =
        ap
          (λ j.
            line_messages from_chars to_string now now_ns sequence
              (record { fd = j; read_buffer = []; write_buffer = [] }) line)
          own in
      (now, now_ns, sequence, [], rw (h, append-nil) same, refl)
  Makes-append fd now now_ns sequence client line (line' ∷ lines) ms own h =
      let (now', now_ns', sequence', rest, e, later) = h in
      let new_messages = line_messages from_chars to_string now now_ns sequence client line in
      (
        now',
        now_ns',
        sequence',
        rest ++ new_messages,
        rw (e, append_assoc) refl,
        Makes-append fd now now_ns sequence client line lines rest own later,
      )

  line_messages-of_client :
      (fd now now_ns sequence : ℕ) (client : ClientConnection) (line : Text)
      → let ms = line_messages from_chars to_string now now_ns sequence client line in
        of_client fd ms ≡ (if client.fd == fd then ms else [])
  unfolding of_client
  line_messages-of_client fd now now_ns sequence client line = elim (Bool-cases (is_nil line)) [
    | inl e ↦ rw e (ground arith)
    | inr e ↦
        let m = message_of from_chars to_string now now_ns sequence client.fd line in
        rw e (typed-of_client fd m m.command.type)
  ]

  -- The history of a descriptor has its messages among those that were queued, and they are what its
  -- lines make.
  pub record Recorded (fd : ℕ) (h : History) (past : List IngressMessage) : Type 0 where
    pub made : Makes fd h.lines h.queued
    pub all : h.earlier ++ h.queued ≡ of_client fd past

  pub quiet-Recorded :
      (fd : ℕ) (h : History) (past : List IngressMessage)
      → Recorded fd h past
      → Recorded fd h (past ++ [])
  quiet-Recorded fd h past r = rw append-nil r

  reopened-Recorded :
      (fd : ℕ) (h : History) (past : List IngressMessage)
      → Recorded fd h past
      → Recorded fd (reopened h) past
  reopened-Recorded fd h past r = record { made = refl; all = rw append-nil r.all }

  -- A round of the loop over the lines.
  line-Recorded :
      (fd now now_ns sequence : ℕ) (client : ClientConnection) (line : Text) (h : History)
      (past : List IngressMessage)
      → Recorded fd h past
      → let ms = line_messages from_chars to_string now now_ns sequence client line in
        Recorded fd
          (if client.fd == fd
            then record h { lines = h.lines ++ line ∷ []; queued = h.queued ++ ms }
            else h)
          (past ++ ms)
  line-Recorded fd now now_ns sequence client line h past r =
      let ms = line_messages from_chars to_string now now_ns sequence client line in
      let own = line_messages-of_client fd now now_ns sequence client line in
      elim (Bool-cases (client.fd == fd)) [
        | inl o ↦
            let here : client.fd ≡ fd = ground (arith, o) in
            rw o (record {
              made = Makes-append fd now now_ns sequence client line h.lines h.queued here r.made;
              all = rw (of_client-append fd past ms, rw o at own, ← r.all, append_assoc) refl;
            })
        | inr o ↦ rw o (record {
          made = r.made;
          all = rw (of_client-append fd past ms, rw o at own, append-nil) r.all;
        })
      ]

  pub told-Recorded :
      (fd : ℕ) (task : Task) (s : TcpServer) (h : History) (past : List IngressMessage)
      → Keyed s.clients
      → Recorded fd h past
      → Recorded fd
          (told from_chars to_string fd task s h)
          (past ++ queued_by from_chars to_string task s)
  unfolding told queued_by
  told-Recorded fd (drain writes) s h past k r = quiet-Recorded fd h past r
  told-Recorded fd (accept fds) s h past k r = elim (Bool-cases (contains fd fds)) [
    | inl e ↦ rw e (quiet-Recorded fd (reopened h) past (reopened-Recorded fd h past r))
    | inr e ↦ rw e (quiet-Recorded fd h past r)
  ]
  told-Recorded fd (hang_up key) s h past k r = quiet-Recorded fd h past r
  told-Recorded fd (read key bytes_read would_block calls) s h past k r =
      elim (Bool-cases (key == fd)) [
        | inl o ↦ rw o (
            quiet-Recorded fd (record h { received = h.received ++ bytes_read }) past
              (record { made = r.made; all = r.all }))
        | inr o ↦ rw o (quiet-Recorded fd h past r)
      ]
  told-Recorded fd (read key bytes_read disconnected calls) s h past k r =
      quiet-Recorded fd h past r
  told-Recorded fd (parse key i calls) s h past k r =
      elim (Option-cases (Dict.lookup key s.clients)) [
        | inl e ↦ rw (e, told, queued_by) (quiet-Recorded fd h past r)
        | inr (client, e) ↦ elim (Option-cases (find_newline client.read_buffer)) [
          | inl no_line ↦ rw (e, no_line, told, queued_by) (quiet-Recorded fd h past r)
          | inr ((line, rest), found) ↦
              rw (e, found, told, queued_by, ← k key client e)
                (line-Recorded fd (calls i).now (calls i).now_ns s.next_sequence client
                  (strip_cr line) h past r)
        ]
      ]
  told-Recorded fd (write key w) s h past k r = quiet-Recorded fd h past r
