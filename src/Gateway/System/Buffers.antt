-- ===== src/Gateway/System/Buffers.antt =====
-- Which operations of src/tcp_server.cpp leave the read buffer of a client as it was.
use lloms.Base.{
  ℕ, ◌+◌, ◌≡◌, refl, sym, subst, ◌∙◌, inl, inr, Option, some, List, [], ◌∷◌, ◌++◌, arith, ◌==◌,
  is_nil, false, Option-cases, Bool-cases,
}
use lloms.Base.Dict
use lloms.Base.Dict.{lookup-insert, lookup-erase}
use lloms.Base.Text.{Text}
use lloms.Protocol.{new, cancel, flush, unknown, CommandType, parse_line, format_reject}
use lloms.Gateway.Execute.{ResponseMessage}
use lloms.Gateway.Server.{
  ClientConnection, Clients, TcpServer, Written, flush_loop, flush_client_write_buffer, deliver,
  handle_client_write, process_client_line,
}
use lloms.Gateway.Replies.{Keyed, Keyed-flushed}
use lloms.Gateway.Connections.{enqueue-clients}

-- If the client is still there, it was there before with the same buffer.
pub record Remains (fd : ℕ) (client : ClientConnection) (clients : Clients) : Type 0 where
  pub earlier : ClientConnection
  pub found : Dict.lookup fd clients ≡ some earlier
  pub same : earlier.read_buffer ≡ client.read_buffer

abbrev pub Keeps : ℕ → Clients → Clients → Type 0
Keeps fd before after =
    (client : ClientConnection) → Dict.lookup fd after ≡ some client → Remains fd client before

pub Keeps-refl : (fd : ℕ) (clients : Clients) → Keeps fd clients clients
Keeps-refl fd clients client e = record { earlier = client; found = e; same = refl }

pub Keeps-trans : (fd : ℕ) (a b c : Clients) → Keeps fd a b → Keeps fd b c → Keeps fd a c
Keeps-trans fd a b c p q client e =
    let r = q client e in
    let r' = p r.earlier r.found in
    record { earlier = r'.earlier; found = r'.found; same = r'.same ∙ r.same }

pub erase-Keeps : (fd key : ℕ) (clients : Clients) → Keeps fd clients (Dict.erase key clients)
erase-Keeps fd key clients client e = record {
  earlier = client;
  found = ground (arith, lookup-erase key fd clients, e);
  same = refl;
}

-- A client is stored again, with the buffer that it has.
insert-Keeps :
    (fd key : ℕ) (c earlier : ClientConnection) (clients : Clients)
    → Dict.lookup key clients ≡ some earlier
    → earlier.read_buffer ≡ c.read_buffer
    → Keeps fd clients (Dict.insert key c clients)
insert-Keeps fd key c earlier clients e same client found = elim (Bool-cases (key == fd)) [
  | inl here ↦
      let own : key ≡ fd = ground (arith, here) in
      let stored : c ≡ client = ground (arith, here, lookup-insert key fd c clients, found) in
      record { earlier = earlier; found = rw (← own) e; same = rw (← stored) same }
  | inr other ↦ record {
    earlier = client;
    found = ground (arith, other, lookup-insert key fd c clients, found);
    same = refl;
  }
]

pub flush-Keeps :
    (fd : ℕ) (w : Written) (c earlier : ClientConnection) (clients : Clients)
    → Dict.lookup c.fd clients ≡ some earlier
    → earlier.read_buffer ≡ c.read_buffer
    → Keeps fd clients (flush_client_write_buffer w c clients).0
unfolding flush_client_write_buffer
flush-Keeps fd w c earlier clients e same =
    let f = flush_loop w.counts w.ending c.write_buffer in
    elim (Bool-cases f.failed) [
      | inl failed ↦ rw failed (erase-Keeps fd c.fd clients)
      | inr fine ↦
          rw fine (insert-Keeps fd c.fd (record c { write_buffer = f.left }) earlier clients e same)
    ]

pub deliver-Keeps :
    (fd : ℕ) (writes : ℕ → Written) (i : ℕ) (responses : List ResponseMessage) (clients : Clients)
    → Keyed clients
    → Keeps fd clients (deliver writes i responses clients).0
unfolding deliver
deliver-Keeps fd writes i [] clients k = Keeps-refl fd clients
deliver-Keeps fd writes i (resp ∷ responses) clients k =
    elim (Option-cases (Dict.lookup resp.client_fd clients)) [
      | inl e ↦ rw (e, deliver) (deliver-Keeps fd writes (i + 1) responses clients k)
      | inr (c, e) ↦
          let c' = record c { write_buffer = c.write_buffer ++ resp.payload } in
          let own : c.fd ≡ resp.client_fd = k resp.client_fd c e in
          let clients' = (flush_client_write_buffer (writes i) c' clients).0 in
          rw (e, deliver)
            (Keeps-trans fd clients clients' (deliver writes (i + 1) responses clients').0
              (flush-Keeps fd (writes i) c' c clients
                (subst (λ j. Dict.lookup j clients ≡ some c) (sym own) e) refl)
              (deliver-Keeps fd writes (i + 1) responses clients'
                (Keyed-flushed (writes i) c' clients k)))
    ]

pub handle_client_write-Keeps :
    (fd : ℕ) (w : Written) (key : ℕ) (s : TcpServer)
    → Keyed s.clients
    → Keeps fd s.clients (handle_client_write w key s).clients
unfolding handle_client_write
handle_client_write-Keeps fd w key s k = elim (Option-cases (Dict.lookup key s.clients)) [
  | inl e ↦ rw (e, handle_client_write) (Keeps-refl fd s.clients)
  | inr (c, e) ↦
      rw (e, handle_client_write)
        (flush-Keeps fd w c c s.clients
          (subst (λ j. Dict.lookup j s.clients ≡ some c) (sym (k key c e)) e) refl)
]

module _ (from_chars : ℕ → Text → Option (ℕ × ℕ)) (to_string : ℕ → Text) where
  typed_line-Keeps :
      (fd now now_ns : ℕ) (w : Written) (c : ClientConnection) (line : Text) (s t : TcpServer)
      (type : CommandType)
      → is_nil line ≡ false
      → (parse_line from_chars now line).type ≡ type
      → process_client_line from_chars to_string now now_ns w c line s ≡ some t
      → Dict.lookup c.fd s.clients ≡ some c
      → Keeps fd s.clients t.clients
  unfolding process_client_line
  typed_line-Keeps fd now now_ns w c line s t unknown full e went found =
      let cmd = parse_line from_chars now line in
      let rejected = record c {
        write_buffer = format_reject to_string 0 cmd.error_msg c.write_buffer;
      } in
      let same : t.clients ≡ (flush_client_write_buffer w rejected s.clients).0 =
        ground (arith, full, e, went) in
      rw same (flush-Keeps fd w rejected c s.clients found refl)
  typed_line-Keeps fd now now_ns w c line s t new full e went found =
      rw (enqueue-clients _ s t (rw (full, e, process_client_line) at went))
        (Keeps-refl fd s.clients)
  typed_line-Keeps fd now now_ns w c line s t cancel full e went found =
      rw (enqueue-clients _ s t (rw (full, e, process_client_line) at went))
        (Keeps-refl fd s.clients)
  typed_line-Keeps fd now now_ns w c line s t flush full e went found =
      rw (enqueue-clients _ s t (rw (full, e, process_client_line) at went))
        (Keeps-refl fd s.clients)

  pub line-Keeps :
      (fd now now_ns : ℕ) (w : Written) (c : ClientConnection) (line : Text) (s t : TcpServer)
      → process_client_line from_chars to_string now now_ns w c line s ≡ some t
      → Dict.lookup c.fd s.clients ≡ some c
      → Keeps fd s.clients t.clients
  unfolding process_client_line
  line-Keeps fd now now_ns w c line s t went found = elim (Bool-cases (is_nil line)) [
    | inl nothing ↦
        let same : t ≡ s = cc (rw (nothing, process_client_line) at went) in
        rw same (Keeps-refl fd s.clients)
    | inr full ↦
        typed_line-Keeps fd now now_ns w c line s t (parse_line from_chars now line).type full refl
          went found
  ]
