-- ===== src/Gateway/Replies.antt =====
-- The answers that drain_response_queue of src/tcp_server.cpp passes to the clients, and the bytes that its
-- writes send.
use lloms.Base.{
  ℕ, suc, ◌+◌, ◌≡◌, refl, sym, ap, ◌∙◌, subst, inl, inr, false, none, some, List, [], ◌∷◌, ◌++◌,
  arith, ◌==◌, if◌then◌else◌, take, drop, min, length, append_assoc, append-nil, Option-cases,
  Bool-cases,
}
use lloms.Base.Dict.{lookup, lookup-insert, lookup-erase}
use lloms.Base.Text.{Text}
use lloms.Spsc.{pop_batch}
use lloms.Spsc.Valid.{IsValid, contents}
use lloms.Spsc.Drain.{pop_batch_lem}
use lloms.Gateway.Execute.{ResponseMessage}
use lloms.Gateway.Server.{
  ClientConnection, Clients, TcpServer, no_response, drain_response_queue, WriteEnd, Written,
  flush_loop, flush_client_write_buffer, deliver,
}

take-drop : (n : ℕ) (s : Text) → take n s ++ drop n s ≡ s
take-drop ℕ.zero s = refl
take-drop (suc n) [] = refl
take-drop (suc n) (c ∷ s) = ap (◌∷◌ c) (take-drop n s)

-- The loop loses nothing.
flush_loop_lem :
    (counts : List ℕ) (ending : WriteEnd) (s : Text)
    → (flush_loop counts ending s).out ++ (flush_loop counts ending s).left ≡ s
unfolding flush_loop
flush_loop_lem counts ending [] = refl
flush_loop_lem [] ending (c ∷ s) = refl
flush_loop_lem (sent ∷ counts) ending (c ∷ s) =
    append_assoc (take sent (c ∷ s)) _ _
    ∙ ap (◌++◌ (take sent (c ∷ s))) (flush_loop_lem counts ending (drop sent (c ∷ s)))
    ∙ take-drop sent (c ∷ s)

-- Each connection stands under its descriptor.
abbrev pub Keyed : Clients → Type 0
Keyed clients =
    (fd : ℕ) (client : ClientConnection) → lookup fd clients ≡ some client → client.fd ≡ fd

-- The payloads for a client, and the bytes sent to it.
abbrev pub payloads : ℕ → List ResponseMessage → Text
payloads fd [] = []
payloads fd (resp ∷ responses) =
    (if resp.client_fd == fd then resp.payload else []) ++ payloads fd responses

abbrev pub sent_to : ℕ → List (ℕ × Text) → Text
sent_to fd [] = []
sent_to fd ((to, out) ∷ outs) = (if to == fd then out else []) ++ sent_to fd outs

module _ (w : Written) (client : ClientConnection) (clients : Clients) where
  abbrev flushed : Clients × Text
  flushed = flush_client_write_buffer w client clients

  lookup_flushed : (fd : ℕ) → (client.fd == fd) ≡ false → lookup fd flushed.0 ≡ lookup fd clients
  unfolding flush_client_write_buffer
  lookup_flushed fd other = ground (
    arith,
    other,
    lookup-erase client.fd fd clients,
    lookup-insert client.fd fd
        (record client { write_buffer = (flush_loop w.counts w.ending client.write_buffer).left })
        clients,
  )

  -- The client is gone, or what is sent and what stays is its buffer.
  own_flushed :
      (last : ClientConnection)
      → lookup client.fd flushed.0 ≡ some last
      → (flushed.1 ++ last.write_buffer ≡ client.write_buffer) × (last.fd ≡ client.fd)
  unfolding flush_client_write_buffer
  own_flushed last e = ground (
    arith,
    e,
    flush_loop_lem w.counts w.ending client.write_buffer,
    lookup-erase client.fd client.fd clients,
    lookup-insert client.fd client.fd
        (record client { write_buffer = (flush_loop w.counts w.ending client.write_buffer).left })
        clients,
  )

  pub Keyed-flushed : Keyed clients → Keyed flushed.0
  Keyed-flushed k fd x e = elim (Bool-cases (client.fd == fd)) [
    | inl same ↦
        let here : client.fd ≡ fd = ground (arith, same) in
        (own_flushed x (subst (λ i. lookup i flushed.0 ≡ some x) (sym here) e)).1 ∙ here
    | inr other ↦ k fd x (sym (lookup_flushed fd other) ∙ e)
  ]

module _ (writes : ℕ → Written) (fd : ℕ) where
  deliver_absent :
      (i : ℕ) (responses : List ResponseMessage) (clients : Clients)
      → Keyed clients
      → lookup fd clients ≡ none
      → lookup fd (deliver writes i responses clients).0 ≡ none
  unfolding deliver
  deliver_absent i [] clients k gone = gone
  deliver_absent i (resp ∷ responses) clients k gone =
      elim (Option-cases (lookup resp.client_fd clients)) [
        | inl e ↦ rw (e, deliver) (deliver_absent (i + 1) responses clients k gone)
        | inr (c, e) ↦
            let c' = record c { write_buffer = c.write_buffer ++ resp.payload } in
            let keyed = Keyed-flushed (writes i) c' clients k in
            let own : c.fd ≡ resp.client_fd = k resp.client_fd c e in
            elim (Bool-cases (c.fd == fd)) [
              | inl same ↦
                  let here : resp.client_fd ≡ fd = ground (arith, own, same) in
                  absurd (cc (rw here at e, gone))
              | inr other ↦
                  rw (e, deliver)
                    (deliver_absent (i + 1) responses _ keyed
                      (lookup_flushed (writes i) c' clients fd other ∙ gone))
            ]
      ]

  joined :
      (out rest last own payload more middle : Text)
      → out ++ middle ≡ own ++ payload
      → rest ++ last ≡ middle ++ more
      → out ++ rest ++ last ≡ own ++ (payload ++ more)
  joined out rest last own payload more middle first later =
      append_assoc out rest last
      ∙ ap (◌++◌ out) later
      ∙ sym (append_assoc out middle more)
      ∙ ap (λ x. x ++ more) first
      ∙ append_assoc own payload more

  -- What a client that stays connected is sent, with what then waits in its buffer, is what waited before
  -- and the payloads for it, in their order; nothing is lost and nothing of the other clients comes in.
  deliver_lem :
      (i : ℕ) (responses : List ResponseMessage) (clients : Clients)
      (client last : ClientConnection)
      → Keyed clients
      → lookup fd clients ≡ some client
      → lookup fd (deliver writes i responses clients).0 ≡ some last
      → sent_to fd (deliver writes i responses clients).1 ++ last.write_buffer
        ≡ client.write_buffer ++ payloads fd responses
  unfolding deliver
  deliver_lem i [] clients client last k before after =
      ground (arith, before, after, append-nil client.write_buffer)
  deliver_lem i (resp ∷ responses) clients client last k before after =
      elim (Option-cases (lookup resp.client_fd clients)) [
        | inl e ↦
            let other : (resp.client_fd == fd) ≡ false = elim (Bool-cases (resp.client_fd == fd)) [
              | inl same ↦
                  let here : resp.client_fd ≡ fd = ground (arith, same) in
                  absurd (cc (rw here at e, before))
              | inr other ↦ other
            ] in
            rw (e, deliver, other)
              (deliver_lem (i + 1) responses clients client last k before
                (rw (e, deliver) at after))
        | inr (c, e) ↦
            let c' = record c { write_buffer = c.write_buffer ++ resp.payload } in
            let keyed = Keyed-flushed (writes i) c' clients k in
            let own : c.fd ≡ resp.client_fd = k resp.client_fd c e in
            let r = flush_client_write_buffer (writes i) c' clients in
            let later : lookup fd (deliver writes (i + 1) responses r.0).0 ≡ some last =
              rw (e, deliver) at after in
            elim (Bool-cases (resp.client_fd == fd)) [
              | inr other ↦
                  let apart : (c'.fd == fd) ≡ false = ap (λ x. x == fd) own ∙ other in
                  let still = lookup_flushed (writes i) c' clients fd apart ∙ before in
                  rw (e, deliver, other)
                    (deliver_lem (i + 1) responses r.0 client last keyed still later)
              | inl same ↦
                  let here : resp.client_fd ≡ fd = ground (arith, same) in
                  let it_is : c ≡ client =
                    ground (arith, e, before, ap (λ x. lookup x clients) here) in
                  elim (Option-cases (lookup fd r.0)) [
                    | inl gone ↦
                        absurd (cc (later, deliver_absent (i + 1) responses r.0 keyed gone))
                    | inr (mid, found) ↦
                        let flushed_own =
                          own_flushed (writes i) c' clients mid
                            (subst (λ x. lookup x r.0 ≡ some mid) (sym (own ∙ here)) found) in
                        let first : r.1 ++ mid.write_buffer ≡ client.write_buffer ++ resp.payload =
                          flushed_own.0
                          ∙ ap (λ (x : ClientConnection). x.write_buffer ++ resp.payload) it_is in
                        rw (e, deliver, same)
                          (joined r.1 (sent_to fd (deliver writes (i + 1) responses r.0).1)
                            last.write_buffer client.write_buffer resp.payload
                            (payloads fd responses) mid.write_buffer first
                            (deliver_lem (i + 1) responses r.0 mid last keyed found later))
                  ]
            ]
      ]

take_least : {A : Type 0} (m n : ℕ) (xs : List A) → m ≡ min (length xs) n → take m xs ≡ take n xs
take_least ℕ.zero ℕ.zero xs e = refl
take_least ℕ.zero (suc n) [] e = refl
take_least ℕ.zero (suc n) (x ∷ xs) e = absurd (omega (arith, e))
take_least (suc m) ℕ.zero xs e = absurd (omega (arith, e))
take_least (suc m) (suc n) [] e = refl
take_least (suc m) (suc n) (x ∷ xs) e = ap (◌∷◌ x) (take_least m n xs (omega (arith, e)))

-- With a valid response queue, and clients that are stored under their own descriptors: what
-- drain_response_queue sends to a client that is connected before and after it, with what then
-- waits in the client's buffer, is what waited before and the payloads for the client among the 64
-- oldest responses, in their order, whatever the sockets take.
pub drain_response_queue-delivers :
    (s : TcpServer) (writes : ℕ → Written) (fd : ℕ) (client last : ClientConnection)
    → IsValid s.response_queue
    → Keyed s.clients
    → lookup fd s.clients ≡ some client
    → lookup fd (drain_response_queue writes s).0.clients ≡ some last
    → sent_to fd (drain_response_queue writes s).1 ++ last.write_buffer
      ≡ client.write_buffer ++ payloads fd (take 64 (contents no_response s.response_queue))
unfolding drain_response_queue
drain_response_queue-delivers s writes fd client last v k before after =
    let (taken, got, left, valid) = pop_batch_lem no_response v [] 64 in
    let first : (pop_batch no_response s.response_queue [] 64).1
        ≡ take 64 (contents no_response s.response_queue) =
      got ∙ take_least (pop_batch no_response s.response_queue [] 64).0 64 _ taken in
    rw (← first) (
      deliver_lem writes fd 0 (pop_batch no_response s.response_queue [] 64).1 s.clients client last
        k before after)
