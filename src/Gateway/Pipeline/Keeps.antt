-- ===== src/Gateway/Pipeline/Keeps.antt =====
-- Each step of the threads of src/tcp_server.cpp keeps the order of the commands.
use lloms.Base.{
  ℕ, ◌+◌, ◌%◌, ◌≡◌, refl, sym, ap, ◌∙◌, inl, inr, Option, none, some, List, [], ◌∷◌, ◌++◌, arith,
  is_nil, append_assoc, append-nil, length, length-append, Option-cases, Bool-cases,
}
use native.Mathlib.Nat.{mod-add-mod}
use lloms.Base.Text.{Text}
use lloms.Types.{u64_mod}
use lloms.Pool.{Book}
use lloms.Spsc.{push, pop_batch}
use lloms.Spsc.Valid.{contents}
use lloms.Gateway.Execute.{IngressMessage, execute_command}
use lloms.Gateway.Server.{
  Clients, TcpServer, Written, no_message, no_response, drain_response_queue, enqueue, pop_commands,
  execute_next,
}
use lloms.Gateway.Pipeline.{push_done, popped, Numbered-append, execute_all-append, Pipeline}

-- A property of the result, if there is one.
abbrev pub Allowed : {A : Type 0} → (A → Type 0) → Option A → Type 0
Allowed P none = Unit {0}
Allowed P (some a) = P a

counts : (n k : ℕ) → n ≡ k % u64_mod → (n + 1) % u64_mod ≡ (k + 1) % u64_mod
counts n k e = ap (λ x. (x + 1) % u64_mod) e ∙ mod-add-mod k u64_mod 1

module _ (from_chars : ℕ → Text → Option (ℕ × ℕ)) (to_string : ℕ → Text) (book : Book) where
  abbrev pub Ordered : List IngressMessage → TcpServer → Type 0
  Ordered = Pipeline from_chars to_string book

  -- Only the queues, the batch, the book and the counters matter.
  pub clients_changed :
      (ms : List IngressMessage) (s : TcpServer) (clients : Clients)
      → Ordered ms s
      → Ordered ms (record s { clients = clients })
  clients_changed ms s clients p = record {
    executed = p.executed;
    drained = p.drained;
    in_order = p.in_order;
    results = p.results;
    processed = p.processed;
    numbered = p.numbered;
    next = p.next;
    ingress = p.ingress;
    response = p.response;
  }

  pub enqueue_lem :
      (ms : List IngressMessage) (s : TcpServer) (msg : IngressMessage)
      → Ordered ms s
      → msg.sequence ≡ s.next_sequence
      → Allowed (Ordered (ms ++ msg ∷ [])) (enqueue msg s)
  unfolding enqueue
  enqueue_lem ms s msg p e = elim (Bool-cases (push s.ingress_queue msg).0) [
    | inr full ↦ rw full tt
    | inl done ↦
        let (longer, valid) = push_done no_message p.ingress msg done in
        let longer_by_one : length (ms ++ msg ∷ []) ≡ length ms + 1 = length-append ms (msg ∷ []) in
        rw done (record {
          executed = p.executed;
          drained = p.drained;
          in_order = ap (λ xs. xs ++ msg ∷ []) p.in_order ∙ rw (longer, append_assoc);
          results = p.results;
          processed = p.processed;
          numbered = Numbered-append 1 (1 + length ms) ms msg p.numbered refl (e ∙ p.next);
          next =
              counts s.next_sequence (1 + length ms) p.next
              ∙ ap (λ x. x % u64_mod) (omega (arith, longer_by_one));
          ingress = valid;
          response = p.response;
        })
  ]

  pub pop_commands_lem :
      (ms : List IngressMessage) (s : TcpServer)
      → Ordered ms s
      → Allowed (Ordered ms) (pop_commands s)
  unfolding pop_commands
  pop_commands_lem ms s p = elim (Bool-cases (is_nil s.batch)) [
    | inr busy ↦ rw busy tt
    | inl idle ↦
        let empty : s.batch ≡ [] = ground (arith, idle) in
        let (split, valid) = popped no_message p.ingress 64 in
        rw idle (record {
          executed = p.executed;
          drained = p.drained;
          in_order = p.in_order ∙ rw (empty, append-nil, split, append_assoc);
          results = p.results;
          processed = p.processed;
          numbered = p.numbered;
          next = p.next;
          ingress = valid;
          response = p.response;
        })
  ]

  pub drain_lem :
      (ms : List IngressMessage) (s : TcpServer) (writes : ℕ → Written)
      → Ordered ms s
      → Ordered ms (drain_response_queue writes s).0
  unfolding drain_response_queue
  drain_lem ms s writes p =
      let (split, valid) = popped no_response p.response 64 in
      let r = pop_batch no_response s.response_queue [] 64 in
      record {
        executed = p.executed;
        drained = p.drained ++ r.1;
        in_order = p.in_order;
        results =
            p.results
            ∙ ap (λ rs. (s.order_book, rs))
                (ap (◌++◌ p.drained) split
                  ∙ sym (append_assoc p.drained r.1 (contents no_response r.2)));
        processed = p.processed;
        numbered = p.numbered;
        next = p.next;
        ingress = p.ingress;
        response = valid;
      }

  pub execute_next_lem :
      (ms : List IngressMessage) (s : TcpServer) (msg : IngressMessage)
      (batch : List IngressMessage)
      → s.batch ≡ msg ∷ batch
      → Ordered ms s
      → Allowed (Ordered ms) (execute_next from_chars to_string s)
  unfolding execute_next
  execute_next_lem ms s msg batch e p =
      let before = execute_all-append from_chars to_string book p.executed msg in
      let moved : ms ≡ p.executed ++ msg ∷ [] ++ batch ++ contents no_message s.ingress_queue =
        p.in_order
        ∙ ap (λ xs. xs ++ contents no_message s.ingress_queue)
            (ap (◌++◌ p.executed) e ∙ sym (append_assoc p.executed (msg ∷ []) batch)) in
      let more : length (p.executed ++ msg ∷ []) ≡ length p.executed + 1 =
        length-append p.executed (msg ∷ []) in
      let counted : (s.processed_orders + 1) % u64_mod ≡ length (p.executed ++ msg ∷ []) % u64_mod =
        counts s.processed_orders (length p.executed) p.processed
        ∙ ap (λ x. x % u64_mod) (sym more) in
      elim (Option-cases (execute_command to_string s.order_book msg).1) [
        | inl silent ↦
            rw (e, silent, execute_next)
              (record {
                executed = p.executed ++ msg ∷ [];
                drained = p.drained;
                in_order = moved;
                results = before ∙ rw (p.results, silent, append-nil) refl;
                processed = counted;
                numbered = p.numbered;
                next = p.next;
                ingress = p.ingress;
                response = p.response;
              })
        | inr (resp, answer) ↦ elim (Bool-cases (push s.response_queue resp).0) [
          | inr full ↦ rw (e, answer, full, execute_next) tt
          | inl done ↦
              let (longer, valid) = push_done no_response p.response resp done in
              rw (e, answer, done, execute_next)
                (record {
                  executed = p.executed ++ msg ∷ [];
                  drained = p.drained;
                  in_order = moved;
                  results = before ∙ rw (p.results, answer, longer, append_assoc) refl;
                  processed = counted;
                  numbered = p.numbered;
                  next = p.next;
                  ingress = p.ingress;
                  response = valid;
                })
        ]
      ]
