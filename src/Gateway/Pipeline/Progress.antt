-- ===== src/Gateway/Pipeline/Progress.antt =====
-- What one call of drain_response_queue lets matching_thread_loop of src/tcp_server.cpp execute.
use lloms.Base.{
  ℕ, zero, suc, ◌+◌, ◌-◌, ◌≤◌, ◌<◌, ◌≡◌, ◌%◌, none, some, length-append, refl, ap, ◌∙◌, inl, inr,
  true, Option, List, [], ◌∷◌, arith, length, drop, Option-cases,
}
use lloms.Base.Text.{Text}
use lloms.Types.{u64_mod}
use lloms.Spsc.{Queue, push, pop_batch}
use lloms.Spsc.Valid.{IsValid, contents}
use lloms.Spsc.Refine.{offer, push_refines, length-contents, capacity_bounds}
use lloms.Spsc.Drain.{pop_batch_lem}
use lloms.Gateway.Pipeline.{push_done}
use lloms.Gateway.Execute.{IngressMessage, execute_command}
use lloms.Gateway.Server.{TcpServer, Written, no_response, drain_response_queue, execute_next}

capacity-push : {A : Type 0} (q : Queue A) (x : A) → (push q x).1.capacity ≡ q.capacity
unfolding push
capacity-push q x = ground arith

capacity-pop_batch :
    {A : Type 0} (fresh : A) (q : Queue A) (out : List A) (n : ℕ)
    → (pop_batch fresh q out n).2.capacity ≡ q.capacity
unfolding pop_batch
capacity-pop_batch fresh q out n = ground arith

length-drop : {A : Type 0} (n : ℕ) (xs : List A) → length (drop n xs) ≡ length xs - n
length-drop ℕ.zero xs = omega arith
length-drop (suc n) [] = omega arith
length-drop (suc n) (x ∷ xs) = omega (arith, length-drop n xs)

module _ {A : Type 0} (fresh : A) {q : Queue A} (v : IsValid q) where
  push_accepts : (x : A) → length (contents fresh q) < q.capacity → (push q x).0 ≡ true
  unfolding offer
  push_accepts x room = let (same, valid) = push_refines fresh v x in ground (arith, same, room)

  -- Popping `max_items` leaves room for as many.
  popped_room :
      (max_items n : ℕ)
      → n ≤ max_items
      → n ≤ q.capacity
      → let r = pop_batch fresh q [] max_items in length (contents fresh r.2) + n ≤ r.2.capacity
  popped_room max_items n few fits =
      let (taken, got, left, valid) = pop_batch_lem fresh v [] max_items in
      let r = pop_batch fresh q [] max_items in
      let size : length (contents fresh r.2) ≡ length (contents fresh q) - r.0 =
        ap length left ∙ length-drop r.0 (contents fresh q) in
      ground (
        arith,
        size,
        taken,
        length-contents fresh v,
        v.within,
        capacity_bounds fresh v,
        capacity-pop_batch fresh q [] max_items,
      )

-- There is room for the answers of `n` commands, and there are as many.
record Ready (n : ℕ) (s : TcpServer) : Type 0 where
  pub valid : IsValid s.response_queue
  pub room : length (contents no_response s.response_queue) + n ≤ s.response_queue.capacity
  pub waits : n ≤ length s.batch

module _ (from_chars : ℕ → Text → Option (ℕ × ℕ)) (to_string : ℕ → Text) where
  -- Rounds of the loop over the batch.
  unfoldable pub execute_many : ℕ → TcpServer → Option TcpServer
  execute_many zero s = some s
  execute_many (suc n) s = elim (execute_next from_chars to_string s) [
    | none ↦ none
    | some s' ↦ execute_many n s'
  ]

  abbrev executed : TcpServer → IngressMessage → List IngressMessage → TcpServer
  executed s msg batch = record s {
    order_book = (execute_command to_string s.order_book msg).0;
    batch = batch;
    processed_orders = (s.processed_orders + 1) % u64_mod;
  }

  execute_head :
      (n : ℕ) (s : TcpServer) (msg : IngressMessage) (batch : List IngressMessage)
      → s.batch ≡ msg ∷ batch
      → Ready (suc n) s
      → (t : TcpServer) × (execute_next from_chars to_string s ≡ some t)
        × (t.batch ≡ batch)
        × Ready n t
  unfolding execute_next
  execute_head n s msg batch e r =
      elim (Option-cases (execute_command to_string s.order_book msg).1) [
        | inl silent ↦ (
          executed s msg batch,
          rw (e, silent, execute_next) refl,
          refl,
          record {
            valid = r.valid;
            room = omega (arith, r.room);
            waits = omega (arith, r.waits, ap length e);
          },
        )
        | inr (resp, answer) ↦
            let room : length (contents no_response s.response_queue) < s.response_queue.capacity =
              omega (arith, r.room) in
            let done = push_accepts no_response r.valid resp room in
            let (held, valid) = push_done no_response r.valid resp done in
            (
              record (executed s msg batch) { response_queue = (push s.response_queue resp).1 },
              rw (e, answer, done, execute_next) refl,
              refl,
              record {
                valid = valid;
                room = omega (
                  arith,
                  r.room,
                  ap length held,
                  length-append (contents no_response s.response_queue) (resp ∷ []),
                  capacity-push s.response_queue resp,
                );
                waits = omega (arith, r.waits, ap length e);
              },
            )
      ]

  Ready-execute_many :
      (n : ℕ) (s : TcpServer) (batch : List IngressMessage)
      → s.batch ≡ batch
      → Ready n s
      → (t : TcpServer) × (execute_many n s ≡ some t) × (t.batch ≡ drop n batch)
  unfolding execute_many
  Ready-execute_many zero s batch e r = (s, refl, e)
  Ready-execute_many (suc n) s [] e r = absurd (omega (arith, r.waits, ap length e))
  Ready-execute_many (suc n) s (msg ∷ batch) e r =
      let (t, went, left, ready) = execute_head n s msg batch e r in
      let (u, done, last) = Ready-execute_many n t batch left ready in
      (u, rw (went, execute_many) done, last)

-- With a valid response queue, full or not: after one call of drain_response_queue, whatever the sockets
-- take, the first `n` commands that are left of the batch can be executed one after the other, without
-- another call, if `n` is at most 64 and at most the capacity of the queue.
pub execute_many-drain_response_queue :
    (from_chars : ℕ → Text → Option (ℕ × ℕ)) (to_string : ℕ → Text) (s : TcpServer)
    (writes : ℕ → Written) (n : ℕ)
    → IsValid s.response_queue
    → n ≤ length s.batch
    → n ≤ 64
    → n ≤ s.response_queue.capacity
    → (t : TcpServer) × (execute_many from_chars to_string n (drain_response_queue writes s).0
        ≡ some t)
      × (t.batch ≡ drop n s.batch)
unfolding drain_response_queue
execute_many-drain_response_queue from_chars to_string s writes n v there few fits =
    let (taken, got, left, valid) = pop_batch_lem no_response v [] 64 in
    Ready-execute_many from_chars to_string n (drain_response_queue writes s).0 s.batch refl
      (record { valid = valid; room = popped_room no_response v 64 n few fits; waits = there })
