-- ===== src/Spsc/History.antt =====
-- A new queue, and whole histories of calls on it (include/spsc_queue.hpp).
use lloms.Base.{
  ℕ, ◌^◌, ◌≤◌, ◌≡◌, refl, Bool, Option, some, List, [], ◌∷◌, arith, length-replicate, replicate,
}
use native.Mathlib.Nat.{one-le-pow, pow-le-pow_right}
use lloms.Spsc.{Queue, init, push, pop, sub_size}
use lloms.Spsc.Capacity.{round_up-is_least}
use lloms.Spsc.Valid.{IsValid, contents}
use lloms.Spsc.Refine.{offer, poll, push_refines}
use lloms.Spsc.Drain.{pop_refines}

pub data Call (A : Type 0) : Type 0 where
  puts : A → Call A
  gets : Call A

pub data Reply (A : Type 0) : Type 0 where
  put : Bool → Reply A
  got : Option A → Reply A

module _ {A : Type 0} (fresh : A) where
  -- Up to 2 ^ 63 the constructor gives a valid and empty queue with at least the wanted room.
  pub init-IsValid :
      (wanted : ℕ)
      → wanted ≤ 2 ^ 63
      → (q : Queue A) × (init fresh wanted ≡ some q)
        × IsValid q
        × (contents fresh q ≡ [])
        × (wanted ≤ q.capacity)
  unfolding init
  init-IsValid wanted fits =
      let (k, small, found, enough, least) = round_up-is_least wanted fits in
      let low : 1 ≤ 2 ^ k = one-le-pow k 2 (omega arith) in
      let high : 2 ^ k ≤ 2 ^ 63 = pow-le-pow_right {n = 2} (omega arith) {i = k} {j = 63} small in
      let q : Queue A = record {
        capacity = 2 ^ k;
        mask = sub_size (2 ^ k) 1;
        buffer = replicate (2 ^ k) fresh;
        tail = 0;
        head = 0;
      } in
      (
        q,
        rw (found, init),
        record {
          exponent = k;
          small = small;
          power = refl;
          masked = omega arith;
          slots = length-replicate (2 ^ k) fresh;
          head_fits = omega arith;
          tail_fits = omega arith;
          within = omega arith;
        },
        refl,
        enough,
      )

  -- The calls of both threads, in the order in which they take effect, with what each returns.
  pub run : Queue A → List (Call A) → List (Reply A)
  run q [] = []
  run q (puts x ∷ cs) = let (done, q') = push q x in put done ∷ run q' cs
  run q (gets ∷ cs) = let (item, q') = pop fresh q in got item ∷ run q' cs

  unfoldable pub fifo_run : ℕ → List A → List (Call A) → List (Reply A)
  fifo_run cap xs [] = []
  fifo_run cap xs (puts x ∷ cs) = let (done, xs') = offer cap xs x in put done ∷ fifo_run cap xs' cs
  fifo_run cap xs (gets ∷ cs) = let (item, xs') = poll xs in got item ∷ fifo_run cap xs' cs

  capacity-push : (q : Queue A) (x : A) → (push q x).1.capacity ≡ q.capacity
  unfolding push
  capacity-push q x = ground arith

  capacity-pop : (q : Queue A) → (pop fresh q).1.capacity ≡ q.capacity
  unfolding pop
  capacity-pop q = ground arith

  -- No history of calls tells a valid queue from the bounded FIFO of its items.
  pub run_refines :
      (cs : List (Call A)) {q : Queue A}
      → IsValid q
      → run q cs ≡ fifo_run q.capacity (contents fresh q) cs
  unfolding run fifo_run
  run_refines [] v = refl
  run_refines (puts x ∷ cs) {q} v =
      let r = push_refines fresh v x in rw (run_refines cs r.1, ← r.0, capacity-push q x)
  run_refines (gets ∷ cs) {q} v =
      let r = pop_refines fresh v in rw (run_refines cs r.1, ← r.0, capacity-pop q)
