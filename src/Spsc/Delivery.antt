-- ===== src/Spsc/Delivery.antt =====
-- What the interleaved calls of include/spsc_queue.hpp guarantee: delivery in order, no two threads at
-- one slot, and what a call without interruption does.
use lloms.Base.{
  ◌≤◌, ◌≡◌, refl, sym, true, false, some, none, List, [], ◌∷◌, ◌++◌, arith, leb, ◌==◌,
  if◌then◌else◌, length, replicate, is_some, Bool-cases, inl, inr,
}
use native.Mathlib.Decide.{dec_lt}
use lloms.Spsc.{Queue, sub_size, push, pop}
use lloms.Spsc.Valid.{IsValid, contents}
use lloms.Spsc.Refine.{length-contents, offer, poll, push_refines}
use lloms.Spsc.Drain.{pop_refines}
use lloms.Spsc.Threads.{
  idle, waiting, System, Turn, produces, consumes, produce, consume, turn, interleave,
}
use lloms.Spsc.Interleaved.{ProducerKnows, ConsumerKnows, IsSound}
use lloms.Spsc.Turns.{interleave-IsSound}

abbrev pub start : {A : Type 0} → Queue A → System A
start q = record { queue = q; producer = idle; consumer = waiting; sent = []; received = [] }

module _ {A : Type 0} (fresh : A) (q : Queue A) (v : IsValid q)
    (none_yet : contents fresh q ≡ []) where
  start-IsSound : IsSound fresh (start q)
  unfolding ProducerKnows ConsumerKnows
  start-IsSound = record { valid = v; producing = tt; consuming = tt; fifo = sym none_yet }

  -- On a valid and empty queue, however the accesses of the two threads interleave: the pops have
  -- returned the oldest items of those that were pushed, in their order, the queue has the others, and
  -- these are never more than its capacity.
  pub delivery :
      (ts : List (Turn A))
      → let s = interleave fresh (start q) ts in
        (s.sent ≡ s.received ++ contents fresh s.queue)
        × (length (contents fresh s.queue) ≤ s.queue.capacity)
  delivery ts =
      let i = interleave-IsSound fresh ts (start q) start-IsSound in
      (i.fifo, rw (length-contents fresh i.valid) i.valid.within)

module _ {A : Type 0} (fresh : A) (s : System A) where
  -- The turns of a push without interruption change the queue as `push` does. The item counts as sent
  -- if and only if `push` returns true.
  push_alone :
      (x : A)
      → s.producer ≡ idle
      → let (done, q') = push s.queue x in
        let s' = interleave fresh s (replicate (if done then 4 else 3) (produces x)) in
        (s'.queue ≡ q')
        × (s'.producer ≡ idle)
        × (s'.sent ≡ (if done then s.sent ++ x ∷ [] else s.sent))
  unfolding push interleave turn produce
  push_alone x at_rest = elim (dec_lt (sub_size s.queue.tail s.queue.head) s.queue.capacity) [
    | yes free ↦
        let test : leb s.queue.capacity (sub_size s.queue.tail s.queue.head) ≡ false =
          ground arith in
        rw (test, at_rest, test) (refl, refl, refl)
    | no full ↦
        let test : leb s.queue.capacity (sub_size s.queue.tail s.queue.head) ≡ true =
          ground arith in
        rw (test, at_rest, test) (refl, refl, refl)
  ]

  -- The turns of a pop without interruption change the queue as `pop` does, and the item that `pop`
  -- returns, if any, is the one received.
  pop_alone :
      s.consumer ≡ waiting
      → let (item, q') = pop fresh s.queue in
        let s' = interleave fresh s (replicate (if is_some item then 4 else 3) consumes) in
        (s'.queue ≡ q')
        × (s'.consumer ≡ waiting)
        × (s'.received ≡ elim item [ none ↦ s.received | some x ↦ s.received ++ x ∷ [] ])
  unfolding pop interleave turn consume
  pop_alone at_rest = elim (Bool-cases (s.queue.head == s.queue.tail)) [
    | inl test ↦ rw (test, at_rest, test) (refl, refl, refl)
    | inr test ↦ rw (test, at_rest, test) (refl, refl, refl)
  ]

module _ {A : Type 0} (fresh : A) (q : Queue A) (v : IsValid q)
    (none_yet : contents fresh q ≡ []) where
  -- On a valid and empty queue, after any interleaving: a push that begins and is not interrupted ends
  -- after four turns, with the item behind the others, if the queue has fewer items than its capacity;
  -- otherwise it ends after three, and changes neither the items nor what was pushed.
  pub push_finishes :
      (ts : List (Turn A)) (x : A)
      → (interleave fresh (start q) ts).producer ≡ idle
      → let s = interleave fresh (start q) ts in
        let (done, items) = offer s.queue.capacity (contents fresh s.queue) x in
        let s' = interleave fresh s (replicate (if done then 4 else 3) (produces x)) in
        (contents fresh s'.queue ≡ items)
        × (s'.producer ≡ idle)
        × (s'.sent ≡ (if done then s.sent ++ x ∷ [] else s.sent))
  push_finishes ts x at_rest =
      let s = interleave fresh (start q) ts in
      let valid =
        (interleave-IsSound fresh ts (start q) (start-IsSound fresh q v none_yet)).valid in
      let same = (push_refines fresh valid x).0 in
      let alone = push_alone fresh s x at_rest in rw (← same) (rw alone.0 refl, alone.1, alone.2)

  -- On a valid and empty queue, after any interleaving: a pop that begins and is not interrupted ends
  -- after four turns, with the oldest item, if there is one, and otherwise after three, and then it
  -- changes neither the items nor what was popped.
  pub pop_finishes :
      (ts : List (Turn A))
      → (interleave fresh (start q) ts).consumer ≡ waiting
      → let s = interleave fresh (start q) ts in
        let (item, items) = poll (contents fresh s.queue) in
        let s' = interleave fresh s (replicate (if is_some item then 4 else 3) consumes) in
        (contents fresh s'.queue ≡ items)
        × (s'.consumer ≡ waiting)
        × (s'.received ≡ elim item [ none ↦ s.received | some x ↦ s.received ++ x ∷ [] ])
  pop_finishes ts at_rest =
      let s = interleave fresh (start q) ts in
      let valid =
        (interleave-IsSound fresh ts (start q) (start-IsSound fresh q v none_yet)).valid in
      let same = (pop_refines fresh valid).0 in
      let alone = pop_alone fresh s at_rest in rw (← same) (rw alone.0 refl, alone.1, alone.2)
