-- ===== src/Tests/Threads.antt =====
-- Two threads on a queue of two slots of include/spsc_queue.hpp.
use lloms.Base.{
  ℕ, ◌-◌, ◌≤◌, ◌≡◌, refl, List, [], ◌∷◌, ◌++◌, arith, length, replicate, some, none, is_some,
  if◌then◌else◌,
}
use lloms.Types.{u64_mod}
use lloms.Spsc.{Queue}
use lloms.Spsc.Valid.{IsValid, contents}
use lloms.Spsc.Refine.{offer, poll}
use lloms.Spsc.Threads.{
  idle, waiting, System, Turn, produces, consumes, produce, consume, turn, interleave,
}
use lloms.Spsc.Delivery.{start, delivery, push_finishes, pop_finishes}

-- Its counters are one step before the wrap-around.
abbrev queue : Queue ℕ
queue = record {
  capacity = 2;
  mask = 1;
  buffer = 0 ∷ 0 ∷ [];
  tail = u64_mod - 1;
  head = u64_mod - 1;
}

queue-IsValid : IsValid queue
queue-IsValid = record {
  exponent = 1;
  small = omega arith;
  power = refl;
  masked = refl;
  slots = refl;
  head_fits = omega arith;
  tail_fits = omega arith;
  within = omega arith;
}

-- One push is complete, a second stands before its write, and a pop before its read.
abbrev turns : List (Turn ℕ)
turns =
    consumes
    ∷ produces 5
    ∷ produces 5
    ∷ produces 5
    ∷ produces 5
    ∷ produces 6
    ∷ consumes
    ∷ produces 6
    ∷ []

abbrev system : System ℕ
system = interleave 0 (start queue) turns

delivery_example :
    (system.sent ≡ system.received ++ contents 0 system.queue)
    × (length (contents 0 system.queue) ≤ system.queue.capacity)
delivery_example = delivery 0 queue queue-IsValid refl turns

-- The queue has an item, and the consumer is between its accesses.
abbrev earlier : List (Turn ℕ)
earlier = produces 7 ∷ produces 7 ∷ produces 7 ∷ produces 7 ∷ consumes ∷ []

rests :
    ((interleave 0 (start queue) earlier).producer ≡ idle)
    × ((interleave 0 (start queue) (produces 7 ∷ [])).consumer ≡ waiting)
unfolding interleave turn produce consume
rests = (refl, refl)

push_finishes_example :
    let s = interleave 0 (start queue) earlier in
    let (done, items) = offer s.queue.capacity (contents 0 s.queue) 5 in
    let s' = interleave 0 s (replicate (if done then 4 else 3) (produces 5)) in
    (contents 0 s'.queue ≡ items)
    × (s'.producer ≡ idle)
    × (s'.sent ≡ (if done then s.sent ++ 5 ∷ [] else s.sent))
push_finishes_example = push_finishes 0 queue queue-IsValid refl earlier 5 rests.0

pop_finishes_example :
    let s = interleave 0 (start queue) (produces 7 ∷ []) in
    let (item, items) = poll (contents 0 s.queue) in
    let s' = interleave 0 s (replicate (if is_some item then 4 else 3) consumes) in
    (contents 0 s'.queue ≡ items)
    × (s'.consumer ≡ waiting)
    × (s'.received ≡ elim item [ none ↦ s.received | some x ↦ s.received ++ x ∷ [] ])
pop_finishes_example = pop_finishes 0 queue queue-IsValid refl (produces 7 ∷ []) rests.1
