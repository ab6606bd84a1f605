-- ===== src/Tests/Queues.antt =====
-- include/spsc_queue.hpp on a queue of four slots whose counters have just wrapped.
use lloms.Base.{
  ℕ, ◌+◌, ◌*◌, ◌-◌, ◌^◌, ◌≤◌, ◌<◌, ◌≡◌, refl, false, none, some, List, [], ◌∷◌, ◌++◌, arith, min,
  max, length, take, drop,
}
use lloms.Types.{u64_mod}
use lloms.Spsc.{Queue, round_up_loop, round_up_power_of_two, pop_batch, size, is_empty}
use lloms.Spsc.Capacity.{round_up-is_least, round_up_never_ends}
use lloms.Spsc.Valid.{IsValid, contents}
use lloms.Spsc.Drain.{pop_batch_lem}
use lloms.Spsc.History.{Call, puts, gets, run, fifo_run, run_refines}

-- Items 7 and 8, the first under the counter 2 ^ 64 - 1 and the second under 0.
abbrev queue : Queue ℕ
queue = record { capacity = 4; mask = 3; buffer = 8 ∷ 0 ∷ 0 ∷ 7 ∷ []; tail = 1; head = u64_mod - 1 }

queue-IsValid : IsValid queue
queue-IsValid = record {
  exponent = 2;
  small = omega arith;
  power = refl;
  masked = refl;
  slots = refl;
  head_fits = omega arith;
  tail_fits = omega arith;
  within = omega arith;
}

items : contents 0 queue ≡ 7 ∷ 8 ∷ []
items = refl

-- `size` reads 0 there, although the queue holds two items and is not empty.
size_after_wrap : (size queue ≡ 0) × (is_empty queue ≡ false)
unfolding size is_empty
size_after_wrap = (refl, refl)

capacity_for_5 : round_up_power_of_two 5 ≡ some 8
unfolding round_up_power_of_two round_up_loop
capacity_for_5 = refl

pop_batch_lem_example :
    let (n, out', q') = pop_batch 0 queue (5 ∷ []) 1 in
    (n ≡ min (length (contents 0 queue)) 1)
    × (out' ≡ (5 ∷ []) ++ take n (contents 0 queue))
    × (contents 0 q' ≡ drop n (contents 0 queue))
    × IsValid q'
pop_batch_lem_example = pop_batch_lem 0 queue-IsValid (5 ∷ []) 1

abbrev calls : List (Call ℕ)
calls = puts 9 ∷ gets ∷ puts 10 ∷ puts 11 ∷ puts 12 ∷ gets ∷ gets ∷ []

run_refines_example : run 0 queue calls ≡ fifo_run 0 4 (contents 0 queue) calls
run_refines_example = run_refines 0 calls queue-IsValid

abbrev empty : Queue ℕ
empty = record { capacity = 4; mask = 3; buffer = 0 ∷ 0 ∷ 0 ∷ 0 ∷ []; tail = 0; head = 0 }

round_up-is_least_example :
    (k : ℕ) × (k ≤ 63)
    × (round_up_power_of_two 5 ≡ some (2 ^ k))
    × (5 ≤ 2 ^ k)
    × (2 ^ k < 2 * max 5 1)
round_up-is_least_example = round_up-is_least 5 (omega arith)

round_up_never_ends_example : round_up_loop 100 1 (2 ^ 63 + 1) ≡ none
round_up_never_ends_example = round_up_never_ends 100 (2 ^ 63 + 1) (omega arith)
