-- ===== src/Spsc.antt =====
-- include/spsc_queue.hpp: the bounded queue between one producer and one consumer. Each function reads
-- its two counters once and writes one of them at its end, so a call is a function of the state.
pub mod Capacity
pub mod Valid
pub mod Refine
pub mod Drain
pub mod History
pub mod Bounds
pub mod Threads
pub mod Interleaved
pub mod Turns
pub mod Delivery
use Prim.Native.Nat.{bit_and}
use lloms.Base.{
  ℕ, zero, suc, ◌+◌, ◌-◌, ◌*◌, ◌%◌, Bool, true, false, Option, none, some, List, [], ◌∷◌, ◌++◌, ltb,
  leb, ◌==◌, if◌then◌else◌, get_or, set, replicate,
}
use lloms.Types.{u64_mod}

-- `a - b` of two `size_t`.
abbrev pub sub_size : ℕ → ℕ → ℕ
sub_size a b = (a + u64_mod - b) % u64_mod

-- `while (power < val) power <<= 1;`, on fuel; `none` means that the fuel ran out.
unfoldable pub round_up_loop : ℕ → ℕ → ℕ → Option ℕ
round_up_loop zero power val = none
round_up_loop (suc fuel) power val =
    let rest = round_up_loop fuel (power * 2 % u64_mod) val in
    if ltb power val then rest else some power

unfoldable pub round_up_power_of_two : ℕ → Option ℕ
unfolding round_up_loop
round_up_power_of_two val = round_up_loop 65 1 val

pub record Queue (A : Type 0) : Type 0 where
  pub capacity : ℕ
  pub mask : ℕ
  pub buffer : List A
  pub tail : ℕ
  pub head : ℕ

module _ {A : Type 0} where
  -- The constructor. `buffer_(capacity_)` holds value-initialised items.
  unfoldable pub init : A → ℕ → Option (Queue A)
  init fresh wanted = elim (round_up_power_of_two wanted) [
    | none ↦ none
    | some capacity ↦ some (record {
      capacity = capacity;
      mask = sub_size capacity 1;
      buffer = replicate capacity fresh;
      tail = 0;
      head = 0;
    })
  ]

  -- Both overloads of `push`: one copies the item and one moves it.
  unfoldable pub push : Queue A → A → Bool × Queue A
  push q item = if leb q.capacity (sub_size q.tail q.head) then (false, q) else (
    true,
    record q { buffer = set q.buffer (bit_and q.tail q.mask) item; tail = (q.tail + 1) % u64_mod },
  )

module _ {A : Type 0} (fresh : A) where
  -- `buffer_[i]`; `fresh` is what a read out of range gives.
  abbrev pub slot : Queue A → ℕ → A
  slot q i = get_or q.buffer (bit_and i q.mask) fresh

  unfoldable pub pop : Queue A → Option A × Queue A
  pop q =
      if q.head == q.tail
      then (none, q)
      else (some (slot q q.head), record q { head = (q.head + 1) % u64_mod })

  -- `for (i = …; i < count; ++i) out_items.push_back(buffer_[(current_head + i) & mask_])`, with the
  -- number of rounds left.
  unfoldable pub read_slots : Queue A → ℕ → ℕ → List A
  read_slots q i zero = []
  read_slots q i (suc n) = slot q ((q.head + i) % u64_mod) ∷ read_slots q (i + 1) n

  -- The count that is returned, the items appended to `out_items`, and the queue.
  unfoldable pub pop_batch : Queue A → List A → ℕ → ℕ × List A × Queue A
  unfolding read_slots
  pop_batch q out max_items =
      let available = sub_size q.tail q.head in
      let count = if ltb available max_items then available else max_items in
      if available == 0
      then (0, out, q)
      else (count, out ++ read_slots q 0 count, record q { head = (q.head + count) % u64_mod })

module _ {A : Type 0} where
  unfoldable pub size : Queue A → ℕ
  size q = if leb q.head q.tail then q.tail - q.head else 0

  unfoldable pub is_empty : Queue A → Bool
  is_empty q = q.head == q.tail
