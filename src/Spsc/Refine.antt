-- ===== src/Spsc/Refine.antt =====
-- push of include/spsc_queue.hpp against a bounded FIFO.
use Prim.Native.Nat.{bit_and}
use lloms.Base.{
  ℕ, suc, ◌+◌, ◌%◌, ◌^◌, ◌≤◌, ◌<◌, ◌≡◌, ap, ◌∙◌, Bool, true, false, Option, none, some, List, [],
  ◌∷◌, ◌++◌, arith, leb, if◌then◌else◌, set, length, length-set,
}
use lloms.Base.Masks.{bit_and_mask, mod-mod_pow}
use native.Mathlib.Nat.{mod-lt, one-le-pow, pow-le-pow_right}
use native.Mathlib.Decide.{dec_lt}
use lloms.Types.{u64_mod}
use lloms.Spsc.{Queue, push}
use lloms.Spsc.Valid.{IsValid, count, length-window, window-set, contents}

-- A queue of at most `cap` items, oldest first.
module _ {A : Type 0} where
  unfoldable pub offer : ℕ → List A → A → Bool × List A
  offer cap xs x = if leb cap (length xs) then (false, xs) else (true, xs ++ x ∷ [])

  unfoldable pub poll : List A → Option A × List A
  poll [] = (none, [])
  poll (x ∷ xs) = (some x, xs)

module _ {A : Type 0} (fresh : A) {q : Queue A} (v : IsValid q) where
  pub capacity_bounds : (0 < q.capacity) × (q.capacity ≤ 2 ^ 63)
  capacity_bounds =
      let low : 1 ≤ 2 ^ v.exponent = one-le-pow v.exponent 2 (omega arith) in
      let high : 2 ^ v.exponent ≤ 2 ^ 63 =
        pow-le-pow_right {n = 2} (omega arith) {i = v.exponent} {j = 63} v.small in
      omega (arith, v.power)

  -- `counter & mask_` is the counter's remainder by the capacity.
  pub slot_index : (i : ℕ) → bit_and i q.mask ≡ i % q.capacity
  slot_index i = rw (v.masked, v.power) (bit_and_mask v.exponent i)

  -- In a valid queue `counter & mask_` lies inside the buffer, whatever the counter.
  pub in_bounds : (i : ℕ) → bit_and i q.mask < length q.buffer
  in_bounds i = rw (slot_index i, v.slots) (mod-lt i capacity_bounds.0)

  -- Wrapping at 2 ^ 64 does not move a slot.
  pub wrap : (i : ℕ) → (i % u64_mod) % q.capacity ≡ i % q.capacity
  wrap i = rw v.power (mod-mod_pow v.exponent i (omega (arith, v.small)))

  pub length-contents : length (contents fresh q) ≡ count q
  length-contents = length-window fresh q.buffer q.capacity q.head (count q)

  pub tail_slot : q.tail % q.capacity ≡ (q.head + count q) % q.capacity
  tail_slot =
      let e : q.tail ≡ (q.head + count q) % u64_mod = omega (arith, v.head_fits, v.tail_fits) in
      ap (λ i. i % q.capacity) e ∙ wrap (q.head + count q)

  -- Not full: the item lands behind the others.
  module _ (x : A) (room : count q < q.capacity) where
    abbrev pushed : Queue A
    pushed = record q {
      buffer = set q.buffer (bit_and q.tail q.mask) x;
      tail = (q.tail + 1) % u64_mod;
    }

    count-pushed : count pushed ≡ suc (count q)
    count-pushed = omega (arith, v.head_fits, v.tail_fits, capacity_bounds)

    contents-pushed : contents fresh pushed ≡ contents fresh q ++ x ∷ []
    contents-pushed = rw count-pushed (
        window-set fresh q.buffer q.capacity x q.head (count q) (bit_and q.tail q.mask)
          (slot_index q.tail ∙ tail_slot) (in_bounds q.tail) room)

    pushed-IsValid : IsValid pushed
    pushed-IsValid = record {
      exponent = v.exponent;
      small = v.small;
      power = v.power;
      masked = v.masked;
      slots = length-set q.buffer (bit_and q.tail q.mask) x ∙ v.slots;
      head_fits = v.head_fits;
      tail_fits = omega arith;
      within = omega (arith, count-pushed);
    }

  -- On a valid queue push answers and changes the items as the bounded FIFO does, and keeps the invariant.
  pub push_refines :
      (x : A)
      → let (done, q') = push q x in
        ((done, contents fresh q') ≡ offer q.capacity (contents fresh q) x) × IsValid q'
  unfolding push offer
  push_refines x = elim (dec_lt (count q) q.capacity) [
    | yes room ↦ ground (arith, length-contents, contents-pushed x room, pushed-IsValid x room)
    | no full ↦ ground (arith, length-contents, v)
  ]
