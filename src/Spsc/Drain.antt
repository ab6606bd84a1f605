-- ===== src/Spsc/Drain.antt =====
-- pop and pop_batch of include/spsc_queue.hpp against a bounded FIFO.
use lloms.Base.{
  ℕ, zero, suc, ◌+◌, ◌-◌, ◌%◌, ◌≤◌, ◌<◌, ◌≡◌, ◌≢◌, refl, ap, ap₂, sym, ◌∙◌, true, false, List, ◌∷◌,
  ◌++◌, append-nil, arith, min, ltb, ◌==◌, if◌then◌else◌, get_or, take, drop, length,
}
use native.Mathlib.Decide.{dec_lt}
use lloms.Types.{u64_mod}
use lloms.Spsc.{Queue, pop, pop_batch, read_slots}
use lloms.Spsc.Valid.{IsValid, count, window, window-mod, contents}
use lloms.Spsc.Refine.{poll, capacity_bounds, slot_index, wrap, length-contents}

module _ {A : Type 0} (fresh : A) {q : Queue A} (v : IsValid q) where
  -- The items from the counter `head + n` on, with the head moved there.
  module _ (n : ℕ) (there : n ≤ count q) where
    abbrev pub popped : Queue A
    popped = record q { head = (q.head + n) % u64_mod }

    pub count-popped : count popped ≡ count q - n
    count-popped = omega (arith, v.head_fits, v.tail_fits, v.within, capacity_bounds fresh v)

    pub contents-popped :
        contents fresh popped ≡ window fresh q.buffer q.capacity (q.head + n) (count q - n)
    contents-popped = rw count-popped (
        window-mod fresh q.buffer q.capacity _ (q.head + n) (count q - n)
          (wrap fresh v (q.head + n)))

    pub popped-IsValid : IsValid popped
    popped-IsValid = record {
      exponent = v.exponent;
      small = v.small;
      power = v.power;
      masked = v.masked;
      slots = v.slots;
      head_fits = omega arith;
      tail_fits = v.tail_fits;
      within = omega (arith, count-popped, v.within);
    }

  pub window_pos :
      (h n : ℕ)
      → 0 < n
      → window fresh q.buffer q.capacity h n
        ≡ get_or q.buffer (h % q.capacity) fresh ∷ window fresh q.buffer q.capacity (h + 1) (n - 1)
  window_pos h zero p = absurd (omega arith)
  window_pos h (suc n) p =
      ap (λ k. get_or q.buffer (h % q.capacity) fresh ∷ window fresh q.buffer q.capacity (h + 1) k)
        (omega arith)

  -- On a valid queue pop answers and changes the items as the FIFO does, and keeps the invariant.
  pub pop_refines :
      let (item, q') = pop fresh q in
      ((item, contents fresh q') ≡ poll (contents fresh q)) × IsValid q'
  unfolding pop poll
  pop_refines = elim (dec_lt 0 (count q)) [
    | yes more ↦
        let differ : q.head ≢ q.tail = omega (arith, v.head_fits, v.tail_fits) in
        let test : (q.head == q.tail) ≡ false = ground arith in
        rw (test, pop)
          (
            rw (
              contents-popped 1 more,
              window_pos q.head (count q) more,
              slot_index fresh v q.head,
            ),
            popped-IsValid 1 more,
          )
    | no none_left ↦
        let same : q.head ≡ q.tail =
          omega (arith, v.head_fits, v.tail_fits, v.within, capacity_bounds fresh v) in
        let test : (q.head == q.tail) ≡ true = ground arith in
        let nothing : count q ≡ 0 = omega arith in rw (test, pop) (rw nothing, v)
  ]

  read_slots-window :
      (i n : ℕ) → read_slots fresh q i n ≡ window fresh q.buffer q.capacity (q.head + i) n
  unfolding read_slots
  read_slots-window i zero = refl
  read_slots-window i (suc n) =
      let e : q.head + (i + 1) ≡ q.head + i + 1 = omega arith in
      ap₂ ◌∷◌ (ap (λ j. get_or q.buffer j fresh) (slot_index fresh v _ ∙ wrap fresh v (q.head + i)))
        (rw (← e) (read_slots-window (i + 1) n))

  take-window :
      (h n m : ℕ)
      → n ≤ m
      → take n (window fresh q.buffer q.capacity h m) ≡ window fresh q.buffer q.capacity h n
  take-window h zero m le = refl
  take-window h (suc n) zero le = absurd (omega arith)
  take-window h (suc n) (suc m) le =
      ap (◌∷◌ (get_or q.buffer (h % q.capacity) fresh)) (take-window (h + 1) n m (omega arith))

  drop-window :
      (h n m : ℕ)
      → n ≤ m
      → drop n (window fresh q.buffer q.capacity h m)
        ≡ window fresh q.buffer q.capacity (h + n) (m - n)
  drop-window h zero m le =
      let e : h + 0 ≡ h = omega arith in let e' : m - 0 ≡ m = omega arith in rw (e, e')
  drop-window h (suc n) zero le = absurd (omega arith)
  drop-window h (suc n) (suc m) le =
      let e : h + 1 + n ≡ h + suc n = omega arith in
      let e' : suc m - suc n ≡ m - n = omega arith in
      rw (← e, e') (drop-window (h + 1) n m (omega arith))

  -- From a valid queue pop_batch takes the oldest items, `max_items` of them if there are so many,
  -- appends them in order to what it is given, leaves the rest, and keeps the invariant.
  pub pop_batch_lem :
      (out : List A) (max_items : ℕ)
      → let (n, out', q') = pop_batch fresh q out max_items in
        (n ≡ min (length (contents fresh q)) max_items)
        × (out' ≡ out ++ take n (contents fresh q))
        × (contents fresh q' ≡ drop n (contents fresh q))
        × IsValid q'
  unfolding pop_batch
  pop_batch_lem out max_items = elim (dec_lt 0 (count q)) [
    | yes more ↦
        let test : (count q == 0) ≡ false = ground arith in
        let n = if ltb (count q) max_items then count q else max_items in
        let least : n ≡ min (count q) max_items = ground arith in
        let le : n ≤ count q = omega arith in
        let start : q.head + 0 ≡ q.head = omega arith in
        rw (test, pop_batch)
          (
            rw (length-contents fresh v) least,
            ap (◌++◌ out)
                (read_slots-window 0 n ∙ rw start (sym (take-window q.head n (count q) le))),
            contents-popped n le ∙ sym (drop-window q.head n (count q) le),
            popped-IsValid n le,
          )
    | no nothing ↦
        let e : count q ≡ 0 = omega arith in
        let test : (count q == 0) ≡ true = ground arith in
        rw (test, pop_batch)
          (rw (length-contents fresh v, e) (omega arith), sym (append-nil out), refl, v)
  ]
