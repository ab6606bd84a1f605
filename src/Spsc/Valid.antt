-- ===== src/Spsc/Valid.antt =====
-- The invariant of the queue of include/spsc_queue.hpp, and the items that it holds.
use lloms.Base.{
  ℕ, zero, suc, ◌+◌, ◌-◌, ◌%◌, ◌^◌, ◌≤◌, ◌<◌, ◌≡◌, refl, ap, ap₂, sym, ◌∙◌, ◌≢◌, get_or-set_ne,
  get_or-set_self, List, [], ◌∷◌, ◌++◌, arith, get_or, set, length,
}
use native.Mathlib.Nat.{mod-lt, mod-add-mod, mod-eq_of_lt, mod-eq-sub-mod}
use native.Mathlib.Decide.{dec_lt}
use lloms.Types.{u64_mod}
use lloms.Spsc.{Queue, sub_size}

-- The counters run freely modulo 2 ^ 64; their difference is the number of items.
abbrev pub count : {A : Type 0} → Queue A → ℕ
count q = sub_size q.tail q.head

pub record IsValid {A : Type 0} (q : Queue A) : Type 0 where
  pub exponent : ℕ
  pub small : exponent ≤ 63
  pub power : q.capacity ≡ 2 ^ exponent
  pub masked : q.mask ≡ 2 ^ exponent - 1
  pub slots : length q.buffer ≡ q.capacity
  pub head_fits : q.head < u64_mod
  pub tail_fits : q.tail < u64_mod
  pub within : count q ≤ q.capacity

module _ {A : Type 0} (fresh : A) (buffer : List A) (capacity : ℕ) where
  -- The `n` items from the counter value `h` on.
  abbrev pub window : ℕ → ℕ → List A
  window h zero = []
  window h (suc n) = get_or buffer (h % capacity) fresh ∷ window (h + 1) n

  pub length-window : (h n : ℕ) → length (window h n) ≡ n
  length-window h zero = refl
  length-window h (suc n) = ap suc (length-window (h + 1) n)

  pub window_snoc :
      (h n : ℕ) → window h (suc n) ≡ window h n ++ get_or buffer ((h + n) % capacity) fresh ∷ []
  window_snoc h zero =
      let e : h ≡ h + 0 = omega arith in ap (λ i. get_or buffer (i % capacity) fresh ∷ []) e
  window_snoc h (suc n) =
      let e : h + 1 + n ≡ h + suc n = omega arith in rw (window_snoc (h + 1) n, e)

  -- Only the remainder of the counter matters.
  pub window-mod : (h i n : ℕ) → h % capacity ≡ i % capacity → window h n ≡ window i n
  window-mod h i zero e = refl
  window-mod h i (suc n) e =
      ap₂ ◌∷◌ (ap (λ j. get_or buffer j fresh) e) (window-mod (h + 1) (i + 1) n next)
    where
      next : (h + 1) % capacity ≡ (i + 1) % capacity
      next =
          sym (mod-add-mod h capacity 1)
          ∙ (ap (λ j. (j + 1) % capacity) e ∙ mod-add-mod i capacity 1)

-- Two counter values that are less than the capacity apart have different slots.
pub mod-ne : (c h m : ℕ) → 0 < m → m < c → (h + m) % c ≢ h % c
mod-ne c h m pos lt =
    let a = h % c in
    let bound : a < c = mod-lt h (omega arith) in
    let moved : (a + m) % c ≡ (h + m) % c = mod-add-mod h c m in
    elim (dec_lt (a + m) c) [
      | yes p ↦ omega (arith, moved, mod-eq_of_lt p)
      | no p ↦ omega (
        arith,
        moved,
        mod-eq-sub-mod {n = a + m} {m = c} (omega arith),
        mod-eq_of_lt {n = a + m - c} {m = c} (omega arith),
      )
    ]

module _ {A : Type 0} (fresh : A) (buffer : List A) (c : ℕ) (x : A) where
  -- A write to a slot outside the window leaves it as it was.
  pub window-set_outside :
      (h n i m : ℕ)
      → i ≡ (h + m) % c
      → n ≤ m
      → m < c
      → window fresh (set buffer i x) c h n ≡ window fresh buffer c h n
  window-set_outside h zero i m e le lt = refl
  window-set_outside h (suc n) i (suc m) e le lt =
      ap₂ ◌∷◌ (get_or-set_ne buffer i (h % c) x fresh (rw e (mod-ne c h (suc m) (omega arith) lt)))
        (window-set_outside (h + 1) n i m (e ∙ ap (λ j. j % c) (omega arith)) (omega arith)
          (omega arith))
  window-set_outside h (suc n) i zero e le lt = absurd (omega arith)

  -- A write just behind the window extends it.
  pub window-set :
      (h n i : ℕ)
      → i ≡ (h + n) % c
      → i < length buffer
      → n < c
      → window fresh (set buffer i x) c h (suc n) ≡ window fresh buffer c h n ++ x ∷ []
  window-set h n i e inside lt = rw (
    window_snoc fresh (set buffer i x) c h n,
    window-set_outside h n i n e (omega arith) lt,
    ← e,
    get_or-set_self buffer i x fresh inside,
  )

-- The items, oldest first.
abbrev pub contents : {A : Type 0} → A → Queue A → List A
contents fresh q = window fresh q.buffer q.capacity q.head (count q)
