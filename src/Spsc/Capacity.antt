-- ===== src/Spsc/Capacity.antt =====
-- round_up_power_of_two of include/spsc_queue.hpp.
use lloms.Base.{
  ℕ, zero, suc, ◌+◌, ◌*◌, ◌%◌, ◌^◌, ◌≤◌, ◌<◌, ◌≡◌, refl, none, some, arith, max, sym, ap, ◌∙◌,
}
use native.Mathlib.Nat.{pow-suc, pow-le-pow_right}
use native.Mathlib.Decide.{dec_lt}
use lloms.Types.{u64_mod}
use lloms.Spsc.{round_up_loop, round_up_power_of_two}

loop_on :
    (fuel p val : ℕ)
    → p < val
    → round_up_loop (suc fuel) p val ≡ round_up_loop fuel (p * 2 % u64_mod) val
unfolding round_up_loop
loop_on fuel p val h = ground arith

loop_off : (fuel p val : ℕ) → val ≤ p → round_up_loop (suc fuel) p val ≡ some p
unfolding round_up_loop
loop_off fuel p val h = ground arith

-- The shift of a power of two below the highest bit.
shift : (k : ℕ) → k < 63 → 2 ^ k * 2 % u64_mod ≡ 2 ^ suc k
shift k h =
    let bound : 2 ^ k ≤ 2 ^ 62 =
      pow-le-pow_right {n = 2} (omega arith) {i = k} {j = 62} (omega arith) in
    omega (arith, pow-suc 2 k)

-- What the loop finds: the least power of two that is not below `val`.
pub record RoundsUp (fuel power val : ℕ) : Type 0 where
  pub exponent : ℕ
  pub small : exponent ≤ 63
  pub result : round_up_loop fuel power val ≡ some (2 ^ exponent)
  pub enough : val ≤ 2 ^ exponent
  pub least : (j : ℕ) → val ≤ 2 ^ j → exponent ≤ j

-- Nothing below the exponent `k` is enough.
abbrev NoneBelow : ℕ → ℕ → Type 0
NoneBelow k val = (j : ℕ) → val ≤ 2 ^ j → k ≤ j

NoneBelow-suc : (k val : ℕ) → 2 ^ k < val → NoneBelow k val → NoneBelow (suc k) val
NoneBelow-suc k val h low j e = elim (dec_lt k j) [
  | yes p ↦ p
  | no p ↦ let same : j ≡ k = omega (arith, low j e) in absurd (omega (arith, ap (λ i. 2 ^ i) same))
]

stops : (fuel k val : ℕ) → k ≤ 63 → val ≤ 2 ^ k → NoneBelow k val → RoundsUp (suc fuel) (2 ^ k) val
stops fuel k val s e low = record {
  exponent = k;
  small = s;
  result = loop_off fuel (2 ^ k) val e;
  enough = e;
  least = low;
}

goes_on :
    (fuel k val : ℕ)
    → k < 63
    → 2 ^ k < val
    → RoundsUp fuel (2 ^ suc k) val
    → RoundsUp (suc fuel) (2 ^ k) val
goes_on fuel k val s h r = record {
  exponent = r.exponent;
  small = r.small;
  result = loop_on fuel (2 ^ k) val h ∙ rw (shift k s) r.result;
  enough = r.enough;
  least = r.least;
}

loop-RoundsUp :
    (rounds k val : ℕ)
    → k + rounds ≡ 63
    → val ≤ 2 ^ 63
    → NoneBelow k val
    → RoundsUp (suc rounds) (2 ^ k) val
loop-RoundsUp zero k val s fits low =
    let top : k ≡ 63 = omega arith in
    stops zero k val (omega arith) (omega (arith, ap (λ i. 2 ^ i) top)) low
loop-RoundsUp (suc n) k val s fits low = elim (dec_lt (2 ^ k) val) [
  | no h ↦ stops (suc n) k val (omega arith) (omega arith) low
  | yes h ↦
      goes_on (suc n) k val (omega arith) h
        (loop-RoundsUp n (suc k) val (omega arith) fits (NoneBelow-suc k val h low))
]

more_fuel :
    (fuel p val c : ℕ) → round_up_loop fuel p val ≡ some c → round_up_loop (suc fuel) p val ≡ some c
unfolding round_up_loop
more_fuel zero p val c e = absurd (cc)
more_fuel (suc n) p val c e = elim (dec_lt p val) [
  | no h ↦ loop_off (suc n) p val (omega arith) ∙ (sym (loop_off n p val (omega arith)) ∙ e)
  | yes h ↦
      loop_on (suc n) p val h ∙ more_fuel n (p * 2 % u64_mod) val c (sym (loop_on n p val h) ∙ e)
]

twice : (val k : ℕ) → NoneBelow k val → 2 ^ k < 2 * max val 1
twice val zero low = omega arith
twice val (suc k) low = elim (dec_lt (2 ^ k) val) [
  | yes h ↦ omega (arith, pow-suc 2 k)
  | no h ↦ absurd (omega (arith, low k (omega arith)))
]

-- Up to 2 ^ 63 the loop ends with a power of two that is at least the wanted capacity and less than
-- twice it (twice 1, if 0 is wanted).
pub round_up-is_least :
    (val : ℕ)
    → val ≤ 2 ^ 63
    → (k : ℕ) × (k ≤ 63)
      × (round_up_power_of_two val ≡ some (2 ^ k))
      × (val ≤ 2 ^ k)
      × (2 ^ k < 2 * max val 1)
unfolding round_up_power_of_two
round_up-is_least val fits =
    let r = loop-RoundsUp 63 0 val refl fits (λ j e. omega arith) in
    (
      r.exponent,
      r.small,
      more_fuel 64 1 val (2 ^ r.exponent) r.result,
      r.enough,
      twice val r.exponent r.least,
    )

zero_forever : (fuel val : ℕ) → 0 < val → round_up_loop fuel 0 val ≡ none
zero_forever zero val h = unfold round_up_loop in refl
zero_forever (suc n) val h = loop_on n 0 val h ∙ zero_forever n val h

powers_forever :
    (fuel d k val : ℕ) → k + d ≡ 63 → 2 ^ 63 < val → round_up_loop fuel (2 ^ k) val ≡ none
powers_forever zero d k val s h = unfold round_up_loop in refl
powers_forever (suc n) zero k val s h =
    let top : k ≡ 63 = omega arith in
    rw top (loop_on n (2 ^ 63) val h ∙ zero_forever n val (omega arith))
powers_forever (suc n) (suc d) k val s h =
    let bound : 2 ^ k ≤ 2 ^ 63 =
      pow-le-pow_right {n = 2} (omega arith) {i = k} {j = 63} (omega arith) in
    loop_on n (2 ^ k) val (omega arith)
    ∙ rw (shift k (omega arith)) (powers_forever n d (suc k) val (omega arith) h)

-- For a capacity above 2 ^ 63 the loop does not end, whatever the fuel.
pub round_up_never_ends : (fuel val : ℕ) → 2 ^ 63 < val → round_up_loop fuel 1 val ≡ none
round_up_never_ends fuel val h = powers_forever fuel 63 0 val refl h
