-- ===== src/Base/Masks.antt =====
-- `x & (2 ^ k - 1)` and remainders by powers of two.
use Prim.Native.Nat.{
  ℕ, zero, suc, ◌+◌, ◌-◌, ◌*◌, ◌/◌, ◌%◌, ◌^◌, ◌≤◌, ◌<◌, ◌∣◌, min, bit_and, digits, bit_and-bitwise,
}
use mathlib.Core.Path.{◌≡◌, sym, ap, ◌∙◌}
use native.Mathlib.Omega.{arith}
use native.Mathlib.Nat.{
  pow-suc, one-le-pow, dvd_refl, dvd-mul_right_of_dvd, mod-mod_of_dvd, zero-mod, div-add-mod',
  add-mul-mod_self_right, mod-eq_of_lt, mod-lt,
}

-- The lowest digit of a remainder by twice `p`.
mod_double : (x p : ℕ) → 0 < p → x % (p * 2) ≡ (x / 2) % p * 2 + x % 2
mod_double x p h =
    let q = x / 2 / p in
    let r = (x / 2) % p in
    let whole : x ≡ (r * 2 + x % 2) + q * (p * 2) =
      omega (arith, ap (λ (n : ℕ). n * 2) (div-add-mod' (x / 2) p)) in
    ap (λ n. n % (p * 2)) whole
    ∙ (add-mul-mod_self_right (r * 2 + x % 2) q (p * 2)
        ∙ mod-eq_of_lt (omega (arith, mod-lt (x / 2) h)))

-- The digit by digit minimum against `k` ones is the remainder.
digits_ones : (fuel k a : ℕ) → a ≤ fuel → digits (λ b. zero) min fuel a (2 ^ k - 1) ≡ a % 2 ^ k
digits_ones zero k zero h = sym (zero-mod (2 ^ k))
digits_ones zero k (suc a) h = absurd (omega arith)
digits_ones (suc fuel) k zero h = sym (zero-mod (2 ^ k))
digits_ones (suc fuel) zero (suc a) h =
    omega (arith, digits_ones fuel zero (suc a / 2) (omega arith))
digits_ones (suc fuel) (suc k) (suc a) h =
    let pos : 0 < 2 ^ k = one-le-pow k 2 (omega arith) in
    let half : (2 ^ suc k - 1) / 2 ≡ 2 ^ k - 1 = omega (arith, pow-suc 2 k) in
    let odd : (2 ^ suc k - 1) % 2 ≡ 1 = omega (arith, pow-suc 2 k) in
    let low = digits_ones fuel k (suc a / 2) (omega arith) in
    rw (half, odd, low, pow-suc 2 k) (omega (arith, mod_double (suc a) (2 ^ k) pos))

pub bit_and_mask : (k a : ℕ) → bit_and a (2 ^ k - 1) ≡ a % 2 ^ k
bit_and_mask k a = bit_and-bitwise a (2 ^ k - 1) ∙ digits_ones a k a (omega arith)

dvd-pow_add : (k d : ℕ) → 2 ^ k ∣ 2 ^ (d + k)
dvd-pow_add k zero = let e : 0 + k ≡ k = omega arith in rw e (dvd_refl (2 ^ k))
dvd-pow_add k (suc d) =
    let e : suc d + k ≡ suc (d + k) = omega arith in
    rw (e, pow-suc 2 (d + k)) (dvd-mul_right_of_dvd (2 ^ k) (dvd-pow_add k d) 2)

-- A counter of 64 bits keeps its remainders by smaller powers of two when it wraps.
pub mod-mod_pow : (k x : ℕ) → k ≤ 64 → (x % 2 ^ 64) % 2 ^ k ≡ x % 2 ^ k
mod-mod_pow k x h =
    let e : 64 - k + k ≡ 64 = omega arith in
    mod-mod_of_dvd (2 ^ k) x (rw e at (dvd-pow_add k (64 - k)))
