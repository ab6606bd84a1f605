-- ===== src/Base/SortedMap.antt =====
-- `std::map` with unsigned integer keys, as an association list in the order of its comparator:
-- `begin` is the head, `find`, `m[k]` followed by a change of the value, and `erase`.
use Prim.Native.Nat.{ℕ}
use mathlib.Core.Bool.{Bool}
use mathlib.Core.Option.{Option, none, some}
use mathlib.Core.List.{List, [], ◌∷◌}
use lloms.Base.Tests.{◌==◌, if◌then◌else◌}

module _ {ℓ} {V : Type ℓ} where
  unfoldable pub find : ℕ → List (ℕ × V) → Option V
  find k [] = none
  find k ((j, v) ∷ m) = if j == k then some v else find k m

  -- `auto& v = m[k]; v = change(v)`, where a missing key is first given the value `fresh`.
  unfoldable pub update :
      (before : ℕ → ℕ → Bool) (k : ℕ) (fresh : V) (change : V → V) → List (ℕ × V) → List (ℕ × V)
  update before k fresh change [] = (k, change fresh) ∷ []
  update before k fresh change ((j, v) ∷ m) =
      if j == k
      then (j, change v) ∷ m
      else if before k j
      then (k, change fresh) ∷ (j, v) ∷ m
      else (j, v) ∷ update before k fresh change m

  -- `it->second = change(it->second)` at a key that is there.
  unfoldable pub modify : ℕ → (V → V) → List (ℕ × V) → List (ℕ × V)
  modify k change [] = []
  modify k change ((j, v) ∷ m) = if j == k then (j, change v) ∷ m else (j, v) ∷ modify k change m

  unfoldable pub erase : ℕ → List (ℕ × V) → List (ℕ × V)
  erase k [] = []
  erase k ((j, v) ∷ m) = if j == k then m else (j, v) ∷ erase k m
