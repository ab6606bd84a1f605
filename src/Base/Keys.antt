-- ===== src/Base/Keys.antt =====
-- Association lists in which no key stands twice, and indexes that agree with such a list.
use Prim.Native.Nat.{ℕ}
use mathlib.Core.Path.{◌≡◌, refl, ◌∙◌}
use mathlib.Core.Bool.{◌||◌}
use mathlib.Core.Option.{Option, none, some}
use mathlib.Core.List.{List, [], ◌∷◌, ◌++◌, append-nil}
use native.Mathlib.Omega.{arith}
use lloms.Base.Tests.{◌==◌, if◌then◌else◌, is_some}
use lloms.Base.Dict.{lookup, insert, erase, lookup-insert, lookup-erase}

abbrev pub or_else {ℓ} : {A : Type ℓ} → Option A → Option A → Option A
or_else none y = y
or_else (some x) y = some x

pub is_some-or_else {ℓ} :
    {A : Type ℓ} (x y : Option A) → is_some (or_else x y) ≡ (is_some x || is_some y)
is_some-or_else none y = refl
is_some-or_else (some x) y = refl

module _ {ℓ} {V : Type ℓ} where
  abbrev pub Distinct : List (ℕ × V) → Type ℓ
  Distinct [] = Unit
  Distinct ((k, v) ∷ m) = (lookup k m ≡ none) × Distinct m

  pub lookup-append :
      (k : ℕ) (xs ys : List (ℕ × V)) → lookup k (xs ++ ys) ≡ or_else (lookup k xs) (lookup k ys)
  lookup-append k [] ys = refl
  lookup-append k ((j, v) ∷ xs) ys = ground (arith, lookup-append k xs ys)

  pub Distinct-append : (xs ys : List (ℕ × V)) → Distinct (xs ++ ys) → Distinct xs × Distinct ys
  Distinct-append [] ys d = (tt, d)
  Distinct-append ((k, v) ∷ xs) ys d =
      ground (arith, d, lookup-append k xs ys, Distinct-append xs ys d.1)

  -- An entry with a new key, in the middle.
  pub lookup_middle :
      (k : ℕ) (v : V) (j : ℕ) (xs ys : List (ℕ × V))
      → lookup k (xs ++ ys) ≡ none
      → lookup j (xs ++ (k, v) ∷ ys) ≡ (if k == j then some v else lookup j (xs ++ ys))
  lookup_middle k v j [] ys h = refl
  lookup_middle k v j ((i, w) ∷ xs) ys h = ground (arith, lookup_middle k v j xs ys)

  pub Distinct-remove :
      (k : ℕ) (v : V) (xs ys : List (ℕ × V))
      → Distinct (xs ++ (k, v) ∷ ys)
      → (lookup k (xs ++ ys) ≡ none) × Distinct (xs ++ ys)
  Distinct-remove k v [] ys h = h
  Distinct-remove k v ((i, w) ∷ xs) ys h =
      ground (arith, Distinct-remove k v xs ys h.1, lookup_middle k v i xs ys)

  pub Distinct-middle :
      (k : ℕ) (v : V) (xs ys : List (ℕ × V))
      → lookup k (xs ++ ys) ≡ none
      → Distinct (xs ++ ys)
      → Distinct (xs ++ (k, v) ∷ ys)
  Distinct-middle k v [] ys h d = (h, d)
  Distinct-middle k v ((i, w) ∷ xs) ys h d =
      ground (arith, Distinct-middle k v xs ys, lookup_middle k v i xs ys)

  pub lookup-swap :
      (j : ℕ) (xs ys : List (ℕ × V))
      → Distinct (xs ++ ys)
      → lookup j (xs ++ ys) ≡ lookup j (ys ++ xs)
  lookup-swap j xs [] d = rw append-nil
  lookup-swap j xs ((k, v) ∷ ys) d =
      ground (arith, Distinct-remove k v xs ys d, lookup_middle k v j xs ys, lookup-swap j xs ys)

  pub Distinct-swap : (xs ys : List (ℕ × V)) → Distinct (xs ++ ys) → Distinct (ys ++ xs)
  Distinct-swap xs [] d = rw append-nil at d
  Distinct-swap xs ((k, v) ∷ ys) d =
      ground (arith, Distinct-remove k v xs ys d, lookup-swap k xs ys, Distinct-swap xs ys)

  -- The index finds what the list `m` of all entries holds.
  pub record Indexed (index m : List (ℕ × V)) : Type ℓ where
    pub distinct : Distinct m
    pub agree : (k : ℕ) → lookup k index ≡ lookup k m

  pub Indexed-swap :
      {index : List (ℕ × V)} (xs ys : List (ℕ × V))
      → Indexed index (xs ++ ys)
      → Indexed index (ys ++ xs)
  Indexed-swap xs ys h = record {
    distinct = Distinct-swap xs ys h.distinct;
    agree = λ k. h.agree k ∙ lookup-swap k xs ys h.distinct;
  }

  pub Indexed-erase :
      {index : List (ℕ × V)} (k : ℕ) (v : V) (xs ys : List (ℕ × V))
      → Indexed index (xs ++ (k, v) ∷ ys)
      → Indexed (erase k index) (xs ++ ys)
  Indexed-erase {index} k v xs ys h =
      let r = Distinct-remove k v xs ys h.distinct in
      record {
        distinct = r.1;
        agree =
            λ j. ground (arith, r.0, lookup-erase k j index, h.agree j, lookup_middle k v j xs ys);
      }

  pub Indexed-insert :
      {index : List (ℕ × V)} (k : ℕ) (v : V) (xs ys : List (ℕ × V))
      → lookup k (xs ++ ys) ≡ none
      → Indexed index (xs ++ ys)
      → Indexed (insert k v index) (xs ++ (k, v) ∷ ys)
  Indexed-insert {index} k v xs ys new h = record {
    distinct = Distinct-middle k v xs ys new h.distinct;
    agree =
        λ j. ground (arith, lookup-insert k j v index, h.agree j, lookup_middle k v j xs ys new);
  }
