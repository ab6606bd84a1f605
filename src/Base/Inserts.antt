-- ===== src/Base/Inserts.antt =====
-- One entry more, at some place of an association list, and what follows for keys and indexes.
use Prim.Native.Nat.{ℕ}
use mathlib.Core.Path.{◌≡◌, refl, sym, ap, ◌∙◌}
use mathlib.Core.Option.{none}
use mathlib.Core.List.{List, [], ◌∷◌, ◌++◌, append_assoc}
use lloms.Base.Lists.{All, All-append}
use lloms.Base.Dict.{lookup, insert, erase}
use lloms.Base.Keys.{
  Distinct, Distinct-remove, Distinct-middle, Indexed, Indexed-erase, Indexed-insert,
}

module _ {ℓ} {V : Type ℓ} where
  -- `grown` is `whole` with one more entry.
  pub record Inserts (k : ℕ) (v : V) (whole grown : List (ℕ × V)) : Type ℓ where
    pub front : List (ℕ × V)
    pub back : List (ℕ × V)
    pub before : whole ≡ front ++ back
    pub after : grown ≡ front ++ (k, v) ∷ back

  pub Inserts-prepend :
      {k : ℕ} {v : V} {m m' : List (ℕ × V)} (xs : List (ℕ × V))
      → Inserts k v m m'
      → Inserts k v (xs ++ m) (xs ++ m')
  Inserts-prepend {k} {v} xs h = record {
    front = xs ++ h.front;
    back = h.back;
    before = ap (◌++◌ xs) h.before ∙ sym (append_assoc xs h.front h.back);
    after = ap (◌++◌ xs) h.after ∙ sym (append_assoc xs h.front ((k, v) ∷ h.back));
  }

  pub Inserts-append :
      {k : ℕ} {v : V} {m m' : List (ℕ × V)} (ys : List (ℕ × V))
      → Inserts k v m m'
      → Inserts k v (m ++ ys) (m' ++ ys)
  Inserts-append {k} {v} ys h = record {
    front = h.front;
    back = h.back ++ ys;
    before = ap (λ m. m ++ ys) h.before ∙ append_assoc h.front h.back ys;
    after = ap (λ m. m ++ ys) h.after ∙ append_assoc h.front ((k, v) ∷ h.back) ys;
  }

  pub Inserts-head : (k : ℕ) (v : V) (m : List (ℕ × V)) → Inserts k v m ((k, v) ∷ m)
  Inserts-head k v m = record { front = []; back = m; before = refl; after = refl }

  pub Inserts-Indexed :
      {k : ℕ} {v : V} {m m' index : List (ℕ × V)}
      → Inserts k v m m'
      → lookup k m ≡ none
      → Indexed index m
      → Indexed (insert k v index) m'
  Inserts-Indexed {k} {v} h new i =
      rw h.after (Indexed-insert k v h.front h.back (rw (← h.before) new) (rw h.before at i))

  pub Inserts-erase :
      {k : ℕ} {v : V} {m m' index : List (ℕ × V)}
      → Inserts k v m m'
      → Indexed index m'
      → Indexed (erase k index) m
  Inserts-erase {k} {v} h i = rw h.before (Indexed-erase k v h.front h.back (rw h.after at i))

  pub Inserts-Distinct :
      {k : ℕ} {v : V} {m m' : List (ℕ × V)}
      → Inserts k v m m'
      → lookup k m ≡ none
      → Distinct m
      → Distinct m'
  Inserts-Distinct {k} {v} h new d =
      rw h.after (Distinct-middle k v h.front h.back (rw (← h.before) new) (rw h.before at d))

  pub Inserts-Distinct_tail :
      {k : ℕ} {v : V} {m m' : List (ℕ × V)} → Inserts k v m m' → Distinct m' → Distinct m
  Inserts-Distinct_tail {k} {v} h d =
      rw h.before (Distinct-remove k v h.front h.back (rw h.after at d)).1

  All-front {κ} :
      (P : ℕ × V → Type κ) (xs ys : List (ℕ × V)) → All P (xs ++ ys) → All P xs × All P ys
  All-front P [] ys h = (tt, h)
  All-front P (x ∷ xs) ys h = let r = All-front P xs ys h.1 in ((h.0, r.0), r.1)

  pub Inserts-All {κ} :
      (P : ℕ × V → Type κ) {k : ℕ} {v : V} {m m' : List (ℕ × V)}
      → Inserts k v m m'
      → P (k, v)
      → All P m
      → All P m'
  Inserts-All P h p a =
      let parts = All-front P h.front h.back (rw h.before at a) in
      rw h.after (All-append P h.front _ parts.0 (p, parts.1))

  pub Inserts-All_tail {κ} :
      (P : ℕ × V → Type κ) {k : ℕ} {v : V} {m m' : List (ℕ × V)}
      → Inserts k v m m'
      → All P m'
      → All P m
  Inserts-All_tail P {k} {v} h a =
      let parts = All-front P h.front ((k, v) ∷ h.back) (rw h.after at a) in
      rw h.before (All-append P h.front h.back parts.0 parts.1.1)
