-- ===== src/Spec/Sides.antt =====
-- One side of the abstract book: what a sweep leaves behind the taker's price, and a new order in its
-- place.
use lloms.Base.{
  ℕ, ◌<◌, ◌≡◌, refl, sym, ap, ◌∙◌, inl, inr, true, false, List, [], ◌∷◌, ◌++◌, arith, All,
  All-append, is_nil, Bool-cases, ◌==◌, ==_iff,
}
use lloms.Base.SortedMap
use lloms.Types.{Side, buy, sell, Order, is_limit}
use lloms.Matching.{before, misses, opposite, is_blocked}
use lloms.Spec.{Levels, fill, sweep, enqueue}
use lloms.Spec.Fill.{fill-exhausts}
use lloms.Spec.Valid.{IsResting, IsLevel, Behind, IsSide, fill-SameButRest}

misses-Behind :
    (taker : Side) (price p : ℕ) (ls : Levels)
    → misses taker price p ≡ true
    → Behind (opposite taker) p ls
    → All (λ l. misses taker price l.0 ≡ true) ls
misses-Behind taker price p [] h b = tt
misses-Behind buy price p ((p', q) ∷ ls) h b =
    (ground (arith, b.0), misses-Behind buy price p ls h b.1)
misses-Behind sell price p ((p', q) ∷ ls) h b =
    (ground (arith, b.0), misses-Behind sell price p ls h b.1)

-- A limit taker with something left over has not reached the price of any level that is left.
sweep-misses_at :
    (taker : Side) (price : ℕ) (ls : Levels) (incoming : Order)
    → incoming.price ≡ price
    → IsSide (opposite taker) ls
    → is_limit incoming.type ≡ true
    → 0 < (sweep taker ls incoming).incoming.remaining_quantity
    → All (λ l. misses taker price l.0 ≡ true) (sweep taker ls incoming).levels
unfolding sweep is_blocked
sweep-misses_at taker price [] incoming e v limited left = tt
sweep-misses_at taker price ((p, q) ∷ ls) incoming e v limited left =
    let f = fill taker q incoming in
    let same = fill-SameButRest taker q incoming in
    ground (
      arith,
      left,
      v,
      same,
      fill-exhausts taker q incoming,
      misses-Behind taker price p ls,
      sweep-misses_at taker price ls f.incoming (ap (λ (o : Order). o.price) same ∙ e) v.2
          (ap (λ (o : Order). is_limit o.type) same ∙ limited),
    )

-- A limit taker with something left over has not reached the price of any level that is left.
pub sweep-misses :
    (taker : Side) (ls : Levels) (incoming : Order)
    → IsSide (opposite taker) ls
    → is_limit incoming.type ≡ true
    → 0 < (sweep taker ls incoming).incoming.remaining_quantity
    → All (λ l. misses taker incoming.price l.0 ≡ true) (sweep taker ls incoming).levels
sweep-misses taker ls incoming = sweep-misses_at taker incoming.price ls incoming refl

pub enqueue-All {ℓ} :
    (P : ℕ → Type ℓ) (side : Side) (o : Order) (ls : Levels)
    → P o.price
    → All (λ l. P l.0) ls
    → All (λ l. P l.0) (enqueue side o ls)
unfolding SortedMap.update
enqueue-All P side o [] p h = (p, tt)
enqueue-All P side o ((j, q) ∷ ls) p h = ground (arith, p, h, enqueue-All P side o ls p h.1)

IsLevel-snoc :
    (side : Side) (p : ℕ) (q : List Order) (o : Order)
    → IsLevel side p q
    → IsResting side p o
    → IsLevel side p (q ++ o ∷ [])
IsLevel-snoc side p q o v r = record {
  filled = is_nil-snoc q;
  orders = All-append _ q (o ∷ []) v.orders (r, tt);
}
  where
    is_nil-snoc : (q : List Order) → is_nil (q ++ o ∷ []) ≡ false
    is_nil-snoc [] = refl
    is_nil-snoc (x ∷ q) = refl

before-Behind :
    (side : Side) (p q : ℕ) (ls : Levels)
    → before side p q ≡ true
    → Behind side q ls
    → Behind side p ls
before-Behind side p q [] h b = tt
before-Behind buy p q (l ∷ ls) h b = (ground (arith, b.0), before-Behind buy p q ls h b.1)
before-Behind sell p q (l ∷ ls) h b = (ground (arith, b.0), before-Behind sell p q ls h b.1)

before_total :
    (side : Side) (p q : ℕ) → (p == q) ≡ false → before side q p ≡ false → before side p q ≡ true
before_total buy p q h k = ground arith
before_total sell p q h k = ground arith

pub enqueue-IsSide :
    (side : Side) (o : Order) (ls : Levels)
    → IsResting side o.price o
    → IsSide side ls
    → IsSide side (enqueue side o ls)
unfolding SortedMap.update
enqueue-IsSide side o [] r v = (record { filled = refl; orders = (r, tt) }, tt, tt)
enqueue-IsSide side o ((j, q) ∷ ls) r v = elim (Bool-cases (j == o.price)) [
  | inl same ↦
      rw same
        (IsLevel-snoc side j q o v.0 (sym ((==_iff j o.price).0 same), r.1, r.2, r.3), v.1, v.2)
  | inr other ↦ rw other (elim (Bool-cases (before side o.price j)) [
    | inl first ↦ rw first (
      record { filled = refl; orders = (r, tt) },
      (first, before-Behind side o.price j ls first v.1),
      v,
    )
    | inr later ↦ rw later (
      v.0,
      enqueue-All (λ p. before side j p ≡ true) side o ls (before_total side j o.price other later)
          v.1,
      enqueue-IsSide side o ls r v.2,
    )
  ])
]
