-- ===== src/Spec/Acceptance.antt =====
-- Which orders are accepted, and the taker of each trade.
use lloms.Base.{
  ltb, not, ◌||◌, ◌&&◌, subst, All, All-append, ◌≡◌, refl, inl, inr, Bool, false, List, [], ◌∷◌,
  arith, Option-cases,
}
use lloms.Types.{is_limit, Side, Order, Trade}
use lloms.Matching.{opposite, match_qty, reduce, make_trade, admit}
use lloms.Spec.{Levels, Book, levels, fill, sweep, submit, has_order}
use lloms.Spec.Valid.{fill-SameButRest}
use lloms.Spec.Priority.{admit-entering}

-- The taker of a trade.
abbrev pub Takes : Side → Order → Trade → Type 0
Takes taker o t =
    (t.taker_order_id ≡ o.order_id) × (t.aggressor_side ≡ taker) × (t.timestamp ≡ o.timestamp)

fill-Takes :
    (taker : Side) (q : List Order) (incoming : Order)
    → All (Takes taker incoming) (fill taker q incoming).trades
unfolding fill make_trade
fill-Takes taker [] incoming = tt
fill-Takes taker (m ∷ q) incoming =
    ground (arith, fill-Takes taker q (reduce (match_qty m incoming) incoming))

sweep-Takes :
    (taker : Side) (ls : Levels) (incoming : Order)
    → All (Takes taker incoming) (sweep taker ls incoming).trades
unfolding sweep
sweep-Takes taker [] incoming = tt
sweep-Takes taker ((p, q) ∷ ls) incoming =
    let f = fill taker q incoming in
    let here = fill-Takes taker q incoming in
    let later : All (Takes taker incoming) (sweep taker ls f.incoming).trades =
      subst (λ o. All (Takes taker o) (sweep taker ls f.incoming).trades)
        (fill-SameButRest taker q incoming) (sweep-Takes taker ls f.incoming) in
    ground (
      arith,
      here,
      later,
      All-append (Takes taker incoming) f.trades (sweep taker ls f.incoming).trades here later,
    )

-- Which orders are accepted: with a quantity, with a price if they are limit orders, and with a new id.
unfoldable pub acceptable : Order → Book → Bool
acceptable o b =
    ltb 0 o.initial_quantity
    && (not (is_limit o.type) || ltb 0 o.price)
    && not (has_order o.order_id b)

pub submit-acceptable : (b : Book) (o : Order) → (submit b o).accepted ≡ acceptable o b
unfolding submit admit acceptable
submit-acceptable b o = ground arith

pub submit-Takes : (b : Book) (o : Order) → All (Takes o.side o) (submit b o).trades
unfolding submit
submit-Takes b o = elim (Option-cases (admit (has_order o.order_id b) o)) [
  | inl e ↦ rw (e, submit) tt
  | inr (o', e) ↦
      let same = (admit-entering (has_order o.order_id b) o o' e).0 in
      rw (e, submit)
        (subst (λ x. All (Takes o.side x) (sweep o.side (levels (opposite o.side) b) o').trades)
          same (sweep-Takes o.side (levels (opposite o.side) b) o'))
]

pub submit-refused :
    (b : Book) (o : Order) → (submit b o).accepted ≡ false → (submit b o).trades ≡ []
unfolding submit
submit-refused b o h = elim (Option-cases (admit (has_order o.order_id b) o)) [
  | inl e ↦ rw (e, submit) refl
  | inr (o', e) ↦ ground (arith, e, h)
]
