-- ===== src/Spec/Keeps.antt =====
-- `submit` and `cancel` keep the invariant of the abstract book.
use lloms.Base.{
  ℕ, ◌<◌, ◌≡◌, inl, inr, true, List, [], ◌∷◌, arith, All, All-mono, ltb→lt, Bool-cases,
  Option-cases,
}
use lloms.Types.{Side, buy, sell, Order, is_limit}
use lloms.Matching.{admit, before, misses, rests}
use lloms.Spec.{
  Levels, Book, sweep, rest_order, submit_admitted, submit, has_order, drop_order, remove,
  contains_level, cancel,
}
use lloms.Spec.Valid.{
  IsResting, IsSide, Uncrossed, IsValid, sweep-SameButRest, sweep-All, sweep-IsSide,
}
use lloms.Spec.Sides.{sweep-misses, enqueue-All, enqueue-IsSide}

-- The order that rests is the taker with what is left of it.
resting_taker :
    (taker : Side) (ls : Levels) (o : Order)
    → o.side ≡ taker
    → rests (sweep taker ls o).incoming ≡ true
    → let o' = (sweep taker ls o).incoming in
      IsResting taker o'.price o' × (o'.price ≡ o.price) × (is_limit o.type ≡ true)
resting_taker taker ls o e r = ground (arith, sweep-SameButRest taker ls o, e, r)

All-and :
    (P Q : ℕ → Type 0) (ls : Levels)
    → All (λ l. P l.0) ls
    → All (λ l. Q l.0) ls
    → All (λ l. P l.0 × Q l.0) ls
All-and P Q [] h k = tt
All-and P Q (l ∷ ls) h k = ((h.0, k.0), All-and P Q ls h.1 k.1)

submit_buy-IsValid :
    (b : Book) (o : Order) → IsValid b → o.side ≡ buy → IsValid (submit_admitted buy b o).book
unfolding submit_admitted rest_order
submit_buy-IsValid b o v e =
    let s = sweep buy b.asks o in
    let o' = s.incoming in
    let asks = sweep-IsSide buy sell b.asks o v.asks in
    let apart : Uncrossed b.bids s.levels =
      All-mono _ _ b.bids (λ bid. sweep-All (λ p. bid.0 < p) buy b.asks o) v.uncrossed in
    elim (Bool-cases (rests o')) [
      | inl r ↦
          let t = resting_taker buy b.asks o e r in
          let missed =
            All-mono _ _ s.levels (λ l. ltb→lt o.price l.0)
              (sweep-misses buy b.asks o v.asks t.2 (ground (arith, r))) in
          rw r (record {
            bids = enqueue-IsSide buy o' b.bids t.0 v.bids;
            asks = asks;
            uncrossed =
                enqueue-All (λ p. All (λ ask. p < ask.0) s.levels) buy o' b.bids (rw t.1 missed)
                  apart;
          })
      | inr r ↦ rw r (record { bids = v.bids; asks = asks; uncrossed = apart })
    ]

submit_sell-IsValid :
    (b : Book) (o : Order) → IsValid b → o.side ≡ sell → IsValid (submit_admitted sell b o).book
unfolding submit_admitted rest_order
submit_sell-IsValid b o v e =
    let s = sweep sell b.bids o in
    let o' = s.incoming in
    let bids = sweep-IsSide sell buy b.bids o v.bids in
    let apart : Uncrossed s.levels b.asks =
      sweep-All (λ p. All (λ ask. p < ask.0) b.asks) sell b.bids o v.uncrossed in
    elim (Bool-cases (rests o')) [
      | inl r ↦
          let t = resting_taker sell b.bids o e r in
          let missed = sweep-misses sell b.bids o v.bids t.2 (ground (arith, r)) in
          rw r (record {
            bids = bids;
            asks = enqueue-IsSide sell o' b.asks t.0 v.asks;
            uncrossed =
                All-mono _ _ s.levels
                  (λ l h.
                    enqueue-All (λ p. l.0 < p) sell o' b.asks (rw t.1 (ltb→lt l.0 o.price h.0)) h.1)
                  (All-and (λ p. misses sell o.price p ≡ true) (λ p. All (λ ask. p < ask.0) b.asks)
                    s.levels missed apart);
          })
      | inr r ↦ rw r (record { bids = bids; asks = v.asks; uncrossed = apart })
    ]

submit_admitted-IsValid :
    (side : Side) (b : Book) (o : Order)
    → IsValid b
    → o.side ≡ side
    → IsValid (submit_admitted side b o).book
submit_admitted-IsValid buy b o v e = submit_buy-IsValid b o v e
submit_admitted-IsValid sell b o v e = submit_sell-IsValid b o v e

pub submit-IsValid : (b : Book) (o : Order) → IsValid b → IsValid (submit b o).book
unfolding submit admit
submit-IsValid b o v = elim (Option-cases (admit (has_order o.order_id b) o)) [
  | inl e ↦ rw (e, submit) v
  | inr (o', e) ↦ rw (e, submit) (submit_admitted-IsValid o.side b o' v (ground (arith, e)))
]

drop_order-All : (P : Order → Type 0) (id : ℕ) (q : List Order) → All P q → All P (drop_order id q)
unfolding drop_order
drop_order-All P id [] h = tt
drop_order-All P id (o ∷ q) h = ground (arith, h, drop_order-All P id q h.1)

remove-All {ℓ} :
    (P : ℕ → Type ℓ) (id : ℕ) (ls : Levels) → All (λ l. P l.0) ls → All (λ l. P l.0) (remove id ls)
unfolding remove
remove-All P id [] h = tt
remove-All P id ((p, q) ∷ ls) h = ground (arith, h, remove-All P id ls h.1)

pub remove-IsSide :
    (side : Side) (id : ℕ) (ls : Levels) → IsSide side ls → IsSide side (remove id ls)
unfolding remove
remove-IsSide side id [] h = tt
remove-IsSide side id ((p, q) ∷ ls) h = ground (
  arith,
  h,
  drop_order-All (IsResting side p) id q h.0.orders,
  remove-IsSide side id ls h.2,
  remove-All (λ p'. before side p p' ≡ true) id ls h.1,
)

pub cancel-IsValid : (b : Book) (id : ℕ) → IsValid b → IsValid (cancel b id).1
unfolding cancel
cancel-IsValid b id v = elim (Bool-cases (contains_level id b.bids)) [
  | inl bid ↦
      rw (bid, cancel)
        (record {
          bids = remove-IsSide buy id b.bids v.bids;
          asks = v.asks;
          uncrossed = remove-All (λ p. All (λ ask. p < ask.0) b.asks) id b.bids v.uncrossed;
        })
  | inr other ↦ elim (Bool-cases (contains_level id b.asks)) [
    | inl ask ↦
        rw (other, ask, cancel)
          (record {
            bids = v.bids;
            asks = remove-IsSide sell id b.asks v.asks;
            uncrossed =
                All-mono _ _ b.bids (λ bid. remove-All (λ p. bid.0 < p) id b.asks) v.uncrossed;
          })
    | inr absent ↦ rw (other, absent, cancel) v
  ]
]
