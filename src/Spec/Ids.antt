-- ===== src/Spec/Ids.antt =====
-- The ids of the abstract book: which can be in it after a call.
use lloms.Base.{ℕ, ◌≡◌, ◌⊎◌, inl, inr, true, List, [], ◌∷◌, ◌++◌, arith, Option-cases}
use lloms.Base.SortedMap
use lloms.Types.{Side, buy, sell, Order}
use lloms.Matching.{match_qty, reduce, admit}
use lloms.Spec.{
  Levels, Book, fill, sweep, enqueue, rest_order, submit_admitted, submit, has_order, drop_order,
  remove, contains, contains_level, cancel,
}
use lloms.Spec.Valid.{sweep-SameButRest}

contains-fill :
    (id : ℕ) (taker : Side) (q : List Order) (o : Order)
    → contains id (fill taker q o).queue ≡ true
    → contains id q ≡ true
unfolding contains fill
contains-fill id taker [] o h = h
contains-fill id taker (m ∷ q) o h =
    ground (arith, contains-fill id taker q (reduce (match_qty m o) o))

contains-sweep :
    (id : ℕ) (taker : Side) (ls : Levels) (o : Order)
    → contains_level id (sweep taker ls o).levels ≡ true
    → contains_level id ls ≡ true
unfolding contains_level sweep
contains-sweep id taker [] o h = h
contains-sweep id taker ((p, q) ∷ ls) o h =
    ground (arith, contains-fill id taker q o, contains-sweep id taker ls (fill taker q o).incoming)

contains-append :
    (id : ℕ) (q : List Order) (o : Order)
    → contains id (q ++ o ∷ []) ≡ true
    → (contains id q ≡ true) ⊎ (o.order_id ≡ id)
unfolding contains
contains-append id [] o h = ground arith
contains-append id (m ∷ q) o h = ground (arith, contains-append id q o)

contains-enqueue :
    (id : ℕ) (side : Side) (o : Order) (ls : Levels)
    → contains_level id (enqueue side o ls) ≡ true
    → (contains_level id ls ≡ true) ⊎ (o.order_id ≡ id)
unfolding contains_level contains SortedMap.update
contains-enqueue id side o [] h = ground arith
contains-enqueue id side o ((p, q) ∷ ls) h =
    ground (arith, contains-append id q o, contains-enqueue id side o ls)

contains-drop_order :
    (id key : ℕ) (q : List Order) → contains id (drop_order key q) ≡ true → contains id q ≡ true
unfolding contains drop_order
contains-drop_order id key [] h = h
contains-drop_order id key (o ∷ q) h = ground (arith, contains-drop_order id key q)

contains-remove :
    (id key : ℕ) (ls : Levels)
    → contains_level id (remove key ls) ≡ true
    → contains_level id ls ≡ true
unfolding contains_level remove
contains-remove id key [] h = h
contains-remove id key ((p, q) ∷ ls) h =
    ground (arith, contains-drop_order id key q, contains-remove id key ls)

pub has_order-cancel :
    (id key : ℕ) (b : Book) → has_order id (cancel b key).1 ≡ true → has_order id b ≡ true
unfolding has_order cancel
has_order-cancel id key b h =
    ground (arith, contains-remove id key b.bids, contains-remove id key b.asks)

has_order-submit_admitted :
    (id : ℕ) (side : Side) (b : Book) (o : Order)
    → has_order id (submit_admitted side b o).book ≡ true
    → (has_order id b ≡ true) ⊎ (o.order_id ≡ id)
unfolding has_order submit_admitted rest_order
has_order-submit_admitted id buy b o h = ground (
  arith,
  contains-sweep id buy b.asks o,
  contains-enqueue id buy (sweep buy b.asks o).incoming b.bids,
  sweep-SameButRest buy b.asks o,
)
has_order-submit_admitted id sell b o h = ground (
  arith,
  contains-sweep id sell b.bids o,
  contains-enqueue id sell (sweep sell b.bids o).incoming b.asks,
  sweep-SameButRest sell b.bids o,
)

pub has_order-submit :
    (id : ℕ) (b : Book) (o : Order)
    → has_order id (submit b o).book ≡ true
    → (has_order id b ≡ true) ⊎ (o.order_id ≡ id)
unfolding submit admit
has_order-submit id b o h = elim (Option-cases (admit (has_order o.order_id b) o)) [
  | inl e ↦ inl (rw (e, submit) at h)
  | inr (o', e) ↦
      let same : o'.order_id ≡ o.order_id = ground (arith, e) in
      ground (arith, has_order-submit_admitted id o.side b o' (rw (e, submit) at h), same)
]
