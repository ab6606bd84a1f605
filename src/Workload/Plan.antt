-- ===== src/Workload/Plan.antt =====
-- include/workload.hpp: what the generated actions are.
use lloms.Base.{
  ℕ, zero, suc, ◌+◌, ◌*◌, ◌%◌, ◌≤◌, ◌<◌, ◌≡◌, refl, ap, inl, inr, false, ◌||◌, List, [], ◌∷◌, ◌++◌,
  arith, ltb, ◌==◌, if◌then◌else◌, is_nil, get_or, set, length, Bool-cases,
}
use lloms.Base.Int.{ℤ, pos, negsuc}
use lloms.Types.{u64_mod, Side, limit, market, Order}
use lloms.Workload.{
  OrderAction, new_order, cancel_order, WorkloadType, Draws, Generator, add_offset, clamp_price,
  back, pop_back, swap_and_pop, limit_order, market_order, market_quantity, percentages,
  generate_limit, generate_cancel, generate_market, generate_loop, generate,
}

abbrev pub multiplicity : ℕ → List ℕ → ℕ
multiplicity a [] = 0
multiplicity a (x ∷ xs) = (if x == a then 1 else 0) + multiplicity a xs

-- Without one occurrence.
abbrev pub without : ℕ → List ℕ → List ℕ
without a [] = []
without a (x ∷ xs) = if x == a then xs else x ∷ without a xs

multiplicity-append :
    (a : ℕ) (xs ys : List ℕ) → multiplicity a (xs ++ ys) ≡ multiplicity a xs + multiplicity a ys
multiplicity-append a [] ys = omega arith
multiplicity-append a (x ∷ xs) ys = omega (arith, multiplicity-append a xs ys)

multiplicity-without :
    (a id : ℕ) (xs : List ℕ)
    → 0 < multiplicity id xs
    → multiplicity a (without id xs) + (if id == a then 1 else 0) ≡ multiplicity a xs
multiplicity-without a id [] h = absurd (omega arith)
multiplicity-without a id (x ∷ xs) h = ground (arith, multiplicity-without a id xs)

multiplicity-set :
    (a : ℕ) (xs : List ℕ) (i v : ℕ)
    → i < length xs
    → multiplicity a (set xs i v) + (if get_or xs i 0 == a then 1 else 0)
      ≡ multiplicity a xs + (if v == a then 1 else 0)
multiplicity-set a [] i v h = absurd (omega arith)
multiplicity-set a (x ∷ xs) zero v h = ground arith
multiplicity-set a (x ∷ xs) (suc i) v h = ground (arith, multiplicity-set a xs i v (omega arith))

multiplicity-pop_back :
    (a : ℕ) (xs : List ℕ)
    → is_nil xs ≡ false
    → multiplicity a (pop_back xs) + (if back xs == a then 1 else 0) ≡ multiplicity a xs
multiplicity-pop_back a [] h = cc
multiplicity-pop_back a (x ∷ []) h = ground arith
multiplicity-pop_back a (x ∷ y ∷ xs) h = ground (arith, multiplicity-pop_back a (y ∷ xs) refl)

back-set : (xs : List ℕ) (i : ℕ) → back (set xs i (back xs)) ≡ back xs
back-set [] i = refl
back-set (x ∷ []) zero = refl
back-set (x ∷ []) (suc i) = refl
back-set (x ∷ y ∷ xs) zero = refl
back-set (x ∷ y ∷ xs) (suc zero) = back-set (y ∷ xs) zero
back-set (x ∷ y ∷ xs) (suc (suc i)) = back-set (y ∷ xs) (suc i)

is_nil-set : (xs : List ℕ) (i v : ℕ) → i < length xs → is_nil (set xs i v) ≡ false
is_nil-set [] i v h = absurd (omega arith)
is_nil-set (x ∷ xs) zero v h = refl
is_nil-set (x ∷ xs) (suc i) v h = refl

-- The id that was read goes, once, and nothing else.
multiplicity-swap_and_pop :
    (a i : ℕ) (xs : List ℕ)
    → i < length xs
    → multiplicity a (swap_and_pop i xs) + (if get_or xs i 0 == a then 1 else 0) ≡ multiplicity a xs
unfolding swap_and_pop
multiplicity-swap_and_pop a i xs h =
    let popped = multiplicity-pop_back a (set xs i (back xs)) (is_nil-set xs i (back xs) h) in
    let e : back (set xs i (back xs)) ≡ back xs = back-set xs i in
    omega (arith, multiplicity-set a xs i (back xs) h, rw e at popped)

multiplicity-get_or : (xs : List ℕ) (i : ℕ) → i < length xs → 0 < multiplicity (get_or xs i 0) xs
multiplicity-get_or [] i h = absurd (omega arith)
multiplicity-get_or (x ∷ xs) zero h = ground arith
multiplicity-get_or (x ∷ xs) (suc i) h = omega (arith, multiplicity-get_or xs i (omega arith))

-- A limit order with the id `n`, in the round `i`.
pub record IsLimit (n i : ℕ) (o : Order) : Type 0 where
  pub numbered : o.order_id ≡ n
  pub kind : o.type ≡ limit
  pub priced : 100 ≤ o.price
  pub least : 10 ≤ o.initial_quantity
  pub most : o.initial_quantity ≤ 500
  pub whole : o.remaining_quantity ≡ o.initial_quantity
  pub timed : o.timestamp ≡ i * 100 % u64_mod

pub record IsMarket (n i : ℕ) (o : Order) : Type 0 where
  pub numbered : o.order_id ≡ n
  pub kind : o.type ≡ market
  pub priced : o.price ≡ 0
  pub least : 5 ≤ o.initial_quantity
  pub most : o.initial_quantity ≤ 250
  pub whole : o.remaining_quantity ≡ o.initial_quantity
  pub timed : o.timestamp ≡ i * 100 % u64_mod

-- Actions from the round `i` on: ids are given from `n` on, and a cancellation names one of `live`, the
-- ids of the limit orders that have not been cancelled.
pub data Plan : (n i : ℕ) (live : List ℕ) → List OrderAction → Type 0 where
  done : {n i : ℕ} {live : List ℕ} → Plan n i live []
  limits :
      {n i : ℕ} {live : List ℕ} {o : Order} {later : List OrderAction}
      → IsLimit n i o
      → Plan (n + 1) (i + 1) (n ∷ live) later
      → Plan n i live (new_order o ∷ later)
  markets :
      {n i : ℕ} {live : List ℕ} {o : Order} {later : List OrderAction}
      → IsMarket n i o
      → Plan (n + 1) (i + 1) live later
      → Plan n i live (new_order o ∷ later)
  cancels :
      {n i : ℕ} {live : List ℕ} {id : ℕ} {later : List OrderAction}
      → 0 < multiplicity id live
      → Plan n (i + 1) (without id live) later
      → Plan n i live (cancel_order id ∷ later)

-- The ranges that the standard gives for the distributions with these bounds.
pub record InRange {S : Type 0} (draws : Draws S) : Type 0 where
  pub quantities : (s : S) → (10 ≤ (draws.qty_dist s).0) × ((draws.qty_dist s).0 ≤ 500)
  pub indices : (n : ℕ) (s : S) → 0 < n → (draws.idx_dist n s).0 < n

clamp_price-le : (x : ℤ) → 100 ≤ clamp_price x
unfolding clamp_price
clamp_price-le (pos n) = ground arith
clamp_price-le (negsuc n) = omega arith

limit_order-IsLimit :
    (oid n price qty : ℕ) (side : Side) (i : ℕ)
    → oid ≡ n
    → 100 ≤ price
    → (10 ≤ qty) × (qty ≤ 500)
    → IsLimit n i (limit_order oid price qty side i)
unfolding limit_order
limit_order-IsLimit oid n price qty side i e p q = ground arith

market_order-IsMarket :
    (oid n drawn : ℕ) (side : Side) (i : ℕ)
    → oid ≡ n
    → (10 ≤ drawn) × (drawn ≤ 500)
    → IsMarket n i (market_order oid (market_quantity drawn) side i)
unfolding market_order market_quantity
market_order-IsMarket oid n drawn side i e q = ground arith

multiplicity-issued :
    (a k n : ℕ) (ids live : List ℕ)
    → k ≡ n
    → multiplicity a ids ≡ multiplicity a live
    → multiplicity a (ids ++ k ∷ []) ≡ multiplicity a (n ∷ live)
multiplicity-issued a k n ids live e same =
    ground (arith, multiplicity-append a ids (k ∷ []), e, same)

-- The ids that are kept are those that are live, in any order.
abbrev SameIds : List ℕ → List ℕ → Type 0
SameIds xs live = (a : ℕ) → multiplicity a xs ≡ multiplicity a live

length-loop :
    {S : Type 0} (draws : Draws S) (pcts : ℕ × ℕ) (mid_price count i : ℕ) (g : Generator S)
    → length (generate_loop draws pcts mid_price count i g) ≡ count
unfolding generate_loop
length-loop draws pcts mid_price zero i g = refl
length-loop draws pcts mid_price (suc count) i g =
    ap suc (length-loop draws pcts mid_price count (i + 1) _)

module _ {S : Type 0} (draws : Draws S) (r : InRange draws) (pcts : ℕ × ℕ) (mid_price : ℕ) where
  -- The id after this one, which does not wrap.
  counted : (n k count : ℕ) → k ≡ n → n + suc count < u64_mod → (k + 1) % u64_mod ≡ n + 1
  counted n k count e small = omega arith

  loop-Plan :
      (count i n : ℕ) (live : List ℕ) (g : Generator S)
      → g.next_id ≡ n
      → n + count < u64_mod
      → SameIds g.active_order_ids live
      → Plan n i live (generate_loop draws pcts mid_price count i g)
  unfolding generate_loop
  loop-Plan zero i n live g e small same = done
  loop-Plan (suc count) i n live g e small same =
      let (roll, rng) = draws.pct_dist g.rng in
      let (side, rng1) = draws.side_dist rng in
      let (offset, rng2) = draws.price_offset_dist rng1 in
      let ids = g.active_order_ids in
      let g1 = record g { rng = rng } in
      let fits : n + 1 + count < u64_mod = omega (arith, small) in
      elim (Bool-cases (ltb roll pcts.0 || is_nil ids)) [
        | inl fresh ↦ rw fresh (
            limits
              (limit_order-IsLimit g.next_id n _ _ _ i e
                (clamp_price-le (add_offset mid_price offset)) (r.quantities rng2))
              (loop-Plan count (i + 1) (n + 1) (n ∷ live) (generate_limit draws mid_price i g1).1
                (counted n g.next_id count e small) fits
                (λ a. multiplicity-issued a g.next_id n ids live e (same a))))
        | inr old ↦ elim (Bool-cases (ltb roll (pcts.0 + pcts.1))) [
          | inl removed ↦
              let some_id : 0 < length ids = ground (arith, old) in
              let idx = (draws.idx_dist (length ids) rng).0 in
              let there : idx < length ids = r.indices (length ids) rng some_id in
              let id = get_or ids idx 0 in
              let is_live : 0 < multiplicity id live =
                rw (← same id) (multiplicity-get_or ids idx there) in
              rw (old, removed)
                (cancels is_live (
                  loop-Plan count (i + 1) n (without id live) (generate_cancel draws g1).1 e
                    (omega (arith, small))
                    (λ a. omega (
                      arith,
                      same a,
                      multiplicity-swap_and_pop a idx ids there,
                      multiplicity-without a id live is_live,
                    ))))
          | inr crossed ↦
              rw (old, crossed)
                (markets (market_order-IsMarket g.next_id n _ _ i e (r.quantities rng1)) (
                  loop-Plan count (i + 1) (n + 1) live (generate_market draws i g1).1
                    (counted n g.next_id count e small) fits same))
        ]
      ]

-- A workload of fewer than 2 to the 64 minus 1 actions, with draws in the ranges of the distributions:
-- the new orders have the ids 1, 2, 3 and so on, limit orders a price of at least 100 and 10 to 500
-- units, market orders no price and 5 to 250 units, all of which remain, and the number of the round
-- times 100 as their time; each cancellation names a limit order that was generated before it and has
-- not been cancelled yet; and there are as many actions as are asked for.
pub generate-Plan :
    {S : Type 0} (draws : Draws S) (type : WorkloadType) (count : ℕ) (rng : S) (mid_price : ℕ)
    → InRange draws
    → 1 + count < u64_mod
    → Plan 1 0 [] (generate draws type count rng mid_price)
      × (length (generate draws type count rng mid_price) ≡ count)
unfolding generate
generate-Plan draws type count rng mid_price r small = (
  loop-Plan draws r (percentages type) mid_price count 0 1 [] _ refl small (λ a. refl),
  length-loop draws (percentages type) mid_price count 0 _,
)
