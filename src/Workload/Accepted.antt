-- ===== src/Workload/Accepted.antt =====
-- include/workload.hpp on the books: no generated order is refused.
use lloms.Base.{
  ℕ, ◌+◌, ◌≤◌, ◌<◌, ◌≡◌, ◌∙◌, inl, inr, Bool, true, List, [], ◌∷◌, arith, length, length-map, map,
}
use lloms.Types.{Order, Trade}
use lloms.Matching.{admit}
use lloms.Spec
use lloms.Spec.Ids.{has_order-cancel, has_order-submit}
use lloms.Pool.{init, invalid_idx}
use lloms.Pool.Allot.{HasRoom}
use lloms.Pool.Fresh.{init-Represents, no_orders}
use lloms.Pool.Histories.{run, run-Represents}
use lloms.Stl.Trading.{Call, submits, cancels, spec_run}
use lloms.Workload.{OrderAction, new_order, cancel_order, WorkloadType, Draws, generate}
use lloms.Workload.Plan.{Plan, done, limits, markets, IsLimit, IsMarket, InRange, generate-Plan}
use lloms.Workload.Plan

abbrev pub call : OrderAction → Call
call (new_order o) = submits o
call (cancel_order id) = cancels id

-- Each new order of the actions got the answer true, by the answers to the calls.
abbrev pub Accepted : List OrderAction → List (Bool × List Trade) → Type 0
Accepted [] [] = Unit {0}
Accepted [] (r ∷ rs) = ⊥
Accepted (a ∷ actions) [] = ⊥
Accepted (new_order o ∷ actions) (r ∷ rs) = (r.0 ≡ true) × Accepted actions rs
Accepted (cancel_order id ∷ actions) (r ∷ rs) = Accepted actions rs

-- The ids that are given out are below `n`.
abbrev Below : ℕ → Spec.Book → Type 0
Below n v = (id : ℕ) → Spec.has_order id v ≡ true → id < n

limit-admit :
    (n i : ℕ) (o : Order) (v : Spec.Book)
    → IsLimit n i o
    → Below n v
    → (Spec.submit v o).accepted ≡ true
unfolding Spec.submit admit
limit-admit n i o v l below = ground (arith, below n, l)

market-admit :
    (n i : ℕ) (o : Order) (v : Spec.Book)
    → IsMarket n i o
    → Below n v
    → (Spec.submit v o).accepted ≡ true
unfolding Spec.submit admit
market-admit n i o v l below = ground (arith, below n, l)

submit-Below :
    (n : ℕ) (o : Order) (v : Spec.Book)
    → o.order_id ≡ n
    → Below n v
    → Below (n + 1) (Spec.submit v o).book
submit-Below n o v e below id h = elim (has_order-submit id v o h) [
  | inl old ↦ omega (arith, below id old)
  | inr fresh ↦ omega (arith, e, fresh)
]

Plan-Accepted :
    (n i : ℕ) (live : List ℕ) (actions : List OrderAction) (v : Spec.Book)
    → Plan n i live actions
    → Below n v
    → Accepted actions (spec_run v (map call actions)).0
unfolding spec_run
Plan-Accepted n i live actions v done below = tt
Plan-Accepted n i live actions v (limits {o} l p) below = (
  limit-admit n i o v l below,
  Plan-Accepted (n + 1) (i + 1) (n ∷ live) _ _ p (submit-Below n o v l.numbered below),
)
Plan-Accepted n i live actions v (markets {o} l p) below = (
  market-admit n i o v l below,
  Plan-Accepted (n + 1) (i + 1) live _ _ p (submit-Below n o v l.numbered below),
)
Plan-Accepted n i live actions v (Plan.cancels {id} named p) below =
    Plan-Accepted n (i + 1) (Plan.without id live) _ _ p
      (λ x h. below x (has_order-cancel x id v h))

none-Below : Below 1 no_orders
unfolding Spec.has_order
none-Below id h = cc h

-- With draws in the ranges of the distributions, and fewer than 2 to the 31 actions: when the workload is
-- run on a new pool book of any capacity that 32-bit indices can address, no new order is refused.
pub generate-Accepted :
    {S : Type 0} (draws : Draws S) (type : WorkloadType) (count : ℕ) (rng : S)
    (mid_price capacity : ℕ)
    → InRange draws
    → HasRoom count
    → capacity ≤ invalid_idx
    → let actions = generate draws type count rng mid_price in
      Accepted actions (run (init capacity) (map call actions)).0
generate-Accepted draws type count rng mid_price capacity r room small =
    let actions = generate draws type count rng mid_price in
    let (plan, size) = generate-Plan draws type count rng mid_price r (omega (arith, room)) in
    let e : length (map call actions) ≡ count = length-map call actions ∙ size in
    let same =
      run-Represents (map call actions) (init capacity) no_orders (init-Represents capacity small)
        (omega (arith, room, e)) in
    rw (same.0) (Plan-Accepted 1 0 [] actions no_orders plan none-Below)
