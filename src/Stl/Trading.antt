-- ===== src/Stl/Trading.antt =====
-- What a client of StlOrderBook (src/stl_order_book.cpp) relies on: price-time priority, a book that is
-- never crossed, and the behaviour of whole histories.
use lloms.Base.{
  if◌then◌else◌, All, Bool-cases, inl, inr, ℕ, ◌<◌, ◌≡◌, refl, Bool, true, some, List, [], ◌∷◌, map,
  arith,
}
use lloms.Types.{Side, Order, Trade}
use lloms.Matching.{opposite}
use lloms.Spec
use lloms.Spec.Valid
use lloms.Spec.Priority.{allotment, consume, reachable, entering, submit-consume}
use lloms.Spec.Acceptance.{Takes, acceptable, submit-acceptable, submit-refused, submit-Takes}
use lloms.Stl.{Book, Levels, empty, levels, submit_order, cancel_order}
use lloms.Stl.Query.{best, best_bid, best_ask, clear}
use lloms.Stl.Loops.{view_levels}
use lloms.Stl.Valid.{view, IsValid}
use lloms.Stl.Refine.{submit_order-Refines, submit_order-IsValid}
use lloms.Stl.Removal.{cancel_order-refines}

levels-view : (side : Side) (b : Book) → Spec.levels side (view b) ≡ view_levels (levels side b)
levels-view Side.buy b = refl
levels-view Side.sell b = refl

-- On a valid book: an order is accepted if and only if it has a quantity, a price if it is a limit
-- order, and an id that no resting order has. An accepted order trades with the resting orders of the
-- other side that its limit reaches, from the best price on and within a price from the oldest on, each
-- for as much as both have left; a refused one with none. Every trade has the order's id as the taker's,
-- its side and its time.
pub submit_order-priority :
    (b : Book) (o : Order)
    → IsValid b
    → let r = submit_order b o [] in
      let met = reachable o.side o (view_levels (levels (opposite o.side) b)) in
      (r.accepted ≡ acceptable o (view b))
      × (map allotment r.trades ≡ (if r.accepted then consume (entering o) met else []))
      × All (Takes o.side o) r.trades
submit_order-priority b o v =
    let r = submit_order-Refines b o [] v in
    rw (r.accepted, r.trades, ← levels-view (opposite o.side) b)
      (
        submit-acceptable (view b) o,
        elim (Bool-cases (Spec.submit (view b) o).accepted) [
          | inl taken ↦ rw taken (submit-consume (view b) o taken)
          | inr refused ↦ rw (refused, submit-refused (view b) o refused) refl
        ],
        submit-Takes (view b) o,
      )

-- The calls that change a book.
pub data Call : Type 0 where
  submits : Order → Call
  cancels : ℕ → Call
  clears : Call

-- A call with the answer and the trades that its caller sees.
unfoldable pub step : Book → Call → Bool × List Trade × Book
step b (submits o) = let r = submit_order b o [] in (r.accepted, r.trades, r.book)
step b (cancels id) = let (done, b') = cancel_order b id in (done, [], b')
step b clears = (true, [], clear b)

abbrev pub spec_step : Spec.Book → Call → Bool × List Trade × Spec.Book
spec_step b (submits o) = let r = Spec.submit b o in (r.accepted, r.trades, r.book)
spec_step b (cancels id) = let (done, b') = Spec.cancel b id in (done, [], b')
spec_step b clears = (true, [], record { bids = []; asks = [] })

-- What the callers of a history see, and the book at its end.
unfoldable pub run : Book → List Call → List (Bool × List Trade) × Book
unfolding step
run b [] = ([], b)
run b (c ∷ cs) =
    let (done, trades, b') = step b c in
    let (seen, last) = run b' cs in ((done, trades) ∷ seen, last)

unfoldable pub spec_run : Spec.Book → List Call → List (Bool × List Trade) × Spec.Book
spec_run b [] = ([], b)
spec_run b (c ∷ cs) =
    let (done, trades, b') = spec_step b c in
    let (seen, last) = spec_run b' cs in ((done, trades) ∷ seen, last)

pub empty-IsValid : IsValid empty
empty-IsValid = record {
  indexed = record { distinct = tt; agree = λ k. refl };
  addressed = record { distinct = tt; below = tt };
  sound = record { bids = tt; asks = tt; uncrossed = tt };
}

step-refines :
    (b : Book) (c : Call)
    → IsValid b
    → let (done, trades, b') = step b c in
      (spec_step (view b) c ≡ (done, trades, view b')) × IsValid b'
unfolding step clear
step-refines b (submits o) v =
    let r = submit_order-Refines b o [] v in (ground (arith, r), submit_order-IsValid b o [] v)
step-refines b (cancels id) v = let r = cancel_order-refines b id v in (ground (arith, r.0), r.1)
step-refines b clears v = (
  refl,
  record {
    indexed = record { distinct = tt; agree = λ k. refl };
    addressed = record { distinct = tt; below = tt };
    sound = record { bids = tt; asks = tt; uncrossed = tt };
  },
)

-- No history of calls tells a valid book from the abstract one: every answer and every trade are the
-- same. The book stays valid.
pub run-refines :
    (cs : List Call) (b : Book)
    → IsValid b
    → let (seen, last) = run b cs in (spec_run (view b) cs ≡ (seen, view last)) × IsValid last
unfolding run spec_run
run-refines [] b v = (refl, v)
run-refines (c ∷ cs) b v =
    let one = step-refines b c v in
    let rest = run-refines cs (step b c).2 one.1 in (rw (one.0, rest.0), rest.1)

Uncrossed-best :
    (bids asks : Levels) {p q : ℕ}
    → Valid.Uncrossed (view_levels bids) (view_levels asks)
    → best bids ≡ some p
    → best asks ≡ some q
    → p < q
unfolding best
Uncrossed-best [] asks u hb ha = absurd (cc)
Uncrossed-best (x ∷ bids) [] u hb ha = absurd (cc)
Uncrossed-best (x ∷ bids) (y ∷ asks) u hb ha = ground (arith, u.0, hb, ha)

-- After any history on a new book the best bid is below the best ask, where there are both.
pub best_bid-lt-best_ask :
    (cs : List Call) {p q : ℕ}
    → best_bid (run empty cs).1 ≡ some p
    → best_ask (run empty cs).1 ≡ some q
    → p < q
unfolding best_bid best_ask
best_bid-lt-best_ask cs hb ha =
    let v = (run-refines cs empty empty-IsValid).1 in
    Uncrossed-best (run empty cs).1.bids (run empty cs).1.asks v.sound.uncrossed hb ha
