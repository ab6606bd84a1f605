-- ===== src/Pool/Histories.antt =====
-- Whole histories of PoolOrderBook (src/pool_order_book.cpp) against the abstract book and against
-- StlOrderBook (src/stl_order_book.cpp).
use lloms.Base.{
  ℕ, suc, ◌+◌, ◌≤◌, ◌≡◌, refl, ap, ◌∙◌, inl, inr, Bool, true, List, [], ◌∷◌, arith, length,
  length-append, Option-cases,
}
use lloms.Base.SortedMap
use lloms.Types.{Side, buy, sell, Order, Trade}
use lloms.Matching.{match_qty, reduce, admit}
use lloms.Spec
use lloms.Pool.{Book, init, invalid_idx}
use lloms.Pool.Orders.{submit_order, cancel_order, clear}
use lloms.Pool.Allot.{HasRoom}
use lloms.Pool.Represent.{Represents, count, count_orders, submit_order-Follows}
use lloms.Pool.Withdraw.{cancel_order-Represents}
use lloms.Pool.Fresh.{init-Represents, clear-Represents, no_orders}
use lloms.Stl
use lloms.Stl.Trading.{Call, submits, cancels, clears, spec_step, spec_run, empty-IsValid}
use lloms.Stl.Trading

length-fill :
    (taker : Side) (q : List Order) (incoming : Order)
    → length (Spec.fill taker q incoming).queue ≤ length q
unfolding Spec.fill
length-fill taker [] incoming = omega arith
length-fill taker (m ∷ q) incoming =
    ground (arith, length-fill taker q (reduce (match_qty m incoming) incoming))

count-sweep :
    (taker : Side) (ls : Spec.Levels) (incoming : Order)
    → count (Spec.sweep taker ls incoming).levels ≤ count ls
unfolding Spec.sweep
count-sweep taker [] incoming = omega arith
count-sweep taker ((p, q) ∷ ls) incoming = ground (
  arith,
  length-fill taker q incoming,
  count-sweep taker ls (Spec.fill taker q incoming).incoming,
)

count-enqueue :
    (side : Side) (o : Order) (ls : Spec.Levels) → count (Spec.enqueue side o ls) ≡ suc (count ls)
unfolding SortedMap.update
count-enqueue side o [] = omega arith
count-enqueue side o ((p, q) ∷ ls) =
    ground (arith, length-append q (o ∷ []), count-enqueue side o ls)

count-submit_admitted :
    (side : Side) (v : Spec.Book) (o : Order)
    → count_orders (Spec.submit_admitted side v o).book ≤ suc (count_orders v)
unfolding Spec.submit_admitted Spec.rest_order
count-submit_admitted buy v o =
    let s = Spec.sweep buy v.asks o in
    ground (arith, count-sweep buy v.asks o, count-enqueue buy s.incoming v.bids)
count-submit_admitted sell v o =
    let s = Spec.sweep sell v.bids o in
    ground (arith, count-sweep sell v.bids o, count-enqueue sell s.incoming v.asks)

pub count-submit :
    (v : Spec.Book) (o : Order) → count_orders (Spec.submit v o).book ≤ suc (count_orders v)
unfolding Spec.submit
count-submit v o = elim (Option-cases (admit (Spec.has_order o.order_id v) o)) [
  | inl e ↦ rw (e, Spec.submit) (omega arith)
  | inr (o', e) ↦ rw (e, Spec.submit) (count-submit_admitted o.side v o')
]

length-drop_order : (id : ℕ) (q : List Order) → length (Spec.drop_order id q) ≤ length q
unfolding Spec.drop_order
length-drop_order id [] = omega arith
length-drop_order id (o ∷ q) = ground (arith, length-drop_order id q)

count-remove : (id : ℕ) (ls : Spec.Levels) → count (Spec.remove id ls) ≤ count ls
unfolding Spec.remove
count-remove id [] = omega arith
count-remove id ((p, q) ∷ ls) = ground (arith, length-drop_order id q, count-remove id ls)

pub count-cancel : (v : Spec.Book) (id : ℕ) → count_orders (Spec.cancel v id).1 ≤ count_orders v
unfolding Spec.cancel
count-cancel v id = ground (arith, count-remove id v.bids, count-remove id v.asks)

-- A call with the answer and the trades that its caller sees.
unfoldable pub step : Book → Call → Bool × List Trade × Book
step b (submits o) = let r = submit_order b o [] in (r.accepted, r.trades, r.book)
step b (cancels id) = let (done, b') = cancel_order b id in (done, [], b')
step b clears = (true, [], clear b)

-- What the callers of a history see, and the book at its end.
unfoldable pub run : Book → List Call → List (Bool × List Trade) × Book
unfolding step
run b [] = ([], b)
run b (c ∷ cs) =
    let (done, trades, b') = step b c in
    let (seen, last) = run b' cs in ((done, trades) ∷ seen, last)

-- One call, and how many orders it can add.
record Steps (v : Spec.Book) (r : Bool × List Trade × Book) (s : Bool × List Trade × Spec.Book)
    : Type 0 where
  done : r.0 ≡ s.0
  trades : r.1 ≡ s.1
  book : Represents r.2 s.2
  grows : count_orders s.2 ≤ suc (count_orders v)

step-Steps :
    (b : Book) (v : Spec.Book) (c : Call)
    → Represents b v
    → HasRoom (count_orders v)
    → Steps v (step b c) (spec_step v c)
unfolding step
step-Steps b v (submits o) r room =
    let f = submit_order-Follows b v o [] r room in
    record { done = f.accepted; trades = f.trades; book = f.book; grows = count-submit v o }
step-Steps b v (cancels id) r room =
    let (done, book) = cancel_order-Represents b v id r in
    record { done = done; trades = refl; book = book; grows = omega (arith, count-cancel v id) }
step-Steps b v clears r room = record {
  done = refl;
  trades = refl;
  book = clear-Represents b r.linked.kept.small;
  grows = omega arith;
}

-- A history of calls on a pool book that stands for an abstract book, where the orders of the book and
-- the calls together are fewer than 2 to the 31: every answer and every trade is that of the abstract
-- history, and the book at the end stands for the abstract one.
pub run-Represents :
    (cs : List Call) (b : Book) (v : Spec.Book)
    → Represents b v
    → HasRoom (count_orders v + length cs)
    → ((run b cs).0 ≡ (spec_run v cs).0) × Represents (run b cs).1 (spec_run v cs).1
unfolding run spec_run
run-Represents [] b v r room = (refl, r)
run-Represents (c ∷ cs) b v r room =
    let s = step-Steps b v c r (omega (arith, room)) in
    let rest =
      run-Represents cs (step b c).2 (spec_step v c).2 s.book (omega (arith, room, s.grows)) in
    (rw (s.done, s.trades, rest.0), rest.1)

-- On a new book of either kind, whatever the capacity of the pool within 32-bit indices, a history of
-- fewer than 2 to the 31 calls gets the same answers and the same trades.
pub run-Stl :
    (capacity : ℕ) (cs : List Call)
    → capacity ≤ invalid_idx
    → HasRoom (length cs)
    → (run (init capacity) cs).0 ≡ (Trading.run Stl.empty cs).0
run-Stl capacity cs small room =
    let pool =
      run-Represents cs (init capacity) no_orders (init-Represents capacity small)
        (omega (arith, room)) in
    let lists = Trading.run-refines cs Stl.empty empty-IsValid in
    pool.0 ∙ ap (λ (x : List (Bool × List Trade) × Spec.Book). x.0) lists.0
