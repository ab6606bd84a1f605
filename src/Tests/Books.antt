-- ===== src/Tests/Books.antt =====
-- src/stl_order_book.cpp on a book with two asks at 101, one at 102 and a bid at 99.
use lloms.Base.{if◌then◌else◌, All, ℕ, ◌%◌, ◌<◌, ◌≡◌, refl, false, some, List, [], ◌∷◌, map, arith}
use lloms.Base.Dict
use lloms.Base.SortedMap
use lloms.Types.{Side, buy, sell, Order, limit, u32_mod}
use lloms.Matching.{make_trade, is_blocked, admit}
use lloms.Spec
use lloms.Spec.Priority.{Allotment, allotment, consume, reachable, total}
use lloms.Spec.Acceptance.{acceptable, Takes}
use lloms.Stl.{Node, Book, Location, submit_order, match_queue, match_levels}
use lloms.Stl.Query.{best_bid, best_ask, volume_at_price}
use lloms.Stl.Loops.{orders, view_levels, Sweeps, match_levels-sweep}
use lloms.Stl.Valid.{view, IsValid}
use lloms.Stl.Refine.{Refines, submit_order-Refines, submit_order-IsValid}
use lloms.Stl.Trading.{
  Call, submits, cancels, clears, run, spec_run, run-refines, submit_order-priority,
  best_bid-lt-best_ask,
}
use lloms.Stl.Volume.{orders_at, volume_at_price-total}

abbrev order : ℕ → Side → ℕ → ℕ → Order
order id side price qty = record {
  order_id = id;
  price = price;
  initial_quantity = qty;
  remaining_quantity = qty;
  timestamp = 0;
  side = side;
  type = limit;
}

abbrev at_node : ℕ → Order → Node
at_node a o = record { addr = a; order = o }

abbrev at_place : Side → ℕ → ℕ → Location
at_place side price a = record { side = side; price = price; list_it = a }

abbrev asks_101 : List Node
asks_101 = at_node 0 (order 1 sell 101 50) ∷ at_node 1 (order 2 sell 101 30) ∷ []

abbrev book : Book
book = record {
  bids = (99, at_node 3 (order 4 buy 99 10) ∷ []) ∷ [];
  asks = (101, asks_101) ∷ (102, at_node 2 (order 3 sell 102 40) ∷ []) ∷ [];
  order_index =
      (4, at_place buy 99 3)
      ∷ (1, at_place sell 101 0)
      ∷ (2, at_place sell 101 1)
      ∷ (3, at_place sell 102 2)
      ∷ [];
  next_node = 4;
}

book-IsValid : IsValid book
book-IsValid = record {
  indexed = record { distinct = (refl, (refl, (refl, (refl, tt)))); agree = λ k. refl };
  addressed = record { distinct = (refl, (refl, (refl, (refl, tt)))); below = omega arith };
  sound = record {
    bids = (record { filled = refl; orders = ((refl, refl, omega arith, refl), tt) }, tt, tt);
    asks = (
      record {
        filled = refl;
        orders = ((refl, refl, omega arith, refl), ((refl, refl, omega arith, refl), tt));
      },
      (refl, tt),
      (record { filled = refl; orders = ((refl, refl, omega arith, refl), tt) }, tt, tt),
    );
    uncrossed = omega arith;
  };
}

-- A buy of 70 at 101 takes the older ask whole and 20 of the younger.
taker : Order
taker = order 9 buy 101 70

allotment_of : ℕ → ℕ → ℕ → Allotment
allotment_of id price qty = record { maker_order_id = id; price = price; quantity = qty }

submit_takes :
    map allotment (submit_order book taker []).trades
    ≡ allotment_of 1 101 50 ∷ allotment_of 2 101 20 ∷ []
unfolding submit_order match_levels match_queue make_trade is_blocked admit taker allotment_of
    Dict.erase
submit_takes = refl

-- A larger one rests with what is left, as the best bid.
submit_rests : best_bid (submit_order book (order 9 buy 101 100) []).book ≡ some 101
unfolding submit_order match_levels match_queue is_blocked admit Dict.erase Dict.insert
    SortedMap.update best_bid
submit_rests = refl

duplicate_refused : (submit_order book (order 4 sell 99 5) []).accepted ≡ false
unfolding submit_order admit
duplicate_refused = refl

submit_order-Refines_example :
    Refines [] (submit_order book taker []) (Spec.submit (view book) taker)
submit_order-Refines_example = submit_order-Refines book taker [] book-IsValid

submit_order-IsValid_example : IsValid (submit_order book taker []).book
submit_order-IsValid_example = submit_order-IsValid book taker [] book-IsValid

abbrev history : List Call
history = cancels 1 ∷ submits (order 9 buy 101 70) ∷ submits (order 9 sell 99 5) ∷ clears ∷ []

run-refines_example :
    let (seen, last) = run book history in
    (spec_run (view book) history ≡ (seen, view last)) × IsValid last
run-refines_example = run-refines history book book-IsValid

submit_order-priority_example :
    let r = submit_order book (order 9 buy 101 70) [] in
    let met = reachable buy (order 9 buy 101 70) (view_levels book.asks) in
    (r.accepted ≡ acceptable (order 9 buy 101 70) (view book))
    × (map allotment r.trades ≡ (if r.accepted then consume 70 met else []))
    × All (Takes buy (order 9 buy 101 70)) r.trades
submit_order-priority_example = submit_order-priority book (order 9 buy 101 70) book-IsValid

abbrev two_sided : List Call
two_sided = submits (order 1 sell 101 50) ∷ submits (order 2 buy 99 20) ∷ []

best_bid-lt-best_ask_example : 99 < 101
unfolding run submit_order match_levels is_blocked admit Dict.insert SortedMap.update best_bid
    best_ask
best_bid-lt-best_ask_example = best_bid-lt-best_ask two_sided {p = 99} {q = 101} refl refl

match_levels-sweep_example :
    Sweeps []
      (match_levels buy 4 book.asks (order 9 buy 101 70) book.order_index [])
      (Spec.sweep buy (view_levels book.asks) (order 9 buy 101 70))
match_levels-sweep_example =
    match_levels-sweep buy 4 book.asks (order 9 buy 101 70) book.order_index [] (omega arith)

volume_of_101 : volume_at_price book sell 101 ≡ 80
unfolding volume_at_price SortedMap.find
volume_of_101 = refl

volume_at_price-total_example :
    volume_at_price book sell 101 ≡ total (orders (orders_at 101 book.asks)) % u32_mod
volume_at_price-total_example = volume_at_price-total book sell 101
