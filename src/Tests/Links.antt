-- ===== src/Tests/Links.antt =====
-- src/pool_order_book.cpp against the abstract book, on short histories of a pool of one node.
use lloms.Base.{◌≢◌, some, false, is_nil, length, ℕ, ◌≡◌, List, [], ◌∷◌, arith}
use lloms.Base.SortedMap
use lloms.Types.{Side, buy, sell, Order, limit}
use lloms.Matching.{admit}
use lloms.Spec
use lloms.Pool.{Book, init}
use lloms.Pool.Orders.{submit_order, cancel_order}
use lloms.Pool.Allot.{HasRoom}
use lloms.Pool.Represent.{Represents, Follows, count_orders, submit_order-Follows}
use lloms.Pool.Query.{has_order, get_order, best_bid, best_ask, bid_levels, ask_levels}
use lloms.Pool.Queries.{find_order, best_price, get_order-Represents}
use lloms.Protocol.{new, unknown}
use lloms.Gateway.Execute.{IngressMessage, ResponseMessage, execute_command}
use lloms.Gateway.Responds.{execute_command-responds}
use lloms.Pool.Withdraw.{cancel_order-Represents}
use lloms.Pool.Fresh.{no_orders, init-Represents}
use lloms.Pool.Histories.{run, run-Represents, run-Stl}
use lloms.Stl
use lloms.Stl.Trading
use lloms.Stl.Trading.{Call, submits, cancels, clears, spec_run}

abbrev order : ℕ → Side → ℕ → ℕ → Order
order id side price qty = record {
  order_id = id;
  price = price;
  initial_quantity = qty;
  remaining_quantity = qty;
  timestamp = 0;
  side = side;
  type = limit;
}

-- Two asks make the vector grow; a buy takes one and a part of the other.
abbrev calls : List Call
calls =
    submits (order 1 sell 101 50)
    ∷ submits (order 2 sell 102 50)
    ∷ submits (order 3 buy 102 70)
    ∷ cancels 2
    ∷ clears
    ∷ []

run-Represents_example :
    ((run (init 1) calls).0 ≡ (spec_run no_orders calls).0)
    × Represents (run (init 1) calls).1 (spec_run no_orders calls).1
run-Represents_example =
    run-Represents calls (init 1) no_orders (init-Represents 1 (omega arith)) (omega arith)

run-Stl_example : (run (init 1) calls).0 ≡ (Trading.run Stl.empty calls).0
run-Stl_example = run-Stl 1 calls (omega arith) (omega arith)

abbrev after_ask : Book
after_ask = (submit_order (init 1) (order 1 sell 101 50) []).book

abbrev spec_ask : Spec.Book
spec_ask = (Spec.submit no_orders (order 1 sell 101 50)).book

after_ask-Represents : Represents after_ask spec_ask
after_ask-Represents =
    (submit_order-Follows (init 1) no_orders (order 1 sell 101 50) []
      (init-Represents 1 (omega arith)) (omega arith)).book

spec_ask-HasRoom : HasRoom (count_orders spec_ask)
unfolding Spec.submit Spec.submit_admitted Spec.sweep Spec.rest_order Spec.has_order admit
    SortedMap.update
spec_ask-HasRoom = omega arith

submit_order-Follows_example :
    Follows []
      (submit_order after_ask (order 2 buy 101 20) [])
      (Spec.submit spec_ask (order 2 buy 101 20))
submit_order-Follows_example =
    submit_order-Follows after_ask spec_ask (order 2 buy 101 20) [] after_ask-Represents
      spec_ask-HasRoom

cancel_order-Represents_example :
    ((cancel_order after_ask 1).0 ≡ (Spec.cancel spec_ask 1).0)
    × Represents (cancel_order after_ask 1).1 (Spec.cancel spec_ask 1).1
cancel_order-Represents_example = cancel_order-Represents after_ask spec_ask 1 after_ask-Represents

get_order-Represents_example :
    (has_order after_ask 1 ≡ Spec.has_order 1 spec_ask)
    × (get_order after_ask 1 ≡ find_order 1 spec_ask)
    × (best_bid after_ask ≡ best_price spec_ask.bids)
    × (best_ask after_ask ≡ best_price spec_ask.asks)
    × (bid_levels after_ask ≡ length spec_ask.bids)
    × (ask_levels after_ask ≡ length spec_ask.asks)
get_order-Represents_example = get_order-Represents after_ask spec_ask 1 after_ask-Represents

-- A limit order that crosses nothing.
abbrev message : IngressMessage
message = record {
  sequence = 7;
  client_fd = 5;
  ingress_timestamp = 0;
  command = record { type = new; order = order 2 buy 100 20; cancel_id = 0; error_msg = [] };
}

known_command : new ≢ unknown
known_command e = absurd (cc e)

execute_command-responds_example :
    (resp : ResponseMessage) × ((execute_command (λ n. n ∷ []) after_ask message).1 ≡ some resp)
    × (resp.client_fd ≡ 5)
    × (resp.sequence ≡ 7)
    × (is_nil resp.payload ≡ false)
execute_command-responds_example =
    execute_command-responds (λ n. n ∷ []) after_ask spec_ask message after_ask-Represents
      spec_ask-HasRoom known_command
