-- ===== src/Matching.antt =====
-- What the bodies of submit_order, match_buy and match_sell of src/stl_order_book.cpp and
-- src/pool_order_book.cpp have in common, word for word in both files. `match_buy` and `match_sell`
-- differ in the comparison of prices, the side of the trades and the map that they walk: they are one
-- definition with the taker's side as an argument.
use lloms.Base.{ℕ, ◌-◌, Bool, ◌&&◌, Option, none, some, min, ltb, ◌==◌, if◌then◌else◌}
use lloms.Types.{Side, buy, sell, is_limit, Order, Trade}

abbrev pub opposite : Side → Side
opposite buy = sell
opposite sell = buy

-- The comparator of a side's map: `std::greater` for the bids, `std::less` for the asks.
abbrev pub before : Side → ℕ → ℕ → Bool
before buy p q = ltb q p
before sell p q = ltb p q

abbrev pub is_buy : Side → Bool
is_buy buy = Bool.true
is_buy sell = Bool.false

-- The price does not cross the spread: the taker's price lies strictly before the best price.
abbrev pub misses : Side → ℕ → ℕ → Bool
misses buy price best = ltb price best
misses sell price best = ltb best price

-- `incoming.type == OrderType::Limit && incoming.price < best_price` (or `>`), the loop's `break`.
unfoldable pub is_blocked : Side → Order → ℕ → Bool
is_blocked taker incoming best = is_limit incoming.type && misses taker incoming.price best

abbrev pub match_qty : Order → Order → ℕ
match_qty maker incoming = min incoming.remaining_quantity maker.remaining_quantity

-- `order.remaining_quantity -= qty`, with `qty` at most what remains.
abbrev pub reduce : ℕ → Order → Order
reduce qty order = record order { remaining_quantity = order.remaining_quantity - qty }

unfoldable pub make_trade : Side → Order → Order → Trade
make_trade taker maker incoming = record {
  maker_order_id = maker.order_id;
  taker_order_id = incoming.order_id;
  price = maker.price;
  quantity = match_qty maker incoming;
  timestamp = incoming.timestamp;
  aggressor_side = taker;
}

-- The guards of submit_order, in their order; `known` says that the id is in `order_index_`. An order
-- that passes comes out with its remaining quantity filled in.
refreshed : Order → Order
refreshed order =
    if order.remaining_quantity == 0
    then record order { remaining_quantity = order.initial_quantity }
    else order

unfoldable pub admit : Bool → Order → Option Order
unfolding refreshed
admit known order =
    if order.initial_quantity == 0
    then none
    else if is_limit order.type && (order.price == 0)
    then none
    else if known
    then none
    else some (refreshed order)

-- `order.remaining_quantity > 0 && order.type == OrderType::Limit`, after the matching.
abbrev pub rests : Order → Bool
rests order = ltb 0 order.remaining_quantity && is_limit order.type
