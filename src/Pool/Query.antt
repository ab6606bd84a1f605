-- ===== src/Pool/Query.antt =====
-- The queries of src/pool_order_book.cpp.
use mathlib.Core.Option
use lloms.Base.{ℕ, Bool, Option, none, some, [], ◌∷◌, length, is_some}
use lloms.Base.Dict
use lloms.Base.SortedMap
use lloms.Types.{Side, buy, sell, Order}
use lloms.Pool.{Levels, Book, node}

unfoldable pub has_order : Book → ℕ → Bool
has_order b id = is_some (Dict.lookup id b.order_index)

unfoldable pub get_order : Book → ℕ → Option Order
get_order b id = Option.map (λ idx. (node b.nodes idx).order) (Dict.lookup id b.order_index)

-- `begin()->first`
unfoldable pub best : Levels → Option ℕ
best [] = none
best ((p, level) ∷ ls) = some p

unfoldable pub best_bid : Book → Option ℕ
unfolding best
best_bid b = best b.bids

unfoldable pub best_ask : Book → Option ℕ
unfolding best
best_ask b = best b.asks

unfoldable pub total_orders : Book → ℕ
total_orders b = length b.order_index

unfoldable pub bid_levels : Book → ℕ
bid_levels b = length b.bids

unfoldable pub ask_levels : Book → ℕ
ask_levels b = length b.asks

abbrev levels : Side → Book → Levels
levels buy b = b.bids
levels sell b = b.asks

unfoldable pub volume_at_price : Book → Side → ℕ → ℕ
volume_at_price b side price = elim (SortedMap.find price (levels side b)) [
  | none ↦ 0
  | some level ↦ level.total_volume
]

unfoldable pub pool_capacity : Book → ℕ
pool_capacity b = length b.nodes
