-- ===== src/Stl/Query.antt =====
-- The queries of src/stl_order_book.cpp, and `clear`.
use lloms.Base.{
  ℕ, ◌+◌, ◌%◌, Bool, Option, none, some, List, [], ◌∷◌, ◌==◌, if◌then◌else◌, length, is_some,
}
use lloms.Base.Dict
use lloms.Base.SortedMap
use lloms.Types.{Side, Order, u32_mod}
use lloms.Stl.{Node, Levels, Book, levels}

unfoldable pub has_order : Book → ℕ → Bool
has_order b id = is_some (Dict.lookup id b.order_index)

-- The node of a queue that stands at an address.
unfoldable pub node_at : ℕ → List Node → Option Order
node_at a [] = none
node_at a (n ∷ q) = if n.addr == a then some n.order else node_at a q

abbrev or_else {ℓ} : {A : Type ℓ} → Option A → Option A → Option A
or_else none y = y
or_else (some x) y = some x

-- `*it`: a node is looked for in every list of a map; `none` is a dangling iterator.
unfoldable pub deref : ℕ → Levels → Option Order
unfolding node_at
deref a [] = none
deref a ((p, q) ∷ ls) = or_else (node_at a q) (deref a ls)

unfoldable pub get_order : Book → ℕ → Option Order
unfolding deref
get_order b id = elim (Dict.lookup id b.order_index) [
  | none ↦ none
  | some loc ↦ or_else (deref loc.list_it b.bids) (deref loc.list_it b.asks)
]

-- `begin()->first`
unfoldable pub best : Levels → Option ℕ
best [] = none
best ((p, q) ∷ ls) = some p

unfoldable pub best_bid : Book → Option ℕ
unfolding best
best_bid b = best b.bids

unfoldable pub best_ask : Book → Option ℕ
unfolding best
best_ask b = best b.asks

unfoldable pub total_orders : Book → ℕ
total_orders b = length b.order_index

unfoldable pub bid_levels : Book → ℕ
bid_levels b = length b.bids

unfoldable pub ask_levels : Book → ℕ
ask_levels b = length b.asks

-- `total += ord.remaining_quantity` for each order, in 32 bits.
unfoldable pub add_volumes : ℕ → List Node → ℕ
add_volumes total [] = total
add_volumes total (n ∷ q) = add_volumes ((total + n.order.remaining_quantity) % u32_mod) q

unfoldable pub volume_at_price : Book → Side → ℕ → ℕ
unfolding add_volumes
volume_at_price b side price = elim (SortedMap.find price (levels side b)) [
  | none ↦ 0
  | some q ↦ add_volumes 0 q
]

unfoldable pub clear : Book → Book
clear b = record b { bids = []; asks = []; order_index = [] }
