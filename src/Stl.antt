-- ===== src/Stl.antt =====
-- include/stl_order_book.hpp and src/stl_order_book.cpp: price levels in two ordered maps, a linked
-- list of orders at each level, and an index from order ids to places.
-- A node of a `std::list` has an address, which is what an iterator holds; `next_node` is the address
-- of the next node to be allocated. A function that changes the book or its arguments returns them.
pub mod Query
pub mod Loops
pub mod Index
pub mod Valid
pub mod Rest
pub mod PushBack
pub mod Refine
pub mod Unlink
pub mod Cancel
pub mod Removal
pub mod Trading
pub mod Volume
use lloms.Base.{
  ℕ, zero, suc, ◌+◌, ◌%◌, ◌≡◌, Bool, true, false, Option, none, some, List, [], ◌∷◌, ◌++◌, ◌==◌,
  if◌then◌else◌, is_nil, is_some, length,
}
use lloms.Base.Dict
use lloms.Base.SortedMap
use lloms.Types.{Side, buy, sell, Order, Trade, is_filled, u32_mod}
use lloms.Matching.{opposite, before, is_blocked, match_qty, reduce, make_trade, admit, rests}

-- A node of a `std::list<Order>`.
pub record Node : Type 0 where
  pub addr : ℕ
  pub order : Order

abbrev pub Levels : Type 0
Levels = List (ℕ × List Node)

-- `OrderLocation`; `list_it` is the address that the iterator holds.
pub record Location : Type 0 where
  pub side : Side
  pub price : ℕ
  pub list_it : ℕ

abbrev pub Index : Type 0
Index = List (ℕ × Location)

pub record Book : Type 0 where
  pub bids : Levels
  pub asks : Levels
  pub order_index : Index
  pub next_node : ℕ

abbrev pub levels : Side → Book → Levels
levels buy b = b.bids
levels sell b = b.asks

abbrev pub set_levels : Side → Levels → Book → Book
set_levels buy ls b = record b { bids = ls }
set_levels sell ls b = record b { asks = ls }

abbrev pub empty : Book
empty = record { bids = []; asks = []; order_index = []; next_node = 0 }

-- The variables of the inner loop.
pub record Filling : Type 0 where
  pub queue : List Node
  pub incoming : Order
  pub index : Index
  pub trades : List Trade

-- The inner loop, `while (!queue.empty() && incoming.remaining_quantity > 0)`, on fuel.
unfoldable pub match_queue : Side → ℕ → List Node → Order → Index → List Trade → Filling
match_queue taker zero q incoming index out = record {
  queue = q;
  incoming = incoming;
  index = index;
  trades = out;
}
match_queue taker (suc fuel) [] incoming index out = record {
  queue = [];
  incoming = incoming;
  index = index;
  trades = out;
}
match_queue taker (suc fuel) (n ∷ q) incoming index out =
    let qty = match_qty n.order incoming in
    let out' = out ++ make_trade taker n.order incoming ∷ [] in
    let maker = reduce qty n.order in
    let incoming' = reduce qty incoming in
    let popped = match_queue taker fuel q incoming' (Dict.erase maker.order_id index) out' in
    let kept = match_queue taker fuel (record n { order = maker } ∷ q) incoming' index out' in
    if incoming.remaining_quantity == 0
    then record { queue = n ∷ q; incoming = incoming; index = index; trades = out }
    else if is_filled maker
    then popped
    else kept

pub record Matched : Type 0 where
  pub levels : Levels
  pub incoming : Order
  pub index : Index
  pub trades : List Trade

-- The outer loop, `while (!asks_.empty() && incoming.remaining_quantity > 0)`, on fuel. Two rounds
-- more than the queue is long are enough for the inner loop.
unfoldable pub match_levels : Side → ℕ → Levels → Order → Index → List Trade → Matched
match_levels taker zero ls incoming index out = record {
  levels = ls;
  incoming = incoming;
  index = index;
  trades = out;
}
match_levels taker (suc fuel) [] incoming index out = record {
  levels = [];
  incoming = incoming;
  index = index;
  trades = out;
}
match_levels taker (suc fuel) ((p, q) ∷ ls) incoming index out =
    let f = match_queue taker (length q + 2) q incoming index out in
    let erased = match_levels taker fuel ls f.incoming f.index f.trades in
    let kept = match_levels taker fuel ((p, f.queue) ∷ ls) f.incoming f.index f.trades in
    let stopped : Matched = record {
      levels = (p, q) ∷ ls;
      incoming = incoming;
      index = index;
      trades = out;
    } in
    if incoming.remaining_quantity == 0
    then stopped
    else if is_blocked taker incoming p
    then stopped
    else if is_nil f.queue
    then erased
    else kept

-- `match_buy` walks the asks and `match_sell` the bids.
unfoldable pub match_against : Side → Levels → Order → Index → List Trade → Matched
unfolding match_levels
match_against taker ls incoming index out = match_levels taker (length ls + 2) ls incoming index out

pub record Submitted : Type 0 where
  pub accepted : Bool
  pub book : Book
  pub trades : List Trade

unfoldable pub match_buy : Book → Order → List Trade → Matched
unfolding match_against
match_buy b incoming out = match_against buy b.asks incoming b.order_index out

unfoldable pub match_sell : Book → Order → List Trade → Matched
unfolding match_against
match_sell b incoming out = match_against sell b.bids incoming b.order_index out

-- `queue.push_back(order)` in the level of its price, and its place in the index.
unfoldable pub push_back : Side → Order → Book → Book
push_back side o b =
    let b' =
      set_levels side
        (SortedMap.update (before side) o.price []
          (λ q. q ++ record { addr = b.next_node; order = o } ∷ []) (levels side b))
        b in
    let place : Location = record { side = side; price = o.price; list_it = b.next_node } in
    record b' {
      order_index = Dict.insert o.order_id place b.order_index;
      next_node = b.next_node + 1;
    }

-- The leftover of a limit order rests in the book.
unfoldable pub rest_order : Side → Order → Book → Book
unfolding push_back
rest_order side o b = if rests o then push_back side o b else b

submit_buy : Book → Order → List Trade → Submitted
unfolding match_buy rest_order
submit_buy b o out =
    let m = match_buy b o out in
    record {
      accepted = true;
      book = rest_order buy m.incoming (record b { asks = m.levels; order_index = m.index });
      trades = m.trades;
    }

submit_sell : Book → Order → List Trade → Submitted
unfolding match_sell rest_order
submit_sell b o out =
    let m = match_sell b o out in
    record {
      accepted = true;
      book = rest_order sell m.incoming (record b { bids = m.levels; order_index = m.index });
      trades = m.trades;
    }

unfoldable pub submit_admitted : Side → Book → Order → List Trade → Submitted
unfolding submit_buy submit_sell
submit_admitted buy b o out = submit_buy b o out
submit_admitted sell b o out = submit_sell b o out

abbrev pub known : Book → ℕ → Bool
known b id = is_some (Dict.lookup id b.order_index)

unfoldable pub submit_order : Book → Order → List Trade → Submitted
unfolding submit_admitted
submit_order b o out = elim (admit (known b o.order_id) o) [
  | none ↦ record { accepted = false; book = b; trades = out }
  | some o' ↦ submit_admitted o.side b o' out
]

-- `queue.erase(it)`: unlinks the node at the address.
unfoldable pub erase_node : ℕ → List Node → List Node
erase_node a [] = []
erase_node a (n ∷ q) = if n.addr == a then q else n ∷ erase_node a q

-- One side's part of cancel_order: a level that becomes empty is erased.
unfoldable pub cancel_at : ℕ → ℕ → Levels → Levels
unfolding erase_node
cancel_at price a ls = elim (SortedMap.find price ls) [
  | none ↦ ls
  | some q ↦
      if is_nil (erase_node a q)
      then SortedMap.erase price ls
      else SortedMap.modify price (erase_node a) ls
]

unfoldable pub cancel_place : Book → ℕ → Location → Book
unfolding cancel_at
cancel_place b id loc =
    let b' = set_levels loc.side (cancel_at loc.price loc.list_it (levels loc.side b)) b in
    record b' { order_index = Dict.erase id b.order_index }

unfoldable pub cancel_order : Book → ℕ → Bool × Book
unfolding cancel_place
cancel_order b id = elim (Dict.lookup id b.order_index) [
  | none ↦ (false, b)
  | some loc ↦ (true, cancel_place b id loc)
]
