-- ===== src/Spec.antt =====
-- What an order book promises, without index, node addresses or links: for each side the price
-- levels, best first, each with its resting orders, oldest first. Both engines
-- (src/stl_order_book.cpp, src/pool_order_book.cpp) are measured against it.
pub mod Fill
pub mod Valid
pub mod Sides
pub mod Keeps
pub mod Ids
pub mod Priority
pub mod Acceptance
use lloms.Base.{
  ℕ, Bool, true, false, ◌||◌, none, some, List, [], ◌∷◌, ◌++◌, ◌==◌, if◌then◌else◌, is_nil,
}
use lloms.Base.SortedMap
use lloms.Types.{Side, buy, sell, Order, Trade, is_filled}
use lloms.Matching.{opposite, before, is_blocked, match_qty, reduce, make_trade, admit, rests}

abbrev pub Levels : Type 0
Levels = List (ℕ × List Order)

pub record Book : Type 0 where
  pub bids : Levels
  pub asks : Levels

abbrev pub levels : Side → Book → Levels
levels buy b = b.bids
levels sell b = b.asks

abbrev pub set_levels : Side → Levels → Book → Book
set_levels buy ls b = record b { bids = ls }
set_levels sell ls b = record b { asks = ls }

-- What is left of a queue, of the taker, and the trades.
pub record Filled : Type 0 where
  pub queue : List Order
  pub incoming : Order
  pub trades : List Trade

pub record Swept : Type 0 where
  pub levels : Levels
  pub incoming : Order
  pub trades : List Trade

-- The taker meets the orders of one level in turn.
unfoldable pub fill : Side → List Order → Order → Filled
fill taker [] incoming = record { queue = []; incoming = incoming; trades = [] }
fill taker (maker ∷ q) incoming =
    let qty = match_qty maker incoming in
    let t = make_trade taker maker incoming in
    let rest = fill taker q (reduce qty incoming) in
    if incoming.remaining_quantity == 0
    then record { queue = maker ∷ q; incoming = incoming; trades = [] }
    else if is_filled (reduce qty maker)
    then record rest { trades = t ∷ rest.trades }
    else record { queue = reduce qty maker ∷ q; incoming = reduce qty incoming; trades = t ∷ [] }

-- The taker meets the levels of the other side in turn, as far as its price allows.
unfoldable pub sweep : Side → Levels → Order → Swept
sweep taker [] incoming = record { levels = []; incoming = incoming; trades = [] }
sweep taker ((p, q) ∷ ls) incoming =
    let f = fill taker q incoming in
    let rest = sweep taker ls f.incoming in
    if incoming.remaining_quantity == 0
    then record { levels = (p, q) ∷ ls; incoming = incoming; trades = [] }
    else if is_blocked taker incoming p
    then record { levels = (p, q) ∷ ls; incoming = incoming; trades = [] }
    else if is_nil f.queue
    then record rest { trades = f.trades ++ rest.trades }
    else record { levels = (p, f.queue) ∷ ls; incoming = f.incoming; trades = f.trades }

unfoldable pub contains : ℕ → List Order → Bool
contains id [] = false
contains id (o ∷ q) = (o.order_id == id) || contains id q

unfoldable pub contains_level : ℕ → Levels → Bool
unfolding contains
contains_level id [] = false
contains_level id ((p, q) ∷ ls) = contains id q || contains_level id ls

unfoldable pub has_order : ℕ → Book → Bool
unfolding contains_level
has_order id b = contains_level id b.bids || contains_level id b.asks

-- A new order goes to the end of the queue of its price.
abbrev pub enqueue : Side → Order → Levels → Levels
enqueue side o = SortedMap.update (before side) o.price [] (λ q. q ++ o ∷ [])

unfoldable pub rest_order : Side → Order → Book → Book
rest_order side o b = if rests o then set_levels side (enqueue side o (levels side b)) b else b

pub record Submitted : Type 0 where
  pub accepted : Bool
  pub book : Book
  pub trades : List Trade

unfoldable pub submit_admitted : Side → Book → Order → Submitted
submit_admitted side b o =
    let s = sweep side (levels (opposite side) b) o in
    record {
      accepted = true;
      book = rest_order side s.incoming (set_levels (opposite side) s.levels b);
      trades = s.trades;
    }

unfoldable pub submit : Book → Order → Submitted
unfolding submit_admitted
submit b o = elim (admit (has_order o.order_id b) o) [
  | none ↦ record { accepted = false; book = b; trades = [] }
  | some o' ↦ submit_admitted o.side b o'
]

unfoldable pub drop_order : ℕ → List Order → List Order
drop_order id [] = []
drop_order id (o ∷ q) = if o.order_id == id then q else o ∷ drop_order id q

-- Without the order `id`, and without its level if it was the last order there.
unfoldable pub remove : ℕ → Levels → Levels
remove id [] = []
remove id ((p, q) ∷ ls) =
    if contains id q
    then (if is_nil (drop_order id q) then ls else (p, drop_order id q) ∷ ls)
    else (p, q) ∷ remove id ls

unfoldable pub cancel : Book → ℕ → Bool × Book
cancel b id =
    if contains_level id b.bids
    then (true, record b { bids = remove id b.bids })
    else if contains_level id b.asks
    then (true, record b { asks = remove id b.asks })
    else (false, b)
