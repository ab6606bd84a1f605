-- ===== src/Pool/Match.antt =====
-- match_buy and match_sell of src/pool_order_book.cpp, which differ in the side and in the price test.
use lloms.Base.{ℕ, zero, suc, ◌+◌, List, [], ◌∷◌, ◌++◌, ◌==◌, if◌then◌else◌, length}
use lloms.Base.Dict
use lloms.Types.{Side, buy, sell, Order, Trade, is_filled}
use lloms.Matching.{is_blocked, match_qty, reduce, make_trade}
use lloms.Pool.{
  PriceLevel, Levels, Store, Book, is_empty, node, change, free_node, remove_from_level,
}

-- The variables of the inner loop.
pub record Filling : Type 0 where
  pub level : PriceLevel
  pub incoming : Order
  pub store : Store
  pub trades : List Trade

-- `if (maker.is_filled())`, after the trade with the node `idx`.
unfoldable pub settle : PriceLevel → ℕ → Store → PriceLevel × Store
unfolding remove_from_level free_node
settle level idx s =
    let maker = (node s.nodes idx).order in
    let r = remove_from_level level idx s.nodes in
    let s' = record s { nodes = r.nodes; order_index = Dict.erase maker.order_id s.order_index } in
    if is_filled maker then (r.level, free_node idx s') else (level, s)

-- One round of the inner loop.
unfoldable pub match_head : Side → Filling → Filling
unfolding settle
match_head taker f =
    let idx = f.level.head_idx in
    let maker = (node f.store.nodes idx).order in
    let qty = match_qty maker f.incoming in
    let traded = record f.store {
      nodes = change idx (λ n. record n { order = reduce qty n.order }) f.store.nodes;
    } in
    let (level, store) = settle f.level idx traded in
    record {
      level = level;
      incoming = reduce qty f.incoming;
      store = store;
      trades = f.trades ++ make_trade taker maker f.incoming ∷ [];
    }

-- `while (level.head_idx != INVALID_IDX && incoming.remaining_quantity > 0)`, on fuel.
unfoldable pub match_level : Side → ℕ → Filling → Filling
unfolding match_head
match_level taker zero f = f
match_level taker (suc fuel) f =
    let rest = match_level taker fuel (match_head taker f) in
    if is_empty f.level then f else if f.incoming.remaining_quantity == 0 then f else rest

pub record Matched : Type 0 where
  pub levels : Levels
  pub incoming : Order
  pub store : Store
  pub trades : List Trade

-- The outer loop of match_buy and match_sell, on fuel. A level has at most as many orders as there are
-- nodes, so two rounds more are enough for the inner loop.
unfoldable pub match_levels : Side → ℕ → Levels → Order → Store → List Trade → Matched
unfolding match_level
match_levels taker zero ls incoming s out = record {
  levels = ls;
  incoming = incoming;
  store = s;
  trades = out;
}
match_levels taker (suc fuel) [] incoming s out = record {
  levels = [];
  incoming = incoming;
  store = s;
  trades = out;
}
match_levels taker (suc fuel) ((p, level) ∷ ls) incoming s out =
    let f =
      match_level taker (length s.nodes + 2)
        (record { level = level; incoming = incoming; store = s; trades = out }) in
    let erased = match_levels taker fuel ls f.incoming f.store f.trades in
    let kept = match_levels taker fuel ((p, f.level) ∷ ls) f.incoming f.store f.trades in
    let stopped : Matched = record {
      levels = (p, level) ∷ ls;
      incoming = incoming;
      store = s;
      trades = out;
    } in
    if incoming.remaining_quantity == 0
    then stopped
    else if is_blocked taker incoming level.price
    then stopped
    else if is_empty f.level
    then erased
    else kept

unfoldable pub match_buy : Book → Order → List Trade → Matched
unfolding match_levels
match_buy b incoming out = match_levels buy (length b.asks + 2) b.asks incoming b.store out

unfoldable pub match_sell : Book → Order → List Trade → Matched
unfolding match_levels
match_sell b incoming out = match_levels sell (length b.bids + 2) b.bids incoming b.store out
