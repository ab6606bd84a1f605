-- ===== src/Pool/Orders.antt =====
-- submit_order, cancel_order and clear of src/pool_order_book.cpp.
use lloms.Base.{
  ℕ, ◌+◌, Bool, true, false, none, some, List, [], ◌∷◌, ltb, if◌then◌else◌, is_some, length,
}
use lloms.Base.Dict
use lloms.Base.SortedMap
use lloms.Types.{Side, buy, sell, Order, Trade}
use lloms.Matching.{before, admit, rests}
use lloms.Pool.{
  invalid_idx, PriceLevel, Nodes, Levels, Store, Book, new_level, is_empty, node, next_free,
  allocate_node, free_node, append_to_level, remove_from_level,
}
use lloms.Pool.Match.{match_buy, match_sell}

-- `auto& level = map[order.price]; level.price = order.price; append_to_level(level, idx)`.
unfoldable pub rest_in : Side → Order → ℕ → Nodes → Levels → Nodes × Levels
unfolding append_to_level
rest_in side o idx nodes ls =
    let place =
      λ (level : PriceLevel). append_to_level (record level { price = o.price }) idx nodes in
    (
      (place (elim (SortedMap.find o.price ls) [ none ↦ new_level | some level ↦ level ])).nodes,
      SortedMap.update (before side) o.price new_level (λ level. (place level).level) ls,
    )

-- The leftover of a limit order rests in the book.
unfoldable pub rest_order : Side → Order → Book → Book
unfolding allocate_node rest_in
rest_order side o b =
    let (idx, s) = allocate_node b.store o in
    let indexed = record s { order_index = Dict.insert o.order_id idx s.order_index } in
    let on_bids = rest_in buy o idx s.nodes b.bids in
    let on_asks = rest_in sell o idx s.nodes b.asks in
    if rests o
    then elim side [
      | buy ↦ record b { store = record indexed { nodes = on_bids.0 }; bids = on_bids.1 }
      | sell ↦ record b { store = record indexed { nodes = on_asks.0 }; asks = on_asks.1 }
    ]
    else b

pub record Submitted : Type 0 where
  pub accepted : Bool
  pub book : Book
  pub trades : List Trade

unfoldable pub submit_admitted : Side → Book → Order → List Trade → Submitted
unfolding match_buy match_sell rest_order
submit_admitted buy b o out =
    let m = match_buy b o out in
    record {
      accepted = true;
      book = rest_order buy m.incoming (record b { store = m.store; asks = m.levels });
      trades = m.trades;
    }
submit_admitted sell b o out =
    let m = match_sell b o out in
    record {
      accepted = true;
      book = rest_order sell m.incoming (record b { store = m.store; bids = m.levels });
      trades = m.trades;
    }

abbrev pub known : Book → ℕ → Bool
known b id = is_some (Dict.lookup id b.order_index)

unfoldable pub submit_order : Book → Order → List Trade → Submitted
unfolding submit_admitted
submit_order b o out = elim (admit (known b o.order_id) o) [
  | none ↦ record { accepted = false; book = b; trades = out }
  | some o' ↦ submit_admitted o.side b o' out
]

-- One side's part of cancel_order.
unfoldable pub cancel_at : ℕ → ℕ → Nodes → Levels → Nodes × Levels
unfolding remove_from_level
cancel_at price idx nodes ls = elim (SortedMap.find price ls) [
  | none ↦ (nodes, ls)
  | some level ↦
      let r = remove_from_level level idx nodes in
      (
        r.nodes,
        if is_empty r.level
            then SortedMap.erase price ls
            else SortedMap.modify price (λ _. r.level) ls,
      )
]

-- `free_node(node_idx); order_index_.erase(it);` over the nodes that the unlinking leaves.
abbrev pub release : ℕ → ℕ → Nodes → Store → Store
release id idx nodes s =
    let s' = free_node idx (record s { nodes = nodes }) in
    record s' { order_index = Dict.erase id s'.order_index }

unfoldable pub cancel_node : Book → ℕ → ℕ → Book
unfolding cancel_at free_node
cancel_node b id idx =
    let o = (node b.nodes idx).order in
    let on_bids = cancel_at o.price idx b.nodes b.bids in
    let on_asks = cancel_at o.price idx b.nodes b.asks in
    elim o.side [
      | buy ↦ record b { store = release id idx on_bids.0 b.store; bids = on_bids.1 }
      | sell ↦ record b { store = release id idx on_asks.0 b.store; asks = on_asks.1 }
    ]

unfoldable pub cancel_order : Book → ℕ → Bool × Book
unfolding cancel_node
cancel_order b id = elim (Dict.lookup id b.order_index) [
  | none ↦ (false, b)
  | some idx ↦ (true, cancel_node b id idx)
]

-- `clear`: every node goes back to the free list; the orders in the nodes stay.
unfoldable pub relink : ℕ → ℕ → Nodes → Nodes
relink i size [] = []
relink i size (n ∷ nodes) =
    record n { prev_idx = invalid_idx; next_idx = next_free i size } ∷ relink (i + 1) size nodes

unfoldable pub clear : Book → Book
unfolding relink
clear b = record {
  store = record {
    nodes = relink 0 (length b.nodes) b.nodes;
    free_head = if ltb 0 (length b.nodes) then 0 else invalid_idx;
    order_index = [];
  };
  bids = [];
  asks = [];
}
