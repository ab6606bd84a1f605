-- ===== src/Tests/Pools.antt =====
-- src/pool_order_book.cpp on a pool of two nodes.
use lloms.Base.{ℕ, ◌≡◌, refl, some, [], ◌∷◌, arith}
use lloms.Base.Dict
use lloms.Base.SortedMap
use lloms.Types.{Side, buy, sell, Order, limit}
use lloms.Matching.{is_blocked, admit}
use lloms.Pool.{
  PriceLevel, Book, blank, linked_nodes, init, expand, allocate_node, free_node, append_to_level,
  remove_from_level,
}
use lloms.Pool.Match.{Filling, settle, match_head, match_level, match_levels, match_buy}
use lloms.Pool.Orders.{
  Submitted, rest_in, rest_order, submit_admitted, submit_order, cancel_at, cancel_node,
  cancel_order,
}
use lloms.Pool.Query.{volume_at_price, get_order}
use lloms.Pool.Volume.{match_level-total_volume}

abbrev order : ℕ → Side → ℕ → ℕ → Order
order id side price qty = record {
  order_id = id;
  price = price;
  initial_quantity = qty;
  remaining_quantity = qty;
  timestamp = 0;
  side = side;
  type = limit;
}

abbrev level : PriceLevel
level = record { price = 101; total_volume = 80; order_count = 2; head_idx = 0; tail_idx = 1 }

abbrev filling : Filling
filling = record {
  level = level;
  incoming = order 9 buy 101 70;
  store = record {
    nodes =
        record blank { order = order 1 sell 101 50; next_idx = 1 }
        ∷ record blank { order = order 2 sell 101 30; prev_idx = 0 }
        ∷ [];
    free_head = 4294967295;
    order_index = (1, 0) ∷ (2, 1) ∷ [];
  };
  trades = [];
}

match_level-total_volume_example : (match_level buy 4 filling).level.total_volume ≡ 80
match_level-total_volume_example = match_level-total_volume buy 4 filling (omega arith)

-- An ask of 50, a buy of 20 at its price, then the book's answers.
abbrev after_ask : Book
after_ask = (submit_order (init 2) (order 1 sell 101 50) []).book

abbrev after_buy : Submitted
after_buy = submit_order after_ask (order 2 buy 101 20) []

left_of_ask :
    get_order after_buy.book 1 ≡ some (record (order 1 sell 101 50) { remaining_quantity = 30 })
unfolding get_order submit_order admit submit_admitted match_buy match_levels match_level match_head
    settle is_blocked rest_order rest_in allocate_node expand append_to_level remove_from_level
    free_node init linked_nodes Dict.erase Dict.insert SortedMap.update SortedMap.find
left_of_ask = refl

-- 30 are left at 101, and the level still counts 50.
stale_volume : volume_at_price after_buy.book sell 101 ≡ 50
unfolding volume_at_price submit_order admit submit_admitted match_buy match_levels match_level
    match_head settle is_blocked rest_order rest_in allocate_node expand append_to_level
    remove_from_level free_node init linked_nodes Dict.erase Dict.insert SortedMap.update
    SortedMap.find
stale_volume = refl

-- The second order takes the second node; its cancellation frees the node for the next.
abbrev canceled : Book
canceled = (cancel_order (submit_order after_ask (order 3 sell 102 10) []).book 3).1

reused : canceled.free_head ≡ 1
unfolding cancel_order cancel_node cancel_at submit_order admit submit_admitted match_buy
    match_levels match_level match_head settle is_blocked rest_order rest_in allocate_node expand
    append_to_level remove_from_level free_node init linked_nodes Dict.erase Dict.insert
    SortedMap.update SortedMap.find
reused = refl
