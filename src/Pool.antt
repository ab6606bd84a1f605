-- ===== src/Pool.antt =====
-- include/pool_order_book.hpp and src/pool_order_book.cpp: orders in a vector of nodes, each level a
-- doubly linked list of node indices, and the unused nodes on a free list through `next_idx`. A function
-- that changes its arguments returns them. `nodes_[i]` out of range, which the code leaves undefined,
-- reads `blank` and writes nothing.
pub mod Match
pub mod Links
pub mod Round
pub mod Meet
pub mod Carry
pub mod Sweep
pub mod Grow
pub mod Allot
pub mod Rest
pub mod Drop
pub mod Found
pub mod Books
pub mod Submit
pub mod Represent
pub mod Homes
pub mod Withdraw
pub mod Fresh
pub mod Queries
pub mod Histories
pub mod Release
pub mod Attach
pub mod Detach
pub mod Orders
pub mod Query
pub mod Volume
use lloms.Base.{
  ℕ, zero, suc, ◌+◌, ◌-◌, ◌*◌, ◌%◌, Bool, true, false, none, some, List, [], ◌∷◌, ◌++◌, ltb, ◌==◌,
  if◌then◌else◌, is_some, get_or, set, length,
}
use lloms.Base.Dict
use lloms.Base.SortedMap
use lloms.Types.{Side, buy, sell, Order, limit, Trade, is_filled, u32_mod}
use lloms.Matching.{opposite, before, is_blocked, match_qty, reduce, make_trade, admit, rests}

abbrev pub invalid_idx : ℕ
invalid_idx = u32_mod - 1

pub record OrderNode : Type 0 where
  pub order : Order
  pub prev_idx : ℕ
  pub next_idx : ℕ

pub record PriceLevel : Type 0 where
  pub price : ℕ
  pub total_volume : ℕ
  pub order_count : ℕ
  pub head_idx : ℕ
  pub tail_idx : ℕ

abbrev pub Nodes : Type 0
Nodes = List OrderNode

abbrev pub Levels : Type 0
Levels = List (ℕ × PriceLevel)

-- `nodes_`, `free_head_` and `order_index_`.
pub record Store : Type 0 where
  pub nodes : Nodes
  pub free_head : ℕ
  pub order_index : List (ℕ × ℕ)

pub record Book : Type 0 where
  pub store : Store
  pub open store use *
  pub bids : Levels
  pub asks : Levels

-- The members' initialisers.
abbrev pub blank : OrderNode
blank = record {
  order = record {
    order_id = 0;
    price = 0;
    initial_quantity = 0;
    remaining_quantity = 0;
    timestamp = 0;
    side = buy;
    type = limit;
  };
  prev_idx = invalid_idx;
  next_idx = invalid_idx;
}

abbrev pub new_level : PriceLevel
new_level = record {
  price = 0;
  total_volume = 0;
  order_count = 0;
  head_idx = invalid_idx;
  tail_idx = invalid_idx;
}

abbrev pub is_empty : PriceLevel → Bool
is_empty level = level.head_idx == invalid_idx

abbrev pub node : Nodes → ℕ → OrderNode
node nodes i = get_or nodes i blank

abbrev pub change : ℕ → (OrderNode → OrderNode) → Nodes → Nodes
change i f nodes = set nodes i (f (node nodes i))

-- `(i + 1 < size) ? static_cast<uint32_t>(i + 1) : INVALID_IDX`
abbrev pub next_free : ℕ → ℕ → ℕ
next_free i size = if ltb (i + 1) size then (i + 1) % u32_mod else invalid_idx

-- `n` new nodes from index `i` on, linked into a free list that ends at `size`.
unfoldable pub linked_nodes : ℕ → ℕ → ℕ → Nodes
linked_nodes i zero size = []
linked_nodes i (suc n) size =
    record blank { prev_idx = invalid_idx; next_idx = next_free i size }
    ∷ linked_nodes (i + 1) n size

unfoldable pub init : ℕ → Book
unfolding linked_nodes
init capacity = record {
  store = record {
    nodes = linked_nodes 0 capacity capacity;
    free_head = if ltb 0 capacity then 0 else invalid_idx;
    order_index = [];
  };
  bids = [];
  asks = [];
}

-- An exhausted free list is renewed by doubling the vector.
unfoldable pub expand : Store → Store
unfolding linked_nodes
expand s =
    let old_size = length s.nodes in
    let new_size = if old_size == 0 then 1024 else old_size * 2 in
    if s.free_head == invalid_idx
    then record s {
      nodes = s.nodes ++ linked_nodes old_size (new_size - old_size) new_size;
      free_head = old_size % u32_mod;
    }
    else s

unfoldable pub allocate_node : Store → Order → ℕ × Store
unfolding expand
allocate_node s order =
    let s' = expand s in
    let idx = s'.free_head in
    (
      idx,
      record s' {
        nodes =
            change idx
              (λ n. record n { order = order; prev_idx = invalid_idx; next_idx = invalid_idx })
              s'.nodes;
        free_head = (node s'.nodes idx).next_idx;
      },
    )

unfoldable pub free_node : ℕ → Store → Store
free_node idx s = record s {
  nodes = change idx (λ n. record n { prev_idx = invalid_idx; next_idx = s.free_head }) s.nodes;
  free_head = idx;
}

-- A level with the nodes that it links.
pub record Linked : Type 0 where
  pub level : PriceLevel
  pub nodes : Nodes

unfoldable pub append_to_level : PriceLevel → ℕ → Nodes → Linked
append_to_level level idx nodes =
    let nodes1 =
      change idx (λ n. record n { prev_idx = level.tail_idx; next_idx = invalid_idx }) nodes in
    let first = level.tail_idx == invalid_idx in
    let nodes2 =
      if first then nodes1 else change level.tail_idx (λ n. record n { next_idx = idx }) nodes1 in
    record {
      level = record level {
        head_idx = if first then idx else level.head_idx;
        tail_idx = idx;
        total_volume = (level.total_volume + (node nodes2 idx).order.remaining_quantity) % u32_mod;
        order_count = (level.order_count + 1) % u32_mod;
      };
      nodes = nodes2;
    }

unfoldable pub remove_from_level : PriceLevel → ℕ → Nodes → Linked
remove_from_level level idx nodes =
    let p = (node nodes idx).prev_idx in
    let n = (node nodes idx).next_idx in
    let nodes1 =
      if p == invalid_idx then nodes else change p (λ m. record m { next_idx = n }) nodes in
    let nodes2 =
      if n == invalid_idx then nodes1 else change n (λ m. record m { prev_idx = p }) nodes1 in
    record {
      level = record level {
        head_idx = if p == invalid_idx then n else level.head_idx;
        tail_idx = if n == invalid_idx then p else level.tail_idx;
        total_volume =
            (level.total_volume + u32_mod - (node nodes2 idx).order.remaining_quantity) % u32_mod;
        order_count = (level.order_count + u32_mod - 1) % u32_mod;
      };
      nodes = nodes2;
    }
