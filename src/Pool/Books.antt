-- ===== src/Pool/Books.antt =====
-- A PoolOrderBook (src/pool_order_book.cpp) and the StlOrderBook (src/stl_order_book.cpp) that its nodes
-- stand for, with node indices for addresses, through submit_order.
use lloms.Base.{ℕ, ◌+◌, ◌≡◌, ap, ◌∙◌, inl, inr, none, List, ◌++◌, arith, Bool-cases}
use lloms.Base.Dict
use lloms.Base.Dict.{lookup}
use lloms.Base.Keys.{Indexed}
use lloms.Types.{Side, buy, sell, Order}
use lloms.Matching.{rests}
use lloms.Spec.Valid.{IsSide}
use lloms.Pool.{Levels, Store, Book, Nodes, allocate_node}
use lloms.Pool.Orders.{rest_in, rest_order}
use lloms.Pool.Links.{Spares-Free}
use lloms.Pool.Carry.{Kept, Kept-swap, sizes, Spares-Carries}
use lloms.Pool.Allot.{HasRoom, allocate_node-Holds}
use lloms.Pool.Rest.{rest_in-Rests, insert-indexes, level_uses-add_node, sizes-add_node}
use lloms.Stl
use lloms.Stl.{Node, Index}
use lloms.Stl.Loops.{view_levels}
use lloms.Stl.Index.{places}
use lloms.Stl.Rest.{add_node, place_of}
use lloms.Stl.PushBack.{rest_order-Indexed}

pub record IsLinked (b : Book) (g : Stl.Book) : Type 0 where
  pub free : List ℕ
  pub kept : Kept b.store b.bids b.asks g.bids g.asks g.order_index free
  pub indexed : Indexed g.order_index (places buy g.bids ++ places sell g.asks)

abbrev pub orders_in : Stl.Book → ℕ
orders_in g = sizes g.bids + sizes g.asks

-- What rest_order makes of the store and of the levels of one side.
module _ (side : Side) (o : Order) (s : Store) (ls : Levels) where
  abbrev idx_of : ℕ
  idx_of = (allocate_node s o).0

  abbrev pub rested : Nodes × Levels
  rested = rest_in side o idx_of (allocate_node s o).1.nodes ls

  abbrev pub rested_store : Store
  rested_store = record (allocate_node s o).1 {
    order_index = Dict.insert o.order_id idx_of (allocate_node s o).1.order_index;
    nodes = rested.0;
  }

  abbrev node_of : Node
  node_of = record { addr = idx_of; order = o }

  record Stored (ms : Levels) (gs hs : Stl.Levels) (ix : Index) : Type 0 where
    pub left : List ℕ
    pub kept :
        Kept rested_store rested.1 ms
          (add_node side node_of gs)
          hs
          (Dict.insert o.order_id (place_of side node_of) ix)
          left

  rest_in-Stored :
      (ms : Levels) (gs hs : Stl.Levels) (ix : Index) (free : List ℕ)
      → Kept s ls ms gs hs ix free
      → HasRoom (sizes gs + sizes hs)
      → IsSide side (view_levels gs)
      → Stored ms gs hs ix
  rest_in-Stored ms gs hs ix free k room v =
      let h = allocate_node-Holds s o ls ms gs hs ix free room k in
      let r =
        rest_in-Rests side o idx_of (allocate_node s o).1.nodes h.small h.bound h.order ls gs h.own
          (λ j. omega (arith, h.apart j)) v in
      record {
        left = h.left;
        kept = record {
          own = r.carried;
          other =
              Spares-Carries ms hs r.spares
                (λ j u.
                  (omega (arith, h.apart j, u), λ e. absurd (ground (arith, h.apart j, e, u))))
                h.other;
          freed =
              Spares-Free (allocate_node s o).1.free_head h.left r.spares
                (λ j u.
                  (omega (arith, h.apart j, u), λ e. absurd (ground (arith, h.apart j, e, u))))
                h.freed;
          apart = λ j. omega (arith, h.apart j, level_uses-add_node side node_of j gs);
          counted = omega (arith, h.counted, r.spares.size, sizes-add_node side node_of gs);
          small = rw r.spares.size h.small;
          index =
              ap (Dict.insert o.order_id idx_of) h.index
              ∙ insert-indexes o.order_id (place_of side node_of) ix;
        };
      }

-- The list book in which the next node has the index that the pool gives out.
abbrev pub placing : Order → Book → Stl.Book → Stl.Book
placing o b g = record g { next_node = (allocate_node b.store o).0 }

module _ (o : Order) (b : Book) (g : Stl.Book) (h : IsLinked b g) (room : HasRoom (orders_in g))
    (new : lookup o.order_id g.order_index ≡ none) where
  bid_IsLinked :
      IsSide buy (view_levels g.bids)
      → IsLinked (rest_order buy o b) (Stl.rest_order buy o (placing o b g))
  unfolding rest_order Stl.rest_order
  bid_IsLinked v = elim (Bool-cases (rests o)) [
    | inl r ↦
        let k =
          rest_in-Stored buy o b.store b.bids b.asks g.bids g.asks g.order_index h.free h.kept room
            v in
        rw r (record {
          free = k.left;
          kept = k.kept;
          indexed = rw r at (rest_order-Indexed buy o (placing o b g) new h.indexed);
        })
    | inr r ↦ rw r (record { free = h.free; kept = h.kept; indexed = h.indexed })
  ]

  ask_IsLinked :
      IsSide sell (view_levels g.asks)
      → IsLinked (rest_order sell o b) (Stl.rest_order sell o (placing o b g))
  unfolding rest_order Stl.rest_order
  ask_IsLinked v = elim (Bool-cases (rests o)) [
    | inl r ↦
        let k =
          rest_in-Stored sell o b.store b.asks b.bids g.asks g.bids g.order_index h.free
            (Kept-swap h.kept) (omega (arith, room)) v in
        rw r (record {
          free = k.left;
          kept = Kept-swap k.kept;
          indexed = rw r at (rest_order-Indexed sell o (placing o b g) new h.indexed);
        })
    | inr r ↦ rw r (record { free = h.free; kept = h.kept; indexed = h.indexed })
  ]

pub rest_order-IsLinked :
    (side : Side) (o : Order) (b : Book) (g : Stl.Book)
    → IsLinked b g
    → HasRoom (orders_in g)
    → lookup o.order_id g.order_index ≡ none
    → IsSide side (view_levels (Stl.levels side g))
    → IsLinked (rest_order side o b) (Stl.rest_order side o (placing o b g))
rest_order-IsLinked buy o b g h room new v = bid_IsLinked o b g h room new v
rest_order-IsLinked sell o b g h room new v = ask_IsLinked o b g h room new v
