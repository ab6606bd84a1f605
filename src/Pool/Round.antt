-- ===== src/Pool/Round.antt =====
-- One round of the inner loop of match_buy and match_sell of src/pool_order_book.cpp.
use lloms.Base.{ℕ, ◌<◌, ◌≡◌, ◌≢◌, refl, ap, ◌∙◌, true, false, List, [], ◌∷◌, ◌++◌, arith, length}
use lloms.Base.Dict
use lloms.Types.{Side, Order, Trade, is_filled}
use lloms.Matching.{match_qty, reduce, make_trade}
use lloms.Pool.{
  OrderNode, PriceLevel, Nodes, Store, invalid_idx, node, change, remove_from_level, free_node,
}
use lloms.Pool.Match.{Filling, settle, match_head}
use lloms.Pool.Links.{uses, Chain, Spares, Spares-Chain, change-Spares, node-change_self}
use lloms.Pool.Release.{released}
use lloms.Stl.{Node, Index}

-- The index of the pool holds the node of each order.
abbrev pub indexes : Index → List (ℕ × ℕ)
indexes [] = []
indexes ((id, loc) ∷ ix) = (id, loc.list_it) ∷ indexes ix

pub erase-indexes : (k : ℕ) (ix : Index) → Dict.erase k (indexes ix) ≡ indexes (Dict.erase k ix)
unfolding Dict.erase
erase-indexes k [] = refl
erase-indexes k ((id, loc) ∷ ix) = ground (arith, erase-indexes k ix)

-- The nodes after a trade with the node `i`.
abbrev pub traded : ℕ → ℕ → Nodes → Nodes
traded qty i nodes = change i (λ n. record n { order = reduce qty n.order }) nodes

module _ (taker : Side) (level : PriceLevel) (n : Node) (q : List Node) (s : Store)
    (c : Chain s.nodes invalid_idx level.head_idx (n ∷ q) level.tail_idx) (incoming : Order)
    (out : List Trade) where
  abbrev at_head : Filling
  at_head = record { level = level; incoming = incoming; store = s; trades = out }

  maker_lem : (node s.nodes level.head_idx).order ≡ n.order
  maker_lem = ap (λ i. (node s.nodes i).order) c.0 ∙ c.2

  same_qty : match_qty (node s.nodes level.head_idx).order incoming ≡ match_qty n.order incoming
  same_qty = ap (λ (o : Order). match_qty o incoming) maker_lem

  same_trade :
      make_trade taker (node s.nodes level.head_idx).order incoming
      ≡ make_trade taker n.order incoming
  same_trade = ap (λ (o : Order). make_trade taker o incoming) maker_lem

  bound : level.head_idx < length s.nodes
  bound = rw c.0 c.1

  module _ (qty : ℕ) where
    traded_order :
        (node (traded qty level.head_idx s.nodes) level.head_idx).order ≡ reduce qty n.order
    traded_order =
        ap (λ (m : OrderNode). m.order)
          (node-change_self level.head_idx (λ m. record m { order = reduce qty m.order }) s.nodes
            bound)
        ∙ ap (reduce qty) maker_lem

    traded-Spares : Spares (λ j. level.head_idx ≢ j) s.nodes (traded qty level.head_idx s.nodes)
    traded-Spares =
        change-Spares level.head_idx (λ m. record m { order = reduce qty m.order }) s.nodes

    pub traded-Chain :
        uses n.addr q ≡ 0
        → Chain
            (traded qty level.head_idx s.nodes)
            invalid_idx
            level.head_idx
            (record n { order = reduce qty n.order } ∷ q)
            level.tail_idx
    traded-Chain alone =
        let here : node (traded qty level.head_idx s.nodes) level.head_idx
            ≡ record (node s.nodes level.head_idx) {
              order = reduce qty (node s.nodes level.head_idx).order;
            } =
          node-change_self level.head_idx (λ m. record m { order = reduce qty m.order }) s.nodes
            bound in
        let next : (node (traded qty level.head_idx s.nodes) n.addr).next_idx
            ≡ (node s.nodes n.addr).next_idx =
          rw (← c.0) (ap (λ (m : OrderNode). m.next_idx) here) in
        let behind =
          Spares-Chain n.addr (node s.nodes n.addr).next_idx q level.tail_idx traded-Spares
            (λ j k e. absurd (omega (arith, ap (λ x. uses x q) e, ap (λ x. uses x q) c.0, k)))
            c.4 in
        (
          c.0,
          rw traded-Spares.size c.1,
          rw (← c.0) traded_order,
          rw (← c.0, here, c.0) c.3,
          rw next behind,
        )

  pub match_head_kept :
      is_filled (reduce (match_qty n.order incoming) n.order) ≡ false
      → match_head taker at_head ≡ record {
        level = level;
        incoming = reduce (match_qty n.order incoming) incoming;
        store = record s { nodes = traded (match_qty n.order incoming) level.head_idx s.nodes };
        trades = out ++ make_trade taker n.order incoming ∷ [];
      }
  unfolding match_head settle
  match_head_kept left = rw (same_qty, same_trade, traded_order (match_qty n.order incoming), left)

  pub match_head_filled :
      is_filled (reduce (match_qty n.order incoming) n.order) ≡ true
      → match_head taker at_head
        ≡ let nodes = traded (match_qty n.order incoming) level.head_idx s.nodes in
          record {
            level = (remove_from_level level level.head_idx nodes).level;
            incoming = reduce (match_qty n.order incoming) incoming;
            store = record {
              nodes = released level level.head_idx nodes s.free_head;
              free_head = level.head_idx;
              order_index = Dict.erase n.order.order_id s.order_index;
            };
            trades = out ++ make_trade taker n.order incoming ∷ [];
          }
  unfolding match_head settle free_node
  match_head_filled gone =
      rw (same_qty, same_trade, traded_order (match_qty n.order incoming), gone)
