-- ===== src/Pool/Meet.antt =====
-- The inner loop of match_buy and match_sell of src/pool_order_book.cpp against that of
-- src/stl_order_book.cpp: a round does to the chain of a level what it does to the list.
use lloms.Base.{
  ℕ, zero, suc, ◌+◌, ◌≤◌, ◌≡◌, refl, ap, ◌∙◌, inl, inr, true, false, List, [], ◌∷◌, ◌++◌, arith,
  length, ◌==◌, if◌then◌else◌, Bool-cases,
}
use lloms.Base.Dict
use lloms.Types.{Side, Order, Trade, is_filled}
use lloms.Matching.{match_qty, reduce, make_trade}
use lloms.Pool.{PriceLevel, Nodes, Store, invalid_idx, is_empty, remove_from_level}
use lloms.Pool.Match.{Filling, match_level}
use lloms.Pool.Links.{
  occurs, uses, Chain, Free, Spares, Spares-Free, Spares-trans, Spares-mono, Spares-refl,
  change-Spares,
}
use lloms.Pool.Release.{released, Releases, remove_from_level-Releases}
use lloms.Pool.Round.{
  match_head_kept, match_head_filled, traded-Chain, traded, indexes, erase-indexes,
}
use lloms.Stl
use lloms.Stl.{Node, Index, match_queue, erase_node}

-- What the inner loop leaves of a level, of the free list and of the index, against the list's loop.
pub record Meets (s : Store) (q : List Node) (free : List ℕ) (price : ℕ) (r : Filling)
    (g : Stl.Filling) : Type 0 where
  pub left : List ℕ
  pub chain : Chain r.store.nodes invalid_idx r.level.head_idx g.queue r.level.tail_idx
  pub freed : Free r.store.nodes r.store.free_head left
  pub of_price : r.level.price ≡ price
  pub incoming : r.incoming ≡ g.incoming
  pub trades : r.trades ≡ g.trades
  pub index : r.store.order_index ≡ indexes g.index
  pub spares : Spares (λ j. uses j q ≡ 0) s.nodes r.store.nodes
  pub conserved : (k : ℕ) → uses k g.queue + occurs k left ≡ uses k q + occurs k free
  pub counted : length g.queue + length left ≡ length q + length free

-- What a level and the free list have to be for that.
pub record IsReady (level : PriceLevel) (s : Store) (q : List Node) (free : List ℕ) (ix : Index)
    : Type 0 where
  pub chain : Chain s.nodes invalid_idx level.head_idx q level.tail_idx
  pub freed : Free s.nodes s.free_head free
  pub apart : (k : ℕ) → uses k q + occurs k free ≤ 1
  pub small : length s.nodes ≤ invalid_idx
  pub index : s.order_index ≡ indexes ix

pub remove_from_level-price :
    (level : PriceLevel) (i : ℕ) (nodes : Nodes)
    → (remove_from_level level i nodes).level.price ≡ level.price
unfolding remove_from_level
remove_from_level-price level i nodes = refl

module _ (taker : Side) (level : PriceLevel) (n : Node) (q : List Node) (s : Store) (free : List ℕ)
    (index : Index) (h : IsReady level s (n ∷ q) free index) (qty : ℕ) where
  abbrev nodes_after : Nodes
  nodes_after = traded qty level.head_idx s.nodes

  alone : uses n.addr q ≡ 0
  alone =
      let self : (n.addr == n.addr) ≡ true = ground arith in ground (arith, h.apart n.addr, self)

  head_used : 1 ≤ uses level.head_idx (n ∷ q)
  head_used = ground (arith, h.chain.0)

  after_trade : Spares (λ j. uses j (n ∷ q) ≡ 0) s.nodes nodes_after
  after_trade =
      Spares-mono (λ j e e'. absurd (omega (arith, head_used, e, ap (λ x. uses x (n ∷ q)) e')))
        (change-Spares level.head_idx (λ m. record m { order = reduce qty m.order }) s.nodes)

  free_after : Free nodes_after s.free_head free
  free_after = Spares-Free s.free_head free after_trade (λ j e. omega (arith, h.apart j, e)) h.freed

  -- The maker keeps something.
  kept_IsReady :
      IsReady level
        (record s { nodes = nodes_after })
        (record n { order = reduce qty n.order } ∷ q)
        free
        index
  kept_IsReady = record {
    chain = traded-Chain taker level n q s h.chain n.order [] qty alone;
    freed = free_after;
    apart = h.apart;
    small = rw after_trade.size h.small;
    index = h.index;
  }

  gone_Releases :
      Releases level level.head_idx nodes_after s.free_head
        (record n { order = reduce qty n.order } ∷ q)
        free
  gone_Releases =
      remove_from_level-Releases level level.head_idx nodes_after s.free_head
        (record n { order = reduce qty n.order } ∷ q) free kept_IsReady.chain free_after head_used
        h.apart kept_IsReady.small

  -- The maker is filled, and leaves.
  gone_IsReady :
      IsReady
        (remove_from_level level level.head_idx nodes_after).level
        (record {
          nodes = released level level.head_idx nodes_after s.free_head;
          free_head = level.head_idx;
          order_index = Dict.erase n.order.order_id s.order_index;
        })
        q
        (level.head_idx ∷ free)
        (Dict.erase n.order.order_id index)
  unfolding erase_node
  gone_IsReady =
      let r = gone_Releases in
      let self : (n.addr == level.head_idx) ≡ true = ground (arith, h.chain.0) in
      record {
        chain = rw self at r.chain;
        freed = r.freed;
        apart = λ k. omega (arith, h.apart k, ap {B = ℕ} (λ x. if x == k then 1 else 0) h.chain.0);
        small = rw (r.spares.size, after_trade.size) h.small;
        index = ap (Dict.erase n.order.order_id) h.index ∙ erase-indexes n.order.order_id index;
      }

-- Nothing is left to do.
Meets-done :
    (level : PriceLevel) (s : Store) (q : List Node) (free : List ℕ) (index : Index)
    (incoming : Order) (out : List Trade)
    → IsReady level s q free index
    → Meets s q free level.price
        (record { level = level; incoming = incoming; store = s; trades = out })
        (record { queue = q; incoming = incoming; index = index; trades = out })
Meets-done level s q free index incoming out h = record {
  left = free;
  chain = h.chain;
  freed = h.freed;
  of_price = refl;
  incoming = refl;
  trades = refl;
  index = h.index;
  spares = Spares-refl _ s.nodes;
  conserved = λ k. refl;
  counted = refl;
}

-- The rounds after a first one.
Meets-later :
    {s s' : Store} {q q' : List Node} {free free' : List ℕ} {price price' : ℕ} {r : Filling}
    {g : Stl.Filling}
    → Spares (λ j. uses j q ≡ 0) s.nodes s'.nodes
    → ((k : ℕ) → uses k q' + occurs k free' ≡ uses k q + occurs k free)
    → ((k : ℕ) → uses k q ≡ 0 → uses k q' ≡ 0)
    → length q' + length free' ≡ length q + length free
    → price' ≡ price
    → Meets s' q' free' price' r g
    → Meets s q free price r g
Meets-later first conserved inside counted same m = record {
  left = m.left;
  chain = m.chain;
  freed = m.freed;
  of_price = m.of_price ∙ same;
  incoming = m.incoming;
  trades = m.trades;
  index = m.index;
  spares = Spares-trans first (Spares-mono inside m.spares);
  conserved = λ k. m.conserved k ∙ conserved k;
  counted = m.counted ∙ counted;
}

pub match_level-Meets :
    (taker : Side) (fuel : ℕ) (level : PriceLevel) (q : List Node) (s : Store) (free : List ℕ)
    (incoming : Order) (index : Index) (out : List Trade)
    → IsReady level s q free index
    → Meets s q free level.price
        (match_level taker fuel
          (record { level = level; incoming = incoming; store = s; trades = out }))
        (match_queue taker fuel q incoming index out)
unfolding match_level match_queue
match_level-Meets taker zero level q s free incoming index out h =
    Meets-done level s q free index incoming out h
match_level-Meets taker (suc fuel) level [] s free incoming index out h =
    let test : is_empty level ≡ true = ground (arith, h.chain.0) in
    rw test (Meets-done level s [] free index incoming out h)
match_level-Meets taker (suc fuel) level (n ∷ q) s free incoming index out h =
    let test : is_empty level ≡ false = ground (arith, h.chain.0, h.chain.1, h.small) in
    let qty = match_qty n.order incoming in
    let maker = reduce qty n.order in
    let out' = out ++ make_trade taker n.order incoming ∷ [] in
    elim (Bool-cases (incoming.remaining_quantity == 0)) [
      | inl done ↦ rw (test, done) (Meets-done level s (n ∷ q) free index incoming out h)
      | inr more ↦ elim (Bool-cases (is_filled maker)) [
        | inl gone ↦
            let next = gone_IsReady taker level n q s free index h qty in
            rw (test, more, gone, match_head_filled taker level n q s h.chain incoming out gone)
              (Meets-later
                (Spares-trans (after_trade taker level n q s free index h qty)
                  (gone_Releases taker level n q s free index h qty).spares)
                (λ k. omega (arith, ap {B = ℕ} (λ x. if x == k then 1 else 0) h.chain.0))
                (λ k e. omega arith) (omega arith)
                (remove_from_level-price level level.head_idx (traded qty level.head_idx s.nodes))
                (match_level-Meets taker fuel _ q _ (level.head_idx ∷ free) (reduce qty incoming)
                  (Dict.erase n.order.order_id index) out' next))
        | inr left ↦
            rw (test, more, left, match_head_kept taker level n q s h.chain incoming out left)
              (Meets-later (after_trade taker level n q s free index h qty) (λ k. refl) (λ k e. e)
                refl refl
                (match_level-Meets taker fuel level (record n { order = maker } ∷ q) _ free
                  (reduce qty incoming) index out'
                  (kept_IsReady taker level n q s free index h qty)))
      ]
    ]
