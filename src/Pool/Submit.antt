-- ===== src/Pool/Submit.antt =====
-- submit_order of src/pool_order_book.cpp is `Spec.submit` on the book that its nodes and links stand for.
use lloms.Base.{ℕ, suc, ◌+◌, ◌≤◌, ◌≡◌, refl, ap, ◌∙◌, none, List, [], ◌∷◌, arith, length}
use lloms.Base.Dict.{lookup}
use lloms.Base.Keys.{Indexed-swap}
use lloms.Types.{Side, buy, sell, Order, Trade}
use lloms.Spec.Valid.{IsSide, sweep-SameButRest}
use lloms.Pool.{Levels, Book, Nodes, allocate_node}
use lloms.Pool.Match.{match_buy, match_sell}
use lloms.Pool.Orders.{Submitted, submit_admitted}
use lloms.Pool.Carry.{Carries, Kept-swap, sizes, sizes-match_levels}
use lloms.Pool.Sweep.{Sweeps, match_levels-Sweeps}
use lloms.Pool.Allot.{HasRoom}
use lloms.Pool.Books.{IsLinked, orders_in, rest_order-IsLinked}
use lloms.Stl
use lloms.Stl.Loops.{view_levels, match_levels-sweep}
use lloms.Stl.Index.{places, match_levels-Indexed, match_levels-absent}

length-Carries :
    (nodes : Nodes) (ls : Levels) (gs : Stl.Levels) → Carries nodes ls gs → length ls ≡ length gs
length-Carries nodes [] [] c = refl
length-Carries nodes [] (g ∷ gs) c = absurd c
length-Carries nodes (l ∷ ls) [] c = absurd c
length-Carries nodes (l ∷ ls) (g ∷ gs) c = ap suc (length-Carries nodes ls gs c.3)

-- A submission to both kinds of book.
pub record Tracks (r : Submitted) (t : Stl.Submitted) : Type 0 where
  pub accepted : r.accepted ≡ t.accepted
  pub trades : r.trades ≡ t.trades
  pub linked : IsLinked r.book t.book

-- For some address of the next list node.
pub record IsTracked (r : Submitted) (g : Stl.Book) (submitted : Stl.Book → Stl.Submitted)
    : Type 0 where
  pub next : ℕ
  pub tracks : Tracks r (submitted (record g { next_node = next }))

-- A leftover has the taker's id.
leftover_id :
    (taker : Side) (gs : Stl.Levels) (o : Order) (index : Stl.Index) (out : List Trade)
    → (Stl.match_levels taker (length gs + 2) gs o index out).incoming.order_id ≡ o.order_id
leftover_id taker gs o index out =
    ap (λ (o : Order). o.order_id)
      ((match_levels-sweep taker (length gs + 2) gs o index out (omega arith)).incoming
        ∙ sweep-SameButRest taker (view_levels gs) o)

module _ (b : Book) (g : Stl.Book) (o : Order) (out : List Trade) (h : IsLinked b g)
    (room : HasRoom (orders_in g)) (new : lookup o.order_id g.order_index ≡ none) where
  buy_Sweeps : Sweeps b.bids g.bids (match_buy b o out) (Stl.match_buy g o out)
  unfolding match_buy Stl.match_buy
  buy_Sweeps = rw (length-Carries b.nodes b.asks g.asks h.kept.other) (
      match_levels-Sweeps buy (length g.asks + 2) b.asks b.bids b.store g.asks g.bids h.free o
        g.order_index out (Kept-swap h.kept))

  submit_buy-IsTracked :
      IsSide buy (view_levels g.bids)
      → IsTracked (submit_admitted buy b o out) g (λ g'. Stl.submit_admitted buy g' o out)
  unfolding submit_admitted Stl.submit_admitted
  submit_buy-IsTracked v =
      let m = match_buy b o out in
      let t = Stl.match_buy g o out in
      let b1 : Book = record b { store = m.store; asks = m.levels } in
      let g1 : Stl.Book = record g { asks = t.levels; order_index = t.index } in
      let linked : IsLinked b1 g1 = record {
        free = buy_Sweeps.left;
        kept = Kept-swap buy_Sweeps.kept;
        indexed =
            unfold Stl.match_buy in
            Indexed-swap (places sell t.levels) (places buy g.bids) (
              match_levels-Indexed buy sell (length g.asks + 2) g.asks o g.order_index
                (places buy g.bids) out
                (Indexed-swap (places buy g.bids) (places sell g.asks) h.indexed));
      } in
      let less : sizes t.levels ≤ sizes g.asks =
        unfold Stl.match_buy in
        sizes-match_levels buy (length g.asks + 2) g.asks o g.order_index out in
      let still_new : lookup t.incoming.order_id t.index ≡ none =
        unfold Stl.match_buy in
        rw (leftover_id buy g.asks o g.order_index out)
          (match_levels-absent buy o.order_id (length g.asks + 2) g.asks o g.order_index out new) in
      record {
        next = (allocate_node m.store t.incoming).0;
        tracks = record {
          accepted = refl;
          trades = buy_Sweeps.trades;
          linked = rw buy_Sweeps.incoming (
              rest_order-IsLinked buy t.incoming b1 g1 linked (omega (arith, room, less)) still_new
                v);
        };
      }

  sell_Sweeps : Sweeps b.asks g.asks (match_sell b o out) (Stl.match_sell g o out)
  unfolding match_sell Stl.match_sell
  sell_Sweeps = rw (length-Carries b.nodes b.bids g.bids h.kept.own) (
      match_levels-Sweeps sell (length g.bids + 2) b.bids b.asks b.store g.bids g.asks h.free o
        g.order_index out h.kept)

  submit_sell-IsTracked :
      IsSide sell (view_levels g.asks)
      → IsTracked (submit_admitted sell b o out) g (λ g'. Stl.submit_admitted sell g' o out)
  unfolding submit_admitted Stl.submit_admitted
  submit_sell-IsTracked v =
      let m = match_sell b o out in
      let t = Stl.match_sell g o out in
      let b1 : Book = record b { store = m.store; bids = m.levels } in
      let g1 : Stl.Book = record g { bids = t.levels; order_index = t.index } in
      let linked : IsLinked b1 g1 = record {
        free = sell_Sweeps.left;
        kept = sell_Sweeps.kept;
        indexed =
            unfold Stl.match_sell in
            match_levels-Indexed sell buy (length g.bids + 2) g.bids o g.order_index
              (places sell g.asks) out h.indexed;
      } in
      let less : sizes t.levels ≤ sizes g.bids =
        unfold Stl.match_sell in
        sizes-match_levels sell (length g.bids + 2) g.bids o g.order_index out in
      let still_new : lookup t.incoming.order_id t.index ≡ none =
        unfold Stl.match_sell in
        rw (leftover_id sell g.bids o g.order_index out) (
          match_levels-absent sell o.order_id (length g.bids + 2) g.bids o g.order_index out new) in
      record {
        next = (allocate_node m.store t.incoming).0;
        tracks = record {
          accepted = refl;
          trades = sell_Sweeps.trades;
          linked = rw sell_Sweeps.incoming (
              rest_order-IsLinked sell t.incoming b1 g1 linked (omega (arith, room, less)) still_new
                v);
        };
      }

pub submit_admitted-IsTracked :
    (side : Side) (b : Book) (g : Stl.Book) (o : Order) (out : List Trade)
    → IsLinked b g
    → HasRoom (orders_in g)
    → lookup o.order_id g.order_index ≡ none
    → IsSide side (view_levels (Stl.levels side g))
    → IsTracked (submit_admitted side b o out) g (λ g'. Stl.submit_admitted side g' o out)
submit_admitted-IsTracked buy b g o out h room new v = submit_buy-IsTracked b g o out h room new v
submit_admitted-IsTracked sell b g o out h room new v = submit_sell-IsTracked b g o out h room new v
