-- ===== src/Stl/Loops.antt =====
-- The two loops of match_buy and match_sell (src/stl_order_book.cpp) against the plain recursions of
-- `Spec`, and that they end by their own tests.
use lloms.Base.{
  ℕ, zero, suc, ◌+◌, ◌≤◌, ◌≡◌, refl, List, [], ◌∷◌, ◌++◌, map, arith, length, append-nil,
  append_assoc, is_nil,
}
use lloms.Base.Dict
use lloms.Types.{Side, Order, Trade}
use lloms.Matching.{match_qty, reduce, make_trade}
use lloms.Spec
use lloms.Spec.Fill.{fill-exhausts}
use lloms.Stl.{Node, Levels, Index, Filling, Matched, match_queue, match_levels}

abbrev pub orders : List Node → List Order
orders = map λ n. n.order

abbrev pub view_levels : Levels → Spec.Levels
view_levels [] = []
view_levels ((p, q) ∷ ls) = (p, orders q) ∷ view_levels ls

-- The loop stops at once when nothing of the taker is left.
pub match_queue-stop :
    (taker : Side) (fuel : ℕ) (q : List Node) (incoming : Order) (index : Index) (out : List Trade)
    → incoming.remaining_quantity ≡ 0
    → match_queue taker fuel q incoming index out
      ≡ record { queue = q; incoming = incoming; index = index; trades = out }
unfolding match_queue
match_queue-stop taker zero q incoming index out h = refl
match_queue-stop taker (suc fuel) [] incoming index out h = refl
match_queue-stop taker (suc fuel) (n ∷ q) incoming index out h = ground arith

pub record Fills (out : List Trade) (r : Filling) (f : Spec.Filled) : Type 0 where
  pub queue : orders r.queue ≡ f.queue
  pub incoming : r.incoming ≡ f.incoming
  pub trades : r.trades ≡ out ++ f.trades

-- With fuel for as many rounds as there are orders, the inner loop does what the recursion does.
pub match_queue-fill :
    (taker : Side) (fuel : ℕ) (q : List Node) (incoming : Order) (index : Index) (out : List Trade)
    → length q ≤ fuel
    → Fills out (match_queue taker fuel q incoming index out) (Spec.fill taker (orders q) incoming)
unfolding match_queue Spec.fill
match_queue-fill taker zero [] incoming index out h = record {
  queue = refl;
  incoming = refl;
  trades = rw append-nil;
}
match_queue-fill taker zero (n ∷ q) incoming index out h = absurd (omega arith)
match_queue-fill taker (suc fuel) [] incoming index out h = record {
  queue = refl;
  incoming = refl;
  trades = rw append-nil;
}
match_queue-fill taker (suc fuel) (n ∷ q) incoming index out h =
    let maker = reduce (match_qty n.order incoming) n.order in
    let incoming' = reduce (match_qty n.order incoming) incoming in
    let out' = out ++ make_trade taker n.order incoming ∷ [] in
    let index' = Dict.erase maker.order_id index in
    ground (
      arith,
      append-nil out,
      append_assoc out (make_trade taker n.order incoming ∷ [])
          (Spec.fill taker (orders q) incoming').trades,
      match_queue-fill taker fuel q incoming' index' out' (omega arith),
      match_queue-stop taker fuel (record n { order = maker } ∷ q) incoming' index out',
    )

pub match_levels-stop :
    (taker : Side) (fuel : ℕ) (ls : Levels) (incoming : Order) (index : Index) (out : List Trade)
    → incoming.remaining_quantity ≡ 0
    → match_levels taker fuel ls incoming index out
      ≡ record { levels = ls; incoming = incoming; index = index; trades = out }
unfolding match_levels
match_levels-stop taker zero ls incoming index out h = refl
match_levels-stop taker (suc fuel) [] incoming index out h = refl
match_levels-stop taker (suc fuel) (l ∷ ls) incoming index out h = ground arith

pub is_nil-orders : (q : List Node) → is_nil (orders q) ≡ is_nil q
is_nil-orders [] = refl
is_nil-orders (n ∷ q) = refl

pub record Sweeps (out : List Trade) (r : Matched) (s : Spec.Swept) : Type 0 where
  pub levels : view_levels r.levels ≡ s.levels
  pub incoming : r.incoming ≡ s.incoming
  pub trades : r.trades ≡ out ++ s.trades

-- With fuel for as many rounds as there are levels, the two loops leave the levels and the taker that the
-- recursion without fuel leaves, and append its trades.
pub match_levels-sweep :
    (taker : Side) (fuel : ℕ) (ls : Levels) (incoming : Order) (index : Index) (out : List Trade)
    → length ls ≤ fuel
    → Sweeps out
        (match_levels taker fuel ls incoming index out)
        (Spec.sweep taker (view_levels ls) incoming)
unfolding match_levels Spec.sweep
match_levels-sweep taker zero [] incoming index out h = record {
  levels = refl;
  incoming = refl;
  trades = rw append-nil;
}
match_levels-sweep taker zero (l ∷ ls) incoming index out h = absurd (omega arith)
match_levels-sweep taker (suc fuel) [] incoming index out h = record {
  levels = refl;
  incoming = refl;
  trades = rw append-nil;
}
match_levels-sweep taker (suc fuel) ((p, q) ∷ ls) incoming index out h =
    let f = match_queue taker (length q + 2) q incoming index out in
    let g = Spec.fill taker (orders q) incoming in
    ground (
      arith,
      append-nil out,
      append_assoc out g.trades (Spec.sweep taker (view_levels ls) g.incoming).trades,
      is_nil-orders f.queue,
      fill-exhausts taker (orders q) incoming,
      match_queue-fill taker (length q + 2) q incoming index out (omega arith),
      match_levels-sweep taker fuel ls f.incoming f.index f.trades (omega arith),
      match_levels-stop taker fuel ((p, f.queue) ∷ ls) f.incoming f.index f.trades,
    )
