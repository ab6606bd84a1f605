-- ===== src/Stl/Unlink.antt =====
-- cancel_order's work on the lists of one side (src/stl_order_book.cpp): the iterator of the index
-- leads to the order's own node, and only that node goes.
use lloms.Base.{
  ℕ, ◌≡◌, refl, ap, inl, inr, true, false, some, List, [], ◌∷◌, arith, Bool-cases, ◌==◌, ==_iff,
}
use lloms.Base.Dict.{lookup}
use lloms.Base.Keys.{Distinct}
use lloms.Base.Inserts.{Inserts, Inserts-prepend, Inserts-head}
use lloms.Types.{Side, Order}
use lloms.Spec
use lloms.Stl.{Node, Location, erase_node}
use lloms.Stl.Loops.{orders}
use lloms.Stl.Index.{queue_places, queue_homes}

-- What unlinking the node `loc.list_it` of the order `id` does to a queue.
pub record Unlinks (side : Side) (p id : ℕ) (loc : Location) (q : List Node) : Type 0 where
  pub of_side : loc.side ≡ side
  pub of_price : loc.price ≡ p
  pub order : Order
  pub here : lookup loc.list_it (queue_homes q) ≡ some order
  pub found : Spec.contains id (orders q) ≡ true
  pub rest : orders (erase_node loc.list_it q) ≡ Spec.drop_order id (orders q)
  pub place :
      Inserts id loc (queue_places side p (erase_node loc.list_it q)) (queue_places side p q)
  pub home : Inserts loc.list_it order (queue_homes (erase_node loc.list_it q)) (queue_homes q)

erase_node-Unlinks_head :
    (side : Side) (p : ℕ) (n : Node) (q : List Node)
    → Unlinks side p n.order.order_id (record { side = side; price = p; list_it = n.addr }) (n ∷ q)
unfolding erase_node Spec.contains Spec.drop_order
erase_node-Unlinks_head side p n q =
    let here : (n.addr == n.addr) ≡ true = ground arith in
    let same : (n.order.order_id == n.order.order_id) ≡ true = ground arith in
    record {
      of_side = refl;
      of_price = refl;
      order = n.order;
      here = rw here;
      found = rw same;
      rest = rw (here, same);
      place = rw here (Inserts-head _ _ _);
      home = rw here (Inserts-head _ _ _);
    }

pub erase_node-Unlinks :
    (side : Side) (p id : ℕ) (q : List Node) {loc : Location}
    → lookup id (queue_places side p q) ≡ some loc
    → Distinct (queue_homes q)
    → Unlinks side p id loc q
unfolding erase_node Spec.contains Spec.drop_order
erase_node-Unlinks side p id [] e d = absurd (cc)
erase_node-Unlinks side p id (n ∷ q) {loc} e d = elim (Bool-cases (n.order.order_id == id)) [
  | inl hit ↦
      let same : record { side = side; price = p; list_it = n.addr } ≡ loc = cc (rw hit at e) in
      rw (← (==_iff n.order.order_id id).0 hit, ← same) (erase_node-Unlinks_head side p n q)
  | inr miss ↦
      let u = erase_node-Unlinks side p id q {loc = loc} (rw miss at e) d.1 in
      let away : (n.addr == loc.list_it) ≡ false = ground (arith, d.0, u.here) in
      record {
        of_side = u.of_side;
        of_price = u.of_price;
        order = u.order;
        here = rw away u.here;
        found = rw miss u.found;
        rest = rw (away, miss) (ap (◌∷◌ n.order) u.rest);
        place = rw away (Inserts-prepend (_ ∷ []) u.place);
        home = rw away (Inserts-prepend (_ ∷ []) u.home);
      }
]
