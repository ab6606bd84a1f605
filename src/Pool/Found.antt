-- ===== src/Pool/Found.antt =====
-- The node that the index of src/pool_order_book.cpp gives for an id: it lies in a level of its own
-- order's price and side, where cancel_order looks for it.
use lloms.Base.{
  ℕ, ◌≤◌, ◌≡◌, refl, sym, ◌∙◌, ◌⊎◌, inl, inr, true, none, some, List, [], ◌∷◌, arith, All, Option,
}
use lloms.Base.Dict.{lookup}
use lloms.Types.{Side}
use lloms.Matching.{before}
use lloms.Spec.Valid.{IsSide, IsResting}
use lloms.Pool.{Nodes, Levels, invalid_idx, node}
use lloms.Pool.Links.{uses, Chain}
use lloms.Pool.Carry.{Carries}
use lloms.Pool.Drop.{At}
use lloms.Pool.Round.{indexes}
use lloms.Stl
use lloms.Stl.{Node, Location, Index}
use lloms.Stl.Loops.{orders, view_levels}
use lloms.Stl.Index.{queue_places, places}
use lloms.Stl.Cancel.{places-cases, places-price, before-ne}

abbrev pub location : Option Location → Option ℕ
location none = none
location (some loc) = some loc.list_it

pub lookup-indexes : (id : ℕ) (ix : Index) → lookup id (indexes ix) ≡ location (lookup id ix)
lookup-indexes id [] = refl
lookup-indexes id ((k, loc) ∷ ix) = ground (arith, lookup-indexes id ix)

record InQueue (nodes : Nodes) (side : Side) (p : ℕ) (q : List Node) (loc : Location) : Type 0 where
  priced : loc.price ≡ p
  inside : 1 ≤ uses loc.list_it q
  price : (node nodes loc.list_it).order.price ≡ p
  of_side : (node nodes loc.list_it).order.side ≡ side

lookup-InQueue :
    (nodes : Nodes) (side : Side) (p prev h id : ℕ) (q : List Node) (t : ℕ) {loc : Location}
    → Chain nodes prev h q t
    → All (IsResting side p) (orders q)
    → lookup id (queue_places side p q) ≡ some loc
    → InQueue nodes side p q loc
lookup-InQueue nodes side p prev h id [] t c v e = absurd (cc)
lookup-InQueue nodes side p prev h id (n ∷ q) t {loc} c v e =
    let here : ((loc.price ≡ p) × (loc.list_it ≡ n.addr))
        ⊎ (lookup id (queue_places side p q) ≡ some loc) =
      ground (arith, e) in
    elim here [
      | inl first ↦ record {
        priced = first.0;
        inside = ground (arith, first);
        price = rw (first.1, c.2) v.0.0;
        of_side = rw (first.1, c.2) v.0.1;
      }
      | inr later ↦
          let r =
            lookup-InQueue nodes side p n.addr (node nodes n.addr).next_idx id q t {loc = loc} c.4
              v.1 later in
          record {
            priced = r.priced;
            inside = omega (arith, r.inside);
            price = r.price;
            of_side = r.of_side;
          }
    ]

pub record IsFound (nodes : Nodes) (side : Side) (gs : Stl.Levels) (loc : Location) : Type 0 where
  pub at : At loc.price loc.list_it gs
  pub price : (node nodes loc.list_it).order.price ≡ loc.price
  pub of_side : (node nodes loc.list_it).order.side ≡ side

pub lookup-IsFound :
    (nodes : Nodes) (side : Side) (id : ℕ) (ls : Levels) (gs : Stl.Levels) {loc : Location}
    → Carries nodes ls gs
    → IsSide side (view_levels gs)
    → lookup id (places side gs) ≡ some loc
    → IsFound nodes side gs loc
lookup-IsFound nodes side id ls [] c v e = absurd (cc)
lookup-IsFound nodes side id [] (g ∷ gs) c v e = absurd c
lookup-IsFound nodes side id ((p', level) ∷ ls) ((p, q) ∷ gs) {loc} c v e =
    elim (places-cases side p id q gs e) [
      | inl here ↦
          let r =
            lookup-InQueue nodes side p invalid_idx level.head_idx id q level.tail_idx {loc = loc}
              c.2 v.0.orders here in
          record {
            at = inl (sym r.priced, r.inside);
            price = r.price ∙ sym r.priced;
            of_side = r.of_side;
          }
      | inr (_, behind) ↦
          let r = lookup-IsFound nodes side id ls gs {loc = loc} c.3 v.2 behind in
          let other =
            before-ne side p loc.price
              (places-price side (λ p'. before side p p' ≡ true) id gs {loc = loc} behind v.1) in
          record { at = inr (ground (arith, other), r.at); price = r.price; of_side = r.of_side }
    ]
