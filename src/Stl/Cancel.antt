-- ===== src/Stl/Cancel.antt =====
-- cancel_order's work on the map of one side (src/stl_order_book.cpp): the place in the index leads to
-- the level of the order, and a level that becomes empty goes.
use lloms.Base.{
  ℕ, ◌≡◌, sym, ap, ◌∙◌, ◌⊎◌, inl, inr, true, false, none, some, List, [], ◌∷◌, arith, Bool-cases,
  ◌==◌, is_nil, is_some, All,
}
use lloms.Base.Dict.{lookup}
use lloms.Base.Keys.{Distinct, Distinct-append, lookup-append}
use lloms.Base.Inserts.{Inserts, Inserts-prepend, Inserts-append}
use lloms.Base.SortedMap
use lloms.Types.{Side, buy, sell, Order}
use lloms.Matching.{before}
use lloms.Spec
use lloms.Spec.Valid.{IsSide}
use lloms.Stl.{Node, Levels, Location, erase_node, cancel_at}
use lloms.Stl.Loops.{orders, view_levels, is_nil-orders}
use lloms.Stl.Index.{queue_places, places, queue_homes, homes, is_some-queue_places}
use lloms.Stl.Unlink.{Unlinks, erase_node-Unlinks}

pub queue_places-lookup :
    (side : Side) (p id : ℕ) (q : List Node) {loc : Location}
    → lookup id (queue_places side p q) ≡ some loc
    → (loc.side ≡ side) × (loc.price ≡ p)
queue_places-lookup side p id [] e = absurd (cc)
queue_places-lookup side p id (n ∷ q) {loc} e =
    ground (arith, e, queue_places-lookup side p id q {loc = loc})

-- The place is in the first level, or behind it.
pub places-cases :
    (side : Side) (p id : ℕ) (q : List Node) (ls : Levels) {loc : Location}
    → lookup id (places side ((p, q) ∷ ls)) ≡ some loc
    → (lookup id (queue_places side p q) ≡ some loc)
      ⊎ ((lookup id (queue_places side p q) ≡ none) × (lookup id (places side ls) ≡ some loc))
places-cases side p id q ls e =
    ground (arith, e, lookup-append id (queue_places side p q) (places side ls))

-- The index's place lies on the side.
pub places-side :
    (side : Side) (id : ℕ) (ls : Levels) {loc : Location}
    → lookup id (places side ls) ≡ some loc
    → loc.side ≡ side
places-side side id [] e = absurd (cc)
places-side side id ((p, q) ∷ ls) {loc} e = elim (places-cases side p id q ls e) [
  | inl here ↦ (queue_places-lookup side p id q {loc = loc} here).0
  | inr (_, behind) ↦ places-side side id ls {loc = loc} behind
]

-- Its price is that of a level.
pub places-price :
    (side : Side) (P : ℕ → Type 0) (id : ℕ) (ls : Levels) {loc : Location}
    → lookup id (places side ls) ≡ some loc
    → All (λ l. P l.0) (view_levels ls)
    → P loc.price
places-price side P id [] e h = absurd (cc)
places-price side P id ((p, q) ∷ ls) {loc} e h = elim (places-cases side p id q ls e) [
  | inl here ↦ rw (queue_places-lookup side p id q {loc = loc} here).1 h.0
  | inr (_, behind) ↦ places-price side P id ls {loc = loc} behind h.1
]

pub cancel_at_head :
    (p a : ℕ) (q : List Node) (ls : Levels)
    → is_nil (erase_node a q) ≡ true
    → cancel_at p a ((p, q) ∷ ls) ≡ ls
unfolding cancel_at SortedMap.find SortedMap.erase SortedMap.modify
cancel_at_head p a q ls h = ground arith

pub cancel_at_head_kept :
    (p a : ℕ) (q : List Node) (ls : Levels)
    → is_nil (erase_node a q) ≡ false
    → cancel_at p a ((p, q) ∷ ls) ≡ (p, erase_node a q) ∷ ls
unfolding cancel_at SortedMap.find SortedMap.erase SortedMap.modify
cancel_at_head_kept p a q ls h = ground arith

pub cancel_at-cons :
    (price p a : ℕ) (q : List Node) (ls : Levels)
    → (p == price) ≡ false
    → cancel_at price a ((p, q) ∷ ls) ≡ (p, q) ∷ cancel_at price a ls
unfolding cancel_at SortedMap.find SortedMap.erase SortedMap.modify
cancel_at-cons price p a q ls h = ground arith

-- What cancelling at the place `loc` of the order `id` does to the levels of a side.
pub record Cancels (side : Side) (id : ℕ) (loc : Location) (ls : Levels) : Type 0 where
  pub order : Order
  pub rest : view_levels (cancel_at loc.price loc.list_it ls) ≡ Spec.remove id (view_levels ls)
  pub place : Inserts id loc (places side (cancel_at loc.price loc.list_it ls)) (places side ls)
  pub home : Inserts loc.list_it order (homes (cancel_at loc.price loc.list_it ls)) (homes ls)

head-Cancels :
    (side : Side) (p id : ℕ) (q : List Node) (ls : Levels) (loc : Location)
    → Unlinks side p id loc q
    → Cancels side id loc ((p, q) ∷ ls)
unfolding Spec.remove
head-Cancels side p id q ls loc u =
    let left = erase_node loc.list_it q in
    elim (Bool-cases (is_nil left)) [
      | inl gone ↦
          let now : cancel_at loc.price loc.list_it ((p, q) ∷ ls) ≡ ls =
            rw u.of_price (cancel_at_head p loc.list_it q ls gone) in
          let empty : left ≡ [] = ground (arith, gone) in
          record {
            order = u.order;
            rest = rw now (ground (arith, u.found, u.rest, empty));
            place = rw now (Inserts-append (places side ls) (rw empty at u.place));
            home = rw now (Inserts-append (homes ls) (rw empty at u.home));
          }
      | inr more ↦
          let now : cancel_at loc.price loc.list_it ((p, q) ∷ ls) ≡ (p, left) ∷ ls =
            rw u.of_price (cancel_at_head_kept p loc.list_it q ls more) in
          record {
            order = u.order;
            rest = rw now (ground (arith, u.found, u.rest, is_nil-orders left));
            place = rw now (Inserts-append (places side ls) u.place);
            home = rw now (Inserts-append (homes ls) u.home);
          }
    ]

tail-Cancels :
    (side : Side) (p id : ℕ) (q : List Node) (ls : Levels) (loc : Location)
    → (p == loc.price) ≡ false
    → Spec.contains id (orders q) ≡ false
    → Cancels side id loc ls
    → Cancels side id loc ((p, q) ∷ ls)
unfolding Spec.remove
tail-Cancels side p id q ls loc other absent c =
    let now = cancel_at-cons loc.price p loc.list_it q ls other in
    record {
      order = c.order;
      rest = rw (now, absent, c.rest);
      place = rw now (Inserts-prepend (queue_places side p q) c.place);
      home = rw now (Inserts-prepend (queue_homes q) c.home);
    }

pub before-ne : (side : Side) (p q : ℕ) → before side p q ≡ true → (p == q) ≡ false
before-ne buy p q h = ground arith
before-ne sell p q h = ground arith

pub cancel_at-Cancels :
    (side : Side) (id : ℕ) (ls : Levels) (loc : Location)
    → lookup id (places side ls) ≡ some loc
    → Distinct (homes ls)
    → IsSide side (view_levels ls)
    → Cancels side id loc ls
cancel_at-Cancels side id [] loc e d v = absurd (cc)
cancel_at-Cancels side id ((p, q) ∷ ls) loc e d v = elim (places-cases side p id q ls e) [
  | inl here ↦
      head-Cancels side p id q ls loc
        (erase_node-Unlinks side p id q here (Distinct-append (queue_homes q) (homes ls) d).0)
  | inr (absent, behind) ↦
      tail-Cancels side p id q ls loc
        (before-ne side p loc.price
          (places-price side (λ p'. before side p p' ≡ true) id ls {loc = loc} behind v.1))
        (sym (is_some-queue_places side p id q) ∙ ap is_some absent)
        (cancel_at-Cancels side id ls loc behind (Distinct-append (queue_homes q) (homes ls) d).1
          v.2)
]
