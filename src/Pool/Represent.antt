-- ===== src/Pool/Represent.antt =====
-- PoolOrderBook (src/pool_order_book.cpp) against the abstract book: submit_order.
use lloms.Base.{
  ℕ, ◌+◌, ◌≡◌, refl, sym, ap, ◌∙◌, inl, inr, Bool, none, some, List, [], ◌∷◌, ◌++◌, length, is_some,
  Option, Option-cases, append-nil, length-map,
}
use lloms.Types.{Side, buy, sell, Order, Trade}
use lloms.Matching.{admit}
use lloms.Spec
use lloms.Spec.Keeps
use lloms.Spec.Valid
use lloms.Spec.Valid.{IsSide}
use lloms.Pool.{Book}
use lloms.Pool.Orders.{Submitted, known, submit_order}
use lloms.Pool.Carry.{sizes}
use lloms.Pool.Allot.{HasRoom}
use lloms.Pool.Found.{location, lookup-indexes}
use lloms.Pool.Books.{IsLinked, orders_in}
use lloms.Pool.Submit.{submit_admitted-IsTracked}
use lloms.Stl
use lloms.Stl.{Location}
use lloms.Stl.Loops.{view_levels}
use lloms.Stl.Valid.{view, Indexed-has_order}
use lloms.Stl.Refine.{submit_admitted-Refines, admit-some}

-- How many orders rest in the book.
abbrev pub count : Spec.Levels → ℕ
count [] = 0
count ((p, q) ∷ ls) = length q + count ls

abbrev pub count_orders : Spec.Book → ℕ
count_orders v = count v.bids + count v.asks

pub count-view_levels : (gs : Stl.Levels) → count (view_levels gs) ≡ sizes gs
count-view_levels [] = refl
count-view_levels ((p, q) ∷ gs) = rw (length-map, count-view_levels gs)

-- The levels, the links between their nodes and the index of `b` stand for the book `v`.
pub record Represents (b : Book) (v : Spec.Book) : Type 0 where
  pub lists : Stl.Book
  pub linked : IsLinked b lists
  pub seen : view lists ≡ v
  pub sound : Valid.IsValid v

pub record Follows (out : List Trade) (r : Submitted) (s : Spec.Submitted) : Type 0 where
  pub accepted : r.accepted ≡ s.accepted
  pub trades : r.trades ≡ out ++ s.trades
  pub book : Represents r.book s.book

known-location : (m : Option Location) → is_some (location m) ≡ is_some m
known-location none = refl
known-location (some loc) = refl

pub known-Stl : (b : Book) (g : Stl.Book) (id : ℕ) → IsLinked b g → known b id ≡ Stl.known g id
known-Stl b g id h = rw (h.kept.index, lookup-indexes id g.order_index, known-location)

levels_IsSide :
    (side : Side) (g : Stl.Book)
    → Valid.IsValid (view g)
    → IsSide side (view_levels (Stl.levels side g))
levels_IsSide buy g v = v.bids
levels_IsSide sell g v = v.asks

view-Follows :
    (b : Book) (g : Stl.Book) (o : Order) (out : List Trade)
    → IsLinked b g
    → Valid.IsValid (view g)
    → HasRoom (orders_in g)
    → Follows out (submit_order b o out) (Spec.submit (view g) o)
unfolding submit_order Spec.submit
view-Follows b g o out h sound room =
    let listed = known-Stl b g o.order_id h in
    let same =
      ap (λ (k : Bool). admit k o) (sym (Indexed-has_order g o.order_id h.indexed) ∙ sym listed) in
    elim (Option-cases (admit (known b o.order_id) o)) [
      | inl e ↦
          rw (e, submit_order, same ∙ e, Spec.submit)
            (record {
              accepted = refl;
              trades = rw append-nil;
              book = record { lists = g; linked = h; seen = refl; sound = sound };
            })
      | inr (o', e) ↦
          let new = admit-some g o o' (ap (λ (k : Bool). admit k o) (sym listed) ∙ e) in
          let t =
            submit_admitted-IsTracked o.side b g o' out h room new.0
              (levels_IsSide o.side g sound) in
          let r = submit_admitted-Refines o.side (record g { next_node = t.next }) o' out in
          let kept : Valid.IsValid (Spec.submit_admitted o.side (view g) o').book =
            rw (same ∙ e, Spec.submit) at (Keeps.submit-IsValid (view g) o sound) in
          rw (e, submit_order, same ∙ e, Spec.submit)
            (record {
              accepted = t.tracks.accepted ∙ r.accepted;
              trades = t.tracks.trades ∙ r.trades;
              book = record { lists = _; linked = t.tracks.linked; seen = r.book; sound = kept };
            })
    ]

-- A submission to a pool book that stands for an abstract book, whose vector can double without passing
-- the last index when all its orders fill it, gets the answer of the abstract submission and appends its
-- trades, and the book after it stands for the abstract book after it.
pub submit_order-Follows :
    (b : Book) (v : Spec.Book) (o : Order) (out : List Trade)
    → Represents b v
    → HasRoom (count_orders v)
    → Follows out (submit_order b o out) (Spec.submit v o)
submit_order-Follows b v o out r room =
    let g = r.lists in
    rw (← r.seen) (
      view-Follows b g o out r.linked (rw r.seen r.sound)
        (rw (← r.seen, count-view_levels g.bids, count-view_levels g.asks) at room))
