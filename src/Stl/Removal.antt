-- ===== src/Stl/Removal.antt =====
-- cancel_order of src/stl_order_book.cpp is `Spec.cancel` on the abstract book, and keeps the
-- invariant.
use lloms.Base.{
  ℕ, ◌<◌, ◌≡◌, sym, ap, subst, ◌∙◌, inl, inr, Bool, true, false, none, some, List, arith,
  Option-cases, is_some,
}
use lloms.Base.Dict.{lookup}
use lloms.Base.Keys.{Distinct-append, lookup-append}
use lloms.Base.Inserts.{
  Inserts, Inserts-prepend, Inserts-append, Inserts-erase, Inserts-Distinct_tail, Inserts-All_tail,
}
use lloms.Types.{buy, sell, Order}
use lloms.Spec
use lloms.Spec.Keeps
use lloms.Spec.Valid
use lloms.Stl.{Book, Location, cancel_place, cancel_order}
use lloms.Stl.Loops.{view_levels}
use lloms.Stl.Index.{places, homes, Addressed, is_some-places}
use lloms.Stl.Valid.{view, IsValid, known-has_order}
use lloms.Stl.Cancel.{cancel_at-Cancels, places-side}

-- What cancelling the order `id` at its place does, on whichever side.
record Cancelled (b : Book) (id : ℕ) (b' : Book) : Type 0 where
  answer : Spec.cancel (view b) id ≡ (true, view b')
  valid : IsValid b'

Addressed-tail :
    (next a : ℕ) (o : Order) {m m' : List (ℕ × Order)}
    → Inserts a o m m'
    → Addressed next m'
    → Addressed next m
Addressed-tail next a o h d = record {
  distinct = Inserts-Distinct_tail h d.distinct;
  below = Inserts-All_tail (λ e. e.0 < next) h d.below;
}

module _ (b : Book) (id : ℕ) (loc : Location) (v : IsValid b) where
  buy_Cancelled :
      loc.side ≡ buy
      → lookup id (places buy b.bids) ≡ some loc
      → Cancelled b id (cancel_place b id loc)
  unfolding cancel_place Spec.cancel
  buy_Cancelled side here =
      let parts = Distinct-append (homes b.bids) (homes b.asks) v.addressed.distinct in
      let c = cancel_at-Cancels buy id b.bids loc here parts.0 v.sound.bids in
      let held : Spec.contains_level id (view_levels b.bids) ≡ true =
        sym (is_some-places buy id b.bids) ∙ ap is_some here in
      let answer : Spec.cancel (view b) id ≡ (true, view (cancel_place b id loc)) =
        rw (side, held, c.rest) in
      record {
        answer = answer;
        valid = record {
          indexed = rw side (Inserts-erase (Inserts-append (places sell b.asks) c.place) v.indexed);
          addressed = rw side (
              Addressed-tail b.next_node loc.list_it c.order (Inserts-append (homes b.asks) c.home)
                v.addressed);
          sound =
              subst (λ (r : Bool × Spec.Book). Valid.IsValid r.1) answer
                (Keeps.cancel-IsValid (view b) id v.sound);
        };
      }

  sell_Cancelled :
      loc.side ≡ sell
      → lookup id (places buy b.bids) ≡ none
      → lookup id (places sell b.asks) ≡ some loc
      → Cancelled b id (cancel_place b id loc)
  unfolding cancel_place Spec.cancel
  sell_Cancelled side absent here =
      let parts = Distinct-append (homes b.bids) (homes b.asks) v.addressed.distinct in
      let c = cancel_at-Cancels sell id b.asks loc here parts.1 v.sound.asks in
      let held : Spec.contains_level id (view_levels b.asks) ≡ true =
        sym (is_some-places sell id b.asks) ∙ ap is_some here in
      let other : Spec.contains_level id (view_levels b.bids) ≡ false =
        sym (is_some-places buy id b.bids) ∙ ap is_some absent in
      let answer : Spec.cancel (view b) id ≡ (true, view (cancel_place b id loc)) =
        rw (side, other, held, c.rest) in
      record {
        answer = answer;
        valid = record {
          indexed = rw side (Inserts-erase (Inserts-prepend (places buy b.bids) c.place) v.indexed);
          addressed = rw side (
              Addressed-tail b.next_node loc.list_it c.order (Inserts-prepend (homes b.bids) c.home)
                v.addressed);
          sound =
              subst (λ (r : Bool × Spec.Book). Valid.IsValid r.1) answer
                (Keeps.cancel-IsValid (view b) id v.sound);
        };
      }

  -- The place that the index gives is that of a bid or of an ask.
  found_Cancelled : lookup id b.order_index ≡ some loc → Cancelled b id (cancel_place b id loc)
  found_Cancelled e =
      let here = sym (v.indexed.agree id) ∙ e in
      elim (Option-cases (lookup id (places buy b.bids))) [
        | inl absent ↦
            let there : lookup id (places sell b.asks) ≡ some loc =
              ground
                (arith, here, absent, lookup-append id (places buy b.bids) (places sell b.asks)) in
            sell_Cancelled (places-side sell id b.asks {loc = loc} there) absent there
        | inr (l, found) ↦
            let there : lookup id (places buy b.bids) ≡ some loc =
              ground
                (arith, here, found, lookup-append id (places buy b.bids) (places sell b.asks)) in
            buy_Cancelled (places-side buy id b.bids {loc = loc} there) there
      ]

missing :
    (b : Book) (id : ℕ)
    → IsValid b
    → lookup id b.order_index ≡ none
    → Spec.cancel (view b) id ≡ (false, view b)
unfolding Spec.cancel Spec.has_order
missing b id v e = ground (arith, ap is_some e, known-has_order b id v)

-- On a valid book cancel_order answers as the abstract book does and leaves the book that it leaves,
-- and keeps the invariant.
pub cancel_order-refines :
    (b : Book) (id : ℕ)
    → IsValid b
    → let (done, b') = cancel_order b id in (Spec.cancel (view b) id ≡ (done, view b')) × IsValid b'
unfolding cancel_order
cancel_order-refines b id v = elim (Option-cases (lookup id b.order_index)) [
  | inl e ↦ rw (e, cancel_order) (missing b id v e, v)
  | inr (loc, e) ↦ let c = found_Cancelled b id loc v e in rw (e, cancel_order) (c.answer, c.valid)
]
