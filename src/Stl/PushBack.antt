-- ===== src/Stl/PushBack.antt =====
-- `push_back` and the resting of a leftover (src/stl_order_book.cpp): against `Spec`, and for the index
-- and the addresses.
use lloms.Base.{◌≡◌, sym, ◌∙◌, inl, inr, none, ◌++◌, arith, Bool-cases}
use lloms.Base.Dict.{lookup}
use lloms.Base.Keys.{Indexed}
use lloms.Base.Inserts.{Inserts-prepend, Inserts-append, Inserts-Indexed}
use lloms.Types.{Side, buy, sell, Order}
use lloms.Matching.{rests}
use lloms.Spec
use lloms.Stl.{Node, Book, push_back, rest_order}
use lloms.Stl.Index.{places, homes, Addressed}
use lloms.Stl.Valid.{view}
use lloms.Stl.Rest.{view_levels-add_node, places-add_node, homes-add_node, Addressed-insert}

-- The part of the invariant that the abstract book does not see.
pub record IsTidy (b : Book) : Type 0 where
  pub indexed : Indexed b.order_index (places buy b.bids ++ places sell b.asks)
  pub addressed : Addressed b.next_node (homes b.bids ++ homes b.asks)

push_back-view :
    (side : Side) (o : Order) (b : Book)
    → view (push_back side o b)
      ≡ Spec.set_levels side (Spec.enqueue side o (Spec.levels side (view b))) (view b)
unfolding push_back
push_back-view buy o b =
    ground (arith, view_levels-add_node buy (record { addr = b.next_node; order = o }) b.bids)
push_back-view sell o b =
    ground (arith, view_levels-add_node sell (record { addr = b.next_node; order = o }) b.asks)

push_back-Indexed :
    (side : Side) (o : Order) (b : Book)
    → lookup o.order_id b.order_index ≡ none
    → Indexed b.order_index (places buy b.bids ++ places sell b.asks)
    → let b' = push_back side o b in
      Indexed b'.order_index (places buy b'.bids ++ places sell b'.asks)
unfolding push_back
push_back-Indexed buy o b new h =
    let n : Node = record { addr = b.next_node; order = o } in
    Inserts-Indexed (Inserts-append (places sell b.asks) (places-add_node buy n b.bids))
      (sym (h.agree o.order_id) ∙ new) h
push_back-Indexed sell o b new h =
    let n : Node = record { addr = b.next_node; order = o } in
    Inserts-Indexed (Inserts-prepend (places buy b.bids) (places-add_node sell n b.asks))
      (sym (h.agree o.order_id) ∙ new) h

push_back-Addressed :
    (side : Side) (o : Order) (b : Book)
    → Addressed b.next_node (homes b.bids ++ homes b.asks)
    → let b' = push_back side o b in Addressed b'.next_node (homes b'.bids ++ homes b'.asks)
unfolding push_back
push_back-Addressed buy o b h =
    let n : Node = record { addr = b.next_node; order = o } in
    Addressed-insert b.next_node o (Inserts-append (homes b.asks) (homes-add_node buy n b.bids)) h
push_back-Addressed sell o b h =
    let n : Node = record { addr = b.next_node; order = o } in
    Addressed-insert b.next_node o (Inserts-prepend (homes b.bids) (homes-add_node sell n b.asks)) h

pub rest_order-view :
    (side : Side) (o : Order) (b : Book)
    → view (rest_order side o b) ≡ Spec.rest_order side o (view b)
unfolding rest_order Spec.rest_order
rest_order-view side o b = elim (Bool-cases (rests o)) [
  | inl r ↦ rw r (push_back-view side o b)
  | inr r ↦ rw r
]

pub rest_order-Indexed :
    (side : Side) (o : Order) (b : Book)
    → lookup o.order_id b.order_index ≡ none
    → Indexed b.order_index (places buy b.bids ++ places sell b.asks)
    → let b' = rest_order side o b in
      Indexed b'.order_index (places buy b'.bids ++ places sell b'.asks)
unfolding rest_order
rest_order-Indexed side o b new h = elim (Bool-cases (rests o)) [
  | inl r ↦ rw r (push_back-Indexed side o b new h)
  | inr r ↦ rw r h
]

rest_order-Addressed :
    (side : Side) (o : Order) (b : Book)
    → Addressed b.next_node (homes b.bids ++ homes b.asks)
    → let b' = rest_order side o b in Addressed b'.next_node (homes b'.bids ++ homes b'.asks)
unfolding rest_order
rest_order-Addressed side o b h = elim (Bool-cases (rests o)) [
  | inl r ↦ rw r (push_back-Addressed side o b h)
  | inr r ↦ rw r h
]

pub rest_order-IsTidy :
    (side : Side) (o : Order) (b : Book)
    → lookup o.order_id b.order_index ≡ none
    → IsTidy b
    → IsTidy (rest_order side o b)
rest_order-IsTidy side o b new t = record {
  indexed = rest_order-Indexed side o b new t.indexed;
  addressed = rest_order-Addressed side o b t.addressed;
}
