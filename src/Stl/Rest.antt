-- ===== src/Stl/Rest.antt =====
-- The end of submit_order (src/stl_order_book.cpp): the leftover goes to the back of its level's list
-- and into the index.
use lloms.Base.{
  ℕ, ◌+◌, ◌<◌, ◌≡◌, refl, inl, inr, none, List, [], ◌∷◌, ◌++◌, arith, Bool-cases, ◌==◌, ==_iff,
  map-append, append_assoc, All, All-mono,
}
use lloms.Base.Dict.{lookup}
use lloms.Base.Inserts.{Inserts, Inserts-prepend, Inserts-head, Inserts-Distinct, Inserts-All}
use lloms.Base.SortedMap
use lloms.Types.{Side, Order}
use lloms.Matching.{before}
use lloms.Spec
use lloms.Stl.{Node, Levels, Location}
use lloms.Stl.Loops.{view_levels}
use lloms.Stl.Index.{queue_places, places, queue_homes, homes, Addressed}

abbrev pub add_node : Side → Node → Levels → Levels
add_node side n = SortedMap.update (before side) n.order.price [] (λ q. q ++ n ∷ [])

abbrev pub place_of : Side → Node → Location
place_of side n = record { side = side; price = n.order.price; list_it = n.addr }

pub view_levels-add_node :
    (side : Side) (n : Node) (ls : Levels)
    → view_levels (add_node side n ls) ≡ Spec.enqueue side n.order (view_levels ls)
unfolding SortedMap.update
view_levels-add_node side n [] = refl
view_levels-add_node side n ((p, q) ∷ ls) =
    ground (arith, map-append (λ (m : Node). m.order) q (n ∷ []), view_levels-add_node side n ls)

queue_places-append :
    (side : Side) (p : ℕ) (q r : List Node)
    → queue_places side p (q ++ r) ≡ queue_places side p q ++ queue_places side p r
queue_places-append side p [] r = refl
queue_places-append side p (n ∷ q) r = rw (queue_places-append side p q r)

queue_homes-append : (q r : List Node) → queue_homes (q ++ r) ≡ queue_homes q ++ queue_homes r
queue_homes-append [] r = refl
queue_homes-append (n ∷ q) r = rw (queue_homes-append q r)

pub places-add_node :
    (side : Side) (n : Node) (ls : Levels)
    → Inserts n.order.order_id (place_of side n) (places side ls) (places side (add_node side n ls))
unfolding SortedMap.update
places-add_node side n [] = Inserts-head n.order.order_id (place_of side n) []
places-add_node side n ((p, q) ∷ ls) = elim (Bool-cases (p == n.order.price)) [
  | inl same ↦ rw same (record {
    front = queue_places side p q;
    back = places side ls;
    before = refl;
    after = rw (queue_places-append, append_assoc, (==_iff p n.order.price).0 same);
  })
  | inr other ↦ rw other (elim (Bool-cases (before side n.order.price p)) [
    | inl first ↦ rw first (Inserts-head n.order.order_id (place_of side n) _)
    | inr later ↦ rw later (Inserts-prepend (queue_places side p q) (places-add_node side n ls))
  ])
]

pub homes-add_node :
    (side : Side) (n : Node) (ls : Levels)
    → Inserts n.addr n.order (homes ls) (homes (add_node side n ls))
unfolding SortedMap.update
homes-add_node side n [] = Inserts-head n.addr n.order []
homes-add_node side n ((p, q) ∷ ls) = elim (Bool-cases (p == n.order.price)) [
  | inl same ↦ rw same (record {
    front = queue_homes q;
    back = homes ls;
    before = refl;
    after = rw (queue_homes-append, append_assoc);
  })
  | inr other ↦ rw other (elim (Bool-cases (before side n.order.price p)) [
    | inl first ↦ rw first (Inserts-head n.addr n.order _)
    | inr later ↦ rw later (Inserts-prepend (queue_homes q) (homes-add_node side n ls))
  ])
]

lookup_below : (next : ℕ) (m : List (ℕ × Order)) → All (λ e. e.0 < next) m → lookup next m ≡ none
lookup_below next [] h = refl
lookup_below next ((a, o) ∷ m) h = ground (arith, lookup_below next m h.1)

-- A node at the next address.
pub Addressed-insert :
    (next : ℕ) (o : Order) {m m' : List (ℕ × Order)}
    → Inserts next o m m'
    → Addressed next m
    → Addressed (next + 1) m'
Addressed-insert next o {m} h a = record {
  distinct = Inserts-Distinct h (lookup_below next m a.below) a.distinct;
  below =
      Inserts-All (λ e. e.0 < next + 1) h (omega arith)
        (All-mono _ _ m (λ e b. omega arith) a.below);
}
