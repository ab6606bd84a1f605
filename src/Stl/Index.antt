-- ===== src/Stl/Index.antt =====
-- `order_index_` of src/stl_order_book.cpp and the addresses of the list nodes: what the loops of
-- match_buy and match_sell keep of them.
use lloms.Base.{
  ℕ, zero, suc, ◌+◌, ◌<◌, ◌≡◌, refl, List, [], ◌∷◌, ◌++◌, arith, length, All, append_assoc, is_some,
  none, append-nil,
}
use lloms.Base.Dict.{lookup, erase, lookup-erase}
use lloms.Base.Keys.{
  Distinct, Distinct-swap, Indexed, Indexed-erase, lookup-append, is_some-or_else,
}
use lloms.Types.{Side, Order, Trade}
use lloms.Matching.{match_qty, reduce, make_trade}
use lloms.Spec
use lloms.Stl.{Node, Levels, Index, match_queue, match_levels}
use lloms.Stl.Loops.{orders, view_levels}

-- The place of each order of a queue, by its id, as the index has to give it.
abbrev pub queue_places : Side → ℕ → List Node → Index
queue_places side p [] = []
queue_places side p (n ∷ q) =
    (n.order.order_id, record { side = side; price = p; list_it = n.addr }) ∷ queue_places side p q

abbrev pub places : Side → Levels → Index
places side [] = []
places side ((p, q) ∷ ls) = queue_places side p q ++ places side ls

-- The orders by the addresses of their nodes.
abbrev pub queue_homes : List Node → List (ℕ × Order)
queue_homes [] = []
queue_homes (n ∷ q) = (n.addr, n.order) ∷ queue_homes q

abbrev pub homes : Levels → List (ℕ × Order)
homes [] = []
homes ((p, q) ∷ ls) = queue_homes q ++ homes ls

-- No address stands twice, and all are below the next one to be given out.
pub record Addressed (next : ℕ) (m : List (ℕ × Order)) : Type 0 where
  pub distinct : Distinct m
  pub below : All (λ e. e.0 < next) m

pub is_some-queue_places :
    (side : Side) (p id : ℕ) (q : List Node)
    → is_some (lookup id (queue_places side p q)) ≡ Spec.contains id (orders q)
unfolding Spec.contains
is_some-queue_places side p id [] = refl
is_some-queue_places side p id (n ∷ q) = ground (arith, is_some-queue_places side p id q)

pub is_some-places :
    (side : Side) (id : ℕ) (ls : Levels)
    → is_some (lookup id (places side ls)) ≡ Spec.contains_level id (view_levels ls)
unfolding Spec.contains_level
is_some-places side id [] = refl
is_some-places side id ((p, q) ∷ ls) = rw (
  lookup-append id (queue_places side p q) (places side ls),
  is_some-or_else,
  is_some-queue_places side p id q,
  is_some-places side id ls,
)

module _ (taker side : Side) where
  match_queue-Indexed :
      (p fuel : ℕ) (q : List Node) (incoming : Order) (index rest : Index) (out : List Trade)
      → Indexed index (queue_places side p q ++ rest)
      → let r = match_queue taker fuel q incoming index out in
        Indexed r.index (queue_places side p r.queue ++ rest)
  unfolding match_queue
  match_queue-Indexed p zero q incoming index rest out h = h
  match_queue-Indexed p (suc fuel) [] incoming index rest out h = h
  match_queue-Indexed p (suc fuel) (n ∷ q) incoming index rest out h =
      let maker = reduce (match_qty n.order incoming) n.order in
      let incoming' = reduce (match_qty n.order incoming) incoming in
      let out' = out ++ make_trade taker n.order incoming ∷ [] in
      let kept : Node = record n { order = maker } in
      let popped =
        Indexed-erase n.order.order_id (record { side = side; price = p; list_it = n.addr }) []
          (queue_places side p q ++ rest) h in
      ground (
        arith,
        match_queue-Indexed p fuel q incoming' (erase maker.order_id index) rest out' popped,
        match_queue-Indexed p fuel (kept ∷ q) incoming' index rest out' h,
      )

  pub match_levels-Indexed :
      (fuel : ℕ) (ls : Levels) (incoming : Order) (index rest : Index) (out : List Trade)
      → Indexed index (places side ls ++ rest)
      → let r = match_levels taker fuel ls incoming index out in
        Indexed r.index (places side r.levels ++ rest)
  unfolding match_levels
  match_levels-Indexed zero ls incoming index rest out h = h
  match_levels-Indexed (suc fuel) [] incoming index rest out h = h
  match_levels-Indexed (suc fuel) ((p, q) ∷ ls) incoming index rest out h =
      let f = match_queue taker (length q + 2) q incoming index out in
      let inner =
        match_queue-Indexed p (length q + 2) q incoming index (places side ls ++ rest) out
          (rw append_assoc at h) in
      ground (
        arith,
        h,
        match_levels-Indexed fuel ls f.incoming f.index rest f.trades,
        match_levels-Indexed fuel ((p, f.queue) ∷ ls) f.incoming f.index rest f.trades
            (rw append_assoc inner),
        inner,
      )

-- Matching only takes entries out of the index.
module _ (taker : Side) (id : ℕ) where
  match_queue-absent :
      (fuel : ℕ) (q : List Node) (incoming : Order) (index : Index) (out : List Trade)
      → lookup id index ≡ none
      → lookup id (match_queue taker fuel q incoming index out).index ≡ none
  unfolding match_queue
  match_queue-absent zero q incoming index out h = h
  match_queue-absent (suc fuel) [] incoming index out h = h
  match_queue-absent (suc fuel) (n ∷ q) incoming index out h =
      let maker = reduce (match_qty n.order incoming) n.order in
      let incoming' = reduce (match_qty n.order incoming) incoming in
      let out' = out ++ make_trade taker n.order incoming ∷ [] in
      ground (
        arith,
        h,
        lookup-erase maker.order_id id index,
        match_queue-absent fuel q incoming' (erase maker.order_id index) out',
        match_queue-absent fuel (record n { order = maker } ∷ q) incoming' index out',
      )

  pub match_levels-absent :
      (fuel : ℕ) (ls : Levels) (incoming : Order) (index : Index) (out : List Trade)
      → lookup id index ≡ none
      → lookup id (match_levels taker fuel ls incoming index out).index ≡ none
  unfolding match_levels
  match_levels-absent zero ls incoming index out h = h
  match_levels-absent (suc fuel) [] incoming index out h = h
  match_levels-absent (suc fuel) ((p, q) ∷ ls) incoming index out h =
      let f = match_queue taker (length q + 2) q incoming index out in
      ground (
        arith,
        h,
        match_queue-absent (length q + 2) q incoming index out h,
        match_levels-absent fuel ls f.incoming f.index f.trades,
        match_levels-absent fuel ((p, f.queue) ∷ ls) f.incoming f.index f.trades,
      )

module _ (taker : Side) (next : ℕ) where
  Addressed-tail :
      (a : ℕ) (o : Order) (m : List (ℕ × Order)) → Addressed next ((a, o) ∷ m) → Addressed next m
  Addressed-tail a o m h = record { distinct = h.distinct.1; below = h.below.1 }

  Addressed-change :
      (a : ℕ) (o o' : Order) (m : List (ℕ × Order))
      → Addressed next ((a, o) ∷ m)
      → Addressed next ((a, o') ∷ m)
  Addressed-change a o o' m h = record { distinct = h.distinct; below = h.below }

  match_queue-Addressed :
      (fuel : ℕ) (q : List Node) (incoming : Order) (index : Index) (rest : List (ℕ × Order))
      (out : List Trade)
      → Addressed next (queue_homes q ++ rest)
      → Addressed next (queue_homes (match_queue taker fuel q incoming index out).queue ++ rest)
  unfolding match_queue
  match_queue-Addressed zero q incoming index rest out h = h
  match_queue-Addressed (suc fuel) [] incoming index rest out h = h
  match_queue-Addressed (suc fuel) (n ∷ q) incoming index rest out h =
      let maker = reduce (match_qty n.order incoming) n.order in
      let incoming' = reduce (match_qty n.order incoming) incoming in
      let out' = out ++ make_trade taker n.order incoming ∷ [] in
      let kept : Node = record n { order = maker } in
      let m = queue_homes q ++ rest in
      ground (
        arith,
        h,
        match_queue-Addressed fuel q incoming' (erase maker.order_id index) rest out'
            (Addressed-tail n.addr n.order m h),
        match_queue-Addressed fuel (kept ∷ q) incoming' index rest out'
            (Addressed-change n.addr n.order maker m h),
      )

  pub match_levels-Addressed :
      (fuel : ℕ) (ls : Levels) (incoming : Order) (index : Index) (rest : List (ℕ × Order))
      (out : List Trade)
      → Addressed next (homes ls ++ rest)
      → Addressed next (homes (match_levels taker fuel ls incoming index out).levels ++ rest)
  unfolding match_levels
  match_levels-Addressed zero ls incoming index rest out h = h
  match_levels-Addressed (suc fuel) [] incoming index rest out h = h
  match_levels-Addressed (suc fuel) ((p, q) ∷ ls) incoming index rest out h =
      let f = match_queue taker (length q + 2) q incoming index out in
      let inner =
        match_queue-Addressed (length q + 2) q incoming index (homes ls ++ rest) out
          (rw append_assoc at h) in
      ground (
        arith,
        h,
        match_levels-Addressed fuel ls f.incoming f.index rest f.trades,
        match_levels-Addressed fuel ((p, f.queue) ∷ ls) f.incoming f.index rest f.trades
            (rw append_assoc inner),
        inner,
      )

All-swap : (P : ℕ × Order → Type 0) (xs ys : List (ℕ × Order)) → All P (xs ++ ys) → All P (ys ++ xs)
All-swap P [] ys h = rw append-nil h
All-swap P (x ∷ xs) ys h = All_middle P x ys xs h.0 (All-swap P xs ys h.1)
  where
    All_middle :
        (P : ℕ × Order → Type 0) (x : ℕ × Order) (ys xs : List (ℕ × Order))
        → P x
        → All P (ys ++ xs)
        → All P (ys ++ x ∷ xs)
    All_middle P x [] xs p h = (p, h)
    All_middle P x (y ∷ ys) xs p h = (h.0, All_middle P x ys xs p h.1)

pub Addressed-swap :
    (next : ℕ) (xs ys : List (ℕ × Order)) → Addressed next (xs ++ ys) → Addressed next (ys ++ xs)
Addressed-swap next xs ys h = record {
  distinct = Distinct-swap xs ys h.distinct;
  below = All-swap (λ e. e.0 < next) xs ys h.below;
}
