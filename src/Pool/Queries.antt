-- ===== src/Pool/Queries.antt =====
-- The queries of src/pool_order_book.cpp on a book that stands for an abstract one.
use mathlib.Core.Option
use lloms.Base.{
  ℕ, ◌≡◌, refl, ap, ◌∙◌, Option, none, some, List, [], ◌∷◌, arith, length, ◌==◌, if◌then◌else◌,
}
use lloms.Base.Dict.{lookup}
use lloms.Base.Keys.{or_else, lookup-append}
use lloms.Types.{Side, buy, sell, Order}
use lloms.Spec
use lloms.Pool.{Nodes, Levels, Book, invalid_idx, node}
use lloms.Pool.Query.{has_order, get_order, best, best_bid, best_ask, bid_levels, ask_levels}
use lloms.Pool.Links.{Chain}
use lloms.Pool.Carry.{Carries}
use lloms.Pool.Found.{location, lookup-indexes}
use lloms.Pool.Books.{IsLinked}
use lloms.Pool.Represent.{Represents, known-Stl}
use lloms.Stl
use lloms.Stl.{Node, Location}
use lloms.Stl.Loops.{orders, view_levels}
use lloms.Stl.Index.{queue_places, places}
use lloms.Stl.Valid.{view, Indexed-has_order}

-- The order with the id.
abbrev pub find_in : ℕ → List Order → Option Order
find_in id [] = none
find_in id (o ∷ q) = if o.order_id == id then some o else find_in id q

abbrev pub find_level : ℕ → Spec.Levels → Option Order
find_level id [] = none
find_level id ((p, q) ∷ ls) = or_else (find_in id q) (find_level id ls)

abbrev pub find_order : ℕ → Spec.Book → Option Order
find_order id v = or_else (find_level id v.bids) (find_level id v.asks)

abbrev pub best_price : Spec.Levels → Option ℕ
best_price [] = none
best_price ((p, q) ∷ ls) = some p

abbrev order_at : Nodes → Option Location → Option Order
order_at nodes none = none
order_at nodes (some loc) = some (node nodes loc.list_it).order

order_at-or_else :
    (nodes : Nodes) (x y : Option Location)
    → order_at nodes (or_else x y) ≡ or_else (order_at nodes x) (order_at nodes y)
order_at-or_else nodes none y = refl
order_at-or_else nodes (some loc) y = refl

order_at-queue :
    (nodes : Nodes) (side : Side) (p prev h id : ℕ) (q : List Node) (t : ℕ)
    → Chain nodes prev h q t
    → order_at nodes (lookup id (queue_places side p q)) ≡ find_in id (orders q)
order_at-queue nodes side p prev h id [] t c = refl
order_at-queue nodes side p prev h id (n ∷ q) t c =
    ground (arith, c.2, order_at-queue nodes side p n.addr (node nodes n.addr).next_idx id q t c.4)

order_at-places :
    (nodes : Nodes) (side : Side) (id : ℕ) (ls : Levels) (gs : Stl.Levels)
    → Carries nodes ls gs
    → order_at nodes (lookup id (places side gs)) ≡ find_level id (view_levels gs)
order_at-places nodes side id [] [] c = refl
order_at-places nodes side id [] (g ∷ gs) c = absurd c
order_at-places nodes side id (l ∷ ls) [] c = absurd c
order_at-places nodes side id ((p', level) ∷ ls) ((p, q) ∷ gs) c = rw (
  lookup-append id (queue_places side p q) (places side gs),
  order_at-or_else,
  order_at-queue nodes side p invalid_idx level.head_idx id q level.tail_idx c.2,
  order_at-places nodes side id ls gs c.3,
)

best-view :
    (nodes : Nodes) (ls : Levels) (gs : Stl.Levels)
    → Carries nodes ls gs
    → (best ls ≡ best_price (view_levels gs)) × (length ls ≡ length (view_levels gs))
unfolding best
best-view nodes [] [] c = (refl, refl)
best-view nodes [] (g ∷ gs) c = absurd c
best-view nodes (l ∷ ls) [] c = absurd c
best-view nodes (l ∷ ls) (g ∷ gs) c = (ap some c.0, ap ℕ.suc (best-view nodes ls gs c.3).1)

get_order-view :
    (b : Book) (g : Stl.Book) (id : ℕ) → IsLinked b g → get_order b id ≡ find_order id (view g)
unfolding get_order
get_order-view b g id h =
    let found : get_order b id ≡ order_at b.nodes (lookup id g.order_index) =
      ap (Option.map λ idx. (node b.nodes idx).order)
        (ap (lookup id) h.kept.index ∙ lookup-indexes id g.order_index)
      ∙ map-location (lookup id g.order_index) in
    found
    ∙ rw (
      h.indexed.agree id,
      lookup-append id (places buy g.bids) (places sell g.asks),
      order_at-or_else,
      order_at-places b.nodes buy id b.bids g.bids h.kept.own,
      order_at-places b.nodes sell id b.asks g.asks h.kept.other,
    )
  where
    map-location :
        (m : Option Location)
        → Option.map (λ idx. (node b.nodes idx).order) (location m) ≡ order_at b.nodes m
    map-location none = refl
    map-location (some loc) = refl

-- On a pool book that stands for an abstract book the queries for an id, for the best prices and for the
-- numbers of levels answer what the abstract book has.
pub get_order-Represents :
    (b : Book) (v : Spec.Book) (id : ℕ)
    → Represents b v
    → (has_order b id ≡ Spec.has_order id v)
      × (get_order b id ≡ find_order id v)
      × (best_bid b ≡ best_price v.bids)
      × (best_ask b ≡ best_price v.asks)
      × (bid_levels b ≡ length v.bids)
      × (ask_levels b ≡ length v.asks)
unfolding has_order best_bid best_ask bid_levels ask_levels
get_order-Represents b v id r =
    let g = r.lists in
    let bids = best-view b.nodes b.bids g.bids r.linked.kept.own in
    let asks = best-view b.nodes b.asks g.asks r.linked.kept.other in
    rw (← r.seen) (
      known-Stl b g id r.linked ∙ Indexed-has_order g id r.linked.indexed,
      get_order-view b g id r.linked,
      bids.0,
      asks.0,
      bids.1,
      asks.1,
    )
