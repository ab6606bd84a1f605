-- ===== src/Pool/Withdraw.antt =====
-- PoolOrderBook (src/pool_order_book.cpp) against the abstract book: cancel_order.
use lloms.Base.{ℕ, ◌≡◌, refl, sym, ap, ◌∙◌, inl, inr, some, List, ◌∷◌, arith, Option-cases}
use lloms.Base.Dict
use lloms.Base.Dict.{lookup}
use lloms.Base.Keys.{lookup-append}
use lloms.Types.{buy, sell}
use lloms.Spec
use lloms.Spec.Valid
use lloms.Pool.{Book, Levels, Store, free_node}
use lloms.Pool.Orders.{cancel_at, cancel_node, cancel_order, release}
use lloms.Pool.Carry.{Kept, Kept-swap, Spares-Carries}
use lloms.Pool.Drop.{At, cancel_at-Drops, level_uses-cancel_at, sizes-cancel_at}
use lloms.Pool.Found.{location, lookup-indexes, lookup-IsFound}
use lloms.Pool.Round.{erase-indexes}
use lloms.Pool.Books.{IsLinked}
use lloms.Pool.Homes.{bounded, IsLinked-Addressed}
use lloms.Pool.Represent.{Represents}
use lloms.Stl
use lloms.Stl.{Node, Location}
use lloms.Stl.Index.{places}
use lloms.Stl.Cancel.{places-side}
use lloms.Stl.Valid.{view}
use lloms.Stl.Valid as Lists
use lloms.Stl.Removal.{cancel_order-refines}

cancel_at-Kept :
    (price a id : ℕ) (s : Store) (ls ms : Levels) (gs hs : Stl.Levels) (ix : Stl.Index)
    (free : List ℕ)
    → Kept s ls ms gs hs ix free
    → At price a gs
    → let r = cancel_at price a s.nodes ls in
      Kept (release id a r.0 s) r.1 ms (Stl.cancel_at price a gs) hs (Dict.erase id ix) (a ∷ free)
unfolding free_node
cancel_at-Kept price a id s ls ms gs hs ix free k at =
    let d =
      cancel_at-Drops price a s.nodes s.free_head free k.small k.freed ls gs k.own
        (λ j. omega (arith, k.apart j)) at in
    record {
      own = d.carried;
      other = Spares-Carries ms hs d.spares (λ j u. omega (arith, k.apart j, u)) k.other;
      freed = d.freed;
      apart = λ j. omega (arith, k.apart j, level_uses-cancel_at price a j gs at);
      counted = omega (arith, k.counted, d.spares.size, sizes-cancel_at price a gs at);
      small = rw d.spares.size k.small;
      index = ap (Dict.erase id) k.index ∙ erase-indexes id ix;
    }

-- A pool book with its list book after cancel_order.
record IsKept (b : Book) (g : Stl.Book) : Type 0 where
  free : List ℕ
  kept : Kept b.store b.bids b.asks g.bids g.asks g.order_index free

module _ (b : Book) (g : Stl.Book) (id : ℕ) (loc : Location) (h : IsLinked b g)
    (sound : Valid.IsValid (view g)) where
  bid_IsKept :
      lookup id (places buy g.bids) ≡ some loc
      → IsKept (cancel_node b id loc.list_it) (Stl.cancel_place (bounded b g) id loc)
  unfolding cancel_node Stl.cancel_place
  bid_IsKept e =
      let found = lookup-IsFound b.nodes buy id b.bids g.bids {loc = loc} h.kept.own sound.bids e in
      rw (places-side buy id g.bids {loc = loc} e, found.of_side, found.price, cancel_node)
        (record {
          free = loc.list_it ∷ h.free;
          kept =
              cancel_at-Kept loc.price loc.list_it id b.store b.bids b.asks g.bids g.asks
                g.order_index h.free h.kept found.at;
        })

  ask_IsKept :
      lookup id (places sell g.asks) ≡ some loc
      → IsKept (cancel_node b id loc.list_it) (Stl.cancel_place (bounded b g) id loc)
  unfolding cancel_node Stl.cancel_place
  ask_IsKept e =
      let found =
        lookup-IsFound b.nodes sell id b.asks g.asks {loc = loc} h.kept.other sound.asks e in
      rw (places-side sell id g.asks {loc = loc} e, found.of_side, found.price, cancel_node)
        (record {
          free = loc.list_it ∷ h.free;
          kept = Kept-swap (
              cancel_at-Kept loc.price loc.list_it id b.store b.asks b.bids g.asks g.bids
                g.order_index h.free (Kept-swap h.kept) found.at);
        })

  cancel_node-IsKept :
      lookup id g.order_index ≡ some loc
      → IsKept (cancel_node b id loc.list_it) (Stl.cancel_place (bounded b g) id loc)
  cancel_node-IsKept e =
      let split = lookup-append id (places buy g.bids) (places sell g.asks) in
      let here = sym (h.indexed.agree id) ∙ e in
      elim (Option-cases (lookup id (places buy g.bids))) [
        | inl absent ↦
            let there : lookup id (places sell g.asks) ≡ some loc =
              ground (arith, here, absent, split) in
            ask_IsKept there
        | inr (l, found) ↦
            let there : lookup id (places buy g.bids) ≡ some loc =
              ground (arith, here, found, split) in
            bid_IsKept there
      ]

-- Both kinds of book answer alike.
cancel_order-IsKept :
    (b : Book) (g : Stl.Book) (id : ℕ)
    → IsLinked b g
    → Valid.IsValid (view g)
    → let r = Stl.cancel_order (bounded b g) id in
      ((cancel_order b id).0 ≡ r.0) × IsKept (cancel_order b id).1 r.1
unfolding cancel_order Stl.cancel_order
cancel_order-IsKept b g id h sound =
    let listed : lookup id b.order_index ≡ location (lookup id g.order_index) =
      ap (lookup id) h.kept.index ∙ lookup-indexes id g.order_index in
    elim (Option-cases (lookup id g.order_index)) [
      | inl e ↦
          rw (listed ∙ ap location e, e, cancel_order, Stl.cancel_order)
            (refl, record { free = h.free; kept = h.kept })
      | inr (loc, e) ↦
          rw (listed ∙ ap location e, e, cancel_order, Stl.cancel_order)
            (refl, cancel_node-IsKept b g id loc h sound e)
    ]

-- A cancellation in a pool book that stands for an abstract book answers as the abstract one, and the
-- book after it stands for the abstract book after it.
pub cancel_order-Represents :
    (b : Book) (v : Spec.Book) (id : ℕ)
    → Represents b v
    → ((cancel_order b id).0 ≡ (Spec.cancel v id).0)
      × Represents (cancel_order b id).1 (Spec.cancel v id).1
cancel_order-Represents b v id r =
    let g = r.lists in
    let sound : Valid.IsValid (view g) = rw r.seen r.sound in
    let valid : Lists.IsValid (bounded b g) = record {
      indexed = r.linked.indexed;
      addressed = IsLinked-Addressed b g r.linked;
      sound = sound;
    } in
    let (answer, left) = cancel_order-refines (bounded b g) id valid in
    let (same, kept) = cancel_order-IsKept b g id r.linked sound in
    rw (← r.seen, answer)
      (
        same,
        record {
          lists = (Stl.cancel_order (bounded b g) id).1;
          linked = record { free = kept.free; kept = kept.kept; indexed = left.indexed };
          seen = refl;
          sound = left.sound;
        },
      )
