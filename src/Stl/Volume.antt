-- ===== src/Stl/Volume.antt =====
-- volume_at_price of src/stl_order_book.cpp.
use lloms.Base.{
  ℕ, ◌+◌, ◌%◌, ◌<◌, ◌≡◌, ap, ◌∙◌, inl, inr, none, some, List, [], ◌∷◌, arith, Option-cases,
}
use lloms.Base.SortedMap
use lloms.Types.{Side, u32_mod}
use lloms.Spec.Priority.{total}
use lloms.Stl.{Node, Levels, Book, levels}
use lloms.Stl.Query.{add_volumes, volume_at_price}
use lloms.Stl.Loops.{orders}

add_volumes-total :
    (acc : ℕ) (q : List Node)
    → acc < u32_mod
    → add_volumes acc q ≡ (acc + total (orders q)) % u32_mod
unfolding add_volumes
add_volumes-total acc [] h = omega arith
add_volumes-total acc (n ∷ q) h =
    omega (arith, add_volumes-total ((acc + n.order.remaining_quantity) % u32_mod) q (omega arith))

-- The orders at a price.
pub orders_at : ℕ → Levels → List Node
orders_at price ls = elim (SortedMap.find price ls) [ none ↦ [] | some q ↦ q ]

-- volume_at_price is the sum of what the orders at that price have left, modulo 2 ^ 32; it is 0 at a
-- price with no orders.
pub volume_at_price-total :
    (b : Book) (side : Side) (price : ℕ)
    → volume_at_price b side price ≡ total (orders (orders_at price (levels side b))) % u32_mod
unfolding volume_at_price orders_at
volume_at_price-total b side price = elim (Option-cases (SortedMap.find price (levels side b))) [
  | inl e ↦ rw (e, volume_at_price, orders_at)
  | inr (q, e) ↦
      let zero_add : 0 + total (orders q) ≡ total (orders q) = omega arith in
      rw (e, volume_at_price, orders_at)
        (add_volumes-total 0 q (omega arith) ∙ ap (λ n. n % u32_mod) zero_add)
]
