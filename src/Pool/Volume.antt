-- ===== src/Pool/Volume.antt =====
-- `total_volume` of a level of src/pool_order_book.cpp under matching.
use lloms.Base.{
  ℕ, zero, suc, ◌+◌, ◌-◌, ◌%◌, ◌≡◌, ◌<◌, refl, ap, ◌∙◌, Bool, true, false, [], ◌∷◌, arith,
  if◌then◌else◌, ◌==◌,
}
use lloms.Types.{Side, Order, u32_mod}
use lloms.Pool.{OrderNode, PriceLevel, Nodes, Store, node, change, invalid_idx, remove_from_level}
use lloms.Pool.Match.{Filling, settle, match_head, match_level}

-- A change of links leaves every order.
change-order :
    (i j : ℕ) (f : OrderNode → OrderNode) (nodes : Nodes)
    → ((n : OrderNode) → (f n).order ≡ n.order)
    → (node (change i f nodes) j).order ≡ (node nodes j).order
change-order i j f [] h = refl
change-order zero zero f (n ∷ nodes) h = h n
change-order zero (suc j) f (n ∷ nodes) h = refl
change-order (suc i) zero f (n ∷ nodes) h = refl
change-order (suc i) (suc j) f (n ∷ nodes) h = change-order i j f nodes h

change_unless-order :
    (t : Bool) (i j : ℕ) (f : OrderNode → OrderNode) (nodes : Nodes)
    → ((n : OrderNode) → (f n).order ≡ n.order)
    → (node (if t then nodes else change i f nodes) j).order ≡ (node nodes j).order
change_unless-order true i j f nodes h = refl
change_unless-order false i j f nodes h = change-order i j f nodes h

-- Unlinking a node takes its remaining quantity from the level's volume, modulo 2 ^ 32.
remove_from_level-total_volume :
    (level : PriceLevel) (idx : ℕ) (nodes : Nodes)
    → (remove_from_level level idx nodes).level.total_volume
      ≡ (level.total_volume + u32_mod - (node nodes idx).order.remaining_quantity) % u32_mod
unfolding remove_from_level
remove_from_level-total_volume level idx nodes =
    let p = (node nodes idx).prev_idx in
    let n = (node nodes idx).next_idx in
    let nodes1 =
      if p == invalid_idx then nodes else change p (λ m. record m { next_idx = n }) nodes in
    let kept =
      change_unless-order (n == invalid_idx) n idx (λ m. record m { prev_idx = p }) nodes1
        (λ m. refl)
      ∙ change_unless-order (p == invalid_idx) p idx (λ m. record m { next_idx = n }) nodes
          (λ m. refl) in
    ap (λ (o : Order). (level.total_volume + u32_mod - o.remaining_quantity) % u32_mod) kept

settle-total_volume :
    (level : PriceLevel) (idx : ℕ) (s : Store)
    → level.total_volume < u32_mod
    → (settle level idx s).0.total_volume ≡ level.total_volume
unfolding settle
settle-total_volume level idx s h = ground (arith, remove_from_level-total_volume level idx s.nodes)

match_head-total_volume :
    (taker : Side) (f : Filling)
    → f.level.total_volume < u32_mod
    → (match_head taker f).level.total_volume ≡ f.level.total_volume
unfolding match_head
match_head-total_volume taker f h = settle-total_volume f.level f.level.head_idx _ h

-- However much is traded at a level, its `total_volume` stays as it was, if that is below 2 ^ 32.
pub match_level-total_volume :
    (taker : Side) (fuel : ℕ) (f : Filling)
    → f.level.total_volume < u32_mod
    → (match_level taker fuel f).level.total_volume ≡ f.level.total_volume
unfolding match_level
match_level-total_volume taker zero f h = refl
match_level-total_volume taker (suc fuel) f h = ground (
  arith,
  match_head-total_volume taker f h,
  match_level-total_volume taker fuel (match_head taker f),
)
