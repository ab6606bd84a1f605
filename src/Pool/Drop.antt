-- ===== src/Pool/Drop.antt =====
-- cancel_order of src/pool_order_book.cpp, the part on one side: the node leaves its level and joins the
-- free list, and a level that becomes empty is erased.
use lloms.Base.{
  ℕ, suc, ◌+◌, ◌≤◌, ◌≡◌, ◌≢◌, refl, ap, ◌∙◌, ◌⊎◌, inl, inr, true, false, List, [], ◌∷◌, arith,
  length, Bool-cases, ◌==◌, is_nil, if◌then◌else◌,
}
use lloms.Base.SortedMap
use lloms.Pool.{PriceLevel, Nodes, Levels, invalid_idx, change, is_empty, remove_from_level}
use lloms.Pool.Orders.{cancel_at}
use lloms.Pool.Links.{occurs, uses, Free, Spares, Spares-Chain, Spares-mono}
use lloms.Pool.Attach.{head-is_nil}
use lloms.Pool.Release.{released, remove_from_level-Releases, uses-erase_node, length-erase_node}
use lloms.Pool.Meet.{remove_from_level-price}
use lloms.Pool.Carry.{Carries, level_uses, sizes, Spares-Carries}
use lloms.Stl
use lloms.Stl.{Node, erase_node}
use lloms.Stl.Cancel.{cancel_at-cons, cancel_at_head, cancel_at_head_kept}

-- The node `a` is in the first level of the price.
abbrev pub At : ℕ → ℕ → Stl.Levels → Type 0
At price a [] = ⊥
At price a ((p, q) ∷ gs) = ((p ≡ price) × (1 ≤ uses a q)) ⊎ ((p ≢ price) × At price a gs)

nil_uses : (k : ℕ) (q : List Node) → is_nil q ≡ true → uses k q ≡ 0
nil_uses k [] e = refl
nil_uses k (n ∷ q) e = absurd (cc e)

nil_length : (q : List Node) → is_nil q ≡ true → length q ≡ 0
nil_length [] e = refl
nil_length (n ∷ q) e = absurd (cc e)

pub level_uses-cancel_at :
    (price a k : ℕ) (gs : Stl.Levels)
    → At price a gs
    → level_uses k (Stl.cancel_at price a gs) + (if a == k then 1 else 0) ≡ level_uses k gs
unfolding Stl.cancel_at SortedMap.find SortedMap.erase SortedMap.modify
level_uses-cancel_at price a k [] h = absurd h
level_uses-cancel_at price a k ((p, q) ∷ gs) (inl here) =
    ground (arith, here, uses-erase_node a k q here.1, nil_uses k (erase_node a q))
level_uses-cancel_at price a k ((p, q) ∷ gs) (inr there) =
    ground (arith, there.0, level_uses-cancel_at price a k gs there.1)

pub sizes-cancel_at :
    (price a : ℕ) (gs : Stl.Levels)
    → At price a gs
    → suc (sizes (Stl.cancel_at price a gs)) ≡ sizes gs
unfolding Stl.cancel_at SortedMap.find SortedMap.erase SortedMap.modify
sizes-cancel_at price a [] h = absurd h
sizes-cancel_at price a ((p, q) ∷ gs) (inl here) =
    ground (arith, here, length-erase_node a q here.1, nil_length (erase_node a q))
sizes-cancel_at price a ((p, q) ∷ gs) (inr there) =
    ground (arith, there.0, sizes-cancel_at price a gs there.1)

abbrev pub give_back : ℕ → ℕ → Nodes → Nodes
give_back a free_head = change a (λ n. record n { prev_idx = invalid_idx; next_idx = free_head })

pub record Drops (a : ℕ) (nodes : Nodes) (free_head : ℕ) (gs dropped : Stl.Levels) (free : List ℕ)
    (r : Nodes × Levels) : Type 0 where
  pub carried : Carries (give_back a free_head r.0) r.1 dropped
  pub freed : Free (give_back a free_head r.0) a (a ∷ free)
  pub spares : Spares (λ j. level_uses j gs ≡ 0) nodes (give_back a free_head r.0)

cancel_at_skip :
    (price p a : ℕ) (nodes : Nodes) (level : PriceLevel) (ls : Levels)
    → (p == price) ≡ false
    → cancel_at price a nodes ((p, level) ∷ ls)
      ≡ ((cancel_at price a nodes ls).0, (p, level) ∷ (cancel_at price a nodes ls).1)
unfolding cancel_at SortedMap.find SortedMap.erase SortedMap.modify
cancel_at_skip price p a nodes level ls test = ground (arith, test)

cancel_at_erased :
    (price a : ℕ) (nodes : Nodes) (level : PriceLevel) (ls : Levels)
    → is_empty (remove_from_level level a nodes).level ≡ true
    → cancel_at price a nodes ((price, level) ∷ ls) ≡ ((remove_from_level level a nodes).nodes, ls)
unfolding cancel_at SortedMap.find SortedMap.erase SortedMap.modify
cancel_at_erased price a nodes level ls empty = ground (arith, empty)

cancel_at_kept :
    (price a : ℕ) (nodes : Nodes) (level : PriceLevel) (ls : Levels)
    → is_empty (remove_from_level level a nodes).level ≡ false
    → cancel_at price a nodes ((price, level) ∷ ls) ≡ (
      (remove_from_level level a nodes).nodes,
      (price, (remove_from_level level a nodes).level) ∷ ls,
    )
unfolding cancel_at SortedMap.find SortedMap.erase SortedMap.modify
cancel_at_kept price a nodes level ls more = ground (arith, more)

module _ (price a : ℕ) (nodes : Nodes) (free_head : ℕ) (free : List ℕ)
    (small : length nodes ≤ invalid_idx) (f : Free nodes free_head free) where
  head_Drops :
      (level : PriceLevel) (q : List Node) (ls : Levels) (gs : Stl.Levels)
      → Carries nodes ((price, level) ∷ ls) ((price, q) ∷ gs)
      → ((k : ℕ) → level_uses k ((price, q) ∷ gs) + occurs k free ≤ 1)
      → 1 ≤ uses a q
      → Drops a nodes free_head
          ((price, q) ∷ gs)
          (Stl.cancel_at price a ((price, q) ∷ gs))
          free
          (cancel_at price a nodes ((price, level) ∷ ls))
  head_Drops level q ls gs c apart here =
      let r =
        remove_from_level-Releases level a nodes free_head q free c.2 f here
          (λ k. omega (arith, apart k)) small in
      let out = remove_from_level level a nodes in
      let behind = Spares-Carries ls gs r.spares (λ j u. omega (arith, apart j, u)) c.3 in
      let empty : is_empty out.level ≡ is_nil (erase_node a q) =
        head-is_nil (released level a nodes free_head) out.level.head_idx (erase_node a q)
          out.level.tail_idx r.chain (rw r.spares.size small) in
      elim (Bool-cases (is_nil (erase_node a q))) [
        | inl gone ↦
            rw
              (
                cancel_at_erased price a nodes level ls (empty ∙ gone),
                cancel_at_head price a q gs gone,
              )
              (record {
                carried = behind;
                freed = r.freed;
                spares = Spares-mono (λ j k. omega (arith, k)) r.spares;
              })
        | inr more ↦
            rw
              (
                cancel_at_kept price a nodes level ls (empty ∙ more),
                cancel_at_head_kept price a q gs more,
              )
              (record {
                carried = (refl, remove_from_level-price level a nodes ∙ c.1, r.chain, behind);
                freed = r.freed;
                spares = Spares-mono (λ j k. omega (arith, k)) r.spares;
              })
      ]

  pub cancel_at-Drops :
      (ls : Levels) (gs : Stl.Levels)
      → Carries nodes ls gs
      → ((k : ℕ) → level_uses k gs + occurs k free ≤ 1)
      → At price a gs
      → Drops a nodes free_head gs (Stl.cancel_at price a gs) free (cancel_at price a nodes ls)
  cancel_at-Drops ls [] c apart h = absurd h
  cancel_at-Drops [] (g ∷ gs) c apart h = absurd c
  cancel_at-Drops ((p, level) ∷ ls) ((p', q) ∷ gs) c apart (inl here) =
      rw (c.0, here.0)
        (head_Drops level q ls gs (refl, c.1 ∙ c.0 ∙ here.0, c.2, c.3) (λ k. omega (arith, apart k))
          here.1)
  cancel_at-Drops ((p, level) ∷ ls) ((p', q) ∷ gs) c apart (inr there) =
      let other : (p' == price) ≡ false = ground (arith, there.0) in
      let test : (p == price) ≡ false = ap (λ x. x == price) c.0 ∙ other in
      let r = cancel_at-Drops ls gs c.3 (λ k. omega (arith, apart k)) there.1 in
      rw (cancel_at_skip price p a nodes level ls test, cancel_at-cons price p' a q gs other)
        (record {
          carried = (
            c.0,
            c.1,
            Spares-Chain invalid_idx level.head_idx q level.tail_idx r.spares
                (λ j u. omega (arith, apart j, u)) c.2,
            r.carried,
          );
          freed = r.freed;
          spares = Spares-mono (λ j k. omega (arith, k)) r.spares;
        })
