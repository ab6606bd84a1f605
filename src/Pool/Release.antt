-- ===== src/Pool/Release.antt =====
-- A node leaves its level and joins the free list: remove_from_level and free_node of
-- src/pool_order_book.cpp, as match_buy, match_sell and cancel_order call them.
use lloms.Base.{
  ℕ, suc, ◌+◌, ◌≤◌, ◌<◌, ◌≡◌, ◌≢◌, refl, ap, List, [], ◌∷◌, arith, length, ◌==◌, if◌then◌else◌,
}
use lloms.Pool.{OrderNode, PriceLevel, Nodes, invalid_idx, change, remove_from_level}
use lloms.Pool.Links.{
  occurs, uses, Chain, Free, Spares, Spares-Chain, Spares-Free, Spares-trans, Spares-mono,
  change-Spares, node-change_self, Chain-bound, Free-bound, Chain-no_end,
}
use lloms.Pool.Detach.{
  remove_from_level-Unlinked, Unlinked-Spares, Unlinked-Chain, next_in, prev_in,
}
use lloms.Stl.{Node, erase_node}

pub uses-erase_node :
    (a k : ℕ) (q : List Node)
    → 1 ≤ uses a q
    → uses k (erase_node a q) + (if a == k then 1 else 0) ≡ uses k q
unfolding erase_node
uses-erase_node a k [] h = absurd (omega arith)
uses-erase_node a k (n ∷ q) h = ground (arith, h, uses-erase_node a k q)

pub length-erase_node :
    (a : ℕ) (q : List Node) → 1 ≤ uses a q → suc (length (erase_node a q)) ≡ length q
unfolding erase_node
length-erase_node a [] h = absurd (omega arith)
length-erase_node a (n ∷ q) h = ground (arith, h, length-erase_node a q)

-- The nodes after both calls.
abbrev pub released : PriceLevel → ℕ → Nodes → ℕ → Nodes
released level a nodes free_head =
    change a (λ n. record n { prev_idx = invalid_idx; next_idx = free_head })
      (remove_from_level level a nodes).nodes

pub record Releases (level : PriceLevel) (a : ℕ) (nodes : Nodes) (free_head : ℕ) (q : List Node)
    (free : List ℕ) : Type 0 where
  pub chain :
      Chain
        (released level a nodes free_head)
        invalid_idx
        (remove_from_level level a nodes).level.head_idx
        (erase_node a q)
        (remove_from_level level a nodes).level.tail_idx
  pub freed : Free (released level a nodes free_head) a (a ∷ free)
  pub spares : Spares (λ j. uses j q ≡ 0) nodes (released level a nodes free_head)

module _ (level : PriceLevel) (a : ℕ) (nodes : Nodes) (q : List Node)
    (c : Chain nodes invalid_idx level.head_idx q level.tail_idx) (i : 1 ≤ uses a q)
    (once : (k : ℕ) → uses k q ≤ 1) (small : length nodes ≤ invalid_idx) where
  remove_from_level-Chain :
      Chain
        (remove_from_level level a nodes).nodes
        invalid_idx
        (remove_from_level level a nodes).level.head_idx
        (erase_node a q)
        (remove_from_level level a nodes).level.tail_idx
  unfolding remove_from_level
  remove_from_level-Chain =
      Unlinked-Chain nodes (remove_from_level level a nodes).nodes a
        (remove_from_level-Unlinked level a nodes small) invalid_idx level.head_idx q level.tail_idx
        c i once (Chain-no_end nodes invalid_idx level.head_idx q level.tail_idx c small) small

  -- The neighbours of the node stand in the queue too.
  remove_from_level-Spares :
      Spares
        (λ j. (uses j q ≡ 0) × (j < length nodes))
        nodes
        (remove_from_level level a nodes).nodes
  remove_from_level-Spares =
      let next = next_in nodes invalid_idx level.head_idx q level.tail_idx a c i in
      let prev = prev_in nodes invalid_idx level.head_idx q level.tail_idx a c i in
      Spares-mono (λ j k. (ground (arith, prev, k, small), ground (arith, next, k, small)))
        (Unlinked-Spares nodes (remove_from_level level a nodes).nodes a
          (remove_from_level-Unlinked level a nodes small))

pub remove_from_level-Releases :
    (level : PriceLevel) (a : ℕ) (nodes : Nodes) (free_head : ℕ) (q : List Node) (free : List ℕ)
    → Chain nodes invalid_idx level.head_idx q level.tail_idx
    → Free nodes free_head free
    → 1 ≤ uses a q
    → ((k : ℕ) → uses k q + occurs k free ≤ 1)
    → length nodes ≤ invalid_idx
    → Releases level a nodes free_head q free
remove_from_level-Releases level a nodes free_head q free c f i apart small =
    let once : (k : ℕ) → uses k q ≤ 1 = λ k. omega (arith, apart k) in
    let nodes1 = (remove_from_level level a nodes).nodes in
    let give : OrderNode → OrderNode =
      λ n. record n { prev_idx = invalid_idx; next_idx = free_head } in
    let bound = Chain-bound nodes invalid_idx level.head_idx q level.tail_idx a c i in
    let linked = remove_from_level-Chain level a nodes q c i once small in
    let spared = remove_from_level-Spares level a nodes q c i once small in
    let given = change-Spares a give nodes1 in
    let outside : Spares (λ j. (uses j q ≡ 0) × (j < length nodes)) nodes (change a give nodes1) =
      Spares-trans spared
        (Spares-mono (λ j k e. absurd (omega (arith, ap (λ x. uses x q) e, k.0))) given) in
    let here = node-change_self a give nodes1 (rw spared.size bound) in
    let left : (j : ℕ) → 1 ≤ uses j (erase_node a q) → a ≢ j =
      λ j k e. absurd (ground (arith, k, e, uses-erase_node a j q i, once j)) in
    record {
      chain = Spares-Chain invalid_idx _ (erase_node a q) _ given left linked;
      freed = (
        refl,
        rw outside.size bound,
        rw here (
            Spares-Free free_head free outside
              (λ j k. (omega (arith, apart j, k), Free-bound nodes free_head free j f k)) f),
      );
      spares = record { size = outside.size; same = λ j h e. outside.same j h (e, h) };
    }
