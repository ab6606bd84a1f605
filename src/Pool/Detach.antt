-- ===== src/Pool/Detach.antt =====
-- remove_from_level of src/pool_order_book.cpp takes a node out of a chain.
use lloms.Base.{
  ℕ, ◌≤◌, ◌<◌, ◌≡◌, ◌≢◌, refl, sym, ap, ◌∙◌, ◌⊎◌, inl, inr, true, false, List, [], ◌∷◌, arith,
  length, ◌==◌, if◌then◌else◌,
}
use native.Mathlib.Decide.{ℕ_discrete}
use lloms.Pool.{OrderNode, PriceLevel, Nodes, invalid_idx, node, change, remove_from_level}
use lloms.Pool.Links.{uses, Chain, node-change, length-change, Spares, Spares-Chain}
use lloms.Stl.{Node, erase_node}

-- The neighbours of the node `a` are linked to each other.
pub record Unlinked (a : ℕ) (nodes nodes' : Nodes) : Type 0 where
  pub size : length nodes' ≡ length nodes
  pub links :
      (j : ℕ)
      → j < length nodes
      → node nodes' j ≡ record (node nodes j) {
        prev_idx =
            if (node nodes a).next_idx == j
            then (node nodes a).prev_idx
            else (node nodes j).prev_idx;
        next_idx =
            if (node nodes a).prev_idx == j
            then (node nodes a).next_idx
            else (node nodes j).next_idx;
      }

pub remove_from_level-Unlinked :
    (level : PriceLevel) (a : ℕ) (nodes : Nodes)
    → length nodes ≤ invalid_idx
    → Unlinked a nodes (remove_from_level level a nodes).nodes
unfolding remove_from_level
remove_from_level-Unlinked level a nodes small =
    let p = (node nodes a).prev_idx in
    let n = (node nodes a).next_idx in
    let set_next = λ (m : OrderNode). record m { next_idx = n } in
    let set_prev = λ (m : OrderNode). record m { prev_idx = p } in
    let nodes1 = if p == invalid_idx then nodes else change p set_next nodes in
    let size1 : length nodes1 ≡ length nodes = ground (arith, length-change p set_next nodes) in
    record {
      size = ground (arith, size1, length-change n set_prev nodes1);
      links = λ j h.
          ground (
            arith,
            h,
            small,
            size1,
            node-change p j set_next nodes,
            node-change n j set_prev nodes1,
          );
    }

module _ (nodes : Nodes) where
  head_in :
      (p h : ℕ) (q : List Node) (t : ℕ) → Chain nodes p h q t → (h ≡ invalid_idx) ⊎ (1 ≤ uses h q)
  head_in p h [] t c = inl c.0
  head_in p h (n ∷ q) t c = inr (ground (arith, c.0))

  -- The neighbours of a node of the chain.
  pub next_in :
      (p h : ℕ) (q : List Node) (t a : ℕ)
      → Chain nodes p h q t
      → 1 ≤ uses a q
      → ((node nodes a).next_idx ≡ invalid_idx) ⊎ (1 ≤ uses (node nodes a).next_idx q)
  next_in p h [] t a c u = absurd (omega arith)
  next_in p h (n ∷ q) t a c u = elim (ℕ_discrete n.addr a) [
    | yes same ↦ ground (
      arith,
      ap (λ x. (node nodes x).next_idx) same,
      head_in n.addr (node nodes n.addr).next_idx q t c.4,
    )
    | no other ↦
        let out : (n.addr == a) ≡ false = ground (arith, other) in
        ground
          (arith, next_in n.addr (node nodes n.addr).next_idx q t a c.4 (ground (arith, u, out)))
  ]

  pub prev_in :
      (p h : ℕ) (q : List Node) (t a : ℕ)
      → Chain nodes p h q t
      → 1 ≤ uses a q
      → ((node nodes a).prev_idx ≡ p) ⊎ (1 ≤ uses (node nodes a).prev_idx q)
  prev_in p h [] t a c u = absurd (omega arith)
  prev_in p h (n ∷ q) t a c u = elim (ℕ_discrete n.addr a) [
    | yes same ↦ inl (ap (λ x. (node nodes x).prev_idx) (sym same) ∙ c.3)
    | no other ↦
        let out : (n.addr == a) ≡ false = ground (arith, other) in
        ground
          (arith, prev_in n.addr (node nodes n.addr).next_idx q t a c.4 (ground (arith, u, out)))
  ]

  module _ (nodes' : Nodes) (a : ℕ) (u : Unlinked a nodes nodes') where
    pub Unlinked-Spares :
        Spares (λ j. ((node nodes a).prev_idx ≢ j) × ((node nodes a).next_idx ≢ j)) nodes nodes'
    Unlinked-Spares = record {
      size = u.size;
      same = λ j h k.
          let p : ((node nodes a).prev_idx == j) ≡ false = ground (arith, k) in
          let n : ((node nodes a).next_idx == j) ≡ false = ground (arith, k) in
          u.links j h ∙ rw (p, n);
    }

    -- What stood behind the node.
    after_Unlinked :
        (p : ℕ) (q : List Node) (t : ℕ)
        → (node nodes a).prev_idx ≡ p
        → Chain nodes a (node nodes a).next_idx q t
        → uses p q ≡ 0
        → ((k : ℕ) → uses k q ≤ 1)
        → length nodes ≤ invalid_idx
        → Chain nodes' p
            (node nodes a).next_idx
            q
            (if (node nodes a).next_idx == invalid_idx then p else t)
    after_Unlinked p [] t e c alone once small =
        let none_next : ((node nodes a).next_idx == invalid_idx) ≡ true = ground (arith, c.0) in
        (c.0, rw none_next refl)
    after_Unlinked p (m ∷ q) t e c alone once small =
        let next_test : ((node nodes a).next_idx == m.addr) ≡ true = ground (arith, c.0) in
        let prev_test : ((node nodes a).prev_idx == m.addr) ≡ false = ground (arith, e, alone) in
        let inner : ((node nodes a).next_idx == invalid_idx) ≡ false =
          ground (arith, c.0, c.1, small) in
        let here : node nodes' m.addr
            ≡ record (node nodes m.addr) { prev_idx = (node nodes a).prev_idx } =
          u.links m.addr c.1 ∙ rw (next_test, prev_test) in
        let apart : (j : ℕ)
            → 1 ≤ uses j q
            → ((node nodes a).prev_idx ≢ j) × ((node nodes a).next_idx ≢ j) =
          λ j k. (
            λ e'. absurd (omega (arith, ap (λ x. uses x q) (sym e' ∙ e), k, alone)),
            λ e'. absurd (ground (arith, ap (λ x. uses x q) (sym e' ∙ c.0), once m.addr, k)),
          ) in
        let behind : Chain nodes' m.addr (node nodes m.addr).next_idx q t =
          Spares-Chain m.addr (node nodes m.addr).next_idx q t Unlinked-Spares apart c.4 in
        rw inner (c.0, rw u.size c.1, rw here c.2, rw here e, rw here behind)

    pub Unlinked-Chain :
        (p h : ℕ) (q : List Node) (t : ℕ)
        → Chain nodes p h q t
        → 1 ≤ uses a q
        → ((k : ℕ) → uses k q ≤ 1)
        → uses p q ≡ 0
        → length nodes ≤ invalid_idx
        → Chain nodes' p
            (if (node nodes a).prev_idx == p then (node nodes a).next_idx else h)
            (erase_node a q)
            (if (node nodes a).next_idx == invalid_idx then (node nodes a).prev_idx else t)
    unfolding erase_node
    Unlinked-Chain p h [] t c i once alone small = absurd (omega arith)
    Unlinked-Chain p h (m ∷ q) t c i once alone small = elim (ℕ_discrete m.addr a) [
      | yes same ↦
          let test : (m.addr == a) ≡ true = ground (arith, same) in
          let before : (node nodes a).prev_idx ≡ p =
            ap (λ x. (node nodes x).prev_idx) (sym same) ∙ c.3 in
          let self : (p == p) ≡ true = ground arith in
          let rest : Chain nodes a (node nodes a).next_idx q t = rw (← same) c.4 in
          rw (test, before, self)
            (after_Unlinked p q t before rest (omega (arith, alone)) (λ k. omega (arith, once k))
              small)
      | no other ↦
          let test : (m.addr == a) ≡ false = ground (arith, other) in
          let inside : 1 ≤ uses a q = ground (arith, i, test) in
          let self : (m.addr == m.addr) ≡ true = ground arith in
          let alone' : uses m.addr q ≡ 0 = ground (arith, once m.addr, self) in
          let kept : ((node nodes a).prev_idx == p) ≡ false =
            ground (arith, alone, prev_in m.addr (node nodes m.addr).next_idx q t a c.4 inside) in
          let unhit : ((node nodes a).next_idx == m.addr) ≡ false = ground (
            arith,
            alone',
            small,
            c.1,
            next_in m.addr (node nodes m.addr).next_idx q t a c.4 inside,
          ) in
          let here : node nodes' m.addr ≡ record (node nodes m.addr) {
            next_idx =
                if (node nodes a).prev_idx == m.addr
                then (node nodes a).next_idx
                else (node nodes m.addr).next_idx;
          } =
            u.links m.addr c.1 ∙ rw unhit in
          let behind =
            Unlinked-Chain m.addr (node nodes m.addr).next_idx q t c.4 inside
              (λ k. omega (arith, once k)) alone' small in
          rw (test, kept) (c.0, rw u.size c.1, rw here c.2, rw here c.3, rw here behind)
    ]
