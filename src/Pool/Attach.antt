-- ===== src/Pool/Attach.antt =====
-- append_to_level of src/pool_order_book.cpp links a node behind the last of a chain.
use lloms.Base.{
  ℕ, ◌≤◌, ◌<◌, ◌≡◌, ◌≢◌, refl, ◌∙◌, inl, inr, true, false, List, [], ◌∷◌, ◌++◌, arith, length, ◌==◌,
  if◌then◌else◌, Bool-cases, is_nil,
}
use lloms.Types.{Order}
use lloms.Pool.{OrderNode, PriceLevel, Nodes, invalid_idx, node, change, append_to_level}
use lloms.Pool.Links.{uses, Chain, node-change, length-change, Spares, Chain-bound}
use lloms.Stl.{Node}

-- The node `i` is linked behind the node `t`.
pub record Attached (i t : ℕ) (nodes nodes' : Nodes) : Type 0 where
  pub size : length nodes' ≡ length nodes
  pub links :
      (j : ℕ)
      → j < length nodes
      → node nodes' j ≡ record (node nodes j) {
        prev_idx = if i == j then t else (node nodes j).prev_idx;
        next_idx = if t == j then i else (if i == j then invalid_idx else (node nodes j).next_idx);
      }

module _ (nodes : Nodes) where
  pub last_in :
      (p h : ℕ) (q : List Node) (t : ℕ) → Chain nodes p h q t → is_nil q ≡ false → 1 ≤ uses t q
  last_in p h [] t c e = absurd (cc e)
  last_in p h (n ∷ []) t c e = ground (arith, c)
  last_in p h (n ∷ m ∷ q) t c e =
      omega (arith, last_in n.addr (node nodes n.addr).next_idx (m ∷ q) t c.4 refl)

  last_none : (p h : ℕ) (q : List Node) (t : ℕ) → Chain nodes p h q t → is_nil q ≡ true → t ≡ p
  last_none p h [] t c e = c.1
  last_none p h (n ∷ q) t c e = absurd (cc e)

  -- A level is empty if its chain is, at either end.
  pub tail-is_nil :
      (h : ℕ) (q : List Node) (t : ℕ)
      → Chain nodes invalid_idx h q t
      → length nodes ≤ invalid_idx
      → (t == invalid_idx) ≡ is_nil q
  tail-is_nil h q t c small = elim (Bool-cases (is_nil q)) [
    | inl e ↦ rw e (ground (arith, last_none invalid_idx h q t c e))
    | inr e ↦ rw e (
        ground
          (arith, Chain-bound nodes invalid_idx h q t t c (last_in invalid_idx h q t c e), small))
  ]

  pub head-is_nil :
      (h : ℕ) (q : List Node) (t : ℕ)
      → Chain nodes invalid_idx h q t
      → length nodes ≤ invalid_idx
      → (h == invalid_idx) ≡ is_nil q
  head-is_nil h [] t c small = ground (arith, c.0)
  head-is_nil h (n ∷ q) t c small = ground (arith, c.0, c.1)

  module _ (nodes' : Nodes) (i t : ℕ) (u : Attached i t nodes nodes') where
    pub Attached-Spares : Spares (λ j. (i ≢ j) × (t ≢ j)) nodes nodes'
    Attached-Spares = record {
      size = u.size;
      same = λ j h k.
          let e : (i == j) ≡ false = ground (arith, k) in
          let e' : (t == j) ≡ false = ground (arith, k) in u.links j h ∙ rw (e, e');
    }

    pub Attached-Chain :
        (o : Order) (p h : ℕ) (q : List Node)
        → Chain nodes p h q t
        → i < length nodes
        → (node nodes i).order ≡ o
        → t ≢ i
        → uses i q ≡ 0
        → ((k : ℕ) → uses k q ≤ 1)
        → Chain nodes' p (if is_nil q then i else h) (q ++ record { addr = i; order = o } ∷ []) i
    Attached-Chain o p h [] c bound e other out once =
        let self : (i == i) ≡ true = ground arith in
        let test : (t == i) ≡ false = ground (arith, other) in
        let here = u.links i bound ∙ rw (self, test) in
        (refl, rw u.size bound, rw here e, rw here c.1, (rw here refl, refl))
    Attached-Chain o p h (n ∷ q) c bound e other out once =
        let test : (i == n.addr) ≡ false = ground (arith, out) in
        let next : (if t == n.addr then i else (node nodes n.addr).next_idx)
            ≡ (if is_nil q then i else (node nodes n.addr).next_idx) =
          elim (Bool-cases (is_nil q)) [
            | inl none_behind ↦
                let last : (t == n.addr) ≡ true =
                  ground
                    (arith, last_none n.addr (node nodes n.addr).next_idx q t c.4 none_behind) in
                rw (none_behind, last)
            | inr more ↦
                let before : (t == n.addr) ≡ false =
                  ground
                    (arith, once t, last_in n.addr (node nodes n.addr).next_idx q t c.4 more) in
                rw (more, before)
          ] in
        let here = u.links n.addr c.1 ∙ rw (test, next) in
        let behind =
          Attached-Chain o n.addr (node nodes n.addr).next_idx q c.4 bound e other (omega arith)
            (λ k. omega (arith, once k)) in
        (c.0, rw u.size c.1, rw here c.2, rw here c.3, rw here behind)

pub append_to_level-Attached :
    (level : PriceLevel) (i : ℕ) (nodes : Nodes)
    → length nodes ≤ invalid_idx
    → i < length nodes
    → level.tail_idx ≢ i
    → Attached i level.tail_idx nodes (append_to_level level i nodes).nodes
unfolding append_to_level
append_to_level-Attached level i nodes small bound other =
    let set_both =
      λ (m : OrderNode). record m { prev_idx = level.tail_idx; next_idx = invalid_idx } in
    let set_next = λ (m : OrderNode). record m { next_idx = i } in
    let nodes1 = change i set_both nodes in
    let size1 = length-change i set_both nodes in
    record {
      size = ground (arith, size1, length-change level.tail_idx set_next nodes1);
      links = λ j h. ground (
        arith,
        h,
        size1,
        node-change i j set_both nodes h,
        node-change level.tail_idx j set_next nodes1,
      );
    }
