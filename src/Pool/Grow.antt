-- ===== src/Pool/Grow.antt =====
-- The free list of a new vector and of a grown one: linked_nodes and expand, the constructor and the
-- first half of allocate_node of src/pool_order_book.cpp.
use lloms.Base.{
  ℕ, zero, suc, ◌+◌, ◌-◌, ◌≤◌, ◌<◌, ◌≡◌, refl, sym, ap, ◌∙◌, List, [], ◌∷◌, ◌++◌, arith, length,
  length-append, ◌==◌, if◌then◌else◌,
}
use lloms.Pool.{OrderNode, Nodes, Levels, invalid_idx, node, next_free, linked_nodes}
use lloms.Pool.Links.{occurs, Chain, Free}
use lloms.Pool.Carry.{Carries}
use lloms.Stl
use lloms.Stl.{Node, Index}

-- More nodes, behind the others.
pub record Extends (nodes nodes' : Nodes) : Type 0 where
  pub size : length nodes ≤ length nodes'
  pub same : (j : ℕ) → j < length nodes → node nodes' j ≡ node nodes j

module _ {nodes nodes' : Nodes} (e : Extends nodes nodes') where
  Extends-Chain : (p h : ℕ) (q : List Node) (t : ℕ) → Chain nodes p h q t → Chain nodes' p h q t
  Extends-Chain p h [] t c = c
  Extends-Chain p h (n ∷ q) t c =
      let here = e.same n.addr c.1 in
      (
        c.0,
        omega (arith, c.1, e.size),
        rw here c.2,
        rw here c.3,
        rw here (Extends-Chain n.addr (node nodes n.addr).next_idx q t c.4),
      )

  pub Extends-Carries : (ls : Levels) (gs : Stl.Levels) → Carries nodes ls gs → Carries nodes' ls gs
  Extends-Carries [] [] c = tt
  Extends-Carries [] (g ∷ gs) c = absurd c
  Extends-Carries (l ∷ ls) [] c = absurd c
  Extends-Carries ((p, level) ∷ ls) ((p', q) ∷ gs) c = (
    c.0,
    c.1,
    Extends-Chain invalid_idx level.head_idx q level.tail_idx c.2,
    Extends-Carries ls gs c.3,
  )

-- `n` indices from `i` on.
abbrev pub upto : ℕ → ℕ → List ℕ
upto i zero = []
upto i (suc n) = i ∷ upto (suc i) n

pub length-upto : (i n : ℕ) → length (upto i n) ≡ n
length-upto i zero = refl
length-upto i (suc n) = ap suc (length-upto (suc i) n)

pub occurs-upto_below : (k i n : ℕ) → k < i → occurs k (upto i n) ≡ 0
occurs-upto_below k i zero h = refl
occurs-upto_below k i (suc n) h = ground (arith, h, occurs-upto_below k (suc i) n)

pub occurs-upto : (k i n : ℕ) → occurs k (upto i n) ≤ 1
occurs-upto k i zero = omega arith
occurs-upto k i (suc n) = ground (arith, occurs-upto_below k (suc i) n, occurs-upto k (suc i) n)

-- Nodes that are linked in their order.
pub Free-upto :
    (nodes : Nodes) (i n : ℕ)
    → i + n ≡ length nodes
    → length nodes ≤ invalid_idx
    → ((j : ℕ) → i ≤ j → j < length nodes → (node nodes j).next_idx ≡ next_free j (length nodes))
    → Free nodes (if n == 0 then invalid_idx else i) (upto i n)
Free-upto nodes i zero e small next = refl
Free-upto nodes i (suc n) e small next =
    let here : (node nodes i).next_idx ≡ (if n == 0 then invalid_idx else suc i) =
      next i (omega arith) (omega (arith, e)) ∙ ground (arith, e, small) in
    (
      ground arith,
      omega (arith, e),
      rw here
          (Free-upto nodes (suc i) n (omega (arith, e)) small (λ j l. next j (omega (arith, l)))),
    )

length-linked_nodes : (i n size : ℕ) → length (linked_nodes i n size) ≡ n
unfolding linked_nodes
length-linked_nodes i zero size = refl
length-linked_nodes i (suc n) size = ap suc (length-linked_nodes (i + 1) n size)

next-linked_nodes :
    (i n size j : ℕ) → j < n → (node (linked_nodes i n size) j).next_idx ≡ next_free (i + j) size
unfolding linked_nodes
next-linked_nodes i zero size j h = absurd (omega arith)
next-linked_nodes i (suc n) size zero h = ap (λ x. next_free x size) (omega arith)
next-linked_nodes i (suc n) size (suc j) h =
    next-linked_nodes (i + 1) n size j (omega arith) ∙ ap (λ x. next_free x size) (omega arith)

node-append_left : (xs ys : Nodes) (j : ℕ) → j < length xs → node (xs ++ ys) j ≡ node xs j
node-append_left [] ys j h = absurd (omega arith)
node-append_left (x ∷ xs) ys zero h = refl
node-append_left (x ∷ xs) ys (suc j) h = node-append_left xs ys j (omega arith)

node-append_right : (xs ys : Nodes) (j : ℕ) → node (xs ++ ys) (length xs + j) ≡ node ys j
node-append_right [] ys j = ap (node ys) (omega arith)
node-append_right (x ∷ xs) ys j =
    let at_tail : suc (length xs) + j ≡ suc (length xs + j) = omega arith in
    ap (node (x ∷ xs ++ ys)) at_tail ∙ node-append_right xs ys j

-- The vector behind `xs`, as the constructor (with no `xs`) and allocate_node fill it.
pub length_linked :
    (xs : Nodes) (n size : ℕ) → length (xs ++ linked_nodes (length xs) n size) ≡ length xs + n
length_linked xs n size =
    length-append xs (linked_nodes (length xs) n size)
    ∙ ap (◌+◌ (length xs)) (length-linked_nodes (length xs) n size)

pub Free-linked_nodes :
    (xs : Nodes) (n size h : ℕ)
    → length xs + n ≡ size
    → size ≤ invalid_idx
    → h ≡ (if n == 0 then invalid_idx else length xs)
    → Free (xs ++ linked_nodes (length xs) n size) h (upto (length xs) n)
Free-linked_nodes xs n size h sum small first =
    let more = linked_nodes (length xs) n size in
    let whole : length (xs ++ more) ≡ size = length_linked xs n size ∙ sum in
    rw first (
      Free-upto (xs ++ more) (length xs) n (omega (arith, whole, sum)) (rw whole small) (λ j l b.
        let split : length xs + (j - length xs) ≡ j = omega (arith, l) in
        let here : node (xs ++ more) j ≡ node more (j - length xs) =
          ap (node (xs ++ more)) (sym split) ∙ node-append_right xs more (j - length xs) in
        ap (λ (m : OrderNode). m.next_idx) here
        ∙ next-linked_nodes (length xs) n size (j - length xs) (omega (arith, b, whole, sum, l))
        ∙ ap (λ x. next_free x size) split
        ∙ ap (next_free j) (sym whole)))

pub linked-Extends : (xs ys : Nodes) → Extends xs (xs ++ ys)
linked-Extends xs ys = record {
  size = omega (arith, length-append xs ys);
  same = node-append_left xs ys;
}
