-- ===== src/Pool/Links.antt =====
-- The links of src/pool_order_book.cpp: which queue of orders a chain of nodes stands for, and the free
-- list. A queue is one of `Stl`, with node indices in the place of addresses.
use lloms.Base.{
  ℕ, ◌+◌, ◌≤◌, ◌<◌, ◌≡◌, ◌≢◌, refl, ◌∙◌, true, false, List, [], ◌∷◌, arith, length, ◌==◌,
  if◌then◌else◌, get_or-set_self, get_or-set_ne, length-set,
}
use native.Mathlib.Decide.{ℕ_discrete, dec_lt}
use lloms.Pool.{OrderNode, Nodes, invalid_idx, node, change}
use lloms.Stl.{Node}

-- How often an index stands in a list of indices, and in a queue.
abbrev pub occurs : ℕ → List ℕ → ℕ
occurs k [] = 0
occurs k (i ∷ is) = (if i == k then 1 else 0) + occurs k is

abbrev pub uses : ℕ → List Node → ℕ
uses k [] = 0
uses k (n ∷ q) = (if n.addr == k then 1 else 0) + uses k q

-- From `h` the nodes lead through the queue to `t`, and back to `p`, the node before `h`.
abbrev pub Chain : Nodes → ℕ → ℕ → List Node → ℕ → Type 0
Chain nodes p h [] t = (h ≡ invalid_idx) × (t ≡ p)
Chain nodes p h (n ∷ q) t =
    (h ≡ n.addr)
    × (n.addr < length nodes)
    × ((node nodes n.addr).order ≡ n.order)
    × ((node nodes n.addr).prev_idx ≡ p)
    × Chain nodes n.addr (node nodes n.addr).next_idx q t

-- The free list.
abbrev pub Free : Nodes → ℕ → List ℕ → Type 0
Free nodes h [] = h ≡ invalid_idx
Free nodes h (i ∷ free) = (h ≡ i) × (i < length nodes) × Free nodes (node nodes i).next_idx free

pub length-change :
    (i : ℕ) (f : OrderNode → OrderNode) (nodes : Nodes) → length (change i f nodes) ≡ length nodes
length-change i f nodes = length-set nodes i (f (node nodes i))

pub node-change :
    (i j : ℕ) (f : OrderNode → OrderNode) (nodes : Nodes)
    → j < length nodes
    → node (change i f nodes) j ≡ (if i == j then f (node nodes j) else node nodes j)
node-change i j f nodes h = elim (ℕ_discrete i j) [
  | yes same ↦
      let test : (i == j) ≡ true = ground (arith, same) in
      rw (test, same) (get_or-set_self nodes j (f (node nodes j)) _ h)
  | no other ↦
      let test : (i == j) ≡ false = ground (arith, other) in
      rw test (get_or-set_ne nodes i j (f (node nodes i)) _ other)
]

-- A change of nodes that spares those of which `P` holds.
pub record Spares (P : ℕ → Type 0) (nodes nodes' : Nodes) : Type 0 where
  pub size : length nodes' ≡ length nodes
  pub same : (j : ℕ) → j < length nodes → P j → node nodes' j ≡ node nodes j

pub Spares-Chain :
    {P : ℕ → Type 0} {nodes nodes' : Nodes} (p h : ℕ) (q : List Node) (t : ℕ)
    → Spares P nodes nodes'
    → ((j : ℕ) → 1 ≤ uses j q → P j)
    → Chain nodes p h q t
    → Chain nodes' p h q t
Spares-Chain p h [] t s inside c = c
Spares-Chain {P} {nodes} {nodes'} p h (n ∷ q) t s inside c =
    let self : (n.addr == n.addr) ≡ true = ground arith in
    let e = s.same n.addr c.1 (inside n.addr (rw self (omega arith))) in
    (
      c.0,
      rw s.size c.1,
      rw e c.2,
      rw e c.3,
      rw e (
          Spares-Chain n.addr (node nodes n.addr).next_idx q t s (λ j u. inside j (omega arith))
            c.4),
    )

pub Spares-Free :
    {P : ℕ → Type 0} {nodes nodes' : Nodes} (h : ℕ) (free : List ℕ)
    → Spares P nodes nodes'
    → ((j : ℕ) → 1 ≤ occurs j free → P j)
    → Free nodes h free
    → Free nodes' h free
Spares-Free h [] s inside c = c
Spares-Free {P} {nodes} {nodes'} h (i ∷ free) s inside c =
    let self : (i == i) ≡ true = ground arith in
    let e = s.same i c.1 (inside i (rw self (omega arith))) in
    (
      c.0,
      rw s.size c.1,
      rw e (Spares-Free (node nodes i).next_idx free s (λ j u. inside j (omega arith)) c.2),
    )

pub Spares-trans :
    {P : ℕ → Type 0} {nodes nodes' nodes2 : Nodes}
    → Spares P nodes nodes'
    → Spares P nodes' nodes2
    → Spares P nodes nodes2
Spares-trans a b = record {
  size = b.size ∙ a.size;
  same = λ j h p. b.same j (rw a.size h) p ∙ a.same j h p;
}

-- The indices of a chain lie in the vector.
pub Chain-bound :
    (nodes : Nodes) (p h : ℕ) (q : List Node) (t a : ℕ)
    → Chain nodes p h q t
    → 1 ≤ uses a q
    → a < length nodes
Chain-bound nodes p h [] t a c u = absurd (omega arith)
Chain-bound nodes p h (n ∷ q) t a c u =
    ground (arith, c, Chain-bound nodes n.addr (node nodes n.addr).next_idx q t a c.4)

pub Free-bound :
    (nodes : Nodes) (h : ℕ) (free : List ℕ) (a : ℕ)
    → Free nodes h free
    → 1 ≤ occurs a free
    → a < length nodes
Free-bound nodes h [] a c u = absurd (omega arith)
Free-bound nodes h (i ∷ free) a c u =
    ground (arith, c, Free-bound nodes (node nodes i).next_idx free a c.2)

pub Spares-mono :
    {P Q : ℕ → Type 0} {nodes nodes' : Nodes}
    → ((j : ℕ) → Q j → P j)
    → Spares P nodes nodes'
    → Spares Q nodes nodes'
Spares-mono f s = record { size = s.size; same = λ j h p. s.same j h (f j p) }

pub Spares-refl : (P : ℕ → Type 0) (nodes : Nodes) → Spares P nodes nodes
Spares-refl P nodes = record { size = refl; same = λ j h p. refl }

-- A change of one node.
pub change-Spares :
    (i : ℕ) (f : OrderNode → OrderNode) (nodes : Nodes)
    → Spares (λ j. i ≢ j) nodes (change i f nodes)
change-Spares i f nodes = record {
  size = length-change i f nodes;
  same = λ j h p. let e : (i == j) ≡ false = ground (arith, p) in node-change i j f nodes h ∙ rw e;
}

pub node-change_self :
    (i : ℕ) (f : OrderNode → OrderNode) (nodes : Nodes)
    → i < length nodes
    → node (change i f nodes) i ≡ f (node nodes i)
node-change_self i f nodes h = get_or-set_self nodes i (f (node nodes i)) _ h

-- The end mark is no index of a chain.
pub Chain-no_end :
    (nodes : Nodes) (p h : ℕ) (q : List Node) (t : ℕ)
    → Chain nodes p h q t
    → length nodes ≤ invalid_idx
    → uses invalid_idx q ≡ 0
Chain-no_end nodes p h q t c small = elim (dec_lt 0 (uses invalid_idx q)) [
  | yes u ↦ absurd (omega (arith, Chain-bound nodes p h q t invalid_idx c u))
  | no u ↦ omega arith
]
