-- ===== src/Pool/Fresh.antt =====
-- The constructor and clear of src/pool_order_book.cpp: an empty book, with every node on the free list.
use lloms.Base.{
  ℕ, zero, suc, ◌+◌, ◌≤◌, ◌<◌, ◌≡◌, refl, sym, ap, ◌∙◌, [], ◌∷◌, arith, length, ltb, ◌==◌,
  if◌then◌else◌,
}
use lloms.Spec
use lloms.Pool.{Nodes, Book, invalid_idx, node, next_free, init, linked_nodes}
use lloms.Pool.Orders.{clear, relink}
use lloms.Pool.Links.{Free}
use lloms.Pool.Grow.{upto, length-upto, occurs-upto, Free-upto, Free-linked_nodes, length_linked}
use lloms.Pool.Represent.{Represents}
use lloms.Stl

abbrev pub no_orders : Spec.Book
no_orders = record { bids = []; asks = [] }

-- A book whose vector is one free list.
unused_Represents :
    (nodes : Nodes) (head : ℕ)
    → length nodes ≤ invalid_idx
    → Free nodes head (upto 0 (length nodes))
    → Represents
        (record {
          store = record { nodes = nodes; free_head = head; order_index = [] };
          bids = [];
          asks = [];
        })
        no_orders
unused_Represents nodes head small f = record {
  lists = Stl.empty;
  linked = record {
    free = upto 0 (length nodes);
    kept = record {
      own = tt;
      other = tt;
      freed = f;
      apart = λ k. omega (arith, occurs-upto k 0 (length nodes));
      counted = omega (arith, length-upto 0 (length nodes));
      small = small;
      index = refl;
    };
    indexed = record { distinct = tt; agree = λ k. refl };
  };
  seen = refl;
  sound = record { bids = tt; asks = tt; uncrossed = tt };
}

-- A new pool of any capacity that 32-bit indices can address stands for the empty book.
pub init-Represents : (capacity : ℕ) → capacity ≤ invalid_idx → Represents (init capacity) no_orders
unfolding init
init-Represents capacity small =
    let nodes = linked_nodes 0 capacity capacity in
    let size : length nodes ≡ capacity = length_linked [] capacity capacity ∙ omega arith in
    let first : (if ltb 0 capacity then 0 else invalid_idx)
        ≡ (if capacity == 0 then invalid_idx else 0) =
      ground arith in
    unused_Represents nodes _ (rw size small)
      (rw size (Free-linked_nodes [] capacity capacity _ (omega arith) small first))

length-relink : (i size : ℕ) (nodes : Nodes) → length (relink i size nodes) ≡ length nodes
unfolding relink
length-relink i size [] = refl
length-relink i size (n ∷ nodes) = ap suc (length-relink (i + 1) size nodes)

next-relink :
    (i size : ℕ) (nodes : Nodes) (j : ℕ)
    → j < length nodes
    → (node (relink i size nodes) j).next_idx ≡ next_free (i + j) size
unfolding relink
next-relink i size [] j h = absurd (omega arith)
next-relink i size (n ∷ nodes) zero h = ap (λ x. next_free x size) (omega arith)
next-relink i size (n ∷ nodes) (suc j) h =
    next-relink (i + 1) size nodes j (omega arith) ∙ ap (λ x. next_free x size) (omega arith)

-- A cleared pool stands for the empty book, whatever was in it.
pub clear-Represents : (b : Book) → length b.nodes ≤ invalid_idx → Represents (clear b) no_orders
unfolding clear
clear-Represents b small =
    let n = length b.nodes in
    let nodes = relink 0 n b.nodes in
    let size : length nodes ≡ n = length-relink 0 n b.nodes in
    let first : (if ltb 0 n then 0 else invalid_idx) ≡ (if n == 0 then invalid_idx else 0) =
      ground arith in
    unused_Represents nodes _ (rw size small) (
      rw (size, first)
        (Free-upto nodes 0 n (omega (arith, size)) (rw size small) (λ j l b'.
          next-relink 0 n b.nodes j (omega (arith, b', size))
          ∙ ap (λ x. next_free x n) (omega arith)
          ∙ ap (next_free j) (sym size))))
