-- ===== src/Pool/Allot.antt =====
-- allocate_node of src/pool_order_book.cpp: a node leaves the free list, which is renewed first where
-- it is empty.
use lloms.Base.{
  ℕ, suc, ◌+◌, ◌-◌, ◌*◌, ◌%◌, ◌≤◌, ◌<◌, ◌≡◌, ap, ◌∙◌, true, false, List, [], ◌∷◌, ◌++◌, arith,
  length, ◌==◌, if◌then◌else◌,
}
use lloms.Types.{Order, u32_mod}
use lloms.Pool.{OrderNode, Levels, Store, invalid_idx, node, linked_nodes, expand, allocate_node}
use lloms.Pool.Links.{occurs, Free, Spares-Free, change-Spares, node-change_self}
use lloms.Pool.Carry.{Carries, Carries-bound, Kept, level_uses, sizes, Spares-Carries}
use lloms.Pool.Grow.{
  Extends-Carries, upto, occurs-upto, occurs-upto_below, length-upto, Free-linked_nodes,
  length_linked, linked-Extends,
}
use lloms.Pool.Round.{indexes}
use lloms.Stl
use lloms.Stl.{Index}

-- A free list that is not empty.
record Stocked (s : Store) (ls ms : Levels) (gs hs : Stl.Levels) (ix : Index) : Type 0 where
  first : ℕ
  left : List ℕ
  kept : Kept s ls ms gs hs ix (first ∷ left)

-- The vector doubles below half its limit.
abbrev pub HasRoom : ℕ → Type 0
HasRoom n = n * 2 ≤ invalid_idx

expand-Stocked :
    (s : Store) (ls ms : Levels) (gs hs : Stl.Levels) (ix : Index) (free : List ℕ)
    → HasRoom (sizes gs + sizes hs)
    → Kept s ls ms gs hs ix free
    → Stocked (expand s) ls ms gs hs ix
unfolding expand
expand-Stocked s ls ms gs hs ix (i ∷ left) room k =
    let test : (s.free_head == invalid_idx) ≡ false =
      ground (arith, k.freed.0, k.freed.1, k.small) in
    rw test (record { first = i; left = left; kept = k })
expand-Stocked s ls ms gs hs ix [] room k =
    let test : (s.free_head == invalid_idx) ≡ true = ground (arith, k.freed) in
    let old = length s.nodes in
    let new = if old == 0 then 1024 else old * 2 in
    let full : sizes gs + sizes hs ≡ old = omega (arith, k.counted) in
    let fits : new ≤ invalid_idx = ground (arith, room, full) in
    let more : suc old ≤ new = ground arith in
    let n = new - suc old in
    let split : new - old ≡ suc n = omega (arith, more) in
    let sum : old + suc n ≡ new = omega (arith, more) in
    let grown = s.nodes ++ linked_nodes old (suc n) new in
    let size : length grown ≡ new = length_linked s.nodes (suc n) new ∙ sum in
    let longer = linked-Extends s.nodes (linked_nodes old (suc n) new) in
    let small_head : old % u32_mod ≡ old = omega (arith, fits, more) in
    let nonzero : (suc n == 0) ≡ false = ground arith in
    let list : Free grown old (upto old (suc n)) =
      Free-linked_nodes s.nodes (suc n) new old sum fits (rw nonzero) in
    rw (test, split, small_head)
      (record {
        first = old;
        left = upto (suc old) n;
        kept = record {
          own = Extends-Carries longer ls gs k.own;
          other = Extends-Carries longer ms hs k.other;
          freed = list;
          apart = λ j. ground (
            arith,
            k.apart j,
            occurs-upto j old (suc n),
            occurs-upto_below j old (suc n),
            Carries-bound s.nodes ls gs j k.own,
            Carries-bound s.nodes ms hs j k.other,
          );
          counted = omega (arith, full, size, sum, length-upto (suc old) n);
          small = rw size fits;
          index = k.index;
        };
      })

-- The node `idx` holds the order, and is in no list yet.
pub record Holds (s : Store) (ls ms : Levels) (gs hs : Stl.Levels) (ix : Index) (idx : ℕ)
    (o : Order) : Type 0 where
  pub left : List ℕ
  pub own : Carries s.nodes ls gs
  pub other : Carries s.nodes ms hs
  pub freed : Free s.nodes s.free_head left
  pub apart :
      (k : ℕ)
      → level_uses k gs + (level_uses k hs + ((if idx == k then 1 else 0) + occurs k left)) ≤ 1
  pub counted : sizes gs + (sizes hs + suc (length left)) ≡ length s.nodes
  pub small : length s.nodes ≤ invalid_idx
  pub index : s.order_index ≡ indexes ix
  pub bound : idx < length s.nodes
  pub order : (node s.nodes idx).order ≡ o

pub allocate_node-Holds :
    (s : Store) (o : Order) (ls ms : Levels) (gs hs : Stl.Levels) (ix : Index) (free : List ℕ)
    → HasRoom (sizes gs + sizes hs)
    → Kept s ls ms gs hs ix free
    → Holds (allocate_node s o).1 ls ms gs hs ix (allocate_node s o).0 o
unfolding allocate_node
allocate_node-Holds s o ls ms gs hs ix free room k0 =
    let stock = expand-Stocked s ls ms gs hs ix free room k0 in
    let k = stock.kept in
    let s' = expand s in
    let give =
      λ (n : OrderNode). record n { order = o; prev_idx = invalid_idx; next_idx = invalid_idx } in
    let given = change-Spares s'.free_head give s'.nodes in
    let bound : s'.free_head < length s'.nodes = rw k.freed.0 k.freed.1 in
    let once : (j : ℕ)
        → level_uses j gs
            + (level_uses j hs + ((if s'.free_head == j then 1 else 0) + occurs j stock.left))
          ≤ 1 =
      λ j. ground (arith, k.apart j, k.freed.0) in
    record {
      left = stock.left;
      own = Spares-Carries ls gs given (λ j u e. absurd (ground (arith, once j, e, u))) k.own;
      other = Spares-Carries ms hs given (λ j u e. absurd (ground (arith, once j, e, u))) k.other;
      freed =
          Spares-Free (node s'.nodes s'.free_head).next_idx stock.left given
            (λ j u e. absurd (ground (arith, once j, e, u))) (rw k.freed.0 k.freed.2);
      apart = once;
      counted = rw given.size k.counted;
      small = rw given.size k.small;
      index = k.index;
      bound = rw given.size bound;
      order = ap (λ (m : OrderNode). m.order) (node-change_self s'.free_head give s'.nodes bound);
    }
