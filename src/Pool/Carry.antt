-- ===== src/Pool/Carry.antt =====
-- The two maps of src/pool_order_book.cpp with the nodes of their levels and the free list: the levels of
-- lists that they stand for, and that every node of the vector is in exactly one place.
use lloms.Base.{ℕ, zero, suc, ◌+◌, ◌≤◌, ◌<◌, ◌≡◌, refl, List, [], ◌∷◌, ◌++◌, arith, length}
use lloms.Pool.{Nodes, Levels, Store, invalid_idx}
use lloms.Pool.Links.{occurs, uses, Chain, Free, Spares, Spares-Chain, Chain-bound}
use lloms.Pool.Round.{indexes}
use lloms.Stl
use lloms.Stl.{Node, Index, match_queue}
use lloms.Stl.Loops.{match_queue-stop}
use lloms.Types.{Side, Order, Trade}
use lloms.Matching.{match_qty, reduce, make_trade}
use lloms.Base.Dict

abbrev pub level_uses : ℕ → Stl.Levels → ℕ
level_uses k [] = 0
level_uses k ((p, q) ∷ gs) = uses k q + level_uses k gs

abbrev pub sizes : Stl.Levels → ℕ
sizes [] = 0
sizes ((p, q) ∷ gs) = length q + sizes gs

-- The levels have the lists' prices, and their nodes the lists' orders.
abbrev pub Carries : Nodes → Levels → Stl.Levels → Type 0
Carries nodes [] [] = Unit {0}
Carries nodes [] (g ∷ gs) = ⊥
Carries nodes (l ∷ ls) [] = ⊥
Carries nodes ((p, level) ∷ ls) ((p', q) ∷ gs) =
    (p ≡ p')
    × (level.price ≡ p)
    × Chain nodes invalid_idx level.head_idx q level.tail_idx
    × Carries nodes ls gs

pub Spares-Carries :
    {P : ℕ → Type 0} {nodes nodes' : Nodes} (ls : Levels) (gs : Stl.Levels)
    → Spares P nodes nodes'
    → ((j : ℕ) → 1 ≤ level_uses j gs → P j)
    → Carries nodes ls gs
    → Carries nodes' ls gs
Spares-Carries [] [] s inside c = tt
Spares-Carries [] (g ∷ gs) s inside c = absurd c
Spares-Carries (l ∷ ls) [] s inside c = absurd c
Spares-Carries ((p, level) ∷ ls) ((p', q) ∷ gs) s inside c = (
  c.0,
  c.1,
  Spares-Chain invalid_idx level.head_idx q level.tail_idx s (λ j u. inside j (omega arith)) c.2,
  Spares-Carries ls gs s (λ j u. inside j (omega arith)) c.3,
)

pub Carries-bound :
    (nodes : Nodes) (ls : Levels) (gs : Stl.Levels) (a : ℕ)
    → Carries nodes ls gs
    → 1 ≤ level_uses a gs
    → a < length nodes
Carries-bound nodes [] [] a c u = absurd (omega arith)
Carries-bound nodes [] (g ∷ gs) a c u = absurd c
Carries-bound nodes (l ∷ ls) [] a c u = absurd c
Carries-bound nodes ((p, level) ∷ ls) ((p', q) ∷ gs) a c u = ground (
  arith,
  u,
  Chain-bound nodes invalid_idx level.head_idx q level.tail_idx a c.2,
  Carries-bound nodes ls gs a c.3,
)

-- The nodes of two maps and of the free list.
pub record Kept (s : Store) (ls ms : Levels) (gs hs : Stl.Levels) (ix : Index) (free : List ℕ)
    : Type 0 where
  pub own : Carries s.nodes ls gs
  pub other : Carries s.nodes ms hs
  pub freed : Free s.nodes s.free_head free
  pub apart : (k : ℕ) → level_uses k gs + (level_uses k hs + occurs k free) ≤ 1
  pub counted : sizes gs + (sizes hs + length free) ≡ length s.nodes
  pub small : length s.nodes ≤ invalid_idx
  pub index : s.order_index ≡ indexes ix

pub Kept-swap :
    {s : Store} {ls ms : Levels} {gs hs : Stl.Levels} {ix : Index} {free : List ℕ}
    → Kept s ls ms gs hs ix free
    → Kept s ms ls hs gs ix free
Kept-swap k = record {
  own = k.other;
  other = k.own;
  freed = k.freed;
  apart = λ j. omega (arith, k.apart j);
  counted = omega (arith, k.counted);
  small = k.small;
  index = k.index;
}

-- Any fuel for as many rounds as there are orders gives the same.
pub match_queue-enough :
    (taker : Side) (fuel fuel' : ℕ) (q : List Node) (incoming : Order) (index : Index)
    (out : List Trade)
    → length q ≤ fuel
    → length q ≤ fuel'
    → match_queue taker fuel q incoming index out ≡ match_queue taker fuel' q incoming index out
unfolding match_queue
match_queue-enough taker zero zero q incoming index out h h' = refl
match_queue-enough taker zero (suc fuel') [] incoming index out h h' = refl
match_queue-enough taker (suc fuel) zero [] incoming index out h h' = refl
match_queue-enough taker (suc fuel) (suc fuel') [] incoming index out h h' = refl
match_queue-enough taker zero (suc fuel') (n ∷ q) incoming index out h h' = absurd (omega arith)
match_queue-enough taker (suc fuel) zero (n ∷ q) incoming index out h h' = absurd (omega arith)
match_queue-enough taker (suc fuel) (suc fuel') (n ∷ q) incoming index out h h' =
    let maker = reduce (match_qty n.order incoming) n.order in
    let incoming' = reduce (match_qty n.order incoming) incoming in
    let out' = out ++ make_trade taker n.order incoming ∷ [] in
    let index' = Dict.erase maker.order_id index in
    ground (
      arith,
      match_queue-enough taker fuel fuel' q incoming' index' out' (omega arith) (omega arith),
      match_queue-stop taker fuel (record n { order = maker } ∷ q) incoming' index out',
      match_queue-stop taker fuel' (record n { order = maker } ∷ q) incoming' index out',
    )

-- Matching adds no order.
pub length-match_queue :
    (taker : Side) (fuel : ℕ) (q : List Node) (incoming : Order) (index : Index) (out : List Trade)
    → length (match_queue taker fuel q incoming index out).queue ≤ length q
unfolding match_queue
length-match_queue taker zero q incoming index out = omega arith
length-match_queue taker (suc fuel) [] incoming index out = omega arith
length-match_queue taker (suc fuel) (n ∷ q) incoming index out =
    let maker = reduce (match_qty n.order incoming) n.order in
    let incoming' = reduce (match_qty n.order incoming) incoming in
    let out' = out ++ make_trade taker n.order incoming ∷ [] in
    ground (
      arith,
      length-match_queue taker fuel q incoming' (Dict.erase maker.order_id index) out',
      length-match_queue taker fuel (record n { order = maker } ∷ q) incoming' index out',
    )

pub sizes-match_levels :
    (taker : Side) (fuel : ℕ) (ls : Stl.Levels) (incoming : Order) (index : Index)
    (out : List Trade)
    → sizes (Stl.match_levels taker fuel ls incoming index out).levels ≤ sizes ls
unfolding Stl.match_levels
sizes-match_levels taker zero ls incoming index out = omega arith
sizes-match_levels taker (suc fuel) [] incoming index out = omega arith
sizes-match_levels taker (suc fuel) ((p, q) ∷ ls) incoming index out =
    let f = match_queue taker (length q + 2) q incoming index out in
    ground (
      arith,
      length-match_queue taker (length q + 2) q incoming index out,
      sizes-match_levels taker fuel ls f.incoming f.index f.trades,
      sizes-match_levels taker fuel ((p, f.queue) ∷ ls) f.incoming f.index f.trades,
    )
