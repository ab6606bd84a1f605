-- ===== src/Pool/Rest.antt =====
-- The end of submit_order of src/pool_order_book.cpp: the new node goes behind the last of its level.
use lloms.Base.{
  ℕ, suc, ◌+◌, ◌≤◌, ◌<◌, ◌≡◌, ◌≢◌, refl, ap, ◌∙◌, inl, inr, true, false, none, List, [], ◌∷◌, ◌++◌,
  arith, length, Bool-cases, ◌==◌, is_nil, if◌then◌else◌, length-append,
}
use lloms.Base.Dict
use lloms.Base.SortedMap
use lloms.Types.{Side, buy, sell, Order}
use lloms.Matching.{before}
use lloms.Spec.Valid.{Behind, IsSide}
use lloms.Pool.{PriceLevel, Nodes, Levels, invalid_idx, node, new_level, append_to_level}
use lloms.Pool.Orders.{rest_in}
use lloms.Pool.Links.{uses, Chain, Spares, Spares-Chain, Spares-mono}
use lloms.Pool.Attach.{
  Attached, last_in, tail-is_nil, Attached-Chain, Attached-Spares, append_to_level-Attached,
}
use lloms.Pool.Carry.{Carries, level_uses, sizes, Spares-Carries}
use lloms.Pool.Round.{indexes}
use lloms.Stl
use lloms.Stl.{Node, Index}
use lloms.Stl.Loops.{view_levels}
use lloms.Stl.Rest.{add_node}

pub insert-indexes :
    (k : ℕ) (loc : Stl.Location) (ix : Index)
    → Dict.insert k loc.list_it (indexes ix) ≡ indexes (Dict.insert k loc ix)
unfolding Dict.insert
insert-indexes k loc [] = refl
insert-indexes k loc ((id, loc') ∷ ix) = ground (arith, insert-indexes k loc ix)

uses-append : (k : ℕ) (q r : List Node) → uses k (q ++ r) ≡ uses k q + uses k r
uses-append k [] r = omega arith
uses-append k (n ∷ q) r = omega (arith, uses-append k q r)

module _ (side : Side) (n : Node) where
  pub level_uses-add_node :
      (k : ℕ) (gs : Stl.Levels)
      → level_uses k (add_node side n gs) ≡ (if n.addr == k then 1 else 0) + level_uses k gs
  unfolding SortedMap.update
  level_uses-add_node k [] = omega arith
  level_uses-add_node k ((p, q) ∷ gs) =
      ground (arith, uses-append k q (n ∷ []), level_uses-add_node k gs)

  pub sizes-add_node : (gs : Stl.Levels) → sizes (add_node side n gs) ≡ suc (sizes gs)
  unfolding SortedMap.update
  sizes-add_node [] = omega arith
  sizes-add_node ((p, q) ∷ gs) = ground (arith, length-append q (n ∷ []), sizes-add_node gs)

-- A price before the best is no level's.
find-Behind :
    (side : Side) (price p : ℕ) (nodes : Nodes) (ls : Levels) (gs : Stl.Levels)
    → before side price p ≡ true
    → Carries nodes ls gs
    → Behind side p (view_levels gs)
    → SortedMap.find price ls ≡ none
unfolding SortedMap.find
find-Behind side price p nodes [] gs first c b = refl
find-Behind side price p nodes (l ∷ ls) [] first c b = absurd c
find-Behind buy price p nodes ((p1, level) ∷ ls) ((p2, q) ∷ gs) first c b =
    ground (arith, first, c.0, b.0, find-Behind buy price p nodes ls gs first c.3 b.1)
find-Behind sell price p nodes ((p1, level) ∷ ls) ((p2, q) ∷ gs) first c b =
    ground (arith, first, c.0, b.0, find-Behind sell price p nodes ls gs first c.3 b.1)

head-append_to_level :
    (level : PriceLevel) (idx : ℕ) (nodes : Nodes)
    → (append_to_level level idx nodes).level.head_idx
      ≡ (if level.tail_idx == invalid_idx then idx else level.head_idx)
unfolding append_to_level
head-append_to_level level idx nodes = refl

tail-append_to_level :
    (level : PriceLevel) (idx : ℕ) (nodes : Nodes)
    → (append_to_level level idx nodes).level.tail_idx ≡ idx
unfolding append_to_level
tail-append_to_level level idx nodes = refl

price-append_to_level :
    (level : PriceLevel) (idx : ℕ) (nodes : Nodes)
    → (append_to_level level idx nodes).level.price ≡ level.price
unfolding append_to_level
price-append_to_level level idx nodes = refl

module _ (o : Order) (idx : ℕ) (nodes : Nodes) (small : length nodes ≤ invalid_idx)
    (bound : idx < length nodes) (held : (node nodes idx).order ≡ o) where
  -- One level.
  module _ (level : PriceLevel) (q : List Node)
      (c : Chain nodes invalid_idx level.head_idx q level.tail_idx) where
    last_apart : (j : ℕ) → j < length nodes → uses j q ≡ 0 → level.tail_idx ≢ j
    last_apart j h out e = elim (Bool-cases (is_nil q)) [
      | inl empty ↦
          let test = tail-is_nil nodes level.head_idx q level.tail_idx c small ∙ empty in
          absurd (ground (arith, test, e, h, small))
      | inr more ↦ absurd (
          omega (
            arith,
            ap (λ x. uses x q) e,
            last_in nodes invalid_idx level.head_idx q level.tail_idx c more,
            out,
          ))
    ]

    module _ (out : uses idx q ≡ 0) where
      linked : Attached idx level.tail_idx nodes (append_to_level level idx nodes).nodes
      linked = append_to_level-Attached level idx nodes small bound (last_apart idx bound out)

      append_to_level-Chain :
          ((k : ℕ) → uses k q ≤ 1)
          → let r = append_to_level level idx nodes in
            Chain r.nodes invalid_idx r.level.head_idx
              (q ++ record { addr = idx; order = o } ∷ [])
              r.level.tail_idx
      append_to_level-Chain once =
          rw
            (
              head-append_to_level level idx nodes,
              tail-append_to_level level idx nodes,
              tail-is_nil nodes level.head_idx q level.tail_idx c small,
            )
            (Attached-Chain nodes (append_to_level level idx nodes).nodes idx level.tail_idx linked
              o invalid_idx level.head_idx q c bound held (last_apart idx bound out) out once)

      append_to_level-Spares :
          Spares (λ j. (uses j q ≡ 0) × (idx ≢ j)) nodes (append_to_level level idx nodes).nodes
      append_to_level-Spares =
          let s =
            Attached-Spares nodes (append_to_level level idx nodes).nodes idx level.tail_idx
              linked in
          record { size = s.size; same = λ j h k. s.same j h (k.1, last_apart j h k.0) }

-- The levels with the node, and the nodes of the others.
pub record Rests (idx : ℕ) (nodes : Nodes) (gs grown : Stl.Levels) (r : Nodes × Levels)
    : Type 0 where
  pub carried : Carries r.0 r.1 grown
  pub spares : Spares (λ j. (level_uses j gs ≡ 0) × (idx ≢ j)) nodes r.0

module _ (side : Side) (o : Order) (idx : ℕ) (nodes : Nodes) (small : length nodes ≤ invalid_idx)
    (bound : idx < length nodes) (held : (node nodes idx).order ≡ o) where
  abbrev new_node : Node
  new_node = record { addr = idx; order = o }

  -- A level of its own.
  fresh_Rests :
      (ls : Levels) (gs : Stl.Levels)
      → Carries nodes ls gs
      → ((k : ℕ) → level_uses k gs + (if idx == k then 1 else 0) ≤ 1)
      → let r = append_to_level (record new_level { price = o.price }) idx nodes in
        Rests idx nodes gs ((o.price, new_node ∷ []) ∷ gs) (r.nodes, (o.price, r.level) ∷ ls)
  fresh_Rests ls gs c apart =
      let level = record new_level { price = o.price } in
      let s = append_to_level-Spares o idx nodes small bound held level [] (refl, refl) refl in
      record {
        carried = (
          refl,
          price-append_to_level level idx nodes,
          append_to_level-Chain o idx nodes small bound held level [] (refl, refl) refl
              (λ k. omega arith),
          Spares-Carries ls gs s (λ j u. (refl, λ e. absurd (ground (arith, apart j, e, u)))) c,
        );
        spares = Spares-mono (λ j k. (refl, k.1)) s;
      }

  pub rest_in-Rests :
      (ls : Levels) (gs : Stl.Levels)
      → Carries nodes ls gs
      → ((k : ℕ) → level_uses k gs + (if idx == k then 1 else 0) ≤ 1)
      → IsSide side (view_levels gs)
      → Rests idx nodes gs (add_node side new_node gs) (rest_in side o idx nodes ls)
  unfolding rest_in SortedMap.find SortedMap.update
  rest_in-Rests [] [] c apart v = fresh_Rests [] [] c apart
  rest_in-Rests [] (g ∷ gs) c apart v = absurd c
  rest_in-Rests (l ∷ ls) [] c apart v = absurd c
  rest_in-Rests ((p, level) ∷ ls) ((p', q) ∷ gs) c apart v = elim (Bool-cases (p' == o.price)) [
    | inl same ↦
        let test : (p == o.price) ≡ true = ap (λ x. x == o.price) c.0 ∙ same in
        let level' = record level { price = o.price } in
        let self : (idx == idx) ≡ true = ground arith in
        let out : uses idx q ≡ 0 = ground (arith, apart idx, self) in
        let s = append_to_level-Spares o idx nodes small bound held level' q c.2 out in
        rw (same, test)
          (record {
            carried = (
              c.0,
              price-append_to_level level' idx nodes ∙ ground (arith, test),
              append_to_level-Chain o idx nodes small bound held level' q c.2 out
                  (λ k. omega (arith, apart k)),
              Spares-Carries ls gs s
                  (λ j u. (omega (arith, apart j, u), λ e. absurd (ground (arith, apart j, e, u))))
                  c.3,
            );
            spares = Spares-mono (λ j k. (omega (arith, k.0), k.1)) s;
          })
    | inr other ↦
        let test : (p == o.price) ≡ false = ap (λ x. x == o.price) c.0 ∙ other in
        let rank : before side o.price p ≡ before side o.price p' = ap (before side o.price) c.0 in
        elim (Bool-cases (before side o.price p')) [
          | inl first ↦
              let absent : SortedMap.find o.price ls ≡ none =
                find-Behind side o.price p' nodes ls gs first c.3 v.1 in
              rw (other, test, rank ∙ first, first, absent)
                (fresh_Rests ((p, level) ∷ ls) ((p', q) ∷ gs) c apart)
          | inr later ↦
              let r = rest_in-Rests ls gs c.3 (λ k. omega (arith, apart k)) v.2 in
              rw (other, test, rank ∙ later, later)
                (record {
                  carried = (
                    c.0,
                    c.1,
                    Spares-Chain invalid_idx level.head_idx q level.tail_idx r.spares
                        (λ j u.
                          (omega (arith, apart j, u), λ e. absurd (ground (arith, apart j, e, u))))
                        c.2,
                    r.carried,
                  );
                  spares = Spares-mono (λ j k. (omega (arith, k.0), k.1)) r.spares;
                })
        ]
  ]
