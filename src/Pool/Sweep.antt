-- ===== src/Pool/Sweep.antt =====
-- The outer loop of match_buy and match_sell of src/pool_order_book.cpp against that of
-- src/stl_order_book.cpp.
use lloms.Base.{
  ℕ, zero, suc, ◌+◌, ◌≡◌, refl, ap, ◌∙◌, inl, inr, true, List, [], ◌∷◌, arith, length, ◌==◌,
  Bool-cases, is_nil,
}
use lloms.Types.{Side, Order, Trade}
use lloms.Matching.{is_blocked}
use lloms.Pool.{PriceLevel, Levels, Store, is_empty}
use lloms.Pool.Match.{Filling, Matched, match_level, match_levels}
use lloms.Pool.Attach.{head-is_nil}
use lloms.Pool.Meet.{Meets, IsReady, match_level-Meets}
use lloms.Pool.Carry.{Kept, Spares-Carries, match_queue-enough}
use lloms.Stl
use lloms.Stl.{Node, Index, match_queue}

-- The two matchings agree.
pub record Sweeps (ms : Levels) (hs : Stl.Levels) (r : Matched) (g : Stl.Matched) : Type 0 where
  pub left : List ℕ
  pub kept : Kept r.store r.levels ms g.levels hs g.index left
  pub incoming : r.incoming ≡ g.incoming
  pub trades : r.trades ≡ g.trades

Sweeps-done :
    (ls ms : Levels) (s : Store) (gs hs : Stl.Levels) (free : List ℕ) (incoming : Order)
    (index : Index) (out : List Trade)
    → Kept s ls ms gs hs index free
    → Sweeps ms hs
        (record { levels = ls; incoming = incoming; store = s; trades = out })
        (record { levels = gs; incoming = incoming; index = index; trades = out })
Sweeps-done ls ms s gs hs free incoming index out k = record {
  left = free;
  kept = k;
  incoming = refl;
  trades = refl;
}

-- One level, and the nodes of the others.
module _ (p p' : ℕ) (level : PriceLevel) (ls ms : Levels) (s : Store) (q : List Node)
    (gs hs : Stl.Levels) (free : List ℕ) (index : Index)
    (k : Kept s ((p, level) ∷ ls) ms ((p', q) ∷ gs) hs index free) where
  head_IsReady : IsReady level s q free index
  head_IsReady = record {
    chain = k.own.2;
    freed = k.freed;
    apart = λ j. omega (arith, k.apart j);
    small = k.small;
    index = k.index;
  }

  module _ (r : Filling) (g : Stl.Filling) (m : Meets s q free level.price r g) where
    head_Kept : Kept r.store ((p, r.level) ∷ ls) ms ((p', g.queue) ∷ gs) hs g.index m.left
    head_Kept = record {
      own = (
        k.own.0,
        m.of_price ∙ k.own.1,
        m.chain,
        Spares-Carries ls gs m.spares (λ j u. omega (arith, k.apart j, u)) k.own.3,
      );
      other = Spares-Carries ms hs m.spares (λ j u. omega (arith, k.apart j, u)) k.other;
      freed = m.freed;
      apart = λ j. omega (arith, k.apart j, m.conserved j);
      counted = omega (arith, k.counted, m.counted, m.spares.size);
      small = rw m.spares.size k.small;
      index = m.index;
    }

    -- A level left without orders is erased.
    gone_Kept : is_nil g.queue ≡ true → Kept r.store ls ms gs hs g.index m.left
    gone_Kept e =
        let h = head_Kept in
        let none_left : g.queue ≡ [] = ground (arith, e) in
        record {
          own = h.own.3;
          other = h.other;
          freed = h.freed;
          apart = λ j. omega (arith, h.apart j);
          counted = omega (arith, h.counted, ap length none_left);
          small = h.small;
          index = h.index;
        }

    emptied : is_empty r.level ≡ is_nil g.queue
    emptied =
        head-is_nil r.store.nodes r.level.head_idx g.queue r.level.tail_idx m.chain
          (rw m.spares.size k.small)

pub match_levels-Sweeps :
    (taker : Side) (fuel : ℕ) (ls ms : Levels) (s : Store) (gs hs : Stl.Levels) (free : List ℕ)
    (incoming : Order) (index : Index) (out : List Trade)
    → Kept s ls ms gs hs index free
    → Sweeps ms hs
        (match_levels taker fuel ls incoming s out)
        (Stl.match_levels taker fuel gs incoming index out)
unfolding match_levels Stl.match_levels
match_levels-Sweeps taker zero ls ms s gs hs free incoming index out k =
    Sweeps-done ls ms s gs hs free incoming index out k
match_levels-Sweeps taker (suc fuel) [] ms s [] hs free incoming index out k =
    Sweeps-done [] ms s [] hs free incoming index out k
match_levels-Sweeps taker (suc fuel) [] ms s (g ∷ gs) hs free incoming index out k = absurd k.own
match_levels-Sweeps taker (suc fuel) (l ∷ ls) ms s [] hs free incoming index out k = absurd k.own
match_levels-Sweeps taker (suc fuel) ((p, level) ∷ ls) ms s ((p', q) ∷ gs) hs free incoming index
      out k =
    let start : Filling = record { level = level; incoming = incoming; store = s; trades = out } in
    let f = match_level taker (length s.nodes + 2) start in
    let g = match_queue taker (length q + 2) q incoming index out in
    let m : Meets s q free level.price f g =
      rw
        (← match_queue-enough taker (length s.nodes + 2) (length q + 2) q incoming index out
          (omega (arith, k.counted)) (omega arith))
        (match_level-Meets taker (length s.nodes + 2) level q s free incoming index out
          (head_IsReady p p' level ls ms s q gs hs free index k)) in
    let done = Sweeps-done ((p, level) ∷ ls) ms s ((p', q) ∷ gs) hs free incoming index out k in
    let blocked : is_blocked taker incoming level.price ≡ is_blocked taker incoming p' =
      ap (is_blocked taker incoming) (k.own.1 ∙ k.own.0) in
    let kept = head_Kept p p' level ls ms s q gs hs free index k f g m in
    let empty = emptied p p' level ls ms s q gs hs free index k f g m in
    elim (Bool-cases (incoming.remaining_quantity == 0)) [
      | inl e ↦ rw e done
      | inr more ↦ elim (Bool-cases (is_blocked taker incoming p')) [
        | inl e ↦ rw (more, blocked ∙ e, e) done
        | inr free_way ↦ elim (Bool-cases (is_nil g.queue)) [
          | inl e ↦
              rw (more, blocked ∙ free_way, free_way, empty, e, m.incoming, m.trades)
                (match_levels-Sweeps taker fuel ls ms f.store gs hs m.left g.incoming g.index
                  g.trades (gone_Kept p p' level ls ms s q gs hs free index k f g m e))
          | inr e ↦
              rw (more, blocked ∙ free_way, free_way, empty, e, m.incoming, m.trades)
                (match_levels-Sweeps taker fuel ((p, f.level) ∷ ls) ms f.store ((p', g.queue) ∷ gs)
                  hs m.left g.incoming g.index g.trades kept)
        ]
      ]
    ]
