-- ===== src/Spec/Fill.antt =====
-- One level of the abstract book: what `fill` leaves.
use lloms.Base.{◌≡◌, false, List, [], ◌∷◌, arith, is_nil}
use lloms.Types.{Side, Order}
use lloms.Matching.{match_qty, reduce}
use lloms.Spec.{fill}

-- Orders are left at the level only if the taker is filled.
pub fill-exhausts :
    (taker : Side) (q : List Order) (incoming : Order)
    → is_nil (fill taker q incoming).queue ≡ false
    → (fill taker q incoming).incoming.remaining_quantity ≡ 0
unfolding fill
fill-exhausts taker [] incoming h = ground arith
fill-exhausts taker (m ∷ q) incoming h =
    ground (arith, fill-exhausts taker q (reduce (match_qty m incoming) incoming))
