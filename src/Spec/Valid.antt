-- ===== src/Spec/Valid.antt =====
-- The invariant of an order book: on each side the levels stand best first, none is empty, each order
-- stands at its own price and side with something left of it, and every bid is below every ask.
use lloms.Base.{ℕ, ◌<◌, ◌≡◌, refl, true, false, List, [], ◌∷◌, arith, All, is_nil}
use lloms.Types.{Side, buy, sell, Order, is_limit}
use lloms.Matching.{before, match_qty, reduce}
use lloms.Spec.{Levels, Book, fill, sweep}

abbrev pub IsResting : Side → ℕ → Order → Type 0
IsResting side p o =
    (o.price ≡ p) × (o.side ≡ side) × (0 < o.remaining_quantity) × (is_limit o.type ≡ true)

pub record IsLevel (side : Side) (p : ℕ) (q : List Order) : Type 0 where
  pub filled : is_nil q ≡ false
  pub orders : All (IsResting side p) q

abbrev pub Behind : Side → ℕ → Levels → Type 0
Behind side p = All (λ l. before side p l.0 ≡ true)

abbrev pub IsSide : Side → Levels → Type 0
IsSide side [] = Unit {0}
IsSide side ((p, q) ∷ ls) = IsLevel side p q × Behind side p ls × IsSide side ls

abbrev pub Uncrossed : Levels → Levels → Type 0
Uncrossed bids asks = All (λ bid. All (λ ask. bid.0 < ask.0) asks) bids

pub record IsValid (b : Book) : Type 0 where
  pub bids : IsSide buy b.bids
  pub asks : IsSide sell b.asks
  pub uncrossed : Uncrossed b.bids b.asks

-- Matching changes nothing of the taker but its remaining quantity.
abbrev pub SameButRest : Order → Order → Type 0
SameButRest o o' = o' ≡ record o { remaining_quantity = o'.remaining_quantity }

pub fill-SameButRest :
    (taker : Side) (q : List Order) (incoming : Order)
    → SameButRest incoming (fill taker q incoming).incoming
unfolding fill
fill-SameButRest taker [] incoming = refl
fill-SameButRest taker (m ∷ q) incoming =
    ground (arith, fill-SameButRest taker q (reduce (match_qty m incoming) incoming))

pub sweep-SameButRest :
    (taker : Side) (ls : Levels) (incoming : Order)
    → SameButRest incoming (sweep taker ls incoming).incoming
unfolding sweep
sweep-SameButRest taker [] incoming = refl
sweep-SameButRest taker ((p, q) ∷ ls) incoming = ground (
  arith,
  fill-SameButRest taker q incoming,
  sweep-SameButRest taker ls (fill taker q incoming).incoming,
)

fill-resting :
    (taker side : Side) (p : ℕ) (q : List Order) (incoming : Order)
    → All (IsResting side p) q
    → All (IsResting side p) (fill taker q incoming).queue
unfolding fill
fill-resting taker side p [] incoming h = tt
fill-resting taker side p (m ∷ q) incoming h =
    ground (arith, fill-resting taker side p q (reduce (match_qty m incoming) incoming) h.1)

-- The levels that are left are levels of before.
pub sweep-All {ℓ} :
    (P : ℕ → Type ℓ) (taker : Side) (ls : Levels) (incoming : Order)
    → All (λ l. P l.0) ls
    → All (λ l. P l.0) (sweep taker ls incoming).levels
unfolding sweep
sweep-All P taker [] incoming h = tt
sweep-All P taker ((p, q) ∷ ls) incoming h =
    ground (arith, h, sweep-All P taker ls (fill taker q incoming).incoming h.1)

pub sweep-IsSide :
    (taker side : Side) (ls : Levels) (incoming : Order)
    → IsSide side ls
    → IsSide side (sweep taker ls incoming).levels
unfolding sweep
sweep-IsSide taker side [] incoming h = tt
sweep-IsSide taker side ((p, q) ∷ ls) incoming h = ground (
  arith,
  h,
  fill-resting taker side p q incoming h.0.orders,
  sweep-IsSide taker side ls (fill taker q incoming).incoming h.2,
)
