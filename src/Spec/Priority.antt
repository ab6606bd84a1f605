-- ===== src/Spec/Priority.antt =====
-- Which orders a taker meets, in what order and for how much: `consume` over the reachable orders, best
-- price first and oldest first within a price.
use lloms.Base.{
  leb, not, ◌||◌, ℕ, ◌+◌, ◌-◌, ◌≤◌, ◌≡◌, refl, sym, ap, inl, inr, Bool, true, some, List, [], ◌∷◌,
  ◌++◌, map, arith, min, if◌then◌else◌, ◌==◌, append-nil, map-append, Option-cases,
}
use lloms.Types.{buy, sell, is_limit, Side, Order, Trade}
use lloms.Matching.{misses, opposite, is_blocked, match_qty, reduce, make_trade, admit}
use lloms.Spec.{Levels, Book, levels, fill, sweep, submit, has_order}
use lloms.Spec.Fill.{fill-exhausts}
use lloms.Spec.Valid.{fill-SameButRest, SameButRest}

-- A trade's maker, price and quantity.
pub record Allotment : Type 0 where
  pub maker_order_id : ℕ
  pub price : ℕ
  pub quantity : ℕ

abbrev pub allotment : Trade → Allotment
allotment t = record { maker_order_id = t.maker_order_id; price = t.price; quantity = t.quantity }

-- `n` units are taken from the orders in turn, from each as much as it has.
unfoldable pub consume : ℕ → List Order → List Allotment
consume n [] = []
consume n (o ∷ q) =
    if n == 0
    then []
    else record {
      maker_order_id = o.order_id;
      price = o.price;
      quantity = min n o.remaining_quantity;
    }
      ∷ consume (n - o.remaining_quantity) q

abbrev pub total : List Order → ℕ
total [] = 0
total (o ∷ q) = o.remaining_quantity + total q

-- A limit order buys for at most its price and sells for at least its price; a market order takes any.
abbrev within : Side → ℕ → ℕ → Bool
within buy price p = leb p price
within sell price p = leb price p

abbrev crosses : Side → Order → ℕ → Bool
crosses taker o p = not (is_limit o.type) || within taker o.price p

blocked_within : (taker : Side) (price p : ℕ) → misses taker price p ≡ not (within taker price p)
blocked_within buy price p = ground arith
blocked_within sell price p = ground arith

is_blocked-crosses :
    (taker : Side) (o : Order) (p : ℕ) → is_blocked taker o p ≡ not (crosses taker o p)
unfolding is_blocked
is_blocked-crosses taker o p = ground (arith, blocked_within taker o.price p)

-- The orders at the prices that the taker accepts, in the order of the book.
unfoldable pub reachable : Side → Order → Levels → List Order
reachable taker o [] = []
reachable taker o ((p, q) ∷ ls) = if crosses taker o p then q ++ reachable taker o ls else []

consume-nil : (n : ℕ) → consume n [] ≡ []
unfolding consume
consume-nil n = refl

consume-zero : (q : List Order) → consume 0 q ≡ []
unfolding consume
consume-zero [] = refl
consume-zero (o ∷ q) = refl

-- Nothing is wanted any more.
consume-done : (n k : ℕ) (q : List Order) → n ≤ k → consume (n - k) q ≡ []
consume-done n k q h = let e : n - k ≡ 0 = omega arith in rw e (consume-zero q)

total-append : (q r : List Order) → total (q ++ r) ≡ total q + total r
total-append [] r = omega arith
total-append (o ∷ q) r = omega (arith, total-append q r)

consume-append :
    (n : ℕ) (q r : List Order) → consume n (q ++ r) ≡ consume n q ++ consume (n - total q) r
unfolding consume
consume-append n [] r = ap (λ k. consume k r) (omega arith)
consume-append n (o ∷ q) r = ground (
  arith,
  consume-append (n - o.remaining_quantity) q r,
  consume-zero r,
  ap (λ k. consume k r) {x = n - o.remaining_quantity - total q}
      {y = n - (o.remaining_quantity + total q)} (omega arith),
)

fill-consume :
    (taker : Side) (q : List Order) (incoming : Order)
    → let f = fill taker q incoming in
      (map allotment f.trades ≡ consume incoming.remaining_quantity q)
      × (f.incoming.remaining_quantity ≡ incoming.remaining_quantity - total q)
unfolding fill consume make_trade
fill-consume taker [] incoming = (refl, omega arith)
fill-consume taker (m ∷ q) incoming =
    let n = incoming.remaining_quantity in
    let incoming' = reduce (match_qty m incoming) incoming in
    let left : incoming'.remaining_quantity ≡ n - m.remaining_quantity = omega arith in
    ground (
      arith,
      fill-consume taker q incoming',
      consume-done n m.remaining_quantity q,
      ap (λ k. consume k q) left,
    )

-- The taker's price and type decide what it reaches, not its quantity.
reachable-same :
    (taker : Side) (o o' : Order) (ls : Levels)
    → SameButRest o o'
    → reachable taker o' ls ≡ reachable taker o ls
unfolding reachable
reachable-same taker o o' [] e = refl
reachable-same taker o o' ((p, q) ∷ ls) e = ground (arith, e, reachable-same taker o o' ls e)

sweep-consume :
    (taker : Side) (ls : Levels) (incoming : Order)
    → let s = sweep taker ls incoming in
      (map allotment s.trades ≡ consume incoming.remaining_quantity (reachable taker incoming ls))
      × (s.incoming.remaining_quantity
          ≡ incoming.remaining_quantity - total (reachable taker incoming ls))
unfolding sweep reachable
sweep-consume taker [] incoming = (sym (consume-nil incoming.remaining_quantity), omega arith)
sweep-consume taker ((p, q) ∷ ls) incoming =
    let n = incoming.remaining_quantity in
    let f = fill taker q incoming in
    let r = reachable taker incoming ls in
    let c = fill-consume taker q incoming in
    ground (
      arith,
      c,
      is_blocked-crosses taker incoming p,
      consume-append n q r,
      consume-nil n,
      append-nil (consume n q),
      consume-zero (q ++ r),
      consume-done n (total q) r,
      total-append q r,
      fill-exhausts taker q incoming,
      map-append allotment f.trades (sweep taker ls f.incoming).trades,
      reachable-same taker incoming f.incoming ls (fill-SameButRest taker q incoming),
      sweep-consume taker ls f.incoming,
      ap (λ k. consume k r) c.1,
    )

-- The quantity that an order brings: submit_order fills it in where nothing remains.
abbrev pub entering : Order → ℕ
entering o = if o.remaining_quantity == 0 then o.initial_quantity else o.remaining_quantity

pub admit-entering :
    (known : Bool) (o o' : Order)
    → admit known o ≡ some o'
    → SameButRest o o' × (o'.remaining_quantity ≡ entering o)
unfolding admit
admit-entering known o o' e = ground (arith, e)

-- An accepted order trades with the orders that it reaches, and with each for what `consume` says.
pub submit-consume :
    (b : Book) (o : Order)
    → (submit b o).accepted ≡ true
    → map allotment (submit b o).trades
      ≡ consume (entering o) (reachable o.side o (levels (opposite o.side) b))
unfolding submit
submit-consume b o h = elim (Option-cases (admit (has_order o.order_id b) o)) [
  | inl e ↦ ground (arith, e, h)
  | inr (o', e) ↦
      let ls = levels (opposite o.side) b in
      let enters = admit-entering (has_order o.order_id b) o o' e in
      rw (e, submit, ← enters.1, ← reachable-same o.side o o' ls enters.0) (traded o' ls)
]
  where
    traded :
        (o' : Order) (ls : Levels)
        → map allotment (sweep o.side ls o').trades
          ≡ consume o'.remaining_quantity (reachable o.side o' ls)
    traded o' ls = (sweep-consume o.side ls o').0
