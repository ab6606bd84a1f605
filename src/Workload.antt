-- ===== src/Workload.antt =====
-- include/workload.hpp: the random orders and cancellations for tests and benchmarks. The generator of
-- random numbers and its distributions, with the state that they share, are a parameter.
pub mod Plan
pub mod Stats
pub mod Accepted
use lloms.Base.{
  ◌^◌, ℕ, zero, suc, ◌+◌, ◌-◌, ◌*◌, ◌/◌, ◌%◌, Bool, ◌||◌, List, [], ◌∷◌, ◌++◌, ltb, leb, ◌==◌,
  if◌then◌else◌, is_nil, get_or, set, length,
}
use lloms.Base.Int.{ℤ, pos, negsuc}
use lloms.Types.{u64_mod, Side, buy, sell, OrderType, limit, market, Order}

pub data OrderAction : Type 0 where
  new_order : Order → OrderAction
  cancel_order : ℕ → OrderAction

pub data WorkloadType : Type 0 where
  balanced insert_heavy cancel_heavy : WorkloadType

-- What is drawn, from a state of the generator: a percentage, an offset of the price, rounded, a
-- quantity, a side, and one of `n` indices.
pub record Draws (S : Type 0) : Type 0 where
  pub pct_dist : S → ℕ × S
  pub price_offset_dist : S → ℤ × S
  pub qty_dist : S → ℕ × S
  pub side_dist : S → ℕ × S
  pub idx_dist : ℕ → S → ℕ × S

-- `static_cast<int64_t>(n)` of a 64-bit word.
unfoldable pub to_int64 : ℕ → ℤ
to_int64 n = if ltb n (2 ^ 63) then pos n else negsuc (u64_mod - 1 - n)

-- `static_cast<int64_t>(mid_price) + …`: the sum of the two words, which wraps.
unfoldable pub add_offset : ℕ → ℤ → ℤ
unfolding to_int64
add_offset mid_price (pos n) = to_int64 ((mid_price + n) % u64_mod)
add_offset mid_price (negsuc n) = to_int64 ((mid_price + (u64_mod - 1 - n % u64_mod)) % u64_mod)

abbrev pub min_price : ℕ
min_price = 100

-- `if (raw_price < 100) raw_price = 100`
unfoldable pub clamp_price : ℤ → ℕ
clamp_price (pos n) = if ltb n min_price then min_price else n
clamp_price (negsuc n) = min_price

-- `new_pct` and `cancel_pct`
unfoldable pub percentages : WorkloadType → ℕ × ℕ
percentages balanced = (50, 25)
percentages insert_heavy = (80, 10)
percentages cancel_heavy = (40, 50)

abbrev pub back : List ℕ → ℕ
back [] = 0
back (x ∷ []) = x
back (x ∷ y ∷ xs) = back (y ∷ xs)

abbrev pub pop_back : List ℕ → List ℕ
pop_back [] = []
pop_back (x ∷ []) = []
pop_back (x ∷ y ∷ xs) = x ∷ pop_back (y ∷ xs)

-- The removal of an id whose place in the vector does not matter.
unfoldable pub swap_and_pop : ℕ → List ℕ → List ℕ
swap_and_pop i ids = pop_back (set ids i (back ids))

abbrev pub side_of : ℕ → Side
side_of n = if n == 0 then buy else sell

unfoldable pub limit_order : ℕ → ℕ → ℕ → Side → ℕ → Order
limit_order oid price qty side i = record {
  order_id = oid;
  price = price;
  initial_quantity = qty;
  remaining_quantity = qty;
  timestamp = i * 100 % u64_mod;
  side = side;
  type = limit;
}

unfoldable pub market_order : ℕ → ℕ → Side → ℕ → Order
market_order oid qty side i = record {
  order_id = oid;
  price = 0;
  initial_quantity = qty;
  remaining_quantity = qty;
  timestamp = i * 100 % u64_mod;
  side = side;
  type = market;
}

-- `qty_dist(rng) / 2`, and 10 in the place of 0.
unfoldable pub market_quantity : ℕ → ℕ
market_quantity drawn = let qty = drawn / 2 in if qty == 0 then 10 else qty

-- The variables of the loop.
pub record Generator (S : Type 0) : Type 0 where
  pub rng : S
  pub active_order_ids : List ℕ
  pub next_id : ℕ

module _ {S : Type 0} (draws : Draws S) where
  open draws use {pct_dist, price_offset_dist, qty_dist, side_dist, idx_dist}

  unfoldable pub generate_limit : ℕ → ℕ → Generator S → OrderAction × Generator S
  unfolding limit_order add_offset clamp_price
  generate_limit mid_price i g =
      let (side, rng1) = side_dist g.rng in
      let (offset, rng2) = price_offset_dist rng1 in
      let (qty, rng3) = qty_dist rng2 in
      let price = clamp_price (add_offset mid_price offset) in
      (
        new_order (limit_order g.next_id price qty (side_of side) i),
        record {
          rng = rng3;
          active_order_ids = g.active_order_ids ++ g.next_id ∷ [];
          next_id = (g.next_id + 1) % u64_mod;
        },
      )

  unfoldable pub generate_cancel : Generator S → OrderAction × Generator S
  unfolding swap_and_pop
  generate_cancel g =
      let (rand_idx, rng1) = idx_dist (length g.active_order_ids) g.rng in
      (
        cancel_order (get_or g.active_order_ids rand_idx 0),
        record g { rng = rng1; active_order_ids = swap_and_pop rand_idx g.active_order_ids },
      )

  unfoldable pub generate_market : ℕ → Generator S → OrderAction × Generator S
  unfolding market_order market_quantity
  generate_market i g =
      let (side, rng1) = side_dist g.rng in
      let (drawn, rng2) = qty_dist rng1 in
      (
        new_order (market_order g.next_id (market_quantity drawn) (side_of side) i),
        record g { rng = rng2; next_id = (g.next_id + 1) % u64_mod },
      )

  -- The body of the loop.
  unfoldable pub generate_action : ℕ × ℕ → ℕ → ℕ → Generator S → OrderAction × Generator S
  unfolding generate_limit generate_cancel generate_market
  generate_action (new_pct, cancel_pct) mid_price i g =
      let (roll, rng1) = pct_dist g.rng in
      let g1 = record g { rng = rng1 } in
      if ltb roll new_pct || is_nil g.active_order_ids
      then generate_limit mid_price i g1
      else if ltb roll (new_pct + cancel_pct)
      then generate_cancel g1
      else generate_market i g1

  -- The loop, with the rounds that are left.
  unfoldable pub generate_loop : ℕ × ℕ → ℕ → ℕ → ℕ → Generator S → List OrderAction
  unfolding generate_action
  generate_loop pcts mid_price zero i g = []
  generate_loop pcts mid_price (suc n) i g =
      let (action, g1) = generate_action pcts mid_price i g in
      action ∷ generate_loop pcts mid_price n (i + 1) g1

  -- `rng` is seeded and the distributions are new.
  unfoldable pub generate : WorkloadType → ℕ → S → ℕ → List OrderAction
  unfolding generate_loop percentages
  generate type count rng mid_price =
      generate_loop (percentages type) mid_price count 0
        (record { rng = rng; active_order_ids = []; next_id = 1 })
