-- ===== src/Tests/Workloads.antt =====
-- include/workload.hpp on small numbers.
use lloms.Base.{ℕ, ◌+◌, ◌*◌, ◌/◌, ◌%◌, ◌≡◌, refl, List, [], ◌∷◌, map, arith, length}
use lloms.Base.Int.{negsuc}
use lloms.Types.{buy, sell}
use lloms.Pool.{init}
use lloms.Pool.Histories.{run}
use lloms.Workload.{
  new_order, cancel_order, balanced, Draws, to_int64, add_offset, clamp_price, swap_and_pop,
  limit_order, market_order, market_quantity, percentages, generate_limit, generate_cancel,
  generate_market, generate_action, generate_loop, generate,
}
use lloms.Workload.Plan.{Plan, InRange, generate-Plan}
use lloms.Workload.Accepted.{call, Accepted, generate-Accepted}
use lloms.Workload.Stats.{Double, rank, sort, insert, accumulate, calculate_stats}
use lloms.Workload.Stats.Ranks.{InVector, Nth, calculate_stats-Nth}

-- The state counts the rounds.
abbrev draws : Draws ℕ
draws = record {
  pct_dist = λ s. (s * 30 % 100, s + 1);
  price_offset_dist = λ s. (negsuc 20000, s);
  qty_dist = λ s. (21, s);
  side_dist = λ s. (s % 2, s);
  idx_dist = λ n s. (0, s);
}

draws-InRange : InRange draws
draws-InRange = record { quantities = λ s. omega arith; indices = λ n s h. h }

-- Two orders, a cancellation of the first, and an order at any price.
drawn :
    generate draws balanced 4 0 10000
    ≡ new_order (limit_order 1 100 21 sell 0)
      ∷ new_order (limit_order 2 100 21 buy 1)
      ∷ cancel_order 1
      ∷ new_order (market_order 3 10 buy 3)
      ∷ []
unfolding generate generate_loop generate_action generate_limit generate_cancel generate_market
    limit_order market_order market_quantity add_offset to_int64 clamp_price swap_and_pop
    percentages
drawn = refl

generate-Plan_example :
    Plan 1 0 [] (generate draws balanced 4 0 10000)
    × (length (generate draws balanced 4 0 10000) ≡ 4)
generate-Plan_example = generate-Plan draws balanced 4 0 10000 draws-InRange (omega arith)

generate-Accepted_example :
    Accepted
      (generate draws balanced 4 0 10000)
      (run (init 1) (map call (generate draws balanced 4 0 10000))).0
generate-Accepted_example =
    generate-Accepted draws balanced 4 0 10000 1 draws-InRange (omega arith) (omega arith)

-- Thousandths in the place of floating-point numbers.
abbrev thousandths : Double ℕ
thousandths = record {
  of_integer = λ n. n * 1000;
  to_integer = λ x. x / 1000;
  mul = λ x y. x * y / 1000;
  div = λ x y. x * 1000 / y;
  nought = 0;
  half = 500;
  ninety_five = 950;
  ninety_nine = 990;
  ninety_nine_9 = 999;
  thousand = 1000000;
}

abbrev latencies : List ℕ
latencies = 50 ∷ 30 ∷ 90 ∷ 10 ∷ []

median : (calculate_stats thousandths latencies 2000 7 1).1.p50_ns ≡ 50000
unfolding calculate_stats sort insert rank accumulate
median = refl

ranks : InVector thousandths 4
unfolding rank
ranks = omega arith

calculate_stats-Nth_example :
    let stats = (calculate_stats thousandths latencies 2000 7 1).1 in
    Nth thousandths (rank thousandths 4 500) stats.p50_ns latencies
    × Nth thousandths (rank thousandths 4 950) stats.p95_ns latencies
    × Nth thousandths (rank thousandths 4 990) stats.p99_ns latencies
    × Nth thousandths (rank thousandths 4 999) stats.p99_9_ns latencies
    × Nth thousandths 3 stats.max_ns latencies
calculate_stats-Nth_example = calculate_stats-Nth thousandths latencies 2000 7 1 (λ e. cc e) ranks
