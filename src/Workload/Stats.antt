-- ===== src/Workload/Stats.antt =====
-- include/workload.hpp: the statistics of a benchmark. `double` and its operations are a parameter.
pub mod Ranks
use lloms.Base.{ℕ, ◌+◌, ◌%◌, List, [], ◌∷◌, leb, if◌then◌else◌, is_nil, get_or, length}
use lloms.Types.{u64_mod}
use lloms.Workload.{back}

-- What the code does with a `double`: conversions, two operations, and its constants.
pub record Double (D : Type 0) : Type 0 where
  pub of_integer : ℕ → D
  pub to_integer : D → ℕ
  pub mul : D → D → D
  pub div : D → D → D
  pub nought : D
  pub half : D
  pub ninety_five : D
  pub ninety_nine : D
  pub ninety_nine_9 : D
  pub thousand : D

pub record BenchmarkStats (D : Type 0) : Type 0 where
  pub total_time_ms : D
  pub ops_per_sec : D
  pub p50_ns : D
  pub p95_ns : D
  pub p99_ns : D
  pub p99_9_ns : D
  pub max_ns : D
  pub mean_ns : D
  pub total_trades : ℕ
  pub total_orders_in_book : ℕ

unfoldable pub insert : ℕ → List ℕ → List ℕ
insert a [] = a ∷ []
insert a (x ∷ xs) = if leb a x then a ∷ x ∷ xs else x ∷ insert a xs

-- `std::sort` of numbers, whose result is the ascending list.
unfoldable pub sort : List ℕ → List ℕ
unfolding insert
sort [] = []
sort (x ∷ xs) = insert x (sort xs)

-- `std::accumulate` in 64 bits.
unfoldable pub accumulate : ℕ → List ℕ → ℕ
accumulate acc [] = acc
accumulate acc (x ∷ xs) = accumulate ((acc + x) % u64_mod) xs

module _ {D : Type 0} (d : Double D) where
  open d use {
    of_integer, to_integer, mul, div, nought, half, ninety_five, ninety_nine, ninety_nine_9,
    thousand,
  }

  -- `static_cast<size_t>(n * 0.50)`
  unfoldable pub rank : ℕ → D → ℕ
  rank n p = to_integer (mul (of_integer n) p)

  -- The members' initialisers, and the three that are set first.
  unfoldable pub empty_stats : D → ℕ → ℕ → BenchmarkStats D
  empty_stats total_time_ms trade_count final_book_orders = record {
    total_time_ms = total_time_ms;
    ops_per_sec = nought;
    p50_ns = nought;
    p95_ns = nought;
    p99_ns = nought;
    p99_9_ns = nought;
    max_ns = nought;
    mean_ns = nought;
    total_trades = trade_count;
    total_orders_in_book = final_book_orders;
  }

  -- The vector, which is sorted in place, and the statistics.
  unfoldable pub calculate_stats : List ℕ → D → ℕ → ℕ → List ℕ × BenchmarkStats D
  unfolding sort accumulate rank empty_stats
  calculate_stats latencies_ns total_time_ms trade_count final_book_orders =
      let stats = empty_stats total_time_ms trade_count final_book_orders in
      let sorted = sort latencies_ns in
      let n = length sorted in
      if is_nil latencies_ns then (latencies_ns, stats) else (
        sorted,
        record stats {
          ops_per_sec = div (of_integer n) (div total_time_ms thousand);
          p50_ns = of_integer (get_or sorted (rank n half) 0);
          p95_ns = of_integer (get_or sorted (rank n ninety_five) 0);
          p99_ns = of_integer (get_or sorted (rank n ninety_nine) 0);
          p99_9_ns = of_integer (get_or sorted (rank n ninety_nine_9) 0);
          max_ns = of_integer (back sorted);
          mean_ns = div (of_integer (accumulate 0 sorted)) (of_integer n);
        },
      )
