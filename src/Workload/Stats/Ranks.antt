-- ===== src/Workload/Stats/Ranks.antt =====
-- include/workload.hpp: which latencies the percentiles of calculate_stats are.
use lloms.Base.{
  ℕ, zero, suc, ◌+◌, ◌-◌, ◌≤◌, ◌<◌, ◌≡◌, ◌≢◌, refl, ap, ◌∙◌, List, [], ◌∷◌, arith, ltb, leb,
  if◌then◌else◌, get_or, length, All, All-mono,
}
use lloms.Workload.{back}
use lloms.Workload.Stats.{Double, insert, sort, rank, calculate_stats}

abbrev pub below : ℕ → List ℕ → ℕ
below a [] = 0
below a (x ∷ xs) = (if ltb x a then 1 else 0) + below a xs

abbrev pub at_most : ℕ → List ℕ → ℕ
at_most a [] = 0
at_most a (x ∷ xs) = (if leb x a then 1 else 0) + at_most a xs

-- `a` is the element with `k` before it, when the list is put in order.
pub record IsNth (k a : ℕ) (xs : List ℕ) : Type 0 where
  pub not_before : below a xs ≤ k
  pub not_behind : k < at_most a xs

abbrev IsSorted : List ℕ → Type 0
IsSorted [] = Unit {0}
IsSorted (x ∷ xs) = All (λ y. x ≤ y) xs × IsSorted xs

insert-All : (b a : ℕ) (xs : List ℕ) → b ≤ a → All (λ y. b ≤ y) xs → All (λ y. b ≤ y) (insert a xs)
unfolding insert
insert-All b a [] h k = (h, tt)
insert-All b a (x ∷ xs) h k = ground (arith, insert-All b a xs h k.1)

insert-IsSorted : (a : ℕ) (xs : List ℕ) → IsSorted xs → IsSorted (insert a xs)
unfolding insert
insert-IsSorted a [] h = (tt, tt)
insert-IsSorted a (x ∷ xs) h =
    let rest = insert-IsSorted a xs h.1 in
    ground (
      arith,
      rest,
      λ (p : x ≤ a). insert-All x a xs p h.0,
      λ (p : a ≤ x). All-mono (λ y. x ≤ y) (λ y. a ≤ y) xs (λ y q. omega (arith, p, q)) h.0,
    )

sort-IsSorted : (xs : List ℕ) → IsSorted (sort xs)
unfolding sort
sort-IsSorted [] = tt
sort-IsSorted (x ∷ xs) = insert-IsSorted x (sort xs) (sort-IsSorted xs)

below-insert : (a x : ℕ) (xs : List ℕ) → below a (insert x xs) ≡ below a (x ∷ xs)
unfolding insert
below-insert a x [] = refl
below-insert a x (y ∷ xs) = ground (arith, below-insert a x xs)

below-sort : (a : ℕ) (xs : List ℕ) → below a (sort xs) ≡ below a xs
unfolding sort
below-sort a [] = refl
below-sort a (x ∷ xs) = omega (arith, below-insert a x (sort xs), below-sort a xs)

at_most-insert : (a x : ℕ) (xs : List ℕ) → at_most a (insert x xs) ≡ at_most a (x ∷ xs)
unfolding insert
at_most-insert a x [] = refl
at_most-insert a x (y ∷ xs) = ground (arith, at_most-insert a x xs)

at_most-sort : (a : ℕ) (xs : List ℕ) → at_most a (sort xs) ≡ at_most a xs
unfolding sort
at_most-sort a [] = refl
at_most-sort a (x ∷ xs) = omega (arith, at_most-insert a x (sort xs), at_most-sort a xs)

length-insert : (a : ℕ) (xs : List ℕ) → length (insert a xs) ≡ suc (length xs)
unfolding insert
length-insert a [] = refl
length-insert a (x ∷ xs) = ground (arith, length-insert a xs)

length-sort : (xs : List ℕ) → length (sort xs) ≡ length xs
unfolding sort
length-sort [] = refl
length-sort (x ∷ xs) = omega (arith, length-insert x (sort xs), length-sort xs)

below-eq-zero : (a : ℕ) (xs : List ℕ) → All (λ y. a ≤ y) xs → below a xs ≡ 0
below-eq-zero a [] h = refl
below-eq-zero a (x ∷ xs) h = ground (arith, below-eq-zero a xs h.1)

All-get_or : (a : ℕ) (xs : List ℕ) (k : ℕ) → k < length xs → All (λ y. a ≤ y) xs → a ≤ get_or xs k 0
All-get_or a [] k h all = absurd (omega arith)
All-get_or a (x ∷ xs) zero h all = all.0
All-get_or a (x ∷ xs) (suc k) h all = All-get_or a xs k (omega arith) all.1

sorted-IsNth : (xs : List ℕ) (k : ℕ) → IsSorted xs → k < length xs → IsNth k (get_or xs k 0) xs
sorted-IsNth [] k s h = absurd (omega arith)
sorted-IsNth (x ∷ xs) zero s h = ground (arith, below-eq-zero x xs s.0)
sorted-IsNth (x ∷ xs) (suc k) s h =
    let fewer : k < length xs = omega arith in
    ground (arith, sorted-IsNth xs k s.1 fewer, All-get_or x xs k fewer s.0)

sort-IsNth : (xs : List ℕ) (k : ℕ) → k < length xs → IsNth k (get_or (sort xs) k 0) xs
sort-IsNth xs k h =
    let a = get_or (sort xs) k 0 in
    let nth = sorted-IsNth (sort xs) k (sort-IsSorted xs) (omega (arith, h, length-sort xs)) in
    record {
      not_before = omega (arith, nth.not_before, below-sort a xs);
      not_behind = omega (arith, nth.not_behind, at_most-sort a xs);
    }

back-eq-get_or : (xs : List ℕ) → back xs ≡ get_or xs (length xs - 1) 0
back-eq-get_or [] = refl
back-eq-get_or (x ∷ []) = refl
back-eq-get_or (x ∷ y ∷ xs) = ground (arith, back-eq-get_or (y ∷ xs))

module _ {D : Type 0} (d : Double D) where
  -- Truncated, the products of the size with a number below 1 are indices of the vector.
  pub record InVector (n : ℕ) : Type 0 where
    pub half_in : rank d n d.half < n
    pub ninety_five_in : rank d n d.ninety_five < n
    pub ninety_nine_in : rank d n d.ninety_nine < n
    pub ninety_nine_9_in : rank d n d.ninety_nine_9 < n

  -- The statistic is the conversion of the element that is the `k`-th from 0 on in order.
  abbrev pub Nth : ℕ → D → List ℕ → Type 0
  Nth k stat xs = (a : ℕ) × (stat ≡ d.of_integer a) × IsNth k a xs

  sorted-Nth :
      (xs : List ℕ) (j k : ℕ)
      → j ≡ k
      → k < length xs
      → Nth k (d.of_integer (get_or (sort xs) j 0)) xs
  sorted-Nth xs j k e h =
      (get_or (sort xs) k 0, ap (λ i. d.of_integer (get_or (sort xs) i 0)) e, sort-IsNth xs k h)

  -- Of latencies that are not empty, and whose size times 0.50, 0.95, 0.99 and 0.999 is truncated to
  -- numbers below the size: the four percentiles are the latencies that stand at these numbers in
  -- ascending order, counted from 0, and the maximum is the last.
  pub calculate_stats-Nth :
      (xs : List ℕ) (total_time_ms : D) (trade_count final_book_orders : ℕ)
      → xs ≢ []
      → InVector (length xs)
      → let stats = (calculate_stats d xs total_time_ms trade_count final_book_orders).1 in
        let n = length xs in
        Nth (rank d n d.half) stats.p50_ns xs
        × Nth (rank d n d.ninety_five) stats.p95_ns xs
        × Nth (rank d n d.ninety_nine) stats.p99_ns xs
        × Nth (rank d n d.ninety_nine_9) stats.p99_9_ns xs
        × Nth (n - 1) stats.max_ns xs
  unfolding calculate_stats
  calculate_stats-Nth [] t trades orders some_one r = absurd (some_one refl)
  calculate_stats-Nth (x ∷ xs) t trades orders some_one r =
      let ys = x ∷ xs in
      let e = length-sort ys in
      let top = length ys - 1 in
      (
        sorted-Nth ys _ _ (ap (λ n. rank d n d.half) e) r.half_in,
        sorted-Nth ys _ _ (ap (λ n. rank d n d.ninety_five) e) r.ninety_five_in,
        sorted-Nth ys _ _ (ap (λ n. rank d n d.ninety_nine) e) r.ninety_nine_in,
        sorted-Nth ys _ _ (ap (λ n. rank d n d.ninety_nine_9) e) r.ninety_nine_9_in,
        (
          get_or (sort ys) top 0,
          ap d.of_integer (back-eq-get_or (sort ys) ∙ ap (λ n. get_or (sort ys) (n - 1) 0) e),
          sort-IsNth ys top (omega arith),
        ),
      )
