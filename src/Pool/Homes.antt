-- ===== src/Pool/Homes.antt =====
-- Node indices as addresses: the nodes of src/pool_order_book.cpp that are in a queue have distinct ones,
-- all of them within the vector.
use lloms.Base.{
  ℕ, ◌+◌, ◌≤◌, ◌<◌, ◌≡◌, refl, true, none, List, [], ◌∷◌, ◌++◌, arith, length, All, if◌then◌else◌,
  ◌==◌,
}
use lloms.Base.Dict.{lookup}
use lloms.Base.Keys.{Distinct}
use lloms.Types.{Order}
use lloms.Pool.{Book}
use lloms.Pool.Links.{uses}
use lloms.Pool.Carry.{Carries-bound, level_uses}
use lloms.Pool.Books.{IsLinked}
use lloms.Stl
use lloms.Stl.{Node, Location}
use lloms.Stl.Index.{homes, queue_homes, Addressed}

-- How often a key stands in an association list.
abbrev keyed : ℕ → List (ℕ × Order) → ℕ
keyed k [] = 0
keyed k ((j, o) ∷ m) = (if j == k then 1 else 0) + keyed k m

keyed-append : (k : ℕ) (m m' : List (ℕ × Order)) → keyed k (m ++ m') ≡ keyed k m + keyed k m'
keyed-append k [] m' = omega arith
keyed-append k ((j, o) ∷ m) m' = omega (arith, keyed-append k m m')

keyed-queue_homes : (k : ℕ) (q : List Node) → keyed k (queue_homes q) ≡ uses k q
keyed-queue_homes k [] = refl
keyed-queue_homes k (n ∷ q) = omega (arith, keyed-queue_homes k q)

keyed-homes : (k : ℕ) (gs : Stl.Levels) → keyed k (homes gs) ≡ level_uses k gs
keyed-homes k [] = refl
keyed-homes k ((p, q) ∷ gs) =
    omega
      (arith, keyed-append k (queue_homes q) (homes gs), keyed-queue_homes k q, keyed-homes k gs)

keyed-none : (k : ℕ) (m : List (ℕ × Order)) → keyed k m ≡ 0 → lookup k m ≡ none
keyed-none k [] h = refl
keyed-none k ((j, o) ∷ m) h = ground (arith, h, keyed-none k m)

keyed-Distinct : (m : List (ℕ × Order)) → ((k : ℕ) → keyed k m ≤ 1) → Distinct m
keyed-Distinct [] h = tt
keyed-Distinct ((j, o) ∷ m) h =
    let self : (j == j) ≡ true = ground arith in
    (keyed-none j m (ground (arith, h j, self)), keyed-Distinct m (λ k. omega (arith, h k)))

keyed-below :
    (next : ℕ) (m : List (ℕ × Order))
    → ((k : ℕ) → 1 ≤ keyed k m → k < next)
    → All (λ e. e.0 < next) m
keyed-below next [] h = tt
keyed-below next ((j, o) ∷ m) h =
    let self : (j == j) ≡ true = ground arith in
    (h j (ground (arith, self)), keyed-below next m (λ k u. h k (omega (arith, u))))

-- The list book with the next address behind the vector.
abbrev pub bounded : Book → Stl.Book → Stl.Book
bounded b g = record g { next_node = length b.nodes }

pub IsLinked-Addressed :
    (b : Book) (g : Stl.Book)
    → IsLinked b g
    → Addressed (length b.nodes) (homes g.bids ++ homes g.asks)
IsLinked-Addressed b g h =
    let once = λ (k : ℕ). keyed-append k (homes g.bids) (homes g.asks) in
    record {
      distinct =
          keyed-Distinct _ (λ k.
            omega (arith, once k, keyed-homes k g.bids, keyed-homes k g.asks, h.kept.apart k));
      below = keyed-below _ _ (λ k u. ground (
        arith,
        u,
        once k,
        keyed-homes k g.bids,
        keyed-homes k g.asks,
        Carries-bound b.nodes b.bids g.bids k h.kept.own,
        Carries-bound b.nodes b.asks g.asks k h.kept.other,
      ));
    }
