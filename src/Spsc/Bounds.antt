-- ===== src/Spsc/Bounds.antt =====
-- The slots that include/spsc_queue.hpp uses, whatever calls came before.
use lloms.Base.{ℕ, List, [], ◌∷◌}
use lloms.Spsc.{Queue, push, pop, pop_batch}

pub data Use (A : Type 0) : Type 0 where
  pushes : A → Use A
  pops : Use A
  pops_batch : ℕ → Use A

module _ {A : Type 0} (fresh : A) where
  unfoldable pub use_queue : Queue A → List (Use A) → Queue A
  use_queue q [] = q
  use_queue q (pushes x ∷ us) = use_queue (push q x).1 us
  use_queue q (pops ∷ us) = use_queue (pop fresh q).1 us
  use_queue q (pops_batch n ∷ us) = use_queue (pop_batch fresh q [] n).2 us
