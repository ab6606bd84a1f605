-- ===== src/Spsc/Threads.antt =====
-- push and pop of include/spsc_queue.hpp taken apart into their accesses to shared memory: each turn of
-- a thread is one load or store of a counter, or one access to a slot. The turns of the two threads
-- come in any order; memory orders weaker than sequential consistency are not modelled.
use Prim.Native.Nat.{bit_and}
use lloms.Base.{ℕ, ◌+◌, ◌%◌, List, [], ◌∷◌, ◌++◌, leb, ◌==◌, if◌then◌else◌, set}
use lloms.Types.{u64_mod}
use lloms.Spsc.{Queue, sub_size, slot}

-- Where the producer stands in `push(item)`, with the values that it has loaded.
pub data Producer (A : Type 0) : Type 0 where
  idle : Producer A
  started : (item : A) (current_tail : ℕ) → Producer A
  loaded : (item : A) (current_tail current_head : ℕ) → Producer A
  written : (item : A) (current_tail : ℕ) → Producer A

-- Where the consumer stands in `pop(out_item)`.
pub data Consumer (A : Type 0) : Type 0 where
  waiting : Consumer A
  began : (current_head : ℕ) → Consumer A
  compared : (current_head current_tail : ℕ) → Consumer A
  taken : (out_item : A) (current_head : ℕ) → Consumer A

-- `sent` has the items of the pushes that returned true, and `received` those of the pops.
pub record System (A : Type 0) : Type 0 where
  pub queue : Queue A
  pub producer : Producer A
  pub consumer : Consumer A
  pub sent : List A
  pub received : List A

pub data Turn (A : Type 0) : Type 0 where
  -- The item is that of the next push, if none is on its way.
  produces : A → Turn A
  consumes : Turn A

module _ {A : Type 0} where
  -- The producer's next access; `leb capacity …` is the test for a full queue.
  unfoldable pub produce : A → Producer A → System A → System A
  produce next idle s = record s { producer = started next s.queue.tail }
  produce next (started item t) s = record s { producer = loaded item t s.queue.head }
  produce next (loaded item t h) s =
      if leb s.queue.capacity (sub_size t h) then record s { producer = idle } else record s {
        producer = written item t;
        queue = record s.queue { buffer = set s.queue.buffer (bit_and t s.queue.mask) item };
      }
  produce next (written item t) s = record s {
    producer = idle;
    queue = record s.queue { tail = (t + 1) % u64_mod };
    sent = s.sent ++ item ∷ [];
  }

module _ {A : Type 0} (fresh : A) where
  -- The consumer's next access.
  unfoldable pub consume : Consumer A → System A → System A
  consume waiting s = record s { consumer = began s.queue.head }
  consume (began h) s = record s { consumer = compared h s.queue.tail }
  consume (compared h t) s =
      if h == t
      then record s { consumer = waiting }
      else record s { consumer = taken (slot fresh s.queue h) h }
  consume (taken item h) s = record s {
    consumer = waiting;
    queue = record s.queue { head = (h + 1) % u64_mod };
    received = s.received ++ item ∷ [];
  }

  unfoldable pub turn : System A → Turn A → System A
  unfolding produce consume
  turn s (produces item) = produce item s.producer s
  turn s consumes = consume s.consumer s

  -- Any interleaving.
  unfoldable pub interleave : System A → List (Turn A) → System A
  unfolding turn
  interleave s [] = s
  interleave s (t ∷ ts) = interleave (turn s t) ts
