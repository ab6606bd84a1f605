-- ===== src/Spsc/Interleaved.antt =====
-- What holds of push and pop of include/spsc_queue.hpp under every interleaving of their accesses.
use Prim.Native.Nat.{bit_and}
use lloms.Base.{
  suc, ◌+◌, ◌%◌, ◌≤◌, ◌<◌, ◌≡◌, ◌≢◌, sym, ◌∙◌, [], ◌∷◌, ◌++◌, arith, set, length-set, get_or-set_ne,
}
use lloms.Types.{u64_mod}
use lloms.Spsc.{Queue, sub_size, slot}
use lloms.Spsc.Valid.{IsValid, count, window_snoc, window-set_outside, mod-ne, contents}
use lloms.Spsc.Refine.{capacity_bounds, slot_index, tail_slot}
use lloms.Spsc.Drain.{popped, count-popped}
use lloms.Spsc.Threads.{
  Producer, idle, started, loaded, written, Consumer, waiting, began, compared, taken, System,
}

module _ {A : Type 0} (fresh : A) {q : Queue A} (v : IsValid q) (room : count q < q.capacity) where
  -- The write to the slot behind the items.
  abbrev pub stored : A → Queue A
  stored x = record q { buffer = set q.buffer (bit_and q.tail q.mask) x }

  pub stored-IsValid : (x : A) → IsValid (stored x)
  stored-IsValid x = record {
    exponent = v.exponent;
    small = v.small;
    power = v.power;
    masked = v.masked;
    slots = length-set q.buffer (bit_and q.tail q.mask) x ∙ v.slots;
    head_fits = v.head_fits;
    tail_fits = v.tail_fits;
    within = v.within;
  }

  pub contents-stored : (x : A) → contents fresh (stored x) ≡ contents fresh q
  contents-stored x =
      window-set_outside fresh q.buffer q.capacity x q.head (count q) (bit_and q.tail q.mask)
        (count q) (slot_index fresh v q.tail ∙ tail_slot fresh v) (omega arith) room

  -- The slot that the producer writes is not the one that the consumer reads.
  pub slots_differ : 0 < count q → bit_and q.tail q.mask ≢ bit_and q.head q.mask
  slots_differ some_left =
      rw (slot_index fresh v q.tail, slot_index fresh v q.head, tail_slot fresh v)
        (mod-ne q.capacity q.head (count q) some_left room)

  -- The store to `tail_` that publishes the slot.
  abbrev pub published : Queue A
  published = record q { tail = (q.tail + 1) % u64_mod }

  pub count-published : count published ≡ suc (count q)
  count-published = omega (arith, v.head_fits, v.tail_fits, capacity_bounds fresh v)

  pub published-IsValid : IsValid published
  published-IsValid = record {
    exponent = v.exponent;
    small = v.small;
    power = v.power;
    masked = v.masked;
    slots = v.slots;
    head_fits = v.head_fits;
    tail_fits = omega arith;
    within = omega (arith, count-published);
  }

  pub contents-published : contents fresh published ≡ contents fresh q ++ slot fresh q q.tail ∷ []
  contents-published =
      rw (count-published, slot_index fresh v q.tail, tail_slot fresh v)
        (window_snoc fresh q.buffer q.capacity q.head (count q))

module _ {A : Type 0} (fresh : A) where
  -- What the producer knows: the tail is its own, and the head may have moved on since it was loaded.
  unfoldable pub ProducerKnows : Queue A → Producer A → Type 0
  ProducerKnows q idle = Unit {0}
  ProducerKnows q (started item t) = t ≡ q.tail
  ProducerKnows q (loaded item t h) = (t ≡ q.tail) × (count q ≤ sub_size t h)
  ProducerKnows q (written item t) =
      (t ≡ q.tail) × (count q < q.capacity) × (slot fresh q q.tail ≡ item)

  -- What the consumer knows: the head is its own, and the tail may have moved on since it was loaded.
  unfoldable pub ConsumerKnows : Queue A → Consumer A → Type 0
  ConsumerKnows q waiting = Unit {0}
  ConsumerKnows q (began h) = h ≡ q.head
  ConsumerKnows q (compared h t) = (h ≡ q.head) × (t < u64_mod) × (sub_size t h ≤ count q)
  ConsumerKnows q (taken item h) = (h ≡ q.head) × (0 < count q) × (item ≡ slot fresh q q.head)

  -- The received items and those in the queue are the sent ones, in their order.
  pub record IsSound (s : System A) : Type 0 where
    pub valid : IsValid s.queue
    pub producing : ProducerKnows s.queue s.producer
    pub consuming : ConsumerKnows s.queue s.consumer
    pub fifo : s.sent ≡ s.received ++ contents fresh s.queue

  pub stored-ConsumerKnows :
      {q : Queue A} (v : IsValid q) (room : count q < q.capacity) (x : A) (c : Consumer A)
      → ConsumerKnows q c
      → ConsumerKnows (stored fresh v room x) c
  unfolding ConsumerKnows
  stored-ConsumerKnows v room x waiting k = tt
  stored-ConsumerKnows v room x (began h) k = k
  stored-ConsumerKnows v room x (compared h t) k = k
  stored-ConsumerKnows {q} v room x (taken item h) k = (
    k.0,
    k.1,
    k.2
        ∙ sym (
            get_or-set_ne q.buffer (bit_and q.tail q.mask) (bit_and q.head q.mask) x fresh
              (slots_differ fresh v room k.1)),
  )

  pub published-ConsumerKnows :
      {q : Queue A} (v : IsValid q) (room : count q < q.capacity) (c : Consumer A)
      → ConsumerKnows q c
      → ConsumerKnows (published fresh v room) c
  unfolding ConsumerKnows
  published-ConsumerKnows v room waiting k = tt
  published-ConsumerKnows v room (began h) k = k
  published-ConsumerKnows v room (compared h t) k =
      (k.0, k.1, omega (arith, k.2, count-published fresh v room))
  published-ConsumerKnows v room (taken item h) k =
      (k.0, omega (arith, count-published fresh v room), k.2)

  pub popped-ProducerKnows :
      {q : Queue A} (v : IsValid q) (more : 1 ≤ count q) (p : Producer A)
      → ProducerKnows q p
      → ProducerKnows (popped fresh v 1 more) p
  unfolding ProducerKnows
  popped-ProducerKnows v more idle k = tt
  popped-ProducerKnows v more (started item t) k = k
  popped-ProducerKnows v more (loaded item t h) k =
      (k.0, omega (arith, k.1, count-popped fresh v 1 more))
  popped-ProducerKnows v more (written item t) k =
      (k.0, omega (arith, k.1, count-popped fresh v 1 more), k.2)
