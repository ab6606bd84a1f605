-- ===== src/Spsc/Turns.antt =====
-- Every turn of the two threads of include/spsc_queue.hpp keeps the queue sound, so no interleaving
-- loses, repeats or reorders an item, and none has both threads at one slot.
use Prim.Native.Nat.{bit_and}
use lloms.Base.{
  ℕ, ◌+◌, ◌%◌, ◌≤◌, ◌<◌, ◌≡◌, refl, ap, ◌∙◌, true, false, List, [], ◌∷◌, ◌++◌, arith, append_assoc,
  leb, ◌==◌, set, get_or-set_self,
}
use native.Mathlib.Decide.{dec_lt}
use lloms.Types.{u64_mod}
use lloms.Spsc.{sub_size}
use lloms.Spsc.Valid.{IsValid, count, contents}
use lloms.Spsc.Refine.{in_bounds, slot_index}
use lloms.Spsc.Drain.{contents-popped, popped-IsValid, window_pos}
use lloms.Spsc.Threads.{
  Producer, idle, started, loaded, written, Consumer, waiting, began, compared, taken, System, Turn,
  produces, consumes, produce, consume, turn, interleave,
}
use lloms.Spsc.Interleaved.{
  stored-IsValid, contents-stored, published-IsValid, contents-published, ProducerKnows,
  ConsumerKnows, IsSound, stored-ConsumerKnows, published-ConsumerKnows, popped-ProducerKnows,
}

module _ {A : Type 0} (fresh : A) where
  module _ (s : System A) (v : IsValid s.queue)
      (fifo : s.sent ≡ s.received ++ contents fresh s.queue) where
    write-IsSound :
        (item : A) (t h : ℕ)
        → ConsumerKnows fresh s.queue s.consumer
        → ProducerKnows fresh s.queue (loaded item t h)
        → sub_size t h < s.queue.capacity
        → IsSound fresh (record s {
          producer = written item t;
          queue = record s.queue { buffer = set s.queue.buffer (bit_and t s.queue.mask) item };
        })
    unfolding ProducerKnows
    write-IsSound item t h c k free =
        let room : count s.queue < s.queue.capacity = omega (arith, k.1) in
        rw k.0 (record {
          valid = stored-IsValid fresh v room item;
          producing = (
            refl,
            room,
            get_or-set_self s.queue.buffer (bit_and s.queue.tail s.queue.mask) item fresh
                (in_bounds fresh v s.queue.tail),
          );
          consuming = stored-ConsumerKnows fresh v room item s.consumer c;
          fifo = rw (contents-stored fresh v room item) fifo;
        })

    publish-IsSound :
        (item : A) (t : ℕ)
        → ConsumerKnows fresh s.queue s.consumer
        → ProducerKnows fresh s.queue (written item t)
        → IsSound fresh (record s {
          producer = idle;
          queue = record s.queue { tail = (t + 1) % u64_mod };
          sent = s.sent ++ item ∷ [];
        })
    unfolding ProducerKnows
    publish-IsSound item t c k =
        let room = k.1 in
        rw k.0 (record {
          valid = published-IsValid fresh v room;
          producing = tt;
          consuming = published-ConsumerKnows fresh v room s.consumer c;
          fifo =
              rw (fifo, contents-published fresh v room, k.2)
                (append_assoc s.received (contents fresh s.queue) (item ∷ []));
        })

    release-IsSound :
        (item : A) (h : ℕ)
        → ProducerKnows fresh s.queue s.producer
        → ConsumerKnows fresh s.queue (taken item h)
        → IsSound fresh (record s {
          consumer = waiting;
          queue = record s.queue { head = (h + 1) % u64_mod };
          received = s.received ++ item ∷ [];
        })
    unfolding ConsumerKnows
    release-IsSound item h p k =
        let more : 1 ≤ count s.queue = k.1 in
        rw (k.0, k.2)
          (record {
            valid = popped-IsValid fresh v 1 more;
            producing = popped-ProducerKnows fresh v more s.producer p;
            consuming = tt;
            fifo =
                rw
                  (
                    contents-popped fresh v 1 more,
                    slot_index fresh v s.queue.head,
                    append_assoc s.received,
                  )
                  (fifo
                    ∙ ap (◌++◌ s.received) (window_pos fresh v s.queue.head (count s.queue) more));
          })

  produce-IsSound :
      (next : A) (p : Producer A) (s : System A)
      → IsValid s.queue
      → s.sent ≡ s.received ++ contents fresh s.queue
      → ProducerKnows fresh s.queue p
      → ConsumerKnows fresh s.queue s.consumer
      → IsSound fresh (produce next p s)
  unfolding produce ProducerKnows
  produce-IsSound next idle s v e p c = record {
    valid = v;
    producing = refl;
    consuming = c;
    fifo = e;
  }
  produce-IsSound next (started item t) s v e p c = record {
    valid = v;
    producing = (p, rw p (omega arith));
    consuming = c;
    fifo = e;
  }
  produce-IsSound next (loaded item t h) s v e p c = elim (dec_lt (sub_size t h) s.queue.capacity) [
    | yes free ↦
        let test : leb s.queue.capacity (sub_size t h) ≡ false = ground arith in
        rw test (write-IsSound s v e item t h c p free)
    | no full ↦
        let test : leb s.queue.capacity (sub_size t h) ≡ true = ground arith in
        rw test (record { valid = v; producing = tt; consuming = c; fifo = e })
  ]
  produce-IsSound next (written item t) s v e p c = publish-IsSound s v e item t c p

  consume-IsSound :
      (c : Consumer A) (s : System A)
      → IsValid s.queue
      → s.sent ≡ s.received ++ contents fresh s.queue
      → ProducerKnows fresh s.queue s.producer
      → ConsumerKnows fresh s.queue c
      → IsSound fresh (consume fresh c s)
  unfolding consume ConsumerKnows
  consume-IsSound waiting s v e p c = record {
    valid = v;
    producing = p;
    consuming = refl;
    fifo = e;
  }
  consume-IsSound (began h) s v e p c = record {
    valid = v;
    producing = p;
    consuming = (c, v.tail_fits, rw c (omega arith));
    fifo = e;
  }
  consume-IsSound (compared h t) s v e p c = elim (dec_lt 0 (sub_size t h)) [
    | yes more ↦
        let test : (h == t) ≡ false = ground (arith, v.head_fits, c) in
        rw test (record {
          valid = v;
          producing = p;
          consuming = (c.0, omega (arith, c.2), rw c.0);
          fifo = e;
        })
    | no none_left ↦
        let test : (h == t) ≡ true = ground (arith, v.head_fits, c) in
        rw test (record { valid = v; producing = p; consuming = tt; fifo = e })
  ]
  consume-IsSound (taken item h) s v e p c = release-IsSound s v e item h p c

  -- Whatever turns the threads take, the invariant of a sound system stays: the sent items are the
  -- received ones followed by those in the queue.
  pub interleave-IsSound :
      (ts : List (Turn A)) (s : System A) → IsSound fresh s → IsSound fresh (interleave fresh s ts)
  unfolding interleave turn
  interleave-IsSound [] s i = i
  interleave-IsSound (produces item ∷ ts) s i =
      interleave-IsSound ts (produce item s.producer s)
        (produce-IsSound item s.producer s i.valid i.fifo i.producing i.consuming)
  interleave-IsSound (consumes ∷ ts) s i =
      interleave-IsSound ts (consume fresh s.consumer s)
        (consume-IsSound s.consumer s i.valid i.fifo i.producing i.consuming)
