-- ===== src/SpscQueue/Interleave/Order.antt =====
-- All runs of a producer, which may die and be replaced, and a consumer of one `SPSCQueue`.
use lock_free_ring_buffer.Prelude.{
  ℕ, ◌*◌, ◌%◌, ◌≤◌, ◌≡◌, sym, ap, subst, ◌∙◌, inl, inr, List, ◌++◌, length, arith, append-nil,
  Bool-cases, leb, eq→==, ne→==,
}
use native.Mathlib.Decide.{dec_lt, ℕ_discrete}
use lock_free_ring_buffer.Word.{◌-w◌, pow2}
use lock_free_ring_buffer.Memory.{store_bytes, load_bytes, load-store_self, store_bytes_outside}
use lock_free_ring_buffer.Ring.{Ring}
use lock_free_ring_buffer.SpscQueue.Refine.{
  Inv as QueueInv, contents, contents-popped, length-contents,
}
use lock_free_ring_buffer.SpscQueue.Interleave.{
  State, resting, saw_head, writing, written, saw_tail, reading, got, with_bytes, slot, test_full,
  test_empty, Step, loads_head, tests_full, tears, writes, publishes_tail, dies, loads_tail,
  tests_empty, reads, publishes_head, Reach, here, later, initial,
}
use lock_free_ring_buffer.SpscQueue.Interleave.Inv.{
  used, Producing, Consuming, Inv, Inv-producer, Inv-consumer, in_phase, consuming, Inv-write,
  at_slot, Inv-publish, Inv-take, some_left,
}

module _ (k sizeof_t : ℕ) where
  module _ {xs : List (List ℕ)} (x : State) (v : Inv k sizeof_t xs x) where
    abbrev q : Ring
    q = x.queue

    tests_full_lem :
        (value : List ℕ) (head : ℕ)
        → x.producer ≡ saw_head value head
        → Producing k sizeof_t q.bytes
            (used q)
            q.tail_publish
            (test_full (pow2 k) sizeof_t q value head)
    unfolding test_full
    tests_full_lem value head e =
        let (size, near) = in_phase k sizeof_t x v e in
        elim (Bool-cases (leb (pow2 k) (q.tail_publish -w head))) [
          | inl full ↦ rw full tt
          | inr room ↦ rw room (size, ground (arith, near, room))
        ]

    tests_empty_lem :
        (tail : ℕ)
        → x.consumer ≡ saw_tail tail
        → Consuming k sizeof_t
            (contents k sizeof_t q)
            q.head_publish
            (used q)
            (test_empty (pow2 k) sizeof_t q tail)
    unfolding test_empty
    tests_empty_lem tail e =
        let (word, near) = consuming k sizeof_t x v e in
        elim (ℕ_discrete q.head_publish tail) [
          | yes same ↦ rw (eq→== q.head_publish tail same) tt
          | no other ↦ rw (ne→== q.head_publish tail other) (elim (dec_lt 0 (used q)) [
            | yes some ↦ some
            | no none ↦ absurd (other (omega (arith, none, near, word, v.queue.head_word)))
          ])
        ]

    Inv-writes :
        (value : List ℕ)
        → x.producer ≡ writing value
        → Inv k sizeof_t xs (record x {
          queue = with_bytes q (store_bytes q.bytes (slot (pow2 k) sizeof_t q.tail_publish) value);
          producer = written value;
        })
    Inv-writes value e =
        let (size, room) = in_phase k sizeof_t x v e in
        rw (at_slot k sizeof_t x v q.tail_publish) (
          Inv-write k sizeof_t x v (store_bytes q.bytes (q.tail_publish % pow2 k * sizeof_t) value)
            (written value) room
            (λ i a. sym (
              store_bytes_outside q.bytes (q.tail_publish % pow2 k * sizeof_t) value i
                (omega (arith, size))))
            (
              room,
              ap (load_bytes _ (q.tail_publish % pow2 k * sizeof_t)) (sym size)
                  ∙ load-store_self q.bytes (q.tail_publish % pow2 k * sizeof_t) value,
            ))

    Inv-reads :
        x.consumer ≡ reading
        → Inv k sizeof_t xs (record x {
          consumer = got (load_bytes q.bytes (slot (pow2 k) sizeof_t q.head_publish) sizeof_t);
        })
    Inv-reads e = rw (at_slot k sizeof_t x v q.head_publish) (
        Inv-consumer k sizeof_t x v _ (
          _,
          contents-popped k sizeof_t q v.queue
              (some_left k sizeof_t x v (consuming k sizeof_t x v e)),
        ))

    Inv-Step : {y : State} → Step (pow2 k) sizeof_t x y → Inv k sizeof_t xs y
    Inv-Step (loads_head value e size) =
        Inv-producer k sizeof_t x v (saw_head value q.head_publish) (size, omega arith)
    Inv-Step (tests_full value head e) = Inv-producer k sizeof_t x v _ (tests_full_lem value head e)
    Inv-Step (tears value m' e same) =
        Inv-write k sizeof_t x v m' x.producer (in_phase k sizeof_t x v e).1
          (λ i a. same i (rw (at_slot k sizeof_t x v q.tail_publish) a))
          (subst (Producing k sizeof_t m' (used q) q.tail_publish) (sym e)
            (in_phase k sizeof_t x v e))
    Inv-Step (writes value e) = Inv-writes value e
    Inv-Step (publishes_tail value e) = Inv-publish k sizeof_t x v value e
    Inv-Step dies = Inv-producer k sizeof_t x v resting tt
    Inv-Step (loads_tail e) =
        Inv-consumer k sizeof_t x v (saw_tail q.tail_publish) (v.queue.tail_word, omega arith)
    Inv-Step (tests_empty tail e) = Inv-consumer k sizeof_t x v _ (tests_empty_lem tail e)
    Inv-Step (reads e) = Inv-reads e
    Inv-Step (publishes_head value e) = Inv-take k sizeof_t x v value e

  Inv-Reach :
      {xs : List (List ℕ)} {x y : State}
      → Inv k sizeof_t xs x
      → Reach (pow2 k) sizeof_t x y
      → Inv k sizeof_t xs y
  Inv-Reach v here = v
  Inv-Reach v (later {y} run step) = Inv-Step y (Inv-Reach v run) step

  -- From a queue whose capacity is a power of two and whose counters are at most a capacity apart, in
  -- any interleaving of the accesses of one producer and one consumer, wherever in a push the
  -- producer dies and is replaced, also when the counters wrap at 64 bits: the counters stay at most
  -- a capacity apart, and what was handed over and then what the queue holds, which is at most
  -- `capacity` values, is what it held at first and then the published values, each once, whole and
  -- in order.
  pub interleaved_fifo :
      (q : Ring) (x : State)
      → QueueInv k q
      → Reach (pow2 k) sizeof_t (initial q) x
      → QueueInv k x.queue
        × (x.popped ++ contents k sizeof_t x.queue ≡ contents k sizeof_t q ++ x.sent)
        × (length (contents k sizeof_t x.queue) ≤ pow2 k)
  interleaved_fifo q x v run =
      let w = Inv-Reach start run in
      (w.queue, w.fifo, omega (arith, length-contents k sizeof_t x.queue, w.queue.within))
    where
      start : Inv k sizeof_t (contents k sizeof_t q) (initial q)
      start = record {
        queue = v;
        fifo = sym (append-nil (contents k sizeof_t q));
        producer = tt;
        consumer = tt;
      }
