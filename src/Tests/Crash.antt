-- ===== src/Tests/Crash.antt =====
-- A producer of an `SPSCQueue` that dies in a push, with its counters next to 2^64.
use lock_free_ring_buffer.Prelude.{
  ◌-◌, leb, if◌then◌else◌, ℕ, ◌≤◌, ◌≡◌, List, [], ◌∷◌, ◌++◌, length, refl, arith,
}
use lock_free_ring_buffer.Word.{pow2, u64}
use lock_free_ring_buffer.Memory.{store_bytes, load_bytes}
use lock_free_ring_buffer.Ring.{Ring}
use lock_free_ring_buffer.SpscQueue.Refine.{Inv, contents}
use lock_free_ring_buffer.SpscQueue.Interleave.{
  State, resting, written, quiet, saw_tail, store_tail, store_head, with_bytes, slot, test_full,
  test_empty, Reach, here, later, loads_head, tests_full, writes, publishes_tail, dies, loads_tail,
  tests_empty, reads, publishes_head, initial,
}
use lock_free_ring_buffer.SpscQueue.{size_between}
use lock_free_ring_buffer.SpscQueue.Interleave.Size.{observed_size}
use lock_free_ring_buffer.SpscQueue.Interleave.Order.{interleaved_fifo}

-- Two slots of one byte.
abbrev last : Ring
last = record {
  control = record {
    head_reserve = 0;
    head_publish = 18446744073709551615;
    tail_reserve = 0;
    tail_publish = 18446744073709551615;
    sequence = 0;
  };
  bytes = λ i. 0;
  capacity = 8;
}

last-Inv : Inv 1 last
unfolding pow2
last-Inv = omega arith

abbrev value : List ℕ
value = 5 ∷ []

abbrev pending : State
pending = record (initial last) {
  queue = with_bytes last (store_bytes last.bytes (slot (pow2 1) 1 18446744073709551615) value);
  producer = written value;
}

abbrev wrapped : State
wrapped = record pending { queue = store_tail pending.queue; producer = resting; sent = value ∷ [] }

abbrev died : State
died = record wrapped { producer = resting; consumer = saw_tail 0 }

to_pending : Reach (pow2 1) 1 (initial last) pending
unfolding test_full pow2
to_pending =
    later
      (later (later here (loads_head value refl refl)) (tests_full value 18446744073709551615 refl))
      (writes value refl)

to_died : Reach (pow2 1) 1 (initial last) died
unfolding store_tail
to_died =
    later
      (later (later (later to_pending (publishes_tail value refl)) (loads_head value refl refl))
        dies)
      (loads_tail refl)

interleaved_fifo_example :
    Inv 1 died.queue
    × ([] ++ contents 1 1 died.queue ≡ contents 1 1 last ++ value ∷ [])
    × (length (contents 1 1 died.queue) ≤ pow2 1)
interleaved_fifo_example = interleaved_fifo 1 1 last died last-Inv to_died

abbrev emptied : State
emptied = record wrapped {
  queue = store_head wrapped.queue;
  consumer = quiet;
  popped = load_bytes wrapped.queue.bytes (slot (pow2 1) 1 18446744073709551615) 1 ∷ [];
}

to_emptied : Reach (pow2 1) 1 (initial last) emptied
unfolding store_tail store_head test_empty
to_emptied =
    later
      (later
        (later (later (later to_pending (publishes_tail value refl)) (loads_tail refl))
          (tests_empty 0 refl))
        (reads refl))
      (publishes_head _ refl)

-- The queue was empty when the tail was loaded, and is empty when the head is.
observed_size_example :
    size_between 18446744073709551615 (store_head wrapped.queue).head_publish ≡ (
      if leb 1 (length (contents 1 1 last))
      then length (contents 1 1 last) - 1
      else u64 - (1 - length (contents 1 1 last)))
observed_size_example =
    observed_size 1 1 last (initial last) emptied 1 last-Inv here to_emptied refl (omega arith)
