-- ===== src/SpscQueue/Interleave/Size.antt =====
-- `SPSCQueue::size`, called by anyone while the producer and the consumer are at work.
use lock_free_ring_buffer.Prelude.{
  ℕ, ◌+◌, ◌-◌, ◌%◌, ◌≤◌, ◌<◌, ◌≡◌, refl, List, [], ◌∷◌, ◌++◌, length, arith, leb, if◌then◌else◌,
}
use lock_free_ring_buffer.Word.{u64, pow2}
use lock_free_ring_buffer.Ring.{Ring}
use lock_free_ring_buffer.SpscQueue.{size_between}
use lock_free_ring_buffer.SpscQueue.Refine.{Inv as QueueInv, contents, length-contents}
use lock_free_ring_buffer.SpscQueue.Interleave.{
  State, Step, loads_head, tests_full, tears, writes, publishes_tail, dies, loads_tail, tests_empty,
  reads, publishes_head, Reach, here, later, initial, store_tail, store_head,
}
use lock_free_ring_buffer.SpscQueue.Interleave.Order.{interleaved_fifo}

length-snoc : (xs : List (List ℕ)) (x : List ℕ) → length (xs ++ x ∷ []) ≡ length xs + 1
length-snoc [] x = refl
length-snoc (y ∷ xs) x = omega (arith, length-snoc xs x)

module _ (capacity sizeof_t head base : ℕ) where
  -- The head counts the pops: it was `head` after `base` of them.
  abbrev Counts : State → Type 0
  Counts x =
      (base ≤ length x.popped) × (x.queue.head_publish ≡ (head + (length x.popped - base)) % u64)

  Counts-Step : {x y : State} → Counts x → Step capacity sizeof_t x y → Counts y
  unfolding store_tail store_head
  Counts-Step c (loads_head value e size) = c
  Counts-Step c (tests_full value h e) = c
  Counts-Step c (tears value m' e same) = c
  Counts-Step c (writes value e) = c
  Counts-Step c (publishes_tail value e) = c
  Counts-Step c dies = c
  Counts-Step c (loads_tail e) = c
  Counts-Step c (tests_empty tail e) = c
  Counts-Step c (reads e) = c
  Counts-Step {x} c (publishes_head value e) =
      (omega (arith, c.0, length-snoc x.popped value), omega (arith, c, length-snoc x.popped value))

  Counts-Reach : {x y : State} → Counts x → Reach capacity sizeof_t x y → Counts y
  Counts-Reach c here = c
  Counts-Reach c (later run step) = Counts-Step (Counts-Reach c run) step

-- From a queue whose capacity is a power of two and whose counters are at most a capacity apart, in
-- any interleaving of the accesses of one producer and one consumer, for any caller of `size`, between
-- whose two loads `n` values are popped, `n` below 2^63: `size` returns the number of values at the
-- first load less `n`; but if `n` is larger, it returns 2^64 less the difference.
pub observed_size :
    (k sizeof_t : ℕ) (q : Ring) (x y : State) (n : ℕ)
    → QueueInv k q
    → Reach (pow2 k) sizeof_t (initial q) x
    → Reach (pow2 k) sizeof_t x y
    → length y.popped ≡ length x.popped + n
    → n < 9223372036854775808
    → let held = length (contents k sizeof_t x.queue) in
      size_between x.queue.tail_publish y.queue.head_publish
      ≡ (if leb n held then held - n else u64 - (n - held))
unfolding size_between
observed_size k sizeof_t q x y n v first second e few =
    let (w, fifo, within) = interleaved_fifo k sizeof_t q x v first in
    let c =
      Counts-Reach (pow2 k) sizeof_t x.queue.head_publish (length x.popped)
        (omega arith, omega (arith, w.head_word)) second in
    rw (length-contents k sizeof_t x.queue) (ground (arith, c, e, few, w.head_word, w.tail_word))
