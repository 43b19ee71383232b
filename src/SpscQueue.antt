-- ===== src/SpscQueue.antt =====
-- include/lf_ring/spsc_queue.hpp: `SPSCQueue<T, Capacity>`, fixed slots indexed by counters that
-- wrap at 64 bits. A value of T is the list of its bytes. Here each call runs to its end before the
-- next one; Interleave is about the accesses of both sides in any order.
pub mod Slots
pub mod Refine
pub mod Open
pub mod Interleave
use Prim.Native.Nat.{bit_and}
use lock_free_ring_buffer.Prelude.{
  ℕ, ◌+◌, ◌-◌, ◌*◌, Bool, true, false, Option, none, some, List, leb, ◌==◌, if◌then◌else◌,
}
use lock_free_ring_buffer.Word.{◌+w◌, ◌-w◌}
use lock_free_ring_buffer.Memory.{store_bytes, load_bytes}
use lock_free_ring_buffer.Layout.{ControlBlock}
use lock_free_ring_buffer.Ring.{Ring}

-- The template's parameters: `Capacity`, and `sizeof(T)`.
module _ (capacity sizeof_t : ℕ) where
  abbrev pub mask : ℕ
  mask = capacity - 1

  unfoldable pub try_push : Ring → List ℕ → Ring × Bool
  try_push q value =
      let t = q.tail_publish in
      let h = q.head_publish in
      if leb capacity (t -w h) then (q, false) else (
        record q {
          control = record c { tail_publish = t +w 1 };
          bytes = store_bytes q.bytes (bit_and t mask * sizeof_t) value;
        },
        true,
      )
    where
      c : ControlBlock
      c = q.control

  unfoldable pub try_pop : Ring → Ring × Option (List ℕ)
  try_pop q =
      let h = q.head_publish in
      let t = q.tail_publish in
      if h == t then (q, none) else (
        record q { control = record c { head_publish = h +w 1 } },
        some (load_bytes q.bytes (bit_and h mask * sizeof_t) sizeof_t),
      )
    where
      c : ControlBlock
      c = q.control

-- What `size` makes of the tail that it loads and the head that it loads later.
unfoldable pub size_between : ℕ → ℕ → ℕ
size_between tail head = tail -w head

-- With nothing in between.
unfoldable pub size : Ring → ℕ
unfolding size_between
size q = size_between q.tail_publish q.head_publish

unfoldable pub empty : Ring → Bool
unfolding size
empty q = size q == 0
