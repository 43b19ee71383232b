-- ===== src/Ring.antt =====
-- The state that the three byte rings share: the control block and the ring of a mapping
-- (include/lf_ring/shared_memory_mapping.hpp), and `approx_size` of src/shared_ring_buffer*.cpp.
pub mod Position
pub mod Spans
pub mod Loop
pub mod Inv
pub mod Regions
use lock_free_ring_buffer.Prelude.{ℕ, ◌≤◌, ◌<◌, ltb, if◌then◌else◌}
use lock_free_ring_buffer.Word.{◌-w◌}
use lock_free_ring_buffer.Memory.{Memory}
use lock_free_ring_buffer.Layout.{ControlBlock}

pub record Ring : Type 0 where
  pub control : ControlBlock
  pub open control use *
  pub bytes : Memory
  pub capacity : ℕ

-- What `approx_size` makes of the head that it loads and the tail that it loads later: the same text
-- in the three classes.
unfoldable pub size_between : ℕ → ℕ → ℕ → ℕ
size_between capacity head tail =
    let used = tail -w head in if ltb capacity used then capacity else used

-- With nothing in between.
unfoldable pub approx_size : Ring → ℕ
unfolding size_between
approx_size r = size_between r.capacity r.head_publish r.tail_publish

-- The stores of the two counters of the producer, and of the consumer.
unfoldable pub set_tail : Ring → ℕ → Ring
set_tail r tail = record r { control = record c { tail_reserve = tail; tail_publish = tail } }
  where
    c : ControlBlock
    c = r.control

unfoldable pub set_head : Ring → ℕ → Ring
set_head r head = record r { control = record c { head_reserve = head; head_publish = head } }
  where
    c : ControlBlock
    c = r.control
