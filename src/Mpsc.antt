-- ===== src/Mpsc.antt =====
-- include/lf_ring/ring_writer.hpp: `detail::try_push`, the push of the rings of many producers, in
-- its three parts: the reservation, which is one exchange, the fill of the reserved bytes, and the
-- publication, which waits for its turn. And src/shared_ring_buffer.cpp: `SharedRingBuffer`.
pub mod Push
pub mod Interleave
use lock_free_ring_buffer.Prelude.{
  ℕ, ◌+◌, ◌-◌, ◌%◌, Bool, true, false, not, ◌&&◌, Option, none, some, List, [], take, ltb, leb,
  ◌==◌, if◌then◌else◌,
}
use lock_free_ring_buffer.Word.{◌+w◌, ◌-w◌}
use lock_free_ring_buffer.Memory.{Memory, store_bytes, store_int}
use lock_free_ring_buffer.Layout.{ControlBlock, sizeof_record_header}
use lock_free_ring_buffer.Record.{write_wrap, write_header, record_size}
use lock_free_ring_buffer.Ring.{Ring}
use lock_free_ring_buffer.Ring.Loop.{Popped}
use lock_free_ring_buffer.Spsc

-- What the loop leaves in `start`, `padding` and `needs_wrap_record`.
pub record Reservation : Type 0 where
  pub start : ℕ
  pub padding : ℕ
  pub needs_wrap_record : Bool

-- One round of the loop in which the exchange succeeds, after a load of `head`; `none` for
-- `return false`.
unfoldable pub reserve : ℕ → Ring → ℕ → Option (Ring × Reservation)
reserve head r needed =
    let used = r.tail_reserve -w head in
    let remaining = r.capacity - r.tail_reserve % r.capacity in
    let no_header = ltb remaining sizeof_record_header in
    let needs_wrap = not no_header && ltb remaining needed in
    let padding = if no_header then remaining else if needs_wrap then remaining else 0 in
    if ltb r.capacity used
    then none
    else if ltb r.capacity (used +w (padding +w needed))
    then none
    else some (
      record r { control = record c { tail_reserve = r.tail_reserve +w (padding +w needed) } },
      record { start = r.tail_reserve; padding = padding; needs_wrap_record = needs_wrap },
    )
  where
    c : ControlBlock
    c = r.control

-- The position of the record.
unfoldable pub position : ℕ → Reservation → ℕ
position capacity v = if ltb 0 v.padding then 0 else v.start % capacity

unfoldable pub fill : Ring → Reservation → ℕ → ℕ → List ℕ → Ring
unfolding position
fill r v size type payload =
    let wraps = ltb 0 v.padding && (v.needs_wrap_record && leb sizeof_record_header v.padding) in
    let wrapped = if wraps then write_wrap r.bytes (v.start % r.capacity) else r.bytes in
    let pos = position r.capacity v in
    record r {
      bytes =
          store_bytes
            (write_header wrapped pos
              (record { size = size; type = type; flags = 0; sequence = 0 }))
            (pos + sizeof_record_header) payload;
    }

-- `none` while earlier producers have not published.
unfoldable pub publish : Ring → Reservation → ℕ → Option Ring
unfolding position
publish r v needed =
    if not (r.tail_publish == v.start)
    then none
    else some (record r {
      control = record c {
        sequence = r.sequence +w 1;
        tail_publish = v.start +w v.padding +w needed;
      };
      bytes = store_int 8 r.bytes (position r.capacity v + 8) (r.sequence +w 1);
    })
  where
    c : ControlBlock
    c = r.control

abbrev report : Option Ring → Option (Ring × Bool)
report none = none
report (some r) = some (r, true)

abbrev fill_and_publish : Ring → ℕ → ℕ → List ℕ → Option (Ring × Reservation) → Option (Ring × Bool)
fill_and_publish before size type payload none = some (before, false)
fill_and_publish before size type payload (some (r, v)) =
    report (publish (fill r v size type payload) v (record_size size))

-- The whole push with no other producer in between; `none` if an earlier one never publishes.
unfoldable pub try_push : Ring → Option (List ℕ) → ℕ → ℕ → Option (Ring × Bool)
unfolding reserve fill publish
try_push r none size type =
    if not (size == 0)
    then some (r, false)
    else if ltb r.capacity (record_size size)
    then some (r, false)
    else fill_and_publish r size type [] (reserve r.head_publish r (record_size size))
try_push r (some source) size type =
    if ltb r.capacity (record_size size)
    then some (r, false)
    else fill_and_publish r size type (take size source)
        (reserve r.head_publish r (record_size size))

-- `SharedRingBuffer::try_pop_internal`, in one step. It is the text of the ring of one producer, but
-- for the order of the two stores that advance the head.
unfoldable pub try_pop : Ring → List ℕ → Option (Ring × Option Popped)
try_pop r out = Spsc.try_pop r out
