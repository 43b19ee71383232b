-- ===== src/Mpmc.antt =====
-- src/shared_ring_buffer_mpmc.cpp: `SharedRingBufferMPMC::try_pop`, which reserves the bytes that it
-- takes by an exchange of `head_reserve` and gives them back in turn. Its push is that of Mpsc.
pub mod Pop
pub mod Race
pub mod OlderTail
pub mod Interleave
use Prim.Native.Nat.{bit_and}
use lock_free_ring_buffer.Prelude.{
  ℕ, zero, suc, ◌+◌, ◌-◌, ◌%◌, not, List, Option, none, some, ◌>>=◌, ltb, ◌==◌, if◌then◌else◌,
}
use lock_free_ring_buffer.Word.{◌+w◌, ◌-w◌}
use lock_free_ring_buffer.Memory.{load_bytes}
use lock_free_ring_buffer.Layout.{ControlBlock, wrap_flag, sizeof_record_header}
use lock_free_ring_buffer.Record.{read_header, record_size}
use lock_free_ring_buffer.Ring.{Ring}
use lock_free_ring_buffer.Ring.Loop.{Popped, fill_out}

-- What a round does after its tests: it returns false, or moves the head to a new place past the end
-- of the ring, or past a record with a payload of so many bytes.
pub data Decision : Type 0 where
  leave : Decision
  skip_to : ℕ → Decision
  take_to : ℕ → ℕ → Decision

-- The tests of a round, after a load of `tail` and a later one of `head`; other threads may have moved
-- both counters since.
unfoldable pub decide : ℕ → ℕ → Ring → Decision
decide tail head r =
    let pos = head % r.capacity in
    let remaining = r.capacity - pos in
    let available = tail -w head in
    let h = read_header r.bytes pos in
    let needed = record_size h.size in
    let skip = if ltb available remaining then leave else skip_to (head +w remaining) in
    if head == tail
    then leave
    else if ltb remaining sizeof_record_header
    then skip
    else if ltb available sizeof_record_header
    then leave
    else if not (bit_and h.flags wrap_flag == 0)
    then skip
    else if ltb remaining needed
    then leave
    else if ltb available needed
    then leave
    else take_to (head +w needed) h.size

-- The exchange of `head_reserve`, which fails if another consumer was first.
unfoldable pub exchange_head : Ring → ℕ → ℕ → Option Ring
exchange_head r head new_head =
    if r.head_reserve == head
    then some (record r { control = record c { head_reserve = new_head } })
    else none
  where
    c : ControlBlock
    c = r.control

-- What is copied out of the record at `head`.
unfoldable pub copy : Ring → ℕ → ℕ → List ℕ → Popped
copy r head payload_size out =
    let pos = head % r.capacity in
    let h = read_header r.bytes pos in
    record {
      out = fill_out out (load_bytes r.bytes (pos + sizeof_record_header) payload_size);
      type = h.type;
      sequence = h.sequence;
    }

-- The publication; `none` while earlier consumers have not published.
unfoldable pub give_back : Ring → ℕ → ℕ → Option Ring
give_back r head new_head =
    if not (r.head_publish == head)
    then none
    else some (record r { control = record c { head_publish = new_head } })
  where
    c : ControlBlock
    c = r.control

-- The exchange and the publication with no other consumer in between.
unfoldable pub advance : Ring → ℕ → Option Ring
unfolding exchange_head give_back
advance r new_head =
    exchange_head r r.head_reserve new_head >>= λ r'. give_back r' r.head_reserve new_head

-- The rounds of a pop with no other consumer in between.
unfoldable pub pop_rounds : List ℕ → ℕ → Ring → Option (Ring × Option Popped)
unfolding decide advance copy
pop_rounds out zero r = none
pop_rounds out (suc fuel) r = elim (decide r.tail_publish r.head_reserve r) [
  | leave ↦ some (r, none)
  | skip_to h ↦ advance r h >>= λ r'. pop_rounds out fuel r'
  | take_to h size ↦ advance r h >>= λ r'. some (r', some (copy r r.head_reserve size out))
]

unfoldable pub try_pop : Ring → List ℕ → Option (Ring × Option Popped)
unfolding pop_rounds
try_pop r out = pop_rounds out ((r.tail_publish -w r.head_publish) + 1) r
