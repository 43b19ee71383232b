-- ===== src/Spsc.antt =====
-- src/shared_ring_buffer_spsc.cpp: `SharedRingBufferSPSC`, a ring of records of any size for one
-- producer and one consumer. Here each call runs to its end before the next one; Interleave is about
-- the accesses of both sides in any order.
pub mod Rounds
pub mod Push
pub mod Claim
pub mod Pop
pub mod History
pub mod Parts
pub mod Interleave
use Prim.Native.Nat.{bit_and}
use lock_free_ring_buffer.Prelude.{
  ℕ, ◌+◌, ◌-◌, ◌%◌, ◌<◌, Bool, true, false, not, ◌&&◌, ◌||◌, Option, none, some, List, [], length,
  take, ltb, leb, ◌==◌, if◌then◌else◌,
}
use lock_free_ring_buffer.Word.{u32, ◌+w◌, ◌-w◌}
use lock_free_ring_buffer.Memory.{load_bytes}
use lock_free_ring_buffer.Layout.{ControlBlock, wrap_flag, sizeof_record_header}
use lock_free_ring_buffer.Record.{RecordHeader, read_header, write_wrap, write_record, record_size}
use lock_free_ring_buffer.Ring.{Ring, set_tail, set_head}
use lock_free_ring_buffer.Ring.Loop.{Round, retry, finish, run_rounds, Popped, fill_out}

-- A record at the producer's position, with the next sequence number.
unfoldable pub append_record : Ring → ℕ → ℕ → List ℕ → Ring
unfolding set_tail
append_record r size type payload =
    set_tail
      (record r {
        control = record c { sequence = r.sequence +w 1 };
        bytes =
            write_record r.bytes (r.tail_publish % r.capacity) size type payload (r.sequence +w 1);
      })
      (r.tail_publish +w record_size size)
  where
    c : ControlBlock
    c = r.control

-- The wrap record at the producer's position, if a header fits, and the skip to the start.
unfoldable pub append_wrap : Ring → Ring
unfolding set_tail
append_wrap r =
    let pos = r.tail_publish % r.capacity in
    let remaining = r.capacity - pos in
    let wrapped = write_wrap r.bytes pos in
    set_tail (record r { bytes = if leb sizeof_record_header remaining then wrapped else r.bytes })
      (r.tail_publish +w remaining)

unfoldable pub push_round : ℕ → ℕ → List ℕ → Ring → Round Bool
push_round size type payload r =
    let used = r.tail_publish -w r.head_publish in
    let remaining = r.capacity - r.tail_publish % r.capacity in
    let needed = record_size size in
    if ltb r.capacity used
    then finish r false
    else if ltb remaining sizeof_record_header
    then if ltb r.capacity (used +w remaining)
      then finish r false
      else retry (set_tail r (r.tail_publish +w remaining))
    else if ltb remaining needed
    then if ltb r.capacity (used +w remaining +w needed)
      then finish r false
      else retry (append_wrap r)
    else if ltb r.capacity (used +w needed)
    then finish r false
    else finish (append_record r size type payload) true

-- Two rounds are enough, since the second begins at the start of the ring.
abbrev pub push_rounds : ℕ
push_rounds = 2

-- `none` for the null pointer.
unfoldable pub try_push : Ring → Option (List ℕ) → ℕ → ℕ → Option (Ring × Bool)
try_push r none size type =
    if not (size == 0)
    then some (r, false)
    else if ltb r.capacity (record_size size)
    then some (r, false)
    else run_rounds (push_round size type []) push_rounds r
try_push r (some source) size type =
    if ltb r.capacity (record_size size)
    then some (r, false)
    else run_rounds (push_round size type (take size source)) push_rounds r

-- The overload for a span, which casts its size to uint32_t.
unfoldable pub try_push_span : Ring → List ℕ → ℕ → Option (Ring × Bool)
unfolding try_push
try_push_span r source type = try_push r (some source) (length source % u32) type

unfoldable pub pop_round : List ℕ → Ring → Round (Option Popped)
pop_round out r =
    let head = r.head_publish in
    let tail = r.tail_publish in
    let pos = head % r.capacity in
    let remaining = r.capacity - pos in
    let h = read_header r.bytes pos in
    let needed = record_size h.size in
    if head == tail
    then finish r none
    else if ltb remaining sizeof_record_header
    then retry (set_head r (head +w remaining))
    else if not (bit_and h.flags wrap_flag == 0)
    then retry (set_head r (head +w remaining))
    else if ltb remaining needed
    then finish r none
    else if ltb (tail -w head) needed
    then finish r none
    else finish (set_head r (head +w needed)) (
        some (record {
          out = fill_out out (load_bytes r.bytes (pos + sizeof_record_header) h.size);
          type = h.type;
          sequence = h.sequence;
        }))

-- Each round that goes on skips at least a byte.
unfoldable pub try_pop : Ring → List ℕ → Option (Ring × Option Popped)
try_pop r out = run_rounds (pop_round out) ((r.tail_publish -w r.head_publish) + 1) r

-- `claim` on an existing file: a producer that died between its two stores is caught up with.
unfoldable pub claim_control : Ring → Ring
claim_control r = record r { control = record c { tail_reserve = r.tail_publish } }
  where
    c : ControlBlock
    c = r.control
