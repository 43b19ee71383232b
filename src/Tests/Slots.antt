-- ===== src/Tests/Slots.antt =====
-- The layout, the mapping, the fixed slots, the latest value and the names of topics.
use lock_free_ring_buffer.Prelude.{
  ℕ, ◌+◌, ◌-◌, ◌<◌, ◌≡◌, refl, [], ◌∷◌, ◌++◌, none, some, arith, true, false,
}
use lock_free_ring_buffer.Word.{u64, pow2, pow2_pos}
use lock_free_ring_buffer.Memory.{Memory, load_bytes}
use lock_free_ring_buffer.Layout.{Header, magic, version, flag_spsc, flag_fixed_spsc, resumed}
use lock_free_ring_buffer.Ring.{Ring}
use lock_free_ring_buffer.Mapping.{
  Calls, Held, ok, err, mode_mismatch, capacity_mismatch, zeroes, create_mapping, open_mapping,
  view, read_file_header, write_file_header,
}
use lock_free_ring_buffer.Mapping.FileHeader.{read-write_file_header}
use lock_free_ring_buffer.Mapping.Open.{
  works, holding, Balanced, new_mapping, empty_ring, create-open, create_mapping-Balanced,
  open_mapping-Balanced, Accepted, mapping_of, open-accepts_overflow,
}
use lock_free_ring_buffer.Mapping.Handle.{
  Handle, destroy, move_assign, move_construct, released_once,
}
use lock_free_ring_buffer.SpscQueue.{try_push, try_pop}
use lock_free_ring_buffer.SpscQueue.Refine.{
  Inv, contents, fifo_push, fifo_pop, push_refines_fifo, pop_refines_fifo,
}
use lock_free_ring_buffer.SpscQueue.Open.{create, open_queue, claim, new_queue, create-open_queue}
use lock_free_ring_buffer.SharedLatest.{
  Look, is_stale, try_read_status, contended, writer_dead, claimed, lost_race, recover,
}
use lock_free_ring_buffer.SharedLatest.Status.{
  Reported, try_read_status-Reported, dead_writer_reported,
}
use lock_free_ring_buffer.SharedLatest.Claim.{Claimed, claim-Claimed}
use lock_free_ring_buffer.SharedLatest.Seqlock.{
  State, reading, returned, initial, Reach, here, later, load_even, read_byte, unchanged,
}
use lock_free_ring_buffer.SharedLatest.Seqlock.Inv.{
  Newest, Committed, read_is_last_write, returned-Committed,
}
use lock_free_ring_buffer.SharedLatest.Seqlock.Recovery.{Lives, written, recovery_tears}
use lock_free_ring_buffer.IpcAdapter.{Text}
use lock_free_ring_buffer.IpcAdapter.Latest.{message, reading}
use lock_free_ring_buffer.IpcAdapter.Latest.Thread.{System}
use lock_free_ring_buffer.IpcAdapter.Latest.Missed.{
  called, written_before, written_between, written_in_between,
}

abbrev nothing : Held
nothing = record { fds = 3; maps = 0 }

create-open_example :
    (create_mapping works nothing 100 flag_spsc ≡ (holding nothing, ok (new_mapping 104 flag_spsc)))
    × (view (new_mapping 104 flag_spsc) ≡ empty_ring 104)
    × (open_mapping works nothing (new_mapping 104 flag_spsc).file 488 flag_fixed_spsc
        ≡ (nothing, err mode_mismatch))
create-open_example =
    create-open nothing 100 flag_spsc flag_fixed_spsc (omega arith) (omega arith) (omega arith)

abbrev no_maps : Calls
no_maps = record { opens = true; truncates = true; stats = true; maps = false }

create_mapping-Balanced_example : Balanced nothing (create_mapping no_maps nothing 100 flag_spsc)
create_mapping-Balanced_example = create_mapping-Balanced no_maps nothing 100 flag_spsc

open_mapping-Balanced_example : Balanced nothing (open_mapping works nothing zeroes 512 flag_spsc)
open_mapping-Balanced_example = open_mapping-Balanced works nothing zeroes 512 flag_spsc

-- A ring of 16 bytes, eight bytes before the end of the address space.
abbrev wrapping : Header
wrapping = record {
  magic_number = magic;
  version_number = version;
  header_size = 48;
  capacity_bytes = 16;
  control_offset = 64;
  ring_offset = u64 - 8;
  align = 8;
  flags = flag_spsc;
}

abbrev wrapping_file : Memory
wrapping_file = write_file_header zeroes wrapping

wrapping-back : read_file_header wrapping_file ≡ wrapping
wrapping-back = read-write_file_header zeroes wrapping (omega arith)

wrapping-Accepted : Accepted wrapping_file 512 flag_spsc
wrapping-Accepted = record {
  long_enough = omega arith;
  magic_right = rw wrapping-back refl;
  version_right = rw wrapping-back refl;
  mode_right = rw wrapping-back refl;
  ring_passes = rw wrapping-back (omega arith);
  control_passes = rw wrapping-back (omega arith);
}

open-accepts_overflow_example :
    (open_mapping works nothing wrapping_file 512 flag_spsc
      ≡ (holding nothing, ok (mapping_of wrapping_file 512)))
    × (512 < (mapping_of wrapping_file 512).ring_offset + (mapping_of wrapping_file 512).capacity)
open-accepts_overflow_example =
    open-accepts_overflow nothing wrapping_file 512 flag_spsc wrapping-Accepted (omega arith)
      (rw wrapping-back (omega arith))

-- Two slots of a byte each; the tail has passed the end of its 64 bits, and the head has not.
abbrev queue : Ring
queue = record {
  control = record {
    head_reserve = 0;
    head_publish = u64 - 1;
    tail_reserve = 0;
    tail_publish = 0;
    sequence = 0;
  };
  bytes = λ i. i + 5;
  capacity = 8;
}

queue-Inv : Inv 1 queue
queue-Inv = record {
  width = omega arith;
  head_word = omega arith;
  tail_word = omega arith;
  within = omega (arith, pow2_pos 1);
}

push_refines_fifo_example :
    let (q', done) = try_push (pow2 1) 1 queue (9 ∷ []) in
    ((contents 1 1 q', done) ≡ fifo_push (pow2 1) (contents 1 1 queue) (9 ∷ [])) × Inv 1 q'
push_refines_fifo_example = push_refines_fifo 1 1 queue (9 ∷ []) queue-Inv refl

pop_refines_fifo_example :
    let (q', out) = try_pop (pow2 1) 1 queue in
    ((contents 1 1 q', out) ≡ fifo_pop (contents 1 1 queue)) × Inv 1 q'
pop_refines_fifo_example = pop_refines_fifo 1 1 queue queue-Inv

-- Four slots of three bytes: 12 bytes, rounded up to 16.
create-open_queue_example :
    (create 4 3 works nothing ≡ (holding nothing, ok (new_queue 4 3)))
    × (view (new_queue 4 3) ≡ empty_ring 16)
    × (open_queue 4 3 works nothing (new_queue 4 3).file (new_queue 4 3).mapping_size
        ≡ (nothing, err capacity_mismatch))
    × (claim 4 3 works nothing (some ((new_queue 4 3).file, (new_queue 4 3).mapping_size))
        ≡ (nothing, err capacity_mismatch, resumed))
create-open_queue_example = create-open_queue 4 3 nothing (omega arith) (omega arith)

-- A writer that is in its second write since the time 1.
abbrev stuck : ℕ → Look
stuck i = record { s₁ = 3; copy = []; s₂ = 3; heartbeat = 1; now = 1000 }

-- A writer that is in its first write.
abbrev unborn : ℕ → Look
unborn i = record { s₁ = 1; copy = []; s₂ = 1; heartbeat = 0; now = 1000 }

try_read_status-Reported_example : Reported 3 500 stuck 1024 (try_read_status 3 500 stuck 1024)
try_read_status-Reported_example = try_read_status-Reported 3 500 1024 stuck

dead_writer_reported_example : try_read_status 3 500 stuck 1024 ≡ (writer_dead, none)
dead_writer_reported_example =
    dead_writer_reported 500 stuck (λ i. refl) 3 1024 (omega arith) (λ i. refl) (omega arith)

-- A slot in whose second write the writer died.
abbrev abandoned : Ring
abandoned = record {
  control = record {
    head_reserve = 1;
    head_publish = 0;
    tail_reserve = 0;
    tail_publish = 0;
    sequence = 3;
  };
  bytes = λ i. i;
  capacity = 8;
}

claim-Claimed_example :
    Claimed abandoned abandoned 1000 500
      (lock_free_ring_buffer.SharedLatest.claim abandoned abandoned 1000 500)
claim-Claimed_example = claim-Claimed abandoned abandoned 1000 500

abbrev slot : State
slot = initial 1 8 2 (λ i. 5) ((5 ∷ []) ∷ [])

-- The reader has copied the one byte of the value.
abbrev copied : State
copied = record slot { reader = reading 0 2 (5 ∷ []) }

copied-Reach : Reach 1 8 slot copied
copied-Reach = later (later here (load_even refl (omega arith) refl)) (read_byte refl (omega arith))

slot-Newest : Newest (load_bytes (λ i. 5) 0 1) ((5 ∷ []) ∷ [])
unfolding load_bytes
slot-Newest = refl

read_is_last_write_example : Newest (5 ∷ []) copied.history
read_is_last_write_example =
    read_is_last_write 1 8 2 ((5 ∷ []) ∷ []) (λ i. 5) refl slot-Newest copied-Reach (omega arith)
      refl refl refl

returned-Committed_example : Committed (5 ∷ []) ((5 ∷ []) ∷ [])
returned-Committed_example =
    returned-Committed 1 8 2 ((5 ∷ []) ∷ []) (λ i. 5) refl slot-Newest
      (later copied-Reach (unchanged refl refl refl)) (omega arith) refl

recovery_tears_example :
    (y : State) × Lives 2 1 (written 1 2) y
    × (y.reader ≡ returned (1 ∷ 4 ∷ []))
    × (¬ Committed (1 ∷ 4 ∷ []) y.history)
recovery_tears_example = recovery_tears 1 2 3 4 (omega arith) (omega arith) (omega arith)

abbrev joined : Text → Text → Text
joined a b = a ++ b'/' ∷ b

-- Its thread has delivered the number 2, and the slot holds the number 4.
abbrev polling : System
polling = record {
  slot = record (empty_ring 8) {
    control = record {
      head_reserve = 900;
      head_publish = 0;
      tail_reserve = 0;
      tail_publish = 0;
      sequence = 4;
    };
    bytes = λ i. 7;
  };
  subscriber = record { running = true; thread = reading; value = []; last_seq = 2; calls = [] };
}

written_in_between_example :
    (called 1 500 (written_before 1 500 (8 ∷ []) 1000 1001 1002 (1003 ∷ 1004 ∷ 1005 ∷ [])) polling
      ≡ message (8 ∷ []) ∷ [])
    × (called 1 500
          (written_between 1 500 (8 ∷ []) 1000 1001 1002 (1003 ∷ 1004 ∷ 1005 ∷ []))
          polling
        ≡ message (7 ∷ []) ∷ [])
unfolding load_bytes
written_in_between_example =
    written_in_between 1 500 polling (8 ∷ []) 1000 1001 1002 (1003 ∷ 1004 ∷ 1005 ∷ []) refl refl
      (omega arith) (omega arith) refl (omega arith)

abbrev owner : Handle
owner = record {
  fd = some 3;
  mapping = some 4096;
  mapping_size = 488;
  header = some 4096;
  control = some 4160;
  ring = some 4480;
  capacity = 104;
}

released_once_example :
    let (this', other', made) = move_assign false owner owner in
    let (third, rest, none_made) = move_construct owner in
    (made ++ destroy this' ++ destroy other' ≡ destroy owner ++ destroy owner)
    × (none_made ++ destroy third ++ destroy rest ≡ destroy owner)
    × (this' ≡ owner)
    × (third ≡ owner)
    × (move_assign true owner owner ≡ (owner, owner, []))
released_once_example = released_once owner owner
