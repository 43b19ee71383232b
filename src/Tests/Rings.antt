-- ===== src/Tests/Rings.antt =====
-- The byte rings of 64 bytes, their records, and what is built on them.
use lock_free_ring_buffer.Prelude.{
  ◌<◌, true, ◌++◌, length, ◌+◌, ℕ, ◌-◌, ◌≡◌, refl, List, [], ◌∷◌, Option, none, some, arith, Bool,
  replicate, ◌∙◌, ap, sym,
}
use lock_free_ring_buffer.Layout.{align_up, wrap_flag}
use lock_free_ring_buffer.Word.{u64, u32, u16}
use lock_free_ring_buffer.Record.{
  Message, record_size, RecordHeader, write_record, write_record-RecordAt,
}
use lock_free_ring_buffer.Ring.{Ring, set_tail, set_head}
use lock_free_ring_buffer.Ring.Loop.{run_rounds}
use lock_free_ring_buffer.Ring.Spans.{Span, message, messages}
use lock_free_ring_buffer.Ring.Inv.{Inv, HasRoom}
use lock_free_ring_buffer.Mapping.Open.{empty_ring}
use lock_free_ring_buffer.Spsc.{try_push, try_pop, push_round, append_record}
use lock_free_ring_buffer.Spsc.Push.{Pushed, try_push_refines}
use lock_free_ring_buffer.Spsc.Pop.{Drained, try_pop_refines}
use lock_free_ring_buffer.Spsc.History.{Call, push, pop, Traced, run, run_fifo}
use lock_free_ring_buffer.Mpmc
use lock_free_ring_buffer.Mpmc.Race.{stale_tail_pops_again}
use lock_free_ring_buffer.Mpmc.Pop.{lone_pop_refines}
use lock_free_ring_buffer.Mpsc
use lock_free_ring_buffer.Mpsc.Push.{lone_push_refines}
use lock_free_ring_buffer.TypedMessage.{Reader, try_pop_typed}
use lock_free_ring_buffer.TypedMessage.Pop.{try_pop_typed_lem}
use lock_free_ring_buffer.IpcAdapter.{drain}
use lock_free_ring_buffer.IpcAdapter.Poller.{draining}
use lock_free_ring_buffer.IpcAdapter.Bytes.{ByteSubscriber, request_stop, ticks}
use lock_free_ring_buffer.IpcAdapter.Bytes.Stop.{Ended, stop-Ended}
use lock_free_ring_buffer.IpcAdapter.Drain.{Emptied, deliveries, drain_keeps_stale_bytes}

abbrev fresh : Ring
fresh = empty_ring 64

fresh-Inv : Inv fresh []
fresh-Inv = omega arith

abbrev pub three : List ℕ
three = 1 ∷ 2 ∷ 3 ∷ []

abbrev pushed_once : Pushed fresh [] 7 three (try_push fresh (some three) 3 7)
pushed_once = try_push_refines fresh [] 7 three fresh-Inv (omega arith) (omega arith) (omega arith)

abbrev one : List ℕ
one = 9 ∷ []

pushed_once-HasRoom : HasRoom pushed_once.final
pushed_once-HasRoom =
    omega (arith, pushed_once.inv.window, pushed_once.head_same, pushed_once.capacity_same)

try_push_refines_example :
    Pushed pushed_once.final pushed_once.spans 8 one (try_push pushed_once.final (some one) 1 8)
try_push_refines_example =
    try_push_refines pushed_once.final pushed_once.spans 8 one pushed_once.inv pushed_once-HasRoom
      (omega arith) (omega arith)

abbrev pushed_twice :
    Pushed pushed_once.final pushed_once.spans 8 one (try_push pushed_once.final (some one) 1 8)
pushed_twice =
    try_push_refines pushed_once.final pushed_once.spans 8 one pushed_once.inv pushed_once-HasRoom
      (omega arith) (omega arith)

try_pop_refines_example :
    Drained pushed_twice.final pushed_twice.spans [] (try_pop pushed_twice.final [])
try_pop_refines_example = try_pop_refines pushed_twice.final pushed_twice.spans [] pushed_twice.inv

abbrev calls : List Call
calls = push 7 three ∷ push 8 one ∷ pop ∷ pop ∷ pop ∷ []

run_fifo_example : Traced fresh [] (run fresh calls)
run_fifo_example =
    run_fifo fresh [] calls fresh-Inv (omega arith, omega arith, (omega arith, omega arith, tt))
      (omega arith, omega arith)

abbrev pub first : Message
first = record { type = 7; sequence = 1; payload = three }

abbrev second : Message
second = record { type = 8; sequence = 2; payload = one }

held_once : messages pushed_once.spans ≡ first ∷ []
unfolding record_size align_up
held_once = pushed_once.contents

abbrev tail_of : Option (Ring × Bool) → ℕ
tail_of none = 0
tail_of (some (r, ok)) = r.tail_publish

first_tail : pushed_once.final.tail_publish ≡ 24
unfolding try_push run_rounds push_round append_record set_tail record_size align_up
first_tail = ap tail_of (sym pushed_once.returned)

first_number : pushed_once.final.sequence ≡ 1
unfolding record_size align_up
first_number = pushed_once.number_same

held_twice : messages pushed_twice.spans ≡ first ∷ second ∷ []
unfolding record_size align_up
held_twice =
    pushed_twice.contents
    ∙ rw (held_once, first_number, first_tail, pushed_once.head_same, pushed_once.capacity_same)
        refl

-- The callback is given 9 2 3 for the message 9.
drain_keeps_stale_bytes_example :
    Emptied (drain 3 pushed_twice.final []) ((three, 7) ∷ (9 ∷ 2 ∷ 3 ∷ [], 8) ∷ [])
drain_keeps_stale_bytes_example =
    drain_keeps_stale_bytes pushed_twice.final pushed_twice.spans first second pushed_twice.inv
      held_twice (omega arith)

-- A reader whose last message had four bytes.
abbrev reader : Reader
reader = record { buffer = replicate 4 0; type = 0; sequence = 0 }

-- The message of three bytes is lost to it.
try_pop_typed_lem_example :
    (final : Ring) × (t' : Reader) × (ts : List Span) × (try_pop_typed pushed_twice.final reader 7 3
      ≡ some (final, t', none))
    × Inv final ts
    × (messages ts ≡ second ∷ [])
try_pop_typed_lem_example =
    try_pop_typed_lem pushed_twice.final pushed_twice.spans reader first (second ∷ []) 3
      pushed_twice.inv held_twice refl

abbrev full_header : RecordHeader
full_header = record { size = u32 - 1; type = u16 - 1; flags = wrap_flag; sequence = u64 - 1 }

lone_push_refines_example : Pushed fresh [] 7 three (Mpsc.try_push fresh (some three) 3 7)
lone_push_refines_example =
    lone_push_refines fresh [] 7 three fresh-Inv refl (omega arith) (omega arith) (omega arith)

abbrev reserved_head_of : Option (Ring × Bool) → ℕ
reserved_head_of none = 0
reserved_head_of (some (r, ok)) = r.head_reserve

first_head : pushed_once.final.head_reserve ≡ pushed_once.final.head_publish
unfolding try_push run_rounds push_round append_record set_tail record_size align_up
first_head = ap reserved_head_of (sym pushed_once.returned) ∙ sym pushed_once.head_same

lone_pop_refines_example :
    Drained pushed_once.final pushed_once.spans [] (Mpmc.try_pop pushed_once.final [])
lone_pop_refines_example =
    lone_pop_refines pushed_once.final pushed_once.spans [] pushed_once.inv first_head

-- In its loop, with two messages in the ring.
abbrev listening : ByteSubscriber
listening = record {
  ring = pushed_twice.final;
  running = true;
  thread = draining true;
  buf = 0 ∷ [];
  delivered = [];
}

stop-Ended_example :
    Ended
      ([] ++ deliveries (0 ∷ []) (messages pushed_twice.spans))
      (ticks (length (messages pushed_twice.spans) + 4) (request_stop listening))
stop-Ended_example = stop-Ended listening pushed_twice.spans pushed_twice.inv refl tt

-- A ring of 24 bytes that one message fills.
abbrev pub brimming : Ring
brimming = record {
  control = record {
    head_reserve = 0;
    head_publish = 0;
    tail_reserve = 24;
    tail_publish = 24;
    sequence = 1;
  };
  bytes = write_record (λ i. 0) 0 3 7 three 1;
  capacity = 24;
}

pub brimming-Inv : Inv brimming (message first ∷ [])
unfolding record_size align_up
brimming-Inv = record {
  positive = omega arith;
  window = omega arith;
  word = omega arith;
  number = omega arith;
  chain = (
    record {
      at = write_record-RecordAt (λ i. 0) 0 7 three 1 (omega arith) (omega arith) (omega arith);
      small = omega arith;
      within = omega arith;
    },
    refl,
  );
}

stale_tail_pops_again_example :
    let e = set_head brimming 24 in
    Inv e []
    × (Mpmc.decide 0 24 e ≡ Mpmc.take_to (24 + record_size 3) 3)
    × (Mpmc.copy e 24 3 [] ≡ record { out = three; type = 7; sequence = 1 })
    × (broken : Ring) × (Mpmc.advance e (24 + record_size 3) ≡ some broken)
    × (broken.tail_publish < broken.head_publish)
stale_tail_pops_again_example =
    stale_tail_pops_again brimming first [] 0 brimming-Inv (omega arith) refl (omega arith)
