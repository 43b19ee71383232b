-- ===== src/Tests/Threads.antt =====
-- Two producers, one of which overtakes the other between its exchange and its publication, and the
-- stop of a thread that polls a slot.
use lock_free_ring_buffer.Prelude.{◌≡◌, refl, inl, List, [], ◌∷◌, none, arith, true, false}
use lock_free_ring_buffer.Layout.{align_up}
use lock_free_ring_buffer.Record.{record_size}
use lock_free_ring_buffer.Ring.{Ring}
use lock_free_ring_buffer.Ring.Inv.{Inv}
use lock_free_ring_buffer.Mapping.Open.{empty_ring}
use lock_free_ring_buffer.Mpsc.{reserve, publish}
use lock_free_ring_buffer.Mpsc.Interleave.{
  Parcel, Pending, State, push, load_head, exchange, fills, Reach, here, later, initial,
  after_reserve, after_fill, needed_of,
}
use lock_free_ring_buffer.Mpsc.Interleave.Order.{Ordered, many_producers_fifo, publication_in_turn}
use lock_free_ring_buffer.IpcAdapter.Latest.{reading}
use lock_free_ring_buffer.IpcAdapter.Latest.Thread.{Act, write_value, step, System}

abbrev fresh : Ring
fresh = empty_ring 64

fresh-Inv : Inv fresh []
fresh-Inv = omega arith

abbrev slow : Parcel
slow = (7, 1 ∷ 2 ∷ 3 ∷ [])

abbrev quick : Parcel
quick = (8, 9 ∷ [])

abbrev looked : State
looked = record (initial fresh) { looks = 0 ∷ [] }

abbrev one_reserved : State
one_reserved = after_reserve looked slow (reserve 0 fresh (needed_of slow))

abbrev two_reserved : State
two_reserved = after_reserve one_reserved quick (reserve 0 one_reserved.ring (needed_of quick))

abbrev slow_place : Pending
slow_place = record {
  place = record { start = 0; padding = 0; needs_wrap_record = false };
  parcel = slow;
  filled = false;
}

abbrev quick_place : Pending
quick_place = record {
  place = record { start = 24; padding = 0; needs_wrap_record = false };
  parcel = quick;
  filled = false;
}

abbrev overtaken : State
overtaken = after_fill two_reserved (slow_place ∷ []) quick_place []

run_to_overtaken : Reach (initial fresh) overtaken
unfolding reserve record_size align_up
run_to_overtaken =
    later
      (later
        (later (later here (omega arith, omega arith) (push load_head)) (omega arith, omega arith)
          (push (exchange 0 slow (inl refl) (omega arith) (omega arith) (omega arith))))
        (omega arith, omega arith)
        (push (exchange 0 quick (inl refl) (omega arith) (omega arith) (omega arith))))
      (omega arith, omega arith) (push (fills (slow_place ∷ []) quick_place [] refl refl))

many_producers_fifo_example : Ordered fresh [] overtaken
many_producers_fifo_example = many_producers_fifo fresh [] overtaken fresh-Inv refl run_to_overtaken

-- The quick producer waits for the slow one.
publication_in_turn_example : publish overtaken.ring quick_place.place (needed_of quick) ≡ none
unfolding reserve record_size align_up
publication_in_turn_example =
    publication_in_turn fresh [] overtaken (slow_place ∷ []) (record quick_place { filled = true })
      [] fresh-Inv refl run_to_overtaken refl

abbrev before_read : System
before_read = record {
  slot = record (empty_ring 8) {
    control = record {
      head_reserve = 900;
      head_publish = 0;
      tail_reserve = 0;
      tail_publish = 0;
      sequence = 4;
    };
    bytes = λ i. 7;
  };
  subscriber = record { running = true; thread = reading; value = []; last_seq = 2; calls = [] };
}

-- A write falls between its read and its load of the number.
abbrev after_stop : List Act
after_stop =
    step 1000 ∷ write_value (8 ∷ []) 1001 ∷ step 1002 ∷ step 1003 ∷ step 1004 ∷ step 1005 ∷ []
