-- ===== src/IpcAdapter/Latest.antt =====
-- `SharedLatestSubscriber::poll_loop` of include/lf_ring/ipc_adapter.hpp, with both callbacks set, in its
-- accesses to the slot: the read of the value, and the later load of the number.
pub mod Thread
pub mod Missed
pub mod Stop
use lock_free_ring_buffer.Prelude.{
  ℕ, Bool, List, [], ◌∷◌, ◌++◌, Option, none, some, not, ◌==◌, if◌then◌else◌,
}
use lock_free_ring_buffer.SharedLatest.{ReadResult, success, empty, contended, writer_dead}

pub data Event : Type 0 where
  message : List ℕ → Event
  death : Event

-- Where the thread stands: not started, at the test of `running_`, before its read, before its load of
-- the number, in the timed wait, or returned.
pub data Place : Type 0 where
  unstarted check reading loading sleeping exited : Place

-- The fields, with `value` and `last_seq` of the thread and, last, the callbacks made.
pub record LatestSubscriber : Type 0 where
  pub running : Bool
  pub thread : Place
  pub value : List ℕ
  pub last_seq : ℕ
  pub calls : List Event

-- The switch on what `try_read` returned. A read without success may leave bytes in `value` that are no
-- value; they are not looked at before the next success overwrites them.
unfoldable pub after_read : LatestSubscriber → ReadResult × Option (List ℕ) → LatestSubscriber
after_read s (success, some v) = record s { thread = loading; value = v }
after_read s (success, none) = record s { thread = loading }
after_read s (writer_dead, o) = record s { thread = sleeping; calls = s.calls ++ death ∷ [] }
after_read s (empty, o) = record s { thread = sleeping }
after_read s (contended, o) = record s { thread = sleeping }

-- The rest of the case of a success, with the number that `raw_sequence` gave.
unfoldable pub after_load : LatestSubscriber → ℕ → LatestSubscriber
after_load s seq =
    if not (seq == s.last_seq)
    then record s { thread = sleeping; last_seq = seq; calls = s.calls ++ message s.value ∷ [] }
    else record s { thread = sleeping }
