-- ===== src/IpcAdapter/Latest/Thread.antt =====
-- `SharedLatestPublisher` and `SharedLatestSubscriber` of include/lf_ring/ipc_adapter.hpp: how they
-- are made, and the subscriber's thread with its start and its stop, one test or one round at a time.
use lock_free_ring_buffer.Prelude.{
  ℕ, true, false, not, List, [], ◌∷◌, Option, none, some, if◌then◌else◌,
}
use lock_free_ring_buffer.Memory.{Memory, load_bytes}
use lock_free_ring_buffer.Ring.{Ring}
use lock_free_ring_buffer.Mapping.{open_failed, Result, err, Calls, Held, Mapping}
use lock_free_ring_buffer.SharedLatest.{ReadResult, write, Look, try_read_status}
use lock_free_ring_buffer.SharedLatest.Files.{FileOutcome, claim_file, open_latest}
use lock_free_ring_buffer.IpcAdapter.{Text, topic_path}
use lock_free_ring_buffer.IpcAdapter.Queue.{Files}
use lock_free_ring_buffer.IpcAdapter.Latest.{
  Place, unstarted, check, reading, loading, sleeping, exited, LatestSubscriber, after_read,
  after_load,
}

-- The path, and what the claim of the slot gave.
pub record SharedLatestPublisher : Type 0 where
  pub path : Text
  pub latest : FileOutcome

module _ (sizeof_t : ℕ) (join : Text → Text → Text) where
  abbrev constructed : Text → Held × FileOutcome → Held × SharedLatestPublisher
  constructed path (held, o) = (held, record { path = path; latest = o })

  -- The last three arguments are those of `claim`.
  unfoldable pub new_latest_publisher :
      Calls
      → Held
      → Files
      → Text
      → Text
      → Text
      → (Ring → Ring)
      → ℕ
      → ℕ
      → Held × SharedLatestPublisher
  unfolding claim_file topic_path
  new_latest_publisher calls held files base_dir prefix topic meanwhile now threshold =
      let path = topic_path join base_dir prefix topic in
      constructed path (claim_file sizeof_t calls held (files path) meanwhile now threshold)

  abbrev open_at : Calls → Held → Option (Memory × ℕ) → Held × Result Mapping
  open_at calls held none = (held, err open_failed)
  open_at calls held (some (file, size)) = open_latest sizeof_t calls held file size

  unfoldable pub open_latest_subscriber :
      Calls → Held → Files → Text → Text → Text → Held × Result Mapping
  unfolding open_latest topic_path
  open_latest_subscriber calls held files base_dir prefix topic =
      open_at calls held (files (topic_path join base_dir prefix topic))

-- `publish`, and `try_read_once` over what its rounds load.
unfoldable pub publish : Ring → List ℕ → ℕ → Ring
publish q value now = write q value now

unfoldable pub try_read_once : ℕ → ℕ → (ℕ → Look) → ReadResult × Option (List ℕ)
unfolding try_read_status
try_read_once first threshold looks = try_read_status first threshold looks 1024

-- A new thread has a new `last_seq`.
unfoldable pub start : LatestSubscriber → LatestSubscriber
start s = if s.running then s else record s { running = true; thread = check; last_seq = 0 }

-- `stop` up to the join.
unfoldable pub request_stop : LatestSubscriber → LatestSubscriber
request_stop s = if not s.running then s else record s { running = false }

-- One step of `poll_loop`, given what a read and a load of the number find at that time.
unfoldable pub tick_at :
    Place → ReadResult × Option (List ℕ) → ℕ → LatestSubscriber → LatestSubscriber
unfolding after_read after_load
tick_at unstarted read number s = s
tick_at check read number s = record s { thread = if s.running then reading else exited }
tick_at reading read number s = after_read s read
tick_at loading read number s = after_load s number
tick_at sleeping read number s = record s { thread = check }
tick_at exited read number s = s

-- What the publisher, the subscriber's thread and the subscriber's owner do: a write or a step at some
-- time, a start or a stop.
pub data Act : Type 0 where
  write_value : List ℕ → ℕ → Act
  step : ℕ → Act
  starts : Act
  stops : Act

pub record System : Type 0 where
  pub slot : Ring
  pub subscriber : LatestSubscriber

-- What each round of a read at the time `now` loads from a slot that nobody writes meanwhile.
abbrev pub look_at : ℕ → Ring → ℕ → Look
look_at sizeof_t q now = record {
  s₁ = q.sequence;
  copy = load_bytes q.bytes 0 sizeof_t;
  s₂ = q.sequence;
  heartbeat = q.head_reserve;
  now = now;
}

module _ (sizeof_t threshold : ℕ) where
  unfoldable pub read_now : Ring → ℕ → ReadResult × Option (List ℕ)
  unfolding try_read_once
  read_now q now = try_read_once q.sequence threshold (λ i. look_at sizeof_t q now)

  unfoldable pub act : Act → System → System
  unfolding publish start request_stop tick_at read_now
  act (write_value v now) x = record x { slot = publish x.slot v now }
  act (step now) x = record x {
    subscriber = tick_at x.subscriber.thread (read_now x.slot now) x.slot.sequence x.subscriber;
  }
  act starts x = record x { subscriber = start x.subscriber }
  act stops x = record x { subscriber = request_stop x.subscriber }

  unfoldable pub acts : List Act → System → System
  unfolding act
  acts [] x = x
  acts (a ∷ rest) x = acts rest (act a x)
