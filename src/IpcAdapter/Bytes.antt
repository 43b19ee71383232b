-- ===== src/IpcAdapter/Bytes.antt =====
-- `SpscBytePublisher` and `SpscByteSubscriber` of include/lf_ring/ipc_adapter.hpp, the thread one pop
-- or one test at a time.
pub mod Stop
use lock_free_ring_buffer.Prelude.{
  ℕ, zero, suc, ◌+◌, ◌-◌, ◌≤◌, ◌<◌, ◌≡◌, refl, sym, ap, ◌∙◌, subst, Bool, true, false, not, List,
  [], ◌∷◌, ◌++◌, length, Option, none, some, if◌then◌else◌, append-nil, append_assoc, arith,
}
use lock_free_ring_buffer.Memory.{Memory}
use lock_free_ring_buffer.Layout.{ClaimResult, created}
use lock_free_ring_buffer.Record.{Message}
use lock_free_ring_buffer.Ring.{Ring}
use lock_free_ring_buffer.Ring.Spans.{Span, messages}
use lock_free_ring_buffer.Ring.Inv.{Inv}
use lock_free_ring_buffer.Ring.Loop.{Popped}
use lock_free_ring_buffer.Mapping.{open_failed, Result, ok, err, Calls, Held, Mapping}
use lock_free_ring_buffer.Spsc.{try_push, try_push_span, try_pop}
use lock_free_ring_buffer.Spsc.Pop.{Drained, taken, left, try_pop_refines}
use lock_free_ring_buffer.RingFiles.{claim_spsc, open_spsc}
use lock_free_ring_buffer.IpcAdapter.{Text, topic_path, Delivery}
use lock_free_ring_buffer.IpcAdapter.Drain.{deliveries}
use lock_free_ring_buffer.IpcAdapter.Poller.{
  Phase, unstarted, check, draining, sleeping, final, exited,
}
use lock_free_ring_buffer.IpcAdapter.Queue.{Files}

-- The publisher's fields, or the error that its construction throws.
pub record SpscBytePublisher : Type 0 where
  pub path : Text
  pub last_claim : Option ClaimResult
  pub ring : Result Ring

module _ (join : Text → Text → Text) where
  abbrev constructed : Text → Held × Result (Ring × ClaimResult) → Held × SpscBytePublisher
  constructed path (held, ok (r, how)) =
      (held, record { path = path; last_claim = some how; ring = ok r })
  constructed path (held, err e) = (held, record { path = path; last_claim = none; ring = err e })

  unfoldable pub new_byte_publisher :
      Calls → Held → Files → Text → Text → Text → ℕ → Held × SpscBytePublisher
  unfolding claim_spsc topic_path
  new_byte_publisher calls held files base_dir prefix topic capacity =
      let path = topic_path join base_dir prefix topic in
      constructed path (claim_spsc calls held (files path) capacity)

  abbrev open_at : Calls → Held → Option (Memory × ℕ) → Held × Result Mapping
  open_at calls held none = (held, err open_failed)
  open_at calls held (some (file, size)) = open_spsc calls held file size

  unfoldable pub open_byte_subscriber :
      Calls → Held → Files → Text → Text → Text → Held × Result Mapping
  unfolding open_spsc topic_path
  open_byte_subscriber calls held files base_dir prefix topic =
      open_at calls held (files (topic_path join base_dir prefix topic))

-- The two overloads of `publish`.
unfoldable pub publish : Ring → Option (List ℕ) → ℕ → ℕ → Option (Ring × Bool)
publish r data_ptr size type = try_push r data_ptr size type

unfoldable pub publish_span : Ring → List ℕ → ℕ → Option (Ring × Bool)
publish_span r payload type = try_push_span r payload type

-- The fields, with the vector that the thread keeps and, last, what the callback was given.
pub record ByteSubscriber : Type 0 where
  pub ring : Ring
  pub running : Bool
  pub thread : Phase
  pub buf : List ℕ
  pub delivered : List Delivery

-- A new thread has a new vector.
unfoldable pub start : ByteSubscriber → ByteSubscriber
start s = if s.running then s else record s { running = true; thread = check; buf = [] }

-- `stop` up to the join.
unfoldable pub request_stop : ByteSubscriber → ByteSubscriber
request_stop s = if not s.running then s else record s { running = false }

-- After a pop: the callback and the one place, or the other place; no result is a pop that has not
-- returned.
abbrev pub handed : ByteSubscriber → Phase → Phase → Option (Ring × Option Popped) → ByteSubscriber
handed s more over none = s
handed s more over (some (r, none)) = record s { ring = r; thread = over }
handed s more over (some (r, some p)) = record s {
  ring = r;
  thread = more;
  buf = p.out;
  delivered = s.delivered ++ (p.out, p.type) ∷ [];
}

unfoldable pub tick_at : Phase → ByteSubscriber → ByteSubscriber
tick_at unstarted s = s
tick_at check s = record s { thread = if s.running then draining false else final }
tick_at (draining got_any) s =
    handed s (draining true) (if not got_any then sleeping else check) (try_pop s.ring s.buf)
tick_at sleeping s = record s { thread = check }
tick_at final s = handed s final exited (try_pop s.ring s.buf)
tick_at exited s = s

-- One step of `poll_loop`.
unfoldable pub tick : ByteSubscriber → ByteSubscriber
unfolding tick_at
tick s = tick_at s.thread s

unfoldable pub ticks : ℕ → ByteSubscriber → ByteSubscriber
ticks zero s = s
ticks (suc n) s = ticks n (tick s)
