-- ===== src/IpcAdapter/Poller.antt =====
-- `SpscSubscriber` of include/lf_ring/ipc_adapter.hpp: the thread that empties a queue and calls back,
-- with its start and its stop, one pop or one test at a time, between the pushes of a publisher.
pub mod Phases
pub mod Steps
pub mod Delivery
use lock_free_ring_buffer.Prelude.{
  ℕ, zero, suc, ◌≡◌, Bool, true, false, not, List, [], ◌∷◌, ◌++◌, Option, none, some, if◌then◌else◌,
}

abbrev pub prepend {ℓ} : {A : Type ℓ} → Option A → List A → List A
prepend none xs = xs
prepend (some x) xs = x ∷ xs

-- What the thread uses of its queue, and what the queue promises: values come out in the order in
-- which they were accepted, and a pop fails only on the empty queue.
pub record Channel (Q M : Type 0) : Type 1 where
  pub push : Q → M → Q × Bool
  pub pop : Q → Q × Option M
  pub contents : Q → List M
  pub Good : Q → Type 0
  pub Sized : M → Type 0
  pub push_good : (q : Q) (m : M) → Good q → Sized m → Good (push q m).0
  pub push_contents :
      (q : Q) (m : M)
      → Good q
      → Sized m
      → contents (push q m).0 ≡ (if (push q m).1 then contents q ++ m ∷ [] else contents q)
  pub pop_good : (q : Q) → Good q → Good (pop q).0
  pub pop_contents : (q : Q) → Good q → contents q ≡ prepend (pop q).1 (contents (pop q).0)
  pub pop_none : (q : Q) → Good q → (pop q).1 ≡ none → contents q ≡ []

-- Where the thread stands: not started, at the test of `running_`, in the loop that empties the
-- queue, in the timed wait, in the final loop, or returned.
pub data Phase : Type 0 where
  unstarted check : Phase
  draining : (got_any : Bool) → Phase
  sleeping final exited : Phase

-- The last field is what the callback was given.
pub record Subscriber (Q M : Type 0) : Type 0 where
  pub queue : Q
  pub running : Bool
  pub thread : Phase
  pub delivered : List M

module _ {Q M : Type 0} (c : Channel Q M) where
  unfoldable pub start : Subscriber Q M → Subscriber Q M
  start s = if s.running then s else record s { running = true; thread = check }

  -- `stop` up to the join.
  unfoldable pub request_stop : Subscriber Q M → Subscriber Q M
  request_stop s = if not s.running then s else record s { running = false }

  -- After a pop: the callback and the one place, or the other place.
  abbrev pub handed : Subscriber Q M → Phase → Phase → Q × Option M → Subscriber Q M
  handed s more over (q, none) = record s { queue = q; thread = over }
  handed s more over (q, some m) = record s {
    queue = q;
    thread = more;
    delivered = s.delivered ++ m ∷ [];
  }

  unfoldable pub tick_at : Phase → Subscriber Q M → Subscriber Q M
  tick_at unstarted s = s
  tick_at check s = record s { thread = if s.running then draining false else final }
  tick_at (draining got_any) s =
      handed s (draining true) (if not got_any then sleeping else check) (c.pop s.queue)
  tick_at sleeping s = record s { thread = check }
  tick_at final s = handed s final exited (c.pop s.queue)
  tick_at exited s = s

  -- One step of `poll_loop`. The wait ends by its time or by the notification.
  unfoldable pub tick : Subscriber Q M → Subscriber Q M
  unfolding tick_at
  tick s = tick_at s.thread s

  unfoldable pub ticks : ℕ → Subscriber Q M → Subscriber Q M
  ticks zero s = s
  ticks (suc n) s = ticks n (tick s)

-- What happens while the thread runs: a publisher's push, or a step of the thread.
pub data Event (M : Type 0) : Type 0 where
  publish : M → Event M
  turn : Event M

module _ {Q M : Type 0} (c : Channel Q M) where
  abbrev pub note : Bool → M → List M → List M
  note true m ms = m ∷ ms
  note false m ms = ms

  -- The subscriber afterwards and the values that were accepted.
  unfoldable pub run : Subscriber Q M → List (Event M) → Subscriber Q M × List M
  run s [] = (s, [])
  run s (publish m ∷ es) =
      let (q, ok) = c.push s.queue m in
      let (s', accepted) = run (record s { queue = q }) es in (s', note ok m accepted)
  run s (turn ∷ es) = run (tick c s) es
