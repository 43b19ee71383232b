-- ===== src/Futex/Wakeups.antt =====
-- `write_and_notify`, and the notification of `claim`, of include/lf_ring/shared_latest.hpp run with a
-- reader that takes a snapshot of the counter and waits, in any interleaving of their accesses.
use lock_free_ring_buffer.Prelude.{
  ℕ, ◌+◌, ◌%◌, ◌<◌, ◌≡◌, refl, ap, subst, inl, inr, arith, Bool, true, false, Option, none, some,
  Bool-cases,
}
use native.Mathlib.Decide.{ℕ_discrete}
use lock_free_ring_buffer.Word.{u64, u32, ◌+w◌}
use lock_free_ring_buffer.Futex.{
  Kernel, Documented, futex_load, futex_wait_timeout, futex_wake_all, timespec, Answer, returned,
}

-- Between two notifications, or after the `fetch_add` of one and before its wake.
pub data Notifier : Type 0 where
  quiet added : Notifier

-- Elsewhere, with a snapshot, in the wait for another counter, or returned from it.
pub data Waiter : Type 0 where
  away : Waiter
  holding waiting : (seen : ℕ) → Waiter
  back : Bool → Waiter

-- The last field is no part of the program: the notifications since the snapshot.
pub record State (K : Type 0) : Type 0 where
  pub kernel_state : K
  pub counter : ℕ
  pub notifier : Notifier
  pub waiter : Waiter
  pub since : ℕ

module _ {K : Type 0} (kernel : Kernel K) where
  pub data Step (x : State K) : State K → Type 0 where
    -- `notify_word().fetch_add(1)`
    add :
        x.notifier ≡ quiet
        → Step x (record x { counter = x.counter +w 1; notifier = added; since = x.since + 1 })
    wake :
        x.notifier ≡ added
        → Step x
            (record x { kernel_state = futex_wake_all kernel x.kernel_state; notifier = quiet })
    -- `notify_counter()`
    snapshot : Step x (record x { waiter = holding (futex_load x.counter); since = 0 })
    wait_returns :
        {seen : ℕ} {k : K} {b : Bool} (timeout : ℕ)
        → x.waiter ≡ holding seen
        → futex_wait_timeout kernel x.kernel_state x.counter seen timeout ≡ (k, some b)
        → Step x (record x { kernel_state = k; waiter = back b })
    wait_sleeps :
        {seen : ℕ} {k : K} (timeout : ℕ)
        → x.waiter ≡ holding seen
        → futex_wait_timeout kernel x.kernel_state x.counter seen timeout ≡ (k, none)
        → Step x (record x { kernel_state = k; waiter = waiting seen })
    wakes_up :
        {seen : ℕ}
        → x.waiter ≡ waiting seen
        → kernel.asleep x.kernel_state ≡ false
        → Step x (record x { waiter = back true })
    times_out : {seen : ℕ} → x.waiter ≡ waiting seen → Step x (record x { waiter = back false })

  pub data Reach (x : State K) : State K → Type 0 where
    here : Reach x x
    later : {y z : State K} → Reach x y → Step y z → Reach x z

  -- A snapshot and the notifications since make the counter's lower half.
  abbrev Counted : ℕ → ℕ → ℕ → Type 0
  Counted seen since counter = (seen < u32) × ((seen + since) % u32 ≡ counter % u32)

  abbrev WaiterAt : State K → Waiter → Type 0
  WaiterAt x away = Unit
  WaiterAt x (holding seen) = Counted seen x.since x.counter
  WaiterAt x (waiting seen) =
      Counted seen x.since x.counter
      × (x.notifier ≡ quiet → kernel.asleep x.kernel_state ≡ true → x.counter % u32 ≡ seen)
  WaiterAt x (back b) = Unit

  pub record Inv (x : State K) : Type 0 where
    pub word : x.counter < u64
    pub waiter_at : WaiterAt x x.waiter

  at : {x : State K} {w : Waiter} → Inv x → x.waiter ≡ w → WaiterAt x w
  at {x} i e = subst (WaiterAt x) e i.waiter_at

  -- The call's result is none only where the kernel has no answer.
  answered : (p : K × Option Answer) → (returned p).1 ≡ none → p.1 ≡ none
  answered (k, none) e = refl
  answered (k, some a) e = cc

  documented_wake : {b : Bool} → b ≡ false → b ≡ true → ⊥
  documented_wake p q = cc

  module _ (documented : Documented kernel) where
    -- Who falls asleep has found the word as expected.
    slept :
        (k k' : K) (a expected timeout : ℕ)
        → futex_wait_timeout kernel k a expected timeout ≡ (k', none)
        → a % u32 ≡ expected
    unfolding futex_wait_timeout futex_load
    slept k k' a expected timeout e = elim (ℕ_discrete (a % u32) expected) [
      | yes same ↦ same
      | no other ↦ absurd (
          never (answered (kernel.wait k (a % u32) expected (timespec timeout)) (ap (λ p. p.1) e))
            (documented.differs k (a % u32) expected (timespec timeout) other))
    ]
      where
        never : {r : Option Answer} {b : Answer} → r ≡ none → r ≡ some b → ⊥
        never p q = cc

    after_add :
        (x : State K) (w : Waiter)
        → x.counter < u64
        → WaiterAt x w
        → WaiterAt (record x { counter = x.counter +w 1; notifier = added; since = x.since + 1 }) w
    after_add x away h a = tt
    after_add x (holding seen) h a = omega arith
    after_add x (waiting seen) h a = (omega arith, λ q. cc)
    after_add x (back b) h a = tt

    after_wake :
        (x : State K) (w : Waiter)
        → WaiterAt x w
        → WaiterAt
            (record x { kernel_state = futex_wake_all kernel x.kernel_state; notifier = quiet })
            w
    unfolding futex_wake_all
    after_wake x away a = tt
    after_wake x (holding seen) a = a
    after_wake x (waiting seen) a =
        (a.0, λ q s. absurd (documented_wake (documented.wakes x.kernel_state) s))
    after_wake x (back b) a = tt

    Step-Inv : {x y : State K} → Step x y → Inv x → Inv y
    unfolding futex_load
    Step-Inv {x} (add e) i = record {
      word = omega arith;
      waiter_at = after_add x x.waiter i.word i.waiter_at;
    }
    Step-Inv {x} (wake e) i = record {
      word = i.word;
      waiter_at = after_wake x x.waiter i.waiter_at;
    }
    Step-Inv snapshot i = record { word = i.word; waiter_at = omega arith }
    Step-Inv (wait_returns timeout e f) i = record { word = i.word; waiter_at = tt }
    Step-Inv {x} (wait_sleeps {seen} {k} timeout e f) i = record {
      word = i.word;
      waiter_at = (at i e, λ q s. slept x.kernel_state k x.counter seen timeout f);
    }
    Step-Inv (wakes_up e f) i = record { word = i.word; waiter_at = tt }
    Step-Inv (times_out e) i = record { word = i.word; waiter_at = tt }

    Reach-Inv : {x y : State K} → Inv x → Reach x y → Inv y
    Reach-Inv i here = i
    Reach-Inv i (later r s) = Step-Inv s (Reach-Inv i r)

    -- No wakeup is lost. Over a kernel that does what is documented, in every interleaving of
    -- notifications with a reader that takes a snapshot of the counter and then waits for another:
    -- when a notification since the snapshot has been made, its wake included, and fewer than 2^32
    -- have, the reader is not asleep.
    pub notified_reader_is_awake :
        (x y : State K) (seen : ℕ)
        → x.waiter ≡ away
        → x.counter < u64
        → Reach x y
        → y.waiter ≡ waiting seen
        → y.notifier ≡ quiet
        → 0 < y.since
        → y.since < u32
        → kernel.asleep y.kernel_state ≡ false
    notified_reader_is_awake x y seen start h r e quiet_now some_since few =
        elim (Bool-cases (kernel.asleep y.kernel_state)) [
          | inr awake ↦ awake
          | inl asleep ↦
              let (count, same) =
                at (Reach-Inv (record { word = h; waiter_at = rw start tt }) r) e in
              absurd (omega (arith, count, same quiet_now asleep))
        ]
