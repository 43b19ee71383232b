-- ===== src/IpcAdapter/Latest/Missed.antt =====
-- The order of the two accesses of a round of `SharedLatestSubscriber::poll_loop`
-- (include/lf_ring/ipc_adapter.hpp), against a write.
use lock_free_ring_buffer.Prelude.{
  ℕ, ◌+◌, ◌%◌, ◌<◌, ◌≡◌, ◌≢◌, refl, sym, ap, ap₂, ◌∙◌, List, [], ◌∷◌, ◌++◌, length, some, arith,
  eq→==, ne→==,
}
use lock_free_ring_buffer.Word.{u64}
use lock_free_ring_buffer.Memory.{load_bytes, store_bytes, load-store_self}
use lock_free_ring_buffer.Ring.{Ring}
use lock_free_ring_buffer.SharedLatest.{success, write, try_read_status}
use lock_free_ring_buffer.SharedLatest.Status.{round_stable}
use lock_free_ring_buffer.IpcAdapter.Latest.{
  Event, message, Place, unstarted, check, reading, loading, sleeping, exited, LatestSubscriber,
  after_read, after_load,
}
use lock_free_ring_buffer.IpcAdapter.Latest.Thread.{
  publish, try_read_once, tick_at, Act, write_value, step, System, look_at, read_now, act, acts,
}

-- Steps of the thread at these times.
abbrev pub steps : List ℕ → List Act
steps [] = []
steps (t ∷ ts) = step t ∷ steps ts

-- A step that finds the number that the thread remembers calls nobody back.
tick_quiet :
    (p : Place) (v : List ℕ) (n : ℕ) (s : LatestSubscriber)
    → n ≡ s.last_seq
    → let s' = tick_at p (success, some v) n s in (s'.calls ≡ s.calls) × (s'.last_seq ≡ s.last_seq)
unfolding tick_at after_read after_load
tick_quiet unstarted v n s e = (refl, refl)
tick_quiet check v n s e = (refl, refl)
tick_quiet reading v n s e = (refl, refl)
tick_quiet loading v n s e = rw (eq→== n s.last_seq e) (refl, refl)
tick_quiet sleeping v n s e = (refl, refl)
tick_quiet exited v n s e = (refl, refl)

module _ (sizeof_t threshold : ℕ) where
  -- A slot between two writes is read at once.
  quiet_read :
      (q : Ring) (now : ℕ)
      → q.sequence % 2 ≡ 0
      → q.sequence ≢ 0
      → read_now sizeof_t threshold q now ≡ (success, some (load_bytes q.bytes 0 sizeof_t))
  unfolding read_now try_read_once try_read_status
  quiet_read q now even some_yet =
      rw (ne→== q.sequence 0 some_yet)
        (round_stable threshold (λ i. look_at sizeof_t q now) 1023 0 (even, refl))

  -- Over a slot that nobody writes, whose number the thread remembers, it calls nobody back.
  quiet_steps :
      (ts : List ℕ) (x : System)
      → x.slot.sequence % 2 ≡ 0
      → x.slot.sequence ≢ 0
      → x.slot.sequence ≡ x.subscriber.last_seq
      → (acts sizeof_t threshold (steps ts) x).subscriber.calls ≡ x.subscriber.calls
  unfolding acts act
  quiet_steps [] x even some_yet same = refl
  quiet_steps (t ∷ ts) x even some_yet same =
      let (calls, last) =
        tick_quiet x.subscriber.thread (load_bytes x.slot.bytes 0 sizeof_t) x.slot.sequence
          x.subscriber same in
      ap
        (λ r.
          (acts sizeof_t threshold (steps ts) (record x {
            subscriber = tick_at x.subscriber.thread r x.slot.sequence x.subscriber;
          })).subscriber.calls)
        (quiet_read x.slot t even some_yet)
      ∙ quiet_steps ts
          (record x {
            subscriber =
                tick_at x.subscriber.thread (success, some (load_bytes x.slot.bytes 0 sizeof_t))
                  x.slot.sequence x.subscriber;
          })
          even some_yet (same ∙ sym last)
      ∙ calls

  abbrev loaded : LatestSubscriber → Ring → LatestSubscriber
  loaded s q = record s { thread = loading; value = load_bytes q.bytes 0 sizeof_t }

  abbrev delivered : LatestSubscriber → ℕ → LatestSubscriber
  delivered s seq = record s {
    thread = sleeping;
    last_seq = seq;
    calls = s.calls ++ message s.value ∷ [];
  }

  read_step :
      (x : System) (t : ℕ)
      → x.subscriber.thread ≡ reading
      → x.slot.sequence % 2 ≡ 0
      → x.slot.sequence ≢ 0
      → act sizeof_t threshold (step t) x ≡ record x { subscriber = loaded x.subscriber x.slot }
  unfolding act tick_at after_read
  read_step x t e even some_yet =
      ap₂ (λ p r. record x { subscriber = tick_at p r x.slot.sequence x.subscriber }) e
        (quiet_read x.slot t even some_yet)

  load_step :
      (x : System) (t : ℕ)
      → x.subscriber.thread ≡ loading
      → x.slot.sequence ≢ x.subscriber.last_seq
      → act sizeof_t threshold (step t) x
        ≡ record x { subscriber = delivered x.subscriber x.slot.sequence }
  unfolding act tick_at after_load
  load_step x t e other =
      ap
        (λ p. record x {
          subscriber =
              tick_at p (read_now sizeof_t threshold x.slot t) x.slot.sequence x.subscriber;
        })
        e
      ∙ ap (λ s. record x { subscriber = s })
          (rw (ne→== x.slot.sequence x.subscriber.last_seq other) refl)

  -- The thread's two accesses, the write between them or before them, and any further steps.
  abbrev pub written_between : List ℕ → ℕ → ℕ → ℕ → List ℕ → List Act
  written_between new t₁ t₂ t₃ ts = step t₁ ∷ write_value new t₂ ∷ step t₃ ∷ steps ts

  abbrev pub written_before : List ℕ → ℕ → ℕ → ℕ → List ℕ → List Act
  written_before new t₁ t₂ t₃ ts = write_value new t₁ ∷ step t₂ ∷ step t₃ ∷ steps ts

  abbrev pub called : List Act → System → List Event
  called run x = (acts sizeof_t threshold run x).subscriber.calls

  module _ (x : System) (new : List ℕ) (t₁ t₂ t₃ : ℕ) (ts : List ℕ)
      (at_read : x.subscriber.thread ≡ reading) (even : x.slot.sequence % 2 ≡ 0)
      (some_yet : x.slot.sequence ≢ 0) (room : x.slot.sequence + 2 < u64)
      (size : length new ≡ sizeof_t) (unseen : x.subscriber.last_seq ≢ x.slot.sequence + 2) where
    abbrev slot' : ℕ → Ring
    slot' t = publish x.slot new t

    next : (t : ℕ) → (slot' t).sequence ≡ x.slot.sequence + 2
    unfolding publish write
    next t = omega (arith, room)

    abbrev QuietAfter : ℕ → LatestSubscriber → Type 0
    QuietAfter t s =
        s.last_seq ≡ (slot' t).sequence
        → called (steps ts) (record { slot = slot' t; subscriber = s }) ≡ s.calls

    rest_quiet : (t : ℕ) (s : LatestSubscriber) → QuietAfter t s
    rest_quiet t s e =
        quiet_steps ts (record { slot = slot' t; subscriber = s }) (omega (arith, next t, even))
          (λ zero. absurd (omega (arith, next t, zero))) (sym e)

    other : (t : ℕ) → (slot' t).sequence ≢ x.subscriber.last_seq
    other t e = unseen (sym e ∙ next t)

    between_lem :
        called (written_between new t₁ t₂ t₃ ts) x
        ≡ x.subscriber.calls ++ message (load_bytes x.slot.bytes 0 sizeof_t) ∷ []
    unfolding acts
    between_lem =
        ap
          (λ y.
            called (steps ts)
              (act sizeof_t threshold (step t₃) (act sizeof_t threshold (write_value new t₂) y)))
          (read_step x t₁ at_read even some_yet)
        ∙ ap (called (steps ts)) (
            unfold act in
            load_step (record { slot = slot' t₂; subscriber = loaded x.subscriber x.slot }) t₃ refl
              (other t₂))
        ∙ rest_quiet t₂ (delivered (loaded x.subscriber x.slot) (slot' t₂).sequence) refl

    stored : (t : ℕ) → load_bytes (slot' t).bytes 0 sizeof_t ≡ new
    unfolding publish write
    stored t =
        ap (load_bytes (store_bytes x.slot.bytes 0 new) 0) (sym size)
        ∙ load-store_self x.slot.bytes 0 new

    before_lem : called (written_before new t₁ t₂ t₃ ts) x ≡ x.subscriber.calls ++ message new ∷ []
    unfolding acts act
    before_lem =
        ap (λ y. called (steps ts) (act sizeof_t threshold (step t₃) y))
          (read_step (record x { slot = slot' t₁ }) t₂ at_read (omega (arith, next t₁, even))
            (λ zero. absurd (omega (arith, next t₁, zero))))
        ∙ ap (called (steps ts)) (
            load_step (record { slot = slot' t₁; subscriber = loaded x.subscriber (slot' t₁) }) t₃
              refl (other t₁))
        ∙ rest_quiet t₁ (delivered (loaded x.subscriber (slot' t₁)) (slot' t₁).sequence) refl
        ∙ ap (λ v. x.subscriber.calls ++ message v ∷ []) (stored t₁)

    -- A thread of the loop stands before its read, its last number is not the one that the next write
    -- gives the slot, and the slot holds a value with an even number that is not 0 and two away from
    -- 2^64. If another value is written, by one whole write, before the read, the thread calls back
    -- with that one, once, whatever the number of its further steps. If it is written after the read
    -- and before the load of the number, the thread calls back with the value that was there before,
    -- and in none of its further steps with the new one.
    pub written_in_between :
        (called (written_before new t₁ t₂ t₃ ts) x ≡ x.subscriber.calls ++ message new ∷ [])
        × (called (written_between new t₁ t₂ t₃ ts) x
            ≡ x.subscriber.calls ++ message (load_bytes x.slot.bytes 0 sizeof_t) ∷ [])
    written_in_between = (before_lem, between_lem)
