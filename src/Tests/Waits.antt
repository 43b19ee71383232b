-- ===== src/Tests/Waits.antt =====
-- A reader that waits on the futex word, and the files of a latest-value slot.
use lock_free_ring_buffer.Prelude.{
  ℕ, ◌≡◌, refl, [], ◌∷◌, Option, none, some, Bool, true, false, arith, ◌==◌, ne→==, if◌then◌else◌,
}
use lock_free_ring_buffer.Ring.{Ring}
use lock_free_ring_buffer.Memory.{Memory, store_int}
use lock_free_ring_buffer.Layout.{flag_latest}
use lock_free_ring_buffer.Mapping.{Held, new_file}
use lock_free_ring_buffer.Mapping.Open.{works, empty_ring}
use lock_free_ring_buffer.Futex.{
  Kernel, Documented, Answer, failed, eagain, futex_load, futex_wait_timeout, futex_wake_all,
}
use lock_free_ring_buffer.Futex.Wakeups.{
  quiet, added, away, holding, waiting, State, add, wake, snapshot, wait_sleeps, Reach, here, later,
  notified_reader_is_awake,
}
use lock_free_ring_buffer.SharedLatest.{Look, try_read_status}
use lock_free_ring_buffer.SharedLatest.Seqlock.{State as Slot, initial}
use lock_free_ring_buffer.SharedLatest.Read.{try_read, Agrees, try_read-Agrees}
use lock_free_ring_buffer.SharedLatest.Files.{claim_file, Ends, claim_file-Ends}

abbrev answer : Bool → Bool × Option Answer
answer true = (true, none)
answer false = (false, some (failed eagain))

-- A kernel of one thread, which is asleep or not.
abbrev simple : Kernel Bool
simple = record {
  wait = λ k word expected t. answer (word == expected);
  wake_all = λ k. false;
  asleep = λ k. k;
}

simple-Documented : Documented simple
simple-Documented = record {
  differs = λ k word expected t other. rw (ne→== word expected other) refl;
  wakes = λ k. refl;
}

abbrev at_rest : State Bool
at_rest = record { kernel_state = false; counter = 5; notifier = quiet; waiter = away; since = 0 }

abbrev held : State Bool
held = record { kernel_state = false; counter = 5; notifier = quiet; waiter = holding 5; since = 0 }

abbrev asleep : State Bool
asleep = record {
  kernel_state = true;
  counter = 5;
  notifier = quiet;
  waiter = waiting 5;
  since = 0;
}

abbrev counted : State Bool
counted = record {
  kernel_state = true;
  counter = 6;
  notifier = added;
  waiter = waiting 5;
  since = 1;
}

abbrev notified : State Bool
notified = record {
  kernel_state = false;
  counter = 6;
  notifier = quiet;
  waiter = waiting 5;
  since = 1;
}

to_held : Reach simple at_rest held
unfolding futex_load
to_held = later here snapshot

to_asleep : Reach simple at_rest asleep
unfolding futex_wait_timeout futex_load
to_asleep = later to_held (wait_sleeps 100 refl refl)

to_counted : Reach simple at_rest counted
to_counted = later to_asleep (add refl)

to_notified : Reach simple at_rest notified
unfolding futex_wake_all
to_notified = later to_counted (wake refl)

notified_reader_is_awake_example : simple.asleep notified.kernel_state ≡ false
notified_reader_is_awake_example =
    notified_reader_is_awake simple simple-Documented at_rest notified 5 refl (omega arith)
      to_notified refl refl (omega arith) (omega arith)

-- A write is in progress at the first look, and over at the second.
abbrev looks : ℕ → Look
looks i =
    if i == 0
    then record { s₁ = 3; copy = 1 ∷ []; s₂ = 3; now = 0; heartbeat = 0 }
    else record { s₁ = 4; copy = 2 ∷ []; s₂ = 4; now = 0; heartbeat = 0 }

try_read-Agrees_example : Agrees 3 500 looks 8 (try_read looks 8) (try_read_status 3 500 looks 8)
try_read-Agrees_example = try_read-Agrees 3 500 8 looks

abbrev slot : Slot
slot = initial 1 8 0 (λ i. 0) []

abbrev slot_ring : Ring
slot_ring = empty_ring 8

abbrev nothing : Held
nothing = record { fds = 0; maps = 0 }

-- The file of a slot whose writer is in a write, and last wrote at the time 900.
abbrev mid_write : Memory
mid_write = store_int 8 (store_int 8 (new_file 8 flag_latest) 64 900) 320 3

-- A claim of it at the time 1000 with a threshold of 500.
claim_file-Ends_example :
    Ends 8 works nothing
      (some (mid_write, 392))
      (λ r. r)
      1000
      500
      (claim_file 8 works nothing (some (mid_write, 392)) (λ r. r) 1000 500)
claim_file-Ends_example = claim_file-Ends 8 works nothing (some (mid_write, 392)) (λ r. r) 1000 500
