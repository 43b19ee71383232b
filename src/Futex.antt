-- ===== src/Futex.antt =====
-- include/lf_ring/futex.hpp: waiting on the lower half of an atomic word. The system call is a
-- parameter: a `Kernel` says what it does, for the one waiting thread that is looked at.
pub mod Wakeups
pub mod Word
use lock_free_ring_buffer.Prelude.{
  ℕ, ◌*◌, ◌/◌, ◌%◌, ◌≡◌, ◌≢◌, Bool, true, false, Option, none, some,
}
use lock_free_ring_buffer.Word.{u32}
use lock_free_ring_buffer.Memory.{Memory, load_int}

-- What `errno` says of a call that failed.
pub data Errno : Type 0 where
  eagain eintr etimedout other : Errno

-- `ret == 0`, or the error.
pub data Answer : Type 0 where
  woken : Answer
  failed : Errno → Answer

pub record Timespec : Type 0 where
  pub tv_sec : ℕ
  pub tv_nsec : ℕ

-- Of a number of milliseconds that is not negative.
unfoldable pub timespec : ℕ → Timespec
timespec ms = record { tv_sec = ms / 1000; tv_nsec = ms % 1000 * 1000000 }

-- `wait` is given the futex word as it is and the word that the caller expects; it returns no answer
-- where the thread sleeps.
pub record Kernel (K : Type 0) : Type 0 where
  pub wait : K → ℕ → ℕ → Timespec → K × Option Answer
  pub wake_all : K → K
  pub asleep : K → Bool

-- What futex(2) documents: a wait on a word that is not the expected one fails at once with EAGAIN,
-- and a wake of all leaves nobody asleep.
pub record Documented {K : Type 0} (kernel : Kernel K) : Type 0 where
  pub differs :
      (k : K) (word expected : ℕ) (t : Timespec)
      → word ≢ expected
      → (kernel.wait k word expected t).1 ≡ some (failed eagain)
  pub wakes : (k : K) → kernel.asleep (kernel.wake_all k) ≡ false

unfoldable pub futex_load : ℕ → ℕ
futex_load a = a % u32

-- The word at the address of an atomic at `at`.
unfoldable pub futex_word : Memory → ℕ → ℕ
futex_word m at = load_int 4 m at

-- `futex_wait_timeout` from the answer on.
unfoldable pub wait_result : Answer → Bool
wait_result woken = true
wait_result (failed eagain) = true
wait_result (failed eintr) = true
wait_result (failed etimedout) = false
wait_result (failed other) = false

abbrev pub returned : {K : Type 0} → K × Option Answer → K × Option Bool
returned (k, none) = (k, none)
returned (k, some a) = (k, some (wait_result a))

module _ {K : Type 0} (kernel : Kernel K) where
  unfoldable pub futex_wait_timeout : K → ℕ → ℕ → ℕ → K × Option Bool
  unfolding wait_result timespec futex_load
  futex_wait_timeout k a expected timeout =
      returned (kernel.wait k (futex_load a) expected (timespec timeout))

  unfoldable pub futex_wake_all : K → K
  futex_wake_all k = kernel.wake_all k
