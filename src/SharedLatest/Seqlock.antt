-- ===== src/SharedLatest/Seqlock.antt =====
-- `write` and the first `try_read` of include/lf_ring/shared_latest.hpp run by a writer and a reader
-- in any interleaving, one access to shared memory at a time and in program order: the sequence
-- number is one access, and the value is copied byte by byte. Other readers change nothing shared.
pub mod Inv
pub mod Recovery
use Prim.Native.Nat.{bit_and}
use lock_free_ring_buffer.Prelude.{
  ℕ, zero, suc, ◌+◌, ◌≤◌, ◌<◌, ◌≡◌, ◌≢◌, List, [], ◌∷◌, ◌++◌, length,
}
use lock_free_ring_buffer.Word.{◌+w◌}
use lock_free_ring_buffer.Memory.{Memory, store_byte}

abbrev pub get_or : List ℕ → ℕ → ℕ → ℕ
get_or [] i d = d
get_or (x ∷ xs) zero d = x
get_or (x ∷ xs) (suc i) d = get_or xs i d

-- Between two writes, or in the `memcpy` of one that found `s` and has copied `k` bytes of `v`.
pub data Writer : Type 0 where
  idle : Writer
  copying : (s : ℕ) (v : List ℕ) (k : ℕ) → Writer

-- At the head of the loop in round `i`, in the `memcpy` of that round after an even `s₁`, or done.
pub data Reader : Type 0 where
  start : (i : ℕ) → Reader
  reading : (i s₁ : ℕ) (got : List ℕ) → Reader
  returned : (v : List ℕ) → Reader
  failed : Reader

-- The last field is no part of the program: the values that were committed, the newest first.
pub record State : Type 0 where
  pub sequence : ℕ
  pub bytes : Memory
  pub writer : Writer
  pub reader : Reader
  pub history : List (List ℕ)

-- The template's `sizeof(T)`, and the reader's `max_retries`.
module _ (sizeof_t max_retries : ℕ) where
  pub data Step (x : State) : State → Type 0 where
    -- `seq.store(s + 1)`
    begin_write :
        {v : List ℕ}
        → x.writer ≡ idle
        → length v ≡ sizeof_t
        → Step x (record x { sequence = x.sequence +w 1; writer = copying x.sequence v 0 })
    write_byte :
        {s : ℕ} {v : List ℕ} {k : ℕ}
        → x.writer ≡ copying s v k
        → k < sizeof_t
        → Step x
            (record x { bytes = store_byte x.bytes k (get_or v k 0); writer = copying s v (suc k) })
    -- `seq.store(s + 2)`
    commit :
        {s : ℕ} {v : List ℕ}
        → x.writer ≡ copying s v sizeof_t
        → Step x (record x { sequence = s +w 2; writer = idle; history = v ∷ x.history })
    load_odd :
        {i : ℕ}
        → x.reader ≡ start i
        → i < max_retries
        → bit_and x.sequence 1 ≢ 0
        → Step x (record x { reader = start (suc i) })
    load_even :
        {i : ℕ}
        → x.reader ≡ start i
        → i < max_retries
        → bit_and x.sequence 1 ≡ 0
        → Step x (record x { reader = reading i x.sequence [] })
    read_byte :
        {i s₁ : ℕ} {got : List ℕ}
        → x.reader ≡ reading i s₁ got
        → length got < sizeof_t
        → Step x (record x { reader = reading i s₁ (got ++ x.bytes (length got) ∷ []) })
    unchanged :
        {i s₁ : ℕ} {got : List ℕ}
        → x.reader ≡ reading i s₁ got
        → length got ≡ sizeof_t
        → x.sequence ≡ s₁
        → Step x (record x { reader = returned got })
    changed :
        {i s₁ : ℕ} {got : List ℕ}
        → x.reader ≡ reading i s₁ got
        → length got ≡ sizeof_t
        → x.sequence ≢ s₁
        → Step x (record x { reader = start (suc i) })
    give_up : {i : ℕ} → x.reader ≡ start i → max_retries ≤ i → Step x (record x { reader = failed })

  -- From a slot between two writes that holds `v`, with the committed values behind it.
  abbrev pub initial : ℕ → Memory → List (List ℕ) → State
  initial sequence bytes history = record {
    sequence = sequence;
    bytes = bytes;
    writer = idle;
    reader = start 0;
    history = history;
  }

  pub data Reach (x : State) : State → Type 0 where
    here : Reach x x
    later : {y z : State} → Reach x y → Step y z → Reach x z
