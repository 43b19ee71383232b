-- ===== src/SpscQueue/Interleave.antt =====
-- The producer and the consumer of an `SPSCQueue` (include/lf_ring/spsc_queue.hpp) in any interleaving
-- of their accesses to the counters and the slots. The producer's process may die at any point, also
-- with a part of a value in a slot; a claim of the file changes nothing in it.
pub mod Keep
pub mod Inv
pub mod Order
pub mod Size
use Prim.Native.Nat.{bit_and}
use lock_free_ring_buffer.Prelude.{
  ℕ, ◌+◌, ◌-◌, ◌*◌, ◌≡◌, Bool, true, false, List, [], ◌∷◌, ◌++◌, length, leb, ◌==◌, if◌then◌else◌,
  Option, none, some, arith,
}
use lock_free_ring_buffer.Word.{◌+w◌, ◌-w◌}
use lock_free_ring_buffer.Memory.{Memory, Apart, store_bytes, load_bytes}
use lock_free_ring_buffer.Layout.{ControlBlock}
use lock_free_ring_buffer.Ring.{Ring}
use lock_free_ring_buffer.SpscQueue.{mask, try_push, try_pop}

-- Where the producer is in `try_push`, and the consumer in `try_pop`.
pub data Producer : Type 0 where
  resting : Producer
  saw_head : List ℕ → ℕ → Producer
  writing : List ℕ → Producer
  written : List ℕ → Producer

pub data Consumer : Type 0 where
  quiet : Consumer
  saw_tail : ℕ → Consumer
  reading : Consumer
  got : List ℕ → Consumer

-- With what was published and what was handed over, which is no part of the program.
pub record State : Type 0 where
  pub queue : Ring
  pub producer : Producer
  pub consumer : Consumer
  pub sent : List (List ℕ)
  pub popped : List (List ℕ)

unfoldable pub store_tail : Ring → Ring
store_tail q = record q { control = record c { tail_publish = q.tail_publish +w 1 } }
  where
    c : ControlBlock
    c = q.control

unfoldable pub store_head : Ring → Ring
store_head q = record q { control = record c { head_publish = q.head_publish +w 1 } }
  where
    c : ControlBlock
    c = q.control

abbrev pub with_bytes : Ring → Memory → Ring
with_bytes q m = record q { bytes = m }

module _ (capacity sizeof_t : ℕ) where
  -- The slot of a counter.
  abbrev pub slot : ℕ → ℕ
  slot i = bit_and i (mask capacity sizeof_t) * sizeof_t

  unfoldable pub test_full : Ring → List ℕ → ℕ → Producer
  test_full q value head = if leb capacity (q.tail_publish -w head) then resting else writing value

  unfoldable pub test_empty : Ring → ℕ → Consumer
  test_empty q tail = if q.head_publish == tail then quiet else reading

  pub data Step (x : State) : State → Type 0 where
    loads_head :
        (value : List ℕ)
        → x.producer ≡ resting
        → length value ≡ sizeof_t
        → Step x (record x { producer = saw_head value x.queue.head_publish })
    tests_full :
        (value : List ℕ) (head : ℕ)
        → x.producer ≡ saw_head value head
        → Step x (record x { producer = test_full x.queue value head })
    tears :
        (value : List ℕ) (m' : Memory)
        → x.producer ≡ writing value
        → ((i : ℕ) → Apart (slot x.queue.tail_publish) sizeof_t i 1 → x.queue.bytes i ≡ m' i)
        → Step x (record x { queue = with_bytes x.queue m' })
    writes :
        (value : List ℕ)
        → x.producer ≡ writing value
        → Step x (record x {
          queue = with_bytes x.queue (store_bytes x.queue.bytes (slot x.queue.tail_publish) value);
          producer = written value;
        })
    publishes_tail :
        (value : List ℕ)
        → x.producer ≡ written value
        → Step x (record x {
          queue = store_tail x.queue;
          producer = resting;
          sent = x.sent ++ value ∷ [];
        })
    dies : Step x (record x { producer = resting })
    loads_tail : x.consumer ≡ quiet → Step x (record x { consumer = saw_tail x.queue.tail_publish })
    tests_empty :
        (tail : ℕ)
        → x.consumer ≡ saw_tail tail
        → Step x (record x { consumer = test_empty x.queue tail })
    reads :
        x.consumer ≡ reading
        → Step x (record x {
          consumer = got (load_bytes x.queue.bytes (slot x.queue.head_publish) sizeof_t);
        })
    publishes_head :
        (value : List ℕ)
        → x.consumer ≡ got value
        → Step x (record x {
          queue = store_head x.queue;
          consumer = quiet;
          popped = x.popped ++ value ∷ [];
        })

  pub data Reach (x : State) : State → Type 0 where
    here : Reach x x
    later : {y z : State} → Reach x y → Step y z → Reach x z

-- The rest of a call whose test is done, with nothing in between.
module _ (capacity sizeof_t : ℕ) (q : Ring) where
  abbrev finish_push : Producer → Ring × Bool
  finish_push resting = (q, false)
  finish_push (saw_head value head) = (q, false)
  finish_push (writing value) = (
    store_tail (with_bytes q (store_bytes q.bytes (slot capacity sizeof_t q.tail_publish) value)),
    true,
  )
  finish_push (written value) = (store_tail q, true)

  abbrev finish_pop : Consumer → Ring × Option (List ℕ)
  finish_pop quiet = (q, none)
  finish_pop (saw_tail tail) = (q, none)
  finish_pop reading =
      (store_head q, some (load_bytes q.bytes (slot capacity sizeof_t q.head_publish) sizeof_t))
  finish_pop (got value) = (store_head q, some value)

  -- The accesses of a call one after the other are the call.
  calls-parts :
      (value : List ℕ)
      → (try_push capacity sizeof_t q value
          ≡ finish_push (test_full capacity sizeof_t q value q.head_publish))
        × (try_pop capacity sizeof_t q ≡ finish_pop (test_empty capacity sizeof_t q q.tail_publish))
  unfolding try_push try_pop test_full test_empty store_tail store_head
  calls-parts value = (ground arith, ground arith)

abbrev pub initial : Ring → State
initial q = record { queue = q; producer = resting; consumer = quiet; sent = []; popped = [] }
