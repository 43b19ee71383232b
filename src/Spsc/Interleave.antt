-- ===== src/Spsc/Interleave.antt =====
-- One producer and one consumer of `SharedRingBufferSPSC` (src/shared_ring_buffer_spsc.cpp) in any
-- interleaving of the accesses of their calls, whose parts are those of Parts. The producer's process
-- may die at any point, also with a part of a record in the bytes, and a new one may claim the ring.
pub mod Facts
pub mod Rounds
pub mod Inv
pub mod Order
pub mod Ends
pub mod Size
use lock_free_ring_buffer.Prelude.{
  ℕ, ◌+◌, ◌*◌, ◌≤◌, ◌<◌, ◌≡◌, List, [], ◌∷◌, ◌++◌, length, Option, none, some,
}
use lock_free_ring_buffer.Word.{u64, u32, u16, ◌+w◌}
use lock_free_ring_buffer.Memory.{Memory, Apart}
use lock_free_ring_buffer.Record.{Message, record_size}
use lock_free_ring_buffer.Ring.{Ring}
use lock_free_ring_buffer.Spsc.{claim_control}
use lock_free_ring_buffer.Mpmc.{Decision, leave, skip_to, take_to, copy}
use lock_free_ring_buffer.Mpmc.Interleave.{Stage, skipping, copying, holding, handed, Ready}
use lock_free_ring_buffer.Spsc.History.{Parcel}
use lock_free_ring_buffer.Spsc.Parts.{
  Plan, refuse, skip, wrap, place, place_of, rest_of, plan, store_wrap, store_body, store_number,
  store_tail_reserve, store_tail_publish, store_head_reserve, store_head_publish, pop_plan,
}

-- Where the producer is in a call for a parcel. With a tail to be stored comes the message that it
-- publishes, or none if it publishes a gap.
pub data Producer : Type 0 where
  resting : Producer
  starting : Parcel → Producer
  saw_head : Parcel → ℕ → Producer
  wrapping : Parcel → Producer
  placing : Parcel → Producer
  numbering : Parcel → Producer
  moving : Parcel → ℕ → Option Message → Producer
  reserved : Parcel → ℕ → Option Message → Producer

-- Where the consumer is; with a head to be stored, what it does with the span before it.
pub data Consumer : Type 0 where
  quiet : Consumer
  saw_tail : ℕ → Consumer
  taking : ℕ → Stage → Consumer
  giving : ℕ → Stage → Consumer

-- With what was published and what was handed over, which is no part of the program.
pub record State : Type 0 where
  pub ring : Ring
  pub producer : Producer
  pub consumer : Consumer
  pub sent : List Message
  pub popped : List Message

abbrev pub with_bytes : Ring → Memory → Ring
with_bytes r m = record r { bytes = m }

abbrev pub planned : Ring → Parcel → Plan → Producer
planned r p refuse = resting
planned r p skip = moving p (r.tail_publish +w rest_of r) none
planned r p wrap = wrapping p
planned r p place = placing p

abbrev pub decided : Decision → Consumer
decided leave = quiet
decided (skip_to head) = taking head skipping
decided (take_to head size) = taking head (copying size)

-- A published gap is followed by another round, a published message by the return.
abbrev pub after_publish : Parcel → Option Message → Producer
after_publish p none = starting p
after_publish p (some m) = resting

abbrev pub sent_of : Option Message → List Message
sent_of none = []
sent_of (some m) = m ∷ []

-- The parcels that the tests before the loop let pass.
abbrev pub Fits : ℕ → Parcel → Type 0
Fits cap p = (length p.1 < u32) × (p.0 < u16) × (record_size (length p.1) ≤ cap)

-- The producers that write bytes at the tail, and how many.
abbrev pub Writing : Producer → ℕ → Type 0
Writing resting n = ⊥
Writing (starting p) n = ⊥
Writing (saw_head p head) n = ⊥
Writing (wrapping p) n = n ≡ 16
Writing (placing p) n = n ≡ 16 + length p.1
Writing (numbering p) n = ⊥
Writing (moving p tail m) n = ⊥
Writing (reserved p tail m) n = ⊥

pub data Step (x : State) : State → Type 0 where
  calls :
      (p : Parcel)
      → x.producer ≡ resting
      → Fits x.ring.capacity p
      → Step x (record x { producer = starting p })
  loads_head :
      (p : Parcel)
      → x.producer ≡ starting p
      → Step x (record x { producer = saw_head p x.ring.head_publish })
  plans :
      (p : Parcel) (head : ℕ)
      → x.producer ≡ saw_head p head
      → Step x (record x { producer = planned x.ring p (plan head (length p.1) x.ring) })
  tears :
      (n : ℕ) (m' : Memory)
      → Writing x.producer n
      → ((i : ℕ) → Apart (place_of x.ring) n i 1 → x.ring.bytes i ≡ m' i)
      → Step x (record x { ring = with_bytes x.ring m' })
  wraps :
      (p : Parcel)
      → x.producer ≡ wrapping p
      → Step x (record x {
        ring = store_wrap x.ring;
        producer = moving p (x.ring.tail_publish +w rest_of x.ring) none;
      })
  fills :
      (p : Parcel)
      → x.producer ≡ placing p
      → Step x (record x { ring = store_body x.ring (length p.1) p.0 p.1; producer = numbering p })
  numbers :
      (p : Parcel)
      → x.producer ≡ numbering p
      → Step x (record x {
        ring = store_number x.ring;
        producer =
            moving p
              (x.ring.tail_publish +w record_size (length p.1))
              (some (record { type = p.0; sequence = x.ring.sequence +w 1; payload = p.1 }));
      })
  reserves_tail :
      (p : Parcel) (tail : ℕ) (m : Option Message)
      → x.producer ≡ moving p tail m
      → Step x (record x { ring = store_tail_reserve x.ring tail; producer = reserved p tail m })
  publishes_tail :
      (p : Parcel) (tail : ℕ) (m : Option Message)
      → x.producer ≡ reserved p tail m
      → Step x (record x {
        ring = store_tail_publish x.ring tail;
        producer = after_publish p m;
        sent = x.sent ++ sent_of m;
      })
  dies : Step x (record x { producer = resting })
  claims : x.producer ≡ resting → Step x (record x { ring = claim_control x.ring })
  loads_tail : x.consumer ≡ quiet → Step x (record x { consumer = saw_tail x.ring.tail_publish })
  tests :
      (tail : ℕ)
      → x.consumer ≡ saw_tail tail
      → Step x (record x { consumer = decided (pop_plan tail x.ring) })
  copies :
      (head size : ℕ)
      → x.consumer ≡ taking head (copying size)
      → Step x
          (record x { consumer = taking head (holding (copy x.ring x.ring.head_publish size [])) })
  reserves_head :
      (head : ℕ) (s : Stage)
      → x.consumer ≡ taking head s
      → Ready s
      → Step x (record x { ring = store_head_reserve x.ring head; consumer = giving head s })
  publishes_head :
      (head : ℕ) (s : Stage)
      → x.consumer ≡ giving head s
      → Step x (record x {
        ring = store_head_publish x.ring head;
        consumer = quiet;
        popped = x.popped ++ handed s;
      })

abbrev pub Roomy : State → Type 0
Roomy x = (x.ring.tail_publish + 3 * x.ring.capacity < u64) × (x.ring.sequence + 1 < u64)

-- Runs whose steps start away from the end of the counters' bits.
pub data Reach (x : State) : State → Type 0 where
  here : Reach x x
  later : {y z : State} → Reach x y → Roomy y → Step y z → Reach x z

abbrev pub initial : Ring → State
initial r = record { ring = r; producer = resting; consumer = quiet; sent = []; popped = [] }
