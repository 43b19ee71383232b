-- ===== src/Mpsc/Interleave.antt =====
-- The pushes of any number of producers (`detail::try_push` of include/lf_ring/ring_writer.hpp) and
-- the pops of one consumer (src/shared_ring_buffer.cpp) in any interleaving. A push is four steps: the
-- load of the head, the exchange, the fill and the publication; the fills of two producers are in any
-- order. A producer may stop for ever after any of them. A round of the consumer is one step.
pub mod Places
pub mod Fills
pub mod Tiles
pub mod Inv
pub mod Publish
pub mod Kept
pub mod Order
use lock_free_ring_buffer.Prelude.{
  ℕ, ◌+◌, ◌*◌, ◌≤◌, ◌<◌, ◌≡◌, ◌⊎◌, Bool, true, false, List, [], ◌∷◌, ◌++◌, length, Option, none,
  some,
}
use lock_free_ring_buffer.Word.{u32, u16, u64}
use lock_free_ring_buffer.Record.{Message, record_size}
use lock_free_ring_buffer.Ring.{Ring}
use lock_free_ring_buffer.Ring.Loop.{Round, retry, finish, Popped}
use lock_free_ring_buffer.Spsc.{pop_round}
use lock_free_ring_buffer.Mpsc.{Reservation, reserve, fill, publish}

abbrev pub Parcel : Type 0
Parcel = ℕ × List ℕ

-- A producer between its exchange and its publication.
pub record Pending : Type 0 where
  pub place : Reservation
  pub parcel : Parcel
  pub filled : Bool

-- The heads that producers have loaded, the producers with a reservation, in its order, and, which
-- is no part of the program, what was reserved, published and popped, in these orders.
pub record State : Type 0 where
  pub ring : Ring
  pub looks : List ℕ
  pub pending : List Pending
  pub reserved : List Parcel
  pub published : List Parcel
  pub popped : List Message

abbrev pub Among : {A : Type 0} → A → List A → Type 0
Among h [] = ⊥
Among h (l ∷ ls) = (h ≡ l) ⊎ Among h ls

abbrev pub needed_of : Parcel → ℕ
needed_of p = record_size (length p.1)

-- After the exchange: a return of false changes nothing.
abbrev pub after_reserve : State → Parcel → Option (Ring × Reservation) → State
after_reserve x p none = x
after_reserve x p (some (r, v)) = record x {
  ring = r;
  pending = x.pending ++ record { place = v; parcel = p; filled = false } ∷ [];
  reserved = x.reserved ++ p ∷ [];
}

abbrev pub after_fill : State → List Pending → Pending → List Pending → State
after_fill x before p after = record x {
  ring = fill x.ring p.place (length p.parcel.1) p.parcel.0 p.parcel.1;
  pending = before ++ record p { filled = true } ∷ after;
}

-- After a look at the tail: the producer goes on waiting, or publishes.
abbrev pub after_publish : State → List Pending → Pending → List Pending → Option Ring → State
after_publish x before p after none = x
after_publish x before p after (some r) = record x {
  ring = r;
  pending = before ++ after;
  published = x.published ++ p.parcel ∷ [];
}

abbrev pub as_message : Popped → Message
as_message p = record { type = p.type; sequence = p.sequence; payload = p.out }

-- After a round of the consumer, which gives a new vector each time.
abbrev pub after_pop : State → Round (Option Popped) → State
after_pop x (retry r) = record x { ring = r }
after_pop x (finish r none) = record x { ring = r }
after_pop x (finish r (some p)) = record x { ring = r; popped = x.popped ++ as_message p ∷ [] }

-- A step of a producer.
pub data PushStep (x : State) : State → Type 0 where
  load_head : PushStep x (record x { looks = x.ring.head_publish ∷ x.looks })
  exchange :
      (h : ℕ) (p : Parcel)
      → Among h x.looks
      → length p.1 < u32
      → p.0 < u16
      → needed_of p ≤ x.ring.capacity
      → PushStep x (after_reserve x p (reserve h x.ring (needed_of p)))
  fills :
      (before : List Pending) (p : Pending) (after : List Pending)
      → x.pending ≡ before ++ p ∷ after
      → p.filled ≡ false
      → PushStep x (after_fill x before p after)
  publishes :
      (before : List Pending) (p : Pending) (after : List Pending)
      → x.pending ≡ before ++ p ∷ after
      → p.filled ≡ true
      → PushStep x (after_publish x before p after (publish x.ring p.place (needed_of p.parcel)))

pub data Step (x : State) : State → Type 0 where
  push : {y : State} → PushStep x y → Step x y
  pop : Step x (after_pop x (pop_round [] x.ring))

-- The counters stand some rounds before the end of their 64 bits.
abbrev pub Roomy : State → Type 0
Roomy x = (x.ring.tail_reserve + 3 * x.ring.capacity < u64) × (x.ring.sequence + 1 < u64)

-- Runs whose steps start away from the end of the counters' bits.
pub data Reach (x : State) : State → Type 0 where
  here : Reach x x
  later : {y z : State} → Reach x y → Roomy y → Step y z → Reach x z

abbrev pub initial : Ring → State
initial r = record {
  ring = r;
  looks = [];
  pending = [];
  reserved = [];
  published = [];
  popped = [];
}
