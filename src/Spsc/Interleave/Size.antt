-- ===== src/Spsc/Interleave/Size.antt =====
-- `SharedRingBufferSPSC::approx_size`, called by anyone while the producer and the consumer are at work.
use lock_free_ring_buffer.Prelude.{ℕ, ◌+◌, ◌≤◌, ◌≡◌, refl, List, arith}
use lock_free_ring_buffer.Record.{Message}
use lock_free_ring_buffer.Ring.{Ring, size_between}
use lock_free_ring_buffer.Ring.Spans.{Span}
use lock_free_ring_buffer.Ring.Inv.{Inv as RingInv, head-le-tail}
use lock_free_ring_buffer.Spsc.{claim_control}
use lock_free_ring_buffer.Spsc.Parts.{
  store_wrap, store_body, store_number, store_tail_reserve, store_tail_publish, store_head_reserve,
  store_head_publish,
}
use lock_free_ring_buffer.Spsc.Interleave.{
  State, Step, calls, loads_head, plans, tears, wraps, fills, numbers, reserves_tail,
  publishes_tail, dies, claims, loads_tail, tests, copies, reserves_head, publishes_head, Reach,
  here, later, initial, Roomy,
}
use lock_free_ring_buffer.Spsc.Interleave.Inv.{Inv}
use lock_free_ring_buffer.Spsc.Interleave.Order.{Inv-Reach, Inv-initial, consuming}

-- The head only grows, and the capacity stays.
abbrev Onward : Ring → Ring → Type 0
Onward r s = (r.head_publish ≤ s.head_publish) × (s.capacity ≡ r.capacity)

Step-Onward :
    {n₀ : ℕ} {ms : List Message} (x : State)
    → Inv n₀ ms x
    → Roomy x
    → {y : State} → Step x y
    → Onward x.ring y.ring
unfolding store_wrap store_body store_number store_tail_reserve store_tail_publish
    store_head_reserve store_head_publish claim_control
Step-Onward x v room (calls p e fits) = (omega arith, refl)
Step-Onward x v room (loads_head p e) = (omega arith, refl)
Step-Onward x v room (plans p head e) = (omega arith, refl)
Step-Onward x v room (tears n m' w same) = (omega arith, refl)
Step-Onward x v room (wraps p e) = (omega arith, refl)
Step-Onward x v room (fills p e) = (omega arith, refl)
Step-Onward x v room (numbers p e) = (omega arith, refl)
Step-Onward x v room (reserves_tail p tail m e) = (omega arith, refl)
Step-Onward x v room (publishes_tail p tail m e) = (omega arith, refl)
Step-Onward x v room dies = (omega arith, refl)
Step-Onward x v room (claims e) = (omega arith, refl)
Step-Onward x v room (loads_tail e) = (omega arith, refl)
Step-Onward x v room (tests tail e) = (omega arith, refl)
Step-Onward x v room (copies head size e) = (omega arith, refl)
Step-Onward x v room (reserves_head head s e ready) = (omega arith, refl)
Step-Onward x v room (publishes_head head s e) =
    let ((sp, d, c, end), ready) = consuming x v room e in (omega (arith, c.1), refl)

Reach-Onward :
    {n₀ : ℕ} {ms : List Message} {x y : State} → Inv n₀ ms x → Reach x y → Onward x.ring y.ring
Reach-Onward v here = (omega arith, refl)
Reach-Onward v (later {y} run room step) =
    let (on, same) = Reach-Onward v run in
    let (on', same') = Step-Onward y (Inv-Reach v run) room step in
    (omega (arith, on, on'), omega (arith, same, same'))

-- From a ring in order, in any interleaving of the accesses of one producer, which may die and be
-- replaced, and one consumer, each step being away from the end of the counters' bits, with any
-- number of steps between the two loads: what `approx_size` returns is no more than the capacity, no
-- less than the bytes that the ring holds at the second load, and no more than these and what the
-- consumer took between the loads.
pub approx_size_bounds :
    (r : Ring) (ss : List Span) (x y : State)
    → RingInv r ss
    → Reach (initial r) x
    → Reach x y
    → let n = size_between y.ring.capacity x.ring.head_publish y.ring.tail_publish in
      (n ≤ y.ring.capacity)
      × (y.ring.tail_publish ≤ y.ring.head_publish + n)
      × (x.ring.head_publish + n ≤ y.ring.tail_publish)
unfolding size_between
approx_size_bounds r ss x y v first second =
    let w = Inv-Reach (Inv-initial r ss v) first in
    let u = Inv-Reach w second in
    ground (arith, Reach-Onward w second, u.ring.window, u.ring.word, head-le-tail u.ring)
