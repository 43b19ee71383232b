-- ===== src/Spsc/Interleave/Order.antt =====
-- All runs of one producer, which may die and be replaced, and one consumer: what is published arrives
-- once, whole and in order.
use native.Mathlib.Nat.{mod-lt}
use lock_free_ring_buffer.Prelude.{
  ℕ, ◌+◌, ◌≡◌, refl, sym, subst, List, [], ◌++◌, length, arith, Option, none, some, append-nil,
}
use lock_free_ring_buffer.Word.{◌+w◌}
use lock_free_ring_buffer.Memory.{store_int_outside}
use lock_free_ring_buffer.Record.{
  Message, record_size, record_size_lem, write_wrap_outside, write_wrap,
}
use lock_free_ring_buffer.Ring.{Ring}
use lock_free_ring_buffer.Ring.Spans.{Span, messages}
use lock_free_ring_buffer.Ring.Inv.{Inv as RingInv, head-le-tail, advanced}
use lock_free_ring_buffer.Mpmc.{copy}
use lock_free_ring_buffer.Mpmc.Interleave.{holding}
use lock_free_ring_buffer.Mpmc.Interleave.Takes.{copied-Doing}
use lock_free_ring_buffer.Spsc.{claim_control}
use lock_free_ring_buffer.Spsc.History.{Parcel}
use lock_free_ring_buffer.Spsc.Parts.{
  place_of, rest_of, store_wrap, store_body, store_number, store_tail_reserve, store_tail_publish,
  store_head_reserve, store_head_publish, plan, pop_plan,
}
use lock_free_ring_buffer.Spsc.Interleave.{
  State, Producer, resting, starting, saw_head, wrapping, placing, numbering, moving, reserved,
  Consumer, saw_tail, taking, giving, Fits, Roomy, after_publish, Step, calls, loads_head, plans,
  tears, wraps, fills, numbers, reserves_tail, publishes_tail, dies, claims, loads_tail, tests,
  copies, reserves_head, publishes_head, Reach, here, later, initial, planned, decided,
}
use lock_free_ring_buffer.Spsc.Interleave.Facts.{
  Producing, Consuming, Writing-Room, Producing-write,
}
use lock_free_ring_buffer.Spsc.Interleave.Rounds.{
  planned_lem, decided_lem, wrapped_lem, filled_lem, body_outside,
}
use lock_free_ring_buffer.Spsc.Interleave.Inv.{
  Inv, Rising, Inv-producer, Inv-consumer, Inv-write, Inv-publish, Inv-head_reserve, Inv-take,
}

module _ {n₀ : ℕ} {ms : List Message} (x : State) (v : Inv n₀ ms x) (room : Roomy x) where
  -- What the invariant says of the phase that the producer, or the consumer, is in.
  abbrev At : Producer → Type 0
  At p =
      Producing x.ring.bytes x.ring.capacity x.ring.head_publish x.ring.tail_publish x.ring.sequence
        v.last p

  in_phase : {p : Producer} → x.producer ≡ p → At p
  in_phase e = subst At e v.producer

  abbrev AtConsumer : Consumer → Type 0
  AtConsumer c = Consuming x.ring.bytes x.ring.capacity x.ring.head_publish x.ring.tail_publish c

  pub consuming : {c : Consumer} → x.consumer ≡ c → AtConsumer c
  consuming e = subst AtConsumer e v.consumer

  Inv-wraps :
      (p : Parcel)
      → x.producer ≡ wrapping p
      → Inv n₀ ms (record x {
        ring = store_wrap x.ring;
        producer = moving p (x.ring.tail_publish +w rest_of x.ring) none;
      })
  unfolding store_wrap
  Inv-wraps p e =
      let (fits, wide, free) = in_phase e in
      Inv-write x v (write_wrap x.ring.bytes (place_of x.ring)) 16 x.ring.tail_reserve
        x.ring.sequence (moving p (x.ring.tail_publish +w rest_of x.ring) none) wide
        (λ i a. sym (write_wrap_outside x.ring.bytes (place_of x.ring) i a)) (omega arith)
        v.ring.number
        (
          fits,
          wrapped_lem x.ring x.ring.head_publish x.ring.sequence v.last (omega (arith, wide.0)) free
              room.0 v.ring.positive,
        )

  Inv-fills :
      (p : Parcel)
      → x.producer ≡ placing p
      → Inv n₀ ms
          (record x { ring = store_body x.ring (length p.1) p.0 p.1; producer = numbering p })
  unfolding store_body
  Inv-fills p e =
      let (fits, wide) = in_phase e in
      Inv-write x v _ (16 + length p.1) x.ring.tail_reserve x.ring.sequence (numbering p)
        (
          omega (arith, wide.0, record_size_lem (length p.1) fits.0),
          omega (arith, wide.1, record_size_lem (length p.1) fits.0),
        )
        (λ i a. body_outside x.ring p i a) (omega arith) v.ring.number
        (fits, wide, filled_lem x.ring p fits)

  Inv-numbers :
      (p : Parcel)
      → x.producer ≡ numbering p
      → Inv n₀ ms (record x {
        ring = store_number x.ring;
        producer =
            moving p
              (x.ring.tail_publish +w record_size (length p.1))
              (some (record { type = p.0; sequence = x.ring.sequence +w 1; payload = p.1 }));
      })
  unfolding store_number
  Inv-numbers p e =
      let (fits, wide, fillable) = in_phase e in
      let size = record_size_lem (length p.1) fits.0 in
      Inv-write x v _ (16 + length p.1) x.ring.tail_reserve (x.ring.sequence +w 1)
        (moving p (x.ring.tail_publish +w record_size (length p.1))
          (some (record { type = p.0; sequence = x.ring.sequence +w 1; payload = p.1 })))
        (omega (arith, wide.0, size), omega (arith, wide.1, size))
        (λ i a. sym (
          store_int_outside 8 x.ring.bytes (place_of x.ring + 8) (x.ring.sequence +w 1) i
            (omega arith)))
        (omega (arith, room.1)) (omega (arith, room.1))
        (
          fits,
          (
            record {
              at = fillable (x.ring.sequence +w 1) (omega (arith, room.1));
              small = fits.0;
              within = wide.0;
            },
            omega (arith, room.0, fits.2),
            omega (arith, room.0, fits.2, wide.1),
            (omega (arith, v.below, room.1), omega arith),
          ),
        )

  -- A store of no bytes leaves the phase as it is.
  Inv-counter :
      (reserve : ℕ) (p : Producer)
      → At p
      → Inv n₀ ms (record x {
        ring = advanced x.ring x.ring.bytes reserve x.ring.tail_publish x.ring.sequence;
        producer = p;
      })
  Inv-counter reserve p f =
      Inv-write x v x.ring.bytes 0 reserve x.ring.sequence p
        (omega (arith, mod-lt x.ring.tail_publish v.ring.positive), omega (arith, v.ring.window))
        (λ i a. refl) (omega arith) v.ring.number f

  published :
      (p : Parcel) (m : Option Message) (tail last : ℕ)
      → Fits x.ring.capacity p
      → Producing x.ring.bytes x.ring.capacity x.ring.head_publish tail x.ring.sequence last
          (after_publish p m)
  published p none tail last fits = fits
  published p (some m) tail last fits = tt

  pub Inv-Step : {y : State} → Step x y → Inv n₀ ms y
  unfolding store_tail_reserve store_tail_publish store_head_reserve store_head_publish
      claim_control
  Inv-Step (calls p e fits) = Inv-producer x v (starting p) fits
  Inv-Step (loads_head p e) =
      Inv-producer x v (saw_head p x.ring.head_publish) (in_phase e, omega arith, v.ring.window)
  Inv-Step (plans p head e) =
      let (fits, old, near) = in_phase e in
      Inv-producer x v (planned x.ring p (plan head (length p.1) x.ring))
        (planned_lem x.ring v.spans v.ring room.0 p head v.last fits old near)
  Inv-Step (tears n m' w same) =
      Inv-write x v m' n x.ring.tail_reserve x.ring.sequence x.producer
        (Writing-Room x.ring.bytes x.ring.capacity x.ring.head_publish x.ring.tail_publish
          x.ring.sequence v.last x.producer n w v.producer)
        same (omega arith) v.ring.number
        (Producing-write x.ring.bytes m' x.ring.capacity x.ring.head_publish x.ring.tail_publish
          x.ring.sequence v.last x.producer n w v.producer)
  Inv-Step (wraps p e) = Inv-wraps p e
  Inv-Step (fills p e) = Inv-fills p e
  Inv-Step (numbers p e) = Inv-numbers p e
  Inv-Step (reserves_tail p tail m e) = Inv-counter tail (reserved p tail m) (in_phase e)
  Inv-Step (publishes_tail p tail m e) =
      let (fits, prepared) = in_phase e in
      Inv-publish x v tail m (after_publish p m) prepared
        (omega (arith, prepared.2, head-le-tail v.ring, room.0))
        (λ last. published p m tail last fits)
  Inv-Step dies = Inv-producer x v resting tt
  Inv-Step (claims e) = Inv-counter x.ring.tail_publish x.producer v.producer
  Inv-Step (loads_tail e) =
      Inv-consumer x v (saw_tail x.ring.tail_publish)
        (omega (arith, head-le-tail v.ring), omega arith)
  Inv-Step (tests tail e) =
      let (after, before) = consuming e in
      Inv-consumer x v (decided (pop_plan tail x.ring))
        (decided_lem x.ring tail v.ring.word v.ring.positive after before v.spans v.ring.chain)
  Inv-Step (copies head size e) =
      let (s, d, c, end) = consuming e in
      Inv-consumer x v (taking head (holding (copy x.ring x.ring.head_publish size [])))
        (s, copied-Doing x.ring x.ring.head_publish size s c.0 d, c, end)
  Inv-Step (reserves_head head s e ready) =
      Inv-head_reserve x v head (giving head s) (consuming e, ready)
  Inv-Step (publishes_head head s e) = Inv-take x v head s (consuming e).0 (consuming e).1

pub Inv-Reach : {n₀ : ℕ} {ms : List Message} {x y : State} → Inv n₀ ms x → Reach x y → Inv n₀ ms y
Inv-Reach v here = v
Inv-Reach v (later {y} run room step) = Inv-Step y (Inv-Reach v run) room step

pub Inv-initial :
    (r : Ring) (ss : List Span) → RingInv r ss → Inv r.sequence (messages ss) (initial r)
Inv-initial r ss v = record {
  spans = ss;
  ring = v;
  fifo = sym (append-nil (messages ss));
  last = r.sequence;
  rising = omega arith;
  below = omega arith;
  producer = tt;
  consumer = tt;
}

pub record Delivered (r : Ring) (ss : List Span) (x : State) : Type 0 where
  pub spans : List Span
  pub inv : RingInv x.ring spans
  pub fifo : x.popped ++ messages spans ≡ messages ss ++ x.sent
  pub last : ℕ
  pub rising : Rising r.sequence x.sent last

-- From a ring in order, in any interleaving of the accesses of one producer and one consumer, each
-- step being away from the end of the counters' bits, and wherever in a push the producer dies and is
-- replaced: the bytes are in order after each step; what was handed over and then what the ring
-- holds is what it held at first and then the published messages, each once, whole and in the order
-- of the pushes; and the published messages have rising sequence numbers.
pub one_producer_fifo :
    (r : Ring) (ss : List Span) (x : State) → RingInv r ss → Reach (initial r) x → Delivered r ss x
one_producer_fifo r ss x v run =
    let w = Inv-Reach (Inv-initial r ss v) run in
    record { spans = w.spans; inv = w.ring; fifo = w.fifo; last = w.last; rising = w.rising }
