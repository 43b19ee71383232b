-- ===== src/Spsc/Interleave/Ends.antt =====
-- A push of `SharedRingBufferSPSC` never waits for the consumer, and its loop ends.
use lock_free_ring_buffer.Prelude.{
  ℕ, ◌+◌, ◌%◌, ◌≤◌, ◌<◌, ◌≡◌, refl, ap, subst, ◌∙◌, ◌⊎◌, inl, inr, List, length, arith, Option,
  none, some, ◌==◌, eq→==, if◌then◌else◌,
}
use lock_free_ring_buffer.Record.{Message, record_size, record_size_lem}
use lock_free_ring_buffer.Ring.{Ring}
use lock_free_ring_buffer.Ring.Position.{add-rest-mod}
use lock_free_ring_buffer.Ring.Spans.{Span}
use lock_free_ring_buffer.Ring.Inv.{Inv as RingInv}
use lock_free_ring_buffer.Spsc.{claim_control}
use lock_free_ring_buffer.Spsc.History.{Parcel}
use lock_free_ring_buffer.Spsc.Parts.{
  Plan, refuse, skip, wrap, place, plan, store_wrap, store_body, store_number, store_tail_reserve,
  store_tail_publish, store_head_reserve, store_head_publish,
}
use lock_free_ring_buffer.Spsc.Interleave.{
  State, Producer, resting, starting, saw_head, wrapping, placing, numbering, moving, reserved,
  Roomy, Step, calls, loads_head, plans, tears, wraps, fills, numbers, reserves_tail,
  publishes_tail, dies, claims, loads_tail, tests, copies, reserves_head, publishes_head, Reach,
  here, later, initial, planned, Fits, after_publish,
}
use lock_free_ring_buffer.Spsc.Interleave.Facts.{Producing}
use lock_free_ring_buffer.Spsc.Interleave.Rounds.{Sound, plan-Sound}
use lock_free_ring_buffer.Spsc.Interleave.Inv.{Inv}
use lock_free_ring_buffer.Spsc.Interleave.Order.{Inv-Reach, Inv-initial}

-- How many steps of its own a push makes at most from each phase on.
abbrev steps_left : ℕ → ℕ → Producer → ℕ
steps_left cap tail resting = 0
steps_left cap tail (starting p) = if tail % cap == 0 then 6 else 11
steps_left cap tail (saw_head p head) = if tail % cap == 0 then 5 else 10
steps_left cap tail (wrapping p) = 9
steps_left cap tail (placing p) = 4
steps_left cap tail (numbering p) = 3
steps_left cap tail (moving p to none) = 8
steps_left cap tail (moving p to (some m)) = 2
steps_left cap tail (reserved p to none) = 7
steps_left cap tail (reserved p to (some m)) = 1

abbrev left_of : State → ℕ
left_of x = steps_left x.ring.capacity x.ring.tail_publish x.producer

-- The steps of a call that are its own; a write of a part of the bytes belongs to the write.
abbrev pub counted : {x y : State} → Step x y → ℕ → ℕ
counted (calls p e fits) n = 0
counted (loads_head p e) n = n + 1
counted (plans p head e) n = n + 1
counted (tears k m' w same) n = n
counted (wraps p e) n = n + 1
counted (fills p e) n = n + 1
counted (numbers p e) n = n + 1
counted (reserves_tail p tail m e) n = n + 1
counted (publishes_tail p tail m e) n = n + 1
counted dies n = n
counted (claims e) n = n
counted (loads_tail e) n = n
counted (tests tail e) n = n
counted (copies head size e) n = n
counted (reserves_head head s e ready) n = n
counted (publishes_head head s e) n = n

-- How many a push has made since its call.
pub spent : {x y : State} → Reach x y → ℕ
spent here = 0
spent (later run room step) = counted step (spent run)

module _ {n₀ : ℕ} {ms : List Message} (x : State) (v : Inv n₀ ms x) (room : Roomy x) where
  -- The bound from a phase that the producer is in.
  from_phase :
      {p : Producer} → x.producer ≡ p → left_of x ≡ steps_left x.ring.capacity x.ring.tail_publish p
  from_phase e = ap (steps_left x.ring.capacity x.ring.tail_publish) e

  in_phase :
      {p : Producer}
      → x.producer ≡ p
      → Producing x.ring.bytes x.ring.capacity x.ring.head_publish x.ring.tail_publish
          x.ring.sequence v.last p
  in_phase e =
      subst
        (Producing x.ring.bytes x.ring.capacity x.ring.head_publish x.ring.tail_publish
          x.ring.sequence v.last)
        e v.producer

  -- At the start of the ring the tests do not ask for a skip.
  planned_less :
      (p : Parcel) (head : ℕ) (q : Plan)
      → Fits x.ring.capacity p
      → Sound x.ring (record_size (length p.1)) q
      → steps_left x.ring.capacity x.ring.tail_publish (planned x.ring p q)
        < steps_left x.ring.capacity x.ring.tail_publish (saw_head p head)
  planned_less p head refuse fits s = ground arith
  planned_less p head skip fits s = ground (arith, s, fits, record_size_lem (length p.1) fits.0)
  planned_less p head wrap fits s = ground (arith, s, fits, record_size_lem (length p.1) fits.0)
  planned_less p head place fits s = ground arith

  published_less :
      (p : Parcel) (tail : ℕ) (m : Option Message)
      → x.producer ≡ reserved p tail m
      → steps_left x.ring.capacity tail (after_publish p m)
        < steps_left x.ring.capacity x.ring.tail_publish (reserved p tail m)
  published_less p tail none e =
      let at_start : tail % x.ring.capacity ≡ 0 =
        ap (λ t. t % x.ring.capacity) (in_phase e).1.1
        ∙ add-rest-mod x.ring.capacity x.ring.tail_publish v.ring.positive in
      rw (eq→== (tail % x.ring.capacity) 0 at_start) (omega arith)
  published_less p tail (some m) e = omega arith

  counted_lem :
      (n : ℕ) {y : State} (s : Step x y) → n + left_of x ≤ 11 → counted s n + left_of y ≤ 11
  unfolding store_wrap store_body store_number store_tail_reserve store_tail_publish
      store_head_reserve store_head_publish claim_control
  counted_lem n (calls p e fits) h = ground arith
  counted_lem n (loads_head p e) h = ground (arith, from_phase e, h)
  counted_lem n (plans p head e) h =
      let (fits, old, near) = in_phase e in
      omega (
        arith,
        from_phase e,
        h,
        planned_less p head (plan head (length p.1) x.ring) fits
            (plan-Sound x.ring v.spans v.ring room.0 head (length p.1) old near fits.2),
      )
  counted_lem n (tears k m' w same) h = h
  counted_lem n (wraps p e) h = omega (arith, from_phase e, h)
  counted_lem n (fills p e) h = omega (arith, from_phase e, h)
  counted_lem n (numbers p e) h = omega (arith, from_phase e, h)
  counted_lem n (reserves_tail p tail none e) h = omega (arith, from_phase e, h)
  counted_lem n (reserves_tail p tail (some m) e) h = omega (arith, from_phase e, h)
  counted_lem n (publishes_tail p tail m e) h =
      omega (arith, from_phase e, h, published_less p tail m e)
  counted_lem n dies h = omega arith
  counted_lem n (claims e) h = h
  counted_lem n (loads_tail e) h = h
  counted_lem n (tests tail e) h = h
  counted_lem n (copies head size e) h = h
  counted_lem n (reserves_head head s e ready) h = h
  counted_lem n (publishes_head head s e) h = h

spent_lem :
    {n₀ : ℕ} {ms : List Message} {x y : State}
    → Inv n₀ ms x
    → (run : Reach x y) → left_of x ≡ 0
    → spent run + left_of y ≤ 11
unfolding spent
spent_lem v here rests = omega (arith, rests)
spent_lem v (later {y} run room step) rests =
    counted_lem y (Inv-Reach v run) room (spent run) step (spent_lem v run rests)

-- A step of its own that a push can make, wherever it is.
abbrev pub Going : State → Type 0
Going x = (y : State) × (s : Step x y) × ((n : ℕ) → counted s n ≡ n + 1)

next : (x : State) (p : Producer) → x.producer ≡ p → (x.producer ≡ resting) ⊎ Going x
next x resting e = inl e
next x (starting p) e = inr (_, loads_head p e, λ n. refl)
next x (saw_head p head) e = inr (_, plans p head e, λ n. refl)
next x (wrapping p) e = inr (_, wraps p e, λ n. refl)
next x (placing p) e = inr (_, fills p e, λ n. refl)
next x (numbering p) e = inr (_, numbers p e, λ n. refl)
next x (moving p tail m) e = inr (_, reserves_tail p tail m e, λ n. refl)
next x (reserved p tail m) e = inr (_, publishes_tail p tail m e, λ n. refl)

-- From a ring in order, in any interleaving of the accesses of one producer, which may die and be
-- replaced, and one consumer, each step being away from the end of the counters' bits: a push has made
-- at most eleven steps of its own since its call, and while it has not returned it can make another
-- one, whatever the consumer does in between.
pub push_never_waits :
    (r : Ring) (ss : List Span) (x : State)
    → RingInv r ss
    → (run : Reach (initial r) x) → (spent run ≤ 11) × ((x.producer ≡ resting) ⊎ Going x)
push_never_waits r ss x v run =
    (omega (arith, spent_lem (Inv-initial r ss v) run refl), next x x.producer refl)
