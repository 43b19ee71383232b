-- ===== src/Spsc/Interleave/Rounds.antt =====
-- What the tests of a round see of a ring in order, when the counter of the other side that they use
-- may be old; and what the producer's stores to the bytes leave at the tail.
use native.Mathlib.Nat.{mod-lt}
use lock_free_ring_buffer.Prelude.{
  ℕ, ◌+◌, ◌-◌, ◌*◌, ◌≤◌, ◌<◌, ◌≡◌, refl, sym, ◌∙◌, inl, inr, List, [], ◌∷◌, length, arith, none,
  Bool-cases, ltb, ◌==◌, eq→==, if◌then◌else◌,
}
use lock_free_ring_buffer.Word.{u64, ◌+w◌}
use lock_free_ring_buffer.Memory.{Apart, store_bytes_outside}
use lock_free_ring_buffer.Record.{
  Message, record_size, record_size_lem, message_size, read_header, write_wrap_flags,
  write_record-RecordAt, write_record, write_header_outside,
}
use lock_free_ring_buffer.Ring.{Ring}
use lock_free_ring_buffer.Ring.Spans.{Span, gap, message, span_size, Chain, Chain-le}
use lock_free_ring_buffer.Ring.Inv.{Inv, head-le-tail}
use lock_free_ring_buffer.Mpmc.{leave, skip_to, take_to}
use lock_free_ring_buffer.Spsc.History.{Parcel}
use lock_free_ring_buffer.Spsc.Parts.{
  Plan, refuse, skip, wrap, place, place_of, rest_of, plan, store_wrap, store_body, pop_plan,
}
use lock_free_ring_buffer.Spsc.Interleave.{planned, decided, Fits}
use lock_free_ring_buffer.Spsc.Interleave.Facts.{Producing, Consuming, Room, Prepared, Fillable}

-- What each plan needs.
abbrev pub Sound : Ring → ℕ → Plan → Type 0
Sound r n refuse = Unit
Sound r n skip = (rest_of r < 16) × (r.tail_publish + rest_of r ≤ r.head_publish + r.capacity)
Sound r n wrap =
    (rest_of r < n) × (16 ≤ rest_of r) × (r.tail_publish + rest_of r ≤ r.head_publish + r.capacity)
Sound r n place = Room r.capacity r.head_publish r.tail_publish n

module _ (r : Ring) (ss : List Span) (v : Inv r ss)
    (room : r.tail_publish + 3 * r.capacity < u64) where
  -- An old head makes the free bytes look fewer than they are.
  pub plan-Sound :
      (head size : ℕ)
      → head ≤ r.head_publish
      → r.tail_publish ≤ head + r.capacity
      → record_size size ≤ r.capacity
      → Sound r (record_size size) (plan head size r)
  unfolding plan
  plan-Sound head size old near small =
      ground (arith, head-le-tail v, mod-lt r.tail_publish v.positive)

  pub planned_lem :
      (p : Parcel) (head bound : ℕ)
      → Fits r.capacity p
      → head ≤ r.head_publish
      → r.tail_publish ≤ head + r.capacity
      → Producing r.bytes r.capacity r.head_publish r.tail_publish r.sequence bound
          (planned r p (plan head (length p.1) r))
  planned_lem p head bound fits old near =
      prepare (plan head (length p.1) r) (plan-Sound head (length p.1) old near fits.2)
    where
      prepare :
          (q : Plan)
          → Sound r (record_size (length p.1)) q
          → Producing r.bytes r.capacity r.head_publish r.tail_publish r.sequence bound
              (planned r p q)
      prepare refuse s = tt
      prepare skip (short, free) = (
        fits,
        (
          inl short,
          omega (arith, mod-lt r.tail_publish v.positive),
          omega (arith, mod-lt r.tail_publish v.positive, free),
          tt,
        ),
      )
      prepare wrap (big, long, free) =
          (fits, (omega (arith, mod-lt r.tail_publish v.positive), omega arith), free)
      prepare place s = (fits, s)

-- An old tail hides the spans after it.
module _ (r : Ring) (tail : ℕ) (word : r.tail_publish < u64) (pos : 0 < r.capacity)
    (after : r.head_publish ≤ tail) (before : tail ≤ r.tail_publish) where
  sees_gap :
      (ss : List Span)
      → Chain r.bytes r.capacity r.head_publish (gap ∷ ss) r.tail_publish
      → pop_plan tail r ≡ (
          if r.head_publish == tail
          then leave
          else skip_to (r.head_publish + span_size r.capacity r.head_publish gap))
  unfolding pop_plan read_header
  sees_gap ss c = elim c.0 [
    | inl short ↦ ground (arith, mod-lt r.head_publish pos, ends)
    | inr (long, flag) ↦ rw flag (ground (arith, mod-lt r.head_publish pos, ends))
  ]
    where
      ends : r.head_publish + span_size r.capacity r.head_publish gap ≤ r.tail_publish
      ends =
          Chain-le r.bytes r.capacity (r.head_publish + span_size r.capacity r.head_publish gap) ss
            r.tail_publish c.1

  sees_message :
      (m : Message) (ss : List Span)
      → Chain r.bytes r.capacity r.head_publish (message m ∷ ss) r.tail_publish
      → pop_plan tail r ≡ (
          if ltb (tail - r.head_publish) (message_size m)
          then leave
          else take_to (r.head_publish + message_size m) (length m.payload))
  unfolding pop_plan read_header
  sees_message m ss c = rw c.0.at.flags_at (
      rw c.0.at.size_at
        (ground (arith, c.0.within, record_size_lem (length m.payload) c.0.small, ends)))
    where
      ends : r.head_publish + message_size m ≤ r.tail_publish
      ends = Chain-le r.bytes r.capacity (r.head_publish + message_size m) ss r.tail_publish c.1

  claim :
      (s : Span) (ss : List Span)
      → Chain r.bytes r.capacity r.head_publish (s ∷ ss) r.tail_publish
      → Chain r.bytes r.capacity r.head_publish
          (s ∷ [])
          (r.head_publish + span_size r.capacity r.head_publish s)
        × (r.head_publish + span_size r.capacity r.head_publish s ≤ r.tail_publish)
  claim s ss c = (
    (c.0, refl),
    Chain-le r.bytes r.capacity (r.head_publish + span_size r.capacity r.head_publish s) ss
        r.tail_publish c.1,
  )

  pub decided_lem :
      (ss : List Span)
      → Chain r.bytes r.capacity r.head_publish ss r.tail_publish
      → Consuming r.bytes r.capacity r.head_publish r.tail_publish (decided (pop_plan tail r))
  unfolding pop_plan
  decided_lem [] c = rw (eq→== r.head_publish tail (omega arith)) tt
  decided_lem (gap ∷ ss) c = rw (sees_gap ss c) (elim (Bool-cases (r.head_publish == tail)) [
    | inl nothing ↦ rw nothing tt
    | inr something ↦ rw something (let (one, end) = claim gap ss c in (gap, tt, one, end))
  ])
  decided_lem (message m ∷ ss) c =
      rw (sees_message m ss c) (elim (Bool-cases (ltb (tail - r.head_publish) (message_size m))) [
        | inl nothing ↦ rw nothing tt
        | inr something ↦
            rw something (let (one, end) = claim (message m) ss c in (message m, refl, one, end))
      ])

-- A wrap record is a gap.
pub wrapped_lem :
    (r : Ring) (head number bound : ℕ)
    → 16 ≤ rest_of r
    → r.tail_publish + rest_of r ≤ head + r.capacity
    → r.tail_publish + 3 * r.capacity < u64
    → 0 < r.capacity
    → Prepared
        (store_wrap r).bytes
        r.capacity
        head
        r.tail_publish
        number
        bound
        (r.tail_publish +w rest_of r)
        none
unfolding store_wrap read_header
wrapped_lem r head number bound long free room pos = (
  inr (long, write_wrap_flags r.bytes (place_of r)),
  omega (arith, mod-lt r.tail_publish pos),
  omega (arith, mod-lt r.tail_publish pos, free),
  tt,
)

-- The body of a record takes any number.
pub filled_lem :
    (r : Ring) (p : Parcel)
    → Fits r.capacity p
    → Fillable (store_body r (length p.1) p.0 p.1).bytes r.capacity r.tail_publish p
unfolding store_body write_record
filled_lem r p fits n small =
    write_record-RecordAt r.bytes (place_of r) p.0 p.1 n fits.0 fits.1 small

pub body_outside :
    (r : Ring) (p : Parcel) (i : ℕ)
    → Apart (place_of r) (16 + length p.1) i 1
    → r.bytes i ≡ (store_body r (length p.1) p.0 p.1).bytes i
unfolding store_body write_record
body_outside r p i apart = sym (
    store_bytes_outside _ (place_of r + 16) p.1 i (omega arith)
    ∙ write_header_outside r.bytes (place_of r) _ i (omega arith))
