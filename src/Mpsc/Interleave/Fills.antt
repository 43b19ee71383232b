-- ===== src/Mpsc/Interleave/Fills.antt =====
-- The fill of a reserved place and the store of its number, in `detail::try_push`
-- (include/lf_ring/ring_writer.hpp): which bytes they change, and what they leave.
use native.Mathlib.Nat.{mod-lt}
use native.Mathlib.Decide.{dec_lt}
use lock_free_ring_buffer.Prelude.{
  ℕ, ◌+◌, ◌*◌, ◌/◌, ◌++◌, ◌%◌, ◌≤◌, ◌<◌, ◌≡◌, refl, sym, ap, subst, ◌∙◌, inl, inr, arith, ltb, leb,
  lt→ltb, lt→leb, le→leb, List, [], ◌∷◌, length, if◌then◌else◌, ◌&&◌,
}
use lock_free_ring_buffer.Word.{u64, u32, u16}
use lock_free_ring_buffer.Memory.{
  Memory, Apart, load_int-agree, load_int-store_int_self, load_bytes-agree, store_int,
  store_int_outside, load_int,
}
use lock_free_ring_buffer.Record.{
  Message, record_size, record_size_lem, RecordAt, write_record, write_wrap, write_record_outside,
  write_record-RecordAt, write_wrap_outside, write_wrap_flags, read_header,
}
use lock_free_ring_buffer.Ring.{Ring}
use lock_free_ring_buffer.Ring.Spans.{Span, gap, message, MessageAt, Chain}
use lock_free_ring_buffer.Ring.Regions.{Clear-before, Only, missed, Chain-Clear, Chain-append}
use lock_free_ring_buffer.Mpsc.{Reservation, fill, position}
use lock_free_ring_buffer.Mpsc.Interleave.Places.{Shape, total}

-- The gap before a record that goes to the start of the ring.
abbrev pub lead : Reservation → List Span
lead v = if ltb 0 v.padding then gap ∷ [] else []

-- A reservation whose record is written, with some number.
pub record Filled (m : Memory) (cap : ℕ) (v : Reservation) (type : ℕ) (payload : List ℕ)
    : Type 0 where
  pub number : ℕ
  pub lead_at : Chain m cap v.start (lead v) (v.start + v.padding)
  pub at :
      MessageAt m cap
        (v.start + v.padding)
        (record { type = type; sequence = number; payload = payload })

-- A change of the eight bytes of the number changes only the number.
renumber :
    (m m' : Memory) (pos : ℕ) (r : Message)
    → ((i : ℕ) → Apart (pos + 8) 8 i 1 → m i ≡ m' i)
    → RecordAt m pos r
    → RecordAt m' pos
        (record { type = r.type; sequence = load_int 8 m' (pos + 8); payload = r.payload })
renumber m m' pos r same a = record {
  size_at = sym (load_int-agree 4 m m' pos (λ i p q. same i (omega arith))) ∙ a.size_at;
  type_at = sym (load_int-agree 2 m m' (pos + 4) (λ i p q. same i (omega arith))) ∙ a.type_at;
  flags_at = sym (load_int-agree 2 m m' (pos + 6) (λ i p q. same i (omega arith))) ∙ a.flags_at;
  sequence_at = refl;
  payload_at =
      sym (load_bytes-agree m m' (pos + 16) (length r.payload) (λ i p q. same i (omega arith)))
      ∙ a.payload_at;
}

abbrev wrapped : Memory → ℕ → Reservation → Memory
wrapped m cap v =
    if ltb 0 v.padding && (v.needs_wrap_record && leb 16 v.padding)
    then write_wrap m (v.start % cap)
    else m

module _ (m : Memory) (cap : ℕ) (v : Reservation) (type : ℕ) (payload : List ℕ) (pos : 0 < cap)
    (shape : Shape cap v (record_size (length payload))) (hs : length payload < u32)
    (ht : type < u16) where
  abbrev written : Memory
  written = write_record (wrapped m cap v) (position cap v) (length payload) type payload 0

  size : record_size (length payload) ≡ (length payload + 23) / 8 * 8
  size = record_size_lem (length payload) hs

  wrapped-Only : Only cap v.start v.padding m (wrapped m cap v)
  wrapped-Only i none_hit = elim shape.pads [
    | inl zero_pad ↦ rw zero_pad refl
    | inr (some_pad, end, flag) ↦ elim (dec_lt v.padding 16) [
      | yes short ↦ rw (lt→ltb 0 v.padding some_pad, flag, lt→leb 16 v.padding short) refl
      | no long ↦
          rw (lt→ltb 0 v.padding some_pad, flag, le→leb 16 v.padding (omega arith))
            (sym (
              write_wrap_outside m (v.start % cap) i (
                omega (
                  arith,
                  missed cap pos v.start v.padding i (omega (arith, mod-lt v.start pos)) none_hit,
                ))))
    ]
  ]

  wrap_here :
      0 < v.padding
      → v.needs_wrap_record ≡ leb 16 v.padding
      → 16 ≤ v.padding
      → wrapped m cap v ≡ write_wrap m (v.start % cap)
  wrap_here some_pad flag long =
      rw (lt→ltb 0 v.padding some_pad, flag, le→leb 16 v.padding long) refl

  lead-fill :
      (m' : Memory)
      → ((i : ℕ)
          → Apart (position cap v) (record_size (length payload)) i 1
          → wrapped m cap v i ≡ m' i)
      → Chain m' cap v.start (lead v) (v.start + v.padding)
  unfolding position read_header
  lead-fill m' same = elim shape.pads [
    | inl zero_pad ↦ rw zero_pad (omega arith)
    | inr (some_pad, end, flag) ↦ rw (lt→ltb 0 v.padding some_pad) (elim (dec_lt v.padding 16) [
      | yes short ↦ (inl (omega arith), omega arith)
      | no long ↦ (
        inr (
          omega arith,
          sym (
                load_int-agree 2 (wrapped m cap v) m' (v.start % cap + 6) (λ i p q.
                  same i (rw (lt→ltb 0 v.padding some_pad) (inl (omega (arith, shape.whole))))))
              ∙ ap (λ w. load_int 2 w (v.start % cap + 6)) (wrap_here some_pad flag (omega arith))
              ∙ write_wrap_flags m (v.start % cap),
        ),
        omega arith,
      )
    ])
  ]

module _ (r : Ring) (v : Reservation) (type : ℕ) (payload : List ℕ) (pos : 0 < r.capacity)
    (shape : Shape r.capacity v (record_size (length payload))) (hs : length payload < u32)
    (ht : type < u16) where
  abbrev after : Memory
  after = (fill r v (length payload) type payload).bytes

  abbrev here : ℕ
  here = position r.capacity v

  size' : record_size (length payload) ≡ (length payload + 23) / 8 * 8
  size' = record_size_lem (length payload) hs

  beside : (i : ℕ) → Apart here (16 + length payload) i 1 → after i ≡ wrapped r.bytes r.capacity v i
  unfolding fill write_record
  beside i apart =
      sym (store_int_outside 8 after (here + 8) 0 i (omega arith))
      ∙ write_record_outside (wrapped r.bytes r.capacity v) here (length payload) type payload 0 i
          apart

  -- The fill changes only bytes of the reservation.
  pub fill-Only : Only r.capacity v.start (total v (record_size (length payload))) r.bytes after
  fill-Only i none_hit =
      wrapped-Only r.bytes r.capacity v type payload pos shape hs ht i
        (λ c p q. none_hit c p (omega arith))
      ∙ sym (
          beside i (
            omega (
              arith,
              size',
              shape.at,
              missed r.capacity pos (v.start + v.padding) (record_size (length payload)) i
                  (omega (arith, shape.at, shape.fits))
                  (λ c p q. none_hit c (omega arith) (omega arith)),
            )))

  -- The fill leaves the record, and the gap before it.
  pub fill-Filled : Filled after r.capacity v type payload
  unfolding fill write_record
  fill-Filled = record {
    number = load_int 8 after (here + 8);
    lead_at =
        lead-fill r.bytes r.capacity v type payload pos shape hs ht after
          (λ i apart. sym (beside i (omega (arith, size'))));
    at = record {
      at =
          subst
            (λ p.
              RecordAt after p
                (record { type = type; sequence = load_int 8 after (here + 8); payload = payload }))
            (sym shape.at)
            (renumber _ after here _ (λ i apart. store_int_outside 8 after (here + 8) 0 i apart)
              (write_record-RecordAt (wrapped r.bytes r.capacity v) here type payload 0 hs ht
                (omega arith)));
      small = hs;
      within = omega (arith, shape.at, shape.fits);
    };
  }

pub number-Only :
    (m : Memory) (cap : ℕ) (v : Reservation) (size number : ℕ)
    → 0 < cap
    → 16 ≤ size
    → Shape cap v size
    → Only cap (v.start + v.padding) size m (store_int 8 m (position cap v + 8) number)
number-Only m cap v size number pos wide shape i none_hit = sym (
    store_int_outside 8 m (position cap v + 8) number i (
      omega (
        arith,
        shape.at,
        missed cap pos (v.start + v.padding) size i (omega (arith, shape.at, shape.fits)) none_hit,
      )))

-- The store of the number makes it the number of the record.
pub numbered :
    (m : Memory) (cap : ℕ) (v : Reservation) (type : ℕ) (payload : List ℕ) (number : ℕ)
    → 0 < cap
    → Shape cap v (record_size (length payload))
    → number < u64
    → Filled m cap v type payload
    → Chain
        (store_int 8 m (position cap v + 8) number)
        cap
        v.start
        (lead v ++ message (record { type = type; sequence = number; payload = payload }) ∷ [])
        (v.start + total v (record_size (length payload)))
numbered m cap v type payload number pos shape fits f =
    Chain-append m' cap v.start (lead v) (v.start + v.padding) (message r ∷ []) _
      (Chain-Clear cap pos m m' (v.start + v.padding) size only v.start (lead v)
        (v.start + v.padding)
        (Clear-before cap v.start _ (v.start + v.padding) size pos (omega arith)
          (omega (arith, shape.whole)))
        f.lead_at)
      (
        record {
          at =
              subst (λ p. RecordAt m' p r) (sym shape.at)
                (subst (λ n. RecordAt m' (position cap v) (record r { sequence = n }))
                  (load_int-store_int_self 8 m (position cap v + 8) number (omega arith))
                  (renumber m m' (position cap v) _
                    (λ i apart. sym (store_int_outside 8 m (position cap v + 8) number i apart))
                    (subst (λ p. RecordAt m p (record r { sequence = f.number })) shape.at
                      f.at.at)));
          small = f.at.small;
          within = f.at.within;
        },
        omega arith,
      )
  where
    size : ℕ
    size = record_size (length payload)

    r : Message
    r = record { type = type; sequence = number; payload = payload }

    m' : Memory
    m' = store_int 8 m (position cap v + 8) number

    wide : 16 ≤ size
    wide = omega (arith, record_size_lem (length payload) f.at.small)

    only : Only cap (v.start + v.padding) size m m'
    only = number-Only m cap v size number pos (omega (arith, wide)) shape
