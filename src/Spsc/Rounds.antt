-- ===== src/Spsc/Rounds.antt =====
-- One round of `SharedRingBufferSPSC::try_push`: the record that it appends, the gap that it skips,
-- and when it does which.
use native.Mathlib.Nat.{mod-lt}
use native.Mathlib.Decide.{dec_lt}
use lock_free_ring_buffer.Prelude.{
  ℕ, ◌+◌, ◌-◌, ◌*◌, ◌/◌, ◌%◌, ◌≤◌, ◌<◌, ◌≡◌, refl, sym, ap, ◌∙◌, ◌⊎◌, inl, inr, List, [], ◌∷◌, ◌++◌,
  arith, Bool, true, false, ltb, leb, lt→leb, le→leb, if◌then◌else◌, length,
}
use lock_free_ring_buffer.Word.{u64, u32, u16, ◌+w◌}
use lock_free_ring_buffer.Record.{
  record_size, record_size_lem, write_wrap, write_wrap_outside, write_wrap_flags,
  write_record_outside, write_record-RecordAt, read_header,
}
use lock_free_ring_buffer.Ring.{Ring, set_tail}
use lock_free_ring_buffer.Ring.Position.{add-rest-mod}
use lock_free_ring_buffer.Ring.Spans.{Span, gap, message}
use lock_free_ring_buffer.Ring.Inv.{Inv, HasRoom, advanced-Inv, head-le-tail}
use lock_free_ring_buffer.Ring.Loop.{retry, finish}
use lock_free_ring_buffer.Spsc.{append_record, append_wrap, push_round}

-- The bytes that the producer skips to place a record of `needed` bytes in one piece.
abbrev pub padding : Ring → ℕ → ℕ
padding r needed =
    let remaining = r.capacity - r.tail_publish % r.capacity in
    if ltb remaining needed then remaining else 0

-- Whether the free bytes take the record and its padding.
abbrev pub accepts : Ring → ℕ → Bool
accepts r size =
    let needed = record_size size in
    leb (r.tail_publish - r.head_publish + padding r needed + needed) r.capacity

pub append_record-Inv :
    (r : Ring) (ss : List Span) (type : ℕ) (payload : List ℕ)
    → Inv r ss
    → r.tail_publish + 2 * r.capacity < u64
    → length payload < u32
    → type < u16
    → r.tail_publish % r.capacity + record_size (length payload) ≤ r.capacity
    → r.tail_publish + record_size (length payload) ≤ r.head_publish + r.capacity
    → Inv
        (append_record r (length payload) type payload)
        (ss ++ message (record { type = type; sequence = r.sequence +w 1; payload = payload }) ∷ [])
unfolding append_record
append_record-Inv r ss type payload v room hs ht fits free =
    advanced-Inv r ss _ _ (16 + length payload) _ _ _ v (omega (arith, size)) (omega (arith, size))
      (λ i a. sym (
        write_record_outside r.bytes (r.tail_publish % r.capacity) (length payload) type payload
          (r.sequence +w 1) i a))
      (record {
        at =
            write_record-RecordAt r.bytes (r.tail_publish % r.capacity) type payload
              (r.sequence +w 1) hs ht (omega arith);
        small = hs;
        within = fits;
      })
      (omega arith) (omega arith) (omega arith) (omega arith)
  where
    size : record_size (length payload) ≡ (length payload + 23) / 8 * 8
    size = record_size_lem (length payload) hs

pub append_record_outside :
    (r : Ring) (size type : ℕ) (payload : List ℕ) (i : ℕ)
    → r.tail_publish % r.capacity + 16 + length payload ≤ i
    → (append_record r size type payload).bytes i ≡ r.bytes i
unfolding append_record
append_record_outside r size type payload i far =
    write_record_outside r.bytes (r.tail_publish % r.capacity) size type payload (r.sequence +w 1) i
      (omega arith)

pub append_wrap_outside :
    (r : Ring) (i : ℕ)
    → r.capacity ≤ i
    → r.tail_publish % r.capacity < r.capacity
    → (append_wrap r).bytes i ≡ r.bytes i
unfolding append_wrap
append_wrap_outside r i far below = elim (dec_lt (r.capacity - r.tail_publish % r.capacity) 16) [
  | yes short ↦ rw (lt→leb 16 (r.capacity - r.tail_publish % r.capacity) short)
  | no long ↦
      rw (le→leb 16 (r.capacity - r.tail_publish % r.capacity) (omega arith))
        (write_wrap_outside r.bytes (r.tail_publish % r.capacity) i (omega arith))
]

abbrev pub rest : Ring → ℕ
rest r = r.capacity - r.tail_publish % r.capacity

pub append_wrap-Inv :
    (r : Ring) (ss : List Span)
    → Inv r ss
    → HasRoom r
    → r.tail_publish + rest r ≤ r.head_publish + r.capacity
    → Inv (append_wrap r) (ss ++ gap ∷ [])
unfolding append_wrap read_header
append_wrap-Inv r ss v room free = elim (dec_lt (rest r) 16) [
  | yes short ↦ rw (lt→leb 16 (rest r) short) (
      advanced-Inv r ss r.bytes gap 0 _ _ _ v (omega (arith, below)) (omega arith) (λ i a. refl)
        (inl short) (omega arith) (omega arith) (omega arith) v.number)
  | no long ↦ rw (le→leb 16 (rest r) (omega arith)) (
      advanced-Inv r ss (write_wrap r.bytes (r.tail_publish % r.capacity)) gap 16 _ _ _ v
        (omega (arith, below)) (omega arith)
        (λ i a. sym (write_wrap_outside r.bytes (r.tail_publish % r.capacity) i a))
        (inr (omega arith, write_wrap_flags r.bytes (r.tail_publish % r.capacity))) (omega arith)
        (omega arith) (omega arith) v.number)
]
  where
    below : r.tail_publish % r.capacity < r.capacity
    below = mod-lt r.tail_publish v.positive

-- What a skip leaves: the same ring with its tail at the start of the next round.
pub append_wrap_fields :
    (r : Ring)
    → HasRoom r
    → 0 < r.capacity
    → ((append_wrap r).tail_publish ≡ r.tail_publish + rest r)
      × ((append_wrap r).tail_publish % r.capacity ≡ 0)
      × ((append_wrap r).head_publish ≡ r.head_publish)
      × ((append_wrap r).capacity ≡ r.capacity)
      × ((append_wrap r).sequence ≡ r.sequence)
unfolding append_wrap
append_wrap_fields r room h = (
  omega arith,
  ap (λ t. t % r.capacity) (omega arith) ∙ add-rest-mod r.capacity r.tail_publish h,
  refl,
  refl,
  refl,
)

pub set_tail_short :
    (r : Ring) → rest r < 16 → set_tail r (r.tail_publish +w rest r) ≡ append_wrap r
unfolding append_wrap
set_tail_short r short = rw (lt→leb 16 (rest r) short)

-- A record that fits in one piece is appended, or the ring is full.
pub push_round_fits :
    (r : Ring) (ss : List Span) (size type : ℕ) (payload : List ℕ)
    → Inv r ss
    → r.tail_publish + 2 * r.capacity < u64
    → size < u32
    → record_size size ≤ rest r
    → push_round size type payload r ≡ (
        if leb (r.tail_publish - r.head_publish + record_size size) r.capacity
        then finish (append_record r size type payload) true
        else finish r false)
unfolding push_round
push_round_fits r ss size type payload v room hs fits =
    ground (arith, head-le-tail v, record_size_lem size hs, mod-lt r.tail_publish v.positive)

-- Another one makes the producer skip to the start, where it fits if there is room for both.
pub push_round_skips :
    (r : Ring) (ss : List Span) (size type : ℕ) (payload : List ℕ)
    → Inv r ss
    → HasRoom r
    → size < u32
    → record_size size ≤ r.capacity
    → rest r < record_size size
    → r.tail_publish + rest r + record_size size ≤ r.head_publish + r.capacity
    → push_round size type payload r ≡ retry (append_wrap r)
unfolding push_round
push_round_skips r ss size type payload v room hs small long free = elim (dec_lt (rest r) 16) [
  | yes short ↦ ground (
    arith,
    set_tail_short r short,
    head-le-tail v,
    record_size_lem size hs,
    mod-lt r.tail_publish v.positive,
  )
  | no big ↦
      ground (arith, head-le-tail v, record_size_lem size hs, mod-lt r.tail_publish v.positive)
]

-- Without room for both it gives up, at once or after a skip of fewer bytes than a header.
pub push_round_full :
    (r : Ring) (ss : List Span) (size type : ℕ) (payload : List ℕ)
    → Inv r ss
    → HasRoom r
    → size < u32
    → record_size size ≤ r.capacity
    → rest r < record_size size
    → r.head_publish + r.capacity < r.tail_publish + rest r + record_size size
    → (push_round size type payload r ≡ finish r false)
      ⊎ ((push_round size type payload r ≡ retry (append_wrap r))
          × (r.tail_publish + rest r ≤ r.head_publish + r.capacity))
unfolding push_round
push_round_full r ss size type payload v room hs small long full = elim (dec_lt (rest r) 16) [
  | yes short ↦ ground (
    arith,
    set_tail_short r short,
    head-le-tail v,
    record_size_lem size hs,
    mod-lt r.tail_publish v.positive,
  )
  | no big ↦
      inl
        (ground (arith, head-le-tail v, record_size_lem size hs, mod-lt r.tail_publish v.positive))
]
