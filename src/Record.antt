-- ===== src/Record.antt =====
-- The records of the byte rings: `RecordHeader` of include/lf_ring/ring_layout.hpp as it stands in
-- the ring's bytes, and how include/lf_ring/ring_writer.hpp and src/shared_ring_buffer*.cpp write
-- and read one.
use lock_free_ring_buffer.Prelude.{
  ℕ, ◌+◌, ◌*◌, ◌/◌, ◌≤◌, ◌<◌, ◌≡◌, sym, ap, ◌∙◌, List, length, arith,
}
use lock_free_ring_buffer.Word.{u64, u32, u16, ◌+w◌}
use lock_free_ring_buffer.Memory.{
  Memory, Apart, store_bytes, load_bytes, store_int, load_int, load_int-store_int_self,
  load_int-agree, load_int-store_int_elsewhere, load-store_self, load_bytes-agree,
  store_int_outside, store_bytes_outside,
}
use lock_free_ring_buffer.Layout.{
  align_up, align_up_eight, alignment, wrap_flag, sizeof_record_header,
}

pub record RecordHeader : Type 0 where
  pub size : ℕ
  pub type : ℕ
  pub flags : ℕ
  pub sequence : ℕ

-- The fields at their offsets 0, 4, 6 and 8.
unfoldable pub read_header : Memory → ℕ → RecordHeader
read_header m pos = record {
  size = load_int 4 m pos;
  type = load_int 2 m (pos + 4);
  flags = load_int 2 m (pos + 6);
  sequence = load_int 8 m (pos + 8);
}

unfoldable pub write_header : Memory → ℕ → RecordHeader → Memory
write_header m pos h =
    store_int 8
      (store_int 2 (store_int 2 (store_int 4 m pos h.size) (pos + 4) h.type) (pos + 6) h.flags)
      (pos + 8) h.sequence

-- The record that fills the end of the ring.
unfoldable pub write_wrap : Memory → ℕ → Memory
unfolding write_header
write_wrap m pos =
    write_header m pos (record { size = 0; type = 0; flags = wrap_flag; sequence = 0 })

-- A header with no sequence number, then the payload; the number follows.
unfoldable pub write_record : Memory → ℕ → ℕ → ℕ → List ℕ → ℕ → Memory
unfolding write_header
write_record m pos size type payload sequence =
    store_int 8
      (store_bytes
        (write_header m pos (record { size = size; type = type; flags = 0; sequence = 0 }))
        (pos + sizeof_record_header) payload)
      (pos + 8) sequence

-- `align_up(sizeof(RecordHeader) + size, kAlignment)`
unfoldable pub record_size : ℕ → ℕ
unfolding align_up
record_size size = align_up (sizeof_record_header +w size) alignment

pub record_size_lem : (n : ℕ) → n < u32 → record_size n ≡ (n + 23) / 8 * 8
unfolding record_size
record_size_lem n h = omega (arith, align_up_eight (sizeof_record_header +w n) (omega arith))

-- A message as a client sees it.
pub record Message : Type 0 where
  pub type : ℕ
  pub sequence : ℕ
  pub payload : List ℕ

abbrev pub message_size : Message → ℕ
message_size r = record_size (length r.payload)

pub record RecordAt (m : Memory) (pos : ℕ) (r : Message) : Type 0 where
  pub size_at : load_int 4 m pos ≡ length r.payload
  pub type_at : load_int 2 m (pos + 4) ≡ r.type
  pub flags_at : load_int 2 m (pos + 6) ≡ 0
  pub sequence_at : load_int 8 m (pos + 8) ≡ r.sequence
  pub payload_at : load_bytes m (pos + 16) (length r.payload) ≡ r.payload

-- Two memories with the same bytes in a range.
abbrev pub Agree : Memory → Memory → ℕ → ℕ → Type 0
Agree m m' a n = (i : ℕ) → a ≤ i → i < a + n → m i ≡ m' i

pub RecordAt-Agree :
    (m m' : Memory) (pos : ℕ) (r : Message)
    → Agree m m' pos (16 + length r.payload)
    → RecordAt m pos r
    → RecordAt m' pos r
RecordAt-Agree m m' pos r h a = record {
  size_at = sym (load_int-agree 4 m m' pos (λ i p q. h i (omega arith) (omega arith))) ∙ a.size_at;
  type_at =
      sym (load_int-agree 2 m m' (pos + 4) (λ i p q. h i (omega arith) (omega arith))) ∙ a.type_at;
  flags_at =
      sym (load_int-agree 2 m m' (pos + 6) (λ i p q. h i (omega arith) (omega arith))) ∙ a.flags_at;
  sequence_at =
      sym (load_int-agree 8 m m' (pos + 8) (λ i p q. h i (omega arith) (omega arith)))
      ∙ a.sequence_at;
  payload_at =
      sym (
        load_bytes-agree m m' (pos + 16) (length r.payload)
          (λ i p q. h i (omega arith) (omega arith)))
      ∙ a.payload_at;
}

-- The write of a header leaves the bytes outside it.
pub write_header_outside :
    (m : Memory) (pos : ℕ) (h : RecordHeader) (i : ℕ)
    → Apart pos 16 i 1
    → write_header m pos h i ≡ m i
unfolding write_header
write_header_outside m pos h i a =
    store_int_outside 8 _ (pos + 8) _ i (omega arith)
    ∙ store_int_outside 2 _ (pos + 6) _ i (omega arith)
    ∙ store_int_outside 2 _ (pos + 4) _ i (omega arith)
    ∙ store_int_outside 4 m pos _ i (omega arith)

-- A header that fits its fields is read back as it was written.
pub read-write_header :
    (m : Memory) (pos : ℕ) (h : RecordHeader)
    → h.size < u32
    → h.type < u16
    → h.flags < u16
    → h.sequence < u64
    → read_header (write_header m pos h) pos ≡ h
unfolding read_header write_header
read-write_header m pos h hs ht hf hq = λ i. record {
  size = size_back i;
  type = type_back i;
  flags = flags_back i;
  sequence = load_int-store_int_self 8 m₃ (pos + 8) h.sequence hq i;
}
  where
    m₁ : Memory
    m₁ = store_int 4 m pos h.size

    m₂ : Memory
    m₂ = store_int 2 m₁ (pos + 4) h.type

    m₃ : Memory
    m₃ = store_int 2 m₂ (pos + 6) h.flags

    size_back : load_int 4 (store_int 8 m₃ (pos + 8) h.sequence) pos ≡ h.size
    size_back =
        load_int-store_int_elsewhere 4 8 m₃ (pos + 8) h.sequence pos (omega arith)
        ∙ load_int-store_int_elsewhere 4 2 m₂ (pos + 6) h.flags pos (omega arith)
        ∙ load_int-store_int_elsewhere 4 2 m₁ (pos + 4) h.type pos (omega arith)
        ∙ load_int-store_int_self 4 m pos h.size hs

    type_back : load_int 2 (store_int 8 m₃ (pos + 8) h.sequence) (pos + 4) ≡ h.type
    type_back =
        load_int-store_int_elsewhere 2 8 m₃ (pos + 8) h.sequence (pos + 4) (omega arith)
        ∙ load_int-store_int_elsewhere 2 2 m₂ (pos + 6) h.flags (pos + 4) (omega arith)
        ∙ load_int-store_int_self 2 m₁ (pos + 4) h.type ht

    flags_back : load_int 2 (store_int 8 m₃ (pos + 8) h.sequence) (pos + 6) ≡ h.flags
    flags_back =
        load_int-store_int_elsewhere 2 8 m₃ (pos + 8) h.sequence (pos + 6) (omega arith)
        ∙ load_int-store_int_self 2 m₂ (pos + 6) h.flags hf

-- The write of a record leaves the bytes outside it.
pub write_record_outside :
    (m : Memory) (pos size type : ℕ) (payload : List ℕ) (sequence i : ℕ)
    → Apart pos (16 + length payload) i 1
    → write_record m pos size type payload sequence i ≡ m i
unfolding write_record
write_record_outside m pos size type payload sequence i a =
    store_int_outside 8 _ (pos + 8) _ i (omega arith)
    ∙ store_bytes_outside _ (pos + 16) payload i (omega arith)
    ∙ write_header_outside m pos _ i (omega arith)

pub write_wrap_outside : (m : Memory) (pos i : ℕ) → Apart pos 16 i 1 → write_wrap m pos i ≡ m i
unfolding write_wrap
write_wrap_outside m pos i a = write_header_outside m pos _ i a

pub write_wrap_flags : (m : Memory) (pos : ℕ) → (read_header (write_wrap m pos) pos).flags ≡ 1
unfolding write_wrap
write_wrap_flags m pos =
    ap (λ h. RecordHeader.flags h)
      (read-write_header m pos _ (omega arith) (omega arith) (omega arith) (omega arith))

-- What the write of a record leaves in memory is that record.
pub write_record-RecordAt :
    (m : Memory) (pos type : ℕ) (payload : List ℕ) (sequence : ℕ)
    → length payload < u32
    → type < u16
    → sequence < u64
    → RecordAt
        (write_record m pos (length payload) type payload sequence)
        pos
        (record { type = type; sequence = sequence; payload = payload })
unfolding write_record read_header
write_record-RecordAt m pos type payload sequence hs ht hq = record {
  size_at = size_back;
  type_at = type_back;
  flags_at = flags_back;
  sequence_at = load_int-store_int_self 8 _ (pos + 8) sequence hq;
  payload_at =
      load_bytes-agree _ m₂ (pos + 16) (length payload)
        (λ i p q. store_int_outside 8 m₂ (pos + 8) sequence i (omega arith))
      ∙ load-store_self m₁ (pos + 16) payload;
}
  where
    blank : RecordHeader
    blank = record { size = length payload; type = type; flags = 0; sequence = 0 }

    m₁ : Memory
    m₁ = write_header m pos blank

    m₂ : Memory
    m₂ = store_bytes m₁ (pos + 16) payload

    -- the header's first eight bytes survive the payload and the number
    kept : Agree (store_int 8 m₂ (pos + 8) sequence) m₁ pos 8
    kept i p q =
        store_int_outside 8 m₂ (pos + 8) sequence i (omega arith)
        ∙ store_bytes_outside m₁ (pos + 16) payload i (omega arith)

    back : read_header m₁ pos ≡ blank
    back = read-write_header m pos blank hs ht (omega arith) (omega arith)

    size_back : load_int 4 (store_int 8 m₂ (pos + 8) sequence) pos ≡ length payload
    size_back =
        load_int-agree 4 _ m₁ pos (λ i p q. kept i (omega arith) (omega arith))
        ∙ ap (λ h. RecordHeader.size h) back

    type_back : load_int 2 (store_int 8 m₂ (pos + 8) sequence) (pos + 4) ≡ type
    type_back =
        load_int-agree 2 _ m₁ (pos + 4) (λ i p q. kept i (omega arith) (omega arith))
        ∙ ap (λ h. RecordHeader.type h) back

    flags_back : load_int 2 (store_int 8 m₂ (pos + 8) sequence) (pos + 6) ≡ 0
    flags_back =
        load_int-agree 2 _ m₁ (pos + 6) (λ i p q. kept i (omega arith) (omega arith))
        ∙ ap (λ h. RecordHeader.flags h) back
