-- ===== src/Mapping/FileHeader.antt =====
-- The header and the control block of a new file, read back.
use lock_free_ring_buffer.Prelude.{ℕ, ◌+◌, ◌≤◌, ◌<◌, ◌≡◌, ◌∙◌, arith}
use lock_free_ring_buffer.Word.{u64, u32, u16}
use lock_free_ring_buffer.Memory.{
  Memory, Apart, store_int, load_int, load_int-store_int_self, load_int-store_int_elsewhere,
  load_int-agree, store_int_outside,
}
use lock_free_ring_buffer.Layout.{Header, ControlBlock}
use lock_free_ring_buffer.Mapping.{read_file_header, write_file_header, clear_control, read_control}

-- A header that fits its fields.
pub record FitsFields (h : Header) : Type 0 where
  pub magic_fits : h.magic_number < u32
  pub version_fits : h.version_number < u16
  pub size_fits : h.header_size < u16
  pub capacity_fits : h.capacity_bytes < u64
  pub control_fits : h.control_offset < u64
  pub ring_fits : h.ring_offset < u64
  pub align_fits : h.align < u64
  pub flags_fits : h.flags < u64

-- A load skips the later store to another place.
abbrev past :
    (k b w a v : ℕ) (m : Memory) → Apart a w b k → load_int k (store_int w m a v) b ≡ load_int k m b
past k b w a v m h = load_int-store_int_elsewhere k w m a v b h

-- Each field keeps its value under the stores to the others.
pub read-write_file_header :
    (m : Memory) (h : Header) → FitsFields h → read_file_header (write_file_header m h) ≡ h
unfolding read_file_header write_file_header
read-write_file_header m h f = λ i. record {
  magic_number = magic_number_back i;
  version_number = version_number_back i;
  header_size = header_size_back i;
  capacity_bytes = capacity_bytes_back i;
  control_offset = control_offset_back i;
  ring_offset = ring_offset_back i;
  align = align_back i;
  flags = flags_back i;
}
  where
    open h use {
      magic_number, version_number, header_size, capacity_bytes, control_offset, ring_offset, align,
      flags,
    }

    m0 : Memory
    m0 = store_int 4 m 0 magic_number

    m1 : Memory
    m1 = store_int 2 m0 4 version_number

    m2 : Memory
    m2 = store_int 2 m1 6 header_size

    m3 : Memory
    m3 = store_int 8 m2 8 capacity_bytes

    m4 : Memory
    m4 = store_int 8 m3 16 control_offset

    m5 : Memory
    m5 = store_int 8 m4 24 ring_offset

    m6 : Memory
    m6 = store_int 8 m5 32 align

    m7 : Memory
    m7 = store_int 8 m6 40 flags

    magic_number_back : load_int 4 m7 0 ≡ magic_number
    magic_number_back =
        past 4 0 8 40 flags m6 (omega arith)
        ∙ past 4 0 8 32 align m5 (omega arith)
        ∙ past 4 0 8 24 ring_offset m4 (omega arith)
        ∙ past 4 0 8 16 control_offset m3 (omega arith)
        ∙ past 4 0 8 8 capacity_bytes m2 (omega arith)
        ∙ past 4 0 2 6 header_size m1 (omega arith)
        ∙ past 4 0 2 4 version_number m0 (omega arith)
        ∙ load_int-store_int_self 4 m 0 magic_number f.magic_fits

    version_number_back : load_int 2 m7 4 ≡ version_number
    version_number_back =
        past 2 4 8 40 flags m6 (omega arith)
        ∙ past 2 4 8 32 align m5 (omega arith)
        ∙ past 2 4 8 24 ring_offset m4 (omega arith)
        ∙ past 2 4 8 16 control_offset m3 (omega arith)
        ∙ past 2 4 8 8 capacity_bytes m2 (omega arith)
        ∙ past 2 4 2 6 header_size m1 (omega arith)
        ∙ load_int-store_int_self 2 m0 4 version_number f.version_fits

    header_size_back : load_int 2 m7 6 ≡ header_size
    header_size_back =
        past 2 6 8 40 flags m6 (omega arith)
        ∙ past 2 6 8 32 align m5 (omega arith)
        ∙ past 2 6 8 24 ring_offset m4 (omega arith)
        ∙ past 2 6 8 16 control_offset m3 (omega arith)
        ∙ past 2 6 8 8 capacity_bytes m2 (omega arith)
        ∙ load_int-store_int_self 2 m1 6 header_size f.size_fits

    capacity_bytes_back : load_int 8 m7 8 ≡ capacity_bytes
    capacity_bytes_back =
        past 8 8 8 40 flags m6 (omega arith)
        ∙ past 8 8 8 32 align m5 (omega arith)
        ∙ past 8 8 8 24 ring_offset m4 (omega arith)
        ∙ past 8 8 8 16 control_offset m3 (omega arith)
        ∙ load_int-store_int_self 8 m2 8 capacity_bytes f.capacity_fits

    control_offset_back : load_int 8 m7 16 ≡ control_offset
    control_offset_back =
        past 8 16 8 40 flags m6 (omega arith)
        ∙ past 8 16 8 32 align m5 (omega arith)
        ∙ past 8 16 8 24 ring_offset m4 (omega arith)
        ∙ load_int-store_int_self 8 m3 16 control_offset f.control_fits

    ring_offset_back : load_int 8 m7 24 ≡ ring_offset
    ring_offset_back =
        past 8 24 8 40 flags m6 (omega arith)
        ∙ past 8 24 8 32 align m5 (omega arith)
        ∙ load_int-store_int_self 8 m4 24 ring_offset f.ring_fits

    align_back : load_int 8 m7 32 ≡ align
    align_back =
        past 8 32 8 40 flags m6 (omega arith) ∙ load_int-store_int_self 8 m5 32 align f.align_fits

    flags_back : load_int 8 m7 40 ≡ flags
    flags_back = load_int-store_int_self 8 m6 40 flags f.flags_fits

-- Clearing the control block leaves the bytes outside it.
pub clear_control_outside : (m : Memory) (at i : ℕ) → Apart at 320 i 1 → clear_control m at i ≡ m i
unfolding clear_control
clear_control_outside m at i h =
    store_int_outside 8 _ (at + 256) 0 i (omega arith)
    ∙ store_int_outside 8 _ (at + 192) 0 i (omega arith)
    ∙ store_int_outside 8 _ (at + 128) 0 i (omega arith)
    ∙ store_int_outside 8 _ (at + 64) 0 i (omega arith)
    ∙ store_int_outside 8 m at 0 i (omega arith)

pub read_file_header-agree :
    (m m' : Memory) → ((i : ℕ) → i < 48 → m i ≡ m' i) → read_file_header m ≡ read_file_header m'
unfolding read_file_header
read_file_header-agree m m' h = λ i. record {
  magic_number = load_int-agree 4 m m' 0 (λ j p q. h j (omega arith)) i;
  version_number = load_int-agree 2 m m' 4 (λ j p q. h j (omega arith)) i;
  header_size = load_int-agree 2 m m' 6 (λ j p q. h j (omega arith)) i;
  capacity_bytes = load_int-agree 8 m m' 8 (λ j p q. h j (omega arith)) i;
  control_offset = load_int-agree 8 m m' 16 (λ j p q. h j (omega arith)) i;
  ring_offset = load_int-agree 8 m m' 24 (λ j p q. h j (omega arith)) i;
  align = load_int-agree 8 m m' 32 (λ j p q. h j (omega arith)) i;
  flags = load_int-agree 8 m m' 40 (λ j p q. h j (omega arith)) i;
}

-- The control block of cleared words.
abbrev pub no_control : ControlBlock
no_control = record {
  head_reserve = 0;
  head_publish = 0;
  tail_reserve = 0;
  tail_publish = 0;
  sequence = 0;
}

pub read-clear_control : (m : Memory) (at : ℕ) → read_control (clear_control m at) at ≡ no_control
unfolding read_control clear_control
read-clear_control m at = λ i. record {
  head_reserve = head_reserve_clear i;
  head_publish = head_publish_clear i;
  tail_reserve = tail_reserve_clear i;
  tail_publish = tail_publish_clear i;
  sequence = sequence_clear i;
}
  where
    m0 : Memory
    m0 = store_int 8 m at 0

    m1 : Memory
    m1 = store_int 8 m0 (at + 64) 0

    m2 : Memory
    m2 = store_int 8 m1 (at + 128) 0

    m3 : Memory
    m3 = store_int 8 m2 (at + 192) 0

    m4 : Memory
    m4 = store_int 8 m3 (at + 256) 0

    head_reserve_clear : load_int 8 m4 at ≡ 0
    head_reserve_clear =
        past 8 at 8 (at + 256) 0 m3 (omega arith)
        ∙ past 8 at 8 (at + 192) 0 m2 (omega arith)
        ∙ past 8 at 8 (at + 128) 0 m1 (omega arith)
        ∙ past 8 at 8 (at + 64) 0 m0 (omega arith)
        ∙ load_int-store_int_self 8 m at 0 (omega arith)

    head_publish_clear : load_int 8 m4 (at + 64) ≡ 0
    head_publish_clear =
        past 8 (at + 64) 8 (at + 256) 0 m3 (omega arith)
        ∙ past 8 (at + 64) 8 (at + 192) 0 m2 (omega arith)
        ∙ past 8 (at + 64) 8 (at + 128) 0 m1 (omega arith)
        ∙ load_int-store_int_self 8 m0 (at + 64) 0 (omega arith)

    tail_reserve_clear : load_int 8 m4 (at + 128) ≡ 0
    tail_reserve_clear =
        past 8 (at + 128) 8 (at + 256) 0 m3 (omega arith)
        ∙ past 8 (at + 128) 8 (at + 192) 0 m2 (omega arith)
        ∙ load_int-store_int_self 8 m1 (at + 128) 0 (omega arith)

    tail_publish_clear : load_int 8 m4 (at + 192) ≡ 0
    tail_publish_clear =
        past 8 (at + 192) 8 (at + 256) 0 m3 (omega arith)
        ∙ load_int-store_int_self 8 m2 (at + 192) 0 (omega arith)

    sequence_clear : load_int 8 m4 (at + 256) ≡ 0
    sequence_clear = load_int-store_int_self 8 m3 (at + 256) 0 (omega arith)

-- Writing the header leaves the bytes behind it.
pub write_file_header_outside :
    (m : Memory) (h : Header) (i : ℕ) → 48 ≤ i → write_file_header m h i ≡ m i
unfolding write_file_header
write_file_header_outside m h i far =
    store_int_outside 8 _ 40 h.flags i (omega arith)
    ∙ store_int_outside 8 _ 32 h.align i (omega arith)
    ∙ store_int_outside 8 _ 24 h.ring_offset i (omega arith)
    ∙ store_int_outside 8 _ 16 h.control_offset i (omega arith)
    ∙ store_int_outside 8 _ 8 h.capacity_bytes i (omega arith)
    ∙ store_int_outside 2 _ 6 h.header_size i (omega arith)
    ∙ store_int_outside 2 _ 4 h.version_number i (omega arith)
    ∙ store_int_outside 4 m 0 h.magic_number i (omega arith)
