-- ===== src/Mapping.antt =====
-- src/shared_memory_mapping.cpp: `create_mapping` and `open_mapping` over the bytes of a file. What
-- the system calls answer is an argument; the descriptors and mappings held are counted.
pub mod FileHeader
pub mod Handle
pub mod Open
use lock_free_ring_buffer.Prelude.{
  ℕ, ◌+◌, ◌-◌, ◌*◌, Bool, true, false, ltb, ◌==◌, not, if◌then◌else◌,
}
use lock_free_ring_buffer.Word.{◌+w◌}
use lock_free_ring_buffer.Memory.{Memory, store_int, load_int}
use lock_free_ring_buffer.Layout.{
  Header, ControlBlock, align_up, alignment, magic, version, sizeof_header, sizeof_control_block,
  header_region_size, control_region_size, cache_line_size,
}
use lock_free_ring_buffer.Ring.{Ring}

-- The runtime_errors that the two functions throw, and the one of `SPSCQueue::open`.
pub data MapError : Type 0 where
  capacity_zero create_failed open_failed ftruncate_failed fstat_failed mmap_failed : MapError
  too_small invalid_magic unsupported_version mode_mismatch size_mismatch control_range : MapError
  capacity_mismatch : MapError

pub data Result (A : Type 0) : Type 0 where
  ok : A → Result A
  err : MapError → Result A

-- Whether open, ftruncate, fstat and mmap succeed.
pub record Calls : Type 0 where
  pub opens : Bool
  pub truncates : Bool
  pub stats : Bool
  pub maps : Bool

-- The file descriptors and the mappings that the process holds.
pub record Held : Type 0 where
  pub fds : ℕ
  pub maps : ℕ

pub record Mapping : Type 0 where
  pub file : Memory
  pub mapping_size : ℕ
  pub control_offset : ℕ
  pub ring_offset : ℕ
  pub capacity : ℕ

-- `Header` in the first bytes of the file.
unfoldable pub read_file_header : Memory → Header
read_file_header m = record {
  magic_number = load_int 4 m 0;
  version_number = load_int 2 m 4;
  header_size = load_int 2 m 6;
  capacity_bytes = load_int 8 m 8;
  control_offset = load_int 8 m 16;
  ring_offset = load_int 8 m 24;
  align = load_int 8 m 32;
  flags = load_int 8 m 40;
}

unfoldable pub write_file_header : Memory → Header → Memory
write_file_header m h =
    let m₁ = store_int 2 (store_int 4 m 0 h.magic_number) 4 h.version_number in
    let m₂ = store_int 8 (store_int 2 m₁ 6 h.header_size) 8 h.capacity_bytes in
    let m₃ = store_int 8 (store_int 8 m₂ 16 h.control_offset) 24 h.ring_offset in
    store_int 8 (store_int 8 m₃ 32 h.align) 40 h.flags

-- The five words of the control block, a cache line apart.
unfoldable pub read_control : Memory → ℕ → ControlBlock
read_control m at = record {
  head_reserve = load_int 8 m at;
  head_publish = load_int 8 m (at + cache_line_size);
  tail_reserve = load_int 8 m (at + 2 * cache_line_size);
  tail_publish = load_int 8 m (at + 3 * cache_line_size);
  sequence = load_int 8 m (at + 4 * cache_line_size);
}

unfoldable pub clear_control : Memory → ℕ → Memory
clear_control m at =
    let m₁ = store_int 8 (store_int 8 m at 0) (at + cache_line_size) 0 in
    let m₂ =
      store_int 8 (store_int 8 m₁ (at + 2 * cache_line_size) 0) (at + 3 * cache_line_size) 0 in
    store_int 8 m₂ (at + 4 * cache_line_size) 0

-- The control block and the ring of a mapping.
unfoldable pub view : Mapping → Ring
unfolding read_control
view m = record {
  control = read_control m.file m.control_offset;
  bytes = λ i. m.file (m.ring_offset + i);
  capacity = m.capacity;
}

abbrev pub zeroes : Memory
zeroes i = 0

unfoldable pub new_header : ℕ → ℕ → Header
new_header cap flags = record {
  magic_number = magic;
  version_number = version;
  header_size = sizeof_header;
  capacity_bytes = cap;
  control_offset = header_region_size;
  ring_offset = header_region_size +w control_region_size;
  align = alignment;
  flags = flags;
}

-- The file after `memset`, the stores to the header and those to the control block.
unfoldable pub new_file : ℕ → ℕ → Memory
unfolding write_file_header clear_control new_header
new_file cap flags =
    clear_control (write_file_header zeroes (new_header cap flags)) header_region_size

unfoldable pub create_mapping : Calls → Held → ℕ → ℕ → Held × Result Mapping
unfolding new_file align_up
create_mapping calls held capacity_bytes flags =
    let cap = align_up capacity_bytes alignment in
    let opened = record held { fds = held.fds + 1 } in
    let closed = record opened { fds = opened.fds - 1 } in
    let mapped = record opened { maps = opened.maps + 1 } in
    if capacity_bytes == 0
    then (held, err capacity_zero)
    else if not calls.opens
    then (held, err create_failed)
    else if not calls.truncates
    then (closed, err ftruncate_failed)
    else if not calls.maps
    then (closed, err mmap_failed)
    else (
      mapped,
      ok (record {
        file = new_file cap flags;
        mapping_size = header_region_size +w control_region_size +w cap;
        control_offset = header_region_size;
        ring_offset = header_region_size +w control_region_size;
        capacity = cap;
      }),
    )

-- The tests of the header, in the order of the code, once the file is mapped.
unfoldable pub test_header : Memory → Header → ℕ → ℕ → Result Mapping
test_header file h size expected_flags =
    if not (h.magic_number == magic)
    then err invalid_magic
    else if not (h.version_number == version)
    then err unsupported_version
    else if not (h.flags == expected_flags)
    then err mode_mismatch
    else if ltb size (h.ring_offset +w h.capacity_bytes)
    then err size_mismatch
    else if ltb size (h.control_offset +w sizeof_control_block)
    then err control_range
    else ok (record {
      file = file;
      mapping_size = size;
      control_offset = h.control_offset;
      ring_offset = h.ring_offset;
      capacity = h.capacity_bytes;
    })

unfoldable pub check_header : Memory → ℕ → ℕ → Result Mapping
unfolding test_header
check_header file size expected_flags = test_header file (read_file_header file) size expected_flags

-- A failed test unmaps the file and closes it.
abbrev pub release_on_error : Held → Result Mapping → Held × Result Mapping
release_on_error held (ok m) = (held, ok m)
release_on_error held (err e) = (record held { fds = held.fds - 1; maps = held.maps - 1 }, err e)

-- Over a file of `size` bytes.
unfoldable pub open_mapping : Calls → Held → Memory → ℕ → ℕ → Held × Result Mapping
unfolding check_header read_file_header
open_mapping calls held file size expected_flags =
    let opened = record held { fds = held.fds + 1 } in
    let closed = record opened { fds = opened.fds - 1 } in
    let mapped = record opened { maps = opened.maps + 1 } in
    if not calls.opens
    then (held, err open_failed)
    else if not calls.stats
    then (closed, err fstat_failed)
    else if ltb size sizeof_header
    then (closed, err too_small)
    else if not calls.maps
    then (closed, err mmap_failed)
    else release_on_error mapped (check_header file size expected_flags)
