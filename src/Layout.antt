-- ===== src/Layout.antt =====
-- include/lf_ring/ring_layout.hpp: the layout of a mapping and its constants. The cache line is the
-- 64 bytes of the header's fallback.
use Prim.Native.Nat.{bit_and}
use lock_free_ring_buffer.Prelude.{ℕ, ◌+◌, ◌-◌, ◌*◌, ◌/◌, ◌≤◌, ◌<◌, ◌≡◌, refl, arith}
use lock_free_ring_buffer.Word.{u64, ◌+w◌, ◌-w◌, bit_and_clear_seven}

abbrev pub cache_line_size : ℕ
cache_line_size = 64

abbrev pub alignment : ℕ
alignment = 8

abbrev pub magic : ℕ
magic = 0x4C465242

abbrev pub version : ℕ
version = 4

abbrev pub wrap_flag : ℕ
wrap_flag = 1

abbrev pub flag_mpsc : ℕ
flag_mpsc = 0x1

abbrev pub flag_mpmc : ℕ
flag_mpmc = 0x2

abbrev pub flag_spsc : ℕ
flag_spsc = 0x4

abbrev pub flag_latest : ℕ
flag_latest = 0x8

abbrev pub flag_fixed_spsc : ℕ
flag_fixed_spsc = 0x10

-- `(value + alignment - 1) & ~(alignment - 1)`
unfoldable pub align_up : ℕ → ℕ → ℕ
align_up value alignment = bit_and (value +w alignment -w 1) (u64 - 1 - (alignment -w 1))

-- `sizeof(Header)`: fields of 4, 2, 2, 8, 8, 8, 8 and 8 bytes.
abbrev pub sizeof_header : ℕ
sizeof_header = 48

-- `sizeof(RecordHeader)`, by the static_assert.
abbrev pub sizeof_record_header : ℕ
sizeof_record_header = 16

-- `sizeof(ControlBlock)`: five words, each padded to a cache line.
abbrev pub sizeof_control_block : ℕ
sizeof_control_block = 5 * cache_line_size

pub record Header : Type 0 where
  pub magic_number : ℕ
  pub version_number : ℕ
  pub header_size : ℕ
  pub capacity_bytes : ℕ
  pub control_offset : ℕ
  pub ring_offset : ℕ
  pub align : ℕ
  pub flags : ℕ

-- The five words of the control block, without their padding.
pub record ControlBlock : Type 0 where
  pub head_reserve : ℕ
  pub head_publish : ℕ
  pub tail_reserve : ℕ
  pub tail_publish : ℕ
  pub sequence : ℕ

unfoldable pub header_region_size : ℕ
unfolding align_up
header_region_size = align_up sizeof_header cache_line_size

unfoldable pub control_region_size : ℕ
unfolding align_up
control_region_size = align_up sizeof_control_block cache_line_size

unfoldable pub required_mapping_size : ℕ → ℕ
unfolding header_region_size control_region_size
required_mapping_size capacity_bytes =
    header_region_size +w control_region_size +w align_up capacity_bytes alignment

pub data ClaimResult : Type 0 where
  created resumed recovered : ClaimResult

-- To the next multiple of 8, when the sum fits a word.
pub align_up_eight : (n : ℕ) → n + 7 < u64 → align_up n 8 ≡ (n + 7) / 8 * 8
unfolding align_up
align_up_eight n h = omega (arith, bit_and_clear_seven ((n +w 8) -w 1) (omega arith))

-- A size that the sum of the rounding overflows is rounded to 0: the mapping is then too small.
pub align_up_overflow : (n : ℕ) → n < u64 → u64 ≤ n + 7 → align_up n 8 ≡ 0
unfolding align_up
align_up_overflow n h o = omega (arith, bit_and_clear_seven ((n +w 8) -w 1) (omega arith))

pub region_sizes : (header_region_size ≡ 64) × (control_region_size ≡ 320)
unfolding header_region_size control_region_size
region_sizes = (refl, refl)

-- The size of a mapping, when it fits a word: the header and the control block, each in whole cache
-- lines, and the capacity rounded up to a multiple of eight.
pub required_mapping_size_lem :
    (n : ℕ) → n + 391 < u64 → required_mapping_size n ≡ 384 + (n + 7) / 8 * 8
unfolding required_mapping_size
required_mapping_size_lem n h = omega (arith, region_sizes, align_up_eight n (omega arith))
