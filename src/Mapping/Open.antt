-- ===== src/Mapping/Open.antt =====
-- What `create_mapping` writes, `open_mapping` accepts; what a failed call leaves behind; and what
-- the tests of the header miss.
use lock_free_ring_buffer.Prelude.{
  ℕ, ◌+◌, ◌-◌, ◌*◌, ◌/◌, ◌≤◌, ◌<◌, ◌≡◌, refl, ap, ◌∙◌, arith, true, ltb, ◌==◌, not, if◌then◌else◌,
  Bool-cases, inl, inr, ne→==, eq→==, le→ltb,
}
use lock_free_ring_buffer.Word.{u64, ◌+w◌}
use lock_free_ring_buffer.Memory.{Memory}
use lock_free_ring_buffer.Layout.{
  magic, version, align_up_eight, header_region_size, control_region_size,
}
use lock_free_ring_buffer.Ring.{Ring}
use lock_free_ring_buffer.Mapping.{
  mode_mismatch, Result, ok, err, Calls, Held, Mapping, zeroes, new_header, new_file,
  create_mapping, check_header, test_header, open_mapping, read_file_header, view,
  write_file_header, release_on_error,
}
use lock_free_ring_buffer.Mapping.FileHeader.{
  read-write_file_header, read_file_header-agree, clear_control_outside, read-clear_control,
  no_control, write_file_header_outside,
}

abbrev pub works : Calls
works = record { opens = true; truncates = true; stats = true; maps = true }

abbrev pub holding : Held → Held
holding h = record { fds = h.fds + 1; maps = h.maps + 1 }

-- A call that succeeds holds one descriptor and one mapping more, and one that fails holds what it
-- held.
abbrev pub Balanced : Held → Held × Result Mapping → Type 0
Balanced h (h', ok m) = h' ≡ holding h
Balanced h (h', err e) = h' ≡ h

closed_again : (h : Held) → record h { fds = h.fds + 1 - 1 } ≡ h
closed_again h =
    λ i. record { fds = (let same : h.fds + 1 - 1 ≡ h.fds = omega arith in same) i; maps = h.maps }

pub released : (h : Held) (r : Result Mapping) → Balanced h (release_on_error (holding h) r)
released h (ok m) = refl
released h (err e) = λ i. record {
  fds = (let same : h.fds + 1 - 1 ≡ h.fds = omega arith in same) i;
  maps = (let same : h.maps + 1 - 1 ≡ h.maps = omega arith in same) i;
}

-- `create_mapping` leaks nothing, whichever system call fails.
pub create_mapping-Balanced :
    (calls : Calls) (h : Held) (capacity flags : ℕ)
    → Balanced h (create_mapping calls h capacity flags)
unfolding create_mapping
create_mapping-Balanced calls h capacity flags = elim (Bool-cases (capacity == 0)) [
  | inl none_asked ↦ rw none_asked refl
  | inr some_asked ↦ rw some_asked (elim (Bool-cases calls.opens) [
    | inr e ↦ rw e refl
    | inl opened ↦ rw opened (elim (Bool-cases calls.truncates) [
      | inr e ↦ rw e (closed_again h)
      | inl e ↦
          rw e (elim (Bool-cases calls.maps) [ inr f ↦ rw f (closed_again h) | inl f ↦ rw f refl ])
    ])
  ])
]

-- `open_mapping` leaks nothing, whichever system call fails and whichever test of the header.
pub open_mapping-Balanced :
    (calls : Calls) (h : Held) (file : Memory) (size flags : ℕ)
    → Balanced h (open_mapping calls h file size flags)
unfolding open_mapping
open_mapping-Balanced calls h file size flags = elim (Bool-cases calls.opens) [
  | inr e ↦ rw e refl
  | inl opened ↦ rw opened (elim (Bool-cases calls.stats) [
    | inr e ↦ rw e (closed_again h)
    | inl e ↦ rw e (elim (Bool-cases (ltb size 48)) [
      | inl f ↦ rw f (closed_again h)
      | inr f ↦ rw f (elim (Bool-cases calls.maps) [
        | inr g ↦ rw g (closed_again h)
        | inl g ↦ rw g (released h (check_header file size flags))
      ])
    ])
  ])
]

-- A mapping that is opened has the size of its file, which is not empty.
abbrev HasSize : ℕ → Result Mapping → Type 0
HasSize size (ok m) = m.mapping_size ≡ size
HasSize size (err e) = Unit

check_header-HasSize :
    (file : Memory) (size flags : ℕ) → HasSize size (check_header file size flags)
unfolding check_header test_header
check_header-HasSize file size flags = ground arith

abbrev pub Nonempty : Result Mapping → Type 0
Nonempty (ok m) = 0 < m.mapping_size
Nonempty (err e) = Unit

Nonempty-release :
    (h : Held) (size : ℕ) (r : Result Mapping)
    → 0 < size
    → HasSize size r
    → Nonempty (release_on_error h r).1
Nonempty-release h size (ok m) some same = omega (arith, same)
Nonempty-release h size (err e) some same = tt

pub open_mapping-Nonempty :
    (calls : Calls) (h : Held) (file : Memory) (size flags : ℕ)
    → Nonempty (open_mapping calls h file size flags).1
unfolding open_mapping
open_mapping-Nonempty calls h file size flags = elim (Bool-cases calls.opens) [
  | inr e ↦ rw e tt
  | inl opened ↦ rw opened (elim (Bool-cases calls.stats) [
    | inr e ↦ rw e tt
    | inl e ↦ rw e (elim (Bool-cases (ltb size 48)) [
      | inl f ↦ rw f tt
      | inr f ↦ rw f (elim (Bool-cases calls.maps) [
        | inr g ↦ rw g tt
        | inl g ↦ rw g (
            Nonempty-release (holding h) size (check_header file size flags) (ground (arith, f))
              (check_header-HasSize file size flags))
      ])
    ])
  ])
]

-- What a new ring of `cap` bytes looks like through its mapping.
abbrev pub new_mapping : ℕ → ℕ → Mapping
new_mapping cap flags = record {
  file = new_file cap flags;
  mapping_size = 384 + cap;
  control_offset = 64;
  ring_offset = 384;
  capacity = cap;
}

abbrev pub empty_ring : ℕ → Ring
empty_ring cap = record { control = no_control; bytes = zeroes; capacity = cap }

new_file-header :
    (room flags : ℕ)
    → room < u64
    → flags < u64
    → read_file_header (new_file room flags) ≡ new_header room flags
unfolding new_file header_region_size new_header control_region_size
new_file-header room flags hc hf =
    read_file_header-agree _ (write_file_header zeroes (new_header room flags))
      (λ i p. clear_control_outside _ 64 i (omega arith))
    ∙ read-write_file_header zeroes (new_header room flags) (omega arith)

new_file-view : (room flags : ℕ) → view (new_mapping room flags) ≡ empty_ring room
unfolding view new_file header_region_size
new_file-view room flags = λ i. record {
  control = read-clear_control (write_file_header zeroes (new_header room flags)) 64 i;
  bytes = λ j. blank j i;
  capacity = room;
}
  where
    blank : (j : ℕ) → new_file room flags (384 + j) ≡ 0
    blank j =
        clear_control_outside _ 64 (384 + j) (omega arith)
        ∙ write_file_header_outside zeroes _ (384 + j) (omega arith)

check-new_file :
    (room flags expected : ℕ)
    → room + 384 < u64
    → flags < u64
    → check_header (new_file room flags) (384 + room) expected
      ≡ (if not (flags == expected) then err mode_mismatch else ok (new_mapping room flags))
unfolding check_header test_header new_header header_region_size control_region_size
check-new_file room flags expected hc hf =
    rw (new_file-header room flags (omega arith) hf) (elim (Bool-cases (flags == expected)) [
      | inl same ↦ rw same (
          rw (le→ltb (384 + room) (384 +w room) (omega arith))
            (rw (le→ltb (384 + room) 384 (omega arith)) refl))
      | inr other ↦ rw other refl
    ])

created_lem :
    (h : Held) (n flags : ℕ)
    → 0 < n
    → n + 391 < u64
    → create_mapping works h n flags ≡ (holding h, ok (new_mapping ((n + 7) / 8 * 8) flags))
unfolding create_mapping header_region_size control_region_size
created_lem h n flags pos fits = rw (ne→== n 0 (omega arith)) (
    rw (align_up_eight n (omega arith)) (
      ap
        (λ size.
          (holding h, ok (record (new_mapping ((n + 7) / 8 * 8) flags) { mapping_size = size })))
        (omega arith)))

opened_lem :
    (h : Held) (flags room : ℕ)
    → room + 384 < u64
    → flags < u64
    → (expected : ℕ)
    → open_mapping works h (new_file room flags) (384 + room) expected
      ≡ release_on_error
          (holding h)
          (if not (flags == expected) then err mode_mismatch else ok (new_mapping room flags))
unfolding open_mapping
opened_lem h flags room hc hf expected =
    rw (le→ltb (384 + room) 48 (omega arith))
      (ap (release_on_error (holding h)) (check-new_file room flags expected hc hf))

-- A mapping of `n` bytes, 0 < n, that is created when the system calls succeed holds an empty ring
-- of the next multiple of eight bytes. Opening its file in the same mode gives that mapping again; in
-- another mode the file is refused, and nothing stays held.
pub create-open :
    (h : Held) (n flags expected : ℕ)
    → 0 < n
    → n + 391 < u64
    → flags < u64
    → let m = new_mapping ((n + 7) / 8 * 8) flags in
      (create_mapping works h n flags ≡ (holding h, ok m))
      × (view m ≡ empty_ring ((n + 7) / 8 * 8))
      × (open_mapping works h m.file m.mapping_size expected
          ≡ (if flags == expected then (holding h, ok m) else (h, err mode_mismatch)))
create-open h n flags expected pos fits hf = (
  created_lem h n flags pos fits,
  new_file-view room flags,
  opened_lem h flags room (omega arith) hf expected ∙ elim (Bool-cases (flags == expected)) [
    | inl same ↦ rw same refl
    | inr other ↦ rw other (ap (λ r. (r, err mode_mismatch)) (released h (err mode_mismatch)))
  ],
)
  where
    room : ℕ
    room = (n + 7) / 8 * 8

-- What a mapped file's header has to say for the file to be accepted.
pub record Accepted (file : Memory) (size flags : ℕ) : Type 0 where
  pub long_enough : 48 ≤ size
  pub magic_right : (read_file_header file).magic_number ≡ magic
  pub version_right : (read_file_header file).version_number ≡ version
  pub mode_right : (read_file_header file).flags ≡ flags
  pub ring_passes :
      (read_file_header file).ring_offset +w (read_file_header file).capacity_bytes ≤ size
  pub control_passes : (read_file_header file).control_offset +w 320 ≤ size

abbrev pub mapping_of : Memory → ℕ → Mapping
mapping_of file size = record {
  file = file;
  mapping_size = size;
  control_offset = (read_file_header file).control_offset;
  ring_offset = (read_file_header file).ring_offset;
  capacity = (read_file_header file).capacity_bytes;
}

accept :
    (h : Held) (file : Memory) (size flags : ℕ)
    → Accepted file size flags
    → open_mapping works h file size flags ≡ (holding h, ok (mapping_of file size))
unfolding open_mapping check_header test_header
accept h file size flags a =
    rw (le→ltb size 48 a.long_enough) (ap (release_on_error (holding h)) passes)
  where
    passes : check_header file size flags ≡ ok (mapping_of file size)
    passes = rw (eq→== _ magic a.magic_right) (
        rw (eq→== _ version a.version_right) (
          rw (eq→== _ flags a.mode_right)
            (rw (le→ltb size _ a.ring_passes) (rw (le→ltb size _ a.control_passes) refl))))

-- The tests of the header do not keep the ring inside the file: where the sum of the ring's offset
-- and its capacity passes 2^64, what is left of it is compared with the file's size. Every file
-- with such a header and an accepted rest is opened, with a ring that ends past the file.
pub open-accepts_overflow :
    (h : Held) (file : Memory) (size flags : ℕ)
    → Accepted file size flags
    → size < u64
    → u64 ≤ (read_file_header file).ring_offset + (read_file_header file).capacity_bytes
    → (open_mapping works h file size flags ≡ (holding h, ok (mapping_of file size)))
      × (size < (mapping_of file size).ring_offset + (mapping_of file size).capacity)
open-accepts_overflow h file size flags a fits over = (accept h file size flags a, omega arith)
