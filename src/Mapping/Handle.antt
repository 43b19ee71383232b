-- ===== src/Mapping/Handle.antt =====
-- `detail::Mapping` of src/shared_memory_mapping.cpp as the owner of a descriptor and a mapping: its
-- reset, its destructor and its moves.
use lock_free_ring_buffer.Prelude.{
  ℕ, ◌≡◌, refl, append-nil, Bool, true, false, Option, none, some, List, [], ◌∷◌, ◌++◌, ltb,
  if◌then◌else◌,
}

-- `none` for the null pointer and for the descriptor -1.
pub record Handle : Type 0 where
  pub fd : Option ℕ
  pub mapping : Option ℕ
  pub mapping_size : ℕ
  pub header : Option ℕ
  pub control : Option ℕ
  pub ring : Option ℕ
  pub capacity : ℕ

pub data SystemCall : Type 0 where
  munmap : (address size : ℕ) → SystemCall
  close : (fd : ℕ) → SystemCall

abbrev pub no_handle : Handle
no_handle = record {
  fd = none;
  mapping = none;
  mapping_size = 0;
  header = none;
  control = none;
  ring = none;
  capacity = 0;
}

abbrev unmap_calls : Option ℕ → ℕ → List SystemCall
unmap_calls none size = []
unmap_calls (some address) size = if ltb 0 size then munmap address size ∷ [] else []

abbrev close_calls : Option ℕ → List SystemCall
close_calls none = []
close_calls (some fd) = close fd ∷ []

-- The handle afterwards and the system calls made.
unfoldable pub reset : Handle → Handle × List SystemCall
reset h = (no_handle, unmap_calls h.mapping h.mapping_size ++ close_calls h.fd)

unfoldable pub destroy : Handle → List SystemCall
unfolding reset
destroy h = (reset h).1

-- `this` and `other` afterwards; `same` says that they are one object.
unfoldable pub move_assign : Bool → Handle → Handle → Handle × Handle × List SystemCall
unfolding reset
move_assign same this other = if same then (this, other, []) else (
  record (reset this).0 {
    fd = other.fd;
    mapping = other.mapping;
    mapping_size = other.mapping_size;
    header = other.header;
    control = other.control;
    ring = other.ring;
    capacity = other.capacity;
  },
  record other {
    fd = none;
    mapping = none;
    mapping_size = 0;
    header = none;
    control = none;
    ring = none;
    capacity = 0;
  },
  (reset this).1,
)

unfoldable pub move_construct : Handle → Handle × Handle × List SystemCall
unfolding move_assign
move_construct other = move_assign false no_handle other

-- What two handles own is released once, whether they are destroyed as they are or after a move of
-- one to the other, and after a move that constructs a third; a move makes a handle own what the
-- other did, and a move of a handle to itself does nothing.
pub released_once :
    (this other : Handle)
    → let (this', other', calls) = move_assign false this other in
      let (third, rest, none_made) = move_construct other in
      (calls ++ destroy this' ++ destroy other' ≡ destroy this ++ destroy other)
      × (none_made ++ destroy third ++ destroy rest ≡ destroy other)
      × (this' ≡ other)
      × (third ≡ other)
      × (move_assign true this this ≡ (this, this, []))
unfolding move_assign move_construct destroy reset
released_once this other = (append-nil _, append-nil _, refl, refl, refl)
