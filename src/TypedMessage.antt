-- ===== src/TypedMessage.antt =====
-- include/lf_ring/typed_message.hpp: the codecs, and the typed writer and reader over a
-- `SharedRingBufferSPSC`. A trivially copyable value is the list of its bytes.
pub mod Codec
pub mod Pop
pub mod Writer
use lock_free_ring_buffer.Prelude.{
  ℕ, zero, suc, ◌+◌, ◌/◌, ◌%◌, Bool, true, false, not, List, [], ◌∷◌, ◌++◌, Option, none, some,
  length, take, drop, ◌==◌, if◌then◌else◌,
}
use lock_free_ring_buffer.Word.{u32}
use lock_free_ring_buffer.Ring.{Ring}
use lock_free_ring_buffer.Ring.Loop.{Popped}
use lock_free_ring_buffer.Spsc.{try_push, try_pop}

-- The codec of a trivially copyable type of `sizeof_t` bytes, and `decode_payload` of one.
unfoldable pub decode_value : ℕ → List ℕ → Option (List ℕ)
decode_value sizeof_t payload = if not (length payload == sizeof_t) then none else some payload

-- The codec of a vector of such values.
unfoldable pub encode_vector : List (List ℕ) → List ℕ
encode_vector [] = []
encode_vector (x ∷ xs) = x ++ encode_vector xs

unfoldable pub chunks : ℕ → ℕ → List ℕ → List (List ℕ)
chunks sizeof_t zero payload = []
chunks sizeof_t (suc count) payload =
    take sizeof_t payload ∷ chunks sizeof_t count (drop sizeof_t payload)

unfoldable pub decode_vector : ℕ → List ℕ → Option (List (List ℕ))
unfolding chunks
decode_vector sizeof_t payload =
    if not (length payload % sizeof_t == 0)
    then none
    else some (chunks sizeof_t (length payload / sizeof_t) payload)

-- `TypedMessageWriter::try_push_typed` of a trivially copyable value.
unfoldable pub try_push_typed : Ring → ℕ → List ℕ → ℕ → Option (Ring × Bool)
unfolding try_push
try_push_typed r sizeof_t value type = try_push r (some value) (sizeof_t % u32) type

-- The fields of `TypedMessageReader`, but for the reference to its ring.
pub record Reader : Type 0 where
  pub buffer : List ℕ
  pub type : ℕ
  pub sequence : ℕ

pub record MessageView : Type 0 where
  pub type : ℕ
  pub sequence : ℕ
  pub payload : List ℕ

abbrev pub keep_popped : Reader → Ring × Option Popped → Ring × Reader × Option MessageView
keep_popped t (r, none) = (r, t, none)
keep_popped t (r, some p) = (
  r,
  record { buffer = p.out; type = p.type; sequence = p.sequence },
  some (record { type = p.type; sequence = p.sequence; payload = p.out }),
)

abbrev pub map_option {ℓ κ} : {A : Type ℓ} {B : Type κ} → (A → B) → Option A → Option B
map_option f none = none
map_option f (some a) = some (f a)

-- `TypedMessageReader::try_pop` into a view.
unfoldable pub try_pop_view : Ring → Reader → Option (Ring × Reader × Option MessageView)
unfolding try_pop
try_pop_view r t = map_option (keep_popped t) (try_pop r t.buffer)

abbrev decode_view : ℕ → ℕ → Option MessageView → Option (List ℕ)
decode_view expected_type sizeof_t none = none
decode_view expected_type sizeof_t (some v) =
    if not (v.type == expected_type) then none else decode_value sizeof_t v.payload

abbrev decode_popped : ℕ → ℕ → Ring × Reader × Option MessageView → Ring × Reader × Option (List ℕ)
decode_popped expected_type sizeof_t (r, t, v) = (r, t, decode_view expected_type sizeof_t v)

-- `TypedMessageReader::try_pop_typed` of a trivially copyable type.
unfoldable pub try_pop_typed : Ring → Reader → ℕ → ℕ → Option (Ring × Reader × Option (List ℕ))
unfolding try_pop_view decode_value
try_pop_typed r t expected_type sizeof_t =
    map_option (decode_popped expected_type sizeof_t) (try_pop_view r t)
