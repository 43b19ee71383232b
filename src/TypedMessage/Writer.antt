-- ===== src/TypedMessage/Writer.antt =====
-- The typed writer and reader of include/lf_ring/typed_message.hpp for any type with a codec.
use native.Mathlib.Nat.{mod-eq_of_lt}
use lock_free_ring_buffer.Prelude.{
  ℕ, ◌≤◌, ◌<◌, ◌≡◌, refl, ap, ◌∙◌, Bool, true, false, List, [], ◌∷◌, Option, none, some, length,
  ◌==◌, not, if◌then◌else◌, eq→==,
}
use lock_free_ring_buffer.Word.{u32, u16, ◌+w◌}
use lock_free_ring_buffer.Ring.{Ring}
use lock_free_ring_buffer.Ring.Spans.{Span, messages}
use lock_free_ring_buffer.Ring.Inv.{Inv, HasRoom}
use lock_free_ring_buffer.Ring.Loop.{fill_out}
use lock_free_ring_buffer.Spsc.{try_push_span}
use lock_free_ring_buffer.Spsc.Rounds.{accepts}
use lock_free_ring_buffer.Spsc.Push.{try_push_refines}
use lock_free_ring_buffer.Spsc.Pop.{taken, left, try_pop_refines}
use lock_free_ring_buffer.TypedMessage.{
  Reader, MessageView, try_pop_view, encode_vector, decode_vector, map_option, keep_popped,
}
use lock_free_ring_buffer.TypedMessage.Pop.{fill_out-short}

-- `MessageCodec<T>`: what `encode` writes to its vector, or none for false; and likewise `decode`.
pub record Codec (A : Type 0) : Type 0 where
  pub encode : A → Option (List ℕ)
  pub decode : List ℕ → Option A

-- `MessageCodec<std::string>`, and that of a vector of values of `sizeof_t` bytes, the
-- only lists of values that are vectors of the type.
abbrev pub string_codec : Codec (List ℕ)
string_codec = record { encode = λ text. some text; decode = λ payload. some payload }

unfoldable pub vector_codec : ℕ → Codec (List (List ℕ))
unfolding encode_vector decode_vector
vector_codec sizeof_t = record {
  encode = λ values. some (encode_vector values);
  decode = decode_vector sizeof_t;
}

unfoldable pub try_push_bytes : Ring → ℕ → List ℕ → Option (Ring × Bool)
unfolding try_push_span
try_push_bytes r type payload = try_push_span r payload type

module _ {A : Type 0} (codec : Codec A) where
  abbrev push_scratch : Ring → ℕ → Option (List ℕ) → Option (Ring × Bool)
  push_scratch r type none = some (r, false)
  push_scratch r type (some scratch) = try_push_span r scratch type

  -- `try_push_typed` of a type that is not trivially copyable.
  unfoldable pub try_push_encoded : Ring → A → ℕ → Option (Ring × Bool)
  unfolding try_push_span
  try_push_encoded r value type = push_scratch r type (codec.encode value)

  abbrev decode_message : ℕ → Option MessageView → Option A
  decode_message expected_type none = none
  decode_message expected_type (some v) =
      if not (v.type == expected_type) then none else codec.decode v.payload

  abbrev decoded : ℕ → Ring × Reader × Option MessageView → Ring × Reader × Option A
  decoded expected_type (r, t, v) = (r, t, decode_message expected_type v)

  -- `try_pop_typed` of such a type.
  unfoldable pub try_pop_encoded : Ring → Reader → ℕ → Option (Ring × Reader × Option A)
  unfolding try_pop_view
  try_pop_encoded r t expected_type = map_option (decoded expected_type) (try_pop_view r t)

-- `MessageType<T>::value`, of a type for which it is defined.
module _ {A : Type 0} (codec : Codec A) (type_id : ℕ) where
  unfoldable pub push_value : Ring → A → Option (Ring × Bool)
  unfolding try_push_encoded
  push_value r value = try_push_encoded codec r value type_id

  unfoldable pub pop_value : Ring → Reader → Option (Ring × Reader × Option A)
  unfolding try_pop_encoded
  pop_value r t = try_pop_encoded codec r t type_id

  decoded_lem :
      (final : Ring) (t : Reader) (value : A) (bytes : List ℕ) (number : ℕ)
      → length t.buffer ≤ length bytes
      → codec.decode bytes ≡ some value
      → map_option (decoded codec type_id) (
          map_option (keep_popped t) (
            some (
              final,
              some (record { out = fill_out t.buffer bytes; type = type_id; sequence = number }),
            )))
        ≡ some (final, record { buffer = bytes; type = type_id; sequence = number }, some value)
  decoded_lem final t value bytes number short back =
      rw (fill_out-short t.buffer bytes short) (rw (eq→== type_id type_id refl) (rw back refl))

  -- A value of fewer than 2^32 bytes that its codec encodes and decodes to itself, pushed to a ring in
  -- order that holds no message and takes it, is what the reader pops, if no message that the reader
  -- popped before was longer. The ring is then empty and in order.
  pub pop-push_value :
      (r : Ring) (ss : List Span) (t : Reader) (value : A) (bytes : List ℕ)
      → Inv r ss
      → messages ss ≡ []
      → HasRoom r
      → type_id < u16
      → codec.encode value ≡ some bytes
      → codec.decode bytes ≡ some value
      → length bytes < u32
      → accepts r (length bytes) ≡ true
      → length t.buffer ≤ length bytes
      → (middle final : Ring) × (t' : Reader) × (ts : List Span) × (push_value r value
          ≡ some (middle, true))
        × (pop_value middle t ≡ some (final, t', some value))
        × Inv final ts
        × (messages ts ≡ [])
  unfolding push_value pop_value try_push_encoded try_push_span try_pop_encoded try_pop_view
  pop-push_value r ss t value bytes v e room ht coded back small ok short =
      let p = try_push_refines r ss type_id bytes v room small ht in
      let d = try_pop_refines p.final p.spans t.buffer p.inv in
      let held : messages p.spans
          ≡ record { type = type_id; sequence = r.sequence +w 1; payload = bytes } ∷ [] =
        p.contents ∙ rw (ok, e) refl in
      (
        p.final,
        d.final,
        record { buffer = bytes; type = type_id; sequence = r.sequence +w 1 },
        d.spans,
        rw coded (rw (mod-eq_of_lt small) (p.returned ∙ rw ok refl)),
        ap (λ x. map_option (decoded codec type_id) (map_option (keep_popped t) x))
              (d.returned ∙ ap (λ ms. some (d.final, taken t.buffer ms)) held)
            ∙ decoded_lem d.final t value bytes (r.sequence +w 1) short back,
        d.inv,
        d.contents ∙ ap left held,
      )
