-- ===== src/TypedMessage/Pop.antt =====
-- What the typed reader makes of the messages in the ring.
use lock_free_ring_buffer.Prelude.{
  ℕ, ◌-◌, ◌≤◌, ◌<◌, ◌≡◌, refl, ap, ◌∙◌, List, ◌∷◌, ◌++◌, none, some, length, drop, replicate, leb,
  ◌==◌, if◌then◌else◌, arith, not, length-append, length-drop, drop_all, length-replicate,
  append-nil, lt→ltb, le→ltb, le→leb, lt→leb, eq→==, ne→==,
}
use native.Mathlib.Decide.{dec_lt, dec_le}
use lock_free_ring_buffer.Record.{Message}
use lock_free_ring_buffer.Ring.{Ring}
use lock_free_ring_buffer.Ring.Spans.{Span, messages}
use lock_free_ring_buffer.Ring.Inv.{Inv}
use lock_free_ring_buffer.Ring.Loop.{fill_out}
use lock_free_ring_buffer.Spsc.Pop.{taken, left, try_pop_refines}
use lock_free_ring_buffer.TypedMessage.{
  Reader, try_pop_typed, decode_value, map_option, keep_popped, decode_popped,
}

-- A vector no longer than the payload ends up holding the payload.
pub fill_out-short :
    (out payload : List ℕ) → length out ≤ length payload → fill_out out payload ≡ payload
unfolding fill_out
fill_out-short out payload h = elim (dec_lt (length out) (length payload)) [
  | yes shorter ↦ rw (lt→ltb (length out) (length payload) shorter) (
      ap (λ zs. payload ++ zs)
        (drop_all (length payload) (out ++ replicate (length payload - length out) 0) (
          omega (
            arith,
            length-append out (replicate (length payload - length out) 0),
            length-replicate {A = ℕ} (length payload - length out) 0,
          )))
      ∙ append-nil payload)
  | no equal ↦
      rw (le→ltb (length out) (length payload) (omega arith))
        (ap (λ zs. payload ++ zs) (drop_all (length payload) out h) ∙ append-nil payload)
]

-- A longer one keeps what stood behind.
pub fill_out-long :
    (out payload : List ℕ)
    → length payload < length out
    → fill_out out payload ≡ payload ++ drop (length payload) out
unfolding fill_out
fill_out-long out payload h = rw (le→ltb (length out) (length payload) (omega arith))

-- The length of the vector after a pop into one longer than the payload.
length-fill_out_long :
    (out payload : List ℕ)
    → length payload < length out
    → length (fill_out out payload) ≡ length out
length-fill_out_long out payload h =
    ap length (fill_out-long out payload h)
    ∙ omega
        (arith, length-append payload (drop (length payload) out), length-drop (length payload) out)

-- What the reader decodes of a message of its type and size.
decoded :
    (sizeof_t : ℕ) (buffer payload : List ℕ)
    → length payload ≡ sizeof_t
    → decode_value sizeof_t (fill_out buffer payload)
      ≡ (if leb (length buffer) sizeof_t then some payload else none)
unfolding decode_value
decoded sizeof_t buffer payload e = elim (dec_le (length buffer) sizeof_t) [
  | yes small ↦
      rw (fill_out-short buffer payload (omega arith))
        (rw (eq→== (length payload) sizeof_t e) (rw (le→leb (length buffer) sizeof_t small) refl))
  | no long ↦ rw (length-fill_out_long buffer payload (omega arith)) (
      rw (ne→== (length buffer) sizeof_t (omega arith))
        (rw (lt→leb (length buffer) sizeof_t (omega arith)) refl))
]

-- The reader takes the oldest message out of a ring in order. If it has the expected type and the
-- size of the expected values, it is handed over exactly when the reader's buffer is no longer than
-- it: after a longer message it is lost, since the buffer never shrinks.
pub try_pop_typed_lem :
    (r : Ring) (ss : List Span) (t : Reader) (m : Message) (ms : List Message) (sizeof_t : ℕ)
    → Inv r ss
    → messages ss ≡ m ∷ ms
    → length m.payload ≡ sizeof_t
    → (final : Ring) × (t' : Reader) × (ts : List Span) × (try_pop_typed r t m.type sizeof_t
        ≡ some (final, t', if leb (length t.buffer) sizeof_t then some m.payload else none))
      × Inv final ts
      × (messages ts ≡ ms)
unfolding try_pop_typed
try_pop_typed_lem r ss t m ms sizeof_t v e fits =
    let d = try_pop_refines r ss t.buffer v in
    (
      d.final,
      record { buffer = fill_out t.buffer m.payload; type = m.type; sequence = m.sequence },
      d.spans,
      ap (λ x. map_option (decode_popped m.type sizeof_t) (map_option (keep_popped t) x))
            (d.returned ∙ ap (λ rs. some (d.final, taken t.buffer rs)) e)
          ∙ ap
              (λ o. some (
                d.final,
                record {
                  buffer = fill_out t.buffer m.payload;
                  type = m.type;
                  sequence = m.sequence;
                },
                o,
              ))
              same_type,
      d.inv,
      d.contents ∙ ap left e,
    )
  where
    same_type :
        (if not (m.type == m.type)
          then none
          else decode_value sizeof_t (fill_out t.buffer m.payload))
        ≡ (if leb (length t.buffer) sizeof_t then some m.payload else none)
    same_type = rw (eq→== m.type m.type refl) (decoded sizeof_t t.buffer m.payload fits)
