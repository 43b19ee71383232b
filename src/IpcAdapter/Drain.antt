-- ===== src/IpcAdapter/Drain.antt =====
-- What a byte subscriber's callback is given of the messages in the ring.
use lock_free_ring_buffer.Prelude.{
  ℕ, zero, suc, ◌<◌, ◌≡◌, ap, ap₂, subst, ◌∙◌, List, [], ◌∷◌, ◌++◌, length, drop, Option, some,
  arith,
}
use lock_free_ring_buffer.Record.{Message}
use lock_free_ring_buffer.Ring.{Ring}
use lock_free_ring_buffer.Ring.Spans.{Span, messages}
use lock_free_ring_buffer.Ring.Inv.{Inv}
use lock_free_ring_buffer.Ring.Loop.{fill_out}
use lock_free_ring_buffer.Spsc.Pop.{left, try_pop_refines}
use lock_free_ring_buffer.Spsc.History.{fill_out-nil}
use lock_free_ring_buffer.TypedMessage.Pop.{fill_out-long}
use lock_free_ring_buffer.IpcAdapter.{drain, Delivery}

-- Each message in the vector that the ones before it have left.
abbrev pub deliveries : List ℕ → List Message → List Delivery
deliveries buf [] = []
deliveries buf (m ∷ ms) = (fill_out buf m.payload, m.type) ∷ deliveries (fill_out buf m.payload) ms

pub record Emptied (result : Option (Ring × List ℕ × List Delivery)) (given : List Delivery)
    : Type 0 where
  pub final : Ring
  pub buffer : List ℕ
  pub spans : List Span
  pub returned : result ≡ some (final, buffer, given)
  pub inv : Inv final spans
  pub nothing_left : messages spans ≡ []

-- From a ring in order, with a round for each message and one more, the loop ends with the ring
-- empty and still in order, after a callback for each message, in order, with its type, and with the
-- vector that `try_pop` filled, which never shrinks.
pub drain_lem :
    (fuel : ℕ) (r : Ring) (ss : List Span) (ms : List Message) (buf : List ℕ)
    → Inv r ss
    → messages ss ≡ ms
    → length ms < fuel
    → Emptied (drain fuel r buf) (deliveries buf ms)
unfolding drain
drain_lem zero r ss ms buf v e h = absurd (omega arith)
drain_lem (suc fuel) r ss [] buf v e h =
    let d = try_pop_refines r ss buf v in
    record {
      final = d.final;
      buffer = buf;
      spans = d.spans;
      returned = rw (d.returned, e);
      inv = d.inv;
      nothing_left = d.contents ∙ ap left e;
    }
drain_lem (suc fuel) r ss (m ∷ ms) buf v e h =
    let d = try_pop_refines r ss buf v in
    let rest =
      drain_lem fuel d.final d.spans ms (fill_out buf m.payload) d.inv (d.contents ∙ ap left e)
        (omega arith) in
    record {
      final = rest.final;
      buffer = rest.buffer;
      spans = rest.spans;
      returned = rw (d.returned, e, rest.returned);
      inv = rest.inv;
      nothing_left = rest.nothing_left;
    }

-- A subscriber with a new vector whose ring holds a message and then a shorter one gives the
-- callback the first as it was pushed, and the second followed by what the first leaves in the
-- vector: more bytes than were pushed.
pub drain_keeps_stale_bytes :
    (r : Ring) (ss : List Span) (m₁ m₂ : Message)
    → Inv r ss
    → messages ss ≡ m₁ ∷ m₂ ∷ []
    → length m₂.payload < length m₁.payload
    → Emptied
        (drain 3 r [])
        ((m₁.payload, m₁.type) ∷ (m₂.payload ++ drop (length m₂.payload) m₁.payload, m₂.type) ∷ [])
drain_keeps_stale_bytes r ss m₁ m₂ v e shorter =
    subst (Emptied (drain 3 r []))
      (ap₂ (λ a b. (a, m₁.type) ∷ (b, m₂.type) ∷ []) (fill_out-nil m₁.payload)
        (ap (λ out. fill_out out m₂.payload) (fill_out-nil m₁.payload)
          ∙ fill_out-long m₁.payload m₂.payload shorter))
      (drain_lem 3 r ss (m₁ ∷ m₂ ∷ []) [] v e (omega arith))
