-- ===== src/Spsc/Claim.antt =====
-- `SharedRingBufferSPSC::create` and `claim`.
use lock_free_ring_buffer.Prelude.{ℕ, ◌+◌, ◌*◌, ◌/◌, ◌<◌, ◌≡◌, refl, List, [], arith, subst, sym}
use lock_free_ring_buffer.Word.{u64}
use lock_free_ring_buffer.Layout.{flag_spsc}
use lock_free_ring_buffer.Ring.{Ring}
use lock_free_ring_buffer.Ring.Spans.{Span}
use lock_free_ring_buffer.Ring.Inv.{Inv}
use lock_free_ring_buffer.Mapping.{Held, ok, create_mapping, view}
use lock_free_ring_buffer.Mapping.Open.{works, holding, new_mapping, empty_ring, create-open}
use lock_free_ring_buffer.Spsc.{claim_control}

empty_ring-Inv : (room : ℕ) → 0 < room → Inv (empty_ring room) []
empty_ring-Inv room h = record {
  positive = h;
  window = omega arith;
  word = omega arith;
  number = omega arith;
  chain = refl;
}

-- A ring that is created for one byte or more, when the system calls succeed, is in order and holds
-- no message.
pub create-Inv :
    (h : Held) (n : ℕ)
    → 0 < n
    → n + 391 < u64
    → let m = new_mapping ((n + 7) / 8 * 8) flag_spsc in
      (create_mapping works h n flag_spsc ≡ (holding h, ok m)) × Inv (view m) []
create-Inv h n pos fits =
    let c = create-open h n flag_spsc flag_spsc pos fits (omega arith) in
    (c.0, subst (λ r. Inv r []) (sym c.1) (empty_ring-Inv ((n + 7) / 8 * 8) (omega arith)))

-- Claiming a ring in order, wherever the last producer died between its stores to the two counters,
-- leaves the ring in order with the same spans, and the two counters equal.
pub claim_control-Inv :
    (r : Ring) (ss : List Span)
    → Inv r ss
    → Inv (claim_control r) ss × ((claim_control r).tail_reserve ≡ (claim_control r).tail_publish)
unfolding claim_control
claim_control-Inv r ss v = (
  record {
    positive = v.positive;
    window = v.window;
    word = v.word;
    number = v.number;
    chain = v.chain;
  },
  refl,
)
