-- ===== src/Mpmc/Race.antt =====
-- The order of the two loads at the start of a round of `SharedRingBufferMPMC::try_pop`
-- (src/shared_ring_buffer_mpmc.cpp): first `tail_publish`, then `head_reserve`.
use native.Mathlib.Nat.{mod-lt}
use lock_free_ring_buffer.Prelude.{
  ◌∙◌, ℕ, ◌+◌, ◌%◌, ◌≤◌, ◌<◌, ◌≡◌, refl, sym, ap, subst, List, [], ◌∷◌, length, arith, some,
}
use lock_free_ring_buffer.Record.{Message, message_size, record_size_lem, read_header, RecordAt}
use lock_free_ring_buffer.Ring.{Ring, set_head}
use lock_free_ring_buffer.Ring.Position.{add-mod-cases}
use lock_free_ring_buffer.Ring.Spans.{Span, message, MessageAt}
use lock_free_ring_buffer.Ring.Inv.{Inv, HasRoom}
use lock_free_ring_buffer.Spsc.History.{fill_out-nil}
use lock_free_ring_buffer.Mpmc.{copy, take_to, decide, advance}
use lock_free_ring_buffer.Mpmc.Pop.{copy_lem, advance_lone}

module _ (r : Ring) (m : Message) (ss : List Span) (v : Inv r (message m ∷ ss)) (room : HasRoom r)
    (full : r.tail_publish ≡ r.head_publish + r.capacity) where
  -- The ring when all that it held has been popped.
  abbrev pub emptied : Ring
  emptied = set_head r r.tail_publish

  emptied-Inv : Inv emptied []
  unfolding set_head
  emptied-Inv = record {
    positive = v.positive;
    window = omega arith;
    word = v.word;
    number = v.number;
    chain = refl;
  }

  -- A round further on is the same place.
  same_place : r.tail_publish % r.capacity ≡ r.head_publish % r.capacity
  same_place = omega (
    arith,
    add-mod-cases r.capacity r.head_publish r.capacity v.positive (omega arith),
    mod-lt r.head_publish v.positive,
    mod-lt (r.head_publish + r.capacity) v.positive,
    ap (λ t. t % r.capacity) full,
  )

  again : MessageAt r.bytes r.capacity r.tail_publish m
  again = record {
    at = subst (λ p. RecordAt r.bytes p m) (sym same_place) v.chain.0.at;
    small = v.chain.0.small;
    within = omega (arith, same_place, v.chain.0.within);
  }

  decide_stale :
      (tail : ℕ)
      → tail ≤ r.head_publish
      → decide tail r.tail_publish emptied
        ≡ take_to (r.tail_publish + message_size m) (length m.payload)
  unfolding decide read_header set_head
  decide_stale tail old = rw again.at.flags_at (
      rw again.at.size_at
        (ground (arith, again.within, record_size_lem (length m.payload) again.small, v.positive)))

  copied_again :
      copy emptied r.tail_publish (length m.payload) []
      ≡ record { out = m.payload; type = m.type; sequence = m.sequence }
  unfolding set_head
  copied_again =
      copy_lem emptied r.tail_publish m [] again
      ∙ ap (λ b. record { out = b; type = m.type; sequence = m.sequence }) (fill_out-nil m.payload)

  past_the_tail :
      (h : ℕ)
      → (broken : Ring) × (advance emptied h ≡ some broken)
        × (broken.head_publish ≡ h)
        × (broken.tail_publish ≡ r.tail_publish)
  unfolding set_head
  past_the_tail h = (set_head emptied h, advance_lone emptied h refl, refl, refl)

-- A consumer loads the tail; then the ring is filled to its last byte, and another consumer pops all
-- of it; then the first consumer loads the head and goes on. Though the ring is empty and in order,
-- it does not leave: it takes the first of those messages a second time, its exchange and its
-- publication succeed, and the head is then past the tail.
pub stale_tail_pops_again :
    (r : Ring) (m : Message) (ss : List Span) (tail : ℕ)
    → Inv r (message m ∷ ss)
    → HasRoom r
    → r.tail_publish ≡ r.head_publish + r.capacity
    → tail ≤ r.head_publish
    → let e = set_head r r.tail_publish in
      Inv e []
      × (decide tail r.tail_publish e
          ≡ take_to (r.tail_publish + message_size m) (length m.payload))
      × (copy e r.tail_publish (length m.payload) []
          ≡ record { out = m.payload; type = m.type; sequence = m.sequence })
      × (broken : Ring) × (advance e (r.tail_publish + message_size m) ≡ some broken)
      × (broken.tail_publish < broken.head_publish)
stale_tail_pops_again r m ss tail v room full old =
    let (broken, done, head, end) =
      past_the_tail r m ss v room full (r.tail_publish + message_size m) in
    (
      emptied-Inv r m ss v room full,
      decide_stale r m ss v room full tail old,
      copied_again r m ss v room full,
      broken,
      done,
      omega (arith, head, end, record_size_lem (length m.payload) v.chain.0.small),
    )
