-- ===== src/Tests/Consumers.antt =====
-- A consumer that takes the only message of a ring, up to its copy.
use lock_free_ring_buffer.Prelude.{◌≡◌, refl, sym, ap, inl, [], ◌∷◌, arith}
use lock_free_ring_buffer.Layout.{align_up}
use lock_free_ring_buffer.Record.{record_size}
use lock_free_ring_buffer.Ring.Spans.{message}
use lock_free_ring_buffer.Mpmc.{decide, take_to, exchange_head, copy, give_back}
use lock_free_ring_buffer.Mpmc.OlderTail.{older_tail_sees_prefix}
use lock_free_ring_buffer.Mpmc.Interleave.{
  State, Taking, copying, holding, claimed, after_exchange, after_copy, ring, initial, Reach, here,
  later, load_tail, load_head, tests, takes, copies,
}
use lock_free_ring_buffer.Mpmc.Interleave.Order.{
  Ordered, many_consumers_fifo, turn, head_published_in_turn,
}
use lock_free_ring_buffer.Tests.Rings.{first, brimming, brimming-Inv}

abbrev decided : State
decided = record (initial brimming) {
  tails = 24 ∷ [];
  views = (24, 0) ∷ [];
  decided = (0, decide 24 0 brimming) ∷ [];
}

abbrev claim : Taking
claim = claimed 0 24 (copying 3)

abbrev taken : State
taken = after_exchange decided claim (exchange_head brimming 0 24)

abbrev done : State
done = after_copy taken [] claim 3 []

to_decided : Reach (initial brimming) decided
to_decided =
    later
      (later (later here (omega arith, omega arith) load_tail) (omega arith, omega arith)
        (load_head 24 (inl refl) (omega arith)))
      (omega arith, omega arith) (tests 24 0 (inl refl))

sees : take_to 24 3 ≡ decide 24 0 brimming
unfolding record_size align_up
sees = sym (
    older_tail_sees_prefix brimming (message first ∷ []) [] 24 brimming-Inv refl (omega arith)
      brimming-Inv.chain)

to_done : Reach (initial brimming) done
unfolding exchange_head
to_done =
    later (later to_decided (omega arith, omega arith) (takes 0 24 3 (inl (ap (λ d. (0, d)) sees))))
      (omega arith, omega arith) (copies [] claim 3 [] refl refl)

many_consumers_fifo_example : Ordered brimming (message first ∷ []) done
many_consumers_fifo_example =
    many_consumers_fifo brimming (message first ∷ []) done brimming-Inv refl refl to_done

abbrev holder : Taking
holder = record claim { stage = holding (copy (ring taken) 0 3 []) }

head_published_in_turn_example : give_back (ring done) 0 24 ≡ turn [] done holder
unfolding exchange_head
head_published_in_turn_example =
    head_published_in_turn brimming (message first ∷ []) done [] holder [] brimming-Inv refl refl
      to_done refl tt
