-- ===== src/Mpmc/OlderTail.antt =====
-- A round of `SharedRingBufferMPMC::try_pop` (src/shared_ring_buffer_mpmc.cpp) over a tail that was
-- loaded some time ago, but is not behind the head.
use lock_free_ring_buffer.Prelude.{ℕ, ◌≤◌, ◌≡◌, List, [], ◌∷◌, ◌++◌, arith}
use lock_free_ring_buffer.Ring.{Ring}
use lock_free_ring_buffer.Ring.Spans.{Span, Chain}
use lock_free_ring_buffer.Ring.Inv.{Inv}
use lock_free_ring_buffer.Mpmc.{Decision, leave, decide}
use lock_free_ring_buffer.Mpmc.Pop.{act, seen, seen_empty}

-- The ring as it was when its tail was `tail`.
abbrev earlier : Ring → ℕ → Ring
earlier r tail = record {
  control = record {
    head_reserve = r.head_reserve;
    head_publish = r.head_publish;
    tail_reserve = r.tail_reserve;
    tail_publish = tail;
    sequence = r.sequence;
  };
  bytes = r.bytes;
  capacity = r.capacity;
}

earlier-Inv :
    (r : Ring) (seen later : List Span) (tail : ℕ)
    → Inv r (seen ++ later)
    → tail ≤ r.tail_publish
    → Chain r.bytes r.capacity r.head_publish seen tail
    → Inv (earlier r tail) seen
earlier-Inv r seen later tail v old c = record {
  positive = v.positive;
  window = omega (arith, v.window);
  word = omega (arith, v.word);
  number = v.number;
  chain = c;
}

abbrev pub first_act : Ring → List Span → Decision
first_act r [] = leave
first_act r (s ∷ ss) = act r r.head_publish s

-- Over a ring in order with no other consumer under way, a round whose tail was loaded before the
-- last messages came sees the spans up to that tail and does what the first of them asks for: it
-- skips a gap to the start of the ring, or takes a message whole; and it leaves if there is none.
pub older_tail_sees_prefix :
    (r : Ring) (before later : List Span) (tail : ℕ)
    → Inv r (before ++ later)
    → r.head_reserve ≡ r.head_publish
    → tail ≤ r.tail_publish
    → Chain r.bytes r.capacity r.head_publish before tail
    → decide tail r.head_reserve r ≡ first_act r before
unfolding decide
older_tail_sees_prefix r [] later tail v lone old c =
    seen_empty (earlier r tail) (earlier-Inv r [] later tail v old c) lone
older_tail_sees_prefix r (s ∷ before) later tail v lone old c =
    seen (earlier r tail) s before (earlier-Inv r (s ∷ before) later tail v old c) lone
