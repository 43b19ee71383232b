-- ===== src/Ring/Inv.antt =====
-- The representation invariant of a byte ring: its counters delimit a chain of spans.
use lock_free_ring_buffer.Prelude.{
  ℕ, ◌+◌, ◌*◌, ◌%◌, ◌≤◌, ◌<◌, ◌≡◌, sym, subst, List, [], ◌∷◌, ◌++◌, arith,
}
use lock_free_ring_buffer.Word.{u64}
use lock_free_ring_buffer.Memory.{Memory, Apart}
use lock_free_ring_buffer.Ring.{Ring, approx_size}
use lock_free_ring_buffer.Ring.Spans.{
  Span, span_size, SpanAt, Chain, Chain-snoc, Chain-keep, Chain-le,
}

pub record Inv (r : Ring) (ss : List Span) : Type 0 where
  pub positive : 0 < r.capacity
  pub window : r.tail_publish ≤ r.head_publish + r.capacity
  pub word : r.tail_publish < u64
  pub number : r.sequence < u64
  pub chain : Chain r.bytes r.capacity r.head_publish ss r.tail_publish

-- The producer's counter stays three rounds away from the end of its 64 bits.
abbrev pub HasRoom : Ring → Type 0
HasRoom r = r.tail_publish + 3 * r.capacity < u64

pub head-le-tail : {r : Ring} {ss : List Span} → Inv r ss → r.head_publish ≤ r.tail_publish
head-le-tail {r} {ss} v = Chain-le r.bytes r.capacity r.head_publish ss r.tail_publish v.chain

-- A ring with other bytes and another tail.
abbrev pub advanced : Ring → Memory → ℕ → ℕ → ℕ → Ring
advanced r m' reserve tail number = record {
  control = record {
    head_reserve = r.head_reserve;
    head_publish = r.head_publish;
    tail_reserve = reserve;
    tail_publish = tail;
    sequence = number;
  };
  bytes = m';
  capacity = r.capacity;
}

-- A span that is written in the free bytes after the tail, and published.
pub advanced-Inv :
    (r : Ring) (ss : List Span) (m' : Memory) (s : Span) (n reserve tail number : ℕ)
    → Inv r ss
    → r.tail_publish % r.capacity + n ≤ r.capacity
    → r.tail_publish + n ≤ r.head_publish + r.capacity
    → ((i : ℕ) → Apart (r.tail_publish % r.capacity) n i 1 → r.bytes i ≡ m' i)
    → SpanAt m' r.capacity r.tail_publish s
    → tail ≡ r.tail_publish + span_size r.capacity r.tail_publish s
    → tail ≤ r.head_publish + r.capacity
    → tail < u64
    → number < u64
    → Inv (advanced r m' reserve tail number) (ss ++ s ∷ [])
advanced-Inv r ss m' s n reserve tail number v fits free same at e window word small = record {
  positive = v.positive;
  window = window;
  word = word;
  number = small;
  chain =
      subst (λ t. Chain m' r.capacity r.head_publish (ss ++ s ∷ []) t) (sym e)
        (Chain-snoc m' r.capacity r.head_publish ss r.tail_publish s
          (Chain-keep r.bytes m' r.capacity r.tail_publish n v.positive fits same r.head_publish ss
            free v.chain)
          at);
}

-- Of a ring in order `approx_size` is the number of bytes between the consumer's counter and the
-- producer's, and no more than the capacity.
pub approx_size_lem :
    {r : Ring} {ss : List Span}
    → Inv r ss
    → (r.head_publish + approx_size r ≡ r.tail_publish) × (approx_size r ≤ r.capacity)
unfolding approx_size
approx_size_lem v = ground (arith, head-le-tail v)
