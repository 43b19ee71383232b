-- ===== src/Spsc/Pop.antt =====
-- `SharedRingBufferSPSC::try_pop` against the messages that the ring holds.
use native.Mathlib.Nat.{mod-lt}
use lock_free_ring_buffer.Prelude.{
  ℕ, zero, suc, ◌+◌, ◌-◌, ◌%◌, ◌≤◌, ◌<◌, ◌≡◌, refl, sym, subst, ◌∙◌, inl, inr, List, [], ◌∷◌, arith,
  Option, none, some, eq→==, length,
}
use lock_free_ring_buffer.Word.{◌+w◌}
use lock_free_ring_buffer.Record.{Message, message_size, record_size_lem, read_header}
use lock_free_ring_buffer.Ring.{Ring, set_head}
use lock_free_ring_buffer.Ring.Spans.{
  Span, gap, message, messages, span_size, MessageAt, Chain, Chain-le, Chain-length,
}
use lock_free_ring_buffer.Ring.Inv.{Inv, head-le-tail}
use lock_free_ring_buffer.Ring.Loop.{
  retry, finish, run_rounds, run_rounds-finish, run_rounds-retry, Popped, fill_out,
}
use lock_free_ring_buffer.Spsc.{pop_round, try_pop}

-- What a pop hands over of the messages in the ring, and what it leaves.
abbrev pub taken : List ℕ → List Message → Option Popped
taken out [] = none
taken out (r ∷ rs) =
    some (record { out = fill_out out r.payload; type = r.type; sequence = r.sequence })

abbrev pub left : List Message → List Message
left [] = []
left (r ∷ rs) = rs

pub record Drained (r : Ring) (ss : List Span) (out : List ℕ)
    (result : Option (Ring × Option Popped)) : Type 0 where
  pub final : Ring
  pub spans : List Span
  pub returned : result ≡ some (final, taken out (messages ss))
  pub inv : Inv final spans
  pub contents : messages spans ≡ left (messages ss)
  pub number_same : final.sequence ≡ r.sequence
  pub tail_same : final.tail_publish ≡ r.tail_publish
  pub capacity_same : final.capacity ≡ r.capacity
  pub bytes_same : final.bytes ≡ r.bytes

span_pos :
    (r : Ring) (s : Span) (ss : List Span)
    → Inv r (s ∷ ss)
    → 0 < span_size r.capacity r.head_publish s
span_pos r gap ss v = omega (arith, mod-lt r.head_publish v.positive)
span_pos r (message m) ss v = omega (arith, record_size_lem (length m.payload) v.chain.0.small)

-- The consumer steps over the first span.
pub set_head-Inv :
    (r : Ring) (s : Span) (ss : List Span)
    → Inv r (s ∷ ss)
    → Inv (set_head r (r.head_publish +w span_size r.capacity r.head_publish s)) ss
unfolding set_head
set_head-Inv r s ss v = record {
  positive = v.positive;
  window = omega (arith, exact, v.window);
  word = v.word;
  number = v.number;
  chain = subst (λ h. Chain r.bytes r.capacity h ss r.tail_publish) (sym exact) v.chain.1;
}
  where
    exact :
        r.head_publish +w span_size r.capacity r.head_publish s
        ≡ r.head_publish + span_size r.capacity r.head_publish s
    exact = omega (
      arith,
      v.word,
      Chain-le r.bytes r.capacity (r.head_publish + span_size r.capacity r.head_publish s) ss
          r.tail_publish v.chain.1,
    )

-- A gap is stepped over.
pub pop_round_gap :
    (r : Ring) (ss : List Span) (out : List ℕ)
    → Inv r (gap ∷ ss)
    → pop_round out r
      ≡ retry (set_head r (r.head_publish +w (r.capacity - r.head_publish % r.capacity)))
unfolding pop_round read_header
pop_round_gap r ss out v = elim v.chain.0 [
  | inl short ↦ ground (arith, span_pos r gap ss v, later)
  | inr (long, flag) ↦ rw flag (ground (arith, span_pos r gap ss v, later))
]
  where
    later : r.head_publish + (r.capacity - r.head_publish % r.capacity) ≤ r.tail_publish
    later =
        Chain-le r.bytes r.capacity (r.head_publish + span_size r.capacity r.head_publish gap) ss
          r.tail_publish v.chain.1

-- A message is handed over.
pub pop_round_message :
    (r : Ring) (m : Message) (ss : List Span) (out : List ℕ)
    → Inv r (message m ∷ ss)
    → pop_round out r
      ≡ finish (set_head r (r.head_publish +w message_size m)) (taken out (m ∷ messages ss))
unfolding pop_round read_header
pop_round_message r m ss out v = rw c.at.flags_at (
    rw c.at.size_at (
      rw c.at.payload_at (
        rw c.at.type_at (
          rw c.at.sequence_at
            (ground (arith, c.within, record_size_lem (length m.payload) c.small, later))))))
  where
    c : MessageAt r.bytes r.capacity r.head_publish m
    c = v.chain.0

    later : r.head_publish + message_size m ≤ r.tail_publish
    later =
        Chain-le r.bytes r.capacity (r.head_publish + message_size m) ss r.tail_publish v.chain.1

-- An empty ring turns the consumer away.
pub pop_round_empty : (r : Ring) (out : List ℕ) → Inv r [] → pop_round out r ≡ finish r none
unfolding pop_round
pop_round_empty r out v = rw (eq→== r.head_publish r.tail_publish v.chain)

abbrev skip : Ring → Ring
skip r = set_head r (r.head_publish +w (r.capacity - r.head_publish % r.capacity))

after_gap :
    (fuel : ℕ) (r : Ring) (ss : List Span) (out : List ℕ)
    → Inv r (gap ∷ ss)
    → Drained (skip r) ss out (run_rounds (pop_round out) fuel (skip r))
    → Drained r (gap ∷ ss) out (run_rounds (pop_round out) (suc fuel) r)
unfolding set_head
after_gap fuel r ss out v d = record {
  final = d.final;
  spans = d.spans;
  returned =
      run_rounds-retry (pop_round out) fuel r (skip r) (pop_round_gap r ss out v) ∙ d.returned;
  inv = d.inv;
  contents = d.contents;
  number_same = d.number_same;
  tail_same = d.tail_same;
  capacity_same = d.capacity_same;
  bytes_same = d.bytes_same;
}

-- A round for each span, and one more, is enough.
drain :
    (fuel : ℕ) (r : Ring) (ss : List Span) (out : List ℕ)
    → Inv r ss
    → length ss < fuel
    → Drained r ss out (run_rounds (pop_round out) fuel r)
drain zero r ss out v h = absurd (omega arith)
drain (suc fuel) r [] out v h = record {
  final = r;
  spans = [];
  returned = run_rounds-finish (pop_round out) fuel r r none (pop_round_empty r out v);
  inv = v;
  contents = refl;
  number_same = refl;
  tail_same = refl;
  capacity_same = refl;
  bytes_same = refl;
}
drain (suc fuel) r (message m ∷ ss) out v h = record {
  final = set_head r (r.head_publish +w message_size m);
  spans = ss;
  returned =
      run_rounds-finish (pop_round out) fuel r _ (taken out (m ∷ messages ss))
        (pop_round_message r m ss out v);
  inv = set_head-Inv r (message m) ss v;
  contents = refl;
  number_same = unfold set_head in refl;
  tail_same = unfold set_head in refl;
  capacity_same = unfold set_head in refl;
  bytes_same = unfold set_head in refl;
}
drain (suc fuel) r (gap ∷ ss) out v h =
    after_gap fuel r ss out v (drain fuel (skip r) ss out (set_head-Inv r gap ss v) (omega arith))

-- Over a ring in order a pop returns: nothing if the ring holds no message, and else the oldest
-- message, at the front of the caller's vector, with its type and its sequence number. The others
-- are left, in order, and the producer's counter, the capacity and the bytes do not change.
pub try_pop_refines :
    (r : Ring) (ss : List Span) (out : List ℕ) → Inv r ss → Drained r ss out (try_pop r out)
unfolding try_pop
try_pop_refines r ss out v = drain _ r ss out v (
    omega (
      arith,
      Chain-length r.bytes r.capacity r.head_publish ss r.tail_publish v.positive v.chain,
      head-le-tail v,
      v.word,
    ))
