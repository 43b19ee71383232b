-- ===== src/Mpmc/Pop.antt =====
-- A pop of the ring of many consumers with no other consumer in between, against the messages that
-- the ring holds.
use native.Mathlib.Nat.{mod-lt}
use lock_free_ring_buffer.Prelude.{
  ap, le→ltb, length, ℕ, zero, suc, ◌+◌, ◌-◌, ◌%◌, ◌≤◌, ◌<◌, ◌≡◌, refl, sym, subst, ◌∙◌, inl, inr,
  List, [], ltb, if◌then◌else◌, some, ◌∷◌, arith, none, some, eq→==,
}
use lock_free_ring_buffer.Word.{u64, ◌+w◌, ◌-w◌}
use lock_free_ring_buffer.Record.{Message, message_size, record_size_lem, read_header}
use lock_free_ring_buffer.Ring.{Ring, set_head}
use lock_free_ring_buffer.Ring.Spans.{Chain, Span, gap, message, span_size, Chain-le, MessageAt}
use lock_free_ring_buffer.Ring.Inv.{Inv, head-le-tail}
use lock_free_ring_buffer.Ring.Loop.{run_rounds, run_rounds-finish, run_rounds-retry, fill_out}
use lock_free_ring_buffer.Spsc.{pop_round, try_pop as spsc_pop}
use lock_free_ring_buffer.Spsc.Pop.{
  Drained, try_pop_refines, pop_round_gap, pop_round_message, pop_round_empty, set_head-Inv,
}
use lock_free_ring_buffer.Mpmc.{
  Decision, copy, leave, skip_to, take_to, decide, advance, pop_rounds, try_pop,
}

-- What the first span asks for.
abbrev pub act : Ring → ℕ → Span → Decision
act r head gap = skip_to (head + (r.capacity - head % r.capacity))
act r head (message m) = take_to (head + message_size m) (length m.payload)

-- What a round decides over a chain of spans from the loaded head on: it leaves if there is none, or
-- the first does not end before the loaded tail.
abbrev pub asked : Ring → ℕ → ℕ → List Span → Decision
asked r tail head [] = leave
asked r tail head (s ∷ ss) =
    if ltb (tail - head) (span_size r.capacity head s) then leave else act r head s

-- The loaded tail may be older than the end of what is published, but not behind the loaded head.
module _ (r : Ring) (tail head end : ℕ) (small : end < u64) (after : head ≤ tail)
    (before : tail ≤ end) (pos : 0 < r.capacity) where
  decide_gap :
      (ss : List Span)
      → Chain r.bytes r.capacity head (gap ∷ ss) end
      → decide tail head r ≡ asked r tail head (gap ∷ ss)
  unfolding decide read_header
  decide_gap ss c = elim c.0 [
    | inl short ↦ ground (arith, mod-lt head pos)
    | inr (long, flag) ↦ rw flag (ground (arith, mod-lt head pos))
  ]

  decide_message :
      (m : Message) (ss : List Span)
      → Chain r.bytes r.capacity head (message m ∷ ss) end
      → decide tail head r ≡ asked r tail head (message m ∷ ss)
  unfolding decide read_header
  decide_message m ss c =
      rw c.0.at.flags_at (
        rw c.0.at.size_at
          (ground (arith, c.0.within, record_size_lem (length m.payload) c.0.small)))

  -- What the tests of a round see of a ring in order.
  pub decide_lem :
      (ss : List Span)
      → Chain r.bytes r.capacity head ss end
      → decide tail head r ≡ asked r tail head ss
  unfolding decide
  decide_lem [] c = rw (eq→== head tail (omega arith)) refl
  decide_lem (gap ∷ ss) c = decide_gap ss c
  decide_lem (message m ∷ ss) c = decide_message m ss c

pub copy_lem :
    (r : Ring) (head : ℕ) (m : Message) (out : List ℕ)
    → MessageAt r.bytes r.capacity head m
    → copy r head (length m.payload) out
      ≡ record { out = fill_out out m.payload; type = m.type; sequence = m.sequence }
unfolding copy read_header
copy_lem r head m out c = rw (c.at.payload_at, c.at.type_at, c.at.sequence_at) refl

pub advance_lone :
    (r : Ring) (h : ℕ) → r.head_reserve ≡ r.head_publish → advance r h ≡ some (set_head r h)
unfolding advance set_head
advance_lone r h lone =
    rw (eq→== r.head_reserve r.head_reserve refl)
      (rw (eq→== r.head_publish r.head_reserve (sym lone)) refl)

-- With no other consumer under way a round sees the tail as it is, and does what the first span asks.
pub seen :
    (r : Ring) (s : Span) (ss : List Span)
    → Inv r (s ∷ ss)
    → r.head_reserve ≡ r.head_publish
    → decide r.tail_publish r.head_reserve r ≡ act r r.head_publish s
seen r s ss v lone =
    ap (λ h. decide r.tail_publish h r) lone
    ∙ decide_lem r r.tail_publish r.head_publish r.tail_publish v.word (head-le-tail v)
        (omega arith) v.positive (s ∷ ss) v.chain
    ∙ rw
        (le→ltb (r.tail_publish - r.head_publish) (span_size r.capacity r.head_publish s) (
          omega (
            arith,
            Chain-le r.bytes r.capacity (r.head_publish + span_size r.capacity r.head_publish s) ss
                r.tail_publish v.chain.1,
          )))
        refl

pub seen_empty :
    (r : Ring)
    → Inv r []
    → r.head_reserve ≡ r.head_publish
    → decide r.tail_publish r.head_reserve r ≡ leave
seen_empty r v lone =
    ap (λ h. decide r.tail_publish h r) lone
    ∙ decide_lem r r.tail_publish r.head_publish r.tail_publish v.word (head-le-tail v)
        (omega arith) v.positive [] v.chain

-- The end of the first span, as the consumer computes it.
exact :
    (r : Ring) (s : Span) (ss : List Span)
    → Inv r (s ∷ ss)
    → r.head_publish + span_size r.capacity r.head_publish s
      ≡ r.head_publish +w span_size r.capacity r.head_publish s
exact r s ss v = omega (
  arith,
  v.word,
  Chain-le r.bytes r.capacity (r.head_publish + span_size r.capacity r.head_publish s) ss
      r.tail_publish v.chain.1,
)

-- Round by round it does what the pop of the ring of one consumer does.
pop_rounds-run_rounds :
    (out : List ℕ) (fuel : ℕ) (r : Ring) (ss : List Span)
    → Inv r ss
    → r.head_reserve ≡ r.head_publish
    → pop_rounds out fuel r ≡ run_rounds (pop_round out) fuel r
unfolding pop_rounds
pop_rounds-run_rounds out zero r ss v lone = unfold run_rounds in refl
pop_rounds-run_rounds out (suc fuel) r [] v lone =
    rw (pop_rounds, seen_empty r v lone)
      (sym (run_rounds-finish (pop_round out) fuel r r none (pop_round_empty r out v)))
pop_rounds-run_rounds out (suc fuel) r (message m ∷ ss) v lone =
    rw (pop_rounds, seen r (message m) ss v lone)
      (rw (exact r (message m) ss v) (
        rw (advance_lone r (r.head_publish +w message_size m) lone) (
          ap
            (λ h. some (
              set_head r (r.head_publish +w message_size m),
              some (copy r h (length m.payload) out),
            ))
            lone
          ∙ ap (λ p. some (set_head r (r.head_publish +w message_size m), some p))
              (copy_lem r r.head_publish m out v.chain.0)
          ∙ sym (run_rounds-finish (pop_round out) fuel r _ _ (pop_round_message r m ss out v)))))
pop_rounds-run_rounds out (suc fuel) r (gap ∷ ss) v lone =
    rw (pop_rounds, seen r gap ss v lone)
      (rw (exact r gap ss v) (
        rw (advance_lone r (r.head_publish +w (r.capacity - r.head_publish % r.capacity)) lone) (
          pop_rounds-run_rounds out fuel _ ss (set_head-Inv r gap ss v) (unfold set_head in refl)
          ∙ sym (run_rounds-retry (pop_round out) fuel r _ (pop_round_gap r ss out v)))))

-- With no other consumer under way, the pop of the ring of many consumers does over a ring in order
-- what the pop of the ring of one consumer promises: it returns nothing if the ring holds no message,
-- and else the oldest message, at the front of the caller's vector, with its type and its sequence
-- number. The others are left, in order, and the producers' counter, the capacity and the bytes do
-- not change.
pub lone_pop_refines :
    (r : Ring) (ss : List Span) (out : List ℕ)
    → Inv r ss
    → r.head_reserve ≡ r.head_publish
    → Drained r ss out (try_pop r out)
unfolding try_pop spsc_pop
lone_pop_refines r ss out v lone =
    subst (Drained r ss out)
      (sym (pop_rounds-run_rounds out ((r.tail_publish -w r.head_publish) + 1) r ss v lone))
      (try_pop_refines r ss out v)
