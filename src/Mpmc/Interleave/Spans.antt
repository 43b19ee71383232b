-- ===== src/Mpmc/Interleave/Spans.antt =====
-- A memory determines the spans that it holds: two chains from one counter agree as far as they go.
use lock_free_ring_buffer.Prelude.{
  ℕ, ◌+◌, ◌%◌, ◌≤◌, ◌<◌, ◌≡◌, refl, sym, ap, ap₂, subst, ◌∙◌, inl, inr, List, [], ◌∷◌, ◌++◌, length,
  arith,
}
use lock_free_ring_buffer.Memory.{Memory, load_bytes}
use lock_free_ring_buffer.Record.{Message, record_size_lem}
use lock_free_ring_buffer.Ring.Spans.{
  Span, gap, message, span_size, span_size_pos, MessageAt, SpanAt, Chain, Chain-le,
}

module _ (m : Memory) (cap : ℕ) (pos : 0 < cap) where
  message_unique : (x : ℕ) (a b : Message) → MessageAt m cap x a → MessageAt m cap x b → a ≡ b
  message_unique x a b c d = λ i. record {
    type = (sym c.at.type_at ∙ d.at.type_at) i;
    sequence = (sym c.at.sequence_at ∙ d.at.sequence_at) i;
    payload = same i;
  }
    where
      same : a.payload ≡ b.payload
      same =
          sym c.at.payload_at
          ∙ ap (load_bytes m (x % cap + 16)) (sym c.at.size_at ∙ d.at.size_at)
          ∙ d.at.payload_at

  -- A gap and a message differ in their room or in the wrap flag.
  gap_or_message : (x : ℕ) (a : Message) → SpanAt m cap x gap → MessageAt m cap x a → ⊥
  gap_or_message x a (inl short) c =
      omega (arith, c.within, record_size_lem (length a.payload) c.small)
  gap_or_message x a (inr (long, flag)) c = omega (arith, flag, c.at.flags_at)

  span_unique : (x : ℕ) (s t : Span) → SpanAt m cap x s → SpanAt m cap x t → s ≡ t
  span_unique x gap gap c d = refl
  span_unique x gap (message b) c d = absurd (gap_or_message x b c d)
  span_unique x (message a) gap c d = absurd (gap_or_message x a d c)
  span_unique x (message a) (message b) c d = ap message (message_unique x a b c d)

  -- What a longer chain has after a shorter one.
  pub Chain-after :
      (x : ℕ) (ss : List Span) (h : ℕ) (ts : List Span) (t : ℕ)
      → Chain m cap x ss h
      → Chain m cap x ts t
      → h ≤ t
      → (rest : List Span) × (ts ≡ ss ++ rest) × Chain m cap h rest t
  Chain-after x [] h ts t c d within = (ts, refl, subst (λ y. Chain m cap y ts t) c d)
  Chain-after x (s ∷ ss) h [] t c d within = absurd (
      omega
        (arith, span_size_pos m cap x s pos c.0, Chain-le m cap (x + span_size cap x s) ss h c.1))
  Chain-after x (s ∷ ss) h (u ∷ ts) t c d within =
      let e = span_unique x s u c.0 d.0 in
      let (rest, same, later) =
        Chain-after (x + span_size cap x s) ss h ts t c.1
          (subst (λ v. Chain m cap (x + span_size cap x v) ts t) (sym e) d.1) within in
      (rest, ap₂ ◌∷◌ (sym e) same, later)
