-- ===== src/Ring/Spans.antt =====
-- What lies in a ring between its two counters: a list of spans, each a message or a gap that the
-- consumer skips. This is the abstract view of the bytes.
use native.Mathlib.Nat.{mod-lt}
use lock_free_ring_buffer.Prelude.{
  ℕ, ◌+◌, ◌-◌, ◌*◌, ◌/◌, ◌%◌, ◌≤◌, ◌<◌, ◌≡◌, refl, sym, ap, subst, ◌∙◌, ◌⊎◌, inl, inr, List, [],
  ◌∷◌, ◌++◌, length, arith,
}
use lock_free_ring_buffer.Word.{u32}
use lock_free_ring_buffer.Memory.{Memory, Apart, load_int, load_int-agree}
use lock_free_ring_buffer.Record.{
  Message, message_size, RecordAt, RecordAt-Agree, Agree, record_size_lem,
}
use lock_free_ring_buffer.Ring.Position.{mod-Apart}

pub data Span : Type 0 where
  gap : Span
  message : Message → Span

abbrev pub messages : List Span → List Message
messages [] = []
messages (gap ∷ ss) = messages ss
messages (message r ∷ ss) = r ∷ messages ss

abbrev pub span_size : ℕ → ℕ → Span → ℕ
span_size cap x gap = cap - x % cap
span_size cap x (message r) = message_size r

-- A gap is too short for a header, or begins with the header of a wrap record.
abbrev pub GapAt : Memory → ℕ → ℕ → Type 0
GapAt m cap x = (cap - x % cap < 16) ⊎ ((16 ≤ cap - x % cap) × (load_int 2 m (x % cap + 6) ≡ 1))

pub record MessageAt (m : Memory) (cap x : ℕ) (r : Message) : Type 0 where
  pub at : RecordAt m (x % cap) r
  pub small : length r.payload < u32
  pub within : x % cap + message_size r ≤ cap

abbrev pub SpanAt : Memory → ℕ → ℕ → Span → Type 0
SpanAt m cap x gap = GapAt m cap x
SpanAt m cap x (message r) = MessageAt m cap x r

-- The spans cover the counters from `x` to `t`.
abbrev pub Chain : Memory → ℕ → ℕ → List Span → ℕ → Type 0
Chain m cap x [] t = x ≡ t
Chain m cap x (s ∷ ss) t = SpanAt m cap x s × Chain m cap (x + span_size cap x s) ss t

module _ (m : Memory) (cap : ℕ) where
  pub Chain-le : (x : ℕ) (ss : List Span) (t : ℕ) → Chain m cap x ss t → x ≤ t
  Chain-le x [] t c = omega arith
  Chain-le x (s ∷ ss) t c = omega (arith, Chain-le (x + span_size cap x s) ss t c.1)

  pub Chain-snoc :
      (x : ℕ) (ss : List Span) (t : ℕ) (s : Span)
      → Chain m cap x ss t
      → SpanAt m cap t s
      → Chain m cap x (ss ++ s ∷ []) (t + span_size cap t s)
  Chain-snoc x [] t s c h =
      (subst (λ y. SpanAt m cap y s) (sym c) h, ap (λ y. y + span_size cap y s) c)
  Chain-snoc x (s' ∷ ss) t s c h = (c.0, Chain-snoc (x + span_size cap x s') ss t s c.1 h)

-- Each span takes at least a byte.
pub span_size_pos :
    (m : Memory) (cap x : ℕ) (s : Span) → 0 < cap → SpanAt m cap x s → 0 < span_size cap x s
span_size_pos m cap x gap h c = omega (arith, mod-lt x h)
span_size_pos m cap x (message r) h c = omega (arith, record_size_lem (length r.payload) c.small)

pub Chain-length :
    (m : Memory) (cap x : ℕ) (ss : List Span) (t : ℕ)
    → 0 < cap
    → Chain m cap x ss t
    → x + length ss ≤ t
Chain-length m cap x [] t h c = omega arith
Chain-length m cap x (s ∷ ss) t h c =
    omega
      (arith, span_size_pos m cap x s h c.0, Chain-length m cap (x + span_size cap x s) ss t h c.1)

pub messages-append : (ss ts : List Span) → messages (ss ++ ts) ≡ messages ss ++ messages ts
messages-append [] ts = refl
messages-append (gap ∷ ss) ts = messages-append ss ts
messages-append (message r ∷ ss) ts = ap (λ rs. r ∷ rs) (messages-append ss ts)

-- A write into `n` bytes at the position of `t`, at most one round past `x`, leaves the spans from
-- `x` to `t` as they are.
module _ (m m' : Memory) (cap t n : ℕ) (pos : 0 < cap) (fits : t % cap + n ≤ cap)
    (same : (i : ℕ) → Apart (t % cap) n i 1 → m i ≡ m' i) where
  Agree-before :
      (x a : ℕ) → x + a ≤ t → t + n ≤ x + cap → x % cap + a ≤ cap → Agree m m' (x % cap) a
  Agree-before x a h₁ h₂ h₃ i p q = same i (omega (arith, mod-Apart cap x a t n pos h₁ h₂ h₃ fits))

  pub SpanAt-keep :
      (x : ℕ) (s : Span)
      → x + span_size cap x s ≤ t
      → t + n ≤ x + cap
      → SpanAt m cap x s
      → SpanAt m' cap x s
  SpanAt-keep x gap h₁ h₂ (inl short) = inl short
  SpanAt-keep x gap h₁ h₂ (inr (room, flag)) = inr (
    room,
    sym (
          load_int-agree 2 m m' (x % cap + 6) (λ i p q.
            Agree-before x 16 (omega arith) h₂ (omega arith) i (omega arith) (omega arith)))
        ∙ flag,
  )
  SpanAt-keep x (message r) h₁ h₂ c = record {
    at =
        RecordAt-Agree m m' (x % cap) r
          (Agree-before x (16 + length r.payload) (omega (arith, size)) h₂ (omega (arith, size)))
          c.at;
    small = c.small;
    within = c.within;
  }
    where
      size : message_size r ≡ (length r.payload + 23) / 8 * 8
      size = record_size_lem (length r.payload) c.small

  pub Chain-keep :
      (x : ℕ) (ss : List Span) → t + n ≤ x + cap → Chain m cap x ss t → Chain m' cap x ss t
  Chain-keep x [] h c = c
  Chain-keep x (s ∷ ss) h c = (
    SpanAt-keep x s (Chain-le m cap (x + span_size cap x s) ss t c.1) h c.0,
    Chain-keep (x + span_size cap x s) ss (omega arith) c.1,
  )
