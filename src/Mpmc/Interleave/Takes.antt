-- ===== src/Mpmc/Interleave/Takes.antt =====
-- The consumers between their exchange and their publication: each has a span, one after the other in
-- the order of the exchanges, from the published head to the reserved one.
use lock_free_ring_buffer.Prelude.{
  ℕ, ◌+◌, ◌<◌, ◌≡◌, refl, sym, ap, subst, ◌∙◌, List, [], ◌∷◌, ◌++◌, length, arith,
}
use lock_free_ring_buffer.Memory.{Memory}
use lock_free_ring_buffer.Ring.{Ring}
use lock_free_ring_buffer.Ring.Spans.{
  Span, gap, message, messages, span_size, span_size_pos, SpanAt, Chain,
}
use lock_free_ring_buffer.Spsc.History.{fill_out-nil}
use lock_free_ring_buffer.Mpmc.{copy}
use lock_free_ring_buffer.Mpmc.Pop.{copy_lem}
use lock_free_ring_buffer.Mpsc.Interleave.{as_message}
use lock_free_ring_buffer.Mpmc.Interleave.{Stage, skipping, copying, holding, Taking, handed, Ready}

-- What a consumer may be doing with a span. One that holds something holds its message.
abbrev pub Doing : Span → Stage → Type 0
Doing gap skipping = Unit
Doing gap (copying size) = ⊥
Doing gap (holding p) = ⊥
Doing (message m) skipping = ⊥
Doing (message m) (copying size) = size ≡ length m.payload
Doing (message m) (holding p) = as_message p ≡ m

abbrev pub Takes : ℕ → ℕ → List Taking → List Span → ℕ → Type 0
Takes cap t [] [] h = t ≡ h
Takes cap t [] (s ∷ ss) h = ⊥
Takes cap t (k ∷ ks) [] h = ⊥
Takes cap t (k ∷ ks) (s ∷ ss) h =
    (k.from ≡ t)
    × (k.to ≡ t + span_size cap t s)
    × Doing s k.stage
    × Takes cap (t + span_size cap t s) ks ss h

module _ (cap : ℕ) where
  pub Takes-snoc :
      (t : ℕ) (ks : List Taking) (ss : List Span) (h : ℕ) (k : Taking) (s : Span)
      → Takes cap t ks ss h
      → k.from ≡ h
      → k.to ≡ h + span_size cap h s
      → Doing s k.stage
      → Takes cap t (ks ++ k ∷ []) (ss ++ s ∷ []) k.to
  Takes-snoc t [] [] h k s c from to d = (
    from ∙ sym c,
    to ∙ ap (λ y. y + span_size cap y s) (sym c),
    d,
    ap (λ y. y + span_size cap y s) c ∙ sym to,
  )
  Takes-snoc t [] (s' ∷ ss) h k s c from to d = elim c [ ]
  Takes-snoc t (k' ∷ ks) [] h k s c from to d = elim c [ ]
  Takes-snoc t (k' ∷ ks) (s' ∷ ss) h k s c from to d =
      (c.0, c.1, c.2, Takes-snoc (t + span_size cap t s') ks ss h k s c.3 from to d)

-- The copy gives the message of the span, whole.
pub copied-Doing :
    (r : Ring) (t size : ℕ) (s : Span)
    → SpanAt r.bytes r.capacity t s
    → Doing s (copying size)
    → Doing s (holding (copy r t size []))
copied-Doing r t size gap at d = elim d [ ]
copied-Doing r t size (message m) at d =
    ap (λ n. as_message (copy r t n [])) d
    ∙ ap as_message (copy_lem r t m [] at)
    ∙ ap (λ b. record { type = m.type; sequence = m.sequence; payload = b })
        (fill_out-nil m.payload)

pub Takes-copy :
    (r : Ring) (t : ℕ) (before : List Taking) (k : Taking) (size : ℕ) (after : List Taking)
    (ss : List Span) (h : ℕ)
    → Chain r.bytes r.capacity t ss h
    → k.stage ≡ copying size
    → Takes r.capacity t (before ++ k ∷ after) ss h
    → Takes r.capacity t
        (before ++ record k { stage = holding (copy r k.from size []) } ∷ after)
        ss
        h
Takes-copy r t [] k size after [] h c e w = elim w [ ]
Takes-copy r t [] k size after (s ∷ ss) h c e w = (
  w.0,
  w.1,
  subst (λ y. Doing s (holding (copy r y size []))) (sym w.0)
      (copied-Doing r t size s c.0 (subst (Doing s) e w.2)),
  w.3,
)
Takes-copy r t (k' ∷ before) k size after [] h c e w = elim w [ ]
Takes-copy r t (k' ∷ before) k size after (s ∷ ss) h c e w =
    (w.0, w.1, w.2, Takes-copy r (t + span_size r.capacity t s) before k size after ss h c.1 e w.3)

-- Behind another consumer the span starts later.
pub Takes-later :
    (m : Memory) (cap t : ℕ) (q : Taking) (before : List Taking) (k : Taking) (after : List Taking)
    (ss : List Span) (h : ℕ)
    → 0 < cap
    → Chain m cap t ss h
    → Takes cap t ((q ∷ before) ++ k ∷ after) ss h
    → t < k.from
Takes-later m cap t q before k after [] h pos c w = elim w [ ]
Takes-later m cap t q [] k after (s ∷ []) h pos c w = elim w.3 [ ]
Takes-later m cap t q [] k after (s ∷ u ∷ ss) h pos c w =
    omega (arith, w.3.0, span_size_pos m cap t s pos c.0)
Takes-later m cap t q (q' ∷ before) k after (s ∷ ss) h pos c w =
    omega (arith, Takes-later m cap (t + span_size cap t s) q' before k after ss h pos c.1 w.3)

-- What a consumer that gives back hands over is what its span held.
pub handed_lem :
    (s : Span) (g : Stage) (ss : List Span)
    → Doing s g
    → Ready g
    → handed g ++ messages ss ≡ messages (s ∷ ss)
handed_lem gap skipping ss d ready = refl
handed_lem gap (copying size) ss d ready = elim d [ ]
handed_lem gap (holding p) ss d ready = elim d [ ]
handed_lem (message m) skipping ss d ready = elim d [ ]
handed_lem (message m) (copying size) ss d ready = elim ready [ ]
handed_lem (message m) (holding p) ss d ready = ap (λ a. a ∷ messages ss) d
