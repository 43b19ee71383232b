-- ===== src/Ring/Regions.antt =====
-- Writes to the bytes of a range of counters, wherever in the ring the range stands.
use native.Mathlib.Nat.{mod-lt}
use native.Mathlib.Decide.{dec_lt}
use lock_free_ring_buffer.Prelude.{
  ℕ, ◌+◌, ◌-◌, ◌%◌, ◌≤◌, ◌<◌, ◌≡◌, ◌≢◌, sym, ap, subst, ◌∙◌, inl, inr, List, [], ◌∷◌, ◌++◌, length,
  arith,
}
use lock_free_ring_buffer.Memory.{Memory, Apart, load_int-agree}
use lock_free_ring_buffer.Record.{message_size, RecordAt-Agree, Agree, record_size_lem}
use lock_free_ring_buffer.Ring.Position.{add-mod-cases}
use lock_free_ring_buffer.Ring.Spans.{Span, gap, message, span_size, SpanAt, Chain, Chain-le}

-- No counter of the one range has the place of a counter of the other.
abbrev pub Clear : ℕ → ℕ → ℕ → ℕ → ℕ → Type 0
Clear cap x k a n = (y c : ℕ) → x ≤ y → y < x + k → a ≤ c → c < a + n → y % cap ≢ c % cap

-- Two memories that differ at most at the places of the `n` counters from `a` on.
abbrev pub Only : ℕ → ℕ → ℕ → Memory → Memory → Type 0
Only cap a n m m' = (i : ℕ) → ((c : ℕ) → a ≤ c → c < a + n → i ≢ c % cap) → m i ≡ m' i

-- Counters less than a round apart have places of their own.
other_place : (cap y c : ℕ) → 0 < cap → y < c → c < y + cap → y % cap ≢ c % cap
other_place cap y c pos h₁ h₂ e = absurd (
    omega (
      arith,
      e,
      add-mod-cases cap y (c - y) pos (omega arith),
      ap (λ k. k % cap) (let whole : y + (c - y) ≡ c = omega arith in whole),
    ))

pub Clear-before : (cap x k a n : ℕ) → 0 < cap → x + k ≤ a → a + n ≤ x + cap → Clear cap x k a n
Clear-before cap x k a n pos h₁ h₂ y c p₁ p₂ q₁ q₂ =
    other_place cap y c pos (omega arith) (omega arith)

pub Clear-after : (cap x k a n : ℕ) → 0 < cap → a + n ≤ x → x + k ≤ a + cap → Clear cap x k a n
Clear-after cap x k a n pos h₁ h₂ y c p₁ p₂ q₁ q₂ e =
    other_place cap c y pos (omega arith) (omega arith) (sym e)

module _ (cap : ℕ) (pos : 0 < cap) where
  -- The place of a counter in a range that does not go past the end.
  place : (x k j : ℕ) → x % cap + k ≤ cap → j < k → (x + j) % cap ≡ x % cap + j
  place x k j fits h = omega (arith, add-mod-cases cap x j pos (omega arith))

  -- A byte outside a range of places.
  pub missed :
      (x k i : ℕ)
      → x % cap + k ≤ cap
      → ((c : ℕ) → x ≤ c → c < x + k → i ≢ c % cap)
      → Apart (x % cap) k i 1
  missed x k i fits none_hit = elim (dec_lt i (x % cap)) [
    | yes below ↦ inr (omega arith)
    | no up ↦ elim (dec_lt i (x % cap + k)) [
      | yes inside ↦ absurd (
          none_hit (x + (i - x % cap)) (omega arith) (omega arith)
            (omega (arith, place x k (i - x % cap) fits (omega arith))))
      | no above ↦ inl (omega arith)
    ]
  ]

  module _ (m m' : Memory) (a n : ℕ) (only : Only cap a n m m') where
    pub Agree-Clear : (x k : ℕ) → x % cap + k ≤ cap → Clear cap x k a n → Agree m m' (x % cap) k
    Agree-Clear x k fits clear i p q = only i (λ c l u e.
        clear (x + (i - x % cap)) c (omega arith) (omega arith) l u (
          place x k (i - x % cap) fits (omega arith)
          ∙ (let back : x % cap + (i - x % cap) ≡ i = omega arith in back)
          ∙ e))

    SpanAt-Clear :
        (x : ℕ) (s : Span)
        → Clear cap x (span_size cap x s) a n
        → SpanAt m cap x s
        → SpanAt m' cap x s
    SpanAt-Clear x gap clear (inl short) = inl short
    SpanAt-Clear x gap clear (inr (room, flag)) = inr (
      room,
      sym (
            load_int-agree 2 m m' (x % cap + 6) (λ i p q.
              Agree-Clear x (cap - x % cap) (omega (arith, mod-lt x pos)) clear i (omega arith)
                (omega arith)))
          ∙ flag,
    )
    SpanAt-Clear x (message r) clear c = record {
      at =
          RecordAt-Agree m m' (x % cap) r
            (λ i p q.
              Agree-Clear x (message_size r) c.within clear i p
                (omega (arith, record_size_lem (length r.payload) c.small)))
            c.at;
      small = c.small;
      within = c.within;
    }

    -- A write elsewhere leaves the spans of a range as they are.
    pub Chain-Clear :
        (x : ℕ) (ss : List Span) (t : ℕ)
        → Clear cap x (t - x) a n
        → Chain m cap x ss t
        → Chain m' cap x ss t
    Chain-Clear x [] t clear c = c
    Chain-Clear x (s ∷ ss) t clear c =
        let end = Chain-le m cap (x + span_size cap x s) ss t c.1 in
        (
          SpanAt-Clear x s (λ y d p q. clear y d p (omega arith)) c.0,
          Chain-Clear (x + span_size cap x s) ss t
              (λ y d p q. clear y d (omega arith) (omega arith)) c.1,
        )

pub Chain-append :
    (m : Memory) (cap x : ℕ) (ss : List Span) (t : ℕ) (ts : List Span) (u : ℕ)
    → Chain m cap x ss t
    → Chain m cap t ts u
    → Chain m cap x (ss ++ ts) u
Chain-append m cap x [] t ts u c d = subst (λ y. Chain m cap y ts u) (sym c) d
Chain-append m cap x (s ∷ ss) t ts u c d =
    (c.0, Chain-append m cap (x + span_size cap x s) ss t ts u c.1 d)
