-- ===== src/Mpmc/Interleave/Inv.antt =====
-- The invariant of producers and consumers, over the steps of a producer and the loads, the tests and
-- the copy of a consumer.
use lock_free_ring_buffer.Prelude.{
  ℕ, ◌+◌, ◌-◌, ◌≤◌, ◌≡◌, refl, sym, ap, subst, ◌∙◌, inl, inr, List, [], ◌∷◌, ◌++◌, length, arith,
  Bool-cases, ltb,
}
use lock_free_ring_buffer.Memory.{Memory}
use lock_free_ring_buffer.Record.{Message}
use lock_free_ring_buffer.Ring.{Ring}
use lock_free_ring_buffer.Ring.Spans.{Span, gap, message, span_size, Chain, Chain-le}
use lock_free_ring_buffer.Ring.Regions.{Clear-before, Chain-Clear}
use lock_free_ring_buffer.Mpmc.{Decision, leave, skip_to, take_to, decide}
use lock_free_ring_buffer.Mpmc.Pop.{asked, decide_lem}
use lock_free_ring_buffer.Mpsc.Interleave as Push
use lock_free_ring_buffer.Mpsc.Interleave.{Among}
use lock_free_ring_buffer.Mpsc.Interleave.Inv as PushInv
use lock_free_ring_buffer.Mpsc.Interleave.Kept.{Kept}
use lock_free_ring_buffer.Mpmc.Interleave.{State, Taking, copying, ring, after_copy}
use lock_free_ring_buffer.Mpmc.Interleave.Spans.{Chain-after}
use lock_free_ring_buffer.Mpmc.Interleave.Takes.{Takes, Takes-copy}

-- A decision that is right about the span at `h`, which ends before `t`.
abbrev pub Right : Memory → ℕ → ℕ → ℕ → Decision → Type 0
Right m cap h t leave = Unit
Right m cap h t (skip_to n) = Chain m cap h (gap ∷ []) n × (n ≤ t)
Right m cap h t (take_to n size) =
    (r : Message) × (size ≡ length r.payload) × Chain m cap h (message r ∷ []) n × (n ≤ t)

-- The decisions about the head as it is are right; the others will come to nothing.
abbrev pub RightNow : Ring → ℕ → Decision → Type 0
RightNow r h d =
    (h ≤ r.head_reserve) × (h ≡ r.head_reserve → Right r.bytes r.capacity h r.tail_publish d)

pub record Inv (r₀ : Ring) (ms : List Message) (x : State) : Type 0 where
  pub base : PushInv.Inv r₀ ms x.shared
  pub held : List Span
  pub chain :
      Chain (ring x).bytes (ring x).capacity (ring x).head_publish held (ring x).head_reserve
  pub takes : Takes (ring x).capacity (ring x).head_publish x.taking held (ring x).head_reserve
  pub within : (ring x).head_reserve ≤ (ring x).tail_publish
  pub tails : (t : ℕ) → Among t x.tails → t ≤ (ring x).tail_publish
  pub views :
      (t h : ℕ)
      → Among (t, h) x.views
      → (h ≤ (ring x).head_reserve) × (h ≤ t) × (t ≤ (ring x).tail_publish)
  pub decided : (h : ℕ) (d : Decision) → Among (h, d) x.decided → RightNow (ring x) h d

-- What the tests of a round decide about the head as it is.
asked-Right :
    (r : Ring) (tail head : ℕ) (ss : List Span)
    → Chain r.bytes r.capacity head ss r.tail_publish
    → Right r.bytes r.capacity head r.tail_publish (asked r tail head ss)
asked-Right r tail head [] c = tt
asked-Right r tail head (s ∷ ss) c =
    elim (Bool-cases (ltb (tail - head) (span_size r.capacity head s))) [
      | inl short ↦ rw short tt
      | inr long ↦ rw long (right s c)
    ]
  where
    right :
        (s : Span)
        → Chain r.bytes r.capacity head (s ∷ ss) r.tail_publish
        → Right r.bytes r.capacity head r.tail_publish (lock_free_ring_buffer.Mpmc.Pop.act r head s)
    right gap c = (
      (c.0, refl),
      Chain-le r.bytes r.capacity (head + span_size r.capacity head gap) ss r.tail_publish c.1,
    )
    right (message m) c = (
      m,
      refl,
      (c.0, refl),
      Chain-le r.bytes r.capacity (head + span_size r.capacity head (message m)) ss r.tail_publish
          c.1,
    )

-- What holds of three numbers holds of equal ones.
pub moved :
    (P : ℕ → ℕ → ℕ → Type 0) {a a' b b' c c' : ℕ} → a' ≡ a → b' ≡ b → c' ≡ c → P a b c → P a' b' c'
moved P {a} {a'} {b} {b'} {c} {c'} p q r h =
    subst (λ z. P a' b' z) (sym r) (subst (λ y. P a' y c) (sym q) (subst (λ x. P x b c) (sym p) h))

module _ {r₀ : Ring} {ms : List Message} (x : State) (v : Inv r₀ ms x) where
  -- The spans that no consumer has reserved yet.
  pub free :
      (rest : List Span) × (v.base.spans ≡ v.held ++ rest)
      × Chain (ring x).bytes (ring x).capacity (ring x).head_reserve rest (ring x).tail_publish
  free =
      Chain-after (ring x).bytes (ring x).capacity v.base.positive (ring x).head_publish v.held
        (ring x).head_reserve v.base.spans (ring x).tail_publish v.chain v.base.chain v.within

  pub Inv-load_tail : Inv r₀ ms (record x { tails = (ring x).tail_publish ∷ x.tails })
  Inv-load_tail = record {
    base = v.base;
    held = v.held;
    chain = v.chain;
    takes = v.takes;
    within = v.within;
    tails = λ t among. elim among [ inl e ↦ omega arith | inr old ↦ v.tails t old ];
    views = v.views;
    decided = v.decided;
  }

  pub Inv-load_head :
      (tail : ℕ)
      → Among tail x.tails
      → (ring x).head_reserve ≤ tail
      → Inv r₀ ms (record x { views = (tail, (ring x).head_reserve) ∷ x.views })
  Inv-load_head tail among not_behind = record {
    base = v.base;
    held = v.held;
    chain = v.chain;
    takes = v.takes;
    within = v.within;
    tails = v.tails;
    views = λ t h among'. elim among' [
      | inl e ↦ (
        omega (arith, ap (λ p. p.1) e),
        omega (arith, ap (λ p. p.0) e, ap (λ p. p.1) e),
        omega (arith, ap (λ p. p.0) e, v.tails tail among),
      )
      | inr old ↦ v.views t h old
    ];
    decided = v.decided;
  }

  tests-RightNow :
      (tail head : ℕ)
      → Among (tail, head) x.views
      → RightNow (ring x) head (decide tail head (ring x))
  tests-RightNow tail head among =
      let (old, order, below) = v.views tail head among in
      (
        old,
        λ now.
            let c =
              subst (λ h. Chain (ring x).bytes (ring x).capacity h free.0 (ring x).tail_publish)
                (sym now) free.2 in
            subst (Right (ring x).bytes (ring x).capacity head (ring x).tail_publish)
              (sym (
                decide_lem (ring x) tail head (ring x).tail_publish
                  (PushInv.Inv-ring x.shared v.base).word order below v.base.positive free.0 c))
              (asked-Right (ring x) tail head free.0 c),
      )

  pub Inv-tests :
      (tail head : ℕ)
      → Among (tail, head) x.views
      → Inv r₀ ms (record x { decided = (head, decide tail head (ring x)) ∷ x.decided })
  Inv-tests tail head among = record {
    base = v.base;
    held = v.held;
    chain = v.chain;
    takes = v.takes;
    within = v.within;
    tails = v.tails;
    views = v.views;
    decided = λ h d among'. elim among' [
      | inl e ↦ subst (λ p. RightNow (ring x) p.0 p.1) (sym e) (tests-RightNow tail head among)
      | inr old ↦ v.decided h d old
    ];
  }

  pub Inv-copy :
      (before : List Taking) (k : Taking) (size : ℕ) (after : List Taking)
      → x.taking ≡ before ++ k ∷ after
      → k.stage ≡ copying size
      → Inv r₀ ms (after_copy x before k size after)
  Inv-copy before k size after e stage = record {
    base = v.base;
    held = v.held;
    chain = v.chain;
    takes =
        Takes-copy (ring x) (ring x).head_publish before k size after v.held (ring x).head_reserve
          v.chain stage
          (subst
            (λ ks. Takes (ring x).capacity (ring x).head_publish ks v.held (ring x).head_reserve) e
            v.takes);
    within = v.within;
    tails = v.tails;
    views = v.views;
    decided = v.decided;
  }

  module _ (s : Push.State) (base : PushInv.Inv r₀ ms s) (k : Kept x.shared.ring s.ring) where
    -- Bytes that no producer may write.
    kept-Chain :
        (h : ℕ) (ss : List Span) (n : ℕ)
        → (ring x).head_publish ≤ h
        → n ≤ (ring x).tail_publish
        → Chain (ring x).bytes (ring x).capacity h ss n
        → Chain s.ring.bytes (ring x).capacity h ss n
    kept-Chain h ss n low high c =
        Chain-Clear (ring x).capacity v.base.positive (ring x).bytes s.ring.bytes k.at k.size k.only
          h ss n
          (Clear-before (ring x).capacity h (n - h) k.at k.size v.base.positive
            (omega (arith, k.after_tail, Chain-le (ring x).bytes (ring x).capacity h ss n c))
            (omega (arith, k.within)))
          c

    kept-Right :
        (h : ℕ) (d : Decision)
        → (ring x).head_publish ≤ h
        → Right (ring x).bytes (ring x).capacity h (ring x).tail_publish d
        → Right s.ring.bytes s.ring.capacity h s.ring.tail_publish d
    kept-Right h leave low right = tt
    kept-Right h (skip_to n) low (c, end) = (
      moved (λ c y t. Chain s.ring.bytes c y (gap ∷ []) t) k.capacity_same refl refl
          (kept-Chain h (gap ∷ []) n low end c),
      omega (arith, k.tail_grows, end),
    )
    kept-Right h (take_to n size) low (r, e, c, end) = (
      r,
      e,
      moved (λ c y t. Chain s.ring.bytes c y (message r ∷ []) t) k.capacity_same refl refl
          (kept-Chain h (message r ∷ []) n low end c),
      omega (arith, k.tail_grows, end),
    )

    pub Inv-shared : Inv r₀ ms (record x { shared = s })
    Inv-shared = record {
      base = base;
      held = v.held;
      chain =
          moved (λ c y t. Chain s.ring.bytes c y v.held t) k.capacity_same k.head_same k.taken_same
            (kept-Chain (ring x).head_publish v.held (ring x).head_reserve (omega arith) v.within
              v.chain);
      takes =
          moved (λ c y t. Takes c y x.taking v.held t) k.capacity_same k.head_same k.taken_same
            v.takes;
      within = omega (arith, k.taken_same, k.tail_grows, v.within);
      tails = λ t among. omega (arith, v.tails t among, k.tail_grows);
      views = λ t h among.
          let (old, order, below) = v.views t h among in
          (omega (arith, old, k.taken_same), order, omega (arith, below, k.tail_grows));
      decided = λ h d among.
          let (old, right) = v.decided h d among in
          (
            omega (arith, old, k.taken_same),
            λ now.
                let now' = now ∙ k.taken_same in
                kept-Right h d
                  (omega (
                    arith,
                    now',
                    Chain-le (ring x).bytes (ring x).capacity (ring x).head_publish v.held
                        (ring x).head_reserve v.chain,
                  ))
                  (right now'),
          );
    }
