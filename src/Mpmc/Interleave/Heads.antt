-- ===== src/Mpmc/Interleave/Heads.antt =====
-- The two steps of a consumer that move a head: the exchange of `head_reserve` and the publication at
-- `head_publish` (src/shared_ring_buffer_mpmc.cpp).
use native.Mathlib.Decide.{ℕ_discrete}
use lock_free_ring_buffer.Prelude.{
  ℕ, ◌+◌, ◌≤◌, ◌<◌, ◌≡◌, ◌≢◌, refl, sym, ap, subst, ◌∙◌, List, [], ◌∷◌, ◌++◌, arith, none, some,
  eq→==, ne→==, append_assoc,
}
use lock_free_ring_buffer.Word.{◌+w◌}
use lock_free_ring_buffer.Record.{Message}
use lock_free_ring_buffer.Ring.{Ring}
use lock_free_ring_buffer.Ring.Spans.{
  Span, gap, message, messages, span_size, span_size_pos, Chain, Chain-le,
}
use lock_free_ring_buffer.Ring.Regions.{Chain-append}
use lock_free_ring_buffer.Mpmc.{skip_to, take_to, exchange_head, give_back}
use lock_free_ring_buffer.Mpsc.Interleave.{Among}
use lock_free_ring_buffer.Mpsc.Interleave.Inv as PushInv
use lock_free_ring_buffer.Mpsc.Interleave.Inv.{with_heads}
use lock_free_ring_buffer.Mpmc.Interleave.{
  State, Taking, Stage, skipping, copying, ring, claimed, after_exchange, after_give_back, handed,
  Ready,
}
use lock_free_ring_buffer.Mpmc.Interleave.Inv.{Inv, free}
use lock_free_ring_buffer.Mpmc.Interleave.Takes.{Doing, Takes, Takes-snoc, Takes-later, handed_lem}

exchange_succeeds :
    (r : Ring) (head new_head : ℕ)
    → r.head_reserve ≡ head
    → exchange_head r head new_head ≡ some (with_heads r new_head r.head_publish)
unfolding exchange_head
exchange_succeeds r head new_head e = rw (eq→== r.head_reserve head e) refl

exchange_fails :
    (r : Ring) (head new_head : ℕ) → r.head_reserve ≢ head → exchange_head r head new_head ≡ none
unfolding exchange_head
exchange_fails r head new_head e = rw (ne→== r.head_reserve head e) refl

give_back_turn :
    (r : Ring) (head new_head : ℕ)
    → head ≡ r.head_publish
    → give_back r head new_head ≡ some (with_heads r r.head_reserve new_head)
unfolding give_back
give_back_turn r head new_head e = rw (eq→== r.head_publish head (sym e)) refl

give_back_wait :
    (r : Ring) (head new_head : ℕ) → r.head_publish < head → give_back r head new_head ≡ none
unfolding give_back
give_back_wait r head new_head later = ground arith

module _ {r₀ : Ring} {ms : List Message} (x : State) (v : Inv r₀ ms x) where
  -- The span that a successful exchange claims.
  abbrev Claims : ℕ → ℕ → Stage → Type 0
  Claims head new_head g =
      (s : Span) × Doing s g
      × Chain (ring x).bytes (ring x).capacity head (s ∷ []) new_head
      × (new_head ≤ (ring x).tail_publish)

  Inv-claim :
      (head new_head : ℕ) (g : Stage)
      → head ≡ (ring x).head_reserve
      → Claims head new_head g
      → Inv r₀ ms (
          after_exchange x
            (claimed head new_head g)
            (some (with_heads (ring x) new_head (ring x).head_publish)))
  Inv-claim head new_head g now (s, doing, c, end) = record {
    base = PushInv.Inv-reserved x.shared v.base new_head;
    held = v.held ++ s ∷ [];
    chain =
        Chain-append (ring x).bytes (ring x).capacity (ring x).head_publish v.held
          (ring x).head_reserve (s ∷ []) new_head v.chain
          (subst (λ h. Chain (ring x).bytes (ring x).capacity h (s ∷ []) new_head) now c);
    takes =
        Takes-snoc (ring x).capacity (ring x).head_publish x.taking v.held (ring x).head_reserve
          (claimed head new_head g) s v.takes now
          (sym c.1 ∙ ap (λ h. h + span_size (ring x).capacity h s) now) doing;
    within = end;
    tails = v.tails;
    views = λ t h among.
        let (old, order, below) = v.views t h among in (omega (arith, old, grown), order, below);
    decided = λ h d among.
        let (old, right) = v.decided h d among in
        (omega (arith, old, grown), λ here. absurd (omega (arith, old, here, grown)));
  }
    where
      grown : (ring x).head_reserve < new_head
      grown = omega (
        arith,
        now,
        c.1,
        span_size_pos (ring x).bytes (ring x).capacity head s v.base.positive c.0,
      )

  Inv-exchange :
      (head new_head : ℕ) (g : Stage)
      → (head ≡ (ring x).head_reserve → Claims head new_head g)
      → Inv r₀ ms
          (after_exchange x (claimed head new_head g) (exchange_head (ring x) head new_head))
  Inv-exchange head new_head g claims = elim (ℕ_discrete (ring x).head_reserve head) [
    | yes now ↦
        subst (λ z. Inv r₀ ms (after_exchange x (claimed head new_head g) z))
          (sym (exchange_succeeds (ring x) head new_head now))
          (Inv-claim head new_head g (sym now) (claims (sym now)))
    | no other ↦
        subst (λ z. Inv r₀ ms (after_exchange x (claimed head new_head g) z))
          (sym (exchange_fails (ring x) head new_head other)) v
  ]

  pub Inv-skips :
      (head new_head : ℕ)
      → Among (head, skip_to new_head) x.decided
      → Inv r₀ ms
          (after_exchange x (claimed head new_head skipping) (exchange_head (ring x) head new_head))
  Inv-skips head new_head among =
      Inv-exchange head new_head skipping
        (λ now. let (c, end) = (v.decided head (skip_to new_head) among).1 now in (gap, tt, c, end))

  pub Inv-takes :
      (head new_head size : ℕ)
      → Among (head, take_to new_head size) x.decided
      → Inv r₀ ms (
          after_exchange x
            (claimed head new_head (copying size))
            (exchange_head (ring x) head new_head))
  Inv-takes head new_head size among = Inv-exchange head new_head (copying size) (λ now.
      let (m, e, c, end) = (v.decided head (take_to new_head size) among).1 now in
      (message m, e, c, end))

  -- The first in the order of the exchanges publishes its head, and hands over its message.
  Inv-given :
      (k : Taking) (after : List Taking) (ss : List Span)
      → x.taking ≡ k ∷ after
      → v.held ≡ ss
      → Ready k.stage
      → (k.from ≡ (ring x).head_publish)
        × Inv r₀ ms
            (after_give_back x [] k after (some (with_heads (ring x) (ring x).head_reserve k.to)))
  Inv-given k after [] e f ready =
      elim (subst (λ ks. Takes (ring x).capacity (ring x).head_publish ks [] (ring x).head_reserve)
        e
        (subst
          (λ ss. Takes (ring x).capacity (ring x).head_publish x.taking ss (ring x).head_reserve) f
          v.takes)) [ ]
  Inv-given k after (s ∷ ss) e f ready = (
    w.0,
    record {
      base =
          subst
            (λ h. PushInv.Inv r₀ ms (record x.shared {
              ring = with_heads (ring x) (ring x).head_reserve h;
              popped = x.shared.popped ++ handed k.stage;
            }))
            there
            (PushInv.Inv-stepped x.shared v.base s (ss ++ (free x v).0) (ring x).head_reserve
              (x.shared.popped ++ handed k.stage) ((free x v).1 ∙ ap (λ zs. zs ++ (free x v).0) f)
              (append_assoc x.shared.popped (handed k.stage) (messages (ss ++ (free x v).0))
                ∙ ap (λ zs. x.shared.popped ++ zs)
                    (handed_lem s k.stage (ss ++ (free x v).0) w.2 ready)));
      held = ss;
      chain =
          subst (λ h. Chain (ring x).bytes (ring x).capacity h ss (ring x).head_reserve) (sym w.1)
            c.1;
      takes = subst (λ h. Takes (ring x).capacity h after ss (ring x).head_reserve) (sym w.1) w.3;
      within = v.within;
      tails = v.tails;
      views = v.views;
      decided = v.decided;
    },
  )
    where
      w : Takes (ring x).capacity (ring x).head_publish (k ∷ after) (s ∷ ss) (ring x).head_reserve
      w =
          subst
            (λ ks. Takes (ring x).capacity (ring x).head_publish ks (s ∷ ss) (ring x).head_reserve)
            e
            (subst
              (λ ss.
                Takes (ring x).capacity (ring x).head_publish x.taking ss (ring x).head_reserve)
              f v.takes)

      c :
          Chain
            (ring x).bytes
            (ring x).capacity
            (ring x).head_publish
            (s ∷ ss)
            (ring x).head_reserve
      c =
          subst
            (λ ss.
              Chain (ring x).bytes (ring x).capacity (ring x).head_publish ss (ring x).head_reserve)
            f v.chain

      there : (ring x).head_publish +w span_size (ring x).capacity (ring x).head_publish s ≡ k.to
      there = omega (
        arith,
        w.1,
        v.within,
        (PushInv.Inv-ring x.shared v.base).word,
        Chain-le (ring x).bytes (ring x).capacity
            ((ring x).head_publish + span_size (ring x).capacity (ring x).head_publish s) ss
            (ring x).head_reserve c.1,
      )

  pub first_gives_back :
      (k : Taking) (after : List Taking)
      → x.taking ≡ k ∷ after
      → Ready k.stage
      → give_back (ring x) k.from k.to ≡ some (with_heads (ring x) (ring x).head_reserve k.to)
  first_gives_back k after e ready =
      give_back_turn (ring x) k.from k.to (Inv-given k after v.held e refl ready).0

  pub later_waits :
      (q : Taking) (before : List Taking) (k : Taking) (after : List Taking)
      → x.taking ≡ (q ∷ before) ++ k ∷ after
      → give_back (ring x) k.from k.to ≡ none
  later_waits q before k after e = give_back_wait (ring x) k.from k.to (
      Takes-later (ring x).bytes (ring x).capacity (ring x).head_publish q before k after v.held
        (ring x).head_reserve v.base.positive v.chain
        (subst (λ ks. Takes (ring x).capacity (ring x).head_publish ks v.held (ring x).head_reserve)
          e v.takes))

  pub Inv-gives_back :
      (before : List Taking) (k : Taking) (after : List Taking)
      → x.taking ≡ before ++ k ∷ after
      → Ready k.stage
      → Inv r₀ ms (after_give_back x before k after (give_back (ring x) k.from k.to))
  Inv-gives_back [] k after e ready =
      subst (λ z. Inv r₀ ms (after_give_back x [] k after z))
        (sym (first_gives_back k after e ready)) (Inv-given k after v.held e refl ready).1
  Inv-gives_back (q ∷ before) k after e ready =
      subst (λ z. Inv r₀ ms (after_give_back x (q ∷ before) k after z))
        (sym (later_waits q before k after e)) v
