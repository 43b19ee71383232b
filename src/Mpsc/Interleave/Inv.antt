-- ===== src/Mpsc/Interleave/Inv.antt =====
-- The invariant of the interleaved pushes, over the load of the head, the exchange and the fill.
use mathlib.Core.Bool.{false≢true}
use lock_free_ring_buffer.Prelude.{
  none, ◌⊎◌, ℕ, ◌+◌, ◌≤◌, ◌<◌, ◌≡◌, refl, sym, ap, subst, ◌∙◌, inl, inr, List, [], ◌∷◌, ◌++◌,
  length, arith, append_assoc,
}
use lock_free_ring_buffer.Word.{◌+w◌, u64, u32, u16}
use lock_free_ring_buffer.Record.{Message, record_size_lem}
use lock_free_ring_buffer.Ring.{Ring, set_head}
use lock_free_ring_buffer.Ring.Spans.{span_size, Span, messages, Chain, Chain-le}
use lock_free_ring_buffer.Ring.Inv.{Inv as RingInv}
use lock_free_ring_buffer.Ring.Regions.{Chain-Clear, Clear-before}
use lock_free_ring_buffer.Spsc.Pop.{set_head-Inv}
use lock_free_ring_buffer.Spsc.History.{stamp}
use lock_free_ring_buffer.Mpsc.{reserve, fill}
use lock_free_ring_buffer.Mpsc.Interleave.{
  Parcel, Pending, State, Among, needed_of, after_reserve, after_fill, Roomy,
}
use lock_free_ring_buffer.Mpsc.Interleave.Places.{Taken, reserve-cases}
use lock_free_ring_buffer.Mpsc.Interleave.Tiles.{
  Tiles, Tiles-le, Tiles-append, Tiles-fill, fill-published,
}

abbrev pub parcels : List Pending → List Parcel
parcels [] = []
parcels (p ∷ ps) = p.parcel ∷ parcels ps

parcels-append : (ps qs : List Pending) → parcels (ps ++ qs) ≡ parcels ps ++ parcels qs
parcels-append [] qs = refl
parcels-append (p ∷ ps) qs = ap (λ zs. p.parcel ∷ zs) (parcels-append ps qs)

-- A ring with other heads.
abbrev pub with_heads : Ring → ℕ → ℕ → Ring
with_heads r reserve head = record {
  control = record {
    head_reserve = reserve;
    head_publish = head;
    tail_reserve = r.tail_reserve;
    tail_publish = r.tail_publish;
    sequence = r.sequence;
  };
  bytes = r.bytes;
  capacity = r.capacity;
}

-- Of a run from a ring `r₀` that held `ms`.
pub record Inv (r₀ : Ring) (ms : List Message) (x : State) : Type 0 where
  pub spans : List Span
  pub positive : 0 < x.ring.capacity
  pub window : x.ring.tail_reserve ≤ x.ring.head_publish + x.ring.capacity
  pub word : x.ring.tail_reserve < u64
  pub number : x.ring.sequence < u64
  pub chain : Chain x.ring.bytes x.ring.capacity x.ring.head_publish spans x.ring.tail_publish
  pub tiles : Tiles x.ring.bytes x.ring.capacity x.ring.tail_publish x.pending x.ring.tail_reserve
  pub looks : (h : ℕ) → Among h x.looks → h ≤ x.ring.head_publish
  pub fifo : x.popped ++ messages spans ≡ ms ++ stamp r₀.sequence x.published
  pub count : x.ring.sequence ≡ r₀.sequence + length x.published
  pub order : x.published ++ parcels x.pending ≡ x.reserved

module _ {r₀ : Ring} {ms : List Message} (x : State) (v : Inv r₀ ms x) where
  pub head-le : x.ring.head_publish ≤ x.ring.tail_publish
  head-le =
      Chain-le x.ring.bytes x.ring.capacity x.ring.head_publish v.spans x.ring.tail_publish v.chain

  pub tail-le : x.ring.tail_publish ≤ x.ring.tail_reserve
  tail-le =
      Tiles-le x.ring.bytes x.ring.capacity x.ring.tail_publish x.pending x.ring.tail_reserve
        v.tiles

  pub Inv-ring : RingInv x.ring v.spans
  Inv-ring = record {
    positive = v.positive;
    window = omega (arith, tail-le, v.window);
    word = omega (arith, tail-le, v.word);
    number = v.number;
    chain = v.chain;
  }

  pub Inv-load_head : Inv r₀ ms (record x { looks = x.ring.head_publish ∷ x.looks })
  Inv-load_head = record {
    spans = v.spans;
    positive = v.positive;
    window = v.window;
    word = v.word;
    number = v.number;
    chain = v.chain;
    tiles = v.tiles;
    looks = λ h among. elim among [ inl e ↦ omega arith | inr old ↦ v.looks h old ];
    fifo = v.fifo;
    count = v.count;
    order = v.order;
  }

  -- What the exchange did, with a head that was loaded before.
  pub exchange_cases :
      (h : ℕ) (p : Parcel)
      → Roomy x
      → Among h x.looks
      → length p.1 < u32
      → needed_of p ≤ x.ring.capacity
      → (reserve h x.ring (needed_of p) ≡ none) ⊎ Taken h x.ring (needed_of p)
  exchange_cases h p room among hs small =
      reserve-cases h x.ring (needed_of p) v.positive
        (omega (arith, head-le, tail-le, v.looks h among)) room.0 small
        (omega (arith, record_size_lem (length p.1) hs))

  pub Inv-exchange :
      (h : ℕ) (p : Parcel)
      → Roomy x
      → Among h x.looks
      → length p.1 < u32
      → p.0 < u16
      → needed_of p ≤ x.ring.capacity
      → Inv r₀ ms (after_reserve x p (reserve h x.ring (needed_of p)))
  Inv-exchange h p room among hs ht small = elim (exchange_cases h p room among hs small) [
    | inl e ↦ subst (λ z. Inv r₀ ms (after_reserve x p z)) (sym e) v
    | inr t ↦
        subst (λ z. Inv r₀ ms (after_reserve x p z)) (sym t.result)
          (record {
            spans = v.spans;
            positive = v.positive;
            window = omega (arith, t.free, v.looks h among);
            word = omega (arith, room.0, t.shape.whole);
            number = v.number;
            chain = v.chain;
            tiles =
                Tiles-append x.ring.bytes x.ring.capacity x.ring.tail_publish x.pending
                  x.ring.tail_reserve _ _ v.tiles
                  (
                    record {
                      start_at = t.start_at;
                      small = hs;
                      typed = ht;
                      shape = t.shape;
                      written = λ e. absurd (false≢true e);
                    },
                    refl,
                  );
            looks = v.looks;
            fifo = v.fifo;
            count = v.count;
            order =
                ap (λ zs. x.published ++ zs) (parcels-append x.pending _)
                ∙ sym (append_assoc x.published (parcels x.pending) (p ∷ []))
                ∙ ap (λ zs. zs ++ p ∷ []) v.order;
          })
  ]

  pub Inv-fill :
      (before : List Pending) (p : Pending) (after : List Pending)
      → x.pending ≡ before ++ p ∷ after
      → Inv r₀ ms (after_fill x before p after)
  unfolding fill
  Inv-fill before p after e =
      let tiles =
        subst (λ ps. Tiles x.ring.bytes x.ring.capacity x.ring.tail_publish ps x.ring.tail_reserve)
          e v.tiles in
      let window : x.ring.tail_reserve ≤ x.ring.tail_publish + x.ring.capacity =
        omega (arith, head-le, v.window) in
      let w =
        fill-published x.ring v.positive x.ring.tail_publish before p after x.ring.tail_reserve
          window tiles in
      record {
        spans = v.spans;
        positive = v.positive;
        window = v.window;
        word = v.word;
        number = v.number;
        chain =
            Chain-Clear x.ring.capacity v.positive x.ring.bytes _ w.0 w.1 w.4 x.ring.head_publish
              v.spans x.ring.tail_publish
              (Clear-before x.ring.capacity x.ring.head_publish _ w.0 w.1 v.positive
                (omega (arith, w.2, head-le)) (omega (arith, w.3, v.window)))
              v.chain;
        tiles =
            Tiles-fill x.ring v.positive x.ring.tail_publish before p after x.ring.tail_reserve
              window tiles;
        looks = v.looks;
        fifo = v.fifo;
        count = v.count;
        order =
            ap (λ zs. x.published ++ zs)
              (parcels-append before _
                ∙ sym (parcels-append before (p ∷ after))
                ∙ ap parcels (sym e))
            ∙ v.order;
      }

  -- A consumer steps over the first span, and hands over its message, if it is one.
  pub Inv-stepped :
      (s : Span) (ss : List Span) (reserve : ℕ) (out : List Message)
      → v.spans ≡ s ∷ ss
      → out ++ messages ss ≡ x.popped ++ messages (s ∷ ss)
      → Inv r₀ ms (record x {
        ring =
            with_heads x.ring reserve
              (x.ring.head_publish +w span_size x.ring.capacity x.ring.head_publish s);
        popped = out;
      })
  unfolding set_head
  Inv-stepped s ss reserve out e same =
      let whole = subst (λ zs. RingInv x.ring zs) e Inv-ring in
      let w = set_head-Inv x.ring s ss whole in
      let grown : x.ring.head_publish
          ≤ x.ring.head_publish +w span_size x.ring.capacity x.ring.head_publish s =
        omega (
          arith,
          whole.word,
          Chain-le x.ring.bytes x.ring.capacity
              (x.ring.head_publish + span_size x.ring.capacity x.ring.head_publish s) ss
              x.ring.tail_publish whole.chain.1,
        ) in
      record {
        spans = ss;
        positive = v.positive;
        window = omega (arith, v.window, grown);
        word = v.word;
        number = v.number;
        chain = w.chain;
        tiles = v.tiles;
        looks = λ h among. omega (arith, v.looks h among, grown);
        fifo = same ∙ ap (λ zs. x.popped ++ messages zs) (sym e) ∙ v.fifo;
        count = v.count;
        order = v.order;
      }

  -- The reserved head is no concern of the producers.
  pub Inv-reserved :
      (reserve : ℕ) → Inv r₀ ms (record x { ring = with_heads x.ring reserve x.ring.head_publish })
  Inv-reserved reserve = record {
    spans = v.spans;
    positive = v.positive;
    window = v.window;
    word = v.word;
    number = v.number;
    chain = v.chain;
    tiles = v.tiles;
    looks = v.looks;
    fifo = v.fifo;
    count = v.count;
    order = v.order;
  }
