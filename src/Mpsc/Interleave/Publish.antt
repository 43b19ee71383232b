-- ===== src/Mpsc/Interleave/Publish.antt =====
-- The publication of `detail::try_push` (include/lf_ring/ring_writer.hpp): when it has its turn, and
-- what it leaves of the invariant.
use lock_free_ring_buffer.Prelude.{
  ℕ, ◌+◌, ◌≤◌, ◌<◌, ◌≡◌, refl, sym, ap, subst, ◌∙◌, inl, inr, List, [], ◌∷◌, ◌++◌, length,
  length-append, arith, true, append_assoc, none, some, eq→==, ltb, Bool-cases,
}
use lock_free_ring_buffer.Word.{u64, ◌+w◌}
use lock_free_ring_buffer.Memory.{store_int}
use lock_free_ring_buffer.Record.{Message}
use lock_free_ring_buffer.Ring.{Ring}
use lock_free_ring_buffer.Ring.Spans.{message, messages, messages-append, Chain}
use lock_free_ring_buffer.Ring.Regions.{Chain-Clear, Chain-append, Clear-before, Clear-after, Only}
use lock_free_ring_buffer.Spsc.History.{stamp}
use lock_free_ring_buffer.Mpsc.{Reservation, publish, position}
use lock_free_ring_buffer.Mpsc.Interleave.{
  PushStep, load_head, exchange, fills, publishes, Parcel, Pending, State, needed_of, after_publish,
  Roomy,
}
use lock_free_ring_buffer.Mpsc.Interleave.Places.{total}
use lock_free_ring_buffer.Mpsc.Interleave.Fills.{lead, numbered, number-Only}
use lock_free_ring_buffer.Mpsc.Interleave.Tiles.{
  Tiles, Tiles-le, Tiles-split, Tiles-Clear, bytes_of, wide,
}
use lock_free_ring_buffer.Mpsc.Interleave.Inv.{
  Inv-load_head, Inv-exchange, Inv-fill, Inv, head-le, parcels,
}

-- The ring after a publication that ends at `t`.
abbrev pub published_ring : Ring → Reservation → ℕ → Ring
published_ring r v t = record {
  control = record {
    head_reserve = r.head_reserve;
    head_publish = r.head_publish;
    tail_reserve = r.tail_reserve;
    tail_publish = t;
    sequence = r.sequence +w 1;
  };
  bytes = store_int 8 r.bytes (position r.capacity v + 8) (r.sequence +w 1);
  capacity = r.capacity;
}

publish_turn :
    (r : Ring) (v : Reservation) (needed : ℕ)
    → v.start ≡ r.tail_publish
    → r.tail_publish + total v needed < u64
    → publish r v needed ≡ some (published_ring r v (r.tail_publish + total v needed))
unfolding publish
publish_turn r v needed e small =
    rw (eq→== r.tail_publish v.start (sym e)) (ap (λ t. some (published_ring r v t)) (omega arith))

publish_wait :
    (r : Ring) (v : Reservation) (needed : ℕ) → r.tail_publish < v.start → publish r v needed ≡ none
unfolding publish
publish_wait r v needed later = ground arith

messages-lead : (v : Reservation) → messages (lead v) ≡ []
messages-lead v = elim (Bool-cases (ltb 0 v.padding)) [ inl e ↦ rw e refl | inr e ↦ rw e refl ]

stamp-snoc :
    (n : ℕ) (ps : List Parcel) (p : Parcel)
    → stamp n (ps ++ p ∷ [])
      ≡ stamp n ps ++ record { type = p.0; sequence = n + length ps + 1; payload = p.1 } ∷ []
stamp-snoc n [] p = ap (λ k. record { type = p.0; sequence = k; payload = p.1 } ∷ []) (omega arith)
stamp-snoc n (q ∷ ps) p =
    ap (λ zs. record { type = q.0; sequence = n + 1; payload = q.1 } ∷ zs)
      (stamp-snoc (n + 1) ps p
        ∙ ap (λ k. stamp (n + 1) ps ++ record { type = p.0; sequence = k; payload = p.1 } ∷ [])
            (omega arith))

module _ {r₀ : Ring} {ms : List Message} (x : State) (v : Inv r₀ ms x) (p : Pending)
    (after : List Pending) where
  -- The first in the order of the exchanges publishes.
  module _ (e : x.pending ≡ p ∷ after) where
    tiles : Tiles x.ring.bytes x.ring.capacity x.ring.tail_publish (p ∷ after) x.ring.tail_reserve
    tiles =
        subst (λ ps. Tiles x.ring.bytes x.ring.capacity x.ring.tail_publish ps x.ring.tail_reserve)
          e v.tiles

    abbrev end : ℕ
    end = x.ring.tail_publish + bytes_of p

    end-le : end ≤ x.ring.tail_reserve
    end-le = Tiles-le x.ring.bytes x.ring.capacity end after x.ring.tail_reserve tiles.1

    pub first_publishes :
        publish x.ring p.place (needed_of p.parcel) ≡ some (published_ring x.ring p.place end)
    first_publishes =
        publish_turn x.ring p.place (needed_of p.parcel) tiles.0.start_at
          (omega (arith, end-le, v.word))

    only :
        Only x.ring.capacity
          (x.ring.tail_publish + p.place.padding)
          (needed_of p.parcel)
          x.ring.bytes
          (published_ring x.ring p.place end).bytes
    only =
        subst
          (λ s.
            Only x.ring.capacity (s + p.place.padding) (needed_of p.parcel) x.ring.bytes
              (published_ring x.ring p.place end).bytes)
          tiles.0.start_at
          (number-Only x.ring.bytes x.ring.capacity p.place (needed_of p.parcel)
            (x.ring.sequence +w 1) v.positive
            (wide x.ring.bytes x.ring.capacity x.ring.tail_publish p tiles.0) tiles.0.shape)

    -- The publication writes in the first reservation only.
    pub publish_region :
        (x.ring.tail_publish ≤ end)
        × (x.ring.tail_publish + p.place.padding + needed_of p.parcel
            ≤ x.ring.head_publish + x.ring.capacity)
        × Only x.ring.capacity
            (x.ring.tail_publish + p.place.padding)
            (needed_of p.parcel)
            x.ring.bytes
            (published_ring x.ring p.place end).bytes
    publish_region = (omega arith, omega (arith, end-le, v.window), only)

    abbrev sent : Message
    sent = record { type = p.parcel.0; sequence = x.ring.sequence +w 1; payload = p.parcel.1 }

    pub Inv-published :
        p.filled ≡ true
        → Roomy x
        → Inv r₀ ms (after_publish x [] p after (some (published_ring x.ring p.place end)))
    Inv-published done room = record {
      spans = v.spans ++ (lead p.place ++ message sent ∷ []);
      positive = v.positive;
      window = v.window;
      word = v.word;
      number = omega arith;
      chain =
          Chain-append _ x.ring.capacity x.ring.head_publish v.spans x.ring.tail_publish
            (lead p.place ++ message sent ∷ []) end
            (Chain-Clear x.ring.capacity v.positive x.ring.bytes _ _ (needed_of p.parcel) only
              x.ring.head_publish v.spans x.ring.tail_publish
              (Clear-before x.ring.capacity x.ring.head_publish _ _ (needed_of p.parcel) v.positive
                (omega (arith, head-le x v)) (omega (arith, end-le, v.window)))
              v.chain)
            (subst
              (λ s.
                Chain (published_ring x.ring p.place end).bytes x.ring.capacity s
                  (lead p.place ++ message sent ∷ []) (s + bytes_of p))
              tiles.0.start_at
              (numbered x.ring.bytes x.ring.capacity p.place p.parcel.0 p.parcel.1
                (x.ring.sequence +w 1) v.positive tiles.0.shape (omega arith)
                (tiles.0.written done)));
      tiles =
          Tiles-Clear x.ring.capacity v.positive x.ring.bytes _ _ (needed_of p.parcel) only end
            after x.ring.tail_reserve
            (Clear-after x.ring.capacity end _ _ (needed_of p.parcel) v.positive (omega arith)
              (omega (arith, end-le, v.window, head-le x v)))
            tiles.1;
      looks = v.looks;
      fifo =
          ap (λ zs. x.popped ++ zs)
            (messages-append v.spans (lead p.place ++ message sent ∷ [])
              ∙ ap (λ zs. messages v.spans ++ zs)
                  (messages-append (lead p.place) (message sent ∷ [])
                    ∙ ap (λ zs. zs ++ sent ∷ []) (messages-lead p.place)))
          ∙ sym (append_assoc x.popped (messages v.spans) (sent ∷ []))
          ∙ ap (λ zs. zs ++ sent ∷ []) v.fifo
          ∙ append_assoc ms (stamp r₀.sequence x.published) (sent ∷ [])
          ∙ ap (λ zs. ms ++ zs)
              (ap
                  (λ n.
                    stamp r₀.sequence x.published
                    ++ record { type = p.parcel.0; sequence = n; payload = p.parcel.1 } ∷ [])
                  next
                ∙ sym (stamp-snoc r₀.sequence x.published p.parcel));
      count = omega (arith, next, length-append x.published (p.parcel ∷ []));
      order =
          append_assoc x.published (p.parcel ∷ []) (parcels after)
          ∙ ap (λ ps. x.published ++ parcels ps) (sym e)
          ∙ v.order;
    }
      where
        next : x.ring.sequence +w 1 ≡ r₀.sequence + length x.published + 1
        next = omega (arith, v.count)

-- A producer behind another one in the order of the exchanges does not publish.
pub later_waits :
    {r₀ : Ring} {ms : List Message} (x : State) (v : Inv r₀ ms x) (q : Pending)
    (before : List Pending) (p : Pending) (after : List Pending)
    → x.pending ≡ (q ∷ before) ++ p ∷ after
    → publish x.ring p.place (needed_of p.parcel) ≡ none
later_waits x v q before p after e =
    let tiles =
      subst (λ ps. Tiles x.ring.bytes x.ring.capacity x.ring.tail_publish ps x.ring.tail_reserve) e
        v.tiles in
    let t = x.ring.tail_publish + bytes_of q in
    let rest =
      Tiles-split x.ring.bytes x.ring.capacity t before (p ∷ after) x.ring.tail_reserve tiles.1 in
    publish_wait x.ring p.place (needed_of p.parcel) (
      omega (
        arith,
        rest.2.0.start_at,
        Tiles-le x.ring.bytes x.ring.capacity t before rest.0 rest.1,
        wide x.ring.bytes x.ring.capacity x.ring.tail_publish q tiles.0,
      ))

module _ {r₀ : Ring} {ms : List Message} (x : State) (v : Inv r₀ ms x) where
  Inv-publish :
      (before : List Pending) (p : Pending) (after : List Pending)
      → x.pending ≡ before ++ p ∷ after
      → p.filled ≡ true
      → Roomy x
      → Inv r₀ ms (after_publish x before p after (publish x.ring p.place (needed_of p.parcel)))
  Inv-publish [] p after e done room =
      subst (λ z. Inv r₀ ms (after_publish x [] p after z)) (sym (first_publishes x v p after e))
        (Inv-published x v p after e done room)
  Inv-publish (q ∷ before) p after e done room =
      subst (λ z. Inv r₀ ms (after_publish x (q ∷ before) p after z))
        (sym (later_waits x v q before p after e)) v

  -- A step of a producer keeps the invariant.
  pub Inv-PushStep : {y : State} → Roomy x → PushStep x y → Inv r₀ ms y
  Inv-PushStep room load_head = Inv-load_head x v
  Inv-PushStep room (exchange h p among hs ht small) = Inv-exchange x v h p room among hs ht small
  Inv-PushStep room (fills before p after e empty) = Inv-fill x v before p after e
  Inv-PushStep room (publishes before p after e done) = Inv-publish before p after e done room
