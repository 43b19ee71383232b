-- ===== src/Mpsc/Interleave/Kept.antt =====
-- What a step of a producer leaves as it is: the heads, the capacity, and the bytes of what is published
-- and not given back.
use lock_free_ring_buffer.Prelude.{
  ℕ, ◌+◌, ◌≤◌, ◌≡◌, refl, sym, ap, subst, inl, inr, List, [], ◌∷◌, ◌++◌, arith,
}
use lock_free_ring_buffer.Record.{Message}
use lock_free_ring_buffer.Ring.{Ring}
use lock_free_ring_buffer.Ring.Regions.{Only}
use lock_free_ring_buffer.Mpsc.{fill, publish}
use lock_free_ring_buffer.Mpsc.Interleave.{
  Pending, State, PushStep, load_head, exchange, fills, publishes, Roomy, after_reserve, after_fill,
  after_publish, needed_of,
}
use lock_free_ring_buffer.Mpsc.Interleave.Inv.{Inv, head-le, tail-le, exchange_cases}
use lock_free_ring_buffer.Mpsc.Interleave.Tiles.{Tiles, fill-published}
use lock_free_ring_buffer.Mpsc.Interleave.Publish.{first_publishes, later_waits, publish_region}

pub record Kept (r s : Ring) : Type 0 where
  pub capacity_same : s.capacity ≡ r.capacity
  pub head_same : s.head_publish ≡ r.head_publish
  pub taken_same : s.head_reserve ≡ r.head_reserve
  pub tail_grows : r.tail_publish ≤ s.tail_publish
  pub at : ℕ
  pub size : ℕ
  pub after_tail : r.tail_publish ≤ at
  pub within : at + size ≤ r.head_publish + r.capacity
  pub only : Only r.capacity at size r.bytes s.bytes

-- Nothing is written.
unwritten :
    (r s : Ring)
    → s.capacity ≡ r.capacity
    → s.head_publish ≡ r.head_publish
    → s.head_reserve ≡ r.head_reserve
    → s.tail_publish ≡ r.tail_publish
    → s.bytes ≡ r.bytes
    → r.tail_publish ≤ r.head_publish + r.capacity
    → Kept r s
unwritten r s c h t e b w = record {
  capacity_same = c;
  head_same = h;
  taken_same = t;
  tail_grows = omega arith;
  at = r.tail_publish;
  size = 0;
  after_tail = omega arith;
  within = omega arith;
  only = λ i none_hit. ap (λ m. m i) (sym b);
}

module _ {r₀ : Ring} {ms : List Message} (x : State) (v : Inv r₀ ms x) where
  narrow : x.ring.tail_publish ≤ x.ring.head_publish + x.ring.capacity
  narrow = omega (arith, tail-le x v, v.window)

  same : Kept x.ring x.ring
  same = unwritten x.ring x.ring refl refl refl refl refl narrow

  fill-Kept :
      (before : List Pending) (p : Pending) (after : List Pending)
      → x.pending ≡ before ++ p ∷ after
      → Kept x.ring (after_fill x before p after).ring
  unfolding fill
  fill-Kept before p after e =
      let w =
        fill-published x.ring v.positive x.ring.tail_publish before p after x.ring.tail_reserve
          (omega (arith, head-le x v, v.window))
          (subst
            (λ ps. Tiles x.ring.bytes x.ring.capacity x.ring.tail_publish ps x.ring.tail_reserve) e
            v.tiles) in
      record {
        capacity_same = refl;
        head_same = refl;
        taken_same = refl;
        tail_grows = omega arith;
        at = w.0;
        size = w.1;
        after_tail = w.2;
        within = omega (arith, w.3, v.window);
        only = w.4;
      }

  publish-Kept :
      (before : List Pending) (p : Pending) (after : List Pending)
      → x.pending ≡ before ++ p ∷ after
      → Kept x.ring
          (after_publish x before p after (publish x.ring p.place (needed_of p.parcel))).ring
  publish-Kept [] p after e =
      subst (λ z. Kept x.ring (after_publish x [] p after z).ring)
        (sym (first_publishes x v p after e))
        (record {
          capacity_same = refl;
          head_same = refl;
          taken_same = refl;
          tail_grows = (publish_region x v p after e).0;
          at = x.ring.tail_publish + p.place.padding;
          size = needed_of p.parcel;
          after_tail = omega arith;
          within = (publish_region x v p after e).1;
          only = (publish_region x v p after e).2;
        })
  publish-Kept (q ∷ before) p after e =
      subst (λ z. Kept x.ring (after_publish x (q ∷ before) p after z).ring)
        (sym (later_waits x v q before p after e)) same

  pub PushStep-Kept : {y : State} → Roomy x → PushStep x y → Kept x.ring y.ring
  PushStep-Kept room load_head = same
  PushStep-Kept room (exchange h p among hs ht small) =
      elim (exchange_cases x v h p room among hs small) [
        | inl e ↦ subst (λ z. Kept x.ring (after_reserve x p z).ring) (sym e) same
        | inr t ↦
            subst (λ z. Kept x.ring (after_reserve x p z).ring) (sym t.result)
              (unwritten x.ring _ refl refl refl refl refl narrow)
      ]
  PushStep-Kept room (fills before p after e empty) = fill-Kept before p after e
  PushStep-Kept room (publishes before p after e done) = publish-Kept before p after e
