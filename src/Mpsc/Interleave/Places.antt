-- ===== src/Mpsc/Interleave/Places.antt =====
-- Where a reservation of `detail::try_push` (include/lf_ring/ring_writer.hpp) puts a record, and what
-- the fill of one reservation leaves of the others.
use native.Mathlib.Nat.{mod-lt}
use native.Mathlib.Decide.{dec_lt}
use lock_free_ring_buffer.Prelude.{
  ℕ, ◌+◌, ◌-◌, ◌*◌, ◌%◌, ◌≤◌, ◌<◌, ◌≡◌, refl, sym, ap, ◌∙◌, ◌⊎◌, inl, inr, arith, true, false, none,
  some, ltb, leb, lt→ltb, le→ltb, lt→leb, le→leb, if◌then◌else◌,
}
use lock_free_ring_buffer.Word.{u64, ◌+w◌, ◌-w◌}
use lock_free_ring_buffer.Ring.{Ring}
use lock_free_ring_buffer.Ring.Position.{add-rest-mod}
use lock_free_ring_buffer.Mpsc.{Reservation, reserve, position}

-- The bytes that a reservation takes.
abbrev pub total : Reservation → ℕ → ℕ
total v needed = v.padding + needed

pub record Shape (cap : ℕ) (v : Reservation) (needed : ℕ) : Type 0 where
  pub at : (v.start + v.padding) % cap ≡ position cap v
  pub fits : position cap v + needed ≤ cap
  pub whole : total v needed ≤ cap
  pub pads :
      (v.padding ≡ 0)
      ⊎ ((0 < v.padding)
          × (v.padding ≡ cap - v.start % cap)
          × (v.needs_wrap_record ≡ leb 16 v.padding))

abbrev pub with_reserve : Ring → ℕ → Ring
with_reserve r t = record {
  control = record {
    head_reserve = r.head_reserve;
    head_publish = r.head_publish;
    tail_reserve = t;
    tail_publish = r.tail_publish;
    sequence = r.sequence;
  };
  bytes = r.bytes;
  capacity = r.capacity;
}

-- What the exchange took.
pub record Taken (head : ℕ) (r : Ring) (needed : ℕ) : Type 0 where
  pub place : Reservation
  pub start_at : place.start ≡ r.tail_reserve
  pub shape : Shape r.capacity place needed
  pub free : r.tail_reserve + total place needed ≤ head + r.capacity
  pub result :
      reserve head r needed ≡ some (with_reserve r (r.tail_reserve + total place needed), place)

module _ (head : ℕ) (r : Ring) (needed : ℕ) (pos : 0 < r.capacity) (below : head ≤ r.tail_reserve)
    (room : r.tail_reserve + 3 * r.capacity < u64) (small : needed ≤ r.capacity)
    (wide : 16 ≤ needed) where
  abbrev remaining : ℕ
  remaining = r.capacity - r.tail_reserve % r.capacity

  -- The tests for room.
  tested :
      (v : Reservation)
      → v.start ≡ r.tail_reserve
      → v.padding ≤ r.capacity
      → (r.tail_reserve + total v needed ≤ head + r.capacity → Shape r.capacity v needed)
      → reserve head r needed ≡ (
          if ltb r.capacity (r.tail_reserve -w head)
          then none
          else if ltb r.capacity ((r.tail_reserve -w head) +w (v.padding +w needed))
          then none
          else some (with_reserve r (r.tail_reserve +w (v.padding +w needed)), v))
      → (reserve head r needed ≡ none) ⊎ Taken head r needed
  tested v start_at narrow shape e =
      elim (dec_lt (head + r.capacity) (r.tail_reserve + total v needed)) [
        | yes full ↦ inl (e ∙ ground arith)
        | no free ↦ inr (record {
          place = v;
          start_at = start_at;
          shape = shape (omega arith);
          free = omega arith;
          result =
              e
              ∙ rw
                  (
                    le→ltb r.capacity (r.tail_reserve -w head) (omega arith),
                    le→ltb r.capacity ((r.tail_reserve -w head) +w (v.padding +w needed))
                        (omega arith),
                  )
                  (ap (λ t. some (with_reserve r t, v)) (omega arith));
        })
      ]

  -- A round of the loop returns false, or takes the bytes after those that are reserved.
  pub reserve-cases : (reserve head r needed ≡ none) ⊎ Taken head r needed
  unfolding reserve position
  reserve-cases = elim (dec_lt remaining 16) [
    | yes short ↦
        tested (record { start = r.tail_reserve; padding = remaining; needs_wrap_record = false })
          refl (omega arith)
          (λ free. record {
            at =
                rw (lt→ltb 0 remaining (omega (arith, mod-lt r.tail_reserve pos)))
                  (add-rest-mod r.capacity r.tail_reserve pos);
            fits = rw (lt→ltb 0 remaining (omega (arith, mod-lt r.tail_reserve pos))) (omega arith);
            whole = omega arith;
            pads =
                inr
                  (omega (arith, mod-lt r.tail_reserve pos), refl, sym (lt→leb 16 remaining short));
          })
          (rw (lt→ltb remaining 16 short) refl)
    | no header ↦ elim (dec_lt remaining needed) [
      | yes long ↦
          tested (record { start = r.tail_reserve; padding = remaining; needs_wrap_record = true })
            refl (omega arith)
            (λ free. record {
              at =
                  rw (lt→ltb 0 remaining (omega (arith, mod-lt r.tail_reserve pos)))
                    (add-rest-mod r.capacity r.tail_reserve pos);
              fits =
                  rw (lt→ltb 0 remaining (omega (arith, mod-lt r.tail_reserve pos))) (omega arith);
              whole = omega arith;
              pads = inr (
                omega (arith, mod-lt r.tail_reserve pos),
                refl,
                sym (le→leb 16 remaining (omega arith)),
              );
            })
            (rw (le→ltb remaining 16 (omega arith), lt→ltb remaining needed long) refl)
      | no fits ↦
          tested (record { start = r.tail_reserve; padding = 0; needs_wrap_record = false }) refl
            (omega arith)
            (λ free. record {
              at = ap (λ t. t % r.capacity) (omega arith);
              fits = omega (arith, mod-lt r.tail_reserve pos);
              whole = omega arith;
              pads = inl refl;
            })
            (rw (le→ltb remaining 16 (omega arith), le→ltb remaining needed (omega arith)) refl)
    ]
  ]
