-- ===== src/SpscQueue/Interleave/Keep.antt =====
-- What lies in the slots while a value is written behind them, and when it is published.
use native.Mathlib.Nat.{mod-lt}
use lock_free_ring_buffer.Prelude.{
  ℕ, zero, suc, ◌+◌, ◌*◌, ◌%◌, ◌<◌, ◌≡◌, refl, sym, ap, ap₂, ◌∙◌, List, [], ◌∷◌, ◌++◌, arith,
}
use lock_free_ring_buffer.Memory.{Memory, Apart, load_bytes, load_bytes-agree}
use lock_free_ring_buffer.Ring.Position.{mod-Apart}
use lock_free_ring_buffer.SpscQueue.Slots.{slots, slot-Apart}

module _ (capacity sizeof_t : ℕ) where
  -- A change in the slot behind the last one.
  pub slots-keep :
      (m m' : Memory) (i n t : ℕ)
      → 0 < capacity
      → n < capacity
      → t % capacity ≡ (i + n) % capacity
      → ((j : ℕ) → Apart (t % capacity * sizeof_t) sizeof_t j 1 → m j ≡ m' j)
      → slots capacity sizeof_t m i n ≡ slots capacity sizeof_t m' i n
  slots-keep m m' i zero t pos h e same = refl
  slots-keep m m' i (suc n) t pos h e same =
      ap₂ ◌∷◌
        (load_bytes-agree m m' (i % capacity * sizeof_t) sizeof_t (λ j p q.
          same j (omega (arith, slot-Apart capacity sizeof_t (t % capacity) (i % capacity) other))))
        (slots-keep m m' (suc i) n t pos (omega arith)
          (e ∙ ap (λ k. k % capacity) (let next : i + suc n ≡ suc i + n = omega arith in next))
          same)
    where
      other : Apart (t % capacity) 1 (i % capacity) 1
      other = omega (
        arith,
        e,
        mod-Apart capacity i 1 (i + suc n) 1 pos (omega arith) (omega arith)
            (omega (arith, mod-lt i pos)) (omega (arith, mod-lt (i + suc n) pos)),
      )

  -- The value in the slot behind the last one joins them.
  pub slots-snoc :
      (m : Memory) (i n t : ℕ) (value : List ℕ)
      → t % capacity ≡ (i + n) % capacity
      → load_bytes m (t % capacity * sizeof_t) sizeof_t ≡ value
      → slots capacity sizeof_t m i (suc n) ≡ slots capacity sizeof_t m i n ++ value ∷ []
  slots-snoc m i zero t value e at =
      ap (λ v. v ∷ [])
        (ap (λ p. load_bytes m (p * sizeof_t) sizeof_t)
            (ap (λ k. k % capacity) (let whole : i ≡ i + 0 = omega arith in whole) ∙ sym e)
          ∙ at)
  slots-snoc m i (suc n) t value e at =
      ap (λ vs. load_bytes m (i % capacity * sizeof_t) sizeof_t ∷ vs)
        (slots-snoc m (suc i) n t value
          (e ∙ ap (λ k. k % capacity) (let next : i + suc n ≡ suc i + n = omega arith in next)) at)
