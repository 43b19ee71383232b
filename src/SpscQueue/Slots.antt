-- ===== src/SpscQueue/Slots.antt =====
-- The values in the slots between the two counters.
use native.Mathlib.Nat.{mod-lt, mod-add-mod}
use lock_free_ring_buffer.Prelude.{
  ℕ, zero, suc, ◌+◌, ◌*◌, ◌%◌, ◌<◌, ◌≡◌, refl, sym, ap, ap₂, ◌∙◌, inl, inr, List, [], ◌∷◌, ◌++◌,
  length, arith,
}
use lock_free_ring_buffer.Memory.{
  Memory, Apart, store_bytes, load_bytes, load-store_self, load-store_elsewhere,
}
use lock_free_ring_buffer.Ring.Position.{mod-Apart}

module _ (capacity sizeof_t : ℕ) where
  -- The values of `n` slots from the counter `i` on.
  abbrev pub slots : Memory → ℕ → ℕ → List (List ℕ)
  slots m i zero = []
  slots m i (suc n) = load_bytes m (i % capacity * sizeof_t) sizeof_t ∷ slots m (suc i) n

  pub length-slots : (m : Memory) (i n : ℕ) → length (slots m i n) ≡ n
  length-slots m i zero = refl
  length-slots m i (suc n) = ap suc (length-slots m (suc i) n)

  -- Slots of two places in the ring share no byte.
  pub slot-Apart : (a b : ℕ) → Apart a 1 b 1 → Apart (a * sizeof_t) sizeof_t (b * sizeof_t) sizeof_t
  slot-Apart a b (inl h) = inl (grind arith)
  slot-Apart a b (inr h) = inr (grind arith)

  -- A value put into the slot behind the last one.
  pub slots-store :
      (m : Memory) (i n t : ℕ) (value : List ℕ)
      → 0 < capacity
      → n < capacity
      → t % capacity ≡ (i + n) % capacity
      → length value ≡ sizeof_t
      → slots (store_bytes m (t % capacity * sizeof_t) value) i (suc n) ≡ slots m i n ++ value ∷ []
  slots-store m i zero t value pos h e size =
      ap (λ v. v ∷ [])
        (ap₂ (λ p n. load_bytes (store_bytes m (t % capacity * sizeof_t) value) (p * sizeof_t) n)
            (ap (λ k. k % capacity) (let whole : i ≡ i + 0 = omega arith in whole) ∙ sym e)
            (sym size)
          ∙ load-store_self m (t % capacity * sizeof_t) value)
  slots-store m i (suc n) t value pos h e size =
      ap₂ ◌∷◌
        (load-store_elsewhere m (t % capacity * sizeof_t) value (i % capacity * sizeof_t) sizeof_t
          (omega (arith, slot-Apart (t % capacity) (i % capacity) other, size)))
        (slots-store m (suc i) n t value pos (omega arith)
          (e ∙ ap (λ k. k % capacity) (let next : i + suc n ≡ suc i + n = omega arith in next))
          size)
    where
      other : Apart (t % capacity) 1 (i % capacity) 1
      other = omega (
        arith,
        e,
        mod-Apart capacity i 1 (i + suc n) 1 pos (omega arith) (omega arith)
            (omega (arith, mod-lt i pos)) (omega (arith, mod-lt (i + suc n) pos)),
      )

  -- A counter names a slot by its remainder only.
  pub slots_of_eq :
      (m : Memory) (i j n : ℕ) → i % capacity ≡ j % capacity → slots m i n ≡ slots m j n
  slots_of_eq m i j zero e = refl
  slots_of_eq m i j (suc n) e =
      ap₂ ◌∷◌ (ap (λ p. load_bytes m (p * sizeof_t) sizeof_t) e)
        (slots_of_eq m (suc i) (suc j) n (later i ∙ ap (λ p. (p + 1) % capacity) e ∙ sym (later j)))
    where
      later : (a : ℕ) → suc a % capacity ≡ (a % capacity + 1) % capacity
      later a =
          ap (λ b. b % capacity) (let next : suc a ≡ a + 1 = omega arith in next)
          ∙ sym (mod-add-mod a capacity 1)
