-- ===== src/SharedLatest/Seqlock/Recovery.antt =====
-- The interleaved write and read with `claim` of include/lf_ring/shared_latest.hpp, which takes a
-- slot over from a writer that died in its `memcpy`: it clears the ring and restarts the number.
use lock_free_ring_buffer.Prelude.{ℕ, ◌≡◌, ◌≢◌, refl, List, [], ◌∷◌, arith, inl, inr, replicate}
use lock_free_ring_buffer.Memory.{store_byte}
use lock_free_ring_buffer.SharedLatest.Seqlock.{
  idle, copying, returned, State, Step, begin_write, write_byte, commit, load_even, read_byte,
  unchanged, initial,
}
use lock_free_ring_buffer.SharedLatest.Seqlock.Inv.{Committed}

module _ (sizeof_t max_retries : ℕ) where
  -- The cleared ring counts as a value of the new writer.
  pub data LifeStep (x : State) : State → Type 0 where
    goes_on : {y : State} → Step sizeof_t max_retries x y → LifeStep x y
    recover :
        {s : ℕ} {v : List ℕ} {k : ℕ}
        → x.writer ≡ copying s v k
        → LifeStep x (record x {
          sequence = 0;
          bytes = λ i. 0;
          writer = idle;
          history = replicate sizeof_t 0 ∷ x.history;
        })

  pub data Lives (x : State) : State → Type 0 where
    here : Lives x x
    later : {y z : State} → Lives x y → LifeStep y z → Lives x z

abbrev two : ℕ → ℕ → List ℕ
two a b = a ∷ b ∷ []

-- After the first write, of the bytes a₁ and a₂.
abbrev pub written : ℕ → ℕ → State
written a₁ a₂ =
    initial 2 1 2 (store_byte (store_byte (λ i. 0) 0 a₁) 1 a₂) (two a₁ a₂ ∷ two 0 0 ∷ [])

abbrev pub torn : ℕ → ℕ → ℕ → ℕ → List ℕ → State
torn a₁ a₂ b₁ b₂ v = record {
  sequence = 2;
  bytes = store_byte (store_byte (λ i. 0) 0 b₁) 1 b₂;
  writer = idle;
  reader = returned v;
  history = two b₁ b₂ ∷ two 0 0 ∷ two a₁ a₂ ∷ two 0 0 ∷ [];
}

torn_run : (a₁ a₂ b₁ b₂ : ℕ) → Lives 2 1 (written a₁ a₂) (torn a₁ a₂ b₁ b₂ (two a₁ b₂))
torn_run a₁ a₂ b₁ b₂ =
    later
      (later
        (later
          (later
            (later
              (later
                (later
                  (later
                    (later (later here (goes_on (load_even refl (omega arith) refl)))
                      (goes_on (read_byte refl (omega arith))))
                    (goes_on (begin_write {v = two b₁ b₂} refl refl)))
                  (recover refl))
                (goes_on (begin_write {v = two b₁ b₂} refl refl)))
              (goes_on (write_byte refl (omega arith))))
            (goes_on (write_byte refl (omega arith))))
          (goes_on (commit refl)))
        (goes_on (read_byte refl (omega arith))))
      (goes_on (unchanged refl refl refl))

-- A reader that has copied a byte of a first value a₁ a₂ when the writer dies in its second write
-- returns the torn value a₁ b₂, if the slot is claimed and the new writer's first write, of b₁ b₂,
-- is committed before the reader goes on: the number is 2 again. Nobody wrote that value, where
-- a₁ and b₁ differ, a₂ and b₂ differ, and a₁ is not 0.
pub recovery_tears :
    (a₁ a₂ b₁ b₂ : ℕ)
    → a₁ ≢ b₁
    → a₂ ≢ b₂
    → a₁ ≢ 0
    → (y : State) × Lives 2 1 (written a₁ a₂) y
      × (y.reader ≡ returned (two a₁ b₂))
      × (¬ Committed (two a₁ b₂) y.history)
recovery_tears a₁ a₂ b₁ b₂ p q z = (torn a₁ a₂ b₁ b₂ (two a₁ b₂), torn_run a₁ a₂ b₁ b₂, refl, never)
  where
    never : ¬ Committed (two a₁ b₂) (torn a₁ a₂ b₁ b₂ (two a₁ b₂)).history
    never (inl e) = p cc
    never (inr (inl e)) = z cc
    never (inr (inr (inl e))) = q cc
    never (inr (inr (inr (inl e)))) = z cc
    never (inr (inr (inr (inr e)))) = e
