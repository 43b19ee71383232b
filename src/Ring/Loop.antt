-- ===== src/Ring/Loop.antt =====
-- The `for (;;)` loops of `try_push` and `try_pop`, a round at a time, and the vector that a pop
-- fills.
use lock_free_ring_buffer.Prelude.{
  ℕ, zero, suc, ◌-◌, ◌≡◌, List, ◌++◌, length, drop, replicate, Option, none, some, ltb,
  if◌then◌else◌,
}
use lock_free_ring_buffer.Ring.{Ring}

-- A round ends by `continue`, or by `return`.
pub data Round (A : Type 0) : Type 0 where
  retry : Ring → Round A
  finish : Ring → A → Round A

-- `none` says that the rounds allowed did not suffice.
unfoldable pub run_rounds : {A : Type 0} → (Ring → Round A) → ℕ → Ring → Option (Ring × A)
run_rounds round zero r = none
run_rounds round (suc fuel) r = elim (round r) [
  | retry r' ↦ run_rounds round fuel r'
  | finish r' a ↦ some (r', a)
]

-- What `try_pop` hands over on success.
pub record Popped : Type 0 where
  pub out : List ℕ
  pub type : ℕ
  pub sequence : ℕ

-- `if (out.size() < n) out.resize(n)`, then `memcpy` of `n` bytes to its front.
unfoldable pub fill_out : List ℕ → List ℕ → List ℕ
fill_out out payload =
    let n = length payload in
    let grown = if ltb (length out) n then out ++ replicate (n - length out) 0 else out in
    payload ++ drop n grown

module _ {A : Type 0} (round : Ring → Round A) where
  pub run_rounds-finish :
      (fuel : ℕ) (r r' : Ring) (a : A)
      → round r ≡ finish r' a
      → run_rounds round (suc fuel) r ≡ some (r', a)
  unfolding run_rounds
  run_rounds-finish fuel r r' a e = rw (e, run_rounds)

  pub run_rounds-retry :
      (fuel : ℕ) (r r' : Ring)
      → round r ≡ retry r'
      → run_rounds round (suc fuel) r ≡ run_rounds round fuel r'
  unfolding run_rounds
  run_rounds-retry fuel r r' e = rw (e, run_rounds)
