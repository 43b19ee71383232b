-- ===== src/Ring/Position.antt =====
-- Where a counter that only grows stands in a ring: `counter % capacity`.
use native.Mathlib.Nat.{mod-add-mod, mod-eq_of_lt, mod-eq-sub-mod, mod-lt}
use native.Mathlib.Decide.{dec_lt}
use lock_free_ring_buffer.Prelude.{
  ℕ, ◌+◌, ◌-◌, ◌%◌, ◌≤◌, ◌<◌, ◌≡◌, sym, ap, ◌∙◌, ◌⊎◌, inl, inr, arith,
}
use lock_free_ring_buffer.Memory.{Apart}

-- A step of at most `cap` either stays in this round or goes once past the end.
pub add-mod-cases :
    (cap x d : ℕ)
    → 0 < cap
    → d ≤ cap
    → ((x % cap + d < cap) × ((x + d) % cap ≡ x % cap + d))
      ⊎ ((cap ≤ x % cap + d) × ((x + d) % cap + cap ≡ x % cap + d))
add-mod-cases cap x d hc hd = elim (dec_lt (x % cap + d) cap) [
  | yes p ↦ inl (p, sym (mod-add-mod x cap d) ∙ mod-eq_of_lt p)
  | no p ↦ inr (omega arith, omega (arith, around (omega arith), mod-lt x hc))
]
  where
    around : cap ≤ x % cap + d → (x + d) % cap ≡ x % cap + d - cap
    around q =
        sym (mod-add-mod x cap d) ∙ mod-eq-sub-mod q ∙ mod-eq_of_lt (omega (arith, mod-lt x hc))

-- The step that fills a round ends at the start of the next.
pub add-rest-mod : (cap x : ℕ) → 0 < cap → (x + (cap - x % cap)) % cap ≡ 0
add-rest-mod cap x hc =
    omega (arith, add-mod-cases cap x (cap - x % cap) hc (omega arith), mod-lt x hc)

-- Two ranges that a window of one round keeps apart are apart in the ring.
pub mod-Apart :
    (cap x a t n : ℕ)
    → 0 < cap
    → x + a ≤ t
    → t + n ≤ x + cap
    → x % cap + a ≤ cap
    → t % cap + n ≤ cap
    → Apart (x % cap) a (t % cap) n
mod-Apart cap x a t n hc h₁ h₂ h₃ h₄ = omega (
  arith,
  add-mod-cases cap x (t - x) hc (omega arith),
  ap (λ k. k % cap) (let split : x + (t - x) ≡ t = omega arith in split),
)
