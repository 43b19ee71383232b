-- ===== src/Word.antt =====
-- Unsigned 64-bit words (std::uint64_t and std::size_t of include/lf_ring) as natural numbers with
-- their wrap-around written out, and the bit masks that the code takes of them.
use Prim.Native.Nat.{bit_and, digits, bit_and-bitwise}
use mathlib.Core.Path.{◌≡⟨◌⟩◌, ◌∎}
use native.Mathlib.Nat.{
  mod-eq_of_lt, mod-lt, mul-add-mod_self_left, div-add-mod, mul_assoc, mod-mod_of_dvd,
  dvd-mul_right, le_trans, le_of_eq,
}
use lock_free_ring_buffer.Prelude.{
  ℕ, zero, suc, ◌+◌, ◌-◌, ◌*◌, ◌/◌, ◌%◌, ◌^◌, ◌≤◌, ◌<◌, min, ◌≡◌, refl, sym, ap, ap₂, ◌∙◌, arith,
}

abbrev pub u64 : ℕ
u64 = 2 ^ 64

abbrev pub u32 : ℕ
u32 = 2 ^ 32

abbrev pub u16 : ℕ
u16 = 2 ^ 16

infixl 65 ◌+w◌ ◌-w◌
-- `a + b` and `a - b` of two uint64_t.
abbrev pub ◌+w◌ : ℕ → ℕ → ℕ
a +w b = (a + b) % u64

abbrev pub ◌-w◌ : ℕ → ℕ → ℕ
a -w b = (a + u64 - b) % u64

-- The powers of two, by doubling.
unfoldable pub pow2 : ℕ → ℕ
pow2 zero = 1
pow2 (suc k) = 2 * pow2 k

pub pow2_pos : (k : ℕ) → 0 < pow2 k
unfolding pow2
pow2_pos zero = omega arith
pow2_pos (suc k) = omega (arith, pow2_pos k)

-- Halving a number halves its remainder by the double of a number.
half-mod : (a p : ℕ) → 0 < p → a / 2 % p * 2 + a % 2 ≡ a % (2 * p)
half-mod a p h =
    a / 2 % p * 2 + a % 2
    ≡⟨ sym
        (mod-eq_of_lt {n = a / 2 % p * 2 + a % 2} {m = 2 * p} (omega (arith, mod-lt (a / 2) h))) ⟩
      (a / 2 % p * 2 + a % 2) % (2 * p)
    ≡⟨ sym (mul-add-mod_self_left (2 * p) (a / 2 / p) (a / 2 % p * 2 + a % 2)) ⟩
      (2 * p * (a / 2 / p) + (a / 2 % p * 2 + a % 2)) % (2 * p)
    ≡⟨ ap (λ n. n % (2 * p)) (omega (arith, div-add-mod (a / 2) p)) ⟩ a % (2 * p) ∎

-- The native operation goes through the binary digits of its arguments, `n` of them at most.
abbrev anded : ℕ → ℕ → ℕ → ℕ
anded n mask word = digits (λ y. zero) min n word mask

anded-nothing : (n mask : ℕ) → anded n mask 0 ≡ 0
anded-nothing zero mask = refl
anded-nothing (suc n) mask = refl

mask_odd : (p : ℕ) → 0 < p → ((2 * p - 1) / 2 ≡ p - 1) × ((2 * p - 1) % 2 ≡ 1)
mask_odd p h = (omega arith, omega arith)

anded-mask : (n k a : ℕ) → a ≤ n → anded n (pow2 k - 1) a ≡ a % pow2 k
unfolding pow2
anded-mask n k zero h =
    anded-nothing n (pow2 k - 1) ∙ sym (mod-eq_of_lt {n = 0} {m = pow2 k} (pow2_pos k))
anded-mask zero k (suc a) h = absurd (omega arith)
anded-mask (suc n) zero (suc a) h = omega (arith, anded-mask n zero (suc a / 2) (omega arith))
anded-mask (suc n) (suc k) (suc a) h =
    let (half, odd) = mask_odd (pow2 k) (pow2_pos k) in
    ap₂ (λ m d. anded n m (suc a / 2) * 2 + min (suc a % 2) d) half odd
    ∙ ap₂ (λ q d. q * 2 + d) (anded-mask n k (suc a / 2) (omega arith)) (omega arith)
    ∙ half-mod (suc a) (pow2 k) (pow2_pos k)

-- What a mask does to words is what its double does to their halves.
anded-double :
    (mask : ℕ) (f : ℕ → ℕ)
    → ((n a : ℕ) → a ≤ n → anded n mask a ≡ f a)
    → (n a : ℕ) → a ≤ n
    → anded n (2 * mask) a ≡ f (a / 2) * 2
anded-double mask f h n zero p =
    anded-nothing n (2 * mask) ∙ omega (arith, h 0 0 (omega arith), anded-nothing 0 mask)
anded-double mask f h zero (suc a) p = absurd (omega arith)
anded-double mask f h (suc n) (suc a) p =
    ap₂ (λ m d. anded n m (suc a / 2) * 2 + min (suc a % 2) d)
      (let halved : 2 * mask / 2 ≡ mask = omega arith in halved)
      (let even : 2 * mask % 2 ≡ 0 = omega arith in even)
    ∙ omega (arith, h n (suc a / 2) (omega arith))

-- A mask of k ones is a remainder.
pub bit_and-mask : (k a : ℕ) → bit_and a (pow2 k - 1) ≡ a % pow2 k
bit_and-mask k a = bit_and-bitwise a (pow2 k - 1) ∙ anded-mask a k a (omega arith)

pub bit_and-one : (a : ℕ) → bit_and a 1 ≡ a % 2
unfolding pow2
bit_and-one a = bit_and-mask 1 a

-- The complement of 7 in 64 bits clears the low three bits of a word.
pub bit_and_clear_seven : (a : ℕ) → a < u64 → bit_and a (u64 - 8) ≡ a / 8 * 8
unfolding pow2
bit_and_clear_seven a h =
    bit_and-bitwise a (u64 - 8)
    ∙ anded-double (2 ^ 63 - 4) (λ x. x / 2 / 2 % 2 ^ 61 * 2 * 2)
        (anded-double (2 ^ 62 - 2) (λ x. x / 2 % 2 ^ 61 * 2)
          (anded-double (2 ^ 61 - 1) (λ x. x % 2 ^ 61) (λ n x p. anded-mask n 61 x p)))
        a a (omega arith)
    ∙ omega arith

pow2-add : (a b : ℕ) → pow2 (a + b) ≡ pow2 a * pow2 b
unfolding pow2
pow2-add zero b = ap pow2 (let same : 0 + b ≡ b = omega arith in same) ∙ omega arith
pow2-add (suc a) b =
    ap pow2 (let next : suc a + b ≡ suc (a + b) = omega arith in next)
    ∙ ap (λ n. 2 * n) (pow2-add a b)
    ∙ sym (mul_assoc 2 (pow2 a) (pow2 b))

-- A word's wrap-around does not change its remainder by a power of two.
pub wrap-mod-pow2 : (k a : ℕ) → k ≤ 64 → a % u64 % pow2 k ≡ a % pow2 k
unfolding pow2
wrap-mod-pow2 k a h =
    ap (λ n. a % n % pow2 k) (sym whole)
    ∙ mod-mod_of_dvd (pow2 k) a (dvd-mul_right (pow2 k) (pow2 (64 - k)))
  where
    whole : pow2 k * pow2 (64 - k) ≡ u64
    whole = sym (pow2-add k (64 - k)) ∙ ap pow2 (let sum : k + (64 - k) ≡ 64 = omega arith in sum)

pub pow2_double_le : (k : ℕ) → k < 64 → 2 * pow2 k ≤ u64
unfolding pow2
pow2_double_le k h = le_trans (whole (pow2 (63 - k)) (pow2_pos (63 - k))) (le_of_eq product)
  where
    whole : (n : ℕ) → 0 < n → 2 * pow2 k ≤ 2 * pow2 k * n
    whole n p = grind arith

    product : 2 * pow2 k * pow2 (63 - k) ≡ u64
    product =
        sym (pow2-add (suc k) (63 - k))
        ∙ ap pow2 (let sum : suc k + (63 - k) ≡ 64 = omega arith in sum)
