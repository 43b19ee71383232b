-- ===== src/Futex/Word.antt =====
-- The futex word of an atomic is its lower half.
use native.Mathlib.Nat.{
  mod-eq_of_lt, mod-lt, mul-add-mod_self_left, div-add-mod, mul_assoc, pow-succ',
}
use lock_free_ring_buffer.Prelude.{
  ℕ, zero, suc, ◌+◌, ◌*◌, ◌/◌, ◌%◌, ◌^◌, ◌≤◌, ◌<◌, ◌≡◌, ◌∙◌, ap, ap₂, sym, arith,
}
use lock_free_ring_buffer.Word.{u64}
use lock_free_ring_buffer.Memory.{
  Memory, store_int, load_int, store_bytes, load_bytes, le_bytes, of_le_bytes, load_bytes-agree,
}
use lock_free_ring_buffer.Futex.{futex_word, futex_load}

byte-mod : (v p : ℕ) → 0 < p → v % 256 + 256 * (v / 256 % p) ≡ v % (256 * p)
byte-mod v p h =
    sym (mod-eq_of_lt {n = low} {m = 256 * p} (omega (arith, mod-lt (v / 256) h)))
    ∙ sym (mul-add-mod_self_left (256 * p) (v / 256 / p) low)
    ∙ ap (λ n. n % (256 * p))
        (omega (arith, div-add-mod (v / 256) p, mul_assoc 256 p (v / 256 / p)))
  where
    low : ℕ
    low = v % 256 + 256 * (v / 256 % p)

bytes_pos : (n : ℕ) → 0 < 256 ^ n
bytes_pos zero = omega arith
bytes_pos (suc n) = omega (arith, bytes_pos n, pow-succ' 256 n)

-- The first `n` bytes of a longer integer.
low_bytes :
    (n w : ℕ) (m : Memory) (at v : ℕ)
    → n ≤ w
    → of_le_bytes (load_bytes (store_bytes m at (le_bytes w v)) at n) ≡ v % 256 ^ n
unfolding store_bytes load_bytes le_bytes of_le_bytes
low_bytes zero w m at v h = omega arith
low_bytes (suc n) zero m at v h = absurd (omega arith)
low_bytes (suc n) (suc w) m at v h =
    ap₂ (λ b bs. b + 256 * of_le_bytes bs) (ground arith)
      (load_bytes-agree _ (store_bytes m (suc at) (le_bytes w (v / 256))) (suc at) n
        (λ i p q. ground arith))
    ∙ ap (λ k. v % 256 + 256 * k) (low_bytes n w m (suc at) (v / 256) (omega arith))
    ∙ byte-mod v (256 ^ n) (bytes_pos n)
    ∙ ap (λ k. v % k) (sym (pow-succ' 256 n))

-- In little-endian order the 32 bits at the address of a 64-bit atomic are the ones that
-- `futex_load` returns of its value: what the kernel compares is what a reader's snapshot holds.
pub futex_word-store_int :
    (m : Memory) (at a : ℕ) → a < u64 → futex_word (store_int 8 m at a) at ≡ futex_load a
unfolding futex_word futex_load store_int load_int
futex_word-store_int m at a h = low_bytes 4 8 m at a (omega arith)
