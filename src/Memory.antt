-- ===== src/Memory.antt =====
-- A region of shared memory, byte by byte: std::memcpy and the little-endian integers that the
-- code reads and writes through pointers into the mapping.
use native.Mathlib.Nat.{pow-succ'}
use lock_free_ring_buffer.Prelude.{
  ℕ, zero, suc, ◌+◌, ◌*◌, ◌/◌, ◌%◌, ◌^◌, ◌≤◌, ◌<◌, ◌≡◌, refl, sym, ap, ap₂, ◌∙◌, ◌⊎◌, List, [], ◌∷◌,
  length, arith, ◌==◌, if◌then◌else◌,
}

-- The byte at each offset from the start of the region.
abbrev pub Memory : Type 0
Memory = ℕ → ℕ

abbrev pub store_byte : Memory → ℕ → ℕ → Memory
store_byte m a b i = if a == i then b else m i

-- `memcpy` into the region.
unfoldable pub store_bytes : Memory → ℕ → List ℕ → Memory
store_bytes m a [] = m
store_bytes m a (b ∷ bs) = store_byte (store_bytes m (suc a) bs) a b

-- `memcpy` out of the region.
unfoldable pub load_bytes : Memory → ℕ → ℕ → List ℕ
load_bytes m a zero = []
load_bytes m a (suc n) = m a ∷ load_bytes m (suc a) n

-- The bytes of an n-byte integer, lowest first.
unfoldable pub le_bytes : ℕ → ℕ → List ℕ
le_bytes zero v = []
le_bytes (suc n) v = v % 256 ∷ le_bytes n (v / 256)

unfoldable pub of_le_bytes : List ℕ → ℕ
of_le_bytes [] = 0
of_le_bytes (b ∷ bs) = b + 256 * of_le_bytes bs

-- An integer of `width` bytes at an offset.
unfoldable pub store_int : ℕ → Memory → ℕ → ℕ → Memory
unfolding store_bytes le_bytes
store_int width m a v = store_bytes m a (le_bytes width v)

unfoldable pub load_int : ℕ → Memory → ℕ → ℕ
unfolding load_bytes of_le_bytes
load_int width m a = of_le_bytes (load_bytes m a width)

-- Two ranges of bytes that share none.
abbrev pub Apart : ℕ → ℕ → ℕ → ℕ → Type 0
Apart a n b k = (a + n ≤ b) ⊎ (b + k ≤ a)

pub length-load_bytes : (m : Memory) (a n : ℕ) → length (load_bytes m a n) ≡ n
unfolding load_bytes
length-load_bytes m a zero = refl
length-load_bytes m a (suc n) = ap suc (length-load_bytes m (suc a) n)

pub length-le_bytes : (n v : ℕ) → length (le_bytes n v) ≡ n
unfolding le_bytes
length-le_bytes zero v = refl
length-le_bytes (suc n) v = ap suc (length-le_bytes n (v / 256))

-- A write leaves the bytes outside its range.
pub store_bytes_outside :
    (m : Memory) (a : ℕ) (bs : List ℕ) (i : ℕ)
    → Apart a (length bs) i 1
    → store_bytes m a bs i ≡ m i
unfolding store_bytes
store_bytes_outside m a [] i h = refl
store_bytes_outside m a (b ∷ bs) i h = ground (arith, store_bytes_outside m (suc a) bs i)

pub load_bytes-agree :
    (m m' : Memory) (a n : ℕ)
    → ((i : ℕ) → a ≤ i → i < a + n → m i ≡ m' i)
    → load_bytes m a n ≡ load_bytes m' a n
unfolding load_bytes
load_bytes-agree m m' a zero h = refl
load_bytes-agree m m' a (suc n) h =
    ap₂ ◌∷◌ (h a (omega arith) (omega arith))
      (load_bytes-agree m m' (suc a) n (λ i p q. h i (omega arith) (omega arith)))

pub load-store_self :
    (m : Memory) (a : ℕ) (bs : List ℕ) → load_bytes (store_bytes m a bs) a (length bs) ≡ bs
unfolding store_bytes load_bytes
load-store_self m a [] = refl
load-store_self m a (b ∷ bs) = ap₂ ◌∷◌ (ground arith) (
    load_bytes-agree _ (store_bytes m (suc a) bs) (suc a) (length bs) (λ i p q. ground arith)
    ∙ load-store_self m (suc a) bs)

pub load-store_elsewhere :
    (m : Memory) (a : ℕ) (bs : List ℕ) (b k : ℕ)
    → Apart a (length bs) b k
    → load_bytes (store_bytes m a bs) b k ≡ load_bytes m b k
load-store_elsewhere m a bs b k h =
    load_bytes-agree (store_bytes m a bs) m b k
      (λ i p q. store_bytes_outside m a bs i (omega arith))

-- An integer that fits its width survives the round trip.
pub of_le_bytes-le_bytes : (n v : ℕ) → v < 256 ^ n → of_le_bytes (le_bytes n v) ≡ v
unfolding of_le_bytes le_bytes
of_le_bytes-le_bytes zero v h = omega arith
of_le_bytes-le_bytes (suc n) v h =
    omega (arith, of_le_bytes-le_bytes n (v / 256) (omega (arith, pow-succ' 256 n)))

pub load_int-store_int_self :
    (w : ℕ) (m : Memory) (a v : ℕ) → v < 256 ^ w → load_int w (store_int w m a v) a ≡ v
unfolding load_int store_int
load_int-store_int_self w m a v h =
    ap of_le_bytes (
      ap (load_bytes (store_bytes m a (le_bytes w v)) a) (sym (length-le_bytes w v))
      ∙ load-store_self m a (le_bytes w v))
    ∙ of_le_bytes-le_bytes w v h

pub store_int_outside : (w : ℕ) (m : Memory) (a v i : ℕ) → Apart a w i 1 → store_int w m a v i ≡ m i
unfolding store_int
store_int_outside w m a v i h =
    store_bytes_outside m a (le_bytes w v) i (omega (arith, length-le_bytes w v))

pub load_int-agree :
    (w : ℕ) (m m' : Memory) (a : ℕ)
    → ((i : ℕ) → a ≤ i → i < a + w → m i ≡ m' i)
    → load_int w m a ≡ load_int w m' a
unfolding load_int
load_int-agree w m m' a h = ap of_le_bytes (load_bytes-agree m m' a w h)

pub load_int-store_int_elsewhere :
    (k w : ℕ) (m : Memory) (a v b : ℕ)
    → Apart a w b k
    → load_int k (store_int w m a v) b ≡ load_int k m b
load_int-store_int_elsewhere k w m a v b h =
    load_int-agree k _ m b (λ i p q. store_int_outside w m a v i (omega arith))
