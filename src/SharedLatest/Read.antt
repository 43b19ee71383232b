-- ===== src/SharedLatest/Read.antt =====
-- The two overloads of `try_read` of include/lf_ring/shared_latest.hpp, and `write` against the steps
-- of its interleaved form.
use Prim.Native.Nat.{bit_and}
use native.Mathlib.Decide.{ℕ_discrete}
use lock_free_ring_buffer.Prelude.{
  ℕ, zero, suc, ◌+◌, ◌≤◌, ◌-◌, ◌<◌, ◌⊎◌, ◌≢◌, subst, ◌≡◌, refl, sym, ap, ap₂, ◌∙◌, inl, inr, arith,
  not, List, [], ◌∷◌, length, Option, none, some, ltb, ◌==◌, if◌then◌else◌, eq→==, ne→==,
}
use lock_free_ring_buffer.Word.{◌+w◌, bit_and-one}
use lock_free_ring_buffer.Memory.{Memory, store_byte, store_bytes}
use lock_free_ring_buffer.Ring.{Ring}
use lock_free_ring_buffer.SharedLatest.{
  ReadResult, success, empty, contended, writer_dead, Look, read_rounds, try_read_status, write,
}
use lock_free_ring_buffer.SharedLatest.Status.{
  FindsWrite, FindsStable, FindsDead, GoesOn, AllGoOn, round_lem, on, stable, dead, round_on,
  round_stable, round_dead,
}
use lock_free_ring_buffer.SharedLatest.Seqlock.{
  State, idle, copying, get_or, begin_write, write_byte, commit, Reach, here, later,
}

-- The rounds from `i` on of the first `try_read`; `none` for `return false`.
unfoldable pub plain_rounds : (ℕ → Look) → ℕ → ℕ → Option (List ℕ)
plain_rounds looks zero i = none
plain_rounds looks (suc fuel) i =
    let rest = plain_rounds looks fuel (i + 1) in
    let l = looks i in
    if not (bit_and l.s₁ 1 == 0) then rest else if l.s₁ == l.s₂ then some l.copy else rest

unfoldable pub try_read : (ℕ → Look) → ℕ → Option (List ℕ)
unfolding plain_rounds
try_read looks max_retries = plain_rounds looks max_retries 0

-- What the first overload returns where the second reports as it does. Where the second reports a dead
-- writer in a round, the first goes on with the next one. Where the second reports an empty slot, the
-- first, which has no look before its loop, returns what the slot holds as a value, unless the
-- number is no longer 0.
abbrev pub Agrees : ℕ → ℕ → (ℕ → Look) → ℕ → Option (List ℕ) → ReadResult × Option (List ℕ) → Type 0
Agrees first threshold looks n plain (success, o) = (plain ≡ o) × ((v : List ℕ) × (o ≡ some v))
Agrees first threshold looks n plain (contended, o) = (plain ≡ none) × (o ≡ none)
Agrees first threshold looks n plain (writer_dead, o) =
    (j : ℕ) × (j < n)
    × AllGoOn threshold looks j
    × FindsWrite (looks j)
    × FindsDead threshold (looks j)
    × (plain ≡ plain_rounds looks (n - (j + 1)) (j + 1))
Agrees first threshold looks n plain (empty, o) =
    (first ≡ 0)
    × ((n ≡ 0) ⊎ ((looks 0).s₁ ≢ 0) ⊎ ((looks 0).s₂ ≢ 0) ⊎ (plain ≡ some (looks 0).copy))

module _ (looks : ℕ → Look) where
  plain_on :
      (threshold fuel i : ℕ)
      → GoesOn threshold i (looks i)
      → plain_rounds looks (suc fuel) i ≡ plain_rounds looks fuel (i + 1)
  unfolding plain_rounds
  plain_on threshold fuel i g = ground (arith, g, bit_and-one (looks i).s₁)

  plain_stable :
      (fuel i : ℕ) → FindsStable (looks i) → plain_rounds looks (suc fuel) i ≡ some (looks i).copy
  unfolding plain_rounds
  plain_stable fuel i (even, same) = ground (arith, even, same, bit_and-one (looks i).s₁)

  plain_odd :
      (fuel i : ℕ)
      → FindsWrite (looks i)
      → plain_rounds looks (suc fuel) i ≡ plain_rounds looks fuel (i + 1)
  unfolding plain_rounds
  plain_odd fuel i odd = ground (arith, odd, bit_and-one (looks i).s₁)

  rounds-Agrees :
      (first threshold n fuel i : ℕ)
      → fuel + i ≡ n
      → AllGoOn threshold looks i
      → Agrees first threshold looks n
          (plain_rounds looks fuel i)
          (read_rounds threshold looks fuel i)
  rounds-Agrees first threshold n zero i e before = unfold read_rounds plain_rounds in (refl, refl)
  rounds-Agrees first threshold n (suc fuel) i e before = elim (round_lem threshold i (looks i)) [
    | on g ↦
        rw (round_on threshold looks fuel i g, plain_on threshold fuel i g)
          (rounds-Agrees first threshold n fuel (i + 1) (omega arith) (
            subst (AllGoOn threshold looks) (let next : suc i ≡ i + 1 = omega arith in next)
              (before, g)))
    | stable f ↦
        rw (round_stable threshold looks fuel i f, plain_stable fuel i f)
          (refl, ((looks i).copy, refl))
    | dead odd due old ↦ rw (round_dead threshold looks fuel i odd due old) (
      i,
      omega arith,
      before,
      odd,
      old,
      plain_odd fuel i odd
          ∙ ap (λ k. plain_rounds looks k (i + 1))
              (let left : fuel ≡ n - (i + 1) = omega arith in left),
    )
  ]

  empty-Agrees :
      (n : ℕ)
      → (n ≡ 0)
        ⊎ ((looks 0).s₁ ≢ 0)
        ⊎ ((looks 0).s₂ ≢ 0)
        ⊎ (plain_rounds looks n 0 ≡ some (looks 0).copy)
  empty-Agrees zero = inl refl
  empty-Agrees (suc n) = elim (ℕ_discrete (looks 0).s₁ 0) [
    | no changed ↦ inr (inl changed)
    | yes unset ↦ elim (ℕ_discrete (looks 0).s₂ 0) [
      | no changed ↦ inr (inr (inl changed))
      | yes still ↦
          inr (inr (inr (plain_stable n 0 (omega (arith, unset), omega (arith, unset, still)))))
    ]
  ]

-- What the two overloads of `try_read` make of the same loads. Where the second reports success, the
-- first returns true with the same value; where it reports contention, the first returns false.
-- They differ twice. Where the second reports a dead writer in a round, the first returns what the
-- rounds after it give. Where the second found the number 0 before its loop and reports an empty
-- slot, the first returns true with the bytes of the slot, if it has a round and the number is 0
-- before and after the copy of the first one.
pub try_read-Agrees :
    (first threshold max_retries : ℕ) (looks : ℕ → Look)
    → Agrees first threshold looks max_retries
        (try_read looks max_retries)
        (try_read_status first threshold looks max_retries)
unfolding try_read try_read_status
try_read-Agrees first threshold max_retries looks = elim (ℕ_discrete first 0) [
  | yes none_yet ↦ rw (eq→== first 0 none_yet) (none_yet, empty-Agrees looks max_retries)
  | no some_yet ↦
      rw (ne→== first 0 some_yet)
        (rounds-Agrees looks first threshold max_retries max_retries 0 (omega arith) tt)
]

-- The slot when the writer has copied the first `k` bytes of `v`.
abbrev copied : Memory → List ℕ → ℕ → Memory
copied m v zero = m
copied m v (suc k) = store_byte (copied m v k) k (get_or v k 0)

copied_lem :
    (m : Memory) (v : List ℕ) (k i : ℕ) → copied m v k i ≡ (if ltb i k then get_or v i 0 else m i)
copied_lem m v zero i = ground arith
copied_lem m v (suc k) i = ground (arith, copied_lem m v k i)

store_bytes_lem :
    (m : Memory) (a i : ℕ) (v : List ℕ)
    → store_bytes m a v (a + i) ≡ (if ltb i (length v) then get_or v i 0 else m (a + i))
unfolding store_bytes
store_bytes_lem m a i [] = ground arith
store_bytes_lem m a zero (b ∷ v) = ground arith
store_bytes_lem m a (suc i) (b ∷ v) =
    let shift : a + suc i ≡ suc a + i = omega arith in
    rw shift (ground (arith, store_bytes_lem m (suc a) i v))

slot_bytes :
    (m : Memory) (v : List ℕ) (i : ℕ)
    → store_bytes m 0 v i ≡ (if ltb i (length v) then get_or v i 0 else m i)
slot_bytes m v i =
    let plain : 0 + i ≡ i = omega arith in
    ap (store_bytes m 0 v) (sym plain)
    ∙ store_bytes_lem m 0 i v
    ∙ ap (λ j. if ltb i (length v) then get_or v i 0 else m j) plain

module _ (sizeof_t max_retries : ℕ) where
  copying_run :
      (x y : State) (v : List ℕ) (k : ℕ)
      → Reach sizeof_t max_retries x y
      → y.writer ≡ idle
      → length v ≡ sizeof_t
      → k ≤ sizeof_t
      → Reach sizeof_t max_retries x (record y {
        sequence = y.sequence +w 1;
        bytes = copied y.bytes v k;
        writer = copying y.sequence v k;
      })
  copying_run x y v zero r e size h = later r (begin_write e size)
  copying_run x y v (suc k) r e size h =
      later (copying_run x y v k r e size (omega arith)) (write_byte refl (omega arith))

  -- Running the steps of a write one after the other, with no step of a reader in between, does to
  -- the number and to every byte of the slot what the function `write` does, and commits the value.
  write_run :
      (x : State) (q : Ring) (v : List ℕ) (now : ℕ)
      → x.writer ≡ idle
      → length v ≡ sizeof_t
      → x.sequence ≡ q.sequence
      → ((i : ℕ) → x.bytes i ≡ q.bytes i)
      → (y : State) × Reach sizeof_t max_retries x y
        × (y.writer ≡ idle)
        × (y.reader ≡ x.reader)
        × (y.history ≡ v ∷ x.history)
        × (y.sequence ≡ (write q v now).sequence)
        × ((i : ℕ) → y.bytes i ≡ (write q v now).bytes i)
  unfolding write
  write_run x q v now e size same agree = (
    record x {
      sequence = x.sequence +w 2;
      bytes = copied x.bytes v sizeof_t;
      writer = idle;
      history = v ∷ x.history;
    },
    later (copying_run x x v sizeof_t here e size (omega arith)) (commit refl),
    refl,
    refl,
    refl,
    ap (λ n. n +w 2) same,
    λ i.
        copied_lem x.bytes v sizeof_t i
        ∙ ap₂ (λ n b. if ltb i n then get_or v i 0 else b) (sym size) (agree i)
        ∙ sym (slot_bytes q.bytes v i),
  )
