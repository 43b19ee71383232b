-- ===== src/SharedLatest/Status.antt =====
-- What the second `try_read` reports of a writer that died.
use Prim.Native.Nat.{bit_and}
use native.Mathlib.Decide.{ℕ_discrete, dec_lt}
use lock_free_ring_buffer.Word.{◌-w◌, pow2, bit_and-one, bit_and-mask}
use lock_free_ring_buffer.Prelude.{
  ◌%◌, ◌⊎◌, subst, ℕ, zero, suc, ◌+◌, ◌≤◌, ◌<◌, ◌≡◌, ◌≢◌, refl, true, false, List, Option, none,
  some, ◌==◌, arith, Bool-cases, inl, inr, eq→==, ne→==,
}
use lock_free_ring_buffer.SharedLatest.{
  ReadResult, success, empty, contended, writer_dead, Look, is_stale, read_rounds, try_read_status,
}

-- Round `i` finds a write begun and not ended.
abbrev pub FindsOdd : (ℕ → Look) → ℕ → Type 0
FindsOdd looks i = (bit_and (looks i).s₁ 1 == 0) ≡ false

module _ (threshold : ℕ) (looks : ℕ → Look) (mid_write : (i : ℕ) → FindsOdd looks i) where
  rounds_dead :
      (fuel i : ℕ)
      → ((j : ℕ) → is_stale threshold (looks j) ≡ true)
      → i ≤ 63
      → 63 < fuel + i
      → read_rounds threshold looks fuel i ≡ (writer_dead, none)
  unfolding read_rounds
  rounds_dead zero i stale h p = absurd (omega arith)
  rounds_dead (suc fuel) i stale h p = elim (ℕ_discrete i 63) [
    | yes last ↦ rw (mid_write i) (rw (stale i) (rw last refl))
    | no before ↦ rw (mid_write i) (
        rw (stale i) (elim (Bool-cases (bit_and i 0x3F == 0x3F)) [
          | inl now ↦ rw now refl
          | inr on ↦ rw on (rounds_dead fuel (i + 1) stale (omega arith) (omega arith))
        ]))
  ]

  rounds_unborn :
      (fuel i : ℕ)
      → ((j : ℕ) → (looks j).heartbeat ≡ 0)
      → read_rounds threshold looks fuel i ≡ (contended, none)
  unfolding read_rounds
  rounds_unborn zero i unborn = refl
  rounds_unborn (suc fuel) i unborn = rw (mid_write i) (
      rw (unborn i) (elim (Bool-cases (bit_and i 0x3F == 0x3F)) [
        | inl now ↦ rw now (rounds_unborn fuel (i + 1) unborn)
        | inr on ↦ rw on (rounds_unborn fuel (i + 1) unborn)
      ]))

  -- If the writer died in a write, so that every round finds an odd number, and every look at its
  -- heartbeat finds one that is older than the threshold, a read of 64 rounds or more reports it dead.
  pub dead_writer_reported :
      (first max_retries : ℕ)
      → first ≢ 0
      → ((j : ℕ) → is_stale threshold (looks j) ≡ true)
      → 64 ≤ max_retries
      → try_read_status first threshold looks max_retries ≡ (writer_dead, none)
  unfolding try_read_status
  dead_writer_reported first max_retries odd stale h =
      rw (ne→== first 0 odd) (rounds_dead max_retries 0 stale (omega arith) (omega arith))

  -- If it died in its first write, before it ever set its heartbeat, no number of rounds and no
  -- threshold makes a read report it dead: the read reports contention.
  first_write_not_reported :
      (first max_retries : ℕ)
      → first ≢ 0
      → ((j : ℕ) → (looks j).heartbeat ≡ 0)
      → try_read_status first threshold looks max_retries ≡ (contended, none)
  unfolding try_read_status
  first_write_not_reported first max_retries odd unborn =
      rw (ne→== first 0 odd) (rounds_unborn max_retries 0 unborn)

-- What a round finds. A number is odd while a write is under way.
abbrev pub FindsWrite : Look → Type 0
FindsWrite l = l.s₁ % 2 ≡ 1

abbrev pub FindsStable : Look → Type 0
FindsStable l = (l.s₁ % 2 ≡ 0) × (l.s₁ ≡ l.s₂)

abbrev pub FindsDead : ℕ → Look → Type 0
FindsDead threshold l = (l.heartbeat ≢ 0) × (threshold < l.now -w l.heartbeat)

-- A round that does not end the loop: a write was under way, and the round is not one that looks at
-- the heartbeat, as each 64th does, or the heartbeat is not set or not too old; or the number changed
-- during the copy.
abbrev pub GoesOn : ℕ → ℕ → Look → Type 0
GoesOn threshold i l =
    (FindsWrite l × ((i % 64 ≢ 63) ⊎ (l.heartbeat ≡ 0) ⊎ (l.now -w l.heartbeat ≤ threshold)))
    ⊎ ((l.s₁ % 2 ≡ 0) × (l.s₁ ≢ l.s₂))

-- The first `n` rounds do not end the loop.
abbrev pub AllGoOn : ℕ → (ℕ → Look) → ℕ → Type 0
AllGoOn threshold looks zero = Unit
AllGoOn threshold looks (suc n) = AllGoOn threshold looks n × GoesOn threshold n (looks n)

-- What each result of `n` rounds says of them.
abbrev pub Means : ℕ → (ℕ → Look) → ℕ → ReadResult × Option (List ℕ) → Type 0
Means threshold looks n (success, some v) =
    (j : ℕ) × (j < n) × AllGoOn threshold looks j × FindsStable (looks j) × ((looks j).copy ≡ v)
Means threshold looks n (success, none) = ⊥
Means threshold looks n (writer_dead, o) =
    (j : ℕ) × (j < n)
    × AllGoOn threshold looks j
    × FindsWrite (looks j)
    × (j % 64 ≡ 63)
    × FindsDead threshold (looks j)
    × (o ≡ none)
Means threshold looks n (contended, o) = AllGoOn threshold looks n × (o ≡ none)
Means threshold looks n (empty, o) = ⊥

-- Each 64th round.
pub at_check : (i : ℕ) → bit_and i 0x3F ≡ i % 64
unfolding pow2
at_check i = bit_and-mask 6 i

-- Round `i` does not end the loop, or says how it does.
pub data Round (threshold i : ℕ) (l : Look) : Type 0 where
  on : GoesOn threshold i l → Round threshold i l
  stable : FindsStable l → Round threshold i l
  dead : FindsWrite l → i % 64 ≡ 63 → FindsDead threshold l → Round threshold i l

pub round_lem : (threshold i : ℕ) (l : Look) → Round threshold i l
round_lem threshold i l = elim (ℕ_discrete (l.s₁ % 2) 0) [
  | yes even ↦ elim (ℕ_discrete l.s₁ l.s₂) [
    | yes same ↦ stable (even, same)
    | no other ↦ on (inr (even, other))
  ]
  | no odd ↦ elim (ℕ_discrete (i % 64) 63) [
    | no early ↦ on (inl (ground (arith, odd), inl early))
    | yes due ↦ elim (ℕ_discrete l.heartbeat 0) [
      | yes unset ↦ on (inl (ground (arith, odd), inr (inl unset)))
      | no set ↦ elim (dec_lt threshold (l.now -w l.heartbeat)) [
        | yes old ↦ dead (ground (arith, odd)) due (set, old)
        | no young ↦ on (inl (ground (arith, odd), inr (inr (omega arith))))
      ]
    ]
  ]
]

module _ (threshold : ℕ) (looks : ℕ → Look) where
  pub round_on :
      (fuel i : ℕ)
      → GoesOn threshold i (looks i)
      → read_rounds threshold looks (suc fuel) i ≡ read_rounds threshold looks fuel (i + 1)
  unfolding read_rounds
  round_on fuel i g = ground (arith, g, bit_and-one (looks i).s₁, at_check i)

  pub round_stable :
      (fuel i : ℕ)
      → FindsStable (looks i)
      → read_rounds threshold looks (suc fuel) i ≡ (success, some (looks i).copy)
  unfolding read_rounds
  round_stable fuel i (even, same) = ground (arith, even, same, bit_and-one (looks i).s₁)

  pub round_dead :
      (fuel i : ℕ)
      → FindsWrite (looks i)
      → i % 64 ≡ 63
      → FindsDead threshold (looks i)
      → read_rounds threshold looks (suc fuel) i ≡ (writer_dead, none)
  unfolding read_rounds
  round_dead fuel i odd due old =
      ground (arith, odd, due, old, bit_and-one (looks i).s₁, at_check i)

  read_rounds-Means :
      (n fuel i : ℕ)
      → fuel + i ≡ n
      → AllGoOn threshold looks i
      → Means threshold looks n (read_rounds threshold looks fuel i)
  read_rounds-Means n zero i e before =
      unfold read_rounds in
      (subst (AllGoOn threshold looks) (let same : i ≡ n = omega arith in same) before, refl)
  read_rounds-Means n (suc fuel) i e before = elim (round_lem threshold i (looks i)) [
    | on g ↦ rw (round_on fuel i g) (
        read_rounds-Means n fuel (i + 1) (omega arith) (
          subst (AllGoOn threshold looks) (let next : suc i ≡ i + 1 = omega arith in next)
            (before, g)))
    | stable f ↦ rw (round_stable fuel i f) (i, omega arith, before, f, refl)
    | dead odd due old ↦
        rw (round_dead fuel i odd due old) (i, omega arith, before, odd, due, old, refl)
  ]

abbrev pub Reported : ℕ → ℕ → (ℕ → Look) → ℕ → ReadResult × Option (List ℕ) → Type 0
Reported first threshold looks n (empty, o) = (first ≡ 0) × (o ≡ none)
Reported first threshold looks n (success, o) = (first ≢ 0) × Means threshold looks n (success, o)
Reported first threshold looks n (writer_dead, o) =
    (first ≢ 0) × Means threshold looks n (writer_dead, o)
Reported first threshold looks n (contended, o) =
    (first ≢ 0) × Means threshold looks n (contended, o)

Means-Reported :
    (first threshold n : ℕ) (looks : ℕ → Look) (r : ReadResult × Option (List ℕ))
    → first ≢ 0
    → Means threshold looks n r
    → Reported first threshold looks n r
Means-Reported first threshold n looks (empty, o) h m = absurd m
Means-Reported first threshold n looks (success, o) h m = (h, m)
Means-Reported first threshold n looks (writer_dead, o) h m = (h, m)
Means-Reported first threshold n looks (contended, o) h m = (h, m)

-- What the second `try_read` reports, whatever other processes do between its loads: the slot is
-- empty exactly if the look before the loop found 0. Else it is what the first of its rounds says
-- that ends the loop: the copy made in that round, if the round found one even number before and
-- after it; a dead writer, if a 64th round found an odd number and a set heartbeat older than the
-- threshold. It is contention exactly if none of the rounds allowed ends the loop.
pub try_read_status-Reported :
    (first threshold max_retries : ℕ) (looks : ℕ → Look)
    → Reported first threshold looks max_retries (try_read_status first threshold looks max_retries)
unfolding try_read_status
try_read_status-Reported first threshold max_retries looks = elim (ℕ_discrete first 0) [
  | yes none_yet ↦ rw (eq→== first 0 none_yet) (none_yet, refl)
  | no some_yet ↦ rw (ne→== first 0 some_yet) (
      Means-Reported first threshold max_retries looks (read_rounds threshold looks max_retries 0)
        some_yet (read_rounds-Means threshold looks max_retries max_retries 0 (omega arith) tt))
]
