-- ===== src/SharedLatest/Claim.antt =====
-- `SharedLatest::claim` on an existing file.
use Prim.Native.Nat.{bit_and}
use native.Mathlib.Decide.{ℕ_discrete}
use lock_free_ring_buffer.Prelude.{
  ℕ, ◌%◌, ◌≤◌, ◌<◌, ◌⊎◌, ◌≡◌, ◌≢◌, refl, Bool, false, not, ◌&&◌, inl, inr, ltb, ◌==◌, if◌then◌else◌,
  arith, Bool-cases, ne→==, eq→==,
}
use lock_free_ring_buffer.Word.{◌+w◌, ◌-w◌, bit_and-one}
use lock_free_ring_buffer.Layout.{created, resumed, recovered}
use lock_free_ring_buffer.Ring.{Ring}
use lock_free_ring_buffer.SharedLatest.{
  claim, recover, ClaimOutcome, claimed, live_writer, lost_race,
}

-- The heartbeat that was seen is set and younger than the threshold.
abbrev pub is_fresh : Ring → ℕ → ℕ → Bool
is_fresh q now threshold = not (q.head_reserve == 0) && ltb (now -w q.head_reserve) threshold

-- A heartbeat that is set and younger than the threshold, and one that is not.
abbrev pub Fresh : Ring → ℕ → ℕ → Type 0
Fresh q now threshold = (q.head_reserve ≢ 0) × (now -w q.head_reserve < threshold)

abbrev pub Stale : Ring → ℕ → ℕ → Type 0
Stale q now threshold = (q.head_reserve ≡ 0) ⊎ (threshold ≤ now -w q.head_reserve)

-- What a claim at the time `now` that loaded the number and the heartbeat from the slot `q` says of it,
-- and what it makes of the slot as it is then, `at`.
abbrev pub Claimed : Ring → Ring → ℕ → ℕ → ClaimOutcome → Type 0
Claimed q at now threshold (claimed r resumed) =
    (q.sequence % 2 ≡ 0)
    × (r.sequence ≡ at.sequence)
    × (r.head_reserve ≡ now)
    × (r.tail_publish ≡ at.tail_publish)
    × ((i : ℕ) → r.bytes i ≡ at.bytes i)
Claimed q at now threshold (claimed r recovered) =
    (q.sequence % 2 ≡ 1)
    × Stale q now threshold
    × (at.head_reserve ≡ q.head_reserve)
    × (r.sequence ≡ 0)
    × (r.head_reserve ≡ now)
    × (r.tail_publish ≡ at.tail_publish +w 1)
    × ((i : ℕ) → r.bytes i ≡ (if ltb i at.capacity then 0 else at.bytes i))
Claimed q at now threshold (claimed r created) = ⊥
Claimed q at now threshold live_writer = (q.sequence % 2 ≡ 1) × Fresh q now threshold
Claimed q at now threshold lost_race =
    (q.sequence % 2 ≡ 1) × Stale q now threshold × (at.head_reserve ≢ q.head_reserve)

-- A claim of a slot that loads its number between two writes takes it over as it is, with the claim's
-- time for its heartbeat. One that loads a number in a write refuses if the heartbeat is set and
-- younger than the threshold. If it is not, the claim takes the slot over exactly if the heartbeat is
-- still the one that was loaded when it is exchanged, with the number 0, the ring cleared, the
-- waiters' counter moved on and the claim's time for the heartbeat; and it gives up if not.
pub claim-Claimed :
    (q at : Ring) (now threshold : ℕ) → Claimed q at now threshold (claim q at now threshold)
unfolding claim recover
claim-Claimed q at now threshold = elim (Bool-cases (bit_and q.sequence 1 == 0)) [
  | inl even ↦ rw even (ground (arith, bit_and-one q.sequence), refl, refl, refl, λ i. refl)
  | inr odd ↦ rw odd (elim (Bool-cases (is_fresh q now threshold)) [
    | inl fresh ↦
        rw fresh
          (ground (arith, bit_and-one q.sequence), (ground (arith, fresh), ground (arith, fresh)))
    | inr stale ↦ rw stale (elim (ℕ_discrete at.head_reserve q.head_reserve) [
      | yes same ↦ rw (eq→== at.head_reserve q.head_reserve same) (
        ground (arith, bit_and-one q.sequence),
        ground (arith, stale),
        same,
        refl,
        refl,
        refl,
        λ i. refl,
      )
      | no other ↦
          rw (ne→== at.head_reserve q.head_reserve other)
            (ground (arith, bit_and-one q.sequence), ground (arith, stale), other)
    ])
  ])
]

-- Of two processes that both saw the slot `q` in a write that has gone stale, the second to exchange
-- the heartbeat does not take the slot over: it finds the time of the first, if that is another
-- than the one they saw.
claim_race :
    (q : Ring) (now₁ now₂ threshold : ℕ)
    → bit_and q.sequence 1 ≢ 0
    → is_fresh q now₁ threshold ≡ false
    → is_fresh q now₂ threshold ≡ false
    → now₁ ≢ q.head_reserve
    → (claim q q now₁ threshold ≡ claimed (recover q now₁) recovered)
      × (claim q (recover q now₁) now₂ threshold ≡ lost_race)
unfolding claim recover
claim_race q now₁ now₂ threshold odd stale₁ stale₂ other = (
  rw (ne→== (bit_and q.sequence 1) 0 odd)
      (rw stale₁ (rw (eq→== q.head_reserve q.head_reserve refl) refl)),
  rw (ne→== (bit_and q.sequence 1) 0 odd) (rw stale₂ (rw (ne→== now₁ q.head_reserve other) refl)),
)
