-- ===== src/RingFiles.antt =====
-- `create`, `open` and `claim` of the three classes of byte rings, in src/shared_ring_buffer.cpp,
-- src/shared_ring_buffer_mpmc.cpp and src/shared_ring_buffer_spsc.cpp.
use lock_free_ring_buffer.Prelude.{
  ℕ, ◌+◌, ◌*◌, ◌/◌, ◌<◌, ◌≡◌, refl, ap, ◌∙◌, List, Option, none, some, arith, if◌then◌else◌, ◌==◌,
}
use lock_free_ring_buffer.Word.{u64}
use lock_free_ring_buffer.Memory.{Memory}
use lock_free_ring_buffer.Layout.{flag_mpsc, flag_mpmc, flag_spsc, ClaimResult, created, resumed}
use lock_free_ring_buffer.Ring.{Ring}
use lock_free_ring_buffer.Ring.Spans.{Span}
use lock_free_ring_buffer.Ring.Inv.{Inv}
use lock_free_ring_buffer.Mapping.{
  Result, ok, err, mode_mismatch, Calls, Held, Mapping, create_mapping, open_mapping, view,
}
use lock_free_ring_buffer.Mapping.Open.{works, holding, new_mapping, create-open}
use lock_free_ring_buffer.Spsc.{claim_control}
use lock_free_ring_buffer.Spsc.Claim.{claim_control-Inv}

unfoldable pub create_mpsc : Calls → Held → ℕ → Held × Result Mapping
create_mpsc calls held capacity = create_mapping calls held capacity flag_mpsc

unfoldable pub open_mpsc : Calls → Held → Memory → ℕ → Held × Result Mapping
open_mpsc calls held file size = open_mapping calls held file size flag_mpsc

unfoldable pub create_mpmc : Calls → Held → ℕ → Held × Result Mapping
create_mpmc calls held capacity = create_mapping calls held capacity flag_mpmc

unfoldable pub open_mpmc : Calls → Held → Memory → ℕ → Held × Result Mapping
open_mpmc calls held file size = open_mapping calls held file size flag_mpmc

unfoldable pub create_spsc : Calls → Held → ℕ → Held × Result Mapping
create_spsc calls held capacity = create_mapping calls held capacity flag_spsc

unfoldable pub open_spsc : Calls → Held → Memory → ℕ → Held × Result Mapping
open_spsc calls held file size = open_mapping calls held file size flag_spsc

-- The ring and how it was claimed, or the error that is thrown.
abbrev pub Claimed : Type 0
Claimed = Held × Result (Ring × ClaimResult)

abbrev when_created : Held × Result Mapping → Claimed
when_created (held, ok m) = (held, ok (view m, created))
when_created (held, err e) = (held, err e)

abbrev when_opened : Held × Result Mapping → Claimed
when_opened (held, ok m) = (held, ok (claim_control (view m), resumed))
when_opened (held, err e) = (held, err e)

-- `SharedRingBufferSPSC::claim`; `none` where no file exists at the path.
unfoldable pub claim_spsc : Calls → Held → Option (Memory × ℕ) → ℕ → Claimed
unfolding create_spsc open_spsc claim_control
claim_spsc calls held none capacity = when_created (create_spsc calls held capacity)
claim_spsc calls held (some (file, size)) capacity = when_opened (open_spsc calls held file size)

pub data RingClass : Type 0 where
  mpsc mpmc spsc : RingClass

abbrev pub create_as : RingClass → Calls → Held → ℕ → Held × Result Mapping
create_as mpsc = create_mpsc
create_as mpmc = create_mpmc
create_as spsc = create_spsc

abbrev pub open_as : RingClass → Calls → Held → Memory → ℕ → Held × Result Mapping
open_as mpsc = open_mpsc
open_as mpmc = open_mpmc
open_as spsc = open_spsc

abbrev flag_of : RingClass → ℕ
flag_of mpsc = flag_mpsc
flag_of mpmc = flag_mpmc
flag_of spsc = flag_spsc

create_as_lem :
    (made : RingClass) (calls : Calls) (h : Held) (n : ℕ)
    → create_as made calls h n ≡ create_mapping calls h n (flag_of made)
unfolding create_mpsc create_mpmc create_spsc
create_as_lem mpsc calls h n = refl
create_as_lem mpmc calls h n = refl
create_as_lem spsc calls h n = refl

open_as_lem :
    (asked : RingClass) (calls : Calls) (h : Held) (file : Memory) (size : ℕ)
    → open_as asked calls h file size ≡ open_mapping calls h file size (flag_of asked)
unfolding open_mpsc open_mpmc open_spsc
open_as_lem mpsc calls h file size = refl
open_as_lem mpmc calls h file size = refl
open_as_lem spsc calls h file size = refl

-- What opening gives, from the class that is asked for and the one that made the file.
abbrev pub answer : RingClass → RingClass → Held → Mapping → Held × Result Mapping
answer mpsc mpsc h m = (holding h, ok m)
answer mpmc mpmc h m = (holding h, ok m)
answer spsc spsc h m = (holding h, ok m)
answer mpsc mpmc h m = (h, err mode_mismatch)
answer mpsc spsc h m = (h, err mode_mismatch)
answer mpmc mpsc h m = (h, err mode_mismatch)
answer mpmc spsc h m = (h, err mode_mismatch)
answer spsc mpsc h m = (h, err mode_mismatch)
answer spsc mpmc h m = (h, err mode_mismatch)

answer_lem :
    (made asked : RingClass) (h : Held) (m : Mapping)
    → (if flag_of made == flag_of asked then (holding h, ok m) else (h, err mode_mismatch))
      ≡ answer made asked h m
answer_lem mpsc mpsc h m = refl
answer_lem mpmc mpmc h m = refl
answer_lem spsc spsc h m = refl
answer_lem mpsc mpmc h m = refl
answer_lem mpsc spsc h m = refl
answer_lem mpmc mpsc h m = refl
answer_lem mpmc spsc h m = refl
answer_lem spsc mpsc h m = refl
answer_lem spsc mpmc h m = refl

flag-small : (made : RingClass) → flag_of made < u64
flag-small mpsc = omega arith
flag-small mpmc = omega arith
flag-small spsc = omega arith

-- Of the three classes of byte rings each opens the files that it created, as the mapping that was
-- created, and no class opens a file of another: it throws the mode mismatch and holds nothing of the
-- file.
pub classes_apart :
    (made asked : RingClass) (h : Held) (n : ℕ)
    → 0 < n
    → n + 391 < u64
    → let m = new_mapping ((n + 7) / 8 * 8) (flag_of made) in
      (create_as made works h n ≡ (holding h, ok m))
      × (open_as asked works h m.file m.mapping_size ≡ answer made asked h m)
classes_apart made asked h n pos fits =
    let m = new_mapping ((n + 7) / 8 * 8) (flag_of made) in
    let c = create-open h n (flag_of made) (flag_of asked) pos fits (flag-small made) in
    (
      create_as_lem made works h n ∙ c.0,
      open_as_lem asked works h m.file m.mapping_size ∙ c.2 ∙ answer_lem made asked h m,
    )

-- A producer that claims a file with a ring in order gets that ring, with the messages that it holds
-- and the two counters of the producer equal.
pub claim_spsc-resumes :
    (calls : Calls) (h h' : Held) (file : Memory) (size capacity : ℕ) (m : Mapping) (ss : List Span)
    → open_mapping calls h file size flag_spsc ≡ (h', ok m)
    → Inv (view m) ss
    → (claim_spsc calls h (some (file, size)) capacity ≡ (h', ok (claim_control (view m), resumed)))
      × Inv (claim_control (view m)) ss
      × ((claim_control (view m)).tail_reserve ≡ (claim_control (view m)).tail_publish)
unfolding claim_spsc open_spsc
claim_spsc-resumes calls h h' file size capacity m ss e v =
    let c = claim_control-Inv (view m) ss v in (ap when_opened e, c.0, c.1)
