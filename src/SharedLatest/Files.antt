-- ===== src/SharedLatest/Files.antt =====
-- `create`, `open` and `claim` of include/lf_ring/shared_latest.hpp over files, and the wait for an
-- update.
use lock_free_ring_buffer.Prelude.{
  ℕ, ◌-◌, ◌<◌, ◌≡◌, refl, ap, ◌∙◌, Bool, Option, none, some, List, [], ◌∷◌, ◌++◌, lt→ltb,
}
use lock_free_ring_buffer.Memory.{Memory}
use lock_free_ring_buffer.Layout.{flag_latest, created, required_mapping_size}
use lock_free_ring_buffer.Ring.{Ring}
use lock_free_ring_buffer.Mapping.{
  MapError, mode_mismatch, Result, ok, err, Calls, Held, Mapping, create_mapping, open_mapping,
  view,
}
use lock_free_ring_buffer.Mapping.Open.{
  holding, Balanced, create_mapping-Balanced, open_mapping-Balanced, released, Nonempty,
  open_mapping-Nonempty,
}
use lock_free_ring_buffer.Mapping.Handle.{
  Handle, SystemCall, munmap, close, move_construct, move_assign, destroy, reset,
}
use lock_free_ring_buffer.SharedLatest.Claim.{Claimed, claim-Claimed}
use lock_free_ring_buffer.SharedLatest.{ClaimOutcome, claimed, live_writer, lost_race, claim}
use lock_free_ring_buffer.Futex.{Kernel, futex_wait_timeout}

-- A claim ends with an error of the mapping, or as the claim of the slot does.
pub data FileOutcome : Type 0 where
  unmapped : MapError → FileOutcome
  decided : ClaimOutcome → FileOutcome

-- `sizeof(T)`
module _ (sizeof_t : ℕ) where
  unfoldable pub create : Calls → Held → Held × Result Mapping
  create calls held = create_mapping calls held sizeof_t flag_latest

  unfoldable pub open_latest : Calls → Held → Memory → ℕ → Held × Result Mapping
  open_latest calls held file size = open_mapping calls held file size flag_latest

  unfoldable pub required_size : ℕ
  unfolding required_mapping_size
  required_size = required_mapping_size sizeof_t

abbrev destroyed : Held → Held
destroyed held = record held { fds = held.fds - 1; maps = held.maps - 1 }

-- The local `mapping` of `claim`, as the owner of what open_mapping acquired: its descriptor and its
-- address go by how many were held.
abbrev local_mapping : Held → Mapping → Handle
local_mapping held m = record {
  fd = some held.fds;
  mapping = some held.maps;
  mapping_size = m.mapping_size;
  header = some 0;
  control = some m.control_offset;
  ring = some m.ring_offset;
  capacity = m.capacity;
}

-- What is held after the system calls of a destructor.
unfoldable pub held_after : List SystemCall → Held → Held
held_after [] held = held
held_after (munmap address size ∷ calls) held =
    held_after calls (record held { maps = held.maps - 1 })
held_after (close fd ∷ calls) held = held_after calls (record held { fds = held.fds - 1 })

-- `return SharedLatest(std::move(mapping))` moves it to the result, which lives on, and then destroys
-- the local one.
unfoldable pub return_mapping : Handle → Held → Held
unfolding held_after move_construct destroy
return_mapping local held =
    let (result, rest, calls) = move_construct local in held_after (calls ++ destroy rest) held

-- A throw destroys the local one as it is.
unfoldable pub unwind : Handle → Held → Held
unfolding held_after destroy
unwind local held = held_after (destroy local) held

unfoldable pub leave_claim : Handle → Held → ClaimOutcome → Held × FileOutcome
unfolding return_mapping unwind
leave_claim local held (claimed r c) = (return_mapping local held, decided (claimed r c))
leave_claim local held live_writer = (unwind local held, decided live_writer)
leave_claim local held lost_race = (unwind local held, decided lost_race)

abbrev when_created : Held × Result Mapping → Held × FileOutcome
when_created (held, ok m) = (held, decided (claimed (view m) created))
when_created (held, err e) = (held, unmapped e)

unfoldable when_opened : (Ring → Ring) → ℕ → ℕ → Held × Result Mapping → Held × FileOutcome
unfolding leave_claim claim view
when_opened meanwhile now threshold (held, ok m) =
    leave_claim (local_mapping held m) held (claim (view m) (meanwhile (view m)) now threshold)
when_opened meanwhile now threshold (held, err e) = (held, unmapped e)

-- `none` where no file exists at the path; `meanwhile` is what other processes do to the slot between
-- the loads and the exchange.
unfoldable pub claim_file :
    ℕ → Calls → Held → Option (Memory × ℕ) → (Ring → Ring) → ℕ → ℕ → Held × FileOutcome
unfolding create open_latest when_opened
claim_file sizeof_t calls held none meanwhile now threshold =
    when_created (create sizeof_t calls held)
claim_file sizeof_t calls held (some (file, size)) meanwhile now threshold =
    when_opened meanwhile now threshold (open_latest sizeof_t calls held file size)

-- `wait_for_update`: the futex word is the lower half of `tail_publish`.
unfoldable pub wait_for_update : {K : Type 0} → Kernel K → K → Ring → ℕ → ℕ → K × Option Bool
wait_for_update kernel k q last_seen timeout =
    futex_wait_timeout kernel k q.tail_publish last_seen timeout

-- What is held after a claim that ends so: one descriptor and one mapping more, or what was.
abbrev pub HeldAfter : Held → ClaimOutcome → Held → Type 0
HeldAfter h (claimed r c) h' = h' ≡ holding h
HeldAfter h live_writer h' = h' ≡ h
HeldAfter h lost_race h' = h' ≡ h

-- How a claim ends whose create_mapping gave `r`.
abbrev pub EndsCreated : Held → Held × Result Mapping → Held × FileOutcome → Type 0
EndsCreated h r (h', unmapped e) = (r.1 ≡ err e) × (h' ≡ h)
EndsCreated h r (h', decided o) =
    (m : Mapping) × (r.1 ≡ ok m) × (o ≡ claimed (view m) created) × HeldAfter h o h'

-- How one ends whose open_mapping gave `r`.
abbrev pub EndsOpened :
    Held → (Ring → Ring) → ℕ → ℕ → Held × Result Mapping → Held × FileOutcome → Type 0
EndsOpened h meanwhile now threshold r (h', unmapped e) = (r.1 ≡ err e) × (h' ≡ h)
EndsOpened h meanwhile now threshold r (h', decided o) =
    (m : Mapping) × (r.1 ≡ ok m)
    × Claimed (view m) (meanwhile (view m)) now threshold o
    × HeldAfter h o h'

abbrev pub Ends :
    ℕ → Calls → Held → Option (Memory × ℕ) → (Ring → Ring) → ℕ → ℕ → Held × FileOutcome → Type 0
Ends sizeof_t calls h none meanwhile now threshold result =
    EndsCreated h (create sizeof_t calls h) result
Ends sizeof_t calls h (some (file, size)) meanwhile now threshold result =
    EndsOpened h meanwhile now threshold (open_latest sizeof_t calls h file size) result

created-Ends :
    (h : Held) (r : Held × Result Mapping) → Balanced h r → EndsCreated h r (when_created r)
created-Ends h (h', ok m) b = (m, refl, refl, b)
created-Ends h (h', err e) b = (refl, b)

returned_lem : (local : Handle) (h : Held) → return_mapping local h ≡ h
unfolding return_mapping held_after move_construct move_assign destroy reset
returned_lem local h = refl

unwound_lem :
    (h held : Held) (m : Mapping)
    → 0 < m.mapping_size
    → held ≡ holding h
    → unwind (local_mapping held m) held ≡ h
unfolding unwind held_after destroy reset
unwound_lem h held m some_size b =
    rw (lt→ltb 0 m.mapping_size some_size) (ap destroyed b ∙ released h (err mode_mismatch))

left-Ends :
    (h held : Held) (m : Mapping) (meanwhile : Ring → Ring) (now threshold : ℕ) (o : ClaimOutcome)
    → 0 < m.mapping_size
    → held ≡ holding h
    → Claimed (view m) (meanwhile (view m)) now threshold o
    → EndsOpened h meanwhile now threshold (held, ok m) (leave_claim (local_mapping held m) held o)
unfolding leave_claim
left-Ends h held m meanwhile now threshold (claimed r c) some_size b told =
    (m, refl, told, returned_lem (local_mapping held m) held ∙ b)
left-Ends h held m meanwhile now threshold live_writer some_size b told =
    (m, refl, told, unwound_lem h held m some_size b)
left-Ends h held m meanwhile now threshold lost_race some_size b told =
    (m, refl, told, unwound_lem h held m some_size b)

opened-Ends :
    (h : Held) (r : Held × Result Mapping) (meanwhile : Ring → Ring) (now threshold : ℕ)
    → Balanced h r
    → Nonempty r.1
    → EndsOpened h meanwhile now threshold r (when_opened meanwhile now threshold r)
unfolding when_opened
opened-Ends h (held, err e) meanwhile now threshold b some_size = (refl, b)
opened-Ends h (held, ok m) meanwhile now threshold b some_size =
    left-Ends h held m meanwhile now threshold (claim (view m) (meanwhile (view m)) now threshold)
      some_size b (claim-Claimed (view m) (meanwhile (view m)) now threshold)

-- Whichever system call fails, whatever the file holds and whatever other processes do to the slot
-- between the loads of a `claim` and its exchange: where no file is, the claim ends as create_mapping
-- does; where one is and cannot be opened, with the error of open_mapping; and else as the claim of the
-- slot in the file does. One that throws leaves no descriptor and no mapping behind, and one that
-- succeeds holds one of each.
pub claim_file-Ends :
    (sizeof_t : ℕ) (calls : Calls) (h : Held) (file : Option (Memory × ℕ)) (meanwhile : Ring → Ring)
    (now threshold : ℕ)
    → Ends sizeof_t calls h file meanwhile now threshold
        (claim_file sizeof_t calls h file meanwhile now threshold)
unfolding claim_file create open_latest
claim_file-Ends sizeof_t calls h none meanwhile now threshold =
    created-Ends h _ (create_mapping-Balanced calls h sizeof_t flag_latest)
claim_file-Ends sizeof_t calls h (some (file, size)) meanwhile now threshold =
    opened-Ends h _ meanwhile now threshold (open_mapping-Balanced calls h file size flag_latest)
      (open_mapping-Nonempty calls h file size flag_latest)
