-- ===== src/SharedLatest.antt =====
-- include/lf_ring/shared_latest.hpp: `SharedLatest<T>`, the latest value of one writer for many
-- readers. A value of T is the list of its bytes; the clock's readings are arguments. The sequence
-- number stands in `sequence`, the heartbeat in `head_reserve`, the notification counter in
-- `tail_publish`. Here each call is a function of what it loads; `Seqlock` interleaves them.
pub mod Seqlock
pub mod Status
pub mod Claim
pub mod Read
pub mod Files
use Prim.Native.Nat.{bit_and}
use lock_free_ring_buffer.Prelude.{
  ℕ, zero, suc, ◌+◌, ◌%◌, Bool, true, false, not, ◌&&◌, List, Option, none, some, ltb, ◌==◌,
  if◌then◌else◌,
}
use lock_free_ring_buffer.Word.{u32, ◌+w◌, ◌-w◌}
use lock_free_ring_buffer.Memory.{Memory, store_bytes}
use lock_free_ring_buffer.Layout.{ControlBlock, ClaimResult, resumed, recovered}
use lock_free_ring_buffer.Ring.{Ring}

pub data ReadResult : Type 0 where
  success empty contended writer_dead : ReadResult

-- `write` with no reader in between.
unfoldable pub write : Ring → List ℕ → ℕ → Ring
write q value now = record q {
  control = record c { sequence = q.sequence +w 2; head_reserve = now };
  bytes = store_bytes q.bytes 0 value;
}
  where
    c : ControlBlock
    c = q.control

unfoldable pub write_and_notify : Ring → List ℕ → ℕ → Ring
unfolding write
write_and_notify q value now = record (write q value now) {
  control = record c { tail_publish = c.tail_publish +w 1 };
}
  where
    c : ControlBlock
    c = (write q value now).control

-- `futex_load` of the lower half of the counter.
unfoldable pub notify_counter : Ring → ℕ
notify_counter q = q.tail_publish % u32

unfoldable pub is_writer_alive : Ring → ℕ → ℕ → Bool
is_writer_alive q now threshold =
    if q.head_reserve == 0 then false else ltb (now -w q.head_reserve) threshold

-- What one round of the loop of the second `try_read` loads, whoever changed it meanwhile.
pub record Look : Type 0 where
  pub s₁ : ℕ
  pub copy : List ℕ
  pub s₂ : ℕ
  pub heartbeat : ℕ
  pub now : ℕ

-- `hb != 0u && (now - hb) > threshold`
abbrev pub is_stale : ℕ → Look → Bool
is_stale threshold l = not (l.heartbeat == 0) && ltb threshold (l.now -w l.heartbeat)

-- The rounds from `i` on; the option is what was copied to `out` on success.
unfoldable pub read_rounds : ℕ → (ℕ → Look) → ℕ → ℕ → ReadResult × Option (List ℕ)
read_rounds threshold looks zero i = (contended, none)
read_rounds threshold looks (suc fuel) i =
    let rest = read_rounds threshold looks fuel (i + 1) in
    let l = looks i in
    if not (bit_and l.s₁ 1 == 0)
    then if bit_and i 0x3F == 0x3F && is_stale threshold l then (writer_dead, none) else rest
    else if l.s₁ == l.s₂
    then (success, some l.copy)
    else rest

-- The second `try_read`: `first` is the number that it loads before the loop.
unfoldable pub try_read_status : ℕ → ℕ → (ℕ → Look) → ℕ → ReadResult × Option (List ℕ)
unfolding read_rounds
try_read_status first threshold looks max_retries =
    if first == 0 then (empty, none) else read_rounds threshold looks max_retries 0

-- `claim` on an existing file.
pub data ClaimOutcome : Type 0 where
  claimed : Ring → ClaimResult → ClaimOutcome
  live_writer : ClaimOutcome
  lost_race : ClaimOutcome

-- The slot after a recovery at the time `now`.
unfoldable pub recover : Ring → ℕ → Ring
recover q now = record q {
  control = record c { head_reserve = now; sequence = 0; tail_publish = q.tail_publish +w 1 };
  bytes = λ i. if ltb i q.capacity then 0 else q.bytes i;
}
  where
    c : ControlBlock
    c = q.control

-- `seen` is the slot when its number and heartbeat are loaded, and `at_cas` the slot when the
-- heartbeat is exchanged.
unfoldable pub claim : Ring → Ring → ℕ → ℕ → ClaimOutcome
unfolding recover
claim seen at_cas now threshold =
    if bit_and seen.sequence 1 == 0
    then claimed (record at_cas { control = record c { head_reserve = now } }) resumed
    else if not (seen.head_reserve == 0) && ltb (now -w seen.head_reserve) threshold
    then live_writer
    else if not (at_cas.head_reserve == seen.head_reserve)
    then lost_race
    else claimed (recover at_cas now) recovered
  where
    c : ControlBlock
    c = at_cas.control
