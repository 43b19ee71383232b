-- ===== src/SpscQueue/Open.antt =====
-- `SPSCQueue::create`, `open` and `claim` of include/lf_ring/spsc_queue.hpp.
use native.Mathlib.Decide.{ℕ_discrete as dec_eq}
use lock_free_ring_buffer.Prelude.{
  ℕ, ◌+◌, ◌*◌, ◌/◌, ◌%◌, ◌<◌, ◌≡◌, ◌≢◌, refl, sym, ap, ◌∙◌, arith, Option, none, some, ◌==◌, not,
  if◌then◌else◌, Bool-cases, inl, inr, eq→==, ne→==,
}
use lock_free_ring_buffer.Word.{u64}
use lock_free_ring_buffer.Memory.{Memory}
use lock_free_ring_buffer.Layout.{flag_fixed_spsc, ClaimResult, created, resumed}
use lock_free_ring_buffer.Mapping.{
  capacity_mismatch, Result, ok, err, Calls, Held, Mapping, create_mapping, open_mapping, view,
  release_on_error,
}
use lock_free_ring_buffer.Mapping.Open.{
  works, holding, new_mapping, empty_ring, create-open, released,
}

-- What a successful open returns is tested once more; a mapping that is dropped is released.
abbrev and_then : Held × Result Mapping → (Mapping → Result Mapping) → Held × Result Mapping
and_then (held, ok m) test = release_on_error held (test m)
and_then (held, err e) test = (held, err e)

-- `Capacity * sizeof(T)`
module _ (capacity sizeof_t : ℕ) where
  abbrev pub bytes_needed : ℕ
  bytes_needed = capacity * sizeof_t % u64

  unfoldable pub create : Calls → Held → Held × Result Mapping
  create calls held = create_mapping calls held bytes_needed flag_fixed_spsc

  unfoldable pub test_capacity : Mapping → Result Mapping
  test_capacity m = if not (m.capacity == bytes_needed) then err capacity_mismatch else ok m

  unfoldable pub open_queue : Calls → Held → Memory → ℕ → Held × Result Mapping
  unfolding test_capacity
  open_queue calls held file size =
      and_then (open_mapping calls held file size flag_fixed_spsc) test_capacity

  -- `none` where no file exists at the path.
  unfoldable pub claim : Calls → Held → Option (Memory × ℕ) → Held × Result Mapping × ClaimResult
  unfolding create open_queue
  claim calls held none = let (h, m) = create calls held in (h, m, created)
  claim calls held (some (file, size)) =
      let (h, m) = open_queue calls held file size in (h, m, resumed)

  abbrev pub room : ℕ
  room = (capacity * sizeof_t + 7) / 8 * 8

  abbrev pub new_queue : Mapping
  new_queue = new_mapping room flag_fixed_spsc

  exact : capacity * sizeof_t + 391 < u64 → bytes_needed ≡ capacity * sizeof_t
  exact fits = omega arith

  create_lem :
      (h : Held)
      → 0 < capacity * sizeof_t
      → capacity * sizeof_t + 391 < u64
      → create works h ≡ (holding h, ok new_queue)
  unfolding create
  create_lem h pos fits =
      ap (λ n. create_mapping works h n flag_fixed_spsc) (exact fits)
      ∙ (create-open h (capacity * sizeof_t) flag_fixed_spsc flag_fixed_spsc pos fits
          (omega arith)).0

  open_lem :
      (h : Held)
      → 0 < capacity * sizeof_t
      → capacity * sizeof_t + 391 < u64
      → open_queue works h new_queue.file new_queue.mapping_size
        ≡ release_on_error (holding h) (test_capacity new_queue)
  unfolding open_queue
  open_lem h pos fits =
      ap (λ r. and_then r test_capacity)
        (create-open h (capacity * sizeof_t) flag_fixed_spsc flag_fixed_spsc pos fits
          (omega arith)).2

  test_exact :
      capacity * sizeof_t + 391 < u64
      → capacity * sizeof_t % 8 ≡ 0
      → test_capacity new_queue ≡ ok new_queue
  unfolding test_capacity
  test_exact fits e = rw (eq→== room bytes_needed (omega arith))

  test_rounded :
      capacity * sizeof_t + 391 < u64
      → capacity * sizeof_t % 8 ≢ 0
      → test_capacity new_queue ≡ err capacity_mismatch
  unfolding test_capacity
  test_rounded fits ne = rw (ne→== room bytes_needed (omega arith))

  -- Creating a queue of one slot or more, when the system calls succeed, gives an empty ring of the
  -- bytes of its slots, rounded up to a multiple of eight. If they are such a multiple the file can
  -- be opened and claimed. Of any other queue neither is possible: both throw a capacity mismatch,
  -- and hold nothing.
  pub create-open_queue :
      (h : Held)
      → 0 < capacity * sizeof_t
      → capacity * sizeof_t + 391 < u64
      → let file = new_queue.file in
        let size = new_queue.mapping_size in
        let whole = capacity * sizeof_t % 8 == 0 in
        (create works h ≡ (holding h, ok new_queue))
        × (view new_queue ≡ empty_ring room)
        × (open_queue works h file size
            ≡ (if whole then (holding h, ok new_queue) else (h, err capacity_mismatch)))
        × (claim works h (some (file, size)) ≡ (
            if whole
            then (holding h, ok new_queue, resumed)
            else (h, err capacity_mismatch, resumed)))
  unfolding claim
  create-open_queue h pos fits = (
    create_lem h pos fits,
    (create-open h (capacity * sizeof_t) flag_fixed_spsc flag_fixed_spsc pos fits (omega arith)).1,
    opened,
    ap (λ (r : Held × Result Mapping). (r.0, r.1, resumed)) opened
        ∙ elim (Bool-cases (capacity * sizeof_t % 8 == 0)) [
          | inl whole ↦ rw whole refl
          | inr part ↦ rw part refl
        ],
  )
    where
      opened : open_queue works h new_queue.file new_queue.mapping_size ≡ (
          if capacity * sizeof_t % 8 == 0
          then (holding h, ok new_queue)
          else (h, err capacity_mismatch))
      opened = open_lem h pos fits ∙ elim (dec_eq (capacity * sizeof_t % 8) 0) [
        | yes whole ↦
            ap (release_on_error (holding h)) (test_exact fits whole)
            ∙ sym (rw (eq→== (capacity * sizeof_t % 8) 0 whole) refl)
        | no part ↦
            ap (release_on_error (holding h)) (test_rounded fits part)
            ∙ ap (λ k. (k, err capacity_mismatch)) (released h (err capacity_mismatch))
            ∙ sym (rw (ne→== (capacity * sizeof_t % 8) 0 part) refl)
      ]
