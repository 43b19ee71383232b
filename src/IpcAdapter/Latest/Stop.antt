-- ===== src/IpcAdapter/Latest/Stop.antt =====
-- The stop of a `SharedLatestSubscriber` (include/lf_ring/ipc_adapter.hpp): its thread returns.
use lock_free_ring_buffer.Prelude.{ℕ, ◌+◌, ◌≤◌, ◌≡◌, ◌⊎◌, false, List, [], ◌∷◌, ◌++◌}
use lock_free_ring_buffer.IpcAdapter.Latest.{
  Event, Place, unstarted, check, reading, loading, sleeping, exited, LatestSubscriber,
}
use lock_free_ring_buffer.IpcAdapter.Latest.Thread.{Act, write_value, step, starts, stops}

-- The steps to the return of a stopped thread.
abbrev to_go : Place → ℕ
to_go unstarted = 0
to_go exited = 0
to_go check = 1
to_go sleeping = 2
to_go loading = 3
to_go reading = 4

abbrev pub Started : Place → Type 0
Started unstarted = ⊥
Started exited = Unit
Started check = Unit
Started sleeping = Unit
Started loading = Unit
Started reading = Unit

-- At most one callback more.
abbrev pub OneMore : List Event → List Event → Type 0
OneMore es ds = (ds ≡ es) ⊎ ((e : Event) × (ds ≡ es ++ e ∷ []))

-- None, unless a read has begun.
abbrev pub MoreFrom : Place → List Event → List Event → Type 0
MoreFrom unstarted es ds = ds ≡ es
MoreFrom exited es ds = ds ≡ es
MoreFrom check es ds = ds ≡ es
MoreFrom sleeping es ds = ds ≡ es
MoreFrom loading es ds = OneMore es ds
MoreFrom reading es ds = OneMore es ds

-- What a step makes of a stopped thread at `p`.
record Nearer (p : Place) (s s' : LatestSubscriber) : Type 0 where
  stopped : s'.running ≡ false
  started : Started s'.thread
  nearer : to_go s'.thread + 1 ≤ to_go p ⊎ (to_go s'.thread ≡ 0)
  more : (ds : List Event) → MoreFrom s'.thread s'.calls ds → MoreFrom p s.calls ds

-- Writes of the publisher and steps of the thread, in any order.
abbrev pub OnlyWork : List Act → Type 0
OnlyWork [] = Unit
OnlyWork (write_value v t ∷ rest) = OnlyWork rest
OnlyWork (step t ∷ rest) = OnlyWork rest
OnlyWork (starts ∷ rest) = ⊥
OnlyWork (stops ∷ rest) = ⊥

abbrev pub count_steps : List Act → ℕ
count_steps [] = 0
count_steps (write_value v t ∷ rest) = count_steps rest
count_steps (step t ∷ rest) = count_steps rest + 1
count_steps (starts ∷ rest) = count_steps rest
count_steps (stops ∷ rest) = count_steps rest
