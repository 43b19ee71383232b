-- ===== src/IpcAdapter/Poller/Phases.antt =====
-- The places of the thread in `poll_loop` (include/lf_ring/ipc_adapter.hpp), and how far each is from
-- the end after a stop: the same for the subscriber of a queue and for that of a byte ring.
use lock_free_ring_buffer.Prelude.{ℕ, ◌+◌, ◌≤◌, ◌≡◌, refl, arith}
use lock_free_ring_buffer.IpcAdapter.Poller.{
  Phase, unstarted, check, draining, sleeping, final, exited,
}

-- In its loop: started, and not told to stop.
abbrev pub Loops : Phase → Type 0
Loops unstarted = ⊥
Loops check = Unit
Loops (draining g) = Unit
Loops sleeping = Unit
Loops final = ⊥
Loops exited = ⊥

-- The steps that a stopped thread has left, with `n` values to deliver.
abbrev pub budget : Phase → ℕ → ℕ
budget unstarted n = 0
budget check n = n + 2
budget (draining g) n = n + 4
budget sleeping n = n + 3
budget final n = n + 1
budget exited n = 0

-- A thread that has been started, and that has left nothing if it has returned.
abbrev pub Settled : Phase → Type 0 → Type 0
Settled unstarted Emptied = ⊥
Settled check Emptied = Unit
Settled (draining g) Emptied = Unit
Settled sleeping Emptied = Unit
Settled final Emptied = Unit
Settled exited Emptied = Emptied

pub Loops-Settled : (p : Phase) (Emptied : Type 0) → Loops p → Settled p Emptied
Loops-Settled unstarted Emptied l = elim l [ ]
Loops-Settled final Emptied l = elim l [ ]
Loops-Settled exited Emptied l = elim l [ ]
Loops-Settled check Emptied l = tt
Loops-Settled (draining g) Emptied l = tt
Loops-Settled sleeping Emptied l = tt

pub over_budget :
    (p : Phase) (Emptied : Type 0) (n : ℕ)
    → budget p n ≤ 0
    → Settled p Emptied
    → (p ≡ exited) × Emptied
over_budget unstarted Emptied n h w = elim w [ ]
over_budget check Emptied n h w = absurd (omega arith)
over_budget (draining g) Emptied n h w = absurd (omega arith)
over_budget sleeping Emptied n h w = absurd (omega arith)
over_budget final Emptied n h w = absurd (omega arith)
over_budget exited Emptied n h w = (refl, w)

pub budget-le : (p : Phase) (n : ℕ) → budget p n ≤ n + 4
budget-le unstarted n = omega arith
budget-le check n = omega arith
budget-le (draining g) n = omega arith
budget-le sleeping n = omega arith
budget-le final n = omega arith
budget-le exited n = omega arith
