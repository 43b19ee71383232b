-- ===== src/IpcAdapter/Poller/Steps.antt =====
-- One step of the thread of `SpscSubscriber` (include/lf_ring/ipc_adapter.hpp): nothing is lost, a
-- thread that is not stopped stays in its loop, and one that is comes closer to its end.
use lock_free_ring_buffer.Prelude.{
  ℕ, ◌+◌, ◌≤◌, ◌≡◌, refl, sym, ap, subst, ◌-◌, ◌∙◌, arith, Bool, true, false, not, List, [], ◌∷◌,
  ◌++◌, append_assoc, length, Option, none, some, if◌then◌else◌,
}
use lock_free_ring_buffer.IpcAdapter.Poller.{
  Channel, prepend, Phase, unstarted, check, draining, sleeping, final, exited, Subscriber, handed,
  tick_at,
}
use lock_free_ring_buffer.IpcAdapter.Poller.Phases.{Loops, budget, Settled}

module _ {Q M : Type 0} (c : Channel Q M) where
  abbrev pub all_of : Subscriber Q M → List M
  all_of s = s.delivered ++ c.contents s.queue

  -- A pop moves a value from the queue to the delivered ones.
  handed-all_of :
      (s : Subscriber Q M) (more over : Phase) (out : Q × Option M)
      → c.contents s.queue ≡ prepend out.1 (c.contents out.0)
      → all_of (handed c s more over out) ≡ all_of s
  handed-all_of s more over (q, none) e = ap (λ ms. s.delivered ++ ms) (sym e)
  handed-all_of s more over (q, some m) e =
      append_assoc s.delivered (m ∷ []) (c.contents q) ∙ ap (λ ms. s.delivered ++ ms) (sym e)

  handed_queue :
      (s : Subscriber Q M) (more over : Phase) (out : Q × Option M)
      → (handed c s more over out).queue ≡ out.0
  handed_queue s more over (q, none) = refl
  handed_queue s more over (q, some m) = refl

  handed_running :
      (s : Subscriber Q M) (more over : Phase) (out : Q × Option M)
      → (handed c s more over out).running ≡ s.running
  handed_running s more over (q, none) = refl
  handed_running s more over (q, some m) = refl

  -- What holds of the subscriber at any time.
  pub record Kept (s : Subscriber Q M) (t : Subscriber Q M) : Type 0 where
    pub good : c.Good t.queue
    pub nothing_lost : all_of t ≡ all_of s
    pub flag_same : t.running ≡ s.running

  handed-Kept :
      (s : Subscriber Q M) (more over : Phase)
      → c.Good s.queue
      → Kept s (handed c s more over (c.pop s.queue))
  handed-Kept s more over g = record {
    good = subst c.Good (sym (handed_queue s more over (c.pop s.queue))) (c.pop_good s.queue g);
    nothing_lost = handed-all_of s more over (c.pop s.queue) (c.pop_contents s.queue g);
    flag_same = handed_running s more over (c.pop s.queue);
  }

  pub tick-Kept : (s : Subscriber Q M) (p : Phase) → c.Good s.queue → Kept s (tick_at c p s)
  unfolding tick_at
  tick-Kept s unstarted g = record { good = g; nothing_lost = refl; flag_same = refl }
  tick-Kept s check g = record { good = g; nothing_lost = refl; flag_same = refl }
  tick-Kept s (draining got_any) g =
      handed-Kept s (draining true) (if not got_any then sleeping else check) g
  tick-Kept s sleeping g = record { good = g; nothing_lost = refl; flag_same = refl }
  tick-Kept s final g = handed-Kept s final exited g
  tick-Kept s exited g = record { good = g; nothing_lost = refl; flag_same = refl }

  handed-Loops :
      (s : Subscriber Q M) (more over : Phase) (out : Q × Option M)
      → Loops more
      → Loops over
      → Loops (handed c s more over out).thread
  handed-Loops s more over (q, none) a b = b
  handed-Loops s more over (q, some m) a b = a

  -- While nobody stops it the thread stays in its loop.
  pub tick-Loops :
      (s : Subscriber Q M) (p : Phase) → s.running ≡ true → Loops p → Loops (tick_at c p s).thread
  unfolding tick_at
  tick-Loops s unstarted on l = elim l [ ]
  tick-Loops s final on l = elim l [ ]
  tick-Loops s exited on l = elim l [ ]
  tick-Loops s check on l = rw on tt
  tick-Loops s (draining true) on l = handed-Loops s (draining true) check (c.pop s.queue) tt tt
  tick-Loops s (draining false) on l = handed-Loops s (draining true) sleeping (c.pop s.queue) tt tt
  tick-Loops s sleeping on l = tt

  -- A step of a stopped thread brings its end closer.
  abbrev pub Closer : ℕ → Subscriber Q M → Type 0
  Closer n t =
      (budget t.thread (length (c.contents t.queue)) ≤ n)
      × Settled t.thread (c.contents t.queue ≡ [])

  draining-Closer :
      (s : Subscriber Q M) (g : Bool) (out : Q × Option M)
      → c.contents s.queue ≡ prepend out.1 (c.contents out.0)
      → Closer
          (length (c.contents s.queue) + 3)
          (handed c s (draining true) (if not g then sleeping else check) out)
  draining-Closer s true (q, none) e = (omega (arith, ap length e), tt)
  draining-Closer s false (q, none) e = (omega (arith, ap length e), tt)
  draining-Closer s g (q, some m) e = (omega (arith, ap length e), tt)

  final-Closer :
      (s : Subscriber Q M) (out : Q × Option M)
      → c.contents s.queue ≡ prepend out.1 (c.contents out.0)
      → (out.1 ≡ none → c.contents s.queue ≡ [])
      → Closer (length (c.contents s.queue)) (handed c s final exited out)
  final-Closer s (q, none) e over = (omega arith, sym e ∙ over refl)
  final-Closer s (q, some m) e over = (omega (arith, ap length e), tt)

  pub tick-Closer :
      (s : Subscriber Q M) (p : Phase)
      → c.Good s.queue
      → s.running ≡ false
      → s.thread ≡ p
      → Settled p (c.contents s.queue ≡ [])
      → Closer (budget p (length (c.contents s.queue)) - 1) (tick_at c p s)
  unfolding tick_at
  tick-Closer s unstarted g off e w = elim w [ ]
  tick-Closer s check g off e w = rw off (omega arith, tt)
  tick-Closer s (draining got_any) g off e w =
      let (near, settled) = draining-Closer s got_any (c.pop s.queue) (c.pop_contents s.queue g) in
      (omega (arith, near), settled)
  tick-Closer s sleeping g off e w = (omega arith, tt)
  tick-Closer s final g off e w =
      let (near, settled) =
        final-Closer s (c.pop s.queue) (c.pop_contents s.queue g) (c.pop_none s.queue g) in
      (omega (arith, near), settled)
  tick-Closer s exited g off e w =
      subst
        (λ p.
          (budget p (length (c.contents s.queue)) ≤ 0 - 1) × Settled p (c.contents s.queue ≡ []))
        (sym e) (omega arith, w)
