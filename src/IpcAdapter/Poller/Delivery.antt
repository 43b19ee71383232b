-- ===== src/IpcAdapter/Poller/Delivery.antt =====
-- The callback is given each accepted value once, in order, and after a stop none is missing.
use lock_free_ring_buffer.Prelude.{
  ℕ, zero, suc, ◌+◌, ◌≤◌, ◌≡◌, refl, sym, ap, subst, ◌∙◌, arith, Bool, true, false, List, [], ◌∷◌,
  ◌++◌, append-nil, append_assoc, length, if◌then◌else◌,
}
use lock_free_ring_buffer.IpcAdapter.Poller.{
  Channel, unstarted, check, exited, Subscriber, start, request_stop, tick, ticks, Event, publish,
  turn, run, note,
}
use lock_free_ring_buffer.IpcAdapter.Poller.Phases.{
  Loops, budget, Settled, Loops-Settled, over_budget, budget-le,
}
use lock_free_ring_buffer.IpcAdapter.Poller.Steps.{all_of, tick-Kept, tick-Loops, tick-Closer}

module _ {Q M : Type 0} (c : Channel Q M) where
  -- What a stopped thread ends with.
  pub record Ended (given : List M) (s : Subscriber Q M) : Type 0 where
    pub returned : s.thread ≡ exited
    pub emptied : c.contents s.queue ≡ []
    pub all_delivered : s.delivered ≡ given

  ticks-Ended :
      (k : ℕ) (s : Subscriber Q M)
      → c.Good s.queue
      → s.running ≡ false
      → Settled s.thread (c.contents s.queue ≡ [])
      → budget s.thread (length (c.contents s.queue)) ≤ k
      → Ended (all_of c s) (ticks c k s)
  unfolding ticks tick
  ticks-Ended zero s g off w h =
      let (e, none_left) =
        over_budget s.thread (c.contents s.queue ≡ []) (length (c.contents s.queue)) h w in
      record {
        returned = e;
        emptied = none_left;
        all_delivered = sym (ap (λ ms. s.delivered ++ ms) none_left ∙ append-nil s.delivered);
      }
  ticks-Ended (suc k) s g off w h =
      let kept = tick-Kept c s s.thread g in
      let (near, settled) = tick-Closer c s s.thread g off refl w in
      subst (λ ms. Ended ms (ticks c k (tick c s))) kept.nothing_lost
        (ticks-Ended k (tick c s) kept.good (kept.flag_same ∙ off) settled (omega (arith, near)))

  -- The published values have the size of the queue's slots.
  abbrev pub EachSized : List (Event M) → Type 0
  EachSized [] = Unit
  EachSized (publish m ∷ es) = c.Sized m × EachSized es
  EachSized (turn ∷ es) = EachSized es

  pub record Ran (s : Subscriber Q M) (result : Subscriber Q M × List M) : Type 0 where
    pub good : c.Good result.0.queue
    pub on : result.0.running ≡ true
    pub loops : Loops result.0.thread
    pub everything : all_of c result.0 ≡ all_of c s ++ result.1

  noted :
      (s : Subscriber Q M) (q : Q) (b : Bool) (m : M) (ms : List M)
      → c.contents q ≡ (if b then c.contents s.queue ++ m ∷ [] else c.contents s.queue)
      → s.delivered ++ c.contents q ++ ms ≡ all_of c s ++ note c b m ms
  noted s q true m ms e =
      ap (λ xs. s.delivered ++ xs ++ ms) e
      ∙ ap (λ xs. xs ++ ms) (sym (append_assoc s.delivered (c.contents s.queue) (m ∷ [])))
      ∙ append_assoc (all_of c s) (m ∷ []) ms
  noted s q false m ms e = ap (λ xs. s.delivered ++ xs ++ ms) e

  run-Ran :
      (s : Subscriber Q M) (es : List (Event M))
      → c.Good s.queue
      → s.running ≡ true
      → Loops s.thread
      → EachSized es
      → Ran s (run c s es)
  unfolding run tick
  run-Ran s [] g on l sized = record {
    good = g;
    on = on;
    loops = l;
    everything = sym (append-nil (all_of c s));
  }
  run-Ran s (publish m ∷ es) g on l sized =
      let q = (c.push s.queue m).0 in
      let r = run-Ran (record s { queue = q }) es (c.push_good s.queue m g sized.0) on l sized.1 in
      record {
        good = r.good;
        on = r.on;
        loops = r.loops;
        everything =
            r.everything
            ∙ noted s q (c.push s.queue m).1 m (run c (record s { queue = q }) es).1
                (c.push_contents s.queue m g sized.0);
      }
  run-Ran s (turn ∷ es) g on l sized =
      let kept = tick-Kept c s s.thread g in
      let r =
        run-Ran (tick c s) es kept.good (kept.flag_same ∙ on) (tick-Loops c s s.thread on l)
          sized in
      record {
        good = r.good;
        on = r.on;
        loops = r.loops;
        everything = r.everything ∙ ap (λ ms. ms ++ (run c (tick c s) es).1) kept.nothing_lost;
      }

  abbrev pub new_subscriber : Q → Subscriber Q M
  new_subscriber q = record { queue = q; running = false; thread = unstarted; delivered = [] }

  -- A subscriber that is started over an empty queue in order, and stopped after any sequence of
  -- pushes of the publisher and steps of its thread, returns from its thread after at most as many
  -- steps as the queue still holds values, and four. The callback has then been given exactly the
  -- values that the queue accepted, each once, in order, and the queue is empty.
  pub delivered_after_stop :
      (q : Q) (es : List (Event M))
      → c.Good q
      → c.contents q ≡ []
      → EachSized es
      → let (s, accepted) = run c (start c (new_subscriber q)) es in
        Ended accepted (ticks c (length (c.contents s.queue) + 4) (request_stop c s))
  unfolding start request_stop
  delivered_after_stop q es g none_yet sized =
      let s₀ : Subscriber Q M = record {
        queue = q;
        running = true;
        thread = check;
        delivered = [];
      } in
      let r = run-Ran s₀ es g refl tt sized in
      let s = (run c s₀ es).0 in
      rw r.on (
        subst
          (λ ms.
            Ended ms (ticks c (length (c.contents s.queue) + 4) (record s { running = false })))
          (r.everything ∙ ap (λ ms. ms ++ (run c s₀ es).1) none_yet)
          (ticks-Ended (length (c.contents s.queue) + 4) (record s { running = false }) r.good refl
            (Loops-Settled s.thread (c.contents s.queue ≡ []) r.loops)
            (budget-le s.thread (length (c.contents s.queue)))))
