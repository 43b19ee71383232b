-- ===== src/IpcAdapter/Bytes/Stop.antt =====
-- A byte subscriber that is stopped delivers what its ring still holds.
use lock_free_ring_buffer.Prelude.{
  ℕ, zero, suc, ◌+◌, ◌-◌, ◌≤◌, ◌≡◌, refl, sym, ap, ◌∙◌, subst, true, false, not, List, [], ◌∷◌,
  ◌++◌, length, some, if◌then◌else◌, append-nil, append_assoc, arith,
}
use lock_free_ring_buffer.Record.{Message}
use lock_free_ring_buffer.Ring.Spans.{Span, messages}
use lock_free_ring_buffer.Ring.Inv.{Inv}
use lock_free_ring_buffer.Ring.Loop.{fill_out}
use lock_free_ring_buffer.Spsc.{try_pop}
use lock_free_ring_buffer.Spsc.Pop.{taken, left, try_pop_refines}
use lock_free_ring_buffer.IpcAdapter.{Delivery}
use lock_free_ring_buffer.IpcAdapter.Drain.{deliveries}
use lock_free_ring_buffer.IpcAdapter.Poller.{
  Phase, unstarted, check, draining, sleeping, final, exited,
}
use lock_free_ring_buffer.IpcAdapter.Poller.Phases.{
  Loops, budget, Settled, Loops-Settled, over_budget, budget-le,
}
use lock_free_ring_buffer.IpcAdapter.Bytes.{
  ByteSubscriber, request_stop, handed, tick_at, tick, ticks,
}

-- What a stopped thread ends with.
pub record Ended (given : List Delivery) (s : ByteSubscriber) : Type 0 where
  pub returned : s.thread ≡ exited
  pub spans : List Span
  pub inv : Inv s.ring spans
  pub emptied : messages spans ≡ []
  pub all_delivered : s.delivered ≡ given

abbrev all_of : ByteSubscriber → List Message → List Delivery
all_of s ms = s.delivered ++ deliveries s.buf ms

-- A step, after which `n` are enough.
record Goes (n : ℕ) (s : ByteSubscriber) (ms : List Message) (t : ByteSubscriber) : Type 0 where
  spans : List Span
  rest : List Message
  inv : Inv t.ring spans
  held : messages spans ≡ rest
  off : t.running ≡ false
  settled : Settled t.thread (rest ≡ [])
  near : budget t.thread (length rest) ≤ n
  same : all_of t rest ≡ all_of s ms

handed_none-Goes :
    (n : ℕ) (s : ByteSubscriber) (ss : List Span) (more over : Phase)
    → Inv s.ring ss
    → messages ss ≡ []
    → s.running ≡ false
    → Settled over (◌≡◌ {A = List Message} [] [])
    → budget over 0 ≤ n
    → Goes n s [] (handed s more over (try_pop s.ring s.buf))
handed_none-Goes n s ss more over v e off settled near =
    let d = try_pop_refines s.ring ss s.buf v in
    subst (λ z. Goes n s [] (handed s more over z))
      (sym (d.returned ∙ ap (λ ms. some (d.final, taken s.buf ms)) e))
      (record {
        spans = d.spans;
        rest = [];
        inv = d.inv;
        held = d.contents ∙ ap left e;
        off = off;
        settled = settled;
        near = near;
        same = refl;
      })

handed_some-Goes :
    (n : ℕ) (s : ByteSubscriber) (ss : List Span) (m : Message) (ms : List Message)
    (more over : Phase)
    → Inv s.ring ss
    → messages ss ≡ m ∷ ms
    → s.running ≡ false
    → Settled more (ms ≡ [])
    → budget more (length ms) ≤ n
    → Goes n s (m ∷ ms) (handed s more over (try_pop s.ring s.buf))
handed_some-Goes n s ss m ms more over v e off settled near =
    let d = try_pop_refines s.ring ss s.buf v in
    subst (λ z. Goes n s (m ∷ ms) (handed s more over z))
      (sym (d.returned ∙ ap (λ ms. some (d.final, taken s.buf ms)) e))
      (record {
        spans = d.spans;
        rest = ms;
        inv = d.inv;
        held = d.contents ∙ ap left e;
        off = off;
        settled = settled;
        near = near;
        same =
            append_assoc s.delivered ((fill_out s.buf m.payload, m.type) ∷ [])
              (deliveries (fill_out s.buf m.payload) ms);
      })

tick-Goes :
    (s : ByteSubscriber) (p : Phase) (ss : List Span) (ms : List Message)
    → Inv s.ring ss
    → messages ss ≡ ms
    → s.running ≡ false
    → s.thread ≡ p
    → Settled p (ms ≡ [])
    → Goes (budget p (length ms) - 1) s ms (tick_at p s)
unfolding tick_at
tick-Goes s unstarted ss ms v e off at w = elim w [ ]
tick-Goes s check ss ms v e off at w = rw off (record {
  spans = ss;
  rest = ms;
  inv = v;
  held = e;
  off = refl;
  settled = tt;
  near = omega arith;
  same = refl;
})
tick-Goes s (draining true) ss [] v e off at w =
    handed_none-Goes _ s ss (draining true) check v e off tt (omega arith)
tick-Goes s (draining false) ss [] v e off at w =
    handed_none-Goes _ s ss (draining true) sleeping v e off tt (omega arith)
tick-Goes s (draining g) ss (m ∷ ms) v e off at w =
    handed_some-Goes _ s ss m ms (draining true) (if not g then sleeping else check) v e off tt
      (omega arith)
tick-Goes s sleeping ss ms v e off at w = record {
  spans = ss;
  rest = ms;
  inv = v;
  held = e;
  off = off;
  settled = tt;
  near = omega arith;
  same = refl;
}
tick-Goes s final ss [] v e off at w =
    handed_none-Goes _ s ss final exited v e off refl (omega arith)
tick-Goes s final ss (m ∷ ms) v e off at w =
    handed_some-Goes _ s ss m ms final exited v e off tt (omega arith)
tick-Goes s exited ss ms v e off at w = record {
  spans = ss;
  rest = ms;
  inv = v;
  held = e;
  off = off;
  settled = subst (λ p. Settled p (ms ≡ [])) (sym at) w;
  near = subst (λ p. budget p (length ms) ≤ 0 - 1) (sym at) (omega arith);
  same = refl;
}

ticks-Ended :
    (k : ℕ) (s : ByteSubscriber) (ss : List Span) (ms : List Message)
    → Inv s.ring ss
    → messages ss ≡ ms
    → s.running ≡ false
    → Settled s.thread (ms ≡ [])
    → budget s.thread (length ms) ≤ k
    → Ended (all_of s ms) (ticks k s)
unfolding ticks tick
ticks-Ended zero s ss ms v e off w h =
    let (returned, none_left) = over_budget s.thread (ms ≡ []) (length ms) h w in
    record {
      returned = returned;
      spans = ss;
      inv = v;
      emptied = e ∙ none_left;
      all_delivered =
          sym (ap (λ ms. s.delivered ++ deliveries s.buf ms) none_left ∙ append-nil s.delivered);
    }
ticks-Ended (suc k) s ss ms v e off w h =
    let g = tick-Goes s s.thread ss ms v e off refl w in
    subst (λ ds. Ended ds (ticks k (tick s))) g.same
      (ticks-Ended k (tick s) g.spans g.rest g.inv g.held g.off g.settled (omega (arith, g.near)))

-- A byte subscriber that is stopped anywhere in its loop, over a ring in order to which nothing more
-- is pushed, returns from its thread after at most as many steps as the ring holds messages, and
-- four. The callback has then been given each of those messages, in order, with its type, as the
-- vector stands that every pop fills, and the ring is in order and empty.
pub stop-Ended :
    (s : ByteSubscriber) (ss : List Span)
    → Inv s.ring ss
    → s.running ≡ true
    → Loops s.thread
    → Ended
        (s.delivered ++ deliveries s.buf (messages ss))
        (ticks (length (messages ss) + 4) (request_stop s))
unfolding request_stop
stop-Ended s ss v on loops = rw on (
    ticks-Ended _ (record s { running = false }) ss (messages ss) v refl refl
      (Loops-Settled s.thread (messages ss ≡ []) loops) (budget-le s.thread (length (messages ss))))
