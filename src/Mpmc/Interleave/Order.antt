-- ===== src/Mpmc/Interleave/Order.antt =====
-- All runs of producers and consumers of `SharedRingBufferMPMC`: what is sent arrives once, whole, in
-- the order of the exchanges on both sides.
use lock_free_ring_buffer.Prelude.{
  ◌≤◌, ◌≡◌, sym, ap, subst, ◌∙◌, List, [], ◌∷◌, ◌++◌, arith, Option, none, some,
}
use lock_free_ring_buffer.Record.{Message}
use lock_free_ring_buffer.Ring.{Ring}
use lock_free_ring_buffer.Ring.Spans.{Span, messages}
use lock_free_ring_buffer.Ring.Inv.{Inv as RingInv, head-le-tail}
use lock_free_ring_buffer.Spsc.History.{stamp}
use lock_free_ring_buffer.Mpmc.{give_back}
use lock_free_ring_buffer.Mpsc.Interleave as Push
use lock_free_ring_buffer.Mpsc.Interleave.Inv as PushInv
use lock_free_ring_buffer.Mpsc.Interleave.Inv.{parcels, with_heads}
use lock_free_ring_buffer.Mpsc.Interleave.Order.{Inv-initial as PushInv-initial}
use lock_free_ring_buffer.Mpsc.Interleave.Publish.{Inv-PushStep}
use lock_free_ring_buffer.Mpsc.Interleave.Kept.{PushStep-Kept}
use lock_free_ring_buffer.Mpmc.Interleave.{
  State, Taking, Step, push, load_tail, load_head, tests, skips, takes, copies, gives_back, Reach,
  here, later, initial, ring, Ready,
}
use lock_free_ring_buffer.Mpmc.Interleave.Takes.{Takes}
use lock_free_ring_buffer.Mpmc.Interleave.Inv.{
  Inv, free, Inv-load_tail, Inv-load_head, Inv-tests, Inv-copy, Inv-shared,
}
use lock_free_ring_buffer.Mpmc.Interleave.Heads.{
  Inv-skips, Inv-takes, Inv-gives_back, first_gives_back, later_waits,
}

Inv-Step :
    {r₀ : Ring} {ms : List Message} (x : State)
    → Inv r₀ ms x
    → Push.Roomy x.shared
    → {y : State} → Step x y
    → Inv r₀ ms y
Inv-Step x v room (push {s} step) =
    Inv-shared x v s (Inv-PushStep x.shared v.base room step)
      (PushStep-Kept x.shared v.base room step)
Inv-Step x v room load_tail = Inv-load_tail x v
Inv-Step x v room (load_head tail among not_behind) = Inv-load_head x v tail among not_behind
Inv-Step x v room (tests tail head among) = Inv-tests x v tail head among
Inv-Step x v room (skips head new_head among) = Inv-skips x v head new_head among
Inv-Step x v room (takes head new_head size among) = Inv-takes x v head new_head size among
Inv-Step x v room (copies before k size after e stage) = Inv-copy x v before k size after e stage
Inv-Step x v room (gives_back before k after e ready) = Inv-gives_back x v before k after e ready

Inv-Reach : {r₀ : Ring} {ms : List Message} {x y : State} → Inv r₀ ms x → Reach x y → Inv r₀ ms y
Inv-Reach v here = v
Inv-Reach v (later {y} run room step) = Inv-Step y (Inv-Reach v run) room step

module _ (r : Ring) (ss : List Span) (v : RingInv r ss) (no_push : r.tail_reserve ≡ r.tail_publish)
    (no_pop : r.head_reserve ≡ r.head_publish) where
  Inv-initial : Inv r (messages ss) (initial r)
  Inv-initial = record {
    base = PushInv-initial r ss v no_push;
    held = [];
    chain = sym no_pop;
    takes = sym no_pop;
    within = omega (arith, head-le-tail v);
    tails = λ t among. absurd among;
    views = λ t h among. absurd among;
    decided = λ h d among. absurd among;
  }

-- The spans that consumers have claimed and not given back, and those that none has claimed.
pub record Ordered (r : Ring) (ss : List Span) (x : State) : Type 0 where
  pub held : List Span
  pub rest : List Span
  pub inv : RingInv (ring x) (held ++ rest)
  pub takes : Takes (ring x).capacity (ring x).head_publish x.taking held (ring x).head_reserve
  pub within : (ring x).head_reserve ≤ (ring x).tail_publish
  pub fifo :
      x.shared.popped ++ messages (held ++ rest)
      ≡ messages ss ++ stamp r.sequence x.shared.published
  pub order : x.shared.published ++ parcels x.shared.pending ≡ x.shared.reserved

-- From a ring in order in which no push and no pop is under way, in any interleaving of the steps of
-- any number of producers and consumers, each step being away from the end of the counters' bits and
-- each load of the head finding it not past the tail that was loaded before: the bytes are in order
-- after each step; each consumer past its exchange has a span of its own, in the order of the
-- exchanges, and holds that span's message if it has copied one; and what was handed over in the
-- order of the exchanges, what consumers have claimed and what is left are what the ring held at
-- first and then the published messages, each once and whole, with consecutive sequence numbers,
-- the published ones in the order of the producers' exchanges.
pub many_consumers_fifo :
    (r : Ring) (ss : List Span) (x : State)
    → RingInv r ss
    → r.tail_reserve ≡ r.tail_publish
    → r.head_reserve ≡ r.head_publish
    → Reach (initial r) x
    → Ordered r ss x
many_consumers_fifo r ss x v no_push no_pop run =
    let w = Inv-Reach (Inv-initial r ss v no_push no_pop) run in
    let (rest, e, c) = free x w in
    record {
      held = w.held;
      rest = rest;
      inv = subst (RingInv (ring x)) e (PushInv.Inv-ring x.shared w.base);
      takes = w.takes;
      within = w.within;
      fifo = ap (λ zs. x.shared.popped ++ messages zs) (sym e) ∙ w.base.fifo;
      order = w.base.order;
    }

-- What a look at `head_publish` gives a consumer, from the ones whose exchange was earlier.
abbrev pub turn : List Taking → State → Taking → Option Ring
turn [] x k = some (with_heads (ring x) (ring x).head_reserve k.to)
turn (q ∷ before) x k = none

-- From a ring in order in which no push and no pop is under way, after any interleaving of the steps
-- of any number of producers and consumers, each step being away from the end of the counters' bits
-- and each load of the head finding it not past the tail that was loaded before: a consumer that has
-- nothing left to copy, and whose
-- exchange is the oldest that is not published, publishes the end of its span at its next look at
-- `head_publish`; and every other one goes on waiting.
pub head_published_in_turn :
    (r : Ring) (ss : List Span) (x : State) (before : List Taking) (k : Taking)
    (after : List Taking)
    → RingInv r ss
    → r.tail_reserve ≡ r.tail_publish
    → r.head_reserve ≡ r.head_publish
    → Reach (initial r) x
    → x.taking ≡ before ++ k ∷ after
    → Ready k.stage
    → give_back (ring x) k.from k.to ≡ turn before x k
head_published_in_turn r ss x [] k after v no_push no_pop run e ready =
    first_gives_back x (Inv-Reach (Inv-initial r ss v no_push no_pop) run) k after e ready
head_published_in_turn r ss x (q ∷ before) k after v no_push no_pop run e ready =
    later_waits x (Inv-Reach (Inv-initial r ss v no_push no_pop) run) q before k after e
