-- ===== src/Mpsc/Interleave/Order.antt =====
-- The rounds of the consumer, and all runs: what the producers of `SharedRingBuffer` send arrives in
-- the order of their exchanges, whatever the interleaving.
use lock_free_ring_buffer.Prelude.{
  ◌+◌, ◌≤◌, ◌≡◌, refl, sym, ap, subst, ◌∙◌, List, [], ◌∷◌, ◌++◌, arith, none, some, append_assoc,
  append-nil, Option,
}
use lock_free_ring_buffer.Word.{◌+w◌}
use lock_free_ring_buffer.Record.{Message}
use lock_free_ring_buffer.Ring.{Ring, set_head}
use lock_free_ring_buffer.Ring.Spans.{Span, gap, message, messages, span_size}
use lock_free_ring_buffer.Ring.Inv.{Inv as RingInv}
use lock_free_ring_buffer.Spsc.{pop_round}
use lock_free_ring_buffer.Spsc.History.{stamp, fill_out-nil}
use lock_free_ring_buffer.Spsc.Pop.{pop_round_empty, pop_round_gap, pop_round_message}
use lock_free_ring_buffer.Mpsc.{publish}
use lock_free_ring_buffer.Mpsc.Interleave.{
  Pending, State, Step, push, pop, Reach, here, later, Roomy, initial, after_pop, needed_of,
}
use lock_free_ring_buffer.Mpsc.Interleave.Inv.{Inv, Inv-ring, parcels, Inv-stepped}
use lock_free_ring_buffer.Mpsc.Interleave.Tiles.{bytes_of}
use lock_free_ring_buffer.Mpsc.Interleave.Publish.{
  first_publishes, later_waits, published_ring, Inv-PushStep,
}

module _ {r₀ : Ring} {ms : List Message} (x : State) (v : Inv r₀ ms x) where
  Inv-step_over :
      (s : Span) (ss : List Span) (out : List Message)
      → v.spans ≡ s ∷ ss
      → out ++ messages ss ≡ x.popped ++ messages (s ∷ ss)
      → Inv r₀ ms (record x {
        ring =
            set_head x.ring
              (x.ring.head_publish +w span_size x.ring.capacity x.ring.head_publish s);
        popped = out;
      })
  unfolding set_head
  Inv-step_over s ss out e same = Inv-stepped x v s ss _ out e same

  Inv-pop_of : (ss : List Span) → v.spans ≡ ss → Inv r₀ ms (after_pop x (pop_round [] x.ring))
  Inv-pop_of [] e =
      subst (λ z. Inv r₀ ms (after_pop x z))
        (sym (pop_round_empty x.ring [] (subst (λ zs. RingInv x.ring zs) e (Inv-ring x v)))) v
  Inv-pop_of (gap ∷ ss) e =
      subst (λ z. Inv r₀ ms (after_pop x z))
        (sym (pop_round_gap x.ring ss [] (subst (λ zs. RingInv x.ring zs) e (Inv-ring x v))))
        (Inv-step_over gap ss x.popped e refl)
  Inv-pop_of (message m ∷ ss) e =
      subst (λ z. Inv r₀ ms (after_pop x z))
        (sym (pop_round_message x.ring m ss [] (subst (λ zs. RingInv x.ring zs) e (Inv-ring x v))))
        (Inv-step_over (message m) ss _ e (
          append_assoc x.popped _ (messages ss)
          ∙ ap
              (λ b.
                x.popped
                ++ record { type = m.type; sequence = m.sequence; payload = b } ∷ messages ss)
              (fill_out-nil m.payload)))

  Inv-Step : {y : State} → Roomy x → Step x y → Inv r₀ ms y
  Inv-Step room (push step) = Inv-PushStep x v room step
  Inv-Step room pop = Inv-pop_of v.spans refl

Inv-Reach : {r₀ : Ring} {ms : List Message} {x y : State} → Inv r₀ ms x → Reach x y → Inv r₀ ms y
Inv-Reach v here = v
Inv-Reach v (later {y} run room step) = Inv-Step y (Inv-Reach v run) room step

module _ (r : Ring) (ss : List Span) (v : RingInv r ss)
    (idle : r.tail_reserve ≡ r.tail_publish) where
  pub Inv-initial : Inv r (messages ss) (initial r)
  Inv-initial = record {
    spans = ss;
    positive = v.positive;
    window = omega (arith, v.window);
    word = omega (arith, v.word);
    number = v.number;
    chain = v.chain;
    tiles = sym idle;
    looks = λ h among. absurd among;
    fifo = sym (append-nil (messages ss));
    count = omega arith;
    order = refl;
  }

-- What the consumer has got and what the ring still holds.
pub record Ordered (r : Ring) (ss : List Span) (x : State) : Type 0 where
  pub spans : List Span
  pub inv : RingInv x.ring spans
  pub fifo : x.popped ++ messages spans ≡ messages ss ++ stamp r.sequence x.published
  pub order : x.published ++ parcels x.pending ≡ x.reserved
  pub within : x.ring.tail_reserve ≤ x.ring.head_publish + x.ring.capacity

-- From a ring in order in which no push is under way, in any interleaving of the steps of any number
-- of producers with the rounds of the consumer, each step being away from the end of the counters'
-- bits: the bytes are in order again after each step, whatever the producers have filled so far;
-- what was popped, and then what is published in the ring, is what it held at first and then the
-- published messages, each once and whole, with consecutive sequence numbers; and the published
-- messages are the first of the reserved ones, in the order of the exchanges.
pub many_producers_fifo :
    (r : Ring) (ss : List Span) (x : State)
    → RingInv r ss
    → r.tail_reserve ≡ r.tail_publish
    → Reach (initial r) x
    → Ordered r ss x
many_producers_fifo r ss x v idle run =
    let w = Inv-Reach (Inv-initial r ss v idle) run in
    record {
      spans = w.spans;
      inv = Inv-ring x w;
      fifo = w.fifo;
      order = w.order;
      within = w.window;
    }

-- What a look at the tail gives a producer, from the reservations before its own.
abbrev pub turn : List Pending → State → Pending → Option Ring
turn [] x p = some (published_ring x.ring p.place (x.ring.tail_publish + bytes_of p))
turn (q ∷ before) x p = none

-- From a ring in order in which no push is under way, after any interleaving of the steps of the
-- producers with the rounds of the consumer, each step being away from the end of the counters' bits:
-- a producer whose reservation is the oldest one that is not published publishes at its next look at
-- the tail, which moves up by its padding and its record; and every other one goes on waiting,
-- however long its own record has been filled.
pub publication_in_turn :
    (r : Ring) (ss : List Span) (x : State) (before : List Pending) (p : Pending)
    (after : List Pending)
    → RingInv r ss
    → r.tail_reserve ≡ r.tail_publish
    → Reach (initial r) x
    → x.pending ≡ before ++ p ∷ after
    → publish x.ring p.place (needed_of p.parcel) ≡ turn before x p
publication_in_turn r ss x [] p after v idle run e =
    first_publishes x (Inv-Reach (Inv-initial r ss v idle) run) p after e
publication_in_turn r ss x (q ∷ before) p after v idle run e =
    later_waits x (Inv-Reach (Inv-initial r ss v idle) run) q before p after e
