-- ===== src/Spsc/History.antt =====
-- Any history of calls on a `SharedRingBufferSPSC`, against a queue of messages.
use lock_free_ring_buffer.Prelude.{
  ℕ, inl, inr, zero, suc, ◌+◌, ◌-◌, ◌*◌, ◌<◌, ◌≡◌, refl, sym, ap, ap₂, ◌∙◌, List, [], ◌∷◌, ◌++◌,
  arith, Bool, true, Option, none, some, ◌>>=◌, if◌then◌else◌, length, append-nil, append_assoc,
  Bool-cases, replicate, drop, lt→ltb,
}
use lock_free_ring_buffer.Word.{u64, u32, u16, ◌+w◌}
use lock_free_ring_buffer.Record.{Message}
use lock_free_ring_buffer.Ring.{Ring}
use lock_free_ring_buffer.Ring.Spans.{Span, messages}
use lock_free_ring_buffer.Ring.Inv.{Inv, head-le-tail}
use lock_free_ring_buffer.Ring.Loop.{Popped, fill_out}
use lock_free_ring_buffer.Spsc.{try_push, try_pop}
use lock_free_ring_buffer.Spsc.Rounds.{accepts}
use lock_free_ring_buffer.Spsc.Push.{Pushed, try_push_refines}
use lock_free_ring_buffer.Spsc.Pop.{Drained, taken, left, try_pop_refines}

-- What the producer and the consumer do, in the order in which their calls take effect. The
-- consumer gives a new vector each time.
pub data Call : Type 0 where
  push : ℕ → List ℕ → Call
  pop : Call

abbrev pub Parcel : Type 0
Parcel = ℕ × List ℕ

pub record Trace : Type 0 where
  pub final : Ring
  pub accepted : List Parcel
  pub popped : List Message

abbrev pub as_message : Popped → Message
as_message p = record { type = p.type; sequence = p.sequence; payload = p.out }

abbrev note_push : Bool → Parcel → Trace → Trace
note_push b p t = record t { accepted = if b then p ∷ t.accepted else t.accepted }

abbrev note_pop : Option Popped → Trace → Trace
note_pop none t = t
note_pop (some p) t = record t { popped = as_message p ∷ t.popped }

pub run : Ring → List Call → Option Trace
run r [] = some (record { final = r; accepted = []; popped = [] })
run r (push type payload ∷ cs) =
    try_push r (some payload) (length payload) type >>= λ (p : Ring × Bool).
    run p.0 cs >>= λ t. some (note_push p.1 (type, payload) t)
run r (pop ∷ cs) =
    try_pop r [] >>= λ (p : Ring × Option Popped). run p.0 cs >>= λ t. some (note_pop p.1 t)

-- The messages that come of accepted parcels: numbered on from `n`.
abbrev pub stamp : ℕ → List Parcel → List Message
stamp n [] = []
stamp n ((type, payload) ∷ ps) =
    record { type = type; sequence = n + 1; payload = payload } ∷ stamp (n + 1) ps

-- Each message has fewer than 2^32 bytes and a type of 16 bits.
abbrev pub WellSized : List Call → Type 0
WellSized [] = Unit
WellSized (push type payload ∷ cs) = (length payload < u32) × (type < u16) × WellSized cs
WellSized (pop ∷ cs) = WellSized cs

pub record Traced (r : Ring) (ss : List Span) (result : Option Trace) : Type 0 where
  pub trace : Trace
  pub spans : List Span
  pub returned : result ≡ some trace
  pub inv : Inv trace.final spans
  pub fifo : trace.popped ++ messages spans ≡ messages ss ++ stamp r.sequence trace.accepted

drop-replicate : (n a : ℕ) → drop n (replicate n a) ≡ []
drop-replicate zero a = refl
drop-replicate (suc n) a = drop-replicate n a

-- A new vector holds exactly the payload after a pop.
pub fill_out-nil : (payload : List ℕ) → fill_out [] payload ≡ payload
unfolding fill_out
fill_out-nil [] = refl
fill_out-nil (b ∷ bs) =
    ap (λ zs. (b ∷ bs) ++ zs)
      (rw (lt→ltb 0 (length (b ∷ bs)) (omega arith)) (
        ap (λ k. drop (length (b ∷ bs)) (replicate k 0))
          (let whole : length (b ∷ bs) - 0 ≡ length (b ∷ bs) = omega arith in whole)
        ∙ drop-replicate (length (b ∷ bs)) 0))
    ∙ append-nil (b ∷ bs)

-- The counters stay away from the end of their 64 bits during `n` more calls.
abbrev pub Lasts : Ring → ℕ → Type 0
Lasts r n = (r.tail_publish + (3 + n) * r.capacity < u64) × (r.sequence + n < u64)

after_push :
    (r : Ring) (ss : List Span) (type : ℕ) (payload : List ℕ) (cs : List Call)
    (p : Pushed r ss type payload (try_push r (some payload) (length payload) type))
    → r.sequence + 1 < u64
    → Traced p.final p.spans (run p.final cs)
    → Traced r ss (run r (push type payload ∷ cs))
unfolding run
after_push r ss type payload cs p small t = elim (Bool-cases (accepts r (length payload))) [
  | inl ok ↦ record {
    trace = note_push true (type, payload) t.trace;
    spans = t.spans;
    returned = rw (p.returned, ok, t.returned);
    inv = t.inv;
    fifo =
        t.fifo
        ∙ ap₂ (λ ms n. ms ++ stamp n t.trace.accepted)
            (p.contents
              ∙ rw ok (
                  ap
                    (λ n.
                      messages ss ++ record { type = type; sequence = n; payload = payload } ∷ [])
                    next))
            (p.number_same ∙ rw ok next)
        ∙ append_assoc (messages ss)
            (record { type = type; sequence = r.sequence + 1; payload = payload } ∷ [])
            (stamp (r.sequence + 1) t.trace.accepted);
  }
  | inr full ↦ record {
    trace = t.trace;
    spans = t.spans;
    returned = rw (p.returned, full, t.returned);
    inv = t.inv;
    fifo =
        t.fifo
        ∙ ap₂ (λ ms n. ms ++ stamp n t.trace.accepted) (p.contents ∙ rw full)
            (p.number_same ∙ rw full);
  }
]
  where
    next : r.sequence +w 1 ≡ r.sequence + 1
    next = omega arith

after_pop :
    (r : Ring) (ss : List Span) (cs : List Call) (ms : List Message)
    → messages ss ≡ ms
    → (d : Drained r ss [] (try_pop r [])) → Traced d.final d.spans (run d.final cs)
    → Traced r ss (run r (pop ∷ cs))
unfolding run
after_pop r ss cs [] e d t = record {
  trace = t.trace;
  spans = t.spans;
  returned = rw (d.returned, e, t.returned);
  inv = t.inv;
  fifo =
      t.fifo
      ∙ ap₂ (λ ms n. ms ++ stamp n t.trace.accepted) (d.contents ∙ ap left e ∙ sym e) d.number_same;
}
after_pop r ss cs (m ∷ ms) e d t = record {
  trace = note_pop (taken [] (m ∷ ms)) t.trace;
  spans = t.spans;
  returned = rw (d.returned, e, t.returned);
  inv = t.inv;
  fifo =
      ap₂ ◌∷◌ whole (
        t.fifo
        ∙ ap₂ (λ ms n. ms ++ stamp n t.trace.accepted) (d.contents ∙ ap left e) d.number_same)
      ∙ ap (λ ms. ms ++ stamp r.sequence t.trace.accepted) (sym e);
}
  where
    whole : record { type = m.type; sequence = m.sequence; payload = fill_out [] m.payload } ≡ m
    whole i = record { type = m.type; sequence = m.sequence; payload = fill_out-nil m.payload i }

Lasts-push :
    (r : Ring) (ss : List Span) (type n : ℕ) (payload : List ℕ) {result : Option (Ring × Bool)}
    → Inv r ss
    → Lasts r (suc n)
    → (p : Pushed r ss type payload result) → Lasts p.final n
Lasts-push r ss type n payload v l p = (
  omega (
    arith,
    head-le-tail v,
    p.inv.window,
    p.head_same,
    p.capacity_same,
    ap (λ c. n * c) p.capacity_same,
    l.0,
  ),
  ground (arith, p.number_same, l.1),
)

-- From a ring in order, any history of well-sized pushes and pops runs to its end while the
-- counters are away from the end of their 64 bits. What was popped, and then what the ring still
-- holds, is what it held at first and then the accepted messages: each once, in order, with
-- consecutive sequence numbers.
pub run_fifo :
    (r : Ring) (ss : List Span) (cs : List Call)
    → Inv r ss
    → WellSized cs
    → Lasts r (length cs)
    → Traced r ss (run r cs)
unfolding run
run_fifo r ss [] v w l = record {
  trace = record { final = r; accepted = []; popped = [] };
  spans = ss;
  returned = refl;
  inv = v;
  fifo = sym (append-nil (messages ss));
}
run_fifo r ss (push type payload ∷ cs) v w l =
    let p = try_push_refines r ss type payload v (omega arith) w.0 w.1 in
    after_push r ss type payload cs p (omega arith)
      (run_fifo p.final p.spans cs p.inv w.2 (Lasts-push r ss type (length cs) payload v l p))
run_fifo r ss (pop ∷ cs) v w l =
    let d = try_pop_refines r ss [] v in
    after_pop r ss cs (messages ss) refl d (
      run_fifo d.final d.spans cs d.inv w (
        omega (
          arith,
          d.tail_same,
          d.capacity_same,
          d.number_same,
          ap (λ c. length cs * c) d.capacity_same,
        )))
