-- ===== src/Spsc/Interleave/Inv.antt =====
-- The invariant of one producer and one consumer, and the steps of each that keep it.
use native.Mathlib.Nat.{mod-lt}
use lock_free_ring_buffer.Prelude.{
  ℕ, ◌≤◌, ◌<◌, ◌≡◌, refl, sym, ap, ◌∙◌, List, [], ◌∷◌, ◌++◌, arith, Option, none, some,
  append_assoc,
}
use lock_free_ring_buffer.Word.{u64}
use lock_free_ring_buffer.Memory.{Memory, Apart}
use lock_free_ring_buffer.Record.{Message}
use lock_free_ring_buffer.Ring.{Ring}
use lock_free_ring_buffer.Ring.Spans.{Span, messages, messages-append, Chain-keep}
use lock_free_ring_buffer.Ring.Inv.{Inv as RingInv, advanced, advanced-Inv}
use lock_free_ring_buffer.Mpmc.Interleave.{Stage, handed, Ready}
use lock_free_ring_buffer.Mpmc.Interleave.Takes.{handed_lem}
use lock_free_ring_buffer.Mpmc.Interleave.Spans.{Chain-after}
use lock_free_ring_buffer.Mpsc.Interleave.Inv.{with_heads}
use lock_free_ring_buffer.Spsc.Parts.{place_of}
use lock_free_ring_buffer.Spsc.Interleave.{State, Producer, Consumer, sent_of, quiet}
use lock_free_ring_buffer.Spsc.Interleave.Facts.{
  Producing, Consuming, Room, Prepared, Consuming-write, Consuming-tail, span_of, Numbered, Claims,
  Producing-head,
}

-- The messages have numbers above `n`, each above the one before, up to `last`.
abbrev pub Rising : ℕ → List Message → ℕ → Type 0
Rising n [] last = n ≤ last
Rising n (m ∷ ms) last = (n < m.sequence) × Rising m.sequence ms last

Rising-sent :
    (n : ℕ) (ms : List Message) (last number : ℕ) (o : Option Message)
    → Rising n ms last
    → last ≤ number
    → Numbered last number o
    → (last' : ℕ) × Rising n (ms ++ sent_of o) last' × (last' ≤ number)
Rising-sent n [] last number none h below new = (last, h, below)
Rising-sent n [] last number (some m) h below new = (m.sequence, (omega arith, omega arith), new.1)
Rising-sent n (m ∷ ms) last number o h below new =
    let (last', rising, end) = Rising-sent m.sequence ms last number o h.1 below new in
    (last', (h.0, rising), end)

messages-span_of : (o : Option Message) → messages (span_of o ∷ []) ≡ sent_of o
messages-span_of none = refl
messages-span_of (some m) = refl

-- Of a run from a ring whose number was `n`, and which held `ms`.
pub record Inv (n : ℕ) (ms : List Message) (x : State) : Type 0 where
  pub spans : List Span
  pub ring : RingInv x.ring spans
  pub fifo : x.popped ++ messages spans ≡ ms ++ x.sent
  pub last : ℕ
  pub rising : Rising n x.sent last
  pub below : last ≤ x.ring.sequence
  pub producer :
      Producing x.ring.bytes x.ring.capacity x.ring.head_publish x.ring.tail_publish x.ring.sequence
        last x.producer
  pub consumer :
      Consuming x.ring.bytes x.ring.capacity x.ring.head_publish x.ring.tail_publish x.consumer

module _ {n₀ : ℕ} {ms : List Message} (x : State) (v : Inv n₀ ms x) where
  abbrev ring : Ring
  ring = x.ring

  -- The producer goes on without a store.
  pub Inv-producer :
      (p : Producer)
      → Producing ring.bytes ring.capacity ring.head_publish ring.tail_publish ring.sequence v.last
          p
      → Inv n₀ ms (record x { producer = p })
  Inv-producer p f = record {
    spans = v.spans;
    ring = v.ring;
    fifo = v.fifo;
    last = v.last;
    rising = v.rising;
    below = v.below;
    producer = f;
    consumer = v.consumer;
  }

  pub Inv-consumer :
      (c : Consumer)
      → Consuming ring.bytes ring.capacity ring.head_publish ring.tail_publish c
      → Inv n₀ ms (record x { consumer = c })
  Inv-consumer c f = record {
    spans = v.spans;
    ring = v.ring;
    fifo = v.fifo;
    last = v.last;
    rising = v.rising;
    below = v.below;
    producer = v.producer;
    consumer = f;
  }

  -- It stores in its room, or gives out a number, or stores the counter that nobody reads.
  pub Inv-write :
      (m' : Memory) (k reserve number : ℕ) (p : Producer)
      → Room ring.capacity ring.head_publish ring.tail_publish k
      → ((i : ℕ) → Apart (place_of ring) k i 1 → ring.bytes i ≡ m' i)
      → ring.sequence ≤ number
      → number < u64
      → Producing m' ring.capacity ring.head_publish ring.tail_publish number v.last p
      → Inv n₀ ms
          (record x { ring = advanced ring m' reserve ring.tail_publish number; producer = p })
  Inv-write m' k reserve number p room same more word f = record {
    spans = v.spans;
    ring = record {
      positive = v.ring.positive;
      window = v.ring.window;
      word = v.ring.word;
      number = word;
      chain =
          Chain-keep ring.bytes m' ring.capacity ring.tail_publish k v.ring.positive room.0 same
            ring.head_publish v.spans room.1 v.ring.chain;
    };
    fifo = v.fifo;
    last = v.last;
    rising = v.rising;
    below = omega (arith, v.below);
    producer = f;
    consumer =
        Consuming-write ring.bytes m' ring.capacity ring.head_publish ring.tail_publish k
          v.ring.positive room same x.consumer v.consumer;
  }

  -- It stores its tail: the span that is prepared is the ring's.
  pub Inv-publish :
      (tail : ℕ) (o : Option Message) (p : Producer)
      → Prepared ring.bytes ring.capacity ring.head_publish ring.tail_publish ring.sequence v.last
          tail o
      → tail < u64
      → ((last : ℕ)
          → Producing ring.bytes ring.capacity ring.head_publish tail ring.sequence last p)
      → Inv n₀ ms (record x {
        ring = advanced ring ring.bytes ring.tail_reserve tail ring.sequence;
        producer = p;
        sent = x.sent ++ sent_of o;
      })
  Inv-publish tail o p (at, e, free, new) word f =
      let (last, rising, below) =
        Rising-sent n₀ x.sent v.last ring.sequence o v.rising v.below new in
      record {
        spans = v.spans ++ span_of o ∷ [];
        ring =
            advanced-Inv ring v.spans ring.bytes (span_of o) 0 ring.tail_reserve tail ring.sequence
              v.ring (omega (arith, mod-lt ring.tail_publish v.ring.positive))
              (omega (arith, v.ring.window)) (λ i a. refl) at e free word v.ring.number;
        fifo =
            ap (λ zs. x.popped ++ zs)
              (messages-append v.spans (span_of o ∷ [])
                ∙ ap (λ zs. messages v.spans ++ zs) (messages-span_of o))
            ∙ sym (append_assoc x.popped (messages v.spans) (sent_of o))
            ∙ ap (λ zs. zs ++ sent_of o) v.fifo
            ∙ append_assoc ms x.sent (sent_of o);
        last = last;
        rising = rising;
        below = below;
        producer = f last;
        consumer =
            Consuming-tail ring.bytes ring.capacity ring.head_publish ring.tail_publish tail
              x.consumer (omega (arith, e)) v.consumer;
      }

  -- The consumer stores the head that nobody reads.
  pub Inv-head_reserve :
      (head : ℕ) (c : Consumer)
      → Consuming ring.bytes ring.capacity ring.head_publish ring.tail_publish c
      → Inv n₀ ms (record x { ring = with_heads ring head ring.head_publish; consumer = c })
  Inv-head_reserve head c f = record {
    spans = v.spans;
    ring = record {
      positive = v.ring.positive;
      window = v.ring.window;
      word = v.ring.word;
      number = v.ring.number;
      chain = v.ring.chain;
    };
    fifo = v.fifo;
    last = v.last;
    rising = v.rising;
    below = v.below;
    producer = v.producer;
    consumer = f;
  }

  -- It stores its head: the span that it has is the first, and is handed over.
  pub Inv-take :
      (head : ℕ) (g : Stage)
      → Claims ring.bytes ring.capacity ring.head_publish ring.tail_publish head g
      → Ready g
      → Inv n₀ ms (record x {
        ring = with_heads ring ring.head_reserve head;
        consumer = quiet;
        popped = x.popped ++ handed g;
      })
  Inv-take head g (s, d, c, end) ready =
      let (rest, e, chain) =
        Chain-after ring.bytes ring.capacity v.ring.positive ring.head_publish (s ∷ []) head v.spans
          ring.tail_publish c v.ring.chain end in
      let on : ring.head_publish ≤ head = omega (arith, c.1) in
      record {
        spans = rest;
        ring = record {
          positive = v.ring.positive;
          window = omega (arith, v.ring.window);
          word = v.ring.word;
          number = v.ring.number;
          chain = chain;
        };
        fifo =
            append_assoc x.popped (handed g) (messages rest)
            ∙ ap (λ zs. x.popped ++ zs) (handed_lem s g rest d ready ∙ ap messages (sym e))
            ∙ v.fifo;
        last = v.last;
        rising = v.rising;
        below = v.below;
        producer =
            Producing-head ring.bytes ring.capacity ring.head_publish head ring.tail_publish
              ring.sequence v.last x.producer on v.producer;
        consumer = tt;
      }
