-- ===== src/SpscQueue/Interleave/Inv.antt =====
-- The invariant of a producer and a consumer of one `SPSCQueue`, and the stores that keep it.
use lock_free_ring_buffer.Prelude.{
  ℕ, suc, ◌*◌, ◌%◌, ◌≤◌, ◌<◌, ◌≡◌, ◌≢◌, sym, ap, subst, ◌∙◌, List, [], ◌∷◌, ◌++◌, length, arith,
  append_assoc,
}
use lock_free_ring_buffer.Word.{u64, ◌+w◌, ◌-w◌, pow2, pow2_pos, bit_and-mask, pow2_double_le}
use lock_free_ring_buffer.Memory.{Memory, Apart, load_bytes}
use lock_free_ring_buffer.Ring.{Ring}
use lock_free_ring_buffer.SpscQueue.Slots.{slots}
use lock_free_ring_buffer.SpscQueue.Refine.{
  Inv as QueueInv, contents, length-contents, tail-mod, popped-Inv, contents-popped,
}
use lock_free_ring_buffer.SpscQueue.Interleave.{
  State, Producer, resting, saw_head, writing, written, Consumer, quiet, saw_tail, reading, got,
  store_tail, store_head, with_bytes, slot,
}
use lock_free_ring_buffer.SpscQueue.Interleave.Keep.{slots-keep, slots-snoc}

abbrev pub used : Ring → ℕ
used q = q.tail_publish -w q.head_publish

module _ (k sizeof_t : ℕ) where
  -- What holds of the producer's phase: an old head makes the queue look fuller than it is.
  abbrev pub Producing : Memory → ℕ → ℕ → Producer → Type 0
  Producing m n tail resting = Unit
  Producing m n tail (saw_head value head) = (length value ≡ sizeof_t) × (n ≤ tail -w head)
  Producing m n tail (writing value) = (length value ≡ sizeof_t) × (n < pow2 k)
  Producing m n tail (written value) =
      (n < pow2 k) × (load_bytes m (tail % pow2 k * sizeof_t) sizeof_t ≡ value)

  -- And of the consumer's: an old tail makes it look emptier.
  abbrev pub Consuming : List (List ℕ) → ℕ → ℕ → Consumer → Type 0
  Consuming xs head n quiet = Unit
  Consuming xs head n (saw_tail tail) = (tail < u64) × (tail -w head ≤ n)
  Consuming xs head n reading = 0 < n
  Consuming xs head n (got value) = (rest : List (List ℕ)) × (xs ≡ value ∷ rest)

  -- Of a run from a queue that held `xs`.
  pub record Inv (xs : List (List ℕ)) (x : State) : Type 0 where
    pub queue : QueueInv k x.queue
    pub fifo : x.popped ++ contents k sizeof_t x.queue ≡ xs ++ x.sent
    pub producer : Producing x.queue.bytes (used x.queue) x.queue.tail_publish x.producer
    pub consumer :
        Consuming (contents k sizeof_t x.queue) x.queue.head_publish (used x.queue) x.consumer

  Producing-fewer :
      (m : Memory) (n n' tail : ℕ) (p : Producer)
      → n' ≤ n
      → Producing m n tail p
      → Producing m n' tail p
  Producing-fewer m n n' tail resting le f = f
  Producing-fewer m n n' tail (saw_head value head) le f = (f.0, omega (arith, f.1, le))
  Producing-fewer m n n' tail (writing value) le f = (f.0, omega (arith, f.1, le))
  Producing-fewer m n n' tail (written value) le f = (omega (arith, f.0, le), f.1)

  Consuming-more :
      (xs : List (List ℕ)) (head n : ℕ) (value : List ℕ) (c : Consumer)
      → Consuming xs head n c
      → Consuming (xs ++ value ∷ []) head (suc n) c
  Consuming-more xs head n value quiet f = f
  Consuming-more xs head n value (saw_tail tail) f = (f.0, omega (arith, f.1))
  Consuming-more xs head n value reading f = omega (arith, f)
  Consuming-more xs head n value (got v) (rest, e) =
      (rest ++ value ∷ [], ap (λ zs. zs ++ value ∷ []) e)

  module _ {xs : List (List ℕ)} (x : State) (v : Inv xs x) where
    abbrev q : Ring
    q = x.queue

    pub Inv-producer :
        (p : Producer)
        → Producing q.bytes (used q) q.tail_publish p
        → Inv xs (record x { producer = p })
    Inv-producer p f = record {
      queue = v.queue;
      fifo = v.fifo;
      producer = f;
      consumer = v.consumer;
    }

    pub Inv-consumer :
        (c : Consumer)
        → Consuming (contents k sizeof_t q) q.head_publish (used q) c
        → Inv xs (record x { consumer = c })
    Inv-consumer c f = record {
      queue = v.queue;
      fifo = v.fifo;
      producer = v.producer;
      consumer = f;
    }

    pub in_phase : {p : Producer} → x.producer ≡ p → Producing q.bytes (used q) q.tail_publish p
    in_phase e = subst (Producing q.bytes (used q) q.tail_publish) e v.producer

    pub consuming :
        {c : Consumer}
        → x.consumer ≡ c
        → Consuming (contents k sizeof_t q) q.head_publish (used q) c
    consuming e = subst (Consuming (contents k sizeof_t q) q.head_publish (used q)) e v.consumer

    -- A write in the slot of the tail changes no value between the counters.
    pub Inv-write :
        (m' : Memory) (p : Producer)
        → used q < pow2 k
        → ((i : ℕ) → Apart (q.tail_publish % pow2 k * sizeof_t) sizeof_t i 1 → q.bytes i ≡ m' i)
        → Producing m' (used q) q.tail_publish p
        → Inv xs (record x { queue = with_bytes q m'; producer = p })
    Inv-write m' p room same f =
        let kept : contents k sizeof_t q ≡ contents k sizeof_t (with_bytes q m') =
          slots-keep (pow2 k) sizeof_t q.bytes m' q.head_publish (used q) q.tail_publish
            (pow2_pos k) room (tail-mod k sizeof_t q v.queue) same in
        record {
          queue = record {
            width = v.queue.width;
            head_word = v.queue.head_word;
            tail_word = v.queue.tail_word;
            within = v.queue.within;
          };
          fifo = ap (λ zs. x.popped ++ zs) (sym kept) ∙ v.fifo;
          producer = f;
          consumer = subst (λ zs. Consuming zs q.head_publish (used q) x.consumer) kept v.consumer;
        }

    -- The slot of the tail, as the code computes it.
    pub at_slot : (i : ℕ) → slot (pow2 k) sizeof_t i ≡ i % pow2 k * sizeof_t
    at_slot i = ap (λ p. p * sizeof_t) (bit_and-mask k i)

    pub Inv-publish :
        (value : List ℕ)
        → x.producer ≡ written value
        → Inv xs
            (record x { queue = store_tail q; producer = resting; sent = x.sent ++ value ∷ [] })
    unfolding store_tail
    Inv-publish value e =
        let (room, at) = in_phase e in
        let more : (q.tail_publish +w 1) -w q.head_publish ≡ suc (used q) =
          omega
            (arith, v.queue.head_word, v.queue.tail_word, room, pow2_double_le k v.queue.width) in
        let longer : contents k sizeof_t (store_tail q) ≡ contents k sizeof_t q ++ value ∷ [] =
          ap (slots (pow2 k) sizeof_t q.bytes q.head_publish) more
          ∙ slots-snoc (pow2 k) sizeof_t q.bytes q.head_publish (used q) q.tail_publish value
              (tail-mod k sizeof_t q v.queue) at in
        record {
          queue = record {
            width = v.queue.width;
            head_word = v.queue.head_word;
            tail_word = omega arith;
            within = omega (arith, more, room);
          };
          fifo =
              ap (λ zs. x.popped ++ zs) longer
              ∙ sym (append_assoc x.popped (contents k sizeof_t q) (value ∷ []))
              ∙ ap (λ zs. zs ++ value ∷ []) v.fifo
              ∙ append_assoc xs x.sent (value ∷ []);
          producer = tt;
          consumer =
              subst (λ zs. Consuming zs q.head_publish (used (store_tail q)) x.consumer)
                (sym longer)
                (subst
                  (λ n. Consuming (contents k sizeof_t q ++ value ∷ []) q.head_publish n x.consumer)
                  (sym more)
                  (Consuming-more (contents k sizeof_t q) q.head_publish (used q) value x.consumer
                    v.consumer));
        }

    -- A queue that is not empty: its first value is in the slot of the head.
    pub some_left : 0 < used q → q.head_publish ≢ q.tail_publish
    some_left n e = absurd (omega (arith, n, e, v.queue.head_word))

    abbrev oldest : List (List ℕ) → List ℕ
    oldest [] = []
    oldest (y ∷ ys) = y

    pub Inv-take :
        (value : List ℕ)
        → x.consumer ≡ got value
        → Inv xs
            (record x { queue = store_head q; consumer = quiet; popped = x.popped ++ value ∷ [] })
    unfolding store_head
    Inv-take value e =
        let (rest, holds) = consuming e in
        let some : 0 < used q =
          omega (arith, sym (length-contents k sizeof_t q) ∙ ap length holds) in
        let other = some_left some in
        let whole = contents-popped k sizeof_t q v.queue other in
        let fewer : used (store_head q) ≤ used q =
          omega
            (arith, some, v.queue.head_word, v.queue.tail_word, pow2_double_le k v.queue.width) in
        record {
          queue = popped-Inv k sizeof_t q v.queue other;
          fifo =
              append_assoc x.popped (value ∷ []) (contents k sizeof_t (store_head q))
              ∙ ap (λ zs. x.popped ++ zs)
                  (ap (λ y. y ∷ contents k sizeof_t (store_head q))
                      (sym (ap oldest holds) ∙ ap oldest whole)
                    ∙ sym whole)
              ∙ v.fifo;
          producer =
              Producing-fewer q.bytes (used q) (used (store_head q)) q.tail_publish x.producer fewer
                v.producer;
          consumer = tt;
        }
