-- ===== src/Spsc/Interleave/Facts.antt =====
-- What holds of the producer's and of the consumer's phase, in numbers, and how the facts of the one
-- outlast the steps of the other.
use lock_free_ring_buffer.Prelude.{
  ℕ, ◌+◌, ◌-◌, ◌%◌, ◌≤◌, ◌<◌, ◌≡◌, [], ◌∷◌, length, arith, Option, none, some,
}
use lock_free_ring_buffer.Word.{u64}
use lock_free_ring_buffer.Memory.{Memory, Apart, store_int}
use lock_free_ring_buffer.Record.{Message, RecordAt, record_size, record_size_lem}
use lock_free_ring_buffer.Ring.Spans.{Span, gap, message, span_size, SpanAt, SpanAt-keep, Chain}
use lock_free_ring_buffer.Mpmc.Interleave.{Stage, Ready}
use lock_free_ring_buffer.Mpmc.Interleave.Takes.{Doing}
use lock_free_ring_buffer.Spsc.History.{Parcel}
use lock_free_ring_buffer.Spsc.Interleave.{
  Producer, resting, starting, saw_head, wrapping, placing, numbering, moving, reserved, Consumer,
  quiet, saw_tail, taking, giving, Fits, Writing,
}

abbrev pub span_of : Option Message → Span
span_of none = gap
span_of (some m) = message m

-- The number of a message to be published is past those that were, and was given out.
abbrev pub Numbered : ℕ → ℕ → Option Message → Type 0
Numbered bound number none = Unit
Numbered bound number (some m) = (bound < m.sequence) × (m.sequence ≤ number)

-- There is room for `n` bytes in one piece at the tail.
abbrev pub Room : ℕ → ℕ → ℕ → ℕ → Type 0
Room cap head tail n = (tail % cap + n ≤ cap) × (tail + n ≤ head + cap)

-- The span up to the tail to be stored is in the bytes.
abbrev pub Prepared : Memory → ℕ → ℕ → ℕ → ℕ → ℕ → ℕ → Option Message → Type 0
Prepared m cap head tail number bound to o =
    SpanAt m cap tail (span_of o)
    × (to ≡ tail + span_size cap tail (span_of o))
    × (to ≤ head + cap)
    × Numbered bound number o

-- Whatever number is stored, a record with that number is at the tail.
abbrev pub Fillable : Memory → ℕ → ℕ → Parcel → Type 0
Fillable m cap tail p =
    (n : ℕ)
    → n < u64
    → RecordAt (store_int 8 m (tail % cap + 8) n) (tail % cap)
        (record { type = p.0; sequence = n; payload = p.1 })

abbrev pub Producing : Memory → ℕ → ℕ → ℕ → ℕ → ℕ → Producer → Type 0
Producing m cap head tail number bound resting = Unit
Producing m cap head tail number bound (starting p) = Fits cap p
Producing m cap head tail number bound (saw_head p h) = Fits cap p × (h ≤ head) × (tail ≤ h + cap)
Producing m cap head tail number bound (wrapping p) =
    Fits cap p × Room cap head tail 16 × (tail + (cap - tail % cap) ≤ head + cap)
Producing m cap head tail number bound (placing p) =
    Fits cap p × Room cap head tail (record_size (length p.1))
Producing m cap head tail number bound (numbering p) =
    Fits cap p × Room cap head tail (record_size (length p.1)) × Fillable m cap tail p
Producing m cap head tail number bound (moving p to o) =
    Fits cap p × Prepared m cap head tail number bound to o
Producing m cap head tail number bound (reserved p to o) =
    Fits cap p × Prepared m cap head tail number bound to o

-- The consumer's span is the first after its head.
abbrev pub Claims : Memory → ℕ → ℕ → ℕ → ℕ → Stage → Type 0
Claims m cap head tail to g = (s : Span) × Doing s g × Chain m cap head (s ∷ []) to × (to ≤ tail)

abbrev pub Consuming : Memory → ℕ → ℕ → ℕ → Consumer → Type 0
Consuming m cap head tail quiet = Unit
Consuming m cap head tail (saw_tail t) = (head ≤ t) × (t ≤ tail)
Consuming m cap head tail (taking to g) = Claims m cap head tail to g
Consuming m cap head tail (giving to g) = Claims m cap head tail to g × Ready g

-- The consumer moves its head on.
pub Producing-head :
    (m : Memory) (cap head head' tail number bound : ℕ) (p : Producer)
    → head ≤ head'
    → Producing m cap head tail number bound p
    → Producing m cap head' tail number bound p
Producing-head m cap head head' tail number bound resting on f = f
Producing-head m cap head head' tail number bound (starting p) on f = f
Producing-head m cap head head' tail number bound (saw_head p h) on f =
    (f.0, omega (arith, f.1, on), f.2)
Producing-head m cap head head' tail number bound (wrapping p) on f =
    (f.0, (f.1.0, omega (arith, f.1.1, on)), omega (arith, f.2, on))
Producing-head m cap head head' tail number bound (placing p) on f =
    (f.0, (f.1.0, omega (arith, f.1.1, on)))
Producing-head m cap head head' tail number bound (numbering p) on f =
    (f.0, (f.1.0, omega (arith, f.1.1, on)), f.2)
Producing-head m cap head head' tail number bound (moving p to o) on f =
    (f.0, (f.1.0, f.1.1, omega (arith, f.1.2, on), f.1.3))
Producing-head m cap head head' tail number bound (reserved p to o) on f =
    (f.0, (f.1.0, f.1.1, omega (arith, f.1.2, on), f.1.3))

-- The producer moves its tail on.
pub Consuming-tail :
    (m : Memory) (cap head tail tail' : ℕ) (c : Consumer)
    → tail ≤ tail'
    → Consuming m cap head tail c
    → Consuming m cap head tail' c
Consuming-tail m cap head tail tail' quiet on f = f
Consuming-tail m cap head tail tail' (saw_tail t) on f = (f.0, omega (arith, f.1, on))
Consuming-tail m cap head tail tail' (taking to g) on (s, d, c, end) =
    (s, d, c, omega (arith, end, on))
Consuming-tail m cap head tail tail' (giving to g) on ((s, d, c, end), ready) =
    ((s, d, c, omega (arith, end, on)), ready)

-- The producer writes in its room.
module _ (m m' : Memory) (cap head tail n : ℕ) (pos : 0 < cap) (room : Room cap head tail n)
    (same : (i : ℕ) → Apart (tail % cap) n i 1 → m i ≡ m' i) where
  Claims-write : (to : ℕ) (g : Stage) → Claims m cap head tail to g → Claims m' cap head tail to g
  Claims-write to g (s, d, c, end) = (
    s,
    d,
    (SpanAt-keep m m' cap tail n pos room.0 same head s (omega (arith, c.1, end)) room.1 c.0, c.1),
    end,
  )

  pub Consuming-write : (c : Consumer) → Consuming m cap head tail c → Consuming m' cap head tail c
  Consuming-write quiet f = f
  Consuming-write (saw_tail t) f = f
  Consuming-write (taking to g) f = Claims-write to g f
  Consuming-write (giving to g) f = (Claims-write to g f.0, f.1)

-- A producer that writes has room for what it writes.
pub Writing-Room :
    (m : Memory) (cap head tail number bound : ℕ) (p : Producer) (n : ℕ)
    → Writing p n
    → Producing m cap head tail number bound p
    → Room cap head tail n
Writing-Room m cap head tail number bound resting n w f = elim w [ ]
Writing-Room m cap head tail number bound (starting p) n w f = elim w [ ]
Writing-Room m cap head tail number bound (saw_head p h) n w f = elim w [ ]
Writing-Room m cap head tail number bound (wrapping p) n w f =
    (omega (arith, w, f.1.0), omega (arith, w, f.1.1))
Writing-Room m cap head tail number bound (placing p) n w f = (
  omega (arith, w, f.1.0, record_size_lem (length p.1) f.0.0),
  omega (arith, w, f.1.1, record_size_lem (length p.1) f.0.0),
)
Writing-Room m cap head tail number bound (numbering p) n w f = elim w [ ]
Writing-Room m cap head tail number bound (moving p to o) n w f = elim w [ ]
Writing-Room m cap head tail number bound (reserved p to o) n w f = elim w [ ]

-- A write of a part of its bytes leaves it where it was.
pub Producing-write :
    (m m' : Memory) (cap head tail number bound : ℕ) (p : Producer) (n : ℕ)
    → Writing p n
    → Producing m cap head tail number bound p
    → Producing m' cap head tail number bound p
Producing-write m m' cap head tail number bound resting n w f = elim w [ ]
Producing-write m m' cap head tail number bound (starting p) n w f = elim w [ ]
Producing-write m m' cap head tail number bound (saw_head p h) n w f = elim w [ ]
Producing-write m m' cap head tail number bound (wrapping p) n w f = f
Producing-write m m' cap head tail number bound (placing p) n w f = f
Producing-write m m' cap head tail number bound (numbering p) n w f = elim w [ ]
Producing-write m m' cap head tail number bound (moving p to o) n w f = elim w [ ]
Producing-write m m' cap head tail number bound (reserved p to o) n w f = elim w [ ]
