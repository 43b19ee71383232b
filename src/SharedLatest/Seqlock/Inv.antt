-- ===== src/SharedLatest/Seqlock/Inv.antt =====
-- What holds in every state of the interleaved write and read, and what a read returns.
use lock_free_ring_buffer.Prelude.{
  ℕ, zero, suc, ◌+◌, ◌*◌, ◌%◌, ◌≤◌, ◌<◌, ◌≡◌, refl, sym, ap, ap₂, ◌∙◌, subst, ◌⊎◌, inl, inr, List,
  [], ◌∷◌, ◌++◌, length, take, take_all, length-append, arith,
}
use lock_free_ring_buffer.Word.{u64, ◌+w◌, bit_and-one}
use lock_free_ring_buffer.Memory.{Memory, store_byte, load_bytes, load_bytes-agree}
use lock_free_ring_buffer.SharedLatest.Seqlock.{
  get_or, Writer, idle, copying, Reader, start, reading, returned, failed, State, Step, begin_write,
  write_byte, commit, load_odd, load_even, read_byte, unchanged, changed, give_up, initial, Reach,
  here, later,
}

pub load_bytes-snoc :
    (m : Memory) (a n : ℕ) → load_bytes m a (suc n) ≡ load_bytes m a n ++ m (a + n) ∷ []
unfolding load_bytes
load_bytes-snoc m a zero = ap (λ i. m i ∷ []) (omega arith)
load_bytes-snoc m a (suc n) =
    ap (λ bs. m a ∷ bs)
      (load_bytes-snoc m (suc a) n
        ∙ ap (λ i. load_bytes m (suc a) n ++ m i ∷ [])
            (let same : suc a + n ≡ a + suc n = omega arith in same))

load_none : (m : Memory) → load_bytes m 0 0 ≡ []
unfolding load_bytes
load_none m = refl

load_snoc : (m : Memory) (n : ℕ) → load_bytes m 0 (suc n) ≡ load_bytes m 0 n ++ m n ∷ []
load_snoc m n =
    load_bytes-snoc m 0 n
    ∙ ap (λ i. load_bytes m 0 n ++ m i ∷ []) (let same : 0 + n ≡ n = omega arith in same)

take-snoc : (k : ℕ) (v : List ℕ) → k < length v → take (suc k) v ≡ take k v ++ get_or v k 0 ∷ []
take-snoc k [] h = absurd (omega arith)
take-snoc zero (x ∷ v) h = refl
take-snoc (suc k) (x ∷ v) h = ap (λ bs. x ∷ bs) (take-snoc k v (omega arith))

-- The value is among those committed.
abbrev pub Committed : List ℕ → List (List ℕ) → Type 0
Committed v [] = ⊥
Committed v (x ∷ xs) = (v ≡ x) ⊎ Committed v xs

-- The value is the newest of those committed.
abbrev pub Newest : List ℕ → List (List ℕ) → Type 0
Newest v [] = ⊥
Newest v (x ∷ xs) = v ≡ x

Newest-Committed : (v : List ℕ) (h : List (List ℕ)) → Newest v h → Committed v h
Newest-Committed v [] n = n
Newest-Committed v (x ∷ h) n = inl n

Newest-eq : (v w : List ℕ) (h : List (List ℕ)) → v ≡ w → Newest w h → Newest v h
Newest-eq v w [] e n = n
Newest-eq v w (x ∷ h) e n = e ∙ n

module _ (sizeof_t max_retries first : ℕ) (old : List (List ℕ)) where
  -- The writer has committed `length history - length old` values, two numbers each.
  abbrev Counted : ℕ → List (List ℕ) → Type 0
  Counted s history = s + 2 * length old ≡ first + 2 * length history

  abbrev WriterAt : ℕ → Memory → List (List ℕ) → Writer → Type 0
  WriterAt sequence m history idle =
      (sequence % 2 ≡ 0) × Counted sequence history × Newest (load_bytes m 0 sizeof_t) history
  WriterAt sequence m history (copying s v k) =
      (s % 2 ≡ 0)
      × (sequence ≡ s + 1)
      × Counted s history
      × (length v ≡ sizeof_t)
      × (k ≤ sizeof_t)
      × (load_bytes m 0 k ≡ take k v)

  abbrev ReaderAt : ℕ → Memory → List (List ℕ) → Reader → Type 0
  ReaderAt sequence m history (start i) = Unit
  ReaderAt sequence m history (reading i s₁ got) =
      (s₁ % 2 ≡ 0)
      × (s₁ ≤ sequence)
      × (length got ≤ sizeof_t)
      × (sequence ≡ s₁ → got ≡ load_bytes m 0 (length got))
  ReaderAt sequence m history (returned v) = Committed v history
  ReaderAt sequence m history failed = Unit

  pub record Inv (x : State) : Type 0 where
    pub writing : WriterAt x.sequence x.bytes x.history x.writer
    pub reading_at : ReaderAt x.sequence x.bytes x.history x.reader

  -- The sequence number does not reach the end of its 64 bits.
  abbrev pub Small : State → Type 0
  Small x = first + 2 * length x.history + 2 < u64

  -- A write that moves the number on, or leaves an odd one, does not disturb the reader.
  ReaderAt-move :
      (n n' : ℕ) (m m' : Memory) (h h' : List (List ℕ)) (r : Reader)
      → n ≤ n'
      → ((s : ℕ) → s % 2 ≡ 0 → s ≤ n → n' ≡ s → ⊥)
      → ((v : List ℕ) → Committed v h → Committed v h')
      → ReaderAt n m h r
      → ReaderAt n' m' h' r
  ReaderAt-move n n' m m' h h' (start i) up no_more keep a = tt
  ReaderAt-move n n' m m' h h' (reading i s₁ got) up no_more keep a =
      (a.0, omega arith, a.2, λ e. absurd (no_more s₁ a.0 a.1 e))
  ReaderAt-move n n' m m' h h' (returned v) up no_more keep a = keep v a
  ReaderAt-move n n' m m' h h' failed up no_more keep a = tt

  history-grows :
      {x y : State} → Step sizeof_t max_retries x y → length x.history ≤ length y.history
  history-grows (commit e) = omega arith
  history-grows (begin_write e f) = omega arith
  history-grows (write_byte e f) = omega arith
  history-grows (load_odd e f g) = omega arith
  history-grows (load_even e f g) = omega arith
  history-grows (read_byte e f) = omega arith
  history-grows (unchanged e f g) = omega arith
  history-grows (changed e f g) = omega arith
  history-grows (give_up e f) = omega arith

  writer_at :
      {x : State} {w : Writer} → Inv x → x.writer ≡ w → WriterAt x.sequence x.bytes x.history w
  writer_at {x} v e = subst (λ w. WriterAt x.sequence x.bytes x.history w) e v.writing

  reader_at :
      {x : State} {r : Reader} → Inv x → x.reader ≡ r → ReaderAt x.sequence x.bytes x.history r
  reader_at {x} v e = subst (λ r. ReaderAt x.sequence x.bytes x.history r) e v.reading_at

  -- The byte that the writer copies next.
  copied :
      (m : Memory) (v : List ℕ) (k : ℕ)
      → k < length v
      → load_bytes m 0 k ≡ take k v
      → load_bytes (store_byte m k (get_or v k 0)) 0 (suc k) ≡ take (suc k) v
  copied m v k h e =
      load_snoc (store_byte m k (get_or v k 0)) k
      ∙ ap₂ (λ bs b. bs ++ b ∷ [])
          (load_bytes-agree (store_byte m k (get_or v k 0)) m 0 k (λ i p q. ground arith) ∙ e)
          (ground arith)
      ∙ sym (take-snoc k v h)

  even_is_idle :
      (n : ℕ) (m : Memory) (h : List (List ℕ)) (w : Writer)
      → WriterAt n m h w
      → n % 2 ≡ 0
      → Newest (load_bytes m 0 sizeof_t) h
  even_is_idle n m h idle a e = a.2
  even_is_idle n m h (copying s v k) a e = absurd (omega arith)

  -- A reader whose second look at the number finds what the first found holds the newest value.
  unchanged_read :
      {x : State} {n s₁ : ℕ} {got : List ℕ}
      → Inv x
      → x.reader ≡ reading n s₁ got
      → length got ≡ sizeof_t
      → x.sequence ≡ s₁
      → Newest got x.history
  unchanged_read {x} {got} i e f g =
      let (even, below, _, kept) = reader_at i e in
      Newest-eq got (load_bytes x.bytes 0 sizeof_t) x.history (kept g ∙ ap (load_bytes x.bytes 0) f)
        (even_is_idle x.sequence x.bytes x.history x.writer i.writing (ap (λ n. n % 2) g ∙ even))

  pub Step-Inv :
      {x y : State}
      → Step sizeof_t max_retries x y
      → length old ≤ length x.history
      → Small y
      → Inv x
      → Inv y
  Step-Inv {x} (begin_write {v} e size) l small i =
      let (even, count, _) = writer_at i e in
      let odd : x.sequence +w 1 ≡ x.sequence + 1 = omega arith in
      record {
        writing = (even, odd, count, size, omega arith, load_none x.bytes);
        reading_at =
            ReaderAt-move x.sequence (x.sequence +w 1) x.bytes x.bytes x.history x.history x.reader
              (omega arith) (λ s p q f. omega arith) (λ w c. c) i.reading_at;
      }
  Step-Inv {x} (write_byte {s} {v} {k} e h) l small i =
      let (even, odd, count, size, _, done) = writer_at i e in
      record {
        writing = (even, odd, count, size, h, copied x.bytes v k (omega arith) done);
        reading_at =
            ReaderAt-move x.sequence x.sequence x.bytes (store_byte x.bytes k (get_or v k 0))
              x.history x.history x.reader (omega arith) (λ s p q f. omega arith) (λ w c. c)
              i.reading_at;
      }
  Step-Inv {x} (commit {s} {v} e) l small i =
      let (even, odd, count, size, _, done) = writer_at i e in
      let next : s +w 2 ≡ s + 2 = omega arith in
      record {
        writing = (omega arith, omega arith, done ∙ ap (λ n. take n v) (sym size) ∙ take_all v);
        reading_at =
            ReaderAt-move x.sequence (s +w 2) x.bytes x.bytes x.history (v ∷ x.history) x.reader
              (omega arith) (λ r p q f. omega arith) (λ w c. inr c) i.reading_at;
      }
  Step-Inv (load_odd e f g) l small i = record { writing = i.writing; reading_at = tt }
  Step-Inv {x} (load_even e f g) l small i = record {
    writing = i.writing;
    reading_at = (
      omega (arith, bit_and-one x.sequence),
      omega arith,
      omega arith,
      λ h. sym (load_none x.bytes),
    );
  }
  Step-Inv {x} (read_byte {i = n} {s₁} {got} e f) l small i =
      let (even, below, _, kept) = reader_at i e in
      record {
        writing = i.writing;
        reading_at = (
          even,
          below,
          omega (arith, length-append got (x.bytes (length got) ∷ [])),
          λ h.
              ap (λ bs. bs ++ x.bytes (length got) ∷ []) (kept h)
              ∙ sym (load_snoc x.bytes (length got))
              ∙ ap (load_bytes x.bytes 0)
                  (omega (arith, length-append got (x.bytes (length got) ∷ []))),
        );
      }
  Step-Inv {x} (unchanged {got} e f g) l small i = record {
    writing = i.writing;
    reading_at = Newest-Committed got x.history (unchanged_read i e f g);
  }
  Step-Inv (changed e f g) l small i = record { writing = i.writing; reading_at = tt }
  Step-Inv (give_up e f) l small i = record { writing = i.writing; reading_at = tt }

module _ (sizeof_t max_retries first : ℕ) (old : List (List ℕ)) (m : Memory) (even : first % 2 ≡ 0)
    (held : Newest (load_bytes m 0 sizeof_t) old) where
  abbrev Reached : State → Type 0
  Reached = Reach sizeof_t max_retries (initial sizeof_t max_retries first m old)

  history-le : {y : State} → Reached y → length old ≤ length y.history
  history-le here = omega arith
  history-le (later r s) =
      omega (arith, history-le r, history-grows sizeof_t max_retries first old s)

  Reach-Inv :
      {y : State}
      → Reached y
      → Small sizeof_t max_retries first old y
      → Inv sizeof_t max_retries first old y
  Reach-Inv here small = record { writing = (even, omega arith, held); reading_at = tt }
  Reach-Inv (later r s) small =
      Step-Inv sizeof_t max_retries first old s (history-le r) small
        (Reach-Inv r (omega (arith, history-grows sizeof_t max_retries first old s)))

  -- From a slot between two writes, with an even number, in every state of every interleaving of the
  -- writer with a reader, before the number reaches the end of its 64 bits: where the reader has
  -- copied a whole value and finds the number that it found before the copy, the copy is the value
  -- that was committed last.
  pub read_is_last_write :
      {y : State} {n s₁ : ℕ} {got : List ℕ}
      → Reached y
      → Small sizeof_t max_retries first old y
      → y.reader ≡ reading n s₁ got
      → length got ≡ sizeof_t
      → y.sequence ≡ s₁
      → Newest got y.history
  read_is_last_write r small e f g =
      unchanged_read sizeof_t max_retries first old (Reach-Inv r small) e f g

  -- From a slot between two writes, with an even number, in every state of every interleaving of the
  -- writer with a reader, before the number reaches the end of its 64 bits: a value that the reader
  -- has returned is one that was committed whole.
  pub returned-Committed :
      {y : State} {v : List ℕ}
      → Reached y
      → Small sizeof_t max_retries first old y
      → y.reader ≡ returned v
      → Committed v y.history
  returned-Committed r small e = reader_at sizeof_t max_retries first old (Reach-Inv r small) e
