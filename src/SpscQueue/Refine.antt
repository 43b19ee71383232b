-- ===== src/SpscQueue/Refine.antt =====
-- An `SPSCQueue` whose capacity is a power of two behaves as a bounded FIFO, also when its counters
-- wrap at 64 bits.
use native.Mathlib.Decide.{dec_lt, ℕ_discrete}
use lock_free_ring_buffer.Prelude.{
  ℕ, suc, ◌+◌, ◌*◌, ◌%◌, ◌≤◌, ◌<◌, ◌≡◌, sym, ap, ◌∙◌, List, [], ◌∷◌, ◌++◌, length, arith, Bool,
  true, false, Option, none, some, ltb, if◌then◌else◌, le→leb, lt→leb, eq→==, ne→==, ◌≢◌, lt→ltb,
  le→ltb,
}
use lock_free_ring_buffer.Word.{
  u64, ◌+w◌, ◌-w◌, pow2, pow2_pos, bit_and-mask, wrap-mod-pow2, pow2_double_le,
}
use lock_free_ring_buffer.Memory.{store_bytes, load_bytes}
use lock_free_ring_buffer.Ring.{Ring}
use lock_free_ring_buffer.SpscQueue.{try_push, try_pop}
use lock_free_ring_buffer.SpscQueue.Slots.{slots, length-slots, slots-store, slots_of_eq}

-- The contract: a queue of at most `capacity` values, oldest first.
unfoldable pub fifo_push : ℕ → List (List ℕ) → List ℕ → List (List ℕ) × Bool
fifo_push capacity xs x = if ltb (length xs) capacity then (xs ++ x ∷ [], true) else (xs, false)

unfoldable pub fifo_pop : List (List ℕ) → List (List ℕ) × Option (List ℕ)
fifo_pop [] = ([], none)
fifo_pop (x ∷ xs) = (xs, some x)

-- The capacity is 2 ^ k; the counters are words at most a capacity apart.
pub record Inv (k : ℕ) (q : Ring) : Type 0 where
  pub width : k < 64
  pub head_word : q.head_publish < u64
  pub tail_word : q.tail_publish < u64
  pub within : q.tail_publish -w q.head_publish ≤ pow2 k

module _ (k sizeof_t : ℕ) where
  abbrev pub contents : Ring → List (List ℕ)
  contents q = slots (pow2 k) sizeof_t q.bytes q.head_publish (q.tail_publish -w q.head_publish)

  pub length-contents : (q : Ring) → length (contents q) ≡ q.tail_publish -w q.head_publish
  length-contents q =
      length-slots (pow2 k) sizeof_t q.bytes q.head_publish (q.tail_publish -w q.head_publish)

  -- The tail stands `size` slots behind the head.
  pub tail-mod :
      (q : Ring)
      → Inv k q
      → q.tail_publish % pow2 k ≡ (q.head_publish + (q.tail_publish -w q.head_publish)) % pow2 k
  tail-mod q v =
      ap (λ n. n % pow2 k)
        (let whole : q.tail_publish ≡ (q.head_publish + (q.tail_publish -w q.head_publish)) % u64 =
            omega (arith, v.head_word, v.tail_word) in
          whole)
      ∙ wrap-mod-pow2 k (q.head_publish + (q.tail_publish -w q.head_publish))
          (omega (arith, v.width))

  -- The queue after an accepted push.
  abbrev pushed : Ring → List ℕ → Ring
  pushed q value = record {
    control = record {
      head_reserve = q.head_reserve;
      head_publish = q.head_publish;
      tail_reserve = q.tail_reserve;
      tail_publish = q.tail_publish +w 1;
      sequence = q.sequence;
    };
    bytes = store_bytes q.bytes (q.tail_publish % pow2 k * sizeof_t) value;
    capacity = q.capacity;
  }

  push_full :
      (q : Ring) (value : List ℕ)
      → pow2 k ≤ q.tail_publish -w q.head_publish
      → try_push (pow2 k) sizeof_t q value ≡ (q, false)
  unfolding try_push
  push_full q value h = rw (le→leb (pow2 k) (q.tail_publish -w q.head_publish) h)

  push_room :
      (q : Ring) (value : List ℕ)
      → q.tail_publish -w q.head_publish < pow2 k
      → try_push (pow2 k) sizeof_t q value ≡ (pushed q value, true)
  unfolding try_push
  push_room q value h =
      rw (lt→leb (pow2 k) (q.tail_publish -w q.head_publish) h) (rw (bit_and-mask k q.tail_publish))

  pushed-Inv :
      (q : Ring) (value : List ℕ)
      → Inv k q
      → q.tail_publish -w q.head_publish < pow2 k
      → Inv k (pushed q value)
  pushed-Inv q value v h = record {
    width = v.width;
    head_word = v.head_word;
    tail_word = omega arith;
    within = omega (arith, v.head_word, v.tail_word, pow2_double_le k v.width);
  }

  contents-pushed :
      (q : Ring) (value : List ℕ)
      → Inv k q
      → length value ≡ sizeof_t
      → q.tail_publish -w q.head_publish < pow2 k
      → contents (pushed q value) ≡ contents q ++ value ∷ []
  contents-pushed q value v fits h =
      ap (slots (pow2 k) sizeof_t (pushed q value).bytes q.head_publish) more
      ∙ slots-store (pow2 k) sizeof_t q.bytes q.head_publish (q.tail_publish -w q.head_publish)
          q.tail_publish value (pow2_pos k) h (tail-mod q v) fits
    where
      more : (q.tail_publish +w 1) -w q.head_publish ≡ suc (q.tail_publish -w q.head_publish)
      more = omega (arith, v.head_word, v.tail_word, pow2_double_le k v.width)

  -- `try_push` of a value of the slot's size does what the queue promises: it appends the value and
  -- returns true, or returns false if the queue holds `capacity` values. The counters stay words
  -- at most a capacity apart.
  pub push_refines_fifo :
      (q : Ring) (value : List ℕ)
      → Inv k q
      → length value ≡ sizeof_t
      → let (q', ok) = try_push (pow2 k) sizeof_t q value in
        ((contents q', ok) ≡ fifo_push (pow2 k) (contents q) value) × Inv k q'
  unfolding fifo_push
  push_refines_fifo q value v fits = elim (dec_lt (q.tail_publish -w q.head_publish) (pow2 k)) [
    | yes room ↦ rw (push_room q value room) (
      rw (length-contents q) (
          rw (lt→ltb (q.tail_publish -w q.head_publish) (pow2 k) room)
            (ap (λ xs. (xs, true)) (contents-pushed q value v fits room))),
      pushed-Inv q value v room,
    )
    | no full ↦ rw (push_full q value (omega arith)) (
      rw (length-contents q)
          (rw (le→ltb (q.tail_publish -w q.head_publish) (pow2 k) (omega arith))),
      v,
    )
  ]

  -- The queue after a pop.
  abbrev popped : Ring → Ring
  popped q = record {
    control = record {
      head_reserve = q.head_reserve;
      head_publish = q.head_publish +w 1;
      tail_reserve = q.tail_reserve;
      tail_publish = q.tail_publish;
      sequence = q.sequence;
    };
    bytes = q.bytes;
    capacity = q.capacity;
  }

  pop_some :
      (q : Ring)
      → q.head_publish ≢ q.tail_publish
      → try_pop (pow2 k) sizeof_t q
        ≡ (popped q, some (load_bytes q.bytes (q.head_publish % pow2 k * sizeof_t) sizeof_t))
  unfolding try_pop
  pop_some q h = rw (ne→== q.head_publish q.tail_publish h) (rw (bit_and-mask k q.head_publish))

  pub contents-popped :
      (q : Ring)
      → Inv k q
      → q.head_publish ≢ q.tail_publish
      → contents q
        ≡ load_bytes q.bytes (q.head_publish % pow2 k * sizeof_t) sizeof_t ∷ contents (popped q)
  contents-popped q v h =
      ap (slots (pow2 k) sizeof_t q.bytes q.head_publish) fewer
      ∙ ap (λ xs. load_bytes q.bytes (q.head_publish % pow2 k * sizeof_t) sizeof_t ∷ xs)
          (slots_of_eq (pow2 k) sizeof_t q.bytes (suc q.head_publish) (q.head_publish +w 1)
            (q.tail_publish -w (q.head_publish +w 1))
            (ap (λ n. n % pow2 k)
                (let next : suc q.head_publish ≡ q.head_publish + 1 = omega arith in next)
              ∙ sym (wrap-mod-pow2 k (q.head_publish + 1) (omega (arith, v.width)))))
    where
      fewer : q.tail_publish -w q.head_publish ≡ suc (q.tail_publish -w (q.head_publish +w 1))
      fewer = omega (arith, v.head_word, v.tail_word, pow2_double_le k v.width)

  pub popped-Inv : (q : Ring) → Inv k q → q.head_publish ≢ q.tail_publish → Inv k (popped q)
  popped-Inv q v h = record {
    width = v.width;
    head_word = omega arith;
    tail_word = v.tail_word;
    within = omega (arith, v.head_word, v.tail_word, v.within, pow2_double_le k v.width);
  }

  -- `try_pop` does what the queue promises: it hands over the oldest value and leaves the rest, or
  -- returns false if there is none. The counters stay words at most a capacity apart.
  pub pop_refines_fifo :
      (q : Ring)
      → Inv k q
      → let (q', out) = try_pop (pow2 k) sizeof_t q in
        ((contents q', out) ≡ fifo_pop (contents q)) × Inv k q'
  unfolding fifo_pop
  pop_refines_fifo q v = elim (ℕ_discrete q.head_publish q.tail_publish) [
    | yes same ↦ rw (pop_none q same) (rw (contents-none q v same), v)
    | no more ↦ rw (pop_some q more) (rw (contents-popped q v more), popped-Inv q v more)
  ]
    where
      pop_none :
          (r : Ring) → r.head_publish ≡ r.tail_publish → try_pop (pow2 k) sizeof_t r ≡ (r, none)
      pop_none r same = unfold try_pop in rw (eq→== r.head_publish r.tail_publish same)

      contents-none : (r : Ring) → Inv k r → r.head_publish ≡ r.tail_publish → contents r ≡ []
      contents-none r v same = ap (slots (pow2 k) sizeof_t r.bytes r.head_publish) (
          let nothing : r.tail_publish -w r.head_publish ≡ 0 = omega (arith, v.tail_word) in
          nothing)
