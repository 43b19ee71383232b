-- ===== src/Mpsc/Push.antt =====
-- A push of the rings of many producers with no other producer in between, against the messages that
-- the ring holds.
use native.Mathlib.Nat.{mod-lt}
use native.Mathlib.Decide.{dec_lt}
use lock_free_ring_buffer.Prelude.{
  ℕ, ◌+◌, ◌-◌, ◌%◌, ◌≤◌, ◌<◌, ◌≡◌, refl, sym, subst, ap, ◌∙◌, inl, inr, List, [], ◌++◌, ◌∷◌, arith,
  Bool, true, false, Option, none, some, ltb, lt→leb, le→leb, lt→ltb, le→ltb, length, take_all,
  Bool-cases, eq→==,
}
use lock_free_ring_buffer.Word.{u32, u16, ◌+w◌, ◌-w◌}
use lock_free_ring_buffer.Record.{record_size, record_size_lem, write_record}
use lock_free_ring_buffer.Ring.{Ring, set_tail}
use lock_free_ring_buffer.Ring.Spans.{Span, gap}
use lock_free_ring_buffer.Ring.Inv.{Inv, HasRoom, head-le-tail}
use lock_free_ring_buffer.Ring.Loop.{run_rounds-finish, run_rounds-retry}
use lock_free_ring_buffer.Spsc.{append_record, append_wrap, push_round, try_push as spsc_push}
use lock_free_ring_buffer.Spsc.Rounds.{
  accepts, rest, append_wrap-Inv, append_wrap_fields, push_round_fits, push_round_skips,
}
use lock_free_ring_buffer.Spsc.Push.{Pushed, try_push_refines}
use lock_free_ring_buffer.Mpsc.{reserve, fill, publish, try_push, position}

module _ (r : Ring) (type : ℕ) (payload : List ℕ) (lone : r.tail_reserve ≡ r.tail_publish) where
  abbrev needed : ℕ
  needed = record_size (length payload)

  -- A record that fits in one piece.
  push_fits :
      0 < r.capacity
      → r.head_publish ≤ r.tail_publish
      → HasRoom r
      → needed ≤ r.capacity
      → 16 ≤ needed
      → needed ≤ rest r
      → r.tail_publish + needed ≤ r.head_publish + r.capacity
      → try_push r (some payload) (length payload) type
        ≡ some (append_record r (length payload) type payload, true)
  unfolding try_push reserve fill publish position append_record set_tail write_record
  push_fits pos below room small wide fits free =
      rw (le→ltb r.capacity needed small, take_all payload, lone)
        (rw
          (
            le→ltb r.capacity (r.tail_publish -w r.head_publish) (omega arith),
            le→ltb (rest r) 16 (omega arith),
            le→ltb (rest r) needed fits,
            le→ltb r.capacity ((r.tail_publish -w r.head_publish) +w (0 +w needed))
                (omega (arith, mod-lt r.tail_publish pos)),
          )
          (rw (eq→== r.tail_publish r.tail_publish refl) (rw (reserved, published) refl)))
    where
      reserved : r.tail_publish +w (0 +w needed) ≡ r.tail_publish +w needed
      reserved = omega arith

      published : r.tail_publish +w 0 +w needed ≡ r.tail_publish +w needed
      published = omega arith

  -- A record that goes to the start of the ring.
  push_skips :
      0 < r.capacity
      → r.head_publish ≤ r.tail_publish
      → HasRoom r
      → needed ≤ r.capacity
      → 16 ≤ needed
      → rest r < needed
      → r.tail_publish + rest r + needed ≤ r.head_publish + r.capacity
      → try_push r (some payload) (length payload) type
        ≡ some (append_record (append_wrap r) (length payload) type payload, true)
  unfolding try_push reserve fill publish position append_record append_wrap set_tail write_record
  push_skips pos below room small wide long free =
      rw (le→ltb r.capacity needed small, take_all payload, lone)
        (rw (le→ltb r.capacity (r.tail_publish -w r.head_publish) (omega arith), start_again)
          (elim (dec_lt (rest r) 16) [
            | yes short ↦
                rw (lt→ltb (rest r) 16 short, lt→leb 16 (rest r) short)
                  (rw
                    (
                      le→ltb r.capacity ((r.tail_publish -w r.head_publish) +w (rest r +w needed))
                          (omega (arith, mod-lt r.tail_publish pos)),
                      lt→ltb 0 (rest r) (omega (arith, mod-lt r.tail_publish pos)),
                    )
                    (rw (eq→== r.tail_publish r.tail_publish refl) (rw sums refl)))
            | no header ↦
                rw
                  (
                    le→ltb (rest r) 16 (omega arith),
                    le→leb 16 (rest r) (omega arith),
                    lt→ltb (rest r) needed long,
                  )
                  (rw
                    (
                      le→ltb r.capacity ((r.tail_publish -w r.head_publish) +w (rest r +w needed))
                          (omega (arith, mod-lt r.tail_publish pos)),
                      lt→ltb 0 (rest r) (omega (arith, mod-lt r.tail_publish pos)),
                    )
                    (rw (eq→== r.tail_publish r.tail_publish refl)
                      (rw (le→leb 16 (rest r) (omega arith), sums) refl)))
          ]))
    where
      start_again : (r.tail_publish +w rest r) % r.capacity ≡ 0
      start_again = (append_wrap_fields r room pos).1

      sums : r.tail_publish +w (rest r +w needed) ≡ r.tail_publish +w rest r +w needed
      sums = omega arith

  no_room :
      r.head_publish ≤ r.tail_publish
      → r.tail_publish ≤ r.head_publish + r.capacity
      → HasRoom r
      → 16 ≤ needed
      → needed ≤ r.capacity
      → accepts r (length payload) ≡ false
      → reserve r.head_publish r needed ≡ none
  unfolding reserve
  no_room below window room wide small full = ground (arith, lone)

  push_full :
      reserve r.head_publish r needed ≡ none
      → try_push r (some payload) (length payload) type ≡ some (r, false)
  unfolding try_push
  push_full e = elim (Bool-cases (ltb r.capacity needed)) [
    | inl big ↦ rw big refl
    | inr small ↦ rw small (rw e refl)
  ]

module _ (r : Ring) (ss : List Span) (type : ℕ) (payload : List ℕ) (v : Inv r ss) (room : HasRoom r)
    (hs : length payload < u32) (small : record_size (length payload) ≤ r.capacity) where
  one_producer_fits :
      record_size (length payload) ≤ rest r
      → r.tail_publish + record_size (length payload) ≤ r.head_publish + r.capacity
      → spsc_push r (some payload) (length payload) type
        ≡ some (append_record r (length payload) type payload, true)
  unfolding spsc_push
  one_producer_fits fits free =
      rw (le→ltb r.capacity (record_size (length payload)) small, take_all payload)
        (run_rounds-finish (push_round (length payload) type payload) 1 r _ true (
          push_round_fits r ss (length payload) type payload v (omega arith) hs fits
          ∙ rw
              (le→leb (r.tail_publish - r.head_publish + record_size (length payload)) r.capacity
                (omega (arith, head-le-tail v)))
              refl))

  one_producer_skips :
      rest r < record_size (length payload)
      → r.tail_publish + rest r + record_size (length payload) ≤ r.head_publish + r.capacity
      → spsc_push r (some payload) (length payload) type
        ≡ some (append_record (append_wrap r) (length payload) type payload, true)
  unfolding spsc_push
  one_producer_skips long free =
      rw (le→ltb r.capacity (record_size (length payload)) small, take_all payload)
        (run_rounds-retry (push_round (length payload) type payload) 1 r (append_wrap r)
            (push_round_skips r ss (length payload) type payload v room hs small long free)
          ∙ run_rounds-finish (push_round (length payload) type payload) 0 (append_wrap r) _ true (
              push_round_fits (append_wrap r) (ss ++ gap ∷ []) (length payload) type payload
                (append_wrap-Inv r ss v room (omega arith))
                (omega (arith, f, mod-lt r.tail_publish v.positive)) hs (omega (arith, f, at_start))
              ∙ rw
                  (le→leb
                    ((append_wrap r).tail_publish
                      - (append_wrap r).head_publish
                      + record_size (length payload))
                    (append_wrap r).capacity (omega (arith, f, free, head-le-tail v)))
                  refl))
    where
      f :
          ((append_wrap r).tail_publish ≡ r.tail_publish + rest r)
          × ((append_wrap r).tail_publish % r.capacity ≡ 0)
          × ((append_wrap r).head_publish ≡ r.head_publish)
          × ((append_wrap r).capacity ≡ r.capacity)
          × ((append_wrap r).sequence ≡ r.sequence)
      f = append_wrap_fields r room v.positive

      at_start : (append_wrap r).tail_publish % (append_wrap r).capacity ≡ 0
      at_start = ap (λ c. (append_wrap r).tail_publish % c) f.3 ∙ f.1

-- A ring that turns the message down is as it was.
turned_down :
    (r : Ring) (ss : List Span) (type : ℕ) (payload : List ℕ) (result : Option (Ring × Bool))
    → Inv r ss
    → accepts r (length payload) ≡ false
    → result ≡ some (r, false)
    → Pushed r ss type payload result
turned_down r ss type payload result v full e = record {
  final = r;
  spans = ss;
  returned = rw full e;
  inv = v;
  contents = rw full refl;
  number_same = rw full refl;
  head_same = refl;
  capacity_same = refl;
  outside = λ i far. refl;
}

-- With no other producer under way, the push of the ring of many producers does over a ring in order
-- what the push of the ring of one producer promises, and under the same conditions: it returns true,
-- with the message behind those that the ring held, if the free bytes take the record and its
-- padding, and false with the messages as they were if not.
pub lone_push_refines :
    (r : Ring) (ss : List Span) (type : ℕ) (payload : List ℕ)
    → Inv r ss
    → r.tail_reserve ≡ r.tail_publish
    → HasRoom r
    → length payload < u32
    → type < u16
    → Pushed r ss type payload (try_push r (some payload) (length payload) type)
unfolding try_push
lone_push_refines r ss type payload v lone room hs ht =
    elim (dec_lt r.capacity (record_size (length payload))) [
      | yes big ↦
          turned_down r ss type payload _ v (ground arith)
            (rw (lt→ltb r.capacity (record_size (length payload)) big) refl)
      | no small ↦ elim (Bool-cases (accepts r (length payload))) [
        | inr full ↦ turned_down r ss type payload _ v full (
            push_full r type payload lone
              (no_room r type payload lone (head-le-tail v) v.window room wide (omega arith) full))
        | inl ok ↦
            subst (Pushed r ss type payload) (same (omega arith) ok)
              (try_push_refines r ss type payload v room hs ht)
      ]
    ]
  where
    wide : 16 ≤ record_size (length payload)
    wide = omega (arith, record_size_lem (length payload) hs)

    same :
        record_size (length payload) ≤ r.capacity
        → accepts r (length payload) ≡ true
        → spsc_push r (some payload) (length payload) type
          ≡ try_push r (some payload) (length payload) type
    same small ok = elim (dec_lt (rest r) (record_size (length payload))) [
      | yes long ↦
          let free : r.tail_publish + rest r + record_size (length payload)
              ≤ r.head_publish + r.capacity =
            ground (arith, head-le-tail v) in
          one_producer_skips r ss type payload v room hs small long free
          ∙ sym
              (push_skips r type payload lone v.positive (head-le-tail v) room small wide long free)
      | no fits ↦
          let free : r.tail_publish + record_size (length payload) ≤ r.head_publish + r.capacity =
            ground (arith, head-le-tail v) in
          one_producer_fits r ss type payload v room hs small (omega arith) free
          ∙ sym (
              push_fits r type payload lone v.positive (head-le-tail v) room small wide
                (omega arith) free)
    ]
