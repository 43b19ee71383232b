-- ===== src/Spsc/Push.antt =====
-- `SharedRingBufferSPSC::try_push` against the messages that the ring holds.
use native.Mathlib.Nat.{mod-lt}
use native.Mathlib.Decide.{dec_lt}
use lock_free_ring_buffer.Prelude.{
  ℕ, suc, ◌+◌, ◌-◌, ◌*◌, ◌%◌, ◌≤◌, ◌<◌, ◌≡◌, refl, ap, ◌∙◌, inl, inr, List, [], ◌∷◌, ◌++◌, arith,
  Bool, true, false, Option, some, leb, le→ltb, if◌then◌else◌, length, take_all, Bool-cases,
  append-nil,
}
use lock_free_ring_buffer.Word.{u64, u32, u16, ◌+w◌}
use lock_free_ring_buffer.Record.{Message, record_size, record_size_lem}
use lock_free_ring_buffer.Ring.{Ring}
use lock_free_ring_buffer.Ring.Spans.{Span, gap, message, messages, messages-append}
use lock_free_ring_buffer.Ring.Inv.{Inv, HasRoom, head-le-tail}
use lock_free_ring_buffer.Ring.Loop.{retry, finish, run_rounds, run_rounds-finish, run_rounds-retry}
use lock_free_ring_buffer.Spsc.{append_record, append_wrap, push_round, push_rounds, try_push}
use lock_free_ring_buffer.Spsc.Rounds.{
  accepts, append_record-Inv, append_record_outside, append_wrap_outside, rest, append_wrap-Inv,
  append_wrap_fields, push_round_fits, push_round_skips, push_round_full,
}

-- What a push makes of a ring that holds `ss`.
pub record Pushed (r : Ring) (ss : List Span) (type : ℕ) (payload : List ℕ)
    (result : Option (Ring × Bool)) : Type 0 where
  pub final : Ring
  pub spans : List Span
  pub returned : result ≡ some (final, accepts r (length payload))
  pub inv : Inv final spans
  pub contents : messages spans ≡ (
      if accepts r (length payload)
      then messages ss ++ record { type = type; sequence = r.sequence +w 1; payload = payload } ∷ []
      else messages ss)
  pub number_same :
      final.sequence ≡ (if accepts r (length payload) then r.sequence +w 1 else r.sequence)
  pub head_same : final.head_publish ≡ r.head_publish
  pub capacity_same : final.capacity ≡ r.capacity
  pub outside : (i : ℕ) → r.capacity ≤ i → final.bytes i ≡ r.bytes i

module _ (r : Ring) (ss : List Span) (type : ℕ) (payload : List ℕ) where
  abbrev needed : ℕ
  needed = record_size (length payload)

  abbrev arrived : Message
  arrived = record { type = type; sequence = r.sequence +w 1; payload = payload }

  abbrev try_rounds : ℕ → Option (Ring × Bool)
  try_rounds fuel = run_rounds (push_round (length payload) type payload) fuel r

  -- A ring that turns the message down, with the spans that it holds then.
  refused :
      (fuel : ℕ) (r' : Ring) (ts : List Span)
      → accepts r (length payload) ≡ false
      → try_rounds fuel ≡ some (r', false)
      → Inv r' ts
      → messages ts ≡ messages ss
      → r'.sequence ≡ r.sequence
      → r'.head_publish ≡ r.head_publish
      → r'.capacity ≡ r.capacity
      → ((i : ℕ) → r.capacity ≤ i → r'.bytes i ≡ r.bytes i)
      → Pushed r ss type payload (try_rounds fuel)
  refused fuel r' ts no_room e v c q h k o = record {
    final = r';
    spans = ts;
    returned = rw no_room e;
    inv = v;
    contents = rw no_room c;
    number_same = rw no_room q;
    head_same = h;
    capacity_same = k;
    outside = o;
  }

  place :
      (fuel : ℕ)
      → Inv r ss
      → r.tail_publish + 2 * r.capacity < u64
      → length payload < u32
      → type < u16
      → needed ≤ rest r
      → Pushed r ss type payload (try_rounds (suc fuel))
  place fuel v room hs ht fits =
      elim (Bool-cases (leb (r.tail_publish - r.head_publish + needed) r.capacity)) [
        | inl ok ↦ record {
          final = append_record r (length payload) type payload;
          spans = ss ++ message arrived ∷ [];
          returned = rw accepted (
              rw ok (
                run_rounds-finish (push_round (length payload) type payload) fuel r _ true
                  (rw ok at round)));
          inv =
              append_record-Inv r ss type payload v room hs ht
                (omega (arith, mod-lt r.tail_publish v.positive)) (ground (arith, head-le-tail v));
          contents = rw accepted (rw ok (messages-append ss (message arrived ∷ [])));
          number_same = rw accepted (rw ok (unfold append_record in refl));
          head_same = unfold append_record in refl;
          capacity_same = unfold append_record in refl;
          outside = λ i far. append_record_outside r (length payload) type payload i (
              omega (arith, mod-lt r.tail_publish v.positive, record_size_lem (length payload) hs));
        }
        | inr full ↦
            refused (suc fuel) r ss (accepted ∙ full)
              (run_rounds-finish (push_round (length payload) type payload) fuel r _ false
                (rw full at round))
              v refl refl refl refl (λ i far. refl)
      ]
    where
      round : push_round (length payload) type payload r ≡ (
          if leb (r.tail_publish - r.head_publish + needed) r.capacity
          then finish (append_record r (length payload) type payload) true
          else finish r false)
      round = push_round_fits r ss (length payload) type payload v room hs fits

      accepted :
          accepts r (length payload) ≡ leb (r.tail_publish - r.head_publish + needed) r.capacity
      accepted = ground arith

messages-snoc_gap : (ss : List Span) → messages (ss ++ gap ∷ []) ≡ messages ss
messages-snoc_gap ss = messages-append ss (gap ∷ []) ∙ append-nil (messages ss)

-- A skip does not change what is accepted: its bytes are the padding.
accepts-append_wrap :
    (r : Ring) (ss : List Span) (size : ℕ)
    → Inv r ss
    → HasRoom r
    → record_size size ≤ r.capacity
    → rest r < record_size size
    → accepts (append_wrap r) size ≡ accepts r size
accepts-append_wrap r ss size v room small long =
    ground (arith, append_wrap_fields r room v.positive, head-le-tail v)

after_skip :
    (r : Ring) (ss : List Span) (type : ℕ) (payload : List ℕ) (fuel : ℕ)
    → Inv r ss
    → HasRoom r
    → length payload < u32
    → type < u16
    → record_size (length payload) ≤ r.capacity
    → rest r < record_size (length payload)
    → r.tail_publish + rest r ≤ r.head_publish + r.capacity
    → push_round (length payload) type payload r ≡ retry (append_wrap r)
    → Pushed r ss type payload (try_rounds r ss type payload (suc (suc fuel)))
after_skip r ss type payload fuel v room hs ht small long free e = record {
  final = p.final;
  spans = p.spans;
  returned =
      run_rounds-retry (push_round (length payload) type payload) (suc fuel) r (append_wrap r) e
      ∙ p.returned
      ∙ ap (λ b. some (p.final, b)) same;
  inv = p.inv;
  contents = p.contents ∙ (λ i.
      if same i
      then messages-snoc_gap ss i
        ++ record { type = type; sequence = f.4 i +w 1; payload = payload } ∷ []
      else messages-snoc_gap ss i);
  number_same = p.number_same ∙ (λ i. if same i then f.4 i +w 1 else f.4 i);
  head_same = p.head_same ∙ f.2;
  capacity_same = p.capacity_same ∙ f.3;
  outside = λ i far.
      p.outside i (omega (arith, f, far))
      ∙ append_wrap_outside r i far (mod-lt r.tail_publish v.positive);
}
  where
    f :
        ((append_wrap r).tail_publish ≡ r.tail_publish + rest r)
        × ((append_wrap r).tail_publish % r.capacity ≡ 0)
        × ((append_wrap r).head_publish ≡ r.head_publish)
        × ((append_wrap r).capacity ≡ r.capacity)
        × ((append_wrap r).sequence ≡ r.sequence)
    f = append_wrap_fields r room v.positive

    same : accepts (append_wrap r) (length payload) ≡ accepts r (length payload)
    same = accepts-append_wrap r ss (length payload) v room small long

    at_start : (append_wrap r).tail_publish % (append_wrap r).capacity ≡ 0
    at_start = ap (λ c. (append_wrap r).tail_publish % c) f.3 ∙ f.1

    p :
        Pushed
          (append_wrap r)
          (ss ++ gap ∷ [])
          type
          payload
          (run_rounds (push_round (length payload) type payload) (suc fuel) (append_wrap r))
    p =
        place (append_wrap r) (ss ++ gap ∷ []) type payload fuel (append_wrap-Inv r ss v room free)
          (omega (arith, f, mod-lt r.tail_publish v.positive)) hs ht (omega (arith, f, at_start))

push_Pushed :
    (r : Ring) (ss : List Span) (type : ℕ) (payload : List ℕ)
    → Inv r ss
    → HasRoom r
    → length payload < u32
    → type < u16
    → record_size (length payload) ≤ r.capacity
    → Pushed r ss type payload (try_rounds r ss type payload push_rounds)
push_Pushed r ss type payload v room hs ht small =
    elim (dec_lt (rest r) (record_size (length payload))) [
      | yes long ↦
          elim (dec_lt (r.head_publish + r.capacity)
            (r.tail_publish + rest r + record_size (length payload))) [
              | yes full ↦
                  elim (push_round_full r ss (length payload) type payload v room hs small long
                    full) [
                      | inl e ↦
                          refused r ss type payload push_rounds r ss
                            (ground (arith, head-le-tail v))
                            (run_rounds-finish (push_round (length payload) type payload) 1 r r
                              false e)
                            v refl refl refl refl (λ i far. refl)
                      | inr (e, free) ↦
                          after_skip r ss type payload 0 v room hs ht small long free e
                    ]
              | no free ↦ after_skip r ss type payload 0 v room hs ht small long (omega arith) (
                  push_round_skips r ss (length payload) type payload v room hs small long
                    (omega arith))
            ]
      | no fits ↦ place r ss type payload 1 v (omega arith) hs ht (omega arith)
    ]

-- Over a ring in order, a push of a message of fewer than 2^32 bytes, with the counter three
-- rounds away from 2^64, returns: true, with the message behind those that the ring held, if the
-- free bytes take the record and its padding, and false with the messages as they were if not. The
-- ring stays in order, the consumer's counter and the capacity do not change, and neither does any
-- byte past the end of the ring.
pub try_push_refines :
    (r : Ring) (ss : List Span) (type : ℕ) (payload : List ℕ)
    → Inv r ss
    → HasRoom r
    → length payload < u32
    → type < u16
    → Pushed r ss type payload (try_push r (some payload) (length payload) type)
unfolding try_push
try_push_refines r ss type payload v room hs ht =
    elim (dec_lt r.capacity (record_size (length payload))) [
      | yes big ↦ record {
        final = r;
        spans = ss;
        returned = ground (arith);
        inv = v;
        contents = ground (arith);
        number_same = ground (arith);
        head_same = refl;
        capacity_same = refl;
        outside = λ i far. refl;
      }
      | no small ↦
          rw (le→ltb r.capacity (record_size (length payload)) (omega arith))
            (rw (take_all payload) (push_Pushed r ss type payload v room hs ht (omega arith)))
    ]
