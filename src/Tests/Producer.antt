-- ===== src/Tests/Producer.antt =====
-- A producer that publishes a message and dies in the write of a second one.
use lock_free_ring_buffer.Prelude.{◌+◌, ◌≤◌, ◌≡◌, ◌⊎◌, refl, ap, [], ◌∷◌, some, arith}
use lock_free_ring_buffer.Layout.{align_up}
use lock_free_ring_buffer.Record.{record_size, Message}
use lock_free_ring_buffer.Ring.{Ring, size_between}
use lock_free_ring_buffer.Ring.Inv.{Inv}
use lock_free_ring_buffer.Mapping.Open.{empty_ring}
use lock_free_ring_buffer.Spsc.{claim_control}
use lock_free_ring_buffer.Spsc.History.{Parcel}
use lock_free_ring_buffer.Spsc.Parts.{
  place, plan, store_body, store_number, store_tail_reserve, store_tail_publish,
}
use lock_free_ring_buffer.Spsc.Interleave.{
  State, resting, saw_head, reserved, planned, calls, loads_head, plans, fills, numbers,
  reserves_tail, publishes_tail, dies, claims, Reach, here, later, initial,
}
use lock_free_ring_buffer.Spsc.Interleave.Order.{Delivered, one_producer_fifo}
use lock_free_ring_buffer.Spsc.Interleave.Size.{approx_size_bounds}
use lock_free_ring_buffer.Spsc.Interleave.Ends.{spent, Going, push_never_waits}

abbrev fresh : Ring
fresh = empty_ring 64

fresh-Inv : Inv fresh []
fresh-Inv = omega arith

abbrev parcel : Parcel
parcel = (7, 1 ∷ 2 ∷ 3 ∷ [])

abbrev sent : Message
sent = record { type = 7; sequence = 1; payload = 1 ∷ 2 ∷ 3 ∷ [] }

abbrev body : Ring
body = store_body fresh 3 7 (1 ∷ 2 ∷ 3 ∷ [])

abbrev numbered : Ring
numbered = store_number body

abbrev stored : State
stored = record (initial fresh) {
  ring = store_tail_reserve numbered 24;
  producer = reserved parcel 24 (some sent);
}

abbrev published : State
published = record stored {
  ring = store_tail_publish (store_tail_reserve numbered 24) 24;
  producer = resting;
  sent = sent ∷ [];
}

abbrev looked : State
looked = record published { producer = saw_head parcel 0 }

abbrev claimed : State
claimed = record published { ring = claim_control published.ring }

fits_here : plan 0 3 fresh ≡ place
unfolding plan record_size align_up
fits_here = refl

to_stored : Reach (initial fresh) stored
unfolding store_body store_number record_size align_up
to_stored =
    later
      (later
        (later
          (later
            (later
              (later here (omega arith, omega arith)
                (calls parcel refl (omega arith, omega arith, omega arith)))
              (omega arith, omega arith) (loads_head parcel refl))
            (omega arith, omega arith) (plans parcel 0 refl))
          (omega arith, omega arith) (fills parcel (ap (planned fresh parcel) fits_here)))
        (omega arith, omega arith) (numbers parcel refl))
      (omega arith, omega arith) (reserves_tail parcel 24 (some sent) refl)

to_looked : Reach (initial fresh) looked
unfolding store_body store_number store_tail_reserve store_tail_publish record_size align_up
to_looked =
    later
      (later
        (later to_stored (omega arith, omega arith) (publishes_tail parcel 24 (some sent) refl))
        (omega arith, omega arith) (calls parcel refl (omega arith, omega arith, omega arith)))
      (omega arith, omega arith) (loads_head parcel refl)

to_claimed : Reach (initial fresh) claimed
unfolding store_body store_number store_tail_reserve store_tail_publish
to_claimed =
    later (later to_looked (omega arith, omega arith) dies) (omega arith, omega arith) (claims refl)

one_producer_fifo_example : Delivered fresh [] claimed
one_producer_fifo_example = one_producer_fifo fresh [] claimed fresh-Inv to_claimed

push_never_waits_example : (spent to_looked ≤ 11) × ((looked.producer ≡ resting) ⊎ Going looked)
push_never_waits_example = push_never_waits fresh [] looked fresh-Inv to_looked

approx_size_bounds_example : let n = size_between 64 0 24 in (n ≤ 64) × (24 ≤ 0 + n) × (0 + n ≤ 24)
unfolding store_body store_number store_tail_reserve store_tail_publish
approx_size_bounds_example =
    approx_size_bounds fresh [] (initial fresh) looked fresh-Inv here to_looked
