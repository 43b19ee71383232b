-- ===== src/Spsc/Parts.antt =====
-- The rounds of `try_push` and `try_pop` of src/shared_ring_buffer_spsc.cpp, cut where the other side
-- may act in between: the tests, and the stores. The number's `fetch_add` and its store in the header are
-- one part, since both are to what the consumer does not read yet.
use Prim.Native.Nat.{bit_and}
use lock_free_ring_buffer.Prelude.{
  ℕ, ◌+◌, ◌-◌, ◌%◌, ◌≡◌, refl, Bool, true, false, not, Option, none, some, List, ltb, ◌==◌,
  if◌then◌else◌, arith, le→leb,
}
use lock_free_ring_buffer.Word.{◌+w◌, ◌-w◌}
use lock_free_ring_buffer.Memory.{store_bytes, store_int}
use lock_free_ring_buffer.Layout.{ControlBlock, wrap_flag, sizeof_record_header}
use lock_free_ring_buffer.Record.{read_header, write_header, write_wrap, write_record, record_size}
use lock_free_ring_buffer.Ring.{Ring, set_tail, set_head}
use lock_free_ring_buffer.Ring.Loop.{Round, retry, finish, Popped}
use lock_free_ring_buffer.Spsc.{push_round, pop_round, append_record, append_wrap}
use lock_free_ring_buffer.Mpmc.{Decision, leave, skip_to, take_to, copy}

-- What the producer does after the tests of a round.
pub data Plan : Type 0 where
  refuse : Plan
  skip : Plan
  wrap : Plan
  place : Plan

abbrev pub place_of : Ring → ℕ
place_of r = r.tail_publish % r.capacity

abbrev pub rest_of : Ring → ℕ
rest_of r = r.capacity - place_of r

-- The tests, with the head that was loaded, which the consumer may have moved since.
unfoldable pub plan : ℕ → ℕ → Ring → Plan
plan head size r =
    let used = r.tail_publish -w head in
    let remaining = r.capacity - r.tail_publish % r.capacity in
    let needed = record_size size in
    if ltb r.capacity used
    then refuse
    else if ltb remaining sizeof_record_header
    then if ltb r.capacity (used +w remaining) then refuse else skip
    else if ltb remaining needed
    then if ltb r.capacity (used +w remaining +w needed) then refuse else wrap
    else if ltb r.capacity (used +w needed)
    then refuse
    else place

unfoldable pub store_wrap : Ring → Ring
store_wrap r = record r { bytes = write_wrap r.bytes (place_of r) }

-- The header, with the number 0, and the payload.
unfoldable pub store_body : Ring → ℕ → ℕ → List ℕ → Ring
store_body r size type payload = record r {
  bytes =
      store_bytes
        (write_header r.bytes (place_of r)
          (record { size = size; type = type; flags = 0; sequence = 0 }))
        (place_of r + sizeof_record_header) payload;
}

-- The `fetch_add` and the store of the number in the header.
unfoldable pub store_number : Ring → Ring
store_number r = record r {
  control = record c { sequence = r.sequence +w 1 };
  bytes = store_int 8 r.bytes (place_of r + 8) (r.sequence +w 1);
}
  where
    c : ControlBlock
    c = r.control

unfoldable pub store_tail_reserve : Ring → ℕ → Ring
store_tail_reserve r tail = record r { control = record c { tail_reserve = tail } }
  where
    c : ControlBlock
    c = r.control

unfoldable pub store_tail_publish : Ring → ℕ → Ring
store_tail_publish r tail = record r { control = record c { tail_publish = tail } }
  where
    c : ControlBlock
    c = r.control

unfoldable pub store_head_reserve : Ring → ℕ → Ring
store_head_reserve r head = record r { control = record c { head_reserve = head } }
  where
    c : ControlBlock
    c = r.control

unfoldable pub store_head_publish : Ring → ℕ → Ring
store_head_publish r head = record r { control = record c { head_publish = head } }
  where
    c : ControlBlock
    c = r.control

-- The tests of a pop, with the tail that was loaded, which the producer may have moved since.
unfoldable pub pop_plan : ℕ → Ring → Decision
pop_plan tail r =
    let head = r.head_publish in
    let pos = head % r.capacity in
    let remaining = r.capacity - pos in
    let h = read_header r.bytes pos in
    let needed = record_size h.size in
    if head == tail
    then leave
    else if ltb remaining sizeof_record_header
    then skip_to (head +w remaining)
    else if not (bit_and h.flags wrap_flag == 0)
    then skip_to (head +w remaining)
    else if ltb remaining needed
    then leave
    else if ltb (tail -w head) needed
    then leave
    else take_to (head +w needed) h.size

-- The parts one after the other.
abbrev pub move_tail : Ring → ℕ → Ring
move_tail r tail = store_tail_publish (store_tail_reserve r tail) tail

abbrev pub carry_out : ℕ → ℕ → List ℕ → Ring → Plan → Round Bool
carry_out size type payload r refuse = finish r false
carry_out size type payload r skip = retry (move_tail r (r.tail_publish +w rest_of r))
carry_out size type payload r wrap = retry (move_tail (store_wrap r) (r.tail_publish +w rest_of r))
carry_out size type payload r place =
    finish
      (move_tail (store_number (store_body r size type payload))
        (r.tail_publish +w record_size size))
      true

abbrev pub carry_out_pop : List ℕ → Ring → Decision → Round (Option Popped)
carry_out_pop out r leave = finish r none
carry_out_pop out r (skip_to head) = retry (store_head_publish (store_head_reserve r head) head)
carry_out_pop out r (take_to head size) =
    finish (store_head_publish (store_head_reserve r head) head)
      (some (copy r r.head_publish size out))

module _ (size type : ℕ) (payload : List ℕ) (r : Ring) where
  skip_lem : set_tail r (r.tail_publish +w rest_of r) ≡ move_tail r (r.tail_publish +w rest_of r)
  unfolding set_tail store_tail_publish store_tail_reserve
  skip_lem = refl

  wrap_lem :
      ltb (rest_of r) 16 ≡ false
      → append_wrap r ≡ move_tail (store_wrap r) (r.tail_publish +w rest_of r)
  unfolding append_wrap store_tail_publish store_tail_reserve store_wrap
  wrap_lem long = rw (le→leb 16 (rest_of r) (ground (arith, long))) refl

  place_lem :
      append_record r size type payload
      ≡ move_tail
          (store_number (store_body r size type payload))
          (r.tail_publish +w record_size size)
  unfolding append_record store_tail_publish store_tail_reserve store_number store_body write_record
  place_lem = refl

  -- A round of a push is its parts one after the other, and so is a round of a pop.
  push_lem :
      push_round size type payload r ≡ carry_out size type payload r (plan r.head_publish size r)
  unfolding push_round plan
  push_lem = ground (arith, skip_lem, wrap_lem, place_lem)

pop_lem :
    (out : List ℕ) (r : Ring) → pop_round out r ≡ carry_out_pop out r (pop_plan r.tail_publish r)
unfolding pop_round pop_plan copy set_head store_head_publish store_head_reserve
pop_lem out r = ground arith
