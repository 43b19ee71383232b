-- ===== src/Mpmc/Interleave.antt =====
-- The pops of any number of consumers (src/shared_ring_buffer_mpmc.cpp) and the pushes of any number of
-- producers, whose steps are those of Mpsc/Interleave, in any interleaving. A pop is six steps: the load
-- of the tail, the load of the head, the tests with their read of the header, the exchange, the copy,
-- and the publication. The head is loaded only where it has not gone past the loaded tail: the code
-- does not ensure that, see Mpmc/Race.
pub mod Spans
pub mod Inv
pub mod Takes
pub mod Heads
pub mod Order
use lock_free_ring_buffer.Prelude.{ℕ, ◌≤◌, ◌≡◌, List, [], ◌∷◌, ◌++◌, Option, none, some}
use lock_free_ring_buffer.Record.{Message}
use lock_free_ring_buffer.Ring.{Ring}
use lock_free_ring_buffer.Ring.Loop.{Popped}
use lock_free_ring_buffer.Mpmc.{
  Decision, leave, skip_to, take_to, decide, exchange_head, copy, give_back,
}
use lock_free_ring_buffer.Mpsc.Interleave as Push
use lock_free_ring_buffer.Mpsc.Interleave.{Among, as_message}

-- What a consumer does between its exchange and its publication: nothing for a gap, the copy of a
-- payload of so many bytes, or, when that is done, nothing more.
pub data Stage : Type 0 where
  skipping : Stage
  copying : ℕ → Stage
  holding : Popped → Stage

pub record Taking : Type 0 where
  pub from : ℕ
  pub to : ℕ
  pub stage : Stage

-- The producers' state; the tails that consumers have loaded; with a head, loaded later; with what the
-- tests made of them; and the consumers past their exchange, in its order.
pub record State : Type 0 where
  pub shared : Push.State
  pub tails : List ℕ
  pub views : List (ℕ × ℕ)
  pub decided : List (ℕ × Decision)
  pub taking : List Taking

abbrev pub ring : State → Ring
ring x = x.shared.ring

abbrev pub with_ring : State → Ring → State
with_ring x r = record x { shared = record s { ring = r } }
  where
    s : Push.State
    s = x.shared

abbrev pub claimed : ℕ → ℕ → Stage → Taking
claimed head new_head s = record { from = head; to = new_head; stage = s }

-- After the exchange, which may fail.
abbrev pub after_exchange : State → Taking → Option Ring → State
after_exchange x k none = x
after_exchange x k (some r) = record x {
  shared = record s { ring = r };
  taking = x.taking ++ k ∷ [];
}
  where
    s : Push.State
    s = x.shared

abbrev pub after_copy : State → List Taking → Taking → ℕ → List Taking → State
after_copy x before k size after = record x {
  taking = before ++ record k { stage = holding (copy (ring x) k.from size []) } ∷ after;
}

-- What a pop that gives back hands over.
abbrev pub handed : Stage → List Message
handed skipping = []
handed (copying size) = []
handed (holding p) = as_message p ∷ []

-- After a look at `head_publish`: the consumer goes on waiting, or publishes.
abbrev pub after_give_back : State → List Taking → Taking → List Taking → Option Ring → State
after_give_back x before k after none = x
after_give_back x before k after (some r) = record x {
  shared = record s { ring = r; popped = s.popped ++ handed k.stage };
  taking = before ++ after;
}
  where
    s : Push.State
    s = x.shared

abbrev pub Ready : Stage → Type 0
Ready skipping = Unit
Ready (copying size) = ⊥
Ready (holding p) = Unit

pub data Step (x : State) : State → Type 0 where
  push : {s : Push.State} → Push.PushStep x.shared s → Step x (record x { shared = s })
  load_tail : Step x (record x { tails = (ring x).tail_publish ∷ x.tails })
  load_head :
      (tail : ℕ)
      → Among tail x.tails
      → (ring x).head_reserve ≤ tail
      → Step x (record x { views = (tail, (ring x).head_reserve) ∷ x.views })
  tests :
      (tail head : ℕ)
      → Among (tail, head) x.views
      → Step x (record x { decided = (head, decide tail head (ring x)) ∷ x.decided })
  skips :
      (head new_head : ℕ)
      → Among (head, skip_to new_head) x.decided
      → Step x
          (after_exchange x (claimed head new_head skipping) (exchange_head (ring x) head new_head))
  takes :
      (head new_head size : ℕ)
      → Among (head, take_to new_head size) x.decided
      → Step x (
          after_exchange x
            (claimed head new_head (copying size))
            (exchange_head (ring x) head new_head))
  copies :
      (before : List Taking) (k : Taking) (size : ℕ) (after : List Taking)
      → x.taking ≡ before ++ k ∷ after
      → k.stage ≡ copying size
      → Step x (after_copy x before k size after)
  gives_back :
      (before : List Taking) (k : Taking) (after : List Taking)
      → x.taking ≡ before ++ k ∷ after
      → Ready k.stage
      → Step x (after_give_back x before k after (give_back (ring x) k.from k.to))

-- Runs whose steps start away from the end of the counters' bits.
pub data Reach (x : State) : State → Type 0 where
  here : Reach x x
  later : {y z : State} → Reach x y → Push.Roomy y.shared → Step y z → Reach x z

abbrev pub initial : Ring → State
initial r = record { shared = Push.initial r; tails = []; views = []; decided = []; taking = [] }
