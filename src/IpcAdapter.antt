-- ===== src/IpcAdapter.antt =====
-- include/lf_ring/ipc_adapter.hpp: the names of topics, and the loop in which a byte subscriber
-- empties its ring. Text is a list of character codes.
pub mod Topic
pub mod Drain
pub mod Latest
pub mod Poller
pub mod Queue
pub mod Bytes
use lock_free_ring_buffer.Prelude.{
  ℕ, zero, suc, List, [], ◌∷◌, ◌++◌, map, Option, none, some, ◌>>=◌, ◌==◌, if◌then◌else◌,
}
use lock_free_ring_buffer.Ring.{Ring}
use lock_free_ring_buffer.Ring.Loop.{Popped}
use lock_free_ring_buffer.Spsc.{try_pop}

abbrev pub Text : Type 0
Text = List ℕ

-- `for (auto& c : sanitized) if (c == '/') c = '_'`
unfoldable pub sanitize : Text → Text
sanitize = map (λ c. if c == b'/' then b'_' else c)

-- `join` is the `/` of two paths of std::filesystem.
unfoldable pub topic_path : (Text → Text → Text) → Text → Text → Text → Text
unfolding sanitize
topic_path join base_dir prefix topic =
    join base_dir (prefix ++ b'_' ∷ b'_' ∷ b'_' ∷ sanitize topic)

-- What the callback is given: the whole vector, and the type.
abbrev pub Delivery : Type 0
Delivery = List ℕ × ℕ

-- `while (ring_.try_pop(buf, type)) on_message_(…)` of `SpscByteSubscriber::poll_loop`; `none` says
-- that the rounds allowed did not suffice.
unfoldable pub drain : ℕ → Ring → List ℕ → Option (Ring × List ℕ × List Delivery)
drain zero r buf = none
drain (suc fuel) r buf = try_pop r buf >>= λ (p : Ring × Option Popped). elim p.1 [
  | none ↦ some (p.0, buf, [])
  | some q ↦ drain fuel p.0 q.out >>= λ (rest : Ring × List ℕ × List Delivery).
      some (rest.0, rest.1, (q.out, q.type) ∷ rest.2)
]
