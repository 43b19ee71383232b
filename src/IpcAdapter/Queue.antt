-- ===== src/IpcAdapter/Queue.antt =====
-- `SpscPublisher` and `SpscSubscriber` of include/lf_ring/ipc_adapter.hpp over an `SPSCQueue` of
-- 2 ^ k slots, from the topic's name to the callback.
use lock_free_ring_buffer.Prelude.{
  ℕ, ◌+◌, ◌*◌, ◌%◌, ◌<◌, ◌≡◌, refl, sym, ap, ◌∙◌, inl, inr, arith, List, [], ◌∷◌, ◌++◌, length,
  Option, none, some, ltb, if◌then◌else◌, Bool-cases, eq→==, subst,
}
use lock_free_ring_buffer.Word.{u64, pow2}
use lock_free_ring_buffer.Memory.{Memory}
use lock_free_ring_buffer.Layout.{ClaimResult, created}
use lock_free_ring_buffer.Ring.{Ring}
use lock_free_ring_buffer.Mapping.{open_failed, Result, ok, err, Calls, Held, Mapping, view}
use lock_free_ring_buffer.Mapping.Open.{works, holding, empty_ring}
use lock_free_ring_buffer.SpscQueue.{try_push, try_pop}
use lock_free_ring_buffer.SpscQueue.Refine.{
  Inv, contents, fifo_push, fifo_pop, push_refines_fifo, pop_refines_fifo,
}
use lock_free_ring_buffer.SpscQueue.Open.{claim, open_queue, room, new_queue, create-open_queue}
use lock_free_ring_buffer.IpcAdapter.{Text, topic_path}
use lock_free_ring_buffer.IpcAdapter.Poller.{
  Channel, prepend, start, request_stop, ticks, Event, run,
}
use lock_free_ring_buffer.IpcAdapter.Poller.Delivery.{
  EachSized, Ended, new_subscriber, delivered_after_stop,
}

-- The bytes and the size of the file at each path that has one.
abbrev pub Files : Type 0
Files = Text → Option (Memory × ℕ)

-- The publisher's fields, or the error that its construction throws.
pub record SpscPublisher : Type 0 where
  pub path : Text
  pub last_claim : ClaimResult
  pub queue : Result Mapping

module _ (capacity sizeof_t : ℕ) (join : Text → Text → Text) where
  -- `claim_init` at the topic's path.
  unfoldable pub new_publisher : Calls → Held → Files → Text → Text → Text → Held × SpscPublisher
  unfolding claim topic_path
  new_publisher calls held files base_dir prefix topic =
      let path = topic_path join base_dir prefix topic in
      let (held', queue, last) = claim capacity sizeof_t calls held (files path) in
      (held', record { path = path; last_claim = last; queue = queue })

  abbrev open_at : Calls → Held → Option (Memory × ℕ) → Held × Result Mapping
  open_at calls held none = (held, err open_failed)
  open_at calls held (some (file, size)) = open_queue capacity sizeof_t calls held file size

  unfoldable pub open_subscriber : Calls → Held → Files → Text → Text → Text → Held × Result Mapping
  unfolding open_queue topic_path
  open_subscriber calls held files base_dir prefix topic =
      open_at calls held (files (topic_path join base_dir prefix topic))

fifo_push_lem :
    (n : ℕ) (xs : List (List ℕ)) (x : List ℕ)
    → (fifo_push n xs x).0 ≡ (if (fifo_push n xs x).1 then xs ++ x ∷ [] else xs)
unfolding fifo_push
fifo_push_lem n xs x = elim (Bool-cases (ltb (length xs) n)) [
  | inl fits ↦ rw fits refl
  | inr full ↦ rw full refl
]

fifo_pop_lem : (xs : List (List ℕ)) → xs ≡ prepend (fifo_pop xs).1 (fifo_pop xs).0
unfolding fifo_pop
fifo_pop_lem [] = refl
fifo_pop_lem (x ∷ xs) = refl

fifo_pop-none : (xs : List (List ℕ)) → (fifo_pop xs).1 ≡ none → xs ≡ []
unfolding fifo_pop
fifo_pop-none [] e = refl
fifo_pop-none (x ∷ xs) e = cc

-- `publish` of the publisher and `try_pop` of the subscriber's thread.
module _ (k sizeof_t : ℕ) where
  pub spsc_push_contents :
      (q : Ring) (v : List ℕ)
      → Inv k q
      → length v ≡ sizeof_t
      → contents k sizeof_t (try_push (pow2 k) sizeof_t q v).0 ≡ (
          if (try_push (pow2 k) sizeof_t q v).1
          then contents k sizeof_t q ++ v ∷ []
          else contents k sizeof_t q)
  spsc_push_contents q v i size =
      let e = (push_refines_fifo k sizeof_t q v i size).0 in
      ap (λ r. r.0) e
      ∙ fifo_push_lem (pow2 k) (contents k sizeof_t q) v
      ∙ ap (λ b. if b then contents k sizeof_t q ++ v ∷ [] else contents k sizeof_t q)
          (sym (ap (λ r. r.1) e))

  pub spsc_pop_contents :
      (q : Ring)
      → Inv k q
      → contents k sizeof_t q
        ≡ prepend
            (try_pop (pow2 k) sizeof_t q).1
            (contents k sizeof_t (try_pop (pow2 k) sizeof_t q).0)
  spsc_pop_contents q i =
      let e = (pop_refines_fifo k sizeof_t q i).0 in
      fifo_pop_lem (contents k sizeof_t q) ∙ ap (λ r. prepend r.1 r.0) (sym e)

  pub spsc_pop_none :
      (q : Ring) → Inv k q → (try_pop (pow2 k) sizeof_t q).1 ≡ none → contents k sizeof_t q ≡ []
  spsc_pop_none q i e =
      fifo_pop-none (contents k sizeof_t q)
        (sym (ap (λ r. r.1) (pop_refines_fifo k sizeof_t q i).0) ∙ e)

  abbrev pub spsc_channel : Channel Ring (List ℕ)
  spsc_channel = record {
    push = try_push (pow2 k) sizeof_t;
    pop = try_pop (pow2 k) sizeof_t;
    contents = contents k sizeof_t;
    Good = Inv k;
    Sized = λ v. length v ≡ sizeof_t;
    push_good = λ q v i size. (push_refines_fifo k sizeof_t q v i size).1;
    push_contents = spsc_push_contents;
    pop_good = λ q i. (pop_refines_fifo k sizeof_t q i).1;
    pop_contents = spsc_pop_contents;
    pop_none = spsc_pop_none;
  }

  empty-Inv : k < 64 → (bytes : ℕ) → Inv k (empty_ring bytes)
  empty-Inv h bytes = record {
    width = h;
    head_word = omega arith;
    tail_word = omega arith;
    within = omega arith;
  }

  abbrev queue_ring : Ring
  queue_ring = view (new_queue (pow2 k) sizeof_t)

  -- End to end. Where the slots' bytes are a multiple of eight and no file exists yet: the publisher
  -- of a topic creates the queue, the subscriber of the topic opens the same one, and after any
  -- sequence of publications and steps of the subscriber's thread, and a stop, the callback has been
  -- given exactly the values whose publication returned true, each once, in order.
  pub topic_delivers :
      (join : Text → Text → Text) (h : Held) (files after : Files) (base_dir prefix topic : Text)
      (es : List (Event (List ℕ)))
      → k < 64
      → 0 < pow2 k * sizeof_t
      → pow2 k * sizeof_t + 391 < u64
      → pow2 k * sizeof_t % 8 ≡ 0
      → files (topic_path join base_dir prefix topic) ≡ none
      → after (topic_path join base_dir prefix topic)
        ≡ some ((new_queue (pow2 k) sizeof_t).file, (new_queue (pow2 k) sizeof_t).mapping_size)
      → EachSized spsc_channel es
      → let m = new_queue (pow2 k) sizeof_t in
        let path = topic_path join base_dir prefix topic in
        let (s, accepted) =
          run spsc_channel (start spsc_channel (new_subscriber spsc_channel queue_ring)) es in
        (new_publisher (pow2 k) sizeof_t join works h files base_dir prefix topic
          ≡ (holding h, record { path = path; last_claim = created; queue = ok m }))
        × (open_subscriber (pow2 k) sizeof_t join works h after base_dir prefix topic
            ≡ (holding h, ok m))
        × Ended spsc_channel accepted (
            ticks spsc_channel
              (length (contents k sizeof_t s.queue) + 4)
              (request_stop spsc_channel s))
  unfolding new_publisher open_subscriber claim
  topic_delivers join h files after base_dir prefix topic es hk pos fits whole fresh made sized =
      let (created_file, blank, opened, _) = create-open_queue (pow2 k) sizeof_t h pos fits in
      (
        rw fresh (rw created_file refl),
        rw made (opened ∙ rw (eq→== (pow2 k * sizeof_t % 8) 0 whole) refl),
        delivered_after_stop spsc_channel queue_ring es
            (subst (Inv k) (sym blank) (empty-Inv hk (room (pow2 k) sizeof_t)))
            (ap (contents k sizeof_t) blank) sized,
      )
