-- ===== src/Tests/Channels.antt =====
-- Values through a codec and a byte ring, and through a topic and a queue.
use lock_free_ring_buffer.Prelude.{
  ℕ, ◌+◌, ◌≡◌, refl, List, [], ◌∷◌, ◌++◌, length, none, some, true, arith,
}
use lock_free_ring_buffer.Word.{pow2}
use lock_free_ring_buffer.Layout.{created, align_up}
use lock_free_ring_buffer.Record.{record_size}
use lock_free_ring_buffer.Ring.{Ring}
use lock_free_ring_buffer.Ring.Spans.{Span, messages}
use lock_free_ring_buffer.Ring.Inv.{Inv}
use lock_free_ring_buffer.Mapping.{Held, ok, err, mode_mismatch, view}
use lock_free_ring_buffer.Mapping.Open.{works, holding, empty_ring, new_mapping}
use lock_free_ring_buffer.SpscQueue.Refine.{contents}
use lock_free_ring_buffer.SpscQueue.Open.{new_queue}
use lock_free_ring_buffer.TypedMessage.{Reader, encode_vector}
use lock_free_ring_buffer.TypedMessage.Codec.{decode-encode_vector}
use lock_free_ring_buffer.TypedMessage.Writer.{vector_codec, push_value, pop_value, pop-push_value}
use lock_free_ring_buffer.IpcAdapter.{Text, topic_path}
use lock_free_ring_buffer.IpcAdapter.Poller.{
  Subscriber, start, request_stop, ticks, Event, publish, turn, run,
}
use lock_free_ring_buffer.IpcAdapter.Poller.Delivery.{Ended, new_subscriber}
use lock_free_ring_buffer.RingFiles.{mpsc, spsc, create_mpsc, open_spsc, classes_apart}
use lock_free_ring_buffer.IpcAdapter.Queue.{
  Files, new_publisher, open_subscriber, spsc_channel, topic_delivers,
}

abbrev fresh : Ring
fresh = empty_ring 64

fresh-Inv : Inv fresh []
fresh-Inv = omega arith

abbrev reader : Reader
reader = record { buffer = []; type = 0; sequence = 0 }

-- A vector of two values of two bytes.
abbrev pair : List (List ℕ)
pair = (1 ∷ 2 ∷ []) ∷ (3 ∷ 4 ∷ []) ∷ []

pop-push_value_example :
    (middle final : Ring) × (t' : Reader) × (ts : List Span) × (push_value
        (vector_codec 2)
        9
        fresh
        pair
      ≡ some (middle, true))
    × (pop_value (vector_codec 2) 9 middle reader ≡ some (final, t', some pair))
    × Inv final ts
    × (messages ts ≡ [])
unfolding record_size align_up vector_codec encode_vector
pop-push_value_example =
    pop-push_value (vector_codec 2) 9 fresh [] reader pair (1 ∷ 2 ∷ 3 ∷ 4 ∷ []) fresh-Inv refl
      (omega arith) (omega arith) refl
      (decode-encode_vector 2 pair (omega arith) (refl, (refl, tt))) (omega arith) refl
      (omega arith)

abbrev joined : Text → Text → Text
joined a b = a ++ b'/' ∷ b

abbrev base : Text
base = b'd' ∷ []

abbrev prefix : Text
prefix = b'l' ∷ []

abbrev topic : Text
topic = b'a' ∷ b'/' ∷ b'b' ∷ []

abbrev nothing : Held
nothing = record { fds = 0; maps = 0 }

abbrev no_files : Files
no_files path = none

abbrev one_file : Files
one_file path = some ((new_queue 4 8).file, (new_queue 4 8).mapping_size)

abbrev eight : ℕ → List ℕ
eight n = n ∷ 0 ∷ 0 ∷ 0 ∷ 0 ∷ 0 ∷ 0 ∷ 0 ∷ []

abbrev events : List (Event (List ℕ))
events = publish (eight 1) ∷ turn ∷ turn ∷ publish (eight 2) ∷ []

abbrev served : Subscriber Ring (List ℕ) × List (List ℕ)
served =
    run (spsc_channel 2 8)
      (start (spsc_channel 2 8) (new_subscriber (spsc_channel 2 8) (view (new_queue 4 8)))) events

topic_delivers_example :
    (new_publisher 4 8 joined works nothing no_files base prefix topic ≡ (
      holding nothing,
      record {
        path = topic_path joined base prefix topic;
        last_claim = created;
        queue = ok (new_queue 4 8);
      },
    ))
    × (open_subscriber 4 8 joined works nothing one_file base prefix topic
        ≡ (holding nothing, ok (new_queue 4 8)))
    × Ended (spsc_channel 2 8) served.1 (
        ticks
          (spsc_channel 2 8)
          (length (contents 2 8 served.0.queue) + 4)
          (request_stop (spsc_channel 2 8) served.0))
unfolding pow2
topic_delivers_example =
    topic_delivers 2 8 joined nothing no_files one_file base prefix topic events (omega arith)
      (omega arith) (omega arith) refl refl refl (refl, (refl, tt))

classes_apart_example :
    let m = new_mapping 64 1 in
    (create_mpsc works nothing 60 ≡ (holding nothing, ok m))
    × (open_spsc works nothing m.file m.mapping_size ≡ (nothing, err mode_mismatch))
classes_apart_example = classes_apart mpsc spsc nothing 60 (omega arith) (omega arith)
