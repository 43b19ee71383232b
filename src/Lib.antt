-- ===== src/Lib.antt =====
-- Shared-memory ring buffers and a latest-value slot: a model of the library of this repository,
-- with the theorems that make it correct.
--
-- The program. `create_mapping` and `open_mapping` put a header, a control block of five 64-bit words
-- and a ring of bytes in a memory-mapped file. Three classes keep records of any size in the ring
-- (one producer and one consumer; many and one; many and many), `SPSCQueue` keeps fixed slots
-- in it, and `SharedLatest` one value behind a sequence number. The typed messages are codecs over
-- a ring, and the IPC adapter gives rings and slots names and threads.
--
-- The files.
--   Prelude       shared names, the Boolean tests, lemmas on lists and options
--   Word          64-bit words: `+w` and `-w` wrap, masks as remainders
--   Memory        bytes by address, and integers in little-endian order
--   Layout        include/lf_ring/ring_layout.hpp: constants, `align_up`, sizes
--   Record        the records of the byte rings as they stand in the bytes
--   Ring          the state of a mapping in use: control block, bytes, capacity. `Position` is
--                 arithmetic of positions, `Spans` the chain of records and gaps between the
--                 counters, `Loop` the retry loops, `Inv` the representation invariant
--   Spsc          src/shared_ring_buffer_spsc.cpp: `try_push`, `try_pop`, the claim. `Rounds`,
--                 `Push`, `Pop` and `Claim` are about one call, `History` about any sequence of them.
--                 `Parts` cuts the rounds into their accesses; `Interleave` has those of the producer
--                 and the consumer in any order, with the producer's death: `Facts` of each phase,
--                 `Rounds` about the tests, `Inv` the invariant, `Order`, `Ends` and `Size` about runs
--   Mpsc          include/lf_ring/ring_writer.hpp and src/shared_ring_buffer.cpp: the push of many
--                 producers in its three parts (`Push` is about the three in a row), the pop.
--                 `Interleave` has the parts of several producers in any order: `Places` is about
--                 the exchange, `Fills` about the bytes of one reservation, `Tiles` about all that
--                 are not published, `Inv` and `Publish` keep the invariant, `Kept` is what a push
--                 leaves to the consumers, `Order` is about runs
--   Mpmc          src/shared_ring_buffer_mpmc.cpp: the pop of many consumers (`Pop`), and the order of
--                 its two loads (`Race`, `OlderTail`). `Interleave` has the parts of several pops and
--                 pushes in any order: `Spans` and `Takes` are about what consumers have claimed,
--                 `Inv` and `Heads` keep the invariant, `Order` is about runs
--   RingFiles     `create`, `open` and `claim` of the three classes of byte rings
--   SpscQueue     include/lf_ring/spsc_queue.hpp: slots (`Slots`), the bounded queue that they are
--                 (`Refine`), `create`, `open` and `claim` (`Open`). `Interleave` has the accesses of
--                 the producer and the consumer in any order, with the producer's death: `Keep` is
--                 about the slots, `Inv` keeps the invariant, `Order` and `Size` are about runs
--   Mapping       src/shared_memory_mapping.cpp: `create_mapping`, `open_mapping` (`FileHeader`,
--                 `Open`), the moves and the destruction of a mapping (`Handle`)
--   SharedLatest  include/lf_ring/shared_latest.hpp: `write`, the status read (`Status`), `claim`
--                 (`Claim`) and its files (`Files`), the plain read (`Read`), and the write and the
--                 read interleaved (`Seqlock`, with the invariant in `Seqlock/Inv` and the takeover
--                 from a dead writer in `Seqlock/Recovery`)
--   Futex         include/lf_ring/futex.hpp: the wait and the wake over a kernel, the word that the
--                 kernel compares (`Word`), a waiting reader and its notifications (`Wakeups`)
--   TypedMessage  include/lf_ring/typed_message.hpp: codecs (`Codec`), the typed reader (`Pop`), the
--                 writer and the reader for any codec (`Writer`)
--   IpcAdapter    include/lf_ring/ipc_adapter.hpp: names (`Topic`), the loop that empties a ring
--                 (`Drain`), the loop that polls a slot (`Latest`). The threads of the subscribers
--                 with their starts and stops: of slots `Poller` with `Poller/Phases`, `Poller/Steps` and
--                 `Poller/Delivery`, over a queue `Queue`; of bytes `Bytes` and `Bytes/Stop`; of
--                 latest values `Latest/Thread`, with writes in between in `Latest/Missed` and the
--                 stop in `Latest/Stop`
--   Tests         the theorems at concrete inputs
--
-- How the code is modelled. A function that changes shared memory takes the state and returns the
-- next one; a thrown error is a value. Counters are numbers below 2^64, and sums and differences of
-- them wrap as in the code. The calls of the mapping are single steps, and so are those of the
-- rings and of the queue where the theorems are about one call or one caller; the seqlock is a step
-- relation, one access to shared memory at a time, in program order, with the value copied byte by
-- byte. So are the ring of one producer and the queue, whose producer may die at any point, also
-- with a part of a record written, the copy of a record or a value being one step otherwise. The
-- ring of many producers is one too: its push is four steps, the load of the head, the exchange,
-- the fill of the bytes that nobody else may touch, and the publication, whose three accesses only
-- the producer in turn makes. A pop of many consumers is six: the two loads, the tests, the
-- exchange, the copy and the publication. The kernel under the futex is a parameter, and what
-- futex(2) documents of it a hypothesis. The thread that polls a slot makes its read and its later
-- load of the number in two steps, with whole writes in between. The status read and `claim` take
-- what they load as arguments, so that any other process may act between the loads; so does the
-- push of many producers its head, and the pop of many consumers its tail. The cache line is the
-- header's fallback of 64 bytes. A trivially copyable value is the list of its bytes.
--
-- Bounds. The loop of `try_push` is given two rounds, since a round that goes on leaves the position
-- at the start of the ring. The loop of `try_pop` is given a round for each byte in use and one more,
-- since a round that goes on skips at least one byte. The theorems of both calls say that this is
-- enough: they return. Those of the byte ring ask that the counters are some rounds away from 2^64
-- (`HasRoom`, `Lasts`): past it the position of a ring whose capacity is no power of two jumps. That
-- of the seqlock asks the same of its number (`Small`), and those of
-- the byte rings with both sides interleaved ask it of the state before each step (`Roomy`). Those of the queue do not. A stopped thread is given a
-- step for each value and four more. That of the futex asks for fewer than 2^32 notifications since the
-- snapshot, after which the 32 bits that the kernel compares are the same again.
--
-- Not modelled. The memory order of the atomics, all accesses being sequentially consistent; the
-- moment at which a timed wait ends, which is any moment; the programs under bench and tests. A
-- consumer of many loads the head after the tail, and the step relation has that load only where the
-- head has not gone past the loaded tail. The code does not ensure this; `Mpmc/Race` is about the rest.
pub mod Prelude
pub mod Word
pub mod Memory
pub mod Layout
pub mod Futex
pub mod Record
pub mod Ring
pub mod Spsc
pub mod SpscQueue
pub mod Mapping
pub mod Mpmc
pub mod RingFiles
pub mod Mpsc
pub mod SharedLatest
pub mod TypedMessage
pub mod IpcAdapter
pub mod Tests
