-- ===== src/Lib.antt =====
-- mmbus: a single-producer, many-consumer message bus in shared memory, with a write-ahead log and
-- a bridge between hosts. A development that models the program's own core and proves what makes
-- it correct.
--
-- The program (crates/mmbus, crates/mmbus-bridge). A publisher writes messages into a ring buffer
-- in a mapped file; each subscriber has a cursor in the file's table, and copies messages out
-- under a seqlock, with no lock shared with the publisher. With the policy `Error` the publisher
-- refuses a message that would overwrite one that a subscriber has still to read; with
-- `DropOldest` it overwrites, and a reader that is overtaken skips forward. Each message may first
-- be appended to a log of segments on the disk, which is recovered after a crash and replayed to
-- late subscribers. The bridge sends frames to its peers, through a bounded queue between its
-- threads.
--
-- Ring (crates/mmbus/src/ring.rs). `Ring` is the mapped file by its fields. `create`, `open_ring`,
-- `create_or_reuse`, `claim_cursor`, `min_active_cursor`, `is_full`, `try_publish` and the others
-- are the methods of `RingBuffer` of the same names. The stores of a publish are values (`Store`,
-- `write_ops`, `publish_ops`) in program order. Ring/Layout has the offsets in the file, whose
-- size wraps as a usize does. Ring/Reader has `try_receive`, whose loads interleave with the
-- publisher's stores in any way: `Pauses` says how many steps the publisher makes before each
-- load, and `Publishing` is the publisher's state between two of them; the loop has the source's
-- 16 rounds. Ring/Slice has `try_receive_into_slice`, the same loop into a buffer. Ring/Invariant,
-- Ring/Stores, Ring/Steps, Ring/Copy and Ring/Round have the invariant of the slots and that each
-- step keeps it; Ring/Torn, Ring/Session (the polling of crates/mmbus/src/subscriber.rs),
-- Ring/Rest, Ring/Cursors, Ring/Unread, Ring/Guarded, Ring/Lossless, Ring/Gapless and Ring/Restart
-- what follows for the users. Memory is taken to be sequentially consistent, each store and load
-- of a word or of a byte is one step, but for the last load of a slot's number, which is one step
-- with the store of the cursor that follows it, and one reader moves while the others stay. The
-- source orders the payload's accesses by acquire and release on the sequence number alone, which
-- is less on a machine that reorders memory.
--
-- Wal (crates/mmbus/src/wal/record.rs), Wal/Segment (segment_writer.rs, segment_reader.rs),
-- Wal/Aggregator (wal.rs: append, rotation, retention) and Wal/Open (wal.rs: open, read_from). A
-- file is its bytes, the directory a table of files, a failing step a value with the state that it
-- leaves. Of the errors of the file system there are a file that exists already, one that is
-- missing, and an fsync that fails after an append. The checksum is the crate crc32c's and a
-- parameter `crc32c`; what is used of it is that its values are 32-bit words. The clock is an
-- argument. `recover_truncate` scans on fuel, one round for each byte of the file and one more,
-- and a record has at least 28 bytes; `enforce_retention_locked` has a round for each segment and
-- one more, and each round deletes one. Wal/Segment/Recovery, Wal/Segment/Total,
-- Wal/Segment/Crash, Wal/Segment/Durable and Wal/Segment/Survival are about a segment and a crash.
--
-- Wal/Replay is the iterator WalReplayer of wal.rs and the read-only view WalReader of reader.rs.
-- The loop of `next` is on fuel, with two rounds for each segment that is left and one for each
-- byte (Wal/Replay/Returns); Wal/Replay/Whole and Wal/Replay/Complete are about a replay of whole
-- segments.
--
-- Errors has `Error` (crates/mmbus/src/error.rs) and `BusConfig` (crates/mmbus/src/config.rs).
--
-- Publisher (crates/mmbus/src/publisher.rs) puts the ring and the log together: `create`,
-- `publish`, `publish_many`, `broadcast_wakeup`, `accept_clients` and `slow_subscribers` are the
-- methods of those names. An operation is one step there, but for `publish` and `publish_many`, in
-- which the subscribers may store cursors and flags between the look at the cursors that comes
-- before the log and the ring's part (`During`); the answers of the operating system, an fsync's
-- result among them, are arguments. The loop of `broadcast_wakeup` has a round for each client.
-- Publisher/Beside says what the subscribers may store; Publisher/Starting, Publisher/InStep,
-- Publisher/Items, Publisher/Batch, Publisher/Woken, Publisher/Rounds, Publisher/Broadcast,
-- Publisher/Waking and Publisher/Shadowed are its theorems.
--
-- Subscriber (crates/mmbus/src/subscriber.rs) is the other side: `connect_with`,
-- `next_wal_record`, `try_receive_into`, `wait_readable`, `receive_into` and
-- `receive_timeout_into`, beside a publisher that goes on as in Ring/Reader. The receiving loop
-- has a turn for each time that it goes to sleep, and says if it still waits after the last.
-- Subscriber/Slice has the variants that write into the caller's buffer. Subscriber/Claiming,
-- Subscriber/Connect, Subscriber/HandOver and Subscriber/Receive are about the connection, the
-- replay and the receive.
--
-- Wakeup is the handshake of both sides, one step for each access of the shared memory, as a
-- relation on the state of the publisher's loop and of all subscribers; nobody connects after the
-- beginning, and `publish_many` is no step. Wakeup/Alarm, Wakeup/Moves, Wakeup/Whole, Wakeup/Keeps
-- and Wakeup/Own have its invariant, Wakeup/Missed the conclusion.
--
-- Frame (crates/mmbus-bridge/src/frame.rs) is the codec of the bridge's frames, with
-- Frame/RoundTrip, Frame/Sound, Frame/Stream, Frame/Cut and Frame/Hello.
--
-- Queue (crates/mmbus-bridge/src/queue.rs) is the bounded queue, with what other threads do during
-- a wait as a list of operations; Queue/Bounded, Queue/Fifo and Queue/Closing.
--
-- Bridge (crates/mmbus-bridge/src/bridge.rs) has the thread of one connection, `reader_main` with
-- `handle_frame`, over what the socket yields in whatever pieces, and the fan-out of
-- `subscriber_main` to the queues of the peers. The loop over the frames in the buffer is on fuel,
-- one round for each byte and one more, and a frame has a byte at least. Bridge/Chunks is about
-- the pieces, Bridge/Republish about what a peer's frames become, Bridge/Sending about the queues.
--
-- Prelude has what the parts share: tests and conditionals, lists over the native numbers,
-- `Result`, slices, words in bytes, families of words, remainders. The modules named Runs apply
-- the theorems at concrete inputs.
--
-- Not modelled: sockets, descriptors, threads and the other file system errors (input and output);
-- the Python bindings and mmcast (glue); the counters of stats; the second log backend
-- (crates/mmbus/src/wal/v2); the bridge's start and shutdown, its configuration and QUIC.
pub mod Bridge
pub mod Errors
pub mod Frame
pub mod Prelude
pub mod Publisher
pub mod Queue
pub mod Ring
pub mod Subscriber
pub mod Wakeup
pub mod Wal
