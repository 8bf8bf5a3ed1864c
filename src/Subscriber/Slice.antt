-- ===== src/Subscriber/Slice.antt =====
-- `try_receive_into_slice` and `try_receive_one_into_slice` of crates/mmbus/src/subscriber.rs,
-- which write a message into the caller's buffer.
pub mod Agree
use mmbus.Prelude.{ℕ, List, length, ltb, ◌==◌, Result, ok, err, Option, none, some, if◌then◌else◌}
use mmbus.Ring.Reader.{Publishing, Pauses}
use mmbus.Ring.Slice
use mmbus.Ring.Slice.{put, usize_max, SliceResult}
use mmbus.Errors.{Error, too_large}
use mmbus.Subscriber.{Subscriber, next_wal_record}

abbrev pub Written : Type 0
Written = Option ℕ × (List ℕ × (Subscriber × Publishing))

-- The ring has answered.
unfoldable pub after_slice : Subscriber → SliceResult → Written
after_slice s (none, (out, p)) = (none, (out, (s, p)))
after_slice s (some (new_cursor, n), (out, p)) =
    (some n, (out, (record s { cursor = new_cursor }, p)))

-- `try_receive_into_slice`: the number of bytes, with the buffer.
unfoldable pub try_receive_into_slice : Subscriber → (ℕ → Pauses) → List ℕ → Publishing → Written
try_receive_into_slice s ds out p =
    after_slice s (Slice.try_receive_into_slice s.cursor_idx s.cursor ds out p)

abbrev pub OneWritten : Type 0
OneWritten = Result Error (Option ℕ) × (List ℕ × (Subscriber × Publishing))

unfoldable pub after_written : (slot_size size : ℕ) → Written → OneWritten
after_written slot_size size (none, rest) = (ok none, rest)
after_written slot_size size (some n, rest) =
    if n == usize_max then (err (too_large slot_size size), rest) else (ok (some n), rest)

-- The log has answered.
unfoldable pub after_record :
    (ℕ → Pauses) → List ℕ → Result Error (Option (List ℕ)) × (Subscriber × Publishing) → OneWritten
after_record ds out (err e, rest) = (err e, (out, rest))
after_record ds out (ok (some payload), rest) =
    if ltb (length out) (length payload)
    then (err (too_large (length payload) (length out)), (out, rest))
    else (ok (some (length payload)), (put payload out, rest))
after_record ds out (ok none, (s, p)) =
    after_written p.ring.slot_payload_size (length out) (try_receive_into_slice s ds out p)

-- `try_receive_one_into_slice`
unfoldable pub try_receive_one_into_slice :
    (List ℕ → ℕ) → List (ℕ × List ℕ) → Subscriber → (ℕ → Pauses) → List ℕ → Publishing → OneWritten
try_receive_one_into_slice crc32c disk s ds out p =
    after_record ds out (next_wal_record crc32c disk s p)
