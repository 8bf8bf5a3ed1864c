-- ===== src/Wal/Segment.antt =====
-- One segment of the log: crates/mmbus/src/wal/segment_writer.rs and segment_reader.rs. A segment's
-- file is its bytes; what the writer has flushed and synced is a prefix of what it wrote, so that
-- a crash leaves one of the prefixes from the synced one on. No call of the file system fails.
pub mod Recovery
pub mod Crash
pub mod Durable
pub mod Survival
pub mod Total
use mmbus.Prelude.{
  ℕ, zero, suc, ◌+◌, ◌-◌, not, Bool, true, false, List, [], ◌∷◌, ◌++◌, length, take, ltb, ◌==◌,
  Result, ok, err, ◌>>=◌, ◌>>◌, bail_if, Option, none, some, if◌then◌else◌,
}
use mmbus.Wal.{
  Record, SegmentHeader, SegmentHeaderError, truncated, ReaderError, header_error, encoded_len,
  encode_record, encode_segment_header, segment_header_len, max_payload_len, parse, read_one_record,
}

-- `SegmentWriter`; `file` is all that was written, `synced` the length that is on the disk for good.
pub record SegmentWriter : Type 0 where
  pub file : List ℕ
  pub synced : ℕ
  pub first_cursor : ℕ
  pub pending_cursor : ℕ
  pub durable_cursor : ℕ
  pub bytes_written : ℕ

pub data WriterError : Type 0 where
  payload_too_large : ℕ → WriterError
  cursor_regressed : (got expected : ℕ) → WriterError

-- `SegmentWriter::create` for a path at which there is no file.
unfoldable pub create : (first_cursor created : ℕ) → SegmentWriter
create first_cursor created = record {
  file = encode_segment_header first_cursor created;
  synced = segment_header_len;
  first_cursor = first_cursor;
  pending_cursor = first_cursor;
  durable_cursor = first_cursor;
  bytes_written = segment_header_len;
}

-- `SegmentWriter::append`
unfoldable pub append :
    (List ℕ → ℕ) → SegmentWriter → ℕ → ℕ → List ℕ → Result WriterError SegmentWriter
append crc32c w cursor ts_unix_nanos payload = do
  bail_if (ltb max_payload_len (length payload)) (payload_too_large (length payload))
  bail_if (not (cursor == w.pending_cursor)) (cursor_regressed cursor w.pending_cursor)
  let scratch =
      encode_record crc32c
        (record { cursor = cursor; ts_unix_nanos = ts_unix_nanos; payload = payload })
  ok (record w {
    file = w.file ++ scratch;
    bytes_written = w.bytes_written + length scratch;
    pending_cursor = cursor + 1;
  })

-- `SegmentWriter::fsync`, and the cursor that it returns.
unfoldable pub fsync : SegmentWriter → SegmentWriter × ℕ
fsync w = (record w { synced = length w.file; durable_cursor = w.pending_cursor }, w.pending_cursor)

-- `SegmentWriter::close`, as the writer at its end.
unfoldable pub close : SegmentWriter → SegmentWriter
close w = (fsync w).0

-- `flush_for_external_fsync`: the length that the clone's `sync_data` will make durable, and the
-- cursor at the flush.
unfoldable pub flush_for_external_fsync : SegmentWriter → ℕ × ℕ
flush_for_external_fsync w = (length w.file, w.pending_cursor)

-- The clone's `sync_data`.
unfoldable pub sync_data : SegmentWriter → ℕ → SegmentWriter
sync_data w flushed = if ltb w.synced flushed then record w { synced = flushed } else w

-- A segment, the durable cursor of its `Wal`, which the flusher stores beside the writer's own, and a
-- flush that the batched flusher has begun and whose `sync_data` it waits for: the length and the
-- cursor at the flush.
pub record Log : Type 0 where
  pub writer : SegmentWriter
  pub durable_cursor : ℕ
  pub flushing : Option (ℕ × ℕ)

pub data LogOp : Type 0 where
  append_op : (cursor ts : ℕ) (payload : List ℕ) → LogOp
  fsync_op : LogOp
  flush_op : LogOp
  flushed_op : LogOp

unfoldable pub after_append : Log → Result WriterError SegmentWriter → Log
after_append l (ok w) = record l { writer = w }
after_append l (err e) = l

unfoldable pub after_flush : Log → Option (ℕ × ℕ) → Log
after_flush l none = l
after_flush l (some (n, c)) = record l {
  writer = sync_data l.writer n;
  durable_cursor = c;
  flushing = none;
}

unfoldable pub perform : (List ℕ → ℕ) → Log → LogOp → Log
perform crc32c l (append_op cursor ts payload) =
    after_append l (append crc32c l.writer cursor ts payload)
perform crc32c l fsync_op = record l {
  writer = (fsync l.writer).0;
  durable_cursor = (fsync l.writer).1;
}
perform crc32c l flush_op = record l { flushing = some (flush_for_external_fsync l.writer) }
perform crc32c l flushed_op = after_flush l l.flushing

unfoldable pub perform_all : (List ℕ → ℕ) → Log → List LogOp → Log
perform_all crc32c l [] = l
perform_all crc32c l (op ∷ ops) = perform_all crc32c (perform crc32c l op) ops

-- `SegmentReader`
pub record SegmentReader : Type 0 where
  pub file : List ℕ
  pub header : SegmentHeader
  pub pos : ℕ
  pub halted : Bool

-- `SegmentReader::open`; `parse` looks at the 32 bytes of the header only.
unfoldable pub after_header :
    List ℕ → Result SegmentHeaderError SegmentHeader → Result ReaderError SegmentReader
after_header file (err e) = err (header_error e)
after_header file (ok header) =
    ok (record { file = file; header = header; pos = segment_header_len; halted = false })

unfoldable pub open_segment : List ℕ → Result ReaderError SegmentReader
open_segment file = after_header file (parse file)

-- `next_record`, once `read_one_record` has returned.
unfoldable pub after_read :
    SegmentReader
    → Result ReaderError (Option (Record × ℕ))
    → Option (Result ReaderError Record) × SegmentReader
after_read reader (ok (some (r, advance))) =
    (some (ok r), record reader { pos = reader.pos + advance })
after_read reader (ok none) = (none, reader)
after_read reader (err e) = (some (err e), record reader { halted = true })

-- `SegmentReader::next_record`
unfoldable pub next_record :
    (List ℕ → ℕ) → SegmentReader → Option (Result ReaderError Record) × SegmentReader
next_record crc32c reader =
    if reader.halted
    then (none, reader)
    else after_read reader (read_one_record crc32c reader.file reader.pos)

-- The state of `recover_truncate`'s loop, and how it ends.
pub record Scan : Type 0 where
  pub last_good_end : ℕ
  pub last_cursor : Option ℕ
  pub hit_bad_record : Bool

unfoldable pub after_scan :
    Result ReaderError (Option (Record × ℕ))
    → ℕ
    → Option ℕ
    → (ℕ → Option ℕ → Option Scan)
    → Option Scan
after_scan (ok none) pos last again =
    some (record { last_good_end = pos; last_cursor = last; hit_bad_record = false })
after_scan (ok (some (r, advance))) pos last again = again (pos + advance) (some r.cursor)
after_scan (err e) pos last again =
    some (record { last_good_end = pos; last_cursor = last; hit_bad_record = true })

-- The loop, on fuel; `none` is fuel run out. `pos` and `last_good_end` are the same.
unfoldable pub scan : (List ℕ → ℕ) → ℕ → List ℕ → ℕ → Option ℕ → Option Scan
scan crc32c zero file pos last = none
scan crc32c (suc fuel) file pos last =
    after_scan (read_one_record crc32c file pos) pos last (λ p l. scan crc32c fuel file p l)

pub record RecoveryReport : Type 0 where
  pub final_len : ℕ
  pub bytes_dropped : ℕ
  pub last_cursor : Option ℕ

-- `set_len` where the scan has met a bad record: the file and the report.
unfoldable pub truncate : List ℕ → Scan → List ℕ × RecoveryReport
truncate file s =
    if s.hit_bad_record
    then (
      take s.last_good_end file,
      record {
        final_len = s.last_good_end;
        bytes_dropped = length file - s.last_good_end;
        last_cursor = s.last_cursor;
      },
    )
    else (file, record { final_len = length file; bytes_dropped = 0; last_cursor = s.last_cursor })

unfoldable pub after_loop : List ℕ → Option Scan → Option (List ℕ × RecoveryReport)
after_loop file none = none
after_loop file (some s) = some (truncate file s)

-- `recover_truncate`, with a round of fuel for each byte.
unfoldable pub recover_truncate :
    (List ℕ → ℕ) → List ℕ → Result ReaderError (Option (List ℕ × RecoveryReport))
recover_truncate crc32c file = open_segment file >>= λ reader.
    ok (after_loop file (scan crc32c (suc (length file)) file segment_header_len none))
