-- ===== src/Wal/Aggregator.antt =====
-- The log of many segments, crates/mmbus/src/wal/wal.rs. `disk` has the segments' files under the
-- number in their names; the active segment's file is there as it was at its last flush. The lock is
-- held through each operation, so that an operation is one step. A step gives the state, which it
-- may have changed, also where it fails.
pub mod Pending
pub mod Retention
use mmbus.Prelude.{
  ℕ, zero, suc, ◌+◌, ◌-◌, ◌^◌, not, Bool, true, false, List, [], ◌∷◌, ◌++◌, length, ltb, leb, ◌==◌,
  Result, ok, err, Option, none, some, if◌then◌else◌,
}
use mmbus.Wal.{Record, ReaderError, max_payload_len, record_framing, encode_segment_header}
use mmbus.Wal.Segment
use mmbus.Wal.Segment.{
  SegmentWriter, WriterError, SegmentReader, RecoveryReport, open_segment, next_record,
  recover_truncate,
}
use mmbus.Wal.Tables.{insert_key, remove_key, last_key, insert, lookup, remove, total}

-- `FsyncPolicy`; `no_fsync` is the source's `None`.
pub data FsyncPolicy : Type 0 where
  no_fsync batched each : FsyncPolicy

pub record WalConfig : Type 0 where
  pub enabled : Bool
  pub fsync_policy : FsyncPolicy
  pub segment_size_max : ℕ
  pub retention_bytes : ℕ

-- `WalError`; `already_exists`, `not_found` and `io_error`, where an fsync fails, are the only errors
-- of the file system here, and `panicked` is `unwrap` on no writer.
pub data WalError : Type 0 where
  already_exists : WalError
  not_found : WalError
  io_error : WalError
  panicked : WalError
  writer_error : WriterError → WalError
  reader_error : ReaderError → WalError
  cursor_too_old : (requested oldest : ℕ) → WalError
  poisoned_error : WalError
  too_large : ℕ → WalError

pub record Wal : Type 0 where
  pub cfg : WalConfig
  pub disk : List (ℕ × List ℕ)
  pub segments : List ℕ
  pub segment_sizes : List (ℕ × ℕ)
  pub active_bytes : ℕ
  pub retained_bytes : ℕ
  pub writer : Option SegmentWriter
  pub durable_cursor : ℕ
  pub pending_cursor : ℕ
  pub poisoned : Bool
  pub appends_total : ℕ
  pub append_bytes_total : ℕ
  pub flushes_total : ℕ

abbrev pub Step : Type 0
Step = Wal × Result WalError (Unit {0})

-- `?` between two steps.
unfoldable pub and_then : Step → (Wal → Step) → Step
and_then (w, ok _) k = k w
and_then (w, err e) k = (w, err e)

-- `SegmentWriter::create` and what `append` and `rotate_locked` do with the new writer; `created` is
-- the clock.
unfoldable pub add_segment : Wal → Option (List ℕ) → (first created : ℕ) → Step
add_segment w (some file) first created = (w, err already_exists)
add_segment w none first created =
    let new = Segment.create first created in
    (
      record w {
        disk = insert first new.file w.disk;
        segments = insert_key first w.segments;
        active_bytes = new.bytes_written;
        writer = some new;
      },
      ok tt,
    )

unfoldable pub create_segment : Wal → (first created : ℕ) → Step
create_segment w first created = add_segment w (lookup first w.disk) first created

-- The writer is taken and closed, and its segment is a retained one.
unfoldable pub close_active : Wal → Option SegmentWriter → Wal
close_active w none = w
close_active w (some a) = record w {
  disk = insert a.first_cursor (Segment.close a).file w.disk;
  segment_sizes = insert a.first_cursor a.bytes_written w.segment_sizes;
  retained_bytes = w.retained_bytes + a.bytes_written;
  writer = none;
}

unfoldable pub rotate_locked : Wal → (new_first_cursor created : ℕ) → Step
rotate_locked w new_first_cursor created =
    create_segment (close_active w w.writer) new_first_cursor created

-- The first segment that is not the active one.
unfoldable pub oldest_but : ℕ → List ℕ → Option ℕ
oldest_but active [] = none
oldest_but active (k ∷ ks) = let rest = oldest_but active ks in if k == active then rest else some k

unfoldable pub active_first : Option SegmentWriter → ℕ
active_first none = 2 ^ 64 - 1
active_first (some a) = a.first_cursor

unfoldable pub drop_size : Wal → ℕ → Option ℕ → Wal
drop_size w k none = w
drop_size w k (some size) = record w {
  segment_sizes = remove k w.segment_sizes;
  retained_bytes = w.retained_bytes - size;
}

-- One segment is deleted: its entries and its file.
unfoldable pub drop_segment : Wal → ℕ → Wal
drop_segment w k =
    drop_size (record w { segments = remove_key k w.segments; disk = remove k w.disk }) k
      (lookup k w.segment_sizes)

-- The body of `enforce_retention_locked`'s loop; `again` is the next round.
unfoldable pub retain : Wal → Option ℕ → (Wal → Wal) → Wal
retain w none again = w
retain w (some k) again = again (drop_segment w k)

-- The loop, on fuel.
unfoldable pub enforce : ℕ → Wal → Wal
enforce zero w = w
enforce (suc fuel) w =
    if leb (w.retained_bytes + w.active_bytes) w.cfg.retention_bytes
    then w
    else retain w (oldest_but (active_first w.writer) w.segments) (λ w'. enforce fuel w')

-- `enforce_retention_locked`, with a round for each segment and one more.
unfoldable pub enforce_retention_locked : Wal → Wal
enforce_retention_locked w = enforce (suc (length w.segments)) w

unfoldable pub ensure_writer : Wal → Option SegmentWriter → (cursor created : ℕ) → Step
ensure_writer w (some a) cursor created = (w, ok tt)
ensure_writer w none cursor created = create_segment w cursor created

unfoldable pub rotate_if_full : Wal → (cursor created len : ℕ) → Step
rotate_if_full w cursor created len =
    if ltb w.cfg.segment_size_max (w.active_bytes + (record_framing + len))
    then rotate_locked w cursor created
    else (w, ok tt)

unfoldable pub after_append : Wal → ℕ → Result WriterError SegmentWriter → Step
after_append w len (err e) = (w, err (writer_error e))
after_append w len (ok a) = (
  record w {
    writer = some a;
    active_bytes = a.bytes_written;
    pending_cursor = a.pending_cursor;
    appends_total = w.appends_total + 1;
    append_bytes_total = w.append_bytes_total + len;
  },
  ok tt,
)

unfoldable pub append_active :
    (List ℕ → ℕ) → Wal → Option SegmentWriter → (cursor ts : ℕ) → List ℕ → Step
append_active crc32c w none cursor ts payload = (w, err panicked)
append_active crc32c w (some a) cursor ts payload =
    after_append w (length payload) (Segment.append crc32c a cursor ts payload)

-- What the operating system answers to an fsync: `flush`, which writes the buffer out or nothing of
-- it, or `sync_data` may fail.
pub data FileSync : Type 0 where
  sync_ok flush_failed sync_failed : FileSync

-- The writer's `fsync` and what the callers do with the cursor that it returns.
unfoldable pub fsync_active : Wal → FileSync → Option SegmentWriter → Step
fsync_active w answer none = (w, ok tt)
fsync_active w sync_ok (some a) = (
  record w {
    writer = some (Segment.fsync a).0;
    disk = insert a.first_cursor a.file w.disk;
    durable_cursor = (Segment.fsync a).1;
    flushes_total = w.flushes_total + 1;
  },
  ok tt,
)
fsync_active w flush_failed (some a) = (w, err io_error)
fsync_active w sync_failed (some a) =
    (record w { disk = insert a.first_cursor a.file w.disk }, err io_error)

unfoldable pub fsync_each : Wal → FileSync → FsyncPolicy → Step
fsync_each w answer each = fsync_active w answer w.writer
fsync_each w answer batched = (w, ok tt)
fsync_each w answer no_fsync = (w, ok tt)

unfoldable pub retain_if_over : Wal → Step
retain_if_over w =
    if ltb w.cfg.retention_bytes (w.retained_bytes + w.active_bytes)
    then (enforce_retention_locked w, ok tt)
    else (w, ok tt)

-- The record is in the segment, and counted: an error of the fsync takes nothing of it back.
unfoldable pub finish_append : Wal → FileSync → Step
finish_append w answer = and_then (fsync_each w answer w.cfg.fsync_policy) retain_if_over

-- `Wal::append`
unfoldable pub append : (List ℕ → ℕ) → Wal → (cursor ts created : ℕ) → FileSync → List ℕ → Step
append crc32c w cursor ts created answer payload =
    if not w.cfg.enabled
    then (w, ok tt)
    else if ltb max_payload_len (length payload)
    then (w, err (too_large (length payload)))
    else if w.poisoned
    then (w, err poisoned_error)
    else and_then (ensure_writer w w.writer cursor created) (λ w1.
      and_then (rotate_if_full w1 cursor created (length payload)) (λ w2.
        and_then (append_active crc32c w2 w2.writer cursor ts payload)
          (λ w3. finish_append w3 answer)))

-- `Wal::fsync`
unfoldable pub fsync : Wal → FileSync → Step
fsync w answer = fsync_active w answer w.writer

-- `Wal::bump_generation`
unfoldable pub bump : Wal → Option SegmentWriter → ℕ → Step
bump w none created = (w, ok tt)
bump w (some a) created = rotate_locked w a.pending_cursor created

unfoldable pub bump_generation : Wal → ℕ → Step
bump_generation w created = bump w w.writer created

-- `Wal::oldest_cursor`
unfoldable pub first_or_zero : List ℕ → ℕ
first_or_zero [] = 0
first_or_zero (k ∷ ks) = k

unfoldable pub oldest_cursor : Wal → ℕ
oldest_cursor w = first_or_zero w.segments
