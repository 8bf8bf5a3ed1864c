-- ===== src/Wal/Open.antt =====
-- `Wal::open` and `Wal::read_from` of crates/mmbus/src/wal/wal.rs, and the iterator `WalReplayer`.
-- The directory is the table `disk`; files with other names are not in it.
pub mod ReadFrom
pub mod Resume
use mmbus.Prelude.{
  ℕ, zero, suc, ◌+◌, ◌-◌, Bool, true, false, List, [], ◌∷◌, ◌++◌, length, ltb, leb, ◌==◌, not,
  Result, ok, err, ◌>>=◌, Option, none, some, if◌then◌else◌,
}
use mmbus.Wal.{Record, ReaderError}
use mmbus.Wal.Segment
use mmbus.Wal.Segment.{SegmentReader, RecoveryReport, open_segment, next_record, recover_truncate}
use mmbus.Wal.Tables.{insert_key, last_key, insert, lookup, remove, total}
use mmbus.Wal.Aggregator.{Wal, WalConfig, WalError, already_exists, reader_error, cursor_too_old}

-- The file after its recovery; `none` is fuel run out.
unfoldable pub recovered_file : List ℕ → Option (List ℕ × RecoveryReport) → List ℕ
recovered_file file none = file
recovered_file file (some (kept, report)) = kept

-- The loop over the directory: every segment is recovered, and the first failure is the result.
unfoldable pub recover_all :
    (List ℕ → ℕ) → List (ℕ × List ℕ) → Result ReaderError (List (ℕ × List ℕ))
recover_all crc32c [] = ok []
recover_all crc32c ((k, file) ∷ files) = recover_truncate crc32c file >>= λ found.
    recover_all crc32c files >>= λ rest. ok ((k, recovered_file file found) ∷ rest)

abbrev pub keys : List (ℕ × List ℕ) → List ℕ
keys [] = []
keys ((k, file) ∷ t) = k ∷ keys t

unfoldable pub sizes : List (ℕ × List ℕ) → List (ℕ × ℕ)
sizes [] = []
sizes ((k, file) ∷ t) = (k, length file) ∷ sizes t

-- The last cursor that `iter().flatten()` gives: after an error there are no more records.
unfoldable pub after_next :
    Option (Result ReaderError Record) → Option ℕ → (Option ℕ → Option ℕ) → Option ℕ
after_next none last again = last
after_next (some (ok r)) last again = again (some r.cursor)
after_next (some (err e)) last again = again last

unfoldable pub last_cursor : (List ℕ → ℕ) → ℕ → SegmentReader → Option ℕ → Option ℕ
last_cursor crc32c zero reader last = last
last_cursor crc32c (suc fuel) reader last =
    let (item, reader') = next_record crc32c reader in
    after_next item last (λ l. last_cursor crc32c fuel reader' l)

unfoldable pub cursor_after : ℕ → Option ℕ → ℕ
cursor_after first none = first
cursor_after first (some c) = c + 1

-- A log without a writer: `retained_bytes` counts every segment.
unfoldable pub opened : WalConfig → List (ℕ × List ℕ) → ℕ → Wal
opened cfg disk pending = record {
  cfg = cfg;
  disk = disk;
  segments = keys disk;
  segment_sizes = sizes disk;
  active_bytes = 0;
  retained_bytes = total (sizes disk);
  writer = none;
  durable_cursor = pending;
  pending_cursor = pending;
  poisoned = false;
  appends_total = 0;
  append_bytes_total = 0;
  flushes_total = 0;
}

-- A segment for the next cursor is begun at once; its bytes are the active ones.
unfoldable pub begun :
    WalConfig → List (ℕ × List ℕ) → (next created : ℕ) → Option (List ℕ) → Result WalError Wal
begun cfg disk next created (some file) = err already_exists
begun cfg disk next created none =
    let new = Segment.create next created in
    ok (record (opened cfg disk next) {
      disk = insert next new.file disk;
      segments = insert_key next (keys disk);
      active_bytes = new.bytes_written;
      writer = some new;
    })

-- The last segment has its records up to `next`, or none.
unfoldable pub resume_at :
    WalConfig → List (ℕ × List ℕ) → (last_first next created : ℕ) → Result WalError Wal
resume_at cfg disk last_first next created =
    if next == last_first
    then ok (opened cfg disk last_first)
    else begun cfg disk next created (lookup next disk)

unfoldable pub resume :
    (List ℕ → ℕ)
    → WalConfig
    → List (ℕ × List ℕ)
    → (last_first created : ℕ) → Result ReaderError SegmentReader
    → Result WalError Wal
resume crc32c cfg disk last_first created (err e) = err (reader_error e)
resume crc32c cfg disk last_first created (ok reader) =
    resume_at cfg disk last_first
      (cursor_after last_first (last_cursor crc32c (suc (length reader.file)) reader none)) created

unfoldable pub last_file : List (ℕ × List ℕ) → Option (ℕ × List ℕ)
last_file [] = none
last_file (f ∷ []) = some f
last_file (f ∷ (g ∷ fs)) = last_file (g ∷ fs)

unfoldable pub open_recovered :
    (List ℕ → ℕ) → WalConfig → ℕ → List (ℕ × List ℕ) → Option (ℕ × List ℕ) → Result WalError Wal
open_recovered crc32c cfg created disk none = ok (opened cfg disk 0)
open_recovered crc32c cfg created disk (some (k, file)) =
    resume crc32c cfg disk k created (open_segment file)

unfoldable pub after_recovery :
    (List ℕ → ℕ) → WalConfig → ℕ → Result ReaderError (List (ℕ × List ℕ)) → Result WalError Wal
after_recovery crc32c cfg created (err e) = err (reader_error e)
after_recovery crc32c cfg created (ok disk) =
    open_recovered crc32c cfg created disk (last_file disk)

-- `Wal::open`
unfoldable pub open_wal : (List ℕ → ℕ) → List (ℕ × List ℕ) → WalConfig → ℕ → Result WalError Wal
open_wal crc32c disk cfg created = after_recovery crc32c cfg created (recover_all crc32c disk)

-- `WalReplayer`; `segments` are those not yet opened.
pub record WalReplayer : Type 0 where
  pub segments : List ℕ
  pub cursor_floor : ℕ
  pub current : Option SegmentReader

-- The largest key that is at most `cursor`, and `otherwise` if there is none.
unfoldable pub containing : ℕ → List ℕ → ℕ → ℕ
containing cursor [] otherwise = otherwise
containing cursor (k ∷ ks) otherwise =
    let rest = containing cursor ks k in if leb k cursor then rest else otherwise

-- The keys from `first` on.
unfoldable pub keys_from : ℕ → List ℕ → List ℕ
keys_from first [] = []
keys_from first (k ∷ ks) = let rest = keys_from first ks in if ltb k first then rest else k ∷ rest

-- `Wal::read_from`
unfoldable pub read_segments : List ℕ → ℕ → Result WalError WalReplayer
read_segments [] cursor = ok (record { segments = []; cursor_floor = cursor; current = none })
read_segments (oldest ∷ ks) cursor =
    if ltb cursor oldest
    then err (cursor_too_old cursor oldest)
    else ok (record {
      segments = keys_from (containing cursor (oldest ∷ ks) oldest) (oldest ∷ ks);
      cursor_floor = cursor;
      current = none;
    })

unfoldable pub read_from : Wal → ℕ → Result WalError WalReplayer
read_from w cursor = read_segments w.segments cursor
