-- ===== src/Wal/Runs.antt =====
-- Runs of the log: each theorem on two small records, with a checksum that adds the bytes up.
use mmbus.Prelude.{
  ℕ, zero, suc, ◌+◌, ◌-◌, ◌%◌, ◌^◌, ◌≤◌, ◌<◌, ◌≡◌, ◌≢◌, ◌⊎◌, inl, inr, refl, ap, List, [], ◌∷◌,
  ◌++◌, length, take, Bool, true, false, Result, ok, err, Option, none, some, arith,
}
use mmbus.Wal.{
  Record, encoded_len, encode_record, encode_segment_header, read_record, parse, max_payload_len,
}
use mmbus.Wal.RoundTrip.{IsWritable}
use mmbus.Wal.Segment
use mmbus.Wal.Segment.{
  LogOp, append_op, fsync_op, flush_op, flushed_op, perform_all, recover_truncate, RecoveryReport,
}
use mmbus.Wal.Segment.Recovery.{encode_all, AllWritable, last_cursor_of}
use mmbus.Wal.Segment.Crash.{fitting, recover_truncate-cut}
use mmbus.Wal.Segment.Durable.{Contiguous}
use mmbus.Wal.Segment.Survival.{fresh, recover_truncate-perform_all}
use mmbus.Wal.Aggregator.{Wal, WalConfig, each, already_exists, sync_ok, cursor_too_old, append}
use mmbus.Wal.Open.{open_wal, read_from, WalReplayer}
use mmbus.Wal.Replay.{nexts, open_reader, reader_read_from, next, next_loop, rounds}
use mmbus.Wal.Replay.Returns.{next-returns}
use mmbus.Wal.Replay.Whole.{items}
use mmbus.Wal.Replay.Complete.{Seg, Chain, directory, reader_read_from-replays}
use mmbus.Wal.Open.ReadFrom.{Above, read_from-covers}
use mmbus.Wal.Open.Resume.{open_wal-goes_on, open_wal-refuses}

abbrev sum : List ℕ → ℕ
sum [] = 0
sum (b ∷ bs) = b + sum bs

abbrev checksum : List ℕ → ℕ
checksum bs = sum bs % 2 ^ 32

checksum-lt : (bs : List ℕ) → checksum bs < 2 ^ 32
checksum-lt bs = omega arith

abbrev seventh : Record
seventh = record { cursor = 7; ts_unix_nanos = 100; payload = 1 ∷ (2 ∷ []) }

abbrev eighth : Record
eighth = record { cursor = 8; ts_unix_nanos = 101; payload = [] }

abbrev both : List Record
both = seventh ∷ (eighth ∷ [])

seventh-IsWritable : IsWritable seventh
unfolding encoded_len
seventh-IsWritable = record {
  cursor_fits = omega arith;
  ts_fits = omega arith;
  size_fits = omega arith;
}

both-AllWritable : AllWritable both
unfolding encoded_len
both-AllWritable = (
  seventh-IsWritable,
  (record { cursor_fits = omega arith; ts_fits = omega arith; size_fits = omega arith }, tt),
)

recover_truncate-cut_example :
    (report : RecoveryReport) × (recover_truncate checksum
        (encode_segment_header 7 99 ++ take 40 (encode_all checksum both))
      ≡ ok (some (encode_segment_header 7 99 ++ encode_all checksum (fitting 40 both), report)))
    × (report.last_cursor ≡ last_cursor_of (fitting 40 both) none)
recover_truncate-cut_example =
    recover_truncate-cut checksum checksum-lt 7 99 40 both (omega arith) (omega arith)
      both-AllWritable

abbrev some_ops : List LogOp
some_ops =
    append_op 7 100 (1 ∷ [])
    ∷ (flush_op ∷ (append_op 8 101 [] ∷ (flushed_op ∷ (append_op 8 0 [] ∷ []))))

-- The first record is on the disk for good; the last append is refused.
some_ops-synced : (perform_all checksum (fresh 7 99) some_ops).writer.synced ≡ 61
unfolding perform_all mmbus.Wal.Segment.perform mmbus.Wal.Segment.append mmbus.Wal.Segment.create
    mmbus.Wal.Segment.after_append mmbus.Wal.Segment.after_flush
    mmbus.Wal.Segment.flush_for_external_fsync mmbus.Wal.Segment.sync_data encode_segment_header
    encode_record mmbus.Wal.record_body mmbus.Prelude.Bytes.to_le_bytes
some_ops-synced = refl

recover_truncate-perform_all_example :
    (got : List Record) × (lost : List Record) × (report : RecoveryReport) × ((perform_all checksum
        (fresh 7 99)
        some_ops).writer.file
      ≡ encode_segment_header 7 99 ++ encode_all checksum (got ++ lost))
    × Contiguous 7 (got ++ lost)
    × (recover_truncate checksum (take 70 (perform_all checksum (fresh 7 99) some_ops).writer.file)
        ≡ ok (some (encode_segment_header 7 99 ++ encode_all checksum got, report)))
    × (report.last_cursor ≡ last_cursor_of got none)
    × ((perform_all checksum (fresh 7 99) some_ops).durable_cursor ≤ 7 + length got)
    × ((perform_all checksum (fresh 7 99) some_ops).writer.durable_cursor ≤ 7 + length got)
recover_truncate-perform_all_example =
    recover_truncate-perform_all checksum checksum-lt 7 99 some_ops 70 (omega arith) (omega arith)
      (
        (omega arith, omega arith),
        (tt, ((omega arith, omega arith), (tt, ((omega arith, omega arith), tt)))),
      )
      (omega (arith, some_ops-synced))

abbrev each_config : WalConfig
each_config = record {
  enabled = true;
  fsync_policy = each;
  segment_size_max = 1000;
  retention_bytes = 100;
}

-- Three segments, of which the last is the active one, and too many bytes.
abbrev three_segments : Wal
three_segments = record {
  cfg = each_config;
  disk = [];
  segments = 0 ∷ (4 ∷ (9 ∷ []));
  segment_sizes = (0, 60) ∷ ((4, 50) ∷ []);
  active_bytes = 45;
  retained_bytes = 110;
  writer = some (Segment.create 9 1);
  durable_cursor = 9;
  pending_cursor = 9;
  poisoned = false;
  appends_total = 0;
  append_bytes_total = 0;
  flushes_total = 0;
}

read_from-covers_example :
    ((three_segments.segments ≡ [])
      × (read_from three_segments 5
          ≡ ok (record { segments = []; cursor_floor = 5; current = none })))
    ⊎ (((oldest : ℕ) × (rest : List ℕ) × (three_segments.segments ≡ oldest ∷ rest)
          × (5 < oldest)
          × (read_from three_segments 5 ≡ err (cursor_too_old 5 oldest)))
        ⊎ ((skipped : List ℕ) × (first : ℕ) × (rest : List ℕ) × (three_segments.segments
              ≡ skipped ++ (first ∷ rest))
            × (first ≤ 5)
            × Above 5 rest
            × (read_from three_segments 5
                ≡ ok (record { segments = first ∷ rest; cursor_floor = 5; current = none }))))
read_from-covers_example =
    read_from-covers three_segments 5
      ((omega arith, (omega arith, tt)), ((omega arith, tt), (tt, tt)))

open_wal-goes_on_example :
    (w : Wal) × (open_wal checksum
        ((7, encode_segment_header 7 99 ++ encode_all checksum both) ∷ [])
        each_config
        5
      ≡ ok w)
    × (w.pending_cursor ≡ 7 + length both)
    × (w.segments ≡ 7 ∷ ((7 + length both) ∷ []))
    × (w.writer ≡ some (Segment.create (7 + length both) 5))
open_wal-goes_on_example =
    open_wal-goes_on checksum checksum-lt each_config 7 99 5 seventh (eighth ∷ []) (omega arith)
      (omega arith) both-AllWritable (refl, (omega arith, tt))

open_wal-refuses_example :
    (w : Wal) × (open_wal checksum ((7, encode_segment_header 7 99) ∷ []) each_config 5 ≡ ok w)
    × (w.pending_cursor ≡ 7)
    × (append checksum w w.pending_cursor 100 6 sync_ok (1 ∷ []) ≡ (w, err already_exists))
open_wal-refuses_example =
    open_wal-refuses checksum checksum-lt each_config 7 99 5 100 6 sync_ok (1 ∷ []) refl
      (omega arith) (omega arith) (omega arith)

-- A header and four bytes that are no record.
abbrev stray_bytes : List ℕ
stray_bytes = encode_segment_header 7 99 ++ (1 ∷ (2 ∷ (3 ∷ (4 ∷ []))))

abbrev first_seg : Seg
first_seg = record { first = 7; created = 99; records = both }

abbrev second_seg : Seg
second_seg = record { first = 9; created = 100; records = [] }

two_segs-Chain : Chain 7 (first_seg ∷ (second_seg ∷ []))
two_segs-Chain = (
  refl,
  omega arith,
  omega arith,
  both-AllWritable,
  (refl, (refl, tt)),
  inl (omega arith),
  (refl, omega arith, omega arith, tt, tt, inr refl, tt),
)

reader_read_from-replays_example :
    (rp : WalReplayer) × (reader_read_from
        (open_reader (directory checksum (first_seg ∷ (second_seg ∷ []))))
        8
      ≡ ok rp)
    × ((n : ℕ)
        → nexts checksum (directory checksum (first_seg ∷ (second_seg ∷ []))) n rp
          ≡ items n (eighth ∷ []))
reader_read_from-replays_example =
    reader_read_from-replays checksum checksum-lt 8 first_seg (second_seg ∷ []) two_segs-Chain
      (omega arith)

-- The replay is of a segment with two records, and of one that is gone.
abbrev with_a_gap : WalReplayer
with_a_gap = record { segments = 7 ∷ (11 ∷ []); cursor_floor = 8; current = none }

next-returns_example :
    next_loop checksum
      (suc (rounds (directory checksum (first_seg ∷ (second_seg ∷ []))) with_a_gap))
      (directory checksum (first_seg ∷ (second_seg ∷ [])))
      with_a_gap
    ≡ some (next checksum (directory checksum (first_seg ∷ (second_seg ∷ []))) with_a_gap)
next-returns_example =
    next-returns checksum (directory checksum (first_seg ∷ (second_seg ∷ []))) with_a_gap
