-- ===== src/Wal/Open/Resume.antt =====
-- `Wal::open` of crates/mmbus/src/wal/wal.rs after a restart, on a directory of one segment.
use mmbus.Prelude.{
  ℕ, zero, suc, ◌+◌, ◌≤◌, ◌<◌, ◌^◌, ◌≡◌, refl, ap, ◌∙◌, true, false, List, [], ◌∷◌, ◌++◌, length,
  Option, none, some, ok, err, arith, ltb, ◌==◌, append-nil, append_assoc, length-append,
}
use mmbus.Wal.{
  Record, SegmentHeader, encoded_len, encode_record, encode_segment_header, parse, max_payload_len,
}
use mmbus.Wal.RoundTrip.{
  length-encode_record, length-encode_segment_header, parse-encode_segment_header,
}
use mmbus.Wal.Segment
use mmbus.Wal.Segment.{
  SegmentReader, next_record, after_read, open_segment, after_header, recover_truncate,
}
use mmbus.Wal.Segment.Recovery.{
  encode_all, AllWritable, last_cursor_of, length-encode_all, read_one_record-encode_record,
  read_one_record-at, recover_truncate-EndsAt,
}
use mmbus.Wal.Segment.Durable.{Contiguous}
use mmbus.Wal.Aggregator.{
  Wal, WalConfig, already_exists, FileSync, append, and_then, ensure_writer, create_segment,
  add_segment,
}
use mmbus.Wal.Tables.{lookup, insert, insert_key}
use mmbus.Wal.Open.{
  open_wal, after_recovery, recover_all, recovered_file, open_recovered, resume, resume_at, begun,
  opened, last_file, keys, last_cursor, after_next, cursor_after,
}

module _ (crc32c : List ℕ → ℕ) (word : (bs : List ℕ) → crc32c bs < 2 ^ 32) where
  -- The reader goes through whole records to the end.
  last_cursor-encode_all :
      (fuel pos : ℕ) (h : SegmentHeader) (front : List ℕ) (rs : List Record) (last : Option ℕ)
      → length rs < fuel
      → length front ≡ pos
      → AllWritable rs
      → last_cursor crc32c fuel
          (record { file = front ++ encode_all crc32c rs; header = h; pos = pos; halted = false })
          last
        ≡ last_cursor_of rs last
  unfolding last_cursor next_record after_read after_next
  last_cursor-encode_all zero pos h front rs last more here all = absurd (omega arith)
  last_cursor-encode_all (suc fuel) pos h front [] last more here all =
      rw (read_one_record-at crc32c pos front [] here) refl
  last_cursor-encode_all (suc fuel) pos h front (r ∷ rs) last more here (v, all) =
      rw (read_one_record-encode_record crc32c word pos front r (encode_all crc32c rs) here v) (
        rw (← append_assoc front (encode_record crc32c r) (encode_all crc32c rs)) (
          last_cursor-encode_all fuel (pos + encoded_len r) h (front ++ encode_record crc32c r) rs
            (some r.cursor) (omega arith)
            (omega
              (arith, length-append front (encode_record crc32c r), length-encode_record crc32c r))
            all))

  last_cursor_of-Contiguous :
      (first : ℕ) (r : Record) (rs : List Record) (last : Option ℕ)
      → Contiguous first (r ∷ rs)
      → last_cursor_of (r ∷ rs) last ≡ some (first + length rs)
  last_cursor_of-Contiguous first r [] last (e, c) = ap some (omega (arith, e))
  last_cursor_of-Contiguous first r (s ∷ rs) last (e, c) =
      last_cursor_of-Contiguous (first + 1) s rs (some r.cursor) c ∙ ap some (omega arith)

  cursor_after-Contiguous :
      (first : ℕ) (rs : List Record)
      → Contiguous first rs
      → cursor_after first (last_cursor_of rs none) ≡ first + length rs
  unfolding cursor_after
  cursor_after-Contiguous first [] c = omega arith
  cursor_after-Contiguous first (r ∷ rs) c =
      ap (cursor_after first) (last_cursor_of-Contiguous first r rs none c) ∙ omega arith

  -- One segment with whole records.
  module _ (first created : ℕ) (rs : List Record) (f : first < 2 ^ 64) (c : created < 2 ^ 64)
      (all : AllWritable rs) (up : Contiguous first rs) where
    abbrev pub file : List ℕ
    file = encode_segment_header first created ++ encode_all crc32c rs

    abbrev header : SegmentHeader
    header = record { first_cursor = first; created_unix_nanos = created }

    open_wal-resume :
        (cfg : WalConfig) (now : ℕ)
        → open_wal crc32c ((first, file) ∷ []) cfg now
          ≡ resume_at cfg ((first, file) ∷ []) first (first + length rs) now
    unfolding open_wal after_recovery recover_all recovered_file open_recovered last_file resume
        open_segment after_header
    open_wal-resume cfg now =
        rw
          (
            recovered,
            parsed,
            last_cursor-encode_all (suc (length file)) 32 header
                (encode_segment_header first created) rs none enough len all,
            cursor_after-Contiguous first rs up,
          )
          refl
      where
        len : length (encode_segment_header first created) ≡ 32
        len = length-encode_segment_header first created

        enough : length rs < suc (length file)
        enough = omega (
          arith,
          length-encode_all crc32c word rs,
          length-append (encode_segment_header first created) (encode_all crc32c rs),
        )

        parsed : parse file ≡ ok header
        parsed = parse-encode_segment_header first created (encode_all crc32c rs) f c

        recovered :
            recover_truncate crc32c file
            ≡ ok (
                some (
                  file,
                  record {
                    final_len = 32 + length (encode_all crc32c rs);
                    bytes_dropped = 0;
                    last_cursor = last_cursor_of rs none;
                  },
                ))
        recovered = rw (append-nil) at (
            recover_truncate-EndsAt crc32c word false (encode_segment_header first created) header
              rs [] len (rw (append-nil) parsed) all refl)

-- The log with a new segment begun.
abbrev begun_log : WalConfig → List (ℕ × List ℕ) → ℕ → ℕ → Wal
begun_log cfg disk next now = record (opened cfg disk next) {
  disk = insert next (Segment.create next now).file disk;
  segments = insert_key next (keys disk);
  active_bytes = (Segment.create next now).bytes_written;
  writer = some (Segment.create next now);
}

resume_at-later :
    (cfg : WalConfig) (disk : List (ℕ × List ℕ)) (first next now : ℕ)
    → (next == first) ≡ false
    → lookup next disk ≡ none
    → resume_at cfg disk first next now ≡ ok (begun_log cfg disk next now)
unfolding resume_at begun
resume_at-later cfg disk first next now other free = rw (other, free) refl

-- After a restart on one segment with some whole records, the log goes on in a new segment, whose
-- number is the cursor after the last record; this is the next cursor to be appended.
pub open_wal-goes_on :
    (crc32c : List ℕ → ℕ)
    → ((bs : List ℕ) → crc32c bs < 2 ^ 32)
    → (cfg : WalConfig) (first created now : ℕ) (r : Record) (rs : List Record) → first < 2 ^ 64
    → created < 2 ^ 64
    → AllWritable (r ∷ rs)
    → Contiguous first (r ∷ rs)
    → (w : Wal) × (open_wal crc32c
          ((first, encode_segment_header first created ++ encode_all crc32c (r ∷ rs)) ∷ [])
          cfg
          now
        ≡ ok w)
      × (w.pending_cursor ≡ first + length (r ∷ rs))
      × (w.segments ≡ first ∷ ((first + length (r ∷ rs)) ∷ []))
      × (w.writer ≡ some (Segment.create (first + length (r ∷ rs)) now))
unfolding opened
open_wal-goes_on crc32c word cfg first created now r rs f c all up =
    let other : (first + suc (length rs) == first) ≡ false = ground arith in
    let later : ltb (first + suc (length rs)) first ≡ false = ground arith in
    let next = first + suc (length rs) in
    let disk = (first, encode_segment_header first created ++ encode_all crc32c (r ∷ rs)) ∷ [] in
    (
      begun_log cfg disk next now,
      open_wal-resume crc32c word first created (r ∷ rs) f c all up cfg now
          ∙ resume_at-later cfg disk first next now other (rw other refl),
      refl,
      rw (later, other) refl,
      refl,
    )

-- `append` where there is no writer and a file of the cursor's number.
append-already_exists :
    (crc32c : List ℕ → ℕ) (w : Wal) (cursor ts created : ℕ) (answer : FileSync)
    (payload file : List ℕ)
    → w.cfg.enabled ≡ true
    → w.poisoned ≡ false
    → w.writer ≡ none
    → lookup cursor w.disk ≡ some file
    → length payload ≤ max_payload_len
    → append crc32c w cursor ts created answer payload ≡ (w, err already_exists)
unfolding append ensure_writer create_segment add_segment and_then
append-already_exists crc32c w cursor ts created answer payload file on healthy nobody there fits =
    let small : ltb max_payload_len (length payload) ≡ false = ground (arith, fits) in
    rw (on, healthy, small, nobody, there) refl

-- After a restart on one segment without a record, the log, if it is on, waits for its first record
-- with no writer, and then refuses it, whatever it is, up to the largest size: the segment's file
-- exists already. The log is as it
-- was, so that it refuses the next one too.
pub open_wal-refuses :
    (crc32c : List ℕ → ℕ)
    → ((bs : List ℕ) → crc32c bs < 2 ^ 32)
    → (cfg : WalConfig) (first created now ts now' : ℕ) (answer : FileSync) (payload : List ℕ)
    → cfg.enabled ≡ true
    → first < 2 ^ 64
    → created < 2 ^ 64
    → length payload ≤ max_payload_len
    → (w : Wal) × (open_wal crc32c ((first, encode_segment_header first created) ∷ []) cfg now
        ≡ ok w)
      × (w.pending_cursor ≡ first)
      × (append crc32c w w.pending_cursor ts now' answer payload ≡ (w, err already_exists))
unfolding resume_at opened
open_wal-refuses crc32c word cfg first created now ts now' answer payload on f c fits =
    let e : first + 0 ≡ first = omega arith in
    let same : (first == first) ≡ true = ground arith in
    let there : lookup first ((first, encode_segment_header first created) ∷ [])
        ≡ some (encode_segment_header first created) =
      rw same refl in
    (
      opened cfg ((first, encode_segment_header first created) ∷ []) first,
      rw (append-nil, e, same) at (open_wal-resume crc32c word first created [] f c tt tt cfg now),
      refl,
      append-already_exists crc32c _ first ts now' answer payload _ on refl refl there fits,
    )
