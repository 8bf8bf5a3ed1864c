-- ===== src/Wal/Replay.antt =====
-- The iterator `WalReplayer` of crates/mmbus/src/wal/wal.rs, and the read-only view `WalReader` of
-- crates/mmbus/src/wal/reader.rs. The files are the table `disk`; one that is gone cannot be opened.
pub mod Returns
pub mod Whole
pub mod Complete
use mmbus.Prelude.{
  ℕ, zero, suc, ◌+◌, ◌-◌, Bool, true, false, List, [], ◌∷◌, length, ltb, Result, ok, err, Option,
  none, some,
}
use mmbus.Wal.{Record, ReaderError}
use mmbus.Wal.Segment.{SegmentReader, open_segment, next_record}
use mmbus.Wal.Tables.{lookup}
use mmbus.Wal.Aggregator.{WalError, not_found, reader_error}
use mmbus.Wal.Open.{WalReplayer, keys, read_segments}

abbrev pub Item : Type 0
Item = Option (Result WalError Record)

-- A record before the cursor is skipped.
unfoldable pub skip_or_yield :
    Bool
    → Record
    → WalReplayer
    → (WalReplayer → Option (Item × WalReplayer))
    → Option (Item × WalReplayer)
skip_or_yield true r rp again = again rp
skip_or_yield false r rp again = some (some (ok r), rp)

-- `next_record` has answered: a record, an error, or the end of the segment.
unfoldable pub after_record :
    WalReplayer
    → Option (Result ReaderError Record) × SegmentReader
    → (WalReplayer → Option (Item × WalReplayer))
    → Option (Item × WalReplayer)
after_record rp (some (ok r), reader) again =
    skip_or_yield (ltb r.cursor rp.cursor_floor) r (record rp { current = some reader }) again
after_record rp (some (err e), reader) again =
    some (some (err (reader_error e)), record rp { current = some reader })
after_record rp (none, reader) again = again (record rp { current = none })

unfoldable pub after_open :
    (List ℕ → ℕ)
    → WalReplayer
    → Result ReaderError SegmentReader
    → (WalReplayer → Option (Item × WalReplayer))
    → Option (Item × WalReplayer)
after_open crc32c rp (err e) again = some (some (err (reader_error e)), rp)
after_open crc32c rp (ok reader) again = after_record rp (next_record crc32c reader) again

unfoldable pub open_file :
    (List ℕ → ℕ)
    → WalReplayer
    → Option (List ℕ)
    → (WalReplayer → Option (Item × WalReplayer))
    → Option (Item × WalReplayer)
open_file crc32c rp none again = some (some (err not_found), rp)
open_file crc32c rp (some file) again = after_open crc32c rp (open_segment file) again

-- The next segment is opened, if there is one.
unfoldable pub open_next :
    (List ℕ → ℕ)
    → List (ℕ × List ℕ)
    → WalReplayer
    → List ℕ
    → (WalReplayer → Option (Item × WalReplayer))
    → Option (Item × WalReplayer)
open_next crc32c disk rp [] again = some (none, rp)
open_next crc32c disk rp (k ∷ ks) again =
    open_file crc32c (record rp { segments = ks }) (lookup k disk) again

-- One round of the loop.
unfoldable pub round :
    (List ℕ → ℕ)
    → List (ℕ × List ℕ)
    → WalReplayer
    → Option SegmentReader
    → (WalReplayer → Option (Item × WalReplayer))
    → Option (Item × WalReplayer)
round crc32c disk rp none again = open_next crc32c disk rp rp.segments again
round crc32c disk rp (some reader) again = after_record rp (next_record crc32c reader) again

-- The loop of `next`, on fuel; `none` is fuel run out.
unfoldable pub next_loop :
    (List ℕ → ℕ) → ℕ → List (ℕ × List ℕ) → WalReplayer → Option (Item × WalReplayer)
next_loop crc32c zero disk rp = none
next_loop crc32c (suc fuel) disk rp =
    round crc32c disk rp rp.current (λ q. next_loop crc32c fuel disk q)

-- A bound on the rounds that are left: two for each segment, and one for each byte.
unfoldable pub size_of : Option (List ℕ) → ℕ
size_of none = 0
size_of (some file) = length file

unfoldable pub to_open : List (ℕ × List ℕ) → List ℕ → ℕ
to_open disk [] = 0
to_open disk (k ∷ ks) = size_of (lookup k disk) + 2 + to_open disk ks

unfoldable pub to_read : Option SegmentReader → ℕ
to_read none = 0
to_read (some reader) = 1 + (length reader.file - reader.pos)

unfoldable pub rounds : List (ℕ × List ℕ) → WalReplayer → ℕ
rounds disk rp = to_open disk rp.segments + to_read rp.current

unfoldable pub or_end : WalReplayer → Option (Item × WalReplayer) → Item × WalReplayer
or_end rp none = (none, rp)
or_end rp (some r) = r

-- `WalReplayer::next`
unfoldable pub next : (List ℕ → ℕ) → List (ℕ × List ℕ) → WalReplayer → Item × WalReplayer
next crc32c disk rp = or_end rp (next_loop crc32c (suc (rounds disk rp)) disk rp)

-- `n` calls of `next`.
unfoldable pub nexts : (List ℕ → ℕ) → List (ℕ × List ℕ) → ℕ → WalReplayer → List Item
nexts crc32c disk zero rp = []
nexts crc32c disk (suc n) rp =
    let (item, rp') = next crc32c disk rp in item ∷ nexts crc32c disk n rp'

-- `WalReader::open`, by the numbers in the files' names; `oldest_cursor` and `read_from`.
pub record WalReader : Type 0 where
  pub segments : List ℕ

unfoldable pub open_reader : List (ℕ × List ℕ) → WalReader
open_reader disk = record { segments = keys disk }

unfoldable pub first_key : List ℕ → Option ℕ
first_key [] = none
first_key (k ∷ ks) = some k

unfoldable pub oldest_cursor : WalReader → Option ℕ
oldest_cursor wr = first_key wr.segments

unfoldable pub reader_read_from : WalReader → ℕ → Result WalError WalReplayer
reader_read_from wr cursor = read_segments wr.segments cursor
