-- ===== src/Wal.antt =====
-- The records and the header of a segment of the write-ahead log, crates/mmbus/src/wal/record.rs.
-- The checksum is the crate crc32c's: a function `crc32c` from bytes to a number, of which a
-- theorem says where it needs that the number is a 32-bit word. The clock is an argument.
pub mod RoundTrip
pub mod Segment
pub mod Tables
pub mod Aggregator
pub mod Open
pub mod Replay
mod Runs
use mmbus.Prelude.{
  ℕ, ◌+◌, ◌-◌, ◌*◌, ◌%◌, ◌^◌, not, List, [], ◌∷◌, ◌++◌, length, slice, take, drop, ltb, ◌==◌,
  Result, ok, err, ◌>>=◌, ◌>>◌, bail_if, Option, none, some, if◌then◌else◌,
}
use mmbus.Prelude.Bytes.{to_le_bytes, from_le_bytes}

abbrev pub segment_magic : ℕ
segment_magic = 0x6D6D_6275_7357_414C

abbrev pub segment_version : ℕ
segment_version = 1

abbrev pub segment_header_len : ℕ
segment_header_len = 32

abbrev pub record_framing : ℕ
record_framing = 28

abbrev pub max_record_len : ℕ
max_record_len = 16 * 1024 * 1024

abbrev pub max_payload_len : ℕ
max_payload_len = max_record_len - record_framing

pub record Record : Type 0 where
  pub cursor : ℕ
  pub ts_unix_nanos : ℕ
  pub payload : List ℕ

unfoldable pub encoded_len : Record → ℕ
encoded_len r = record_framing + length r.payload

-- What the checksum is taken over.
unfoldable pub record_body : Record → List ℕ
record_body r =
    to_le_bytes 8 r.cursor
    ++ (to_le_bytes 8 r.ts_unix_nanos ++ (to_le_bytes 4 (length r.payload % 2 ^ 32) ++ r.payload))

-- `encode_record_into`: the bytes that it appends.
unfoldable pub encode_record : (List ℕ → ℕ) → Record → List ℕ
encode_record crc32c r =
    to_le_bytes 4 ((record_framing + length r.payload) % 2 ^ 32)
    ++ (record_body r ++ to_le_bytes 4 (crc32c (record_body r)))

unfoldable pub encode_segment_header : ℕ → ℕ → List ℕ
encode_segment_header first_cursor created =
    to_le_bytes 8 segment_magic
    ++ (to_le_bytes 4 segment_version
        ++ (to_le_bytes 4 0 ++ (to_le_bytes 8 first_cursor ++ to_le_bytes 8 created)))

pub record SegmentHeader : Type 0 where
  pub first_cursor : ℕ
  pub created_unix_nanos : ℕ

pub data SegmentHeaderError : Type 0 where
  bad_magic : ℕ → SegmentHeaderError
  unsupported_version : ℕ → SegmentHeaderError
  truncated : ℕ → SegmentHeaderError

-- `SegmentHeader::parse`
unfoldable pub parse : List ℕ → Result SegmentHeaderError SegmentHeader
parse bytes = do
  bail_if (ltb (length bytes) segment_header_len) (truncated (length bytes))
  let magic = from_le_bytes (slice 0 8 bytes)
  bail_if (not (magic == segment_magic)) (bad_magic magic)
  let version = from_le_bytes (slice 8 12 bytes)
  bail_if (not (version == segment_version)) (unsupported_version version)
  ok (record {
    first_cursor = from_le_bytes (slice 16 24 bytes);
    created_unix_nanos = from_le_bytes (slice 24 32 bytes);
  })

-- `ReaderError` of crates/mmbus/src/wal/segment_reader.rs, without the errors of the file system.
pub data ReaderError : Type 0 where
  header_error : SegmentHeaderError → ReaderError
  oversize_record : ℕ → ReaderError
  crc_mismatch : (offset stored computed : ℕ) → ReaderError
  short_read : (offset needed : ℕ) → ReaderError

-- `read_one_record` from the second check of the remaining length on; `rest` is the file from
-- byte `pos` on.
unfoldable pub read_record : (List ℕ → ℕ) → ℕ → List ℕ → Result ReaderError (Record × ℕ)
read_record crc32c pos rest = do
  bail_if (ltb (length rest) 4) (short_read pos (4 - length rest))
  let record_len = from_le_bytes (slice 0 4 rest)
  bail_if (ltb max_record_len record_len) (oversize_record record_len)
  bail_if (ltb record_len record_framing) (oversize_record record_len)
  let total_after_len = record_len - 4
  let remaining_after_len = length rest - 4
  bail_if (ltb remaining_after_len total_after_len)
      (short_read pos (total_after_len - remaining_after_len))
  let body_and_crc = slice 4 record_len rest
  let body_len = total_after_len - 4
  let body = slice 0 body_len body_and_crc
  let stored_crc = from_le_bytes (slice body_len total_after_len body_and_crc)
  let computed_crc = crc32c body
  bail_if (not (stored_crc == computed_crc)) (crc_mismatch pos stored_crc computed_crc)
  let payload_len = from_le_bytes (slice 16 20 body)
  bail_if (not (payload_len + record_framing == record_len)) (oversize_record record_len)
  ok (
    record {
      cursor = from_le_bytes (slice 0 8 body);
      ts_unix_nanos = from_le_bytes (slice 8 16 body);
      payload = slice 20 (20 + payload_len) body;
    },
    record_len,
  )

-- `read_one_record`: `ok none` at the end of the file.
unfoldable pub read_one_record :
    (List ℕ → ℕ) → List ℕ → ℕ → Result ReaderError (Option (Record × ℕ))
read_one_record crc32c file pos =
    if length file - pos == 0
    then ok none
    else (read_record crc32c pos (drop pos file) >>= λ found. ok (some found))
