-- ===== src/Wal/RoundTrip.antt =====
-- Records and headers of crates/mmbus/src/wal/record.rs, written and read.
use mmbus.Prelude.{
  ℕ, ◌+◌, ◌-◌, ◌%◌, ◌^◌, ◌≤◌, ◌<◌, ◌≡◌, refl, sym, ap, ◌∙◌, List, ◌++◌, length, slice, take, drop,
  ok, arith, length-append, append_assoc, take-append, slice-append, slice-skip, slice-skip_at,
  take_all,
}
use mmbus.Prelude.Bytes.{to_le_bytes, from_le_bytes, length-to_le_bytes, from_le_bytes-to_le_bytes}
use mmbus.Wal.{
  Record, encoded_len, record_body, encode_record, encode_segment_header, parse, read_record,
  record_framing, max_record_len, segment_magic, segment_version,
}

-- What a record must satisfy to be read back: 64-bit fields and a legal size.
pub record IsWritable (r : Record) : Type 0 where
  pub cursor_fits : r.cursor < 2 ^ 64
  pub ts_fits : r.ts_unix_nanos < 2 ^ 64
  pub size_fits : encoded_len r ≤ max_record_len

pub length-record_body : (r : Record) → length (record_body r) ≡ 20 + length r.payload
unfolding record_body
length-record_body r = simp (length-append, length-to_le_bytes) (omega arith)

pub length-encode_record :
    (crc32c : List ℕ → ℕ) (r : Record) → length (encode_record crc32c r) ≡ encoded_len r
unfolding encode_record encoded_len
length-encode_record crc32c r =
    simp (length-append, length-to_le_bytes) (omega (arith, length-record_body r))

module _ (r : Record) where
  body_cursor : slice 0 8 (record_body r) ≡ to_le_bytes 8 r.cursor
  unfolding record_body
  body_cursor = take-append 8 (to_le_bytes 8 r.cursor) _ (length-to_le_bytes 8 r.cursor)

  body_ts : slice 8 16 (record_body r) ≡ to_le_bytes 8 r.ts_unix_nanos
  unfolding record_body
  body_ts =
      slice-skip 8 0 8 (to_le_bytes 8 r.cursor) _ (length-to_le_bytes 8 r.cursor)
      ∙ take-append 8 (to_le_bytes 8 r.ts_unix_nanos) _ (length-to_le_bytes 8 r.ts_unix_nanos)

  body_len : slice 16 20 (record_body r) ≡ to_le_bytes 4 (length r.payload % 2 ^ 32)
  unfolding record_body
  body_len =
      slice-skip 8 8 12 (to_le_bytes 8 r.cursor) _ (length-to_le_bytes 8 r.cursor)
      ∙ slice-skip 8 0 4 (to_le_bytes 8 r.ts_unix_nanos) _ (length-to_le_bytes 8 r.ts_unix_nanos)
      ∙ take-append 4 (to_le_bytes 4 (length r.payload % 2 ^ 32)) _ (length-to_le_bytes 4 _)

  body_payload : slice 20 (20 + length r.payload) (record_body r) ≡ r.payload
  unfolding record_body
  body_payload =
      slice-skip_at 20 (20 + length r.payload) 8 12 (12 + length r.payload) (to_le_bytes 8 r.cursor)
        _ (length-to_le_bytes 8 r.cursor) refl (omega arith)
      ∙ slice-skip_at 12 (12 + length r.payload) 8 4 (4 + length r.payload)
          (to_le_bytes 8 r.ts_unix_nanos) _ (length-to_le_bytes 8 r.ts_unix_nanos) refl
          (omega arith)
      ∙ slice-skip_at 4 (4 + length r.payload) 4 0 (length r.payload)
          (to_le_bytes 4 (length r.payload % 2 ^ 32)) _ (length-to_le_bytes 4 _) refl (omega arith)
      ∙ take_all_at
    where
      take_all_at : slice 0 (length r.payload) r.payload ≡ r.payload
      take_all_at = take_all (length r.payload - 0) r.payload (omega arith)

module _ (crc32c : List ℕ → ℕ) (word : (bs : List ℕ) → crc32c bs < 2 ^ 32) (r : Record)
    (rest : List ℕ) (v : IsWritable r) where
  abbrev len_bytes : List ℕ
  len_bytes = to_le_bytes 4 ((record_framing + length r.payload) % 2 ^ 32)

  abbrev crc_bytes : List ℕ
  crc_bytes = to_le_bytes 4 (crc32c (record_body r))

  abbrev n : ℕ
  n = length r.payload

  encode-bytes :
      encode_record crc32c r ++ rest ≡ len_bytes ++ ((record_body r ++ crc_bytes) ++ rest)
  unfolding encode_record
  encode-bytes = simp append_assoc

  first_four : slice 0 4 (len_bytes ++ ((record_body r ++ crc_bytes) ++ rest)) ≡ len_bytes
  first_four = take-append 4 len_bytes _ (length-to_le_bytes 4 _)

  all_after :
      slice 4 (28 + n) (len_bytes ++ ((record_body r ++ crc_bytes) ++ rest))
      ≡ record_body r ++ crc_bytes
  all_after =
      slice-skip_at 4 (28 + n) 4 0 (24 + n) len_bytes _ (length-to_le_bytes 4 _) refl (omega arith)
      ∙ slice-append (24 + n) (record_body r ++ crc_bytes) rest (
          length-append (record_body r) crc_bytes
          ∙ omega (arith, length-record_body r, length-to_le_bytes 4 (crc32c (record_body r))))

  the_body : slice 0 (20 + n) (record_body r ++ crc_bytes) ≡ record_body r
  the_body = slice-append (20 + n) (record_body r) crc_bytes (length-record_body r)

  the_crc : slice (20 + n) (24 + n) (record_body r ++ crc_bytes) ≡ crc_bytes
  the_crc =
      slice-skip_at (20 + n) (24 + n) (20 + n) 0 4 (record_body r) crc_bytes (length-record_body r)
        (omega arith) (omega arith)
      ∙ take_all 4 crc_bytes (omega (arith, length-to_le_bytes 4 (crc32c (record_body r))))

-- What `read_record` returns where all the fields are as they must be.
read_record-fields :
    (crc32c : List ℕ → ℕ) (pos n m : ℕ) (bs bc body : List ℕ) (r : Record)
    → from_le_bytes (slice 0 4 bs) ≡ 28 + n
    → 28 + n ≤ max_record_len
    → length bs ≡ 28 + n + m
    → slice 4 (28 + n) bs ≡ bc
    → slice 0 (20 + n) bc ≡ body
    → from_le_bytes (slice (20 + n) (24 + n) bc) ≡ crc32c body
    → from_le_bytes (slice 16 20 body) ≡ n
    → from_le_bytes (slice 0 8 body) ≡ r.cursor
    → from_le_bytes (slice 8 16 body) ≡ r.ts_unix_nanos
    → slice 20 (20 + n) body ≡ r.payload
    → read_record crc32c pos bs ≡ ok (r, 28 + n)
unfolding read_record
read_record-fields crc32c pos n m bs bc body r len_is size long all the_body crc plen cursor ts
      payload =
    let e1 : 28 + n - 4 - 4 ≡ 20 + n = omega arith in
    let e2 : 28 + n - 4 ≡ 24 + n = omega arith in
    let all' : take (24 + n) (drop 4 bs) ≡ bc = ap (λ k. take k (drop 4 bs)) (sym e2) ∙ all in
    rw (len_is, e1, e2, all', the_body, crc, plen, cursor, ts, payload) (ground arith)

-- A record is read back from where it was written, whatever follows, and as many bytes are used as
-- were written.
pub read_record-encode_record :
    (crc32c : List ℕ → ℕ)
    → ((bs : List ℕ) → crc32c bs < 2 ^ 32)
    → (pos : ℕ) (r : Record) (rest : List ℕ) → IsWritable r
    → read_record crc32c pos (encode_record crc32c r ++ rest) ≡ ok (r, encoded_len r)
unfolding encoded_len
read_record-encode_record crc32c word pos r rest v =
    let n = length r.payload in
    rw (encode-bytes crc32c word r rest v) (
      read_record-fields crc32c pos n (length rest) _ _ (record_body r) r
        (ap from_le_bytes (first_four crc32c word r rest v)
          ∙ from_le_bytes-to_le_bytes 4 _ (omega arith)
          ∙ omega (arith, v.size_fits))
        v.size_fits (simp (length-append, length-to_le_bytes) (omega (arith, length-record_body r)))
        (all_after crc32c word r rest v) (the_body crc32c word r rest v)
        (ap from_le_bytes (the_crc crc32c word r rest v)
          ∙ from_le_bytes-to_le_bytes 4 _ (word (record_body r)))
        (ap from_le_bytes (body_len r)
          ∙ from_le_bytes-to_le_bytes 4 _ (omega arith)
          ∙ omega (arith, v.size_fits))
        (ap from_le_bytes (body_cursor r) ∙ from_le_bytes-to_le_bytes 8 r.cursor v.cursor_fits)
        (ap from_le_bytes (body_ts r) ∙ from_le_bytes-to_le_bytes 8 r.ts_unix_nanos v.ts_fits)
        (body_payload r))

pub length-encode_segment_header :
    (first created : ℕ) → length (encode_segment_header first created) ≡ 32
unfolding encode_segment_header
length-encode_segment_header first created = simp (length-append, length-to_le_bytes) (omega arith)

module _ (first created : ℕ) (rest : List ℕ) where
  abbrev header_bytes : List ℕ
  header_bytes =
      to_le_bytes 8 segment_magic
      ++ (to_le_bytes 4 segment_version
          ++ (to_le_bytes 4 0 ++ (to_le_bytes 8 first ++ (to_le_bytes 8 created ++ rest))))

  header-bytes : encode_segment_header first created ++ rest ≡ header_bytes
  unfolding encode_segment_header
  header-bytes = simp append_assoc

  magic_at : slice 0 8 header_bytes ≡ to_le_bytes 8 segment_magic
  magic_at = take-append 8 (to_le_bytes 8 segment_magic) _ (length-to_le_bytes 8 _)

  version_at : slice 8 12 header_bytes ≡ to_le_bytes 4 segment_version
  version_at =
      slice-skip 8 0 4 (to_le_bytes 8 segment_magic) _ (length-to_le_bytes 8 _)
      ∙ take-append 4 (to_le_bytes 4 segment_version) _ (length-to_le_bytes 4 _)

  after_reserved :
      (a b : ℕ)
      → slice (16 + a) (16 + b) header_bytes
        ≡ slice a b (to_le_bytes 8 first ++ (to_le_bytes 8 created ++ rest))
  after_reserved a b =
      slice-skip_at (16 + a) (16 + b) 8 (8 + a) (8 + b) (to_le_bytes 8 segment_magic) _
        (length-to_le_bytes 8 _) (omega arith) (omega arith)
      ∙ slice-skip_at (8 + a) (8 + b) 4 (4 + a) (4 + b) (to_le_bytes 4 segment_version) _
          (length-to_le_bytes 4 _) (omega arith) (omega arith)
      ∙ slice-skip_at (4 + a) (4 + b) 4 a b (to_le_bytes 4 0) _ (length-to_le_bytes 4 _) refl refl

  first_at : slice 16 24 header_bytes ≡ to_le_bytes 8 first
  first_at = after_reserved 0 8 ∙ take-append 8 (to_le_bytes 8 first) _ (length-to_le_bytes 8 first)

  created_at : slice 24 32 header_bytes ≡ to_le_bytes 8 created
  created_at =
      after_reserved 8 16
      ∙ slice-skip 8 0 8 (to_le_bytes 8 first) _ (length-to_le_bytes 8 first)
      ∙ take-append 8 (to_le_bytes 8 created) _ (length-to_le_bytes 8 created)

-- A segment's header is read back, whatever follows it.
pub parse-encode_segment_header :
    (first created : ℕ) (rest : List ℕ)
    → first < 2 ^ 64
    → created < 2 ^ 64
    → parse (encode_segment_header first created ++ rest)
      ≡ ok (record { first_cursor = first; created_unix_nanos = created })
unfolding parse
parse-encode_segment_header first created rest first_fits created_fits =
    let l : length (encode_segment_header first created ++ rest) ≡ 32 + length rest =
      length-append (encode_segment_header first created) rest
      ∙ omega (arith, length-encode_segment_header first created) in
    let l' : length (header_bytes first created rest) ≡ 32 + length rest =
      ap length (sym (header-bytes first created rest)) ∙ l in
    rw
      (
        header-bytes first created rest,
        l',
        magic_at first created rest,
        version_at first created rest,
        first_at first created rest,
        created_at first created rest,
        from_le_bytes-to_le_bytes 8 segment_magic (omega arith),
        from_le_bytes-to_le_bytes 4 segment_version (omega arith),
        from_le_bytes-to_le_bytes 8 first first_fits,
        from_le_bytes-to_le_bytes 8 created created_fits,
      )
      (ground arith)
