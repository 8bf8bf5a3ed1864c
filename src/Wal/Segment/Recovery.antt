-- ===== src/Wal/Segment/Recovery.antt =====
-- `recover_truncate` of crates/mmbus/src/wal/segment_reader.rs on a file that is whole records and
-- then something else.
use mmbus.Prelude.{
  ℕ, zero, suc, ◌+◌, ◌-◌, ◌≤◌, ◌<◌, ◌^◌, ◌≡◌, refl, ap, ◌∙◌, Bool, true, false, List, [], ◌∷◌, ◌++◌,
  length, ok, err, Option, none, some, arith, length-append, append_assoc, append-nil, drop-append,
  take-append, ◌==◌, if◌then◌else◌, ◌>>=◌,
}
use mmbus.Wal.{
  Record, SegmentHeader, encoded_len, encode_record, parse, read_record, read_one_record,
  ReaderError,
}
use mmbus.Wal.RoundTrip.{IsWritable, read_record-encode_record, length-encode_record}
use mmbus.Wal.Segment.{
  scan, after_scan, truncate, recover_truncate, open_segment, after_header, after_loop,
}

abbrev pub encode_all : (List ℕ → ℕ) → List Record → List ℕ
encode_all crc32c [] = []
encode_all crc32c (r ∷ rs) = encode_record crc32c r ++ encode_all crc32c rs

abbrev pub AllWritable : List Record → Type 0
AllWritable [] = Unit
AllWritable (r ∷ rs) = IsWritable r × AllWritable rs

-- The cursor of the last record, or what it was before.
abbrev pub last_cursor_of : List Record → Option ℕ → Option ℕ
last_cursor_of [] last = last
last_cursor_of (r ∷ rs) last = last_cursor_of rs (some r.cursor)

-- At `tail` the records end: nothing is left, or no record can be read there (`bad`).
abbrev pub EndsAt : (List ℕ → ℕ) → ℕ → List ℕ → Bool → Type 0
EndsAt crc32c pos tail false = tail ≡ []
EndsAt crc32c pos tail true =
    (0 < length tail) × ((e : ReaderError) × (read_record crc32c pos tail ≡ err e))

pub read_one_record-at :
    (crc32c : List ℕ → ℕ) (pos : ℕ) (front back : List ℕ)
    → length front ≡ pos
    → read_one_record crc32c (front ++ back) pos ≡ (
        if length back == 0
        then ok none
        else (read_record crc32c pos back >>= λ found. ok (some found)))
unfolding read_one_record
read_one_record-at crc32c pos front back here =
    let l : length (front ++ back) - pos ≡ length back = omega (arith, length-append front back) in
    rw (l, drop-append pos front back here) refl

module _ (crc32c : List ℕ → ℕ) (word : (bs : List ℕ) → crc32c bs < 2 ^ 32) where
  scan-EndsAt :
      (bad : Bool) (fuel pos : ℕ) (front tail : List ℕ) (last : Option ℕ)
      → length front ≡ pos
      → EndsAt crc32c pos tail bad
      → scan crc32c (suc fuel) (front ++ tail) pos last
        ≡ some (record { last_good_end = pos; last_cursor = last; hit_bad_record = bad })
  unfolding scan after_scan
  scan-EndsAt false fuel pos front tail last here ends =
      rw (read_one_record-at crc32c pos front tail here, ap length ends) refl
  scan-EndsAt true fuel pos front tail last here (more, (e, fails)) =
      let some_left : (length tail == 0) ≡ false = ground (arith, more) in
      rw (read_one_record-at crc32c pos front tail here, some_left, fails) refl

  pub read_one_record-encode_record :
      (pos : ℕ) (front : List ℕ) (r : Record) (rest : List ℕ)
      → length front ≡ pos
      → IsWritable r
      → read_one_record crc32c (front ++ (encode_record crc32c r ++ rest)) pos
        ≡ ok (some (r, encoded_len r))
  unfolding encoded_len
  read_one_record-encode_record pos front r rest here v =
      let l : (length (encode_record crc32c r ++ rest) == 0) ≡ false = more in
      rw
        (
          read_one_record-at crc32c pos front _ here,
          l,
          read_record-encode_record crc32c word pos r rest v,
        )
        refl
    where
      more : (length (encode_record crc32c r ++ rest) == 0) ≡ false
      more =
          ground (arith, length-append (encode_record crc32c r) rest, length-encode_record crc32c r)

  scan-encode_record :
      (fuel pos : ℕ) (front : List ℕ) (r : Record) (rest : List ℕ) (last : Option ℕ)
      → length front ≡ pos
      → IsWritable r
      → scan crc32c (suc fuel) (front ++ (encode_record crc32c r ++ rest)) pos last
        ≡ scan crc32c fuel
            ((front ++ encode_record crc32c r) ++ rest)
            (pos + encoded_len r)
            (some r.cursor)
  unfolding scan after_scan
  scan-encode_record fuel pos front r rest last here v =
      rw
        (
          read_one_record-encode_record pos front r rest here v,
          append_assoc front (encode_record crc32c r) rest,
        )
        refl

  -- The loop reads the whole records, one round each.
  scan-encode_all :
      (bad : Bool) (fuel pos : ℕ) (front : List ℕ) (rs : List Record) (tail : List ℕ)
      (last : Option ℕ)
      → length rs < fuel
      → length front ≡ pos
      → AllWritable rs
      → EndsAt crc32c (pos + length (encode_all crc32c rs)) tail bad
      → scan crc32c fuel (front ++ (encode_all crc32c rs ++ tail)) pos last
        ≡ some (record {
          last_good_end = pos + length (encode_all crc32c rs);
          last_cursor = last_cursor_of rs last;
          hit_bad_record = bad;
        })
  scan-encode_all bad zero pos front rs tail last more here all ends = absurd (omega arith)
  scan-encode_all bad (suc fuel) pos front [] tail last more here all ends =
      let e : pos + 0 ≡ pos = omega arith in
      rw e (scan-EndsAt bad fuel pos front tail last here (rw e at ends))
  scan-encode_all bad (suc fuel) pos front (r ∷ rs) tail last more here (v, all) ends =
      rw (regroup, total)
        (scan-encode_record fuel pos front r (encode_all crc32c rs ++ tail) last here v
          ∙ scan-encode_all bad fuel (pos + encoded_len r) (front ++ encode_record crc32c r) rs tail
              (some r.cursor) (omega arith)
              (omega (
                arith,
                length-append front (encode_record crc32c r),
                length-encode_record crc32c r,
              ))
              all (rw total at ends))
    where
      regroup :
          front ++ ((encode_record crc32c r ++ encode_all crc32c rs) ++ tail)
          ≡ front ++ (encode_record crc32c r ++ (encode_all crc32c rs ++ tail))
      regroup = ap (λ t. front ++ t) (append_assoc (encode_record crc32c r) _ tail)

      total :
          pos + length (encode_record crc32c r ++ encode_all crc32c rs)
          ≡ pos + encoded_len r + length (encode_all crc32c rs)
      total = omega (
        arith,
        length-append (encode_record crc32c r) (encode_all crc32c rs),
        length-encode_record crc32c r,
      )

  pub length-encode_all : (rs : List Record) → length rs ≤ length (encode_all crc32c rs)
  unfolding encoded_len
  length-encode_all [] = omega arith
  length-encode_all (r ∷ rs) = omega (
    arith,
    length-encode_all rs,
    length-append (encode_record crc32c r) (encode_all crc32c rs),
    length-encode_record crc32c r,
  )

  truncate-EndsAt :
      (bad : Bool) (head body tail : List ℕ) (last : Option ℕ)
      → length head ≡ 32
      → EndsAt crc32c (32 + length body) tail bad
      → truncate
          (head ++ (body ++ tail))
          (record { last_good_end = 32 + length body; last_cursor = last; hit_bad_record = bad })
        ≡ (
          head ++ body,
          record { final_len = 32 + length body; bytes_dropped = length tail; last_cursor = last },
        )
  unfolding truncate
  truncate-EndsAt true head body tail last len ends =
      let l : length (head ++ body) ≡ 32 + length body = omega (arith, length-append head body) in
      let left : length ((head ++ body) ++ tail) - (32 + length body) ≡ length tail =
        omega (arith, l, length-append (head ++ body) tail) in
      rw (← append_assoc head body tail, take-append (32 + length body) (head ++ body) tail l, left)
        refl
  truncate-EndsAt false head body tail last len ends =
      let l : length (head ++ body) ≡ 32 + length body = omega (arith, length-append head body) in
      rw (ends, append-nil, l) refl

  -- Recovery of a file that is a header, whole records, and then nothing or something that cannot be
  -- read: it keeps the header and the records, drops the rest, and reports the last cursor.
  pub recover_truncate-EndsAt :
      (bad : Bool) (head : List ℕ) (h : SegmentHeader) (rs : List Record) (tail : List ℕ)
      → length head ≡ 32
      → parse (head ++ (encode_all crc32c rs ++ tail)) ≡ ok h
      → AllWritable rs
      → EndsAt crc32c (32 + length (encode_all crc32c rs)) tail bad
      → recover_truncate crc32c (head ++ (encode_all crc32c rs ++ tail))
        ≡ ok (
            some (
              head ++ encode_all crc32c rs,
              record {
                final_len = 32 + length (encode_all crc32c rs);
                bytes_dropped = length tail;
                last_cursor = last_cursor_of rs none;
              },
            ))
  unfolding recover_truncate open_segment after_header after_loop
  recover_truncate-EndsAt bad head h rs tail len header all ends =
      let enough : length rs < suc (length (head ++ (encode_all crc32c rs ++ tail))) = omega (
        arith,
        length-encode_all rs,
        length-append head (encode_all crc32c rs ++ tail),
        length-append (encode_all crc32c rs) tail,
      ) in
      rw (header, scan-encode_all bad _ 32 head rs tail none enough len all ends)
        (ap (λ t. ok (some t))
          (truncate-EndsAt bad head (encode_all crc32c rs) tail (last_cursor_of rs none) len ends))
