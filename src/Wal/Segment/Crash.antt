-- ===== src/Wal/Segment/Crash.antt =====
-- `recover_truncate` of crates/mmbus/src/wal/segment_reader.rs on a segment that was cut.
use mmbus.Prelude.{
  ℕ, zero, suc, ◌+◌, ◌-◌, ◌≤◌, ◌<◌, ◌^◌, ◌%◌, ◌≡◌, inl, inr, refl, sym, ap, ap₂, ◌∙◌, Bool, true,
  false, List, [], ◌∷◌, ◌++◌, length, take, drop, slice, ok, err, none, some, arith, length-append,
  append_assoc, drop-append, take-append, slice-append_left, length-take, take-append-drop,
  take_all, take-add, take-append_left, length-drop, Bool-cases, ltb→lt, ltb→le, dec_lt, ltb,
  if◌then◌else◌,
}
use mmbus.Prelude.Bytes.{to_le_bytes, from_le_bytes, length-to_le_bytes, from_le_bytes-to_le_bytes}
use mmbus.Wal.{
  Record, encoded_len, encode_record, encode_segment_header, read_record, ReaderError, short_read,
}
use mmbus.Wal.RoundTrip.{
  IsWritable, length-encode_record, length-encode_segment_header, parse-encode_segment_header,
}
use mmbus.Wal.Segment.{recover_truncate, RecoveryReport}
use mmbus.Wal.Segment.Recovery.{
  encode_all, AllWritable, EndsAt, last_cursor_of, recover_truncate-EndsAt,
}

module _ (crc32c : List ℕ → ℕ) where
  -- A part of a record's bytes is a short read.
  read_record-cut :
      (pos : ℕ) (r : Record) (front back : List ℕ)
      → IsWritable r
      → encode_record crc32c r ≡ front ++ back
      → 0 < length back
      → (e : ReaderError) × (read_record crc32c pos front ≡ err e)
  unfolding read_record encode_record encoded_len
  read_record-cut pos r front back v split cut = elim (dec_lt (length front) 4) [
    | yes few ↦ (short_read pos (4 - length front), ground (arith, few))
    | no enough ↦ (
      short_read pos (28 + length r.payload - 4 - (length front - 4)),
      long (omega (arith, enough)),
    )
  ]
    where
      sizes : length front + length back ≡ 28 + length r.payload
      sizes = sym (length-append front back) ∙ ap length (sym split) ∙ length-encode_record crc32c r

      first_four : 4 ≤ length front → from_le_bytes (slice 0 4 front) ≡ 28 + length r.payload
      first_four enough =
          ap from_le_bytes (
            sym (slice-append_left 0 4 front back (omega arith) enough)
            ∙ ap (take 4) (sym split)
            ∙ take-append 4 (to_le_bytes 4 ((28 + length r.payload) % 2 ^ 32)) _
                (length-to_le_bytes 4 _))
          ∙ from_le_bytes-to_le_bytes 4 _ (omega arith)
          ∙ omega (arith, v.size_fits)

      long :
          4 ≤ length front
          → read_record crc32c pos front
            ≡ err (short_read pos (28 + length r.payload - 4 - (length front - 4)))
      long enough = rw (first_four enough) (ground (arith, sizes, v.size_fits, enough, cut))

-- The records whose bytes are among the first `n`.
abbrev pub fitting : ℕ → List Record → List Record
fitting n [] = []
fitting n (r ∷ rs) =
    let rest = fitting (n - encoded_len r) rs in if ltb n (encoded_len r) then [] else r ∷ rest

module _ (crc32c : List ℕ → ℕ) where
  -- How the first `n` bytes of whole records divide: the records that fit, and what ends them.
  abbrev Cut : ℕ → ℕ → List Record → Type 0
  Cut pos n rs =
      (bad : Bool) × (tail : List ℕ) × (take n (encode_all crc32c rs)
        ≡ encode_all crc32c (fitting n rs) ++ tail)
      × EndsAt crc32c (pos + length (encode_all crc32c (fitting n rs))) tail bad

  one-Cut :
      (pos n : ℕ) (r : Record)
      → IsWritable r
      → n < encoded_len r
      → (bad : Bool) × EndsAt crc32c (pos + 0) (take n (encode_record crc32c r)) bad
  one-Cut pos zero r v lt = (false, refl)
  one-Cut pos (suc n) r v lt =
      let l = length-encode_record crc32c r in
      (
        true,
        (
          omega (arith, lt, l, length-take (suc n) (encode_record crc32c r)),
          read_record-cut crc32c (pos + 0) r (take (suc n) (encode_record crc32c r))
              (drop (suc n) (encode_record crc32c r)) v
              (sym (take-append-drop (suc n) (encode_record crc32c r)))
              (omega (arith, lt, l, length-drop (suc n) (encode_record crc32c r))),
        ),
      )

  take-encode_all : (pos n : ℕ) (rs : List Record) → AllWritable rs → Cut pos n rs
  take-encode_all pos n [] all = (false, [], take_all n [] (omega arith), refl)
  take-encode_all pos n (r ∷ rs) (v, all) = elim (Bool-cases (ltb n (encoded_len r))) [
    | inl short ↦
        let l = length-encode_record crc32c r in
        let lt : n < encoded_len r = ltb→lt _ _ short in
        let (bad, ends) = one-Cut pos n r v lt in
        rw short (
          bad,
          take n (encode_record crc32c r),
          take-append_left n (encode_record crc32c r) _ (omega (arith, l, lt)),
          ends,
        )
    | inr whole ↦
        let le : encoded_len r ≤ n = ltb→le _ _ whole in
        let (bad, tail, split, ends) =
          take-encode_all (pos + encoded_len r) (n - encoded_len r) rs all in
        let got : List ℕ = encode_all crc32c (fitting (n - encoded_len r) rs) in
        let total : pos + length (encode_record crc32c r ++ got)
            ≡ pos + encoded_len r + length got =
          omega
            (arith, length-append (encode_record crc32c r) got, length-encode_record crc32c r) in
        rw whole (
          bad,
          tail,
          front r rs n le
              ∙ ap (λ t. encode_record crc32c r ++ t) split
              ∙ sym (append_assoc (encode_record crc32c r) got tail),
          rw total ends,
        )
  ]
    where
      front :
          (r : Record) (rs : List Record) (n : ℕ)
          → encoded_len r ≤ n
          → take n (encode_record crc32c r ++ encode_all crc32c rs)
            ≡ encode_record crc32c r ++ take (n - encoded_len r) (encode_all crc32c rs)
      front r rs n le =
          let e : n ≡ encoded_len r + (n - encoded_len r) = omega (arith, le) in
          let l = length-encode_record crc32c r in
          let xs = encode_record crc32c r ++ encode_all crc32c rs in
          ap (λ k. take k xs) e
          ∙ take-add (encoded_len r) (n - encoded_len r) xs
          ∙ ap₂ ◌++◌ (take-append (encoded_len r) (encode_record crc32c r) (encode_all crc32c rs) l)
              (ap (take (n - encoded_len r))
                (drop-append (encoded_len r) (encode_record crc32c r) (encode_all crc32c rs) l))

-- A segment that a crash cut anywhere after its header is recovered to its header and exactly those
-- of its records that are whole before the cut, and the report has the last one's cursor.
pub recover_truncate-cut :
    (crc32c : List ℕ → ℕ)
    → ((bs : List ℕ) → crc32c bs < 2 ^ 32)
    → (first created n : ℕ) (rs : List Record) → first < 2 ^ 64
    → created < 2 ^ 64
    → AllWritable rs
    → (report : RecoveryReport) × (recover_truncate crc32c
          (encode_segment_header first created ++ take n (encode_all crc32c rs))
        ≡ ok (
            some (encode_segment_header first created ++ encode_all crc32c (fitting n rs), report)))
      × (report.last_cursor ≡ last_cursor_of (fitting n rs) none)
recover_truncate-cut crc32c word first created n rs f c all =
    let (bad, tail, split, ends) = take-encode_all crc32c 32 n rs all in
    let head = encode_segment_header first created in
    (
      record {
        final_len = _;
        bytes_dropped = length tail;
        last_cursor = last_cursor_of (fitting n rs) none;
      },
      ap (λ t. recover_truncate crc32c (head ++ t)) split
          ∙ recover_truncate-EndsAt crc32c word bad head _ (fitting n rs) tail
              (length-encode_segment_header first created)
              (parse-encode_segment_header first created (encode_all crc32c (fitting n rs) ++ tail)
                f c)
              (fitting-AllWritable n rs all) ends,
      refl,
    )
  where
    fitting-AllWritable : (n : ℕ) (rs : List Record) → AllWritable rs → AllWritable (fitting n rs)
    fitting-AllWritable n [] all = tt
    fitting-AllWritable n (r ∷ rs) (v, all) = elim (Bool-cases (ltb n (encoded_len r))) [
      | inl short ↦ rw short tt
      | inr whole ↦ rw whole (v, fitting-AllWritable (n - encoded_len r) rs all)
    ]
