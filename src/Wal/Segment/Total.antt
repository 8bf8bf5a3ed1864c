-- ===== src/Wal/Segment/Total.antt =====
-- `recover_truncate` of crates/mmbus/src/wal/segment_reader.rs on any file.
use mmbus.Prelude.{
  ℕ, ◌+◌, ◌-◌, ◌≤◌, ◌≡◌, ◌⊎◌, inl, inr, refl, List, length, drop, ok, err, none, some, arith,
  Bool-cases, Result-cases, ◌==◌, length-drop,
}
use mmbus.Wal.{Record, ReaderError, read_record, read_one_record}

read_record-advance :
    (crc32c : List ℕ → ℕ) (pos : ℕ) (rest : List ℕ) (r : Record) (n : ℕ)
    → read_record crc32c pos rest ≡ ok (r, n)
    → (28 ≤ n) × (n ≤ length rest)
unfolding read_record
read_record-advance crc32c pos rest r n e = ground arith

-- A step of the scan: the end of the file, an error, or a record that lies in the file.
pub read_one_record-cases :
    (crc32c : List ℕ → ℕ) (file : List ℕ) (pos : ℕ)
    → (read_one_record crc32c file pos ≡ ok none)
      ⊎ (((e : ReaderError) × (read_one_record crc32c file pos ≡ err e))
          ⊎ ((r : Record) × (n : ℕ) × (read_one_record crc32c file pos ≡ ok (some (r, n)))
              × (28 ≤ n)
              × (pos + n ≤ length file)))
unfolding read_one_record
read_one_record-cases crc32c file pos = elim (Bool-cases (length file - pos == 0)) [
  | inl at_end ↦ rw at_end (inl refl)
  | inr more ↦ elim (Result-cases (read_record crc32c pos (drop pos file))) [
    | inr (e, fails) ↦ rw (more, fails) (inr (inl (e, refl)))
    | inl ((r, n), found) ↦
        let (least, most) = read_record-advance crc32c pos (drop pos file) r n found in
        rw (more, found)
          (inr (inr (r, n, refl, least, ground (arith, length-drop pos file, most, more))))
  ]
]
