-- ===== src/Wal/Replay/Returns.antt =====
-- `WalReplayer::next` of crates/mmbus/src/wal/wal.rs returns on any files.
use mmbus.Prelude.{
  ℕ, zero, suc, ◌+◌, ◌-◌, ◌≤◌, ◌<◌, ◌≡◌, inl, inr, refl, Bool, true, false, List, [], ◌∷◌, length,
  ltb, Option, none, some, arith, Result-cases, if_cases,
}
use mmbus.Wal.{Record, ReaderError, read_one_record}
use mmbus.Wal.Segment.{SegmentReader, open_segment, after_header, next_record, after_read}
use mmbus.Wal.Segment.Total.{read_one_record-cases}
use mmbus.Wal.Tables.{lookup}
use mmbus.Wal.Open.{WalReplayer}
use mmbus.Wal.Replay.{
  Item, skip_or_yield, after_record, after_open, open_file, open_next, round, next_loop, size_of,
  to_open, to_read, rounds, or_end, next,
}

abbrev Returns : Option (Item × WalReplayer) → Type 0
Returns o = (r : Item × WalReplayer) × (o ≡ some r)

-- The loop returns from every state with fewer rounds left than `n`.
abbrev ReturnsBelow : List (ℕ × List ℕ) → ℕ → (WalReplayer → Option (Item × WalReplayer)) → Type 0
ReturnsBelow disk n again = (q : WalReplayer) → rounds disk q < n → Returns (again q)

module _ (crc32c : List ℕ → ℕ) (disk : List (ℕ × List ℕ))
    (again : WalReplayer → Option (Item × WalReplayer)) (n : ℕ)
    (ih : ReturnsBelow disk n again) where
  skip-Returns :
      (b : Bool) (r : Record) (q : WalReplayer)
      → rounds disk q < n
      → Returns (skip_or_yield b r q again)
  unfolding skip_or_yield
  skip-Returns true r q lt = ih q lt
  skip-Returns false r q lt = (_, refl)

  record-Returns :
      (rp : WalReplayer) (reader : SegmentReader)
      → to_open disk rp.segments + (length reader.file - reader.pos) < n
      → Returns (after_record rp (next_record crc32c reader) again)
  unfolding after_record next_record after_read rounds to_read
  record-Returns rp reader lt =
      if_cases (λ x. Returns (after_record rp x again)) reader.halted
        (λ _. ih (record rp { current = none }) (omega (arith, lt)))
        (λ _. elim (read_one_record-cases crc32c reader.file reader.pos) [
          | inl end ↦ rw end (ih (record rp { current = none }) (omega (arith, lt)))
          | inr (inl (e, bad)) ↦ rw bad (_, refl)
          | inr (inr (r, advance, found, least, fits)) ↦
              rw found
                (skip-Returns (ltb r.cursor rp.cursor_floor) r _ (omega (arith, lt, least, fits)))
        ])

  open-Returns :
      (rp : WalReplayer) (file : List ℕ)
      → to_open disk rp.segments + length file < n
      → Returns (after_open crc32c rp (open_segment file) again)
  unfolding after_open open_segment after_header
  open-Returns rp file lt = elim (Result-cases (mmbus.Wal.parse file)) [
    | inr (e, bad) ↦ rw bad (_, refl)
    | inl (h, fine) ↦ rw fine (record-Returns rp _ (omega (arith, lt)))
  ]

  file-Returns :
      (rp : WalReplayer) (o : Option (List ℕ))
      → to_open disk rp.segments + size_of o < n
      → Returns (open_file crc32c rp o again)
  unfolding open_file size_of
  file-Returns rp none lt = (_, refl)
  file-Returns rp (some file) lt = open-Returns rp file lt

  next-Returns :
      (rp : WalReplayer) (ks : List ℕ)
      → to_open disk ks ≤ n
      → Returns (open_next crc32c disk rp ks again)
  unfolding open_next to_open
  next-Returns rp [] le = (_, refl)
  next-Returns rp (k ∷ ks) le =
      file-Returns (record rp { segments = ks }) (lookup k disk) (omega (arith, le))

  round-Returns :
      (rp : WalReplayer) (o : Option SegmentReader)
      → to_open disk rp.segments + to_read o ≤ n
      → Returns (round crc32c disk rp o again)
  unfolding round to_read
  round-Returns rp none le = next-Returns rp rp.segments (omega (arith, le))
  round-Returns rp (some reader) le = record-Returns rp reader (omega (arith, le))

next_loop-Returns :
    (crc32c : List ℕ → ℕ) (disk : List (ℕ × List ℕ)) (fuel : ℕ) (rp : WalReplayer)
    → rounds disk rp < fuel
    → Returns (next_loop crc32c fuel disk rp)
unfolding next_loop rounds
next_loop-Returns crc32c disk zero rp lt = absurd (omega arith)
next_loop-Returns crc32c disk (suc fuel) rp lt =
    round-Returns crc32c disk (λ q. next_loop crc32c fuel disk q) fuel
      (λ q below. next_loop-Returns crc32c disk fuel q below) rp rp.current (omega (arith, lt))

-- `next` returns, whatever the files hold and whichever of them are gone: the rounds that it is
-- given are enough.
pub next-returns :
    (crc32c : List ℕ → ℕ) (disk : List (ℕ × List ℕ)) (rp : WalReplayer)
    → next_loop crc32c (suc (rounds disk rp)) disk rp ≡ some (next crc32c disk rp)
unfolding next or_end
next-returns crc32c disk rp =
    let (r, e) = next_loop-Returns crc32c disk (suc (rounds disk rp)) rp (omega arith) in rw e refl
