-- ===== src/Subscriber/Slice/Agree.antt =====
-- `try_receive_one_into_slice` of crates/mmbus/src/subscriber.rs against `next_wal_record` and
-- `try_receive_into`.
use mmbus.Prelude.{
  ℕ, ◌≤◌, ◌<◌, ◌≡◌, ◌⊎◌, refl, Bool-cases, inl, inr, List, length, take, ltb, ◌==◌, Result, ok, err,
  false, Option, none, some, arith,
}
use mmbus.Ring.{set_cursor}
use mmbus.Wal.Open.{WalReplayer}
use mmbus.Wal.Replay.{Item, next}
use mmbus.Ring.Reader.{Publishing, Pauses, try_receive}
use mmbus.Ring.Slice
use mmbus.Ring.Slice.{put, usize_max, SliceResult}
use mmbus.Ring.Slice.Agree.{Agree, take-put, try_receive_into_slice-Agree}
use mmbus.Errors.{Error, too_large}
use mmbus.Subscriber.{
  Subscriber, next_wal_record, replay_record, after_next, after_ring, receive_live, after_wal,
  try_receive_into,
}
use mmbus.Subscriber.Slice.{
  OneWritten, after_slice, after_written, after_record, try_receive_into_slice,
  try_receive_one_into_slice,
}

-- The message at the beginning of the buffer.
abbrev pub Holds : List ℕ → Subscriber × Publishing → OneWritten → Type 0
Holds bytes rest (r, (out, rest')) =
    (r ≡ ok (some (length bytes))) × (take (length bytes) out ≡ bytes) × (rest' ≡ rest)

-- What the log has answered, what `try_receive_into` gives, and what is written into a buffer of
-- `size` bytes.
abbrev pub SameOne :
    ℕ
    → Result Error (Option (List ℕ)) × (Subscriber × Publishing)
    → Option (List ℕ) × (Subscriber × Publishing)
    → OneWritten
    → Type 0
SameOne size (err e, rest) received (r, (out, rest')) = (r ≡ err e) × (rest' ≡ rest)
SameOne size (ok (some payload), rest) received w =
    ((length payload ≤ size) × Holds payload rest w)
    ⊎ ((size < length payload) × (w.0 ≡ err (too_large (length payload) size)) × (w.1.1 ≡ rest))
SameOne size (ok none, rest) (none, rest1) (r, (out, rest')) = (r ≡ ok none) × (rest' ≡ rest1)
SameOne size (ok none, rest) (some bytes, rest1) w = Holds bytes rest1 w

after_written-SameOne :
    (s : Subscriber) (size : ℕ) (x : Option (ℕ × List ℕ) × Publishing) (w : SliceResult)
    (slot_size : ℕ) (p : Publishing)
    → Agree slot_size x w
    → slot_size < usize_max
    → SameOne size
        (ok none, (s, p))
        (after_ring s x)
        (after_written slot_size size (after_slice s w))
unfolding after_written after_slice after_ring
after_written-SameOne s size (none, q) (r, (out, q')) slot_size p (nothing, same) word =
    rw (nothing, same) (refl, refl)
after_written-SameOne s size (some (n, bytes), q) (r, (out, q')) slot_size p
      (found, short, whole, same) word =
    let small : (length bytes == usize_max) ≡ false = ground (arith, short, word) in
    rw (found, same, small) (refl, whole, refl)

after_record-SameOne :
    (wal : Result Error (Option (List ℕ)) × (Subscriber × Publishing)) (ds : ℕ → Pauses)
    (out : List ℕ)
    → wal.1.1.ring.slot_payload_size ≤ length out
    → wal.1.1.ring.slot_payload_size < usize_max
    → SameOne (length out) wal (after_wal ds wal) (after_record ds out wal)
unfolding after_record after_wal receive_live try_receive_into_slice
after_record-SameOne (err e, rest) ds out room word = (refl, refl)
after_record-SameOne (ok (some payload), rest) ds out room word =
    elim (Bool-cases (ltb (length out) (length payload))) [
      | inl long ↦ rw long (inr (ground (arith, long), refl, refl))
      | inr fits ↦ rw fits (inl (ground (arith, fits), (refl, take-put payload out, refl)))
    ]
after_record-SameOne (ok none, (s, p)) ds out room word =
    after_written-SameOne s (length out) (try_receive s.cursor_idx s.cursor ds p)
      (Slice.try_receive_into_slice s.cursor_idx s.cursor ds out p) p.ring.slot_payload_size p
      (try_receive_into_slice-Agree s.cursor_idx s.cursor ds out p room) word

after_next-size :
    (s : Subscriber) (p : Publishing) (x : Item × WalReplayer)
    → (after_next s p x).1.1.ring.slot_payload_size ≡ p.ring.slot_payload_size
unfolding after_next set_cursor
after_next-size s p (none, rp) = refl
after_next-size s p (some (ok r), rp) = refl
after_next-size s p (some (err e), rp) = refl

replay_record-size :
    (crc32c : List ℕ → ℕ) (disk : List (ℕ × List ℕ)) (s : Subscriber) (p : Publishing)
    (replay : Option WalReplayer)
    → (replay_record crc32c disk s p replay).1.1.ring.slot_payload_size ≡ p.ring.slot_payload_size
unfolding replay_record
replay_record-size crc32c disk s p none = refl
replay_record-size crc32c disk s p (some rp) = after_next-size s p (next crc32c disk rp)

-- `try_receive_one_into_slice`, with a buffer that is at least as large as a slot's payload. An
-- error of the log is returned. A record of the log that fits is at the beginning of the buffer, and
-- one that does not is refused with its size. Where the log has no more, the result is that of
-- `try_receive_into` beside the same publisher: nothing, or the same message, at the beginning of
-- the buffer, with the same cursor and the same memory after it.
pub try_receive_one_into_slice-SameOne :
    (crc32c : List ℕ → ℕ) (disk : List (ℕ × List ℕ)) (s : Subscriber) (ds : ℕ → Pauses)
    (out : List ℕ) (p : Publishing)
    → p.ring.slot_payload_size ≤ length out
    → p.ring.slot_payload_size < usize_max
    → SameOne
        (length out)
        (next_wal_record crc32c disk s p)
        (try_receive_into crc32c disk s ds p)
        (try_receive_one_into_slice crc32c disk s ds out p)
unfolding try_receive_into try_receive_one_into_slice next_wal_record
try_receive_one_into_slice-SameOne crc32c disk s ds out p room word =
    after_record-SameOne (next_wal_record crc32c disk s p) ds out
      (omega (arith, replay_record-size crc32c disk s p s.wal_replay, room))
      (omega (arith, replay_record-size crc32c disk s p s.wal_replay, word))
