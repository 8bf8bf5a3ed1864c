-- ===== src/Ring/Slice.antt =====
-- `try_receive_into_slice` of crates/mmbus/src/ring.rs: the loop of `try_receive` again, with the
-- copy into the caller's buffer. The buffer is a list of bytes, whose length stays.
pub mod Agree
use mmbus.Prelude.{
  ℕ, zero, suc, ◌+◌, ◌-◌, ◌%◌, ◌^◌, List, ◌++◌, length, drop, Option, none, some, ltb, leb, ◌==◌,
  not, if◌then◌else◌,
}
use mmbus.Ring.{is_writing, clear_writing, set_cursor}
use mmbus.Ring.Reader.{Publishing, advance, Pauses, copy_out, max_retries}

-- `usize::MAX`
abbrev pub usize_max : ℕ
usize_max = 2 ^ 64 - 1

-- The first bytes of the buffer are overwritten.
unfoldable pub put : List ℕ → List ℕ → List ℕ
put bytes out = bytes ++ drop (length bytes) out

-- How one round ends, with the buffer then: `continue`, `return None` or `return Some(..)`.
pub data SliceRound : Type 0 where
  again : ℕ → List ℕ → Publishing → SliceRound
  absent : List ℕ → Publishing → SliceRound
  written : (cursor bytes_written : ℕ) → List ℕ → Publishing → SliceRound

unfoldable pub recheck_slice : ℕ → ℕ → ℕ → List ℕ → ℕ → Publishing → SliceRound
recheck_slice cursor_idx effective len out seq_after p =
    if not (seq_after == effective)
    then if ltb effective (clear_writing seq_after)
      then again (clear_writing seq_after) out p
      else again effective out p
    else written (effective + 1) len out
        (record p { ring = set_cursor p.ring cursor_idx (effective + 1) })

-- The length is loaded, checked against the slot and against the buffer, and so many bytes are
-- copied.
unfoldable pub read_slice : ℕ → ℕ → Pauses → List ℕ → Publishing → SliceRound
read_slice cursor_idx effective d out p =
    let idx = effective % p.ring.capacity in
    let p2 = advance d.before_len p in
    let len = (p2.ring.slots idx).len in
    let (bytes, p3) = copy_out idx 0 len d.before_byte p2 in
    let p4 = advance d.before_recheck p3 in
    if ltb p.ring.slot_payload_size len
    then again effective out p2
    else if ltb (length out) len
    then written (effective + 1) usize_max out
        (record p2 { ring = set_cursor p2.ring cursor_idx (effective + 1) })
    else recheck_slice cursor_idx effective len (put bytes out) (p4.ring.slots idx).seq p4

unfoldable pub attempt_slice : ℕ → ℕ → Pauses → List ℕ → Publishing → SliceRound
attempt_slice cursor_idx effective d out p =
    let p1 = advance d.before_seq p in
    let seq_before = (p1.ring.slots (effective % p.ring.capacity)).seq in
    if is_writing seq_before
    then again effective out p1
    else if ltb effective seq_before
    then again seq_before out p1
    else if ltb seq_before effective
    then absent out p1
    else read_slice cursor_idx effective d out p1

abbrev pub SliceResult : Type 0
SliceResult = Option (ℕ × ℕ) × (List ℕ × Publishing)

unfoldable pub after_slice_round :
    SliceRound → (ℕ → List ℕ → Publishing → SliceResult) → SliceResult
after_slice_round (again e out p) go_on = go_on e out p
after_slice_round (absent out p) go_on = (none, (out, p))
after_slice_round (written c n out p) go_on = (some (c, n), (out, p))

unfoldable pub slice_attempts : ℕ → ℕ → ℕ → (ℕ → Pauses) → List ℕ → Publishing → SliceResult
slice_attempts zero cursor_idx effective ds out p = (none, (out, p))
slice_attempts (suc n) cursor_idx effective ds out p =
    after_slice_round (attempt_slice cursor_idx effective (ds n) out p)
      (λ e out' p'. slice_attempts n cursor_idx e ds out' p')

-- `try_receive_into_slice`: the new cursor and the number of bytes, with the buffer.
unfoldable pub try_receive_into_slice : ℕ → ℕ → (ℕ → Pauses) → List ℕ → Publishing → SliceResult
try_receive_into_slice cursor_idx local_cursor ds out p =
    if leb p.ring.tail local_cursor
    then (none, (out, p))
    else slice_attempts max_retries cursor_idx local_cursor ds out p
