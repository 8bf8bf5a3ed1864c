-- ===== src/Ring/Reader.antt =====
-- `try_receive` of crates/mmbus/src/ring.rs beside a publisher that goes on storing.
-- The reader's loads and the publisher's stores interleave in any order: between two loads the
-- publisher makes as many of its steps as the reader's `Pauses` say. Memory is taken to be
-- sequentially consistent.
use mmbus.Prelude.{
  ℕ, zero, suc, ◌+◌, ◌%◌, Bool, false, List, [], ◌∷◌, Option, none, some, ltb, leb, ◌==◌, not,
  if◌then◌else◌, update,
}
use mmbus.Ring.{Ring, Store, apply, publish_ops, is_full, is_writing, clear_writing, set_cursor}

-- `BackpressurePolicy`
pub data Backpressure : Type 0 where
  error drop_oldest : Backpressure

-- The publisher's thread: the stores that it has still to make for the message at hand, and the
-- messages that it publishes afterwards. `history` is no memory: the message for each position.
pub record Publishing : Type 0 where
  pub ring : Ring
  pub policy : Backpressure
  pub pending : List Store
  pub input : List (List ℕ)
  pub history : ℕ → List ℕ

abbrev pub rejects : Backpressure → Ring → Bool
rejects error r = is_full r
rejects drop_oldest r = false

-- The publisher takes up the next message, or rejects it.
unfoldable pub take_up : Publishing → List ℕ → List (List ℕ) → Publishing
take_up p m ms = if rejects p.policy p.ring then record p { input = ms } else record p {
  pending = publish_ops p.ring m;
  input = ms;
  history = update p.history p.ring.tail m;
}

unfoldable pub step_with : Publishing → List Store → List (List ℕ) → Publishing
step_with p (s ∷ ss) ms = record p { ring = apply p.ring s; pending = ss }
step_with p [] (m ∷ ms) = take_up p m ms
step_with p [] [] = p

unfoldable pub step : Publishing → Publishing
unfolding step_with
step p = step_with p p.pending p.input

unfoldable pub advance : ℕ → Publishing → Publishing
advance zero p = p
advance (suc n) p = advance n (step p)

-- How many steps the publisher makes before each load of one round of the reader's loop.
pub record Pauses : Type 0 where
  pub before_seq : ℕ
  pub before_len : ℕ
  pub before_byte : ℕ → ℕ
  pub before_recheck : ℕ

-- The payload's copy: `n` bytes of slot `idx` from offset `j` on.
unfoldable pub copy_out : ℕ → ℕ → ℕ → (ℕ → ℕ) → Publishing → List ℕ × Publishing
copy_out idx j zero pause p = ([], p)
copy_out idx j (suc n) pause p =
    let p' = advance (pause j) p in
    let (rest, q) = copy_out idx (suc j) n pause p' in ((p'.ring.slots idx).bytes j ∷ rest, q)

-- How one round of the loop ends.
pub data Round : Type 0 where
  retry : ℕ → Publishing → Round
  give_up : Publishing → Round
  success : ℕ → List ℕ → Publishing → Round

-- The check after the copy, and the store of the new cursor, which counts as one step with the load
-- of the number.
unfoldable pub recheck : ℕ → ℕ → List ℕ → ℕ → Publishing → Round
recheck cursor_idx effective out seq_after p =
    if not (seq_after == effective)
    then if ltb effective (clear_writing seq_after)
      then retry (clear_writing seq_after) p
      else retry effective p
    else success (effective + 1) out
        (record p { ring = set_cursor p.ring cursor_idx (effective + 1) })

-- The length is loaded, checked, and so many bytes are copied.
unfoldable pub read_payload : ℕ → ℕ → Pauses → Publishing → Round
read_payload cursor_idx effective d p =
    let idx = effective % p.ring.capacity in
    let p2 = advance d.before_len p in
    let len = (p2.ring.slots idx).len in
    let (out, p3) = copy_out idx 0 len d.before_byte p2 in
    let p4 = advance d.before_recheck p3 in
    if ltb p.ring.slot_payload_size len
    then retry effective p2
    else recheck cursor_idx effective out (p4.ring.slots idx).seq p4

-- One round. On the last branch the slot's number is `effective`.
unfoldable pub attempt : ℕ → ℕ → Pauses → Publishing → Round
attempt cursor_idx effective d p =
    let p1 = advance d.before_seq p in
    let seq_before = (p1.ring.slots (effective % p.ring.capacity)).seq in
    if is_writing seq_before
    then retry effective p1
    else if ltb effective seq_before
    then retry seq_before p1
    else if ltb seq_before effective
    then give_up p1
    else read_payload cursor_idx effective d p1

abbrev pub max_retries : ℕ
max_retries = 16

-- `continue`, `return None` or `return Some(..)`.
unfoldable pub after_round :
    Round → (ℕ → Publishing → Option (ℕ × List ℕ) × Publishing) → Option (ℕ × List ℕ) × Publishing
after_round (retry e p) again = again e p
after_round (give_up p) again = (none, p)
after_round (success c out p) again = (some (c, out), p)

-- The loop, with the pauses of each round.
unfoldable pub attempts : ℕ → ℕ → ℕ → (ℕ → Pauses) → Publishing → Option (ℕ × List ℕ) × Publishing
unfolding after_round
attempts zero cursor_idx effective ds p = (none, p)
attempts (suc n) cursor_idx effective ds p =
    after_round (attempt cursor_idx effective (ds n) p) (λ e p'. attempts n cursor_idx e ds p')

-- `try_receive`: the new cursor and the payload.
unfoldable pub try_receive : ℕ → ℕ → (ℕ → Pauses) → Publishing → Option (ℕ × List ℕ) × Publishing
try_receive cursor_idx local_cursor ds p =
    if leb p.ring.tail local_cursor
    then (none, p)
    else attempts max_retries cursor_idx local_cursor ds p
