-- ===== src/Ring.antt =====
-- The ring buffer in shared memory, crates/mmbus/src/ring.rs.
-- `Ring` is the mapped file by its fields; the tables and the slots are families of words, of which
-- the indices below `max_subscribers` and `capacity` exist (`Ring.Layout` places them in the file).
-- A word is a number below 2 ^ 64. The stores of a publish are values, in program order, so that a
-- reader may look between any two of them.
pub mod Reader
pub mod Invariant
mod Stores
pub mod Slice
pub mod Steps
mod Copy
mod Round
pub mod Torn
pub mod Session
pub mod Cursors
pub mod Unread
pub mod Layout
pub mod Rest
pub mod Guarded
pub mod Lossless
pub mod Gapless
pub mod Restart
mod Runs
use mmbus.Prelude.{
  ℕ, zero, suc, ◌+◌, ◌-◌, ◌%◌, ◌^◌, ◌<◌, min, Bool, true, false, List, [], ◌∷◌, ◌++◌, Option, none,
  some, length, ltb, leb, ◌==◌, if◌then◌else◌, update,
}

abbrev pub magic : ℕ
magic = 0x6D6D_6275_7300_0005

abbrev pub cursor_unclaimed : ℕ
cursor_unclaimed = 2 ^ 64 - 1

abbrev pub wakeflag_waiting : ℕ
wakeflag_waiting = 1

abbrev pub seq_writing_bit : ℕ
seq_writing_bit = 2 ^ 63

-- `seq | SEQ_WRITING_BIT`, `seq & SEQ_WRITING_BIT != 0` and `seq & !SEQ_WRITING_BIT` on a u64.
abbrev pub set_writing : ℕ → ℕ
set_writing seq = if ltb seq seq_writing_bit then seq + seq_writing_bit else seq

abbrev pub is_writing : ℕ → Bool
is_writing seq = leb seq_writing_bit seq

abbrev pub clear_writing : ℕ → ℕ
clear_writing seq = seq % seq_writing_bit

-- `a.wrapping_sub(b)` on u64.
abbrev pub wrapping_sub : ℕ → ℕ → ℕ
wrapping_sub a b = (a + 2 ^ 64 - b) % 2 ^ 64

pub record Slot : Type 0 where
  pub seq : ℕ
  pub len : ℕ
  pub bytes : ℕ → ℕ

pub record Ring : Type 0 where
  pub capacity : ℕ
  pub slot_payload_size : ℕ
  pub max_subscribers : ℕ
  pub generation : ℕ
  pub tail : ℕ
  pub cursors : ℕ → ℕ
  pub wakeflags : ℕ → ℕ
  pub slots : ℕ → Slot

-- The file at a path: its first word and what the rest of it stands for, or nothing.
pub data File : Type 0 where
  missing : File
  image : ℕ → Ring → File

-- `RingBuffer::create` on a file set to zero: every cursor is unclaimed.
unfoldable pub create : ℕ → ℕ → ℕ → Ring
create capacity slot_payload_size max_subscribers = record {
  capacity = capacity;
  slot_payload_size = slot_payload_size;
  max_subscribers = max_subscribers;
  generation = 1;
  tail = 0;
  cursors = λ i. if ltb i max_subscribers then cursor_unclaimed else 0;
  wakeflags = λ i. 0;
  slots = λ i. record { seq = 0; len = 0; bytes = λ j. 0 };
}

-- `RingBuffer::open`: `none` is an error, of the file system or for the magic number.
unfoldable pub open_ring : File → Option Ring
open_ring missing = none
open_ring (image m r) = if m == magic then some r else none

-- A ring that was opened is kept if its sizes are those asked for.
unfoldable pub reuse_or_create : Option Ring → ℕ → ℕ → ℕ → Ring
reuse_or_create none capacity slot_payload_size max_subscribers =
    create capacity slot_payload_size max_subscribers
reuse_or_create (some r) capacity slot_payload_size max_subscribers =
    if r.capacity == capacity
    then if r.slot_payload_size == slot_payload_size
      then if r.max_subscribers == max_subscribers
        then record r { generation = (r.generation + 1) % 2 ^ 64; tail = 0 }
        else create capacity slot_payload_size max_subscribers
      else create capacity slot_payload_size max_subscribers
    else create capacity slot_payload_size max_subscribers

-- `RingBuffer::create_or_reuse`: the ring, and the file as it is then.
unfoldable pub create_or_reuse : File → ℕ → ℕ → ℕ → Ring
create_or_reuse file capacity slot_payload_size max_subscribers =
    reuse_or_create (open_ring file) capacity slot_payload_size max_subscribers

unfoldable pub set_wakeflag : Ring → ℕ → Ring
set_wakeflag r idx = record r { wakeflags = update r.wakeflags idx wakeflag_waiting }

unfoldable pub clear_wakeflag : Ring → ℕ → Ring
clear_wakeflag r idx = record r { wakeflags = update r.wakeflags idx 0 }

unfoldable pub take_wakeflag : Ring → ℕ → Ring × Bool
take_wakeflag r idx =
    (record r { wakeflags = update r.wakeflags idx 0 }, r.wakeflags idx == wakeflag_waiting)

unfoldable pub cursor_is_unclaimed : Ring → ℕ → Bool
cursor_is_unclaimed r idx = r.cursors idx == cursor_unclaimed

-- The first free index among the `n` from `i` on.
unfoldable pub find_free : (ℕ → ℕ) → ℕ → ℕ → Option ℕ
find_free cursors i zero = none
find_free cursors i (suc n) =
    let rest = find_free cursors (suc i) n in if cursors i == cursor_unclaimed then some i else rest

unfoldable pub claim_cursor : Ring → ℕ → Ring × Option ℕ
claim_cursor r initial_cursor = elim (find_free r.cursors 0 r.max_subscribers) [
  | none ↦ (r, none)
  | some i ↦ (
    record r { cursors = update r.cursors i initial_cursor; wakeflags = update r.wakeflags i 0 },
    some i,
  )
]

unfoldable pub set_cursor : Ring → ℕ → ℕ → Ring
set_cursor r idx value = record r { cursors = update r.cursors idx value }

unfoldable pub release_cursor : Ring → ℕ → Ring
release_cursor r idx = record r { cursors = update r.cursors idx cursor_unclaimed }

-- The minimum over the claimed cursors below `n`, in the order of the loop.
unfoldable pub min_below : (ℕ → ℕ) → ℕ → Option ℕ
min_below cursors zero = none
min_below cursors (suc n) =
    let so_far = min_below cursors n in
    if cursors n == cursor_unclaimed
    then so_far
    else elim so_far [ none ↦ some (cursors n) | some m ↦ some (min m (cursors n)) ]

unfoldable pub min_active_cursor : Ring → Option ℕ
min_active_cursor r = min_below r.cursors r.max_subscribers

unfoldable pub is_full : Ring → Bool
is_full r = elim (min_active_cursor r) [
  | none ↦ leb r.capacity (wrapping_sub r.tail r.tail)
  | some m ↦ leb r.capacity (wrapping_sub r.tail m)
]

pub data Store : Type 0 where
  store_seq : (idx seq : ℕ) → Store
  store_len : (idx len : ℕ) → Store
  store_byte : (idx offset byte : ℕ) → Store
  store_tail : (tail : ℕ) → Store

unfoldable pub apply : Ring → Store → Ring
apply r (store_seq idx v) = record r {
  slots = update r.slots idx (record (r.slots idx) { seq = v });
}
apply r (store_len idx v) = record r {
  slots = update r.slots idx (record (r.slots idx) { len = v });
}
apply r (store_byte idx j v) =
    let s = r.slots idx in
    record r { slots = update r.slots idx (record s { bytes = update s.bytes j v }) }
apply r (store_tail v) = record r { tail = v }

unfoldable pub apply_all : Ring → List Store → Ring
apply_all r [] = r
apply_all r (s ∷ ss) = apply_all (apply r s) ss

-- `copy_nonoverlapping` from the data to the payload, from offset `j` on.
unfoldable pub byte_stores : ℕ → ℕ → List ℕ → List Store
byte_stores idx j [] = []
byte_stores idx j (b ∷ bs) = store_byte idx j b ∷ byte_stores idx (suc j) bs

-- What `write_slot` stores, in order.
unfoldable pub write_ops : Ring → ℕ → List ℕ → List Store
write_ops r tail bytes =
    let idx = tail % r.capacity in
    store_seq idx (set_writing tail)
    ∷ (store_len idx (length bytes % 2 ^ 32)
        ∷ (byte_stores idx 0 bytes ++ (store_seq idx tail ∷ [])))

unfoldable pub write_slot : Ring → ℕ → List ℕ → Ring
write_slot r tail bytes = apply_all r (write_ops r tail bytes)

-- `publish_drop_oldest`, and what `try_publish` does once there is room.
unfoldable pub publish_ops : Ring → List ℕ → List Store
publish_ops r bytes = write_ops r r.tail bytes ++ (store_tail ((r.tail + 1) % 2 ^ 64) ∷ [])

unfoldable pub publish_drop_oldest : Ring → List ℕ → Ring × Bool
publish_drop_oldest r bytes = (apply_all r (publish_ops r bytes), true)

-- `none` is the panic of the assertion on the size.
unfoldable pub try_publish : Ring → List ℕ → Option (Ring × Bool)
try_publish r bytes =
    if ltb r.slot_payload_size (length bytes)
    then none
    else if is_full r
    then some (r, false)
    else some (apply_all r (publish_ops r bytes), true)

unfoldable pub set_tail : Ring → ℕ → Ring
set_tail r value = record r { tail = value }

-- `(cursor_idx, lag)` of the claimed cursors among the `n` from `i` on.
unfoldable pub lags_from : Ring → ℕ → ℕ → List (ℕ × ℕ)
lags_from r i zero = []
lags_from r i (suc n) =
    let rest = lags_from r (suc i) n in
    if r.cursors i == cursor_unclaimed then rest else (i, r.tail - r.cursors i) ∷ rest

unfoldable pub lags_with_idx : Ring → List (ℕ × ℕ)
lags_with_idx r = lags_from r 0 r.max_subscribers
