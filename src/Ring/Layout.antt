-- ===== src/Ring/Layout.antt =====
-- Where crates/mmbus/src/ring.rs places the tables and the slots in the mapped file.
use mmbus.Prelude.{
  ℕ, suc, ◌+◌, ◌-◌, ◌*◌, ◌/◌, ◌%◌, ◌^◌, ◌≤◌, ◌<◌, ◌≡◌, ◌⊎◌, inl, inr, arith, dec_lt,
}
use native.Mathlib.Nat.{mul-le-mul_left, mul-suc, mul_comm, mul_assoc}

abbrev pub off_tail : ℕ
off_tail = 32

abbrev pub off_cursors : ℕ
off_cursors = 64

abbrev pub slot_overhead : ℕ
slot_overhead = 8 + 4

unfoldable pub wakeflags_offset : ℕ → ℕ
wakeflags_offset max_subscribers = off_cursors + 8 * max_subscribers

-- `(raw + 63) & !63`
unfoldable pub slots_offset : ℕ → ℕ
slots_offset max_subscribers =
    (wakeflags_offset max_subscribers + 8 * max_subscribers + 63) / 64 * 64

-- `(raw + 7) & !7`
unfoldable pub slot_stride : ℕ → ℕ
slot_stride slot_payload_size = (slot_overhead + slot_payload_size + 8 - 1) / 8 * 8

-- The product and the sum are those of a 64-bit `usize`; the other sizes, of 32-bit numbers, are far
-- below 2 ^ 64.
unfoldable pub mmap_size : ℕ → ℕ → ℕ → ℕ
mmap_size capacity slot_payload_size max_subscribers =
    (slots_offset max_subscribers + slot_stride slot_payload_size * capacity) % 2 ^ 64

-- `cursor_atomic`, `wakeflag_atomic` and the slot in `write_slot` and `try_receive`.
unfoldable pub cursor_offset : ℕ → ℕ
cursor_offset idx = off_cursors + idx * 8

unfoldable pub wakeflag_offset : ℕ → ℕ → ℕ
wakeflag_offset max_subscribers idx = wakeflags_offset max_subscribers + idx * 8

unfoldable pub slot_offset : ℕ → ℕ → ℕ → ℕ
slot_offset slot_payload_size max_subscribers idx =
    slots_offset max_subscribers + idx * slot_stride slot_payload_size

stride-room : (size : ℕ) → slot_overhead + size ≤ slot_stride size
unfolding slot_stride
stride-room size = omega arith

-- A slot ends where the next begins at the latest, and the last one where the file does.
slot-end :
    (size subscribers i j : ℕ)
    → i < j
    → slot_offset size subscribers i + (slot_overhead + size)
      ≤ slots_offset subscribers + slot_stride size * j
unfolding slot_offset
slot-end size subscribers i j lt = omega (
  arith,
  stride-room size,
  mul-le-mul_left {m = suc i} {n = j} (slot_stride size) (omega (arith, lt)),
  mul-suc (slot_stride size) i,
  mul_comm i (slot_stride size),
)

slots-aligned : (subscribers : ℕ) → slots_offset subscribers % 64 ≡ 0
unfolding slots_offset
slots-aligned subscribers = omega arith

slot-aligned : (size subscribers i : ℕ) → slot_offset size subscribers i % 8 ≡ 0
unfolding slot_offset slots_offset slot_stride
slot-aligned size subscribers i = omega (arith, mul_assoc i ((slot_overhead + size + 8 - 1) / 8) 8)

tables-apart :
    (subscribers c : ℕ) → c < subscribers → cursor_offset c + 8 ≤ wakeflag_offset subscribers 0
unfolding cursor_offset wakeflag_offset wakeflags_offset
tables-apart subscribers c lt = omega (arith, lt)

flags-apart :
    (subscribers c : ℕ)
    → c < subscribers
    → wakeflag_offset subscribers c + 8 ≤ slots_offset subscribers
unfolding wakeflag_offset wakeflags_offset slots_offset
flags-apart subscribers c lt = omega (arith, lt)

slot-before :
    (size subscribers i j : ℕ)
    → i < j
    → slot_offset size subscribers i + (slot_overhead + size) ≤ slot_offset size subscribers j
unfolding slot_offset
slot-before size subscribers i j lt =
    omega (arith, slot-end size subscribers i j lt, mul_comm j (slot_stride size))

slot-inside :
    (capacity size subscribers j : ℕ)
    → j < capacity
    → slots_offset subscribers + slot_stride size * capacity < 2 ^ 64
    → slot_offset size subscribers j + (slot_overhead + size) ≤ mmap_size capacity size subscribers
unfolding mmap_size
slot-inside capacity size subscribers j lt word =
    omega (arith, slot-end size subscribers j capacity lt, word)

header-apart : (c : ℕ) → off_tail + 8 ≤ cursor_offset c
unfolding cursor_offset
header-apart c = omega arith

slots-apart :
    (size subscribers i j : ℕ)
    → i ≤ j
    → (i ≡ j)
      ⊎ (slot_offset size subscribers i + (slot_overhead + size) ≤ slot_offset size subscribers j)
slots-apart size subscribers i j le = elim (dec_lt i j) [
  | yes lt ↦ inr (slot-before size subscribers i j lt)
  | no ge ↦ inl (omega (arith, ge, le))
]

-- The layout: every slot, and so its sequence number, is at a multiple of 8 and the
-- slots begin at a multiple of 64; the cursors come after the header, the flags after the cursors,
-- the slots after the flags; a slot has room for its number, its length and its payload before any
-- later slot, and before the end of the file, whose size is to be below 2 ^ 64.
pub slot_offset-layout :
    (capacity size subscribers i j c : ℕ)
    → i ≤ j
    → j < capacity
    → c < subscribers
    → slots_offset subscribers + slot_stride size * capacity < 2 ^ 64
    → (slots_offset subscribers % 64 ≡ 0)
      × (slot_offset size subscribers i % 8 ≡ 0)
      × (off_tail + 8 ≤ cursor_offset c)
      × (cursor_offset c + 8 ≤ wakeflag_offset subscribers 0)
      × (wakeflag_offset subscribers c + 8 ≤ slots_offset subscribers)
      × ((i ≡ j)
          ⊎ (slot_offset size subscribers i + (slot_overhead + size)
              ≤ slot_offset size subscribers j))
      × (slot_offset size subscribers j + (slot_overhead + size)
          ≤ mmap_size capacity size subscribers)
slot_offset-layout capacity size subscribers i j c le lt claimable word = (
  slots-aligned subscribers,
  slot-aligned size subscribers i,
  header-apart c,
  tables-apart subscribers c claimable,
  flags-apart subscribers c claimable,
  slots-apart size subscribers i j le,
  slot-inside capacity size subscribers j lt word,
)
