-- ===== src/Ring/Runs.antt =====
-- Runs of the ring: each theorem on a ring of one or two slots.
use mmbus.Prelude.{
  ℕ, ◌+◌, ◌-◌, ◌%◌, ◌≤◌, ◌<◌, ◌≡◌, ◌⊎◌, inl, refl, sym, subst, get_or, ap, List, [], ◌∷◌, length,
  true, false, some, arith,
}
use mmbus.Ring.{
  Slot, Ring, set_cursor, try_publish, apply_all, publish_ops, is_full, min_active_cursor,
}
use mmbus.Ring.Reader.{Publishing, drop_oldest, error, Pauses, try_receive}
use mmbus.Ring.Invariant.{AllStored, Inv, idle, Went}
use mmbus.Ring.Torn.{try_receive-whole}
use mmbus.Ring.Session.{Turn, polls, InOrder, polls-InOrder}
use mmbus.Ring.{File, image, magic, create_or_reuse}
use mmbus.Ring.Restart.{create_or_reuse-Inv}
use mmbus.Ring.Guarded.{Guarded}
use mmbus.Ring.Lossless.{try_receive-next}
use mmbus.Ring.Cursors.{CursorsBehind, is_full-ahead}
use mmbus.Ring.Unread.{try_publish-keeps_unread}
use mmbus.Ring.Slice.{try_receive_into_slice}
use mmbus.Ring.Slice.Agree.{Agree, try_receive_into_slice-Agree}
use mmbus.Ring.Layout.{
  off_tail, slots_offset, slot_offset, cursor_offset, wakeflag_offset, slot_overhead, mmap_size,
  slot_offset-layout,
}

-- One slot, with the message at position 0, read by a subscriber that has not moved.
abbrev one_slot : Ring
one_slot = record {
  capacity = 1;
  slot_payload_size = 4;
  max_subscribers = 1;
  generation = 1;
  tail = 1;
  cursors = λ i. 0;
  wakeflags = λ i. 0;
  slots = λ i. record { seq = 0; len = 1; bytes = λ j. 5 };
}

abbrev at_rest : Publishing
at_rest = record {
  ring = one_slot;
  policy = drop_oldest;
  pending = [];
  input = [];
  history = λ s. 5 ∷ [];
}

-- The same with a message still to be published.
abbrev busy : Publishing
busy = record at_rest { input = (7 ∷ []) ∷ [] }

-- The publisher makes one step before each load.
abbrev interleaved : ℕ → Pauses
interleaved n = record { before_seq = 1; before_len = 1; before_byte = λ j. 1; before_recheck = 1 }

one_slot-AllStored : (h : ℕ → List ℕ) → h 0 ≡ 5 ∷ [] → AllStored one_slot h 0 1 false
one_slot-AllStored h e i lt = inl (
  omega arith,
  omega arith,
  omega arith,
  record {
    len = ap length (sym e);
    bytes = λ j l.
        let l' : j < 1 = subst (λ m. j < length m) e l in
        let z : 0 ≡ j = omega (arith, l') in
        subst (λ k. 5 ≡ get_or (h 0) k 0) z (ap (λ m. get_or m 0 0) (sym e));
  },
)

busy-Inv : Inv busy 0 1
busy-Inv =
    idle refl refl
      (record {
        room = omega arith;
        small = omega arith;
        bound = omega arith;
        fits = (omega arith, tt);
      })
      (one_slot-AllStored busy.history refl)

after_busy : Publishing
after_busy = (try_receive 0 0 interleaved busy).1

-- The reader is overtaken while it copies, and gets the next message whole.
overtaken : try_receive 0 0 interleaved busy ≡ (some (2, 7 ∷ []), after_busy)
unfolding after_busy try_receive mmbus.Ring.Reader.attempts mmbus.Ring.Reader.after_round
    mmbus.Ring.Reader.attempt mmbus.Ring.Reader.read_payload mmbus.Ring.Reader.recheck
    mmbus.Ring.Reader.copy_out mmbus.Ring.Reader.advance mmbus.Ring.Reader.step
    mmbus.Ring.Reader.step_with mmbus.Ring.Reader.take_up mmbus.Ring.publish_ops
    mmbus.Ring.write_ops mmbus.Ring.byte_stores mmbus.Ring.apply mmbus.Ring.set_cursor
overtaken = refl

try_receive-whole_example :
    (0 < 2)
    × (7 ∷ [] ≡ after_busy.history (2 - 1))
    × ((d : ℕ) × Inv after_busy 0 d × (2 ≤ d) × Went busy 1 after_busy d)
try_receive-whole_example =
    try_receive-whole 0 0 0 interleaved busy after_busy 1 2 (7 ∷ []) busy-Inv (omega arith)
      overtaken

-- A fresh ring of one slot with three messages to publish.
abbrev fresh : Publishing
fresh = record {
  ring = record one_slot { tail = 0; slots = λ i. record { seq = 9; len = 9; bytes = λ j. 9 } };
  policy = error;
  pending = [];
  input = (1 ∷ (2 ∷ [])) ∷ ((3 ∷ []) ∷ ([] ∷ []));
  history = λ s. [];
}

abbrev turns : List Turn
turns =
    record { before = 7; during = interleaved }
    ∷ (record { before = 3; during = interleaved }
        ∷ (record { before = 9; during = interleaved } ∷ []))

polls-InOrder_example : InOrder (polls 0 0 turns fresh).1.1.history 0 (polls 0 0 turns fresh).0
polls-InOrder_example =
    polls-InOrder 0 0 turns fresh refl
      (record {
        room = omega arith;
        small = omega arith;
        bound = omega arith;
        fits = (omega arith, (omega arith, (omega arith, tt)));
      })
      (omega arith)

-- Two slots with a message at position 0 to be read, and room for one more.
abbrev two_slots : Ring
two_slots = record one_slot { capacity = 2 }

two_slots-CursorsBehind : CursorsBehind two_slots
two_slots-CursorsBehind = record {
  behind = λ i lt claimed. omega arith;
  word = omega arith;
  room = omega arith;
}

after_publish : Ring
after_publish = apply_all two_slots (publish_ops two_slots (7 ∷ []))

accepted : try_publish two_slots (7 ∷ []) ≡ some (after_publish, true)
unfolding after_publish try_publish is_full min_active_cursor mmbus.Ring.min_below
accepted = refl

try_publish-keeps_unread_example :
    (after_publish.cursors 0 ≡ 0)
    × (after_publish.tail ≤ after_publish.cursors 0 + 2)
    × (after_publish.slots (0 % 2) ≡ two_slots.slots (0 % 2))
try_publish-keeps_unread_example =
    try_publish-keeps_unread two_slots after_publish (7 ∷ []) true 0 0 two_slots-CursorsBehind
      (omega arith) (omega arith) (omega arith) (λ e. omega (arith, e)) (omega arith) (omega arith)
      (omega arith) accepted

-- A cursor that is ahead of the tail, as after a restart of the publisher.
abbrev restarted : Ring
restarted = record one_slot { tail = 0; cursors = λ i. 40 }

is_full-ahead_example : is_full restarted ≡ true
is_full-ahead_example =
    is_full-ahead restarted 0 (omega arith) (λ e. omega (arith, e)) (λ j lt claimed. omega arith)
      (omega arith) (omega arith)

slot_offset-layout_example :
    (slots_offset 16 % 64 ≡ 0)
    × (slot_offset 100 16 0 % 8 ≡ 0)
    × (off_tail + 8 ≤ cursor_offset 3)
    × (cursor_offset 3 + 8 ≤ wakeflag_offset 16 0)
    × (wakeflag_offset 16 3 + 8 ≤ slots_offset 16)
    × ((◌≡◌ {A = ℕ} 0 1) ⊎ (slot_offset 100 16 0 + (slot_overhead + 100) ≤ slot_offset 100 16 1))
    × (slot_offset 100 16 1 + (slot_overhead + 100) ≤ mmap_size 2 100 16)
unfolding mmbus.Ring.Layout.slots_offset mmbus.Ring.Layout.wakeflags_offset
    mmbus.Ring.Layout.slot_stride
slot_offset-layout_example =
    slot_offset-layout 2 100 16 0 1 3 (omega arith) (omega arith) (omega arith) (omega arith)

-- The message at position 0 is to be read, another is to be published, and the policy is `Error`.
abbrev guarding : Publishing
guarding = record busy { policy = error }

guarding-Inv : Inv guarding 0 1
guarding-Inv =
    idle refl refl
      (record {
        room = omega arith;
        small = omega arith;
        bound = omega arith;
        fits = (omega arith, tt);
      })
      (one_slot-AllStored guarding.history refl)

guarding-Guarded : Guarded guarding 0 0 1
guarding-Guarded = record {
  policy = refl;
  slot_taken = omega arith;
  at = refl;
  behind = λ i lt claimed. omega arith;
  reached = omega arith;
  above = omega arith;
  near = omega arith;
  spare = λ h. absurd (h refl);
  fit = λ s. omega arith;
}

try_receive-next_example :
    (q : Publishing) × (d : ℕ) × (try_receive 0 0 interleaved guarding
      ≡ (some (0 + 1, q.history 0), q))
    × (q.history 0 ≡ 5 ∷ [])
    × Inv q 0 d
    × Guarded q 0 (0 + 1) (0 + 1)
try_receive-next_example =
    try_receive-next guarding 0 1 0 0 interleaved guarding-Inv guarding-Guarded (omega arith)

-- A file of the same sizes, left by a publisher that had stored 1000 messages.
abbrev left_over : File
left_over = image magic (record one_slot { tail = 1000; cursors = λ i. 990 })

create_or_reuse-Inv_example :
    ((create_or_reuse left_over 1 4 1).capacity ≡ 1)
    × ((create_or_reuse left_over 1 4 1).slot_payload_size ≡ 4)
    × ((create_or_reuse left_over 1 4 1).max_subscribers ≡ 1)
    × Inv
        (record {
          ring = create_or_reuse left_over 1 4 1;
          policy = drop_oldest;
          pending = [];
          input = (7 ∷ []) ∷ [];
          history = λ s. [];
        })
        0
        0
create_or_reuse-Inv_example =
    create_or_reuse-Inv left_over 1 4 1 drop_oldest ((7 ∷ []) ∷ []) (λ s. []) (omega arith)
      (omega arith) (omega arith) (omega arith, tt)

try_receive_into_slice-Agree_example :
    Agree 4
      (try_receive 0 0 interleaved busy)
      (try_receive_into_slice 0 0 interleaved (0 ∷ (0 ∷ (0 ∷ (0 ∷ (0 ∷ []))))) busy)
try_receive_into_slice-Agree_example =
    try_receive_into_slice-Agree 0 0 interleaved (0 ∷ (0 ∷ (0 ∷ (0 ∷ (0 ∷ []))))) busy (omega arith)
