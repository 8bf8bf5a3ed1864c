-- ===== src/Subscriber/Runs.antt =====
-- Runs of the subscriber: a late start on a log of two records, a connection to a ring of two slots,
-- and a receive.
use mmbus.Prelude.{
  ℕ, ◌+◌, zero, suc, ◌-◌, ◌%◌, ◌^◌, ◌≤◌, ◌<◌, ◌≡◌, inr, inl, refl, List, [], ◌∷◌, length, true,
  false, ok, none, some, arith, ltb, if◌then◌else◌,
}
use mmbus.Ring.{Slot, Ring}
use mmbus.Ring.Reader.{Publishing, drop_oldest, Pauses}
use mmbus.Ring.Invariant.{Inv}
use mmbus.Ring.Session.{start-Inv}
use mmbus.Ring.Cursors.{CursorsBehind}
use mmbus.Wal.{Record, encoded_len}
use mmbus.Wal.Open.{WalReplayer}
use mmbus.Wal.Segment.Recovery.{AllWritable}
use mmbus.Wal.Replay.Complete.{Seg, Chain, directory}
use mmbus.Subscriber.{
  Subscriber, explicit, history_back, start_at, connect_with, Turn, signalled, timed_out,
  receive_into, receive_timeout_into,
}
use mmbus.Subscriber.Claiming.{GoesOn, Connected}
use mmbus.Subscriber.Connect.{reloaded, connect_with-Connected}
use mmbus.Subscriber.Receive.{Got, receive_into-Got}
use mmbus.Subscriber.{next_wal_record, try_receive_into}
use mmbus.Subscriber.Slice.{try_receive_one_into_slice}
use mmbus.Subscriber.Slice.Agree.{SameOne, try_receive_one_into_slice-SameOne}
use mmbus.Subscriber.HandOver.{wal_records, payloads, HandedOver, wal_records-all}

abbrev checksum : List ℕ → ℕ
checksum bytes = length bytes % 2 ^ 32

checksum-lt : (bytes : List ℕ) → checksum bytes < 2 ^ 32
checksum-lt bytes = omega arith

-- A ring of two slots with the subscriber 0, and room for another.
abbrev small : Ring
small = record {
  capacity = 2;
  slot_payload_size = 4;
  max_subscribers = 2;
  generation = 1;
  tail = 5;
  cursors = λ i. if ltb i 1 then 4 else 2 ^ 64 - 1;
  wakeflags = λ i. 0;
  slots = λ i. record { seq = 0; len = 0; bytes = λ j. 0 };
}

small-CursorsBehind : CursorsBehind small
small-CursorsBehind = record {
  behind = λ i lt claimed. behind i claimed;
  word = omega arith;
  room = omega arith;
}
  where
    behind : (i : ℕ) → (small.cursors i ≡ 2 ^ 64 - 1 → ⊥) → small.cursors i ≤ 5
    behind zero claimed = omega arith
    behind (suc i) claimed = absurd (claimed (ground arith))

abbrev stays : Ring → Ring
stays r = r

stays-GoesOn : GoesOn stays
stays-GoesOn = record {
  cursors = λ r. refl;
  subscribers = λ r. refl;
  capacity = λ r. refl;
  tail = λ r. omega arith;
}

-- The publisher writes no bytes, but it moves on.
abbrev moves_on : Ring → Ring
moves_on r = record r { tail = r.tail + 1 }

moves_on-GoesOn : GoesOn moves_on
moves_on-GoesOn = record {
  cursors = λ r. refl;
  subscribers = λ r. refl;
  capacity = λ r. refl;
  tail = λ r. omega arith;
}

connected-word : (connect_with small stays moves_on [] (history_back 1) (ok tt)).0.tail < 2 ^ 64 - 1
unfolding connect_with mmbus.Subscriber.after_claim mmbus.Subscriber.after_handshake
    mmbus.Subscriber.finish_connect mmbus.Subscriber.start_at mmbus.Ring.claim_cursor
    mmbus.Ring.find_free mmbus.Ring.set_cursor mmbus.Subscriber.live_cursor
connected-word = omega arith

connect_with-Connected_example :
    Connected small
      (reloaded small stays)
      (history_back 1)
      (connect_with small stays moves_on [] (history_back 1) (ok tt))
    × CursorsBehind (connect_with small stays moves_on [] (history_back 1) (ok tt)).0
connect_with-Connected_example =
    connect_with-Connected small stays moves_on [] (history_back 1) (ok tt) stays-GoesOn
      moves_on-GoesOn small-CursorsBehind connected-word tt

-- The publisher has a message to publish, and does so while the subscriber waits.
abbrev publishing : Publishing
publishing = record {
  ring = small;
  policy = drop_oldest;
  pending = [];
  input = (7 ∷ []) ∷ [];
  history = λ s. [];
}

abbrev live : Subscriber
live = record { cursor = 5; cursor_idx = 0; generation = 1; wal_replay = none }

abbrev turns : List Turn
turns =
    record {
      during =
          λ n. record { before_seq = 0; before_len = 0; before_byte = λ j. 0; before_recheck = 0 };
      expired = false;
      before_check = 0;
      asleep = 6;
      ends = signalled;
    }
    ∷ (record {
      during =
          λ n. record { before_seq = 0; before_len = 0; before_byte = λ j. 0; before_recheck = 0 };
      expired = true;
      before_check = 0;
      asleep = 0;
      ends = timed_out;
    }
        ∷ [])

publishing-Inv : Inv publishing 5 5
publishing-Inv = start-Inv publishing refl (record {
  room = omega arith;
  small = omega arith;
  bound = omega arith;
  fits = (omega arith, tt);
})

receive_into-Got_example :
    Got 5 live publishing 5 (receive_into checksum [] turns live publishing)
    × Got 5 live publishing 5 (receive_timeout_into checksum [] turns live publishing)
receive_into-Got_example =
    receive_into-Got checksum [] 5 turns live publishing 5 refl (omega arith) publishing-Inv

-- Two records, in two segments.
abbrev record_at : ℕ → Record
record_at c = record { cursor = c; ts_unix_nanos = 100; payload = c ∷ [] }

abbrev one_record : ℕ → Seg
one_record c = record { first = c; created = 1; records = record_at c ∷ [] }

one_record-AllWritable : (c : ℕ) → c < 2 ^ 64 → AllWritable (record_at c ∷ [])
unfolding encoded_len
one_record-AllWritable c lt =
    (record { cursor_fits = lt; ts_fits = omega arith; size_fits = omega arith }, tt)

two_records-Chain : Chain 0 (one_record 0 ∷ (one_record 1 ∷ []))
two_records-Chain = (
  refl,
  omega arith,
  omega arith,
  one_record-AllWritable 0 (omega arith),
  (refl, tt),
  inl (omega arith),
  (
    refl,
    omega arith,
    omega arith,
    one_record-AllWritable 1 (omega arith),
    (refl, tt),
    inr refl,
    tt,
  ),
)

wal_records-all_example :
    (rp : WalReplayer) × (start_at 5 2
        (directory checksum (one_record 0 ∷ (one_record 1 ∷ [])))
        (explicit 1)
      ≡ ok (1, some rp))
    × (((wal_records checksum
            (directory checksum (one_record 0 ∷ (one_record 1 ∷ [])))
            2
            (record live { cursor = 1; wal_replay = some rp })
            publishing).0
          ≡ payloads (record_at 1 ∷ []))
        × HandedOver live publishing 2
            (wal_records checksum
              (directory checksum (one_record 0 ∷ (one_record 1 ∷ [])))
              2
              (record live { cursor = 1; wal_replay = some rp })
              publishing).1)
wal_records-all_example =
    wal_records-all checksum checksum-lt 5 2 1 (one_record 0) (one_record 1 ∷ []) live publishing
      two_records-Chain (omega arith) (omega arith) (omega arith)

-- A buffer of one byte more than a slot has.
abbrev buffer : List ℕ
buffer = 0 ∷ (0 ∷ (0 ∷ (0 ∷ (0 ∷ []))))

-- The read waits for six steps of the publisher, which are the stores of its message.
abbrev after_six : ℕ → Pauses
after_six n = record { before_seq = 6; before_len = 0; before_byte = λ j. 0; before_recheck = 0 }

-- The subscriber is at the position before the tail.
abbrev behind_one : Subscriber
behind_one = record live { cursor = 4 }

try_receive_one_into_slice-SameOne_example :
    SameOne 5
      (next_wal_record checksum [] behind_one publishing)
      (try_receive_into checksum [] behind_one after_six publishing)
      (try_receive_one_into_slice checksum [] behind_one after_six buffer publishing)
try_receive_one_into_slice-SameOne_example =
    try_receive_one_into_slice-SameOne checksum [] behind_one after_six buffer publishing
      (omega arith) (omega arith)
