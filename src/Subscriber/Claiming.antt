-- ===== src/Subscriber/Claiming.antt =====
-- The position and the cursor that `connect_with` of crates/mmbus/src/subscriber.rs begins with, and the
-- table of cursors.
use mmbus.Prelude.{
  ℕ, zero, suc, ◌+◌, ◌-◌, ◌≤◌, ◌<◌, ◌≡◌, ◌≢◌, refl, sym, ◌∙◌, subst, List, leb, Result, ok, err,
  Option, none, some, arith, if_cases, ◌==◌, ==_iff, ℕ_discrete, update, update_self, update_ne,
}
use mmbus.Ring.{Ring, cursor_unclaimed, find_free, release_cursor}
use mmbus.Ring.Cursors.{IsClaimed, CursorsBehind}
use mmbus.Wal.Aggregator.{WalError}
use mmbus.Wal.Open.{WalReplayer}
use mmbus.Wal.Replay.{WalReader, open_reader, oldest_cursor, reader_read_from}
use mmbus.Errors.{Error}
use mmbus.Subscriber.{
  Subscriber, StartPos, now, history_back, explicit, after_read_from, from_wal, start_at,
}

-- The search finds a free cursor among the `n` from `i` on.
abbrev pub Free : (ℕ → ℕ) → (i n : ℕ) → Option ℕ → Type 0
Free cursors i n none = Unit
Free cursors i n (some j) = (j < i + n) × (cursors j ≡ cursor_unclaimed)

pub find_free-Free : (cursors : ℕ → ℕ) (i n : ℕ) → Free cursors i n (find_free cursors i n)
unfolding find_free
find_free-Free cursors i zero = tt
find_free-Free cursors i (suc n) =
    if_cases (Free cursors i (suc n)) (cursors i == cursor_unclaimed)
      (λ free. (omega arith, (==_iff _ _).0 free))
      (λ taken. later (find_free cursors (suc i) n) (find_free-Free cursors (suc i) n))
  where
    later : (o : Option ℕ) → Free cursors (suc i) n o → Free cursors i (suc n) o
    later none f = tt
    later (some j) (lt, free) = (omega (arith, lt), free)

-- The cursor at `idx` is free in `r`, and `q` has the others as they are in `r`.
abbrev Others : Ring → Ring → ℕ → Type 0
Others r q idx = (j : ℕ) → idx ≢ j → q.cursors j ≡ r.cursors j

-- What the publisher may do beside `connect_with`: the table stays, and the tail does not go back.
pub record GoesOn (meanwhile : Ring → Ring) : Type 0 where
  pub cursors : (r : Ring) → (meanwhile r).cursors ≡ r.cursors
  pub subscribers : (r : Ring) → (meanwhile r).max_subscribers ≡ r.max_subscribers
  pub capacity : (r : Ring) → (meanwhile r).capacity ≡ r.capacity
  pub tail : (r : Ring) → r.tail ≤ (meanwhile r).tail

-- The position asked for is not ahead of the tail.
abbrev pub NotAhead : ℕ → StartPos → Type 0
NotAhead tail now = Unit
NotAhead tail (history_back n) = Unit
NotAhead tail (explicit c) = c ≤ tail

-- The position that a start stands for.
abbrev pub position : ℕ → StartPos → ℕ
position tail now = tail
position tail (history_back n) = tail - n
position tail (explicit c) = c

-- The result: a subscriber with the one cursor that was claimed for it, or the table as it was.
-- `tail` is the one after the handshake.
abbrev pub Connected : Ring → (tail : ℕ) → StartPos → Ring × Result Error Subscriber → Type 0
Connected r tail start (q, ok s) =
    (s.cursor_idx < r.max_subscribers)
    × (r.cursors s.cursor_idx ≡ cursor_unclaimed)
    × IsClaimed q.cursors s.cursor_idx
    × ((j : ℕ) → s.cursor_idx ≢ j → q.cursors j ≡ r.cursors j)
    × (s.cursor ≡ position tail start)
    × (s.generation ≡ q.generation)
    × ((s.wal_replay ≡ none) → q.cursors s.cursor_idx ≡ s.cursor)
Connected r tail start (q, err e) = (j : ℕ) → q.cursors j ≡ r.cursors j

-- The start's position is the one asked for, and a replay is begun only where it is behind the ring.
abbrev pub Positioned : ℕ → StartPos → Result Error (ℕ × Option WalReplayer) → Type 0
Positioned tail start (ok (cursor, replay)) = cursor ≡ position tail start
Positioned tail start (err e) = Unit

after_read_from-Positioned :
    (tail c : ℕ) (x : Result WalError WalReplayer)
    → Positioned tail (explicit c) (after_read_from c x)
unfolding after_read_from
after_read_from-Positioned tail c (ok rp) = refl
after_read_from-Positioned tail c (err e) = ground arith

from_wal-Positioned :
    (tail c oldest : ℕ) (wr : WalReader) (o : Option ℕ)
    → Positioned tail (explicit c) (from_wal c oldest wr o)
unfolding from_wal
from_wal-Positioned tail c oldest wr none = tt
from_wal-Positioned tail c oldest wr (some k) =
    after_read_from-Positioned tail c (reader_read_from wr c)

pub start_at-Positioned :
    (tail capacity : ℕ) (disk : List (ℕ × List ℕ)) (start : StartPos)
    → Positioned tail start (start_at tail capacity disk start)
unfolding start_at
start_at-Positioned tail capacity disk now = refl
start_at-Positioned tail capacity disk (history_back n) = refl
start_at-Positioned tail capacity disk (explicit c) =
    if_cases (Positioned tail (explicit c)) (leb (tail - capacity) c) (λ _. refl)
      (λ _.
        from_wal-Positioned tail c (tail - capacity) (open_reader disk)
          (oldest_cursor (open_reader disk)))

-- The cursor `idx` was free in `r` and is claimed in `m`, which has the rest of the table as it is.
pub record Claims (r m : Ring) (idx : ℕ) : Type 0 where
  pub below : idx < r.max_subscribers
  pub free : r.cursors idx ≡ cursor_unclaimed
  pub others : (j : ℕ) → idx ≢ j → m.cursors j ≡ r.cursors j
  pub subscribers : m.max_subscribers ≡ r.max_subscribers
  pub capacity : m.capacity ≡ r.capacity
  pub tail : r.tail ≤ m.tail

-- The table with the cursor given back is as it was.
pub released :
    (r m : Ring) (idx : ℕ)
    → Claims r m idx
    → (j : ℕ) → (release_cursor m idx).cursors j ≡ r.cursors j
unfolding release_cursor
released r m idx c j = elim (ℕ_discrete idx j) [
  | yes e ↦
      subst (λ k. update m.cursors idx cursor_unclaimed k ≡ r.cursors k) e
        (update_self m.cursors idx cursor_unclaimed ∙ sym c.free)
  | no ne ↦ update_ne m.cursors idx j cursor_unclaimed ne ∙ c.others j ne
]

pub released-CursorsBehind :
    (r m : Ring) (idx : ℕ)
    → Claims r m idx
    → CursorsBehind r
    → m.tail < cursor_unclaimed
    → CursorsBehind (release_cursor m idx)
unfolding release_cursor
released-CursorsBehind r m idx c b word = record {
  behind = λ j lt claimed.
      let same : update m.cursors idx cursor_unclaimed j ≡ r.cursors j = released' j in
      let le = b.behind j (omega (arith, lt, c.subscribers)) (λ e. claimed (same ∙ e)) in
      omega (arith, le, same, c.tail);
  word = omega (arith, word);
  room = omega (arith, b.room, c.capacity);
}
  where
    released' : (j : ℕ) → update m.cursors idx cursor_unclaimed j ≡ r.cursors j
    released' = released r m idx c
