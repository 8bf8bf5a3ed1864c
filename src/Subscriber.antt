-- ===== src/Subscriber.antt =====
-- The consumer's handle, crates/mmbus/src/subscriber.rs, beside a publisher that goes on: the shared
-- memory is that of `Ring.Reader`, the log's files are the table `disk`. What the operating system
-- answers is an argument: whether the ring's file could be opened, the handshake, and the waits.
pub mod Claiming
pub mod Connect
pub mod HandOver
pub mod Receive
pub mod Slice
mod Runs
use mmbus.Prelude.{
  ℕ, zero, suc, ◌+◌, ◌-◌, Bool, true, false, List, [], ◌∷◌, length, ltb, leb, ◌&&◌, Result, ok, err,
  Option, none, some, if◌then◌else◌,
}
use mmbus.Ring.{Ring, claim_cursor, release_cursor, set_cursor, set_wakeflag, clear_wakeflag}
use mmbus.Ring.Reader.{Publishing, Pauses, advance, try_receive}
use mmbus.Wal.{Record}
use mmbus.Wal.Aggregator.{WalError, cursor_too_old}
use mmbus.Wal.Open.{WalReplayer}
use mmbus.Wal.Replay.{Item, next, WalReader, open_reader, oldest_cursor, reader_read_from}
use mmbus.Errors
use mmbus.Errors.{Error, io, timeout, too_large, too_many_subscribers, wal_error}

-- `Subscriber` without the ring and the handles.
pub record Subscriber : Type 0 where
  pub cursor : ℕ
  pub cursor_idx : ℕ
  pub generation : ℕ
  pub wal_replay : Option WalReplayer

pub data StartPos : Type 0 where
  now : StartPos
  history_back : ℕ → StartPos
  explicit : ℕ → StartPos

-- The log's reader has answered.
unfoldable pub after_read_from :
    ℕ → Result WalError WalReplayer → Result Error (ℕ × Option WalReplayer)
after_read_from c (ok rp) = ok (c, some rp)
after_read_from c (err (cursor_too_old requested oldest)) =
    err (Errors.cursor_too_old requested oldest)
after_read_from c (err e) = err (wal_error e)

-- The cursor is behind the ring: it is looked for in the log. No log, and a log without a segment,
-- are the same.
unfoldable pub from_wal :
    (c ring_oldest : ℕ) → WalReader → Option ℕ → Result Error (ℕ × Option WalReplayer)
from_wal c ring_oldest wr none = err (Errors.cursor_too_old c ring_oldest)
from_wal c ring_oldest wr (some oldest) = after_read_from c (reader_read_from wr c)

-- The position and the replay, by the start.
unfoldable pub start_at :
    (tail capacity : ℕ) → List (ℕ × List ℕ) → StartPos → Result Error (ℕ × Option WalReplayer)
start_at tail capacity disk now = ok (tail, none)
start_at tail capacity disk (history_back n) = ok (tail - n, none)
start_at tail capacity disk (explicit c) =
    if leb (tail - capacity) c
    then ok (c, none)
    else from_wal c (tail - capacity) (open_reader disk) (oldest_cursor (open_reader disk))

-- While it replays, the subscriber's cursor in the ring is the tail.
unfoldable pub live_cursor : (tail cursor : ℕ) → Option WalReplayer → ℕ
live_cursor tail cursor none = cursor
live_cursor tail cursor (some rp) = tail

-- `tail` is the one that was loaded after the handshake, `r` the ring as it is by now.
unfoldable pub finish_connect :
    Ring → (tail idx : ℕ) → Result Error (ℕ × Option WalReplayer) → Ring × Result Error Subscriber
finish_connect r tail idx (err e) = (release_cursor r idx, err e)
finish_connect r tail idx (ok (cursor, replay)) = (
  set_cursor r idx (live_cursor tail cursor replay),
  ok (record { cursor = cursor; cursor_idx = idx; generation = r.generation; wal_replay = replay }),
)

-- The handshake has answered; the publisher has gone on to `r` meanwhile, and goes on by `later` while
-- the log is looked up.
unfoldable pub after_handshake :
    Ring
    → (Ring → Ring)
    → ℕ
    → List (ℕ × List ℕ)
    → StartPos
    → Result Error (Unit {0})
    → Ring × Result Error Subscriber
after_handshake r later idx disk start (err e) = (release_cursor r idx, err e)
after_handshake r later idx disk start (ok _) =
    finish_connect (later r) r.tail idx (start_at r.tail r.capacity disk start)

unfoldable pub after_claim :
    Ring × Option ℕ
    → (meanwhile later : Ring → Ring) → List (ℕ × List ℕ)
    → StartPos
    → Result Error (Unit {0})
    → Ring × Result Error Subscriber
after_claim (r, none) meanwhile later disk start handshake =
    (r, err (too_many_subscribers r.max_subscribers))
after_claim (r, some idx) meanwhile later disk start handshake =
    after_handshake (meanwhile r) later idx disk start handshake

-- `Subscriber::connect_with` on a ring that could be opened; `meanwhile` is what others do to the
-- ring during the handshake, `later` what they do between the load of the tail after it and the store
-- of the cursor, with which the load of the generation is one step. Where it cannot be opened in time, the result is `timeout`.
unfoldable pub connect_with :
    Ring
    → (meanwhile later : Ring → Ring) → List (ℕ × List ℕ)
    → StartPos
    → Result Error (Unit {0})
    → Ring × Result Error Subscriber
connect_with r meanwhile later disk start handshake =
    after_claim (claim_cursor r r.tail) meanwhile later disk start handshake

-- `next` has answered, in `next_wal_record`.
unfoldable pub after_next :
    Subscriber
    → Publishing
    → Item × WalReplayer
    → Result Error (Option (List ℕ)) × (Subscriber × Publishing)
after_next s p (some (ok r), rp) =
    (ok (some r.payload), (record s { cursor = r.cursor + 1; wal_replay = some rp }, p))
after_next s p (some (err e), rp) = (err (wal_error e), (record s { wal_replay = none }, p))
after_next s p (none, rp) = (
  ok none,
  (record s { wal_replay = none }, record p { ring = set_cursor p.ring s.cursor_idx s.cursor }),
)

unfoldable pub replay_record :
    (List ℕ → ℕ)
    → List (ℕ × List ℕ)
    → Subscriber
    → Publishing
    → Option WalReplayer
    → Result Error (Option (List ℕ)) × (Subscriber × Publishing)
replay_record crc32c disk s p none = (ok none, (s, p))
replay_record crc32c disk s p (some rp) = after_next s p (next crc32c disk rp)

-- `next_wal_record`
unfoldable pub next_wal_record :
    (List ℕ → ℕ)
    → List (ℕ × List ℕ)
    → Subscriber
    → Publishing
    → Result Error (Option (List ℕ)) × (Subscriber × Publishing)
next_wal_record crc32c disk s p = replay_record crc32c disk s p s.wal_replay

-- The ring's `try_receive` has answered.
unfoldable pub after_ring :
    Subscriber → Option (ℕ × List ℕ) × Publishing → Option (List ℕ) × (Subscriber × Publishing)
after_ring s (none, p) = (none, (s, p))
after_ring s (some (new_cursor, out), p) = (some out, (record s { cursor = new_cursor }, p))

unfoldable pub receive_live :
    Subscriber → (ℕ → Pauses) → Publishing → Option (List ℕ) × (Subscriber × Publishing)
receive_live s ds p = after_ring s (try_receive s.cursor_idx s.cursor ds p)

-- `try_receive` and `try_receive_into`: an error of the log is as if the replay had ended.
unfoldable pub after_wal :
    (ℕ → Pauses)
    → Result Error (Option (List ℕ)) × (Subscriber × Publishing)
    → Option (List ℕ) × (Subscriber × Publishing)
after_wal ds (ok (some payload), (s, p)) = (some payload, (s, p))
after_wal ds (ok none, (s, p)) = receive_live s ds p
after_wal ds (err e, (s, p)) = receive_live s ds p

unfoldable pub try_receive_into :
    (List ℕ → ℕ)
    → List (ℕ × List ℕ)
    → Subscriber
    → (ℕ → Pauses)
    → Publishing
    → Option (List ℕ) × (Subscriber × Publishing)
try_receive_into crc32c disk s ds p = after_wal ds (next_wal_record crc32c disk s p)

-- How `wait_wakeup` ends.
pub data Waited : Type 0 where
  signalled timed_out restarted wait_failed : Waited

-- One turn of the receiving loop: the pauses of the read, whether the time is up after it, which it
-- never is in `receive_into`, and what the publisher does before the second look at the tail and
-- during the wait.
pub record Turn : Type 0 where
  pub during : ℕ → Pauses
  pub expired : Bool
  pub before_check : ℕ
  pub asleep : ℕ
  pub ends : Waited

-- The wait is over: `wait_readable` clears the flag.
unfoldable pub after_wait : Waited → ℕ → Publishing → Result Error Bool × Publishing
after_wait signalled idx p = (ok true, record p { ring = clear_wakeflag p.ring idx })
after_wait timed_out idx p = (ok false, record p { ring = clear_wakeflag p.ring idx })
after_wait restarted idx p = (err io, record p { ring = clear_wakeflag p.ring idx })
after_wait wait_failed idx p = (err io, record p { ring = clear_wakeflag p.ring idx })

-- `wait_readable`: the flag, the second look, the wait.
unfoldable pub wait_readable : Subscriber → Turn → Publishing → Result Error Bool × Publishing
wait_readable s t p =
    let p1 = advance t.before_check (record p { ring = set_wakeflag p.ring s.cursor_idx }) in
    if ltb s.cursor p1.ring.tail
    then (ok true, record p1 { ring = clear_wakeflag p1.ring s.cursor_idx })
    else after_wait t.ends s.cursor_idx (advance t.asleep p1)

-- How a receive ends: with a message, without one in time, with an error; or it still waits when
-- the turns are over.
pub data Received : Type 0 where
  message : List ℕ → Received
  nothing : Received
  failure : Error → Received
  still_waiting : Received

-- `timed` is `receive_timeout_into`; `receive_into` has no time limit, and ignores what
-- `wait_readable` answers but an error.
unfoldable pub after_readable :
    (timed : Bool)
    → Subscriber
    → Result Error Bool × Publishing
    → (Subscriber → Publishing → Received × (Subscriber × Publishing))
    → Received × (Subscriber × Publishing)
after_readable timed s (ok true, p) again = again s p
after_readable true s (ok false, p) again = (nothing, (s, p))
after_readable false s (ok false, p) again = again s p
after_readable timed s (err e, p) again = (failure e, (s, p))

unfoldable pub after_try :
    (timed : Bool)
    → Turn
    → Option (List ℕ) × (Subscriber × Publishing)
    → (Subscriber → Publishing → Received × (Subscriber × Publishing))
    → Received × (Subscriber × Publishing)
after_try timed t (some out, (s, p)) again = (message out, (s, p))
after_try timed t (none, (s, p)) again =
    if timed && t.expired
    then (nothing, (s, p))
    else after_readable timed s (wait_readable s t p) again

-- The loop of `receive_into` and `receive_timeout_into`, a turn each round.
unfoldable pub receive_loop :
    (timed : Bool) → List Turn → Subscriber → Publishing → Received × (Subscriber × Publishing)
receive_loop timed [] s p = (still_waiting, (s, p))
receive_loop timed (t ∷ ts) s p =
    after_try timed t (receive_live s t.during p) (λ s' p'. receive_loop timed ts s' p')

unfoldable pub after_replay :
    (timed : Bool)
    → List Turn
    → Result Error (Option (List ℕ)) × (Subscriber × Publishing)
    → Received × (Subscriber × Publishing)
after_replay timed ts (ok (some payload), (s, p)) = (message payload, (s, p))
after_replay timed ts (ok none, (s, p)) = receive_loop timed ts s p
after_replay timed ts (err e, (s, p)) = (failure e, (s, p))

unfoldable pub receive_into :
    (List ℕ → ℕ)
    → List (ℕ × List ℕ)
    → List Turn
    → Subscriber
    → Publishing
    → Received × (Subscriber × Publishing)
receive_into crc32c disk ts s p = after_replay false ts (next_wal_record crc32c disk s p)

unfoldable pub receive_timeout_into :
    (List ℕ → ℕ)
    → List (ℕ × List ℕ)
    → List Turn
    → Subscriber
    → Publishing
    → Received × (Subscriber × Publishing)
receive_timeout_into crc32c disk ts s p = after_replay true ts (next_wal_record crc32c disk s p)

-- `drop`
unfoldable pub drop_subscriber : Subscriber → Publishing → Publishing
drop_subscriber s p = record p { ring = release_cursor p.ring s.cursor_idx }

-- `lag`
unfoldable pub lag : Subscriber → Ring → ℕ
lag s r = r.tail - s.cursor
