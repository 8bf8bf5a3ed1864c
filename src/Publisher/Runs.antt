-- ===== src/Publisher/Runs.antt =====
-- Runs of the publisher: three clients, of which one has left and one waits, and two messages.
use mmbus.Prelude.{
  ℕ, none, ◌+◌, ◌^◌, ◌<◌, ◌≡◌, refl, Bool, true, false, List, [], ◌∷◌, ◌++◌, map, length, arith, ok,
  err, Result, Option, some, Permᴰ, keep,
}
use mmbus.Ring.{Ring, create, set_cursor, set_wakeflag, cursor_is_unclaimed, wakeflag_waiting}
use mmbus.Ring.Reader.{error}
use mmbus.Wal.Aggregator.{Wal, WalConfig, each, FileSync, sync_ok, sync_failed, io_error}
use mmbus.Publisher.{Client, Publisher, During, connected, broadcast_wakeup, publish, publish_many}
use mmbus.Publisher.Woken.{is_called, stays}
use mmbus.Publisher.Broadcast.{broadcast_wakeup-calls}
use mmbus.Publisher.Shadowed.{broadcast_wakeup-misses}
use mmbus.Ring.{missing}
use mmbus.Errors.{default_config, Error, wal_error}
use mmbus.Publisher.Starting.{Created, create-Created}
use mmbus.Publisher.Beside.{OnlyReaders}
use mmbus.Publisher.InStep.{InStep, Outcome, publish-Outcome}
use mmbus.Publisher.Batch.{Published, publish_many-Published}

abbrev client : ℕ → Client
client i = record { cursor_idx = i; wakeup = 10 + i }

-- The cursors 1 and 2 are claimed, and the subscriber at 1 is about to sleep.
abbrev three_cursors : Ring
three_cursors = set_wakeflag (set_cursor (set_cursor (create 4 8 3) 1 0) 2 0) 1

abbrev config : WalConfig
config = record {
  enabled = true;
  fsync_policy = each;
  segment_size_max = 1000;
  retention_bytes = 1000;
}

abbrev new_wal : Wal
new_wal = record {
  cfg = config;
  disk = [];
  segments = [];
  segment_sizes = [];
  active_bytes = 0;
  retained_bytes = 0;
  writer = none;
  durable_cursor = 0;
  pending_cursor = 0;
  poisoned = false;
  appends_total = 0;
  append_bytes_total = 0;
  flushes_total = 0;
}

abbrev three_clients : Publisher
three_clients = record {
  ring = three_cursors;
  clients = client 0 ∷ (client 1 ∷ (client 2 ∷ []));
  backpressure = error;
  wal = some new_wal;
  published_total = 0;
  full_rejected_total = 0;
  subscribers_dropped_total = 0;
  wakeups_sent_total = 0;
  woken = [];
}

abbrev everyone : ℕ → Bool
everyone channel = true

abbrev checksum : List ℕ → ℕ
checksum bytes = length bytes

-- The client at 0 is dropped, the one at 1 is woken, and the one at 2 is left alone.
three_clients-after :
    ((broadcast_wakeup everyone three_clients).woken ≡ 11 ∷ [])
    × ((broadcast_wakeup everyone three_clients).clients ≡ client 2 ∷ (client 1 ∷ []))
unfolding broadcast_wakeup mmbus.Publisher.wake_loop mmbus.Publisher.visit
    mmbus.Publisher.after_probe mmbus.Publisher.after_take mmbus.Publisher.after_wake
    mmbus.Publisher.drop_client mmbus.Publisher.send_wakeup mmbus.Ring.take_wakeflag
    cursor_is_unclaimed set_cursor set_wakeflag create
three_clients-after = (refl, refl)

broadcast_wakeup-calls_example :
    Permᴰ
      (broadcast_wakeup everyone three_clients).clients
      (keep (stays everyone three_cursors) three_clients.clients)
    × ((added : List ℕ) × ((broadcast_wakeup everyone three_clients).woken ≡ [] ++ added)
        × Permᴰ added (map (λ c. c.wakeup) (keep (is_called three_cursors) three_clients.clients)))
    × ((broadcast_wakeup everyone three_clients).wakeups_sent_total
        ≡ 0 + length (keep (is_called three_cursors) three_clients.clients))
    × ((broadcast_wakeup everyone three_clients).subscribers_dropped_total
          + length (broadcast_wakeup everyone three_clients).clients
        ≡ 0 + 3)
broadcast_wakeup-calls_example = broadcast_wakeup-calls everyone three_clients (
  ((λ e. omega (arith, e)), ((λ e. omega (arith, e)), tt)),
  (((λ e. omega (arith, e)), tt), (tt, tt)),
)

-- Two clients for the cursor 1.
abbrev shadowed : Publisher
shadowed = record three_clients {
  clients = (record { cursor_idx = 1; wakeup = 20 }) ∷ (client 1 ∷ []);
}

claimed : cursor_is_unclaimed three_cursors 1 ≡ false
unfolding cursor_is_unclaimed set_cursor set_wakeflag create
claimed = refl

waiting : three_cursors.wakeflags 1 ≡ wakeflag_waiting
unfolding set_cursor set_wakeflag create
waiting = refl

broadcast_wakeup-misses_example :
    ((broadcast_wakeup everyone shadowed).woken ≡ [] ++ (20 ∷ []))
    × ((broadcast_wakeup everyone shadowed).ring.wakeflags 1 ≡ 0)
broadcast_wakeup-misses_example =
    broadcast_wakeup-misses everyone shadowed (record { cursor_idx = 1; wakeup = 20 }) (client 1)
      refl refl claimed waiting

three_clients-InStep : InStep three_clients
unfolding set_cursor set_wakeflag create
three_clients-InStep = (refl, refl)

three_clients-room : three_clients.ring.tail + 2 < 2 ^ 64
unfolding set_cursor set_wakeflag create
three_clients-room = omega arith

-- A subscriber claims the cursor 0, at the position that it is given, between the log and the ring.
abbrev claiming : FileSync → ℕ → During
claiming sync at = record { ts = 100; now = 7; sync = sync; race = λ r. set_cursor r 0 at }

claiming-OnlyReaders : (sync : FileSync) (at : ℕ) → OnlyReaders (claiming sync at).race
unfolding set_cursor
claiming-OnlyReaders sync at r = ((set_cursor r 0 at).cursors, r.wakeflags, refl)

publish-Outcome_example : Outcome three_clients (5 ∷ (6 ∷ [])) (
    publish checksum everyone three_clients
      (connected (client 3) ∷ [])
      (claiming sync_ok 0)
      (5 ∷ (6 ∷ [])))
publish-Outcome_example =
    publish-Outcome checksum everyone three_clients (connected (client 3) ∷ []) (claiming sync_ok 0)
      (5 ∷ (6 ∷ [])) (claiming-OnlyReaders sync_ok 0) three_clients-InStep
      (omega (arith, three_clients-room))

-- The fsync fails: the record is in the log, and no message in the ring.
abbrev after_failed_sync : Publisher × Result Error (Unit {0})
after_failed_sync = publish checksum everyone three_clients [] (claiming sync_failed 0) (5 ∷ [])

abbrev next_cursor : Option Wal → ℕ
next_cursor none = 0
next_cursor (some w) = w.pending_cursor

failed_sync-ahead :
    (after_failed_sync.1 ≡ err (wal_error io_error))
    × (after_failed_sync.0.ring.tail ≡ 0)
    × (next_cursor after_failed_sync.0.wal ≡ 1)
unfolding publish mmbus.Publisher.accept_clients mmbus.Publisher.and_then mmbus.Publisher.append_wal
    mmbus.Publisher.is_rejected mmbus.Publisher.after_append mmbus.Ring.is_full
    mmbus.Ring.min_active_cursor mmbus.Ring.min_below mmbus.Wal.Aggregator.append
    mmbus.Wal.Aggregator.and_then mmbus.Wal.Aggregator.ensure_writer
    mmbus.Wal.Aggregator.create_segment mmbus.Wal.Aggregator.add_segment
    mmbus.Wal.Aggregator.rotate_if_full mmbus.Wal.Aggregator.append_active
    mmbus.Wal.Aggregator.after_append mmbus.Wal.Aggregator.finish_append
    mmbus.Wal.Aggregator.fsync_each mmbus.Wal.Aggregator.fsync_active mmbus.Wal.Segment.create
    mmbus.Wal.Segment.append set_cursor set_wakeflag create
failed_sync-ahead = (refl, refl, refl)

publish_many-Published_example :
    Published
      (λ n. claiming sync_ok 0)
      three_clients
      ((5 ∷ []) ∷ ([] ∷ []))
      (publish_many checksum everyone three_clients []
        (λ n. claiming sync_ok 0)
        ((5 ∷ []) ∷ ([] ∷ [])))
publish_many-Published_example =
    publish_many-Published checksum everyone (λ n. claiming sync_ok 0)
      (λ n. claiming-OnlyReaders sync_ok 0) three_clients [] ((5 ∷ []) ∷ ([] ∷ []))
      three_clients-InStep three_clients-room

-- A publisher on an empty directory, with the default settings and a log.
create-Created_example :
    Created
      (default_config config)
      missing
      (ok tt)
      (mmbus.Publisher.create (λ bytes. 0) (default_config config) missing [] 5 (ok tt) (ok tt))
create-Created_example =
    create-Created (λ bytes. 0) (default_config config) missing [] 5 (ok tt) (ok tt)
