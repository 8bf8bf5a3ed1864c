-- ===== src/Publisher.antt =====
-- The producer's handle, crates/mmbus/src/publisher.rs, and what it uses of producer_lock.rs and
-- stats.rs. The ring and the log are those of `Ring` and `Wal.Aggregator`; each operation is one step
-- here, but for `publish` and `publish_many`: the subscribers may store cursors and flags between the
-- look at the cursors before the log and the ring's part. What the operating system answers is an
-- argument: the result of taking the lock and of binding the socket, the connections that wait at an
-- `accept_clients`, the clock, an fsync's result, and which wakeup channels have a peer.
pub mod Broadcast
pub mod Beside
pub mod Woken
pub mod Rounds
pub mod InStep
pub mod Items
pub mod Batch
pub mod Waking
pub mod Shadowed
pub mod Starting
mod Runs
use mmbus.Prelude.{
  ℕ, zero, suc, ◌+◌, ◌-◌, Bool, true, false, List, [], ◌∷◌, ◌++◌, length, get_elem?, swap_remove,
  Result, ok, err, Option, none, some, ltb, leb, if◌then◌else◌,
}
use mmbus.Ring.{
  Ring, File, image, magic, create_or_reuse, is_full, try_publish, publish_drop_oldest, set_tail,
  take_wakeflag, cursor_is_unclaimed, lags_with_idx,
}
use mmbus.Ring.Reader.{Backpressure, error, drop_oldest}
use mmbus.Wal.Aggregator.{Wal, WalConfig, WalError, FileSync}
use mmbus.Wal.Aggregator
use mmbus.Wal.Open.{open_wal}
use mmbus.Errors.{Error, io, full, too_large, wal_error, panicked, BusConfig}

-- `wakeup` is the number of the client's wakeup channel: its eventfd, socket or semaphore.
pub record Client : Type 0 where
  pub cursor_idx : ℕ
  pub wakeup : ℕ

-- `woken` is no field of the source: the channels that were signalled, the first one first.
pub record Publisher : Type 0 where
  pub ring : Ring
  pub clients : List Client
  pub backpressure : Backpressure
  pub wal : Option Wal
  pub published_total : ℕ
  pub full_rejected_total : ℕ
  pub subscribers_dropped_total : ℕ
  pub wakeups_sent_total : ℕ
  pub woken : List ℕ

-- `Publisher::create`, once the log is there or not.
unfoldable pub started : BusConfig → Ring → Option Wal → Publisher
started cfg r wal = record {
  ring = r;
  clients = [];
  backpressure = cfg.backpressure;
  wal = wal;
  published_total = 0;
  full_rejected_total = 0;
  subscribers_dropped_total = 0;
  wakeups_sent_total = 0;
  woken = [];
}

unfoldable pub bind_socket : Result Error (Unit {0}) → Publisher → Result Error Publisher
bind_socket (ok _) p = ok p
bind_socket (err e) p = err e

-- The tail is moved on to the log's next cursor.
unfoldable pub align_tail : Ring → ℕ → Ring
align_tail r next = if ltb r.tail next then set_tail r next else r

unfoldable pub after_open :
    BusConfig → Ring → Result WalError Wal → Result Error (Unit {0}) → File × Result Error Publisher
after_open cfg r (err e) bound = (image magic r, err (wal_error e))
after_open cfg r (ok w) bound =
    let r' = align_tail r w.pending_cursor in
    (image magic r', bind_socket bound (started cfg r' (some w)))

unfoldable pub after_lock :
    (List ℕ → ℕ)
    → BusConfig
    → File
    → (disk : List (ℕ × List ℕ)) (now : ℕ) → Result Error (Unit {0})
    → Result Error (Unit {0})
    → File × Result Error Publisher
after_lock crc32c cfg file disk now (err e) bound = (file, err e)
after_lock crc32c cfg file disk now (ok _) bound =
    let r = create_or_reuse file cfg.capacity cfg.slot_size cfg.max_subscribers in
    if cfg.wal.enabled
    then after_open cfg r (open_wal crc32c disk cfg.wal now) bound
    else (image magic r, bind_socket bound (started cfg r none))

-- `Publisher::create`: the ring's file as it is then, and the publisher. `disk` is the log's
-- directory, `locked` and `bound` are the results of `acquire_producer_lock` and of the socket's
-- `bind`.
unfoldable pub create :
    (List ℕ → ℕ)
    → BusConfig
    → File
    → (disk : List (ℕ × List ℕ)) (now : ℕ) (locked bound : Result Error (Unit {0}))
    → File × Result Error Publisher
create crc32c cfg file disk now locked bound = after_lock crc32c cfg file disk now locked bound

-- One answer of `accept` with the handshake on the connection.
pub data Accepted : Type 0 where
  connected : Client → Accepted
  failed : Accepted

-- `accept_clients`: the connections until there is none left, or one fails.
unfoldable pub accept_clients : Publisher → List Accepted → Publisher × Result Error (Unit {0})
accept_clients p [] = (p, ok tt)
accept_clients p (failed ∷ rest) = (p, err io)
accept_clients p (connected c ∷ rest) =
    accept_clients (record p { clients = p.clients ++ (c ∷ []) }) rest

-- The client at `i` is dropped, and another is then at its place.
unfoldable pub drop_client : Publisher → ℕ → Publisher
drop_client p i = record p {
  clients = swap_remove i p.clients;
  subscribers_dropped_total = p.subscribers_dropped_total + 1;
}

unfoldable pub send_wakeup : Publisher → Ring → Client → Publisher
send_wakeup p r c = record p {
  ring = r;
  wakeups_sent_total = p.wakeups_sent_total + 1;
  woken = p.woken ++ (c.wakeup ∷ []);
}

-- `Client::wake` has answered.
unfoldable pub after_wake : Bool → ℕ → Publisher → (ℕ → Publisher → Publisher) → Publisher
after_wake true i p again = again (suc i) p
after_wake false i p again = again i (drop_client p i)

-- `take_wakeflag` has answered.
unfoldable pub after_take :
    (ℕ → Bool) → ℕ → Client → Publisher → Ring × Bool → (ℕ → Publisher → Publisher) → Publisher
after_take wake i c p (r, false) again = again (suc i) (record p { ring = r })
after_take wake i c p (r, true) again = after_wake (wake c.wakeup) i (send_wakeup p r c) again

-- `cursor_is_unclaimed` has answered.
unfoldable pub after_probe :
    (ℕ → Bool) → ℕ → Client → Bool → Publisher → (ℕ → Publisher → Publisher) → Publisher
after_probe wake i c true p again = again i (drop_client p i)
after_probe wake i c false p again = after_take wake i c p (take_wakeflag p.ring c.cursor_idx) again

-- The body of `broadcast_wakeup`'s loop at `i`; `again` is the rest of the loop.
unfoldable pub visit :
    (ℕ → Bool) → ℕ → Option Client → Publisher → (ℕ → Publisher → Publisher) → Publisher
visit wake i none p again = p
visit wake i (some c) p again =
    after_probe wake i c (cursor_is_unclaimed p.ring c.cursor_idx) p again

-- The loop, on fuel. `wake` says of a channel whether its peer is there.
unfoldable pub wake_loop : (ℕ → Bool) → ℕ → ℕ → Publisher → Publisher
wake_loop wake zero i p = p
wake_loop wake (suc fuel) i p =
    visit wake i (get_elem? p.clients i) p (λ j q. wake_loop wake fuel j q)

-- `broadcast_wakeup`, with a round for each client.
unfoldable pub broadcast_wakeup : (ℕ → Bool) → Publisher → Publisher
broadcast_wakeup wake p = wake_loop wake (length p.clients) 0 p

abbrev pub Step : Type 0
Step = Publisher × Result Error (Unit {0})

-- `?` between two steps.
unfoldable pub and_then : Step → (Publisher → Step) → Step
and_then (p, ok _) k = k p
and_then (p, err e) k = (p, err e)

-- The policy is `Error`, and the ring is full.
unfoldable pub is_rejected : Backpressure → Ring → Bool
is_rejected error r = is_full r
is_rejected drop_oldest r = false

unfoldable pub after_append : Publisher → Wal × Result WalError (Unit {0}) → Step
after_append p (w, ok _) = (record p { wal = some w }, ok tt)
after_append p (w, err e) = (record p { wal = some w }, err (wal_error e))

-- What happens during the publish of a message: `ts` is `current_ts`, `now` the clock of a new
-- segment, `sync` the result of an fsync, and `race` what the subscribers do to the ring after the
-- look at the cursors before the log, and before the ring's part.
pub record During : Type 0 where
  pub ts : ℕ
  pub now : ℕ
  pub sync : FileSync
  pub race : Ring → Ring

-- The log comes before the ring.
unfoldable pub append_wal : (List ℕ → ℕ) → Publisher → Option Wal → During → List ℕ → Step
append_wal crc32c p none d bytes = (p, ok tt)
append_wal crc32c p (some w) d bytes =
    if is_rejected p.backpressure p.ring
    then (p, err full)
    else after_append p (Aggregator.append crc32c w p.ring.tail d.ts d.now d.sync bytes)

-- The subscribers' part.
unfoldable pub raced : During → Publisher → Publisher
raced d p = record p { ring = d.race p.ring }

-- The ring's part, by the policy.
unfoldable pub ring_publish : Backpressure → Ring → List ℕ → Option (Ring × Bool)
ring_publish error r bytes = try_publish r bytes
ring_publish drop_oldest r bytes = some (publish_drop_oldest r bytes)

unfoldable pub after_publish : (ℕ → Bool) → Publisher → Option (Ring × Bool) → Step
after_publish wake p none = (p, err panicked)
after_publish wake p (some (r, false)) =
    (record p { ring = r; full_rejected_total = p.full_rejected_total + 1 }, err full)
after_publish wake p (some (r, true)) =
    (broadcast_wakeup wake (record p { ring = r; published_total = p.published_total + 1 }), ok tt)

-- The ring's part of `publish`.
unfoldable pub publish_ring : (ℕ → Bool) → List ℕ → Publisher → Step
publish_ring wake bytes p = after_publish wake p (ring_publish p.backpressure p.ring bytes)

-- `Publisher::publish`
unfoldable pub publish :
    (List ℕ → ℕ) → (ℕ → Bool) → Publisher → List Accepted → During → List ℕ → Step
publish crc32c wake p arrivals d bytes =
    if ltb p.ring.slot_payload_size (length bytes)
    then (p, err (too_large (length bytes) p.ring.slot_payload_size))
    else and_then (accept_clients p arrivals) (λ p1.
      and_then (append_wal crc32c p1 p1.wal d bytes) (λ p2. publish_ring wake bytes (raced d p2)))

-- `publish_many` wakes everyone once, if something was published.
unfoldable pub wake_if_any : (ℕ → Bool) → ℕ → Publisher → Publisher
wake_if_any wake zero p = p
wake_if_any wake (suc count) p = broadcast_wakeup wake p

unfoldable pub count_published : ℕ → Publisher → Publisher
count_published count p = record p { published_total = p.published_total + count }

-- After the loop.
unfoldable pub finish_many : (ℕ → Bool) → ℕ → Publisher → Publisher × Result Error ℕ
finish_many wake zero p = (p, ok 0)
finish_many wake (suc count) p =
    (broadcast_wakeup wake (count_published (suc count) p), ok (suc count))

-- An item is in the ring, or is not, which ends the loop.
unfoldable pub after_item :
    (ℕ → Bool)
    → ℕ
    → Publisher
    → Option (Ring × Bool)
    → (ℕ → Publisher → Publisher × Result Error ℕ)
    → Publisher × Result Error ℕ
after_item wake count p none again = (p, err panicked)
after_item wake count p (some (r, false)) again = finish_many wake count (record p { ring = r })
after_item wake count p (some (r, true)) again = again (suc count) (record p { ring = r })

-- The item is in the log: a full ring ends the loop, an error is returned.
unfoldable pub after_log :
    (ℕ → Bool) → ℕ → Step → (Publisher → Publisher × Result Error ℕ) → Publisher × Result Error ℕ
after_log wake count (p, ok _) go_on = go_on p
after_log wake count (p, err full) go_on = finish_many wake count p
after_log wake count (p, err e) go_on = (wake_if_any wake count p, err e)

-- The ring's part of an item.
unfoldable pub item_ring :
    (ℕ → Bool)
    → ℕ
    → List ℕ
    → Publisher
    → (ℕ → Publisher → Publisher × Result Error ℕ)
    → Publisher × Result Error ℕ
item_ring wake count bytes p again =
    after_item wake count p (ring_publish p.backpressure p.ring bytes) again

-- The loop of `publish_many`; `during` is what happens at the item with so many before it.
unfoldable pub publish_items :
    (List ℕ → ℕ)
    → (ℕ → Bool)
    → (during : ℕ → During) → ℕ
    → List (List ℕ)
    → Publisher
    → Publisher × Result Error ℕ
publish_items crc32c wake during count [] p = finish_many wake count p
publish_items crc32c wake during count (bytes ∷ items) p =
    if ltb p.ring.slot_payload_size (length bytes)
    then (wake_if_any wake count p, err (too_large (length bytes) p.ring.slot_payload_size))
    else after_log wake count (append_wal crc32c p p.wal (during count) bytes) (λ p1.
      item_ring wake count bytes (raced (during count) p1)
        (λ n p2. publish_items crc32c wake during n items p2))

unfoldable pub after_accept :
    Step → (Publisher → Publisher × Result Error ℕ) → Publisher × Result Error ℕ
after_accept (p, ok _) go_on = go_on p
after_accept (p, err e) go_on = (p, err e)

-- `Publisher::publish_many`: the number of items published.
unfoldable pub publish_many :
    (List ℕ → ℕ)
    → (ℕ → Bool)
    → Publisher
    → List Accepted
    → (during : ℕ → During) → List (List ℕ)
    → Publisher × Result Error ℕ
publish_many crc32c wake p arrivals during items =
    after_accept (accept_clients p arrivals) (λ p1. publish_items crc32c wake during 0 items p1)

-- `slow_subscribers`: those that lag by `threshold` or more.
unfoldable pub at_least : ℕ → List (ℕ × ℕ) → List (ℕ × ℕ)
at_least threshold [] = []
at_least threshold ((i, lag) ∷ rest) =
    let others = at_least threshold rest in if leb threshold lag then (i, lag) ∷ others else others

unfoldable pub slow_subscribers : Publisher → ℕ → List (ℕ × ℕ)
slow_subscribers p threshold = at_least threshold (lags_with_idx p.ring)
