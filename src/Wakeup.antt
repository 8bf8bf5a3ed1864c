-- ===== src/Wakeup.antt =====
-- The eventcount between `broadcast_wakeup` (crates/mmbus/src/publisher.rs) and `wait_readable`,
-- `arm_wakeup`, `poll_recv` and `drop` (crates/mmbus/src/subscriber.rs), one step for each access of
-- the shared memory or of a wakeup channel, in any order. The accesses are sequentially consistent,
-- which the fences on both sides are for. A subscriber is named by its cursor index; `channel` gives
-- its wakeup channel, whose signals are counted. Nobody connects after the
-- beginning, so that `accept_clients` has nothing to do, and each message is published by `publish`,
-- with its own loop over the clients: `publish_many`, which has one loop for several, is no step here.
pub mod Alarm
pub mod Moves
pub mod Whole
pub mod Keeps
pub mod Own
pub mod Missed
mod Runs
use mmbus.Prelude.{
  ℕ, zero, suc, ◌+◌, ◌-◌, ◌≤◌, ◌<◌, ◌≡◌, ◌≢◌, Bool, true, false, List, [], ◌∷◌, ◌++◌, update, ◌⊎◌,
  All, last_to_front, ◌⊎◌, All,
}
use mmbus.Ring.{
  Ring, apply_all, publish_ops, set_wakeflag, clear_wakeflag, take_wakeflag, set_cursor,
  release_cursor, cursor_is_unclaimed, cursor_unclaimed,
}
use mmbus.Publisher.{Client}

-- Where the publisher is: between two publishes, or in the loop with the clients behind it and the
-- ones before it, of which the first has its cursor seen claimed (`probed`) or its flag taken
-- (`calling`).
pub data Stage : Type 0 where
  idle : (clients : List Client) → Stage
  looping : (done rest : List Client) → Stage
  probed : (done : List Client) (c : Client) (rest : List Client) → Stage
  calling : (done : List Client) (c : Client) (rest : List Client) → Stage

-- Where a subscriber is: reading or doing something else; with its flag set; in `wait_wakeup`, or
-- in the event loop; drained a signal; about to clear its flag; dropped.
pub data Phase : Type 0 where
  running armed sleeping woken clearing gone : Phase

pub record System : Type 0 where
  pub ring : Ring
  pub stage : Stage
  pub signals : ℕ → ℕ
  pub cursor : ℕ → ℕ
  pub phase : ℕ → Phase

-- After `take_wakeflag`.
unfoldable pub after_take : Bool → List Client → Client → List Client → Stage
after_take true done c rest = calling done c rest
after_take false done c rest = looping (done ++ (c ∷ [])) rest

pub data Step (channel : ℕ → ℕ) (s : System) : System → Type 0 where
  -- The message's stores, up to the tail's.
  publish :
      (clients : List Client) (m : List ℕ)
      → s.stage ≡ idle clients
      → s.ring.tail + 1 < cursor_unclaimed
      → Step channel s
          (record s { ring = apply_all s.ring (publish_ops s.ring m); stage = looping [] clients })
  reap :
      (done : List Client) (c : Client) (rest : List Client)
      → s.stage ≡ looping done (c ∷ rest)
      → cursor_is_unclaimed s.ring c.cursor_idx ≡ true
      → Step channel s (record s { stage = looping done (last_to_front rest) })
  probe :
      (done : List Client) (c : Client) (rest : List Client)
      → s.stage ≡ looping done (c ∷ rest)
      → cursor_is_unclaimed s.ring c.cursor_idx ≡ false
      → Step channel s (record s { stage = probed done c rest })
  take :
      (done : List Client) (c : Client) (rest : List Client)
      → s.stage ≡ probed done c rest
      → Step channel s (record s {
        ring = (take_wakeflag s.ring c.cursor_idx).0;
        stage = after_take (take_wakeflag s.ring c.cursor_idx).1 done c rest;
      })
  wake :
      (done : List Client) (c : Client) (rest : List Client)
      → s.stage ≡ calling done c rest
      → Step channel s (record s {
        stage = looping (done ++ (c ∷ [])) rest;
        signals = update s.signals c.wakeup (s.signals c.wakeup + 1);
      })
  -- Only the channel of a subscriber that is gone refuses a signal.
  wake_fails :
      (done : List Client) (c : Client) (rest : List Client)
      → s.stage ≡ calling done c rest
      → s.phase c.cursor_idx ≡ gone
      → Step channel s (record s { stage = looping done (last_to_front rest) })
  finish :
      (done : List Client)
      → s.stage ≡ looping done []
      → Step channel s (record s { stage = idle done })
  -- A read, or any number of them: the cursor is moved.
  read :
      (i n : ℕ)
      → s.phase i ≡ running
      → n < cursor_unclaimed
      → Step channel s (record s { ring = set_cursor s.ring i n; cursor = update s.cursor i n })
  arm :
      (i : ℕ)
      → s.phase i ≡ running
      → Step channel s (record s { ring = set_wakeflag s.ring i; phase = update s.phase i armed })
  -- The second look at the tail.
  unread :
      (i : ℕ)
      → s.phase i ≡ armed
      → s.cursor i < s.ring.tail
      → Step channel s (record s { phase = update s.phase i clearing })
  sleep :
      (i : ℕ)
      → s.phase i ≡ armed
      → s.ring.tail ≤ s.cursor i
      → Step channel s (record s { phase = update s.phase i sleeping })
  -- The channel is readable, and a signal is taken off it.
  drain :
      (i : ℕ)
      → s.phase i ≡ sleeping
      → 0 < s.signals (channel i)
      → Step channel s (record s {
        signals = update s.signals (channel i) (s.signals (channel i) - 1);
        phase = update s.phase i woken;
      })
  -- The timeout, or another error of the wait.
  give_up :
      (i : ℕ)
      → s.phase i ≡ sleeping
      → Step channel s (record s { phase = update s.phase i clearing })
  -- From the event loop the flag is not cleared, from `wait_readable` it is.
  resume :
      (i : ℕ) → s.phase i ≡ woken → Step channel s (record s { phase = update s.phase i running })
  wake_up :
      (i : ℕ) → s.phase i ≡ woken → Step channel s (record s { phase = update s.phase i clearing })
  clear :
      (i : ℕ)
      → s.phase i ≡ clearing
      → Step channel s
          (record s { ring = clear_wakeflag s.ring i; phase = update s.phase i running })
  leave :
      (i : ℕ)
      → s.phase i ≢ gone
      → Step channel s (record s { ring = release_cursor s.ring i; phase = update s.phase i gone })

-- Some client has the cursor index `i`.
abbrev pub Has : ℕ → List Client → Type 0
Has i [] = ⊥
Has i (c ∷ cs) = (c.cursor_idx ≡ i) ⊎ Has i cs

-- Each client's channel is that of the subscriber with its cursor index.
abbrev pub Matched : (ℕ → ℕ) → List Client → Type 0
Matched channel = All (λ c. c.wakeup ≡ channel c.cursor_idx)

-- The publisher is idle, and every subscriber that is not gone is running, has claimed its cursor,
-- and is one of the clients.
pub record IsStart (channel : ℕ → ℕ) (clients : List Client) (s : System) : Type 0 where
  pub idle : s.stage ≡ idle clients
  pub matched : Matched channel clients
  pub connected :
      (i : ℕ)
      → (s.phase i ≡ gone)
        ⊎ ((s.phase i ≡ running) × (s.ring.cursors i ≢ cursor_unclaimed) × Has i clients)

pub data Reach (channel : ℕ → ℕ) (s : System) : System → Type 0 where
  start : Reach channel s s
  later : {t u : System} → Reach channel s t → Step channel t u → Reach channel s u
