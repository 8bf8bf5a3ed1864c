-- ===== src/Subscriber/Receive.antt =====
-- `receive_into` and `receive_timeout_into` of crates/mmbus/src/subscriber.rs beside a publisher that
-- goes on.
use mmbus.Prelude.{
  ℕ, ◌-◌, ◌≤◌, ◌<◌, ◌≡◌, refl, sym, subst, ◌&&◌, Bool, true, false, List, [], ◌∷◌, ltb, Result, ok,
  err, Option, none, some, if_cases,
}
use mmbus.Ring.{set_wakeflag, clear_wakeflag}
use mmbus.Ring.Reader.{Publishing, advance, try_receive}
use mmbus.Ring.Invariant.{Inv, idle, ready, opened, copying, committed, Next}
use mmbus.Ring.Steps.{Went-refl, Went-trans, advance-Next}
use mmbus.Ring.Torn.{Delivered, try_receive-Delivered}
use mmbus.Errors.{Error}
use mmbus.Subscriber.{
  Subscriber, after_ring, receive_live, Waited, signalled, timed_out, restarted, wait_failed, Turn,
  after_wait, wait_readable, Received, message, nothing, failure, still_waiting, after_readable,
  after_try, receive_loop, receive_into, receive_timeout_into, after_replay, next_wal_record,
  replay_record,
}

-- The flags are no business of the slots.
Inv-flags :
    (p : Publishing) (start c : ℕ) (w : ℕ → ℕ)
    → Inv p start c
    → Inv (record p { ring = record p.ring { wakeflags = w } }) start c
Inv-flags p start c w (idle a b z s) =
    idle a b (record { room = z.room; small = z.small; bound = z.bound; fits = z.fits }) s
Inv-flags p start c w (ready a b z f s) =
    ready a b (record { room = z.room; small = z.small; bound = z.bound; fits = z.fits }) f s
Inv-flags p start c w (opened a b z o s) =
    opened a b (record { room = z.room; small = z.small; bound = z.bound; fits = z.fits })
      (record { flag = o.flag; fit = o.fit }) s
Inv-flags p start c w (copying done left x a b z o l y s) =
    copying done left x a b
      (record { room = z.room; small = z.small; bound = z.bound; fits = z.fits })
      (record { flag = o.flag; fit = o.fit }) l y s
Inv-flags p start c w (committed a b z s) =
    committed a b (record { room = z.room; small = z.small; bound = z.bound; fits = z.fits }) s

flags-Next :
    (p q : Publishing) (start c : ℕ) (w : ℕ → ℕ)
    → Next start p c q
    → Next start p c (record q { ring = record q.ring { wakeflags = w } })
flags-Next p q start c w (d, inv, went) = (
  d,
  Inv-flags q start d w inv,
  record {
    le = went.le;
    capacity = went.capacity;
    size = went.size;
    kept = went.kept;
    slot = went.slot;
    newer = went.newer;
  },
)

Next-trans :
    (start : ℕ) (p q r : Publishing) (c : ℕ)
    → (n : Next start p c q) → Next start q n.0 r
    → Next start p c r
Next-trans start p q r c (d, inv, went) (e, inv', went') = (e, inv', Went-trans went went')

-- What the publisher may have done between `p` and the end, and what the subscriber has.
abbrev pub Got : ℕ → Subscriber → Publishing → ℕ → Received × (Subscriber × Publishing) → Type 0
Got start s p c (message out, (t, q)) =
    (s.cursor < t.cursor)
    × (out ≡ q.history (t.cursor - 1))
    × (t.cursor_idx ≡ s.cursor_idx)
    × Next start p c q
Got start s p c (nothing, (t, q)) = (t ≡ s) × Next start p c q
Got start s p c (failure e, (t, q)) = (t ≡ s) × Next start p c q
Got start s p c (still_waiting, (t, q)) = (t ≡ s) × Next start p c q

Got-after :
    (start : ℕ) (s : Subscriber) (p : Publishing) (c : ℕ) (q : Publishing) (n : Next start p c q)
    (r : Received × (Subscriber × Publishing))
    → Got start s q n.0 r
    → Got start s p c r
Got-after start s p c q n (message out, (t, r)) (lt, is, same, n') =
    (lt, is, same, Next-trans start p q r c n n')
Got-after start s p c q n (nothing, (t, r)) (same, n') = (same, Next-trans start p q r c n n')
Got-after start s p c q n (failure e, (t, r)) (same, n') = (same, Next-trans start p q r c n n')
Got-after start s p c q n (still_waiting, (t, r)) (same, n') = (same, Next-trans start p q r c n n')

-- The rest of the loop, from any state that the publisher has come to.
abbrev GoesOn :
    ℕ → Subscriber → (Subscriber → Publishing → Received × (Subscriber × Publishing)) → Type 0
GoesOn start s again = (p : Publishing) (c : ℕ) → Inv p start c → Got start s p c (again s p)

module _ (timed : Bool) (start : ℕ) (s : Subscriber)
    (again : Subscriber → Publishing → Received × (Subscriber × Publishing))
    (on : GoesOn start s again) where
  readable-Got :
      (p q : Publishing) (c : ℕ) (r : Result Error Bool)
      → Next start p c q
      → Got start s p c (after_readable timed s (r, q) again)
  unfolding after_readable
  readable-Got p q c (ok true) n = Got-after start s p c q n (again s q) (on q n.0 n.1)
  readable-Got p q c (ok false) n = untimely timed
    where
      untimely : (b : Bool) → Got start s p c (after_readable b s (ok false, q) again)
      untimely true = (refl, n)
      untimely false = Got-after start s p c q n (again s q) (on q n.0 n.1)
  readable-Got p q c (err e) n = (refl, n)

  waited-Got :
      (w : Waited) (p q : Publishing) (c : ℕ)
      → Next start p c q
      → Got start s p c (after_readable timed s (after_wait w s.cursor_idx q) again)
  unfolding after_wait clear_wakeflag
  waited-Got signalled p q c n = readable-Got p _ c (ok true) (flags-Next p q start c _ n)
  waited-Got timed_out p q c n = readable-Got p _ c (ok false) (flags-Next p q start c _ n)
  waited-Got restarted p q c n = readable-Got p _ c _ (flags-Next p q start c _ n)
  waited-Got wait_failed p q c n = readable-Got p _ c _ (flags-Next p q start c _ n)

  wait_readable-Got :
      (t : Turn) (p : Publishing) (c : ℕ)
      → Inv p start c
      → Got start s p c (after_readable timed s (wait_readable s t p) again)
  unfolding wait_readable set_wakeflag clear_wakeflag flags-Next
  wait_readable-Got t p c inv =
      let p0 = record p { ring = set_wakeflag p.ring s.cursor_idx } in
      let n0 : Next start p c p0 = flags-Next p p start c _ (c, inv, Went-refl p c) in
      let p1 = advance t.before_check p0 in
      let n1 : Next start p c p1 =
        Next-trans start p p0 p1 c n0 (advance-Next t.before_check p0 start c n0.1) in
      let p2 = advance t.asleep p1 in
      let n2 : Next start p c p2 =
        Next-trans start p p1 p2 c n1 (advance-Next t.asleep p1 start n1.0 n1.1) in
      if_cases (λ r. Got start s p c (after_readable timed s r again)) (ltb s.cursor p1.ring.tail)
        (λ unread. readable-Got p _ c (ok true) (flags-Next p p1 start c _ n1))
        (λ none_left. waited-Got t.ends p p2 c n2)

  try-Got :
      (t : Turn) (p : Publishing) (c : ℕ) (r : Option (ℕ × List ℕ) × Publishing)
      → Delivered start s.cursor p c r
      → Got start s p c (after_try timed t (after_ring s r) again)
  unfolding after_try after_ring
  try-Got t p c (some (n, out), q) (lt, is, (d, inv, le, went)) = (lt, is, refl, (d, inv, went))
  try-Got t p c (none, q) n =
      if_cases (Got start s p c) (timed && t.expired) (λ _. (refl, n))
        (λ _. Got-after start s p c q n _ (wait_readable-Got t q n.0 n.1))

receive_loop-Got :
    (timed : Bool) (start : ℕ) (ts : List Turn) (s : Subscriber) (p : Publishing) (c : ℕ)
    → start ≤ s.cursor
    → Inv p start c
    → Got start s p c (receive_loop timed ts s p)
unfolding receive_loop receive_live
receive_loop-Got timed start [] s p c from inv = (refl, (c, inv, Went-refl p c))
receive_loop-Got timed start (t ∷ ts) s p c from inv =
    try-Got timed start s (λ s' p'. receive_loop timed ts s' p')
      (λ q d inv'. receive_loop-Got timed start ts s q d from inv') t p c
      (try_receive s.cursor_idx s.cursor t.during p)
      (try_receive-Delivered start s.cursor s.cursor_idx t.during p c inv from)

replay-Got :
    (timed : Bool) (crc32c : List ℕ → ℕ) (disk : List (ℕ × List ℕ)) (start : ℕ) (ts : List Turn)
    (s : Subscriber) (p : Publishing) (c : ℕ)
    → s.wal_replay ≡ none
    → start ≤ s.cursor
    → Inv p start c
    → Got start s p c (after_replay timed ts (next_wal_record crc32c disk s p))
unfolding next_wal_record replay_record after_replay
replay-Got timed crc32c disk start ts s p c live from inv =
    subst (λ o. Got start s p c (after_replay timed ts (replay_record crc32c disk s p o)))
      (sym live) (receive_loop-Got timed start ts s p c from inv)

-- A receive, with a time limit or without, on a subscriber without a replay, whose position is not
-- before the one that the publisher began at, whatever the publisher stores between the loads, how
-- often it is waited and however the waits end: if it gives a message, this is, byte for byte, one
-- that was published, at the position before the subscriber's new cursor and not before its old
-- one; if it gives none, by a timeout or an error, the subscriber is as it was, so that the next
-- receive goes on there. The memory is in either case as the next receive needs it.
pub receive_into-Got :
    (crc32c : List ℕ → ℕ) (disk : List (ℕ × List ℕ)) (start : ℕ) (ts : List Turn) (s : Subscriber)
    (p : Publishing) (c : ℕ)
    → s.wal_replay ≡ none
    → start ≤ s.cursor
    → Inv p start c
    → Got start s p c (receive_into crc32c disk ts s p)
      × Got start s p c (receive_timeout_into crc32c disk ts s p)
unfolding receive_into receive_timeout_into
receive_into-Got crc32c disk start ts s p c live from inv = (
  replay-Got false crc32c disk start ts s p c live from inv,
  replay-Got true crc32c disk start ts s p c live from inv,
)
