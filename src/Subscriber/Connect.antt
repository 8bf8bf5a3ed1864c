-- ===== src/Subscriber/Connect.antt =====
-- `Subscriber::connect_with` of crates/mmbus/src/subscriber.rs: what it does to the table of cursors.
use mmbus.Prelude.{
  ℕ, ◌≤◌, ◌<◌, ◌≡◌, refl, sym, ap, ◌∙◌, subst, List, Result, ok, err, Option, none, some, arith,
  ℕ_discrete, update, update_self, update_ne,
}
use mmbus.Ring.{Ring, cursor_unclaimed, find_free, claim_cursor, release_cursor, set_cursor}
use mmbus.Ring.Cursors.{CursorsBehind}
use mmbus.Wal.Open.{WalReplayer}
use mmbus.Errors.{Error}
use mmbus.Subscriber.{
  StartPos, now, history_back, explicit, start_at, live_cursor, finish_connect, after_handshake,
  after_claim, connect_with,
}
use mmbus.Subscriber.Claiming.{
  Free, find_free-Free, GoesOn, NotAhead, position, Connected, Positioned, start_at-Positioned,
  Claims, released, released-CursorsBehind,
}

-- What `claim_cursor` makes of the table.
abbrev Claimed : Ring → Ring × Option ℕ → Type 0
Claimed r (q, none) = q ≡ r
Claimed r (q, some idx) = Claims r q idx

claim_cursor-Claimed : (r : Ring) (t : ℕ) → Claimed r (claim_cursor r t)
unfolding claim_cursor
claim_cursor-Claimed r t =
    go (find_free r.cursors 0 r.max_subscribers) (find_free-Free r.cursors 0 r.max_subscribers)
  where
    go :
        (o : Option ℕ)
        → Free r.cursors 0 r.max_subscribers o
        → Claimed r (elim o [
          | none ↦ (r, none)
          | some i ↦ (
            record r { cursors = update r.cursors i t; wakeflags = update r.wakeflags i 0 },
            some i,
          )
        ])
    go none f = refl
    go (some i) (lt, free) = record {
      below = omega (arith, lt);
      free = free;
      others = λ j ne. update_ne r.cursors i j t ne;
      subscribers = refl;
      capacity = refl;
      tail = omega arith;
    }

Claims-meanwhile :
    (r q : Ring) (idx : ℕ) (meanwhile : Ring → Ring)
    → GoesOn meanwhile
    → Claims r q idx
    → Claims r (meanwhile q) idx
Claims-meanwhile r q idx meanwhile g c = record {
  below = c.below;
  free = c.free;
  others = λ j ne. ap (λ (f : ℕ → ℕ). f j) (g.cursors q) ∙ c.others j ne;
  subscribers = g.subscribers q ∙ c.subscribers;
  capacity = g.capacity q ∙ c.capacity;
  tail = omega (arith, g.tail q, c.tail);
}

-- The cursor `idx` is claimed in `q`, in which the tail has gone on from `tail`.
finish_connect-ok :
    (r q : Ring) (tail idx cursor : ℕ) (replay : Option WalReplayer) (start : StartPos)
    → Claims r q idx
    → CursorsBehind r
    → tail ≤ q.tail
    → q.tail < cursor_unclaimed
    → cursor ≡ position tail start
    → NotAhead tail start
    → Connected r tail start (finish_connect q tail idx (ok (cursor, replay)))
      × CursorsBehind (finish_connect q tail idx (ok (cursor, replay))).0
unfolding finish_connect set_cursor live_cursor
finish_connect-ok r q tail idx cursor replay start c b on word at ahead = (
  (
    c.below,
    c.free,
    (λ e. omega (arith, update_self q.cursors idx live, e, live_le replay, word)),
    λ j ne. update_ne q.cursors idx j live ne ∙ c.others j ne,
    at,
    refl,
    λ none_left. update_self q.cursors idx live ∙ ap (live_cursor tail cursor) none_left ∙ unfolded,
  ),
  record {
    behind = λ j lt claimed. elim (ℕ_discrete idx j) [
      | yes e ↦
          let same : update q.cursors idx live j ≡ live =
            subst (λ k. update q.cursors idx live k ≡ live) e (update_self q.cursors idx live) in
          omega (arith, same, live_le replay)
      | no ne ↦
          let same : update q.cursors idx live j ≡ r.cursors j =
            update_ne q.cursors idx j live ne ∙ c.others j ne in
          let le = b.behind j (omega (arith, lt, c.subscribers)) (λ e. claimed (same ∙ e)) in
          omega (arith, le, same, c.tail)
    ];
    word = omega (arith, word);
    room = omega (arith, b.room, c.capacity);
  },
)
  where
    live : ℕ
    live = live_cursor tail cursor replay

    not_ahead : (start : StartPos) → NotAhead tail start → position tail start ≤ tail
    not_ahead now h = omega arith
    not_ahead (history_back n) h = omega arith
    not_ahead (explicit k) h = h

    live_le : (o : Option WalReplayer) → live_cursor tail cursor o ≤ q.tail
    live_le none = omega (arith, at, not_ahead start ahead, on)
    live_le (some rp) = omega (arith, on)

    unfolded : live_cursor tail cursor none ≡ cursor
    unfolded = refl

after_handshake-Connected :
    (r m : Ring) (later : Ring → Ring) (idx : ℕ) (disk : List (ℕ × List ℕ)) (start : StartPos)
    (handshake : Result Error (Unit {0}))
    → Claims r m idx
    → GoesOn later
    → CursorsBehind r
    → (after_handshake m later idx disk start handshake).0.tail < cursor_unclaimed
    → NotAhead m.tail start
    → Connected r m.tail start (after_handshake m later idx disk start handshake)
      × CursorsBehind (after_handshake m later idx disk start handshake).0
unfolding after_handshake finish_connect set_cursor release_cursor
after_handshake-Connected r m later idx disk start (err e) c g b word ahead =
    (released r m idx c, released-CursorsBehind r m idx c b word)
after_handshake-Connected r m later idx disk start (ok _) c g b word ahead =
    go (start_at m.tail m.capacity disk start) (start_at-Positioned m.tail m.capacity disk start)
      word
  where
    go :
        (x : Result Error (ℕ × Option WalReplayer))
        → Positioned m.tail start x
        → (finish_connect (later m) m.tail idx x).0.tail < cursor_unclaimed
        → Connected r m.tail start (finish_connect (later m) m.tail idx x)
          × CursorsBehind (finish_connect (later m) m.tail idx x).0
    go (ok (cursor, replay)) at w =
        finish_connect-ok r (later m) m.tail idx cursor replay start
          (Claims-meanwhile r m idx later g c) b (g.tail m) w at ahead
    go (err e) at w =
        let c' = Claims-meanwhile r m idx later g c in
        (released r (later m) idx c', released-CursorsBehind r (later m) idx c' b w)

after_claim-Connected :
    (r : Ring) (x : Ring × Option ℕ) (meanwhile later : Ring → Ring) (disk : List (ℕ × List ℕ))
    (start : StartPos) (handshake : Result Error (Unit {0}))
    → Claimed r x
    → GoesOn meanwhile
    → GoesOn later
    → CursorsBehind r
    → (after_claim x meanwhile later disk start handshake).0.tail < cursor_unclaimed
    → NotAhead (meanwhile x.0).tail start
    → Connected r (meanwhile x.0).tail start (after_claim x meanwhile later disk start handshake)
      × CursorsBehind (after_claim x meanwhile later disk start handshake).0
unfolding after_claim
after_claim-Connected r (q, none) meanwhile later disk start handshake same g l b word ahead =
    ((λ j. ap (λ (t : Ring). t.cursors j) same), subst CursorsBehind (sym same) b)
after_claim-Connected r (q, some idx) meanwhile later disk start handshake c g l b word ahead =
    after_handshake-Connected r (meanwhile q) later idx disk start handshake
      (Claims-meanwhile r q idx meanwhile g c) l b word ahead

-- The tail that `connect_with` loads after the handshake.
abbrev pub reloaded : Ring → (Ring → Ring) → ℕ
reloaded r meanwhile = (meanwhile (claim_cursor r r.tail).0).tail

-- `connect_with`, where no claimed cursor is ahead of the tail, and the position asked for is not
-- ahead of the tail after the handshake. The publisher may publish during the handshake and again
-- before the cursor is stored, but the tail does not go back, as it does where the publisher is
-- started again, the sizes stay, and nobody else changes the table. If it succeeds, one free cursor
-- is claimed, and without a replay it is at the subscriber's position, which is the one asked for,
-- counted from the tail after the handshake; if it fails, with whatever error, the table of cursors
-- is as it was. In either case no other cursor is moved, and again none is ahead of the tail.
pub connect_with-Connected :
    (r : Ring) (meanwhile later : Ring → Ring) (disk : List (ℕ × List ℕ)) (start : StartPos)
    (handshake : Result Error (Unit {0}))
    → GoesOn meanwhile
    → GoesOn later
    → CursorsBehind r
    → (connect_with r meanwhile later disk start handshake).0.tail < cursor_unclaimed
    → NotAhead (reloaded r meanwhile) start
    → Connected r (reloaded r meanwhile) start (connect_with r meanwhile later disk start handshake)
      × CursorsBehind (connect_with r meanwhile later disk start handshake).0
unfolding connect_with
connect_with-Connected r meanwhile later disk start handshake g l b word ahead =
    after_claim-Connected r (claim_cursor r r.tail) meanwhile later disk start handshake
      (claim_cursor-Claimed r r.tail) g l b word ahead
