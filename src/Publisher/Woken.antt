-- ===== src/Publisher/Woken.antt =====
-- What the loop of `broadcast_wakeup` of crates/mmbus/src/publisher.rs makes of the clients.
use mmbus.Prelude.{
  ℕ, ◌+◌, ◌≡◌, ◌≢◌, ◌⊎◌, inl, inr, refl, sym, ap, ◌∙◌, subst, Bool, true, false, not, ◌&&◌, ◌||◌,
  List, [], ◌∷◌, ◌++◌, map, length, append-nil, append_assoc, length-append, arith, ◌==◌, Permᴰ,
  keep, keep-Perm, map-Perm, length-Perm, keep_in, keep_out, last_to_front, last_to_front-Perm,
  length-last_to_front,
}
use mathlib.Core.List.Permᴰ
use mmbus.Ring.{Ring, take_wakeflag, cursor_is_unclaimed, wakeflag_waiting}
use mmbus.Publisher.{Client, Publisher, drop_client, send_wakeup}

abbrev pub IsApart : Client → Client → Type 0
IsApart c d = c.cursor_idx ≢ d.cursor_idx

-- The subscriber has announced that it is about to sleep.
abbrev pub is_waiting : Ring → Client → Bool
is_waiting r c = r.wakeflags c.cursor_idx == wakeflag_waiting

-- It has not left, and is to be woken.
abbrev pub is_called : Ring → Client → Bool
is_called r c = not (cursor_is_unclaimed r c.cursor_idx) && is_waiting r c

-- It has not left, and is not found dead when it is woken.
abbrev pub stays : (ℕ → Bool) → Ring → Client → Bool
stays wake r c = not (cursor_is_unclaimed r c.cursor_idx) && (not (is_waiting r c) || wake c.wakeup)

-- What the loop makes of the clients in `rest`, those of `done` being behind it; `r` is the ring at
-- the beginning.
pub record Woke (wake : ℕ → Bool) (r : Ring) (done rest : List Client) (p q : Publisher)
    : Type 0 where
  pub clients : Permᴰ q.clients (done ++ keep (stays wake r) rest)
  pub woken :
      (added : List ℕ) × (q.woken ≡ p.woken ++ added)
      × Permᴰ added (map (λ c. c.wakeup) (keep (is_called r) rest))
  pub sent : q.wakeups_sent_total ≡ p.wakeups_sent_total + length (keep (is_called r) rest)
  pub dropped :
      q.subscribers_dropped_total + length q.clients
      ≡ p.subscribers_dropped_total + length done + length rest
  pub flags : (j : ℕ) → (q.ring.wakeflags j ≡ p.ring.wakeflags j) ⊎ (q.ring.wakeflags j ≡ 0)
  rest_of_ring : q.ring ≡ record p.ring { wakeflags = q.ring.wakeflags }
  others :
      (q.wal ≡ p.wal)
      × (q.backpressure ≡ p.backpressure)
      × (q.published_total ≡ p.published_total)
      × (q.full_rejected_total ≡ p.full_rejected_total)

module _ (wake : ℕ → Bool) (r : Ring) where
  pub Woke-done : (done : List Client) (p : Publisher) → p.clients ≡ done → Woke wake r done [] p p
  Woke-done done p e = record {
    clients = subst (λ t. Permᴰ p.clients t) (e ∙ sym (append-nil done)) (Permᴰ.refl p.clients);
    woken = ([], sym (append-nil p.woken), Permᴰ.nil);
    sent = omega arith;
    dropped = omega (arith, ap length e);
    flags = λ j. inl refl;
    rest_of_ring = refl;
    others = (refl, refl, refl, refl);
  }

  -- What the tests say of a client.
  module _ (c : Client) where
    gone_stays : cursor_is_unclaimed r c.cursor_idx ≡ true → stays wake r c ≡ false
    gone_stays e = rw e refl

    gone_is_called : cursor_is_unclaimed r c.cursor_idx ≡ true → is_called r c ≡ false
    gone_is_called e = rw e refl

    here_is_called :
        (b : Bool)
        → cursor_is_unclaimed r c.cursor_idx ≡ false
        → is_waiting r c ≡ b
        → is_called r c ≡ b
    here_is_called b e f = rw e f

    awake_stays :
        cursor_is_unclaimed r c.cursor_idx ≡ false → is_waiting r c ≡ false → stays wake r c ≡ true
    awake_stays e f = rw (e, f) refl

    waiting_stays :
        (b : Bool)
        → cursor_is_unclaimed r c.cursor_idx ≡ false
        → is_waiting r c ≡ true
        → wake c.wakeup ≡ b
        → stays wake r c ≡ b
    waiting_stays b e f g = rw (e, f) g

  module _ (done : List Client) (c : Client) (cs : List Client) (p q : Publisher) where
    -- It has left, or is found dead: `p'` is `p` with its flag taken.
    pub Woke-reaped :
        (i : ℕ)
        → cursor_is_unclaimed r c.cursor_idx ≡ true
        → Woke wake r done (last_to_front cs) (drop_client p i) q
        → Woke wake r done (c ∷ cs) p q
    unfolding drop_client
    Woke-reaped i gone w =
        let (added, e, perm) = w.woken in
        let moved = last_to_front-Perm cs in
        let out = keep_out (stays wake r) c cs (gone_stays c gone) in
        let quiet = keep_out (is_called r) c cs (gone_is_called c gone) in
        record {
          clients =
              rw out
                (Permᴰ.trans w.clients (Permᴰ.append_left done (keep-Perm (stays wake r) moved)));
          woken = (
            added,
            e,
            rw quiet (Permᴰ.trans perm (map-Perm (λ c. c.wakeup) (keep-Perm (is_called r) moved))),
          );
          sent = rw quiet (omega (arith, w.sent, length-Perm (keep-Perm (is_called r) moved)));
          dropped = omega (arith, w.dropped, length-last_to_front cs);
          flags = w.flags;
          rest_of_ring = w.rest_of_ring;
          others = w.others;
        }

    unfoldable pub taken : Publisher
    unfolding take_wakeflag
    taken = record p { ring = (take_wakeflag p.ring c.cursor_idx).0 }

    taken_flags :
        (q : Publisher) (j : ℕ)
        → (q.ring.wakeflags j ≡ taken.ring.wakeflags j) ⊎ (q.ring.wakeflags j ≡ 0)
        → (q.ring.wakeflags j ≡ p.ring.wakeflags j) ⊎ (q.ring.wakeflags j ≡ 0)
    unfolding taken take_wakeflag
    taken_flags q j (inr e) = inr e
    taken_flags q j (inl e) = ground arith

    -- It is awake.
    pub Woke-awake :
        cursor_is_unclaimed r c.cursor_idx ≡ false
        → is_waiting r c ≡ false
        → Woke wake r (done ++ (c ∷ [])) cs taken q
        → Woke wake r done (c ∷ cs) p q
    unfolding taken take_wakeflag
    Woke-awake here awake w =
        let stay = keep_in (stays wake r) c cs (awake_stays c here awake) in
        let quiet = keep_out (is_called r) c cs (here_is_called c false here awake) in
        record {
          clients = rw (stay) (rw (append_assoc) at w.clients);
          woken = rw quiet w.woken;
          sent = rw quiet w.sent;
          dropped = omega (arith, w.dropped, length-append done (c ∷ []));
          flags = λ j. taken_flags q j (w.flags j);
          rest_of_ring = w.rest_of_ring;
          others = w.others;
        }

    -- It is woken.
    woken_head :
        (o : Publisher)
        → o.woken ≡ p.woken ++ (c.wakeup ∷ [])
        → (ls ms : List Client) → ls ≡ c ∷ ms
        → (added : List ℕ) × (q.woken ≡ o.woken ++ added) × Permᴰ added (map (λ c. c.wakeup) ms)
        → (added : List ℕ) × (q.woken ≡ p.woken ++ added) × Permᴰ added (map (λ c. c.wakeup) ls)
    woken_head o is ls ms split (added, e, perm) = (
      c.wakeup ∷ added,
      e ∙ ap (λ t. t ++ added) is ∙ append_assoc p.woken (c.wakeup ∷ []) added,
      rw split (Permᴰ.cons refl perm),
    )

    pub Woke-woken :
        cursor_is_unclaimed r c.cursor_idx ≡ false
        → is_waiting r c ≡ true
        → wake c.wakeup ≡ true
        → Woke wake r (done ++ (c ∷ [])) cs (send_wakeup p taken.ring c) q
        → Woke wake r done (c ∷ cs) p q
    unfolding taken take_wakeflag send_wakeup
    Woke-woken here asleep alive w =
        let stay = keep_in (stays wake r) c cs (waiting_stays c true here asleep alive) in
        let called = keep_in (is_called r) c cs (here_is_called c true here asleep) in
        record {
          clients = rw (stay) (rw (append_assoc) at w.clients);
          woken =
              woken_head (send_wakeup p taken.ring c) refl _ (keep (is_called r) cs) called w.woken;
          sent = rw called (omega (arith, w.sent));
          dropped = omega (arith, w.dropped, length-append done (c ∷ []));
          flags = λ j. taken_flags q j (w.flags j);
          rest_of_ring = w.rest_of_ring;
          others = w.others;
        }

    pub Woke-dead :
        (i : ℕ)
        → cursor_is_unclaimed r c.cursor_idx ≡ false
        → is_waiting r c ≡ true
        → wake c.wakeup ≡ false
        → Woke wake r done (last_to_front cs) (drop_client (send_wakeup p taken.ring c) i) q
        → Woke wake r done (c ∷ cs) p q
    unfolding taken take_wakeflag send_wakeup drop_client
    Woke-dead i here asleep dead w =
        let moved = last_to_front-Perm cs in
        let out = keep_out (stays wake r) c cs (waiting_stays c false here asleep dead) in
        let called = keep_in (is_called r) c cs (here_is_called c true here asleep) in
        let (added, e, perm) = w.woken in
        record {
          clients =
              rw out
                (Permᴰ.trans w.clients (Permᴰ.append_left done (keep-Perm (stays wake r) moved)));
          woken = woken_head (send_wakeup p taken.ring c) refl _ (keep (is_called r) cs) called (
            added,
            e,
            Permᴰ.trans perm (map-Perm (λ c. c.wakeup) (keep-Perm (is_called r) moved)),
          );
          sent = rw called (omega (arith, w.sent, length-Perm (keep-Perm (is_called r) moved)));
          dropped = omega (arith, w.dropped, length-last_to_front cs);
          flags = λ j. taken_flags q j (w.flags j);
          rest_of_ring = w.rest_of_ring;
          others = w.others;
        }
