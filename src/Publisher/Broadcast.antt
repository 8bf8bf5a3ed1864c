-- ===== src/Publisher/Broadcast.antt =====
-- `broadcast_wakeup` of crates/mmbus/src/publisher.rs: whom it wakes and whom it drops.
use mmbus.Prelude.{
  ℕ, zero, suc, ◌+◌, ◌≡◌, refl, ◌∙◌, Bool, List, [], ◌∷◌, ◌++◌, map, length, append-nil, arith,
  Permᴰ, All, Pairs, keep,
}
use mmbus.Ring.{Ring}
use mmbus.Publisher.{Client, Publisher, wake_loop, broadcast_wakeup}
use mmbus.Publisher.Woken.{IsApart, is_called, stays, Woke, Woke-done}
use mmbus.Publisher.Rounds.{At, visit-Woke}

wake_loop-Woke :
    (wake : ℕ → Bool) (r : Ring) (fuel : ℕ) (done rest : List Client) (p : Publisher)
    → length rest ≡ fuel
    → At r done rest p
    → Woke wake r done rest p (wake_loop wake fuel (length done) p)
unfolding wake_loop
wake_loop-Woke wake r zero done [] p e at = Woke-done wake r done p (at.clients ∙ append-nil done)
wake_loop-Woke wake r zero done (c ∷ cs) p e at = absurd (omega arith)
wake_loop-Woke wake r (suc fuel) done [] p e at = absurd (omega arith)
wake_loop-Woke wake r (suc fuel) done (c ∷ cs) p e at =
    visit-Woke wake r (λ j q. wake_loop wake fuel j q) fuel
      (λ done' rest' q size a. wake_loop-Woke wake r fuel done' rest' q size a) done c cs p
      (omega arith) at

broadcast_wakeup-Woke :
    (wake : ℕ → Bool) (p : Publisher)
    → Pairs IsApart p.clients
    → Woke wake p.ring [] p.clients p (broadcast_wakeup wake p)
unfolding broadcast_wakeup
broadcast_wakeup-Woke wake p apart =
    wake_loop-Woke wake p.ring (length p.clients) [] p.clients p refl
      (record { clients = refl; cursors = refl; flags = same p.clients; apart = apart })
  where
    same :
        (cs : List Client)
        → All (λ c. p.ring.wakeflags c.cursor_idx ≡ p.ring.wakeflags c.cursor_idx) cs
    same [] = tt
    same (c ∷ cs) = (refl, same cs)

-- After `broadcast_wakeup`, where no two clients have the same cursor index: the clients are, in
-- some order, those whose cursor is still claimed and whose peer was not found dead on being woken;
-- the channels that were signalled are, in some order, those of the clients with a claimed cursor
-- whose flag was set, each once, and `wakeups_sent_total` counts them; and
-- `subscribers_dropped_total` grows by the number of clients that are gone.
pub broadcast_wakeup-calls :
    (wake : ℕ → Bool) (p : Publisher)
    → Pairs IsApart p.clients
    → let q = broadcast_wakeup wake p in
      Permᴰ q.clients (keep (stays wake p.ring) p.clients)
      × ((added : List ℕ) × (q.woken ≡ p.woken ++ added)
          × Permᴰ added (map (λ c. c.wakeup) (keep (is_called p.ring) p.clients)))
      × (q.wakeups_sent_total ≡ p.wakeups_sent_total + length (keep (is_called p.ring) p.clients))
      × (q.subscribers_dropped_total + length q.clients
          ≡ p.subscribers_dropped_total + length p.clients)
broadcast_wakeup-calls wake p apart =
    let w = broadcast_wakeup-Woke wake p apart in
    (w.clients, w.woken, w.sent, omega (arith, w.dropped))
