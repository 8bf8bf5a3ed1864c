-- ===== src/Wakeup/Runs.antt =====
-- A run of the eventcount: a subscriber goes to sleep, and a message is published.
use mmbus.Prelude.{update, ◌≢◌, zero, suc, ℕ, ◌<◌, ◌≡◌, ◌⊎◌, inl, inr, refl, arith, [], ◌∷◌}
use mmbus.Ring.{
  Ring, create, set_cursor, set_wakeflag, wakeflag_waiting, apply_all, publish_ops,
  cursor_unclaimed,
}
use mmbus.Ring.Unread.{publish_ops-tail}
use mmbus.Publisher.{Client}
use mmbus.Wakeup.{
  Phase, idle, looping, running, armed, sleeping, gone, System, publish, sleep, arm, IsStart, Reach,
  start, later, Has,
}
use mmbus.Wakeup.Alarm.{rest_of, Calls}
use mmbus.Wakeup.Missed.{Reach-not_missed}

abbrev only : Client
only = record { cursor_idx = 0; wakeup = 0 }

-- Subscriber 0 has read all there is; the others have never come.
abbrev phases : ℕ → Phase
phases zero = running
phases (suc j) = gone

abbrev begun : System
begun = record {
  ring = set_cursor (create 4 8 2) 0 0;
  stage = idle (only ∷ []);
  signals = λ i. 0;
  cursor = λ i. 0;
  phase = phases;
}

begun-IsStart : IsStart (λ i. i) (only ∷ []) begun
unfolding set_cursor create
begun-IsStart = record { idle = refl; matched = (refl, tt); connected = connected }
  where
    connected :
        (i : ℕ)
        → (begun.phase i ≡ gone)
          ⊎ ((begun.phase i ≡ running)
              × (begun.ring.cursors i ≢ cursor_unclaimed)
              × Has i (only ∷ []))
    connected zero = inr (refl, (λ e. omega (arith, e)), inl refl)
    connected (suc j) = inl refl

abbrev armed_ring : Ring
armed_ring = set_wakeflag begun.ring 0

abbrev published : System
published = record {
  ring = apply_all armed_ring (publish_ops armed_ring (5 ∷ []));
  stage = looping [] (only ∷ []);
  signals = λ i. 0;
  cursor = λ i. 0;
  phase = update (update phases 0 armed) 0 sleeping;
}

published-Reach : Reach (λ i. i) begun published
unfolding set_cursor create set_wakeflag
published-Reach =
    later (later (later start (arm 0 refl)) (sleep 0 refl (omega arith)))
      (publish (only ∷ []) (5 ∷ []) refl (omega arith))

published-behind : published.cursor 0 < published.ring.tail
unfolding set_cursor create set_wakeflag
published-behind = omega (arith, publish_ops-tail armed_ring (5 ∷ []))

Reach-not_missed_example :
    (0 < published.signals 0)
    ⊎ (((published.ring.wakeflags 0 ≡ wakeflag_waiting) × Has 0 (rest_of published.stage))
        ⊎ Calls 0 published.stage)
Reach-not_missed_example =
    Reach-not_missed (λ i. i) (only ∷ []) begun published 0 (λ i j e. e) begun-IsStart
      published-Reach refl published-behind
