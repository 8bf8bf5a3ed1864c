-- ===== src/Wakeup/Missed.antt =====
-- No wakeup is missed between publisher.rs and subscriber.rs of crates/mmbus/src.
use mmbus.Prelude.{ℕ, ◌<◌, ◌≡◌, ◌⊎◌, inl, inr, refl, List, [], ◌∷◌, append-nil, arith}
use mmbus.Ring.{wakeflag_waiting, publish_ops}
use mmbus.Publisher.{Client}
use mmbus.Wakeup.{
  idle, looping, running, armed, sleeping, woken, clearing, System, Step, publish, reap, probe,
  take, wake, wake_fails, finish, read, arm, unread, sleep, drain, give_up, resume, wake_up, clear,
  leave, IsStart, Reach, start, later, Has,
}
use mmbus.Wakeup.Alarm.{rest_of, Calls, Good-publish}
use mmbus.Wakeup.Whole.{Inv, apply_all-tables}
use mmbus.Wakeup.Keeps.{at_stage, take-Inv, wake-Inv, reap-Inv, wake_fails-Inv}
use mmbus.Wakeup.Own.{
  read-Inv, arm-Inv, sleep-Inv, drain-Inv, clear-Inv, leave-Inv, phase-Inv, alarm_at,
}
use mmbus.Wakeup.Moves.{Good-probe, Good-finish}

-- Each step keeps every alarm.
Step-Inv :
    (channel : ℕ → ℕ)
    → ((i j : ℕ) → channel i ≡ channel j → i ≡ j)
    → {s t : System} → Step channel s t
    → Inv channel s
    → Inv channel t
Step-Inv channel apart {s} (publish clients bytes e word) (m, g) =
    let (m', g') = at_stage channel apart s m g (idle clients) e in
    (
      m',
      λ i.
          let (flags, cursors) = apply_all-tables s.ring (publish_ops s.ring bytes) in
          rw (flags, cursors)
            (Good-publish i _ _ _ _ _ [] (record { cursor_idx = 0; wakeup = 0 }) [] clients _ _
              (g' i)),
    )
Step-Inv channel apart {s} (reap done c rest e free) (m, g) =
    reap-Inv channel apart s m g done c rest e free
Step-Inv channel apart {s} (probe done c rest e here) (m, g) =
    let (m', g') = at_stage channel apart s m g (looping done (c ∷ rest)) e in
    (m', λ i. Good-probe i _ _ _ _ _ done c rest _ (g' i))
Step-Inv channel apart {s} (take done c rest e) (m, g) = take-Inv channel apart s m g done c rest e
Step-Inv channel apart {s} (wake done c rest e) (m, g) = wake-Inv channel apart s m g done c rest e
Step-Inv channel apart {s} (wake_fails done c rest e dead) (m, g) =
    wake_fails-Inv channel apart s m g done c rest e dead
Step-Inv channel apart {s} (finish done e) (m, g) =
    let (m', g') = at_stage channel apart s m g (looping done []) e in
    (
      rw (append-nil) at m',
      λ i. Good-finish i _ _ _ _ _ done (record { cursor_idx = 0; wakeup = 0 }) [] _ (g' i),
    )
Step-Inv channel apart {s} (read i n ph fits) (m, g) = read-Inv channel apart s m g i n ph fits
Step-Inv channel apart {s} (arm i ph) (m, g) = arm-Inv channel apart s m g i ph
Step-Inv channel apart {s} (unread i ph behind) (m, g) =
    phase-Inv channel apart s m g i armed clearing ph (λ e. cc) tt
Step-Inv channel apart {s} (sleep i ph none_left) (m, g) =
    sleep-Inv channel apart s m g i ph none_left
Step-Inv channel apart {s} (drain i ph some) (m, g) = drain-Inv channel apart s m g i ph
Step-Inv channel apart {s} (give_up i ph) (m, g) =
    phase-Inv channel apart s m g i sleeping clearing ph (λ e. cc) tt
Step-Inv channel apart {s} (resume i ph) (m, g) =
    phase-Inv channel apart s m g i woken running ph (λ e. cc) tt
Step-Inv channel apart {s} (wake_up i ph) (m, g) =
    phase-Inv channel apart s m g i woken clearing ph (λ e. cc) tt
Step-Inv channel apart {s} (clear i ph) (m, g) = clear-Inv channel apart s m g i ph
Step-Inv channel apart {s} (leave i here) (m, g) = leave-Inv channel apart s m g i

start-Inv :
    (channel : ℕ → ℕ) (clients : List Client) (s : System)
    → IsStart channel clients s
    → Inv channel s
start-Inv channel clients s st = (
  rw (st.idle) st.matched,
  λ i. elim (st.connected i) [
    | inl g ↦ rw g (tt, inl refl)
    | inr (ph, claimed, here) ↦ rw (ph, st.idle) (tt, inr (claimed, here))
  ],
)

Reach-Inv :
    (channel : ℕ → ℕ)
    → ((i j : ℕ) → channel i ≡ channel j → i ≡ j)
    → {s t : System} → Reach channel s t
    → Inv channel s
    → Inv channel t
Reach-Inv channel apart start inv = inv
Reach-Inv channel apart (later r st) inv = Step-Inv channel apart st (Reach-Inv channel apart r inv)

-- No wakeup is missed. From a state in which every subscriber has claimed its cursor and is one of
-- the publisher's clients, each on a channel of its own, and whatever the subscribers and the
-- publisher do, in any order: when a subscriber sleeps and a message that it has not read is in the
-- ring, it has a signal, or the publisher is still in the loop of `broadcast_wakeup`, with the
-- subscriber's flag set before it or the signal about to be sent.
pub Reach-not_missed :
    (channel : ℕ → ℕ) (clients : List Client) (s t : System) (i : ℕ)
    → ((i j : ℕ) → channel i ≡ channel j → i ≡ j)
    → IsStart channel clients s
    → Reach channel s t
    → t.phase i ≡ sleeping
    → t.cursor i < t.ring.tail
    → (0 < t.signals (channel i))
      ⊎ (((t.ring.wakeflags i ≡ wakeflag_waiting) × Has i (rest_of t.stage)) ⊎ Calls i t.stage)
Reach-not_missed channel clients s t i apart st r asleep behind =
    let (m, g) = Reach-Inv channel apart r (start-Inv channel clients s st) in
    elim (alarm_at channel apart t m g i sleeping asleep) [
      | inl (set, inl le) ↦ absurd (omega arith)
      | inl (set, inr h) ↦ inr (inl (set, h))
      | inr (inl h) ↦ inr (inr h)
      | inr (inr some) ↦ inl some
    ]
