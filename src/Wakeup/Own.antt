-- ===== src/Wakeup/Own.antt =====
-- The steps of a subscriber (crates/mmbus/src/subscriber.rs) keep the invariant of the eventcount.
use mmbus.Prelude.{
  ℕ, ◌-◌, ◌≤◌, ◌<◌, ◌≡◌, ◌≢◌, inl, inr, refl, sym, subst, ◌∙◌, arith, update, update_self,
  update_ne,
}
use mmbus.Ring.{
  cursor_unclaimed, wakeflag_waiting, set_wakeflag, clear_wakeflag, set_cursor, release_cursor,
}
use mmbus.Wakeup.{Phase, running, armed, sleeping, woken, clearing, gone, System, Has, Matched}
use mmbus.Wakeup.Alarm.{all_of, Alarmed, Good}
use mmbus.Wakeup.Whole.{AllGood, Inv, by_index}

module _ (channel : ℕ → ℕ) (apart : (i j : ℕ) → channel i ≡ channel j → i ≡ j) (s : System)
    (m : Matched channel (all_of s.stage)) (g : AllGood channel s) where
  -- A step of the subscriber `j` that changes its own part of the state.
  own-Inv :
      (j : ℕ) (t : System)
      → t.stage ≡ s.stage
      → t.ring.tail ≡ s.ring.tail
      → ((i : ℕ)
          → j ≢ i
          → (t.ring.wakeflags i ≡ s.ring.wakeflags i)
            × (t.ring.cursors i ≡ s.ring.cursors i)
            × (t.cursor i ≡ s.cursor i)
            × (t.signals (channel i) ≡ s.signals (channel i))
            × (t.phase i ≡ s.phase i))
      → Good j s.stage
          (t.ring.wakeflags j)
          s.ring.tail
          (t.ring.cursors j)
          (t.cursor j)
          (t.signals (channel j))
          (t.phase j)
      → Inv channel t
  own-Inv j t st tail others own = (
    rw st m,
    rw (st, tail)
        (by_index j _ own (λ i ne. let (a, b, c, d, e) = others i ne in rw (a, b, c, d, e) (g i))),
  )

  linked_at :
      (j : ℕ) (ph : Phase)
      → s.phase j ≡ ph
      → ph ≢ gone
      → (s.ring.cursors j ≢ cursor_unclaimed) × Has j (all_of s.stage)
  linked_at j ph e there = elim (g j).1 [ inl g ↦ absurd (there (sym e ∙ g)) | inr l ↦ l ]

  -- The subscriber `j` goes to a phase in which it does not wait, with whatever else of its own.
  up-Inv :
      (j : ℕ) (t : System) (before after : Phase)
      → s.phase j ≡ before
      → before ≢ gone
      → t.stage ≡ s.stage
      → t.ring.tail ≡ s.ring.tail
      → ((i : ℕ)
          → j ≢ i
          → (t.ring.wakeflags i ≡ s.ring.wakeflags i)
            × (t.ring.cursors i ≡ s.ring.cursors i)
            × (t.cursor i ≡ s.cursor i)
            × (t.signals (channel i) ≡ s.signals (channel i))
            × (t.phase i ≡ s.phase i))
      → t.phase j ≡ after
      → Alarmed j s.stage
          (t.ring.wakeflags j)
          s.ring.tail
          (t.cursor j)
          (t.signals (channel j))
          after
      → t.ring.cursors j ≢ cursor_unclaimed
      → Inv channel t
  up-Inv j t before after e there st tail others ph up claimed =
      own-Inv j t st tail others (rw ph (up, inr (claimed, (linked_at j before e there).1)))

  -- Only the phase changes.
  pub phase-Inv :
      (j : ℕ) (before after : Phase)
      → s.phase j ≡ before
      → before ≢ gone
      → Alarmed j s.stage
          (s.ring.wakeflags j)
          s.ring.tail
          (s.cursor j)
          (s.signals (channel j))
          after
      → Inv channel (record s { phase = update s.phase j after })
  phase-Inv j before after e there up =
      up-Inv j (record s { phase = update s.phase j after }) before after e there refl refl
        (λ i ne. (refl, refl, refl, refl, update_ne s.phase j i after ne))
        (update_self s.phase j after) up (linked_at j before e there).0

  -- What it had in its phase.
  pub alarm_at :
      (j : ℕ) (ph : Phase)
      → s.phase j ≡ ph
      → Alarmed j s.stage (s.ring.wakeflags j) s.ring.tail (s.cursor j) (s.signals (channel j)) ph
  alarm_at j ph e =
      subst
        (λ t.
          Alarmed j s.stage (s.ring.wakeflags j) s.ring.tail (s.cursor j) (s.signals (channel j)) t)
        e (g j).0

  pub read-Inv :
      (j n : ℕ)
      → s.phase j ≡ running
      → n < cursor_unclaimed
      → Inv channel (record s { ring = set_cursor s.ring j n; cursor = update s.cursor j n })
  unfolding set_cursor
  read-Inv j n e fits =
      up-Inv j (record s { ring = set_cursor s.ring j n; cursor = update s.cursor j n }) running
        running e (λ e. cc) refl refl
        (λ i ne. (refl, update_ne s.ring.cursors j i n ne, update_ne s.cursor j i n ne, refl, refl))
        e tt (rw (update_self s.ring.cursors j n) (λ h. omega (arith, h, fits)))

  pub arm-Inv :
      (j : ℕ)
      → s.phase j ≡ running
      → Inv channel (record s { ring = set_wakeflag s.ring j; phase = update s.phase j armed })
  unfolding set_wakeflag
  arm-Inv j e =
      up-Inv j (record s { ring = set_wakeflag s.ring j; phase = update s.phase j armed }) running
        armed e (λ e. cc) refl refl
        (λ i ne. (
          update_ne s.ring.wakeflags j i wakeflag_waiting ne,
          refl,
          refl,
          refl,
          update_ne s.phase j i armed ne,
        ))
        (update_self s.phase j armed) (inl (update_self s.ring.wakeflags j wakeflag_waiting))
        (linked_at j running e (λ e. cc)).0

  pub sleep-Inv :
      (j : ℕ)
      → s.phase j ≡ armed
      → s.ring.tail ≤ s.cursor j
      → Inv channel (record s { phase = update s.phase j sleeping })
  sleep-Inv j e le =
      phase-Inv j armed sleeping e (λ e. cc)
        (elim (alarm_at j armed e) [ inl set ↦ inl (set, inl le) | inr h ↦ inr h ])

  pub drain-Inv :
      (j : ℕ)
      → s.phase j ≡ sleeping
      → Inv channel (record s {
        signals = update s.signals (channel j) (s.signals (channel j) - 1);
        phase = update s.phase j woken;
      })
  drain-Inv j e =
      up-Inv j
        (record s {
          signals = update s.signals (channel j) (s.signals (channel j) - 1);
          phase = update s.phase j woken;
        })
        sleeping woken e (λ e. cc) refl refl
        (λ i ne. (
          refl,
          refl,
          refl,
          update_ne s.signals (channel j) (channel i) (s.signals (channel j) - 1)
              (λ same. ne (apart j i same)),
          update_ne s.phase j i woken ne,
        ))
        (update_self s.phase j woken) tt (linked_at j sleeping e (λ e. cc)).0

  pub clear-Inv :
      (j : ℕ)
      → s.phase j ≡ clearing
      → Inv channel (record s { ring = clear_wakeflag s.ring j; phase = update s.phase j running })
  unfolding clear_wakeflag
  clear-Inv j e =
      up-Inv j (record s { ring = clear_wakeflag s.ring j; phase = update s.phase j running })
        clearing running e (λ e. cc) refl refl
        (λ i ne.
          (update_ne s.ring.wakeflags j i 0 ne, refl, refl, refl, update_ne s.phase j i running ne))
        (update_self s.phase j running) tt (linked_at j clearing e (λ e. cc)).0

  pub leave-Inv :
      (j : ℕ)
      → Inv channel (record s { ring = release_cursor s.ring j; phase = update s.phase j gone })
  unfolding release_cursor
  leave-Inv j =
      own-Inv j (record s { ring = release_cursor s.ring j; phase = update s.phase j gone }) refl
        refl
        (λ i ne. (
          refl,
          update_ne s.ring.cursors j i cursor_unclaimed ne,
          refl,
          refl,
          update_ne s.phase j i gone ne,
        ))
        (rw (update_self s.phase j gone) (tt, inl refl))
