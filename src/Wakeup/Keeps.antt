-- ===== src/Wakeup/Keeps.antt =====
-- The steps of the publisher (crates/mmbus/src/publisher.rs) keep the invariant of the eventcount.
use mmbus.Prelude.{
  ℕ, ◌+◌, ◌≤◌, ◌≡◌, inr, refl, sym, subst, ap, ◌∙◌, true, List, [], ◌∷◌, ◌++◌, append_assoc, arith,
  ◌==◌, last_to_front, ==_iff, ℕ_discrete, update, update_self, update_ne,
}
use mmbus.Ring.{wakeflag_waiting, take_wakeflag, cursor_is_unclaimed}
use mmbus.Publisher.{Client}
use mmbus.Wakeup.{Stage, looping, probed, calling, Phase, gone, System, after_take, Matched}
use mmbus.Wakeup.Alarm.{all_of, Good, Good-reap}
use mmbus.Wakeup.Moves.{Good-take_own, Good-take_other, Good-wake, Good-wake_fails}
use mmbus.Wakeup.Whole.{AllGood, Inv, by_index, Matched-removed, Matched-at, all_of-after_take}

module _ (channel : ℕ → ℕ) (apart : (i j : ℕ) → channel i ≡ channel j → i ≡ j) (s : System)
    (m : Matched channel (all_of s.stage)) (g : AllGood channel s) where
  -- The stage is `st`.
  pub at_stage :
      (st : Stage)
      → s.stage ≡ st
      → Matched channel (all_of st)
        × ((i : ℕ)
            → Good i st
                (s.ring.wakeflags i)
                s.ring.tail
                (s.ring.cursors i)
                (s.cursor i)
                (s.signals (channel i))
                (s.phase i))
  at_stage st e = (
    subst (λ t. Matched channel (all_of t)) e m,
    λ i.
        subst
          (λ t.
            Good i t (s.ring.wakeflags i) s.ring.tail (s.ring.cursors i) (s.cursor i)
              (s.signals (channel i)) (s.phase i))
          e (g i),
  )

  pub take-Inv :
      (done : List Client) (c : Client) (rest : List Client)
      → s.stage ≡ probed done c rest
      → Inv channel (record s {
        ring = (take_wakeflag s.ring c.cursor_idx).0;
        stage = after_take (take_wakeflag s.ring c.cursor_idx).1 done c rest;
      })
  unfolding take_wakeflag
  take-Inv done c rest e =
      let (m', g') = at_stage (probed done c rest) e in
      (
        rw
            (all_of-after_take channel (s.ring.wakeflags c.cursor_idx == wakeflag_waiting) done c
              rest)
            m',
        by_index c.cursor_idx _
            (rw (update_self s.ring.wakeflags c.cursor_idx 0)
              (Good-take_own c.cursor_idx _ _ _ _ _ done c rest _ refl (g' c.cursor_idx)))
            (λ i ne.
              rw (update_ne s.ring.wakeflags c.cursor_idx i 0 ne)
                (Good-take_other i _ _ _ _ _ done c rest _ _ ne (g' i))),
      )

  pub wake-Inv :
      (done : List Client) (c : Client) (rest : List Client)
      → s.stage ≡ calling done c rest
      → Inv channel (record s {
        stage = looping (done ++ (c ∷ [])) rest;
        signals = update s.signals c.wakeup (s.signals c.wakeup + 1);
      })
  wake-Inv done c rest e =
      let (m', g') = at_stage (calling done c rest) e in
      (
        rw (append_assoc) m',
        λ i.
            Good-wake i _ _ _ _ (s.signals (channel i)) done c rest _ _
              (λ same.
                let to : c.wakeup ≡ channel i =
                  Matched-at channel done c rest m' ∙ ap channel same in
                rw (to, update_self s.signals (channel i) (s.signals (channel i) + 1))
                  (omega arith))
              (more c.wakeup (channel i)) (g' i),
      )
    where
      more : (j k : ℕ) → s.signals k ≤ update s.signals j (s.signals j + 1) k
      more j k = elim (ℕ_discrete j k) [
        | yes same ↦ rw (same, update_self s.signals k (s.signals k + 1)) (omega arith)
        | no ne ↦ rw (update_ne s.signals j k (s.signals j + 1) ne) (omega arith)
      ]

  removed-Inv :
      (done : List Client) (c : Client) (rest : List Client) (st : Stage)
      → s.stage ≡ st
      → all_of st ≡ done ++ (c ∷ rest)
      → ((i : ℕ) (flag tail claim cursor signals : ℕ) (ph : Phase)
          → (c.cursor_idx ≡ i → (ph ≡ s.phase i) × (claim ≡ s.ring.cursors i))
          → Good i st flag tail claim cursor signals ph
          → Good i (looping done (last_to_front rest)) flag tail claim cursor signals ph)
      → Inv channel (record s { stage = looping done (last_to_front rest) })
  removed-Inv done c rest st e all step =
      let (m', g') = at_stage st e in
      (
        Matched-removed channel done c rest (subst (Matched channel) all m'),
        λ i. step i _ _ _ _ _ _ (λ _. (refl, refl)) (g' i),
      )

  pub reap-Inv :
      (done : List Client) (c : Client) (rest : List Client)
      → s.stage ≡ looping done (c ∷ rest)
      → cursor_is_unclaimed s.ring c.cursor_idx ≡ true
      → Inv channel (record s { stage = looping done (last_to_front rest) })
  unfolding cursor_is_unclaimed
  reap-Inv done c rest e free =
      removed-Inv done c rest (looping done (c ∷ rest)) e refl
        (λ i flag tail claim cursor signals ph here good.
          Good-reap i flag tail claim cursor signals done c rest ph
            (λ same. inr ((here same).1 ∙ ap s.ring.cursors (sym same) ∙ (==_iff _ _).0 free)) good)

  pub wake_fails-Inv :
      (done : List Client) (c : Client) (rest : List Client)
      → s.stage ≡ calling done c rest
      → s.phase c.cursor_idx ≡ gone
      → Inv channel (record s { stage = looping done (last_to_front rest) })
  wake_fails-Inv done c rest e dead =
      removed-Inv done c rest (calling done c rest) e refl
        (λ i flag tail claim cursor signals ph here good.
          Good-wake_fails i flag tail claim cursor signals done c rest ph
            (λ same. (here same).0 ∙ ap s.phase (sym same) ∙ dead) good)
