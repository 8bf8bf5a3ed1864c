-- ===== src/Wakeup/Moves.antt =====
-- The publisher's steps of the eventcount, from `take_wakeflag` to the end of the loop
-- (crates/mmbus/src/publisher.rs): no waiting subscriber is left without its alarm.
use mmbus.Prelude.{
  ℕ, ◌≤◌, ◌<◌, ◌≡◌, ◌≢◌, inl, inr, refl, Bool, true, false, List, [], ◌∷◌, ◌++◌, append-nil,
  append_assoc, arith, ◌==◌, last_to_front, last_to_front-Perm, Bool-cases,
}
use mathlib.Core.List.Permᴰ
use mmbus.Ring.{wakeflag_waiting}
use mmbus.Publisher.{Client}
use mmbus.Wakeup.{
  idle, looping, probed, calling, Phase, running, armed, sleeping, woken, clearing, gone,
  after_take,
}
use mmbus.Wakeup.Alarm.{Alarmed, Good, Has-Perm, Linked-removed, sleeping-ne-gone, armed-ne-gone}

module _ (i : ℕ) (flag tail claim cursor signals : ℕ) (done : List Client) (c : Client)
    (rest : List Client) where
  pub Good-probe :
      (ph : Phase)
      → Good i (looping done (c ∷ rest)) flag tail claim cursor signals ph
      → Good i (probed done c rest) flag tail claim cursor signals ph
  Good-probe sleeping g = g
  Good-probe armed g = g
  Good-probe running g = g
  Good-probe woken g = g
  Good-probe clearing g = g
  Good-probe gone g = g

  -- Its own flag is taken, or another's.
  pub Good-take_own :
      (ph : Phase)
      → c.cursor_idx ≡ i
      → Good i (probed done c rest) flag tail claim cursor signals ph
      → Good i (after_take (flag == wakeflag_waiting) done c rest) 0 tail claim cursor signals ph
  unfolding after_take
  Good-take_own ph same g = elim (Bool-cases (flag == wakeflag_waiting)) [
    | inl set ↦ rw set (called ph g.0, g.1)
    | inr unset ↦
        let ne : flag ≢ wakeflag_waiting = λ e. absurd (ground (arith, unset, e)) in
        rw unset (quiet ne ph g.0, rw (append_assoc) g.1)
  ]
    where
      called :
          (ph : Phase)
          → Alarmed i (probed done c rest) flag tail cursor signals ph
          → Alarmed i (calling done c rest) 0 tail cursor signals ph
      called sleeping a = inr (inl same)
      called armed a = inr (inl same)
      called running a = tt
      called woken a = tt
      called clearing a = tt
      called gone a = tt

      quiet :
          flag ≢ wakeflag_waiting
          → (ph : Phase) → Alarmed i (probed done c rest) flag tail cursor signals ph
          → Alarmed i (looping (done ++ (c ∷ [])) rest) 0 tail cursor signals ph
      quiet ne sleeping (inl (set, h)) = absurd (ne set)
      quiet ne sleeping (inr h) = inr h
      quiet ne armed (inl set) = absurd (ne set)
      quiet ne armed (inr h) = inr h
      quiet ne running a = tt
      quiet ne woken a = tt
      quiet ne clearing a = tt
      quiet ne gone a = tt

  pub Good-take_other :
      (b : Bool) (ph : Phase)
      → c.cursor_idx ≢ i
      → Good i (probed done c rest) flag tail claim cursor signals ph
      → Good i (after_take b done c rest) flag tail claim cursor signals ph
  unfolding after_take
  Good-take_other b ph ne (a, l) = go b (seen ph a)
    where
      seen :
          (ph : Phase)
          → Alarmed i (probed done c rest) flag tail cursor signals ph
          → Alarmed i (looping (done ++ (c ∷ [])) rest) flag tail cursor signals ph
      seen sleeping (inl (set, inl le)) = inl (set, inl le)
      seen sleeping (inl (set, inr (inl same))) = absurd (ne same)
      seen sleeping (inl (set, inr (inr h))) = inl (set, inr h)
      seen sleeping (inr h) = inr h
      seen armed a = a
      seen running a = a
      seen woken a = a
      seen clearing a = a
      seen gone a = a

      call :
          (ph : Phase)
          → Alarmed i (looping (done ++ (c ∷ [])) rest) flag tail cursor signals ph
          → Alarmed i (calling done c rest) flag tail cursor signals ph
      call sleeping (inl h) = inl h
      call sleeping (inr (inr h)) = inr (inr h)
      call armed (inl h) = inl h
      call armed (inr (inr h)) = inr (inr h)
      call sleeping (inr (inl e)) = absurd e
      call armed (inr (inl e)) = absurd e
      call running a = a
      call woken a = a
      call clearing a = a
      call gone a = a

      go :
          (b : Bool)
          → Alarmed i (looping (done ++ (c ∷ [])) rest) flag tail cursor signals ph
          → Good i (after_take b done c rest) flag tail claim cursor signals ph
      go true a = (call ph a, l)
      go false a = (a, rw (append_assoc) l)

  pub Good-wake :
      (signals' : ℕ) (ph : Phase)
      → (c.cursor_idx ≡ i → 0 < signals')
      → signals ≤ signals'
      → Good i (calling done c rest) flag tail claim cursor signals ph
      → Good i (looping (done ++ (c ∷ [])) rest) flag tail claim cursor signals' ph
  Good-wake signals' ph mine le (a, l) = (go ph a, rw (append_assoc) l)
    where
      go :
          (ph : Phase)
          → Alarmed i (calling done c rest) flag tail cursor signals ph
          → Alarmed i (looping (done ++ (c ∷ [])) rest) flag tail cursor signals' ph
      go sleeping (inl h) = inl h
      go sleeping (inr (inl same)) = inr (inr (mine same))
      go sleeping (inr (inr some)) = inr (inr (omega (arith, some)))
      go armed (inl h) = inl h
      go armed (inr (inl same)) = inr (inr (mine same))
      go armed (inr (inr some)) = inr (inr (omega (arith, some)))
      go running a = a
      go woken a = a
      go clearing a = a
      go gone a = a

  pub Good-wake_fails :
      (ph : Phase)
      → (c.cursor_idx ≡ i → ph ≡ gone)
      → Good i (calling done c rest) flag tail claim cursor signals ph
      → Good i (looping done (last_to_front rest)) flag tail claim cursor signals ph
  Good-wake_fails ph dead (a, l) = (
    go ph dead a,
    Linked-removed i flag tail claim cursor signals done c rest ph (calling done c rest)
        (λ e. inl (dead e)) refl l,
  )
    where
      go :
          (ph : Phase)
          → (c.cursor_idx ≡ i → ph ≡ gone)
          → Alarmed i (calling done c rest) flag tail cursor signals ph
          → Alarmed i (looping done (last_to_front rest)) flag tail cursor signals ph
      go sleeping dead (inl (set, inl le)) = inl (set, inl le)
      go sleeping dead (inl (set, inr h)) =
          inl (set, inr (Has-Perm i (Permᴰ.symm (last_to_front-Perm rest)) h))
      go sleeping dead (inr (inl same)) = absurd (sleeping-ne-gone (dead same))
      go sleeping dead (inr (inr h)) = inr (inr h)
      go armed dead (inl set) = inl set
      go armed dead (inr (inl same)) = absurd (armed-ne-gone (dead same))
      go armed dead (inr (inr h)) = inr (inr h)
      go running dead a = a
      go woken dead a = a
      go clearing dead a = a
      go gone dead a = a

  pub Good-finish :
      (ph : Phase)
      → Good i (looping done []) flag tail claim cursor signals ph
      → Good i (idle done) flag tail claim cursor signals ph
  Good-finish ph (a, l) = (go ph a, rw (append-nil) at l)
    where
      go :
          (ph : Phase)
          → Alarmed i (looping done []) flag tail cursor signals ph
          → Alarmed i (idle done) flag tail cursor signals ph
      go sleeping a = a
      go armed a = a
      go running a = a
      go woken a = a
      go clearing a = a
      go gone a = a
