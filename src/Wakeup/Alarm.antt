-- ===== src/Wakeup/Alarm.antt =====
-- What holds of each subscriber between any two steps of the eventcount (publisher.rs and
-- subscriber.rs of crates/mmbus/src): while it is armed or asleep, either its flag is set, or the
-- publisher is about to signal it, or it has a signal.
use mmbus.Prelude.{
  ℕ, ◌≤◌, ◌<◌, ◌≡◌, ◌≢◌, ◌⊎◌, inl, inr, refl, sym, subst, List, [], ◌∷◌, ◌++◌, Permᴰ, last_to_front,
  last_to_front-Perm, ℕ_discrete,
}
use mathlib.Core.List.Permᴰ
use mmbus.Ring.{cursor_unclaimed, wakeflag_waiting}
use mmbus.Publisher.{Client}
use mmbus.Wakeup.{
  Stage, idle, looping, probed, calling, Phase, running, armed, sleeping, woken, clearing, gone,
  Has,
}

-- The clients that the loop has still to see, all clients, and the one about to be signalled.
abbrev pub rest_of : Stage → List Client
rest_of (idle clients) = []
rest_of (looping done rest) = rest
rest_of (probed done c rest) = c ∷ rest
rest_of (calling done c rest) = rest

abbrev pub all_of : Stage → List Client
all_of (idle clients) = clients
all_of (looping done rest) = done ++ rest
all_of (probed done c rest) = done ++ (c ∷ rest)
all_of (calling done c rest) = done ++ (c ∷ rest)

abbrev pub Calls : ℕ → Stage → Type 0
Calls i (idle clients) = ⊥
Calls i (looping done rest) = ⊥
Calls i (probed done c rest) = ⊥
Calls i (calling done c rest) = c.cursor_idx ≡ i

-- For the phases in which the subscriber waits.
abbrev pub Alarmed : ℕ → Stage → (flag tail cursor signals : ℕ) → Phase → Type 0
Alarmed i st flag tail cursor signals sleeping =
    ((flag ≡ wakeflag_waiting) × ((tail ≤ cursor) ⊎ Has i (rest_of st)))
    ⊎ (Calls i st ⊎ (0 < signals))
Alarmed i st flag tail cursor signals armed =
    (flag ≡ wakeflag_waiting) ⊎ (Calls i st ⊎ (0 < signals))
Alarmed i st flag tail cursor signals running = Unit
Alarmed i st flag tail cursor signals woken = Unit
Alarmed i st flag tail cursor signals clearing = Unit
Alarmed i st flag tail cursor signals gone = Unit

-- A subscriber that is there has claimed its cursor, and is a client.
abbrev pub Linked : ℕ → Stage → (claim : ℕ) → Phase → Type 0
Linked i st claim ph = (ph ≡ gone) ⊎ ((claim ≢ cursor_unclaimed) × Has i (all_of st))

abbrev pub Good : ℕ → Stage → (flag tail claim cursor signals : ℕ) → Phase → Type 0
Good i st flag tail claim cursor signals ph =
    Alarmed i st flag tail cursor signals ph × Linked i st claim ph

pub Has-Perm : (i : ℕ) {cs ds : List Client} → Permᴰ cs ds → Has i cs → Has i ds
Has-Perm i Permᴰ.nil h = h
Has-Perm i (Permᴰ.cons e d) (inl h) = inl (subst (λ c. c.cursor_idx ≡ i) e h)
Has-Perm i (Permᴰ.cons e d) (inr h) = inr (Has-Perm i d h)
Has-Perm i (Permᴰ.swap e₁ e₂) (inl h) = inr (inl (subst (λ c. c.cursor_idx ≡ i) e₁ h))
Has-Perm i (Permᴰ.swap e₁ e₂) (inr (inl h)) = inl (subst (λ c. c.cursor_idx ≡ i) e₂ h)
Has-Perm i (Permᴰ.swap e₁ e₂) (inr (inr h)) = inr (inr h)
Has-Perm i (Permᴰ.trans d₁ d₂) h = Has-Perm i d₂ (Has-Perm i d₁ h)

-- The client `c` is taken out, and is not the one with index `i`.
Has-without :
    (i : ℕ) (done : List Client) (c : Client) (rest : List Client)
    → (c.cursor_idx ≢ i)
    → Has i (done ++ (c ∷ rest))
    → Has i (done ++ last_to_front rest)
Has-without i [] c rest ne (inl h) = absurd (ne h)
Has-without i [] c rest ne (inr h) = Has-Perm i (Permᴰ.symm (last_to_front-Perm rest)) h
Has-without i (d ∷ done) c rest ne (inl h) = inl h
Has-without i (d ∷ done) c rest ne (inr h) = inr (Has-without i done c rest ne h)

pub sleeping-ne-gone : sleeping ≢ gone
sleeping-ne-gone e = cc

pub armed-ne-gone : armed ≢ gone
armed-ne-gone e = cc

module _ (i : ℕ) (flag tail claim cursor signals : ℕ) (done : List Client) (c : Client)
    (rest : List Client) where
  pub Good-publish :
      (clients : List Client) (tail' : ℕ) (ph : Phase)
      → Good i (idle clients) flag tail claim cursor signals ph
      → Good i (looping [] clients) flag tail' claim cursor signals ph
  Good-publish clients tail' sleeping (inl (set, _), inr (claimed, here)) =
      (inl (set, inr here), inr (claimed, here))
  Good-publish clients tail' sleeping (inl (set, _), inl e) = absurd cc
  Good-publish clients tail' sleeping (inr h, l) = (inr h, l)
  Good-publish clients tail' armed g = g
  Good-publish clients tail' running g = g
  Good-publish clients tail' woken g = g
  Good-publish clients tail' clearing g = g
  Good-publish clients tail' gone g = g

  -- The subscriber is not the client that is dropped, or it is gone.
  pub Linked-removed :
      (ph : Phase) (st : Stage)
      → (c.cursor_idx ≡ i → (ph ≡ gone) ⊎ (claim ≡ cursor_unclaimed))
      → all_of st ≡ done ++ (c ∷ rest)
      → Linked i st claim ph
      → Linked i (looping done (last_to_front rest)) claim ph
  Linked-removed ph st dead e (inl g) = inl g
  Linked-removed ph st dead e (inr (claimed, here)) = elim (ℕ_discrete c.cursor_idx i) [
    | yes same ↦ elim (dead same) [ inl g ↦ inl g | inr free ↦ absurd (claimed free) ]
    | no ne ↦ inr (claimed, Has-without i done c rest ne (subst (Has i) e here))
  ]

  pub Good-reap :
      (ph : Phase)
      → (c.cursor_idx ≡ i → (ph ≡ gone) ⊎ (claim ≡ cursor_unclaimed))
      → Good i (looping done (c ∷ rest)) flag tail claim cursor signals ph
      → Good i (looping done (last_to_front rest)) flag tail claim cursor signals ph
  Good-reap ph dead (a, l) =
      (go ph dead a l, Linked-removed ph (looping done (c ∷ rest)) dead refl l)
    where
      go :
          (ph : Phase)
          → (c.cursor_idx ≡ i → (ph ≡ gone) ⊎ (claim ≡ cursor_unclaimed))
          → Alarmed i (looping done (c ∷ rest)) flag tail cursor signals ph
          → Linked i (looping done (c ∷ rest)) claim ph
          → Alarmed i (looping done (last_to_front rest)) flag tail cursor signals ph
      go sleeping dead (inl (set, inl le)) l = inl (set, inl le)
      go sleeping dead (inl (set, inr (inr h))) l =
          inl (set, inr (Has-Perm i (Permᴰ.symm (last_to_front-Perm rest)) h))
      go sleeping dead (inl (set, inr (inl same))) l = elim (dead same) [
        | inl g ↦ absurd cc
        | inr free ↦ elim l [ inl g ↦ absurd cc | inr (claimed, here) ↦ absurd (claimed free) ]
      ]
      go sleeping dead (inr h) l = inr h
      go armed dead a l = a
      go running dead a l = a
      go woken dead a l = a
      go clearing dead a l = a
      go gone dead a l = a

module _ (i : ℕ) (st : Stage) (flag tail claim cursor signals : ℕ) where
  -- A phase in which it does not wait, and one in which it comes to wait.
  pub Good-up :
      (flag' cursor' signals' : ℕ) (ph ph' : Phase)
      → Alarmed i st flag' tail cursor' signals' ph' ≡ Unit
      → (ph ≡ gone → ph' ≡ gone)
      → Good i st flag tail claim cursor signals ph
      → Good i st flag' tail claim cursor' signals' ph'
  Good-up flag' cursor' signals' ph ph' up dead (a, l) =
      (subst (λ T. T) (sym up) tt, elim l [ inl g ↦ inl (dead g) | inr h ↦ inr h ])
