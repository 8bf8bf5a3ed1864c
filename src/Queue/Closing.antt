-- ===== src/Queue/Closing.antt =====
-- How the queue is closed when its senders go.
use mmbus.Prelude.{
  ℕ, zero, suc, ◌+◌, ◌<◌, ◌≡◌, refl, ap, List, [], ◌∷◌, ◌++◌, replicate, if◌then◌else◌, ◌==◌, ◌∙◌,
  dec_lt, true, arith,
}
use mmbus.Queue.{
  Channel, perform, perform_all, Op, drop_checks, drop_releases, drop_check, drop_release,
}

module _ {ℓ} {A : Type ℓ} where
  -- `n` senders dropped one after the other.
  pub drops : ℕ → List (Op A)
  drops zero = []
  drops (suc n) = drop_checks ∷ (drop_releases ∷ drops n)

  drops_some :
      (n m : ℕ) (c : Channel A)
      → 0 < m
      → c.strong ≡ suc (n + m)
      → perform_all c (drops n) ≡ record c { strong = suc m }
  unfolding drops perform_all perform drop_check drop_release
  drops_some zero m c h s = ground arith
  drops_some (suc n) m c h s =
      drops_some n m (drop_release (drop_check c)) h (ground arith) ∙ ground arith

  drops_all :
      (n : ℕ) (c : Channel A)
      → 0 < n
      → c.strong ≡ suc n
      → perform_all c (drops n) ≡ record c { closed = true; strong = 1 }
  unfolding drops perform_all perform drop_check drop_release
  drops_all zero c h s = absurd (omega arith)
  drops_all (suc zero) c h s = ground arith
  drops_all (suc (suc n)) c h s =
      drops_all (suc n) (drop_release (drop_check c)) (omega arith) (ground arith) ∙ ground arith

  -- Senders dropped one after the other leave the queue as it is while one is left, and the drop of
  -- the last one closes it, items and all kept.
  pub drops-close :
      (n m : ℕ) (c : Channel A)
      → 0 < n
      → c.strong ≡ suc (n + m)
      → perform_all c (drops n)
        ≡ (if m == 0 then record c { closed = true; strong = 1 } else record c { strong = suc m })
  drops-close n m c h s = elim (dec_lt 0 m) [
    | yes p ↦ ground (arith, drops_some n m c)
    | no p ↦ ground (arith, drops_all n c)
  ]

  checks_only :
      (n : ℕ) (os : List (Op A)) (c : Channel A)
      → 2 < c.strong
      → perform_all c (replicate n drop_checks ++ os) ≡ perform_all c os
  unfolding perform_all perform drop_check
  checks_only zero os c h = refl
  checks_only (suc n) os c h =
      let e : drop_check c ≡ c = ground arith in
      ap (λ d. perform_all d (replicate n drop_checks ++ os)) e ∙ checks_only n os c h

  releases :
      (n m : ℕ) (c : Channel A)
      → c.strong ≡ n + m
      → perform_all c (replicate n drop_releases) ≡ record c { strong = m }
  unfolding perform_all perform drop_release
  releases zero m c s = ground arith
  releases (suc n) m c s = releases n m (drop_release c) (ground arith) ∙ ground arith

  -- Two senders or more that are dropped at the same time, each reading the count before any of
  -- them has given its reference back, do not close the queue, though no sender is left.
  pub drops_at_once :
      (n : ℕ) (c : Channel A)
      → 1 < n
      → c.strong ≡ suc n
      → perform_all c (replicate n drop_checks ++ replicate n drop_releases)
        ≡ record c { strong = 1 }
  drops_at_once n c h s =
      checks_only n (replicate n drop_releases) c (omega arith) ∙ releases n 1 c (omega arith)
