-- ===== src/Ring/Guarded.antt =====
-- The publisher of crates/mmbus/src/ring.rs under the policy `Error`, beside a subscriber with a
-- cursor of its own.
use mmbus.Prelude.{
  ℕ, zero, suc, ◌+◌, ◌≤◌, ◌<◌, ◌≡◌, ◌≢◌, inl, inr, refl, sym, ap, ◌∙◌, subst, true, false, List, [],
  ◌∷◌, length, arith, Bool-cases, List-cases, ℕ_discrete, dec_lt, update, update_self, update_ne,
}
use mmbus.Ring.{Slot, Store, is_full, apply, byte_stores}
use mmbus.Ring.Cursors.{IsClaimed, CursorsBehind, is_full_iff}
use mmbus.Ring.Reader.{Publishing, error, step, step_with, take_up, advance, rejects}
use mmbus.Ring.Invariant.{AllFit, Sizes, Inv, idle, ready, opened, copying, committed}
use mmbus.Ring.Steps.{step-Next}

-- The subscriber at `idx` is at `local`, and the publisher keeps its distance; the tail is `low` or
-- more.
pub record Guarded (p : Publishing) (idx local low : ℕ) : Type 0 where
  pub policy : p.policy ≡ error
  pub slot_taken : idx < p.ring.max_subscribers
  pub at : p.ring.cursors idx ≡ local
  pub behind :
      (i : ℕ)
      → i < p.ring.max_subscribers
      → IsClaimed p.ring.cursors i
      → p.ring.cursors i ≤ p.ring.tail
  pub reached : local ≤ p.ring.tail
  pub above : low ≤ p.ring.tail
  pub near : p.ring.tail ≤ local + p.ring.capacity
  pub spare : p.pending ≢ [] → p.ring.tail < local + p.ring.capacity
  pub fit : (s : ℕ) → length (p.history s) ≤ p.ring.slot_payload_size

module _ (idx local low : ℕ) where
  -- Stores that leave the tail and the table of cursors alone.
  kept-Guarded :
      (p : Publishing) (slots : ℕ → Slot) (ss : List Store)
      → Guarded p idx local low
      → p.pending ≢ []
      → Guarded (record p { ring = record (p.ring) { slots = slots }; pending = ss }) idx local low
  kept-Guarded p slots ss g more = record {
    policy = g.policy;
    slot_taken = g.slot_taken;
    at = g.at;
    behind = g.behind;
    reached = g.reached;
    above = g.above;
    near = g.near;
    spare = λ h. g.spare more;
    fit = g.fit;
  }

  tail-Guarded :
      (p : Publishing)
      → Guarded p idx local low
      → p.pending ≢ []
      → Guarded
          (record p { ring = record (p.ring) { tail = p.ring.tail + 1 }; pending = [] })
          idx
          local
          low
  tail-Guarded p g more = record {
    policy = g.policy;
    slot_taken = g.slot_taken;
    at = g.at;
    behind = λ i lt c. omega (arith, g.behind i lt c);
    reached = omega (arith, g.reached);
    above = omega (arith, g.above);
    near = omega (arith, g.spare more);
    spare = λ h. absurd (h refl);
    fit = g.fit;
  }

  take_up-Guarded :
      (p : Publishing) (m : List ℕ) (ms : List (List ℕ))
      → Guarded p idx local low
      → Sizes p 0
      → p.input ≡ m ∷ ms
      → p.pending ≡ []
      → Guarded (take_up p m ms) idx local low
  unfolding take_up
  take_up-Guarded p m ms g z e nothing = elim (Bool-cases (is_full p.ring)) [
    | inl full ↦
        let no_room : rejects p.policy p.ring ≡ true = ap (λ b. rejects b p.ring) g.policy ∙ full in
        rw no_room (record {
          policy = g.policy;
          slot_taken = g.slot_taken;
          at = g.at;
          behind = g.behind;
          reached = g.reached;
          above = g.above;
          near = g.near;
          spare = g.spare;
          fit = g.fit;
        })
    | inr free ↦
        let some_room : rejects p.policy p.ring ≡ false =
          ap (λ b. rejects b p.ring) g.policy ∙ free in
        let (fits, others) : (length m ≤ p.ring.slot_payload_size)
            × AllFit p.ring.slot_payload_size ms =
          rw e at z.fits in
        rw some_room (record {
          policy = g.policy;
          slot_taken = g.slot_taken;
          at = g.at;
          behind = g.behind;
          reached = g.reached;
          above = g.above;
          near = g.near;
          spare = λ h. not_full free;
          fit = λ s. elim (ℕ_discrete p.ring.tail s) [
            | yes here ↦
                subst (λ k. length (update p.history p.ring.tail m k) ≤ p.ring.slot_payload_size)
                  here (rw (update_self p.history p.ring.tail m) fits)
            | no other ↦ rw (update_ne p.history p.ring.tail s m other) (g.fit s)
          ];
        })
  ]
    where
      not_full : is_full p.ring ≡ false → p.ring.tail < local + p.ring.capacity
      not_full free = elim (dec_lt p.ring.tail (local + p.ring.capacity)) [
        | yes h ↦ h
        | no h ↦
            let b : CursorsBehind p.ring = record {
              behind = g.behind;
              word = omega (arith, z);
              room = z.room;
            } in
            let held : is_full p.ring ≡ true = (is_full_iff p.ring b).1 (
              idx,
              g.slot_taken,
              (λ e. omega (arith, g.at, e, g.reached, z)),
              omega (arith, h, g.at),
            ) in
            cc (held, free)
      ]

  step-Guarded :
      (p : Publishing) (start c : ℕ)
      → Inv p start c
      → Guarded p idx local low
      → Guarded (step p) idx local low
  unfolding step step_with apply byte_stores
  step-Guarded p start c (idle pend at z s) g =
      subst (λ ss. Guarded (step_with p ss p.input) idx local low) (sym pend)
        (elim (List-cases p.input) [
          | inl none_left ↦
              subst (λ ms. Guarded (step_with p [] ms) idx local low) (sym none_left) g
          | inr (m, ms, e) ↦
              subst (λ ms. Guarded (step_with p [] ms) idx local low) (sym e)
                (take_up-Guarded p m ms g z e pend)
        ])
  step-Guarded p start c (ready pend at z f s) g =
      subst (λ ss. Guarded (step_with p ss p.input) idx local low) (sym pend)
        (kept-Guarded p _ _ g (λ e. cc (pend, e)))
  step-Guarded p start c (opened pend at z o s) g =
      subst (λ ss. Guarded (step_with p ss p.input) idx local low) (sym pend)
        (kept-Guarded p _ _ g (λ e. cc (pend, e)))
  step-Guarded p start c (copying done [] split pend at z o l y s) g =
      subst (λ ss. Guarded (step_with p ss p.input) idx local low) (sym pend)
        (kept-Guarded p _ _ g (λ e. cc (pend, e)))
  step-Guarded p start c (copying done (b ∷ left) split pend at z o l y s) g =
      subst (λ ss. Guarded (step_with p ss p.input) idx local low) (sym pend)
        (kept-Guarded p _ _ g (λ e. cc (pend, e)))
  step-Guarded p start c (committed pend at z s) g =
      subst (λ ss. Guarded (step_with p ss p.input) idx local low) (sym pend)
        (tail-Guarded p g (λ e. cc (pend, e)))

  pub advance-Guarded :
      (n : ℕ) (p : Publishing) (start c : ℕ)
      → Inv p start c
      → Guarded p idx local low
      → Guarded (advance n p) idx local low
  unfolding advance
  advance-Guarded zero p start c inv g = g
  advance-Guarded (suc n) p start c inv g =
      let (d, inv', went) = step-Next p start c inv in
      advance-Guarded n (step p) start d inv' (step-Guarded p start c inv g)
