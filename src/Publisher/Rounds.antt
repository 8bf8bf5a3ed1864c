-- ===== src/Publisher/Rounds.antt =====
-- One round of the loop of `broadcast_wakeup` of crates/mmbus/src/publisher.rs.
use mmbus.Prelude.{
  ℕ, suc, ◌≡◌, inl, inr, refl, sym, ap, ◌∙◌, Bool, true, false, List, [], ◌∷◌, ◌++◌, length,
  get_elem?, get_elem?-append, append_assoc, length-append, arith, ◌==◌, Bool-cases, some, update,
  update_ne, All, Pairs, All-Perm, Pairs-Perm, last_to_front, last_to_front-Perm, swap_remove,
  length-last_to_front, swap_remove-middle,
}
use mathlib.Core.List.Permᴰ
use mmbus.Ring.{Ring, take_wakeflag, cursor_is_unclaimed, wakeflag_waiting, cursor_unclaimed}
use mmbus.Publisher.{
  Client, Publisher, drop_client, send_wakeup, after_wake, after_take, after_probe, visit,
}
use mmbus.Publisher.Woken.{
  IsApart, is_waiting, Woke, Woke-reaped, taken, Woke-awake, Woke-woken, Woke-dead,
}

-- The loop has come to `rest`, whose clients' flags are those of `r`.
pub record At (r : Ring) (done rest : List Client) (p : Publisher) : Type 0 where
  pub clients : p.clients ≡ done ++ rest
  pub cursors : p.ring.cursors ≡ r.cursors
  pub flags : All (λ c. p.ring.wakeflags c.cursor_idx ≡ r.wakeflags c.cursor_idx) rest
  pub apart : Pairs IsApart rest

IsApart-sym : (c d : Client) → IsApart c d → IsApart d c
IsApart-sym c d h = λ e. h (sym e)

module _ (r : Ring) (done : List Client) (c : Client) (cs : List Client) (p : Publisher)
    (at : At r done (c ∷ cs) p) where
  -- Another client's flag is not changed when this one's is taken.
  other_flags :
      (ds : List Client)
      → All (IsApart c) ds
      → All (λ d. p.ring.wakeflags d.cursor_idx ≡ r.wakeflags d.cursor_idx) ds
      → All (λ d. update p.ring.wakeflags c.cursor_idx 0 d.cursor_idx ≡ r.wakeflags d.cursor_idx) ds
  other_flags [] a f = tt
  other_flags (d ∷ ds) (ne, a) (e, f) =
      (update_ne p.ring.wakeflags c.cursor_idx d.cursor_idx 0 ne ∙ e, other_flags ds a f)

  -- On to the next client, or to the one that comes to this one's place.
  At-next :
      (q : Publisher)
      → q.clients ≡ p.clients
      → q.ring.cursors ≡ p.ring.cursors
      → q.ring.wakeflags ≡ update p.ring.wakeflags c.cursor_idx 0
      → At r (done ++ (c ∷ [])) cs q
  At-next q e f g = record {
    clients = e ∙ at.clients ∙ sym (append_assoc done (c ∷ []) cs);
    cursors = f ∙ at.cursors;
    flags = rw g (other_flags cs at.apart.0 at.flags.1);
    apart = at.apart.1;
  }

  At-removed :
      (q : Publisher)
      → q.clients ≡ p.clients
      → q.ring.cursors ≡ p.ring.cursors
      → All (λ d. q.ring.wakeflags d.cursor_idx ≡ r.wakeflags d.cursor_idx) cs
      → At r done (last_to_front cs) (drop_client q (length done))
  unfolding drop_client
  At-removed q e f g =
      let moved = Permᴰ.symm (last_to_front-Perm cs) in
      record {
        clients = ap (swap_remove (length done)) (e ∙ at.clients) ∙ swap_remove-middle done c cs;
        cursors = f ∙ at.cursors;
        flags = All-Perm _ moved g;
        apart = Pairs-Perm IsApart IsApart-sym moved at.apart.1;
      }

  probed : cursor_is_unclaimed p.ring c.cursor_idx ≡ cursor_is_unclaimed r c.cursor_idx
  unfolding cursor_is_unclaimed
  probed = ap (λ (f : ℕ → ℕ). f c.cursor_idx == cursor_unclaimed) at.cursors

  pub found : get_elem? p.clients (length done) ≡ some c
  found = ap (λ t. get_elem? t (length done)) at.clients ∙ get_elem?-append done c cs

  waits : is_waiting p.ring c ≡ is_waiting r c
  waits = ap (λ t. t == wakeflag_waiting) at.flags.0

-- One round, where `again` makes of what is left what it should.
module _ (wake : ℕ → Bool) (r : Ring) (again : ℕ → Publisher → Publisher) (fuel : ℕ)
    (ih : (done rest : List Client) (p : Publisher)
      → length rest ≡ fuel
      → At r done rest p
      → Woke wake r done rest p (again (length done) p))
    (done : List Client) (c : Client) (cs : List Client) (p : Publisher) (size : length cs ≡ fuel)
    (at : At r done (c ∷ cs) p) where
  next_round :
      (q : Publisher)
      → At r (done ++ (c ∷ [])) cs q
      → Woke wake r (done ++ (c ∷ [])) cs q (again (suc (length done)) q)
  next_round q a =
      let e : length (done ++ (c ∷ [])) ≡ suc (length done) =
        omega (arith, length-append done (c ∷ [])) in
      rw e at (ih (done ++ (c ∷ [])) cs q size a)

  same_round :
      (q : Publisher)
      → At r done (last_to_front cs) q
      → Woke wake r done (last_to_front cs) q (again (length done) q)
  same_round q a = ih done (last_to_front cs) q (length-last_to_front cs ∙ size) a

  after_wake-Woke :
      cursor_is_unclaimed r c.cursor_idx ≡ false
      → is_waiting r c ≡ true
      → Woke wake r done (c ∷ cs) p (
          after_wake
            (wake c.wakeup)
            (length done)
            (send_wakeup p (taken wake r done c cs p p).ring c)
            again)
  unfolding after_wake send_wakeup taken take_wakeflag
  after_wake-Woke here asleep = elim (Bool-cases (wake c.wakeup)) [
    | inl alive ↦ rw alive (
        Woke-woken wake r done c cs p _ here asleep alive
          (next_round _ (At-next r done c cs p at _ refl refl refl)))
    | inr dead ↦ rw dead (
        Woke-dead wake r done c cs p _ (length done) here asleep dead (
          same_round _ (
            At-removed r done c cs p at _ refl refl
              (other_flags r done c cs p at cs at.apart.0 at.flags.1))))
  ]

  pub visit-Woke :
      Woke wake r done
        (c ∷ cs)
        p
        (visit wake (length done) (get_elem? p.clients (length done)) p again)
  unfolding visit after_probe after_take take_wakeflag taken
  visit-Woke = rw (found r done c cs p at) (elim (Bool-cases (cursor_is_unclaimed r c.cursor_idx)) [
    | inl gone ↦
        rw (probed r done c cs p at, gone)
          (Woke-reaped wake r done c cs p _ (length done) gone
            (same_round _ (At-removed r done c cs p at p refl refl at.flags.1)))
    | inr here ↦
        rw (probed r done c cs p at, here)
          (elim (Bool-cases (is_waiting r c)) [
            | inl asleep ↦ rw (waits r done c cs p at, asleep) (after_wake-Woke here asleep)
            | inr awake ↦
                rw (waits r done c cs p at, awake)
                  (Woke-awake wake r done c cs p _ here awake
                    (next_round _ (At-next r done c cs p at _ refl refl refl)))
          ])
  ])
