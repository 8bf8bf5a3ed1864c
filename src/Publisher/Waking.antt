-- ===== src/Publisher/Waking.antt =====
-- What `broadcast_wakeup` of crates/mmbus/src/publisher.rs leaves alone.
use mmbus.Prelude.{
  ℕ, zero, suc, ◌≡◌, refl, ap, ◌∙◌, Bool, true, false, length, get_elem?, Option, none, some,
}
use mmbus.Ring.{Ring, take_wakeflag, cursor_is_unclaimed}
use mmbus.Publisher.{
  Client, Publisher, drop_client, send_wakeup, after_wake, after_take, after_probe, visit,
  wake_loop, broadcast_wakeup,
}

-- What waking the subscribers leaves alone: all but the clients, the flags and two counters.
pub record Undisturbed (p q : Publisher) : Type 0 where
  pub ring : q.ring ≡ record p.ring { wakeflags = q.ring.wakeflags }
  pub wal : q.wal ≡ p.wal
  pub backpressure : q.backpressure ≡ p.backpressure
  pub published : q.published_total ≡ p.published_total
  pub rejected : q.full_rejected_total ≡ p.full_rejected_total

pub Undisturbed-refl : (p : Publisher) → Undisturbed p p
Undisturbed-refl p = record {
  ring = refl;
  wal = refl;
  backpressure = refl;
  published = refl;
  rejected = refl;
}

pub Undisturbed-trans : (p q r : Publisher) → Undisturbed p q → Undisturbed q r → Undisturbed p r
Undisturbed-trans p q r a b = record {
  ring = b.ring ∙ ap (λ (t : Ring). record t { wakeflags = r.ring.wakeflags }) a.ring;
  wal = b.wal ∙ a.wal;
  backpressure = b.backpressure ∙ a.backpressure;
  published = b.published ∙ a.published;
  rejected = b.rejected ∙ a.rejected;
}

module _ (wake : ℕ → Bool) (again : ℕ → Publisher → Publisher)
    (ih : (i : ℕ) (p : Publisher) → Undisturbed p (again i p)) where
  drop-Undisturbed :
      (i : ℕ) (p q : Publisher) → Undisturbed p q → Undisturbed p (again i (drop_client q i))
  unfolding drop_client
  drop-Undisturbed i p q u =
      Undisturbed-trans p (drop_client q i) (again i (drop_client q i))
        (record {
          ring = u.ring;
          wal = u.wal;
          backpressure = u.backpressure;
          published = u.published;
          rejected = u.rejected;
        })
        (ih i (drop_client q i))

  after_wake-Undisturbed :
      (b : Bool) (i : ℕ) (p q : Publisher)
      → Undisturbed p q
      → Undisturbed p (after_wake b i q again)
  unfolding after_wake
  after_wake-Undisturbed true i p q u = Undisturbed-trans p q (again (suc i) q) u (ih (suc i) q)
  after_wake-Undisturbed false i p q u = drop-Undisturbed i p q u

  after_take-Undisturbed :
      (b : Bool) (i : ℕ) (c : Client) (p : Publisher)
      → Undisturbed p (after_take wake i c p ((take_wakeflag p.ring c.cursor_idx).0, b) again)
  unfolding after_take take_wakeflag send_wakeup
  after_take-Undisturbed false i c p =
      let q = record p { ring = (take_wakeflag p.ring c.cursor_idx).0 } in
      Undisturbed-trans p q (again (suc i) q)
        (record { ring = refl; wal = refl; backpressure = refl; published = refl; rejected = refl })
        (ih (suc i) q)
  after_take-Undisturbed true i c p =
      let q = send_wakeup p (take_wakeflag p.ring c.cursor_idx).0 c in
      after_wake-Undisturbed (wake c.wakeup) i p q
        (record { ring = refl; wal = refl; backpressure = refl; published = refl; rejected = refl })

  after_probe-Undisturbed :
      (b : Bool) (i : ℕ) (c : Client) (p : Publisher)
      → Undisturbed p (after_probe wake i c b p again)
  unfolding after_probe take_wakeflag
  after_probe-Undisturbed true i c p = drop-Undisturbed i p p (Undisturbed-refl p)
  after_probe-Undisturbed false i c p =
      after_take-Undisturbed (take_wakeflag p.ring c.cursor_idx).1 i c p

  visit-Undisturbed :
      (o : Option Client) (i : ℕ) (p : Publisher) → Undisturbed p (visit wake i o p again)
  unfolding visit
  visit-Undisturbed none i p = Undisturbed-refl p
  visit-Undisturbed (some c) i p =
      after_probe-Undisturbed (cursor_is_unclaimed p.ring c.cursor_idx) i c p

wake_loop-Undisturbed :
    (wake : ℕ → Bool) (fuel i : ℕ) (p : Publisher) → Undisturbed p (wake_loop wake fuel i p)
unfolding wake_loop
wake_loop-Undisturbed wake zero i p = Undisturbed-refl p
wake_loop-Undisturbed wake (suc fuel) i p =
    visit-Undisturbed wake (λ j q. wake_loop wake fuel j q) (wake_loop-Undisturbed wake fuel)
      (get_elem? p.clients i) i p

pub broadcast_wakeup-Undisturbed :
    (wake : ℕ → Bool) (p : Publisher) → Undisturbed p (broadcast_wakeup wake p)
unfolding broadcast_wakeup
broadcast_wakeup-Undisturbed wake p = wake_loop-Undisturbed wake (length p.clients) 0 p
