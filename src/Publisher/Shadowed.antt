-- ===== src/Publisher/Shadowed.antt =====
-- `broadcast_wakeup` of crates/mmbus/src/publisher.rs with two clients for one cursor: a subscriber
-- left, and another has claimed its cursor before the publisher noticed.
use mmbus.Prelude.{
  ℕ, ◌≡◌, refl, Bool, false, [], ◌∷◌, ◌++◌, inl, inr, Bool-cases, update, update_self,
}
use mmbus.Ring.{take_wakeflag, cursor_is_unclaimed, wakeflag_waiting}
use mmbus.Publisher.{
  Client, Publisher, drop_client, send_wakeup, after_wake, after_take, after_probe, visit,
  wake_loop, broadcast_wakeup,
}

-- Where the first of two clients has the same cursor index as the second, whose subscriber has
-- claimed the cursor and set its flag before going to sleep, `broadcast_wakeup` signals the first
-- one's channel and no other, and the flag is taken.
pub broadcast_wakeup-misses :
    (wake : ℕ → Bool) (p : Publisher) (a b : Client)
    → p.clients ≡ a ∷ (b ∷ [])
    → a.cursor_idx ≡ b.cursor_idx
    → cursor_is_unclaimed p.ring b.cursor_idx ≡ false
    → p.ring.wakeflags b.cursor_idx ≡ wakeflag_waiting
    → ((broadcast_wakeup wake p).woken ≡ p.woken ++ (a.wakeup ∷ []))
      × ((broadcast_wakeup wake p).ring.wakeflags b.cursor_idx ≡ 0)
unfolding broadcast_wakeup wake_loop visit after_probe after_take take_wakeflag cursor_is_unclaimed
    send_wakeup after_wake drop_client
broadcast_wakeup-misses wake p a b two same here set =
    rw (two, same, here, set)
      (elim (Bool-cases (wake a.wakeup)) [
        | inl alive ↦
            rw (alive, here, update_self p.ring.wakeflags b.cursor_idx 0)
              (refl, update_self (update p.ring.wakeflags b.cursor_idx 0) b.cursor_idx 0)
        | inr dead ↦
            rw (dead, here, update_self p.ring.wakeflags b.cursor_idx 0)
              (refl, update_self (update p.ring.wakeflags b.cursor_idx 0) b.cursor_idx 0)
      ])
