-- ===== src/Ring/Rest.antt =====
-- `try_receive` of crates/mmbus/src/ring.rs once the publisher has nothing more to store.
use mmbus.Prelude.{ℕ, ◌+◌, ◌%◌, ◌≤◌, ◌<◌, ◌≡◌, ◌⊎◌}
use mmbus.Ring.Reader.{Publishing}

-- What there is for a reader at `local`: the newest message in its slot.
abbrev Newest : Publishing → ℕ → ℕ → Type 0
Newest p local s =
    (s < p.ring.tail)
    × (p.ring.tail ≤ s + p.ring.capacity)
    × (s % p.ring.capacity ≡ local % p.ring.capacity)
    × ((s ≡ local) ⊎ (local + p.ring.capacity ≤ s))
