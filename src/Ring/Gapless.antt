-- ===== src/Ring/Gapless.antt =====
-- Polling a ring (crates/mmbus/src/subscriber.rs) under the policy `Error`.
use mmbus.Prelude.{ℕ, zero, suc, ◌+◌, ◌≤◌, ◌<◌, ◌≡◌, ◌⊎◌, length, some, List, [], ◌∷◌, none}
use mmbus.Ring.Reader.{Publishing, advance, try_receive}
use mmbus.Ring.Invariant.{Next}
use mmbus.Ring.Guarded.{Guarded}
use mmbus.Ring.Session.{Turn}

-- The next `n` messages from position `cursor` on, with the positions after them.
abbrev pub messages : (ℕ → List ℕ) → ℕ → ℕ → List (ℕ × List ℕ)
messages history cursor zero = []
messages history cursor (suc n) = (cursor + 1, history cursor) ∷ messages history (cursor + 1) n

-- What the calls returned is exactly the messages from `cursor` on, and the position is after them.
abbrev pub IsGapless : ℕ → List (ℕ × List ℕ) × (ℕ × Publishing) → Type 0
IsGapless cursor (outs, (last, q)) =
    (outs ≡ messages q.history cursor (length outs)) × (last ≡ cursor + length outs)

-- A call gives nothing exactly where there is nothing at the subscriber's position.
abbrev pub Delivers : ℕ → ℕ → List Turn → Publishing → Type 0
Delivers cursor_idx cursor [] p = Unit
Delivers cursor_idx cursor (t ∷ ts) p =
    (((advance t.before p).ring.tail ≤ cursor)
      × (try_receive cursor_idx cursor t.during (advance t.before p) ≡ (none, advance t.before p))
      × Delivers cursor_idx cursor ts (advance t.before p))
    ⊎ ((out : List ℕ) × (q : Publishing) × (cursor < (advance t.before p).ring.tail)
        × (try_receive cursor_idx cursor t.during (advance t.before p)
            ≡ (some (cursor + 1, out), q))
        × Delivers cursor_idx (cursor + 1) ts q)

-- `IsGapless`, and the memory is as the next calls need it.
abbrev Gapless : ℕ → Publishing → ℕ → ℕ → List (ℕ × List ℕ) × (ℕ × Publishing) → Type 0
Gapless start p c cursor (outs, (last, q)) = IsGapless cursor (outs, (last, q)) × Next start p c q
