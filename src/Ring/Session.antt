-- ===== src/Ring/Session.antt =====
-- A subscriber that polls: calls of `Subscriber::try_receive` (crates/mmbus/src/subscriber.rs) one
-- after another on a ring whose publisher goes on, from any state that a publisher starts in.
use mmbus.Prelude.{
  ℕ, ◌-◌, ◌≤◌, ◌<◌, ◌≡◌, inr, refl, sym, ◌∙◌, List, [], ◌∷◌, Option, none, some, arith,
}
use mmbus.Ring.Reader.{Publishing, Pauses, advance, try_receive}
use mmbus.Ring.Invariant.{Sizes, Inv, idle, Went, Next}
use mmbus.Ring.Steps.{Went-refl, Went-trans, advance-Next}
use mmbus.Ring.Torn.{Delivered, try_receive-Delivered}

-- What the publisher does around one call: its steps before it, and during its rounds.
pub record Turn : Type 0 where
  pub before : ℕ
  pub during : ℕ → Pauses

-- The position is moved to the one returned.
unfoldable pub after_poll :
    Option (ℕ × List ℕ) × Publishing
    → ℕ
    → (ℕ → Publishing → List (ℕ × List ℕ) × (ℕ × Publishing))
    → List (ℕ × List ℕ) × (ℕ × Publishing)
after_poll (none, q) cursor go_on = go_on cursor q
after_poll (some (n, out), q) cursor go_on = let (rest, last) = go_on n q in ((n, out) ∷ rest, last)

-- The calls, one per turn: what they return, and the position and the memory at the end.
unfoldable pub polls : ℕ → ℕ → List Turn → Publishing → List (ℕ × List ℕ) × (ℕ × Publishing)
unfolding after_poll
polls cursor_idx cursor [] p = ([], (cursor, p))
polls cursor_idx cursor (t ∷ ts) p =
    after_poll (try_receive cursor_idx cursor t.during (advance t.before p)) cursor
      (λ n q. polls cursor_idx n ts q)

-- Each is the message of the position before it, and the positions go up from `cursor`.
abbrev pub InOrder : (ℕ → List ℕ) → ℕ → List (ℕ × List ℕ) → Type 0
InOrder history cursor [] = Unit
InOrder history cursor ((n, out) ∷ rest) =
    (cursor < n) × (out ≡ history (n - 1)) × InOrder history n rest

-- Whatever is in its memory, a ring with nothing stored since the tail was set is as the invariant
-- wants it.
pub start-Inv : (p : Publishing) → p.pending ≡ [] → Sizes p 0 → Inv p p.ring.tail p.ring.tail
start-Inv p nothing z =
    idle nothing refl z (λ i h. inr (inr (λ s from below. absurd (omega arith))))

-- What `polls` has: the messages in order, as the history is at the end.
abbrev Sound : ℕ → ℕ → Publishing → ℕ → List (ℕ × List ℕ) × (ℕ × Publishing) → Type 0
Sound start cursor p c (outs, (last, q)) = InOrder q.history cursor outs × Next start p c q

Sound-after :
    (start cursor : ℕ) (p : Publishing) (c : ℕ) (q : Publishing) (d : ℕ)
    → Went p c q d
    → (r : List (ℕ × List ℕ) × (ℕ × Publishing)) → Sound start cursor q d r
    → Sound start cursor p c r
Sound-after start cursor p c q d w (outs, (last, r)) (order, (e, inv, went)) =
    (order, (e, inv, Went-trans w went))

after_poll-Sound :
    (start cursor cursor_idx : ℕ) (ts : List Turn) (p : Publishing) (c : ℕ)
    → start ≤ cursor
    → ((cursor' : ℕ) (q : Publishing) (d : ℕ)
        → start ≤ cursor'
        → Inv q start d
        → Sound start cursor' q d (polls cursor_idx cursor' ts q))
    → (r : Option (ℕ × List ℕ) × Publishing) → Delivered start cursor p c r
    → Sound start cursor p c (after_poll r cursor (λ n q. polls cursor_idx n ts q))
unfolding after_poll
after_poll-Sound start cursor cursor_idx ts p c from rest (none, q) (d, inv, went) =
    Sound-after start cursor p c q d went (polls cursor_idx cursor ts q) (rest cursor q d from inv)
after_poll-Sound start cursor cursor_idx ts p c from rest (some (n, out), q)
      (lt, is, (d, inv, le, went)) =
    let (order, (e, inv', went')) = rest n q d (omega arith) inv in
    ((lt, is ∙ sym (went'.kept (n - 1) (omega arith)), order), (e, inv', Went-trans went went'))

polls-Sound :
    (start cursor cursor_idx : ℕ) (ts : List Turn) (p : Publishing) (c : ℕ)
    → start ≤ cursor
    → Inv p start c
    → Sound start cursor p c (polls cursor_idx cursor ts p)
unfolding polls
polls-Sound start cursor cursor_idx [] p c from inv = (tt, (c, inv, Went-refl p c))
polls-Sound start cursor cursor_idx (t ∷ ts) p c from inv =
    let (d, inv', went) = advance-Next t.before p start c inv in
    let p' = advance t.before p in
    let r = try_receive cursor_idx cursor t.during p' in
    Sound-after start cursor p c p' d went (after_poll r cursor (λ n q. polls cursor_idx n ts q)) (
      after_poll-Sound start cursor cursor_idx ts p' d from
        (λ k q e from' i. polls-Sound start k cursor_idx ts q e from' i) r
        (try_receive-Delivered start cursor cursor_idx t.during p' d inv' from))

-- Whatever the publisher does meanwhile, and whatever the slots held before, the payloads that a
-- subscriber gets by polling are messages of the publisher, whole, and in the order in which they
-- were published, none twice. At the beginning the publisher has stored nothing since its tail was
-- set, and the subscriber's cursor is not before the tail.
pub polls-InOrder :
    (cursor_idx cursor : ℕ) (ts : List Turn) (p : Publishing)
    → p.pending ≡ []
    → Sizes p 0
    → p.ring.tail ≤ cursor
    → InOrder (polls cursor_idx cursor ts p).1.1.history cursor (polls cursor_idx cursor ts p).0
polls-InOrder cursor_idx cursor ts p nothing z from =
    let (order, rest) =
      polls-Sound p.ring.tail cursor cursor_idx ts p p.ring.tail from (start-Inv p nothing z) in
    order
