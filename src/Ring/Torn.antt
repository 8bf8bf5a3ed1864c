-- ===== src/Ring/Torn.antt =====
-- `try_receive` of crates/mmbus/src/ring.rs while the publisher overwrites slots under it.
use mmbus.Prelude.{
  ℕ, zero, suc, ◌-◌, ◌%◌, ◌≤◌, ◌<◌, ◌≡◌, inl, inr, refl, sym, ap, ◌∙◌, subst, List, arith,
  Bool-cases, Option, some, none, leb,
}
use mmbus.Ring.Reader.{
  Publishing, Pauses, Round, retry, give_up, success, attempt, attempts, after_round, try_receive,
  max_retries,
}
use mmbus.Ring.Invariant.{Inv, Went, Next}
use mmbus.Ring.Steps.{Went-refl, Went-trans}
use mmbus.Ring.Copy.{Inv-tail-le}
use mmbus.Ring.Round.{Fits, Fine, attempt-Fine}

module _ (start local : ℕ) where
  -- What `attempts` and `try_receive` return.
  abbrev pub Delivered : Publishing → ℕ → Option (ℕ × List ℕ) × Publishing → Type 0
  Delivered p c (none, q) = Next start p c q
  Delivered p c (some (n, out), q) =
      (local < n) × (out ≡ q.history (n - 1)) × ((d : ℕ) × Inv q start d × (n ≤ d) × Went p c q d)

  Delivered-after :
      (p : Publishing) (c : ℕ) (q : Publishing) (d : ℕ)
      → Went p c q d
      → (r : Option (ℕ × List ℕ) × Publishing) → Delivered q d r
      → Delivered p c r
  Delivered-after p c q d w (none, r) (n, inv, went) = (n, inv, Went-trans w went)
  Delivered-after p c q d w (some (n, out), r) (lt, m, (k, inv, le, went)) =
      (lt, m, (k, inv, le, Went-trans w went))

  after_round-Delivered :
      (p : Publishing) (c : ℕ) (r : Round)
      (again : ℕ → Publishing → Option (ℕ × List ℕ) × Publishing)
      → Fine start local p c r
      → ((e : ℕ) (q : Publishing) (d : ℕ)
          → Fits start local q e
          → c ≤ d
          → Inv q start d
          → Delivered q d (again e q))
      → Delivered p c (after_round r again)
  unfolding after_round
  after_round-Delivered p c (retry e q) again ((le, fits), (d, inv, went)) keep =
      let same : (k : ℕ) → k % q.ring.capacity ≡ k % p.ring.capacity =
        λ k. ap (λ m. k % m) went.capacity in
      Delivered-after p c q d went (again e q)
        (keep e q d (le, same e ∙ fits ∙ sym (same local)) went.le inv)
  after_round-Delivered p c (give_up q) again fine keep = fine
  after_round-Delivered p c (success n out q) again fine keep = fine

  attempts-Delivered :
      (fuel cursor_idx e : ℕ) (ds : ℕ → Pauses) (p : Publishing) (c : ℕ)
      → Inv p start c
      → start ≤ local
      → local < c
      → Fits start local p e
      → Delivered p c (attempts fuel cursor_idx e ds p)
  unfolding attempts
  attempts-Delivered zero cursor_idx e ds p c inv from lt fits = (c, inv, Went-refl p c)
  attempts-Delivered (suc fuel) cursor_idx e ds p c inv from lt fits =
      after_round-Delivered p c (attempt cursor_idx e (ds fuel) p)
        (λ e' q. attempts fuel cursor_idx e' ds q)
        (attempt-Fine start local cursor_idx e (ds fuel) p c inv from lt fits)
        (λ e' q d fits' more inv'.
          attempts-Delivered fuel cursor_idx e' ds q d inv' from (omega arith) fits')

  pub try_receive-Delivered :
      (cursor_idx : ℕ) (ds : ℕ → Pauses) (p : Publishing) (c : ℕ)
      → Inv p start c
      → start ≤ local
      → Delivered p c (try_receive cursor_idx local ds p)
  unfolding try_receive
  try_receive-Delivered cursor_idx ds p c inv from = elim (Bool-cases (leb p.ring.tail local)) [
    | inl empty ↦ rw empty (c, inv, Went-refl p c)
    | inr more ↦ rw more (
        attempts-Delivered max_retries cursor_idx local ds p c inv from
          (ground (arith, Inv-tail-le p start c inv, more)) (omega arith, refl))
  ]

-- No torn read: whatever the publisher stores between the loads of a `try_receive`, a payload that
-- it returns is, byte for byte, the message published at the position before the new cursor, which
-- is complete and not before the reader's own position; and the memory is still as the next call
-- needs it. The reader's position is not before the one that the publisher started at.
pub try_receive-whole :
    (start local cursor_idx : ℕ) (ds : ℕ → Pauses) (p q : Publishing) (c n : ℕ) (out : List ℕ)
    → Inv p start c
    → start ≤ local
    → try_receive cursor_idx local ds p ≡ (some (n, out), q)
    → (local < n) × (out ≡ q.history (n - 1)) × ((d : ℕ) × Inv q start d × (n ≤ d) × Went p c q d)
try_receive-whole start local cursor_idx ds p q c n out inv from e =
    subst (Delivered start local p c) e
      (try_receive-Delivered start local cursor_idx ds p c inv from)
