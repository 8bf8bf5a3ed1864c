-- ===== src/Ring/Copy.antt =====
-- The copy that `try_receive` of crates/mmbus/src/ring.rs takes out of a slot, and its store to its
-- cursor.
use mmbus.Prelude.{
  ℕ, zero, suc, ◌+◌, ◌^◌, ◌≤◌, ◌<◌, ◌≡◌, ◌⊎◌, inl, inr, refl, sym, ap, ap₂, ◌∙◌, List, [], ◌∷◌,
  length, get_or, arith, Bool, true, false, window,
}
use mmbus.Ring.{Slot, clear_writing, set_cursor}
use mmbus.Ring.Reader.{Publishing, advance, copy_out}
use mmbus.Ring.Invariant.{AllStored, Inv, idle, ready, opened, copying, committed, Went, Next}
use mmbus.Ring.Steps.{Went-refl, Went-trans, advance-Next}

pub window-get_or :
    (f : ℕ → ℕ) (i : ℕ) (m : List ℕ)
    → ((j : ℕ) → j < length m → f (i + j) ≡ get_or m j 0)
    → window f i (length m) ≡ m
window-get_or f i [] h = refl
window-get_or f i (b ∷ m) h =
    let e : i + 0 ≡ i = omega arith in
    ap₂ ◌∷◌ (ap f (sym e) ∙ h 0 (omega arith)) (
      window-get_or f (suc i) m
        (λ j l. let e' : suc i + j ≡ i + suc j = omega arith in ap f e' ∙ h (suc j) (omega arith)))

pub copy_out-Next :
    (idx j n : ℕ) (pause : ℕ → ℕ) (p : Publishing) (start c : ℕ)
    → Inv p start c
    → Next start p c (copy_out idx j n pause p).1
unfolding copy_out
copy_out-Next idx j zero pause p start c inv = (c, inv, Went-refl p c)
copy_out-Next idx j (suc n) pause p start c inv =
    let (d, inv', went) = advance-Next (pause j) p start c inv in
    let (e, inv'', went') = copy_out-Next idx (suc j) n pause (advance (pause j) p) start d inv' in
    (e, inv'', Went-trans went went')

-- The bytes copied are those of the slot as it was before, unless the slot has gone beyond number
-- `e` by the end.
pub copy_out-bytes :
    (idx j n : ℕ) (pause : ℕ → ℕ) (p : Publishing) (start c e : ℕ)
    → Inv p start c
    → e < c
    → ((copy_out idx j n pause p).0 ≡ window (p.ring.slots idx).bytes j n)
      ⊎ (e < clear_writing ((copy_out idx j n pause p).1.ring.slots idx).seq)
unfolding copy_out
copy_out-bytes idx j zero pause p start c e inv lt = inl refl
copy_out-bytes idx j (suc n) pause p start c e inv lt =
    let (d, inv', went) = advance-Next (pause j) p start c inv in
    let p' = advance (pause j) p in
    let (f, inv'', went') = copy_out-Next idx (suc j) n pause p' start d inv' in
    elim (went.slot idx e lt) [
      | inl same ↦
          elim (copy_out-bytes idx (suc j) n pause p' start d e inv' (omega (arith, went.le))) [
            | inl bytes ↦ inl (
                ap₂ ◌∷◌ (ap (λ (s : Slot). s.bytes j) same)
                  (bytes ∙ ap (λ (s : Slot). window s.bytes (suc j) n) same))
            | inr new ↦ inr new
          ]
      | inr new ↦ inr (went'.newer idx e (omega (arith, went.le)) new)
    ]

pub Inv-room : (p : Publishing) (start c : ℕ) → Inv p start c → 0 < p.ring.capacity
Inv-room p start c (idle a b z s) = z.room
Inv-room p start c (ready a b z f s) = z.room
Inv-room p start c (opened a b z o s) = z.room
Inv-room p start c (copying done left x a b z o l y s) = z.room
Inv-room p start c (committed a b z s) = z.room

pub Inv-AllStored :
    (p : Publishing) (start c : ℕ)
    → Inv p start c
    → (busy : Bool) × AllStored p.ring p.history start c busy
Inv-AllStored p start c (idle a b z s) = (false, s)
Inv-AllStored p start c (ready a b z f s) = (false, s)
Inv-AllStored p start c (opened a b z o s) = (true, s)
Inv-AllStored p start c (copying done left x a b z o l y s) = (true, s)
Inv-AllStored p start c (committed a b z s) = (false, s)

pub Inv-count-lt : (p : Publishing) (start c : ℕ) → Inv p start c → c < 2 ^ 63
Inv-count-lt p start c (idle a b z s) = omega (arith, z)
Inv-count-lt p start c (ready a b z f s) = omega (arith, z)
Inv-count-lt p start c (opened a b z o s) = omega (arith, z)
Inv-count-lt p start c (copying done left x a b z o l y s) = omega (arith, z)
Inv-count-lt p start c (committed a b z s) = omega (arith, z)

-- The messages below the tail are complete.
pub Inv-tail-le : (p : Publishing) (start c : ℕ) → Inv p start c → p.ring.tail ≤ c
Inv-tail-le p start c (idle a b z s) = omega arith
Inv-tail-le p start c (ready a b z f s) = omega arith
Inv-tail-le p start c (opened a b z o s) = omega arith
Inv-tail-le p start c (copying done left x a b z o l y s) = omega arith
Inv-tail-le p start c (committed a b z s) = omega arith

-- The reader's own store, to its cursor, touches no slot.
pub Inv-set_cursor :
    (p : Publishing) (start c i v : ℕ)
    → Inv p start c
    → Inv (record p { ring = set_cursor p.ring i v }) start c
unfolding set_cursor
Inv-set_cursor p start c i v (idle a b z s) =
    idle a b (record { room = z.room; small = z.small; bound = z.bound; fits = z.fits }) s
Inv-set_cursor p start c i v (ready a b z f s) =
    ready a b (record { room = z.room; small = z.small; bound = z.bound; fits = z.fits }) f s
Inv-set_cursor p start c i v (opened a b z o s) =
    opened a b (record { room = z.room; small = z.small; bound = z.bound; fits = z.fits })
      (record { flag = o.flag; fit = o.fit }) s
Inv-set_cursor p start c i v (copying done left x a b z o l y s) =
    copying done left x a b
      (record { room = z.room; small = z.small; bound = z.bound; fits = z.fits })
      (record { flag = o.flag; fit = o.fit }) l y s
Inv-set_cursor p start c i v (committed a b z s) =
    committed a b (record { room = z.room; small = z.small; bound = z.bound; fits = z.fits }) s

pub Went-set_cursor :
    (p : Publishing) (c : ℕ) (q : Publishing) (d i v : ℕ)
    → Went p c q d
    → Went p c (record q { ring = set_cursor q.ring i v }) d
unfolding set_cursor
Went-set_cursor p c q d i v w = record {
  le = w.le;
  capacity = w.capacity;
  size = w.size;
  kept = w.kept;
  slot = w.slot;
  newer = w.newer;
}
