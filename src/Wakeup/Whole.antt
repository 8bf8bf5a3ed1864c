-- ===== src/Wakeup/Whole.antt =====
-- The invariant of the eventcount between publisher.rs and subscriber.rs of crates/mmbus/src.
use mmbus.Prelude.{
  ℕ, ◌≡◌, ◌≢◌, refl, subst, Bool, true, false, List, [], ◌∷◌, ◌++◌, append_assoc, All, All-Perm,
  last_to_front, last_to_front-Perm, ℕ_discrete,
}
use mathlib.Core.List.Permᴰ
use mmbus.Ring.{Ring, Store, store_seq, store_len, store_byte, store_tail, apply, apply_all}
use mmbus.Publisher.{Client}
use mmbus.Wakeup.{System, after_take, Matched}
use mmbus.Wakeup.Alarm.{all_of, Good}

-- Each subscriber, in the state `s`.
abbrev pub AllGood : (ℕ → ℕ) → System → Type 0
AllGood channel s =
    (i : ℕ)
    → Good i s.stage (s.ring.wakeflags i) s.ring.tail (s.ring.cursors i) (s.cursor i)
        (s.signals (channel i)) (s.phase i)

abbrev pub Inv : (ℕ → ℕ) → System → Type 0
Inv channel s = Matched channel (all_of s.stage) × AllGood channel s

pub by_index : (j : ℕ) (P : ℕ → Type 0) → P j → ((i : ℕ) → j ≢ i → P i) → (i : ℕ) → P i
by_index j P here there i = elim (ℕ_discrete j i) [ yes e ↦ subst P e here | no ne ↦ there i ne ]

All-append {ℓ} :
    {A : Type ℓ} (P : A → Type 0) (xs ys : List A) → All P (xs ++ ys) → All P xs × All P ys
All-append P [] ys a = (tt, a)
All-append P (x ∷ xs) ys (h, a) = let (b, c) = All-append P xs ys a in ((h, b), c)

append-All {ℓ} :
    {A : Type ℓ} (P : A → Type 0) (xs ys : List A) → All P xs → All P ys → All P (xs ++ ys)
append-All P [] ys a b = b
append-All P (x ∷ xs) ys (h, a) b = (h, append-All P xs ys a b)

module _ (channel : ℕ → ℕ) where
  pub Matched-removed :
      (done : List Client) (c : Client) (rest : List Client)
      → Matched channel (done ++ (c ∷ rest))
      → Matched channel (done ++ last_to_front rest)
  Matched-removed done c rest m =
      let (front, back) = All-append (λ c. c.wakeup ≡ channel c.cursor_idx) done (c ∷ rest) m in
      append-All (λ c. c.wakeup ≡ channel c.cursor_idx) done (last_to_front rest) front
        (All-Perm _ (Permᴰ.symm (last_to_front-Perm rest)) back.1)

  pub Matched-at :
      (done : List Client) (c : Client) (rest : List Client)
      → Matched channel (done ++ (c ∷ rest))
      → c.wakeup ≡ channel c.cursor_idx
  Matched-at done c rest m =
      (All-append (λ c. c.wakeup ≡ channel c.cursor_idx) done (c ∷ rest) m).1.0

  pub all_of-after_take :
      (b : Bool) (done : List Client) (c : Client) (rest : List Client)
      → all_of (after_take b done c rest) ≡ done ++ (c ∷ rest)
  unfolding after_take
  all_of-after_take true done c rest = refl
  all_of-after_take false done c rest = append_assoc done (c ∷ []) rest

-- Stores do not touch the tables of cursors and flags.
pub apply_all-tables :
    (r : Ring) (ss : List Store)
    → ((apply_all r ss).wakeflags ≡ r.wakeflags) × ((apply_all r ss).cursors ≡ r.cursors)
unfolding apply_all apply
apply_all-tables r [] = (refl, refl)
apply_all-tables r (store_seq i v ∷ ss) = apply_all-tables (apply r (store_seq i v)) ss
apply_all-tables r (store_len i v ∷ ss) = apply_all-tables (apply r (store_len i v)) ss
apply_all-tables r (store_byte i j v ∷ ss) = apply_all-tables (apply r (store_byte i j v)) ss
apply_all-tables r (store_tail v ∷ ss) = apply_all-tables (apply r (store_tail v)) ss
