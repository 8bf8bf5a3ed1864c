-- ===== src/Publisher/Beside.antt =====
-- What the subscribers may store in the ring beside the publisher of crates/mmbus/src/publisher.rs: the
-- cursors and the flags.
use mmbus.Prelude.{ℕ, ◌≡◌, refl, ap, ◌∙◌, List, [], ◌∷◌}
use mmbus.Ring.{
  Ring, Store, store_seq, store_len, store_byte, store_tail, apply, apply_all, publish_ops,
}

-- The second ring differs from the first in the cursors and the flags only.
abbrev pub Beside : Ring → Ring → Type 0
Beside r s = (c f : ℕ → ℕ) × (s ≡ record r { cursors = c; wakeflags = f })

pub Beside-refl : (r : Ring) → Beside r r
Beside-refl r = (r.cursors, r.wakeflags, refl)

pub Beside-trans : (r s t : Ring) → Beside r s → Beside s t → Beside r t
Beside-trans r s t (c, f, e) (c', f', e') =
    (c', f', e' ∙ ap (λ (q : Ring). record q { cursors = c'; wakeflags = f' }) e)

-- The subscribers only move cursors and flags.
abbrev pub OnlyReaders : (Ring → Ring) → Type 0
OnlyReaders race = (r : Ring) → Beside r (race r)

-- The ring after all stores of a publish.
abbrev pub stored : Ring → List ℕ → Ring
stored r m = apply_all r (publish_ops r m)

apply-Beside :
    (r : Ring) (c f : ℕ → ℕ) (s : Store)
    → apply (record r { cursors = c; wakeflags = f }) s
      ≡ record (apply r s) { cursors = c; wakeflags = f }
unfolding apply
apply-Beside r c f (store_seq i v) = refl
apply-Beside r c f (store_len i v) = refl
apply-Beside r c f (store_byte i j v) = refl
apply-Beside r c f (store_tail v) = refl

apply_all-Beside :
    (r : Ring) (c f : ℕ → ℕ) (ss : List Store)
    → apply_all (record r { cursors = c; wakeflags = f }) ss
      ≡ record (apply_all r ss) { cursors = c; wakeflags = f }
unfolding apply_all
apply_all-Beside r c f [] = refl
apply_all-Beside r c f (s ∷ ss) =
    ap (λ q. apply_all q ss) (apply-Beside r c f s) ∙ apply_all-Beside (apply r s) c f ss

pub stored-Beside : (r s : Ring) (m : List ℕ) → Beside r s → Beside (stored r m) (stored s m)
unfolding publish_ops mmbus.Ring.write_ops
stored-Beside r s m (c, f, e) =
    (c, f, ap (λ q. stored q m) e ∙ apply_all-Beside r c f (publish_ops r m))

-- The ring after a publish of each of the messages in turn.
abbrev pub stored_each : Ring → List (List ℕ) → Ring
stored_each r [] = r
stored_each r (m ∷ ms) = stored_each (stored r m) ms

pub stored_each-Beside :
    (r s : Ring) (ms : List (List ℕ)) → Beside r s → Beside (stored_each r ms) (stored_each s ms)
stored_each-Beside r s [] b = b
stored_each-Beside r s (m ∷ ms) b =
    stored_each-Beside (stored r m) (stored s m) ms (stored-Beside r s m b)
