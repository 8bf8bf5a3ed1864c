-- ===== src/Prelude/Removal.antt =====
-- `Vec::swap_remove` on lists, and its laws: what is left is the rest, in another order.
use Prim.Native.Nat.{ℕ, zero, suc}
use mathlib.Core.Path.{◌≡◌, refl, ap}
use mathlib.Core.List.{List, [], ◌∷◌, ◌++◌, Permᴰ}
use mathlib.Core.List.Permᴰ
use mmbus.Prelude.Lists.{length}

module _ {ℓ} {A : Type ℓ} where
  -- The last of `x ∷ xs`, and all but the last.
  abbrev pub last_of : A → List A → A
  last_of x [] = x
  last_of x (y ∷ ys) = last_of y ys

  abbrev pub but_last : A → List A → List A
  but_last x [] = []
  but_last x (y ∷ ys) = x ∷ but_last y ys

  -- The last one takes the place of the first, which is gone.
  abbrev pub last_to_front : List A → List A
  last_to_front [] = []
  last_to_front (x ∷ xs) = last_of x xs ∷ but_last x xs

  -- `xs.swap_remove(i)`; out of range, where the source panics, it changes nothing.
  abbrev pub swap_remove : ℕ → List A → List A
  swap_remove i [] = []
  swap_remove zero (x ∷ xs) = last_to_front xs
  swap_remove (suc i) (x ∷ xs) = x ∷ swap_remove i xs

  last-Perm : (x : A) (xs : List A) → Permᴰ (last_of x xs ∷ but_last x xs) (x ∷ xs)
  last-Perm x [] = Permᴰ.refl (x ∷ [])
  last-Perm x (y ∷ ys) = Permᴰ.trans (Permᴰ.swap refl refl) (Permᴰ.cons refl (last-Perm y ys))

  pub last_to_front-Perm : (xs : List A) → Permᴰ (last_to_front xs) xs
  last_to_front-Perm [] = Permᴰ.nil
  last_to_front-Perm (x ∷ xs) = last-Perm x xs

  pub length-last_to_front : (xs : List A) → length (last_to_front xs) ≡ length xs
  length-last_to_front [] = refl
  length-last_to_front (x ∷ xs) = go x xs
    where
      go : (x : A) (xs : List A) → suc (length (but_last x xs)) ≡ suc (length xs)
      go x [] = refl
      go x (y ∷ ys) = ap suc (go y ys)

  pub swap_remove-middle :
      (xs : List A) (x : A) (ys : List A)
      → swap_remove (length xs) (xs ++ (x ∷ ys)) ≡ xs ++ last_to_front ys
  swap_remove-middle [] x ys = refl
  swap_remove-middle (y ∷ xs) x ys = ap (λ t. y ∷ t) (swap_remove-middle xs x ys)
