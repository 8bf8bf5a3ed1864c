-- ===== src/Prelude/Slices.antt =====
-- Laws of `slice`: skipping a prefix of known length, and what follows a slice.
use Prim.Native.Nat.{ℕ, zero, suc, ◌+◌, ◌-◌, ◌≤◌}
use mathlib.Core.Path.{◌≡◌, refl, sym, ap, ap₂, ◌∙◌}
use mathlib.Core.List.{List, [], ◌∷◌, ◌++◌}
use native.Mathlib.Omega.{arith}
use mmbus.Prelude.Lists.{
  length, take, drop, slice, take-append, length-take, length-drop, drop-drop,
}

module _ {ℓ} {A : Type ℓ} where
  pub drop-append_add :
      (m n : ℕ) (xs ys : List A) → length xs ≡ m → drop (m + n) (xs ++ ys) ≡ drop n ys
  drop-append_add zero n [] ys h = let e : 0 + n ≡ n = omega arith in ap (λ k. drop k ys) e
  drop-append_add (suc m) n [] ys h = absurd (omega arith)
  drop-append_add zero n (x ∷ xs) ys h = absurd (omega arith)
  drop-append_add (suc m) n (x ∷ xs) ys h =
      let e : suc m + n ≡ suc (m + n) = omega arith in
      ap (λ k. drop k (x ∷ (xs ++ ys))) e ∙ drop-append_add m n xs ys (omega arith)

  -- `(xs ++ ys)[m + a..m + b]` is `ys[a..b]` where `xs` has `m` elements.
  pub slice-skip :
      (m a b : ℕ) (xs ys : List A) → length xs ≡ m → slice (m + a) (m + b) (xs ++ ys) ≡ slice a b ys
  slice-skip m a b xs ys h =
      let e : m + b - (m + a) ≡ b - a = omega arith in ap₂ take e (drop-append_add m a xs ys h)

  -- The same at given bounds.
  pub slice-skip_at :
      (i j m a b : ℕ) (xs ys : List A)
      → length xs ≡ m
      → i ≡ m + a
      → j ≡ m + b
      → slice i j (xs ++ ys) ≡ slice a b ys
  slice-skip_at i j m a b xs ys h p q =
      ap₂ (λ i j. slice i j (xs ++ ys)) p q ∙ slice-skip m a b xs ys h

  -- A prefix of known length.
  pub slice-append : (n : ℕ) (xs ys : List A) → length xs ≡ n → slice 0 n (xs ++ ys) ≡ xs
  slice-append n xs ys h =
      let e : n - 0 ≡ n = omega arith in ap (λ k. take k (xs ++ ys)) e ∙ take-append n xs ys h

  pub take-append_left : (n : ℕ) (xs ys : List A) → n ≤ length xs → take n (xs ++ ys) ≡ take n xs
  take-append_left zero xs ys h = refl
  take-append_left (suc n) [] ys h = absurd (omega arith)
  take-append_left (suc n) (x ∷ xs) ys h = ap (λ t. x ∷ t) (take-append_left n xs ys (omega arith))

  pub drop-append_left :
      (n : ℕ) (xs ys : List A) → n ≤ length xs → drop n (xs ++ ys) ≡ drop n xs ++ ys
  drop-append_left zero xs ys h = refl
  drop-append_left (suc n) [] ys h = absurd (omega arith)
  drop-append_left (suc n) (x ∷ xs) ys h = drop-append_left n xs ys (omega arith)

  -- A slice inside `xs` does not see what follows `xs`.
  pub slice-append_left :
      (a b : ℕ) (xs ys : List A) → a ≤ b → b ≤ length xs → slice a b (xs ++ ys) ≡ slice a b xs
  slice-append_left a b xs ys h k =
      ap (take (b - a)) (drop-append_left a xs ys (omega arith))
      ∙ take-append_left (b - a) (drop a xs) ys (omega (arith, length-drop a xs))

  pub length-slice : (a b : ℕ) (xs : List A) → a ≤ b → b ≤ length xs → length (slice a b xs) ≡ b - a
  length-slice a b xs h k = omega (arith, length-take (b - a) (drop a xs), length-drop a xs)

  pub take-add : (m n : ℕ) (xs : List A) → take (m + n) xs ≡ take m xs ++ take n (drop m xs)
  take-add zero n xs = let e : 0 + n ≡ n = omega arith in ap (λ k. take k xs) e
  take-add (suc m) zero [] =
      let e : suc m + 0 ≡ suc m = omega arith in ap (λ k. take {A = A} k []) e
  take-add (suc m) (suc n) [] =
      let e : suc m + suc n ≡ suc (m + suc n) = omega arith in ap (λ k. take {A = A} k []) e
  take-add (suc m) n (x ∷ xs) =
      let e : suc m + n ≡ suc (m + n) = omega arith in
      ap (λ k. take k (x ∷ xs)) e ∙ ap (λ t. x ∷ t) (take-add m n xs)

  -- Two slices that meet join.
  pub slice-append-slice :
      (i j k : ℕ) (xs : List A) → i ≤ j → j ≤ k → slice i j xs ++ slice j k xs ≡ slice i k xs
  slice-append-slice i j k xs p q =
      let e : i + (j - i) ≡ j = omega arith in
      let l : j - i + (k - j) ≡ k - i = omega arith in
      sym (
        ap (λ m. take m (drop i xs)) (sym l)
        ∙ take-add (j - i) (k - j) (drop i xs)
        ∙ ap (λ t. take (j - i) (drop i xs) ++ take (k - j) t)
            (drop-drop (j - i) i xs ∙ ap (λ m. drop m xs) e))
