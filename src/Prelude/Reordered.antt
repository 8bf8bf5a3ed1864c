-- ===== src/Prelude/Reordered.antt =====
-- Predicates on the members of a list, pairs of members and filtering, under a change of order.
use mathlib.Core.Path.{◌≡◌, refl, ap, ◌∙◌, subst}
use mathlib.Core.Bool.{Bool, true, false}
use mathlib.Core.List.{List, [], ◌∷◌, map, Permᴰ}
use mathlib.Core.List.Permᴰ
use Prim.Native.Nat.{suc}
use mmbus.Prelude.Lists.{length}

abbrev pub All {ℓ κ} : {A : Type ℓ} → (A → Type κ) → List A → Type κ
All P [] = Unit
All P (x ∷ xs) = P x × All P xs

-- Each member and each later one.
abbrev pub Pairs {ℓ κ} : {A : Type ℓ} → (A → A → Type κ) → List A → Type κ
Pairs R [] = Unit
Pairs R (x ∷ xs) = All (R x) xs × Pairs R xs

-- The members that pass the test, in their order.
abbrev pub keep {ℓ} : {A : Type ℓ} → (A → Bool) → List A → List A
keep f [] = []
keep f (x ∷ xs) = elim (f x) [ true ↦ x ∷ keep f xs | false ↦ keep f xs ]

module _ {ℓ} {A : Type ℓ} where
  pub All-Perm {κ} : (P : A → Type κ) {xs ys : List A} → Permᴰ xs ys → All P xs → All P ys
  All-Perm P Permᴰ.nil a = a
  All-Perm P (Permᴰ.cons e d) (h, a) = (subst P e h, All-Perm P d a)
  All-Perm P (Permᴰ.swap e₁ e₂) (h, (k, a)) = (subst P e₂ k, (subst P e₁ h, a))
  All-Perm P (Permᴰ.trans d₁ d₂) a = All-Perm P d₂ (All-Perm P d₁ a)

  All-map {κ ι} :
      (P : A → Type κ) (Q : A → Type ι)
      → ((x : A) → P x → Q x)
      → (xs : List A) → All P xs
      → All Q xs
  All-map P Q f [] a = tt
  All-map P Q f (x ∷ xs) (h, a) = (f x h, All-map P Q f xs a)

  pub Pairs-Perm {κ} :
      (R : A → A → Type κ)
      → ((x y : A) → R x y → R y x)
      → {xs ys : List A} → Permᴰ xs ys
      → Pairs R xs
      → Pairs R ys
  Pairs-Perm R s Permᴰ.nil a = a
  Pairs-Perm R s (Permᴰ.cons {b = b} {l₁ = l₁} e d) (h, a) =
      (All-Perm (R b) d (subst (λ t. All (R t) l₁) e h), Pairs-Perm R s d a)
  Pairs-Perm R s (Permᴰ.swap {a = a} {b = b} {b' = b'} {l = l} e₁ e₂) ((h, hs), (ks, a')) = (
    (subst (λ t. R t b') e₂ (subst (R b) e₁ (s a b h)), subst (λ t. All (R t) l) e₂ ks),
    (subst (λ t. All (R t) l) e₁ hs, a'),
  )
  Pairs-Perm R s (Permᴰ.trans d₁ d₂) a = Pairs-Perm R s d₂ (Pairs-Perm R s d₁ a)

  pub keep-Perm : (f : A → Bool) {xs ys : List A} → Permᴰ xs ys → Permᴰ (keep f xs) (keep f ys)
  keep-Perm f Permᴰ.nil = Permᴰ.nil
  keep-Perm f (Permᴰ.cons {a = a} {b = b} {l₁ = l₁} {l₂ = l₂} e d) =
      subst (λ t. Permᴰ (keep f (a ∷ l₁)) (keep f (t ∷ l₂))) e (go (f a) (keep-Perm f d))
    where
      go :
          (t : Bool)
          → Permᴰ (keep f l₁) (keep f l₂)
          → Permᴰ
              (elim t [ true ↦ a ∷ keep f l₁ | false ↦ keep f l₁ ])
              (elim t [ true ↦ a ∷ keep f l₂ | false ↦ keep f l₂ ])
      go true ih = Permᴰ.cons refl ih
      go false ih = ih
  keep-Perm f (Permᴰ.swap {a = a} {b = b} {a' = a'} {b' = b'} {l = l} e₁ e₂) =
      subst (λ t. Permᴰ (keep f (a ∷ b ∷ l)) (keep f (t ∷ b' ∷ l))) e₂
        (subst (λ t. Permᴰ (keep f (a ∷ b ∷ l)) (keep f (b ∷ t ∷ l))) e₁ (go (f a) (f b)))
    where
      with : Bool → A → List A → List A
      with t x xs = elim t [ true ↦ x ∷ xs | false ↦ xs ]

      go : (s t : Bool) → Permᴰ (with s a (with t b (keep f l))) (with t b (with s a (keep f l)))
      go true true = Permᴰ.swap refl refl
      go true false = Permᴰ.refl (a ∷ keep f l)
      go false true = Permᴰ.refl (b ∷ keep f l)
      go false false = Permᴰ.refl (keep f l)
  keep-Perm f (Permᴰ.trans d₁ d₂) = Permᴰ.trans (keep-Perm f d₁) (keep-Perm f d₂)

pub map-Perm {ℓ κ} :
    {A : Type ℓ} {B : Type κ} (f : A → B) {xs ys : List A}
    → Permᴰ xs ys
    → Permᴰ (map f xs) (map f ys)
map-Perm f Permᴰ.nil = Permᴰ.nil
map-Perm f (Permᴰ.cons e d) = Permᴰ.cons (ap f e) (map-Perm f d)
map-Perm f (Permᴰ.swap e₁ e₂) = Permᴰ.swap (ap f e₁) (ap f e₂)
map-Perm f (Permᴰ.trans d₁ d₂) = Permᴰ.trans (map-Perm f d₁) (map-Perm f d₂)

pub length-Perm {ℓ} : {A : Type ℓ} {xs ys : List A} → Permᴰ xs ys → length xs ≡ length ys
length-Perm Permᴰ.nil = refl
length-Perm (Permᴰ.cons e d) = ap suc (length-Perm d)
length-Perm (Permᴰ.swap e₁ e₂) = refl
length-Perm (Permᴰ.trans d₁ d₂) = length-Perm d₁ ∙ length-Perm d₂

module _ {ℓ} {A : Type ℓ} (f : A → Bool) (x : A) (xs : List A) where
  pub keep_in : f x ≡ true → keep f (x ∷ xs) ≡ x ∷ keep f xs
  keep_in e = ap (λ t. elim t [ true ↦ x ∷ keep f xs | false ↦ keep f xs ]) e

  pub keep_out : f x ≡ false → keep f (x ∷ xs) ≡ keep f xs
  keep_out e = ap (λ t. elim t [ true ↦ x ∷ keep f xs | false ↦ keep f xs ]) e
