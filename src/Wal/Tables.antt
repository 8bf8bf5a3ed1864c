-- ===== src/Wal/Tables.antt =====
-- Tables with numbers as keys, in the order of the keys, as the `BTreeMap`s of the log are.
use mmbus.Prelude.{ℕ, List, [], ◌∷◌, Option, none, some, ltb, ◌==◌, ◌+◌, if◌then◌else◌}

abbrev pub insert_key : ℕ → List ℕ → List ℕ
insert_key k [] = k ∷ []
insert_key k (j ∷ js) =
    let rest = insert_key k js in
    if ltb k j then k ∷ (j ∷ js) else if k == j then k ∷ js else j ∷ rest

abbrev pub remove_key : ℕ → List ℕ → List ℕ
remove_key k [] = []
remove_key k (j ∷ js) = let rest = remove_key k js in if k == j then js else j ∷ rest

abbrev pub last_key : List ℕ → Option ℕ
last_key [] = none
last_key (j ∷ []) = some j
last_key (j ∷ (k ∷ ks)) = last_key (k ∷ ks)

module _ {ℓ} {A : Type ℓ} where
  abbrev pub insert : ℕ → A → List (ℕ × A) → List (ℕ × A)
  insert k a [] = (k, a) ∷ []
  insert k a ((j, b) ∷ t) =
      let rest = insert k a t in
      if ltb k j then (k, a) ∷ ((j, b) ∷ t) else if k == j then (k, a) ∷ t else (j, b) ∷ rest

  abbrev pub lookup : ℕ → List (ℕ × A) → Option A
  lookup k [] = none
  lookup k ((j, b) ∷ t) = let rest = lookup k t in if k == j then some b else rest

  abbrev pub remove : ℕ → List (ℕ × A) → List (ℕ × A)
  remove k [] = []
  remove k ((j, b) ∷ t) = let rest = remove k t in if k == j then t else (j, b) ∷ rest

-- The sum of the values.
abbrev pub total : List (ℕ × ℕ) → ℕ
total [] = 0
total ((j, n) ∷ t) = n + total t
