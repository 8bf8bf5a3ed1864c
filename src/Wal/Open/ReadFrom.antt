-- ===== src/Wal/Open/ReadFrom.antt =====
-- The segments that `Wal::read_from` of crates/mmbus/src/wal/wal.rs chooses.
use mmbus.Prelude.{
  ℕ, ◌≤◌, ◌<◌, ◌≡◌, ◌⊎◌, inl, inr, refl, ap, subst, ◌∙◌, true, false, List, [], ◌∷◌, ◌++◌, none, ok,
  err, arith, ltb, leb, Bool-cases,
}
use mmbus.Wal.Aggregator.{Wal, cursor_too_old}
use mmbus.Wal.Open.{containing, keys_from, read_segments, read_from}

abbrev pub Above : ℕ → List ℕ → Type 0
Above k [] = Unit
Above k (j ∷ js) = (k < j) × Above k js

abbrev pub Ascending : List ℕ → Type 0
Ascending [] = Unit
Ascending (k ∷ ks) = Above k ks × Ascending ks

abbrev Below : ℕ → List ℕ → Type 0
Below k [] = Unit
Below k (j ∷ js) = (j < k) × Below k js

Above-weaken : (j k : ℕ) (ks : List ℕ) → j ≤ k → Above k ks → Above j ks
Above-weaken j k [] le a = tt
Above-weaken j k (i ∷ ks) le (lt, a) = (omega arith, Above-weaken j k ks le a)

Above-middle : (k : ℕ) (xs : List ℕ) (c : ℕ) (ys : List ℕ) → Above k (xs ++ (c ∷ ys)) → k < c
Above-middle k [] c ys (lt, a) = lt
Above-middle k (x ∷ xs) c ys (lt, a) = Above-middle k xs c ys a

-- The keys with the largest that is at most `cursor`.
abbrev Picked : ℕ → List ℕ → ℕ → Type 0
Picked cursor ks got =
    (skipped : List ℕ) × (rest : List ℕ) × (ks ≡ skipped ++ (got ∷ rest))
    × (got ≤ cursor)
    × Above cursor rest
    × Below got skipped
    × Above got rest

containing-Picked :
    (cursor k : ℕ) (ks : List ℕ)
    → Above k ks
    → Ascending ks
    → k ≤ cursor
    → Picked cursor (k ∷ ks) (containing cursor ks k)
unfolding containing
containing-Picked cursor k [] above up le = ([], [], refl, le, tt, tt, tt)
containing-Picked cursor k (j ∷ js) (lt, above) (above', up) le = elim (Bool-cases (leb j cursor)) [
  | inl more ↦
      let (skipped, rest, split, le', over, below, above'') =
        containing-Picked cursor j js above' up (ground (arith, more)) in
      let in_order : Above k (skipped ++ (containing cursor js j ∷ rest)) =
        subst (Above k) split (lt, above) in
      rw more (
        k ∷ skipped,
        rest,
        ap (λ t. k ∷ t) split,
        le',
        over,
        (Above-middle k skipped _ rest in_order, below),
        above'',
      )
  | inr last ↦
      let over : cursor < j = ground (arith, last) in
      rw last (
        [],
        j ∷ js,
        refl,
        le,
        (over, Above-weaken cursor j js (omega (arith, over)) above'),
        tt,
        (lt, above),
      )
]

keys_from-all : (c : ℕ) (ks : List ℕ) → Above c ks → keys_from c ks ≡ ks
unfolding keys_from
keys_from-all c [] a = refl
keys_from-all c (k ∷ ks) (lt, a) =
    let e : ltb k c ≡ false = ground (arith, lt) in rw e (ap (λ t. k ∷ t) (keys_from-all c ks a))

keys_from-middle :
    (skipped : List ℕ) (c : ℕ) (rest : List ℕ)
    → Below c skipped
    → Above c rest
    → keys_from c (skipped ++ (c ∷ rest)) ≡ c ∷ rest
unfolding keys_from
keys_from-middle [] c rest b a =
    let e : ltb c c ≡ false = ground arith in rw e (ap (λ t. c ∷ t) (keys_from-all c rest a))
keys_from-middle (k ∷ skipped) c rest (lt, b) a =
    let e : ltb k c ≡ true = ground (arith, lt) in rw e (keys_from-middle skipped c rest b a)

-- `read_from` on a log whose segments are in order: nothing to read where there is no segment; an
-- error, with the oldest cursor, where the cursor is before the first segment; and otherwise all
-- segments from the last one on that begins at or before the cursor, so that a segment is left out
-- only if another one after it begins at or before the cursor.
pub read_from-covers :
    (w : Wal) (cursor : ℕ)
    → Ascending w.segments
    → ((w.segments ≡ [])
        × (read_from w cursor
            ≡ ok (record { segments = []; cursor_floor = cursor; current = none })))
      ⊎ (((oldest : ℕ) × (rest : List ℕ) × (w.segments ≡ oldest ∷ rest)
            × (cursor < oldest)
            × (read_from w cursor ≡ err (cursor_too_old cursor oldest)))
          ⊎ ((skipped : List ℕ) × (first : ℕ) × (rest : List ℕ) × (w.segments
                ≡ skipped ++ (first ∷ rest))
              × (first ≤ cursor)
              × Above cursor rest
              × (read_from w cursor
                  ≡ ok
                      (record { segments = first ∷ rest; cursor_floor = cursor; current = none }))))
unfolding read_from read_segments containing
read_from-covers w cursor up = go w.segments refl up
  where
    go :
        (ks : List ℕ)
        → w.segments ≡ ks
        → Ascending ks
        → ((ks ≡ [])
            × (read_segments ks cursor
                ≡ ok (record { segments = []; cursor_floor = cursor; current = none })))
          ⊎ (((oldest : ℕ) × (rest : List ℕ) × (ks ≡ oldest ∷ rest)
                × (cursor < oldest)
                × (read_segments ks cursor ≡ err (cursor_too_old cursor oldest)))
              ⊎ ((skipped : List ℕ) × (first : ℕ) × (rest : List ℕ) × (ks
                    ≡ skipped ++ (first ∷ rest))
                  × (first ≤ cursor)
                  × Above cursor rest
                  × (read_segments ks cursor
                      ≡ ok (record {
                        segments = first ∷ rest;
                        cursor_floor = cursor;
                        current = none;
                      }))))
    go [] e up = inl (refl, refl)
    go (k ∷ ks) e (above, up) = elim (Bool-cases (ltb cursor k)) [
      | inl old ↦ rw old (inr (inl (k, ks, refl, ground (arith, old), refl)))
      | inr in_reach ↦
          let le : k ≤ cursor = ground (arith, in_reach) in
          let here : leb k cursor ≡ true = ground (arith, le) in
          let (skipped, rest, split, le', over, below, above') =
            containing-Picked cursor k ks above up le in
          rw (in_reach, here)
            (inr (
              inr (
                skipped,
                containing cursor ks k,
                rest,
                split,
                le',
                over,
                ap (λ t. ok (record { segments = t; cursor_floor = cursor; current = none }))
                    (ap (keys_from (containing cursor ks k)) split
                      ∙ keys_from-middle skipped _ rest below above'),
              )))
    ]
