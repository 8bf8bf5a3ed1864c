-- ===== src/Ring/Cursors.antt =====
-- The table of cursors of crates/mmbus/src/ring.rs: claiming, and the minimum that decides whether
-- the ring is full.
use mmbus.Prelude.{
  ℕ, zero, suc, ◌+◌, ◌-◌, ◌^◌, ◌≤◌, ◌<◌, ◌≡◌, ◌≢◌, ◌⊎◌, inl, inr, ◌↔◌, refl, sym, ap, subst, ◌∙◌,
  true, Option, none, some, ◌==◌, leb, arith, Bool-cases, ==_iff, Option-cases, min, dec_lt,
  ℕ_discrete,
}
use mmbus.Ring.{Ring, cursor_unclaimed, min_below, min_active_cursor, is_full, wrapping_sub}

abbrev pub IsClaimed : (ℕ → ℕ) → ℕ → Type 0
IsClaimed cursors i = cursors i ≢ cursor_unclaimed

-- The result of the search for the minimum.
abbrev pub IsMinBelow : (ℕ → ℕ) → ℕ → Option ℕ → Type 0
IsMinBelow cursors n none = (i : ℕ) → i < n → cursors i ≡ cursor_unclaimed
IsMinBelow cursors n (some m) =
    ((j : ℕ) × (j < n) × IsClaimed cursors j × (cursors j ≡ m))
    × ((i : ℕ) → i < n → IsClaimed cursors i → m ≤ cursors i)

module _ (cursors : ℕ → ℕ) (n : ℕ) where
  below_suc : {i : ℕ} → i < suc n → (i < n) ⊎ (n ≡ i)
  below_suc {i} lt = elim (ℕ_discrete n i) [ yes e ↦ inr e | no h ↦ inl (omega (arith, h)) ]

  skip_unclaimed :
      cursors n ≡ cursor_unclaimed
      → (r : Option ℕ) → IsMinBelow cursors n r
      → IsMinBelow cursors (suc n) r
  skip_unclaimed free none all =
      λ i lt. elim (below_suc lt) [ inl h ↦ all i h | inr e ↦ ap cursors (sym e) ∙ free ]
  skip_unclaimed free (some m) ((j, below, claimed, is), least) = (
    (j, omega arith, claimed, is),
    λ i lt c. elim (below_suc lt) [
      | inl h ↦ least i h c
      | inr e ↦ absurd (c (ap cursors (sym e) ∙ free))
    ],
  )

  take_claimed :
      IsClaimed cursors n
      → (r : Option ℕ) → IsMinBelow cursors n r
      → IsMinBelow cursors
          (suc n)
          (elim r [ none ↦ some (cursors n) | some m ↦ some (min m (cursors n)) ])
  take_claimed here none all = (
    (n, omega arith, here, refl),
    λ i lt c. elim (below_suc lt) [
      | inl h ↦ absurd (c (all i h))
      | inr e ↦ omega (arith, ap cursors e)
    ],
  )
  take_claimed here (some m) ((j, below, claimed, is), least) = (
    which,
    λ i lt c. elim (below_suc lt) [
      | inl h ↦ omega (arith, least i h c)
      | inr e ↦ omega (arith, ap cursors e)
    ],
  )
    where
      which : (j : ℕ) × (j < suc n) × IsClaimed cursors j × (cursors j ≡ min m (cursors n))
      which = elim (dec_lt m (cursors n)) [
        | yes lt ↦ (j, omega arith, claimed, omega (arith, lt))
        | no ge ↦ (n, omega arith, here, omega (arith, ge))
      ]

min_below-IsMinBelow : (cursors : ℕ → ℕ) (n : ℕ) → IsMinBelow cursors n (min_below cursors n)
unfolding min_below
min_below-IsMinBelow cursors zero = λ i lt. absurd (omega arith)
min_below-IsMinBelow cursors (suc n) =
    let ih = min_below-IsMinBelow cursors n in
    elim (Bool-cases (cursors n == cursor_unclaimed)) [
      | inl free ↦ rw free (skip_unclaimed cursors n ((==_iff _ _).0 free) (min_below cursors n) ih)
      | inr claimed ↦
          rw claimed (take_claimed cursors n (ground (arith, claimed)) (min_below cursors n) ih)
    ]

-- `min_active_cursor` is the least cursor that a subscriber has claimed, and `none` only when no
-- cursor is claimed.
pub min_active_cursor-IsMinBelow :
    (r : Ring) → IsMinBelow r.cursors r.max_subscribers (min_active_cursor r)
unfolding min_active_cursor
min_active_cursor-IsMinBelow r = min_below-IsMinBelow r.cursors r.max_subscribers

wrapping_sub_lem : (a b : ℕ) → b ≤ a → a < 2 ^ 64 → wrapping_sub a b ≡ a - b
wrapping_sub_lem a b le lt = omega arith

-- The claimed cursors are not ahead of the tail, which is a word.
pub record CursorsBehind (r : Ring) : Type 0 where
  pub behind : (i : ℕ) → i < r.max_subscribers → IsClaimed r.cursors i → r.cursors i ≤ r.tail
  pub word : r.tail < 2 ^ 64
  pub room : 0 < r.capacity

is_full-of :
    (r : Ring) (o : Option ℕ)
    → min_active_cursor r ≡ o
    → is_full r ≡ elim o [
      | none ↦ leb r.capacity (wrapping_sub r.tail r.tail)
      | some m ↦ leb r.capacity (wrapping_sub r.tail m)
    ]
unfolding is_full
is_full-of r o e =
    ap
      (λ (o : Option ℕ). elim o [
        | none ↦ leb r.capacity (wrapping_sub r.tail r.tail)
        | some m ↦ leb r.capacity (wrapping_sub r.tail m)
      ])
      e

-- A subscriber has a whole ring of messages still to read.
abbrev pub IsHeld : Ring → Type 0
IsHeld r =
    (i : ℕ) × (i < r.max_subscribers) × IsClaimed r.cursors i × (r.cursors i + r.capacity ≤ r.tail)

-- `is_full` says whether some subscriber has not read the message that the next one would
-- overwrite, when no cursor is ahead of the tail.
pub is_full_iff : (r : Ring) → CursorsBehind r → (is_full r ≡ true) ↔ IsHeld r
is_full_iff r b = elim (Option-cases (min_active_cursor r)) [
  | inl nobody ↦
      let all : IsMinBelow r.cursors r.max_subscribers none =
        subst (IsMinBelow r.cursors r.max_subscribers) nobody (min_active_cursor-IsMinBelow r) in
      rw (is_full-of r none nobody) (
        (λ full. absurd (ground (arith, full, b.room, b.word))),
        (λ (i, lt, claimed, le). absurd (claimed (all i lt))),
      )
  | inr (m, is) ↦
      let ((j, below, claimed, at), least) : IsMinBelow r.cursors r.max_subscribers (some m) =
        subst (IsMinBelow r.cursors r.max_subscribers) is (min_active_cursor-IsMinBelow r) in
      let le : m ≤ r.tail = omega (arith, b.behind j below claimed) in
      let sub = wrapping_sub_lem r.tail m le b.word in
      rw (is_full-of r (some m) is) (
        (λ full. (j, below, claimed, ground (arith, full, at, sub, le))),
        (λ (i, lt, taken, held). ground (arith, least i lt taken, held, sub, le)),
      )
]

-- Where every claimed cursor is ahead of the tail, and one of them is below 2 ^ 63, the ring counts as
-- full, whatever it holds. The capacity is at most 2 ^ 63.
pub is_full-ahead :
    (r : Ring) (i : ℕ)
    → i < r.max_subscribers
    → IsClaimed r.cursors i
    → ((j : ℕ) → j < r.max_subscribers → IsClaimed r.cursors j → r.tail < r.cursors j)
    → r.cursors i < 2 ^ 63
    → r.capacity ≤ 2 ^ 63
    → is_full r ≡ true
is_full-ahead r i lt claimed ahead word small = elim (Option-cases (min_active_cursor r)) [
  | inl nobody ↦
      let all : IsMinBelow r.cursors r.max_subscribers none =
        subst (IsMinBelow r.cursors r.max_subscribers) nobody (min_active_cursor-IsMinBelow r) in
      absurd (claimed (all i lt))
  | inr (m, is) ↦
      let ((j, below, taken, at), least) : IsMinBelow r.cursors r.max_subscribers (some m) =
        subst (IsMinBelow r.cursors r.max_subscribers) is (min_active_cursor-IsMinBelow r) in
      let beyond : r.tail < m = omega (arith, ahead j below taken) in
      let bound : m < 2 ^ 63 = omega (arith, least i lt claimed) in
      let sub : wrapping_sub r.tail m ≡ r.tail + 2 ^ 64 - m = omega arith in
      rw (is_full-of r (some m) is) (ground (arith, sub, beyond, bound, small))
]
