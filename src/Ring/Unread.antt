-- ===== src/Ring/Unread.antt =====
-- `try_publish` of crates/mmbus/src/ring.rs and the messages that subscribers have still to read.
use mmbus.Prelude.{
  ℕ, ap, subst, Bool, Option, none, suc, ◌+◌, ◌%◌, ◌^◌, ◌≤◌, ◌<◌, ◌≡◌, ◌≢◌, ◌⊎◌, inl, inr, refl,
  sym, ◌∙◌, true, false, some, ltb, length, List, [], ◌∷◌, ◌++◌, arith, update_ne, Bool-cases,
  dec_lt, mod_unique,
}
use mmbus.Ring.{
  Ring, Store, store_seq, store_len, store_byte, store_tail, apply, apply_all, byte_stores,
  write_ops, publish_ops, try_publish, is_full,
}
use mmbus.Ring.Cursors.{IsClaimed, CursorsBehind, IsHeld, is_full_iff}

-- A store that concerns slot `k` only.
abbrev IsTo : ℕ → Store → Type 0
IsTo k (store_seq i v) = i ≡ k
IsTo k (store_len i v) = i ≡ k
IsTo k (store_byte i j v) = i ≡ k
IsTo k (store_tail v) = Unit

abbrev AllTo : ℕ → List Store → Type 0
AllTo k [] = Unit
AllTo k (s ∷ ss) = IsTo k s × AllTo k ss

-- Everything but slot `k` and the tail.
record Alike (k : ℕ) (r q : Ring) : Type 0 where
  capacity : q.capacity ≡ r.capacity
  size : q.slot_payload_size ≡ r.slot_payload_size
  subscribers : q.max_subscribers ≡ r.max_subscribers
  cursors : q.cursors ≡ r.cursors
  slot : (i : ℕ) → k ≢ i → q.slots i ≡ r.slots i

apply-Alike : (k : ℕ) (r : Ring) (s : Store) → IsTo k s → Alike k r (apply r s)
unfolding apply
apply-Alike k r (store_seq i v) to = record {
  capacity = refl;
  size = refl;
  subscribers = refl;
  cursors = refl;
  slot = λ j ne. update_ne r.slots i j _ (λ e. ne (sym to ∙ e));
}
apply-Alike k r (store_len i v) to = record {
  capacity = refl;
  size = refl;
  subscribers = refl;
  cursors = refl;
  slot = λ j ne. update_ne r.slots i j _ (λ e. ne (sym to ∙ e));
}
apply-Alike k r (store_byte i j' v) to = record {
  capacity = refl;
  size = refl;
  subscribers = refl;
  cursors = refl;
  slot = λ j ne. update_ne r.slots i j _ (λ e. ne (sym to ∙ e));
}
apply-Alike k r (store_tail v) to = record {
  capacity = refl;
  size = refl;
  subscribers = refl;
  cursors = refl;
  slot = λ j ne. refl;
}

apply_all-Alike : (k : ℕ) (r : Ring) (ss : List Store) → AllTo k ss → Alike k r (apply_all r ss)
unfolding apply_all
apply_all-Alike k r [] to = record {
  capacity = refl;
  size = refl;
  subscribers = refl;
  cursors = refl;
  slot = λ j ne. refl;
}
apply_all-Alike k r (s ∷ ss) (here, to) =
    let a = apply-Alike k r s here in
    let b = apply_all-Alike k (apply r s) ss to in
    record {
      capacity = b.capacity ∙ a.capacity;
      size = b.size ∙ a.size;
      subscribers = b.subscribers ∙ a.subscribers;
      cursors = b.cursors ∙ a.cursors;
      slot = λ i ne. b.slot i ne ∙ a.slot i ne;
    }

-- The tail after stores of which the last is to the tail.
apply_all-tail :
    (r : Ring) (ss : List Store) (t : ℕ) → (apply_all r (ss ++ (store_tail t ∷ []))).tail ≡ t
unfolding apply_all apply
apply_all-tail r [] t = refl
apply_all-tail r (s ∷ ss) t = apply_all-tail (apply r s) ss t

AllTo-append : (k : ℕ) (ss ts : List Store) → AllTo k ss → AllTo k ts → AllTo k (ss ++ ts)
AllTo-append k [] ts a b = b
AllTo-append k (s ∷ ss) ts (h, a) b = (h, AllTo-append k ss ts a b)

byte_stores-AllTo : (k j : ℕ) (m : List ℕ) → AllTo k (byte_stores k j m)
unfolding byte_stores
byte_stores-AllTo k j [] = tt
byte_stores-AllTo k j (b ∷ m) = (refl, byte_stores-AllTo k (suc j) m)

publish_ops-AllTo : (r : Ring) (m : List ℕ) → AllTo (r.tail % r.capacity) (publish_ops r m)
unfolding publish_ops write_ops
publish_ops-AllTo r m =
    let k = r.tail % r.capacity in
    (
      refl,
      (
        refl,
        AllTo-append k (byte_stores k 0 m ++ (store_seq k r.tail ∷ [])) _
            (AllTo-append k (byte_stores k 0 m) _ (byte_stores-AllTo k 0 m) (refl, tt)) (tt, tt),
      ),
    )

pub publish_ops-tail :
    (r : Ring) (m : List ℕ) → (apply_all r (publish_ops r m)).tail ≡ (r.tail + 1) % 2 ^ 64
unfolding publish_ops
publish_ops-tail r m = apply_all-tail r (write_ops r r.tail m) ((r.tail + 1) % 2 ^ 64)

-- The message at each position that the subscriber at `i` has still to read is in its slot.
abbrev pub Kept : Ring → Ring → ℕ → Type 0
Kept r q i =
    (s : ℕ) → r.cursors i ≤ s → s < r.tail → q.slots (s % r.capacity) ≡ r.slots (s % r.capacity)

try_publish-Kept :
    (r : Ring) (m : List ℕ)
    → CursorsBehind r
    → r.tail + 1 < 2 ^ 64
    → length m ≤ r.slot_payload_size
    → (IsHeld r × (try_publish r m ≡ some (r, false)))
      ⊎ ((q : Ring) × (try_publish r m ≡ some (q, true))
          × (q.tail ≡ r.tail + 1)
          × (q.cursors ≡ r.cursors)
          × ((i : ℕ)
              → i < r.max_subscribers
              → IsClaimed r.cursors i
              → (q.tail ≤ r.cursors i + r.capacity) × Kept r q i))
unfolding try_publish
try_publish-Kept r m b word fit =
    let small : ltb r.slot_payload_size (length m) ≡ false = ground arith in
    elim (Bool-cases (is_full r)) [
      | inl full ↦ rw (small, full) (inl ((is_full_iff r b).0 full, refl))
      | inr free ↦
          rw (small, free)
            (inr (
              q,
              refl,
              publish_ops-tail r m ∙ next,
              alike.cursors,
              λ i lt claimed.
                  let close : r.tail < r.cursors i + r.capacity = near free i lt claimed in
                  (
                    omega (arith, publish_ops-tail r m, next),
                    λ s from below. alike.slot (s % r.capacity) (λ e.
                        let same : s ≡ r.tail =
                          mod_unique r.capacity s r.tail (omega arith) (omega arith) (sym e) in
                        omega (arith, same)),
                  ),
            ))
    ]
  where
    q : Ring
    q = apply_all r (publish_ops r m)

    next : (r.tail + 1) % 2 ^ 64 ≡ r.tail + 1
    next = omega arith

    alike : Alike (r.tail % r.capacity) r q
    alike = apply_all-Alike _ r (publish_ops r m) (publish_ops-AllTo r m)

    near :
        is_full r ≡ false
        → (i : ℕ) → i < r.max_subscribers
        → IsClaimed r.cursors i
        → r.tail < r.cursors i + r.capacity
    near free i lt claimed = elim (dec_lt r.tail (r.cursors i + r.capacity)) [
      | yes h ↦ h
      | no h ↦ absurd (cc ((is_full_iff r b).1 (i, lt, claimed, omega (arith, h)), free))
    ]

-- `try_publish` on a message that fits, when no claimed cursor is ahead of the tail: if some
-- subscriber has a whole ring still to read, it changes nothing and says `false`; otherwise it
-- moves the tail by one, no cursor, and says `true`.
pub try_publish-branches :
    (r : Ring) (m : List ℕ)
    → CursorsBehind r
    → r.tail + 1 < 2 ^ 64
    → length m ≤ r.slot_payload_size
    → (IsHeld r × (try_publish r m ≡ some (r, false)))
      ⊎ ((q : Ring) × (try_publish r m ≡ some (q, true))
          × (q.tail ≡ r.tail + 1)
          × (q.cursors ≡ r.cursors))
try_publish-branches r m b word fit = elim (try_publish-Kept r m b word fit) [
  | inl full ↦ inl full
  | inr (q, e, tail, cursors, kept) ↦ inr (q, e, tail, cursors)
]

-- Backpressure: whatever `try_publish` answers, a message that a subscriber has still to read, at
-- position `s`, is in its slot as before, and the subscriber stays at most a ring behind the tail,
-- if it was so before. No claimed cursor is ahead of the tail, and the message fits.
pub try_publish-keeps_unread :
    (r q : Ring) (m : List ℕ) (accepted : Bool) (i s : ℕ)
    → CursorsBehind r
    → r.tail + 1 < 2 ^ 64
    → length m ≤ r.slot_payload_size
    → i < r.max_subscribers
    → IsClaimed r.cursors i
    → r.tail ≤ r.cursors i + r.capacity
    → r.cursors i ≤ s
    → s < r.tail
    → try_publish r m ≡ some (q, accepted)
    → (q.cursors i ≡ r.cursors i)
      × (q.tail ≤ q.cursors i + r.capacity)
      × (q.slots (s % r.capacity) ≡ r.slots (s % r.capacity))
try_publish-keeps_unread r q m accepted i s b word fit lt claimed close from below e =
    elim (try_publish-Kept r m b word fit) [
      | inl (held, full) ↦
          let same : r ≡ q = same_ring r q false accepted (sym full ∙ e) in
          subst (Fine r) same (refl, close, refl)
      | inr (q', e', tail, cursors, kept) ↦
          let same : q' ≡ q = same_ring q' q true accepted (sym e' ∙ e) in
          let (le, unread) = kept i lt claimed in
          let at : q'.cursors i ≡ r.cursors i = ap (λ (f : ℕ → ℕ). f i) cursors in
          subst (Fine r) same (at, omega (arith, le, at), unread s from below)
    ]
  where
    ring_of : Option (Ring × Bool) → Ring
    ring_of none = r
    ring_of (some (a, x)) = a

    same_ring :
        (a b : Ring) (x y : Bool)
        → ◌≡◌ {A = Option (Ring × Bool)} (some (a, x)) (some (b, y))
        → a ≡ b
    same_ring a b x y e = ap ring_of e

    Fine : Ring → Ring → Type 0
    Fine r q =
        (q.cursors i ≡ r.cursors i)
        × (q.tail ≤ q.cursors i + r.capacity)
        × (q.slots (s % r.capacity) ≡ r.slots (s % r.capacity))
