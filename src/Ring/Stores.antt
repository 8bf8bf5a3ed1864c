-- ===== src/Ring/Stores.antt =====
-- The stores of a publish (`write_slot` of crates/mmbus/src/ring.rs) and the invariant of the slots.
use mmbus.Prelude.{
  ℕ, ◌%◌, dec_lt, suc, Bool, true, false, ◌+◌, ◌^◌, ◌≤◌, ◌<◌, ◌≡◌, ◌≢◌, inl, inr, refl, sym, ap,
  ◌∙◌, List, [], ◌∷◌, ◌++◌, length, get_or, get_or-append, arith, update, append_assoc,
  length-append, update_self, update_ne, ℕ_discrete,
}
use native.Mathlib.Nat.{add-mod_right}
use mmbus.Ring.{Slot, Store, store_len, store_tail, clear_writing}
use mmbus.Ring.Reader.{Publishing}
use mmbus.Ring.Invariant.{
  Stored, AllStored, Sizes, target, message, ending, IsOpen, opened, copying, committed, Went, Next,
}

-- `p` with slot `k` changed.
abbrev pub put : Publishing → ℕ → Slot → List Store → Publishing
put p k s ss = record p { ring = record (p.ring) { slots = update p.ring.slots k s }; pending = ss }

module _ (p : Publishing) (c k : ℕ) (s : Slot) (ss : List Store) where
  put-Went : (d : ℕ) → c ≤ d → c ≤ clear_writing s.seq → Went p c (put p k s ss) d
  put-Went d le new = record {
    le = le;
    capacity = refl;
    size = refl;
    kept = λ j h. refl;
    slot = λ i e h. elim (ℕ_discrete k i) [
      | yes same ↦ inr (ground (arith, same))
      | no other ↦ inl (update_ne p.ring.slots k i s other)
    ];
    newer = λ i e h old. elim (ℕ_discrete k i) [
      | yes same ↦ ground (arith, same)
      | no other ↦ rw (update_ne p.ring.slots k i s other) old
    ];
  }

module _ (p : Publishing) (start c k : ℕ) (s : Slot) where
  put-AllStored :
      {busy : Bool}
      → s.seq ≡ c + 2 ^ 63
      → c % p.ring.capacity ≡ k
      → AllStored p.ring p.history start c busy
      → AllStored (put p k s []).ring p.history start c true
  put-AllStored flag here stored i lt = elim (ℕ_discrete k i) [
    | yes same ↦
        let e : update p.ring.slots k s i ≡ s = ground (arith, same) in
        rw e (inr (inl (flag, here ∙ same, refl)))
    | no other ↦ rw (update_ne p.ring.slots k i s other) (busier (stored i lt))
  ]
    where
      busier :
          {b : Bool} {i : ℕ}
          → Stored p.ring.capacity (p.ring.slots i) p.history start c b i
          → Stored p.ring.capacity (p.ring.slots i) p.history start c true i
      busier (inl committed_slot) = inl committed_slot
      busier (inr (inl (flag, at, on))) = inr (inl (flag, at, refl))
      busier (inr (inr unused)) = inr (inr unused)

-- The message at hand is being written to its slot.
module _ (p : Publishing) (start c : ℕ) (at : c ≡ p.ring.tail) (z : Sizes p 1) {busy : Bool}
    (stored : AllStored p.ring p.history start c busy) where
  here : c % p.ring.capacity ≡ target p
  here = ap (λ n. n % p.ring.capacity) at

  pub ready-Next :
      length (message p) ≤ p.ring.slot_payload_size
      → Next start p c (
          put p
            (target p)
            (record (p.ring.slots (target p)) { seq = p.ring.tail + 2 ^ 63 })
            (store_len (target p) (length (message p)) ∷ ending p 0 (message p)))
  ready-Next fit = (
    c,
    opened refl at (record { room = z.room; small = z.small; bound = z.bound; fits = z.fits })
        (record {
          flag = ap (λ (s : Slot). s.seq) (update_self p.ring.slots (target p) _);
          fit = fit;
        })
        (put-AllStored p start c (target p) _ (omega arith) here stored),
    put-Went p c (target p) _ _ c (omega arith) (omega (arith, z)),
  )

  module _ (o : IsOpen p) where
    unfoldable pub slot : Slot
    slot = p.ring.slots (target p)

    pub opened-Next :
        Next start p c
          (put p (target p) (record slot { len = length (message p) }) (ending p 0 (message p)))
    unfolding slot
    opened-Next =
        let e = update_self p.ring.slots (target p) (record slot { len = length (message p) }) in
        (
          c,
          copying [] (message p) refl refl at
              (record { room = z.room; small = z.small; bound = z.bound; fits = z.fits })
              (record { flag = ap (λ (s : Slot). s.seq) e ∙ o.flag; fit = o.fit })
              (ap (λ (s : Slot). s.len) e) (λ j h. absurd (omega arith))
              (put-AllStored p start c (target p) _ (omega (arith, o.flag)) here stored),
          put-Went p c (target p) _ _ c (omega arith) (omega (arith, z, o.flag)),
        )

    pub byte-Next :
        (done : List ℕ) (b : ℕ) (left : List ℕ)
        → message p ≡ done ++ (b ∷ left)
        → slot.len ≡ length (message p)
        → ((j : ℕ) → j < length done → slot.bytes j ≡ get_or (message p) j 0)
        → Next start p c (
            put p
              (target p)
              (record slot { bytes = update slot.bytes (length done) b })
              (ending p (suc (length done)) left))
    unfolding slot
    byte-Next done b left split len bytes = (
      c,
      copying (done ++ (b ∷ [])) left (split ∙ sym (append_assoc done (b ∷ []) left))
          (ap (λ n. ending p n left) (sym longer)) at
          (record { room = z.room; small = z.small; bound = z.bound; fits = z.fits })
          (record { flag = ap (λ (s : Slot). s.seq) e ∙ o.flag; fit = o.fit })
          (ap (λ (s : Slot). s.len) e ∙ len)
          (λ j h. ap (λ (s : Slot). s.bytes j) e ∙ written j (omega (arith, longer)))
          (put-AllStored p start c (target p) _ (omega (arith, o.flag)) here stored),
      put-Went p c (target p) _ _ c (omega arith) (omega (arith, z, o.flag)),
    )
      where
        slot' : Slot
        slot' = record slot { bytes = update slot.bytes (length done) b }

        e : update p.ring.slots (target p) slot' (target p) ≡ slot'
        e = update_self p.ring.slots (target p) slot'

        longer : length (done ++ (b ∷ [])) ≡ suc (length done)
        longer = omega (arith, length-append done (b ∷ []))

        written :
            (j : ℕ)
            → j < suc (length done)
            → update slot.bytes (length done) b j ≡ get_or (message p) j 0
        written j h = elim (ℕ_discrete (length done) j) [
          | yes last ↦
              ground (arith, last)
              ∙ sym (get_or-append done b left 0)
              ∙ ap (λ m. get_or m (length done) 0) (sym split)
              ∙ ap (λ n. get_or (message p) n 0) last
          | no before ↦
              update_ne slot.bytes (length done) j b before ∙ bytes j (omega (arith, before))
        ]

    pub commit-Next :
        slot.len ≡ length (message p)
        → ((j : ℕ) → j < length (message p) → slot.bytes j ≡ get_or (message p) j 0)
        → Next start p c (
            put p
              (target p)
              (record slot { seq = p.ring.tail })
              (store_tail (p.ring.tail + 1) ∷ []))
    unfolding slot
    commit-Next len bytes = (
      c + 1,
      committed refl (ap (λ n. n + 1) at)
          (record { room = z.room; small = z.small; bound = z.bound; fits = z.fits }) all,
      put-Went p c (target p) _ _ (c + 1) (omega arith) (omega (arith, z)),
    )
      where
        slot' : Slot
        slot' = record slot { seq = p.ring.tail }

        -- The number in another slot is not a whole round behind.
        newest :
            (i : ℕ)
            → target p ≢ i
            → (p.ring.slots i).seq < c
            → c ≤ (p.ring.slots i).seq + p.ring.capacity
            → (p.ring.slots i).seq % p.ring.capacity ≡ i
            → c + 1 ≤ (p.ring.slots i).seq + p.ring.capacity
        newest i other below recent k =
            elim (ℕ_discrete c ((p.ring.slots i).seq + p.ring.capacity)) [
              | yes round ↦ absurd (
                  other (
                    sym here
                    ∙ ap (λ n. n % p.ring.capacity) round
                    ∙ add-mod_right ((p.ring.slots i).seq) p.ring.capacity
                    ∙ k))
              | no h ↦ omega (arith, h)
            ]

        older :
            (i : ℕ)
            → target p ≢ i
            → Stored p.ring.capacity (p.ring.slots i) p.history start c busy i
            → Stored p.ring.capacity (p.ring.slots i) p.history start (c + 1) false i
        older i other (inl (below, recent, k, holds)) =
            inl (omega arith, newest i other below recent k, k, holds)
        older i other (inr (inl (flag, k, on))) = absurd (other (sym here ∙ k))
        older i other (inr (inr unused)) = inr (
            inr (λ s from below. elim (dec_lt s c) [
              | yes old ↦ unused s from old
              | no last ↦ λ e.
                  let same : c ≡ s = omega arith in
                  other (sym here ∙ ap (λ n. n % p.ring.capacity) same ∙ e)
            ]))

        all : AllStored (put p (target p) slot' []).ring p.history start (c + 1) false
        all i lt = elim (ℕ_discrete (target p) i) [
          | yes same ↦
              let e : update p.ring.slots (target p) slot' i ≡ slot' = ground (arith, same) in
              rw e (inl (omega arith, omega (arith, z), same, record { len = len; bytes = bytes }))
          | no other ↦
              rw (update_ne p.ring.slots (target p) i slot' other) (older i other (stored i lt))
        ]
