-- ===== src/Ring/Steps.antt =====
-- The steps of the publisher (crates/mmbus/src/ring.rs) and the invariant of the slots.
use mmbus.Prelude.{
  ℕ, zero, suc, ◌+◌, ◌^◌, ◌≤◌, ◌<◌, ◌≡◌, inl, inr, refl, sym, ap, subst, ◌∙◌, List, [], ◌∷◌, ◌++◌,
  length, get_or, arith, update, append-nil, append_assoc, Bool-cases, List-cases, update_self,
  true, false, update_ne,
}
use mmbus.Ring.{
  Ring, Store, store_seq, store_len, store_tail, apply, publish_ops, write_ops, byte_stores,
}
use mmbus.Ring.Reader.{Publishing, step, step_with, take_up, advance, rejects}
use mmbus.Ring.Stores.{slot, ready-Next, opened-Next, byte-Next, commit-Next}
use mmbus.Ring.Invariant.{
  AllStored, AllFit, Sizes, target, message, ending, IsOpen, Inv, idle, ready, opened, copying,
  committed, Went, Next,
}

pub Went-refl : (p : Publishing) (c : ℕ) → Went p c p c
Went-refl p c = record {
  le = omega arith;
  capacity = refl;
  size = refl;
  kept = λ s h. refl;
  slot = λ i e h. inl refl;
  newer = λ i e h k. k;
}

pub Went-trans : {p q r : Publishing} {b c d : ℕ} → Went p b q c → Went q c r d → Went p b r d
Went-trans v w = record {
  le = omega (arith, v, w);
  capacity = w.capacity ∙ v.capacity;
  size = w.size ∙ v.size;
  kept = λ s h. w.kept s (omega (arith, v.le)) ∙ v.kept s h;
  slot = λ i e h. elim (v.slot i e h) [
    | inl same ↦ elim (w.slot i e (omega (arith, v.le))) [
      | inl same' ↦ inl (same' ∙ same)
      | inr new ↦ inr new
    ]
    | inr new ↦ inr (w.newer i e (omega (arith, v.le)) new)
  ];
  newer = λ i e h k. w.newer i e (omega (arith, v.le)) (v.newer i e h k);
}

AllStored-history :
    (r : Ring) (h h' : ℕ → List ℕ) (start c : ℕ)
    → ((s : ℕ) → s < c → h' s ≡ h s)
    → AllStored r h start c false
    → AllStored r h' start c false
AllStored-history r h h' start c same stored i lt = elim (stored i lt) [
  | inl (below, recent, at, holds) ↦ inl (below, recent, at, rw (same (r.slots i).seq below) holds)
  | inr other ↦ inr other
]

-- A publisher with nothing pending takes up a message, rejects it, or stays as it is.
module _ (p : Publishing) (start c : ℕ) (nothing : p.pending ≡ []) (at : c ≡ p.ring.tail)
    (s : Sizes p 0) (stored : AllStored p.ring p.history start c false) where
  ops-ready :
      (m : List ℕ)
      → length m ≤ p.ring.slot_payload_size
      → p.ring.tail + 1 < 2 ^ 63
      → publish_ops p.ring m
        ≡ store_seq (target p) (p.ring.tail + 2 ^ 63)
          ∷ (store_len (target p) (length m)
              ∷ (byte_stores (target p) 0 m
                  ++ (store_seq (target p) p.ring.tail ∷ (store_tail (p.ring.tail + 1) ∷ []))))
  unfolding publish_ops write_ops
  ops-ready m fit low = ground (
    arith,
    s,
    append_assoc (byte_stores (target p) 0 m) (store_seq (target p) p.ring.tail ∷ [])
        (store_tail (p.ring.tail + 1) ∷ []),
  )

  begin : List ℕ → List (List ℕ) → Publishing
  begin m ms = record p {
    pending = publish_ops p.ring m;
    input = ms;
    history = update p.history p.ring.tail m;
  }

  begin-Next : (m : List ℕ) (ms : List (List ℕ)) → p.input ≡ m ∷ ms → Next start p c (begin m ms)
  unfolding begin
  begin-Next m ms e =
      let (fit, fits) : (length m ≤ p.ring.slot_payload_size) × AllFit p.ring.slot_payload_size ms =
        rw e at s.fits in
      let l : length p.input ≡ suc (length ms) = ap length e in
      let same : message (begin m ms) ≡ m = update_self p.history p.ring.tail m in
      let kept : (k : ℕ) → k < c → update p.history p.ring.tail m k ≡ p.history k =
        λ k h. update_ne p.history p.ring.tail k m (omega arith) in
      (
        c,
        ready (rw same (ops-ready m fit (omega (arith, s, l)))) at
            (record { room = s.room; small = s.small; bound = omega (arith, s, l); fits = fits })
            (rw same fit) (AllStored-history p.ring p.history _ start c kept stored),
        record {
          le = omega arith;
          capacity = refl;
          size = refl;
          kept = kept;
          slot = λ i e h. inl refl;
          newer = λ i e h k. k;
        },
      )

  skip-Next :
      (m : List ℕ) (ms : List (List ℕ))
      → p.input ≡ m ∷ ms
      → Next start p c (record p { input = ms })
  skip-Next m ms e =
      let (fit, fits) : (length m ≤ p.ring.slot_payload_size) × AllFit p.ring.slot_payload_size ms =
        rw e at s.fits in
      let l : length p.input ≡ suc (length ms) = ap length e in
      (
        c,
        idle nothing at
            (record { room = s.room; small = s.small; bound = omega (arith, s, l); fits = fits })
            stored,
        record {
          le = omega arith;
          capacity = refl;
          size = refl;
          kept = λ k h. refl;
          slot = λ i e h. inl refl;
          newer = λ i e h k. k;
        },
      )

  take_up-Next :
      (m : List ℕ) (ms : List (List ℕ)) → p.input ≡ m ∷ ms → Next start p c (take_up p m ms)
  unfolding take_up begin
  take_up-Next m ms e = elim (Bool-cases (rejects p.policy p.ring)) [
    | inl full ↦ rw full (skip-Next m ms e)
    | inr free ↦ rw free (begin-Next m ms e)
  ]

-- The tail is stored, and the publisher is idle again.
tail-Next :
    (p : Publishing) (start c : ℕ)
    → c ≡ p.ring.tail + 1
    → Sizes p 1
    → AllStored p.ring p.history start c false
    → Next start p c (record p { ring = record (p.ring) { tail = p.ring.tail + 1 }; pending = [] })
tail-Next p start c at z stored = (
  c,
  idle refl at (record { room = z.room; small = z.small; bound = omega (arith, z); fits = z.fits })
      stored,
  record {
    le = omega arith;
    capacity = refl;
    size = refl;
    kept = λ k h. refl;
    slot = λ i e h. inl refl;
    newer = λ i e h k. k;
  },
)

copying-Next :
    (p : Publishing) (start c : ℕ) (done left : List ℕ)
    → message p ≡ done ++ left
    → c ≡ p.ring.tail
    → Sizes p 1
    → IsOpen p
    → (p.ring.slots (target p)).len ≡ length (message p)
    → ((j : ℕ) → j < length done → (p.ring.slots (target p)).bytes j ≡ get_or (message p) j 0)
    → AllStored p.ring p.history start c true
    → Next start p c (step_with p (ending p (length done) left) p.input)
unfolding step_with apply byte_stores slot
copying-Next p start c done [] split at z o len bytes stored =
    let e : length done ≡ length (message p) = ap length (sym (split ∙ append-nil done)) in
    commit-Next p start c at z stored o len (λ j h. bytes j (omega (arith, e)))
copying-Next p start c done (b ∷ left) split at z o len bytes stored =
    byte-Next p start c at z stored o done b left split len bytes

with_pending :
    (p : Publishing) (start c : ℕ) {ss : List Store}
    → p.pending ≡ ss
    → Next start p c (step_with p ss p.input)
    → Next start p c (step_with p p.pending p.input)
with_pending p start c e h = subst (λ ss. Next start p c (step_with p ss p.input)) (sym e) h

with_input :
    (p : Publishing) (start c : ℕ) {ms : List (List ℕ)}
    → p.input ≡ ms
    → Next start p c (step_with p [] ms)
    → Next start p c (step_with p [] p.input)
with_input p start c e h = subst (λ ms. Next start p c (step_with p [] ms)) (sym e) h

-- One step of the publisher.
pub step-Next : (p : Publishing) (start c : ℕ) → Inv p start c → Next start p c (step p)
unfolding step step_with apply slot
step-Next p start c (idle pend at z stored) =
    with_pending p start c pend (elim (List-cases p.input) [
      | inl none_left ↦ with_input p start c none_left (c, idle pend at z stored, Went-refl p c)
      | inr (m, ms, e) ↦ with_input p start c e (take_up-Next p start c pend at z stored m ms e)
    ])
step-Next p start c (ready pend at z fit stored) =
    with_pending p start c pend (ready-Next p start c at z stored fit)
step-Next p start c (opened pend at z o stored) =
    with_pending p start c pend (opened-Next p start c at z stored o)
step-Next p start c (copying done left split pend at z o len bytes stored) =
    with_pending p start c pend (copying-Next p start c done left split at z o len bytes stored)
step-Next p start c (committed pend at z stored) =
    with_pending p start c pend (tail-Next p start c at z stored)

-- Any number of steps.
pub advance-Next :
    (n : ℕ) (p : Publishing) (start c : ℕ) → Inv p start c → Next start p c (advance n p)
unfolding advance
advance-Next zero p start c inv = (c, inv, Went-refl p c)
advance-Next (suc n) p start c inv =
    let (d, inv', went) = step-Next p start c inv in
    let (e, inv'', went') = advance-Next n (step p) start d inv' in
    (e, inv'', Went-trans went went')
