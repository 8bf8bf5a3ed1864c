-- ===== src/Ring/Round.antt =====
-- One round of the loop of `try_receive` (crates/mmbus/src/ring.rs) while the publisher goes on.
use mmbus.Prelude.{
  ℕ, ◌+◌, ◌-◌, ◌%◌, ◌^◌, ◌≤◌, ◌<◌, ◌≡◌, ◌⊎◌, inl, inr, sym, ap, ◌∙◌, subst, List, arith, Bool-cases,
  ==_iff, ltb→lt, ltb→le, Bool, dec_lt, ltb, ◌==◌, window,
}
use native.Mathlib.Nat.{mod-lt}
use mmbus.Ring.{Slot, clear_writing, is_writing}
use mmbus.Ring.Reader.{
  Publishing, Pauses, advance, copy_out, Round, retry, give_up, success, recheck, read_payload,
  attempt,
}
use mmbus.Ring.Invariant.{Holds, Stored, Inv, Went, Next}
use mmbus.Ring.Steps.{Went-trans, advance-Next}
use mmbus.Ring.Copy.{
  window-get_or, copy_out-Next, copy_out-bytes, Inv-room, Inv-AllStored, Inv-count-lt,
  Inv-set_cursor, Went-set_cursor,
}

module _ (start local : ℕ) where
  -- A reader at position `local` may go on at `e`.
  abbrev pub Fits : Publishing → ℕ → Type 0
  Fits p e = (local ≤ e) × (e % p.ring.capacity ≡ local % p.ring.capacity)

  -- What it gets from a round: such a position, or the message of a complete position, whole.
  abbrev pub Fine : Publishing → ℕ → Round → Type 0
  Fine p c (retry e q) = Fits p e × Next start p c q
  Fine p c (give_up q) = Next start p c q
  Fine p c (success n out q) =
      (local < n) × (out ≡ q.history (n - 1)) × ((d : ℕ) × Inv q start d × (n ≤ d) × Went p c q d)

  -- The position written to the reader's slot, with or without the flag, fits the reader.
  slot-position :
      (p : Publishing) (c i : ℕ)
      → Inv p start c
      → start ≤ local
      → local < c
      → i ≡ local % p.ring.capacity
      → clear_writing (p.ring.slots i).seq % p.ring.capacity ≡ i
  slot-position p c i inv from lt here = go ((Inv-AllStored p start c inv).1 i in_range)
    where
      in_range : i < p.ring.capacity
      in_range = omega (arith, mod-lt local (Inv-room p start c inv))

      go :
          {busy : Bool}
          → Stored p.ring.capacity (p.ring.slots i) p.history start c busy i
          → clear_writing (p.ring.slots i).seq % p.ring.capacity ≡ i
      go (inl (below, recent, at, holds)) =
          let e : clear_writing (p.ring.slots i).seq ≡ (p.ring.slots i).seq =
            omega (arith, Inv-count-lt p start c inv) in
          ap (λ k. k % p.ring.capacity) e ∙ at
      go (inr (inl (flag, at, on))) =
          let e : clear_writing (p.ring.slots i).seq ≡ c =
            omega (arith, Inv-count-lt p start c inv) in
          ap (λ k. k % p.ring.capacity) e ∙ at
      go (inr (inr unused)) = absurd (unused local from lt (sym here))

  -- A slot that has the number of a position that fits has its message.
  stored-Holds :
      (p : Publishing) (c e : ℕ)
      → Inv p start c
      → start ≤ local
      → local < c
      → e % p.ring.capacity ≡ local % p.ring.capacity
      → e < 2 ^ 63
      → (p.ring.slots (e % p.ring.capacity)).seq ≡ e
      → (e < c) × Holds (p.ring.slots (e % p.ring.capacity)) (p.history e)
  stored-Holds p c e inv from lt fits small is_e =
      go ((Inv-AllStored p start c inv).1 i (mod-lt e (Inv-room p start c inv)))
    where
      i : ℕ
      i = e % p.ring.capacity

      go :
          {busy : Bool}
          → Stored p.ring.capacity (p.ring.slots i) p.history start c busy i
          → (e < c) × Holds (p.ring.slots i) (p.history e)
      go (inl (below, recent, at, holds)) =
          (omega (arith, is_e), subst (λ k. Holds (p.ring.slots i) (p.history k)) is_e holds)
      go (inr (inl (flag, at, on))) = absurd (omega (arith, is_e))
      go (inr (inr unused)) = absurd (unused local from lt (sym fits))

  -- A round that has found its position's number in the slot.
  module _ (cursor_idx e : ℕ) (d : Pauses) (p : Publishing) (c : ℕ) (inv : Inv p start c)
      (from : start ≤ local) (fits : Fits p e) (lt : e < c) where
    abbrev idx : ℕ
    idx = e % p.ring.capacity

    abbrev p2 : Publishing
    p2 = advance d.before_len p

    abbrev copied : List ℕ × Publishing
    copied = copy_out idx 0 (p2.ring.slots idx).len d.before_byte p2

    abbrev p4 : Publishing
    p4 = advance d.before_recheck copied.1

    to_p2 : Next start p c p2
    to_p2 = advance-Next d.before_len p start c inv

    to_p3 : Next start p2 to_p2.0 copied.1
    to_p3 = copy_out-Next idx 0 _ d.before_byte p2 start to_p2.0 to_p2.1

    to_p4 : Next start copied.1 to_p3.0 p4
    to_p4 = advance-Next d.before_recheck copied.1 start to_p3.0 to_p3.1

    whole : Next start p c p4
    whole = (to_p4.0, to_p4.1, Went-trans to_p2.2 (Went-trans to_p3.2 to_p4.2))

    -- An unchanged number at the end means that the payload is the slot's as it was at the start.
    copied-message :
        Holds (p.ring.slots idx) (p.history e)
        → (p4.ring.slots idx).seq ≡ e
        → copied.0 ≡ p4.history e
    copied-message holds after = elim (to_p2.2.slot idx e lt) [
      | inr new ↦ absurd (
          stale (
            to_p4.2.newer idx e (omega (arith, to_p3.2.le, to_p2.2.le))
              (to_p3.2.newer idx e (omega (arith, to_p2.2.le)) new)))
      | inl same ↦
          elim (copy_out-bytes idx 0 (p2.ring.slots idx).len d.before_byte p2 start to_p2.0 e
            to_p2.1 (omega (arith, to_p2.2.le))) [
              | inr new ↦
                  absurd (stale (to_p4.2.newer idx e (omega (arith, to_p3.2.le, to_p2.2.le)) new))
              | inl bytes ↦
                  bytes
                  ∙ ap (λ (s : Slot). window s.bytes 0 s.len) same
                  ∙ ap (window (p.ring.slots idx).bytes 0) holds.len
                  ∙ window-get_or (p.ring.slots idx).bytes 0 (p.history e) (λ j h.
                    let e' : 0 + j ≡ j = omega arith in
                    ap (p.ring.slots idx).bytes e' ∙ holds.bytes j h)
                  ∙ sym (whole.2.kept e lt)
            ]
    ]
      where
        stale : e < clear_writing (p4.ring.slots idx).seq → ⊥
        stale h = omega (arith, after, Inv-count-lt p start c inv)

    -- Where the number has changed, the reader goes on at one that fits.
    moved :
        Fits p (clear_writing (p4.ring.slots idx).seq) ⊎ (clear_writing (p4.ring.slots idx).seq ≤ e)
    moved = elim (dec_lt e (clear_writing (p4.ring.slots idx).seq)) [
      | no h ↦ inr (omega arith)
      | yes h ↦
          let w = whole.2 in
          let here : idx ≡ local % p4.ring.capacity =
            fits.1 ∙ ap (λ k. local % k) (sym w.capacity) in
          let at = slot-position p4 whole.0 idx whole.1 from (omega (arith, w.le, fits.0)) here in
          inl (
            omega (arith, fits.0),
            ap (λ k. clear_writing (p4.ring.slots idx).seq % k) (sym w.capacity) ∙ at ∙ fits.1,
          )
    ]

    recheck-Fine :
        Holds (p.ring.slots idx) (p.history e)
        → Fine p c (recheck cursor_idx e copied.0 (p4.ring.slots idx).seq p4)
    unfolding recheck
    recheck-Fine holds = elim (Bool-cases ((p4.ring.slots idx).seq == e)) [
      | inl same ↦
          let after : (p4.ring.slots idx).seq ≡ e = (==_iff _ e).0 same in
          let (n, inv', went) = whole in
          let back : e + 1 - 1 ≡ e = omega arith in
          rw same (
            omega (arith, fits.0),
            copied-message holds after ∙ ap p4.history (sym back),
            (
              n,
              Inv-set_cursor p4 start n cursor_idx (e + 1) inv',
              omega (arith, went.le, lt),
              Went-set_cursor p c p4 n cursor_idx (e + 1) went,
            ),
          )
      | inr other ↦ elim (Bool-cases (ltb e (clear_writing (p4.ring.slots idx).seq))) [
        | inl ahead ↦ elim moved [
          | inl on ↦ rw (other, ahead) (on, whole)
          | inr back ↦ absurd (omega (arith, ltb→lt _ _ ahead))
        ]
        | inr behind ↦ rw (other, behind) (fits, whole)
      ]
    ]

    read_payload-Fine :
        Holds (p.ring.slots idx) (p.history e) → Fine p c (read_payload cursor_idx e d p)
    unfolding read_payload
    read_payload-Fine holds =
        elim (Bool-cases (ltb p.ring.slot_payload_size (p2.ring.slots idx).len)) [
          | inl torn ↦ rw torn (fits, to_p2)
          | inr legal ↦ rw legal (recheck-Fine holds)
        ]

  Fine-after :
      (p : Publishing) (c : ℕ) (q : Publishing) (d : ℕ)
      → Went p c q d
      → (r : Round) → Fine q d r
      → Fine p c r
  Fine-after p c q d w (retry e r) ((le, fits), (n, inv, went)) =
      let same : (k : ℕ) → k % q.ring.capacity ≡ k % p.ring.capacity =
        λ k. ap (λ m. k % m) w.capacity in
      ((le, sym (same e) ∙ fits ∙ same local), (n, inv, Went-trans w went))
  Fine-after p c q d w (give_up r) (n, inv, went) = (n, inv, Went-trans w went)
  Fine-after p c q d w (success n out r) (lt, m, (k, inv, le, went)) =
      (lt, m, (k, inv, le, Went-trans w went))

  pub attempt-Fine :
      (cursor_idx e : ℕ) (d : Pauses) (p : Publishing) (c : ℕ)
      → Inv p start c
      → start ≤ local
      → local < c
      → Fits p e
      → Fine p c (attempt cursor_idx e d p)
  unfolding attempt
  attempt-Fine cursor_idx e d p c inv from lt (le, fits) =
      let (n, inv1, went) = advance-Next d.before_seq p start c inv in
      let p1 = advance d.before_seq p in
      let i = e % p.ring.capacity in
      let same : (k : ℕ) → k % p1.ring.capacity ≡ k % p.ring.capacity =
        λ k. ap (λ m. k % m) went.capacity in
      let lt1 : local < n = omega (arith, went.le) in
      elim (Bool-cases (is_writing (p1.ring.slots i).seq)) [
        | inl busy ↦ rw busy ((le, fits), (n, inv1, went))
        | inr clean ↦ elim (Bool-cases (ltb e (p1.ring.slots i).seq)) [
          | inl ahead ↦
              let plain : clear_writing (p1.ring.slots i).seq ≡ (p1.ring.slots i).seq =
                ground (arith, clean) in
              let at = slot-position p1 n i inv1 from lt1 (fits ∙ sym (same local)) in
              let fits' : (p1.ring.slots i).seq % p.ring.capacity ≡ local % p.ring.capacity =
                sym (same _) ∙ ap (λ k. k % p1.ring.capacity) (sym plain) ∙ at ∙ fits in
              rw (clean, ahead) ((omega (arith, ltb→lt _ _ ahead), fits'), (n, inv1, went))
          | inr not_ahead ↦ elim (Bool-cases (ltb (p1.ring.slots i).seq e)) [
            | inl behind ↦ rw (clean, not_ahead, behind) (n, inv1, went)
            | inr not_behind ↦
                let is_e : (p1.ring.slots i).seq ≡ e =
                  omega (arith, ltb→le _ _ not_ahead, ltb→le _ _ not_behind) in
                let small : e < 2 ^ 63 = ground (arith, is_e, clean) in
                let is_e' : (p1.ring.slots (e % p1.ring.capacity)).seq ≡ e =
                  ap (λ k. (p1.ring.slots k).seq) (same e) ∙ is_e in
                let fits' : e % p1.ring.capacity ≡ local % p1.ring.capacity =
                  same e ∙ fits ∙ sym (same local) in
                let (below, holds) = stored-Holds p1 n e inv1 from lt1 fits' small is_e' in
                rw (clean, not_ahead, not_behind)
                  (Fine-after p c p1 n went (read_payload cursor_idx e d p1)
                    (read_payload-Fine cursor_idx e d p1 n inv1 from (le, fits') below holds))
          ]
        ]
      ]
