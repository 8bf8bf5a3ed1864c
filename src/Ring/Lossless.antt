-- ===== src/Ring/Lossless.antt =====
-- `try_receive` of crates/mmbus/src/ring.rs under the policy `Error`.
use mmbus.Prelude.{
  ℕ, zero, suc, ◌+◌, ◌-◌, ◌%◌, ◌≤◌, ◌<◌, ◌≡◌, inl, inr, refl, sym, ap, ◌∙◌, subst, Bool, true,
  false, List, [], ◌∷◌, length, arith, some, ltb, leb, ◌==◌, dec_lt, ℕ_discrete, update,
  update_self, update_ne, mod_unique,
}
use native.Mathlib.Nat.{mod-lt}
use mmbus.Ring.{Slot, is_writing, set_cursor, byte_stores}
use mmbus.Ring.Reader.{
  Publishing, Pauses, advance, copy_out, recheck, read_payload, attempt, after_round, attempts,
  try_receive, success,
}
use mmbus.Ring.Invariant.{Holds, Stored, AllStored, Inv, idle, ready, opened, copying, committed}
use mmbus.Ring.Steps.{advance-Next}
use mmbus.Ring.Copy.{copy_out-Next, Inv-room, Inv-count-lt, Inv-tail-le}
use mmbus.Ring.Guarded.{Guarded, advance-Guarded}
use mmbus.Ring.Torn.{try_receive-whole}

-- The complete messages reach no further than a ring beyond the subscriber, and one less while a
-- slot is being written.
Inv-near :
    (p : Publishing) (start c idx local low : ℕ)
    → Inv p start c
    → Guarded p idx local low
    → (busy : Bool) × AllStored p.ring p.history start c busy
      × (c ≤ local + p.ring.capacity)
      × (busy ≡ true → c < local + p.ring.capacity)
unfolding byte_stores
Inv-near p start c idx local low (idle a b z s) g = (false, s, omega (arith, b, g.near), λ e. cc e)
Inv-near p start c idx local low (ready a b z f s) g =
    (false, s, omega (arith, b, g.near), λ e. cc e)
Inv-near p start c idx local low (opened a b z o s) g =
    let lt : p.ring.tail < local + p.ring.capacity = g.spare (λ e. cc (a, e)) in
    (true, s, omega (arith, b, lt), λ e. omega (arith, b, lt))
Inv-near p start c idx local low (copying done [] x a b z o l y s) g =
    let lt : p.ring.tail < local + p.ring.capacity = g.spare (λ e. cc (a, e)) in
    (true, s, omega (arith, b, lt), λ e. omega (arith, b, lt))
Inv-near p start c idx local low (copying done (byte ∷ left) x a b z o l y s) g =
    let lt : p.ring.tail < local + p.ring.capacity = g.spare (λ e. cc (a, e)) in
    (true, s, omega (arith, b, lt), λ e. omega (arith, b, lt))
Inv-near p start c idx local low (committed a b z s) g =
    let lt : p.ring.tail < local + p.ring.capacity = g.spare (λ e. cc (a, e)) in
    (false, s, omega (arith, b, lt), λ e. cc e)

-- The slot of the subscriber's next message has that message.
Guarded-Holds :
    (p : Publishing) (start c idx local low : ℕ)
    → Inv p start c
    → Guarded p idx local low
    → start ≤ local
    → local < c
    → ((p.ring.slots (local % p.ring.capacity)).seq ≡ local)
      × Holds (p.ring.slots (local % p.ring.capacity)) (p.history local)
Guarded-Holds p start c idx local low inv g from lt =
    let (busy, all, near, strict) = Inv-near p start c idx local low inv g in
    go near strict (all (local % p.ring.capacity) (mod-lt local (Inv-room p start c inv)))
  where
    slot : Slot
    slot = p.ring.slots (local % p.ring.capacity)

    go :
        {busy : Bool}
        → c ≤ local + p.ring.capacity
        → (busy ≡ true → c < local + p.ring.capacity)
        → Stored p.ring.capacity slot p.history start c busy (local % p.ring.capacity)
        → (slot.seq ≡ local) × Holds slot (p.history local)
    go near strict (inl (below, recent, at, holds)) =
        let same : slot.seq ≡ local = elim (dec_lt local slot.seq) [
          | yes more ↦
              sym (mod_unique p.ring.capacity local slot.seq (omega arith) (omega arith) (sym at))
          | no less ↦
              mod_unique p.ring.capacity slot.seq local (omega (arith, less)) (omega arith) at
        ] in
        (same, subst (λ k. Holds slot (p.history k)) same holds)
    go near strict (inr (inl (flag, at, on))) =
        let same : local ≡ c =
          mod_unique p.ring.capacity local c (omega arith) (strict on) (sym at) in
        absurd (omega (arith, same))
    go near strict (inr (inr unused)) = absurd (unused local from lt refl)

copy_out-Guarded :
    (idx local low i j n : ℕ) (pause : ℕ → ℕ) (p : Publishing) (start c : ℕ)
    → Inv p start c
    → Guarded p idx local low
    → Guarded (copy_out i j n pause p).1 idx local low
unfolding copy_out
copy_out-Guarded idx local low i j zero pause p start c inv g = g
copy_out-Guarded idx local low i j (suc n) pause p start c inv g =
    let (d, inv', went) = advance-Next (pause j) p start c inv in
    copy_out-Guarded idx local low i (suc j) n pause (advance (pause j) p) start d inv'
      (advance-Guarded idx local low (pause j) p start c inv g)

-- The subscriber has moved on.
moved-Guarded :
    (p : Publishing) (idx local : ℕ)
    → Guarded p idx local (local + 1)
    → Guarded (record p { ring = set_cursor p.ring idx (local + 1) }) idx (local + 1) (local + 1)
unfolding set_cursor
moved-Guarded p idx local g = record {
  policy = g.policy;
  slot_taken = g.slot_taken;
  at = update_self p.ring.cursors idx (local + 1);
  behind = λ i lt claimed. elim (ℕ_discrete idx i) [
    | yes same ↦
        subst (λ k. update p.ring.cursors idx (local + 1) k ≤ p.ring.tail) same
          (rw (update_self p.ring.cursors idx (local + 1)) g.above)
    | no other ↦
        rw (update_ne p.ring.cursors idx i (local + 1) other)
          (g.behind i lt (λ e. claimed (update_ne p.ring.cursors idx i (local + 1) other ∙ e)))
  ];
  reached = g.above;
  above = g.above;
  near = omega (arith, g.near);
  spare = λ h. omega (arith, g.spare h);
  fit = g.fit;
}

read_payload-Guarded :
    (idx local : ℕ) (d : Pauses) (p : Publishing) (start c : ℕ)
    → Inv p start c
    → Guarded p idx local (local + 1)
    → start ≤ local
    → local < c
    → (out : List ℕ) × (q : Publishing) × (read_payload idx local d p ≡ success (local + 1) out q)
      × Guarded q idx (local + 1) (local + 1)
unfolding read_payload recheck
read_payload-Guarded idx local d p start c inv g from lt =
    let (c2, inv2, went2) = advance-Next d.before_len p start c inv in
    let p2 = advance d.before_len p in
    let g2 = advance-Guarded idx local (local + 1) d.before_len p start c inv g in
    let i = local % p.ring.capacity in
    let (seq2, holds2) =
      Guarded-Holds p2 start c2 idx local (local + 1) inv2 g2 from (omega (arith, went2.le, lt)) in
    let n = (p2.ring.slots i).len in
    let len2 : n ≡ length (p2.history local) =
      ap (λ k. (p2.ring.slots (local % k)).len) (sym went2.capacity) ∙ holds2.len in
    let legal : ltb p.ring.slot_payload_size n ≡ false =
      ground (arith, len2, g2.fit local, went2.size) in
    let r = copy_out i 0 n d.before_byte p2 in
    let (c3, inv3, went3) = copy_out-Next i 0 n d.before_byte p2 start c2 inv2 in
    let g3 = copy_out-Guarded idx local (local + 1) i 0 n d.before_byte p2 start c2 inv2 g2 in
    let (c4, inv4, went4) = advance-Next d.before_recheck r.1 start c3 inv3 in
    let p4 = advance d.before_recheck r.1 in
    let g4 = advance-Guarded idx local (local + 1) d.before_recheck r.1 start c3 inv3 g3 in
    let (seq4, holds4) =
      Guarded-Holds p4 start c4 idx local (local + 1) inv4 g4 from
        (omega (arith, went2.le, went3.le, went4.le, lt)) in
    let after : (p4.ring.slots i).seq ≡ local =
      ap (λ k. (p4.ring.slots (local % k)).seq)
        (sym (went4.capacity ∙ went3.capacity ∙ went2.capacity))
      ∙ seq4 in
    let same : (local == local) ≡ true = ground arith in
    (
      r.0,
      record p4 { ring = set_cursor p4.ring idx (local + 1) },
      rw (legal, after, same) refl,
      moved-Guarded p4 idx local g4,
    )

-- The first round succeeds, and the publisher is then as it must be for the next message.
attempt-Guarded :
    (idx local : ℕ) (d : Pauses) (p : Publishing) (start c : ℕ)
    → Inv p start c
    → Guarded p idx local (local + 1)
    → start ≤ local
    → local < c
    → (out : List ℕ) × (q : Publishing) × (attempt idx local d p ≡ success (local + 1) out q)
      × Guarded q idx (local + 1) (local + 1)
unfolding attempt
attempt-Guarded idx local d p start c inv g from lt =
    let (c1, inv1, went1) = advance-Next d.before_seq p start c inv in
    let p1 = advance d.before_seq p in
    let g1 = advance-Guarded idx local (local + 1) d.before_seq p start c inv g in
    let lt1 : local < c1 = omega (arith, went1.le, lt) in
    let (seq1, holds1) = Guarded-Holds p1 start c1 idx local (local + 1) inv1 g1 from lt1 in
    let seen : (p1.ring.slots (local % p.ring.capacity)).seq ≡ local =
      ap (λ k. (p1.ring.slots (local % k)).seq) (sym went1.capacity) ∙ seq1 in
    let clean : is_writing local ≡ false = ground (arith, lt1, Inv-count-lt p1 start c1 inv1) in
    let level : ltb local local ≡ false = ground arith in
    let (out, q, done, g') = read_payload-Guarded idx local d p1 start c1 inv1 g1 from lt1 in
    (out, q, rw (seen, clean, level) done, g')

-- No message is lost under the policy `Error`: while the publisher goes on in any way between the
-- loads, a subscriber that is behind the tail, at the position in its own claimed cursor, receives
-- the very next message, whole, and is then again as the theorem asks. The position is not before the
-- one that the publisher began at, no claimed cursor is ahead of the tail, this one is at most a ring
-- behind it, and less than a ring while the publisher is in the middle of a message, and all messages
-- fit in the slots.
pub try_receive-next :
    (p : Publishing) (start c cursor_idx local : ℕ) (ds : ℕ → Pauses)
    → Inv p start c
    → Guarded p cursor_idx local (local + 1)
    → start ≤ local
    → (q : Publishing) × (d : ℕ) × (try_receive cursor_idx local ds p
        ≡ (some (local + 1, q.history local), q))
      × (q.history local ≡ p.history local)
      × Inv q start d
      × Guarded q cursor_idx (local + 1) (local + 1)
unfolding try_receive attempts after_round
try_receive-next p start c cursor_idx local ds inv g from =
    let lt : local < c = omega (arith, g.above, Inv-tail-le p start c inv) in
    let (out, q, done, g') = attempt-Guarded cursor_idx local (ds 15) p start c inv g from lt in
    let received : try_receive cursor_idx local ds p ≡ (some (local + 1, out), q) =
      received_by out q done in
    let (more, whole, (d, inv', le, went)) =
      try_receive-whole start local cursor_idx ds p q c (local + 1) out inv from received in
    let back : local + 1 - 1 ≡ local = omega arith in
    let is : out ≡ q.history local = whole ∙ ap q.history back in
    (q, d, received ∙ ap (λ m. (some (local + 1, m), q)) is, went.kept local lt, inv', g')
  where
    received_by :
        (out : List ℕ) (q : Publishing)
        → attempt cursor_idx local (ds 15) p ≡ success (local + 1) out q
        → try_receive cursor_idx local ds p ≡ (some (local + 1, out), q)
    received_by out q done =
        let more : leb p.ring.tail local ≡ false = ground (arith, g.above) in rw (more, done) refl
