-- ===== src/Ring/Slice/Agree.antt =====
-- `try_receive_into_slice` of crates/mmbus/src/ring.rs against `try_receive`.
use mmbus.Prelude.{
  ℕ, zero, suc, ◌%◌, ◌≤◌, ◌≡◌, refl, sym, ap, ap₂, ◌∙◌, Bool-cases, false, inl, inr, List, [], ◌∷◌,
  length, take, drop, take-append, length-append, length-drop, Option, none, some, ltb, leb, ◌==◌,
  not, if_cases, arith,
}
use mmbus.Ring.{
  Store, apply, store_seq, store_len, store_byte, store_tail, is_writing, clear_writing,
}
use mmbus.Ring.Reader.{
  Publishing, Pauses, advance, step, step_with, take_up, rejects, copy_out, Round, retry, give_up,
  success, recheck, read_payload, attempt, after_round, attempts, max_retries, try_receive,
}
use mmbus.Ring.Slice.{
  put, SliceRound, again, absent, written, recheck_slice, read_slice, attempt_slice, SliceResult,
  after_slice_round, slice_attempts, try_receive_into_slice,
}

-- The size of the slots stays.
step_with-size :
    (p : Publishing) (ss : List Store) (ms : List (List ℕ))
    → (step_with p ss ms).ring.slot_payload_size ≡ p.ring.slot_payload_size
unfolding step_with take_up apply
step_with-size p [] [] = refl
step_with-size p [] (m ∷ ms) =
    if_cases (λ (q : Publishing). q.ring.slot_payload_size ≡ p.ring.slot_payload_size)
      (rejects p.policy p.ring) (λ t. refl) (λ f. refl)
step_with-size p (store_seq i v ∷ ss) ms = refl
step_with-size p (store_len i v ∷ ss) ms = refl
step_with-size p (store_byte i j v ∷ ss) ms = refl
step_with-size p (store_tail v ∷ ss) ms = refl

advance-size :
    (n : ℕ) (p : Publishing) → (advance n p).ring.slot_payload_size ≡ p.ring.slot_payload_size
unfolding advance step
advance-size zero p = refl
advance-size (suc n) p = advance-size n (step p) ∙ step_with-size p p.pending p.input

copy_out-size :
    (idx j n : ℕ) (pause : ℕ → ℕ) (p : Publishing)
    → (copy_out idx j n pause p).1.ring.slot_payload_size ≡ p.ring.slot_payload_size
unfolding copy_out
copy_out-size idx j zero pause p = refl
copy_out-size idx j (suc n) pause p =
    copy_out-size idx (suc j) n pause (advance (pause j) p) ∙ advance-size (pause j) p

length-copy_out :
    (idx j n : ℕ) (pause : ℕ → ℕ) (p : Publishing) → length (copy_out idx j n pause p).0 ≡ n
unfolding copy_out
length-copy_out idx j zero pause p = refl
length-copy_out idx j (suc n) pause p =
    ap suc (length-copy_out idx (suc j) n pause (advance (pause j) p))

length-put : (bytes out : List ℕ) → length bytes ≤ length out → length (put bytes out) ≡ length out
unfolding put
length-put bytes out le =
    omega (arith, length-append bytes (drop (length bytes) out), length-drop (length bytes) out)

pub take-put : (bytes out : List ℕ) → take (length bytes) (put bytes out) ≡ bytes
unfolding put
take-put bytes out = take-append (length bytes) bytes (drop (length bytes) out) refl

module _ (size : ℕ) where
  -- One round of `try_receive`, and the same round into a buffer of at least `size` bytes.
  abbrev AgreeRound : Round → SliceRound → Type 0
  AgreeRound (retry e q) (again e' out q') =
      (e' ≡ e) × (q' ≡ q) × (size ≤ length out) × (q.ring.slot_payload_size ≡ size)
  AgreeRound (give_up q) (absent out q') = q' ≡ q
  AgreeRound (success n bytes q) (written n' len out q') =
      (n' ≡ n)
      × (len ≡ length bytes)
      × (length bytes ≤ size)
      × (take (length bytes) out ≡ bytes)
      × (q' ≡ q)
  AgreeRound r s = ⊥

  recheck-AgreeRound :
      (cursor_idx effective len : ℕ) (bytes out : List ℕ) (seq_after : ℕ) (p : Publishing)
      → len ≡ length bytes
      → length bytes ≤ size
      → take (length bytes) out ≡ bytes
      → size ≤ length out
      → p.ring.slot_payload_size ≡ size
      → AgreeRound
          (recheck cursor_idx effective bytes seq_after p)
          (recheck_slice cursor_idx effective len out seq_after p)
  unfolding recheck recheck_slice
  recheck-AgreeRound cursor_idx effective len bytes out seq_after p whole short same room sized =
      elim (Bool-cases (not (seq_after == effective))) [
        | inr equal ↦ rw equal (refl, whole, short, same, refl)
        | inl torn ↦ elim (Bool-cases (ltb effective (clear_writing seq_after))) [
          | inl newer ↦ rw (torn, newer) (refl, refl, room, sized)
          | inr older ↦ rw (torn, older) (refl, refl, room, sized)
        ]
      ]

  read-AgreeRound :
      (cursor_idx effective : ℕ) (d : Pauses) (out : List ℕ) (p : Publishing)
      → size ≤ length out
      → p.ring.slot_payload_size ≡ size
      → AgreeRound (read_payload cursor_idx effective d p) (read_slice cursor_idx effective d out p)
  unfolding read_payload read_slice
  read-AgreeRound cursor_idx effective d out p room sized =
      let idx = effective % p.ring.capacity in
      let p2 = advance d.before_len p in
      let len = (p2.ring.slots idx).len in
      let copied = copy_out idx 0 len d.before_byte p2 in
      let p4 = advance d.before_recheck copied.1 in
      let sized2 : p2.ring.slot_payload_size ≡ size = advance-size d.before_len p ∙ sized in
      let sized4 : p4.ring.slot_payload_size ≡ size =
        advance-size d.before_recheck copied.1
        ∙ copy_out-size idx 0 len d.before_byte p2
        ∙ sized2 in
      let whole : length copied.0 ≡ len = length-copy_out idx 0 len d.before_byte p2 in
      elim (Bool-cases (ltb p.ring.slot_payload_size len)) [
        | inl long ↦ rw long (refl, refl, room, sized2)
        | inr legal ↦
            let fits : ltb (length out) len ≡ false = ground (arith, legal, sized, room) in
            let bound : length copied.0 ≤ length out = ground (arith, fits, whole) in
            rw (legal, fits)
              (recheck-AgreeRound cursor_idx effective len copied.0 (put copied.0 out)
                (p4.ring.slots idx).seq p4 (sym whole) (ground (arith, legal, sized, whole))
                (take-put copied.0 out) (omega (arith, length-put copied.0 out bound, room)) sized4)
      ]

  attempt-AgreeRound :
      (cursor_idx effective : ℕ) (d : Pauses) (out : List ℕ) (p : Publishing)
      → size ≤ length out
      → p.ring.slot_payload_size ≡ size
      → AgreeRound (attempt cursor_idx effective d p) (attempt_slice cursor_idx effective d out p)
  unfolding attempt attempt_slice
  attempt-AgreeRound cursor_idx effective d out p room sized =
      let p1 = advance d.before_seq p in
      let seq = (p1.ring.slots (effective % p.ring.capacity)).seq in
      let sized1 : p1.ring.slot_payload_size ≡ size = advance-size d.before_seq p ∙ sized in
      elim (Bool-cases (is_writing seq)) [
        | inl busy ↦ rw busy (refl, refl, room, sized1)
        | inr free ↦ elim (Bool-cases (ltb effective seq)) [
          | inl newer ↦ rw (free, newer) (refl, refl, room, sized1)
          | inr there ↦ elim (Bool-cases (ltb seq effective)) [
            | inl older ↦ rw (free, there, older) refl
            | inr equal ↦
                rw (free, there, equal) (read-AgreeRound cursor_idx effective d out p1 room sized1)
          ]
        ]
      ]

-- The two results, with the buffer: nothing, or the same cursor and the same message, of at most
-- `size` bytes.
abbrev pub Agree : ℕ → Option (ℕ × List ℕ) × Publishing → SliceResult → Type 0
Agree size (none, q) (r, (out, q')) = (r ≡ none) × (q' ≡ q)
Agree size (some (n, bytes), q) (r, (out, q')) =
    (r ≡ some (n, length bytes))
    × (length bytes ≤ size)
    × (take (length bytes) out ≡ bytes)
    × (q' ≡ q)

module _ (size : ℕ) where
  after_round-Agree :
      (r : Round) (s : SliceRound) (again' : ℕ → Publishing → Option (ℕ × List ℕ) × Publishing)
      (go_on : ℕ → List ℕ → Publishing → SliceResult)
      → AgreeRound size r s
      → ((e : ℕ) (out : List ℕ) (q : Publishing)
          → size ≤ length out
          → q.ring.slot_payload_size ≡ size
          → Agree size (again' e q) (go_on e out q))
      → Agree size (after_round r again') (after_slice_round s go_on)
  unfolding after_round after_slice_round
  after_round-Agree (retry e q) (again e' out q') again' go_on (same, there, room, sized) rest =
      rw (same, there) (rest e out q room sized)
  after_round-Agree (give_up q) (absent out q') again' go_on same rest = (refl, same)
  after_round-Agree (success n bytes q) (written n' len out q') again' go_on
        (same, whole, short, bytes_in, there) rest =
      (ap₂ (λ a b. some (a, b)) same whole, short, bytes_in, there)
  after_round-Agree (retry e q) (absent out q') again' go_on clash rest = absurd clash
  after_round-Agree (retry e q) (written n len out q') again' go_on clash rest = absurd clash
  after_round-Agree (give_up q) (again e out q') again' go_on clash rest = absurd clash
  after_round-Agree (give_up q) (written n len out q') again' go_on clash rest = absurd clash
  after_round-Agree (success n bytes q) (again e out q') again' go_on clash rest = absurd clash
  after_round-Agree (success n bytes q) (absent out q') again' go_on clash rest = absurd clash

  attempts-Agree :
      (fuel cursor_idx e : ℕ) (ds : ℕ → Pauses) (out : List ℕ) (p : Publishing)
      → size ≤ length out
      → p.ring.slot_payload_size ≡ size
      → Agree size (attempts fuel cursor_idx e ds p) (slice_attempts fuel cursor_idx e ds out p)
  unfolding attempts slice_attempts
  attempts-Agree zero cursor_idx e ds out p room sized = (refl, refl)
  attempts-Agree (suc fuel) cursor_idx e ds out p room sized =
      after_round-Agree (attempt cursor_idx e (ds fuel) p)
        (attempt_slice cursor_idx e (ds fuel) out p) (λ e' q. attempts fuel cursor_idx e' ds q)
        (λ e' out' q. slice_attempts fuel cursor_idx e' ds out' q)
        (attempt-AgreeRound size cursor_idx e (ds fuel) out p room sized)
        (λ e' out' q room' sized'. attempts-Agree fuel cursor_idx e' ds out' q room' sized')

-- `try_receive_into_slice`, with a buffer that is at least as large as a slot's payload, is
-- `try_receive`, whatever the publisher stores between the loads: it finds nothing exactly where
-- the other finds nothing, and else gives the same new cursor and the length of the same message,
-- which is no longer than a slot and at the beginning of the buffer; and the memory is afterwards the same.
pub try_receive_into_slice-Agree :
    (cursor_idx local : ℕ) (ds : ℕ → Pauses) (out : List ℕ) (p : Publishing)
    → p.ring.slot_payload_size ≤ length out
    → Agree p.ring.slot_payload_size
        (try_receive cursor_idx local ds p)
        (try_receive_into_slice cursor_idx local ds out p)
unfolding try_receive try_receive_into_slice
try_receive_into_slice-Agree cursor_idx local ds out p room =
    elim (Bool-cases (leb p.ring.tail local)) [
      | inl empty ↦ rw empty (refl, refl)
      | inr more ↦
          rw more (
            attempts-Agree p.ring.slot_payload_size max_retries cursor_idx local ds out p room refl)
    ]
