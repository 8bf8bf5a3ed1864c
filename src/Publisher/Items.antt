-- ===== src/Publisher/Items.antt =====
-- The loop of `publish_many` of crates/mmbus/src/publisher.rs, one item at a time.
use mmbus.Prelude.{
  ℕ, zero, suc, ◌+◌, ◌^◌, ◌≤◌, ◌<◌, ◌≡◌, ◌⊎◌, refl, sym, ap, ◌∙◌, subst, Bool, true, false, List,
  ◌∷◌, length, take, ltb, Result, ok, err, Option, none, some, inl, inr, arith,
}
use mmbus.Ring.{Ring}
use mmbus.Ring.Reader.{Backpressure, error, drop_oldest}
use mmbus.Wal.Aggregator.{Wal, io_error}
use mmbus.Errors.{Error, wal_error}
use mmbus.Publisher.Beside.{
  Beside, Beside-refl, Beside-trans, OnlyReaders, stored, stored-Beside, stored_each,
  stored_each-Beside,
}
use mmbus.Publisher.{
  Publisher, broadcast_wakeup, is_rejected, During, append_wal, raced, wake_if_any, count_published,
  finish_many, after_item, after_log, item_ring,
}
use mmbus.Publisher.Waking.{broadcast_wakeup-Undisturbed}
use mmbus.Publisher.InStep.{
  LogInStep, InStep, IsAhead, append_wal-cases, ring_publish-cases, stored-tail, fits-Beside,
}

-- The first `k` items are in the ring, and no more.
abbrev pub HasPublished : Publisher → List (List ℕ) → ℕ → Publisher → Type 0
HasPublished p items k q = (k ≤ length items) × Beside (stored_each p.ring (take k items)) q.ring

-- The subscribers have filled a ring that had room before the log.
abbrev pub HasFlipped : Publisher → During → Publisher → Type 0
HasFlipped p d q =
    (r : Ring) × (is_rejected p.backpressure r ≡ false)
    × (q.ring ≡ record (d.race r) { wakeflags = q.ring.wakeflags })

-- Why the loop has ended with `ok`, at the item during which `d` happens, and where the log is.
abbrev pub HasEnded : Publisher → List (List ℕ) → ℕ → During → Publisher → Type 0
HasEnded p items k d q =
    ((k ≡ length items) × InStep q)
    ⊎ ((is_rejected p.backpressure q.ring ≡ true) × (InStep q ⊎ (IsAhead q × HasFlipped p d q)))

-- The result of the loop with `count` items behind it, from `p` on.
abbrev pub Went : (ℕ → During) → Publisher → ℕ → List (List ℕ) → Publisher × Result Error ℕ → Type 0
Went during p count items (q, ok n) =
    (k : ℕ) × (n ≡ count + k)
    × HasPublished p items k q
    × (q.published_total ≡ p.published_total + n)
    × HasEnded p items k (during n) q
Went during p count items (q, err e) =
    (k : ℕ) × HasPublished p items k q
    × (q.published_total ≡ p.published_total)
    × (InStep q ⊎ (IsAhead q × (e ≡ wal_error io_error)))

is_rejected-wakeflags :
    (b : Backpressure) (r : Ring) (f : ℕ → ℕ)
    → is_rejected b (record r { wakeflags = f }) ≡ is_rejected b r
unfolding is_rejected mmbus.Ring.is_full mmbus.Ring.min_active_cursor
is_rejected-wakeflags error r f = refl
is_rejected-wakeflags drop_oldest r f = refl

-- Only the flags change from `q` to `q'`.
module _ (q q' : Publisher) (ring : q'.ring ≡ record q.ring { wakeflags = q'.ring.wakeflags })
    (wal : q'.wal ≡ q.wal) where
  flags-Beside : (r : Ring) → Beside r q.ring → Beside r q'.ring
  flags-Beside r b = Beside-trans r q.ring q'.ring b (q.ring.cursors, q'.ring.wakeflags, ring)

  flags-InStep : InStep q → InStep q'
  flags-InStep log =
      subst (λ (r : Ring). LogInStep q'.wal r.tail) (sym ring)
        (subst (λ o. LogInStep o q.ring.tail) (sym wal) log)

  flags-IsAhead : IsAhead q → IsAhead q'
  flags-IsAhead log =
      subst (λ (r : Ring). LogInStep q'.wal (r.tail + 1)) (sym ring)
        (subst (λ o. LogInStep o (q.ring.tail + 1)) (sym wal) log)

  flags-HasEnded :
      (p : Publisher) (items : List (List ℕ)) (k : ℕ) (d : During)
      → HasEnded p items k d q
      → HasEnded p items k d q'
  flags-HasEnded p items k d (inl (all, log)) = inl (all, flags-InStep log)
  flags-HasEnded p items k d (inr (stopped, log)) = inr (
    ap (is_rejected p.backpressure) ring
        ∙ is_rejected-wakeflags p.backpressure q.ring q'.ring.wakeflags
        ∙ stopped,
    elim log [
      | inl at ↦ inl (flags-InStep at)
      | inr (ahead, (r, room, e)) ↦ inr (
        flags-IsAhead ahead,
        (r, room, ring ∙ ap (λ (s : Ring). record s { wakeflags = q'.ring.wakeflags }) e),
      )
    ],
  )

-- The loop ends at the publisher `q` before the wakeups, which has published nothing more.
module _ (wake : ℕ → Bool) (during : ℕ → During) (p q : Publisher) (items : List (List ℕ))
    (beside : Beside p.ring q.ring) (same : q.published_total ≡ p.published_total) where
  pub finish_many-Went :
      (count : ℕ)
      → HasEnded p items 0 (during count) q
      → Went during p count items (finish_many wake count q)
  unfolding finish_many count_published
  finish_many-Went zero why = (0, refl, (omega arith, beside), omega (arith, same), why)
  finish_many-Went (suc n) why =
      let c = count_published (suc n) q in
      let t = broadcast_wakeup wake c in
      let u = broadcast_wakeup-Undisturbed wake c in
      (
        0,
        omega arith,
        (omega arith, flags-Beside c t u.ring u.wal p.ring beside),
        omega (arith, u.published, same),
        flags-HasEnded c t u.ring u.wal p items 0 (during (suc n)) why,
      )

  pub wake_if_any-Went :
      (count : ℕ) (e : Error)
      → InStep q ⊎ (IsAhead q × (e ≡ wal_error io_error))
      → Went during p count items (wake_if_any wake count q, err e)
  unfolding wake_if_any
  wake_if_any-Went zero e log = (0, (omega arith, beside), same, log)
  wake_if_any-Went (suc n) e log =
      let t = broadcast_wakeup wake q in
      let u = broadcast_wakeup-Undisturbed wake q in
      (
        0,
        (omega arith, flags-Beside q t u.ring u.wal p.ring beside),
        u.published ∙ same,
        elim log [
          | inl at ↦ inl (flags-InStep q t u.ring u.wal at)
          | inr (ahead, by) ↦ inr (flags-IsAhead q t u.ring u.wal ahead, by)
        ],
      )

-- One item is published, and the loop goes on from there.
next-Went :
    (during : ℕ → During) (p : Publisher) (o : Option Wal) (r : Ring) (count : ℕ) (m : List ℕ)
    (items : List (List ℕ))
    → Beside (stored p.ring m) r
    → (s : Publisher × Result Error ℕ)
    → Went during (record p { wal = o; ring = r }) (suc count) items s
    → Went during p count (m ∷ items) s
next-Went during p o r count m items b (t, ok n) (k, is, (le, has), more, why) = (
  suc k,
  omega (arith, is),
  (
    omega (arith, le),
    Beside-trans (stored_each (stored p.ring m) (take k items)) (stored_each r (take k items))
        t.ring (stored_each-Beside (stored p.ring m) r (take k items) b) has,
  ),
  more,
  elim why [ inl (all, log) ↦ inl (ap suc all, log) | inr stopped ↦ inr stopped ],
)
next-Went during p o r count m items b (t, err e) (k, (le, has), more, log) = (
  suc k,
  (
    omega (arith, le),
    Beside-trans (stored_each (stored p.ring m) (take k items)) (stored_each r (take k items))
        t.ring (stored_each-Beside (stored p.ring m) r (take k items) b) has,
  ),
  more,
  log,
)

-- The rest of the loop, from a state in which log and ring are in step.
abbrev pub GoesOn :
    (ℕ → During) → (ℕ → Publisher → Publisher × Result Error ℕ) → List (List ℕ) → Type 0
GoesOn during again items =
    (n : ℕ) (q : Publisher)
    → InStep q
    → q.ring.tail + length items < 2 ^ 64
    → Went during q n items (again n q)

module _ (wake : ℕ → Bool) (during : ℕ → During) (p : Publisher) (count : ℕ) (m : List ℕ)
    (items : List (List ℕ)) (again : ℕ → Publisher → Publisher × Result Error ℕ)
    (on : GoesOn during again items) (word : p.ring.tail + length (m ∷ items) < 2 ^ 64)
    (fits : ltb p.ring.slot_payload_size (length m) ≡ false)
    (readers : OnlyReaders (during count).race) where
  -- The ring's part, after the log's and the subscribers'.
  item_ring-Went :
      (o : Option Wal)
      → LogInStep o (p.ring.tail + 1)
      → (o ≡ none) ⊎ (is_rejected p.backpressure p.ring ≡ false)
      → Went during p count
          (m ∷ items)
          (item_ring wake count m (raced (during count) (record p { wal = o })) again)
  unfolding item_ring raced after_item
  item_ring-Went o ahead free =
      let r = (during count).race p.ring in
      let q = record p { wal = o; ring = r } in
      let b = readers p.ring in
      ring_publish-cases (λ x. Went during p count (m ∷ items) (after_item wake count q x again))
        p.backpressure r m (fits-Beside p.ring r m b fits)
        (let tail = stored-tail p.ring r m b (omega (arith, word)) in
          let next = record p { wal = o; ring = stored r m } in
          next-Went during p o (stored r m) count m items (stored-Beside p.ring r m b)
            (again (suc count) next)
            (on (suc count) next (subst (λ n. LogInStep o n) (sym tail) ahead)
              (omega (arith, tail, word))))
        (λ stopped. finish_many-Went wake during p q (m ∷ items) b refl count (
          inr (
            stopped,
            elim free [
              | inl nolog ↦ inl (subst (λ o. LogInStep o r.tail) (sym nolog) tt)
              | inr room ↦ inr (
                subst (λ (s : Ring). LogInStep o (s.tail + 1)) (sym b.2) ahead,
                (p.ring, room, refl),
              )
            ],
          )))

  pub append_wal-Went :
      (crc32c : List ℕ → ℕ)
      → InStep p
      → Went during p count (m ∷ items) (
          after_log wake count
            (append_wal crc32c p p.wal (during count) m)
            (λ p1. item_ring wake count m (raced (during count) p1) again))
  unfolding after_log
  append_wal-Went crc32c log =
      append_wal-cases
        (λ s.
          Went during p count (m ∷ items)
            (after_log wake count s (λ p1. item_ring wake count m (raced (during count) p1) again)))
        crc32c p (during count) m log item_ring-Went
        (λ stopped.
          finish_many-Went wake during p p (m ∷ items) (Beside-refl p.ring) refl count
            (inr (stopped, inl log)))
        (λ w e enabled at.
          wake_if_any-Went wake during p (record p { wal = some w }) (m ∷ items)
            (Beside-refl p.ring) refl count (wal_error e)
            (elim at [
              | inl same ↦ inl (enabled, same)
              | inr (by, ahead) ↦ inr ((enabled, ahead), ap wal_error by)
            ]))
