-- ===== src/Publisher/InStep.antt =====
-- The log and the ring of crates/mmbus/src/publisher.rs under `publish`.
use mmbus.Prelude.{
  ℕ, ◌+◌, ◌%◌, ◌^◌, ◌<◌, ◌≡◌, ◌⊎◌, refl, sym, ap, ◌∙◌, subst, Bool, true, false, List, [], ◌∷◌,
  ◌++◌, length, ltb, ok, err, Option, none, some, if_cases, inl, inr, arith,
}
use mmbus.Ring.{Ring, is_full, try_publish, publish_drop_oldest}
use mmbus.Ring.Reader.{Backpressure, error, drop_oldest}
use mmbus.Ring.Unread.{publish_ops-tail}
use mmbus.Wal.Aggregator.{Wal, WalError, io_error}
use mmbus.Wal.Aggregator
use mmbus.Wal.Aggregator.Pending.{Advances, append-Advances}
use mmbus.Errors.{Error, full, wal_error}
use mmbus.Publisher.Beside.{Beside, Beside-trans, OnlyReaders, stored, stored-Beside}
use mmbus.Publisher.Waking.{broadcast_wakeup-Undisturbed}
use mmbus.Publisher.{
  Client, Publisher, Accepted, connected, failed, accept_clients, broadcast_wakeup, Step, and_then,
  is_rejected, after_append, During, append_wal, raced, ring_publish, after_publish, publish_ring,
  publish,
}

-- The publisher has a log that is on, and its next cursor is the ring's tail; or it has no log.
abbrev pub LogInStep : Option Wal → ℕ → Type 0
LogInStep none tail = Unit
LogInStep (some w) tail = (w.cfg.enabled ≡ true) × (w.pending_cursor ≡ tail)

abbrev pub InStep : Publisher → Type 0
InStep p = LogInStep p.wal p.ring.tail

-- The log has a record that the ring has no message for.
abbrev pub IsAhead : Publisher → Type 0
IsAhead p = LogInStep p.wal (p.ring.tail + 1)

-- Why it may: the fsync has failed, or there was room before the log and is none after it.
abbrev pub HasReason : Publisher → Error → Publisher → Type 0
HasReason p e q =
    (e ≡ wal_error io_error)
    ⊎ ((e ≡ full)
        × (is_rejected p.backpressure p.ring ≡ false)
        × (is_rejected p.backpressure q.ring ≡ true))

-- What `publish` does, by its result. The bytes in the slot and the tail are those that the ring's
-- stores leave.
abbrev pub Outcome : Publisher → List ℕ → Step → Type 0
Outcome p bytes (q, ok _) =
    Beside (stored p.ring bytes) q.ring
    × (q.ring.tail ≡ p.ring.tail + 1)
    × (q.published_total ≡ p.published_total + 1)
    × InStep q
Outcome p bytes (q, err e) =
    Beside p.ring q.ring
    × (q.published_total ≡ p.published_total)
    × (InStep q ⊎ (IsAhead q × HasReason p e q))

-- Only the clients change.
pub accept_clients-clients :
    (p : Publisher) (arrivals : List Accepted)
    → (c : List Client) × ((accept_clients p arrivals).0 ≡ record p { clients = c })
unfolding accept_clients
accept_clients-clients p [] = (p.clients, refl)
accept_clients-clients p (failed ∷ rest) = (p.clients, refl)
accept_clients-clients p (connected c ∷ rest) =
    accept_clients-clients (record p { clients = p.clients ++ (c ∷ []) }) rest

-- The log's part, for any property of its result.
pub append_wal-cases :
    (R : Step → Type 0) (crc32c : List ℕ → ℕ) (p : Publisher) (d : During) (bytes : List ℕ)
    → InStep p
    → ((o : Option Wal)
        → LogInStep o (p.ring.tail + 1)
        → (o ≡ none) ⊎ (is_rejected p.backpressure p.ring ≡ false)
        → R (record p { wal = o }, ok tt))
    → (is_rejected p.backpressure p.ring ≡ true → R (p, err full))
    → ((w : Wal) (e : WalError)
        → w.cfg.enabled ≡ true
        → (w.pending_cursor ≡ p.ring.tail) ⊎ ((e ≡ io_error) × (w.pending_cursor ≡ p.ring.tail + 1))
        → R (record p { wal = some w }, err (wal_error e)))
    → R (append_wal crc32c p p.wal d bytes)
unfolding append_wal after_append
append_wal-cases R crc32c p d bytes in_step logged stopped refused = go p.wal refl in_step
  where
    by_result :
        (w : Wal)
        → w.cfg.enabled ≡ true
        → w.pending_cursor ≡ p.ring.tail
        → is_rejected p.backpressure p.ring ≡ false
        → (s : Aggregator.Step) → Advances w p.ring.tail s
        → R (after_append p s)
    by_result w on at room (v, ok _) (cfg, next) =
        logged (some v) (ap (λ c. c.enabled) cfg ∙ on, next) (inr room)
    by_result w on at room (v, err e) (cfg, inl same) =
        refused v e (ap (λ c. c.enabled) cfg ∙ on) (inl (same ∙ at))
    by_result w on at room (v, err e) (cfg, inr by) =
        refused v e (ap (λ c. c.enabled) cfg ∙ on) (inr by)

    go : (o : Option Wal) → p.wal ≡ o → LogInStep o p.ring.tail → R (append_wal crc32c p o d bytes)
    go none e log = subst (λ o. R (record p { wal = o }, ok tt)) (sym e) (logged none tt (inl refl))
    go (some w) e (on, at) = if_cases R (is_rejected p.backpressure p.ring) stopped (λ room.
        by_result w on at room (Aggregator.append crc32c w p.ring.tail d.ts d.now d.sync bytes)
          (append-Advances crc32c w p.ring.tail d.ts d.now d.sync bytes on))

-- The ring's part, for any property of its result.
pub ring_publish-cases :
    (R : Option (Ring × Bool) → Type 0) (b : Backpressure) (r : Ring) (bytes : List ℕ)
    → ltb r.slot_payload_size (length bytes) ≡ false
    → R (some (stored r bytes, true))
    → (is_rejected b r ≡ true → R (some (r, false)))
    → R (ring_publish b r bytes)
unfolding ring_publish publish_drop_oldest try_publish is_rejected
ring_publish-cases R drop_oldest r bytes fits done stopped = done
ring_publish-cases R error r bytes fits done stopped =
    if_cases R (ltb r.slot_payload_size (length bytes))
      (λ large. absurd (ground (arith, large, fits)))
      (λ _. if_cases R (is_full r) stopped (λ room. done))

-- The tail after all stores of a publish beside the subscribers.
pub stored-tail :
    (r s : Ring) (m : List ℕ) → Beside r s → r.tail + 1 < 2 ^ 64 → (stored s m).tail ≡ r.tail + 1
stored-tail r s m (c, f, e) word =
    publish_ops-tail s m ∙ ap (λ (q : Ring). (q.tail + 1) % 2 ^ 64) e ∙ omega arith

pub fits-Beside :
    (r s : Ring) (m : List ℕ)
    → Beside r s
    → ltb r.slot_payload_size (length m) ≡ false
    → ltb s.slot_payload_size (length m) ≡ false
fits-Beside r s m (c, f, e) fits =
    subst (λ (q : Ring). ltb q.slot_payload_size (length m) ≡ false) (sym e) fits

module _ (wake : ℕ → Bool) (p : Publisher) (bytes : List ℕ) (word : p.ring.tail + 1 < 2 ^ 64) where
  -- The message is in the ring `q.ring` had before, `r`: everyone is woken.
  published-Outcome :
      (q : Publisher)
      → Beside p.ring q.ring
      → q.published_total ≡ p.published_total
      → LogInStep q.wal (p.ring.tail + 1)
      → Outcome p bytes (after_publish wake q (some (stored q.ring bytes, true)))
  unfolding after_publish
  published-Outcome q beside count ahead =
      let written = stored q.ring bytes in
      let o = record q { ring = written; published_total = q.published_total + 1 } in
      let last = broadcast_wakeup wake o in
      let u = broadcast_wakeup-Undisturbed wake o in
      let tail : last.ring.tail ≡ p.ring.tail + 1 =
        ap (λ (r : Ring). r.tail) u.ring ∙ stored-tail p.ring q.ring bytes beside word in
      (
        Beside-trans (stored p.ring bytes) written last.ring
            (stored-Beside p.ring q.ring bytes beside)
            (written.cursors, last.ring.wakeflags, u.ring),
        tail,
        u.published ∙ ap (λ n. n + 1) count,
        subst (λ n. LogInStep last.wal n) (sym tail)
            (subst (λ o. LogInStep o (p.ring.tail + 1)) (sym u.wal) ahead),
      )

  -- The ring's part, after the log's and the subscribers'.
  publish_ring-Outcome :
      (o : Option Wal) (r : Ring)
      → ltb p.ring.slot_payload_size (length bytes) ≡ false
      → LogInStep o (p.ring.tail + 1)
      → (o ≡ none) ⊎ (is_rejected p.backpressure p.ring ≡ false)
      → Beside p.ring r
      → Outcome p bytes (publish_ring wake bytes (record p { wal = o; ring = r }))
  unfolding publish_ring after_publish
  publish_ring-Outcome o r fits ahead free beside =
      let q = record p { wal = o; ring = r } in
      ring_publish-cases (λ x. Outcome p bytes (after_publish wake q x)) p.backpressure r bytes
        (fits-Beside p.ring r bytes beside fits) (published-Outcome q beside refl ahead)
        (λ stopped. (
          beside,
          refl,
          elim free [
            | inl nolog ↦ inl (subst (λ o. LogInStep o r.tail) (sym nolog) tt)
            | inr room ↦ inr (
              subst (λ (s : Ring). LogInStep o (s.tail + 1)) (sym beside.2) ahead,
              inr (refl, room, stopped),
            )
          ],
        ))

  -- `publish` once the connections are accepted.
  pub log_then_ring-Outcome :
      (crc32c : List ℕ → ℕ) (d : During)
      → OnlyReaders d.race
      → InStep p
      → ltb p.ring.slot_payload_size (length bytes) ≡ false
      → Outcome p bytes (
          and_then (append_wal crc32c p p.wal d bytes) (λ p2. publish_ring wake bytes (raced d p2)))
  unfolding and_then raced
  log_then_ring-Outcome crc32c d readers in_step fits =
      append_wal-cases
        (λ s. Outcome p bytes (and_then s (λ p2. publish_ring wake bytes (raced d p2)))) crc32c p d
        bytes in_step
        (λ o ahead free. publish_ring-Outcome o (d.race p.ring) fits ahead free (readers p.ring))
        (λ stopped. ((p.ring.cursors, p.ring.wakeflags, refl), refl, inl in_step))
        (λ w e on at. (
          (p.ring.cursors, p.ring.wakeflags, refl),
          refl,
          elim at [
            | inl same ↦ inl (on, same)
            | inr (by, ahead) ↦ inr ((on, ahead), inl (ap wal_error by))
          ],
        ))

accepted-Outcome :
    (p : Publisher) (bytes : List ℕ) (k : Publisher → Step)
    → InStep p
    → ((c : List Client) → Outcome p bytes (k (record p { clients = c })))
    → (s : Step) → (c : List Client) × (s.0 ≡ record p { clients = c })
    → Outcome p bytes (and_then s k)
unfolding and_then
accepted-Outcome p bytes k in_step f (q, ok _) (c, e) =
    subst (λ q. Outcome p bytes (k q)) (sym e) (f c)
accepted-Outcome p bytes k in_step f (q, err x) (c, e) =
    subst (λ q. Outcome p bytes (q, err x)) (sym e)
      ((p.ring.cursors, p.ring.wakeflags, refl), refl, inl in_step)

-- `publish`, where the log's next cursor is the ring's tail, the tail stays a word, and the
-- subscribers, who may act between the log and the ring, change cursors and flags only. If it says
-- `ok`, the ring is that after all stores of a publish of these bytes, but for cursors and flags, the
-- tail and `published_total` have gone up by one, and the log's next cursor is again the tail. If it
-- says `err`, the ring is as it was, but for cursors and flags, and so is `published_total`; the log's
-- next cursor is still the tail, or it is one ahead, and then the error is that of a failed fsync, or
-- it is `Full`, and the ring had room before the log and has none now.
pub publish-Outcome :
    (crc32c : List ℕ → ℕ) (wake : ℕ → Bool) (p : Publisher) (arrivals : List Accepted) (d : During)
    (bytes : List ℕ)
    → OnlyReaders d.race
    → InStep p
    → p.ring.tail + 1 < 2 ^ 64
    → Outcome p bytes (publish crc32c wake p arrivals d bytes)
unfolding publish
publish-Outcome crc32c wake p arrivals d bytes readers in_step word =
    if_cases (Outcome p bytes) (ltb p.ring.slot_payload_size (length bytes))
      (λ large. ((p.ring.cursors, p.ring.wakeflags, refl), refl, inl in_step))
      (λ fits.
        accepted-Outcome p bytes _ in_step
          (λ c.
            log_then_ring-Outcome wake (record p { clients = c }) bytes word crc32c d readers
              in_step fits)
          (accept_clients p arrivals) (accept_clients-clients p arrivals))
