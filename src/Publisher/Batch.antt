-- ===== src/Publisher/Batch.antt =====
-- `publish_many` of crates/mmbus/src/publisher.rs.
use mmbus.Prelude.{
  ℕ, ◌+◌, ◌^◌, ◌<◌, ◌≡◌, ◌⊎◌, refl, sym, subst, Bool, List, [], ◌∷◌, length, ltb, Result, ok, err,
  if_cases, inl, arith,
}
use mmbus.Wal.Aggregator.{io_error}
use mmbus.Errors.{Error, too_large, wal_error}
use mmbus.Publisher.Beside.{Beside-refl, OnlyReaders}
use mmbus.Publisher.{
  Client, Publisher, Accepted, accept_clients, Step, During, publish_items, after_accept,
  publish_many,
}
use mmbus.Publisher.InStep.{InStep, IsAhead, accept_clients-clients}
use mmbus.Publisher.Items.{
  HasPublished, HasEnded, Went, finish_many-Went, wake_if_any-Went, append_wal-Went,
}

-- What `publish_many` does with `items`, by its result.
abbrev pub Published :
    (ℕ → During) → Publisher → List (List ℕ) → Publisher × Result Error ℕ → Type 0
Published during p items (q, ok n) =
    HasPublished p items n q
    × (q.published_total ≡ p.published_total + n)
    × HasEnded p items n (during n) q
Published during p items (q, err e) =
    (k : ℕ) × HasPublished p items k q
    × (q.published_total ≡ p.published_total)
    × (InStep q ⊎ (IsAhead q × (e ≡ wal_error io_error)))

module _ (crc32c : List ℕ → ℕ) (wake : ℕ → Bool) (during : ℕ → During)
    (readers : (n : ℕ) → OnlyReaders (during n).race) where
  publish_items-Went :
      (count : ℕ) (items : List (List ℕ)) (p : Publisher)
      → InStep p
      → p.ring.tail + length items < 2 ^ 64
      → Went during p count items (publish_items crc32c wake during count items p)
  unfolding publish_items
  publish_items-Went count [] p log word =
      finish_many-Went wake during p p [] (Beside-refl p.ring) refl count (inl (refl, log))
  publish_items-Went count (m ∷ items) p log word =
      if_cases (Went during p count (m ∷ items)) (ltb p.ring.slot_payload_size (length m))
        (λ large.
          wake_if_any-Went wake during p p (m ∷ items) (Beside-refl p.ring) refl count
            (too_large (length m) p.ring.slot_payload_size) (inl log))
        (λ fits.
          append_wal-Went wake during p count m items
            (λ n q. publish_items crc32c wake during n items q)
            (λ n q. publish_items-Went n items q) word fits (readers count) crc32c log)

  Published-of :
      (p : Publisher) (items : List (List ℕ)) (s : Publisher × Result Error ℕ)
      → Went during p 0 items s
      → Published during p items s
  Published-of p items (t, err e) went = went
  Published-of p items (t, ok n) (k, is, has, more, why) =
      let e : k ≡ n = omega (arith, is) in
      (
        subst (λ k. HasPublished p items k t) e has,
        more,
        subst (λ k. HasEnded p items k (during n) t) e why,
      )

  after_accept-Published :
      (items : List (List ℕ)) (p : Publisher)
      → InStep p
      → p.ring.tail + length items < 2 ^ 64
      → (s : Step) → (c : List Client) × (s.0 ≡ record p { clients = c })
      → Published during p items
          (after_accept s (λ p1. publish_items crc32c wake during 0 items p1))
  unfolding after_accept
  after_accept-Published items p log word (q, ok _) (c, e) =
      subst (λ q. Published during p items (publish_items crc32c wake during 0 items q)) (sym e)
        (Published-of p items (publish_items crc32c wake during 0 items (record p { clients = c }))
          (publish_items-Went 0 items (record p { clients = c }) log word))
  after_accept-Published items p log word (q, err x) (c, e) =
      subst (λ q. Published during p items (q, err x)) (sym e)
        (0, (omega arith, Beside-refl p.ring), refl, inl log)

  -- `publish_many`, where the log's next cursor is the ring's tail, the tail stays a word, and the
  -- subscribers, who may act between the log and the ring at each item, change cursors and flags
  -- only. If it says `ok n`, the ring is that after publishing the first `n` items one by one, but for
  -- cursors and flags, and `published_total` has grown by `n`. Either these are all items, and the
  -- log's next cursor is again the tail; or the ring is then full under the policy `Error`, and the
  -- log's next cursor is again the tail, or it is one ahead, and the subscribers have filled a ring
  -- that had room before the log. If it says `err`, some of the first items are published,
  -- `published_total` is as it was, and the log's next cursor is again the tail, or it is one ahead,
  -- and the error is that of a failed fsync.
  pub publish_many-Published :
      (p : Publisher) (arrivals : List Accepted) (items : List (List ℕ))
      → InStep p
      → p.ring.tail + length items < 2 ^ 64
      → Published during p items (publish_many crc32c wake p arrivals during items)
  unfolding publish_many
  publish_many-Published p arrivals items log word =
      after_accept-Published items p log word (accept_clients p arrivals)
        (accept_clients-clients p arrivals)
