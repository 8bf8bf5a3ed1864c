-- ===== src/Wal/Aggregator/Pending.antt =====
-- The next cursor of the log, `pending_cursor`, under `Wal::append` of crates/mmbus/src/wal/wal.rs.
use mmbus.Prelude.{
  ℕ, ◌+◌, ◌≡◌, ◌⊎◌, refl, sym, ap, ◌∙◌, true, not, List, length, ltb, ◌==◌, Result, ok, err, Option,
  none, some, Bool-cases, if_cases, inl, inr, arith,
}
use mmbus.Wal.{max_payload_len, record_framing}
use mmbus.Wal.Segment
use mmbus.Wal.Segment.{SegmentWriter, WriterError, cursor_regressed, payload_too_large}
use mmbus.Wal.Tables.{lookup}
use mmbus.Wal.Aggregator.{
  Wal, WalError, io_error, FileSync, sync_ok, flush_failed, sync_failed, retain_if_over, Step,
  and_then, FsyncPolicy, no_fsync, batched, each, add_segment, create_segment, close_active,
  rotate_locked, ensure_writer, rotate_if_full, after_append, append_active, fsync_active,
  fsync_each, finish_append, append, enforce_retention_locked,
}
use mmbus.Wal.Aggregator.Retention.{enforce_retention_locked-SameLog}

abbrev pub IsSame : Wal → Wal → Type 0
IsSame w v = (v.cfg ≡ w.cfg) × (v.pending_cursor ≡ w.pending_cursor)

-- On success the next cursor is the one after `cursor`. On an error it is as it was, or the error is
-- that of the fsync, and it is the one after `cursor` all the same.
abbrev pub Advances : Wal → ℕ → Step → Type 0
Advances w cursor (v, ok _) = (v.cfg ≡ w.cfg) × (v.pending_cursor ≡ cursor + 1)
Advances w cursor (v, err e) =
    (v.cfg ≡ w.cfg)
    × ((v.pending_cursor ≡ w.pending_cursor) ⊎ ((e ≡ io_error) × (v.pending_cursor ≡ cursor + 1)))

IsSame-Advances :
    (w v : Wal) (cursor : ℕ) (e : WalError) → IsSame w v → Advances w cursor (v, err e)
IsSame-Advances w v cursor e (c, same) = (c, inl same)

IsSame-trans : (u v w : Wal) → IsSame u v → IsSame v w → IsSame u w
IsSame-trans u v w (a, b) (c, d) = (c ∙ a, d ∙ b)

and_then-Advances :
    (w : Wal) (cursor : ℕ) (s : Step) (k : Wal → Step)
    → IsSame w s.0
    → ((v : Wal) → IsSame w v → Advances w cursor (k v))
    → Advances w cursor (and_then s k)
unfolding and_then
and_then-Advances w cursor (v, ok _) k same f = f v same
and_then-Advances w cursor (v, err e) k same f = IsSame-Advances w v cursor e same

add_segment-IsSame :
    (w : Wal) (o : Option (List ℕ)) (first created : ℕ) → IsSame w (add_segment w o first created).0
unfolding add_segment
add_segment-IsSame w none first created = (refl, refl)
add_segment-IsSame w (some file) first created = (refl, refl)

create_segment-IsSame : (w : Wal) (first created : ℕ) → IsSame w (create_segment w first created).0
unfolding create_segment
create_segment-IsSame w first created = add_segment-IsSame w (lookup first w.disk) first created

close_active-IsSame : (w : Wal) (o : Option SegmentWriter) → IsSame w (close_active w o)
unfolding close_active
close_active-IsSame w none = (refl, refl)
close_active-IsSame w (some a) = (refl, refl)

ensure_writer-IsSame :
    (w : Wal) (o : Option SegmentWriter) (cursor created : ℕ)
    → IsSame w (ensure_writer w o cursor created).0
unfolding ensure_writer
ensure_writer-IsSame w none cursor created = create_segment-IsSame w cursor created
ensure_writer-IsSame w (some a) cursor created = (refl, refl)

rotate_if_full-IsSame :
    (w : Wal) (cursor created len : ℕ) → IsSame w (rotate_if_full w cursor created len).0
unfolding rotate_if_full rotate_locked
rotate_if_full-IsSame w cursor created len =
    if_cases (λ (s : Step). IsSame w s.0)
      (ltb w.cfg.segment_size_max (w.active_bytes + (record_framing + len)))
      (λ full.
        IsSame-trans w (close_active w w.writer)
          (create_segment (close_active w w.writer) cursor created).0
          (close_active-IsSame w w.writer)
          (create_segment-IsSame (close_active w w.writer) cursor created))
      (λ room. (refl, refl))

-- The writer takes the next cursor only.
append-pending :
    (crc32c : List ℕ → ℕ) (a b : SegmentWriter) (cursor ts : ℕ) (payload : List ℕ)
    → Segment.append crc32c a cursor ts payload ≡ ok b
    → b.pending_cursor ≡ cursor + 1
unfolding Segment.append
append-pending crc32c a b cursor ts payload e =
    elim (Bool-cases (ltb max_payload_len (length payload))) [
      | inl large ↦ absurd (err-ne-ok _ (rw large at e))
      | inr fits ↦ elim (Bool-cases (cursor == a.pending_cursor)) [
        | inl next ↦ pending_of _ (rw (fits, next) at e)
        | inr other ↦ absurd (err-ne-ok _ (rw (fits, other) at e))
      ]
    ]
  where
    err-ne-ok : (x : WriterError) → ◌≡◌ {A = Result WriterError SegmentWriter} (err x) (ok b) → ⊥
    err-ne-ok x h = cc

    next_of : Result WriterError SegmentWriter → ℕ
    next_of (ok w) = w.pending_cursor
    next_of (err x) = 0

    pending_of :
        (w : SegmentWriter)
        → ◌≡◌ {A = Result WriterError SegmentWriter} (ok w) (ok b)
        → b.pending_cursor ≡ w.pending_cursor
    pending_of w h = sym (ap next_of h)

append_active-Advances :
    (crc32c : List ℕ → ℕ) (w : Wal) (o : Option SegmentWriter) (cursor ts : ℕ) (payload : List ℕ)
    → Advances w cursor (append_active crc32c w o cursor ts payload)
unfolding append_active after_append
append_active-Advances crc32c w none cursor ts payload = (refl, inl refl)
append_active-Advances crc32c w (some a) cursor ts payload =
    go (Segment.append crc32c a cursor ts payload) refl
  where
    go :
        (r : Result WriterError SegmentWriter)
        → Segment.append crc32c a cursor ts payload ≡ r
        → Advances w cursor (after_append w (length payload) r)
    go (ok b) e = (refl, append-pending crc32c a b cursor ts payload e)
    go (err x) e = (refl, inl refl)

-- The error is that of the fsync, or there is none.
abbrev FailsBySync : Step → Type 0
FailsBySync (v, ok _) = Unit
FailsBySync (v, err e) = e ≡ io_error

abbrev Finishes : Wal → Step → Type 0
Finishes w s = IsSame w s.0 × FailsBySync s

fsync_active-Finishes :
    (w : Wal) (answer : FileSync) (o : Option SegmentWriter) → Finishes w (fsync_active w answer o)
unfolding fsync_active
fsync_active-Finishes w answer none = ((refl, refl), tt)
fsync_active-Finishes w sync_ok (some a) = ((refl, refl), tt)
fsync_active-Finishes w flush_failed (some a) = ((refl, refl), refl)
fsync_active-Finishes w sync_failed (some a) = ((refl, refl), refl)

fsync_each-Finishes :
    (w : Wal) (answer : FileSync) (f : FsyncPolicy) → Finishes w (fsync_each w answer f)
unfolding fsync_each
fsync_each-Finishes w answer each = fsync_active-Finishes w answer w.writer
fsync_each-Finishes w answer batched = ((refl, refl), tt)
fsync_each-Finishes w answer no_fsync = ((refl, refl), tt)

retain_if_over-Finishes : (w v : Wal) → IsSame w v → Finishes w (retain_if_over v)
unfolding retain_if_over
retain_if_over-Finishes w v same =
    let kept = enforce_retention_locked-SameLog v in
    if_cases (Finishes w) (ltb v.cfg.retention_bytes (v.retained_bytes + v.active_bytes))
      (λ over.
        (IsSame-trans w v (enforce_retention_locked v) same (kept.cfg, kept.pending_cursor), tt))
      (λ within. (same, tt))

finish_append-Finishes : (w : Wal) (answer : FileSync) → Finishes w (finish_append w answer)
unfolding finish_append and_then
finish_append-Finishes w answer =
    go (fsync_each w answer w.cfg.fsync_policy) (fsync_each-Finishes w answer w.cfg.fsync_policy)
  where
    go : (s : Step) → Finishes w s → Finishes w (and_then s retain_if_over)
    go (v, ok _) (same, by) = retain_if_over-Finishes w v same
    go (v, err e) f = f

Finishes-Advances :
    (w u : Wal) (cursor : ℕ)
    → u.cfg ≡ w.cfg
    → u.pending_cursor ≡ cursor + 1
    → (s : Step) → Finishes u s
    → Advances w cursor s
Finishes-Advances w u cursor c e (v, ok _) ((c', e'), by) = (c' ∙ c, e' ∙ e)
Finishes-Advances w u cursor c e (v, err x) ((c', e'), by) = (c' ∙ c, inr (by, e' ∙ e))

then-finish :
    (w v : Wal) (cursor : ℕ) (answer : FileSync)
    → IsSame w v
    → (s : Step) → Advances v cursor s
    → Advances w cursor (and_then s (λ u. finish_append u answer))
unfolding and_then
then-finish w v cursor answer (c, e) (u, ok _) (c', e') =
    Finishes-Advances w u cursor (c' ∙ c) e' (finish_append u answer)
      (finish_append-Finishes u answer)
then-finish w v cursor answer (c, e) (u, err x) (c', inl same) = (c' ∙ c, inl (same ∙ e))
then-finish w v cursor answer (c, e) (u, err x) (c', inr by) = (c' ∙ c, inr by)

pub append-Advances :
    (crc32c : List ℕ → ℕ) (w : Wal) (cursor ts created : ℕ) (answer : FileSync) (payload : List ℕ)
    → w.cfg.enabled ≡ true
    → Advances w cursor (append crc32c w cursor ts created answer payload)
unfolding append
append-Advances crc32c w cursor ts created answer payload on =
    if_cases (Advances w cursor) (not w.cfg.enabled) (λ off. absurd (ground (arith, off, on)))
      (λ _.
        if_cases (Advances w cursor) (ltb max_payload_len (length payload)) (λ _. (refl, inl refl))
          (λ _.
            if_cases (Advances w cursor) w.poisoned (λ _. (refl, inl refl))
              (λ _.
                and_then-Advances w cursor (ensure_writer w w.writer cursor created) _
                  (ensure_writer-IsSame w w.writer cursor created)
                  (λ w1 same1.
                    and_then-Advances w cursor (rotate_if_full w1 cursor created (length payload)) _
                      (IsSame-trans w w1 (rotate_if_full w1 cursor created (length payload)).0 same1
                        (rotate_if_full-IsSame w1 cursor created (length payload)))
                      (λ w2 same2.
                        then-finish w w2 cursor answer same2
                          (append_active crc32c w2 w2.writer cursor ts payload)
                          (append_active-Advances crc32c w2 w2.writer cursor ts payload))))))
