-- ===== src/Wal/Aggregator/Retention.antt =====
-- `enforce_retention_locked` of crates/mmbus/src/wal/wal.rs.
use mmbus.Prelude.{
  ℕ, zero, suc, ◌+◌, ◌≤◌, ◌<◌, ◌≡◌, ◌≢◌, ◌⊎◌, inl, inr, refl, ◌∙◌, List, [], ◌∷◌, ◌++◌, length, leb,
  Option, none, some, Bool-cases, Option-cases,
}
use mmbus.Wal.Tables.{remove_key, lookup, remove, total}
use mmbus.Wal.Aggregator.{
  Wal, oldest_but, active_first, drop_size, drop_segment, retain, enforce, enforce_retention_locked,
}

abbrev pub NoneIs : ℕ → List ℕ → Type 0
NoneIs active [] = Unit
NoneIs active (k ∷ ks) = (k ≢ active) × NoneIs active ks

-- The retained bytes are those of the retained segments.
abbrev pub IsCounted : Wal → Type 0
IsCounted w = w.retained_bytes ≡ total w.segment_sizes

-- What deleting segments leaves alone.
pub record SameLog (w v : Wal) : Type 0 where
  pub cfg : v.cfg ≡ w.cfg
  pub writer : v.writer ≡ w.writer
  pub active_bytes : v.active_bytes ≡ w.active_bytes
  pub pending_cursor : v.pending_cursor ≡ w.pending_cursor
  pub durable_cursor : v.durable_cursor ≡ w.durable_cursor

drop_segment-SameLog : (w : Wal) (k : ℕ) → SameLog w (drop_segment w k)
unfolding drop_segment drop_size
drop_segment-SameLog w k = go (lookup k w.segment_sizes)
  where
    go :
        (o : Option ℕ)
        → SameLog w (
            drop_size (record w { segments = remove_key k w.segments; disk = remove k w.disk }) k o)
    go none = record {
      cfg = refl;
      writer = refl;
      active_bytes = refl;
      pending_cursor = refl;
      durable_cursor = refl;
    }
    go (some n) = record {
      cfg = refl;
      writer = refl;
      active_bytes = refl;
      pending_cursor = refl;
      durable_cursor = refl;
    }

SameLog-trans : {u v w : Wal} → SameLog u v → SameLog v w → SameLog u w
SameLog-trans a b = record {
  cfg = b.cfg ∙ a.cfg;
  writer = b.writer ∙ a.writer;
  active_bytes = b.active_bytes ∙ a.active_bytes;
  pending_cursor = b.pending_cursor ∙ a.pending_cursor;
  durable_cursor = b.durable_cursor ∙ a.durable_cursor;
}

-- The segments are deleted one after another.
abbrev pub drop_each : Wal → List ℕ → Wal
drop_each w [] = w
drop_each w (k ∷ ks) = drop_each (drop_segment w k) ks

-- Before each of these deletions the bytes are over the cap.
abbrev pub IsOverEach : Wal → List ℕ → Type 0
IsOverEach w [] = Unit
IsOverEach w (k ∷ ks) =
    (w.cfg.retention_bytes < w.retained_bytes + w.active_bytes) × IsOverEach (drop_segment w k) ks

-- What is left when the loop has ended: `older` lost some of its first segments.
abbrev Retained : Wal → List ℕ → List ℕ → Wal → Type 0
Retained w older rest v =
    (deleted : List ℕ) × (kept : List ℕ) × (older ≡ deleted ++ kept)
    × (v ≡ drop_each w deleted)
    × IsOverEach w deleted
    × (v.segments ≡ kept ++ rest)
    × ((v.retained_bytes + v.active_bytes ≤ w.cfg.retention_bytes) ⊎ (kept ≡ []))
    × SameLog w v
    × IsCounted v

SameLog-refl : (w : Wal) → SameLog w w
SameLog-refl w = record {
  cfg = refl;
  writer = refl;
  active_bytes = refl;
  pending_cursor = refl;
  durable_cursor = refl;
}

enforce-SameLog : (fuel : ℕ) (w : Wal) → SameLog w (enforce fuel w)
unfolding enforce retain
enforce-SameLog zero w = SameLog-refl w
enforce-SameLog (suc fuel) w =
    elim (Bool-cases (leb (w.retained_bytes + w.active_bytes) w.cfg.retention_bytes)) [
      | inl fits ↦ rw fits (SameLog-refl w)
      | inr over ↦ elim (Option-cases (oldest_but (active_first w.writer) w.segments)) [
        | inl none_left ↦ rw (over, none_left) (SameLog-refl w)
        | inr (k, first) ↦
            rw (over, first)
              (SameLog-trans (drop_segment-SameLog w k) (enforce-SameLog fuel (drop_segment w k)))
      ]
    ]

pub enforce_retention_locked-SameLog : (w : Wal) → SameLog w (enforce_retention_locked w)
unfolding enforce_retention_locked
enforce_retention_locked-SameLog w = enforce-SameLog (suc (length w.segments)) w
