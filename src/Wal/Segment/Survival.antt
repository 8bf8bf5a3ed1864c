-- ===== src/Wal/Segment/Survival.antt =====
-- Runs of a segment's writer (crates/mmbus/src/wal/segment_writer.rs) and of the batched flusher
-- beside it, a crash, and the recovery.
use mmbus.Prelude.{
  ℕ, ◌+◌, ◌-◌, ◌≤◌, ◌<◌, ◌^◌, ◌≡◌, inl, inr, refl, sym, ap, ap₂, ◌∙◌, subst, false, List, [], ◌∷◌,
  ◌++◌, length, take, ok, Option, none, some, arith, length-append, append_assoc, append-nil,
  drop-append, take-add, take-append, Bool-cases, ltb,
}
use mmbus.Wal.{Record, encoded_len, encode_record, encode_segment_header}
use mmbus.Wal.RoundTrip.{length-encode_record, length-encode_segment_header}
use mmbus.Wal.Segment.{
  Log, LogOp, append_op, fsync_op, flush_op, flushed_op, create, fsync, sync_data,
  flush_for_external_fsync, after_append, after_flush, perform, perform_all, recover_truncate,
  RecoveryReport,
}
use mmbus.Wal.Segment.Recovery.{encode_all, last_cursor_of}
use mmbus.Wal.Segment.Crash.{fitting, recover_truncate-cut}
use mmbus.Wal.Segment.Durable.{
  Boundary, Contiguous, Written, Boundary-append, Boundary-longer, sync_data-synced, create-Written,
  fsync-Written, all_of, sync_data-Written, sync_data-first_cursor, append-cases, appended-Written,
}

-- The arguments of an append are 64-bit words.
abbrev pub OpFits : LogOp → Type 0
OpFits (append_op cursor ts payload) = (cursor < 2 ^ 64) × (ts < 2 ^ 64)
OpFits fsync_op = Unit
OpFits flush_op = Unit
OpFits flushed_op = Unit

abbrev pub AllOpsFit : List LogOp → Type 0
AllOpsFit [] = Unit
AllOpsFit (op ∷ ops) = OpFits op × AllOpsFit ops

-- A flush under way covers records that were written.
abbrev pub Flushing : (List ℕ → ℕ) → ℕ → List Record → ℕ → Option (ℕ × ℕ) → Type 0
Flushing crc32c first rs len none = Unit
Flushing crc32c first rs len (some (n, c)) = (n ≤ len) × Boundary crc32c first rs n c

pub record Logged (crc32c : List ℕ → ℕ) (first created : ℕ) (l : Log) (rs : List Record)
    : Type 0 where
  pub written : Written crc32c created l.writer rs
  pub first_is : l.writer.first_cursor ≡ first
  pub durable : Boundary crc32c first rs l.writer.synced l.durable_cursor
  pub flushing : Flushing crc32c first rs (length l.writer.file) l.flushing

module _ (crc32c : List ℕ → ℕ) (first created : ℕ) where
  -- The records that are added by a step.
  abbrev More : Log → List Record → Type 0
  More l rs = (more : List Record) × Logged crc32c first created l (rs ++ more)

  same : (l : Log) (rs : List Record) → Logged crc32c first created l rs → More l rs
  same l rs inv = ([], subst (Logged crc32c first created l) (sym (append-nil rs)) inv)

  Flushing-append :
      (rs : List Record) (r : Record) (n m : ℕ) (f : Option (ℕ × ℕ))
      → n ≤ m
      → Flushing crc32c first rs n f
      → Flushing crc32c first (rs ++ (r ∷ [])) m f
  Flushing-append rs r n m none le b = tt
  Flushing-append rs r n m (some (k, c)) le (fits, b) =
      (omega (arith, fits, le), Boundary-append crc32c first rs r k c b)

  perform-Logged :
      (l : Log) (op : LogOp) (rs : List Record)
      → OpFits op
      → Logged crc32c first created l rs
      → More (perform crc32c l op) rs
  unfolding perform after_append fsync flush_for_external_fsync encoded_len after_flush
  perform-Logged l (append_op cursor ts payload) rs (c, t) inv =
      let r : Record = record { cursor = cursor; ts_unix_nanos = ts; payload = payload } in
      elim (append-cases crc32c l.writer r) [
        | inl (e, refused) ↦ rw refused (same l rs inv)
        | inr (small, next, done) ↦ rw done (
          r ∷ [],
          record {
            written =
                appended-Written crc32c created l.writer rs r inv.written
                  (record { cursor_fits = c; ts_fits = t; size_fits = omega (arith, small) }) next;
            first_is = inv.first_is;
            durable =
                Boundary-append crc32c first rs r l.writer.synced l.durable_cursor inv.durable;
            flushing =
                Flushing-append rs r _ _ l.flushing
                  (omega (arith, length-append l.writer.file (encode_record crc32c r)))
                  inv.flushing;
          },
        )
      ]
  perform-Logged l fsync_op rs fits inv = same _ rs (record {
    written = fsync-Written crc32c created l.writer rs inv.written;
    first_is = inv.first_is;
    durable =
        subst (λ f. Boundary crc32c f rs (length l.writer.file) l.writer.pending_cursor)
          inv.first_is (all_of crc32c created l.writer rs inv.written);
    flushing = inv.flushing;
  })
  perform-Logged l flush_op rs fits inv = same _ rs (record {
    written = inv.written;
    first_is = inv.first_is;
    durable = inv.durable;
    flushing = (
      omega arith,
      subst (λ f. Boundary crc32c f rs (length l.writer.file) l.writer.pending_cursor) inv.first_is
          (all_of crc32c created l.writer rs inv.written),
    );
  })
  perform-Logged l flushed_op rs fits inv = same _ rs (finish l.flushing inv.flushing)
    where
      finish :
          (f : Option (ℕ × ℕ))
          → Flushing crc32c first rs (length l.writer.file) f
          → Logged crc32c first created (after_flush l f) rs
      finish none b = inv
      finish (some (n, c)) (le, b) = record {
        written = sync_data-Written crc32c created l.writer rs inv.written n le;
        first_is = sync_data-first_cursor crc32c l.writer n ∙ inv.first_is;
        durable =
            Boundary-longer crc32c first rs n (sync_data l.writer n).synced c
              (sync_data-synced crc32c l.writer n) b;
        flushing = tt;
      }

  perform_all-Logged :
      (l : Log) (ops : List LogOp) (rs : List Record)
      → AllOpsFit ops
      → Logged crc32c first created l rs
      → More (perform_all crc32c l ops) rs
  unfolding perform_all
  perform_all-Logged l [] rs fits inv = same l rs inv
  perform_all-Logged l (op ∷ ops) rs (here, fits) inv =
      let (more, inv') = perform-Logged l op rs here inv in
      let (more', inv'') = perform_all-Logged (perform crc32c l op) ops (rs ++ more) fits inv' in
      (
        more ++ more',
        subst (Logged crc32c first created (perform_all crc32c (perform crc32c l op) ops))
            (append_assoc rs more more') inv'',
      )

  fitting-prefix : (n : ℕ) (rs : List Record) → (lost : List Record) × (rs ≡ fitting n rs ++ lost)
  fitting-prefix n [] = ([], refl)
  fitting-prefix n (r ∷ rs) = elim (Bool-cases (ltb n (encoded_len r))) [
    | inl short ↦ rw short (r ∷ rs, refl)
    | inr whole ↦
        let (lost, e) = fitting-prefix (n - encoded_len r) rs in rw whole (lost, ap (λ t. r ∷ t) e)
  ]

  -- Records whose bytes are among the first `n` are among the fitting ones.
  fitting-kept :
      (n : ℕ) (kept others : List Record)
      → length (encode_all crc32c kept) ≤ n
      → length kept ≤ length (fitting n (kept ++ others))
  fitting-kept n [] others le = omega arith
  fitting-kept n (r ∷ kept) others le =
      let l : length (encode_record crc32c r ++ encode_all crc32c kept)
          ≡ encoded_len r + length (encode_all crc32c kept) =
        omega (
          arith,
          length-append (encode_record crc32c r) (encode_all crc32c kept),
          length-encode_record crc32c r,
        ) in
      let whole : ltb n (encoded_len r) ≡ false = ground (arith, l, le) in
      rw whole (omega (arith, fitting-kept (n - encoded_len r) kept others (omega (arith, l, le))))

-- A writer that begins a segment, all before it durable, and no flush under way.
abbrev pub fresh : (first created : ℕ) → Log
fresh first created = record {
  writer = create first created;
  durable_cursor = first;
  flushing = none;
}

-- What a crash leaves of a log, and what recovery makes of it.
abbrev Survives : (List ℕ → ℕ) → ℕ → ℕ → Log → ℕ → Type 0
Survives crc32c first created l n =
    (got : List Record) × (lost : List Record) × (report : RecoveryReport) × (l.writer.file
      ≡ encode_segment_header first created ++ encode_all crc32c (got ++ lost))
    × Contiguous first (got ++ lost)
    × (recover_truncate crc32c (take n l.writer.file)
        ≡ ok (some (encode_segment_header first created ++ encode_all crc32c got, report)))
    × (report.last_cursor ≡ last_cursor_of got none)
    × (l.durable_cursor ≤ first + length got)
    × (l.writer.durable_cursor ≤ first + length got)

Logged-Survives :
    (crc32c : List ℕ → ℕ)
    → ((bs : List ℕ) → crc32c bs < 2 ^ 32)
    → (first created : ℕ) (l : Log) (rs : List Record) (n : ℕ) → first < 2 ^ 64
    → created < 2 ^ 64
    → Logged crc32c first created l rs
    → l.writer.synced ≤ n
    → Survives crc32c first created l n
Logged-Survives crc32c word first created l rs n f c inv synced =
    let w = inv.written in
    let file : l.writer.file ≡ encode_segment_header first created ++ encode_all crc32c rs =
      w.file ∙ ap (λ k. encode_segment_header k created ++ encode_all crc32c rs) inv.first_is in
    let (lost, split) = fitting-prefix crc32c first created (n - 32) rs in
    let (report, recovered, last) =
      recover_truncate-cut crc32c word first created (n - 32) rs f c w.writable in
    (
      fitting (n - 32) rs,
      lost,
      report,
      file ∙ ap (λ t. encode_segment_header first created ++ encode_all crc32c t) split,
      subst (Contiguous first) split (subst (λ k. Contiguous k rs) inv.first_is w.contiguous),
      ap (λ t. recover_truncate crc32c (take n t)) file
          ∙ ap (recover_truncate crc32c) (cut_after n (omega (arith, inv.durable.size, synced)))
          ∙ recovered,
      last,
      reached l.durable_cursor inv.durable,
      reached l.writer.durable_cursor (
          subst (λ k. Boundary crc32c k rs l.writer.synced l.writer.durable_cursor) inv.first_is
            w.durable),
    )
  where
    reached :
        (c : ℕ)
        → Boundary crc32c first rs l.writer.synced c
        → c ≤ first + length (fitting (n - 32) rs)
    reached c b =
        let kept : length b.kept ≤ length (fitting (n - 32) rs) =
          subst (λ t. length b.kept ≤ length (fitting (n - 32) t)) (sym b.split)
            (fitting-kept crc32c first created (n - 32) b.kept b.others
              (omega (arith, b.size, synced))) in
        omega (arith, b.cursor, kept)

    cut_after :
        (n : ℕ)
        → 32 ≤ n
        → take n (encode_segment_header first created ++ encode_all crc32c rs)
          ≡ encode_segment_header first created ++ take (n - 32) (encode_all crc32c rs)
    cut_after n le =
        let e : n ≡ 32 + (n - 32) = omega (arith, le) in
        let head = encode_segment_header first created in
        let l = length-encode_segment_header first created in
        let xs = head ++ encode_all crc32c rs in
        ap (λ k. take k xs) e
        ∙ take-add 32 (n - 32) xs
        ∙ ap₂ ◌++◌ (take-append 32 head (encode_all crc32c rs) l)
            (ap (take (n - 32)) (drop-append 32 head (encode_all crc32c rs) l))

-- After any run of appends, syncs and flushes of a new segment, the file is whole records with
-- cursors one after another from the first; and if a crash then leaves any prefix of it that has at
-- least what was synced, recovery gives back the header and a prefix of the records with every
-- record below the durable cursor, the log's and the writer's, and nothing else. The arguments are 64-bit words.
pub recover_truncate-perform_all :
    (crc32c : List ℕ → ℕ)
    → ((bs : List ℕ) → crc32c bs < 2 ^ 32)
    → (first created : ℕ) (ops : List LogOp) (n : ℕ) → first < 2 ^ 64
    → created < 2 ^ 64
    → AllOpsFit ops
    → (perform_all crc32c (fresh first created) ops).writer.synced ≤ n
    → (got : List Record) × (lost : List Record) × (report : RecoveryReport) × ((perform_all crc32c
          (fresh first created)
          ops).writer.file
        ≡ encode_segment_header first created ++ encode_all crc32c (got ++ lost))
      × Contiguous first (got ++ lost)
      × (recover_truncate crc32c (take n (perform_all crc32c (fresh first created) ops).writer.file)
          ≡ ok (some (encode_segment_header first created ++ encode_all crc32c got, report)))
      × (report.last_cursor ≡ last_cursor_of got none)
      × ((perform_all crc32c (fresh first created) ops).durable_cursor ≤ first + length got)
      × ((perform_all crc32c (fresh first created) ops).writer.durable_cursor ≤ first + length got)
unfolding create
recover_truncate-perform_all crc32c word first created ops n f c fits synced =
    let (rs, inv) =
      perform_all-Logged crc32c first created (fresh first created) ops [] fits
        (fresh-Logged first created) in
    Logged-Survives crc32c word first created _ rs n f c inv synced
  where
    fresh-Logged : (first created : ℕ) → Logged crc32c first created (fresh first created) []
    fresh-Logged first created = record {
      written = create-Written crc32c first created;
      first_is = refl;
      durable = (create-Written crc32c first created).durable;
      flushing = tt;
    }
