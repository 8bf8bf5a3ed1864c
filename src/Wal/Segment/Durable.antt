-- ===== src/Wal/Segment/Durable.antt =====
-- The invariant of the writer of a segment, crates/mmbus/src/wal/segment_writer.rs.
use mmbus.Prelude.{
  ℕ, ◌+◌, ◌≤◌, ◌≡◌, ◌⊎◌, inl, inr, refl, sym, ap, ◌∙◌, List, [], ◌∷◌, ◌++◌, length, ltb, ◌==◌, ok,
  err, arith, length-append, append_assoc, append-nil, Bool-cases, ltb→lt, ltb→le, ==_iff,
}
use mmbus.Wal.{Record, encode_record, encode_segment_header, max_payload_len}
use mmbus.Wal.RoundTrip.{IsWritable, length-encode_segment_header}
use mmbus.Wal.Segment.{
  SegmentWriter, WriterError, payload_too_large, cursor_regressed, create, append, fsync, sync_data,
}
use mmbus.Wal.Segment.Recovery.{encode_all, AllWritable}

-- The cursors of the records count up from `first`.
abbrev pub Contiguous : ℕ → List Record → Type 0
Contiguous first [] = Unit
Contiguous first (r ∷ rs) = (r.cursor ≡ first) × Contiguous (first + 1) rs

-- The first `length kept` of the records fill `n` bytes of the file, up to cursor `c`.
pub record Boundary (crc32c : List ℕ → ℕ) (first : ℕ) (rs : List Record) (n c : ℕ) : Type 0 where
  pub kept : List Record
  pub others : List Record
  pub split : rs ≡ kept ++ others
  pub size : 32 + length (encode_all crc32c kept) ≤ n
  pub cursor : c ≡ first + length kept

pub record Written (crc32c : List ℕ → ℕ) (created : ℕ) (w : SegmentWriter) (rs : List Record)
    : Type 0 where
  pub file : w.file ≡ encode_segment_header w.first_cursor created ++ encode_all crc32c rs
  pub contiguous : Contiguous w.first_cursor rs
  pub writable : AllWritable rs
  pub pending : w.pending_cursor ≡ w.first_cursor + length rs
  pub bytes : w.bytes_written ≡ length w.file
  pub synced : w.synced ≤ length w.file
  pub durable : Boundary crc32c w.first_cursor rs w.synced w.durable_cursor

pub encode_all-append :
    (crc32c : List ℕ → ℕ) (rs ts : List Record)
    → encode_all crc32c (rs ++ ts) ≡ encode_all crc32c rs ++ encode_all crc32c ts
encode_all-append crc32c [] ts = refl
encode_all-append crc32c (r ∷ rs) ts =
    ap (λ t. encode_record crc32c r ++ t) (encode_all-append crc32c rs ts)
    ∙ sym (append_assoc (encode_record crc32c r) (encode_all crc32c rs) (encode_all crc32c ts))

Contiguous-append :
    (first : ℕ) (rs : List Record) (r : Record)
    → Contiguous first rs
    → r.cursor ≡ first + length rs
    → Contiguous first (rs ++ (r ∷ []))
Contiguous-append first [] r c e = (omega (arith, e), tt)
Contiguous-append first (x ∷ rs) r (here, c) e =
    (here, Contiguous-append (first + 1) rs r c (omega (arith, e)))

AllWritable-append :
    (rs : List Record) (r : Record) → AllWritable rs → IsWritable r → AllWritable (rs ++ (r ∷ []))
AllWritable-append [] r all v = (v, tt)
AllWritable-append (x ∷ rs) r (here, all) v = (here, AllWritable-append rs r all v)

module _ (crc32c : List ℕ → ℕ) where
  pub Boundary-append :
      (first : ℕ) (rs : List Record) (r : Record) (n c : ℕ)
      → Boundary crc32c first rs n c
      → Boundary crc32c first (rs ++ (r ∷ [])) n c
  Boundary-append first rs r n c b = record {
    kept = b.kept;
    others = b.others ++ (r ∷ []);
    split = ap (λ t. t ++ (r ∷ [])) b.split ∙ append_assoc b.kept b.others (r ∷ []);
    size = b.size;
    cursor = b.cursor;
  }

  pub Boundary-longer :
      (first : ℕ) (rs : List Record) (n m c : ℕ)
      → n ≤ m
      → Boundary crc32c first rs n c
      → Boundary crc32c first rs m c
  Boundary-longer first rs n m c le b = record {
    kept = b.kept;
    others = b.others;
    split = b.split;
    size = omega (arith, b.size, le);
    cursor = b.cursor;
  }

  -- A fresh segment.
  pub create-Written : (first created : ℕ) → Written crc32c created (create first created) []
  unfolding create
  create-Written first created = record {
    file = sym (append-nil (encode_segment_header first created));
    contiguous = tt;
    writable = tt;
    pending = omega arith;
    bytes = sym (length-encode_segment_header first created);
    synced = omega (arith, length-encode_segment_header first created);
    durable = record {
      kept = [];
      others = [];
      split = refl;
      size = omega arith;
      cursor = omega arith;
    };
  }

  module _ (created : ℕ) (w : SegmentWriter) (rs : List Record)
      (inv : Written crc32c created w rs) where
    whole_file : 32 + length (encode_all crc32c rs) ≡ length w.file
    whole_file = omega (
      arith,
      ap length inv.file,
      length-append (encode_segment_header w.first_cursor created) (encode_all crc32c rs),
      length-encode_segment_header w.first_cursor created,
    )

    pub all_of : Boundary crc32c w.first_cursor rs (length w.file) w.pending_cursor
    all_of = record {
      kept = rs;
      others = [];
      split = sym (append-nil rs);
      size = omega (arith, whole_file);
      cursor = inv.pending;
    }

    pub fsync-Written : Written crc32c created (fsync w).0 rs
    unfolding fsync
    fsync-Written = record {
      file = inv.file;
      contiguous = inv.contiguous;
      writable = inv.writable;
      pending = inv.pending;
      bytes = inv.bytes;
      synced = omega arith;
      durable = all_of;
    }

    pub sync_data-Written : (n : ℕ) → n ≤ length w.file → Written crc32c created (sync_data w n) rs
    unfolding sync_data
    sync_data-Written n le = elim (Bool-cases (ltb w.synced n)) [
      | inl more ↦ rw more (record {
        file = inv.file;
        contiguous = inv.contiguous;
        writable = inv.writable;
        pending = inv.pending;
        bytes = inv.bytes;
        synced = le;
        durable =
            Boundary-longer w.first_cursor rs w.synced n w.durable_cursor
              (omega (arith, ltb→lt _ _ more)) inv.durable;
      })
      | inr less ↦ rw less inv
    ]

  pub sync_data-first_cursor :
      (w : SegmentWriter) (n : ℕ) → (sync_data w n).first_cursor ≡ w.first_cursor
  unfolding sync_data
  sync_data-first_cursor w n = elim (Bool-cases (ltb w.synced n)) [
    | inl more ↦ rw more refl
    | inr less ↦ rw less refl
  ]

  pub sync_data-synced : (w : SegmentWriter) (n : ℕ) → n ≤ (sync_data w n).synced
  unfolding sync_data
  sync_data-synced w n = elim (Bool-cases (ltb w.synced n)) [
    | inl more ↦ rw more (omega arith)
    | inr less ↦ rw less (ltb→le _ _ less)
  ]

  -- The writer after a record was appended.
  abbrev pub appended : SegmentWriter → Record → SegmentWriter
  appended w r = record w {
    file = w.file ++ encode_record crc32c r;
    bytes_written = w.bytes_written + length (encode_record crc32c r);
    pending_cursor = r.cursor + 1;
  }

  -- `append` refuses, or appends the record at the cursor that is expected.
  pub append-cases :
      (w : SegmentWriter) (r : Record)
      → ((e : WriterError) × (append crc32c w r.cursor r.ts_unix_nanos r.payload ≡ err e))
        ⊎ ((length r.payload ≤ max_payload_len)
            × (r.cursor ≡ w.pending_cursor)
            × (append crc32c w r.cursor r.ts_unix_nanos r.payload ≡ ok (appended w r)))
  unfolding append
  append-cases w r = elim (Bool-cases (ltb max_payload_len (length r.payload))) [
    | inl large ↦ rw large (inl (payload_too_large (length r.payload), refl))
    | inr small ↦ elim (Bool-cases (r.cursor == w.pending_cursor)) [
      | inl next ↦ rw (small, next) (inr (ltb→le _ _ small, (==_iff _ _).0 next, refl))
      | inr other ↦ rw (small, other) (inl (cursor_regressed r.cursor w.pending_cursor, refl))
    ]
  ]

  pub appended-Written :
      (created : ℕ) (w : SegmentWriter) (rs : List Record) (r : Record)
      → Written crc32c created w rs
      → IsWritable r
      → r.cursor ≡ w.pending_cursor
      → Written crc32c created (appended w r) (rs ++ (r ∷ []))
  appended-Written created w rs r inv v next =
      let one : encode_all crc32c (r ∷ []) ≡ encode_record crc32c r =
        append-nil (encode_record crc32c r) in
      let head = encode_segment_header w.first_cursor created in
      record {
        file =
            ap (λ t. t ++ encode_record crc32c r) inv.file
            ∙ append_assoc head (encode_all crc32c rs) (encode_record crc32c r)
            ∙ ap (λ t. head ++ t)
                (ap (λ t. encode_all crc32c rs ++ t) (sym one)
                  ∙ sym (encode_all-append crc32c rs (r ∷ [])));
        contiguous = Contiguous-append w.first_cursor rs r inv.contiguous (next ∙ inv.pending);
        writable = AllWritable-append rs r inv.writable v;
        pending = omega (arith, next, inv.pending, length-append rs (r ∷ []));
        bytes = omega (arith, inv.bytes, length-append w.file (encode_record crc32c r));
        synced = omega (arith, inv.synced, length-append w.file (encode_record crc32c r));
        durable = Boundary-append w.first_cursor rs r w.synced w.durable_cursor inv.durable;
      }
