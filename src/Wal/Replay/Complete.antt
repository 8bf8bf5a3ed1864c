-- ===== src/Wal/Replay/Complete.antt =====
-- `WalReader` of crates/mmbus/src/wal/reader.rs with `WalReplayer` (wal.rs) over a whole log: a
-- subscriber that comes late gets every record from its cursor on.
use mmbus.Prelude.{
  Bool-cases, ℕ, ◌+◌, ◌≤◌, ◌<◌, ◌^◌, ◌≡◌, ◌⊎◌, inl, inr, refl, sym, ap, ◌∙◌, subst, Bool, true,
  false, List, [], ◌∷◌, ◌++◌, length, ◌==◌, ok, none, some, arith, All, keep, keep_in, keep_out,
  append_assoc,
}
use mmbus.Wal.{Record, encode_segment_header}
use mmbus.Wal.Segment.Recovery.{encode_all, AllWritable}
use mmbus.Wal.Segment.Durable.{Contiguous}
use mmbus.Wal.Tables.{lookup}
use mmbus.Wal.Aggregator.{Wal, each}
use mmbus.Wal.Open.{WalReplayer, keys, read_from}
use mmbus.Wal.Open.ReadFrom.{Above, Ascending, read_from-covers}
use mmbus.Wal.Replay.{open_reader, reader_read_from, nexts}
use mmbus.Wal.Replay.Whole.{is_wanted, Files, Ahead, items, nexts-Ahead}

-- A segment: its number, the clock at its creation, and its records.
pub record Seg : Type 0 where
  pub first : ℕ
  pub created : ℕ
  pub records : List Record

abbrev pub all_records : List Seg → List Record
all_records [] = []
all_records (s ∷ ss) = s.records ++ all_records ss

abbrev pub directory : (List ℕ → ℕ) → List Seg → List (ℕ × List ℕ)
directory crc32c [] = []
directory crc32c (s ∷ ss) =
    (s.first, encode_segment_header s.first s.created ++ encode_all crc32c s.records)
    ∷ directory crc32c ss

-- Each segment goes on where the one before it ends; only the last one may be empty.
abbrev pub Chain : ℕ → List Seg → Type 0
Chain cursor [] = Unit
Chain cursor (s ∷ ss) =
    (s.first ≡ cursor)
    × (s.first < 2 ^ 64)
    × (s.created < 2 ^ 64)
    × AllWritable s.records
    × Contiguous s.first s.records
    × ((0 < length s.records) ⊎ (ss ≡ []))
    × Chain (cursor + length s.records) ss

-- The segments of `ss` come after those before `k`.
Chain-Above :
    (crc32c : List ℕ → ℕ) (k cursor : ℕ) (ss : List Seg)
    → k < cursor
    → Chain cursor ss
    → Above k (keys (directory crc32c ss))
Chain-Above crc32c k cursor [] lt c = tt
Chain-Above crc32c k cursor (s ∷ ss) lt (at, _, _, _, _, _, rest) = (
  omega (arith, at, lt),
  Chain-Above crc32c k (cursor + length s.records) ss (omega (arith, lt)) rest,
)

Chain-Ascending :
    (crc32c : List ℕ → ℕ) (cursor : ℕ) (ss : List Seg)
    → Chain cursor ss
    → Ascending (keys (directory crc32c ss))
Chain-Ascending crc32c cursor [] c = tt
Chain-Ascending crc32c cursor (s ∷ ss) (at, _, _, _, _, inl more, rest) = (
  Chain-Above crc32c s.first (cursor + length s.records) ss (omega (arith, at, more)) rest,
  Chain-Ascending crc32c (cursor + length s.records) ss rest,
)
Chain-Ascending crc32c cursor (s ∷ ss) (at, _, _, _, _, inr last, rest) = rw last (tt, tt)

-- A segment is found behind those with smaller numbers.
lookup-behind :
    (crc32c : List ℕ → ℕ) (before : List Seg) (s : Seg) (ss : List Seg)
    → All (λ t. t.first < s.first) before
    → lookup s.first (directory crc32c (before ++ (s ∷ ss)))
      ≡ some (encode_segment_header s.first s.created ++ encode_all crc32c s.records)
lookup-behind crc32c [] s ss a = let e : (s.first == s.first) ≡ true = ground arith in rw e refl
lookup-behind crc32c (t ∷ before) s ss (lt, a) =
    let e : (s.first == t.first) ≡ false = ground (arith, lt) in
    rw e (lookup-behind crc32c before s ss a)

append-All_one :
    (before : List Seg) (s : Seg) (n : ℕ)
    → All (λ t. t.first < s.first) before
    → s.first < n
    → All (λ t. t.first < n) (before ++ (s ∷ []))
append-All_one [] s n a lt = (lt, tt)
append-All_one (t ∷ before) s n (h, a) lt = (omega (arith, h, lt), append-All_one before s n a lt)

next_first :
    {cursor : ℕ} {ss : List Seg} (s t : Seg) (ts : List Seg)
    → (0 < length s.records) ⊎ (ss ≡ [])
    → s.first ≡ cursor
    → Chain (cursor + length s.records) (t ∷ ts)
    → ss ≡ t ∷ ts
    → s.first < t.first
next_first s t ts (inl more) at (at', _, _, _, _, _, _) e = omega (arith, more, at, at')
next_first s t ts (inr last) at c e = cc

Chain-Files :
    (crc32c : List ℕ → ℕ) (cursor : ℕ) (before ss : List Seg)
    → ((s : Seg) (rest : List Seg) → ss ≡ s ∷ rest → All (λ t. t.first < s.first) before)
    → Chain cursor ss
    → Files crc32c (directory crc32c (before ++ ss)) (keys (directory crc32c ss)) (all_records ss)
Chain-Files crc32c cursor before [] a c = refl
Chain-Files crc32c cursor before (s ∷ ss) a (at, f, cr, all, up, more, rest) = (
  s.first,
  s.created,
  s.records,
  all_records ss,
  lookup-behind crc32c before s ss (a s ss refl),
  f,
  cr,
  all,
  refl,
  subst (λ t. Files crc32c (directory crc32c t) (keys (directory crc32c ss)) (all_records ss))
      (append_assoc before (s ∷ []) ss)
      (Chain-Files crc32c (cursor + length s.records) (before ++ (s ∷ [])) ss
        (λ t ts e.
          append-All_one before s t.first (a s ss refl)
            (next_first s t ts more at (subst (Chain (cursor + length s.records)) e rest) e))
        rest),
)

keep-append : (f : Record → Bool) (rs ss : List Record) → keep f (rs ++ ss) ≡ keep f rs ++ keep f ss
keep-append f [] ss = refl
keep-append f (r ∷ rs) ss = elim (Bool-cases (f r)) [
  | inl yes_r ↦
      rw (keep_in f r (rs ++ ss) yes_r, keep_in f r rs yes_r)
        (ap (λ t. r ∷ t) (keep-append f rs ss))
  | inr no_r ↦ rw (keep_out f r (rs ++ ss) no_r, keep_out f r rs no_r) (keep-append f rs ss)
]

-- Records before the cursor.
keep-Contiguous :
    (first cursor : ℕ) (rs : List Record)
    → Contiguous first rs
    → first + length rs ≤ cursor
    → keep (is_wanted cursor) rs ≡ []
keep-Contiguous first cursor [] c le = refl
keep-Contiguous first cursor (r ∷ rs) (at, c) le =
    keep_out (is_wanted cursor) r rs (ground (arith, at, le))
    ∙ keep-Contiguous (first + 1) cursor rs c (omega (arith, le))

Chain-key :
    (crc32c : List ℕ → ℕ) (c : ℕ) (ss : List Seg) (skipped : List ℕ) (k : ℕ) (ks : List ℕ)
    → Chain c ss
    → keys (directory crc32c ss) ≡ skipped ++ (k ∷ ks)
    → c ≤ k
Chain-key crc32c c [] [] k ks chain e = cc
Chain-key crc32c c [] (j ∷ skipped) k ks chain e = cc
Chain-key crc32c c (s ∷ ss) [] k ks (at, _, _, _, _, _, _) e =
    let h : s.first ≡ k = cc in omega (arith, at, h)
Chain-key crc32c c (s ∷ ss) (j ∷ skipped) k ks (at, _, _, _, _, _, rest) e =
    omega (arith, Chain-key crc32c (c + length s.records) ss skipped k ks rest cc)

-- The segments that are skipped have no record from the cursor on.
Chain-skipped :
    (crc32c : List ℕ → ℕ) (c cursor : ℕ) (before ss : List Seg) (skipped : List ℕ) (k : ℕ)
    (ks : List ℕ)
    → ((s : Seg) (rest : List Seg) → ss ≡ s ∷ rest → All (λ t. t.first < s.first) before)
    → Chain c ss
    → k ≤ cursor
    → keys (directory crc32c ss) ≡ skipped ++ (k ∷ ks)
    → (left : List Record) × Files crc32c (directory crc32c (before ++ ss)) (k ∷ ks) left
      × (keep (is_wanted cursor) left ≡ keep (is_wanted cursor) (all_records ss))
Chain-skipped crc32c c cursor before ss [] k ks a chain le e = (
  all_records ss,
  subst (λ t. Files crc32c (directory crc32c (before ++ ss)) t (all_records ss)) e
      (Chain-Files crc32c c before ss a chain),
  refl,
)
Chain-skipped crc32c c cursor before [] (j ∷ skipped) k ks a chain le e = absurd cc
Chain-skipped crc32c c cursor before (s ∷ ss) (j ∷ skipped) k ks a (at, f, cr, all, up, more, rest)
      le e =
    let e' : keys (directory crc32c ss) ≡ skipped ++ (k ∷ ks) = cc in
    let (left, files, same) =
      Chain-skipped crc32c (c + length s.records) cursor (before ++ (s ∷ [])) ss skipped k ks
        (λ t ts e.
          append-All_one before s t.first (a s ss refl)
            (next_first s t ts more at (subst (Chain (c + length s.records)) e rest) e))
        rest le e' in
    let past = Chain-key crc32c (c + length s.records) ss skipped k ks rest e' in
    let none_left = keep-Contiguous s.first cursor s.records up (omega (arith, at, past, le)) in
    (
      left,
      subst (λ t. Files crc32c (directory crc32c t) (k ∷ ks) left) (append_assoc before (s ∷ []) ss)
          files,
      same
          ∙ sym (
              keep-append (is_wanted cursor) s.records (all_records ss)
              ∙ ap (λ t. t ++ keep (is_wanted cursor) (all_records ss)) none_left),
    )

-- The iterator that `read_from` gives, and what is ahead of it.
pub reader_read_from-Ahead :
    (crc32c : List ℕ → ℕ) (cursor : ℕ) (s : Seg) (ss : List Seg)
    → Chain s.first (s ∷ ss)
    → s.first ≤ cursor
    → (rp : WalReplayer) × (left : List Record) × (reader_read_from
          (open_reader (directory crc32c (s ∷ ss)))
          cursor
        ≡ ok rp)
      × (rp.cursor_floor ≡ cursor)
      × Ahead crc32c (directory crc32c (s ∷ ss)) rp left
      × (keep (is_wanted cursor) left ≡ keep (is_wanted cursor) (all_records (s ∷ ss)))
unfolding reader_read_from open_reader read_from
reader_read_from-Ahead crc32c cursor s ss chain le =
    elim (read_from-covers log cursor (Chain-Ascending crc32c s.first (s ∷ ss) chain)) [
      | inl (nothing, _) ↦ absurd cc
      | inr (inl (oldest, rest, is, lt, _)) ↦
          let h : s.first ≡ oldest = cc in absurd (omega (arith, h, lt, le))
      | inr (inr (skipped, first, rest, is, at, over, got)) ↦
          let (left, files, same) =
            Chain-skipped crc32c s.first cursor [] (s ∷ ss) skipped first rest (λ t ts e. tt) chain
              at is in
          (
            record { segments = first ∷ rest; cursor_floor = cursor; current = none },
            left,
            got,
            refl,
            ([], left, refl, refl, files),
            same,
          )
    ]
  where
    log : Wal
    log = record {
      cfg = record {
        enabled = true;
        fsync_policy = each;
        segment_size_max = 0;
        retention_bytes = 0;
      };
      disk = directory crc32c (s ∷ ss);
      segments = keys (directory crc32c (s ∷ ss));
      segment_sizes = [];
      active_bytes = 0;
      retained_bytes = 0;
      writer = none;
      durable_cursor = 0;
      pending_cursor = 0;
      poisoned = false;
      appends_total = 0;
      append_bytes_total = 0;
      flushes_total = 0;
    }

-- A late subscriber misses nothing: where the segments of the directory are whole, follow one
-- another without a gap, and begin at or before the cursor, `WalReader::read_from` gives an iterator
-- that yields all records of the log from the cursor on, each once and in order, whichever segments
-- they are in, and then the end.
pub reader_read_from-replays :
    (crc32c : List ℕ → ℕ)
    → ((bs : List ℕ) → crc32c bs < 2 ^ 32)
    → (cursor : ℕ) (s : Seg) (ss : List Seg) → Chain s.first (s ∷ ss)
    → s.first ≤ cursor
    → (rp : WalReplayer) × (reader_read_from (open_reader (directory crc32c (s ∷ ss))) cursor
        ≡ ok rp)
      × ((n : ℕ)
          → nexts crc32c (directory crc32c (s ∷ ss)) n rp
            ≡ items n (keep (is_wanted cursor) (all_records (s ∷ ss))))
reader_read_from-replays crc32c word cursor s ss chain le =
    let (rp, left, got, floor, ahead, same) = reader_read_from-Ahead crc32c cursor s ss chain le in
    (
      rp,
      got,
      λ n.
          nexts-Ahead crc32c word (directory crc32c (s ∷ ss)) n rp left ahead
          ∙ ap (λ f. items n (keep (is_wanted f) left)) floor
          ∙ ap (items n) same,
    )
