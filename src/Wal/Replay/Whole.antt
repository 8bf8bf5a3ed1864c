-- ===== src/Wal/Replay/Whole.antt =====
-- `WalReplayer` of crates/mmbus/src/wal/wal.rs over segments of whole records: it gives the records
-- from the cursor on.
use mmbus.Prelude.{
  ℕ, zero, suc, ◌+◌, ◌<◌, ◌^◌, ◌≡◌, ◌⊎◌, inl, inr, refl, sym, ap, ◌∙◌, subst, Bool, false, List, [],
  ◌∷◌, ◌++◌, length, ltb, leb, ok, Option, none, some, arith, Bool-cases, keep, keep_in, keep_out,
  append_assoc, length-append,
}
use mmbus.Wal.{Record, encoded_len, encode_record, encode_segment_header}
use mmbus.Wal.RoundTrip.{
  length-encode_record, length-encode_segment_header, parse-encode_segment_header,
}
use mmbus.Wal.Segment.{SegmentReader, open_segment, after_header, next_record, after_read}
use mmbus.Wal.Segment.Recovery.{
  encode_all, AllWritable, read_one_record-encode_record, read_one_record-at,
}
use mmbus.Wal.Tables.{lookup}
use mmbus.Wal.Open.{WalReplayer}
use mmbus.Wal.Replay.{
  Item, skip_or_yield, after_record, after_open, open_file, open_next, round, next_loop, next,
  nexts, rounds,
}
use mmbus.Wal.Replay.Returns.{next-returns}

abbrev pub is_wanted : ℕ → Record → Bool
is_wanted cursor r = leb cursor r.cursor

-- The files under `ks` are whole segments, and `rs` are their records, in order.
abbrev pub Files : (List ℕ → ℕ) → List (ℕ × List ℕ) → List ℕ → List Record → Type 0
Files crc32c disk [] rs = rs ≡ []
Files crc32c disk (k ∷ ks) rs =
    (first : ℕ) × (created : ℕ) × (own : List Record) × (others : List Record) × (lookup k disk
      ≡ some (encode_segment_header first created ++ encode_all crc32c own))
    × (first < 2 ^ 64)
    × (created < 2 ^ 64)
    × AllWritable own
    × (rs ≡ own ++ others)
    × Files crc32c disk ks others

-- The records that an open segment has still to give.
abbrev pub Holds : (List ℕ → ℕ) → Option SegmentReader → List Record → Type 0
Holds crc32c none rs = rs ≡ []
Holds crc32c (some reader) rs =
    (front : List ℕ) × (reader.file ≡ front ++ encode_all crc32c rs)
    × (length front ≡ reader.pos)
    × (reader.halted ≡ false)
    × AllWritable rs

-- The records that the iterator has still to see.
abbrev pub Ahead : (List ℕ → ℕ) → List (ℕ × List ℕ) → WalReplayer → List Record → Type 0
Ahead crc32c disk rp rs =
    (own : List Record) × (others : List Record) × (rs ≡ own ++ others)
    × Holds crc32c rp.current own
    × Files crc32c disk rp.segments others

-- A result that is right where `rs` are ahead: the first of them that is wanted, or the end.
abbrev pub Gives :
    (List ℕ → ℕ) → List (ℕ × List ℕ) → ℕ → List Record → Option (Item × WalReplayer) → Type 0
Gives crc32c disk floor rs none = Unit
Gives crc32c disk floor rs (some (item, q)) =
    (q.cursor_floor ≡ floor)
    × (((item ≡ none) × (keep (is_wanted floor) rs ≡ []) × Ahead crc32c disk q [])
        ⊎ ((r : Record) × (left : List Record) × (item ≡ some (ok r))
            × (keep (is_wanted floor) rs ≡ r ∷ keep (is_wanted floor) left)
            × Ahead crc32c disk q left))

module _ (crc32c : List ℕ → ℕ) (word : (bs : List ℕ) → crc32c bs < 2 ^ 32)
    (disk : List (ℕ × List ℕ)) (again : WalReplayer → Option (Item × WalReplayer)) (floor : ℕ)
    (ih : (q : WalReplayer) (rs : List Record)
      → q.cursor_floor ≡ floor
      → Ahead crc32c disk q rs
      → Gives crc32c disk floor rs (again q)) where
  skip-Gives :
      (r : Record) (rs : List Record) (q : WalReplayer)
      → q.cursor_floor ≡ floor
      → Ahead crc32c disk q rs
      → Gives crc32c disk floor (r ∷ rs) (skip_or_yield (ltb r.cursor floor) r q again)
  unfolding skip_or_yield
  skip-Gives r rs q same a = elim (Bool-cases (ltb r.cursor floor)) [
    | inl before ↦
        let out : keep (is_wanted floor) (r ∷ rs) ≡ keep (is_wanted floor) rs =
          keep_out (is_wanted floor) r rs (ground (arith, before)) in
        rw before (without (again q) out (ih q rs same a))
    | inr wanted ↦
        rw wanted
          (same, inr (r, rs, refl, keep_in (is_wanted floor) r rs (ground (arith, wanted)), a))
  ]
    where
      without :
          (o : Option (Item × WalReplayer))
          → keep (is_wanted floor) (r ∷ rs) ≡ keep (is_wanted floor) rs
          → Gives crc32c disk floor rs o
          → Gives crc32c disk floor (r ∷ rs) o
      without none e g = tt
      without (some (item, p)) e (s, inl (is, none_left, end)) = (s, inl (is, e ∙ none_left, end))
      without (some (item, p)) e (s, inr (x, left, is, split, more)) =
          (s, inr (x, left, is, e ∙ split, more))

  record-Gives :
      (rp : WalReplayer) (reader : SegmentReader) (own others : List Record)
      → rp.cursor_floor ≡ floor
      → Holds crc32c (some reader) own
      → Files crc32c disk rp.segments others
      → Gives crc32c disk floor (own ++ others) (after_record rp (next_record crc32c reader) again)
  unfolding after_record next_record after_read
  record-Gives rp reader [] others same (front, file, at, going, all) rest =
      rw (going, file, ← at, read_one_record-at crc32c (length front) front [] refl)
        (ih (record rp { current = none }) others same ([], others, refl, refl, rest))
  record-Gives rp reader (r ∷ own) others same (front, file, at, going, (v, all)) rest =
      rw
        (
          going,
          file,
          ← at,
          read_one_record-encode_record crc32c word (length front) front r (encode_all crc32c own)
              refl v,
        )
        (subst
          (λ f.
            Gives crc32c disk floor (r ∷ (own ++ others))
              (skip_or_yield (ltb r.cursor f) r q again))
          (sym same) (skip-Gives r (own ++ others) q same (own, others, refl, opened, rest)))
    where
      q : WalReplayer
      q = record rp {
        current = some (record {
          file = front ++ (encode_record crc32c r ++ encode_all crc32c own);
          header = reader.header;
          pos = length front + encoded_len r;
          halted = false;
        });
      }

      opened : Holds crc32c q.current own
      opened = (
        front ++ encode_record crc32c r,
        sym (append_assoc front (encode_record crc32c r) (encode_all crc32c own)),
        omega (arith, length-append front (encode_record crc32c r), length-encode_record crc32c r),
        refl,
        all,
      )

  open-Gives :
      (rp : WalReplayer) (ks : List ℕ) (rs : List Record)
      → rp.cursor_floor ≡ floor
      → rp.current ≡ none
      → rp.segments ≡ ks
      → Files crc32c disk ks rs
      → Gives crc32c disk floor rs (open_next crc32c disk rp ks again)
  unfolding open_next open_file after_open open_segment after_header
  open-Gives rp [] rs same closed is e = (
    same,
    inl (
      refl,
      ap (keep (is_wanted floor)) e,
      (
        [],
        [],
        refl,
        subst (λ o. Holds crc32c o []) (sym closed) refl,
        subst (λ ks. Files crc32c disk ks []) (sym is) refl,
      ),
    ),
  )
  open-Gives rp (k ∷ ks) rs same closed is
        (first, created, own, others, there, f, c, all, split, rest) =
      rw (there, parse-encode_segment_header first created (encode_all crc32c own) f c, split)
        (record-Gives (record rp { segments = ks }) _ own others same
          (
            encode_segment_header first created,
            refl,
            length-encode_segment_header first created,
            refl,
            all,
          )
          rest)

  round-Gives :
      (rp : WalReplayer) (rs : List Record) (o : Option SegmentReader)
      → rp.cursor_floor ≡ floor
      → rp.current ≡ o
      → (own : List Record) × (others : List Record) × (rs ≡ own ++ others)
        × Holds crc32c o own
        × Files crc32c disk rp.segments others
      → Gives crc32c disk floor rs (round crc32c disk rp o again)
  unfolding round
  round-Gives rp rs none same is (own, others, split, e, rest) =
      open-Gives rp rp.segments rs same is refl
        (subst (λ t. Files crc32c disk rp.segments t) (sym (split ∙ ap (λ t. t ++ others) e)) rest)
  round-Gives rp rs (some reader) same is (own, others, split, holds, rest) =
      subst (λ t. Gives crc32c disk floor t (after_record rp (next_record crc32c reader) again))
        (sym split) (record-Gives rp reader own others same holds rest)

next_loop-Gives :
    (crc32c : List ℕ → ℕ)
    → ((bs : List ℕ) → crc32c bs < 2 ^ 32)
    → (disk : List (ℕ × List ℕ)) (fuel : ℕ) (rp : WalReplayer) (rs : List Record)
    → Ahead crc32c disk rp rs
    → Gives crc32c disk rp.cursor_floor rs (next_loop crc32c fuel disk rp)
unfolding next_loop
next_loop-Gives crc32c word disk zero rp rs a = tt
next_loop-Gives crc32c word disk (suc fuel) rp rs a =
    round-Gives crc32c word disk (λ q. next_loop crc32c fuel disk q) rp.cursor_floor
      (λ q ss same b.
        subst (λ f. Gives crc32c disk f ss (next_loop crc32c fuel disk q)) same
          (next_loop-Gives crc32c word disk fuel q ss b))
      rp rs rp.current refl refl a

pub next-Gives :
    (crc32c : List ℕ → ℕ)
    → ((bs : List ℕ) → crc32c bs < 2 ^ 32)
    → (disk : List (ℕ × List ℕ)) (rp : WalReplayer) (rs : List Record) → Ahead crc32c disk rp rs
    → Gives crc32c disk rp.cursor_floor rs (some (next crc32c disk rp))
next-Gives crc32c word disk rp rs a =
    subst (Gives crc32c disk rp.cursor_floor rs) (next-returns crc32c disk rp)
      (next_loop-Gives crc32c word disk (suc (rounds disk rp)) rp rs a)

-- What `n` calls give where `rs` is wanted: the first of them, and then the end again and again.
abbrev pub items : ℕ → List Record → List Item
items zero rs = []
items (suc n) [] = none ∷ items n []
items (suc n) (r ∷ rs) = some (ok r) ∷ items n rs

items-Gives :
    (crc32c : List ℕ → ℕ) (disk : List (ℕ × List ℕ)) (n floor : ℕ) (rs : List Record)
    → ((q : WalReplayer) (ss : List Record)
        → q.cursor_floor ≡ floor
        → Ahead crc32c disk q ss
        → nexts crc32c disk n q ≡ items n (keep (is_wanted floor) ss))
    → (r : Item × WalReplayer) → Gives crc32c disk floor rs (some r)
    → (r.0 ∷ nexts crc32c disk n r.1) ≡ items (suc n) (keep (is_wanted floor) rs)
items-Gives crc32c disk n floor rs ih (item, q) (same, inl (is, end, a)) =
    rw (is, end) (ap (λ t. none ∷ t) (ih q [] same a))
items-Gives crc32c disk n floor rs ih (item, q) (same, inr (r, left, is, split, a)) =
    rw (is, split) (ap (λ t. some (ok r) ∷ t) (ih q left same a))

pub nexts-Ahead :
    (crc32c : List ℕ → ℕ)
    → ((bs : List ℕ) → crc32c bs < 2 ^ 32)
    → (disk : List (ℕ × List ℕ)) (n : ℕ) (rp : WalReplayer) (rs : List Record)
    → Ahead crc32c disk rp rs
    → nexts crc32c disk n rp ≡ items n (keep (is_wanted rp.cursor_floor) rs)
unfolding nexts
nexts-Ahead crc32c word disk zero rp rs a = refl
nexts-Ahead crc32c word disk (suc n) rp rs a =
    items-Gives crc32c disk n rp.cursor_floor rs
      (λ q ss same b.
        nexts-Ahead crc32c word disk n q ss b ∙ ap (λ f. items n (keep (is_wanted f) ss)) same)
      (next crc32c disk rp) (next-Gives crc32c word disk rp rs a)
