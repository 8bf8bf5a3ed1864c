-- ===== src/Subscriber/HandOver.antt =====
-- From the log to the ring: `next_wal_record` of crates/mmbus/src/subscriber.rs until the replay is
-- over.
use mmbus.Prelude.{
  ℕ, zero, suc, ◌+◌, ◌-◌, ◌≤◌, ◌<◌, ◌^◌, ◌≡◌, inl, inr, refl, sym, ap, ◌∙◌, subst, true, false,
  List, [], ◌∷◌, ◌++◌, length, Result, ok, Option, none, some, arith, keep, keep_in, keep_out, leb,
  dec_lt,
}
use mmbus.Ring.{set_cursor}
use mmbus.Ring.Reader.{Publishing}
use mmbus.Wal.{Record}
use mmbus.Wal.Segment.Durable.{Contiguous}
use mmbus.Wal.Open.{WalReplayer}
use mmbus.Wal.Replay.{Item, next}
use mmbus.Wal.Replay.Whole.{is_wanted, Ahead, Gives, next-Gives}
use mmbus.Wal.Replay.{open_reader, oldest_cursor, first_key}
use mmbus.Wal.Replay.Complete.{Seg, Chain, directory, all_records, reader_read_from-Ahead}
use mmbus.Errors.{Error}
use mmbus.Subscriber.{
  Subscriber, explicit, start_at, from_wal, after_read_from, after_next, replay_record,
  next_wal_record,
}

-- `n` calls of `next_wal_record`, and what they return.
unfoldable pub wal_records :
    (List ℕ → ℕ)
    → List (ℕ × List ℕ)
    → ℕ
    → Subscriber
    → Publishing
    → List (Result Error (Option (List ℕ))) × (Subscriber × Publishing)
wal_records crc32c disk zero s p = ([], (s, p))
wal_records crc32c disk (suc n) s p =
    let (r, (s', p')) = next_wal_record crc32c disk s p in
    let (rs, last) = wal_records crc32c disk n s' p' in (r ∷ rs, last)

abbrev pub payloads : List Record → List (Result Error (Option (List ℕ)))
payloads [] = ok none ∷ []
payloads (r ∷ rs) = ok (some r.payload) ∷ payloads rs

-- The cursor after the last record.
abbrev pub cursor_behind : ℕ → List Record → ℕ
cursor_behind cursor [] = cursor
cursor_behind cursor (r ∷ rs) = cursor_behind (r.cursor + 1) rs

-- The state at the end of the replay.
abbrev pub HandedOver : Subscriber → Publishing → ℕ → Subscriber × Publishing → Type 0
HandedOver s p cursor last =
    (last.0 ≡ record s { cursor = cursor; wal_replay = none })
    × (last.1 ≡ record p { ring = set_cursor p.ring s.cursor_idx cursor })

module _ (crc32c : List ℕ → ℕ) (disk : List (ℕ × List ℕ)) where
  -- The replay of `wanted` from the iterator `rp` on.
  Replays : List Record → WalReplayer → Subscriber → Publishing → Type 0
  Replays wanted rp s p =
      ((wal_records crc32c disk (suc (length wanted)) (record s { wal_replay = some rp }) p).0
        ≡ payloads wanted)
      × HandedOver s p (cursor_behind s.cursor wanted)
          (wal_records crc32c disk (suc (length wanted)) (record s { wal_replay = some rp }) p).1

  wal_records-suc :
      (n : ℕ) (s t : Subscriber) (p q : Publishing) (r : Result Error (Option (List ℕ)))
      → next_wal_record crc32c disk s p ≡ (r, (t, q))
      → wal_records crc32c disk (suc n) s p
        ≡ (r ∷ (wal_records crc32c disk n t q).0, (wal_records crc32c disk n t q).1)
  unfolding wal_records
  wal_records-suc n s t p q r e =
      ap
        (λ (x : Result Error (Option (List ℕ)) × (Subscriber × Publishing)). (
          x.0 ∷ (wal_records crc32c disk n x.1.0 x.1.1).0,
          (wal_records crc32c disk n x.1.0 x.1.1).1,
        ))
        e

  -- The iterator has answered.
  end-Replays :
      (floor : ℕ) (rs : List Record) (rp : WalReplayer) (s : Subscriber) (p : Publishing)
      → keep (is_wanted floor) rs ≡ []
      → (x : Item × WalReplayer) → next crc32c disk rp ≡ x
      → Gives crc32c disk floor rs (some x)
      → Replays [] rp s p
  unfolding Replays wal_records next_wal_record replay_record after_next
  end-Replays floor rs rp s p is (item, q) e (same, inl (end, none_left, a)) =
      rw (e, end) (refl, (refl, refl))
  end-Replays floor rs rp s p is (item, q) e (same, inr (r, left, found, split, a)) =
      absurd (nil-ne-cons (sym is ∙ split))
    where
      nil-ne-cons : {x : Record} {xs : List Record} → [] ≡ x ∷ xs → ⊥
      nil-ne-cons h = cc

  next-Replays :
      (floor : ℕ) (rs : List Record) (rp : WalReplayer) (s : Subscriber) (p : Publishing)
      (w : Record) (wanted : List Record)
      → keep (is_wanted floor) rs ≡ w ∷ wanted
      → ((q : WalReplayer) (left : List Record)
          → q.cursor_floor ≡ floor
          → Ahead crc32c disk q left
          → keep (is_wanted floor) left ≡ wanted
          → Replays wanted q (record s { cursor = w.cursor + 1 }) p)
      → (x : Item × WalReplayer) → next crc32c disk rp ≡ x
      → Gives crc32c disk floor rs (some x)
      → Replays (w ∷ wanted) rp s p
  unfolding Replays wal_records next_wal_record replay_record after_next
  next-Replays floor rs rp s p w wanted is ih (item, q) e (same, inl (end, none_left, a)) =
      absurd (cons-ne-nil (sym is ∙ none_left))
    where
      cons-ne-nil : {x : Record} {xs : List Record} → x ∷ xs ≡ [] → ⊥
      cons-ne-nil h = cc
  next-Replays floor rs rp s p w wanted is ih (item, q) e (same, inr (r, left, found, split, a)) =
      let both : w ∷ wanted ≡ r ∷ keep (is_wanted floor) left = sym is ∙ split in
      let first : r ≡ w = cc in
      let rest : keep (is_wanted floor) left ≡ wanted = cc in
      let (outs, over) = ih q left same a rest in
      let now : next_wal_record crc32c disk (record s { wal_replay = some rp }) p
          ≡ (ok (some w.payload), (record s { cursor = w.cursor + 1; wal_replay = some q }, p)) =
        rw (e, found, first) refl in
      subst
        (λ (x : List (Result Error (Option (List ℕ))) × (Subscriber × Publishing)).
          (x.0 ≡ payloads (w ∷ wanted)) × HandedOver s p (cursor_behind (w.cursor + 1) wanted) x.1)
        (sym (
          wal_records-suc (suc (length wanted)) (record s { wal_replay = some rp })
            (record s { cursor = w.cursor + 1; wal_replay = some q }) p p (ok (some w.payload))
            now))
        (ap (λ t. ok (some w.payload) ∷ t) outs, over)

wal_records-Replays :
    (crc32c : List ℕ → ℕ)
    → ((bs : List ℕ) → crc32c bs < 2 ^ 32)
    → (disk : List (ℕ × List ℕ)) (wanted : List Record) (rs : List Record) (rp : WalReplayer)
      (s : Subscriber) (p : Publishing)
    → Ahead crc32c disk rp rs
    → keep (is_wanted rp.cursor_floor) rs ≡ wanted
    → Replays crc32c disk wanted rp s p
wal_records-Replays crc32c word disk [] rs rp s p a is =
    end-Replays crc32c disk rp.cursor_floor rs rp s p is (next crc32c disk rp) refl
      (next-Gives crc32c word disk rp rs a)
wal_records-Replays crc32c word disk (w ∷ wanted) rs rp s p a is =
    next-Replays crc32c disk rp.cursor_floor rs rp s p w wanted is
      (λ q left same b kept.
        wal_records-Replays crc32c word disk wanted left q (record s { cursor = w.cursor + 1 }) p b
          (subst (λ f. keep (is_wanted f) left ≡ wanted) (sym same) kept))
      (next crc32c disk rp) refl (next-Gives crc32c word disk rp rs a)

-- The end of the log's records.
Contiguous-append :
    (first : ℕ) (rs ss : List Record)
    → Contiguous first rs
    → Contiguous (first + length rs) ss
    → Contiguous first (rs ++ ss)
Contiguous-append first [] ss a b = let e : first + 0 ≡ first = omega arith in rw e at b
Contiguous-append first (r ∷ rs) ss (h, a) b =
    let e : first + suc (length rs) ≡ first + 1 + length rs = omega arith in
    (h, Contiguous-append (first + 1) rs ss a (rw e at b))

Chain-Contiguous : (c : ℕ) (ss : List Seg) → Chain c ss → Contiguous c (all_records ss)
Chain-Contiguous c [] chain = tt
Chain-Contiguous c (s ∷ ss) (at, f, cr, all, up, more, rest) =
    Contiguous-append c s.records (all_records ss) (rw at at up)
      (Chain-Contiguous (c + length s.records) ss rest)

-- From a position before the records, or among them, the last one wanted is the last one.
cursor_behind-all :
    (first cursor : ℕ) (rs : List Record)
    → Contiguous first rs
    → cursor ≤ first
    → cursor_behind first (keep (is_wanted cursor) rs) ≡ first + length rs
cursor_behind-all first cursor [] c le = omega arith
cursor_behind-all first cursor (r ∷ rs) (at, c) le =
    let wanted : is_wanted cursor r ≡ true = ground (arith, at, le) in
    rw (keep_in (is_wanted cursor) r rs wanted, at)
      (cursor_behind-all (first + 1) cursor rs c (omega (arith, le)) ∙ omega arith)

cursor_behind-rest :
    (first cursor : ℕ) (rs : List Record)
    → Contiguous first rs
    → first ≤ cursor
    → cursor ≤ first + length rs
    → cursor_behind cursor (keep (is_wanted cursor) rs) ≡ first + length rs
cursor_behind-rest first cursor [] c le most = omega (arith, le, most)
cursor_behind-rest first cursor (r ∷ rs) (at, c) le most = elim (dec_lt first cursor) [
  | yes lt ↦
      let before : is_wanted cursor r ≡ false = ground (arith, at, lt) in
      rw (keep_out (is_wanted cursor) r rs before) (
        cursor_behind-rest (first + 1) cursor rs c (omega (arith, lt)) (omega (arith, most))
        ∙ omega arith)
  | no ge ↦
      let same : first ≡ cursor = omega (arith, le, ge) in
      subst (λ k. cursor_behind k (keep (is_wanted cursor) (r ∷ rs)) ≡ first + length (r ∷ rs)) same
        (cursor_behind-all first cursor (r ∷ rs) (at, c) (omega (arith, same)))
]

-- A late subscriber, and how it comes to the ring. It asks for a position that the ring has no more
-- and the log still has; the log's segments are whole and follow one another without a gap. Then
-- `connect_with` begins a replay there; the calls of `next_wal_record` return the payloads of all
-- records of the log from this position on, in order, and then `none`; and after them the replay is
-- over and the subscriber's cursor, with the one that it has claimed in the ring, is the position
-- after the log's last record.
pub wal_records-all :
    (crc32c : List ℕ → ℕ)
    → ((bs : List ℕ) → crc32c bs < 2 ^ 32)
    → (tail capacity cursor : ℕ) (s : Seg) (ss : List Seg) (sub : Subscriber) (p : Publishing)
    → Chain s.first (s ∷ ss)
    → s.first ≤ cursor
    → cursor + capacity < tail
    → cursor ≤ s.first + length (all_records (s ∷ ss))
    → let wanted = keep (is_wanted cursor) (all_records (s ∷ ss)) in
      let disk = directory crc32c (s ∷ ss) in
      (rp : WalReplayer) × (start_at tail capacity disk (explicit cursor) ≡ ok (cursor, some rp))
      × (let begun = record sub { cursor = cursor; wal_replay = some rp } in
          let r = wal_records crc32c disk (suc (length wanted)) begun p in
          (r.0 ≡ payloads wanted) × HandedOver sub p (s.first + length (all_records (s ∷ ss))) r.1)
unfolding start_at from_wal oldest_cursor first_key open_reader Replays after_read_from
wal_records-all crc32c word tail capacity cursor s ss sub p chain from behind within =
    let (rp, left, got, floor, ahead, same) =
      reader_read_from-Ahead crc32c cursor s ss chain from in
    let old : leb (tail - capacity) cursor ≡ false = ground (arith, behind) in
    let disk = directory crc32c (s ∷ ss) in
    let end =
      cursor_behind-rest s.first cursor (all_records (s ∷ ss))
        (Chain-Contiguous s.first (s ∷ ss) chain) from within in
    let (outs, over) =
      wal_records-Replays crc32c word disk (keep (is_wanted cursor) (all_records (s ∷ ss))) left rp
        (record sub { cursor = cursor }) p ahead (ap (λ f. keep (is_wanted f) left) floor ∙ same) in
    (
      rp,
      rw (old) (ap (after_read_from cursor) got),
      (
        outs,
        subst
            (λ c.
              HandedOver sub p c
                (wal_records crc32c disk
                  (suc (length (keep (is_wanted cursor) (all_records (s ∷ ss)))))
                  (record sub { cursor = cursor; wal_replay = some rp }) p).1)
            end over,
      ),
    )
