-- ===== src/Publisher/Starting.antt =====
-- `Publisher::create` of crates/mmbus/src/publisher.rs: the state that a publisher begins in.
use mmbus.Prelude.{
  ℕ, suc, length, ◌≡◌, ◌⊎◌, inl, inr, refl, sym, ap, ◌∙◌, true, List, [], ltb, ◌==◌, Result, ok,
  err, Option, none, some, arith, if_cases,
}
use mmbus.Ring.{Ring, File, image, magic, open_ring, create_or_reuse, set_tail}
use mmbus.Ring.Restart.{reuse_or_create-IsShaped}
use mmbus.Wal.Segment.{SegmentReader, open_segment}
use mmbus.Wal.{ReaderError}
use mmbus.Wal.Tables.{lookup}
use mmbus.Wal.Aggregator.{Wal, WalConfig, WalError}
use mmbus.Wal.Open.{
  recover_all, last_cursor, cursor_after, opened, begun, resume_at, resume, last_file,
  open_recovered, after_recovery, open_wal,
}
use mmbus.Errors.{Error, BusConfig}
use mmbus.Publisher.{Publisher, started, bind_socket, align_tail, after_open, after_lock, create}
use mmbus.Publisher.InStep.{LogInStep, InStep}

-- A log that was opened keeps the settings.
abbrev OfConfig : WalConfig → Result WalError Wal → Type 0
OfConfig cfg (ok w) = w.cfg ≡ cfg
OfConfig cfg (err e) = Unit {0}

begun-OfConfig :
    (cfg : WalConfig) (disk : List (ℕ × List ℕ)) (next created : ℕ) (o : Option (List ℕ))
    → OfConfig cfg (begun cfg disk next created o)
unfolding begun opened
begun-OfConfig cfg disk next created (some file) = tt
begun-OfConfig cfg disk next created none = refl

resume-OfConfig :
    (crc32c : List ℕ → ℕ) (cfg : WalConfig) (disk : List (ℕ × List ℕ)) (last_first created : ℕ)
    (r : Result ReaderError SegmentReader)
    → OfConfig cfg (resume crc32c cfg disk last_first created r)
unfolding resume resume_at opened
resume-OfConfig crc32c cfg disk last_first created (err e) = tt
resume-OfConfig crc32c cfg disk last_first created (ok reader) =
    let next =
      cursor_after last_first (last_cursor crc32c (suc (length reader.file)) reader none) in
    if_cases (OfConfig cfg) (next == last_first) (λ same. refl)
      (λ more. begun-OfConfig cfg disk next created (lookup next disk))

open_recovered-OfConfig :
    (crc32c : List ℕ → ℕ) (cfg : WalConfig) (created : ℕ) (disk : List (ℕ × List ℕ))
    (o : Option (ℕ × List ℕ))
    → OfConfig cfg (open_recovered crc32c cfg created disk o)
unfolding open_recovered opened
open_recovered-OfConfig crc32c cfg created disk none = refl
open_recovered-OfConfig crc32c cfg created disk (some (k, file)) =
    resume-OfConfig crc32c cfg disk k created (open_segment file)

after_recovery-OfConfig :
    (crc32c : List ℕ → ℕ) (cfg : WalConfig) (created : ℕ)
    (r : Result ReaderError (List (ℕ × List ℕ)))
    → OfConfig cfg (after_recovery crc32c cfg created r)
unfolding after_recovery
after_recovery-OfConfig crc32c cfg created (err e) = tt
after_recovery-OfConfig crc32c cfg created (ok disk) =
    open_recovered-OfConfig crc32c cfg created disk (last_file disk)

-- What `create` leaves, by its result.
abbrev pub Created :
    BusConfig → File → Result Error (Unit {0}) → File × Result Error Publisher → Type 0
Created cfg file locked (left, ok p) =
    (left ≡ image magic p.ring)
    × InStep p
    × (p.ring.capacity ≡ cfg.capacity)
    × (p.ring.slot_payload_size ≡ cfg.slot_size)
    × (p.ring.max_subscribers ≡ cfg.max_subscribers)
    × (p.clients ≡ [])
    × (p.backpressure ≡ cfg.backpressure)
    × (p.published_total ≡ 0)
Created cfg file locked (left, err e) = (left ≡ file) ⊎ (locked ≡ ok tt)

-- The ring has the sizes asked for.
abbrev HasSizes : BusConfig → Ring → Type 0
HasSizes cfg r =
    (r.capacity ≡ cfg.capacity)
    × (r.slot_payload_size ≡ cfg.slot_size)
    × (r.max_subscribers ≡ cfg.max_subscribers)

bind_socket-Created :
    (cfg : BusConfig) (file : File) (r : Ring) (wal : Option Wal) (bound : Result Error (Unit {0}))
    → HasSizes cfg r
    → LogInStep wal r.tail
    → Created cfg file (ok tt) (image magic r, bind_socket bound (started cfg r wal))
unfolding bind_socket started
bind_socket-Created cfg file r wal (err e) sizes in_step = inr refl
bind_socket-Created cfg file r wal (ok u) (capacity, slots, subscribers) in_step =
    (refl, in_step, capacity, slots, subscribers, refl, refl, refl)

align_tail-HasSizes :
    (cfg : BusConfig) (r : Ring) (next : ℕ)
    → HasSizes cfg r
    → r.tail ≡ 0
    → HasSizes cfg (align_tail r next) × ((align_tail r next).tail ≡ next)
unfolding align_tail set_tail
align_tail-HasSizes cfg r next sizes empty =
    if_cases (λ (q : Ring). HasSizes cfg q × (q.tail ≡ next)) (ltb r.tail next)
      (λ behind. (sizes, refl)) (λ there. (sizes, ground (arith, empty, there)))

after_open-Created :
    (cfg : BusConfig) (file : File) (r : Ring) (o : Result WalError Wal)
    (bound : Result Error (Unit {0}))
    → HasSizes cfg r
    → r.tail ≡ 0
    → cfg.wal.enabled ≡ true
    → OfConfig cfg.wal o
    → Created cfg file (ok tt) (after_open cfg r o bound)
unfolding after_open
after_open-Created cfg file r (err e) bound sizes empty on same = inr refl
after_open-Created cfg file r (ok w) bound sizes empty on same =
    let (sizes', there) = align_tail-HasSizes cfg r w.pending_cursor sizes empty in
    bind_socket-Created cfg file (align_tail r w.pending_cursor) (some w) bound sizes'
      (ap (λ (c : WalConfig). c.enabled) same ∙ on, sym there)

-- `create`, whatever file and whatever log are found. Where the lock is refused, the ring's file is
-- untouched. A publisher that is created has a ring of the sizes of the settings, which is in the
-- file, no clients, the policy of the settings and nothing published; and if it has a log, this is
-- on, and its next cursor is the ring's tail, as `publish` needs it.
pub create-Created :
    (crc32c : List ℕ → ℕ) (cfg : BusConfig) (file : File) (disk : List (ℕ × List ℕ)) (now : ℕ)
    (locked bound : Result Error (Unit {0}))
    → Created cfg file locked (create crc32c cfg file disk now locked bound)
unfolding create after_lock create_or_reuse open_wal
create-Created crc32c cfg file disk now (err e) bound = inl refl
create-Created crc32c cfg file disk now (ok u) bound =
    let r = create_or_reuse file cfg.capacity cfg.slot_size cfg.max_subscribers in
    let shape =
      reuse_or_create-IsShaped (open_ring file) cfg.capacity cfg.slot_size cfg.max_subscribers in
    let sizes : HasSizes cfg r = (shape.capacity_is, shape.size_is, shape.subscribers_is) in
    if_cases (Created cfg file (ok tt)) cfg.wal.enabled
      (λ on.
        after_open-Created cfg file r (open_wal crc32c disk cfg.wal now) bound sizes shape.tail_is
          on (after_recovery-OfConfig crc32c cfg.wal now (recover_all crc32c disk)))
      (λ off. bind_socket-Created cfg file r none bound sizes tt)
