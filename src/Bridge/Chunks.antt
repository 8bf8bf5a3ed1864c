-- ===== src/Bridge/Chunks.antt =====
-- The stream of a connection that arrives in pieces.
use mmbus.Prelude.{
  ℕ, zero, suc, ◌≤◌, ◌<◌, ◌≡◌, refl, sym, ap, ◌∙◌, subst, Bool, true, false, List, [], ◌∷◌, ◌++◌,
  length, drop, drop-append_left, length-append, length-drop, append-nil, append_assoc, Bool-cases,
  Result-cases, ok, err, inl, inr, arith, if◌then◌else◌, ◌&&◌, not, ◌⊎◌,
}
use mmbus.Frame.{Frame, DecodeError, incomplete, decode}
use mmbus.Frame.Stream.{is_incomplete, decode-append}
use mmbus.Frame.Sound.{decode-le-length, decode-positive}
use mmbus.Bridge.{
  handle_frame, accepted, Settings, Reader, admits, waits, on_frame, after_decode, decode_loop,
  decode_all, refill, Read, chunk, quiet, ended, after_chunk, reader_main,
}

-- Two rests of the loop that agree on shorter buffers.
on_frame-same :
    (conf : Settings) (auth : Bool) (rd : Reader) (f : Frame) (n : ℕ)
    (again again' : Reader → Reader × Bool)
    → 0 < n
    → n ≤ length rd.buf
    → ((q : Reader) → length q.buf < length rd.buf → again q ≡ again' q)
    → on_frame conf auth rd f n again ≡ on_frame conf auth rd f n again'
unfolding on_frame
on_frame-same conf true rd f n again again' pos le same =
    same _ (omega (arith, length-drop n rd.buf))
on_frame-same conf false rd f n again again' pos le same =
    ap (λ (x : Reader × Bool). if admits conf f.frame_type f then x else (rd, false))
      (same (record rd { buf = drop n rd.buf; authenticated = true })
        (omega (arith, length-drop n rd.buf)))

after_decode-same :
    (conf : Settings) (rd : Reader) (again again' : Reader → Reader × Bool)
    → ((q : Reader) → length q.buf < length rd.buf → again q ≡ again' q)
    → after_decode conf rd (decode rd.buf) again ≡ after_decode conf rd (decode rd.buf) again'
unfolding after_decode
after_decode-same conf rd again again' same = elim (Result-cases (decode rd.buf)) [
  | inl ((f, n), e) ↦ rw e (
      on_frame-same conf rd.authenticated rd f n again again' (decode-positive rd.buf f n e)
        (decode-le-length rd.buf f n e) same)
  | inr (x, e) ↦ rw e refl
]

-- Enough fuel gives the result.
pub decode_loop-enough :
    (conf : Settings) (fuel fuel' : ℕ) (rd : Reader)
    → length rd.buf < fuel
    → length rd.buf < fuel'
    → decode_loop conf fuel rd ≡ decode_loop conf fuel' rd
unfolding decode_loop
decode_loop-enough conf zero fuel' rd lt lt' = absurd (omega arith)
decode_loop-enough conf (suc fuel) zero rd lt lt' = absurd (omega arith)
decode_loop-enough conf (suc fuel) (suc fuel') rd lt lt' =
    after_decode-same conf rd (λ q. decode_loop conf fuel q) (λ q. decode_loop conf fuel' q)
      (λ q shorter. decode_loop-enough conf fuel fuel' q (omega arith) (omega arith))

-- What comes of `more` bytes after the first ones were taken up: a thread that goes on takes them
-- up, one that has returned leaves them.
abbrev Continues : Settings → List ℕ → Reader × Bool → Reader × Bool → Type 0
Continues conf more (rd, true) whole = whole ≡ decode_all conf (refill rd more)
Continues conf more (rd, false) whole = whole ≡ (refill rd more, false)

refused-Continues :
    (conf : Settings) (rd : Reader) (more : List ℕ) (x : DecodeError) (goes : Bool)
    → waits x ≡ goes
    → decode rd.buf ≡ err x
    → Continues conf more (rd, goes) (decode_all conf (refill rd more))
unfolding waits decode_all decode_loop after_decode refill
refused-Continues conf rd more x true on e = refl
refused-Continues conf rd more (incomplete h m) false off e = absurd cc
refused-Continues conf rd more x false off e =
    let final : decode (rd.buf ++ more) ≡ err x =
      decode-append rd.buf more (ap is_incomplete e ∙ refl) ∙ e in
    rw (final, off) refl

pub decode_all-ok :
    (conf : Settings) (rd : Reader) (f : Frame) (n : ℕ)
    → decode rd.buf ≡ ok (f, n)
    → decode_all conf rd
      ≡ on_frame conf rd.authenticated rd f n (λ q. decode_loop conf (length rd.buf) q)
unfolding decode_all decode_loop after_decode
decode_all-ok conf rd f n e = rw e refl

later-Continues :
    (conf : Settings) (r : Reader) (buf more : List ℕ) (n fuel : ℕ)
    → 0 < n
    → n ≤ length buf
    → length buf < suc fuel
    → ((q : Reader)
        → length q.buf < fuel
        → Continues conf more (decode_loop conf fuel q) (decode_all conf (refill q more)))
    → Continues conf more
        (decode_loop conf fuel (record r { buf = drop n buf }))
        (decode_loop conf (length (buf ++ more)) (record r { buf = drop n (buf ++ more) }))
unfolding decode_all refill
later-Continues conf r buf more n fuel pos le lt ih =
    let rest : drop n buf ++ more ≡ drop n (buf ++ more) = sym (drop-append_left n buf more le) in
    let long = length-append buf more in
    let short : length (drop n buf ++ more) < length (buf ++ more) =
      omega (arith, length-append (drop n buf) more, length-drop n buf, long) in
    subst (Continues conf more (decode_loop conf fuel (record r { buf = drop n buf })))
      (decode_loop-enough conf (suc (length (drop n buf ++ more))) (length (buf ++ more))
          (record r { buf = drop n buf ++ more }) (omega arith) short
        ∙ ap (λ b. decode_loop conf (length (buf ++ more)) (record r { buf = b })) rest)
      (ih (record r { buf = drop n buf }) (omega (arith, length-drop n buf)))

taken-Continues :
    (conf : Settings) (auth : Bool) (rd : Reader) (more : List ℕ) (f : Frame) (n fuel : ℕ)
    → 0 < n
    → n ≤ length rd.buf
    → length rd.buf < suc fuel
    → ((q : Reader)
        → length q.buf < fuel
        → Continues conf more (decode_loop conf fuel q) (decode_all conf (refill q more)))
    → Continues conf more (on_frame conf auth rd f n (λ q. decode_loop conf fuel q)) (
        on_frame conf auth (refill rd more) f n (λ q. decode_loop conf (length (rd.buf ++ more)) q))
unfolding on_frame refill
taken-Continues conf true rd more f n fuel pos le lt ih =
    later-Continues conf (record rd { published = rd.published ++ handle_frame conf f }) rd.buf more
      n fuel pos le lt ih
taken-Continues conf false rd more f n fuel pos le lt ih =
    elim (Bool-cases (admits conf f.frame_type f)) [
      | inl admitted ↦ rw admitted (
          later-Continues conf (record rd { authenticated = true }) rd.buf more n fuel pos le lt ih)
      | inr refused ↦ rw refused refl
    ]

decode_loop-Continues :
    (conf : Settings) (more : List ℕ) (fuel : ℕ) (rd : Reader)
    → length rd.buf < fuel
    → Continues conf more (decode_loop conf fuel rd) (decode_all conf (refill rd more))
unfolding decode_loop after_decode refill
decode_loop-Continues conf more zero rd lt = absurd (omega arith)
decode_loop-Continues conf more (suc fuel) rd lt = elim (Result-cases (decode rd.buf)) [
  | inr (x, e) ↦ rw e (refused-Continues conf rd more x (waits x) refl e)
  | inl ((f, n), e) ↦
      let whole : decode (rd.buf ++ more) ≡ ok (f, n) =
        decode-append rd.buf more (ap is_incomplete e ∙ refl) ∙ e in
      let step : decode_all conf (refill rd more)
          ≡ on_frame conf rd.authenticated (refill rd more) f n
              (λ q. decode_loop conf (length (rd.buf ++ more)) q) =
        decode_all-ok conf (refill rd more) f n whole in
      rw (e, step)
        (taken-Continues conf rd.authenticated rd more f n fuel (decode-positive rd.buf f n e)
          (decode-le-length rd.buf f n e) lt
          (λ q shorter. decode_loop-Continues conf more fuel q shorter))
]

decode_all-Continues :
    (conf : Settings) (more : List ℕ) (rd : Reader)
    → Continues conf more (decode_all conf rd) (decode_all conf (refill rd more))
unfolding decode_all
decode_all-Continues conf more rd =
    decode_loop-Continues conf more (suc (length rd.buf)) rd (omega arith)

-- What a connection yields before it ends, and whether it ends.
unfoldable pub all_bytes : List Read → List ℕ
all_bytes [] = []
all_bytes (chunk bytes ∷ reads) = bytes ++ all_bytes reads
all_bytes (quiet ∷ reads) = all_bytes reads
all_bytes (ended ∷ reads) = []

unfoldable pub is_ended : List Read → Bool
is_ended [] = false
is_ended (chunk bytes ∷ reads) = is_ended reads
is_ended (quiet ∷ reads) = is_ended reads
is_ended (ended ∷ reads) = true

-- The same messages were published, the same peer let in, and the thread goes on in both cases, if
-- the connection does.
abbrev pub SameWork : Bool → Reader × Bool → Reader × Bool → Type 0
SameWork over (rd, goes) (rd', goes') =
    (rd.published ≡ rd'.published)
    × (rd.authenticated ≡ rd'.authenticated)
    × (goes ≡ (goes' && not over))

-- There is no whole frame left in the buffer.
abbrev Drained : Settings → Reader × Bool → Type 0
Drained conf (rd, true) = decode_all conf rd ≡ (rd, true)
Drained conf (rd, false) = Unit {0}

refill-nil : (rd : Reader) → refill rd [] ≡ rd
unfolding refill
refill-nil rd = ap (λ b. record rd { buf = b }) (append-nil rd.buf)

refill-refill :
    (rd : Reader) (bytes more : List ℕ) → refill (refill rd bytes) more ≡ refill rd (bytes ++ more)
unfolding refill
refill-refill rd bytes more = ap (λ b. record rd { buf = b }) (append_assoc rd.buf bytes more)

Continues-Drained : (conf : Settings) (x : Reader × Bool) → Continues conf [] x x → Drained conf x
Continues-Drained conf (rd, true) c = ap (λ q. decode_all conf q) (sym (refill-nil rd)) ∙ sym c
Continues-Drained conf (rd, false) c = tt

decode_all-Drained : (conf : Settings) (rd : Reader) → Drained conf (decode_all conf rd)
decode_all-Drained conf rd = Continues-Drained conf (decode_all conf rd) (
    subst (λ q. Continues conf [] (decode_all conf rd) (decode_all conf q)) (refill-nil rd)
      (decode_all-Continues conf [] rd))

after_chunk-SameWork :
    (conf : Settings) (reads : List Read) (over : Bool) (more : List ℕ) (x whole : Reader × Bool)
    → Continues conf more x whole
    → Drained conf x
    → ((rd : Reader)
        → decode_all conf rd ≡ (rd, true)
        → SameWork over (reader_main conf reads rd) (decode_all conf (refill rd more)))
    → SameWork over (after_chunk x (λ rd. reader_main conf reads rd)) whole
unfolding after_chunk refill
after_chunk-SameWork conf reads over more (rd, true) whole c drained ih =
    subst (SameWork over (reader_main conf reads rd)) (sym c) (ih rd drained)
after_chunk-SameWork conf reads over more (rd, false) whole c drained ih =
    subst (SameWork over (rd, false)) (sym c) (refl, refl, refl)

reader_main-SameWork :
    (conf : Settings) (reads : List Read) (rd : Reader)
    → decode_all conf rd ≡ (rd, true)
    → SameWork
        (is_ended reads)
        (reader_main conf reads rd)
        (decode_all conf (refill rd (all_bytes reads)))
unfolding reader_main all_bytes is_ended
reader_main-SameWork conf [] rd drained =
    subst (SameWork false (rd, true)) (sym (ap (λ q. decode_all conf q) (refill-nil rd) ∙ drained))
      (refl, refl, refl)
reader_main-SameWork conf (ended ∷ reads) rd drained =
    subst (SameWork true (rd, false)) (sym (ap (λ q. decode_all conf q) (refill-nil rd) ∙ drained))
      (refl, refl, refl)
reader_main-SameWork conf (quiet ∷ reads) rd drained = reader_main-SameWork conf reads rd drained
reader_main-SameWork conf (chunk bytes ∷ reads) rd drained =
    after_chunk-SameWork conf reads (is_ended reads) (all_bytes reads)
      (decode_all conf (refill rd bytes)) (decode_all conf (refill rd (bytes ++ all_bytes reads)))
      (subst
        (λ q.
          Continues conf (all_bytes reads) (decode_all conf (refill rd bytes)) (decode_all conf q))
        (refill-refill rd bytes (all_bytes reads))
        (decode_all-Continues conf (all_bytes reads) (refill rd bytes)))
      (decode_all-Drained conf (refill rd bytes))
      (λ rd' drained'. reader_main-SameWork conf reads rd' drained')

-- However the peer's bytes are cut into reads, and whatever they are, the reader of a connection
-- publishes the same messages, lets the peer in or not, and goes on or not, as if all of them came
-- at once; with the timeouts between them, and up to the connection's end.
pub reader_main-chunks :
    (conf : Settings) (reads : List Read)
    → SameWork
        (is_ended reads)
        (reader_main conf reads accepted)
        (decode_all conf (refill accepted (all_bytes reads)))
unfolding accepted decode_all decode_loop after_decode decode waits
reader_main-chunks conf reads = reader_main-SameWork conf reads accepted refl

-- No key, no message: if a connection has published anything, its first bytes were a whole frame
-- that is a `PeerHello` with a key that is accepted; and only then is its peer let in.
pub reader_main-admitted :
    (conf : Settings) (reads : List Read)
    → let q = (reader_main conf reads accepted).0 in
      ((q.published ≡ []) × (q.authenticated ≡ false))
      ⊎ ((f : Frame) × (n : ℕ) × (decode (all_bytes reads) ≡ ok (f, n))
          × (admits conf f.frame_type f ≡ true))
unfolding refill accepted on_frame decode_all decode_loop after_decode
reader_main-admitted conf reads =
    let (sent, let_in, goes) = reader_main-chunks conf reads in
    elim (Result-cases (decode (all_bytes reads))) [
      | inr (x, e) ↦ inl (sent ∙ rw e refl, let_in ∙ rw e refl)
      | inl ((f, n), e) ↦ elim (Bool-cases (admits conf f.frame_type f)) [
        | inl yes' ↦ inr (f, n, e, yes')
        | inr refused ↦ inl (sent ∙ rw (e, refused) refl, let_in ∙ rw (e, refused) refl)
      ]
    ]
