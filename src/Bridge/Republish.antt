-- ===== src/Bridge/Republish.antt =====
-- What a connection's reader publishes of the frames that another bridge sends.
use mmbus.Prelude.{
  ℕ, suc, ◌+◌, ◌%◌, ◌^◌, ◌≤◌, ◌<◌, ◌≡◌, refl, sym, ap, ◌∙◌, subst, true, false, List, [], ◌∷◌, ◌++◌,
  map, All, length, take, take_all, drop, drop-append, append-nil, append_assoc, length-append,
  Bool-cases, inl, inr, arith, if◌then◌else◌, ◌&&◌, not, ◌==◌,
}
use mmbus.Prelude.Bytes.{to_le_bytes, length-to_le_bytes}
use mmbus.Frame.{Frame, encode, decode, encoded_len, new_msg, peer_hello_with_psk, max_frame_len}
use mmbus.Frame.RoundTrip.{IsSendable, decode-encode, length-encode}
use mmbus.Frame.Hello.{parse_peer_hello-peer_hello_with_psk}
use mmbus.Bridge.{
  Settings, Reader, Message, contains, is_utf8, deliver, handle_frame, psk_accepted, admits, waits,
  on_frame, after_decode, decode_loop, decode_all, refill, accepted, Read, reader_main,
}
use mmbus.Bridge.Chunks.{
  decode_loop-enough, decode_all-ok, all_bytes, is_ended, SameWork, reader_main-chunks,
}

-- The encodings of the frames, one after another, and what is published of them.
unfoldable pub encode_all : List Frame → List ℕ
encode_all [] = []
encode_all (f ∷ fs) = encode f ++ encode_all fs

unfoldable pub handle_all : Settings → List Frame → List Message
handle_all conf [] = []
handle_all conf (f ∷ fs) = handle_frame conf f ++ handle_all conf fs

encoded_len-positive : (f : Frame) → 0 < encoded_len f
unfolding encoded_len
encoded_len-positive f = omega arith

-- One frame is taken off the buffer.
decode_all-encode :
    (conf : Settings) (rd : Reader) (f : Frame) (rest : List ℕ)
    → IsSendable f
    → decode_all conf (record rd { buf = encode f ++ rest })
      ≡ on_frame conf rd.authenticated
          (record rd { buf = encode f ++ rest })
          f
          (encoded_len f)
          (λ q. decode_loop conf (length (encode f ++ rest)) q)
decode_all-encode conf rd f rest s =
    decode_all-ok conf (record rd { buf = encode f ++ rest }) f (encoded_len f)
      (decode-encode f rest s)

loop-rest :
    (conf : Settings) (rd : Reader) (f : Frame) (rest : List ℕ)
    → decode_loop conf
        (length (encode f ++ rest))
        (record rd { buf = drop (encoded_len f) (encode f ++ rest) })
      ≡ decode_all conf (record rd { buf = rest })
unfolding decode_all
loop-rest conf rd f rest =
    let left : drop (encoded_len f) (encode f ++ rest) ≡ rest =
      drop-append (encoded_len f) (encode f) rest (length-encode f) in
    ap (λ b. decode_loop conf (length (encode f ++ rest)) (record rd { buf = b })) left
    ∙ decode_loop-enough conf (length (encode f ++ rest)) (suc (length rest))
        (record rd { buf = rest })
        (omega (arith, length-append (encode f) rest, length-encode f, encoded_len-positive f))
        (omega arith)

decode_all-nil :
    (conf : Settings) (done : List Message)
    → decode_all conf (record { buf = []; authenticated = true; published = done })
      ≡ (record { buf = []; authenticated = true; published = done }, true)
unfolding decode_all decode_loop after_decode decode waits
decode_all-nil conf done = refl

decode_all-encode_all :
    (conf : Settings) (fs : List Frame) (done : List Message)
    → All IsSendable fs
    → decode_all conf (record { buf = encode_all fs; authenticated = true; published = done })
      ≡ (record { buf = []; authenticated = true; published = done ++ handle_all conf fs }, true)
unfolding encode_all handle_all on_frame
decode_all-encode_all conf [] done s =
    decode_all-nil conf done
    ∙ ap (λ p. (record { buf = []; authenticated = true; published = p }, true))
        (sym (append-nil done))
decode_all-encode_all conf (f ∷ fs) done (s, ss) =
    decode_all-encode conf (record { buf = []; authenticated = true; published = done }) f
      (encode_all fs) s
    ∙ loop-rest conf
        (record { buf = []; authenticated = true; published = done ++ handle_frame conf f }) f
        (encode_all fs)
    ∙ decode_all-encode_all conf fs (done ++ handle_frame conf f) ss
    ∙ ap (λ p. (record { buf = []; authenticated = true; published = p }, true))
        (append_assoc done (handle_frame conf f) (handle_all conf fs))

-- A connection on which a peer's whole frames arrive, however they are cut, the first of them a
-- `PeerHello` that is let in: what is published is what `handle_frame` makes of each frame after the
-- first, in order, and the thread goes on until the connection ends.
pub reader_main-republishes :
    (conf : Settings) (reads : List Read) (hello : Frame) (fs : List Frame)
    → IsSendable hello
    → admits conf hello.frame_type hello ≡ true
    → All IsSendable fs
    → all_bytes reads ≡ encode_all (hello ∷ fs)
    → let (q, goes) = reader_main conf reads accepted in
      (q.published ≡ handle_all conf fs) × (q.authenticated ≡ true) × (goes ≡ not (is_ended reads))
unfolding refill accepted encode_all on_frame
reader_main-republishes conf reads hello fs s let_in ss bytes =
    let begun =
      decode_all-encode conf (record { buf = []; authenticated = false; published = [] }) hello
        (encode_all fs) s in
    let rest =
      loop-rest conf (record { buf = []; authenticated = true; published = [] }) hello
        (encode_all fs) in
    let whole = decode_all-encode_all conf fs [] ss in
    let all : decode_all conf (refill accepted (all_bytes reads))
        ≡ (record { buf = []; authenticated = true; published = handle_all conf fs }, true) =
      ap (λ b. decode_all conf (record { buf = b; authenticated = false; published = [] })) bytes
      ∙ begun
      ∙ rw let_in (rest ∙ whole) in
    subst (SameWork (is_ended reads) (reader_main conf reads accepted)) all
      (reader_main-chunks conf reads)

-- The frames that `subscriber_main` makes of the payloads of one topic.
unfoldable pub forwarded : (origin_id seq : ℕ) (topic : List ℕ) → List (List ℕ) → List Frame
forwarded origin_id seq topic [] = []
forwarded origin_id seq topic (payload ∷ payloads) =
    new_msg origin_id seq topic payload ∷ forwarded origin_id ((seq + 1) % 2 ^ 64) topic payloads

-- A payload that a frame has room for.
abbrev pub FitsFrame : List ℕ → List ℕ → Type 0
FitsFrame topic payload = 32 + length topic + length payload ≤ max_frame_len

forwarded-IsSendable :
    (origin_id seq : ℕ) (topic : List ℕ) (payloads : List (List ℕ))
    → origin_id < 2 ^ 64
    → seq < 2 ^ 64
    → All (FitsFrame topic) payloads
    → All IsSendable (forwarded origin_id seq topic payloads)
unfolding forwarded new_msg encoded_len
forwarded-IsSendable origin_id seq topic [] id_lt seq_lt fit = tt
forwarded-IsSendable origin_id seq topic (payload ∷ payloads) id_lt seq_lt (fits, fit) = (
  record { id_fits = id_lt; seq_fits = seq_lt; size_fits = omega (arith, fits) },
  forwarded-IsSendable origin_id ((seq + 1) % 2 ^ 64) topic payloads id_lt (omega arith) fit,
)

forwarded-handle_all :
    (conf : Settings) (origin_id seq : ℕ) (topic : List ℕ) (payloads : List (List ℕ))
    → (is_utf8 topic && contains conf.receive_topics topic) ≡ true
    → handle_all conf (forwarded origin_id seq topic payloads)
      ≡ (if origin_id == conf.origin_id then [] else map (λ m. (topic, m)) payloads)
unfolding forwarded new_msg handle_all handle_frame deliver
forwarded-handle_all conf origin_id seq topic payloads received =
    elim (Bool-cases (origin_id == conf.origin_id)) [
      | inl own ↦ rw own (none_of own seq payloads)
      | inr other ↦ rw other (all_of other seq payloads)
    ]
  where
    none_of :
        (origin_id == conf.origin_id) ≡ true
        → (seq : ℕ) (ms : List (List ℕ)) → handle_all conf (forwarded origin_id seq topic ms) ≡ []
    none_of own seq [] = refl
    none_of own seq (m ∷ ms) = rw own (none_of own ((seq + 1) % 2 ^ 64) ms)

    all_of :
        (origin_id == conf.origin_id) ≡ false
        → (seq : ℕ) (ms : List (List ℕ))
        → handle_all conf (forwarded origin_id seq topic ms) ≡ map (λ m. (topic, m)) ms
    all_of other seq [] = refl
    all_of other seq (m ∷ ms) =
        rw (other, received) (ap (λ t. (topic, m) ∷ t) (all_of other ((seq + 1) % 2 ^ 64) ms))

hello-admits :
    (conf : Settings) (origin_id : ℕ) (psk : List ℕ)
    → origin_id < 2 ^ 64
    → length psk < 2 ^ 16
    → contains conf.accepted_psks psk ≡ true
    → admits conf (peer_hello_with_psk origin_id psk).frame_type (peer_hello_with_psk origin_id psk)
      ≡ true
unfolding admits peer_hello_with_psk psk_accepted
hello-admits conf origin_id psk id_lt short known =
    let whole : take (length psk % 2 ^ 16) psk ≡ psk =
      take_all (length psk % 2 ^ 16) psk (omega (arith, short)) in
    rw (parse_peer_hello-peer_hello_with_psk origin_id psk id_lt, whole, known) refl

hello-IsSendable :
    (origin_id : ℕ) (psk : List ℕ)
    → origin_id < 2 ^ 64
    → length psk < 2 ^ 16
    → IsSendable (peer_hello_with_psk origin_id psk)
unfolding peer_hello_with_psk encoded_len
hello-IsSendable origin_id psk id_lt short = record {
  id_fits = id_lt;
  seq_fits = omega arith;
  size_fits = omega (
    arith,
    length-append (to_le_bytes 8 origin_id) (to_le_bytes 2 (length psk % 2 ^ 16) ++ psk),
    length-append (to_le_bytes 2 (length psk % 2 ^ 16)) psk,
    length-to_le_bytes 8 origin_id,
    length-to_le_bytes 2 (length psk % 2 ^ 16),
    short,
  );
}

-- From one bridge to another. Where a bridge sends its `PeerHello` with a key that the other one
-- accepts, and then a frame for each payload of a topic that the other one receives, the other one
-- publishes exactly these payloads on this topic, in order, however the stream is cut; and none of
-- them, if the frames carry its own origin id, so that no message goes round in a loop. The payloads
-- fit in a frame, the topic is UTF-8, and the key is shorter than 65536 bytes.
pub reader_main-relays :
    (conf : Settings) (reads : List Read) (origin_id seq : ℕ) (psk topic : List ℕ)
    (payloads : List (List ℕ))
    → origin_id < 2 ^ 64
    → seq < 2 ^ 64
    → length psk < 2 ^ 16
    → contains conf.accepted_psks psk ≡ true
    → (is_utf8 topic && contains conf.receive_topics topic) ≡ true
    → All (FitsFrame topic) payloads
    → all_bytes reads
      ≡ encode_all (peer_hello_with_psk origin_id psk ∷ forwarded origin_id seq topic payloads)
    → (reader_main conf reads accepted).0.published
      ≡ (if origin_id == conf.origin_id then [] else map (λ m. (topic, m)) payloads)
reader_main-relays conf reads origin_id seq psk topic payloads id_lt seq_lt short known received fit
      bytes =
    (reader_main-republishes conf reads (peer_hello_with_psk origin_id psk)
      (forwarded origin_id seq topic payloads) (hello-IsSendable origin_id psk id_lt short)
      (hello-admits conf origin_id psk id_lt short known)
      (forwarded-IsSendable origin_id seq topic payloads id_lt seq_lt fit) bytes).0
    ∙ forwarded-handle_all conf origin_id seq topic payloads received
