-- ===== src/Bridge.antt =====
-- The receiving side of crates/mmbus-bridge/src/bridge.rs, `reader_main` and `handle_frame`, and the
-- frames that `subscriber_main` sends. A reader is what one connection's thread keeps; what the
-- socket yields is an argument, and the channel to the publisher's thread is the list of what was
-- sent to it.
pub mod Chunks
pub mod Republish
pub mod Sending
mod Runs
use mmbus.Prelude.{
  ℕ, zero, suc, ◌+◌, ◌*◌, ◌%◌, ◌^◌, Bool, true, false, ◌&&◌, not, List, [], ◌∷◌, ◌++◌, length, drop,
  leb, ◌==◌, if◌then◌else◌, Result, ok, err,
}
use mmbus.Frame.{
  Frame, FrameType, msg, ping, topic_subscribe, peer_hello, DecodeError, incomplete, decode, encode,
  new_msg, PeerHelloParts, parse_peer_hello,
}
use mmbus.Queue.{Channel, send}

-- What the threads of a bridge share: `our_origin_id`, `receive_topics` and `accepted_psks`, strings
-- as their bytes.
pub record Settings : Type 0 where
  pub origin_id : ℕ
  pub receive_topics : List (List ℕ)
  pub accepted_psks : List (List ℕ)

unfoldable pub same_bytes : List ℕ → List ℕ → Bool
same_bytes [] [] = true
same_bytes [] (c ∷ cs) = false
same_bytes (b ∷ bs) [] = false
same_bytes (b ∷ bs) (c ∷ cs) = (b == c) && same_bytes bs cs

-- `HashSet::contains`
unfoldable pub contains : List (List ℕ) → List ℕ → Bool
contains [] bytes = false
contains (x ∷ xs) bytes = let rest = contains xs bytes in if same_bytes x bytes then true else rest

unfoldable pub within : (low high byte : ℕ) → Bool
within low high byte = leb low byte && leb byte high

-- After a first byte of a character: how many bytes follow, and the bounds of the next one.
unfoldable pub follow : ℕ → ℕ × ℕ × ℕ
follow b =
    if leb b 223
    then (1, 128, 191)
    else if b == 224
    then (2, 160, 191)
    else if b == 237
    then (2, 128, 159)
    else if leb b 239
    then (2, 128, 191)
    else if b == 240
    then (3, 144, 191)
    else if b == 244
    then (3, 128, 143)
    else (3, 128, 191)

-- `std::str::from_utf8` says ok, with `more` bytes of a character to come and the bounds of the
-- first of them.
unfoldable pub utf8_from : (more low high : ℕ) → List ℕ → Bool
utf8_from zero low high [] = true
utf8_from (suc more) low high [] = false
utf8_from zero low high (b ∷ bs) =
    let (more, next_low, next_high) = follow b in
    let one = utf8_from 0 128 191 bs in
    let several = utf8_from more next_low next_high bs in
    if leb b 127 then one else within 194 244 b && several
utf8_from (suc more) low high (b ∷ bs) =
    let rest = utf8_from more 128 191 bs in within low high b && rest

unfoldable pub is_utf8 : List ℕ → Bool
is_utf8 bytes = utf8_from 0 128 191 bytes

-- A topic and a payload, to be published.
abbrev pub Message : Type 0
Message = List ℕ × List ℕ

unfoldable pub deliver : Settings → FrameType → Frame → List Message
deliver conf msg frame =
    if is_utf8 frame.topic && contains conf.receive_topics frame.topic
    then (frame.topic, frame.payload) ∷ []
    else []
deliver conf peer_hello frame = []
deliver conf ping frame = []
deliver conf topic_subscribe frame = []

-- `handle_frame`, as what it sends to the publisher's thread.
unfoldable pub handle_frame : Settings → Frame → List Message
handle_frame conf frame =
    if frame.origin_id == conf.origin_id then [] else deliver conf frame.frame_type frame

pub record Reader : Type 0 where
  pub buf : List ℕ
  pub authenticated : Bool
  pub published : List Message

unfoldable pub psk_accepted : Settings → Result DecodeError PeerHelloParts → Bool
psk_accepted conf (ok hello) = contains conf.accepted_psks hello.psk
psk_accepted conf (err e) = false

-- The first frame is to be a `PeerHello` with a key that is accepted.
unfoldable pub admits : Settings → FrameType → Frame → Bool
admits conf peer_hello frame = psk_accepted conf (parse_peer_hello frame.payload)
admits conf msg frame = false
admits conf ping frame = false
admits conf topic_subscribe frame = false

-- `break` waits for more bytes, every other error returns.
unfoldable pub waits : DecodeError → Bool
waits (incomplete have needed) = true
waits e = false

-- A frame of `n` bytes is taken up; `again` is the rest of the loop.
unfoldable pub on_frame :
    Settings → Bool → Reader → Frame → ℕ → (Reader → Reader × Bool) → Reader × Bool
on_frame conf true rd frame n again =
    again (record rd { buf = drop n rd.buf; published = rd.published ++ handle_frame conf frame })
on_frame conf false rd frame n again =
    let admitted = again (record rd { buf = drop n rd.buf; authenticated = true }) in
    if admits conf frame.frame_type frame then admitted else (rd, false)

unfoldable pub after_decode :
    Settings → Reader → Result DecodeError (Frame × ℕ) → (Reader → Reader × Bool) → Reader × Bool
after_decode conf rd (ok (frame, n)) again = on_frame conf rd.authenticated rd frame n again
after_decode conf rd (err e) again = (rd, waits e)

-- The loop over the frames in the buffer, on fuel, and whether the thread goes on.
unfoldable pub decode_loop : Settings → ℕ → Reader → Reader × Bool
decode_loop conf zero rd = (rd, true)
decode_loop conf (suc fuel) rd =
    after_decode conf rd (decode rd.buf) (λ rd'. decode_loop conf fuel rd')

-- A frame has a byte at least, so that there is a round for each byte and one more.
unfoldable pub decode_all : Settings → Reader → Reader × Bool
decode_all conf rd = decode_loop conf (suc (length rd.buf)) rd

unfoldable pub refill : Reader → List ℕ → Reader
refill rd bytes = record rd { buf = rd.buf ++ bytes }

-- What `read` answers: bytes, nothing in time, or the connection's end or failure.
pub data Read : Type 0 where
  chunk : List ℕ → Read
  quiet : Read
  ended : Read

-- The loop of `reader_main`, over what `read` answers.
unfoldable pub after_chunk : Reader × Bool → (Reader → Reader × Bool) → Reader × Bool
after_chunk (rd, true) again = again rd
after_chunk (rd, false) again = (rd, false)

unfoldable pub reader_main : Settings → List Read → Reader → Reader × Bool
reader_main conf [] rd = (rd, true)
reader_main conf (chunk bytes ∷ reads) rd =
    after_chunk (decode_all conf (refill rd bytes)) (λ rd'. reader_main conf reads rd')
reader_main conf (quiet ∷ reads) rd = reader_main conf reads rd
reader_main conf (ended ∷ reads) rd = (rd, false)

-- The reader at the beginning of a connection.
unfoldable pub accepted : Reader
accepted = record { buf = []; authenticated = false; published = [] }

-- `subscriber_main`, for a payload of its topic: the frame goes into every peer's queue.
unfoldable pub fan_out : List (Channel (List ℕ)) → List ℕ → List (Channel (List ℕ))
fan_out [] bytes = []
fan_out (c ∷ cs) bytes = (send c bytes).0 ∷ fan_out cs bytes

unfoldable pub forward :
    (origin_id seq : ℕ) (topic payload : List ℕ)
    → List (Channel (List ℕ))
    → ℕ × List (Channel (List ℕ))
forward origin_id seq topic payload peers =
    ((seq + 1) % 2 ^ 64, fan_out peers (encode (new_msg origin_id seq topic payload)))

-- The payloads that `recv_timeout` yields, one after another; `seq` is shared by all topics, and here
-- no other topic has a message meanwhile.
unfoldable pub forward_all :
    (origin_id seq : ℕ) (topic : List ℕ)
    → List (List ℕ)
    → List (Channel (List ℕ))
    → ℕ × List (Channel (List ℕ))
forward_all origin_id seq topic [] peers = (seq, peers)
forward_all origin_id seq topic (payload ∷ payloads) peers =
    let (next, peers') = forward origin_id seq topic payload peers in
    forward_all origin_id next topic payloads peers'
