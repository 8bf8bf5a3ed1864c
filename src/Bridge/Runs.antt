-- ===== src/Bridge/Runs.antt =====
-- Runs of the bridge's reader: a peer that is let in and sends two messages of a topic, cut in the
-- middle of a frame.
use mmbus.Prelude.{
  ℕ, ◌≡◌, ◌⊎◌, refl, ap, ◌∙◌, true, false, List, [], ◌∷◌, ◌++◌, map, take, drop, take-append-drop,
  append-nil, ok, arith, ◌&&◌, if◌then◌else◌, ◌==◌,
}
use mmbus.Frame.{Frame, decode, peer_hello_with_psk}
use mmbus.Bridge.{
  Settings, Reader, contains, is_utf8, admits, decode_all, refill, accepted, Read, chunk, quiet,
  ended, reader_main,
}
use mmbus.Bridge.Chunks.{all_bytes, is_ended, SameWork, reader_main-chunks, reader_main-admitted}
use mmbus.Queue.{Channel}
use mmbus.Bridge.{forward_all}
use mmbus.Bridge.Sending.{extended, forward_all-extended}
use mmbus.Frame.{encode}
use mmbus.Bridge.Republish.{encode_all, forwarded, reader_main-relays}

abbrev topic : List ℕ
topic = 116 ∷ []

abbrev psk : List ℕ
psk = 9 ∷ (9 ∷ [])

abbrev settings : Settings
settings = record { origin_id = 1; receive_topics = topic ∷ []; accepted_psks = psk ∷ [] }

abbrev payloads : List (List ℕ)
payloads = (5 ∷ []) ∷ ([] ∷ [])

abbrev stream : List ℕ
stream = encode_all (peer_hello_with_psk 2 psk ∷ forwarded 2 0 topic payloads)

abbrev reads : List Read
reads = chunk (take 60 stream) ∷ (quiet ∷ (chunk (drop 60 stream) ∷ (ended ∷ [])))

reads-all_bytes : all_bytes reads ≡ stream
unfolding all_bytes
reads-all_bytes =
    ap (λ t. take 60 stream ++ t) (append-nil (drop 60 stream)) ∙ take-append-drop 60 stream

psk-known : contains settings.accepted_psks psk ≡ true
unfolding contains mmbus.Bridge.same_bytes
psk-known = refl

topic-received : (is_utf8 topic && contains settings.receive_topics topic) ≡ true
unfolding contains mmbus.Bridge.same_bytes is_utf8 mmbus.Bridge.utf8_from
topic-received = refl

reader_main-relays_example :
    (reader_main settings reads accepted).0.published
    ≡ (if 2 == settings.origin_id then [] else map (λ m. (topic, m)) payloads)
reader_main-relays_example =
    reader_main-relays settings reads 2 0 psk topic payloads (omega arith) (omega arith)
      (omega arith) psk-known topic-received (omega arith, (omega arith, tt)) reads-all_bytes

reader_main-chunks_example :
    SameWork
      (is_ended reads)
      (reader_main settings reads accepted)
      (decode_all settings (refill accepted (all_bytes reads)))
reader_main-chunks_example = reader_main-chunks settings reads

-- A peer whose first frame is a message.
abbrev uninvited : List Read
uninvited = chunk (encode_all (forwarded 2 0 topic payloads)) ∷ []

reader_main-admitted_example :
    let q = (reader_main settings uninvited accepted).0 in
    ((q.published ≡ []) × (q.authenticated ≡ false))
    ⊎ ((f : Frame) × (n : ℕ) × (decode (all_bytes uninvited) ≡ ok (f, n))
        × (admits settings f.frame_type f ≡ true))
reader_main-admitted_example = reader_main-admitted settings uninvited

-- One peer's queue is full, the other's has room.
abbrev peers : List (Channel (List ℕ))
peers =
    record { queue = (1 ∷ []) ∷ []; closed = false; capacity = 1; strong = 2 }
    ∷ (record { queue = []; closed = false; capacity = 4; strong = 2 } ∷ [])

forward_all-extended_example :
    (forward_all 2 0 topic payloads peers).1
    ≡ map (λ c. extended c (map encode (forwarded 2 0 topic payloads))) peers
forward_all-extended_example = forward_all-extended 2 0 topic payloads peers (
  (record { positive = omega arith; bounded = omega arith }, refl),
  ((record { positive = omega arith; bounded = omega arith }, refl), tt),
)
