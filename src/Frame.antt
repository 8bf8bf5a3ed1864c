-- ===== src/Frame.antt =====
-- The wire-frame codec of the bridge, crates/mmbus-bridge/src/frame.rs.
-- A byte is a number, a `Vec<u8>` or `&[u8]` a list of them; `encode`, which appends to a
-- caller's buffer, is the list that it appends.
pub mod RoundTrip
pub mod Stream
pub mod Sound
pub mod Hello
pub mod Cut
mod Runs
use mmbus.Prelude.{
  ℕ, zero, suc, ◌+◌, ◌*◌, ◌%◌, ◌^◌, ◌≤◌, ◌<◌, List, [], ◌∷◌, ◌++◌, length, slice, ltb, not, ◌==◌,
  if◌then◌else◌, Result, ok, err, ◌>>=◌, ◌>>◌, bail_if,
}
use mmbus.Prelude.Bytes.{to_le_bytes, from_le_bytes}

abbrev pub frame_version : ℕ
frame_version = 1

abbrev pub header_len : ℕ
header_len = 4 + 4 + 8 + 8

abbrev pub min_frame_len : ℕ
min_frame_len = header_len + 4 + 4

abbrev pub max_frame_len : ℕ
max_frame_len = 16 * 1024 * 1024

pub data FrameType : Type 0 where
  msg ping topic_subscribe peer_hello : FrameType

-- `frame_type as u32`
abbrev pub to_u32 : FrameType → ℕ
to_u32 msg = 0
to_u32 ping = 1
to_u32 topic_subscribe = 2
to_u32 peer_hello = 3

pub data DecodeError : Type 0 where
  incomplete : (have needed : ℕ) → DecodeError
  unsupported_version : ℕ → DecodeError
  unknown_frame_type : ℕ → DecodeError
  too_large : ℕ → DecodeError
  short_peer_hello : (have : ℕ) → DecodeError

unfoldable pub from_u32 : ℕ → Result DecodeError FrameType
from_u32 n =
    if n == 0
    then ok msg
    else if n == 1
    then ok ping
    else if n == 2
    then ok topic_subscribe
    else if n == 3
    then ok peer_hello
    else err (unknown_frame_type n)

pub record Frame : Type 0 where
  pub frame_type : FrameType
  pub origin_id : ℕ
  pub origin_seq : ℕ
  pub topic : List ℕ
  pub payload : List ℕ

-- `Frame::msg`
unfoldable pub new_msg : ℕ → ℕ → List ℕ → List ℕ → Frame
new_msg origin_id origin_seq topic payload = record {
  frame_type = msg;
  origin_id = origin_id;
  origin_seq = origin_seq;
  topic = topic;
  payload = payload;
}

-- `Frame::peer_hello_with_psk`; `psk.len() as u16` keeps the low 16 bits.
unfoldable pub peer_hello_with_psk : ℕ → List ℕ → Frame
peer_hello_with_psk origin_id psk = record {
  frame_type = peer_hello;
  origin_id = origin_id;
  origin_seq = 0;
  topic = [];
  payload = to_le_bytes 8 origin_id ++ (to_le_bytes 2 (length psk % 2 ^ 16) ++ psk);
}

-- `Frame::ping`
unfoldable pub new_ping : ℕ → Frame
new_ping origin_id = record {
  frame_type = ping;
  origin_id = origin_id;
  origin_seq = 0;
  topic = [];
  payload = [];
}

unfoldable pub encoded_len : Frame → ℕ
encoded_len f = header_len + 4 + length f.topic + 4 + length f.payload

-- Lengths are cast by `as u32`.
unfoldable pub encode : Frame → List ℕ
encode f =
    to_le_bytes 4 frame_version
    ++ (to_le_bytes 4 (to_u32 f.frame_type)
        ++ (to_le_bytes 8 f.origin_id
            ++ (to_le_bytes 8 f.origin_seq
                ++ (to_le_bytes 4 (length f.topic % 2 ^ 32)
                    ++ (f.topic ++ (to_le_bytes 4 (length f.payload % 2 ^ 32) ++ f.payload))))))

-- `buf` holds at least a header and the topic's length.
unfoldable pub decode_body : List ℕ → FrameType → Result DecodeError (Frame × ℕ)
decode_body buf frame_type = do
  let topic_len = from_le_bytes (slice 24 28 buf)
  let after_topic = header_len + 4 + topic_len
  bail_if (ltb max_frame_len topic_len) (too_large topic_len)
  bail_if (ltb (length buf) (after_topic + 4)) (incomplete (length buf) (after_topic + 4))
  let payload_len = from_le_bytes (slice after_topic (after_topic + 4) buf)
  bail_if (ltb max_frame_len payload_len) (too_large payload_len)
  let total_len = after_topic + 4 + payload_len
  bail_if (ltb max_frame_len total_len) (too_large total_len)
  bail_if (ltb (length buf) total_len) (incomplete (length buf) total_len)
  ok (
    record {
      frame_type = frame_type;
      origin_id = from_le_bytes (slice 8 16 buf);
      origin_seq = from_le_bytes (slice 16 24 buf);
      topic = slice (header_len + 4) after_topic buf;
      payload = slice (after_topic + 4) total_len buf;
    },
    total_len,
  )

unfoldable pub decode : List ℕ → Result DecodeError (Frame × ℕ)
decode buf = do
  bail_if (ltb (length buf) (header_len + 4)) (incomplete (length buf) (header_len + 4))
  let version = from_le_bytes (slice 0 4 buf)
  bail_if (not (version == frame_version)) (unsupported_version version)
  frame_type ← from_u32 (from_le_bytes (slice 4 8 buf))
  decode_body buf frame_type

pub record PeerHelloParts : Type 0 where
  pub origin_id : ℕ
  pub psk : List ℕ

unfoldable pub parse_peer_hello : List ℕ → Result DecodeError PeerHelloParts
parse_peer_hello payload = do
  bail_if (ltb (length payload) 10) (short_peer_hello (length payload))
  let origin_id = from_le_bytes (slice 0 8 payload)
  let psk_len = from_le_bytes (slice 8 10 payload)
  bail_if (ltb (length payload) (10 + psk_len)) (short_peer_hello (length payload))
  ok (record { origin_id = origin_id; psk = slice 10 (10 + psk_len) payload })
