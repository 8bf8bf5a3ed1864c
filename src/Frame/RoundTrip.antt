-- ===== src/Frame/RoundTrip.antt =====
-- What `decode` makes of the bytes that `encode` wrote.
use mmbus.Prelude.{
  ℕ, ◌+◌, ◌%◌, ◌^◌, ◌≤◌, ◌<◌, ◌≡◌, refl, ◌∙◌, List, ◌++◌, length, slice, ok, arith, length-append,
  append_assoc, take-append, slice-append, slice-skip, slice-skip_at,
}
use mmbus.Prelude.Bytes.{to_le_bytes, length-to_le_bytes, from_le_bytes-to_le_bytes}
use mmbus.Frame.{
  Frame, FrameType, encode, encoded_len, decode, decode_body, from_u32, to_u32, max_frame_len, msg,
  ping, topic_subscribe, peer_hello,
}

-- What a frame must satisfy for its encoding to be read back: 64-bit fields and a legal size.
pub record IsSendable (f : Frame) : Type 0 where
  pub id_fits : f.origin_id < 2 ^ 64
  pub seq_fits : f.origin_seq < 2 ^ 64
  pub size_fits : encoded_len f ≤ max_frame_len

pub from_u32-to_u32 : (t : FrameType) → from_u32 (to_u32 t) ≡ ok t
unfolding from_u32
from_u32-to_u32 msg = refl
from_u32-to_u32 ping = refl
from_u32-to_u32 topic_subscribe = refl
from_u32-to_u32 peer_hello = refl

to_u32-lt : (t : FrameType) → to_u32 t < 2 ^ 32
to_u32-lt t = ground arith

pub length-encode : (f : Frame) → length (encode f) ≡ encoded_len f
unfolding encode encoded_len
length-encode f = simp (length-append, length-to_le_bytes) (omega arith)

abbrev wire : (v ty id seq tl tail : List ℕ) → List ℕ
wire v ty id seq tl tail = v ++ (ty ++ (id ++ (seq ++ (tl ++ tail))))

abbrev ending : (topic pl payload rest : List ℕ) → List ℕ
ending topic pl payload rest = topic ++ (pl ++ (payload ++ rest))

-- The fixed fields of a frame, and the length of its topic, found at their offsets.
module _ (v ty id seq tl tail : List ℕ) (hv : length v ≡ 4) (hty : length ty ≡ 4)
    (hid : length id ≡ 8) (hseq : length seq ≡ 8) (htl : length tl ≡ 4) where
  slice-version : slice 0 4 (wire v ty id seq tl tail) ≡ v
  slice-version = take-append 4 v _ hv

  slice-type : slice 4 8 (wire v ty id seq tl tail) ≡ ty
  slice-type = slice-skip 4 0 4 v _ hv ∙ take-append 4 ty _ hty

  slice-id : slice 8 16 (wire v ty id seq tl tail) ≡ id
  slice-id = slice-skip 4 4 12 v _ hv ∙ slice-skip 4 0 8 ty _ hty ∙ take-append 8 id _ hid

  slice-seq : slice 16 24 (wire v ty id seq tl tail) ≡ seq
  slice-seq =
      slice-skip 4 12 20 v _ hv
      ∙ slice-skip 4 8 16 ty _ hty
      ∙ slice-skip 8 0 8 id _ hid
      ∙ take-append 8 seq _ hseq

  slice-tl : slice 24 28 (wire v ty id seq tl tail) ≡ tl
  slice-tl =
      slice-skip 4 20 24 v _ hv
      ∙ slice-skip 4 16 20 ty _ hty
      ∙ slice-skip 8 8 12 id _ hid
      ∙ slice-skip 8 0 4 seq _ hseq
      ∙ take-append 4 tl _ htl

  slice-tail :
      (i j a b : ℕ)
      → i ≡ 28 + a
      → j ≡ 28 + b
      → slice i j (wire v ty id seq tl tail) ≡ slice a b tail
  slice-tail i j a b p q =
      slice-skip_at i j 4 (24 + a) (24 + b) v _ hv (omega arith) (omega arith)
      ∙ slice-skip_at (24 + a) (24 + b) 4 (20 + a) (20 + b) ty _ hty (omega arith) (omega arith)
      ∙ slice-skip_at (20 + a) (20 + b) 8 (12 + a) (12 + b) id _ hid (omega arith) (omega arith)
      ∙ slice-skip_at (12 + a) (12 + b) 8 (4 + a) (4 + b) seq _ hseq (omega arith) (omega arith)
      ∙ slice-skip_at (4 + a) (4 + b) 4 a b tl _ htl (omega arith) (omega arith)

  length-wire : length (wire v ty id seq tl tail) ≡ 28 + length tail
  length-wire = simp length-append (omega arith)

-- The tail of a frame with `n` bytes of topic and `m` of payload, found at its offsets.
module _ (topic pl payload rest : List ℕ) (hpl : length pl ≡ 4) where
  slice-topic : slice 0 (length topic) (ending topic pl payload rest) ≡ topic
  slice-topic = slice-append (length topic) topic _ refl

  slice-pl : slice (length topic) (length topic + 4) (ending topic pl payload rest) ≡ pl
  slice-pl =
      slice-skip_at _ _ (length topic) 0 4 topic _ refl (omega arith) refl ∙ take-append 4 pl _ hpl

  slice-payload :
      slice (length topic + 4) (length topic + 4 + length payload) (ending topic pl payload rest)
      ≡ payload
  slice-payload =
      slice-skip_at _ _ (length topic) 4 (4 + length payload) topic _ refl refl (omega arith)
      ∙ slice-skip_at 4 (4 + length payload) 4 0 (length payload) pl _ hpl refl refl
      ∙ slice-append (length payload) payload rest refl

module _ (f : Frame) (rest : List ℕ) (v : IsSendable f) where
  open f use {frame_type, origin_id, origin_seq, topic, payload}

  abbrev ver : List ℕ
  ver = to_le_bytes 4 1

  abbrev ty : List ℕ
  ty = to_le_bytes 4 (to_u32 frame_type)

  abbrev id : List ℕ
  id = to_le_bytes 8 origin_id

  abbrev seq : List ℕ
  seq = to_le_bytes 8 origin_seq

  abbrev tl : List ℕ
  tl = to_le_bytes 4 (length topic % 2 ^ 32)

  abbrev pl : List ℕ
  pl = to_le_bytes 4 (length payload % 2 ^ 32)

  abbrev bytes : List ℕ
  bytes = wire ver ty id seq tl (ending topic pl payload rest)

  encode-bytes : encode f ++ rest ≡ bytes
  unfolding encode
  encode-bytes = simp append_assoc

  decode-bytes : decode bytes ≡ ok (f, encoded_len f)
  unfolding decode decode_body encoded_len
  decode-bytes = ground (
    arith,
    v,
    length-wire ver ty id seq tl tail hver hty hid hseq htl,
    slice-version ver ty id seq tl tail hver hty hid hseq htl,
    slice-type ver ty id seq tl tail hver hty hid hseq htl,
    slice-id ver ty id seq tl tail hver hty hid hseq htl,
    slice-seq ver ty id seq tl tail hver hty hid hseq htl,
    slice-tl ver ty id seq tl tail hver hty hid hseq htl,
    from_u32-to_u32 frame_type,
    from_le_bytes-to_le_bytes 4 1,
    from_le_bytes-to_le_bytes 4 (to_u32 frame_type),
    from_le_bytes-to_le_bytes 8 origin_id,
    from_le_bytes-to_le_bytes 8 origin_seq,
    from_le_bytes-to_le_bytes 4 (length topic),
    from_le_bytes-to_le_bytes 4 (length payload),
    to_u32-lt frame_type,
    length-ending,
    tail_at 0 (length topic),
    tail_at (length topic) (length topic + 4),
    tail_at (length topic + 4) (length topic + 4 + length payload),
    slice-topic topic pl payload rest hpl,
    slice-pl topic pl payload rest hpl,
    slice-payload topic pl payload rest hpl,
  )
    where
      tail : List ℕ
      tail = ending topic pl payload rest

      hver : length ver ≡ 4
      hver = length-to_le_bytes 4 1

      hty : length ty ≡ 4
      hty = length-to_le_bytes 4 _

      hid : length id ≡ 8
      hid = length-to_le_bytes 8 _

      hseq : length seq ≡ 8
      hseq = length-to_le_bytes 8 _

      htl : length tl ≡ 4
      htl = length-to_le_bytes 4 _

      hpl : length pl ≡ 4
      hpl = length-to_le_bytes 4 _

      length-ending : length tail ≡ length topic + 4 + length payload + length rest
      length-ending = simp (length-append, length-to_le_bytes) (omega arith)

      tail_at : (a b : ℕ) → slice (28 + a) (28 + b) bytes ≡ slice a b tail
      tail_at a b = slice-tail ver ty id seq tl tail hver hty hid hseq htl _ _ a b refl refl

-- `decode` reads back any sendable frame from its encoding, whatever follows, and reports the size
-- of the encoding as the number of bytes consumed.
pub decode-encode :
    (f : Frame) (rest : List ℕ) → IsSendable f → decode (encode f ++ rest) ≡ ok (f, encoded_len f)
decode-encode f rest v = rw (encode-bytes f rest v) (decode-bytes f rest v)
