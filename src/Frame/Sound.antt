-- ===== src/Frame/Sound.antt =====
-- What a successful `decode` says of its input.
use mmbus.Prelude.{
  ℕ, ◌+◌, ◌-◌, ◌≤◌, ◌<◌, ◌≡◌, refl, ap, sym, ◌∙◌, List, ◌++◌, length, ◌^◌, slice, ok, arith,
  length-slice, slice-append-slice, ap₂, inl, inr, Result-cases,
}
use mmbus.Prelude.Bytes.{
  to_le_bytes, from_le_bytes, AllBytes, to_le_bytes-from_le_bytes_at, from_le_bytes-lt_at,
  AllBytes-slice,
}
use mmbus.Frame.{
  Frame, FrameType, encode, encoded_len, decode, decode_body, from_u32, to_u32, max_frame_len,
}
use mmbus.Frame.RoundTrip.{IsSendable}

from_u32-inv : (n : ℕ) (t : FrameType) → from_u32 n ≡ ok t → n ≡ to_u32 t
unfolding from_u32
from_u32-inv n t e = ground arith

abbrev topic_end : List ℕ → ℕ
topic_end buf = 28 + from_le_bytes (slice 24 28 buf)

-- The fields of an accepted frame, read at their offsets, and the checks that they passed.
record Accepted (buf : List ℕ) (f : Frame) (n : ℕ) : Type 0 where
  enough : 28 ≤ length buf
  version : from_le_bytes (slice 0 4 buf) ≡ 1
  kind : from_le_bytes (slice 4 8 buf) ≡ to_u32 f.frame_type
  id : from_le_bytes (slice 8 16 buf) ≡ f.origin_id
  seq : from_le_bytes (slice 16 24 buf) ≡ f.origin_seq
  has_topic : topic_end buf + 4 ≤ length buf
  total : n ≡ topic_end buf + 4 + from_le_bytes (slice (topic_end buf) (topic_end buf + 4) buf)
  small : n ≤ max_frame_len
  fits : n ≤ length buf
  topic : f.topic ≡ slice 28 (topic_end buf) buf
  payload : f.payload ≡ slice (topic_end buf + 4) n buf

decode-Accepted : (buf : List ℕ) (f : Frame) (n : ℕ) → decode buf ≡ ok (f, n) → Accepted buf f n
unfolding decode decode_body
decode-Accepted buf f n e = elim (Result-cases (from_u32 (from_le_bytes (slice 4 8 buf)))) [
  | inl (t, q) ↦ record {
    enough = ground arith;
    version = ground arith;
    kind = ground (arith, from_u32-inv (from_le_bytes (slice 4 8 buf)) t q);
    id = ground arith;
    seq = ground arith;
    has_topic = ground arith;
    total = ground arith;
    small = ground arith;
    fits = ground arith;
    topic = ground arith;
    payload = ground arith;
  }
  | inr (x, q) ↦ absurd (ground arith)
]

module _ (buf : List ℕ) (f : Frame) (n : ℕ) (h : AllBytes buf) (a : Accepted buf f n) where
  word :
      (w i j : ℕ)
      → i + w ≡ j
      → j ≤ length buf
      → (to_le_bytes w (from_le_bytes (slice i j buf)) ≡ slice i j buf)
        × (from_le_bytes (slice i j buf) < 256 ^ w)
  word w i j p q =
      let l : length (slice i j buf) ≡ w = length-slice i j buf (omega arith) q ∙ omega arith in
      let bs : AllBytes (slice i j buf) = AllBytes-slice i j buf h in
      (to_le_bytes-from_le_bytes_at w _ bs l, from_le_bytes-lt_at w _ bs l)

  Accepted-sizes :
      (length f.topic ≡ from_le_bytes (slice 24 28 buf))
      × (n ≡ 28 + length f.topic + 4 + length f.payload)
  Accepted-sizes =
      let t : length (slice 28 (topic_end buf) buf) ≡ topic_end buf - 28 =
        length-slice 28 (topic_end buf) buf (omega arith) (omega (arith, a)) in
      let p : length (slice (topic_end buf + 4) n buf) ≡ n - (topic_end buf + 4) =
        length-slice (topic_end buf + 4) n buf (omega (arith, a)) (omega (arith, a)) in
      (
        omega (arith, t, ap length a.topic),
        omega (arith, t, p, a, ap length a.topic, ap length a.payload),
      )

  Accepted-IsSendable : IsSendable f × (n ≡ encoded_len f)
  unfolding encoded_len
  Accepted-IsSendable = (
    record {
      id_fits = omega (arith, (word 8 8 16 refl (omega (arith, a))).1, a);
      seq_fits = omega (arith, (word 8 16 24 refl (omega (arith, a))).1, a);
      size_fits = omega (arith, Accepted-sizes, a);
    },
    omega (arith, Accepted-sizes),
  )

  -- What stands between two offsets is a given word.
  is_word :
      (w i j v : ℕ)
      → i + w ≡ j
      → j ≤ length buf
      → from_le_bytes (slice i j buf) ≡ v
      → slice i j buf ≡ to_le_bytes w v
  is_word w i j v p q e = sym (word w i j p q).0 ∙ ap (to_le_bytes w) e

  Accepted-split :
      slice 0 n buf
      ≡ slice 0 4 buf
        ++ (slice 4 8 buf
            ++ (slice 8 16 buf
                ++ (slice 16 24 buf
                    ++ (slice 24 28 buf
                        ++ (slice 28 (topic_end buf) buf
                            ++ (slice (topic_end buf) (topic_end buf + 4) buf
                                ++ slice (topic_end buf + 4) n buf))))))
  Accepted-split =
      join 0 4 (omega arith) (omega (arith, a))
      ∙ under _ (
          join 4 8 (omega arith) (omega (arith, a))
          ∙ under _ (
              join 8 16 (omega arith) (omega (arith, a))
              ∙ under _ (
                  join 16 24 (omega arith) (omega (arith, a))
                  ∙ under _ (
                      join 24 28 (omega arith) (omega (arith, a))
                      ∙ under _ (
                          join 28 (topic_end buf) (omega arith) (omega (arith, a))
                          ∙ under _ (
                              join (topic_end buf) (topic_end buf + 4) (omega arith)
                                (omega (arith, a))))))))
    where
      join : (i j : ℕ) → i ≤ j → j ≤ n → slice i n buf ≡ slice i j buf ++ slice j n buf
      join i j p q = sym (slice-append-slice i j n buf p q)

      under : {ys zs : List ℕ} (xs : List ℕ) → ys ≡ zs → xs ++ ys ≡ xs ++ zs
      under xs e = ap (λ t. xs ++ t) e

  Accepted-encode : slice 0 n buf ≡ encode f
  unfolding encode
  Accepted-encode =
      Accepted-split
      ∙ ap₂ ◌++◌ (is_word 4 0 4 1 refl (omega (arith, a)) a.version) (
          ap₂ ◌++◌ (is_word 4 4 8 _ refl (omega (arith, a)) a.kind) (
            ap₂ ◌++◌ (is_word 8 8 16 _ refl (omega (arith, a)) a.id) (
              ap₂ ◌++◌ (is_word 8 16 24 _ refl (omega (arith, a)) a.seq) (
                ap₂ ◌++◌
                  (is_word 4 24 28 _ refl (omega (arith, a)) (omega (arith, a, Accepted-sizes)))
                  (ap₂ ◌++◌ (sym a.topic) (
                    ap₂ ◌++◌
                      (is_word 4 (topic_end buf) (topic_end buf + 4) _ refl (omega (arith, a))
                        (omega (arith, a, Accepted-sizes)))
                      (sym a.payload)))))))

-- `decode` accepts nothing but encodings: on bytes, the part of the input that it consumes is what
-- `encode` writes for the frame that it returns, and that frame is one whose encoding is read back.
pub decode_sound :
    (buf : List ℕ) (f : Frame) (n : ℕ)
    → AllBytes buf
    → decode buf ≡ ok (f, n)
    → IsSendable f × (n ≡ encoded_len f) × (n ≤ length buf) × (slice 0 n buf ≡ encode f)
decode_sound buf f n h e =
    let a : Accepted buf f n = decode-Accepted buf f n e in
    let (s, l) = Accepted-IsSendable buf f n h a in
    (s, l, omega (arith, a), Accepted-encode buf f n h a)

-- An accepted frame lies within the input.
pub decode-le-length : (buf : List ℕ) (f : Frame) (n : ℕ) → decode buf ≡ ok (f, n) → n ≤ length buf
decode-le-length buf f n e = (decode-Accepted buf f n e).fits

-- A frame has a byte at least.
pub decode-positive : (buf : List ℕ) (f : Frame) (n : ℕ) → decode buf ≡ ok (f, n) → 0 < n
decode-positive buf f n e = let a : Accepted buf f n = decode-Accepted buf f n e in omega (arith, a)
