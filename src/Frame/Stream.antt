-- ===== src/Frame/Stream.antt =====
-- `decode` on a stream that arrives in pieces, and on bytes that no `encode` wrote.
use mmbus.Prelude.{
  ℕ, ◌+◌, ◌≤◌, ◌<◌, ◌≡◌, ◌≢◌, List, ◌++◌, length, slice, err, arith, length-append,
  slice-append_left, Result, Result-cases, dec_lt, Bool, true, false, inl, inr,
}
use mmbus.Prelude.Bytes.{from_le_bytes}
use mmbus.Frame.{Frame, FrameType, DecodeError, incomplete, decode, decode_body, from_u32}

-- An answer that more bytes can change.
abbrev pub is_incomplete : Result DecodeError (Frame × ℕ) → Bool
is_incomplete (err (incomplete h m)) = true
is_incomplete _ = false

from_u32-ne-incomplete : (n h m : ℕ) → from_u32 n ≢ err (incomplete h m)
unfolding from_u32
from_u32-ne-incomplete n h m e = ground arith

module _ (buf more : List ℕ) where
  decode_body-append :
      (t : FrameType)
      → 28 ≤ length buf
      → is_incomplete (decode_body buf t) ≡ false
      → decode_body (buf ++ more) t ≡ decode_body buf t
  unfolding decode_body
  decode_body-append t h k = ground (
    arith,
    length-append buf more,
    slice-append_left 8 16 buf more,
    slice-append_left 16 24 buf more,
    slice-append_left 24 28 buf more,
    slice-append_left 28 after_topic buf more,
    slice-append_left after_topic (after_topic + 4) buf more,
    slice-append_left (after_topic + 4) (after_topic + 4 + payload_len) buf more,
  )
    where
      after_topic : ℕ
      after_topic = 28 + from_le_bytes (slice 24 28 buf)

      payload_len : ℕ
      payload_len = from_le_bytes (slice after_topic (after_topic + 4) buf)

  -- Every answer but `Incomplete` is final: bytes that follow do not change it.
  pub decode-append : is_incomplete (decode buf) ≡ false → decode (buf ++ more) ≡ decode buf
  unfolding decode
  decode-append k = elim (Result-cases (from_u32 (from_le_bytes (slice 4 8 buf)))) [
    | inl (t, e) ↦ ground (
      arith,
      length-append buf more,
      slice-append_left 0 4 buf more,
      slice-append_left 4 8 buf more,
      decode_body-append t,
    )
    | inr (x, e) ↦ ground (
      arith,
      length-append buf more,
      slice-append_left 0 4 buf more,
      slice-append_left 4 8 buf more,
    )
  ]

  decode_body_needed :
      (t : FrameType) (h m : ℕ)
      → 28 ≤ length buf
      → decode_body buf t ≡ err (incomplete h m)
      → (h ≡ length buf)
        × (length buf < m)
        × (length (buf ++ more) < m
            → decode_body (buf ++ more) t ≡ err (incomplete (length (buf ++ more)) m))
  unfolding decode_body
  decode_body_needed t h m l k = (
    ground arith,
    ground arith,
    λ short. ground (
      arith,
      length-append buf more,
      slice-append_left 24 28 buf more,
      slice-append_left after_topic (after_topic + 4) buf more,
    ),
  )
    where
      after_topic : ℕ
      after_topic = 28 + from_le_bytes (slice 24 28 buf)

  needed_and_stays :
      (h m : ℕ)
      → decode buf ≡ err (incomplete h m)
      → (h ≡ length buf)
        × (length buf < m)
        × (length (buf ++ more) < m
            → decode (buf ++ more) ≡ err (incomplete (length (buf ++ more)) m))
  unfolding decode
  needed_and_stays h m k = elim (dec_lt (length buf) 28) [
    | yes few ↦ (ground arith, ground arith, λ short. ground (arith, length-append buf more))
    | no enough ↦ elim (Result-cases (from_u32 (from_le_bytes (slice 4 8 buf)))) [
      | inl (t, e) ↦ (
        ground (arith, decode_body_needed t h m),
        ground (arith, decode_body_needed t h m),
        λ short. ground (
          arith,
          decode_body_needed t h m,
          length-append buf more,
          slice-append_left 0 4 buf more,
          slice-append_left 4 8 buf more,
        ),
      )
      | inr (x, e) ↦
          absurd (ground (arith, from_u32-ne-incomplete (from_le_bytes (slice 4 8 buf)) h m))
    ]
  ]

  -- `Incomplete` reports the bytes at hand and a larger number needed.
  pub decode_needed :
      (h m : ℕ) → decode buf ≡ err (incomplete h m) → (h ≡ length buf) × (length buf < m)
  decode_needed h m k =
      let (have, more_needed, stays) = needed_and_stays h m k in (have, more_needed)

  -- No more than that number is asked for: while fewer bytes than `Incomplete` says are needed have
  -- arrived, the answer stays `Incomplete` with the same number.
  pub decode_waits :
      (h m : ℕ)
      → decode buf ≡ err (incomplete h m)
      → length (buf ++ more) < m
      → decode (buf ++ more) ≡ err (incomplete (length (buf ++ more)) m)
  decode_waits h m k short = let (have, more_needed, stays) = needed_and_stays h m k in stays short
