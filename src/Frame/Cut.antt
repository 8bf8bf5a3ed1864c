-- ===== src/Frame/Cut.antt =====
-- `decode` on a frame of which only a part has arrived.
use mmbus.Prelude.{
  ℕ, ◌+◌, ◌≤◌, ◌<◌, ◌≡◌, sym, ap, refl, ◌∙◌, List, [], append-nil, ◌++◌, length, ok, err, arith,
  length-append, Result, true, inl, inr, Bool-cases, dec_lt,
}
use mmbus.Frame.{Frame, DecodeError, incomplete, encode, encoded_len, decode}
use mmbus.Frame.RoundTrip.{IsSendable, decode-encode, length-encode}
use mmbus.Frame.Stream.{is_incomplete, decode-append, decode_needed, decode_waits}
use mmbus.Frame.Sound.{decode-le-length}

is_incomplete-inv :
    (r : Result DecodeError (Frame × ℕ))
    → is_incomplete r ≡ true
    → (h : ℕ) × (m : ℕ) × (r ≡ err (incomplete h m))
is_incomplete-inv (ok a) e = cc
is_incomplete-inv (err (incomplete h m)) e = (h, m, refl)
is_incomplete-inv (err _) e = cc

module _ (f : Frame) (front back : List ℕ) (v : IsSendable f)
    (split : encode f ≡ front ++ back) where
  whole : decode (front ++ back) ≡ ok (f, encoded_len f)
  whole = rw (append-nil, split) at (decode-encode f [] v)

  sizes : length front + length back ≡ encoded_len f
  sizes = sym (length-append front back) ∙ ap length (sym split) ∙ length-encode f

  bound :
      (m : ℕ)
      → (length (front ++ back) < m
          → decode (front ++ back) ≡ err (incomplete (length (front ++ back)) m))
      → m ≤ encoded_len f
  bound m stays = elim (dec_lt (length (front ++ back)) m) [
    | yes short ↦ cc (whole, stays short)
    | no h ↦ omega (arith, sizes, length-append front back)
  ]

  -- A proper prefix of an encoding is `Incomplete`, and the number of bytes that it asks for is
  -- more than has arrived and no more than the encoding has.
  pub decode_cut :
      0 < length back
      → (m : ℕ) × (decode front ≡ err (incomplete (length front) m))
        × (length front < m)
        × (m ≤ encoded_len f)
  decode_cut pos = elim (Bool-cases (is_incomplete (decode front))) [
    | inl more ↦
        let (h, m, e) = is_incomplete-inv (decode front) more in
        let (have, needed) = decode_needed front back h m e in
        (
          m,
          e ∙ ap (λ k. err (incomplete k m)) have,
          needed,
          bound m (decode_waits front back h m e),
        )
    | inr final ↦ absurd (
        omega (
          arith,
          decode-le-length front f (encoded_len f) (sym (decode-append front back final) ∙ whole),
          sizes,
        ))
  ]
