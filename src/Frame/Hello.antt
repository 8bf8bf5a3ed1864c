-- ===== src/Frame/Hello.antt =====
-- The payload of a `PeerHello` frame, written by `peer_hello_with_psk` and read by
-- `parse_peer_hello`.
use mmbus.Prelude.{
  ℕ, ◌+◌, ◌<◌, ◌≡◌, ◌%◌, ◌^◌, ap, refl, ◌∙◌, List, ◌++◌, length, take, slice, ok, arith,
  length-append, slice-append, slice-skip, slice-skip_at,
}
use mmbus.Prelude.Bytes.{to_le_bytes, length-to_le_bytes, from_le_bytes-to_le_bytes}
use mmbus.Frame.{peer_hello_with_psk, parse_peer_hello}

-- The receiver of a handshake reads the sender's id, and of the key its first `len % 65536` bytes:
-- the whole key exactly if it has fewer than 65536 bytes.
pub parse_peer_hello-peer_hello_with_psk :
    (id : ℕ) (psk : List ℕ)
    → id < 2 ^ 64
    → parse_peer_hello (peer_hello_with_psk id psk).payload
      ≡ ok (record { origin_id = id; psk = take (length psk % 2 ^ 16) psk })
unfolding parse_peer_hello peer_hello_with_psk
parse_peer_hello-peer_hello_with_psk id psk h = ground (
  arith,
  len,
  slice-append 8 idb rest lid,
  lenat,
  slice-psk,
  from_le_bytes-to_le_bytes 8 id,
  from_le_bytes-to_le_bytes 2 n,
)
  where
    n : ℕ
    n = length psk % 2 ^ 16

    idb : List ℕ
    idb = to_le_bytes 8 id

    nb : List ℕ
    nb = to_le_bytes 2 n

    rest : List ℕ
    rest = nb ++ psk

    lid : length idb ≡ 8
    lid = length-to_le_bytes 8 id

    lnb : length nb ≡ 2
    lnb = length-to_le_bytes 2 n

    len : length (idb ++ rest) ≡ 10 + length psk
    len = omega (arith, length-append idb rest, length-append nb psk, lid, lnb)

    lenat : slice 8 10 (idb ++ rest) ≡ nb
    lenat = slice-skip 8 0 2 idb rest lid ∙ slice-append 2 nb psk lnb

    slice-psk : slice 10 (10 + n) (idb ++ rest) ≡ take n psk
    slice-psk =
        slice-skip_at 10 (10 + n) 8 2 (2 + n) idb rest lid refl (omega arith)
        ∙ slice-skip_at 2 (2 + n) 2 0 n nb psk lnb refl refl
        ∙ ap (λ k. take k psk) (omega arith)
