-- ===== src/Frame/Runs.antt =====
-- Runs of the frame codec: each theorem at one frame, and what the codec gives there.
use mmbus.Prelude.{
  ℕ, ap, ◌+◌, ◌%◌, ◌^◌, ◌≤◌, ◌<◌, ◌≡◌, refl, List, [], ◌∷◌, ◌++◌, length, slice, take, ok, err,
  false, arith,
}
use mmbus.Prelude.Bytes.{AllBytes}
use mmbus.Frame.{
  Frame, msg, encode, encoded_len, decode, incomplete, peer_hello_with_psk, parse_peer_hello,
}
use mmbus.Frame.RoundTrip.{IsSendable, decode-encode}
use mmbus.Frame.Sound.{decode_sound}
use mmbus.Frame.Hello.{parse_peer_hello-peer_hello_with_psk}

-- A message with a topic of two bytes and a payload of three.
abbrev hello : Frame
hello = record {
  frame_type = msg;
  origin_id = 300;
  origin_seq = 7;
  topic = 0x61 ∷ (0x62 ∷ []);
  payload = 1 ∷ (2 ∷ (255 ∷ []));
}

abbrev hello_bytes : List ℕ
hello_bytes =
    1
    ∷ (0
        ∷ (0
            ∷ (0
                ∷ (0
                    ∷ (0
                        ∷ (0
                            ∷ (0
                                ∷ (44
                                    ∷ (1
                                        ∷ (0
                                            ∷ (0
                                                ∷ (0
                                                    ∷ (0
                                                        ∷ (0
                                                            ∷ (0
                                                            ∷ (7
                                                            ∷ (0
                                                            ∷ (0
                                                            ∷ (0
                                                            ∷ (0
                                                            ∷ (0
                                                            ∷ (0
                                                            ∷ (0
                                                            ∷ (2
                                                            ∷ (0
                                                            ∷ (0
                                                            ∷ (0
                                                            ∷ (0x61
                                                            ∷ (0x62
                                                            ∷ (3
                                                            ∷ (0
                                                            ∷ (0
                                                            ∷ (0
                                                            ∷ (1
                                                            ∷ (2
                                                            ∷ (255
                                                            ∷ []))))))))))))))))))))))))))))))))))))

abbrev short_key : List ℕ
short_key = 1 ∷ (2 ∷ [])

hello-IsSendable : IsSendable hello
unfolding encoded_len
hello-IsSendable = record { id_fits = omega arith; seq_fits = omega arith; size_fits = omega arith }

encode-hello : encode hello ≡ hello_bytes
unfolding encode mmbus.Prelude.Bytes.to_le_bytes
encode-hello = refl

hello-AllBytes : AllBytes hello_bytes
hello-AllBytes = ground arith

decode-hello : decode hello_bytes ≡ ok (hello, 37)
unfolding decode mmbus.Frame.decode_body mmbus.Frame.from_u32 mmbus.Prelude.Bytes.from_le_bytes
decode-hello = refl

decode_part : decode (take 30 hello_bytes) ≡ err (incomplete 30 34)
unfolding decode mmbus.Frame.decode_body mmbus.Frame.from_u32 mmbus.Prelude.Bytes.from_le_bytes
decode_part = refl

decode-encode_example : decode (encode hello ++ (9 ∷ [])) ≡ ok (hello, encoded_len hello)
decode-encode_example = decode-encode hello (9 ∷ []) hello-IsSendable

decode_sound_example :
    IsSendable hello
    × (37 ≡ encoded_len hello)
    × (37 ≤ length hello_bytes)
    × (slice 0 37 hello_bytes ≡ encode hello)
decode_sound_example = decode_sound hello_bytes hello 37 hello-AllBytes decode-hello

parse_peer_hello-peer_hello_with_psk_example :
    parse_peer_hello (peer_hello_with_psk 5 (1 ∷ (2 ∷ []))).payload
    ≡ ok (record { origin_id = 5; psk = take (length short_key % 2 ^ 16) short_key })
parse_peer_hello-peer_hello_with_psk_example =
    parse_peer_hello-peer_hello_with_psk 5 short_key (omega arith)
