-- ===== src/Protocol/Tests.antt =====
-- The theorems on the protocol at concrete inputs.
use message_driven_event_que.Prelude.{
  ℕ, zero, suc, ◌+◌, ◌*◌, ◌/◌, ◌%◌, ◌^◌, ◌≤◌, ◌≡◌, refl, ap, true, [], ◌∷◌, ◌++◌, length, drop,
  arith,
}
use message_driven_event_que.Message.{Bytes, publish, event_data}
use message_driven_event_que.Protocol.{
  encode_frame, decode_header, decode_publish, frame_magic, header_size,
}
use message_driven_event_que.Protocol.RoundTrip.{decode_encode_frame}
use message_driven_event_que.Protocol.Decoding.{Reads, decode_publish-Reads, encode_frame_overlong}

abbrev a_topic : Bytes
a_topic = 97 ∷ 46 ∷ 98 ∷ []

abbrev a_body : Bytes
a_body = 123 ∷ 125 ∷ []

decode_encode_frame_example :
    (decode_header (encode_frame event_data 9 a_topic a_body ++ 1 ∷ 2 ∷ []) ≡ record {
      magic = frame_magic;
      type = event_data;
      payload_len = 7;
      msg_id = 9;
      valid = true;
    })
    × (length (encode_frame event_data 9 a_topic a_body) ≡ 24)
    × (decode_publish (drop header_size (encode_frame event_data 9 a_topic a_body))
        ≡ record { topic = a_topic; body = a_body })
decode_encode_frame_example =
    decode_encode_frame event_data 9 a_topic a_body (1 ∷ 2 ∷ []) tt (omega arith) (omega arith)
      (omega arith)

decode_publish-Reads_example : Reads (0 ∷ 1 ∷ 97 ∷ 5 ∷ []) (decode_publish (0 ∷ 1 ∷ 97 ∷ 5 ∷ []))
decode_publish-Reads_example = decode_publish-Reads (0 ∷ 1 ∷ 97 ∷ 5 ∷ []) (omega arith)

-- A topic of `n` letters.
letters : ℕ → Bytes
letters zero = []
letters (suc n) = 97 ∷ letters n

length-letters : (n : ℕ) → length (letters n) ≡ n
unfolding letters
length-letters zero = refl
length-letters (suc n) = ap suc (length-letters n)

encode_frame_overlong_example :
    let frame = encode_frame publish 1 (letters 65536) [] in
    let said = (decode_header (frame ++ [])).payload_len in
    (said ≡ 2 + length (letters 65536) % 2 ^ 16 + 0)
    × (header_size + said + length (letters 65536) / 2 ^ 16 * 2 ^ 16 ≡ length frame)
    × (header_size + said + 2 ^ 16 ≤ length frame)
encode_frame_overlong_example =
    encode_frame_overlong publish 1 (letters 65536) [] [] tt (omega arith)
      (omega (arith, length-letters 65536)) (omega (arith, length-letters 65536))
