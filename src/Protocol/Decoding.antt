-- ===== src/Protocol/Decoding.antt =====
-- What a decoded payload says of the bytes that came in, valid or not.
use message_driven_event_que.Prelude.{
  ℕ, suc, ◌+◌, ◌*◌, ◌/◌, ◌%◌, ◌^◌, ◌<◌, ◌≤◌, ◌≡◌, refl, ◌⊎◌, inl, inr, ◌++◌, [], ◌∷◌, arith, drop,
  take, length, All, take-append-drop, length-take, append_assoc, length-append, ltb, Bool-cases,
  ltb_of_le,
}
use message_driven_event_que.Message.{Bytes, IsByte, MessageType, IsWire}
use message_driven_event_que.Protocol.{
  ParsedPublish, get_len16, decode_publish, encode_frame, decode_header, header_size, put_header,
  put_len16,
}
use message_driven_event_que.Protocol.Header.{decode_header-put_header, length-put_header}
use message_driven_event_que.Protocol.RoundTrip.{get_len16_lem}

-- Nothing was read, or the payload is the two bytes of the topic's length, the topic and the body.
abbrev pub Reads : Bytes → ParsedPublish → Type 0
Reads payload p =
    ((p.topic ≡ []) × (p.body ≡ []))
    ⊎ (payload ≡ length p.topic / 256 ∷ length p.topic % 256 ∷ (p.topic ++ p.body))

length-take_le : (n : ℕ) (xs : Bytes) → n ≤ length xs → length (take n xs) ≡ n
length-take_le n xs h = omega (arith, length-take n xs)

-- A topic length that the payload holds.
split_payload :
    (a b n : ℕ) (rest : Bytes)
    → a < 256
    → b < 256
    → n ≡ a * 256 + b
    → n ≤ length rest
    → (a ∷ b ∷ rest)
      ≡ length (take n rest) / 256 ∷ length (take n rest) % 256 ∷ (take n rest ++ drop n rest)
split_payload a b n rest ha hb e h =
    let hi : n / 256 ≡ a = omega arith in
    let lo : n % 256 ≡ b = omega arith in
    rw (length-take_le n rest h, take-append-drop n rest, hi, lo)

read_long :
    (a b n : ℕ) (rest : Bytes)
    → a < 256
    → b < 256
    → get_len16 a b ≡ n
    → n ≡ a * 256 + b
    → Reads (a ∷ b ∷ rest) (decode_publish (a ∷ b ∷ rest))
unfolding decode_publish
read_long a b n rest ha hb e v = elim (Bool-cases (ltb (suc (suc (length rest))) (2 + n))) [
  | inl short ↦
      rw (e, short, ltb_of_le (suc (suc (length rest))) 2 (omega arith)) (inl (refl, refl))
  | inr fits ↦
      let two : 2 + n ≡ suc (suc n) = omega arith in
      rw (e, fits, ltb_of_le (suc (suc (length rest))) 2 (omega arith), two)
        (inr (split_payload a b n rest ha hb v (ground arith)))
]

-- The bytes of a payload that names a topic are its length, the topic and the body, and nothing
-- else; any other payload of bytes is read as nothing, which the broker drops.
pub decode_publish-Reads :
    (payload : Bytes) → All IsByte payload → Reads payload (decode_publish payload)
unfolding decode_publish
decode_publish-Reads [] h = inl (refl, refl)
decode_publish-Reads (a ∷ []) h = inl (refl, refl)
decode_publish-Reads (a ∷ b ∷ rest) h =
    read_long a b (get_len16 a b) rest h.0 h.1.0 refl (get_len16_lem a b h.0 h.1.0)

-- A topic of 64 KiB or more: the header gives as the length of the payload 2, the topic's length modulo
-- 65536 and the body's length together, while all bytes of the topic are written; so the frame is
-- longer than its header says by the topic's length less that remainder, which is 65536 at least.
pub encode_frame_overlong :
    (t : MessageType) (id : ℕ) (topic body rest : Bytes)
    → IsWire t
    → id < 2 ^ 64
    → 2 ^ 16 ≤ length topic
    → length topic + length body < 2 ^ 31
    → let frame = encode_frame t id topic body in
      let said = (decode_header (frame ++ rest)).payload_len in
      (said ≡ 2 + length topic % 2 ^ 16 + length body)
      × (header_size + said + length topic / 2 ^ 16 * 2 ^ 16 ≡ length frame)
      × (header_size + said + 2 ^ 16 ≤ length frame)
unfolding encode_frame
encode_frame_overlong t id topic body rest wire hid ht hb =
    let n : ℕ = (2 + length topic % 2 ^ 16 + length body % 2 ^ 32) % 2 ^ 32 in
    let payload = put_len16 (length topic % 2 ^ 16) ++ (topic ++ body) in
    let two : length (put_len16 (length topic % 2 ^ 16)) ≡ 2 = unfold put_len16 in refl in
    rw
      (
        append_assoc (put_header t n id) payload rest,
        decode_header-put_header t n id (payload ++ rest) wire (omega arith) hid,
        length-append (put_header t n id) payload,
        length-put_header t n id,
        length-append (put_len16 (length topic % 2 ^ 16)) (topic ++ body),
        two,
        length-append topic body,
      )
      (omega arith, omega arith, omega arith)
