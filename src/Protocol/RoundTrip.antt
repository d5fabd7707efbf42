-- ===== src/Protocol/RoundTrip.antt =====
-- What a client encodes the broker decodes, and the other way round.
use message_driven_event_que.Prelude.{
  ℕ, sym, ◌∙◌, ap, append-nil, drop-drop, take-length, get_or-drop, ◌+◌, ◌*◌, ◌/◌, ◌%◌, ◌^◌, ◌<◌,
  ◌≡◌, refl, true, ◌++◌, [], ◌∷◌, arith, drop, take, length, append_assoc, length-append,
  take-append, drop-append, suc, get_or, ltb_of_le,
}
use message_driven_event_que.Prelude.Bits.{bit_or-disjoint, bit_and-255}
use message_driven_event_que.Message.{Bytes, MessageType, IsWire, subscribe}
use message_driven_event_que.Protocol.{
  frame_magic, header_size, put_header, put_len16, get_len16, decode_header, decode_publish,
  decode_subscribe, encode_frame, encode_subscribe_frame,
}
use message_driven_event_que.Protocol.Header.{
  decode_header-put_header, drop-put_header, length-put_header,
}

pub get_len16_lem : (hi lo : ℕ) → hi < 256 → lo < 256 → get_len16 hi lo ≡ hi * 256 + lo
unfolding get_len16
get_len16_lem hi lo hh hl = omega (arith, bit_or-disjoint 8 hi lo hl)

put_len16_lem : (n : ℕ) → n < 2 ^ 16 → put_len16 n ≡ n / 256 ∷ n % 256 ∷ []
unfolding put_len16
put_len16_lem n h = ground (arith, bit_and-255 n)

get_len16-split : (n : ℕ) → n < 2 ^ 16 → get_len16 (n / 256) (n % 256) ≡ n
get_len16-split n h = omega (arith, get_len16_lem (n / 256) (n % 256))

two-add : (n : ℕ) → 2 + n ≡ suc (suc n)
two-add n = omega arith

-- A length-prefixed string at the head of a payload.
module _ (s rest : Bytes) (h : length s < 2 ^ 16) where
  prefix_fields :
      (get_len16
          (get_or (put_len16 (length s) ++ (s ++ rest)) 0 0)
          (get_or (put_len16 (length s) ++ (s ++ rest)) 1 0)
        ≡ length s)
      × (drop 2 (put_len16 (length s) ++ (s ++ rest)) ≡ s ++ rest)
      × (drop (2 + length s) (put_len16 (length s) ++ (s ++ rest)) ≡ rest)
      × (length (put_len16 (length s) ++ (s ++ rest)) ≡ 2 + length s + length rest)
  prefix_fields = rw (put_len16_lem (length s) h) (
    get_len16-split (length s) h,
    refl,
    rw (two-add (length s)) (drop-append s rest),
    omega (arith, length-append s rest),
  )

pub decode_publish-put :
    (topic body : Bytes)
    → length topic < 2 ^ 16
    → decode_publish (put_len16 (length topic) ++ (topic ++ body))
      ≡ record { topic = topic; body = body }
unfolding decode_publish
decode_publish-put topic body h =
    let (len, rest, after, size) = prefix_fields topic body h in
    rw (
      len,
      rest,
      size,
      after,
      take-append topic body,
      ltb_of_le (2 + length topic + length body) 2 (omega arith),
      ltb_of_le (2 + length topic + length body) (2 + length topic) (omega arith),
    )

encode_frame-split :
    (t : MessageType) (id : ℕ) (topic body : Bytes)
    → length topic < 2 ^ 16
    → 2 + length topic + length body < 2 ^ 32
    → encode_frame t id topic body
      ≡ put_header t (2 + length topic + length body) id
        ++ (put_len16 (length topic) ++ (topic ++ body))
unfolding encode_frame
encode_frame-split t id topic body ht hb =
    let e : length topic % 2 ^ 16 ≡ length topic = omega arith in
    let e' : (2 + length topic + length body % 2 ^ 32) % 2 ^ 32 ≡ 2 + length topic + length body =
      omega arith in
    rw (e, e')

-- A frame whose topic fits its 16-bit length and whose payload fits its 32-bit length is read back
-- whole: header, payload length and payload, also where more bytes follow it.
pub decode_encode_frame :
    (t : MessageType) (id : ℕ) (topic body rest : Bytes)
    → IsWire t
    → id < 2 ^ 64
    → length topic < 2 ^ 16
    → 2 + length topic + length body < 2 ^ 32
    → (decode_header (encode_frame t id topic body ++ rest) ≡ record {
      magic = frame_magic;
      type = t;
      payload_len = 2 + length topic + length body;
      msg_id = id;
      valid = true;
    })
      × (length (encode_frame t id topic body) ≡ header_size + (2 + length topic + length body))
      × (decode_publish (drop header_size (encode_frame t id topic body))
          ≡ record { topic = topic; body = body })
decode_encode_frame t id topic body rest wire hid ht hb =
    let n : ℕ = 2 + length topic + length body in
    let payload = put_len16 (length topic) ++ (topic ++ body) in
    rw (encode_frame-split t id topic body ht hb) (
      rw (append_assoc (put_header t n id) payload rest)
          (decode_header-put_header t n id (payload ++ rest) wire hb hid),
      rw (length-append (put_header t n id) payload, length-put_header t n id)
          (ap (λ (k : ℕ). header_size + k) ((prefix_fields topic body ht).3)),
      rw (drop-put_header t n id payload) (decode_publish-put topic body ht),
    )

get_or-drop_self : (n : ℕ) (xs : Bytes) → get_or xs n 0 ≡ get_or (drop n xs) 0 0
get_or-drop_self n xs = let e : n + 0 ≡ n = omega arith in rw e at (get_or-drop n 0 xs 0)

-- A payload that holds two length-prefixed strings, given by what stands at its offsets.
decode_subscribe_of :
    (p q topic group : Bytes)
    → get_len16 (get_or p 0 0) (get_or p 1 0) ≡ length topic
    → take (length topic) (drop 2 p) ≡ topic
    → drop (2 + length topic) p ≡ q
    → get_len16 (get_or q 0 0) (get_or q 1 0) ≡ length group
    → drop 2 q ≡ group
    → length p ≡ 2 + length topic + 2 + length group
    → decode_subscribe p ≡ record { topic = topic; group = group }
unfolding decode_subscribe
decode_subscribe_of p q topic group len tops rest glen gops size =
    let at_0 = rw rest at (get_or-drop_self (2 + length topic) p) in
    let at_1 = rw rest at (get_or-drop (2 + length topic) 1 p 0) in
    let at_2 : drop (2 + length topic + 2) p ≡ group =
      sym (drop-drop (2 + length topic) 2 p) ∙ ap (drop 2) rest ∙ gops in
    rw (
      len,
      tops,
      at_0,
      at_1,
      glen,
      at_2,
      size,
      take-length group,
      ltb_of_le (2 + length topic + 2 + length group) 2 (omega arith),
      ltb_of_le (2 + length topic + 2 + length group) (2 + length topic + 2) (omega arith),
      ltb_of_le (2 + length topic + 2 + length group) (2 + length topic + 2 + length group)
          (omega arith),
    )

decode_subscribe-put :
    (topic group : Bytes)
    → length topic < 2 ^ 16
    → length group < 2 ^ 16
    → decode_subscribe (put_len16 (length topic) ++ (topic ++ (put_len16 (length group) ++ group)))
      ≡ record { topic = topic; group = group }
decode_subscribe-put topic group ht hg =
    let tail = put_len16 (length group) ++ group in
    let (len, ops, after, size) = prefix_fields topic tail ht in
    let (glen, gops, gafter, gsize) = prefix_fields group [] hg in
    let close = append-nil group in
    let gsize' = rw close at gsize in
    let total : length (put_len16 (length topic) ++ (topic ++ tail))
        ≡ 2 + length topic + 2 + length group =
      omega (arith, size, gsize') in
    decode_subscribe_of _ tail topic group len (rw ops (take-append topic tail)) after
      (rw close at glen) (rw close at gops) total

-- A SUBSCRIBE frame is read back whole, when topic and group fit their 16-bit lengths.
pub decode_encode_subscribe :
    (topic group : Bytes) (id : ℕ)
    → id < 2 ^ 64
    → length topic < 2 ^ 16
    → length group < 2 ^ 16
    → (decode_header (encode_subscribe_frame topic group id) ≡ record {
      magic = frame_magic;
      type = subscribe;
      payload_len = 2 + length topic + 2 + length group;
      msg_id = id;
      valid = true;
    })
      × (decode_subscribe (drop header_size (encode_subscribe_frame topic group id))
          ≡ record { topic = topic; group = group })
unfolding encode_subscribe_frame
decode_encode_subscribe topic group id hid ht hg =
    let n : ℕ = 2 + length topic + 2 + length group in
    let payload = put_len16 (length topic) ++ (topic ++ (put_len16 (length group) ++ group)) in
    let et : length topic % 2 ^ 16 ≡ length topic = omega arith in
    let eg : length group % 2 ^ 16 ≡ length group = omega arith in
    let en : n % 2 ^ 32 ≡ n = omega arith in
    rw (et, eg, en)
      (
        decode_header-put_header subscribe n id payload tt (omega arith) hid,
        rw (drop-put_header subscribe n id payload) (decode_subscribe-put topic group ht hg),
      )
