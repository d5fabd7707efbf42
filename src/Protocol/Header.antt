-- ===== src/Protocol/Header.antt =====
-- The 17-byte header: what `decode_header` reads of what the encoders wrote.
use message_driven_event_que.Prelude.{
  ℕ, ◌^◌, ◌<◌, ◌≡◌, refl, true, ◌++◌, [], arith, drop, length, append-nil,
}
use message_driven_event_que.Message.{Bytes, MessageType, IsWire, of_byte-to_byte}
use message_driven_event_que.Protocol.{
  frame_magic, header_size, memory, put_header, decode_header, encode_ack_frame,
}
use message_driven_event_que.Protocol.Endian.{to_be32-word, to_be64-word}

pub drop-put_header :
    (t : MessageType) (n id : ℕ) (rest : Bytes)
    → drop header_size (put_header t n id ++ rest) ≡ rest
unfolding put_header memory
drop-put_header t n id rest = refl

pub length-put_header : (t : MessageType) (n id : ℕ) → length (put_header t n id) ≡ header_size
unfolding put_header memory
length-put_header t n id = refl

pub decode_header-put_header :
    (t : MessageType) (n id : ℕ) (rest : Bytes)
    → IsWire t
    → n < 2 ^ 32
    → id < 2 ^ 64
    → decode_header (put_header t n id ++ rest)
      ≡ record { magic = frame_magic; type = t; payload_len = n; msg_id = id; valid = true }
unfolding decode_header put_header memory
decode_header-put_header t n id rest ht hn hid = rw (
  of_byte-to_byte t ht,
  to_be32-word n hn,
  to_be64-word id hid,
  to_be32-word frame_magic (omega arith),
)

-- An ACK, NACK or heartbeat frame is a header alone, and is read back as it was written.
pub decode_header-encode_ack_frame :
    (t : MessageType) (id : ℕ)
    → IsWire t
    → id < 2 ^ 64
    → (length (encode_ack_frame t id) ≡ header_size)
      × (decode_header (encode_ack_frame t id)
          ≡ record { magic = frame_magic; type = t; payload_len = 0; msg_id = id; valid = true })
unfolding encode_ack_frame
decode_header-encode_ack_frame t id ht hid = (
  length-put_header t 0 id,
  rw append-nil at (decode_header-put_header t 0 id [] ht (omega arith) hid),
)
