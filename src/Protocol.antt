-- ===== src/Protocol.antt =====
-- broker/include/Protocol.hpp: the binary frames between the broker and its clients. The proofs
-- are in the modules below. The host is little-endian, as the byte swaps of the source suppose.
pub mod Endian
pub mod Header
pub mod RoundTrip
pub mod Decoding
mod Tests
use Prim.Native.Nat.{bit_and, bit_or}
use message_driven_event_que.Prelude.{
  ℕ, zero, suc, ◌+◌, ◌*◌, ◌/◌, ◌%◌, ◌^◌, Bool, List, [], ◌∷◌, ◌++◌, ◌==◌, nat_eq, ltb,
  if◌then◌else◌, length, get_or, take, drop,
}
use message_driven_event_que.Message.{Bytes, MessageType, subscribe, to_byte, of_byte}

abbrev pub frame_magic : ℕ
frame_magic = 0xDEADBEEF

abbrev pub header_size : ℕ
header_size = 17

pub record ParsedPublish : Type 0 where
  pub topic : Bytes
  pub body : Bytes

pub record ParsedSubscribe : Type 0 where
  pub topic : Bytes
  pub group : Bytes

pub record ParsedHeader : Type 0 where
  pub magic : ℕ
  pub type : MessageType
  pub payload_len : ℕ
  pub msg_id : ℕ
  pub valid : Bool

-- Shifts of 32-bit and 64-bit unsigned words.
abbrev pub shr : ℕ → ℕ → ℕ
shr v k = v / 2 ^ k

abbrev pub shl32 : ℕ → ℕ → ℕ
shl32 v k = v * 2 ^ k % 2 ^ 32

abbrev pub shl64 : ℕ → ℕ → ℕ
shl64 v k = v * 2 ^ k % 2 ^ 64

unfoldable pub to_be32 : ℕ → ℕ
to_be32 v =
    bit_or
      (bit_or (bit_or (shr (bit_and v 0xFF000000) 24) (shr (bit_and v 0x00FF0000) 8))
        (shl32 (bit_and v 0x0000FF00) 8))
      (shl32 (bit_and v 0x000000FF) 24)

unfoldable pub to_be64 : ℕ → ℕ
to_be64 v = bit_or (shl64 (to_be32 (v % 2 ^ 32)) 32) (to_be32 (shr v 32 % 2 ^ 32))

abbrev pub from_be32 : ℕ → ℕ
from_be32 = to_be32

abbrev pub from_be64 : ℕ → ℕ
from_be64 = to_be64

-- The bytes of a word in the memory of a little-endian host (`reinterpret_cast<uint8_t*>`), and
-- the word that a run of bytes stands for (`memcpy`).
unfoldable pub memory : ℕ → ℕ → Bytes
memory zero v = []
memory (suc n) v = v % 256 ∷ memory n (v / 256)

unfoldable pub word : Bytes → ℕ
word [] = 0
word (b ∷ bs) = b + 256 * word bs

-- The first 17 bytes: magic, type, payload length, message id. The three encoders of the source
-- write them by the same statements.
unfoldable pub put_header : MessageType → ℕ → ℕ → Bytes
put_header type payload_len msg_id =
    memory 4 (to_be32 frame_magic)
    ++ (to_byte type ∷ [] ++ (memory 4 (to_be32 payload_len) ++ memory 8 (to_be64 msg_id)))

-- The two bytes of a length: `static_cast<uint8_t>(n >> 8)` and `static_cast<uint8_t>(n & 0xFF)`.
unfoldable pub put_len16 : ℕ → Bytes
put_len16 n = shr n 8 % 256 ∷ bit_and n 0xFF % 256 ∷ []

unfoldable pub encode_frame : MessageType → ℕ → Bytes → Bytes → Bytes
encode_frame type msg_id topic body =
    let topic_len = length topic % 2 ^ 16 in
    let payload_len = (2 + topic_len + length body % 2 ^ 32) % 2 ^ 32 in
    put_header type payload_len msg_id ++ (put_len16 topic_len ++ (topic ++ body))

unfoldable pub encode_subscribe_frame : Bytes → Bytes → ℕ → Bytes
encode_subscribe_frame topic group msg_id =
    let topic_len = length topic % 2 ^ 16 in
    let group_len = length group % 2 ^ 16 in
    let payload_len = (2 + topic_len + 2 + group_len) % 2 ^ 32 in
    put_header subscribe payload_len msg_id
    ++ (put_len16 topic_len ++ (topic ++ (put_len16 group_len ++ group)))

unfoldable pub encode_ack_frame : MessageType → ℕ → Bytes
encode_ack_frame type msg_id = put_header type 0 msg_id

-- The caller has 17 bytes at `bytes` at least.
unfoldable pub decode_header : Bytes → ParsedHeader
decode_header bytes =
    let magic = from_be32 (word (take 4 bytes)) in
    record {
      magic = magic;
      type = of_byte (get_or bytes 4 0);
      payload_len = from_be32 (word (take 4 (drop 5 bytes)));
      msg_id = from_be64 (word (take 8 (drop 9 bytes)));
      valid = magic == frame_magic;
    }

-- `(static_cast<uint16_t>(hi) << 8) | lo`, stored in a `uint16_t`.
unfoldable pub get_len16 : ℕ → ℕ → ℕ
get_len16 hi lo = bit_or (hi * 2 ^ 8) lo % 2 ^ 16

unfoldable pub decode_publish : Bytes → ParsedPublish
decode_publish payload =
    let nothing : ParsedPublish = record { topic = []; body = [] } in
    let topic_len = get_len16 (get_or payload 0 0) (get_or payload 1 0) in
    if ltb (length payload) 2
    then nothing
    else if ltb (length payload) (2 + topic_len)
    then nothing
    else record { topic = take topic_len (drop 2 payload); body = drop (2 + topic_len) payload }

unfoldable pub decode_subscribe : Bytes → ParsedSubscribe
decode_subscribe payload =
    let nothing : ParsedSubscribe = record { topic = []; group = [] } in
    let topic_len = get_len16 (get_or payload 0 0) (get_or payload 1 0) in
    let g_offset = 2 + topic_len in
    let group_len = get_len16 (get_or payload g_offset 0) (get_or payload (g_offset + 1) 0) in
    if ltb (length payload) 2
    then nothing
    else if ltb (length payload) (2 + topic_len + 2)
    then nothing
    else record {
      topic = take topic_len (drop 2 payload);
      group =
          if ltb (length payload) (g_offset + 2 + group_len)
          then []
          else take group_len (drop (g_offset + 2) payload);
    }
