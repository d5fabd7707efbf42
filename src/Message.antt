-- ===== src/Message.antt =====
-- broker/include/Message.hpp: the message that flows through the broker, and the frame types.
-- A byte is a number below 256, a `std::string` and a `std::vector<uint8_t>` are lists of bytes.
use message_driven_event_que.Prelude.{
  ℕ, ◌≤◌, ◌<◌, ◌≡◌, refl, ◌⊎◌, List, arith, ◌==◌, nat_eq, if◌then◌else◌,
}
use message_driven_event_que.Prelude.Int.{ℤ}

abbrev pub Bytes : Type 0
Bytes = List ℕ

abbrev pub IsByte : ℕ → Type 0
IsByte b = b < 256

-- `intptr_t`: the descriptor of the client's socket.
abbrev pub ClientId : Type 0
ClientId = ℤ

-- `enum class MessageType : uint8_t`; `other` is a byte that names no enumerator.
pub data MessageType : Type 0 where
  publish subscribe ack nack heartbeat event_data error_resp : MessageType
  other : ℕ → MessageType

-- `static_cast<uint8_t>(type)`
unfoldable pub to_byte : MessageType → ℕ
to_byte publish = 0x01
to_byte subscribe = 0x02
to_byte ack = 0x03
to_byte nack = 0x04
to_byte heartbeat = 0x05
to_byte event_data = 0x06
to_byte error_resp = 0x07
to_byte (other b) = b

-- `static_cast<MessageType>(byte)`
unfoldable pub of_byte : ℕ → MessageType
of_byte b =
    if b == 0x01
    then publish
    else if b == 0x02
    then subscribe
    else if b == 0x03
    then ack
    else if b == 0x04
    then nack
    else if b == 0x05
    then heartbeat
    else if b == 0x06
    then event_data
    else if b == 0x07
    then error_resp
    else other b

-- `retry_count` starts at 0 and is only ever incremented, so it is a count.
pub record Message : Type 0 where
  pub msg_id : ℕ
  pub topic : Bytes
  pub body : Bytes
  pub retry_count : ℕ

-- A value of the enumeration that a byte stands for: `other` holds no named code.
abbrev pub IsWire : MessageType → Type 0
IsWire (other b) = (b < 256) × ((b ≡ 0) ⊎ (8 ≤ b))
IsWire _ = Unit {0}

pub to_byte-of_byte : (b : ℕ) → to_byte (of_byte b) ≡ b
unfolding to_byte of_byte
to_byte-of_byte b = ground arith

pub of_byte-to_byte : (t : MessageType) → IsWire t → of_byte (to_byte t) ≡ t
unfolding to_byte of_byte
of_byte-to_byte publish h = refl
of_byte-to_byte (other b) h = ground arith
of_byte-to_byte _ h = refl

pub to_byte-IsByte : (t : MessageType) → IsWire t → IsByte (to_byte t)
unfolding to_byte
to_byte-IsByte publish h = omega arith
to_byte-IsByte _ h = omega arith
