-- ===== src/WalWriter.antt =====
-- broker/include/WalWriter.hpp and broker/src/WalWriter.cpp: the write-ahead log. The file is the
-- list of its bytes. Opening it, creating its folder and the thread are the environment's; that the
-- log cannot be opened (`replay` then recovers nothing) is an empty file.
pub mod Format
pub mod Reading
pub mod Replay
pub mod Cut
pub mod Flushing
pub mod Closing
pub mod Torn
mod Tests
use Prim.Native.Nat.{bit_or}
use message_driven_event_que.Prelude.{
  ℕ, zero, suc, ◌+◌, ◌*◌, ◌%◌, ◌^◌, Bool, true, false, not, List, [], ◌∷◌, ◌++◌, map, Option, none,
  some, ◌==◌, nat_eq, ltb, if◌then◌else◌, length, take, drop,
}
use message_driven_event_que.Prelude.Maps.{upsert}
use message_driven_event_que.Message.{Bytes, Message}
use message_driven_event_que.Protocol.{to_be32, to_be64, from_be32, memory, word, shr}
use message_driven_event_que.SafeQueue.{SafeQueue, push_all}

abbrev pub wal_publish : ℕ
wal_publish = 0x01

abbrev pub wal_ack : ℕ
wal_ack = 0x02

-- `static_cast<uint16_t>((v >> 8) | (v << 8))`
unfoldable pub swap16 : ℕ → ℕ
swap16 v = bit_or (shr v 8) (v * 2 ^ 8) % 2 ^ 16

unfoldable pub write_be64 : Bytes → ℕ → Bytes
write_be64 out v = out ++ memory 8 (to_be64 v)

unfoldable pub write_be32 : Bytes → ℕ → Bytes
write_be32 out v = out ++ memory 4 (to_be32 v)

unfoldable pub write_be16 : Bytes → ℕ → Bytes
write_be16 out v = out ++ memory 2 (swap16 v)

-- What the flush thread is about to do: take the active buffer, write the buffer that it took, or
-- nothing more, after the last flush.
pub data FlushPc : Type 0 where
  waiting writing finished : FlushPc

pub record WalWriter : Type 0 where
  pub file : Bytes
  pub flush_buf : Bytes
  pub active_buf : Bytes
  pub pc : FlushPc

unfoldable pub append : Message → WalWriter → WalWriter
append msg w =
    let topic_len = length msg.topic % 2 ^ 16 in
    let body_len = length msg.body % 2 ^ 32 in
    let out = w.active_buf ++ wal_publish ∷ [] in
    let out = write_be64 out msg.msg_id in
    let out = write_be16 out topic_len in
    let out = out ++ msg.topic in
    let out = write_be32 out body_len in let out = out ++ msg.body in record w { active_buf = out }

unfoldable pub acknowledge : ℕ → WalWriter → WalWriter
acknowledge msg_id w = record w { active_buf = write_be64 (w.active_buf ++ wal_ack ∷ []) msg_id }

-- The two halves of a round of the flush thread, and its last flush.
unfoldable pub swap_buffers : WalWriter → WalWriter
swap_buffers w = record w { active_buf = w.flush_buf; flush_buf = w.active_buf; pc = writing }

unfoldable pub write_out : WalWriter → WalWriter
write_out w = record w { file = w.file ++ w.flush_buf; flush_buf = []; pc = waiting }

unfoldable pub final_flush : WalWriter → WalWriter
final_flush w = record w { file = w.file ++ w.active_buf; pc = finished }

-- A read that comes up short sets the stream's failbit, and every later read fails too: `none`.
unfoldable pub read_bytes : ℕ → Bytes → Option (Bytes × Bytes)
read_bytes n inp = if ltb (length inp) n then none else some (take n inp, drop n inp)

infixl 5 ◌>>=◌
abbrev pub ◌>>=◌ {ℓ κ} : {A : Type ℓ} {B : Type κ} → Option A → (A → Option B) → Option B
none >>= f = none
some a >>= f = f a

unfoldable pub read_be64 : Bytes → Option (ℕ × Bytes)
read_be64 inp = do (raw, rest) ← read_bytes 8 inp; some (to_be64 (word raw), rest)

unfoldable pub read_be32 : Bytes → Option (ℕ × Bytes)
read_be32 inp = do (raw, rest) ← read_bytes 4 inp; some (from_be32 (word raw), rest)

unfoldable pub read_be16 : Bytes → Option (ℕ × Bytes)
read_be16 inp = do (raw, rest) ← read_bytes 2 inp; some (swap16 (word raw), rest)

pub data Record : Type 0 where
  publish : Message → Record
  ack : ℕ → Record

unfoldable pub read_publish : Bytes → Option (Record × Bytes)
read_publish inp = do
  (msg_id, inp) ← read_be64 inp
  (topic_len, inp) ← read_be16 inp
  (topic, inp) ← read_bytes topic_len inp
  (body_len, inp) ← read_be32 inp
  (body, inp) ← read_bytes body_len inp
  some (publish (record { msg_id = msg_id; topic = topic; body = body; retry_count = 0 }), inp)

unfoldable pub read_ack : Bytes → Option (Record × Bytes)
read_ack inp = do (msg_id, inp) ← read_be64 inp; some (ack msg_id, inp)

-- One round of the replay's loop; `none` ends it: the end of the file, a record cut short, or a byte
-- that is no record type.
unfoldable pub read_record : Bytes → Option (Record × Bytes)
read_record [] = none
read_record (record_type ∷ inp) =
    if record_type == wal_publish
    then read_publish inp
    else if record_type == wal_ack
    then read_ack inp
    else none

-- The two tables of the replay. Where an unordered map puts a new key is not specified.
pub record Tables : Type 0 where
  pub published : List (ℕ × Message)
  pub acked : List ℕ

abbrev pub no_tables : Tables
no_tables = record { published = []; acked = [] }

unfoldable pub apply : Tables → Record → Tables
apply t (publish msg) = record t { published = upsert msg.msg_id msg (λ _. msg) t.published }
apply t (ack msg_id) = record t { acked = msg_id ∷ t.acked }

-- The loop, on fuel: each round reads a byte at least, so the number of bytes is enough.
unfoldable pub scan : ℕ → Bytes → Tables → Tables
scan zero inp t = t
scan (suc fuel) inp t = elim (read_record inp) [
  | none ↦ t
  | some (r, rest) ↦ scan fuel rest (apply t r)
]

unfoldable pub is_acked : ℕ → List ℕ → Bool
is_acked id [] = false
is_acked id (a ∷ acked) = if a == id then true else is_acked id acked

-- The messages that the second loop pushes, in the order of iteration.
unfoldable pub unacked : List ℕ → List (ℕ × Message) → List Message
unacked acked [] = []
unacked acked ((id, msg) ∷ published) =
    let rest = unacked acked published in if is_acked id acked then rest else msg ∷ rest

unfoldable pub recovered : Bytes → List Message
recovered file = let t = scan (length file) file no_tables in unacked t.acked t.published

-- `none`: a push waits for room, and nothing takes from the queue yet.
unfoldable pub replay : Bytes → SafeQueue Message → Option (SafeQueue Message)
replay file queue = push_all (recovered file) queue
