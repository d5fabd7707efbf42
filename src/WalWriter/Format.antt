-- ===== src/WalWriter/Format.antt =====
-- The bytes of a record, and what `append` and `acknowledge` write.
use message_driven_event_que.Prelude.{ℕ, ◌%◌, ◌^◌, ◌<◌, ◌≡◌, ap, ◌∷◌, ◌++◌, length, append_assoc}
use message_driven_event_que.Message.{Bytes, Message}
use message_driven_event_que.Protocol.{to_be32, to_be64, memory}
use message_driven_event_que.WalWriter.{
  WalWriter, Record, publish, ack, wal_publish, wal_ack, swap16, append, acknowledge, write_be64,
  write_be32, write_be16,
}

unfoldable pub encode : Record → Bytes
encode (publish msg) =
    wal_publish
    ∷ (memory 8 (to_be64 msg.msg_id)
        ++ (memory 2 (swap16 (length msg.topic % 2 ^ 16))
            ++ (msg.topic ++ (memory 4 (to_be32 (length msg.body % 2 ^ 32)) ++ msg.body))))
encode (ack msg_id) = wal_ack ∷ memory 8 (to_be64 msg_id)

-- The record fits the log's fields; a message is logged when it is new, before any retry.
abbrev pub Fits : Record → Type 0
Fits (publish msg) =
    (msg.msg_id < 2 ^ 64)
    × (length msg.topic < 2 ^ 16)
    × (length msg.body < 2 ^ 32)
    × (msg.retry_count ≡ 0)
Fits (ack msg_id) = msg_id < 2 ^ 64

pub append-encode :
    (msg : Message) (w : WalWriter)
    → append msg w ≡ record w { active_buf = w.active_buf ++ encode (publish msg) }
unfolding append encode write_be64 write_be32 write_be16
append-encode msg w = ap (λ (l : Bytes). record w { active_buf = l }) (simp append_assoc)

pub acknowledge-encode :
    (msg_id : ℕ) (w : WalWriter)
    → acknowledge msg_id w ≡ record w { active_buf = w.active_buf ++ encode (ack msg_id) }
unfolding acknowledge encode write_be64
acknowledge-encode msg_id w = ap (λ (l : Bytes). record w { active_buf = l }) (simp append_assoc)
