-- ===== src/WalWriter/Torn.antt =====
-- A log that goes on behind a record cut short: the file is opened to append to whatever it holds.
use message_driven_event_que.Prelude.{
  ℕ, ◌+◌, ◌<◌, ◌≡◌, refl, ap, List, ◌∷◌, ◌++◌, none, arith, All, append_assoc, length,
  length-append, if◌then◌else◌,
}
use message_driven_event_que.Message.{Bytes, Message}
use message_driven_event_que.Protocol.{to_be32, to_be64, memory}
use message_driven_event_que.WalWriter.{
  Record, publish, wal_publish, swap16, read_record, read_publish, read_bytes, recovered, ◌>>=◌,
}
use message_driven_event_que.WalWriter.Format.{Fits}
use message_driven_event_que.WalWriter.Reading.{
  read_be64-memory, read_be16-memory, read_be32-memory, read_bytes-append,
}
use message_driven_event_que.WalWriter.Replay.{
  log, find, latest, ever_acked, DistinctIds, recovered-log,
}

-- The record of a message of whose body only `kept` was written.
abbrev pub torn_publish : Message → Bytes → Bytes
torn_publish msg kept =
    wal_publish
    ∷ (memory 8 (to_be64 msg.msg_id)
        ++ (memory 2 (swap16 (length msg.topic))
            ++ (msg.topic ++ (memory 4 (to_be32 (length msg.body)) ++ kept))))

read_bytes_short : (n : ℕ) (inp : Bytes) → length inp < n → read_bytes n inp ≡ none
unfolding read_bytes
read_bytes_short n inp h = ground arith

read_record-torn_publish :
    (msg : Message) (kept later : Bytes)
    → Fits (publish msg)
    → length kept + length later < length msg.body
    → read_record (torn_publish msg kept ++ later) ≡ none
unfolding read_record read_publish
read_record-torn_publish msg kept later (id, topic, body, fresh) short =
    let fewer : length (kept ++ later) < length msg.body =
      omega (arith, length-append kept later) in
    simp append_assoc (
      rw
        (
          read_be64-memory msg.msg_id _ id,
          ◌>>=◌,
          read_be16-memory (length msg.topic) _ topic,
          read_bytes-append msg.topic _,
          read_be32-memory (length msg.body) _ body,
          read_bytes_short (length msg.body) (kept ++ later) fewer,
        )
        refl)

-- A crash cuts the record of a message short in its body, and the next runs log behind it fewer bytes
-- than are missing. Then the replay takes those bytes for the rest of the body: it recovers what the
-- records before the torn one say, and nothing that was logged after it.
pub recovered-torn_publish :
    (old rs : List Record) (msg : Message) (kept missing : Bytes) (id : ℕ)
    → All Fits old
    → Fits (publish msg)
    → kept ++ missing ≡ msg.body
    → length (log rs) < length missing
    → (find id (recovered (log old ++ (torn_publish msg kept ++ log rs)))
        ≡ (if ever_acked id old then none else latest id old))
      × DistinctIds (recovered (log old ++ (torn_publish msg kept ++ log rs)))
recovered-torn_publish old rs msg kept missing id fits new body short =
    recovered-log old (torn_publish msg kept ++ log rs) id fits (
      read_record-torn_publish msg kept (log rs) new
        (omega (arith, length-append kept missing, ap length body)))
