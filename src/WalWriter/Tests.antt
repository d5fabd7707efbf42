-- ===== src/WalWriter/Tests.antt =====
-- The theorems on the log at concrete inputs.
use message_driven_event_que.Prelude.{
  ℕ, ◌≡◌, ◌≢◌, refl, List, [], ◌∷◌, ◌++◌, arith, none, some, if◌then◌else◌, leb, length, take, drop,
  take-append-drop,
}
use message_driven_event_que.Message.{Message}
use message_driven_event_que.Protocol.{memory}
use message_driven_event_que.SafeQueue.{create}
use message_driven_event_que.WalWriter.{
  WalWriter, Record, publish, ack, append, acknowledge, swap_buffers, read_record, read_ack,
  read_be64, read_bytes, write_be64, write_be32, write_be16, recovered, replay,
}
use message_driven_event_que.WalWriter.Format.{encode, Fits}
use message_driven_event_que.WalWriter.Replay.{
  log, find, latest, ever_acked, DistinctIds, recovered-log, replay-create,
}
use message_driven_event_que.WalWriter.Cut.{RecoversFront}
use message_driven_event_que.WalWriter.Torn.{torn_publish, recovered-torn_publish}
use message_driven_event_que.WalWriter.Flushing.{
  Run, start, logs_message, logs_ack, swaps, open_file, crash_recovery,
}

abbrev order : ℕ → Message
order id = record { msg_id = id; topic = 111 ∷ []; body = 123 ∷ 125 ∷ []; retry_count = 0 }

abbrev orders : List Record
orders = publish (order 1) ∷ publish (order 2) ∷ ack 1 ∷ []

-- The first five bytes of an acknowledgement.
torn_stops : read_record (2 ∷ 0 ∷ 0 ∷ 0 ∷ 0 ∷ []) ≡ none
unfolding read_record read_ack read_be64 read_bytes
torn_stops = refl

orders_fit : (Fits (publish (order 1))) × Fits (publish (order 2)) × Fits (ack 1)
orders_fit = (
  (omega arith, omega arith, omega arith, refl),
  (omega arith, omega arith, omega arith, refl),
  omega arith,
)

recovered-log_example :
    (find 2 (recovered (log orders ++ 2 ∷ 0 ∷ 0 ∷ 0 ∷ 0 ∷ []))
      ≡ (if ever_acked 2 orders then none else latest 2 orders))
    × DistinctIds (recovered (log orders ++ 2 ∷ 0 ∷ 0 ∷ 0 ∷ 0 ∷ []))
recovered-log_example =
    recovered-log orders (2 ∷ 0 ∷ 0 ∷ 0 ∷ 0 ∷ []) 2
      (orders_fit.0, (orders_fit.1, (orders_fit.2, tt))) torn_stops

replay-create_example : replay (log orders) (create 1) ≡ (
    if leb (length (recovered (log orders))) 1
    then some (record { items = recovered (log orders); capacity = 1 })
    else none)
replay-create_example = replay-create (log orders) 1

-- Two records are logged, the flush thread takes them, and a third comes while it writes.
abbrev while_writing : WalWriter
while_writing = acknowledge 1 (swap_buffers (append (order 2) (append (order 1) (open_file []))))

active_is_full : (append (order 2) (append (order 1) (open_file []))).active_buf ≢ []
unfolding append write_be64 write_be32 write_be16 memory
active_is_full e = cc

midway : Run [] orders while_writing
unfolding append swap_buffers
midway =
    logs_ack 1
      (swaps (logs_message (order 2) (logs_message (order 1) start (λ e. cc)) (λ e. cc)) refl
        active_is_full)
      (λ e. cc)

crash_recovery_example :
    RecoversFront ([] ++ orders) (while_writing.file ++ take 30 while_writing.flush_buf) 1
crash_recovery_example =
    crash_recovery [] orders while_writing (take 30 while_writing.flush_buf)
      (drop 30 while_writing.flush_buf) 1 (orders_fit.0, (orders_fit.1, (orders_fit.2, tt))) midway
      (take-append-drop 30 while_writing.flush_buf)

-- A body of 20 bytes of which two were written, and an acknowledgement logged behind it.
abbrev long_order : Message
long_order = record {
  msg_id = 5;
  topic = 111 ∷ [];
  body =
      1 ∷ 2 ∷ 3 ∷ 4 ∷ 5 ∷ 6 ∷ 7 ∷ 8 ∷ 9 ∷ 10 ∷ 11 ∷ 12 ∷ 13 ∷ 14 ∷ 15 ∷ 16 ∷ 17 ∷ 18 ∷ 19 ∷ 20 ∷ [];
  retry_count = 0;
}

recovered-torn_publish_example :
    (find 1 (
        recovered (
          log (publish (order 1) ∷ [])
          ++ (torn_publish long_order (1 ∷ 2 ∷ []) ++ log (ack 1 ∷ []))))
      ≡ (if ever_acked 1 (publish (order 1) ∷ []) then none else latest 1 (publish (order 1) ∷ [])))
    × DistinctIds (
        recovered (
          log (publish (order 1) ∷ [])
          ++ (torn_publish long_order (1 ∷ 2 ∷ []) ++ log (ack 1 ∷ []))))
unfolding encode memory
recovered-torn_publish_example =
    recovered-torn_publish (publish (order 1) ∷ []) (ack 1 ∷ []) long_order (1 ∷ 2 ∷ [])
      (drop 2 long_order.body) 1 (orders_fit.0, tt) (omega arith, omega arith, omega arith, refl)
      refl (omega arith)
