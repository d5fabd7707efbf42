-- ===== src/Broker/Tests/Restarts.antt =====
-- Stops, crashes and starts of the broker at a concrete log.
use message_driven_event_que.Prelude.{
  take, drop, take-append-drop, ◌≤◌, ◌≡◌, ◌⊎◌, refl, true, List, [], ◌∷◌, ◌++◌, some, arith, All,
  nat_eq, pair_eq, list_eq,
}
use message_driven_event_que.Prelude.Int.{pos, int_eq}
use message_driven_event_que.Prelude.Maps.{upsert, lookup, erase, insert_sorted}
use message_driven_event_que.Protocol.{
  memory, word, to_be32, to_be64, decode_publish, decode_subscribe, get_len16,
}
use message_driven_event_que.SafeQueue.{create, push, push_all, try_pop_for}
use message_driven_event_que.TopicRouter.{
  contains, remove, leave, leave_groups, group_key, to_string, digits, is_empty, matches, find_star,
  is_unique, route_group, route_groups, route, join,
}
use message_driven_event_que.TopicRouter
use message_driven_event_que.WalWriter.{
  Record, replay, recovered, append, acknowledge, scan, read_record, read_publish, read_ack,
  read_be64, read_be32, read_be16, read_bytes, apply, unacked, is_acked, swap16, write_be64,
  write_be32, write_be16, final_flush, swap_buffers, write_out, waiting,
}
use message_driven_event_que.WalWriter
use message_driven_event_que.AckEngine.{
  to_main, to_dlq, track, ack, nack, redelivery, expire, due, push_deadline, requeue_or_dlq,
}
use message_driven_event_que.AckEngine
use message_driven_event_que.WalWriter.Format.{Fits, encode}
use message_driven_event_que.WalWriter.Replay.{log, ever_acked}
use message_driven_event_que.WalWriter.Cut.{RecoversFront}
use message_driven_event_que.Broker.Restart.{nothing_lost}
use message_driven_event_que.Broker.Logging.{crash_and_start}
use message_driven_event_que.Broker.Accounts.{copies}
use message_driven_event_que.Broker.Custody.{in_ids}
use message_driven_event_que.Broker.{advance, on_frame, deliver_all, push_then, event}
use message_driven_event_que.Broker.Threads.{
  Broker, Move, dispatches, registers, flushes, accepts, arrives, reads, move, run, boot, booted,
  take_up, accept, register, replace, add_client, flush,
}
use message_driven_event_que.Broker.Tests.{four, subscription, publication, or_else, note}

-- The log of an earlier run: message 9, open, and message 8, acknowledged.
abbrev pub old_log : List Record
old_log = WalWriter.publish (note 9) ∷ WalWriter.publish (note 8) ∷ WalWriter.ack 8 ∷ []

pub old_log-Fits : All Fits old_log
old_log-Fits = (
  (omega arith, omega arith, omega arith, refl),
  ((omega arith, omega arith, omega arith, refl), (omega arith, tt)),
)

abbrev pub restarted : Broker
restarted = booted (log old_log) 4 10 (pos 3) (record { items = note 9 ∷ []; capacity = 4 })

pub restart_runs : boot (log old_log) 4 10 (pos 3) ≡ some restarted
unfolding boot replay create push_all push recovered scan read_record read_publish read_ack
    read_be64 read_be32 read_be16 read_bytes apply unacked is_acked upsert memory word swap16
    to_be32 to_be64 encode
restart_runs = refl

-- Message 1 is published and delivered; message 9 finds no subscriber.
abbrev pub some_work : List Move
some_work =
    dispatches
    ∷ dispatches
    ∷ accepts four
    ∷ registers
    ∷ arrives 0 subscription
    ∷ reads 0
    ∷ arrives 0 (publication 1)
    ∷ reads 0
    ∷ reads 0
    ∷ dispatches
    ∷ dispatches
    ∷ dispatches
    ∷ dispatches
    ∷ dispatches
    ∷ []

abbrev pub working : Broker
working = or_else (run some_work restarted) restarted

work_runs : run some_work restarted ≡ some working
unfolding run move advance take_up accept register replace add_client on_frame decode_publish
    decode_subscribe get_len16 push try_pop_for create contains deliver_all event push_then
    TopicRouter.subscribe route route_groups route_group matches find_star is_unique group_key
    upsert join digits to_string AckEngine.step track redelivery expire due requeue_or_dlq
    push_deadline insert_sorted lookup erase
work_runs = refl

nothing_lost_example :
    (ever_acked 1 (old_log ++ working.shared.logged) ≡ true)
    ⊎ ((1 ≤ in_ids 1 working.shared.unrouted) ⊎ (1 ≤ copies 1 working))
unfolding run move advance take_up accept register replace add_client on_frame decode_publish
    decode_subscribe get_len16 push try_pop_for create contains deliver_all event push_then
    TopicRouter.subscribe route route_groups route_group matches find_star is_unique group_key
    upsert join digits to_string AckEngine.step track redelivery expire due requeue_or_dlq
    push_deadline insert_sorted lookup erase encode memory
nothing_lost_example =
    nothing_lost 1 old_log [] 4 10 (pos 3) restarted working some_work old_log-Fits
      (unfold read_record in refl) restart_runs work_runs (omega arith)

-- A crash when five bytes of the record of message 1 are in the file.
abbrev flushing : Broker
flushing = or_else (run (flushes ∷ []) working) working

flush_runs : run (some_work ++ flushes ∷ []) restarted ≡ some flushing
unfolding run move advance take_up accept register replace add_client on_frame decode_publish
    decode_subscribe get_len16 push try_pop_for create contains deliver_all event push_then
    TopicRouter.subscribe route route_groups route_group matches find_star is_unique group_key
    upsert join digits to_string AckEngine.step track redelivery expire due requeue_or_dlq
    push_deadline insert_sorted lookup erase flush append write_be64 write_be32 write_be16
    swap_buffers
flush_runs = refl

abbrev crashed : Broker
crashed =
    booted (log old_log ++ take 5 flushing.shared.wal.flush_buf) 4 10 (pos 3)
      (record { items = note 9 ∷ []; capacity = 4 })

crash_runs :
    boot (flushing.shared.wal.file ++ take 5 flushing.shared.wal.flush_buf) 4 10 (pos 3)
    ≡ some crashed
unfolding run move advance take_up accept register replace add_client on_frame decode_publish
    decode_subscribe get_len16 push try_pop_for create contains deliver_all event push_then
    TopicRouter.subscribe route route_groups route_group matches find_star is_unique group_key
    upsert join digits to_string AckEngine.step track redelivery expire due requeue_or_dlq
    push_deadline insert_sorted lookup erase flush append write_be64 write_be32 write_be16
    swap_buffers boot replay push_all recovered scan read_record read_publish read_ack read_be64
    read_be32 read_be16 read_bytes apply unacked is_acked memory word swap16 to_be32 to_be64 encode
crash_runs = refl

crash_and_start_example :
    RecoversFront
      (old_log ++ flushing.shared.logged)
      (flushing.shared.wal.file ++ take 5 flushing.shared.wal.flush_buf)
      1
    × (crashed.shared.main_queue.items
        ≡ recovered (flushing.shared.wal.file ++ take 5 flushing.shared.wal.flush_buf))
unfolding run move advance take_up accept register replace add_client on_frame decode_publish
    decode_subscribe get_len16 push try_pop_for create contains deliver_all event push_then
    TopicRouter.subscribe route route_groups route_group matches find_star is_unique group_key
    upsert join digits to_string AckEngine.step track redelivery expire due requeue_or_dlq
    push_deadline insert_sorted lookup erase flush append write_be64 write_be32 write_be16
    swap_buffers
crash_and_start_example =
    crash_and_start old_log 4 10 (pos 3) restarted flushing crashed (some_work ++ flushes ∷ [])
      (take 5 flushing.shared.wal.flush_buf) (drop 5 flushing.shared.wal.flush_buf) 1
      (
        old_log-Fits.0,
        (
          old_log-Fits.1.0,
          (old_log-Fits.1.1.0, ((omega arith, omega arith, omega arith, refl), tt)),
        ),
      )
      restart_runs flush_runs (take-append-drop 5 flushing.shared.wal.flush_buf) crash_runs
