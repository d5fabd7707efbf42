-- ===== src/Broker/Tests/Lives.antt =====
-- A life of the broker between two starts, at a concrete log.
use message_driven_event_que.Prelude.{
  ◌≡◌, refl, true, List, [], ◌∷◌, ◌++◌, none, some, arith, if◌then◌else◌, nat_eq, pair_eq, list_eq,
}
use message_driven_event_que.Prelude.Int.{pos, int_eq}
use message_driven_event_que.Prelude.Maps.{upsert, lookup, erase, insert_sorted}
use message_driven_event_que.Protocol.{
  memory, word, to_be32, to_be64, decode_publish, decode_subscribe, get_len16,
}
use message_driven_event_que.SafeQueue.{create, push, push_all, try_pop_for}
use message_driven_event_que.TopicRouter.{
  contains, remove, leave, leave_groups, group_key, to_string, digits, is_empty, matches, find_star,
  is_unique, route_group, route_groups, route, join,
}
use message_driven_event_que.TopicRouter
use message_driven_event_que.WalWriter.{
  Record, replay, recovered, append, acknowledge, scan, read_record, read_publish, read_ack,
  read_be64, read_be32, read_be16, read_bytes, apply, unacked, is_acked, swap16, write_be64,
  write_be32, write_be16, final_flush, swap_buffers, write_out, waiting,
}
use message_driven_event_que.WalWriter
use message_driven_event_que.AckEngine.{
  to_main, to_dlq, track, ack, nack, redelivery, expire, due, push_deadline, requeue_or_dlq,
}
use message_driven_event_que.AckEngine
use message_driven_event_que.WalWriter.Format.{encode}
use message_driven_event_que.WalWriter.Replay.{log, find, latest, ever_acked, DistinctIds}
use message_driven_event_que.Broker.{advance, on_frame, deliver_all, push_then, event}
use message_driven_event_que.Broker.Threads.{
  Broker, Move, flushes, move, run, boot, booted, take_up, accept, register, replace, add_client,
  flush,
}
use message_driven_event_que.Broker.Tests.{note}
use message_driven_event_que.Broker.Tests.Restarts.{
  old_log, old_log-Fits, restarted, restart_runs, some_work,
}
use message_driven_event_que.WalWriter.Closing.{close, end_loop, last_round}
use message_driven_event_que.Broker.Shutdown.{
  Process, Act, moves, signals, proceeds, stops_dispatching, stops_logging, stops_scanning, proceed,
  act, act_all, started, returned,
}
use message_driven_event_que.Broker.Shutdown.Reopening.{shutdown_and_start}
use message_driven_event_que.Broker.Tests.Shutdowns.{or_process}

abbrev all_moves : List Move → List Act
all_moves [] = []
all_moves (m ∷ ms) = moves m ∷ all_moves ms

-- The broker works, the flush thread has taken what is logged, and the signal comes.
abbrev whole_life : List Act
whole_life =
    all_moves some_work
    ++ (moves flushes
        ∷ signals
        ∷ proceeds
        ∷ stops_scanning
        ∷ proceeds
        ∷ stops_dispatching
        ∷ stops_logging
        ∷ proceeds
        ∷ proceeds
        ∷ [])

abbrev ended : Process
ended = or_process (act_all whole_life (started restarted)) (started restarted)

life_runs : act_all whole_life (started restarted) ≡ some ended
unfolding run move advance take_up accept register replace add_client on_frame decode_publish
    decode_subscribe get_len16 push try_pop_for create contains deliver_all event push_then
    TopicRouter.subscribe route route_groups route_group matches find_star is_unique group_key
    upsert join digits to_string AckEngine.step track redelivery expire due requeue_or_dlq
    push_deadline insert_sorted lookup erase flush append write_be64 write_be32 write_be16
    swap_buffers act act_all proceed
life_runs = refl

life_ends : ended.main ≡ returned
unfolding run move advance take_up accept register replace add_client on_frame decode_publish
    decode_subscribe get_len16 push try_pop_for create contains deliver_all event push_then
    TopicRouter.subscribe route route_groups route_group matches find_star is_unique group_key
    upsert join digits to_string AckEngine.step track redelivery expire due requeue_or_dlq
    push_deadline insert_sorted lookup erase flush append write_be64 write_be32 write_be16
    swap_buffers act act_all proceed
life_ends = refl

abbrev reopened : Broker
reopened =
    booted (log (old_log ++ WalWriter.publish (note 1) ∷ [])) 4 10 (pos 3)
      (record { items = note 9 ∷ note 1 ∷ []; capacity = 4 })

reopens : boot (close true ended.broker.shared.wal) 4 10 (pos 3) ≡ some reopened
unfolding run move advance take_up accept register replace add_client on_frame decode_publish
    decode_subscribe get_len16 push try_pop_for create contains deliver_all event push_then
    TopicRouter.subscribe route route_groups route_group matches find_star is_unique group_key
    upsert join digits to_string AckEngine.step track redelivery expire due requeue_or_dlq
    push_deadline insert_sorted lookup erase flush append write_be64 write_be32 write_be16
    swap_buffers act act_all proceed close end_loop last_round write_out final_flush boot replay
    push_all recovered scan read_record read_publish read_ack read_be64 read_be32 read_be16
    read_bytes apply unacked is_acked memory word swap16 to_be32 to_be64 encode
reopens = refl

shutdown_and_start_example :
    (find 9 reopened.shared.main_queue.items ≡ (
      if ever_acked 9 (old_log ++ ended.broker.shared.logged)
      then none
      else latest 9 (old_log ++ ended.broker.shared.logged)))
    × DistinctIds reopened.shared.main_queue.items
unfolding run move advance take_up accept register replace add_client on_frame decode_publish
    decode_subscribe get_len16 push try_pop_for create contains deliver_all event push_then
    TopicRouter.subscribe route route_groups route_group matches find_star is_unique group_key
    upsert join digits to_string AckEngine.step track redelivery expire due requeue_or_dlq
    push_deadline insert_sorted lookup erase flush append write_be64 write_be32 write_be16
    swap_buffers act act_all proceed
shutdown_and_start_example =
    shutdown_and_start old_log 4 10 (pos 3) restarted whole_life ended true reopened 9
      (
        old_log-Fits.0,
        (
          old_log-Fits.1.0,
          (old_log-Fits.1.1.0, ((omega arith, omega arith, omega arith, refl), tt)),
        ),
      )
      restart_runs life_runs life_ends reopens
