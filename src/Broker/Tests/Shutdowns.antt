-- ===== src/Broker/Tests/Shutdowns.antt =====
-- The shutdown of the broker: one that hangs and one that is clean.
use message_driven_event_que.Prelude.{
  inl, ◌≢◌, ◌≡◌, refl, true, List, [], ◌∷◌, Option, none, some, arith, nat_eq, pair_eq, list_eq,
}
use message_driven_event_que.Prelude.Int.{int_eq}
use message_driven_event_que.Prelude.Maps.{upsert, lookup, erase, insert_sorted}
use message_driven_event_que.Protocol.{decode_publish, decode_subscribe, get_len16}
use message_driven_event_que.SafeQueue.{create, push, try_pop_for}
use message_driven_event_que.TopicRouter.{
  contains, remove, leave, leave_groups, group_key, to_string, digits, is_empty, matches, find_star,
  is_unique, route_group, route_groups, route, join,
}
use message_driven_event_que.TopicRouter
use message_driven_event_que.AckEngine.{
  to_main, to_dlq, track, ack, nack, redelivery, expire, due, push_deadline, requeue_or_dlq,
}
use message_driven_event_que.AckEngine
use message_driven_event_que.Broker.Shutdown.{
  Process, Act, moves, signals, proceeds, stops_dispatching, stops_logging, stops_scanning, proceed,
  act, act_all, started, returned,
}
use message_driven_event_que.Broker.Shutdown.Hanging.{IsHung, never_returns}
use message_driven_event_que.Broker.Shutdown.Returning.{returned_lem, moves_of}
use message_driven_event_que.Broker.{
  done, unlocks, advance, on_frame, deliver_all, push_then, event,
}
use message_driven_event_que.Broker.Threads.{
  dispatches, scans, registers, accepts, arrives, reads, ticks, move, run, take_up, accept,
  register, replace, add_client, is_done,
}
use message_driven_event_que.Broker.Tests.{four, subscription, publication, again, empty_broker}

-- Message 2 fills the queue, the signal comes, and the dispatcher leaves before message 1 expires.
abbrev into_the_hang : List Act
into_the_hang =
    moves (accepts four)
    ∷ moves registers
    ∷ moves (arrives 0 subscription)
    ∷ moves (reads 0)
    ∷ moves (arrives 0 (publication 1))
    ∷ moves (reads 0)
    ∷ moves (reads 0)
    ∷ moves dispatches
    ∷ moves dispatches
    ∷ moves dispatches
    ∷ moves dispatches
    ∷ moves dispatches
    ∷ signals
    ∷ stops_dispatching
    ∷ moves (arrives 0 (publication 2))
    ∷ moves (reads 0)
    ∷ moves (reads 0)
    ∷ moves (ticks 10)
    ∷ moves scans
    ∷ moves scans
    ∷ []

abbrev pub or_process : Option Process → Process → Process
or_process none x = x
or_process (some x) y = x

abbrev hung : Process
hung = or_process (act_all into_the_hang (started empty_broker)) (started empty_broker)

hang_is_reached : act_all into_the_hang (started empty_broker) ≡ some hung
unfolding run move advance take_up accept register replace add_client on_frame decode_publish
    decode_subscribe get_len16 push try_pop_for create contains deliver_all event push_then
    TopicRouter.subscribe route route_groups route_group matches find_star is_unique group_key
    upsert join digits to_string AckEngine.step track redelivery expire due requeue_or_dlq
    push_deadline insert_sorted lookup erase act act_all proceed
hang_is_reached = refl

hung-IsHung : IsHung again (unlocks done) hung
unfolding run move advance take_up accept register replace add_client on_frame decode_publish
    decode_subscribe get_len16 push try_pop_for create contains deliver_all event push_then
    TopicRouter.subscribe route route_groups route_group matches find_star is_unique group_key
    upsert join digits to_string AckEngine.step track redelivery expire due requeue_or_dlq
    push_deadline insert_sorted lookup erase act act_all proceed
hung-IsHung = record {
  jam = (refl, omega arith);
  holder = refl;
  logger = tt;
  readers = (tt, tt);
  left = refl;
  stays = refl;
  main = inl refl;
}

abbrev on_and_on : Process
on_and_on = or_process (act_all (proceeds ∷ moves (ticks 5) ∷ []) hung) hung

waiting_on : act_all (proceeds ∷ moves (ticks 5) ∷ []) hung ≡ some on_and_on
unfolding run move advance take_up accept register replace add_client on_frame decode_publish
    decode_subscribe get_len16 push try_pop_for create contains deliver_all event push_then
    TopicRouter.subscribe route route_groups route_group matches find_star is_unique group_key
    upsert join digits to_string AckEngine.step track redelivery expire due requeue_or_dlq
    push_deadline insert_sorted lookup erase act act_all proceed
waiting_on = refl

never_returns_example : IsHung again (unlocks done) on_and_on × (on_and_on.main ≢ returned)
never_returns_example =
    never_returns again (unlocks done) (proceeds ∷ moves (ticks 5) ∷ []) hung on_and_on hung-IsHung
      waiting_on

-- A clean stop after one idle scan.
abbrev clean_stop : List Act
clean_stop =
    moves scans
    ∷ moves scans
    ∷ moves scans
    ∷ signals
    ∷ proceeds
    ∷ stops_scanning
    ∷ proceeds
    ∷ stops_dispatching
    ∷ stops_logging
    ∷ proceeds
    ∷ proceeds
    ∷ []

abbrev at_rest : Process
at_rest = or_process (act_all clean_stop (started empty_broker)) (started empty_broker)

clean_stop_runs : act_all clean_stop (started empty_broker) ≡ some at_rest
unfolding run move advance take_up accept register replace add_client on_frame decode_publish
    decode_subscribe get_len16 push try_pop_for create contains deliver_all event push_then
    TopicRouter.subscribe route route_groups route_group matches find_star is_unique group_key
    upsert join digits to_string AckEngine.step track redelivery expire due requeue_or_dlq
    push_deadline insert_sorted lookup erase act act_all proceed
clean_stop_runs = refl

it_returns : at_rest.main ≡ returned
unfolding run move advance take_up accept register replace add_client on_frame decode_publish
    decode_subscribe get_len16 push try_pop_for create contains deliver_all event push_then
    TopicRouter.subscribe route route_groups route_group matches find_star is_unique group_key
    upsert join digits to_string AckEngine.step track redelivery expire due requeue_or_dlq
    push_deadline insert_sorted lookup erase act act_all proceed
it_returns = refl

returned_lem_example :
    ((is_done at_rest.broker.dispatcher ≡ true)
      × (is_done at_rest.broker.logger ≡ true)
      × (is_done at_rest.broker.scanner ≡ true))
    × (run (moves_of clean_stop) empty_broker ≡ some at_rest.broker)
returned_lem_example = returned_lem clean_stop empty_broker at_rest clean_stop_runs it_returns
