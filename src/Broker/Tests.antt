-- ===== src/Broker/Tests.antt =====
-- Runs of the broker, and the theorems at concrete inputs.
mod Restarts
mod Lives
mod Shutdowns
mod Streams
mod Answers
mod Settings
use message_driven_event_que.Prelude.{
  inl, ◌≢◌, take, drop, take-append-drop, ℕ, suc, ◌≤◌, ◌≡◌, ◌⊎◌, refl, true, false, List, [], ◌∷◌,
  ◌++◌, Option, none, some, arith, All, if◌then◌else◌, get_elem?, nat_eq, pair_eq, list_eq,
}
use message_driven_event_que.Prelude.Int.{pos, int_eq}
use message_driven_event_que.Prelude.Maps.{upsert, lookup, erase, insert_sorted}
use message_driven_event_que.Message.{Message, ClientId, publish, subscribe, event_data}
use message_driven_event_que.Protocol.{
  memory, word, to_be32, to_be64, decode_publish, decode_subscribe, get_len16, encode_frame,
}
use message_driven_event_que.SafeQueue.{create, push, push_all, try_pop_for}
use message_driven_event_que.TopicRouter.{
  contains, remove, leave, leave_groups, group_key, to_string, digits, is_empty, matches, find_star,
  is_unique, route_group, route_groups, route, join,
}
use message_driven_event_que.TopicRouter
use message_driven_event_que.WalWriter.{
  Record, replay, recovered, append, acknowledge, scan, read_record, read_publish, read_ack,
  read_be64, read_be32, read_be16, read_bytes, apply, unacked, is_acked, swap16, write_be64,
  write_be32, write_be16, final_flush, swap_buffers, write_out, waiting,
}
use message_driven_event_que.WalWriter
use message_driven_event_que.AckEngine.{
  to_main, to_dlq, track, ack, nack, redelivery, expire, due, push_deadline, requeue_or_dlq,
}
use message_driven_event_que.AckEngine
use message_driven_event_que.WalWriter.Format.{Fits, encode}
use message_driven_event_que.WalWriter.Replay.{log, find, latest, ever_acked, DistinctIds}
use message_driven_event_que.WalWriter.Cut.{RecoversFront}
use message_driven_event_que.TcpServer.{Frame}
use message_driven_event_que.TcpServer.Stream.{Sent}
use message_driven_event_que.TcpServer.Stream
use message_driven_event_que.Broker.Deadlock.{IsStuck, deadlock}
use message_driven_event_que.Broker.Shutdown.{
  Process, Act, moves, signals, proceeds, stops_dispatching, stops_logging, stops_scanning, proceed,
  act, act_all, started, returned,
}
use message_driven_event_que.Broker.Shutdown.Hanging.{IsHung, never_returns}
use message_driven_event_que.Broker.Shutdown.Returning.{returned_lem, moves_of}
use message_driven_event_que.Broker.Restart.{nothing_lost}
use message_driven_event_que.Broker.Logging.{stop_and_start, crash_and_start}
use message_driven_event_que.Broker.Dispatching.{
  drive, frames_for, steps_for, IsTracked, drive-route,
}
use message_driven_event_que.Broker.Publishing.{message_of, steps_of, drive-on_frame}
use message_driven_event_que.Broker.Descriptors.{newcomer, reused_descriptor}
use message_driven_event_que.Broker.Accounts.{copies}
use message_driven_event_que.Broker.Custody.{in_ids}
use message_driven_event_que.Broker.{
  Program, done, unlocks, sends, tracks, Shared, advance, pops_main, erases, on_frame, deliver_all,
  push_then, event,
}
use message_driven_event_que.Broker.Threads.{
  Broker, Move, dispatches, scans, registers, flushes, writes, accepts, arrives, hangs_up, reads,
  ticks, move, run, boot, booted, take_up, accept, register, replace, add_client, disconnect, flush,
  write, is_done,
}

abbrev pub four : ClientId
four = pos 4

-- SUBSCRIBE to "o" in a group of the client's own, and PUBLISH of "{}" to "o".
abbrev pub subscription : Frame
subscription = record { type = subscribe; msg_id = 0; payload = 0 ∷ 1 ∷ 111 ∷ 0 ∷ 0 ∷ [] }

abbrev pub publication : ℕ → Frame
publication msg_id = record {
  type = publish;
  msg_id = msg_id;
  payload = 0 ∷ 1 ∷ 111 ∷ 123 ∷ 125 ∷ [];
}

-- A client subscribes and publishes; the dispatcher delivers the first message, and has the second in
-- hand when the third fills the queue and the first expires.
abbrev into_the_jam : List Move
into_the_jam =
    accepts four
    ∷ registers
    ∷ arrives 0 subscription
    ∷ reads 0
    ∷ arrives 0 (publication 1)
    ∷ reads 0
    ∷ reads 0
    ∷ dispatches
    ∷ dispatches
    ∷ dispatches
    ∷ dispatches
    ∷ dispatches
    ∷ arrives 0 (publication 2)
    ∷ reads 0
    ∷ reads 0
    ∷ dispatches
    ∷ dispatches
    ∷ arrives 0 (publication 3)
    ∷ reads 0
    ∷ reads 0
    ∷ ticks 10
    ∷ scans
    ∷ scans
    ∷ []

abbrev pub empty_broker : Broker
empty_broker = booted [] 1 10 (pos 3) (create 1)

abbrev pub or_else : Option Broker → Broker → Broker
or_else none b = b
or_else (some b) c = b

abbrev jammed : Broker
jammed = or_else (run into_the_jam empty_broker) empty_broker

jam_is_reached : run into_the_jam empty_broker ≡ some jammed
unfolding run move advance take_up accept register replace add_client on_frame decode_publish
    decode_subscribe get_len16 push try_pop_for create contains deliver_all event push_then
    TopicRouter.subscribe route route_groups route_group matches find_star is_unique group_key
    upsert join digits to_string AckEngine.step track redelivery expire due requeue_or_dlq
    push_deadline insert_sorted lookup erase
jam_is_reached = refl

abbrev pub note : ℕ → Message
note msg_id = record { msg_id = msg_id; topic = 111 ∷ []; body = 123 ∷ 125 ∷ []; retry_count = 0 }

abbrev pub again : Message
again = record (note 1) { retry_count = 1 }

abbrev waiter : Program
waiter = sends four (encode_frame event_data 2 (111 ∷ []) (123 ∷ 125 ∷ [])) done

jammed-IsStuck : IsStuck again (unlocks done) waiter (tracks (note 2) four) jammed
unfolding run move advance take_up accept register replace add_client on_frame decode_publish
    decode_subscribe get_len16 push try_pop_for create contains deliver_all event push_then
    TopicRouter.subscribe route route_groups route_group matches find_star is_unique group_key
    upsert join digits to_string AckEngine.step track redelivery expire due requeue_or_dlq
    push_deadline insert_sorted lookup erase
jammed-IsStuck = record {
  jam = (refl, omega arith);
  holder = refl;
  waits = refl;
  logger = tt;
  readers = (tt, tt);
}

-- The client hangs up, and its reader comes as far as the AckEngine.
abbrev later : List Move
later = hangs_up 0 ∷ reads 0 ∷ reads 0 ∷ reads 0 ∷ ticks 5 ∷ []

abbrev still_jammed : Broker
still_jammed = or_else (run later jammed) jammed

later_runs : run later jammed ≡ some still_jammed
unfolding run move advance take_up accept register replace add_client on_frame decode_publish
    decode_subscribe get_len16 push try_pop_for create contains deliver_all event push_then
    TopicRouter.subscribe route route_groups route_group matches find_star is_unique group_key
    upsert join digits to_string AckEngine.step track redelivery expire due requeue_or_dlq
    push_deadline insert_sorted lookup erase disconnect TopicRouter.unsubscribe leave_groups leave
    remove
later_runs = refl

deadlock_example :
    IsStuck again (unlocks done) waiter (tracks (note 2) four) still_jammed
    × (still_jammed.shared.main_queue ≡ jammed.shared.main_queue)
deadlock_example =
    deadlock again (unlocks done) waiter (tracks (note 2) four) later jammed still_jammed
      jammed-IsStuck later_runs

-- A subscribed client, and message 1 in the main queue.
abbrev pub ready : Shared
ready = record empty_broker.shared {
  main_queue = record { items = note 1 ∷ []; capacity = 1 };
  router = (111 ∷ [], (120 ∷ [], record { members = four ∷ []; rr_idx = 0 }) ∷ []) ∷ [];
  clients = four ∷ [];
  open_socks = four ∷ [];
}

drive-route_example :
    let targets = (route (note 1) ready.router).0 in
    (s' : Shared) × (drive (suc (suc (steps_for targets))) pops_main ready ≡ some (done, s'))
    × (s'.main_queue ≡ record ready.main_queue { items = [] })
    × (s'.router ≡ (route (note 1) ready.router).1)
    × (s'.sent ≡ ready.sent ++ frames_for (note 1) ready.clients ready.open_socks targets)
    × All (IsTracked (note 1) ready.clock s'.engine) targets
    × (s'.unrouted ≡ ready.unrouted ++ (if is_empty targets then 1 ∷ [] else []))
    × (s'.locked ≡ false)
drive-route_example = drive-route (note 1) [] ready refl refl

-- The reader of a client that hung up has closed its socket.
abbrev closing : Broker
closing = record empty_broker {
  connections = record { id = four; alive = false; program = erases four done } ∷ [];
  shared = record empty_broker.shared { clients = four ∷ [] };
}

reused_descriptor_example :
    (b' : Broker) × (run (accepts four ∷ registers ∷ reads 0 ∷ []) closing ≡ some b')
    × (get_elem? b'.connections 1 ≡ some (newcomer four))
    × (contains four b'.shared.open_socks ≡ true)
    × (contains four b'.shared.clients ≡ false)
unfolding contains
reused_descriptor_example =
    reused_descriptor closing 0 (record { id = four; alive = false; program = erases four done })
      done refl refl refl refl
