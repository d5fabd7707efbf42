-- ===== src/Broker.antt =====
-- broker/src/main.cpp: the frame handler, the dispatcher, the DLQ logger and the scanner as programs
-- of atomic calls on the shared components. A call under a component's mutex is one step; an
-- operation of the AckEngine is several, since its pushes may wait while it holds mu_. `none` is a
-- program that waits, with the shared state as it was. The threads are in `Broker.Threads`.
pub mod Threads
pub mod Steps
pub mod Copies
pub mod Custody
pub mod Accounts
pub mod Audit
pub mod Restart
pub mod Logging
pub mod Dispatching
pub mod Publishing
pub mod Scheduling
pub mod EndToEnd
pub mod Calls
pub mod Refusals
pub mod AuditText
pub mod DeadLetters
pub mod Leaving
pub mod Acknowledging
pub mod Config
pub mod Descriptors
pub mod Deadlock
pub mod Shutdown
mod Tests
use message_driven_event_que.Prelude.{
  ℕ, ◌+◌, ◌%◌, ◌^◌, Bool, true, false, not, ◌&&◌, List, [], ◌∷◌, ◌++◌, Option, none, some, ◌==◌,
  nat_eq, if◌then◌else◌,
}
use message_driven_event_que.Prelude.Int.{ℤ, pos, int_eq}
use message_driven_event_que.Message.{
  Bytes, ClientId, Message, MessageType, publish, subscribe, ack, nack, heartbeat, event_data,
  error_resp, other,
}
use message_driven_event_que.Protocol.{
  decode_publish, decode_subscribe, encode_frame, encode_ack_frame,
}
use message_driven_event_que.SafeQueue.{SafeQueue, push, try_pop_for}
use message_driven_event_que.TopicRouter.{
  Subscriptions, Target, is_empty, contains, remove, to_string, route,
}
use message_driven_event_que.TopicRouter
use message_driven_event_que.WalWriter.{WalWriter, Record, append, acknowledge}
use message_driven_event_que.WalWriter
use message_driven_event_que.AckEngine.{
  AckEngine, Event, tracked, acked, nacked, gone, woke, Push, to_main, to_dlq,
}
use message_driven_event_que.AckEngine
use message_driven_event_que.TcpServer.{Frame}

-- An operation of the AckEngine. `track` reads the clock while it holds the lock; the scanner has read
-- it before.
pub data Call : Type 0 where
  tracks : Message → ClientId → Call
  acks nacks : ℕ → ClientId → Call
  drops : ClientId → Call
  scans : ℕ → Call

unfoldable pub event : ℕ → Call → Event
event now (tracks msg id) = tracked now msg id
event now (acks msg_id id) = acked msg_id id
event now (nacks msg_id id) = nacked msg_id id
event now (drops id) = gone id
event now (scans at_time) = woke at_time

-- What a thread has still to do. `calls` takes mu_, `unlocks` gives it back. `routes` goes on with
-- the deliveries, `takes_id` publishes a message under a new id, and `appends` pushes the message
-- that it logged.
pub data Program : Type 0 where
  done pops_main pops_dlq reads_clock : Program
  subscribes : Bytes → Bytes → ClientId → Program → Program
  unsubscribes closes erases : ClientId → Program → Program
  routes appends : Message → Program
  takes_id : Bytes → Bytes → Program
  acknowledges : ℕ → Program → Program
  pushes : Push → Program → Program
  calls : Call → Program → Program
  unlocks : Program → Program
  sends : ClientId → Bytes → Program → Program

-- The variables that the threads share. `clients` are the keys of clients_, `open_socks` the
-- descriptors that are open, `sent` what `send_to` gave to open sockets. The last two fields only
-- record what happened: the records given to the log, and the ids on the line "No subscribers".
pub record Shared : Type 0 where
  pub router : Subscriptions
  pub wal : WalWriter
  pub main_queue : SafeQueue Message
  pub dlq : SafeQueue Message
  pub engine : AckEngine
  pub locked : Bool
  pub next_id : ℕ
  pub clock : ℕ
  pub clients : List ClientId
  pub open_socks : List ClientId
  pub sent : List (ClientId × Bytes)
  pub logged : List Record
  pub unrouted : List ℕ

-- {"original_id": "
abbrev id_open : Bytes
id_open =
    123 ∷ 34 ∷ 111 ∷ 114 ∷ 105 ∷ 103 ∷ 105 ∷ 110 ∷ 97 ∷ 108 ∷ 95 ∷ 105 ∷ 100 ∷ 34 ∷ 58 ∷ 32 ∷ 34
    ∷ []

-- ", "original_topic": "
abbrev topic_open : Bytes
topic_open =
    34 ∷ 44 ∷ 32 ∷ 34 ∷ 111 ∷ 114 ∷ 105 ∷ 103 ∷ 105 ∷ 110 ∷ 97 ∷ 108 ∷ 95 ∷ 116 ∷ 111 ∷ 112 ∷ 105
    ∷ 99 ∷ 34 ∷ 58 ∷ 32 ∷ 34 ∷ []

-- "
abbrev topic_close : Bytes
topic_close = 34 ∷ []

-- , "original_body":
abbrev body_open : Bytes
body_open =
    44 ∷ 32 ∷ 34 ∷ 111 ∷ 114 ∷ 105 ∷ 103 ∷ 105 ∷ 110 ∷ 97 ∷ 108 ∷ 95 ∷ 98 ∷ 111 ∷ 100 ∷ 121 ∷ 34
    ∷ 58 ∷ 32 ∷ []

-- {}
abbrev no_body : Bytes
no_body = 123 ∷ 125 ∷ []

-- }
abbrev close : Bytes
close = 125 ∷ []

-- $SYS.dlq
abbrev pub sys_topic : Bytes
sys_topic = 36 ∷ 83 ∷ 89 ∷ 83 ∷ 46 ∷ 100 ∷ 108 ∷ 113 ∷ []

-- The body of the audit message for a dead letter.
unfoldable pub sys_body : Message → Bytes
sys_body msg =
    let body = if is_empty msg.body then no_body else msg.body in
    id_open
    ++ (to_string (pos msg.msg_id)
        ++ (topic_open ++ (msg.topic ++ (topic_close ++ (body_open ++ (body ++ close))))))

-- The dispatcher's loop over the targets.
unfoldable pub deliver_all : Message → List Target → Program
deliver_all msg [] = done
deliver_all msg ((client_id, _) ∷ targets) = calls (tracks msg client_id) (
    sends client_id (encode_frame event_data msg.msg_id msg.topic msg.body)
      (deliver_all msg targets))

-- The pushes of an operation of the AckEngine, and then the rest.
unfoldable pub push_then : List Push → Program → Program
push_then [] p = p
push_then (x ∷ xs) p = pushes x (push_then xs p)

abbrev pub new_message : ℕ → Bytes → Bytes → Message
new_message msg_id topic body = record {
  msg_id = msg_id;
  topic = topic;
  body = body;
  retry_count = 0;
}

-- One step of a program.
unfoldable pub advance : Program → Shared → Option (Program × Shared)
advance done s = none
advance pops_main s =
    let (popped, q) = try_pop_for s.main_queue in
    elim popped [
      | none ↦ some (done, s)
      | some msg ↦ some (routes msg, record s { main_queue = q })
    ]
advance pops_dlq s =
    let (popped, q) = try_pop_for s.dlq in
    elim popped [
      | none ↦ some (done, s)
      | some msg ↦
          some (pushes (to_main msg) (takes_id sys_topic (sys_body msg)), record s { dlq = q })
    ]
advance reads_clock s = some (calls (scans s.clock) done, s)
advance (subscribes topic group id p) s =
    some (p, record s { router = TopicRouter.subscribe topic group id s.router })
advance (unsubscribes id p) s = some (p, record s { router = TopicRouter.unsubscribe id s.router })
advance (closes id p) s = some (p, record s { open_socks = remove id s.open_socks })
advance (erases id p) s = some (p, record s { clients = remove id s.clients })
advance (routes msg) s =
    let (targets, router) = route msg s.router in
    let none_for = if is_empty targets then msg.msg_id ∷ [] else [] in
    some (deliver_all msg targets, record s { router = router; unrouted = s.unrouted ++ none_for })
advance (appends msg) s = some (
  pushes (to_main msg) done,
  record s { wal = append msg s.wal; logged = s.logged ++ WalWriter.publish msg ∷ [] },
)
advance (takes_id topic body) s =
    some
      (appends (new_message s.next_id topic body), record s { next_id = (s.next_id + 1) % 2 ^ 64 })
advance (acknowledges msg_id p) s =
    some (
      p,
      record s { wal = acknowledge msg_id s.wal; logged = s.logged ++ WalWriter.ack msg_id ∷ [] },
    )
advance (pushes (to_main msg) p) s = elim (push msg s.main_queue) [
  | none ↦ none
  | some q ↦ some (p, record s { main_queue = q })
]
advance (pushes (to_dlq msg) p) s = elim (push msg s.dlq) [
  | none ↦ none
  | some q ↦ some (p, record s { dlq = q })
]
advance (calls c p) s =
    let (now_due, engine) = AckEngine.step (event s.clock c) s.engine in
    if s.locked
    then none
    else some (push_then now_due (unlocks p), record s { engine = engine; locked = true })
advance (unlocks p) s = some (p, record s { locked = false })
advance (sends id frame p) s =
    let reached =
      if contains id s.clients && contains id s.open_socks then (id, frame) ∷ [] else [] in
    some (p, record s { sent = s.sent ++ reached })

-- `on_frame`. The server is there before the first frame comes, so the test on `server_ptr` holds.
unfoldable pub on_frame : ClientId → Frame → Program
on_frame id f = elim f.type [
  | subscribe ↦
      let sub = decode_subscribe f.payload in
      if is_empty sub.topic then done else subscribes sub.topic sub.group id done
  | publish ↦
      let pub' = decode_publish f.payload in
      if is_empty pub'.topic
      then done
      else if f.msg_id == 0
      then takes_id pub'.topic pub'.body
      else appends (new_message f.msg_id pub'.topic pub'.body)
  | ack ↦ calls (acks f.msg_id id) (acknowledges f.msg_id done)
  | nack ↦ calls (nacks f.msg_id id) done
  | heartbeat ↦ sends id (encode_ack_frame heartbeat 0) done
  | error_resp ↦ unsubscribes id (calls (drops id) done)
  | event_data ↦ done
  | other b ↦ done
]

-- One round of the dispatcher, of the DLQ logger and of the scanner.
abbrev pub dispatcher_round : Program
dispatcher_round = pops_main

abbrev pub logger_round : Program
logger_round = pops_dlq

abbrev pub scanner_round : Program
scanner_round = reads_clock
