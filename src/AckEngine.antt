-- ===== src/AckEngine.antt =====
-- broker/include/AckEngine.hpp and broker/src/AckEngine.cpp: the deliveries that wait for an
-- acknowledgement. Each operation holds `mu_` from its first line to its last, so it is one function
-- on the engine. The two queues are shared with other threads: an operation gives the pushes that it
-- makes, in order; each may wait for room, with the lock held. Time is counted in the clock's ticks.
pub mod Keys
pub mod Expiry
pub mod Conservation
pub mod Invariant
pub mod Deadlines
pub mod Disconnection
pub mod Redelivery
pub mod Retries
mod Tests
use message_driven_event_que.Prelude.{
  ℕ, ◌+◌, Bool, true, false, ◌&&◌, ◌||◌, List, [], ◌∷◌, ◌++◌, Option, none, some, ◌==◌, nat_eq,
  pair_eq, ltb, if◌then◌else◌,
}
use message_driven_event_que.Prelude.Int.{ℤ, int_eq, ltb_ℤ, at_least}
use message_driven_event_que.Prelude.Maps.{lookup, erase, insert_sorted}
use message_driven_event_que.Message.{Bytes, ClientId, Message}
use message_driven_event_que.SafeQueue.{SafeQueue, push}

-- `std::pair<uint64_t, ClientId>` and its order.
abbrev pub Key : Type 0
Key = ℕ × ClientId

abbrev pub lt_key : Key → Key → Bool
lt_key (a, c) (b, d) = ltb a b || (a == b && ltb_ℤ c d)

pub record InFlight : Type 0 where
  pub msg : Message
  pub subscriber_id : ClientId
  pub deadline : ℕ
  pub retry_count : ℕ

-- `std::map`, in the order of the keys.
abbrev pub Flights : Type 0
Flights = List (Key × InFlight)

abbrev pub DeadlineEntry : Type 0
DeadlineEntry = ℕ × Key

abbrev pub lt_entry : DeadlineEntry → DeadlineEntry → Bool
lt_entry (t, k) (u, j) = ltb t u || (t == u && lt_key k j)

pub record AckEngine : Type 0 where
  pub ack_timeout : ℕ
  pub max_retries : ℤ
  pub in_flight : Flights
  pub deadlines : List DeadlineEntry

-- `main_queue_.push` and `dlq_.push`
pub data Push : Type 0 where
  to_main to_dlq : Message → Push

-- The priority queue, the least entry first; of equal entries it does not matter which is first.
unfoldable pub push_deadline : DeadlineEntry → List DeadlineEntry → List DeadlineEntry
push_deadline d [] = d ∷ []
push_deadline d (x ∷ xs) =
    let later = push_deadline d xs in if lt_entry d x then d ∷ x ∷ xs else x ∷ later

unfoldable pub track : ℕ → Message → ClientId → AckEngine → AckEngine
track now msg subscriber_id e =
    let deadline = now + e.ack_timeout in
    let key : Key = (msg.msg_id, subscriber_id) in
    let entry : InFlight = record {
      msg = msg;
      subscriber_id = subscriber_id;
      deadline = deadline;
      retry_count = msg.retry_count;
    } in
    record e {
      in_flight = insert_sorted lt_key key entry e.in_flight;
      deadlines = push_deadline (deadline, key) e.deadlines;
    }

unfoldable pub ack : ℕ → ClientId → AckEngine → AckEngine
ack msg_id id e = record e { in_flight = erase (msg_id, id) e.in_flight }

-- "$DLQ."
abbrev pub dlq_prefix : Bytes
dlq_prefix = 36 ∷ 68 ∷ 76 ∷ 81 ∷ 46 ∷ []

-- The caller erases the entry, so the deadline and the count that this writes back to it are lost.
-- A count below `max_retries`, an `int`, does not overflow.
unfoldable pub requeue_or_dlq : ℤ → InFlight → Push
requeue_or_dlq max_retries entry =
    let dlq_msg : Message = record {
      msg_id = entry.msg.msg_id;
      topic = dlq_prefix ++ entry.msg.topic;
      body = entry.msg.body;
      retry_count = 0;
    } in
    let requeue_msg = record entry.msg { retry_count = entry.retry_count + 1 } in
    if at_least entry.retry_count max_retries then to_dlq dlq_msg else to_main requeue_msg

unfoldable pub nack : ℕ → ClientId → AckEngine → List Push × AckEngine
nack msg_id id e = elim (lookup (msg_id, id) e.in_flight) [
  | none ↦ ([], e)
  | some entry ↦ (
    requeue_or_dlq e.max_retries entry ∷ [],
    record e { in_flight = erase (msg_id, id) e.in_flight },
  )
]

-- The loop of `client_disconnected` over the map.
unfoldable pub fail_client : ℤ → ClientId → Flights → List Push × Flights
fail_client max_retries id [] = ([], [])
fail_client max_retries id ((k, entry) ∷ fl) =
    let (pushes, rest) = fail_client max_retries id fl in
    if entry.subscriber_id == id
    then (requeue_or_dlq max_retries entry ∷ pushes, rest)
    else (pushes, (k, entry) ∷ rest)

unfoldable pub client_disconnected : ClientId → AckEngine → List Push × AckEngine
client_disconnected id e =
    let (pushes, rest) = fail_client e.max_retries id e.in_flight in
    (pushes, record e { in_flight = rest })

-- The delivery that a deadline taken from the queue is about: `none` if it is gone (acknowledged or
-- removed), or tracked again since, with a later deadline.
unfoldable pub due : DeadlineEntry → Flights → Option InFlight
due (t, k) fl = elim (lookup k fl) [
  | none ↦ none
  | some entry ↦ if ltb t entry.deadline then none else some entry
]

-- The inner loop of `redelivery_loop`.
unfoldable pub expire :
    ℤ → ℕ → List DeadlineEntry → Flights → List Push × (List DeadlineEntry × Flights)
expire max_retries now [] fl = ([], ([], fl))
expire max_retries now ((t, k) ∷ ds) fl = elim (ltb now t) [
  | true ↦ ([], ((t, k) ∷ ds, fl))
  | false ↦ elim (due (t, k) fl) [
    | none ↦ expire max_retries now ds fl
    | some entry ↦
        let (pushes, left) = expire max_retries now ds (erase k fl) in
        (requeue_or_dlq max_retries entry ∷ pushes, left)
  ]
]

-- One round of `redelivery_loop`.
unfoldable pub redelivery : ℕ → AckEngine → List Push × AckEngine
redelivery now e =
    let (pushes, (ds, fl)) = expire e.max_retries now e.deadlines e.in_flight in
    (pushes, record e { in_flight = fl; deadlines = ds })

-- A call of another thread, or a round of the scanner, in the order in which they held the lock.
pub data Event : Type 0 where
  tracked : ℕ → Message → ClientId → Event
  acked nacked : ℕ → ClientId → Event
  gone : ClientId → Event
  woke : ℕ → Event

unfoldable pub step : Event → AckEngine → List Push × AckEngine
step (tracked now msg id) e = ([], track now msg id e)
step (acked msg_id id) e = ([], ack msg_id id e)
step (nacked msg_id id) e = nack msg_id id e
step (gone id) e = client_disconnected id e
step (woke now) e = redelivery now e

unfoldable pub run : List Event → AckEngine → List Push × AckEngine
run [] e = ([], e)
run (v ∷ vs) e = let (first, e) = step v e in let (later, e) = run vs e in (first ++ later, e)

abbrev pub start : ℕ → ℤ → AckEngine
start ack_timeout max_retries = record {
  ack_timeout = ack_timeout;
  max_retries = max_retries;
  in_flight = [];
  deadlines = [];
}
