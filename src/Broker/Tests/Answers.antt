-- ===== src/Broker/Tests/Answers.antt =====
-- A client that refuses a message, and one that leaves.
use message_driven_event_que.Prelude.{
  ℕ, suc, ◌+◌, ◌≡◌, refl, true, false, List, [], ◌∷◌, ◌++◌, some, none, replicate, append-nil,
  arith, All, nat_eq, pair_eq, ◌==◌, if◌then◌else◌,
}
use message_driven_event_que.Prelude.Int.{pos, int_eq}
use message_driven_event_que.Prelude.Maps.{lookup, insert_sorted}
use message_driven_event_que.Message.{Message, ack, nack}
use message_driven_event_que.TopicRouter.{contains, route}
use message_driven_event_que.TopicRouter.Reach.{clients}
use message_driven_event_que.WalWriter.{Record, append, recovered}
use message_driven_event_que.WalWriter.Replay.{log, find}
use message_driven_event_que.Broker.Acknowledging.{bytes_of, with_ack, ack-recovered}
use message_driven_event_que.WalWriter
use message_driven_event_que.AckEngine.{
  Key, InFlight, tracked, client_disconnected, fail_client, requeue_or_dlq, track, step,
}
use message_driven_event_que.AckEngine
use message_driven_event_que.AckEngine.Invariant.{run-IsWatched}
use message_driven_event_que.AckEngine.Disconnection.{spared}
use message_driven_event_que.TcpServer.{Frame}
use message_driven_event_que.Broker.{Shared, done, on_frame, logger_round}
use message_driven_event_que.Broker.Threads.{
  Connection, Broker, dispatches, reads, arrives, run, disconnect,
}
use message_driven_event_que.Broker.Dispatching.{drive, frames_for, steps_for, IsTracked, is_target}
use message_driven_event_que.AckEngine.Retries
use message_driven_event_que.Broker.EndToEnd.{IsIdle}
use message_driven_event_que.Broker.Refusals.{retried, nack-route}
use message_driven_event_que.Broker.DeadLetters.{buried, nack-logger_round}
use message_driven_event_que.Broker.AuditText.{IsAudit}
use message_driven_event_que.WalWriter.Format.{encode}
use message_driven_event_que.Broker.Calls.{mains, deads, filled, steps_with}
use message_driven_event_que.Broker.Leaving.{drive-disconnect}
use message_driven_event_que.Broker.Tests.{four, note, empty_broker, ready}

abbrev delivery : ℕ → InFlight
delivery retries = record {
  msg = record (note 1) { retry_count = retries };
  subscriber_id = four;
  deadline = 10;
  retry_count = retries;
}

abbrev refusal : Frame
refusal = record { type = nack; msg_id = 1; payload = [] }

-- Message 1 is in flight to client 4, after so many retries of 3.
abbrev waiting_for : ℕ → Shared
waiting_for retries = record ready {
  main_queue = record { items = []; capacity = 2 };
  dlq = record { items = []; capacity = 2 };
  engine = record (AckEngine.start 10 (pos 3)) {
    in_flight = ((1, four), delivery retries) ∷ [];
    deadlines = (10, (1, four)) ∷ [];
  };
}

abbrev reader : Connection
reader = record { id = four; alive = true; program = done }

abbrev attentive : Broker
attentive = record empty_broker { connections = reader ∷ []; shared = waiting_for 0 }

still_there : lookup {K = Key} (1, four) (waiting_for 0).engine.in_flight ≡ some (delivery 0)
unfolding lookup
still_there = refl

nack-route_example :
    let again = retried (delivery 0) in
    let targets = (route again attentive.shared.router).0 in
    (b' : Broker) × (run
        ((arrives 0 refusal ∷ replicate 3 (reads 0))
          ++ replicate (suc (suc (steps_for targets))) dispatches)
        attentive
      ≡ some b')
    × IsIdle 0 reader b'
    × (b'.shared.sent
        ≡ attentive.shared.sent
          ++ frames_for again attentive.shared.clients attentive.shared.open_socks targets)
    × All (IsTracked again attentive.shared.clock b'.shared.engine) targets
    × ((k : Key)
        → lookup k b'.shared.engine.in_flight ≡ (
            if is_target again k targets
            then some (
                Retries.delivery
                  (attentive.shared.clock + attentive.shared.engine.ack_timeout)
                  k.1
                  again)
            else if (1, four) == k
            then none
            else lookup k attentive.shared.engine.in_flight))
    × (b'.shared.router ≡ (route again attentive.shared.router).1)
nack-route_example =
    nack-route 0 reader refusal (delivery 0) attentive
      (record {
        there = refl;
        alive = refl;
        reader = refl;
        dispatcher = refl;
        free = refl;
        empty = refl;
        room = omega arith;
      })
      refl (still_there, refl)

last_one : lookup {K = Key} (1, four) (waiting_for 3).engine.in_flight ≡ some (delivery 3)
unfolding lookup
last_one = refl

nack-logger_round_example :
    let s = waiting_for 3 in
    (s1 : Shared) × (drive 3 (on_frame four refusal) s ≡ some (done, s1))
    × (s2 : Shared) × (drive 5 logger_round s1 ≡ some (done, s2))
    × (audit : Message) × IsAudit (buried (delivery 3)) s.next_id audit
    × (s2.main_queue.items ≡ s.main_queue.items ++ buried (delivery 3) ∷ audit ∷ [])
    × (s2.dlq.items ≡ [])
    × (s2.logged ≡ s.logged ++ WalWriter.publish audit ∷ [])
    × (s2.wal ≡ record s.wal { active_buf = s.wal.active_buf ++ encode (WalWriter.publish audit) })
    × ((k : Key)
        → lookup k s2.engine.in_flight
          ≡ (if (1, four) == k then none else lookup k s.engine.in_flight))
    × (s2.locked ≡ false)
nack-logger_round_example =
    nack-logger_round four refusal (delivery 3) (waiting_for 3) refl refl refl (omega arith)
      (omega arith) (last_one, refl)

abbrev tracking : Shared
tracking = record (waiting_for 0) {
  engine = (AckEngine.run (tracked 0 (note 1) four ∷ []) (AckEngine.start 10 (pos 3))).1;
}

drive-disconnect_example :
    let ps = (client_disconnected four tracking.engine).0 in
    (s' : Shared) × (drive (suc (suc (suc (suc (steps_with ps 1))))) (disconnect four) tracking
      ≡ some (done, s'))
    × (contains four s'.open_socks ≡ false)
    × (contains four s'.clients ≡ false)
    × ((msg : Message) → contains four (clients (route msg s'.router).0) ≡ false)
    × ((k : Key) → lookup k s'.engine.in_flight ≡ spared four (lookup k tracking.engine.in_flight))
    × (s'.main_queue ≡ filled (mains ps) tracking.main_queue)
    × (s'.dlq ≡ filled (deads ps) tracking.dlq)
    × (s'.locked ≡ false)
unfolding AckEngine.run step track insert_sorted client_disconnected fail_client requeue_or_dlq
drive-disconnect_example =
    drive-disconnect four tracking refl (run-IsWatched 10 (pos 3) (tracked 0 (note 1) four ∷ []))
      (omega arith) tt

abbrev receipt : Frame
receipt = record { type = ack; msg_id = 1; payload = [] }

abbrev published_one : List Record
published_one = WalWriter.publish (note 1) ∷ []

-- The log holds message 1.
abbrev holding_one : Shared
holding_one = record (waiting_for 0) {
  wal = record (waiting_for 0).wal { file = log published_one; flush_buf = []; active_buf = [] };
}

ack-recovered_example :
    let s = holding_one in
    (s' : Shared) × (drive 3 (on_frame four receipt) s ≡ some (done, s'))
    × ((k : Key)
        → lookup k s'.engine.in_flight
          ≡ (if (1, four) == k then none else lookup k s.engine.in_flight))
    × (s'.wal ≡ with_ack 1 s.wal)
    × (s'.logged ≡ s.logged ++ WalWriter.ack 1 ∷ [])
    × (s'.locked ≡ false)
    × (find 1 (recovered (bytes_of s'.wal ++ log [])) ≡ none)
ack-recovered_example =
    ack-recovered four receipt holding_one published_one [] refl refl
      (append-nil (log published_one))
      ((omega arith, omega arith, omega arith, refl), (omega arith, tt))
