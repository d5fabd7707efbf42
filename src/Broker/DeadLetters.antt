-- ===== src/Broker/DeadLetters.antt =====
-- The way of a message that is given up: from the AckEngine through the dead letters back into the main
-- queue, with an audit message behind it.
use message_driven_event_que.Prelude.{
  ℕ, ◌+◌, ◌%◌, ◌^◌, ◌<◌, ◌≤◌, ◌≡◌, refl, ◌∙◌, true, false, List, [], ◌∷◌, ◌++◌, none, some, length,
  arith, nat_eq, pair_eq, ◌==◌, if◌then◌else◌, append_assoc, append-nil,
}
use message_driven_event_que.Prelude.Int.{at_least, int_eq}
use message_driven_event_que.Prelude.Text.{codes}
use message_driven_event_que.Prelude.Maps.{lookup, erase, lookup-erase}
use message_driven_event_que.Broker.Publishing.{drive_logged}
use message_driven_event_que.Message.{Bytes, ClientId, Message, nack}
use message_driven_event_que.SafeQueue.{try_pop_for}
use message_driven_event_que.WalWriter.{append}
use message_driven_event_que.WalWriter
use message_driven_event_que.AckEngine.{Key, InFlight, to_main, to_dlq, requeue_or_dlq}
use message_driven_event_que.AckEngine
use message_driven_event_que.TcpServer.{Frame}
use message_driven_event_que.Broker.{
  done, pops_dlq, takes_id, appends, pushes, nacks, Shared, advance, on_frame, event, sys_topic,
  sys_body, new_message, logger_round,
}
use message_driven_event_que.WalWriter.Format.{encode, append-encode}
use message_driven_event_que.Broker.AuditText.{IsAudit, sys_body-IsAudit}
use message_driven_event_que.Broker.Dispatching.{drive}
use message_driven_event_que.Broker.Calls.{
  drive-calls, drive_step, with_pushes, filled, HasRoom, push_main, one_in,
}
use message_driven_event_que.Broker.Refusals.{on_frame-nack, requeued}

-- The message as it goes to the dead letters, and the audit message for it.
abbrev pub buried : InFlight → Message
buried entry = record {
  msg_id = entry.msg.msg_id;
  topic = codes "$DLQ." ++ entry.msg.topic;
  body = entry.msg.body;
  retry_count = 0;
}

abbrev audit_of : Message → ℕ → Message
audit_of dead next_id = new_message next_id sys_topic (sys_body dead)

-- The client's delivery is in flight for the last time.
abbrev pub IsLast : ℕ → ClientId → InFlight → Shared → Type 0
IsLast msg_id id entry s =
    (lookup {K = Key} (msg_id, id) s.engine.in_flight ≡ some entry)
    × (at_least entry.retry_count s.engine.max_retries ≡ true)

nack_last :
    (now msg_id : ℕ) (id : ClientId) (entry : InFlight) (e : AckEngine.AckEngine)
    → lookup {K = Key} (msg_id, id) e.in_flight ≡ some entry
    → at_least entry.retry_count e.max_retries ≡ true
    → AckEngine.step (event now (nacks msg_id id)) e ≡ (
      to_dlq (buried entry) ∷ [],
      record e { in_flight = erase {K = Key} (msg_id, id) e.in_flight },
    )
unfolding event AckEngine.step AckEngine.nack requeue_or_dlq
nack_last now msg_id id entry e there last = rw (there, AckEngine.nack) (rw last refl)

abbrev after_nack : ℕ → ClientId → InFlight → Shared → Shared
after_nack msg_id id entry s = with_pushes (to_dlq (buried entry) ∷ []) (requeued msg_id id s)

drive_last :
    (id : ClientId) (f : Frame) (entry : InFlight) (s : Shared)
    → f.type ≡ nack
    → s.locked ≡ false
    → length s.dlq.items < s.dlq.capacity
    → IsLast f.msg_id id entry s
    → drive 3 (on_frame id f) s ≡ some (done, after_nack f.msg_id id entry s)
unfolding drive
drive_last id f entry s type free room (there, last) =
    let engine = record s.engine {
      in_flight = erase {K = Key} (f.msg_id, id) s.engine.in_flight;
    } in
    rw (on_frame-nack id f type) (
      drive-calls 0 (nacks f.msg_id id) done s (to_dlq (buried entry) ∷ []) engine free
        (nack_last s.clock f.msg_id id entry s.engine there last) tt (omega arith))

-- What a round of the DLQ logger leaves behind.
abbrev after_logger : Message → List Message → Shared → Shared
after_logger dead rest s =
    let audit = audit_of dead s.next_id in
    record s {
      dlq = record s.dlq { items = rest };
      main_queue = filled (dead ∷ audit ∷ []) s.main_queue;
      wal = append audit s.wal;
      logged = s.logged ++ WalWriter.publish audit ∷ [];
      next_id = (s.next_id + 1) % 2 ^ 64;
    }

popped :
    (dead : Message) (rest : List Message) (s : Shared)
    → s.dlq.items ≡ dead ∷ rest
    → advance pops_dlq s
      ≡ some (
        pushes (to_main dead) (takes_id sys_topic (sys_body dead)),
        record s { dlq = record s.dlq { items = rest } },
      )
unfolding advance try_pop_for
popped dead rest s front = rw front refl

numbered :
    (s : Shared) (body : Bytes)
    → advance (takes_id sys_topic body) s
      ≡ some (
        appends (new_message s.next_id sys_topic body),
        record s { next_id = (s.next_id + 1) % 2 ^ 64 },
      )
unfolding advance
numbered s body = refl

drive-logger_round :
    (dead : Message) (rest : List Message) (s : Shared)
    → s.dlq.items ≡ dead ∷ rest
    → HasRoom (dead ∷ audit_of dead s.next_id ∷ []) s.main_queue
    → drive 5 logger_round s ≡ some (done, after_logger dead rest s)
drive-logger_round dead rest s front room =
    let audit = audit_of dead s.next_id in
    let s1 = record s { dlq = record s.dlq { items = rest } } in
    let (pushed, room1) = one_in dead (audit ∷ []) s.main_queue room in
    let q = filled (dead ∷ []) s.main_queue in
    let s2 = record s1 { main_queue = q } in
    let audited = takes_id sys_topic (sys_body dead) in
    let s3 = record s2 { next_id = (s.next_id + 1) % 2 ^ 64 } in
    drive_step 4 pops_dlq (pushes (to_main dead) audited) s s1 (popped dead rest s front)
    ∙ drive_step 3 (pushes (to_main dead) audited) audited s1 s2
        (push_main dead audited s1 q pushed)
    ∙ drive_step 2 audited (appends audit) s2 s3 (numbered s2 (sys_body dead))
    ∙ drive_logged audit s3 (omega (arith, room1))
    ∙ rw (append_assoc s.main_queue.items (dead ∷ []) (audit ∷ [])) refl

-- A client refuses a message for the last time, and the DLQ logger makes a round, with room for two
-- messages in the main queue and none among the dead letters: the client's delivery is no longer in
-- flight, and every other one is as it was; the main queue gets the message under its topic with
-- `$DLQ.` in front, and behind it an audit message under the broker's next id and the topic
-- `$SYS.dlq`, whose body names the message's id in decimal, that same topic, and its body (`{}` for an empty one).
-- Of the two only the audit message goes to the log, as the bytes of its record at the end of the active
-- buffer; no dead letter is left, and mu_ is free.
pub nack-logger_round :
    (id : ClientId) (f : Frame) (entry : InFlight) (s : Shared)
    → f.type ≡ nack
    → s.locked ≡ false
    → s.dlq.items ≡ []
    → 0 < s.dlq.capacity
    → length s.main_queue.items + 2 ≤ s.main_queue.capacity
    → IsLast f.msg_id id entry s
    → (s1 : Shared) × (drive 3 (on_frame id f) s ≡ some (done, s1))
      × (s2 : Shared) × (drive 5 logger_round s1 ≡ some (done, s2))
      × (audit : Message) × IsAudit (buried entry) s.next_id audit
      × (s2.main_queue.items ≡ s.main_queue.items ++ buried entry ∷ audit ∷ [])
      × (s2.dlq.items ≡ [])
      × (s2.logged ≡ s.logged ++ WalWriter.publish audit ∷ [])
      × (s2.wal
          ≡ record s.wal { active_buf = s.wal.active_buf ++ encode (WalWriter.publish audit) })
      × ((k : Key)
          → lookup k s2.engine.in_flight
            ≡ (if (f.msg_id, id) == k then none else lookup k s.engine.in_flight))
      × (s2.locked ≡ false)
nack-logger_round id f entry s type free empty cap room h =
    let s1 = after_nack f.msg_id id entry s in
    let front : s1.dlq.items ≡ buried entry ∷ [] = rw empty refl in
    let key : Key = (f.msg_id, id) in
    (
      s1,
      drive_last id f entry s type free (rw empty cap) h,
      after_logger (buried entry) [] s1,
      drive-logger_round (buried entry) [] s1 front (rw (append-nil s.main_queue.items) room),
      audit_of (buried entry) s.next_id,
      sys_body-IsAudit (buried entry) s.next_id,
      rw (append-nil s.main_queue.items) refl,
      refl,
      refl,
      append-encode (audit_of (buried entry) s.next_id) s.wal,
      λ k. lookup-erase key k s.engine.in_flight,
      refl,
    )
