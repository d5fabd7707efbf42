-- ===== src/Broker/Publishing.antt =====
-- The way of a published message from the client's frame into the main queue.
use message_driven_event_que.Prelude.{
  ℕ, ◌+◌, ◌%◌, ◌^◌, ◌<◌, ◌≡◌, refl, inl, inr, false, [], ◌∷◌, ◌++◌, some, if◌then◌else◌, ◌==◌,
  nat_eq, Bool-cases, length, ltb_of_lt,
}
use message_driven_event_que.Message.{ClientId, Message, publish}
use message_driven_event_que.SafeQueue.{SafeQueue, push}
use message_driven_event_que.TopicRouter.{is_empty}
use message_driven_event_que.WalWriter.{append, ◌>>=◌}
use message_driven_event_que.WalWriter
use message_driven_event_que.Protocol.{ParsedPublish, decode_publish}
use message_driven_event_que.TcpServer.{Frame}
use message_driven_event_que.TcpServer.Stream.{Sent, Fits, delivered, decode-delivered}
use message_driven_event_que.Broker.{
  done, appends, takes_id, Shared, advance, on_frame, new_message,
}
use message_driven_event_que.Broker.Dispatching.{drive}

-- The message that a client's frame stands for, where `next_id` is the broker's counter.
abbrev pub message_of : Sent → ℕ → Message
message_of m next_id = new_message (if m.msg_id == 0 then next_id else m.msg_id) m.topic m.body

pub push_room :
    (msg : Message) (q : SafeQueue Message)
    → length q.items < q.capacity
    → push msg q ≡ some (record q { items = q.items ++ msg ∷ [] })
unfolding push
push_room msg q room = let fits = ltb_of_lt (length q.items) q.capacity room in rw fits refl

pub drive_logged :
    (msg : Message) (s : Shared)
    → length s.main_queue.items < s.main_queue.capacity
    → drive 2 (appends msg) s
      ≡ some (
        done,
        record s {
          wal = append msg s.wal;
          logged = s.logged ++ WalWriter.publish msg ∷ [];
          main_queue = record s.main_queue { items = s.main_queue.items ++ msg ∷ [] };
        },
      )
unfolding drive advance
drive_logged msg s room = rw (drive, advance, push_room msg s.main_queue room) refl

on_frame_publish :
    (id : ClientId) (f : Frame) (msg_id : ℕ) (parsed : ParsedPublish)
    → f.type ≡ publish
    → f.msg_id ≡ msg_id
    → decode_publish f.payload ≡ parsed
    → is_empty parsed.topic ≡ false
    → on_frame id f ≡ (
        if msg_id == 0
        then takes_id parsed.topic parsed.body
        else appends (new_message msg_id parsed.topic parsed.body))
unfolding on_frame
on_frame_publish id f msg_id parsed type same decoded topic = rw (type, same, decoded, topic) refl

-- The steps of a reader for a PUBLISH frame: one more where the broker chooses the id.
abbrev pub steps_of : ℕ → ℕ
steps_of msg_id = if msg_id == 0 then 3 else 2

-- A PUBLISH frame with a topic, as a client encodes it, handled with room in the main queue and without
-- interruption: the message goes to the log and then, whole, to the end of the queue, under the id of
-- the frame, or where that is 0 under the broker's next id, which moves on. Nothing else changes.
pub drive-on_frame :
    (id : ClientId) (m : Sent) (s : Shared)
    → Fits m
    → m.type ≡ publish
    → is_empty m.topic ≡ false
    → length s.main_queue.items < s.main_queue.capacity
    → let msg = message_of m s.next_id in
      drive (steps_of m.msg_id) (on_frame id (delivered m)) s
      ≡ some (
        done,
        record s {
          wal = append msg s.wal;
          logged = s.logged ++ WalWriter.publish msg ∷ [];
          main_queue = record s.main_queue { items = s.main_queue.items ++ msg ∷ [] };
          next_id = if m.msg_id == 0 then (s.next_id + 1) % 2 ^ 64 else s.next_id;
        },
      )
unfolding drive advance
drive-on_frame id m s fits type topic room =
    let parsed : ParsedPublish = record { topic = m.topic; body = m.body } in
    let program =
      on_frame_publish id (delivered m) m.msg_id parsed type refl (decode-delivered m fits) topic in
    elim (Bool-cases (m.msg_id == 0)) [
      | inl zero_id ↦
          let counted = record s { next_id = (s.next_id + 1) % 2 ^ 64 } in
          rw (program, zero_id) (drive_logged (new_message s.next_id m.topic m.body) counted room)
      | inr own_id ↦
          rw (program, own_id) (drive_logged (new_message m.msg_id m.topic m.body) s room)
    ]
