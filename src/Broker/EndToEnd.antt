-- ===== src/Broker/EndToEnd.antt =====
-- A publication from the bytes on one client's connection to the frames on the others', through all
-- components.
use mathlib.Core.List.{flatten}
use message_driven_event_que.Prelude.{
  ℕ, suc, ◌+◌, ◌%◌, ◌^◌, ◌<◌, ◌≡◌, refl, sym, ap, ◌∙◌, false, true, List, [], ◌∷◌, ◌++◌, some,
  get_elem?, replicate, map, append_assoc, All, if◌then◌else◌, ◌==◌, nat_eq, append-nil,
}
use message_driven_event_que.Message.{Bytes, ClientId, Message, publish}
use message_driven_event_que.TopicRouter.{Subscriptions, is_empty, route}
use message_driven_event_que.WalWriter.{WalWriter, append}
use message_driven_event_que.WalWriter.Format.{append-encode}
use message_driven_event_que.WalWriter.Format as WalFormat
use message_driven_event_que.WalWriter.Replay.{log}
use message_driven_event_que.WalWriter
use message_driven_event_que.TcpServer.{sentinel, handle_client}
use message_driven_event_que.TcpServer.Stream.{
  Sent, Fits, encode, delivered, nothing_left, handle_client-encode,
}
use message_driven_event_que.Broker.{done, Shared}
use message_driven_event_que.Broker.Threads.{
  Connection, Broker, Move, dispatches, reads, arrives, run,
}
use message_driven_event_que.Broker.Dispatching.{frames_for, steps_for, after_round}
use message_driven_event_que.Broker.Publishing.{message_of, steps_of, drive-on_frame}
use message_driven_event_que.Broker.Scheduling.{run-append, reader_round, dispatcher_part}

-- Nothing is under way: the reader of connection `i` and the dispatcher are between two rounds, mu_ is
-- free, and the main queue is empty with room for a message.
pub record IsIdle (i : ℕ) (c : Connection) (b : Broker) : Type 0 where
  pub there : get_elem? b.connections i ≡ some c
  pub alive : c.alive ≡ true
  pub reader : c.program ≡ done
  pub dispatcher : b.dispatcher ≡ done
  pub free : b.shared.locked ≡ false
  pub empty : b.shared.main_queue.items ≡ []
  pub room : 0 < b.shared.main_queue.capacity

-- A PUBLISH frame with a topic, as a client encodes it.
pub record IsPublication (m : Sent) : Type 0 where
  pub fits : Fits m
  pub type : m.type ≡ publish
  pub topic : is_empty m.topic ≡ false

-- What the reader's steps for a publication leave behind.
abbrev publishes : Sent → Shared → Shared
publishes m s =
    let msg = message_of m s.next_id in
    record s {
      wal = append msg s.wal;
      logged = s.logged ++ WalWriter.publish msg ∷ [];
      main_queue = record s.main_queue { items = s.main_queue.items ++ msg ∷ [] };
      next_id = if m.msg_id == 0 then (s.next_id + 1) % 2 ^ 64 else s.next_id;
    }

reader_part :
    (i : ℕ) (c : Connection) (m : Sent) (b : Broker)
    → IsIdle i c b
    → IsPublication m
    → run (arrives i (delivered m) ∷ replicate (steps_of m.msg_id) (reads i)) b
      ≡ some (record b { shared = publishes m b.shared })
reader_part i c m b idle p =
    reader_round (steps_of m.msg_id) i c (delivered m) b (publishes m b.shared) idle.there
      idle.alive idle.reader
      (drive-on_frame c.id m b.shared p.fits p.type p.topic (rw idle.empty (idle.room)))

-- The broker's next id after a publication.
abbrev pub id_after : Sent → ℕ → ℕ
id_after m next_id = if m.msg_id == 0 then (next_id + 1) % 2 ^ 64 else next_id

-- The messages of the publications.
abbrev pub messages : List Sent → ℕ → List Message
messages [] next_id = []
messages (m ∷ ms) next_id = message_of m next_id ∷ messages ms (id_after m next_id)

-- The frames for them, as the router chooses the targets one message after another.
abbrev pub frames_of :
    List Message → Subscriptions → List ClientId → List ClientId → List (ClientId × Bytes)
frames_of [] router clients socks = []
frames_of (msg ∷ msgs) router clients socks =
    frames_for msg clients socks (route msg router).0
    ++ frames_of msgs (route msg router).1 clients socks

-- The moves: for each publication its arrival, the steps of its reader, and a round of the dispatcher.
abbrev pub moves_of : ℕ → List Sent → ℕ → Subscriptions → List Move
moves_of i [] next_id router = []
moves_of i (m ∷ ms) next_id router =
    let msg = message_of m next_id in
    (arrives i (delivered m) ∷ replicate (steps_of m.msg_id) (reads i))
    ++ (replicate (suc (suc (steps_for (route msg router).0))) dispatches
        ++ moves_of i ms (id_after m next_id) (route msg router).1)

round_trip :
    (i : ℕ) (c : Connection) (m : Sent) (b : Broker) (ms : List Move)
    → IsIdle i c b
    → IsPublication m
    → let msg = message_of m b.shared.next_id in
      run
        ((arrives i (delivered m) ∷ replicate (steps_of m.msg_id) (reads i))
          ++ (replicate (suc (suc (steps_for (route msg b.shared.router).0))) dispatches ++ ms))
        b
      ≡ run ms (record b { shared = after_round msg [] (publishes m b.shared) })
round_trip i c m b ms idle p =
    let msg = message_of m b.shared.next_id in
    let logged = record b { shared = publishes m b.shared } in
    let front : logged.shared.main_queue.items ≡ msg ∷ [] = rw idle.empty refl in
    run-append (arrives i (delivered m) ∷ replicate (steps_of m.msg_id) (reads i)) _ b logged
      (reader_part i c m b idle p)
    ∙ run-append (replicate (suc (suc (steps_for (route msg b.shared.router).0))) dispatches) ms
        logged _ (dispatcher_part msg logged idle.dispatcher idle.free front)

quiet_again :
    (i : ℕ) (c : Connection) (m : Sent) (b : Broker)
    → IsIdle i c b
    → IsIdle i c (record b {
      shared = after_round (message_of m b.shared.next_id) [] (publishes m b.shared);
    })
unfolding after_round
quiet_again i c m b idle = record {
  there = idle.there;
  alive = idle.alive;
  reader = idle.reader;
  dispatcher = idle.dispatcher;
  free = refl;
  empty = refl;
  room = idle.room;
}

-- The log with the records of the messages behind it.
abbrev pub with_records : List Message → WalWriter → WalWriter
with_records msgs w = record w { active_buf = w.active_buf ++ log (map WalWriter.publish msgs) }

with_more :
    (msg : Message) (msgs : List Message) (w : WalWriter)
    → with_records msgs (append msg w) ≡ with_records (msg ∷ msgs) w
with_more msg msgs w = rw (append-encode msg w) (
    ap (λ (l : Bytes). record w { active_buf = l })
      (append_assoc w.active_buf (WalFormat.encode (WalWriter.publish msg)) _))

-- What a stretch of publications leaves behind.
abbrev pub Published : List Sent → Shared → Shared → Type 0
Published ms s s' =
    let msgs = messages ms s.next_id in
    (s'.sent ≡ s.sent ++ frames_of msgs s.router s.clients s.open_socks)
    × (s'.logged ≡ s.logged ++ map WalWriter.publish msgs)
    × (s'.wal ≡ with_records msgs s.wal)

one_more :
    (m : Sent) (ms : List Sent) (s s' : Shared)
    → let msg = message_of m s.next_id in
      Published ms (after_round msg [] (publishes m s)) s' → Published (m ∷ ms) s s'
unfolding after_round
one_more m ms s s' (sent, logged, wal) = (
  sent ∙ append_assoc s.sent _ _,
  logged ∙ append_assoc s.logged _ _,
  wal ∙ with_more (message_of m s.next_id) (messages ms (id_after m s.next_id)) s.wal,
)

whole_stretch :
    (i : ℕ) (c : Connection) (ms : List Sent) (b : Broker)
    → IsIdle i c b
    → All IsPublication ms
    → (b' : Broker) × (run (moves_of i ms b.shared.next_id b.shared.router) b ≡ some b')
      × IsIdle i c b'
      × Published ms b.shared b'.shared
unfolding run after_round
whole_stretch i c [] b idle p =
    let kept =
      ap (λ (l : Bytes). record b.shared.wal { active_buf = l })
        (sym (append-nil b.shared.wal.active_buf)) in
    (b, refl, idle, (sym (append-nil b.shared.sent), sym (append-nil b.shared.logged), kept))
whole_stretch i c (m ∷ ms) b idle (p, ps) =
    let next = record b {
      shared = after_round (message_of m b.shared.next_id) [] (publishes m b.shared);
    } in
    let (b', ran, idle', facts) = whole_stretch i c ms next (quiet_again i c m b idle) ps in
    (b', round_trip i c m b _ idle p ∙ ran, idle', one_more m ms b.shared b'.shared facts)

fitting : (ms : List Sent) → All IsPublication ms → All Fits ms
fitting [] p = tt
fitting (m ∷ ms) (p, ps) = (p.fits, fitting ms ps)

-- A client of an idle broker publishes, its bytes cut into any pieces on their way: the server's reader
-- hands its frames over whole and in order, and when the reader's steps for each frame and a round
-- of the dispatcher have been made in turn, each target that the router chooses for a message, one
-- message after another, has been sent the frame of the message if it is connected, in the order of the
-- publications; a record of each message has been put at the end of the log's buffer, and nothing
-- else; and the broker is idle again.
pub end_to_end :
    (i : ℕ) (c : Connection) (ms : List Sent) (b : Broker) (chunks : List Bytes)
    → IsIdle i c b
    → All IsPublication ms
    → flatten chunks ≡ flatten (map encode ms)
    → (handle_client chunks ≡ map delivered ms ++ sentinel ∷ [])
      × (b' : Broker) × (run (moves_of i ms b.shared.next_id b.shared.router) b ≡ some b')
      × IsIdle i c b'
      × Published ms b.shared b'.shared
end_to_end i c ms b chunks idle p cut =
    let whole =
      handle_client-encode ms [] chunks (fitting ms p) nothing_left
        (cut ∙ sym (append-nil (flatten (map encode ms)))) in
    let (b', ran, idle', facts) = whole_stretch i c ms b idle p in (whole.0, b', ran, idle', facts)
