-- ===== src/Broker/Refusals.antt =====
-- What becomes of a message that a client refuses.
use message_driven_event_que.Prelude.{
  ℕ, suc, ◌+◌, ◌<◌, ◌≡◌, refl, ◌∙◌, false, [], ◌∷◌, ◌++◌, none, ◌==◌, if◌then◌else◌, some,
  replicate, length, arith, All, nat_eq, pair_eq,
}
use message_driven_event_que.Prelude.Int.{at_least, int_eq}
use message_driven_event_que.Prelude.Maps.{lookup, erase, lookup-erase}
use message_driven_event_que.Message.{ClientId, Message, nack}
use message_driven_event_que.TopicRouter.{route}
use message_driven_event_que.AckEngine.{Key, InFlight, to_main, to_dlq, dlq_prefix, requeue_or_dlq}
use message_driven_event_que.AckEngine
use message_driven_event_que.TcpServer.{Frame}
use message_driven_event_que.Broker.{done, calls, nacks, Shared, on_frame, event}
use message_driven_event_que.Broker.Threads.{Connection, Broker, dispatches, reads, arrives, run}
use message_driven_event_que.AckEngine.Retries.{delivery}
use message_driven_event_que.Broker.Dispatching.{
  drive, frames_for, steps_for, IsTracked, after_round, every_target, is_target, track_all-lookup,
}
use message_driven_event_que.Broker.Calls.{drive-calls, with_pushes}
use message_driven_event_que.Broker.Scheduling.{run-append, reader_round, dispatcher_part}
use message_driven_event_que.Broker.EndToEnd.{IsIdle}

-- The message as it goes back to the main queue.
abbrev pub retried : InFlight → Message
retried entry = record entry.msg { retry_count = entry.retry_count + 1 }

-- The client's delivery is in flight, and it may be tried again.
abbrev pub MayRetry : ℕ → ClientId → InFlight → Shared → Type 0
MayRetry msg_id id entry s =
    (lookup {K = Key} (msg_id, id) s.engine.in_flight ≡ some entry)
    × (at_least entry.retry_count s.engine.max_retries ≡ false)

-- The delivery is taken out.
abbrev pub requeued : ℕ → ClientId → Shared → Shared
requeued msg_id id s = record s {
  engine = record s.engine { in_flight = erase {K = Key} (msg_id, id) s.engine.in_flight };
  locked = false;
}

pub on_frame-nack :
    (id : ClientId) (f : Frame) → f.type ≡ nack → on_frame id f ≡ calls (nacks f.msg_id id) done
unfolding on_frame
on_frame-nack id f type = rw type refl

nack_again :
    (now msg_id : ℕ) (id : ClientId) (entry : InFlight) (e : AckEngine.AckEngine)
    → lookup {K = Key} (msg_id, id) e.in_flight ≡ some entry
    → at_least entry.retry_count e.max_retries ≡ false
    → AckEngine.step (event now (nacks msg_id id)) e ≡ (
      to_main (retried entry) ∷ [],
      record e { in_flight = erase {K = Key} (msg_id, id) e.in_flight },
    )
unfolding event AckEngine.step AckEngine.nack requeue_or_dlq
nack_again now msg_id id entry e there again = rw (there, AckEngine.nack) (rw again refl)

drive-nack :
    (id : ClientId) (f : Frame) (entry : InFlight) (s : Shared)
    → f.type ≡ nack
    → s.locked ≡ false
    → length s.main_queue.items < s.main_queue.capacity
    → MayRetry f.msg_id id entry s
    → drive 3 (on_frame id f) s
      ≡ some (done, with_pushes (to_main (retried entry) ∷ []) (requeued f.msg_id id s))
unfolding drive
drive-nack id f entry s type free room (there, again) =
    let engine = record s.engine {
      in_flight = erase {K = Key} (f.msg_id, id) s.engine.in_flight;
    } in
    rw (on_frame-nack id f type) (
      drive-calls 0 (nacks f.msg_id id) done s (to_main (retried entry) ∷ []) engine free
        (nack_again s.clock f.msg_id id entry s.engine there again) (omega arith) tt)

-- A client refuses a message that may be tried again, while the broker is otherwise idle: its delivery is
-- taken out, the message goes back to the main queue with its retry count raised, and the next round of
-- the dispatcher routes it anew, to all targets that the router gives for it, also in groups that
-- have acknowledged it. It is sent to those of them that are connected, and watched anew for each. Every
-- other delivery in flight is as it was, and that of the client is gone unless it is a target again;
-- then the broker is idle again.
pub nack-route :
    (i : ℕ) (c : Connection) (f : Frame) (entry : InFlight) (b : Broker)
    → IsIdle i c b
    → f.type ≡ nack
    → MayRetry f.msg_id c.id entry b.shared
    → let again = retried entry in
      let targets = (route again b.shared.router).0 in
      (b' : Broker) × (run
          ((arrives i f ∷ replicate 3 (reads i))
            ++ replicate (suc (suc (steps_for targets))) dispatches)
          b
        ≡ some b')
      × IsIdle i c b'
      × (b'.shared.sent
          ≡ b.shared.sent ++ frames_for again b.shared.clients b.shared.open_socks targets)
      × All (IsTracked again b.shared.clock b'.shared.engine) targets
      × ((k : Key)
          → lookup k b'.shared.engine.in_flight ≡ (
              if is_target again k targets
              then some (delivery (b.shared.clock + b.shared.engine.ack_timeout) k.1 again)
              else if (f.msg_id, c.id) == k
              then none
              else lookup k b.shared.engine.in_flight))
      × (b'.shared.router ≡ (route again b.shared.router).1)
unfolding after_round
nack-route i c f entry b idle type h =
    let again = retried entry in
    let targets = (route again b.shared.router).0 in
    let s1 = with_pushes (to_main again ∷ []) (requeued f.msg_id c.id b.shared) in
    let mid = record b { shared = s1 } in
    let refused = drive-nack c.id f entry b.shared type idle.free (rw idle.empty (idle.room)) h in
    let front : s1.main_queue.items ≡ again ∷ [] = rw idle.empty refl in
    (
      record mid { shared = after_round again [] s1 },
      run-append (arrives i f ∷ replicate 3 (reads i))
            (replicate (suc (suc (steps_for targets))) dispatches) b mid
            (reader_round 3 i c f b s1 idle.there idle.alive idle.reader refused)
          ∙ dispatcher_part again mid idle.dispatcher refl front,
      record {
        there = idle.there;
        alive = idle.alive;
        reader = idle.reader;
        dispatcher = idle.dispatcher;
        free = refl;
        empty = refl;
        room = idle.room;
      },
      refl,
      every_target again b.shared.clock targets s1.engine,
      λ k.
          rw (← lookup-erase {K = Key} (f.msg_id, c.id) k b.shared.engine.in_flight)
            (track_all-lookup again b.shared.clock k targets s1.engine),
      refl,
    )
