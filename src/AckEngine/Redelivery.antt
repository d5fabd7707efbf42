-- ===== src/AckEngine/Redelivery.antt =====
-- What an operation does with the deliveries in flight: which it takes out of the map, and what it
-- pushes for them.
use message_driven_event_que.Prelude.{ℕ, ◌+◌, ◌≡◌, inl, inr, arith, nat_eq, pair_eq, Option-cases}
use message_driven_event_que.Prelude.Int.{int_eq}
use message_driven_event_que.Prelude.Maps.{lookup}
use message_driven_event_que.Message.{ClientId}
use message_driven_event_que.AckEngine.{
  AckEngine, Key, Push, redelivery, Event, step, client_disconnected, nack, tracked, acked, nacked,
  gone, woke,
}
use message_driven_event_que.AckEngine.Expiry.{kept, expire-lookup}
use message_driven_event_que.AckEngine.Disconnection.{spared, fail_client-lookup}
use message_driven_event_que.AckEngine.Conservation.{
  weigh, outstanding, outstanding-erase, expire-outstanding, fail_client-outstanding,
}
use message_driven_event_que.AckEngine.Invariant.{IsWatched}

-- A round of the scanner takes out exactly the deliveries whose deadline is not after now. All others
-- stay as they are.
pub redelivery-lookup :
    (now : ℕ) (k : Key) (e : AckEngine)
    → IsWatched e
    → lookup k (redelivery now e).1.in_flight ≡ kept now (lookup k e.in_flight)
unfolding redelivery
redelivery-lookup now k e h =
    expire-lookup e.max_retries now e.deadlines e.in_flight k h.sorted h.covered

-- A disconnection takes out exactly the deliveries to that client. All others stay as they are.
pub client_disconnected-lookup :
    (id : ClientId) (k : Key) (e : AckEngine)
    → IsWatched e
    → lookup k (client_disconnected id e).1.in_flight ≡ spared id (lookup k e.in_flight)
unfolding client_disconnected
client_disconnected-lookup id k e h = fail_client-lookup e.max_retries id k e.in_flight h.ordered

-- The operations that push again what they take out.
abbrev pub Requeues : Event → Type 0
Requeues (tracked now msg id) = ⊥
Requeues (acked msg_id id) = ⊥
Requeues _ = Unit {0}

-- With any weight for a push: what a NACK, a disconnection or a round of the scanner pushes, and what
-- would be pushed for the deliveries that it leaves in flight, weigh together what would have been
-- pushed for those in flight before. So each delivery taken out is pushed once, to the main queue or
-- to the dead letters as its retry count says, and nothing else is pushed.
pub step-outstanding :
    (w : Push → ℕ) (v : Event) (e : AckEngine)
    → IsWatched e
    → Requeues v
    → weigh w (step v e).0 + outstanding w e.max_retries (step v e).1.in_flight
      ≡ outstanding w e.max_retries e.in_flight
unfolding step nack client_disconnected redelivery
step-outstanding w (nacked msg_id id) e h r =
    elim (Option-cases (lookup (msg_id, id) e.in_flight)) [
      | inl absent ↦ rw (absent, step, nack) (omega arith)
      | inr (entry, there) ↦
          rw (there, step, nack)
            (omega (
              arith,
              outstanding-erase w e.max_retries (msg_id, id) e.in_flight entry h.ordered there,
            ))
    ]
step-outstanding w (tracked now msg id) e h r = absurd r
step-outstanding w (acked msg_id id) e h r = absurd r
step-outstanding w (gone id) e h r = fail_client-outstanding w e.max_retries id e.in_flight
step-outstanding w (woke now) e h r =
    expire-outstanding w e.max_retries now e.deadlines e.in_flight h.ordered
