-- ===== src/Broker/Leaving.antt =====
-- The end of a connection, through all components.
use message_driven_event_que.Prelude.{ℕ, suc, ◌≡◌, refl, ◌∙◌, false, some, nat_eq, pair_eq}
use message_driven_event_que.Prelude.Int.{int_eq}
use message_driven_event_que.Prelude.Maps.{lookup}
use message_driven_event_que.Message.{ClientId, Message}
use message_driven_event_que.TopicRouter.{contains, remove, unsubscribe, route}
use message_driven_event_que.TopicRouter.Membership.{contains-remove}
use message_driven_event_que.TopicRouter.Reach.{clients, route-unsubscribe}
use message_driven_event_que.AckEngine.{Key, client_disconnected}
use message_driven_event_que.AckEngine
use message_driven_event_que.AckEngine.Disconnection.{spared}
use message_driven_event_que.AckEngine.Invariant.{IsWatched}
use message_driven_event_que.AckEngine.Redelivery.{client_disconnected-lookup}
use message_driven_event_que.Broker.{done, calls, drops, Shared, advance, on_frame, event}
use message_driven_event_que.Broker.Threads.{disconnect}
use message_driven_event_que.Broker.Dispatching.{drive}
use message_driven_event_que.Broker.Calls.{
  drive-calls, with_pushes, steps_with, mains, deads, filled, HasRoom,
}

-- What the three steps before the AckEngine leave behind.
abbrev dropped : ClientId → Shared → Shared
dropped id s = record s {
  open_socks = remove id s.open_socks;
  clients = remove id s.clients;
  router = unsubscribe id s.router;
}

three_steps :
    (n : ℕ) (id : ClientId) (s : Shared)
    → drive (suc (suc (suc n))) (disconnect id) s ≡ drive n (calls (drops id) done) (dropped id s)
unfolding drive disconnect on_frame advance
three_steps n id s = refl

gone_step :
    (now : ℕ) (id : ClientId) (e : AckEngine.AckEngine)
    → AckEngine.step (event now (drops id)) e ≡ client_disconnected id e
unfolding event AckEngine.step
gone_step now id e = refl

-- A connection ends, without interruption and with room for what is pushed again: its socket is closed and
-- its entry is gone, so that nothing is sent to it any more; the router chooses it for no message;
-- exactly the deliveries to it are no longer in flight, and what the AckEngine pushes for them
-- stands at the end of the main queue and of the dead letters. mu_ is free.
pub drive-disconnect :
    (id : ClientId) (s : Shared)
    → s.locked ≡ false
    → IsWatched s.engine
    → HasRoom (mains (client_disconnected id s.engine).0) s.main_queue
    → HasRoom (deads (client_disconnected id s.engine).0) s.dlq
    → let ps = (client_disconnected id s.engine).0 in
      (s' : Shared) × (drive (suc (suc (suc (suc (steps_with ps 1))))) (disconnect id) s
        ≡ some (done, s'))
      × (contains id s'.open_socks ≡ false)
      × (contains id s'.clients ≡ false)
      × ((msg : Message) → contains id (clients (route msg s'.router).0) ≡ false)
      × ((k : Key) → lookup k s'.engine.in_flight ≡ spared id (lookup k s.engine.in_flight))
      × (s'.main_queue ≡ filled (mains ps) s.main_queue)
      × (s'.dlq ≡ filled (deads ps) s.dlq)
      × (s'.locked ≡ false)
unfolding drive
drive-disconnect id s free watched main dead =
    let (ps, engine) = client_disconnected id s.engine in
    (
      with_pushes ps (record (dropped id s) { engine = engine; locked = false }),
      three_steps (suc (steps_with ps 1)) id s
          ∙ drive-calls 0 (drops id) done (dropped id s) ps engine free
              (gone_step s.clock id s.engine) main dead,
      contains-remove id s.open_socks,
      contains-remove id s.clients,
      λ msg. route-unsubscribe id msg s.router,
      λ k. client_disconnected-lookup id k s.engine watched,
      refl,
      refl,
      refl,
    )
