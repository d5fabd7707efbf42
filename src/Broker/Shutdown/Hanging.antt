-- ===== src/Broker/Shutdown/Hanging.antt =====
-- A shutdown that never ends: the scanner waits for a queue that nobody empties any more.
use message_driven_event_que.Prelude.{
  ◌≡◌, refl, true, false, List, [], ◌∷◌, some, arith, ◌⊎◌, ◌≢◌, inl, inr, sym,
}
use message_driven_event_que.Message.{Message}
use message_driven_event_que.Broker.Steps.{bind_some, move-Stepped}
use message_driven_event_que.Broker.{Program, done, pushes, calls, Call}
use message_driven_event_que.AckEngine.{to_main}
use message_driven_event_que.Broker.Deadlock.{IsJammed, IsOutside, Around, IsStuck, Stepped-IsStuck}
use message_driven_event_que.Broker.Threads.{
  Broker, Move, dispatches, logs, scans, registers, flushes, writes, accepts, arrives, hangs_up,
  reads, ticks, move, register, flush, write, accept, take_up,
}
use message_driven_event_que.Broker.Shutdown.{
  serving, joins_scanner, returned, Process, Act, moves, signals, proceeds, stops_dispatching,
  stops_logging, stops_scanning, in_loop, proceed, act, act_all, passed,
}

-- The dispatcher has left its loop while the scanner waits, with mu_ held, for room in the main queue;
-- no other thread holds mu_.
pub record IsHung (msg : Message) (rest : Program) (x : Process) : Type 0 where
  pub jam : IsJammed x.broker.shared
  pub holder : x.broker.scanner ≡ pushes (to_main msg) rest
  pub logger : IsOutside x.broker.logger
  pub readers : Around x.broker.connections
  pub left : x.dispatching ≡ false
  pub stays : x.scanning ≡ true
  pub main : (x.main ≡ serving) ⊎ (x.main ≡ joins_scanner)

-- The other threads do not look at the dispatcher.
not_looked_at :
    (m : Move) (x : Process) (p : Program) (b' : Broker)
    → x.dispatching ≡ false
    → in_loop m x ≡ true
    → move m x.broker ≡ some b'
    → move m (record x.broker { dispatcher = p }) ≡ some (record b' { dispatcher = p })
unfolding move register flush write accept take_up
not_looked_at dispatches x p b' left on e = absurd cc
not_looked_at logs x p b' left on e = ground arith
not_looked_at scans x p b' left on e = ground arith
not_looked_at registers x p b' left on e = ground arith
not_looked_at flushes x p b' left on e = ground arith
not_looked_at writes x p b' left on e = ground arith
not_looked_at (accepts id) x p b' left on e = ground arith
not_looked_at (arrives n f) x p b' left on e = ground arith
not_looked_at (hangs_up n) x p b' left on e = ground arith
not_looked_at (reads n) x p b' left on e = ground arith
not_looked_at (ticks d) x p b' left on e = ground arith

-- The same broker with a dispatcher that waits for mu_.
abbrev with_waiter : Broker → Broker
with_waiter b = record b { dispatcher = calls (Call.scans 0) done }

moves-IsHung :
    (msg : Message) (rest : Program) (m : Move) (x : Process) (b' : Broker)
    → IsHung msg rest x
    → in_loop m x ≡ true
    → move m x.broker ≡ some b'
    → IsHung msg rest (record x { broker = b' })
moves-IsHung msg rest m x b' h on e =
    let stuck : IsStuck msg rest done (Call.scans 0) (with_waiter x.broker) = record {
      jam = h.jam;
      holder = h.holder;
      waits = refl;
      logger = h.logger;
      readers = h.readers;
    } in
    let same = not_looked_at m x (calls (Call.scans 0) done) b' h.left on e in
    let (k, _) =
      Stepped-IsStuck msg rest done (Call.scans 0) (with_waiter x.broker) (with_waiter b') stuck
        (move-Stepped m (with_waiter x.broker) (with_waiter b') same) in
    record {
      jam = k.jam;
      holder = k.holder;
      logger = k.logger;
      readers = k.readers;
      left = h.left;
      stays = h.stays;
      main = h.main;
    }

untouched :
    (msg : Message) (rest : Program) (x x' : Process)
    → IsHung msg rest x
    → x'.broker ≡ x.broker
    → x'.dispatching ≡ false
    → x'.scanning ≡ true
    → (x'.main ≡ serving) ⊎ (x'.main ≡ joins_scanner)
    → IsHung msg rest x'
untouched msg rest x x' h same left stays main = record {
  jam = rw same (h.jam);
  holder = rw same (h.holder);
  logger = rw same (h.logger);
  readers = rw same (h.readers);
  left = left;
  stays = stays;
  main = main;
}

act-IsHung :
    (msg : Message) (rest : Program) (a : Act) (x x' : Process)
    → IsHung msg rest x
    → act a x ≡ some x'
    → IsHung msg rest x'
unfolding act proceed
act-IsHung msg rest (moves m) x x' h e =
    let (b, moved, same) = bind_some (move m x.broker) _ x' e in
    let (on, result) = passed (in_loop m x) (record x { broker = b }) x' same in
    rw result (moves-IsHung msg rest m x b h on moved)
act-IsHung msg rest signals x x' h e =
    untouched msg rest x x' h (ground arith) (ground arith) (ground arith) (ground arith)
act-IsHung msg rest proceeds x x' h e =
    untouched msg rest x x' h (ground arith) (ground arith) (ground arith) (ground arith)
act-IsHung msg rest stops_dispatching x x' h e =
    untouched msg rest x x' h (ground arith) (ground arith) (ground arith) (ground arith)
act-IsHung msg rest stops_logging x x' h e =
    untouched msg rest x x' h (ground arith) (ground arith) (ground arith) (ground arith)
act-IsHung msg rest stops_scanning x x' h e = absurd (let busy = h.holder in ground arith)

module _ (msg : Message) (rest : Program) where
  -- If the dispatcher leaves its loop while the scanner waits, with mu_ held, for room in the main
  -- queue, the broker never stops: whatever the threads do and however often the signal comes, `main`
  -- does not get past the join of the scanner.
  pub never_returns :
      (acts : List Act) (x x' : Process)
      → IsHung msg rest x
      → act_all acts x ≡ some x'
      → IsHung msg rest x' × (x'.main ≢ returned)
  unfolding act_all
  never_returns [] x x' h e =
      let same : x ≡ x' = cc in
      rw (sym same) (h, elim h.main [ inl e' ↦ λ r. cc | inr e' ↦ λ r. cc ])
  never_returns (a ∷ acts) x x' h e =
      let (mid, one, more) = bind_some (act a x) _ x' e in
      never_returns acts mid x' (act-IsHung msg rest a x mid h one) more
