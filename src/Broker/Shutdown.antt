-- ===== src/Broker/Shutdown.antt =====
-- The end of broker/src/main.cpp: the signal clears g_running, `main` stops the AckEngine and then joins
-- the dispatcher and the DLQ logger. `TcpServer::stop` in between is taken to return.
pub mod Hanging
pub mod Returning
pub mod Reopening
use message_driven_event_que.Prelude.{
  ℕ, ◌≡◌, ◌≤◌, refl, Bool, true, false, not, ◌&&◌, ◌||◌, List, [], ◌∷◌, Option, none, some, arith,
  length, if◌then◌else◌, ◌⊎◌, ◌≢◌, inl, inr, sym,
}
use message_driven_event_que.Message.{ClientId, Message}
use message_driven_event_que.WalWriter.{◌>>=◌}
use message_driven_event_que.Broker.Steps.{bind_some, move-Stepped}
use message_driven_event_que.Broker.{Program, done, pushes, calls, Call}
use message_driven_event_que.AckEngine.{to_main}
use message_driven_event_que.Broker.Deadlock.{IsJammed, IsOutside, Around, IsStuck, Stepped-IsStuck}
use message_driven_event_que.Broker.Threads.{
  Broker, Move, dispatches, logs, scans, registers, flushes, writes, accepts, arrives, hangs_up,
  reads, ticks, move, run, is_done, register, flush, write, accept, take_up, disconnect,
}

-- Where `main` is: in the loop that waits for the signal, in one of the joins, or at its end.
pub data MainPc : Type 0 where
  serving joins_scanner joins_dispatcher joins_logger returned : MainPc

-- `running` is the AckEngine's running_; the last three say which threads are in their loops yet.
pub record Process : Type 0 where
  pub broker : Broker
  pub g_running : Bool
  pub running : Bool
  pub main : MainPc
  pub dispatching : Bool
  pub logging : Bool
  pub scanning : Bool

pub data Act : Type 0 where
  moves : Move → Act
  signals proceeds stops_dispatching stops_logging stops_scanning : Act

abbrev pub in_loop : Move → Process → Bool
in_loop dispatches x = x.dispatching
in_loop logs x = x.logging
in_loop scans x = x.scanning
in_loop _ x = true

-- `AckEngine::stop`: it clears its flag, and its join waits for the scanner.
abbrev pub stop_engine : Process → Process
stop_engine x = record x { main = joins_scanner; running = false }

abbrev pub join_scanner : Process → Option Process
join_scanner x = if x.scanning then none else some (record x { main = joins_dispatcher })

-- `main` goes on; a join waits for its thread.
unfoldable pub proceed : Process → Option Process
proceed x = elim x.main [
  | serving ↦ if x.g_running then none else some (stop_engine x)
  | joins_scanner ↦ join_scanner x
  | joins_dispatcher ↦ if x.dispatching then none else some (record x { main = joins_logger })
  | joins_logger ↦ if x.logging then none else some (record x { main = returned })
  | returned ↦ none
]

-- A thread leaves its loop between two rounds, when its flag is down.
unfoldable pub act : Act → Process → Option Process
act (moves m) x = do
  b ← move m x.broker
  if in_loop m x then some (record x { broker = b }) else none
act signals x = some (record x { g_running = false })
act proceeds x = proceed x
act stops_dispatching x =
    if x.g_running || not (is_done x.broker.dispatcher)
    then none
    else some (record x { dispatching = false })
act stops_logging x =
    if x.g_running || not (is_done x.broker.logger)
    then none
    else some (record x { logging = false })
act stops_scanning x =
    if x.running || not (is_done x.broker.scanner)
    then none
    else some (record x { scanning = false })

unfoldable pub act_all : List Act → Process → Option Process
act_all [] x = some x
act_all (a ∷ rest) x = act a x >>= act_all rest

abbrev pub started : Broker → Process
started b = record {
  broker = b;
  g_running = true;
  running = true;
  main = serving;
  dispatching = true;
  logging = true;
  scanning = true;
}

pub passed :
    {A : Type 0} (t : Bool) (a y : A) → (if t then some a else none) ≡ some y → (t ≡ true) × (y ≡ a)
passed t a y e = ground arith
