-- ===== src/Broker/Threads.antt =====
-- The threads of the broker, and every interleaving of them: the dispatcher, the DLQ logger and the
-- scanner repeat their rounds, each connection has a reader, the accept loop brings new ones, and the
-- log has its flush thread. The environment chooses what comes in and who runs.
use message_driven_event_que.Prelude.{
  ℕ, zero, suc, ◌+◌, Bool, true, false, ◌&&◌, List, [], ◌∷◌, ◌++◌, Option, none, some, get_elem?,
  if◌then◌else◌,
}
use message_driven_event_que.Prelude.Int.{ℤ}
use message_driven_event_que.Message.{Bytes, ClientId, Message}
use message_driven_event_que.SafeQueue.{SafeQueue, create}
use message_driven_event_que.TopicRouter.{contains, is_empty}
use message_driven_event_que.WalWriter.{
  waiting, writing, finished, swap_buffers, write_out, replay, ◌>>=◌,
}
use message_driven_event_que.WalWriter.Flushing.{open_file}
use message_driven_event_que.AckEngine
use message_driven_event_que.TcpServer.{Frame, sentinel}
use message_driven_event_que.Broker.{
  Program, done, closes, erases, Shared, advance, on_frame, dispatcher_round, logger_round,
  scanner_round,
}

-- A connection and what its reader has still to do; `alive` until the reader leaves its loop.
pub record Connection : Type 0 where
  pub id : ClientId
  pub alive : Bool
  pub program : Program

-- `accepted` is a socket that the accept loop has accepted and not yet entered in clients_.
pub record Broker : Type 0 where
  pub shared : Shared
  pub dispatcher : Program
  pub logger : Program
  pub scanner : Program
  pub accepted : Option ClientId
  pub connections : List Connection

pub data Move : Type 0 where
  dispatches logs scans registers flushes writes : Move
  accepts : ClientId → Move
  arrives : ℕ → Frame → Move
  hangs_up reads : ℕ → Move
  ticks : ℕ → Move

abbrev pub is_done : Program → Bool
is_done done = true
is_done _ = false

-- A thread that has finished its round begins another.
abbrev pub or_round : Program → Program → Program
or_round round p = if is_done p then round else p

-- `handle_client` after its loop: close, erase, and tell the frame handler.
unfoldable pub disconnect : ClientId → Program
disconnect id = closes id (erases id (on_frame id sentinel))

unfoldable pub replace : ℕ → Connection → List Connection → List Connection
replace i c [] = []
replace zero c (x ∷ xs) = c ∷ xs
replace (suc i) c (x ∷ xs) = x ∷ replace i c xs

abbrev pub only_if {ℓ} : {A : Type ℓ} → Bool → A → Option A
only_if true a = some a
only_if false a = none

-- A reader takes up a program when it has finished the one before.
unfoldable pub take_up : ℕ → Bool → (ClientId → Program) → Broker → Option Broker
unfolding replace
take_up n alive program b = do
  c ← get_elem? b.connections n
  let c' : Connection = record c { alive = alive; program = program c.id }
  only_if (c.alive && is_done c.program) (record b { connections = replace n c' b.connections })

unfoldable pub add_client : ClientId → List ClientId → List ClientId
add_client id clients = if contains id clients then clients else clients ++ id ∷ []

unfoldable pub accept : ClientId → Broker → Option Broker
accept id b = elim b.accepted [
  | none ↦
      let s = record b.shared { open_socks = id ∷ b.shared.open_socks } in
      if contains id b.shared.open_socks
      then none
      else some (record b { shared = s; accepted = some id })
  | some _ ↦ none
]

unfoldable pub register : Broker → Option Broker
register b = do
  id ← b.accepted
  let s = record b.shared { clients = add_client id b.shared.clients }
  let fresh : Connection = record { id = id; alive = true; program = done }
  some (record b { shared = s; accepted = none; connections = b.connections ++ fresh ∷ [] })

-- The flush thread of the log.
unfoldable pub flush : Broker → Option Broker
flush b = elim b.shared.wal.pc [
  | waiting ↦
      let s = record b.shared { wal = swap_buffers b.shared.wal } in
      if is_empty b.shared.wal.active_buf then none else some (record b { shared = s })
  | writing ↦ none
  | finished ↦ none
]

unfoldable pub write : Broker → Option Broker
write b = elim b.shared.wal.pc [
  | waiting ↦ none
  | writing ↦ some (record b { shared = record b.shared { wal = write_out b.shared.wal } })
  | finished ↦ none
]

-- One step of one thread; `none` where it cannot move.
unfoldable pub move : Move → Broker → Option Broker
unfolding replace
move dispatches b = do
  (p, s) ← advance (or_round dispatcher_round b.dispatcher) b.shared
  some (record b { dispatcher = p; shared = s })
move logs b = do
  (p, s) ← advance (or_round logger_round b.logger) b.shared
  some (record b { logger = p; shared = s })
move scans b = do
  (p, s) ← advance (or_round scanner_round b.scanner) b.shared
  some (record b { scanner = p; shared = s })
move (reads n) b = do
  c ← get_elem? b.connections n
  (p, s) ← advance c.program b.shared
  some (record b { connections = replace n (record c { program = p }) b.connections; shared = s })
move (arrives n f) b = take_up n true (λ id. on_frame id f) b
move (hangs_up n) b = take_up n false disconnect b
move (accepts id) b = accept id b
move registers b = register b
move flushes b = flush b
move writes b = write b
move (ticks d) b = some (record b { shared = record b.shared { clock = b.shared.clock + d } })

unfoldable pub run : List Move → Broker → Option Broker
run [] b = some b
run (m ∷ ms) b = move m b >>= run ms

-- The broker when its threads start, with what the replay left in the main queue.
abbrev pub booted : Bytes → ℕ → ℕ → ℤ → SafeQueue Message → Broker
booted file capacity ack_timeout max_retries main_queue = record {
  shared = record {
    router = [];
    wal = open_file file;
    main_queue = main_queue;
    dlq = create capacity;
    engine = AckEngine.start ack_timeout max_retries;
    locked = false;
    next_id = 1;
    clock = 0;
    clients = [];
    open_socks = [];
    sent = [];
    logged = [];
    unrouted = [];
  };
  dispatcher = done;
  logger = done;
  scanner = done;
  accepted = none;
  connections = [];
}

-- `main` up to the start of its threads. `none`: the replay waits for room for ever.
unfoldable pub boot : Bytes → ℕ → ℕ → ℤ → Option Broker
boot file capacity ack_timeout max_retries = do
  main_queue ← replay file (create capacity)
  some (booted file capacity ack_timeout max_retries main_queue)
