-- ===== src/Broker/Steps.antt =====
-- What a move of the broker was: one step of one thread, and what it left alone.
use message_driven_event_que.Prelude.{
  ℕ, ◌+◌, ◌≡◌, refl, Bool, true, false, [], ◌∷◌, ◌++◌, Option, none, some, get_elem?, arith,
}
use message_driven_event_que.Message.{ClientId}
use message_driven_event_que.TopicRouter.{contains, is_empty}
use message_driven_event_que.WalWriter.{waiting, writing, swap_buffers, write_out, ◌>>=◌}
use message_driven_event_que.TcpServer.{Frame}
use message_driven_event_que.Broker.{
  Program, done, Shared, advance, on_frame, dispatcher_round, logger_round, scanner_round,
}
use message_driven_event_que.Broker.Threads.{
  Connection, Broker, Move, dispatches, logs, scans, registers, flushes, writes, accepts, arrives,
  hangs_up, reads, ticks, replace, move, take_up, accept, register, flush, write, disconnect,
  or_round, is_done, add_client, only_if,
}

pub data Stepped (b b' : Broker) : Type 0 where
  dispatcher_ran :
      (p : Program) (s : Shared)
      → advance (or_round dispatcher_round b.dispatcher) b.shared ≡ some (p, s)
      → b' ≡ record b { dispatcher = p; shared = s }
      → Stepped b b'
  logger_ran :
      (p : Program) (s : Shared)
      → advance (or_round logger_round b.logger) b.shared ≡ some (p, s)
      → b' ≡ record b { logger = p; shared = s }
      → Stepped b b'
  scanner_ran :
      (p : Program) (s : Shared)
      → advance (or_round scanner_round b.scanner) b.shared ≡ some (p, s)
      → b' ≡ record b { scanner = p; shared = s }
      → Stepped b b'
  reader_ran :
      (n : ℕ) (c : Connection) (p : Program) (s : Shared)
      → get_elem? b.connections n ≡ some c
      → advance c.program b.shared ≡ some (p, s)
      → b'
        ≡ record b { connections = replace n (record c { program = p }) b.connections; shared = s }
      → Stepped b b'
  frame_came :
      (n : ℕ) (c : Connection) (f : Frame)
      → get_elem? b.connections n ≡ some c
      → is_done c.program ≡ true
      → b' ≡ record b {
        connections =
            replace n (record c { alive = true; program = on_frame c.id f }) b.connections;
      }
      → Stepped b b'
  hung_up :
      (n : ℕ) (c : Connection)
      → get_elem? b.connections n ≡ some c
      → is_done c.program ≡ true
      → b' ≡ record b {
        connections =
            replace n (record c { alive = false; program = disconnect c.id }) b.connections;
      }
      → Stepped b b'
  registered :
      (id : ClientId)
      → b' ≡ record b {
        shared = record b.shared { clients = add_client id b.shared.clients };
        accepted = none;
        connections = b.connections ++ record { id = id; alive = true; program = done } ∷ [];
      }
      → Stepped b b'
  accepted_one :
      (id : ClientId)
      → contains id b.shared.open_socks ≡ false
      → b' ≡ record b {
        shared = record b.shared { open_socks = id ∷ b.shared.open_socks };
        accepted = some id;
      }
      → Stepped b b'
  flushed :
      b.shared.wal.pc ≡ waiting
      → is_empty b.shared.wal.active_buf ≡ false
      → b' ≡ record b { shared = record b.shared { wal = swap_buffers b.shared.wal } }
      → Stepped b b'
  wrote :
      b.shared.wal.pc ≡ writing
      → b' ≡ record b { shared = record b.shared { wal = write_out b.shared.wal } }
      → Stepped b b'
  ticked :
      (d : ℕ)
      → b' ≡ record b { shared = record b.shared { clock = b.shared.clock + d } }
      → Stepped b b'

pub bind_some {ℓ κ} :
    {A : Type ℓ} {B : Type κ} (o : Option A) (f : A → Option B) (y : B)
    → (o >>= f) ≡ some y
    → (x : A) × (o ≡ some x) × (f x ≡ some y)
bind_some none f y e = absurd cc
bind_some (some x) f y e = (x, refl, e)

passed_test : {A : Type 0} (t : Bool) (a y : A) → only_if t a ≡ some y → (t ≡ true) × (y ≡ a)
passed_test true a y e = (refl, cc)
passed_test false a y e = absurd cc

took_up :
    (n : ℕ) (alive : Bool) (program : ClientId → Program) (b b' : Broker)
    → take_up n alive program b ≡ some b'
    → (c : Connection) × (get_elem? b.connections n ≡ some c)
      × (is_done c.program ≡ true)
      × (b' ≡ record b {
        connections = replace n (record c { alive = alive; program = program c.id }) b.connections;
      })
unfolding take_up
took_up n alive program b b' e =
    let (c, there, idle) = bind_some (get_elem? b.connections n) _ b' e in
    let (ready, same) = passed_test _ _ b' idle in (c, there, ground arith, same)

accepted_lem :
    (id : ClientId) (b b' : Broker)
    → accept id b ≡ some b'
    → (contains id b.shared.open_socks ≡ false)
      × (b' ≡ record b {
        shared = record b.shared { open_socks = id ∷ b.shared.open_socks };
        accepted = some id;
      })
unfolding accept
accepted_lem id b b' e = ground arith

flushed_lem :
    (b b' : Broker)
    → flush b ≡ some b'
    → (b.shared.wal.pc ≡ waiting)
      × (is_empty b.shared.wal.active_buf ≡ false)
      × (b' ≡ record b { shared = record b.shared { wal = swap_buffers b.shared.wal } })
unfolding flush
flushed_lem b b' e = ground arith

wrote_lem :
    (b b' : Broker)
    → write b ≡ some b'
    → (b.shared.wal.pc ≡ writing)
      × (b' ≡ record b { shared = record b.shared { wal = write_out b.shared.wal } })
unfolding write
wrote_lem b b' e = ground arith

pub move-Stepped : (m : Move) (b b' : Broker) → move m b ≡ some b' → Stepped b b'
unfolding move register
move-Stepped dispatches b b' e =
    let ((p, s), ran, same) =
      bind_some (advance (or_round dispatcher_round b.dispatcher) b.shared) _ b' e in
    dispatcher_ran p s ran cc
move-Stepped logs b b' e =
    let ((p, s), ran, same) =
      bind_some (advance (or_round logger_round b.logger) b.shared) _ b' e in
    logger_ran p s ran cc
move-Stepped scans b b' e =
    let ((p, s), ran, same) =
      bind_some (advance (or_round scanner_round b.scanner) b.shared) _ b' e in
    scanner_ran p s ran cc
move-Stepped (reads n) b b' e =
    let (c, there, rest) = bind_some (get_elem? b.connections n) _ b' e in
    let ((p, s), ran, same) = bind_some (advance c.program b.shared) _ b' rest in
    reader_ran n c p s there ran cc
move-Stepped (arrives n f) b b' e =
    let (c, there, idle, same) = took_up n true (λ id. on_frame id f) b b' e in
    frame_came n c f there idle same
move-Stepped (hangs_up n) b b' e =
    let (c, there, idle, same) = took_up n false disconnect b b' e in hung_up n c there idle same
move-Stepped registers b b' e =
    let (id, pending, same) = bind_some b.accepted _ b' e in registered id cc
move-Stepped (accepts id) b b' e =
    let (fresh, same) = accepted_lem id b b' e in accepted_one id fresh same
move-Stepped flushes b b' e = let (idle, full, same) = flushed_lem b b' e in flushed idle full same
move-Stepped writes b b' e = let (busy, same) = wrote_lem b b' e in wrote busy same
move-Stepped (ticks d) b b' e = ticked d cc
