-- ===== src/TcpServer/Lifecycle.antt =====
-- broker/src/TcpServer.cpp: `start`, `stop` and the destructor. The system is the environment: what
-- `socket`, `bind` and `listen` return is given. `stop` joins the accept
-- thread, which is taken to return.
use message_driven_event_que.Prelude.{
  ℕ, zero, suc, ◌≡◌, ◌≢◌, ◌↔◌, Bool, true, false, List, [], ◌∷◌, ◌++◌, arith, ◌==◌, if◌then◌else◌,
  eq_iff,
}
use message_driven_event_que.Prelude.Int.{ℤ, pos, negsuc, int_eq}

-- A descriptor; -1 is INVALID_SOCK.
abbrev pub Sock : Type 0
Sock = ℤ

abbrev pub invalid_sock : Sock
invalid_sock = negsuc 0

abbrev pub is_negative : ℤ → Bool
is_negative (pos n) = false
is_negative (negsuc n) = true

-- What the calls of `start` return.
pub record Results : Type 0 where
  pub socket : Sock
  pub bind : ℤ
  pub listen : ℤ

-- `accepting`: accept_thread_ is joinable. `closed` are the descriptors given to `close`.
pub record Server : Type 0 where
  pub port : ℕ
  pub listen_sock : Sock
  pub running : Bool
  pub accepting : Bool
  pub closed : List Sock

-- `aborted`: a thread is assigned to accept_thread_ while it is joinable, which ends the process.
pub data Outcome : Type 0 where
  started socket_failed listen_failed aborted : Outcome
  bind_failed : ℕ → Outcome

abbrev pub fresh_server : ℕ → Server
fresh_server port = record {
  port = port;
  listen_sock = invalid_sock;
  running = false;
  accepting = false;
  closed = [];
}

unfoldable pub start : Results → Server → Outcome × Server
start r t =
    let opened = record t { listen_sock = r.socket } in
    let up = record opened { running = true } in
    if r.socket == invalid_sock
    then (socket_failed, opened)
    else if is_negative r.bind
    then (bind_failed t.port, opened)
    else if is_negative r.listen
    then (listen_failed, opened)
    else if t.accepting
    then (aborted, up)
    else (started, record up { accepting = true })

unfoldable pub stop : Server → Server
stop t =
    let shut = record t {
      running = false;
      listen_sock = invalid_sock;
      closed = t.closed ++ t.listen_sock ∷ [];
    } in
    if t.listen_sock == invalid_sock
    then record t { running = false; accepting = false }
    else record shut { accepting = false }

-- Stops in a row, the destructor's among them.
pub stops : ℕ → Server → Server
stops zero t = t
stops (suc n) t = stops n (stop t)

-- What is left when a server has been stopped.
abbrev pub Stopped : List Sock → Server → Type 0
Stopped closed t =
    (t.closed ≡ closed)
    × (t.listen_sock ≡ invalid_sock)
    × (t.running ≡ false)
    × (t.accepting ≡ false)

stop_again :
    (n : ℕ) (closed : List Sock) (t : Server) → Stopped closed t → Stopped closed (stops n t)
unfolding stops stop
stop_again zero closed t h = h
stop_again (suc n) closed t h = stop_again n closed (stop t) (ground arith)

first_stop :
    (r : Results) (port : ℕ)
    → Stopped
        (if r.socket == invalid_sock then [] else r.socket ∷ [])
        (stop (start r (fresh_server port)).1)
unfolding start stop
first_stop r port = ground arith

abbrev pub AllWell : Results → Type 0
AllWell r =
    ((r.socket ≢ invalid_sock) × (is_negative r.bind ≡ false)) × (is_negative r.listen ≡ false)

well_if_started : (r : Results) (port : ℕ) → (start r (fresh_server port)).0 ≡ started → AllWell r
unfolding start
well_if_started r port e = ground (arith, eq_iff r.socket invalid_sock)

started_if_well : (r : Results) (port : ℕ) → AllWell r → (start r (fresh_server port)).0 ≡ started
unfolding start
started_if_well r port h = ground (arith, eq_iff r.socket invalid_sock)

-- The server runs, and has an accept thread, exactly if the three calls did well.
abbrev pub IsUpIf : Type 0 → Server → Type 0
IsUpIf well t = ((t.running ≡ true) ↔ well) × ((t.accepting ≡ true) ↔ well)

up_if_well :
    (r : Results) (port : ℕ)
    → AllWell r
    → let t = (start r (fresh_server port)).1 in (t.running ≡ true) × (t.accepting ≡ true)
unfolding start
up_if_well r port h = ground (arith, eq_iff r.socket invalid_sock)

well_if_running :
    (r : Results) (port : ℕ) → (start r (fresh_server port)).1.running ≡ true → AllWell r
unfolding start
well_if_running r port e = ground (arith, eq_iff r.socket invalid_sock)

well_if_accepting :
    (r : Results) (port : ℕ) → (start r (fresh_server port)).1.accepting ≡ true → AllWell r
unfolding start
well_if_accepting r port e = ground (arith, eq_iff r.socket invalid_sock)

-- A server is started once, whatever the system calls return, and stopped one or more times (by `stop`
-- and by the destructor): `start` succeeds exactly if the three calls do, and exactly then the server
-- is running and has an accept thread; and in each case the listening socket is closed once if it was
-- opened, and nothing else is closed.
pub start-stops :
    (r : Results) (port n : ℕ)
    → let (outcome, t) = start r (fresh_server port) in
      ((outcome ≡ started) ↔ AllWell r)
      × IsUpIf (AllWell r) t
      × Stopped (if r.socket == invalid_sock then [] else r.socket ∷ []) (stops (suc n) t)
unfolding stops
start-stops r port n = (
  (λ e. well_if_started r port e, λ h. started_if_well r port h),
  (
    (λ e. well_if_running r port e, λ h. (up_if_well r port h).0),
    (λ e. well_if_accepting r port e, λ h. (up_if_well r port h).1),
  ),
  stop_again n (if r.socket == invalid_sock then [] else r.socket ∷ [])
      (stop (start r (fresh_server port)).1) (first_stop r port),
)
