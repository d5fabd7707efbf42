-- ===== src/Broker/Scheduling.antt =====
-- Rounds that no other thread interrupts, as moves of the broker.
use message_driven_event_que.Prelude.{
  ℕ, zero, suc, ◌≡◌, refl, ◌∙◌, List, [], ◌∷◌, ◌++◌, some, get_elem?, replicate, arith, true, false,
}
use message_driven_event_que.Broker.{
  Program, done, pops_main, Shared, advance, dispatcher_round, on_frame,
}
use message_driven_event_que.Broker.Threads.{
  Connection, Broker, Move, dispatches, reads, arrives, take_up, replace, move, run, or_round,
}
use message_driven_event_que.Broker.Steps.{bind_some}
use message_driven_event_que.Broker.Dispatching.{drive, steps_for, after_round, drive-after_round}
use message_driven_event_que.Message.{Message}
use message_driven_event_que.TopicRouter.{route}
use message_driven_event_que.TcpServer.{Frame}

pub run-append :
    (ms ns : List Move) (b mid : Broker) → run ms b ≡ some mid → run (ms ++ ns) b ≡ run ns mid
unfolding run
run-append [] ns b mid e = let same : b ≡ mid = cc in rw same refl
run-append (m ∷ ms) ns b mid e =
    let (next, one, rest) = bind_some (move m b) (run ms) mid e in
    rw one (run-append ms ns next mid rest)

pub get_elem?-replace :
    (i : ℕ) (c d : Connection) (cs : List Connection)
    → get_elem? cs i ≡ some c
    → get_elem? (replace i d cs) i ≡ some d
unfolding replace
get_elem?-replace i c d [] e = absurd cc
get_elem?-replace zero c d (x ∷ cs) e = refl
get_elem?-replace (suc i) c d (x ∷ cs) e = get_elem?-replace i c d cs e

pub replace_twice :
    (i : ℕ) (c d : Connection) (cs : List Connection)
    → replace i d (replace i c cs) ≡ replace i d cs
unfolding replace
replace_twice i c d [] = refl
replace_twice zero c d (x ∷ cs) = refl
replace_twice (suc i) c d (x ∷ cs) = rw (replace_twice i c d cs) refl

pub replace_same :
    (i : ℕ) (c : Connection) (cs : List Connection) → get_elem? cs i ≡ some c → replace i c cs ≡ cs
unfolding replace
replace_same i c [] e = refl
replace_same zero c (x ∷ cs) e = let same : x ≡ c = cc in rw same refl
replace_same (suc i) c (x ∷ cs) e = rw (replace_same i c cs e) refl

busy :
    (round p : Program) (s : Shared) (r : Program × Shared)
    → advance p s ≡ some r
    → or_round round p ≡ p
unfolding advance
busy round done s r e = absurd cc
busy round p s r e = ground arith

dispatcher_step :
    (b : Broker) (p : Program) (s : Shared)
    → advance b.dispatcher b.shared ≡ some (p, s)
    → move dispatches b ≡ some (record b { dispatcher = p; shared = s })
unfolding move
dispatcher_step b p s e = rw (busy dispatcher_round b.dispatcher b.shared (p, s) e) (rw e refl)

reader_step :
    (i : ℕ) (c : Connection) (b : Broker) (p : Program) (s : Shared)
    → get_elem? b.connections i ≡ some c
    → advance c.program b.shared ≡ some (p, s)
    → move (reads i) b
      ≡ some (record b {
        connections = replace i (record c { program = p }) b.connections;
        shared = s;
      })
unfolding move
reader_step i c b p s there e = rw there (rw e refl)

-- The steps of the dispatcher, one move each.
pub dispatcher_drive :
    (n : ℕ) (b : Broker) (p : Program) (s : Shared)
    → drive n b.dispatcher b.shared ≡ some (p, s)
    → run (replicate n dispatches) b ≡ some (record b { dispatcher = p; shared = s })
unfolding drive run
dispatcher_drive zero b p s e = ground arith
dispatcher_drive (suc n) b p s e =
    let ((p', s'), one, rest) = bind_some (advance b.dispatcher b.shared) _ (p, s) e in
    rw (dispatcher_step b p' s' one)
      (dispatcher_drive n (record b { dispatcher = p'; shared = s' }) p s rest)

-- The steps of a reader.
pub reader_drive :
    (n i : ℕ) (c : Connection) (b : Broker) (p : Program) (s : Shared)
    → get_elem? b.connections i ≡ some c
    → drive n c.program b.shared ≡ some (p, s)
    → run (replicate n (reads i)) b
      ≡ some (record b {
        connections = replace i (record c { program = p }) b.connections;
        shared = s;
      })
unfolding drive run
reader_drive zero i c b p s there e =
    let same : c.program ≡ p = cc in
    let still : b.shared ≡ s = cc in rw (← same, ← still, replace_same i c b.connections there) refl
reader_drive (suc n) i c b p s there e =
    let ((p', s'), one, rest) = bind_some (advance c.program b.shared) _ (p, s) e in
    let c' = record c { program = p' } in
    let b' = record b { connections = replace i c' b.connections; shared = s' } in
    rw (reader_step i c b p' s' there one) (
      reader_drive n i c' b' p s (get_elem?-replace i c c' b.connections there) rest
      ∙ rw (replace_twice i c' (record c { program = p }) b.connections) refl)

-- A dispatcher between two rounds begins one.
pub next_round :
    (ms : List Move) (b : Broker)
    → b.dispatcher ≡ done
    → run (dispatches ∷ ms) b ≡ run (dispatches ∷ ms) (record b { dispatcher = pops_main })
unfolding run move
next_round ms b idle = rw idle refl

took :
    (i : ℕ) (c : Connection) (f : Frame) (b : Broker)
    → get_elem? b.connections i ≡ some c
    → c.alive ≡ true
    → c.program ≡ done
    → move (arrives i f) b
      ≡ some (record b {
        connections = replace i (record c { program = on_frame c.id f }) b.connections;
      })
unfolding move take_up
took i c f b there alive idle = rw (there, alive, idle) refl

-- A reader that has nothing to do gets a frame and handles it.
pub reader_round :
    (n i : ℕ) (c : Connection) (f : Frame) (b : Broker) (s : Shared)
    → get_elem? b.connections i ≡ some c
    → c.alive ≡ true
    → c.program ≡ done
    → drive n (on_frame c.id f) b.shared ≡ some (done, s)
    → run (arrives i f ∷ replicate n (reads i)) b ≡ some (record b { shared = s })
unfolding run
reader_round n i c f b s there alive idle driven =
    let working = record c { program = on_frame c.id f } in
    let b1 = record b { connections = replace i working b.connections } in
    let ready = get_elem?-replace i c working b.connections there in
    rw (took i c f b there alive idle) (
      reader_drive n i working b1 done s ready driven
      ∙ rw
          (
            replace_twice i working (record c { program = done }) b.connections,
            ← idle,
            replace_same i c b.connections there,
          )
          refl)

-- A round of the dispatcher on the only message in the main queue.
pub dispatcher_part :
    (msg : Message) (b : Broker)
    → b.dispatcher ≡ done
    → b.shared.locked ≡ false
    → b.shared.main_queue.items ≡ msg ∷ []
    → run (replicate (suc (suc (steps_for (route msg b.shared.router).0))) dispatches) b
      ≡ some (record b { shared = after_round msg [] b.shared })
dispatcher_part msg b idle free front =
    let n = steps_for (route msg b.shared.router).0 in
    next_round (replicate (suc n) dispatches) b idle
    ∙ dispatcher_drive (suc (suc n)) (record b { dispatcher = pops_main }) done
        (after_round msg [] b.shared) (drive-after_round msg [] b.shared free front)
    ∙ rw idle refl
