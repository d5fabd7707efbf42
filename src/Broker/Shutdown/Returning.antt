-- ===== src/Broker/Shutdown/Returning.antt =====
-- What the threads have left behind when `main` returns.
use message_driven_event_que.Prelude.{
  ◌≡◌, refl, Bool, true, false, ◌||◌, List, [], ◌∷◌, some, arith, sym,
}
use message_driven_event_que.Broker.Steps.{bind_some}
use message_driven_event_que.Broker.Threads.{
  Broker, Move, dispatches, logs, scans, registers, flushes, writes, accepts, arrives, hangs_up,
  reads, ticks, move, run, is_done, register, flush, write, accept, take_up,
}
use message_driven_event_que.Broker.Shutdown.{
  MainPc, serving, joins_scanner, joins_dispatcher, joins_logger, returned, Process, Act, moves,
  signals, proceeds, stops_dispatching, stops_logging, stops_scanning, in_loop, proceed, act,
  act_all, started, passed,
}

-- A thread that has left its loop has finished its round.
abbrev IsFinished : Process → Type 0
IsFinished x =
    ((x.dispatching || is_done x.broker.dispatcher) ≡ true)
    × ((x.logging || is_done x.broker.logger) ≡ true)
    × ((x.scanning || is_done x.broker.scanner) ≡ true)

-- The joins that `main` is past.
abbrev Joined : MainPc → (scanning dispatching logging : Bool) → Type 0
Joined serving s d l = Unit {0}
Joined joins_scanner s d l = Unit {0}
Joined joins_dispatcher s d l = s ≡ false
Joined joins_logger s d l = (s ≡ false) × (d ≡ false)
Joined returned s d l = (s ≡ false) × (d ≡ false) × (l ≡ false)

moves-IsFinished :
    (m : Move) (x : Process) (b' : Broker)
    → IsFinished x
    → in_loop m x ≡ true
    → move m x.broker ≡ some b'
    → IsFinished (record x { broker = b' })
unfolding move register flush write accept take_up
moves-IsFinished dispatches x b' h on e = ground arith
moves-IsFinished logs x b' h on e = ground arith
moves-IsFinished scans x b' h on e = ground arith
moves-IsFinished registers x b' h on e = ground arith
moves-IsFinished flushes x b' h on e = ground arith
moves-IsFinished writes x b' h on e = ground arith
moves-IsFinished (accepts id) x b' h on e = ground arith
moves-IsFinished (arrives n f) x b' h on e = ground arith
moves-IsFinished (hangs_up n) x b' h on e = ground arith
moves-IsFinished (reads n) x b' h on e = ground arith
moves-IsFinished (ticks d) x b' h on e = ground arith

abbrev IsInOrder : Process → Type 0
IsInOrder x = IsFinished x × Joined x.main x.scanning x.dispatching x.logging

act-IsInOrder : (a : Act) (x x' : Process) → IsInOrder x → act a x ≡ some x' → IsInOrder x'
unfolding act proceed
act-IsInOrder (moves m) x x' h e =
    let (b, moved, same) = bind_some (move m x.broker) _ x' e in
    let (on, result) = passed (in_loop m x) (record x { broker = b }) x' same in
    rw result (moves-IsFinished m x b h.0 on moved, h.1)
act-IsInOrder signals x x' h e = let same : x' ≡ record x { g_running = false } = cc in rw same h
act-IsInOrder proceeds x x' h e = ground arith
act-IsInOrder stops_dispatching x x' h e = ground arith
act-IsInOrder stops_logging x x' h e = ground arith
act-IsInOrder stops_scanning x x' h e = ground arith

act_all-IsInOrder :
    (acts : List Act) (x x' : Process) → IsInOrder x → act_all acts x ≡ some x' → IsInOrder x'
unfolding act_all
act_all-IsInOrder [] x x' h e = let same : x ≡ x' = cc in rw (sym same) h
act_all-IsInOrder (a ∷ acts) x x' h e =
    let (mid, one, more) = bind_some (act a x) _ x' e in
    act_all-IsInOrder acts mid x' (act-IsInOrder a x mid h one) more

-- The moves of the threads among what happened.
abbrev pub moves_of : List Act → List Move
moves_of [] = []
moves_of (moves m ∷ acts) = m ∷ moves_of acts
moves_of (_ ∷ acts) = moves_of acts

no_move :
    (a : Act) (x x' : Process) → moves_of (a ∷ []) ≡ [] → act a x ≡ some x' → x'.broker ≡ x.broker
unfolding act proceed
no_move (moves m) x x' idle e = absurd cc
no_move signals x x' idle e = ground arith
no_move proceeds x x' idle e = ground arith
no_move stops_dispatching x x' idle e = ground arith
no_move stops_logging x x' idle e = ground arith
no_move stops_scanning x x' idle e = ground arith

run_cons :
    (m : Move) (ms : List Move) (b mid b' : Broker)
    → move m b ≡ some mid
    → run ms mid ≡ some b'
    → run (m ∷ ms) b ≡ some b'
unfolding run
run_cons m ms b mid b' one rest = rw one rest

moved_on :
    (m : Move) (x mid : Process) → act (moves m) x ≡ some mid → move m x.broker ≡ some mid.broker
unfolding act
moved_on m x mid e =
    let (b, moved, same) = bind_some (move m x.broker) _ mid e in
    let (on, result) = passed (in_loop m x) (record x { broker = b }) mid same in rw result moved

idled :
    (a : Act) (acts : List Act) (x mid x' : Process)
    → moves_of (a ∷ []) ≡ []
    → act a x ≡ some mid
    → run (moves_of acts) mid.broker ≡ some x'.broker
    → run (moves_of acts) x.broker ≡ some x'.broker
idled a acts x mid x' idle one rest = let there = no_move a x mid idle one in rw (sym there) rest

act_all-run :
    (acts : List Act) (x x' : Process)
    → act_all acts x ≡ some x'
    → run (moves_of acts) x.broker ≡ some x'.broker
unfolding act_all run
act_all-run [] x x' e = let same : x ≡ x' = cc in rw same refl
act_all-run (moves m ∷ acts) x x' e =
    let (mid, one, more) = bind_some (act (moves m) x) (act_all acts) x' e in
    run_cons m (moves_of acts) x.broker mid.broker x'.broker (moved_on m x mid one)
      (act_all-run acts mid x' more)
act_all-run (signals ∷ acts) x x' e =
    let (mid, one, more) = bind_some (act signals x) (act_all acts) x' e in
    idled signals acts x mid x' refl one (act_all-run acts mid x' more)
act_all-run (proceeds ∷ acts) x x' e =
    let (mid, one, more) = bind_some (act proceeds x) (act_all acts) x' e in
    idled proceeds acts x mid x' refl one (act_all-run acts mid x' more)
act_all-run (stops_dispatching ∷ acts) x x' e =
    let (mid, one, more) = bind_some (act stops_dispatching x) (act_all acts) x' e in
    idled stops_dispatching acts x mid x' refl one (act_all-run acts mid x' more)
act_all-run (stops_logging ∷ acts) x x' e =
    let (mid, one, more) = bind_some (act stops_logging x) (act_all acts) x' e in
    idled stops_logging acts x mid x' refl one (act_all-run acts mid x' more)
act_all-run (stops_scanning ∷ acts) x x' e =
    let (mid, one, more) = bind_some (act stops_scanning x) (act_all acts) x' e in
    idled stops_scanning acts x mid x' refl one (act_all-run acts mid x' more)

-- When `main` returns, the dispatcher, the DLQ logger and the scanner have left their loops with their rounds finished,
-- and the broker that is left is one that its threads reach without the shutdown, by the moves they made.
pub returned_lem :
    (acts : List Act) (b : Broker) (x : Process)
    → act_all acts (started b) ≡ some x
    → x.main ≡ returned
    → ((is_done x.broker.dispatcher ≡ true)
        × (is_done x.broker.logger ≡ true)
        × (is_done x.broker.scanner ≡ true))
      × (run (moves_of acts) b ≡ some x.broker)
returned_lem acts b x e at_end =
    let (finished, joined) = act_all-IsInOrder acts (started b) x ((refl, refl, refl), tt) e in
    let past = rw at_end at joined in (ground arith, act_all-run acts (started b) x e)
