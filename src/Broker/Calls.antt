-- ===== src/Broker/Calls.antt =====
-- A call of the AckEngine from beginning to end: mu_ is taken, what the call pushes goes into the two
-- queues, and mu_ is given back.
use message_driven_event_que.Prelude.{
  ℕ, suc, ◌+◌, ◌≤◌, ◌≡◌, refl, ◌∙◌, true, false, List, [], ◌∷◌, ◌++◌, some, length, arith,
  append-nil, append_assoc, length-append,
}
use message_driven_event_que.Message.{Message}
use message_driven_event_que.SafeQueue.{SafeQueue, push}
use message_driven_event_que.AckEngine.{AckEngine, Push, to_main, to_dlq}
use message_driven_event_que.AckEngine
use message_driven_event_que.Broker.{
  Program, Call, calls, unlocks, pushes, Shared, advance, push_then, event,
}
use message_driven_event_que.Broker.Dispatching.{drive}
use message_driven_event_que.Broker.Publishing.{push_room}

pub drive_step :
    (n : ℕ) (p p' : Program) (s s' : Shared)
    → advance p s ≡ some (p', s')
    → drive (suc n) p s ≡ drive n p' s'
unfolding drive
drive_step n p p' s s' e = rw e refl

-- What is pushed to the main queue, and to the dead letters.
abbrev pub mains : List Push → List Message
mains [] = []
mains (to_main msg ∷ ps) = msg ∷ mains ps
mains (to_dlq msg ∷ ps) = mains ps

abbrev pub deads : List Push → List Message
deads [] = []
deads (to_main msg ∷ ps) = deads ps
deads (to_dlq msg ∷ ps) = msg ∷ deads ps

abbrev pub filled : List Message → SafeQueue Message → SafeQueue Message
filled msgs q = record q { items = q.items ++ msgs }

abbrev pub HasRoom : List Message → SafeQueue Message → Type 0
HasRoom [] q = Unit {0}
HasRoom (msg ∷ msgs) q = length q.items + suc (length msgs) ≤ q.capacity

abbrev pub with_pushes : List Push → Shared → Shared
with_pushes ps s = record s {
  main_queue = filled (mains ps) s.main_queue;
  dlq = filled (deads ps) s.dlq;
}

pub one_in :
    (msg : Message) (msgs : List Message) (q : SafeQueue Message)
    → HasRoom (msg ∷ msgs) q
    → (push msg q ≡ some (filled (msg ∷ []) q)) × HasRoom msgs (filled (msg ∷ []) q)
one_in msg [] q room = (push_room msg q (omega arith), tt)
one_in msg (next ∷ msgs) q room =
    (push_room msg q (omega arith), omega (arith, length-append q.items (msg ∷ [])))

-- The steps that the pushes take, before `n` more.
abbrev pub steps_with : List Push → ℕ → ℕ
steps_with [] n = n
steps_with (_ ∷ ps) n = suc (steps_with ps n)

pub push_main :
    (msg : Message) (p : Program) (s : Shared) (q : SafeQueue Message)
    → push msg s.main_queue ≡ some q
    → advance (pushes (to_main msg) p) s ≡ some (p, record s { main_queue = q })
unfolding advance
push_main msg p s q e = rw (e, advance) refl

push_dead :
    (msg : Message) (p : Program) (s : Shared) (q : SafeQueue Message)
    → push msg s.dlq ≡ some q
    → advance (pushes (to_dlq msg) p) s ≡ some (p, record s { dlq = q })
unfolding advance
push_dead msg p s q e = rw (e, advance) refl

drive-push_then :
    (ps : List Push) (n : ℕ) (p : Program) (s : Shared)
    → HasRoom (mains ps) s.main_queue
    → HasRoom (deads ps) s.dlq
    → drive (steps_with ps n) (push_then ps p) s ≡ drive n p (with_pushes ps s)
unfolding push_then
drive-push_then [] n p s main dead = rw (append-nil s.main_queue.items, append-nil s.dlq.items) refl
drive-push_then (to_main msg ∷ ps) n p s main dead =
    let (pushed, room) = one_in msg (mains ps) s.main_queue main in
    let s' = record s { main_queue = filled (msg ∷ []) s.main_queue } in
    drive_step (steps_with ps n) (pushes (to_main msg) (push_then ps p)) (push_then ps p) s s'
      (push_main msg (push_then ps p) s (filled (msg ∷ []) s.main_queue) pushed)
    ∙ drive-push_then ps n p s' room dead
    ∙ rw (append_assoc s.main_queue.items (msg ∷ []) (mains ps)) refl
drive-push_then (to_dlq msg ∷ ps) n p s main dead =
    let (pushed, room) = one_in msg (deads ps) s.dlq dead in
    let s' = record s { dlq = filled (msg ∷ []) s.dlq } in
    drive_step (steps_with ps n) (pushes (to_dlq msg) (push_then ps p)) (push_then ps p) s s'
      (push_dead msg (push_then ps p) s (filled (msg ∷ []) s.dlq) pushed)
    ∙ drive-push_then ps n p s' main room
    ∙ rw (append_assoc s.dlq.items (msg ∷ []) (deads ps)) refl

taken :
    (c : Call) (p : Program) (s : Shared) (ps : List Push) (engine : AckEngine)
    → s.locked ≡ false
    → AckEngine.step (event s.clock c) s.engine ≡ (ps, engine)
    → advance (calls c p) s
      ≡ some (push_then ps (unlocks p), record s { engine = engine; locked = true })
unfolding advance
taken c p s ps engine free e = rw (free, e) refl

given_back :
    (p : Program) (s : Shared) → advance (unlocks p) s ≡ some (p, record s { locked = false })
unfolding advance
given_back p s = refl

-- The whole call, where nobody holds mu_ and there is room for what it pushes.
pub drive-calls :
    (n : ℕ) (c : Call) (p : Program) (s : Shared) (ps : List Push) (engine : AckEngine)
    → s.locked ≡ false
    → AckEngine.step (event s.clock c) s.engine ≡ (ps, engine)
    → HasRoom (mains ps) s.main_queue
    → HasRoom (deads ps) s.dlq
    → drive (suc (steps_with ps (suc n))) (calls c p) s
      ≡ drive n p (with_pushes ps (record s { engine = engine; locked = false }))
drive-calls n c p s ps engine free e main dead =
    let held = record s { engine = engine; locked = true } in
    drive_step (steps_with ps (suc n)) (calls c p) (push_then ps (unlocks p)) s held
      (taken c p s ps engine free e)
    ∙ drive-push_then ps (suc n) (unlocks p) held main dead
    ∙ drive_step n (unlocks p) p (with_pushes ps held) _ (given_back p (with_pushes ps held))
