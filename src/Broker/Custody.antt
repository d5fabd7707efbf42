-- ===== src/Broker/Custody.antt =====
-- No message that was logged is lost while the broker runs, whatever the order of the threads' steps.
use message_driven_event_que.Prelude.{
  ℕ, ◌+◌, ◌≤◌, ◌≡◌, inl, inr, true, false, List, [], ◌∷◌, ◌++◌, Option, none, some, arith, nat_eq,
  Bool-cases, leb, append-nil,
}
use message_driven_event_que.Message.{Message}
use message_driven_event_que.SafeQueue.{push, try_pop_for}
use message_driven_event_que.TopicRouter.{Target, route, is_empty}
use message_driven_event_que.WalWriter.{Record}
use message_driven_event_que.WalWriter
use message_driven_event_que.AckEngine.{AckEngine, Event, Push, to_main, to_dlq, step}
use message_driven_event_que.AckEngine.Conservation.{weigh}
use message_driven_event_que.AckEngine.Invariant.{IsWatched}
use message_driven_event_que.Broker.{
  Program, done, pops_main, pops_dlq, reads_clock, subscribes, unsubscribes, closes, erases, routes,
  appends, takes_id, acknowledges, pushes, calls, unlocks, sends, Call, tracks, acks, nacks, drops,
  scans, event, Shared, advance, deliver_all, push_then,
}
use message_driven_event_que.Broker.Copies.{
  hit, queued, pushed, flying, carried, acking, step-flying,
}

module _ (id : ℕ) where
  -- The copies that a thread holds. A thread that is about to log an acknowledgement of the id counts
  -- as well.
  abbrev pub hand : Program → ℕ
  hand done = 0
  hand pops_main = 0
  hand pops_dlq = 0
  hand reads_clock = 0
  hand (subscribes topic group c p) = hand p
  hand (unsubscribes c p) = hand p
  hand (closes c p) = hand p
  hand (erases c p) = hand p
  hand (routes msg) = hit id msg.msg_id
  hand (appends msg) = hit id msg.msg_id
  hand (takes_id topic body) = 0
  hand (acknowledges msg_id p) = hit id msg_id + hand p
  hand (pushes x p) = pushed id x + hand p
  hand (calls (tracks msg c) p) = hit id msg.msg_id + hand p
  hand (calls (acks msg_id c) p) = hand p
  hand (calls (nacks msg_id c) p) = hand p
  hand (calls (drops c) p) = hand p
  hand (calls (scans t) p) = hand p
  hand (unlocks p) = hand p
  hand (sends c frame p) = hand p

  -- The copies in the queues and in flight.
  abbrev pub stored : Shared → ℕ
  stored s = queued id s.main_queue.items + queued id s.dlq.items + flying id s.engine.in_flight

  abbrev pub acks_in : List Record → ℕ
  acks_in [] = 0
  acks_in (WalWriter.publish msg ∷ rs) = acks_in rs
  acks_in (WalWriter.ack msg_id ∷ rs) = hit id msg_id + acks_in rs

  abbrev pub in_ids : List ℕ → ℕ
  in_ids [] = 0
  in_ids (i ∷ is) = hit id i + in_ids is

  -- What is over: an acknowledgement in the log, or a message without subscribers.
  abbrev pub settled : Shared → ℕ
  settled s = acks_in s.logged + in_ids s.unrouted

  -- A thread that calls the engine for an acknowledgement goes on to log it.
  abbrev pub IsHonest : Program → Type 0
  IsHonest done = Unit {0}
  IsHonest pops_main = Unit {0}
  IsHonest pops_dlq = Unit {0}
  IsHonest reads_clock = Unit {0}
  IsHonest (subscribes topic group c p) = IsHonest p
  IsHonest (unsubscribes c p) = IsHonest p
  IsHonest (closes c p) = IsHonest p
  IsHonest (erases c p) = IsHonest p
  IsHonest (routes msg) = Unit {0}
  IsHonest (appends msg) = Unit {0}
  IsHonest (takes_id topic body) = Unit {0}
  IsHonest (acknowledges msg_id p) = IsHonest p
  IsHonest (pushes x p) = IsHonest p
  IsHonest (calls (acks msg_id c) p) = (hit id msg_id ≤ hand p) × IsHonest p
  IsHonest (calls (tracks msg c) p) = IsHonest p
  IsHonest (calls (nacks msg_id c) p) = IsHonest p
  IsHonest (calls (drops c) p) = IsHonest p
  IsHonest (calls (scans t) p) = IsHonest p
  IsHonest (unlocks p) = IsHonest p
  IsHonest (sends c frame p) = IsHonest p

  queued-append : (xs ys : List Message) → queued id (xs ++ ys) ≡ queued id xs + queued id ys
  queued-append [] ys = omega arith
  queued-append (x ∷ xs) ys = omega (arith, queued-append xs ys)

  acks_in-append : (xs ys : List Record) → acks_in (xs ++ ys) ≡ acks_in xs + acks_in ys
  acks_in-append [] ys = omega arith
  acks_in-append (WalWriter.publish msg ∷ xs) ys = omega (arith, acks_in-append xs ys)
  acks_in-append (WalWriter.ack i ∷ xs) ys = omega (arith, acks_in-append xs ys)

  in_ids-append : (xs ys : List ℕ) → in_ids (xs ++ ys) ≡ in_ids xs + in_ids ys
  in_ids-append [] ys = omega arith
  in_ids-append (x ∷ xs) ys = omega (arith, in_ids-append xs ys)

  hand-push_then :
      (xs : List Push) (p : Program) → hand (push_then xs p) ≡ weigh (pushed id) xs + hand p
  unfolding push_then
  hand-push_then [] p = omega arith
  hand-push_then (x ∷ xs) p = omega (arith, hand-push_then xs p)

  hand-deliver_all :
      (msg : Message) (targets : List Target)
      → is_empty targets ≡ false
      → hit id msg.msg_id ≤ hand (deliver_all msg targets)
  unfolding deliver_all
  hand-deliver_all msg [] e = absurd cc
  hand-deliver_all msg (t ∷ targets) e = omega arith

  pub calls_lem :
      (c : Call) (p p' : Program) (s s' : Shared)
      → advance (calls c p) s ≡ some (p', s')
      → let (xs, e') = step (event s.clock c) s.engine in
        (p' ≡ push_then xs (unlocks p)) × (s' ≡ record s { engine = e'; locked = true })
  unfolding advance
  calls_lem c p p' s s' e = elim (Bool-cases s.locked) [
    | inl held ↦
        let stuck : ◌≡◌ {A = Option (Program × Shared)} none (some (p', s')) = rw held at e in
        let no : ⊥ = cc in absurd no
    | inr free ↦ let went = rw free at e in (cc, cc)
  ]

  event_keeps :
      (v : Event) (n : ℕ) (e : AckEngine)
      → IsWatched e
      → acking id v ≤ n
      → 1 ≤ carried id v + n + flying id e.in_flight
      → 1 ≤ weigh (pushed id) (step v e).0 + n + flying id (step v e).1.in_flight
  event_keeps v n e w honest one = elim (Bool-cases (leb 1 n)) [
    | inl some_left ↦ ground arith
    | inr nothing_left ↦ omega (arith, honest, step-flying id v e w (ground arith))
  ]

  called :
      (c : Call) (p : Program) (s : Shared)
      → IsWatched s.engine
      → IsHonest (calls c p)
      → 1 ≤ hand (calls c p) + flying id s.engine.in_flight
      → let (xs, e') = step (event s.clock c) s.engine in
        1 ≤ weigh (pushed id) xs + hand p + flying id e'.in_flight
  unfolding event
  called (tracks msg c) p s w h one =
      event_keeps (event s.clock (tracks msg c)) (hand p) s.engine w (omega arith) one
  called (acks msg_id c) p s w h one =
      event_keeps (event s.clock (acks msg_id c)) (hand p) s.engine w h.0 (omega arith)
  called (nacks msg_id c) p s w h one =
      event_keeps (event s.clock (nacks msg_id c)) (hand p) s.engine w (omega arith) (omega arith)
  called (drops c) p s w h one =
      event_keeps (event s.clock (drops c)) (hand p) s.engine w (omega arith) (omega arith)
  called (scans t) p s w h one =
      event_keeps (event s.clock (scans t)) (hand p) s.engine w (omega arith) (omega arith)

  -- In a step of a thread no copy is lost without being settled.
  pub advance_keeps :
      (p p' : Program) (s s' : Shared)
      → IsWatched s.engine
      → IsHonest p
      → advance p s ≡ some (p', s')
      → 1 ≤ hand p + stored s + settled s
      → 1 ≤ hand p' + stored s' + settled s'
  unfolding advance push try_pop_for
  advance_keeps done p' s s' w h e one = absurd cc
  advance_keeps pops_main p' s s' w h e one = ground (arith)
  advance_keeps pops_dlq p' s s' w h e one = ground arith
  advance_keeps reads_clock p' s s' w h e one = ground arith
  advance_keeps (subscribes topic group id p) p' s s' w h e one = ground arith
  advance_keeps (unsubscribes id p) p' s s' w h e one = ground arith
  advance_keeps (closes id p) p' s s' w h e one = ground arith
  advance_keeps (erases id p) p' s s' w h e one = ground arith
  advance_keeps (routes msg) p' s s' w h e one =
      elim (Bool-cases (is_empty (route msg s.router).0)) [
        | inl nobody ↦ ground (arith, in_ids-append s.unrouted (msg.msg_id ∷ []))
        | inr somebody ↦
            ground
              (arith, hand-deliver_all msg (route msg s.router).0 somebody, append-nil s.unrouted)
      ]
  advance_keeps (appends msg) p' s s' w h e one =
      ground (arith, acks_in-append s.logged (WalWriter.publish msg ∷ []))
  advance_keeps (takes_id topic body) p' s s' w h e one = ground arith
  advance_keeps (acknowledges msg_id p) p' s s' w h e one =
      ground (arith, acks_in-append s.logged (WalWriter.ack msg_id ∷ []))
  advance_keeps (pushes (to_main msg) p) p' s s' w h e one =
      ground (arith, queued-append s.main_queue.items (msg ∷ []))
  advance_keeps (pushes (to_dlq msg) p) p' s s' w h e one =
      ground (arith, queued-append s.dlq.items (msg ∷ []))
  advance_keeps (calls c p) p' s s' w h e one =
      let (xs, e') = step (event s.clock c) s.engine in
      let (program, shared) = calls_lem c p p' s s' e in
      elim (Bool-cases (leb 1 (queued id s.main_queue.items + queued id s.dlq.items + settled s))) [
        | inl others ↦ rw (program, shared) (ground arith)
        | inr none_else ↦
            rw (program, shared)
              (omega (arith, hand-push_then xs (unlocks p), called c p s w h (ground arith)))
      ]
  advance_keeps (unlocks p) p' s s' w h e one = ground arith
  advance_keeps (sends id frame p) p' s s' w h e one = ground arith
