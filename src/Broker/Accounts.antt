-- ===== src/Broker/Accounts.antt =====
-- The accounts of the whole broker: every message in the log, of this run or an earlier one, has been
-- acknowledged, or had no subscribers, or is still held somewhere.
use message_driven_event_que.Prelude.{
  ℕ, zero, suc, ◌+◌, ◌≤◌, ◌≡◌, sym, ap, inl, inr, List, [], ◌∷◌, ◌++◌, some, get_elem?, arith,
  nat_eq, Bool-cases, leb, All,
}
use message_driven_event_que.Message.{Message, ClientId}
use message_driven_event_que.SafeQueue.{push, try_pop_for}
use message_driven_event_que.TopicRouter.{Target, route}
use message_driven_event_que.TcpServer.{Frame, sentinel}
use message_driven_event_que.WalWriter.{Record}
use message_driven_event_que.WalWriter
use message_driven_event_que.AckEngine.{Push, to_main, to_dlq, step}
use message_driven_event_que.AckEngine.Invariant.{IsWatched, step-IsWatched}
use message_driven_event_que.Broker.{
  Program, done, pops_main, pops_dlq, reads_clock, subscribes, unsubscribes, closes, erases, routes,
  appends, takes_id, acknowledges, pushes, calls, unlocks, sends, Call, tracks, acks, nacks, drops,
  scans, event, Shared, advance, on_frame, deliver_all, push_then,
}
use message_driven_event_que.Broker.Threads.{Connection, Broker, replace, disconnect}
use message_driven_event_que.Broker.Copies.{hit}
use message_driven_event_que.Broker.Custody.{
  hand, stored, settled, acks_in, IsHonest, advance_keeps, calls_lem,
}

module _ (id : ℕ) where
  abbrev pub published_in : List Record → ℕ
  published_in [] = 0
  published_in (WalWriter.publish msg ∷ rs) = hit id msg.msg_id + published_in rs
  published_in (WalWriter.ack msg_id ∷ rs) = published_in rs

  pub published_in-append :
      (xs ys : List Record) → published_in (xs ++ ys) ≡ published_in xs + published_in ys
  published_in-append [] ys = omega arith
  published_in-append (WalWriter.publish msg ∷ xs) ys = omega (arith, published_in-append xs ys)
  published_in-append (WalWriter.ack i ∷ xs) ys = omega (arith, published_in-append xs ys)

  push_then-IsHonest : (xs : List Push) (p : Program) → IsHonest id p → IsHonest id (push_then xs p)
  unfolding push_then
  push_then-IsHonest [] p h = h
  push_then-IsHonest (x ∷ xs) p h = push_then-IsHonest xs p h

  deliver_all-IsHonest :
      (msg : Message) (targets : List Target) → IsHonest id (deliver_all msg targets)
  unfolding deliver_all
  deliver_all-IsHonest msg [] = tt
  deliver_all-IsHonest msg (t ∷ targets) = deliver_all-IsHonest msg targets

  pub on_frame-IsHonest : (c : ClientId) (f : Frame) → IsHonest id (on_frame c f)
  unfolding on_frame
  on_frame-IsHonest c f = ground arith

  pub disconnect-IsHonest : (c : ClientId) → IsHonest id (disconnect c)
  unfolding disconnect
  disconnect-IsHonest c = on_frame-IsHonest c sentinel

  IsHonest-rest : (c : Call) (p : Program) → IsHonest id (calls c p) → IsHonest id p
  IsHonest-rest (tracks msg k) p h = h
  IsHonest-rest (acks i k) p h = h.1
  IsHonest-rest (nacks i k) p h = h
  IsHonest-rest (drops k) p h = h
  IsHonest-rest (scans t) p h = h

  -- A step of a thread keeps the engine watched and the thread honest, and logs only a message that the
  -- thread then holds.
  pub advance_sound :
      (p p' : Program) (s s' : Shared)
      → IsWatched s.engine
      → IsHonest id p
      → advance p s ≡ some (p', s')
      → IsWatched s'.engine
        × IsHonest id p'
        × (published_in s'.logged ≤ published_in s.logged + hand id p')
  unfolding advance push try_pop_for
  advance_sound done p' s s' w h e = absurd cc
  advance_sound pops_main p' s s' w h e = ground arith
  advance_sound pops_dlq p' s s' w h e = ground arith
  advance_sound reads_clock p' s s' w h e = ground arith
  advance_sound (subscribes topic group c p) p' s s' w h e = ground arith
  advance_sound (unsubscribes c p) p' s s' w h e = ground arith
  advance_sound (closes c p) p' s s' w h e = ground arith
  advance_sound (erases c p) p' s s' w h e = ground arith
  advance_sound (routes msg) p' s s' w h e =
      ground (arith, deliver_all-IsHonest msg (route msg s.router).0)
  advance_sound (appends msg) p' s s' w h e =
      ground (arith, published_in-append s.logged (WalWriter.publish msg ∷ []))
  advance_sound (takes_id topic body) p' s s' w h e = ground arith
  advance_sound (acknowledges msg_id p) p' s s' w h e =
      ground (arith, published_in-append s.logged (WalWriter.ack msg_id ∷ []))
  advance_sound (pushes (to_main msg) p) p' s s' w h e = ground arith
  advance_sound (pushes (to_dlq msg) p) p' s s' w h e = ground arith
  advance_sound (calls c p) p' s s' w h e =
      let (xs, _) = step (event s.clock c) s.engine in
      let (program, shared) = calls_lem id c p p' s s' e in
      rw (program, shared)
        (
          step-IsWatched (event s.clock c) s.engine w,
          push_then-IsHonest xs (unlocks p) (IsHonest-rest c p h),
          omega arith,
        )
  advance_sound (unlocks p) p' s s' w h e = ground arith
  advance_sound (sends c frame p) p' s s' w h e = ground arith

  abbrev pub hands : List Connection → ℕ
  hands [] = 0
  hands (c ∷ cs) = hand id c.program + hands cs

  -- The copies that the broker holds, those of its threads included.
  abbrev pub copies : Broker → ℕ
  copies b =
      hand id b.dispatcher
      + hand id b.logger
      + hand id b.scanner
      + hands b.connections
      + stored id b.shared

  abbrev pub AllHonest : List Connection → Type 0
  AllHonest = All (λ c. IsHonest id c.program)

  -- `old` is the log of the earlier runs.
  pub record IsKept (old : List Record) (b : Broker) : Type 0 where
    pub watched : IsWatched b.shared.engine
    pub dispatcher : IsHonest id b.dispatcher
    pub logger : IsHonest id b.logger
    pub scanner : IsHonest id b.scanner
    pub readers : AllHonest b.connections
    pub kept :
        1 ≤ published_in old + published_in b.shared.logged
        → 1 ≤ acks_in id old + settled id b.shared + copies b

  -- With `others` for what the rest of the broker holds.
  pub thread_keeps :
      (others past : ℕ) (p p' : Program) (s s' : Shared)
      → IsWatched s.engine
      → IsHonest id p
      → advance p s ≡ some (p', s')
      → (1 ≤ past + published_in s.logged → 1 ≤ others + (hand id p + stored id s + settled id s))
      → 1 ≤ past + published_in s'.logged
      → 1 ≤ others + (hand id p' + stored id s' + settled id s')
  thread_keeps others past p p' s s' w h e kept one =
      let (_, _, logs) = advance_sound p p' s s' w h e in
      elim (Bool-cases (leb 1 (others + hand id p'))) [
        | inl here ↦ ground arith
        | inr gone ↦ elim (Bool-cases (leb 1 others)) [
          | inl there ↦ ground arith
          | inr away ↦
              let before : 1 ≤ hand id p + stored id s + settled id s =
                let zero_hand : others + hand id p' ≡ 0 = ground arith in
                omega (arith, kept (omega arith)) in
              omega (arith, advance_keeps id p p' s s' w h e before)
        ]
      ]

  pub hands-replace :
      (n : ℕ) (c c' : Connection) (cs : List Connection)
      → get_elem? cs n ≡ some c
      → hands (replace n c' cs) + hand id c.program ≡ hands cs + hand id c'.program
  unfolding replace
  hands-replace n c c' [] e = absurd cc
  hands-replace zero c c' (x ∷ cs) e =
      let same : x ≡ c = cc in omega (arith, ap (λ (y : Connection). hand id y.program) same)
  hands-replace (suc n) c c' (x ∷ cs) e = omega (arith, hands-replace n c c' cs e)

  pub hands-append :
      (cs : List Connection) (x : Connection) → hands (cs ++ x ∷ []) ≡ hands cs + hand id x.program
  hands-append [] x = omega arith
  hands-append (y ∷ cs) x = omega (arith, hands-append cs x)

  pub honest_replace :
      (n : ℕ) (c : Connection) (cs : List Connection)
      → IsHonest id c.program
      → AllHonest cs
      → AllHonest (replace n c cs)
  unfolding replace
  honest_replace n c [] o a = tt
  honest_replace zero c (x ∷ cs) o a = (o, a.1)
  honest_replace (suc n) c (x ∷ cs) o a = (a.0, honest_replace n c cs o a.1)

  pub nth_reader :
      (n : ℕ) (c : Connection) (cs : List Connection)
      → get_elem? cs n ≡ some c
      → AllHonest cs
      → IsHonest id c.program
  nth_reader n c [] e a = absurd cc
  nth_reader zero c (x ∷ cs) e a = let same : x ≡ c = cc in rw (sym same) (a.0)
  nth_reader (suc n) c (x ∷ cs) e a = nth_reader n c cs e a.1
