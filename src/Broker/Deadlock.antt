-- ===== src/Broker/Deadlock.antt =====
-- A scanner that waits for room in the main queue, with mu_ held, and a dispatcher that waits for mu_.
use message_driven_event_que.Prelude.{
  ℕ, zero, suc, ◌≤◌, ◌≡◌, refl, sym, ◌∙◌, true, false, List, [], ◌∷◌, ◌++◌, Option, none, some,
  get_elem?, arith, length, All,
}
use message_driven_event_que.Message.{ClientId, Message}
use message_driven_event_que.SafeQueue.{push, try_pop_for}
use message_driven_event_que.AckEngine.{to_main, to_dlq}
use message_driven_event_que.TcpServer.{Frame, sentinel}
use message_driven_event_que.Broker.{
  Program, done, pops_main, pops_dlq, reads_clock, subscribes, unsubscribes, closes, erases, routes,
  appends, takes_id, acknowledges, pushes, calls, unlocks, sends, Call, Shared, advance, on_frame,
  logger_round,
}
use message_driven_event_que.Broker.Steps.{
  Stepped, dispatcher_ran, logger_ran, scanner_ran, reader_ran, frame_came, hung_up, registered,
  accepted_one, flushed, wrote, ticked, move-Stepped, bind_some,
}
use message_driven_event_que.Broker.Threads.{
  Connection, Broker, Move, replace, move, run, disconnect, or_round,
}

-- A program that neither holds mu_ nor takes from the main queue before it needs mu_.
abbrev pub IsOutside : Program → Type 0
IsOutside done = Unit {0}
IsOutside pops_main = ⊥
IsOutside pops_dlq = Unit {0}
IsOutside reads_clock = Unit {0}
IsOutside (subscribes topic group id p) = IsOutside p
IsOutside (unsubscribes id p) = IsOutside p
IsOutside (closes id p) = IsOutside p
IsOutside (erases id p) = IsOutside p
IsOutside (routes msg) = ⊥
IsOutside (appends msg) = Unit {0}
IsOutside (takes_id topic body) = Unit {0}
IsOutside (acknowledges msg_id p) = IsOutside p
IsOutside (pushes x p) = IsOutside p
IsOutside (calls c p) = Unit {0}
IsOutside (unlocks p) = ⊥
IsOutside (sends id frame p) = IsOutside p

on_frame-IsOutside : (id : ClientId) (f : Frame) → IsOutside (on_frame id f)
unfolding on_frame
on_frame-IsOutside id f = ground arith

abbrev pub IsJammed : Shared → Type 0
IsJammed s = (s.locked ≡ true) × (s.main_queue.capacity ≤ length s.main_queue.items)

-- The main queue stays as it is, and mu_ held.
advance-IsJammed :
    (p p' : Program) (s s' : Shared)
    → IsOutside p
    → IsJammed s
    → advance p s ≡ some (p', s')
    → IsOutside p' × (s'.locked ≡ s.locked) × (s'.main_queue ≡ s.main_queue)
unfolding advance push try_pop_for
advance-IsJammed done p' s s' o j e = absurd cc
advance-IsJammed pops_main p' s s' o j e = absurd o
advance-IsJammed pops_dlq p' s s' o j e = ground arith
advance-IsJammed reads_clock p' s s' o j e = ground arith
advance-IsJammed (subscribes topic group id p) p' s s' o j e = ground arith
advance-IsJammed (unsubscribes id p) p' s s' o j e = ground arith
advance-IsJammed (closes id p) p' s s' o j e = ground arith
advance-IsJammed (erases id p) p' s s' o j e = ground arith
advance-IsJammed (routes msg) p' s s' o j e = absurd o
advance-IsJammed (appends msg) p' s s' o j e = ground arith
advance-IsJammed (takes_id topic body) p' s s' o j e = ground arith
advance-IsJammed (acknowledges msg_id p) p' s s' o j e = ground arith
advance-IsJammed (pushes (to_main msg) p) p' s s' o j e = ground arith
advance-IsJammed (pushes (to_dlq msg) p) p' s s' o j e = ground arith
advance-IsJammed (calls c p) p' s s' o j e =
    let held : ◌≡◌ {A = Option (Program × Shared)} none (some (p', s')) = rw j.0 at e in
    let no : ⊥ = cc in absurd no
advance-IsJammed (unlocks p) p' s s' o j e = absurd o
advance-IsJammed (sends id frame p) p' s s' o j e = ground arith

abbrev pub Around : List Connection → Type 0
Around = All (λ c. IsOutside c.program)

-- The scanner waits for room with mu_ held, the dispatcher waits for mu_, and nobody else holds it.
pub record IsStuck (msg : Message) (rest waiter : Program) (c : Call) (b : Broker) : Type 0 where
  pub jam : IsJammed b.shared
  pub holder : b.scanner ≡ pushes (to_main msg) rest
  pub waits : b.dispatcher ≡ calls c waiter
  pub logger : IsOutside b.logger
  pub readers : Around b.connections

Around-replace :
    (i : ℕ) (c : Connection) (cs : List Connection)
    → IsOutside c.program
    → Around cs
    → Around (replace i c cs)
unfolding replace
Around-replace i c [] o a = tt
Around-replace zero c (x ∷ cs) o a = (o, a.1)
Around-replace (suc i) c (x ∷ cs) o a = (a.0, Around-replace i c cs o a.1)

Around-get_elem? :
    (i : ℕ) (c : Connection) (cs : List Connection)
    → get_elem? cs i ≡ some c
    → Around cs
    → IsOutside c.program
Around-get_elem? i c [] e a = absurd cc
Around-get_elem? zero c (x ∷ cs) e a = let same : x ≡ c = cc in rw (sym same) (a.0)
Around-get_elem? (suc i) c (x ∷ cs) e a = Around-get_elem? i c cs e a.1

disconnect-IsOutside : (id : ClientId) → IsOutside (disconnect id)
unfolding disconnect
disconnect-IsOutside id = on_frame-IsOutside id sentinel

jam_stays :
    (s s' : Shared) → s'.locked ≡ s.locked → s'.main_queue ≡ s.main_queue → IsJammed s → IsJammed s'
jam_stays s s' held queue j = rw (held, queue) j

held_up : (c : Call) (q : Program) (s : Shared) → s.locked ≡ true → advance (calls c q) s ≡ none
unfolding advance
held_up c q s h = rw h refl

no_room :
    (x : Message) (q : Program) (s : Shared) → IsJammed s → advance (pushes (to_main x) q) s ≡ none
unfolding advance push
no_room x q s j = ground arith

or_round-IsOutside :
    (round p : Program) → IsOutside round → IsOutside p → IsOutside (or_round round p)
or_round-IsOutside round p r o = ground arith

Around-append :
    (cs : List Connection) (id : ClientId)
    → Around cs
    → Around (cs ++ record { id = id; alive = true; program = done } ∷ [])
Around-append [] id a = (tt, tt)
Around-append (x ∷ cs) id a = (a.0, Around-append cs id a.1)

module _ (msg : Message) (rest waiter : Program) (c : Call) where
  pub Stepped-IsStuck :
      (b b' : Broker)
      → IsStuck msg rest waiter c b
      → Stepped b b'
      → IsStuck msg rest waiter c b' × (b'.shared.main_queue ≡ b.shared.main_queue)
  Stepped-IsStuck b b' k (dispatcher_ran p s e same) =
      let blocked = rw k.waits at e in absurd (let stop = held_up c waiter b.shared k.jam.0 in cc)
  Stepped-IsStuck b b' k (logger_ran p s e same) =
      let (out, held, queue) =
        advance-IsJammed (or_round logger_round b.logger) p b.shared s
          (or_round-IsOutside logger_round b.logger tt k.logger) k.jam e in
      rw same (
        record {
          jam = jam_stays b.shared s held queue k.jam;
          holder = k.holder;
          waits = k.waits;
          logger = out;
          readers = k.readers;
        },
        queue,
      )
  Stepped-IsStuck b b' k (scanner_ran p s e same) =
      let blocked = rw k.holder at e in absurd (let stop = no_room msg rest b.shared k.jam in cc)
  Stepped-IsStuck b b' k (reader_ran n x p s there e same) =
      let (out, held, queue) =
        advance-IsJammed x.program p b.shared s (Around-get_elem? n x b.connections there k.readers)
          k.jam e in
      let kept = Around-replace n (record x { program = p }) b.connections out k.readers in
      rw same (
        record {
          jam = jam_stays b.shared s held queue k.jam;
          holder = k.holder;
          waits = k.waits;
          logger = k.logger;
          readers = kept;
        },
        queue,
      )
  Stepped-IsStuck b b' k (frame_came n x f there idle same) =
      let kept =
        Around-replace n (record x { alive = true; program = on_frame x.id f }) b.connections
          (on_frame-IsOutside x.id f) k.readers in
      rw same (
        record {
          jam = k.jam;
          holder = k.holder;
          waits = k.waits;
          logger = k.logger;
          readers = kept;
        },
        refl,
      )
  Stepped-IsStuck b b' k (hung_up n x there idle same) =
      let kept =
        Around-replace n (record x { alive = false; program = disconnect x.id }) b.connections
          (disconnect-IsOutside x.id) k.readers in
      rw same (
        record {
          jam = k.jam;
          holder = k.holder;
          waits = k.waits;
          logger = k.logger;
          readers = kept;
        },
        refl,
      )
  Stepped-IsStuck b b' k (registered id same) = rw same (
    record {
      jam = k.jam;
      holder = k.holder;
      waits = k.waits;
      logger = k.logger;
      readers = Around-append b.connections id k.readers;
    },
    refl,
  )
  Stepped-IsStuck b b' k (accepted_one id fresh same) = ground arith
  Stepped-IsStuck b b' k (flushed idle full same) = ground arith
  Stepped-IsStuck b b' k (wrote busy same) = ground arith
  Stepped-IsStuck b b' k (ticked d same) = ground arith

  -- Once the scanner waits for room in the main queue with mu_ held, the dispatcher waits for mu_, and
  -- no other thread holds it, then whatever happens afterwards the two wait on: the main queue is left
  -- as it is, and mu_ is never given back.
  pub deadlock :
      (ms : List Move) (b b' : Broker)
      → IsStuck msg rest waiter c b
      → run ms b ≡ some b'
      → IsStuck msg rest waiter c b' × (b'.shared.main_queue ≡ b.shared.main_queue)
  unfolding run
  deadlock [] b b' k e = let same : b ≡ b' = cc in rw (sym same) (k, refl)
  deadlock (m ∷ ms) b b' k e =
      let (mid, one, more) = bind_some (move m b) _ b' e in
      let (k', first) = Stepped-IsStuck b mid k (move-Stepped m b mid one) in
      let (k'', later) = deadlock ms mid b' k' more in (k'', later ∙ first)
