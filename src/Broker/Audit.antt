-- ===== src/Broker/Audit.antt =====
-- The accounts hold from the start of the broker on, through every step of every thread.
use message_driven_event_que.Prelude.{
  ℕ, zero, suc, ◌+◌, ◌-◌, ◌≤◌, ◌≡◌, refl, sym, ap, true, false, List, [], ◌∷◌, ◌++◌, some,
  get_elem?, arith, nat_eq,
}
use message_driven_event_que.Message.{ClientId}
use message_driven_event_que.WalWriter.{Record}
use message_driven_event_que.AckEngine.Invariant.{IsWatched}
use message_driven_event_que.Broker.{
  Program, done, Shared, advance, on_frame, dispatcher_round, logger_round, scanner_round,
}
use message_driven_event_que.Broker.Threads.{
  Connection, Broker, replace, disconnect, or_round, is_done, run, Move, move,
}
use message_driven_event_que.Broker.Steps.{
  Stepped, dispatcher_ran, logger_ran, scanner_ran, reader_ran, frame_came, hung_up, registered,
  accepted_one, flushed, wrote, ticked, move-Stepped, bind_some,
}
use message_driven_event_que.Broker.Custody.{hand, stored, settled, acks_in, IsHonest}
use message_driven_event_que.Broker.Accounts.{
  published_in, hands, AllHonest, IsKept, advance_sound, thread_keeps, hands-replace, hands-append,
  honest_replace, nth_reader, on_frame-IsHonest, disconnect-IsHonest,
}

module _ (id : ℕ) (old : List Record) where
  hand-or_round : (round p : Program) → hand id round ≡ 0 → hand id (or_round round p) ≡ hand id p
  hand-or_round round p h = ground arith

  or_round-IsHonest :
      (round p : Program) → IsHonest id round → IsHonest id p → IsHonest id (or_round round p)
  or_round-IsHonest round p r h = ground arith

  idle_hand : (p : Program) → is_done p ≡ true → hand id p ≡ 0
  idle_hand p e = ground arith

  hands_at :
      (n : ℕ) (c : Connection) (cs : List Connection)
      → get_elem? cs n ≡ some c
      → hand id c.program ≤ hands id cs
  hands_at n c [] e = absurd cc
  hands_at zero c (x ∷ cs) e =
      let same : x ≡ c = cc in omega (arith, ap (λ (y : Connection). hand id y.program) same)
  hands_at (suc n) c (x ∷ cs) e = omega (arith, hands_at n c cs e)

  thread_step :
      (others : ℕ) (p p' : Program) (s s' : Shared)
      → IsWatched s.engine
      → IsHonest id p
      → advance p s ≡ some (p', s')
      → (1 ≤ published_in id old + published_in id s.logged
          → 1 ≤ others + (hand id p + stored id s + settled id s))
      → IsWatched s'.engine
        × IsHonest id p'
        × (1 ≤ published_in id old + published_in id s'.logged
            → 1 ≤ others + (hand id p' + stored id s' + settled id s'))
  thread_step others p p' s s' w h e kept =
      let (w', h', _) = advance_sound id p p' s s' w h e in
      (w', h', thread_keeps id others (published_in id old) p p' s s' w h e kept)

  -- A reader that takes up a program holds no copy before.
  reader_began :
      (b : Broker) (n : ℕ) (c c' : Connection)
      → IsKept id old b
      → get_elem? b.connections n ≡ some c
      → is_done c.program ≡ true
      → IsHonest id c'.program
      → IsKept id old (record b { connections = replace n c' b.connections })
  reader_began b n c c' k there idle honest = record {
    watched = k.watched;
    dispatcher = k.dispatcher;
    logger = k.logger;
    scanner = k.scanner;
    readers = honest_replace id n c' b.connections honest k.readers;
    kept = λ one.
        omega (
          arith,
          k.kept one,
          idle_hand c.program idle,
          hands-replace id n c c' b.connections there,
        );
  }

  honest_append :
      (cs : List Connection) (c : ClientId)
      → AllHonest id cs
      → AllHonest id (cs ++ record { id = c; alive = true; program = done } ∷ [])
  honest_append [] c a = (tt, tt)
  honest_append (x ∷ cs) c a = (a.0, honest_append cs c a.1)

  Stepped-IsKept : (b b' : Broker) → IsKept id old b → Stepped b b' → IsKept id old b'
  Stepped-IsKept b b' k (dispatcher_ran p s e same) =
      let others =
        acks_in id old + (hand id b.logger + hand id b.scanner) + hands id b.connections in
      let (w, h, keeps) =
        thread_step others (or_round dispatcher_round b.dispatcher) p b.shared s k.watched
          (or_round-IsHonest dispatcher_round b.dispatcher tt k.dispatcher) e
          (λ one. omega (arith, k.kept one, hand-or_round dispatcher_round b.dispatcher refl)) in
      rw same (record {
        watched = w;
        dispatcher = h;
        logger = k.logger;
        scanner = k.scanner;
        readers = k.readers;
        kept = λ one. omega (arith, keeps one);
      })
  Stepped-IsKept b b' k (logger_ran p s e same) =
      let others =
        acks_in id old + (hand id b.dispatcher + hand id b.scanner) + hands id b.connections in
      let (w, h, keeps) =
        thread_step others (or_round logger_round b.logger) p b.shared s k.watched
          (or_round-IsHonest logger_round b.logger tt k.logger) e
          (λ one. omega (arith, k.kept one, hand-or_round logger_round b.logger refl)) in
      rw same (record {
        watched = w;
        dispatcher = k.dispatcher;
        logger = h;
        scanner = k.scanner;
        readers = k.readers;
        kept = λ one. omega (arith, keeps one);
      })
  Stepped-IsKept b b' k (scanner_ran p s e same) =
      let others =
        acks_in id old + (hand id b.dispatcher + hand id b.logger) + hands id b.connections in
      let (w, h, keeps) =
        thread_step others (or_round scanner_round b.scanner) p b.shared s k.watched
          (or_round-IsHonest scanner_round b.scanner tt k.scanner) e
          (λ one. omega (arith, k.kept one, hand-or_round scanner_round b.scanner refl)) in
      rw same (record {
        watched = w;
        dispatcher = k.dispatcher;
        logger = k.logger;
        scanner = h;
        readers = k.readers;
        kept = λ one. omega (arith, keeps one);
      })
  Stepped-IsKept b b' k (reader_ran n x p s there e same) =
      let x' = record x { program = p } in
      let moved = hands-replace id n x x' b.connections there in
      let others =
        acks_in id old
        + (hand id b.dispatcher + hand id b.logger + hand id b.scanner)
        + (hands id b.connections - hand id x.program) in
      let (w, h, keeps) =
        thread_step others x.program p b.shared s k.watched
          (nth_reader id n x b.connections there k.readers) e
          (λ one. omega (arith, k.kept one, hands_at n x b.connections there)) in
      rw same (record {
        watched = w;
        dispatcher = k.dispatcher;
        logger = k.logger;
        scanner = k.scanner;
        readers = honest_replace id n x' b.connections h k.readers;
        kept = λ one. omega (arith, keeps one, moved, hands_at n x b.connections there);
      })
  Stepped-IsKept b b' k (frame_came n x f there idle same) = rw same (
      reader_began b n x (record x { alive = true; program = on_frame x.id f }) k there idle
        (on_frame-IsHonest id x.id f))
  Stepped-IsKept b b' k (hung_up n x there idle same) = rw same (
      reader_began b n x (record x { alive = false; program = disconnect x.id }) k there idle
        (disconnect-IsHonest id x.id))
  Stepped-IsKept b b' k (registered c same) =
      let fresh : Connection = record { id = c; alive = true; program = done } in
      rw same (record {
        watched = k.watched;
        dispatcher = k.dispatcher;
        logger = k.logger;
        scanner = k.scanner;
        readers = honest_append b.connections c k.readers;
        kept = λ one. omega (arith, k.kept one, hands-append id b.connections fresh);
      })
  Stepped-IsKept b b' k (accepted_one c fresh same) = rw same (record {
    watched = k.watched;
    dispatcher = k.dispatcher;
    logger = k.logger;
    scanner = k.scanner;
    readers = k.readers;
    kept = k.kept;
  })
  Stepped-IsKept b b' k (flushed idle full same) = rw same (record {
    watched = k.watched;
    dispatcher = k.dispatcher;
    logger = k.logger;
    scanner = k.scanner;
    readers = k.readers;
    kept = k.kept;
  })
  Stepped-IsKept b b' k (wrote busy same) = rw same (record {
    watched = k.watched;
    dispatcher = k.dispatcher;
    logger = k.logger;
    scanner = k.scanner;
    readers = k.readers;
    kept = k.kept;
  })
  Stepped-IsKept b b' k (ticked d same) = rw same (record {
    watched = k.watched;
    dispatcher = k.dispatcher;
    logger = k.logger;
    scanner = k.scanner;
    readers = k.readers;
    kept = k.kept;
  })

  pub run-IsKept :
      (ms : List Move) (b b' : Broker) → IsKept id old b → run ms b ≡ some b' → IsKept id old b'
  unfolding run
  run-IsKept [] b b' k e = let same : b ≡ b' = cc in rw (sym same) k
  run-IsKept (m ∷ ms) b b' k e =
      let (mid, one, more) = bind_some (move m b) _ b' e in
      run-IsKept ms mid b' (Stepped-IsKept b mid k (move-Stepped m b mid one)) more
