-- ===== src/Broker/Restart.antt =====
-- The broker from one start to the next: what it starts with, and what the log holds when it stops.
use message_driven_event_que.Prelude.{
  ℕ, ◌+◌, ◌≤◌, ◌≡◌, ◌⊎◌, refl, ap, ◌∙◌, inl, inr, true, List, [], ◌∷◌, ◌++◌, none, some, arith,
  nat_eq, Bool-cases, Option-cases, leb, All,
}
use message_driven_event_que.Prelude.Int.{ℤ}
use message_driven_event_que.Message.{Bytes, Message}
use message_driven_event_que.SafeQueue.{SafeQueue, create}
use message_driven_event_que.WalWriter.{
  Record, WalWriter, FlushPc, waiting, writing, finished, recovered, replay, read_record, append,
  acknowledge, swap_buffers, write_out, final_flush, ◌>>=◌,
}
use message_driven_event_que.WalWriter
use message_driven_event_que.WalWriter.Format.{Fits}
use message_driven_event_que.WalWriter.Replay.{
  log, find, latest, ever_acked, recovered-log, replay-create,
}
use message_driven_event_que.AckEngine
use message_driven_event_que.AckEngine.Invariant.{run-IsWatched}
use message_driven_event_que.Broker.Threads.{Broker, Move, run, boot, booted}
use message_driven_event_que.Broker.Steps.{bind_some}
use message_driven_event_que.Broker.Copies.{queued}
use message_driven_event_que.Broker.Custody.{acks_in, in_ids}
use message_driven_event_que.Broker.Accounts.{published_in, published_in-append, copies, IsKept}
use message_driven_event_que.Broker.Audit.{run-IsKept}

replay-some :
    (file : Bytes) (capacity : ℕ) (q : SafeQueue Message)
    → replay file (create capacity) ≡ some q
    → q ≡ record { items = recovered file; capacity = capacity }
replay-some file capacity q e = ground (arith, replay-create file capacity)

pub boot-some :
    (file : Bytes) (capacity ack_timeout : ℕ) (max_retries : ℤ) (b : Broker)
    → boot file capacity ack_timeout max_retries ≡ some b
    → b
      ≡ booted file capacity ack_timeout max_retries
          (record { items = recovered file; capacity = capacity })
unfolding boot
boot-some file capacity ack_timeout max_retries b e =
    let (q, filled, same) = bind_some (replay file (create capacity)) _ b e in
    let whole : b ≡ booted file capacity ack_timeout max_retries q = cc in
    whole ∙ ap (booted file capacity ack_timeout max_retries) (replay-some file capacity q filled)

module _ (id : ℕ) where
  latest_published :
      (rs : List Record) → 1 ≤ published_in id rs → (m : Message) × (latest id rs ≡ some m)
  unfolding latest
  latest_published [] h = absurd (omega arith)
  latest_published (WalWriter.publish msg ∷ rs) h = elim (Option-cases (latest id rs)) [
    | inl absent ↦ elim (Bool-cases (leb 1 (published_in id rs))) [
      | inl later ↦
          let (m, there) = latest_published rs (ground arith) in let no : ⊥ = cc in absurd no
      | inr now ↦ (msg, rw absent (ground arith))
    ]
    | inr (m, there) ↦ (m, rw there refl)
  ]
  latest_published (WalWriter.ack i ∷ rs) h = latest_published rs h

  find-queued : (m : Message) (msgs : List Message) → find id msgs ≡ some m → 1 ≤ queued id msgs
  unfolding find
  find-queued m [] e = absurd cc
  find-queued m (x ∷ msgs) e = ground (arith, find-queued m msgs)

  acks_in-ever_acked : (rs : List Record) → 1 ≤ acks_in id rs → ever_acked id rs ≡ true
  unfolding ever_acked
  acks_in-ever_acked [] h = absurd (omega arith)
  acks_in-ever_acked (WalWriter.publish msg ∷ rs) h = acks_in-ever_acked rs h
  acks_in-ever_acked (WalWriter.ack i ∷ rs) h = ground (arith, acks_in-ever_acked rs)

  ever_acked-acks_in : (rs : List Record) → ever_acked id rs ≡ true → 1 ≤ acks_in id rs
  unfolding ever_acked
  ever_acked-acks_in [] h = cc
  ever_acked-acks_in (WalWriter.publish msg ∷ rs) h = ever_acked-acks_in rs h
  ever_acked-acks_in (WalWriter.ack i ∷ rs) h = ground (arith, ever_acked-acks_in rs)

  ever_acked-append :
      (xs ys : List Record)
      → (ever_acked id xs ≡ true) ⊎ (ever_acked id ys ≡ true)
      → ever_acked id (xs ++ ys) ≡ true
  unfolding ever_acked
  ever_acked-append [] ys h = ground arith
  ever_acked-append (WalWriter.publish msg ∷ xs) ys h = ever_acked-append xs ys h
  ever_acked-append (WalWriter.ack i ∷ xs) ys h = ground (arith, ever_acked-append xs ys)

  all_settled :
      (old now : List Record) (rest : ℕ)
      → 1 ≤ acks_in id old + (acks_in id now + rest)
      → (ever_acked id (old ++ now) ≡ true) ⊎ (1 ≤ rest)
  all_settled old now rest h = elim (Bool-cases (leb 1 rest)) [
    | inl left ↦ inr (ground arith)
    | inr nothing ↦ elim (Bool-cases (leb 1 (acks_in id old))) [
      | inl before ↦ inl (ever_acked-append old now (inl (acks_in-ever_acked old (ground arith))))
      | inr since ↦ inl (ever_acked-append old now (inr (acks_in-ever_acked now (ground arith))))
    ]
  ]

  -- What the replay puts into the queue covers what is open in the log.
  recovered_open :
      (old : List Record) (torn : Bytes)
      → All Fits old
      → read_record torn ≡ none
      → 1 ≤ published_in id old
      → 1 ≤ acks_in id old + queued id (recovered (log old ++ torn))
  recovered_open old torn fits stop one =
      let (found, _) = recovered-log old torn id fits stop in
      elim (Bool-cases (ever_acked id old)) [
        | inl acked ↦ omega (arith, ever_acked-acks_in old acked)
        | inr still_open ↦
            let (m, last) = latest_published old one in
            let there : find id (recovered (log old ++ torn)) ≡ some m =
              found ∙ rw (still_open, last) refl in
            omega (arith, find-queued m (recovered (log old ++ torn)) there)
      ]

  booted-IsKept :
      (old : List Record) (torn : Bytes) (capacity ack_timeout : ℕ) (max_retries : ℤ)
      → All Fits old
      → read_record torn ≡ none
      → IsKept id old (
          booted
            (log old ++ torn)
            capacity
            ack_timeout
            max_retries
            (record { items = recovered (log old ++ torn); capacity = capacity }))
  unfolding AckEngine.run
  booted-IsKept old torn capacity ack_timeout max_retries fits stop = record {
    watched = run-IsWatched ack_timeout max_retries [];
    dispatcher = tt;
    logger = tt;
    scanner = tt;
    readers = tt;
    kept = λ one. omega (arith, recovered_open old torn fits stop (omega arith));
  }

  -- From a start over a log, which may end in a record cut short, and after any steps of any threads in
  -- any order: a message that was ever published with an id, in this run or before, has been
  -- acknowledged under the id, or a message with the id had no subscribers, or the broker still holds
  -- one: in a queue, in flight, or in the hands of a thread (which may be about to log its
  -- acknowledgement).
  pub nothing_lost :
      (old : List Record) (torn : Bytes) (capacity ack_timeout : ℕ) (max_retries : ℤ)
      (first b : Broker) (ms : List Move)
      → All Fits old
      → read_record torn ≡ none
      → boot (log old ++ torn) capacity ack_timeout max_retries ≡ some first
      → run ms first ≡ some b
      → 1 ≤ published_in id (old ++ b.shared.logged)
      → (ever_acked id (old ++ b.shared.logged) ≡ true)
        ⊎ ((1 ≤ in_ids id b.shared.unrouted) ⊎ (1 ≤ copies id b))
  nothing_lost old torn capacity ack_timeout max_retries first b ms fits stop start moves one =
      let file = log old ++ torn in
      let same = boot-some file capacity ack_timeout max_retries first start in
      let sound = booted-IsKept old torn capacity ack_timeout max_retries fits stop in
      let k = run-IsKept id old ms first b (rw same sound) moves in
      let open_or_not = k.kept (omega (arith, one, published_in-append id old b.shared.logged)) in
      elim (all_settled old b.shared.logged (in_ids id b.shared.unrouted + copies id b)
        (omega (arith, open_or_not))) [
          | inl acked ↦ inl acked
          | inr left ↦ elim (Bool-cases (leb 1 (in_ids id b.shared.unrouted))) [
            | inl unheard ↦ inr (inl (ground arith))
            | inr none_such ↦ inr (inr (ground arith))
          ]
        ]
