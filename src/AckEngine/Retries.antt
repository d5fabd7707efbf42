-- ===== src/AckEngine/Retries.antt =====
-- How often a message is sent again.
use message_driven_event_que.Prelude.{
  ℕ, zero, suc, ◌+◌, ◌≤◌, ◌<◌, ◌≡◌, inl, inr, refl, ap, subst, ◌∙◌, true, false, List, [], ◌∷◌,
  ◌++◌, Option, none, some, arith, ◌==◌, eq_refl, nat_eq, pair_eq, ltb, leb, Bool-cases,
  Option-cases, All, All-append,
}
use message_driven_event_que.Prelude.Int.{ℤ, pos, negsuc, int_eq}
use message_driven_event_que.Prelude.Text.{codes}
use message_driven_event_que.Prelude.Maps.{lookup, erase, insert_sorted}
use message_driven_event_que.Message.{Message, ClientId}
use message_driven_event_que.AckEngine.{
  AckEngine, Key, InFlight, Flights, DeadlineEntry, Push, to_main, to_dlq, due, expire, redelivery,
  requeue_or_dlq, Event, step, run, start, push_deadline, client_disconnected, fail_client, nack,
  ack, track, tracked, acked, nacked, gone, woke,
}

-- A message sent again was sent before, and at most `max_retries` times; a dead letter starts anew.
abbrev pub Limited : ℤ → Push → Type 0
Limited (pos z) (to_main msg) = (1 ≤ msg.retry_count) × (msg.retry_count ≤ z)
Limited (negsuc z) (to_main msg) = ⊥
Limited m (to_dlq msg) = msg.retry_count ≡ 0

requeue-Limited : (m : ℤ) (entry : InFlight) → Limited m (requeue_or_dlq m entry)
unfolding requeue_or_dlq
requeue-Limited (pos z) entry = elim (Bool-cases (leb z entry.retry_count)) [
  | inl hit ↦ rw hit refl
  | inr miss ↦ rw miss (ground arith)
]
requeue-Limited (negsuc z) entry = refl

fail_client-Limited :
    (m : ℤ) (id : ClientId) (fl : Flights) → All (Limited m) (fail_client m id fl).0
unfolding fail_client
fail_client-Limited m id [] = tt
fail_client-Limited m id ((k, entry) ∷ fl) = elim (Bool-cases (entry.subscriber_id == id)) [
  | inl hit ↦ rw (hit, fail_client) (requeue-Limited m entry, fail_client-Limited m id fl)
  | inr miss ↦ rw (miss, fail_client) (fail_client-Limited m id fl)
]

expire-Limited :
    (m : ℤ) (now : ℕ) (ds : List DeadlineEntry) (fl : Flights)
    → All (Limited m) (expire m now ds fl).0
unfolding expire
expire-Limited m now [] fl = tt
expire-Limited m now ((t, k) ∷ ds) fl = elim (Bool-cases (ltb now t)) [
  | inl early ↦ rw (early, expire) tt
  | inr reached ↦ elim (Option-cases (due (t, k) fl)) [
    | inl skip ↦ rw (reached, expire, skip) (expire-Limited m now ds fl)
    | inr (entry, hit) ↦
        rw (reached, expire, hit) (requeue-Limited m entry, expire-Limited m now ds (erase k fl))
  ]
]

nack-Limited :
    (msg_id : ℕ) (id : ClientId) (e : AckEngine)
    → All (Limited e.max_retries) (nack msg_id id e).0
      × ((nack msg_id id e).1.max_retries ≡ e.max_retries)
unfolding nack
nack-Limited msg_id id e = elim (Option-cases (lookup (msg_id, id) e.in_flight)) [
  | inl absent ↦ rw (absent, nack) (tt, refl)
  | inr (entry, there) ↦ rw (there, nack) ((requeue-Limited e.max_retries entry, tt), refl)
]

pub step-Limited :
    (v : Event) (e : AckEngine)
    → All (Limited e.max_retries) (step v e).0 × ((step v e).1.max_retries ≡ e.max_retries)
unfolding step track ack client_disconnected redelivery
step-Limited (tracked now msg id) e = (tt, refl)
step-Limited (acked msg_id id) e = (tt, refl)
step-Limited (nacked msg_id id) e = nack-Limited msg_id id e
step-Limited (gone id) e = (fail_client-Limited e.max_retries id e.in_flight, refl)
step-Limited (woke now) e = (expire-Limited e.max_retries now e.deadlines e.in_flight, refl)

run_from :
    (m : ℤ) (vs : List Event) (e : AckEngine) → e.max_retries ≡ m → All (Limited m) (run vs e).0
unfolding run
run_from m [] e h = tt
run_from m (v ∷ vs) e h =
    let (first, same) = step-Limited v e in
    All-append (Limited m) (step v e).0 (run vs (step v e).1).0
      (subst (λ (l : ℤ). All (Limited l) (step v e).0) h first)
      (run_from m vs (step v e).1 (same ∙ h))

-- Whatever the engine is asked to do, every message that it pushes to the main queue carries a retry
-- count between 1 and the maximum (so a maximum of 0 or less pushes none there), and every message
-- that it pushes to the dead letters carries 0.
pub run-Limited : (vs : List Event) (e : AckEngine) → All (Limited e.max_retries) (run vs e).0
run-Limited vs e = run_from e.max_retries vs e refl

-- The message that goes back to the main queue, if one does.
abbrev pub returned : List Push → Option Message
returned [] = none
returned (to_dlq m ∷ ps) = returned ps
returned (to_main m ∷ ps) = some m

abbrev pub deliver : Option Message → ℕ → ClientId → AckEngine → AckEngine
deliver none now id e = e
deliver (some msg) now id e = track now msg id e

-- A message is sent to one subscriber, who never answers. In each round it is tracked, if there is one to send,
-- and the scanner wakes `late` ticks after the deadline; what then goes back to the main queue is sent in
-- the next round. The scanner wakes in every round, also when nothing was sent. The result are all
-- pushes. On fuel for the rounds.
pub unanswered : ℕ → ℕ → ℕ → ClientId → Option Message → AckEngine → List Push
unanswered zero now late id pending e = []
unanswered (suc fuel) now late id pending e =
    let woken = now + e.ack_timeout + late in
    let (pushes, e') = redelivery woken (deliver pending now id e) in
    pushes ++ unanswered fuel woken late id (returned pushes) e'

unanswered_round :
    (fuel now late : ℕ) (id : ClientId) (pending : Option Message) (e : AckEngine)
    (r : List Push × AckEngine)
    → redelivery (now + e.ack_timeout + late) (deliver pending now id e) ≡ r
    → unanswered (suc fuel) now late id pending e
      ≡ r.0 ++ unanswered fuel (now + e.ack_timeout + late) late id (returned r.0) r.1
unfolding unanswered
unanswered_round fuel now late id pending e r h =
    ap
      (λ (q : List Push × AckEngine).
        q.0 ++ unanswered fuel (now + e.ack_timeout + late) late id (returned q.0) q.1)
      h

-- An engine with nothing in flight pushes nothing, however often the scanner wakes.
silent :
    (rounds now late : ℕ) (id : ClientId) (timeout : ℕ) (m : ℤ)
    → unanswered rounds now late id none (start timeout m) ≡ []
unfolding unanswered redelivery expire
silent zero now late id timeout m = refl
silent (suc fuel) now late id timeout m = silent fuel (now + timeout + late) late id timeout m

-- The copies of a message with the retry counts that follow, `n` of them.
abbrev pub copies : ℕ → Message → List Push
copies zero msg = []
copies (suc n) msg =
    let again = record msg { retry_count = msg.retry_count + 1 } in to_main again ∷ copies n again

abbrev pub dead_letter : Message → Push
dead_letter msg = to_dlq (record msg { topic = codes "$DLQ." ++ msg.topic; retry_count = 0 })

requeue_last :
    (entry : InFlight) → requeue_or_dlq (pos entry.retry_count) entry ≡ dead_letter entry.msg
unfolding requeue_or_dlq
requeue_last entry =
    let last : leb entry.retry_count entry.retry_count ≡ true = ground arith in rw last refl

requeue_again :
    (z : ℕ) (entry : InFlight)
    → entry.retry_count < z
    → requeue_or_dlq (pos z) entry
      ≡ to_main (record entry.msg { retry_count = entry.retry_count + 1 })
unfolding requeue_or_dlq
requeue_again z entry h = let more : leb z entry.retry_count ≡ false = ground arith in rw more refl

expire_only :
    (m : ℤ) (now : ℕ) (key : Key) (entry : InFlight)
    → entry.deadline ≤ now
    → expire m now ((entry.deadline, key) ∷ []) ((key, entry) ∷ [])
      ≡ (requeue_or_dlq m entry ∷ [], ([], []))
unfolding expire due lookup erase
expire_only m now key entry h =
    let reached : ltb now entry.deadline ≡ false = ground arith in
    let fresh : ltb entry.deadline entry.deadline ≡ false = ground arith in
    let hit : (key == key) ≡ true = eq_refl key in
    let found : due (entry.deadline, key) ((key, entry) ∷ []) ≡ some entry =
      rw (due, lookup, hit, fresh) refl in
    let gone : erase key ((key, entry) ∷ []) ≡ [] = rw (erase, hit) refl in
    rw (reached, expire, found, gone) refl

abbrev pub delivery : ℕ → ClientId → Message → InFlight
delivery deadline id msg = record {
  msg = msg;
  subscriber_id = id;
  deadline = deadline;
  retry_count = msg.retry_count;
}

-- One round from an idle engine, which is idle again afterwards.
one_round :
    (now late timeout : ℕ) (m : ℤ) (id : ClientId) (msg : Message)
    → redelivery (now + timeout + late) (track now msg id (start timeout m))
      ≡ (requeue_or_dlq m (delivery (now + timeout) id msg) ∷ [], start timeout m)
unfolding track redelivery insert_sorted push_deadline
one_round now late timeout m id msg =
    let entry = delivery (now + timeout) id msg in
    let alone = expire_only m (now + timeout + late) (msg.msg_id, id) entry (omega arith) in
    rw alone refl

-- An idle engine that sends a message to a subscriber who never answers pushes it again with each
-- count up to the maximum, then once to the dead letters, and then no more, however often the scanner
-- wakes afterwards: `n` copies for a count that is `n` below the maximum, given more than `n` rounds.
pub unanswered_lem :
    (n rounds now late : ℕ) (id : ClientId) (msg : Message) (timeout z : ℕ)
    → msg.retry_count + n ≡ z
    → n < rounds
    → unanswered rounds now late id (some msg) (start timeout (pos z))
      ≡ copies n msg ++ dead_letter msg ∷ []
unanswered_lem n zero now late id msg timeout z h enough = absurd (omega arith)
unanswered_lem zero (suc fuel) now late id msg timeout z h enough =
    let entry = delivery (now + timeout) id msg in
    let count : z ≡ msg.retry_count = omega arith in
    let round = one_round now late timeout (pos z) id msg in
    let last : requeue_or_dlq (pos z) entry ≡ dead_letter msg = rw count (requeue_last entry) in
    unanswered_round fuel now late id (some msg) (start timeout (pos z))
      (requeue_or_dlq (pos z) entry ∷ [], start timeout (pos z)) round
    ∙ rw (last, silent fuel (now + timeout + late) late id timeout (pos z)) refl
unanswered_lem (suc n) (suc fuel) now late id msg timeout z h enough =
    let entry = delivery (now + timeout) id msg in
    let again = record msg { retry_count = msg.retry_count + 1 } in
    let round = one_round now late timeout (pos z) id msg in
    let more = requeue_again z entry (omega arith) in
    let rest =
      unanswered_lem n fuel (now + timeout + late) late id again timeout z (omega arith)
        (omega arith) in
    unanswered_round fuel now late id (some msg) (start timeout (pos z))
      (requeue_or_dlq (pos z) entry ∷ [], start timeout (pos z)) round
    ∙ rw more (ap (λ (ps : List Push). to_main again ∷ ps) rest)
