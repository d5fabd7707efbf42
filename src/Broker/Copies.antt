-- ===== src/Broker/Copies.antt =====
-- How many copies of the message with an id the broker holds, and what the operations of the
-- AckEngine do to that number.
use message_driven_event_que.Prelude.{
  ℕ, ◌+◌, ◌≤◌, ◌≡◌, ◌⊎◌, refl, sym, ap, ◌∙◌, inl, inr, List, [], ◌∷◌, none, some, if◌then◌else◌,
  arith, ◌==◌, nat_eq, pair_eq, Bool-cases, Option-cases,
}
use message_driven_event_que.Prelude.Int.{ℤ, int_eq}
use message_driven_event_que.Prelude.Maps.{lookup, erase, insert_sorted}
use message_driven_event_que.Message.{Message, ClientId}
use message_driven_event_que.AckEngine.{
  AckEngine, Key, lt_key, InFlight, Flights, Push, to_main, to_dlq, requeue_or_dlq, Event, tracked,
  acked, nacked, gone, woke, step, track, ack,
}
use message_driven_event_que.AckEngine.Conservation.{weigh, outstanding, outstanding-erase}
use message_driven_event_que.AckEngine.Invariant.{IsWatched}
use message_driven_event_que.AckEngine.Redelivery.{Requeues, step-outstanding}

module _ (id : ℕ) where
  abbrev pub hit : ℕ → ℕ
  hit msg_id = if msg_id == id then 1 else 0

  abbrev pub queued : List Message → ℕ
  queued [] = 0
  queued (msg ∷ msgs) = hit msg.msg_id + queued msgs

  abbrev pub pushed : Push → ℕ
  pushed (to_main msg) = hit msg.msg_id
  pushed (to_dlq msg) = hit msg.msg_id

  abbrev pub flying : Flights → ℕ
  flying [] = 0
  flying ((_, entry) ∷ fl) = hit entry.msg.msg_id + flying fl

  pushed_requeue :
      (m : ℤ) (entry : InFlight) → pushed (requeue_or_dlq m entry) ≡ hit entry.msg.msg_id
  unfolding requeue_or_dlq
  pushed_requeue m entry = ground arith

  outstanding-flying : (m : ℤ) (fl : Flights) → outstanding pushed m fl ≡ flying fl
  outstanding-flying m [] = refl
  outstanding-flying m ((_, entry) ∷ fl) =
      omega (arith, outstanding-flying m fl, pushed_requeue m entry)

  -- A new entry counts, and replaces at most an entry of its key.
  insert_sorted-flying :
      (k : Key) (v : InFlight) (fl : Flights)
      → (flying (insert_sorted lt_key k v fl) ≡ hit v.msg.msg_id + flying fl)
        ⊎ ((old : InFlight) × (lookup k fl ≡ some old)
            × (flying (insert_sorted lt_key k v fl) + hit old.msg.msg_id
                ≡ hit v.msg.msg_id + flying fl))
  unfolding insert_sorted lookup
  insert_sorted-flying k v [] = inl refl
  insert_sorted-flying k v ((j, w) ∷ fl) = elim (Bool-cases (j == k)) [
    | inl same ↦ rw (same, insert_sorted, lookup) (inr (w, refl, omega arith))
    | inr apart ↦ elim (Bool-cases (lt_key k j)) [
      | inl lt ↦ rw (apart, insert_sorted, lookup, lt) (inl refl)
      | inr ge ↦
          rw (apart, insert_sorted, lookup, ge)
            (elim (insert_sorted-flying k v fl) [
              | inl new ↦ inl (omega (arith, new))
              | inr (old, there, sum) ↦ inr (old, there, omega (arith, sum))
            ])
    ]
  ]

  inserted_hit :
      (k : Key) (v : InFlight) (fl : Flights)
      → hit v.msg.msg_id ≤ flying (insert_sorted lt_key k v fl)
  unfolding insert_sorted
  inserted_hit k v [] = omega arith
  inserted_hit k v ((j, w) ∷ fl) = ground (arith, inserted_hit k v fl)

  erase_absent : (k : Key) (fl : Flights) → lookup k fl ≡ none → erase k fl ≡ fl
  unfolding lookup erase
  erase_absent k [] e = refl
  erase_absent k ((j, w) ∷ fl) e = elim (Bool-cases (j == k)) [
    | inl same ↦ let found : none ≡ some w = sym e ∙ rw (same, lookup) refl in absurd cc
    | inr apart ↦
        let below : lookup k fl ≡ none = sym (rw (apart, lookup) refl) ∙ e in
        rw (apart, erase, erase_absent k fl below) refl
  ]

  abbrev pub carried : Event → ℕ
  carried (tracked now msg c) = hit msg.msg_id
  carried _ = 0

  abbrev pub acking : Event → ℕ
  acking (acked msg_id c) = hit msg_id
  acking _ = 0

  track-flying :
      (now : ℕ) (msg : Message) (c : ClientId) (e : AckEngine)
      → IsWatched e
      → 1 ≤ hit msg.msg_id + flying e.in_flight
      → 1 ≤ flying (track now msg c e).in_flight
  unfolding track
  track-flying now msg c e h some_copy =
      let key : Key = (msg.msg_id, c) in
      let entry : InFlight = record {
        msg = msg;
        subscriber_id = c;
        deadline = now + e.ack_timeout;
        retry_count = msg.retry_count;
      } in
      let counts = inserted_hit key entry e.in_flight in
      elim (insert_sorted-flying key entry e.in_flight) [
        | inl new ↦ omega (arith, new, some_copy)
        | inr (old, there, sum) ↦
            let own = h.keyed key old there in
            let ids : msg.msg_id ≡ old.msg.msg_id = ap (λ (k : Key). k.0) own in
            let same : hit msg.msg_id ≡ hit old.msg.msg_id = ap hit ids in
            omega (arith, sum, counts, same, some_copy)
      ]

  ack-flying :
      (msg_id : ℕ) (c : ClientId) (e : AckEngine)
      → IsWatched e
      → flying e.in_flight ≤ hit msg_id + flying (ack msg_id c e).in_flight
  unfolding ack
  ack-flying msg_id c e h =
      let key : Key = (msg_id, c) in
      let m = e.max_retries in
      elim (Option-cases (lookup key e.in_flight)) [
        | inl absent ↦ rw (erase_absent key e.in_flight absent) (omega arith)
        | inr (entry, there) ↦
            let ids : msg_id ≡ entry.msg.msg_id = ap (λ (k : Key). k.0) (h.keyed key entry there) in
            omega (
              arith,
              ap hit ids,
              pushed_requeue m entry,
              outstanding-flying m e.in_flight,
              outstanding-flying m (erase key e.in_flight),
              outstanding-erase pushed m key e.in_flight entry h.ordered there,
            )
      ]

  requeued-flying :
      (v : Event) (e : AckEngine)
      → IsWatched e
      → Requeues v
      → weigh pushed (step v e).0 + flying (step v e).1.in_flight ≡ flying e.in_flight
  requeued-flying v e h r = omega (
    arith,
    step-outstanding pushed v e h r,
    outstanding-flying e.max_retries e.in_flight,
    outstanding-flying e.max_retries (step v e).1.in_flight,
  )

  -- An operation loses no copy but by an acknowledgement of the id.
  pub step-flying :
      (v : Event) (e : AckEngine)
      → IsWatched e
      → 1 ≤ carried v + flying e.in_flight
      → 1 ≤ acking v + (weigh pushed (step v e).0 + flying (step v e).1.in_flight)
  unfolding step
  step-flying (tracked now msg c) e h one = omega (arith, track-flying now msg c e h one)
  step-flying (acked msg_id c) e h one = omega (arith, ack-flying msg_id c e h, one)
  step-flying (nacked msg_id c) e h one =
      omega (arith, requeued-flying (nacked msg_id c) e h tt, one)
  step-flying (gone c) e h one = omega (arith, requeued-flying (gone c) e h tt, one)
  step-flying (woke now) e h one = omega (arith, requeued-flying (woke now) e h tt, one)
