-- ===== src/AckEngine/Invariant.antt =====
-- What holds of the engine between two operations.
use message_driven_event_que.Prelude.{
  ℕ, suc, ◌+◌, ◌≤◌, ◌≡◌, ◌⊎◌, inl, inr, refl, sym, ap, ◌∙◌, List, [], ◌∷◌, Option, none, some,
  arith, ◌==◌, eq_iff, nat_eq, pair_eq, ltb, Bool-cases, Option-cases,
}
use message_driven_event_que.Prelude.Int.{ℤ, int_eq}
use message_driven_event_que.Prelude.Maps.{
  lookup, erase, lookup-erase, insert_sorted, lookup-insert_sorted,
}
use message_driven_event_que.Message.{Message, ClientId}
use message_driven_event_que.AckEngine.{
  AckEngine, Key, lt_key, InFlight, Flights, DeadlineEntry, due, expire, redelivery, Event, step,
  run, start, client_disconnected, fail_client, nack, ack, track, tracked, acked, nacked, gone,
  woke,
}
use message_driven_event_que.AckEngine.Deadlines.{
  Earliest, Sorted, sooner_bound, Sorted-push_deadline, Listed-push_deadline,
}
use message_driven_event_que.AckEngine.Keys.{Ordered, Ordered-erase, Ordered-insert_sorted}
use message_driven_event_que.AckEngine.Expiry.{Covered, Covered-skip, Covered-erase}
use message_driven_event_que.AckEngine.Disconnection.{
  spared, Ordered-fail_client, fail_client-lookup,
}

-- Every entry stands under its own key.
abbrev pub Keyed : Flights → Type 0
Keyed fl =
    (k : Key) (entry : InFlight)
    → lookup k fl ≡ some entry
    → k ≡ (entry.msg.msg_id, entry.subscriber_id)

pub record IsWatched (e : AckEngine) : Type 0 where
  pub ordered : Ordered e.in_flight
  pub sorted : Sorted e.deadlines
  pub covered : Covered e.in_flight e.deadlines
  pub keyed : Keyed e.in_flight

-- `small` has no entry that is not in `big`.
abbrev pub Within : Flights → Flights → Type 0
Within small big =
    (k : Key) (entry : InFlight) → lookup k small ≡ some entry → lookup k big ≡ some entry

Within-erase : (i : Key) (fl : Flights) → Within (erase i fl) fl
Within-erase i fl k entry l = elim (Bool-cases (i == k)) [
  | inl hit ↦
      let none_left : lookup k (erase i fl) ≡ none = lookup-erase i k fl ∙ rw hit refl in absurd cc
  | inr miss ↦
      let same : lookup k (erase i fl) ≡ lookup k fl = lookup-erase i k fl ∙ rw miss refl in
      sym same ∙ l
]

found_inserted :
    (key : Key) (new : InFlight) (fl : Flights) (k : Key) (entry : InFlight)
    → lookup k (insert_sorted lt_key key new fl) ≡ some entry
    → ((key ≡ k) × (new ≡ entry)) ⊎ (lookup k fl ≡ some entry)
found_inserted key new fl k entry l = elim (Bool-cases (key == k)) [
  | inl hit ↦
      let there : lookup k (insert_sorted lt_key key new fl) ≡ some new =
        lookup-insert_sorted lt_key key k new fl ∙ rw hit refl in
      let same : some new ≡ some entry = sym there ∙ l in inl ((eq_iff key k).0 hit, cc)
  | inr miss ↦ inr (sym (lookup-insert_sorted lt_key key k new fl ∙ rw miss refl) ∙ l)
]

track-IsWatched :
    (now : ℕ) (msg : Message) (id : ClientId) (e : AckEngine)
    → IsWatched e
    → IsWatched (track now msg id e)
unfolding track
track-IsWatched now msg id e h =
    let key : Key = (msg.msg_id, id) in
    let entry : InFlight = record {
      msg = msg;
      subscriber_id = id;
      deadline = now + e.ack_timeout;
      retry_count = msg.retry_count;
    } in
    let found = found_inserted key entry e.in_flight in
    record {
      ordered = Ordered-insert_sorted key entry e.in_flight h.ordered;
      sorted = Sorted-push_deadline entry.deadline key e.deadlines h.sorted;
      covered = λ k x l. elim (found k x l) [
        | inl (hit, new) ↦
            Listed-push_deadline (x.deadline, k) (entry.deadline, key) e.deadlines (inl cc)
        | inr old ↦
            Listed-push_deadline (x.deadline, k) (entry.deadline, key) e.deadlines
              (inr (h.covered k x old))
      ];
      keyed = λ k x l. elim (found k x l) [
        | inl (hit, new) ↦ sym hit ∙ ap (λ (y : InFlight). (y.msg.msg_id, y.subscriber_id)) new
        | inr old ↦ h.keyed k x old
      ];
    }

erase-IsWatched :
    (k : Key) (e : AckEngine)
    → IsWatched e
    → IsWatched (record e { in_flight = erase k e.in_flight })
erase-IsWatched k e h = record {
  ordered = Ordered-erase k e.in_flight h.ordered;
  sorted = h.sorted;
  covered = λ j x l. h.covered j x (Within-erase k e.in_flight j x l);
  keyed = λ j x l. h.keyed j x (Within-erase k e.in_flight j x l);
}

nack-IsWatched :
    (msg_id : ℕ) (id : ClientId) (e : AckEngine) → IsWatched e → IsWatched (nack msg_id id e).1
unfolding nack
nack-IsWatched msg_id id e h = elim (Option-cases (lookup (msg_id, id) e.in_flight)) [
  | inl absent ↦ rw (absent, nack) h
  | inr (entry, there) ↦ rw (there, nack) (erase-IsWatched (msg_id, id) e h)
]

-- What a scan leaves: the rest of the queue, all of it later than now, covers the rest of the map.
abbrev Left : ℕ → Flights → List DeadlineEntry × Flights → Type 0
Left now before (ds, fl) =
    Ordered fl × Sorted ds × Earliest (suc now) ds × Covered fl ds × Within fl before

expire-Left :
    (m : ℤ) (now : ℕ) (ds : List DeadlineEntry) (fl : Flights)
    → Ordered fl
    → Sorted ds
    → Covered fl ds
    → Left now fl (expire m now ds fl).1
unfolding expire
expire-Left m now [] fl o s c = (o, s, tt, c, λ k entry l. l)
expire-Left m now ((t, k) ∷ ds) fl o s c = elim (Bool-cases (ltb now t)) [
  | inl early ↦
      let later : suc now ≤ t = ground arith in
      rw (early, expire) (o, s, (later, sooner_bound (suc now) t ds later s.0), c, λ j entry l. l)
  | inr reached ↦ elim (Option-cases (due (t, k) fl)) [
    | inl skip ↦
        rw (reached, expire, skip) (expire-Left m now ds fl o s.1 (Covered-skip t k ds fl skip c))
    | inr (entry, hit) ↦
        let fewer = erase k fl in
        let left =
          expire-Left m now ds fewer (Ordered-erase k fl o) s.1 (Covered-erase t k ds fl c) in
        let (o', s', later, c', within) = left in
        rw (reached, expire, hit) (o', s', later, c', λ j x l. Within-erase k fl j x (within j x l))
  ]
]

spared-some :
    (id : ClientId) (o : Option InFlight) (entry : InFlight)
    → spared id o ≡ some entry
    → o ≡ some entry
spared-some id none entry e = absurd cc
spared-some id (some x) entry e = ground arith

fail_client-Within :
    (m : ℤ) (id : ClientId) (fl : Flights) → Ordered fl → Within (fail_client m id fl).1 fl
fail_client-Within m id fl o k entry l =
    spared-some id (lookup k fl) entry (sym (fail_client-lookup m id k fl o) ∙ l)

pub step-IsWatched : (v : Event) (e : AckEngine) → IsWatched e → IsWatched (step v e).1
unfolding step ack redelivery client_disconnected
step-IsWatched (tracked now msg id) e h = track-IsWatched now msg id e h
step-IsWatched (acked msg_id id) e h = erase-IsWatched (msg_id, id) e h
step-IsWatched (nacked msg_id id) e h = nack-IsWatched msg_id id e h
step-IsWatched (gone id) e h =
    let within = fail_client-Within e.max_retries id e.in_flight h.ordered in
    record {
      ordered = Ordered-fail_client e.max_retries id e.in_flight h.ordered;
      sorted = h.sorted;
      covered = λ k x l. h.covered k x (within k x l);
      keyed = λ k x l. h.keyed k x (within k x l);
    }
step-IsWatched (woke now) e h =
    let (o, s, _, c, within) =
      expire-Left e.max_retries now e.deadlines e.in_flight h.ordered h.sorted h.covered in
    record { ordered = o; sorted = s; covered = c; keyed = λ k x l. h.keyed k x (within k x l) }

pub stays_sound : (vs : List Event) (e : AckEngine) → IsWatched e → IsWatched (run vs e).1
unfolding run
stays_sound [] e h = h
stays_sound (v ∷ vs) e h = stays_sound vs (step v e).1 (step-IsWatched v e h)

nothing : (k : Key) (entry : InFlight) → lookup {V = InFlight} k [] ≡ some entry → ⊥
unfolding lookup
nothing k entry l = cc

-- Whatever calls come and however often the scanner wakes, from the start: the deliveries in flight
-- stand in the order of their keys, each under the id of its message and its subscriber and once; the
-- queue of deadlines is in the order of time; and every delivery in flight has its own deadline in the
-- queue, so that none can be forgotten.
pub run-IsWatched :
    (ack_timeout : ℕ) (max_retries : ℤ) (vs : List Event)
    → IsWatched (run vs (start ack_timeout max_retries)).1
run-IsWatched ack_timeout max_retries vs = stays_sound vs (start ack_timeout max_retries) (record {
  ordered = tt;
  sorted = tt;
  covered = λ k entry l. absurd (nothing k entry l);
  keyed = λ k entry l. absurd (nothing k entry l);
})
