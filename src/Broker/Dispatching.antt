-- ===== src/Broker/Dispatching.antt =====
-- A round of the dispatcher that no other thread interrupts.
use message_driven_event_que.Prelude.{
  ℕ, zero, suc, ◌+◌, ◌≡◌, ◌⊎◌, refl, ap, ◌∙◌, inl, inr, true, false, ◌&&◌, ◌||◌, Bool, arith, List,
  [], ◌∷◌, ◌++◌, Option, some, if◌then◌else◌, ◌==◌, eq_iff, eq_refl, nat_eq, pair_eq, append_assoc,
  append-nil, All, Bool-cases,
}
use message_driven_event_que.Prelude.Int.{int_eq}
use message_driven_event_que.Prelude.Maps.{lookup, lookup-insert_sorted}
use message_driven_event_que.Message.{Bytes, ClientId, Message, event_data}
use message_driven_event_que.Protocol.{encode_frame}
use message_driven_event_que.SafeQueue.{try_pop_for}
use message_driven_event_que.TopicRouter.{Target, contains, is_empty, route}
use message_driven_event_que.WalWriter.{◌>>=◌}
use message_driven_event_que.AckEngine.{AckEngine, Key, lt_key, track, step}
use message_driven_event_que.AckEngine.Retries.{delivery}
use message_driven_event_que.Broker.{
  Program, done, pops_main, Shared, advance, deliver_all, push_then, event,
}

-- `n` steps of one thread.
unfoldable pub drive : ℕ → Program → Shared → Option (Program × Shared)
drive zero p s = some (p, s)
drive (suc n) p s = do (p', s') ← advance p s; drive n p' s'

-- The frames of a message for those of the targets that are connected.
pub frames_for : Message → List ClientId → List ClientId → List Target → List (ClientId × Bytes)
frames_for msg clients socks [] = []
frames_for msg clients socks ((id, _) ∷ targets) =
    let frame : ClientId × Bytes = (id, encode_frame event_data msg.msg_id msg.topic msg.body) in
    let rest = frames_for msg clients socks targets in
    if contains id clients && contains id socks then frame ∷ rest else rest

abbrev pub steps_for : List Target → ℕ
steps_for [] = 0
steps_for (t ∷ targets) = suc (suc (suc (steps_for targets)))

pub track_all : Message → List Target → ℕ → AckEngine → AckEngine
track_all msg [] now e = e
track_all msg ((id, _) ∷ targets) now e = track_all msg targets now (track now msg id e)

-- One target: tracked, and sent to if it is connected.
one_target :
    (msg : Message) (id : ClientId) (i n : ℕ) (targets : List Target) (s : Shared)
    → s.locked ≡ false
    → let frame : ClientId × Bytes = (id, encode_frame event_data msg.msg_id msg.topic msg.body) in
      drive (suc (suc (suc n))) (deliver_all msg ((id, i) ∷ targets)) s
      ≡ drive n (deliver_all msg targets) (record s {
        engine = track s.clock msg id s.engine;
        locked = false;
        sent =
            s.sent
            ++ (if contains id s.clients && contains id s.open_socks then frame ∷ [] else []);
      })
unfolding drive deliver_all advance event step push_then
one_target msg id i n targets s free = rw free refl

deliver_all_lem :
    (msg : Message) (targets : List Target) (s : Shared)
    → s.locked ≡ false
    → drive (steps_for targets) (deliver_all msg targets) s
      ≡ some (
        done,
        record s {
          engine = track_all msg targets s.clock s.engine;
          locked = false;
          sent = s.sent ++ frames_for msg s.clients s.open_socks targets;
        },
      )
unfolding drive deliver_all track_all frames_for
deliver_all_lem msg [] s free = rw (append-nil s.sent, ← free) refl
deliver_all_lem msg ((id, i) ∷ targets) s free =
    let frame : ClientId × Bytes = (id, encode_frame event_data msg.msg_id msg.topic msg.body) in
    let reached = if contains id s.clients && contains id s.open_socks then frame ∷ [] else [] in
    let s' = record s {
      engine = track s.clock msg id s.engine;
      locked = false;
      sent = s.sent ++ reached;
    } in
    one_target msg id i (steps_for targets) targets s free
    ∙ deliver_all_lem msg targets s' refl
    ∙ elim (Bool-cases (contains id s.clients && contains id s.open_socks)) [
      | inl hit ↦
          rw (hit, append_assoc s.sent (frame ∷ []) (frames_for msg s.clients s.open_socks targets))
            refl
      | inr miss ↦ rw (miss, append-nil s.sent) refl
    ]

abbrev pub IsTracked : Message → ℕ → AckEngine → Target → Type 0
IsTracked msg now e (id, _) =
    lookup {K = Key} (msg.msg_id, id) e.in_flight ≡ some (delivery (now + e.ack_timeout) id msg)

track-IsTracked :
    (msg : Message) (now : ℕ) (id : ClientId) (t : Target) (e : AckEngine)
    → (id ≡ t.0) ⊎ IsTracked msg now e t
    → IsTracked msg now (track now msg id e) t
unfolding track
track-IsTracked msg now id (to, i) e h =
    let entry = delivery (now + e.ack_timeout) id msg in
    let key : Key = (msg.msg_id, id) in
    let other : Key = (msg.msg_id, to) in
    let looked = lookup-insert_sorted lt_key key other entry e.in_flight in
    elim (Bool-cases (key == other)) [
      | inl same ↦
          let ids : id ≡ to = ap (λ (k : Key). k.1) ((eq_iff key other).0 same) in
          looked ∙ rw (same, ids) refl
      | inr apart ↦ elim h [
        | inl same ↦ let hit : (key == other) ≡ true = rw same (eq_refl other) in absurd cc
        | inr old ↦ looked ∙ rw apart old
      ]
    ]

track_all-IsTracked :
    (msg : Message) (now : ℕ) (targets : List Target) (t : Target) (e : AckEngine)
    → IsTracked msg now e t
    → IsTracked msg now (track_all msg targets now e) t
unfolding track_all
track_all-IsTracked msg now [] t e h = h
track_all-IsTracked msg now ((id, i) ∷ targets) t e h =
    track_all-IsTracked msg now targets t (track now msg id e)
      (track-IsTracked msg now id t e (inr h))

pub every_target :
    (msg : Message) (now : ℕ) (targets : List Target) (e : AckEngine)
    → All (IsTracked msg now (track_all msg targets now e)) targets
unfolding track_all
every_target msg now [] e = tt
every_target msg now ((id, i) ∷ targets) e = (
  track_all-IsTracked msg now targets (id, i) (track now msg id e)
      (track-IsTracked msg now id (id, i) e (inl refl)),
  every_target msg now targets (track now msg id e),
)

-- The key is one of the message at one of the targets.
abbrev pub is_target : Message → Key → List Target → Bool
is_target msg k [] = false
is_target msg k ((id, _) ∷ targets) = (msg.msg_id, id) == k || is_target msg k targets

-- Exactly the deliveries to the targets are made anew, by the time `now`. All others stay as they are.
pub track_all-lookup :
    (msg : Message) (now : ℕ) (k : Key) (targets : List Target) (e : AckEngine)
    → lookup k (track_all msg targets now e).in_flight ≡ (
        if is_target msg k targets
        then some (delivery (now + e.ack_timeout) k.1 msg)
        else lookup k e.in_flight)
unfolding track_all track
track_all-lookup msg now k [] e = refl
track_all-lookup msg now k ((id, i) ∷ targets) e =
    let entry = delivery (now + e.ack_timeout) id msg in
    let key : Key = (msg.msg_id, id) in
    let looked = lookup-insert_sorted lt_key key k entry e.in_flight in
    let later = track_all-lookup msg now k targets (track now msg id e) in
    elim (Bool-cases (key == k)) [
      | inl same ↦
          let ids : id ≡ k.1 = ap (λ (j : Key). j.1) ((eq_iff key k).0 same) in
          later ∙ rw (looked, same, ids) (ground arith)
      | inr apart ↦ later ∙ rw (looked, apart) refl
    ]

-- What such a round leaves behind.
unfoldable pub after_round : Message → List Message → Shared → Shared
unfolding track_all
after_round msg rest s =
    let (targets, router) = route msg s.router in
    record s {
      main_queue = record s.main_queue { items = rest };
      router = router;
      unrouted = s.unrouted ++ (if is_empty targets then msg.msg_id ∷ [] else []);
      engine = track_all msg targets s.clock s.engine;
      locked = false;
      sent = s.sent ++ frames_for msg s.clients s.open_socks targets;
    }

pub drive-after_round :
    (msg : Message) (rest : List Message) (s : Shared)
    → s.locked ≡ false
    → s.main_queue.items ≡ msg ∷ rest
    → drive (suc (suc (steps_for (route msg s.router).0))) pops_main s
      ≡ some (done, after_round msg rest s)
unfolding drive advance try_pop_for after_round
drive-after_round msg rest s free front =
    let (targets, router) = route msg s.router in
    let taken : Shared = record s {
      main_queue = record s.main_queue { items = rest };
      router = router;
      unrouted = s.unrouted ++ (if is_empty targets then msg.msg_id ∷ [] else []);
    } in
    rw front (deliver_all_lem msg targets taken free)

-- A round of the dispatcher that nobody interrupts takes the first message of the main queue and comes
-- to its end: every target that the router chooses is watched with a deadline of its own, and
-- every target that is connected has been sent the frame of the message, in the router's order. A
-- message without targets is noted as such, and mu_ is free again.
pub drive-route :
    (msg : Message) (rest : List Message) (s : Shared)
    → s.locked ≡ false
    → s.main_queue.items ≡ msg ∷ rest
    → let targets = (route msg s.router).0 in
      (s' : Shared) × (drive (suc (suc (steps_for targets))) pops_main s ≡ some (done, s'))
      × (s'.main_queue ≡ record s.main_queue { items = rest })
      × (s'.router ≡ (route msg s.router).1)
      × (s'.sent ≡ s.sent ++ frames_for msg s.clients s.open_socks targets)
      × All (IsTracked msg s.clock s'.engine) targets
      × (s'.unrouted ≡ s.unrouted ++ (if is_empty targets then msg.msg_id ∷ [] else []))
      × (s'.locked ≡ false)
unfolding after_round
drive-route msg rest s free front = (
  after_round msg rest s,
  drive-after_round msg rest s free front,
  refl,
  refl,
  refl,
  every_target msg s.clock (route msg s.router).0 s.engine,
  refl,
  refl,
)
