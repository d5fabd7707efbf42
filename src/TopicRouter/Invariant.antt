-- ===== src/TopicRouter/Invariant.antt =====
-- The router's maps stay well formed: distinct keys, no empty group, no member twice.
use message_driven_event_que.Prelude.{
  ℕ, ◌≡◌, inl, inr, refl, true, false, ◌||◌, List, [], ◌∷◌, ◌++◌, arith, ◌==◌, nat_eq, list_eq,
  eq_iff, Bool-cases,
}
use message_driven_event_que.Prelude.Int.{int_eq}
use message_driven_event_que.Prelude.Maps.{
  upsert, IsMap, Lacks, AllValues, IsMap-upsert, AllValues-upsert,
}
use message_driven_event_que.Message.{Bytes, ClientId, Message}
use message_driven_event_que.TopicRouter.{
  GroupState, Groups, Subscriptions, contains, join, no_group, group_key, subscribe, remove, leave,
  leave_groups, unsubscribe, is_empty, route_group, route_groups, route, matches,
}

abbrev pub Distinct : List ClientId → Type 0
Distinct [] = Unit {0}
Distinct (m ∷ ms) = (contains m ms ≡ false) × Distinct ms

abbrev pub IsLive : GroupState → Type 0
IsLive s = (is_empty s.members ≡ false) × Distinct s.members

abbrev pub IsWfGroups : Groups → Type 0
IsWfGroups groups = (is_empty groups ≡ false) × IsMap groups × AllValues IsLive groups

abbrev pub IsWf : Subscriptions → Type 0
IsWf subs = IsMap subs × AllValues IsWfGroups subs

contains-append :
    (j id : ClientId) (ms : List ClientId)
    → contains j (ms ++ id ∷ []) ≡ (contains j ms || (id == j || false))
unfolding contains
contains-append j id [] = refl
contains-append j id (m ∷ ms) = ground (arith, contains-append j id ms)

Distinct-append :
    (id : ClientId) (ms : List ClientId)
    → contains id ms ≡ false
    → Distinct ms
    → Distinct (ms ++ id ∷ [])
unfolding contains
Distinct-append id [] h d = (refl, tt)
Distinct-append id (m ∷ ms) h d =
    ground (arith, contains-append m id ms, Distinct-append id ms, d.1, eq_iff id m, eq_iff m id)

contains-nonempty :
    (id : ClientId) (ms : List ClientId) → contains id ms ≡ true → is_empty ms ≡ false
unfolding contains
contains-nonempty id [] h = cc
contains-nonempty id (m ∷ ms) h = refl

append-nonempty : (id : ClientId) (ms : List ClientId) → is_empty (ms ++ id ∷ []) ≡ false
append-nonempty id [] = refl
append-nonempty id (m ∷ ms) = refl

join-IsLive : (id : ClientId) (s : GroupState) → Distinct s.members → IsLive (join id s)
unfolding join
join-IsLive id s d = elim (Bool-cases (contains id s.members)) [
  | inl old ↦ rw old (contains-nonempty id s.members old, d)
  | inr new ↦ rw new (append-nonempty id s.members, Distinct-append id s.members new d)
]

still_absent :
    (id j : ClientId) (ms : List ClientId)
    → contains j ms ≡ false
    → contains j (remove id ms) ≡ false
unfolding contains remove
still_absent id j [] h = refl
still_absent id j (m ∷ ms) h = ground (arith, still_absent id j ms)

remove-Distinct : (id : ClientId) (ms : List ClientId) → Distinct ms → Distinct (remove id ms)
unfolding remove
remove-Distinct id [] d = tt
remove-Distinct id (m ∷ ms) d = ground (arith, still_absent id m ms d.0, remove-Distinct id ms d.1)

upsert-nonempty {ℓ} :
    {V : Type ℓ} (k : Bytes) (d : V) (f : V → V) (m : List (Bytes × V))
    → is_empty (upsert k d f m) ≡ false
unfolding upsert
upsert-nonempty k d f [] = refl
upsert-nonempty k d f ((j, v) ∷ m) = ground arith

upsert-IsWfGroups :
    (k : Bytes) (id : ClientId) (groups : Groups)
    → IsMap groups
    → AllValues IsLive groups
    → IsWfGroups (upsert k no_group (join id) groups)
upsert-IsWfGroups k id groups h live = (
  upsert-nonempty k no_group (join id) groups,
  IsMap-upsert k no_group (join id) groups h,
  AllValues-upsert IsLive k no_group (join id) groups (join-IsLive id no_group tt)
      (λ s l. join-IsLive id s l.1) live,
)

-- A subscription keeps the maps well formed.
pub subscribe-IsWf :
    (t g : Bytes) (id : ClientId) (subs : Subscriptions) → IsWf subs → IsWf (subscribe t g id subs)
unfolding subscribe
subscribe-IsWf t g id subs (h, hs) = (
  IsMap-upsert t [] (upsert (group_key g id) no_group (join id)) subs h,
  AllValues-upsert IsWfGroups t [] (upsert (group_key g id) no_group (join id)) subs
      (upsert-IsWfGroups (group_key g id) id [] tt tt)
      (λ groups wf. upsert-IsWfGroups (group_key g id) id groups wf.1 wf.2) hs,
)

Lacks-leave_groups :
    (id : ClientId) (k : Bytes) (groups : Groups)
    → Lacks k groups
    → Lacks k (leave_groups id groups)
unfolding leave_groups
Lacks-leave_groups id k [] h = tt
Lacks-leave_groups id k ((i, s) ∷ groups) h = ground (arith, Lacks-leave_groups id k groups h.1)

leave-IsLive :
    (id : ClientId) (s : GroupState)
    → IsLive s
    → is_empty (remove id s.members) ≡ false
    → IsLive (leave id s)
unfolding leave
leave-IsLive id s l kept = (kept, remove-Distinct id s.members l.1)

leave_groups-wf :
    (id : ClientId) (groups : Groups)
    → IsMap groups
    → AllValues IsLive groups
    → IsMap (leave_groups id groups) × AllValues IsLive (leave_groups id groups)
unfolding leave_groups
leave_groups-wf id [] h live = (tt, tt)
leave_groups-wf id ((i, s) ∷ groups) h live =
    let rest = leave_groups-wf id groups h.1 live.1 in
    elim (Bool-cases (is_empty (remove id s.members))) [
      | inl dropped ↦ rw dropped rest
      | inr kept ↦
          rw kept
            ((Lacks-leave_groups id i groups h.0, rest.0), (leave-IsLive id s live.0 kept, rest.1))
    ]

Lacks-unsubscribe :
    (id : ClientId) (k : Bytes) (subs : Subscriptions)
    → Lacks k subs
    → Lacks k (unsubscribe id subs)
unfolding unsubscribe
Lacks-unsubscribe id k [] h = tt
Lacks-unsubscribe id k ((i, groups) ∷ subs) h = ground (arith, Lacks-unsubscribe id k subs h.1)

-- So does a client that leaves: what becomes empty is erased.
unsubscribe-IsWf : (id : ClientId) (subs : Subscriptions) → IsWf subs → IsWf (unsubscribe id subs)
unfolding unsubscribe
unsubscribe-IsWf id [] h = (tt, tt)
unsubscribe-IsWf id ((i, groups) ∷ subs) (h, hs) =
    let rest = unsubscribe-IsWf id subs (h.1, hs.1) in
    let inner = leave_groups-wf id groups hs.0.1 hs.0.2 in
    elim (Bool-cases (is_empty (leave_groups id groups))) [
      | inl dropped ↦ rw dropped rest
      | inr kept ↦
          rw kept ((Lacks-unsubscribe id i subs h.0, rest.0), ((kept, inner.0, inner.1), rest.1))
    ]

route_group-IsLive :
    (msg_id : ℕ) (name : Bytes) (s : GroupState) → IsLive s → IsLive (route_group msg_id name s).1
unfolding route_group
route_group-IsLive msg_id name s l = ground arith

Lacks-route_groups :
    (msg_id : ℕ) (k : Bytes) (groups : Groups)
    → Lacks k groups
    → Lacks k (route_groups msg_id groups).1
unfolding route_groups
Lacks-route_groups msg_id k [] h = tt
Lacks-route_groups msg_id k ((i, s) ∷ groups) h = (h.0, Lacks-route_groups msg_id k groups h.1)

route_groups-wf :
    (msg_id : ℕ) (groups : Groups)
    → IsMap groups
    → AllValues IsLive groups
    → IsMap (route_groups msg_id groups).1 × AllValues IsLive (route_groups msg_id groups).1
unfolding route_groups
route_groups-wf msg_id [] h live = (tt, tt)
route_groups-wf msg_id ((i, s) ∷ groups) h live =
    let rest = route_groups-wf msg_id groups h.1 live.1 in
    (
      (Lacks-route_groups msg_id i groups h.0, rest.0),
      (route_group-IsLive msg_id i s live.0, rest.1),
    )

route_groups-IsWf :
    (msg_id : ℕ) (groups : Groups) → IsWfGroups groups → IsWfGroups (route_groups msg_id groups).1
unfolding route_groups
route_groups-IsWf msg_id [] wf = wf
route_groups-IsWf msg_id ((i, s) ∷ groups) wf =
    let rest = route_groups-wf msg_id ((i, s) ∷ groups) wf.1 wf.2 in (refl, rest.0, rest.1)

Lacks-route :
    (msg : Message) (k : Bytes) (subs : Subscriptions) → Lacks k subs → Lacks k (route msg subs).1
unfolding route
Lacks-route msg k [] h = tt
Lacks-route msg k ((i, groups) ∷ subs) h = elim (Bool-cases (matches i msg.topic)) [
  | inl hit ↦ rw hit (h.0, Lacks-route msg k subs h.1)
  | inr miss ↦ rw miss (h.0, Lacks-route msg k subs h.1)
]

-- And routing, which moves the round-robin indices.
route-IsWf : (msg : Message) (subs : Subscriptions) → IsWf subs → IsWf (route msg subs).1
unfolding route
route-IsWf msg [] h = (tt, tt)
route-IsWf msg ((i, groups) ∷ subs) (h, hs) =
    let rest = route-IsWf msg subs (h.1, hs.1) in
    let lacks = Lacks-route msg i subs h.0 in
    elim (Bool-cases (matches i msg.topic)) [
      | inl hit ↦ rw hit ((lacks, rest.0), (route_groups-IsWf msg.msg_id groups hs.0, rest.1))
      | inr miss ↦ rw miss ((lacks, rest.0), (hs.0, rest.1))
    ]

-- The calls that other threads make, one after another.
pub data Call : Type 0 where
  subscribes : Bytes → Bytes → ClientId → Call
  unsubscribes : ClientId → Call
  routes : Message → Call

unfoldable pub run : Subscriptions → List Call → Subscriptions
run subs [] = subs
run subs (subscribes t g id ∷ calls) = run (subscribe t g id subs) calls
run subs (unsubscribes id ∷ calls) = run (unsubscribe id subs) calls
run subs (routes msg ∷ calls) = run (route msg subs).1 calls

pub run_from-IsWf : (subs : Subscriptions) (calls : List Call) → IsWf subs → IsWf (run subs calls)
unfolding run
run_from-IsWf subs [] h = h
run_from-IsWf subs (subscribes t g id ∷ calls) h =
    run_from-IsWf (subscribe t g id subs) calls (subscribe-IsWf t g id subs h)
run_from-IsWf subs (unsubscribes id ∷ calls) h =
    run_from-IsWf (unsubscribe id subs) calls (unsubscribe-IsWf id subs h)
run_from-IsWf subs (routes msg ∷ calls) h =
    run_from-IsWf (route msg subs).1 calls (route-IsWf msg subs h)

-- After any calls of a new router, in any order, every pattern and every group stands once, none is
-- empty, and no group has a member twice.
pub run-IsWf : (calls : List Call) → IsWf (run [] calls)
run-IsWf calls = run_from-IsWf [] calls (tt, tt)
