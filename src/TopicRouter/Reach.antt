-- ===== src/TopicRouter/Reach.antt =====
-- Which clients a message reaches after a client has subscribed or left.
use message_driven_event_que.Prelude.{
  ℕ, ◌%◌, ◌≡◌, inl, inr, refl, Bool, true, false, ◌||◌, List, [], ◌∷◌, ◌++◌, map, arith, ◌==◌,
  nat_eq, list_eq, eq_iff, eq_refl, Bool-cases, length, get_or,
}
use message_driven_event_que.Prelude.Int.{pos, int_eq}
use message_driven_event_que.Prelude.Maps.{AllValues}
use message_driven_event_que.Message.{Bytes, ClientId, Message}
use message_driven_event_que.TopicRouter.{
  GroupState, Groups, Subscriptions, Target, contains, remove, leave_groups, unsubscribe, is_empty,
  is_unique, route_group, route_groups, route, matches, subscribe, group_key, unique_prefix,
}
use message_driven_event_que.TopicRouter.Membership.{
  members_in, members_of, members_in_first, members_of_first, members_in_nil, members_of_nil,
  is_empty-eq, members_of-subscribe, add, contains-remove,
}
use message_driven_event_que.TopicRouter.Matching.{Covers, matches-iff-Covers}
use message_driven_event_que.TopicRouter.Routing.{contains-get_or, rr_idx-lt}

pub contains-append :
    (id : ClientId) (xs ys : List ClientId)
    → contains id (xs ++ ys) ≡ (contains id xs || contains id ys)
unfolding contains
contains-append id [] ys = refl
contains-append id (x ∷ xs) ys = ground (arith, contains-append id xs ys)

-- The clients among the targets.
abbrev pub clients : List Target → List ClientId
clients = map (λ t. t.0)

clients-append : (xs ys : List Target) → clients (xs ++ ys) ≡ clients xs ++ clients ys
clients-append [] ys = refl
clients-append (x ∷ xs) ys = rw (clients-append xs ys)

clients-map : (n : ℕ) (ms : List ClientId) → clients (map (λ id. (id, n)) ms) ≡ ms
clients-map n [] = refl
clients-map n (m ∷ ms) = rw (clients-map n ms)

-- No group has the client as a member.
abbrev pub Absent : ClientId → Subscriptions → Type 0
Absent id subs = AllValues (AllValues (λ s. contains id s.members ≡ false)) subs

leave_groups-Absent :
    (id : ClientId) (groups : Groups)
    → AllValues (λ s. contains id s.members ≡ false) (leave_groups id groups)
unfolding leave_groups
leave_groups-Absent id [] = tt
leave_groups-Absent id ((g, s) ∷ groups) =
    let rest = leave_groups-Absent id groups in
    elim (Bool-cases (is_empty (remove id s.members))) [
      | inl dropped ↦ rw dropped rest
      | inr kept ↦ rw kept (contains-remove id s.members, rest)
    ]

unsubscribe-Absent : (id : ClientId) (subs : Subscriptions) → Absent id (unsubscribe id subs)
unfolding unsubscribe
unsubscribe-Absent id [] = tt
unsubscribe-Absent id ((t, groups) ∷ subs) =
    let rest = unsubscribe-Absent id subs in
    elim (Bool-cases (is_empty (leave_groups id groups))) [
      | inl dropped ↦ rw dropped rest
      | inr kept ↦ rw kept (leave_groups-Absent id groups, rest)
    ]

not_picked :
    (picked id : ClientId) (ms : List ClientId)
    → contains picked ms ≡ true
    → contains id ms ≡ false
    → contains id (picked ∷ []) ≡ false
not_picked picked id ms inside absent = elim (Bool-cases (picked == id)) [
  | inl same ↦ let e = (eq_iff picked id).0 same in let inside' = rw e at inside in cc
  | inr other ↦ unfold contains in rw other
]

route_group-clients :
    (id : ClientId) (n : ℕ) (name : Bytes) (s : GroupState)
    → contains id s.members ≡ false
    → contains id (clients (route_group n name s).0) ≡ false
unfolding route_group
route_group-clients id n name s h = elim (Bool-cases (is_empty s.members)) [
  | inl empty ↦ rw empty (unfold contains in refl)
  | inr some_member ↦ elim (Bool-cases (is_unique name)) [
    | inl own ↦ rw (some_member, own, clients-map n s.members) h
    | inr shared ↦
        let idx = s.rr_idx % length s.members in
        let inside =
          contains-get_or idx s.members (pos 0) (rr_idx-lt s.rr_idx s.members some_member) in
        rw (some_member, shared) (not_picked (get_or s.members idx (pos 0)) id s.members inside h)
  ]
]

route_groups-clients :
    (id : ClientId) (n : ℕ) (groups : Groups)
    → AllValues (λ s. contains id s.members ≡ false) groups
    → contains id (clients (route_groups n groups).0) ≡ false
unfolding route_groups
route_groups-clients id n [] h = unfold contains in refl
route_groups-clients id n ((g, s) ∷ groups) h =
    let here = (route_group n g s).0 in
    let later = (route_groups n groups).0 in
    rw (clients-append here later, contains-append id (clients here) (clients later))
      (rw (route_group-clients id n g s h.0, route_groups-clients id n groups h.1))

route-clients :
    (id : ClientId) (msg : Message) (subs : Subscriptions)
    → Absent id subs
    → contains id (clients (route msg subs).0) ≡ false
unfolding route
route-clients id msg [] h = unfold contains in refl
route-clients id msg ((t, groups) ∷ subs) h =
    let here = (route_groups msg.msg_id groups).0 in
    let later = (route msg subs).0 in
    let rest = route-clients id msg subs h.1 in
    elim (Bool-cases (matches t msg.topic)) [
      | inl hit ↦
          rw (hit, clients-append here later, contains-append id (clients here) (clients later))
            (rw (route_groups-clients id msg.msg_id groups h.0, rest))
      | inr miss ↦ rw miss rest
    ]

-- A client that has left gets no message, whatever the topic.
pub route-unsubscribe :
    (id : ClientId) (msg : Message) (subs : Subscriptions)
    → contains id (clients (route msg (unsubscribe id subs)).0) ≡ false
route-unsubscribe id msg subs =
    route-clients id msg (unsubscribe id subs) (unsubscribe-Absent id subs)

or_true : (b : Bool) → (b || true) ≡ true
or_true true = refl
or_true false = refl

route_group-own :
    (id : ClientId) (n : ℕ) (name : Bytes) (s : GroupState)
    → is_unique name ≡ true
    → contains id (clients (route_group n name s).0) ≡ contains id s.members
unfolding route_group
route_group-own id n name s own = elim (Bool-cases (is_empty s.members)) [
  | inl empty ↦ rw (empty, is_empty-eq s.members empty)
  | inr some_member ↦ rw (some_member, own, clients-map n s.members)
]

route_groups-own :
    (id : ClientId) (n : ℕ) (name : Bytes) (groups : Groups)
    → is_unique name ≡ true
    → contains id (members_in groups name) ≡ true
    → contains id (clients (route_groups n groups).0) ≡ true
unfolding route_groups
route_groups-own id n name [] own h =
    let none_there = rw (members_in_nil name) at h in unfold contains in none_there
route_groups-own id n name ((g, s) ∷ groups) own h =
    let here = (route_group n g s).0 in
    let later = (route_groups n groups).0 in
    let split = rw (members_in_first g name s groups) at h in
    rw (clients-append here later, contains-append id (clients here) (clients later))
      (elim (Bool-cases (g == name)) [
        | inl hit ↦
            let own' = rw (← (eq_iff g name).0 hit) at own in
            let member = rw hit at split in rw (route_group-own id n g s own', member)
        | inr miss ↦
            let member = rw miss at split in
            rw (route_groups-own id n name groups own member) (or_true (contains id (clients here)))
      ])

-- A member of a group of its own, under a pattern that covers the topic, is among the targets.
pub route-own :
    (id : ClientId) (msg : Message) (t name : Bytes) (subs : Subscriptions)
    → Covers t msg.topic
    → is_unique name ≡ true
    → contains id (members_of subs t name) ≡ true
    → contains id (clients (route msg subs).0) ≡ true
unfolding route
route-own id msg t name [] covers own h =
    let none_there = rw (members_of_nil t name) at h in unfold contains in none_there
route-own id msg t name ((u, groups) ∷ subs) covers own h =
    let here = (route_groups msg.msg_id groups).0 in
    let later = (route msg subs).0 in
    let split = rw (members_of_first u t name groups subs) at h in
    elim (Bool-cases (u == t)) [
      | inl hit ↦
          let member = rw hit at split in
          let covers' = rw (← (eq_iff u t).0 hit) at covers in
          let matched = (matches-iff-Covers u msg.topic).1 covers' in
          rw (
            matched,
            clients-append here later,
            contains-append id (clients here) (clients later),
            route_groups-own id msg.msg_id name groups own member,
          )
      | inr miss ↦
          let member = rw miss at split in
          let rest = route-own id msg t name subs covers own member in
          elim (Bool-cases (matches u msg.topic)) [
            | inl on ↦
                rw
                  (
                    on,
                    clients-append here later,
                    contains-append id (clients here) (clients later),
                    rest,
                  )
                  (or_true (contains id (clients here)))
            | inr off ↦ rw off rest
          ]
    ]

contains-add : (id : ClientId) (ms : List ClientId) → contains id (add id ms) ≡ true
contains-add id ms = elim (Bool-cases (contains id ms)) [
  | inl old ↦ rw old old
  | inr new ↦ rw (new, contains-append id ms (id ∷ []), new) (unfold contains in rw (eq_refl id))
]

group_key-IsUnique : (id : ClientId) → is_unique (group_key [] id) ≡ true
unfolding is_unique group_key
group_key-IsUnique id = eq_refl unique_prefix

-- A client that subscribes to a pattern with no group gets every message that the pattern covers,
-- whatever else is subscribed, before or with it.
pub route-subscribe :
    (id : ClientId) (msg : Message) (t : Bytes) (subs : Subscriptions)
    → Covers t msg.topic
    → contains id (clients (route msg (subscribe t [] id subs)).0) ≡ true
route-subscribe id msg t subs covers =
    let key = group_key [] id in
    let member : contains id (members_of (subscribe t [] id subs) t key) ≡ true =
      rw (members_of-subscribe t [] id subs t key, eq_refl t, eq_refl key)
        (contains-add id (members_of subs t key)) in
    route-own id msg t key (subscribe t [] id subs) covers (group_key-IsUnique id) member
