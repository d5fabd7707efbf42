-- ===== src/TopicRouter/Routing.antt =====
-- Who gets a message: `route` against a description that leaves the choice in a group open.
use native.Mathlib.Nat.{mod-lt}
use message_driven_event_que.Prelude.{
  ℕ, zero, suc, ◌%◌, ◌<◌, ◌≡◌, ◌⊎◌, inl, inr, refl, true, false, List, [], ◌∷◌, ◌++◌, map, arith,
  nat_eq, list_eq, eq_refl, eq_iff, sym, ap, ◌∙◌, take, drop, take-append-drop, Bool-cases, length,
  get_or,
}
use message_driven_event_que.Prelude.Int.{pos, int_eq}
use message_driven_event_que.Prelude.Text.{codes}
use message_driven_event_que.Prelude.Maps.{AllValues}
use message_driven_event_que.Message.{Bytes, ClientId, Message}
use message_driven_event_que.TopicRouter.{
  GroupState, Groups, Subscriptions, Target, contains, is_empty, is_unique, unique_prefix,
  route_group, route_groups, route, matches,
}
use message_driven_event_que.TopicRouter.Matching.{Covers, matches-iff-Covers}
use message_driven_event_que.TopicRouter.Invariant.{IsWf, IsLive}

-- The name begins with `__unique_`, as the router begins the names of the groups that it makes for
-- subscribers without one.
abbrev pub IsOwn : Bytes → Type 0
IsOwn name = (rest : Bytes) × (name ≡ codes "__unique_" ++ rest)

is_unique-IsOwn : (name : Bytes) → is_unique name ≡ true → IsOwn name
unfolding is_unique
is_unique-IsOwn name e =
    let n = length unique_prefix in
    let front = (eq_iff (take n name) unique_prefix).0 e in
    (drop n name, sym (take-append-drop n name) ∙ ap (λ (l : Bytes). l ++ drop n name) front)

IsOwn-is_unique : (name : Bytes) → IsOwn name → is_unique name ≡ true
unfolding is_unique
IsOwn-is_unique name (rest, e) = rw e (eq_refl unique_prefix)

-- A group with such a name is served whole; of any other group exactly one member is.
abbrev pub Serves : ℕ → Bytes → List ClientId → List Target → Type 0
Serves msg_id name members targets =
    (IsOwn name × (targets ≡ map (λ id. (id, msg_id)) members))
    ⊎ ((¬ IsOwn name)
        × (id : ClientId) × (contains id members ≡ true)
        × (targets ≡ (id, msg_id) ∷ []))

abbrev pub ServesGroups : ℕ → Groups → List Target → Type 0
ServesGroups msg_id [] targets = targets ≡ []
ServesGroups msg_id ((g, s) ∷ groups) targets =
    (here : List Target) × (later : List Target) × (targets ≡ here ++ later)
    × Serves msg_id g s.members here
    × ServesGroups msg_id groups later

-- Every group under every pattern that covers the topic is served, and nobody else is.
abbrev pub ServesAll : Message → Subscriptions → List Target → Type 0
ServesAll msg [] targets = targets ≡ []
ServesAll msg ((t, groups) ∷ subs) targets =
    (here : List Target) × (later : List Target) × (targets ≡ here ++ later)
    × ((Covers t msg.topic × ServesGroups msg.msg_id groups here)
        ⊎ ((¬ Covers t msg.topic) × (here ≡ [])))
    × ServesAll msg subs later

pub contains-get_or :
    (i : ℕ) (ms : List ClientId) (d : ClientId) → i < length ms → contains (get_or ms i d) ms ≡ true
unfolding contains
contains-get_or i [] d h = absurd (omega arith)
contains-get_or zero (m ∷ ms) d h = rw (eq_refl m)
contains-get_or (suc i) (m ∷ ms) d h =
    ground (arith, contains-get_or i ms d (omega arith), eq_refl m)

pub rr_idx-lt : (i : ℕ) (ms : List ClientId) → is_empty ms ≡ false → i % length ms < length ms
rr_idx-lt i [] h = cc
rr_idx-lt i (m ∷ ms) h = mod-lt i (omega arith)

route_group-Serves :
    (msg_id : ℕ) (name : Bytes) (s : GroupState)
    → IsLive s
    → Serves msg_id name s.members (route_group msg_id name s).0
unfolding route_group
route_group-Serves msg_id name s live = elim (Bool-cases (is_unique name)) [
  | inl own ↦ rw (live.0, own) (inl (is_unique-IsOwn name own, refl))
  | inr shared ↦
      let idx = s.rr_idx % length s.members in
      rw (live.0, shared)
        (inr (
          (λ own. let hit = IsOwn-is_unique name own in cc),
          get_or s.members idx (pos 0),
          contains-get_or idx s.members (pos 0) (rr_idx-lt s.rr_idx s.members live.0),
          refl,
        ))
]

route_groups-Serves :
    (msg_id : ℕ) (groups : Groups)
    → AllValues IsLive groups
    → ServesGroups msg_id groups (route_groups msg_id groups).0
unfolding route_groups
route_groups-Serves msg_id [] h = refl
route_groups-Serves msg_id ((g, s) ∷ groups) h = (
  (route_group msg_id g s).0,
  (route_groups msg_id groups).0,
  refl,
  route_group-Serves msg_id g s h.0,
  route_groups-Serves msg_id groups h.1,
)

-- In well-formed subscriptions the targets of a message are those of the description: under each pattern
-- that covers the topic, all members of each group whose name begins with `__unique_` (those that the
-- router makes for subscribers without a group, and any that a client names so), one member of each
-- other group, and no others.
pub route-ServesAll :
    (msg : Message) (subs : Subscriptions) → IsWf subs → ServesAll msg subs (route msg subs).0
unfolding route
route-ServesAll msg [] h = refl
route-ServesAll msg ((t, groups) ∷ subs) (h, hs) =
    let rest = route-ServesAll msg subs (h.1, hs.1) in
    let covers = matches-iff-Covers t msg.topic in
    elim (Bool-cases (matches t msg.topic)) [
      | inl hit ↦ rw hit (
        (route_groups msg.msg_id groups).0,
        (route msg subs).0,
        refl,
        inl (covers.0 hit, route_groups-Serves msg.msg_id groups hs.0.2),
        rest,
      )
      | inr miss ↦
          rw miss
            ([], (route msg subs).0, refl, inr ((λ c. let hit = covers.1 c in cc), refl), rest)
    ]
