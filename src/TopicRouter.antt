-- ===== src/TopicRouter.antt =====
-- broker/include/TopicRouter.hpp and broker/src/TopicRouter.cpp: topic patterns, consumer groups and
-- the choice of the clients that get a message. Each call runs under the router's mutex, so it is one
-- function on the subscriptions. The two unordered maps are lists of entries in the order of
-- iteration; a new key is put last here, and TopicRouter/Histories has any other order.
pub mod Decimal
pub mod Matching
pub mod Membership
pub mod Invariant
pub mod Routing
pub mod Reach
pub mod Fairness
pub mod Unordered
pub mod Reordering
pub mod Histories
mod Tests
use message_driven_event_que.Prelude.{
  ℕ, zero, suc, ◌+◌, ◌-◌, ◌/◌, ◌%◌, ◌^◌, Bool, true, false, not, ◌&&◌, ◌||◌, List, [], ◌∷◌, ◌++◌,
  map, Option, none, some, ◌==◌, nat_eq, list_eq, ltb, if◌then◌else◌, length, get_or, take,
}
use message_driven_event_que.Prelude.Int.{ℤ, pos, negsuc, int_eq}
use message_driven_event_que.Prelude.Maps.{upsert}
use message_driven_event_que.Message.{Bytes, ClientId, Message}

pub record GroupState : Type 0 where
  pub members : List ClientId
  pub rr_idx : ℕ

-- group_name -> GroupState, and topic_pattern -> groups.
abbrev pub Groups : Type 0
Groups = List (Bytes × GroupState)

abbrev pub Subscriptions : Type 0
Subscriptions = List (Bytes × Groups)

-- (ClientId, msg_id)
abbrev pub Target : Type 0
Target = ClientId × ℕ

-- `std::to_string`, on fuel for the number of digits: more than the number itself is enough.
unfoldable pub digits : ℕ → ℕ → Bytes
digits zero n = []
digits (suc fuel) n =
    let higher = digits fuel (n / 10) in
    if ltb n 10 then (48 + n) ∷ [] else higher ++ (48 + n % 10) ∷ []

unfoldable pub to_string : ℤ → Bytes
unfolding digits
to_string (pos n) = digits (suc n) n
to_string (negsuc n) = b'-' ∷ digits (suc (suc n)) (suc n)

-- "__unique_"
abbrev pub unique_prefix : Bytes
unique_prefix = 95 ∷ 95 ∷ 117 ∷ 110 ∷ 105 ∷ 113 ∷ 117 ∷ 101 ∷ 95 ∷ []

abbrev pub is_empty {ℓ} : {A : Type ℓ} → List A → Bool
is_empty [] = true
is_empty (x ∷ xs) = false

-- An empty group name stands for a group of the subscriber's own.
unfoldable pub group_key : Bytes → ClientId → Bytes
group_key group id = if is_empty group then unique_prefix ++ to_string id else group

unfoldable pub contains : ClientId → List ClientId → Bool
contains id [] = false
contains id (m ∷ ms) = m == id || contains id ms

unfoldable pub join : ClientId → GroupState → GroupState
join id s = if contains id s.members then s else record s { members = s.members ++ id ∷ [] }

abbrev pub no_group : GroupState
no_group = record { members = []; rr_idx = 0 }

unfoldable pub subscribe : Bytes → Bytes → ClientId → Subscriptions → Subscriptions
unfolding join
subscribe topic group id subs =
    upsert topic [] (upsert (group_key group id) no_group (join id)) subs

-- `std::remove` and `erase`: every occurrence goes, the rest keeps its order.
unfoldable pub remove : ClientId → List ClientId → List ClientId
remove id [] = []
remove id (m ∷ ms) = let rest = remove id ms in if m == id then rest else m ∷ rest

unfoldable pub leave : ClientId → GroupState → GroupState
unfolding remove
leave id s = record s { members = remove id s.members }

unfoldable pub leave_groups : ClientId → Groups → Groups
unfolding leave
leave_groups id [] = []
leave_groups id ((g, s) ∷ groups) =
    let rest = leave_groups id groups in
    if is_empty (leave id s).members then rest else (g, leave id s) ∷ rest

unfoldable pub unsubscribe : ClientId → Subscriptions → Subscriptions
unfolding leave_groups
unsubscribe id [] = []
unsubscribe id ((t, groups) ∷ subs) =
    let rest = unsubscribe id subs in
    if is_empty (leave_groups id groups) then rest else (t, leave_groups id groups) ∷ rest

-- `pattern.find('*')`
unfoldable pub find_star : Bytes → Option ℕ
find_star [] = none
find_star (c ∷ cs) =
    let later : Option ℕ = elim (find_star cs) [ none ↦ none | some i ↦ some (suc i) ] in
    if c == b'*' then some 0 else later

unfoldable pub matches : Bytes → Bytes → Bool
unfolding find_star
matches pattern topic = if pattern == topic then true else elim (find_star pattern) [
  | none ↦ false
  | some star ↦
      let prefix = take star pattern in
      if not (is_empty prefix) && (take (length prefix) topic == prefix)
      then true
      else is_empty prefix
]

-- `group_name.rfind("__unique_", 0) == 0`
unfoldable pub is_unique : Bytes → Bool
is_unique group_name = take (length unique_prefix) group_name == unique_prefix

-- What one group adds to the targets, and its state afterwards. The index is below the number of
-- members, so the default of `get_or` is never used.
unfoldable pub route_group : ℕ → Bytes → GroupState → List Target × GroupState
route_group msg_id group_name s =
    let idx = s.rr_idx % length s.members in
    if is_empty s.members
    then ([], s)
    else if is_unique group_name
    then (map (λ id. (id, msg_id)) s.members, s)
    else (
      (get_or s.members idx (pos 0), msg_id) ∷ [],
      record s { rr_idx = (s.rr_idx + 1) % 2 ^ 64 },
    )

unfoldable pub route_groups : ℕ → Groups → List Target × Groups
unfolding route_group
route_groups msg_id [] = ([], [])
route_groups msg_id ((g, s) ∷ groups) =
    let (here, s') = route_group msg_id g s in
    let (later, groups') = route_groups msg_id groups in (here ++ later, (g, s') ∷ groups')

unfoldable pub route : Message → Subscriptions → List Target × Subscriptions
unfolding matches route_groups
route msg [] = ([], [])
route msg ((t, groups) ∷ subs) =
    let (here, groups') = route_groups msg.msg_id groups in
    let (later, subs') = route msg subs in
    if matches t msg.topic
    then (here ++ later, (t, groups') ∷ subs')
    else (later, (t, groups) ∷ subs')
