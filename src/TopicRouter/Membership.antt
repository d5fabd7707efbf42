-- ===== src/TopicRouter/Membership.antt =====
-- Who is subscribed to what: the subscriptions as a function from pattern and group to members.
use mathlib.Core.Option
use message_driven_event_que.Prelude.{
  ◌≡◌, ◌≢◌, ◌⊎◌, inl, inr, refl, ap, ◌∙◌, true, false, ◌&&◌, List, [], ◌∷◌, ◌++◌, Option, some,
  arith, ◌==◌, nat_eq, list_eq, eq_iff, if◌then◌else◌, Bool-cases,
}
use message_driven_event_que.Prelude.Int.{int_eq}
use message_driven_event_que.Prelude.Maps.{
  lookup, upsert, IsMap, Lacks, AllValues, lookup-upsert, lookup-Lacks,
}
use message_driven_event_que.Message.{Bytes, ClientId}
use message_driven_event_que.TopicRouter.{
  GroupState, Groups, Subscriptions, contains, join, no_group, group_key, subscribe, remove, leave,
  leave_groups, unsubscribe, is_empty,
}

pub members_in : Groups → Bytes → List ClientId
members_in groups g = (Option.get_or (lookup g groups) no_group).members

-- The members of a group under a pattern; none if there is no such entry.
pub members_of : Subscriptions → Bytes → Bytes → List ClientId
unfolding members_in
members_of subs t g = members_in (Option.get_or (lookup t subs) []) g

abbrev pub add : ClientId → List ClientId → List ClientId
add id ms = if contains id ms then ms else ms ++ id ∷ []

join-members : (id : ClientId) (s : GroupState) → (join id s).members ≡ add id s.members
unfolding join
join-members id s = ground arith

members_in-upsert :
    (k : Bytes) (id : ClientId) (groups : Groups) (h : Bytes)
    → members_in (upsert k no_group (join id) groups) h
      ≡ (if k == h then add id (members_in groups h) else members_in groups h)
unfolding members_in
members_in-upsert k id groups h =
    ap (λ (o : Option GroupState). (Option.get_or o no_group).members)
      (lookup-upsert k h no_group (join id) groups)
    ∙ after (Bool-cases (k == h))
  where
    after :
        ((k == h) ≡ true) ⊎ ((k == h) ≡ false)
        → (Option.get_or
            (if k == h
              then some (join id (Option.get_or (lookup k groups) no_group))
              else lookup h groups)
            no_group).members
          ≡ (if k == h
              then add id (Option.get_or (lookup h groups) no_group).members
              else (Option.get_or (lookup h groups) no_group).members)
    after (inl hit) =
        rw (hit, join-members id (Option.get_or (lookup k groups) no_group), (eq_iff k h).0 hit)
    after (inr miss) = rw miss

-- A subscription adds the client to the members of one group under one pattern, at the end and only
-- if it is not there; every other group, of this pattern or another, keeps its members.
pub members_of-subscribe :
    (t g : Bytes) (id : ClientId) (subs : Subscriptions) (u h : Bytes)
    → members_of (subscribe t g id subs) u h ≡ (
        if (t == u) && (group_key g id == h)
        then add id (members_of subs u h)
        else members_of subs u h)
unfolding subscribe members_of
members_of-subscribe t g id subs u h =
    rw (lookup-upsert t u [] (upsert (group_key g id) no_group (join id)) subs)
      (elim (Bool-cases (t == u)) [
        | inl hit ↦
            rw (hit, members_in-upsert (group_key g id) id (Option.get_or (lookup t subs) []) h)
              (rw ((eq_iff t u).0 hit))
        | inr miss ↦ rw miss
      ])

pub contains-remove : (id : ClientId) (ms : List ClientId) → contains id (remove id ms) ≡ false
unfolding contains remove
contains-remove id [] = refl
contains-remove id (m ∷ ms) = ground (arith, contains-remove id ms)

contains-remove_ne :
    (id j : ClientId) (ms : List ClientId) → id ≢ j → contains j (remove id ms) ≡ contains j ms
unfolding contains remove
contains-remove_ne id j [] ne = refl
contains-remove_ne id j (m ∷ ms) ne =
    ground (arith, contains-remove_ne id j ms ne, eq_iff m id, eq_iff m j)

pub members_in_first :
    (i g : Bytes) (s : GroupState) (groups : Groups)
    → members_in ((i, s) ∷ groups) g ≡ (if i == g then s.members else members_in groups g)
unfolding members_in lookup
members_in_first i g s groups = ground arith

pub members_of_first :
    (i u g : Bytes) (groups : Groups) (subs : Subscriptions)
    → members_of ((i, groups) ∷ subs) u g
      ≡ (if i == u then members_in groups g else members_of subs u g)
unfolding members_of lookup
members_of_first i u g groups subs = elim (Bool-cases (i == u)) [
  | inl hit ↦ rw hit
  | inr miss ↦ rw miss
]

pub is_empty-eq {ℓ} : {A : Type ℓ} (xs : List A) → is_empty xs ≡ true → xs ≡ []
is_empty-eq [] h = refl
is_empty-eq (x ∷ xs) h = cc

members_in-Lacks : (g : Bytes) (groups : Groups) → Lacks g groups → members_in groups g ≡ []
unfolding members_in
members_in-Lacks g groups h =
    ap (λ (o : Option GroupState). (Option.get_or o no_group).members) (lookup-Lacks g groups h)

remove_nil : (id : ClientId) → remove id [] ≡ []
unfolding remove
remove_nil id = refl

leave_groups_cons :
    (id : ClientId) (i : Bytes) (s : GroupState) (groups : Groups)
    → leave_groups id ((i, s) ∷ groups) ≡ (
        if is_empty (remove id s.members)
        then leave_groups id groups
        else (i, leave id s) ∷ leave_groups id groups)
unfolding leave_groups
leave_groups_cons id i s groups = refl

leave-members : (id : ClientId) (s : GroupState) → (leave id s).members ≡ remove id s.members
unfolding leave
leave-members id s = refl

members_in-leave_groups :
    (id : ClientId) (groups : Groups) (g : Bytes)
    → IsMap groups
    → members_in (leave_groups id groups) g ≡ remove id (members_in groups g)
members_in-leave_groups id [] g h = unfold members_in leave_groups remove lookup in refl
members_in-leave_groups id ((i, s) ∷ groups) g h =
    let ih = members_in-leave_groups id groups g h.1 in
    let first = members_in_first i g (leave id s) (leave_groups id groups) in
    rw (leave_groups_cons id i s groups, members_in_first i g s groups)
      (elim (Bool-cases (is_empty (remove id s.members))) [
        | inl dropped ↦ rw dropped (elim (Bool-cases (i == g)) [
          | inl hit ↦
              let gone = members_in-Lacks i groups h.0 in
              let gone' = rw ((eq_iff i g).0 hit) at gone in
              rw (hit, ih, gone', remove_nil id, is_empty-eq _ dropped)
          | inr miss ↦ rw (miss, ih)
        ])
        | inr kept ↦
            rw (kept, first)
              (elim (Bool-cases (i == g)) [
                | inl hit ↦ rw (hit, leave-members id s)
                | inr miss ↦ rw (miss, ih)
              ])
      ])

unsubscribe_cons :
    (id : ClientId) (i : Bytes) (groups : Groups) (subs : Subscriptions)
    → unsubscribe id ((i, groups) ∷ subs) ≡ (
        if is_empty (leave_groups id groups)
        then unsubscribe id subs
        else (i, leave_groups id groups) ∷ unsubscribe id subs)
unfolding unsubscribe
unsubscribe_cons id i groups subs = refl

pub members_in_nil : (g : Bytes) → members_in [] g ≡ []
unfolding members_in lookup
members_in_nil g = refl

pub members_of_nil : (u g : Bytes) → members_of [] u g ≡ []
unfolding members_of lookup
members_of_nil u g = members_in_nil g

members_of-Lacks : (u g : Bytes) (subs : Subscriptions) → Lacks u subs → members_of subs u g ≡ []
unfolding members_of
members_of-Lacks u g subs h = rw (lookup-Lacks u subs h) (members_in_nil g)

-- A client that leaves is taken out of every group, and no other client of any group is. (The keys
-- of the two maps are distinct.)
pub members_of-unsubscribe :
    (id : ClientId) (subs : Subscriptions) (t g : Bytes)
    → IsMap subs
    → AllValues (λ groups. IsMap groups) subs
    → members_of (unsubscribe id subs) t g ≡ remove id (members_of subs t g)
members_of-unsubscribe id [] t g h hs =
    unfold members_of members_in unsubscribe remove lookup in refl
members_of-unsubscribe id ((i, groups) ∷ subs) t g h hs =
    let ih = members_of-unsubscribe id subs t g h.1 hs.1 in
    let inner = members_in-leave_groups id groups g hs.0 in
    let first = members_of_first i t g (leave_groups id groups) (unsubscribe id subs) in
    rw (unsubscribe_cons id i groups subs, members_of_first i t g groups subs)
      (elim (Bool-cases (is_empty (leave_groups id groups))) [
        | inl dropped ↦ rw dropped (elim (Bool-cases (i == t)) [
          | inl hit ↦
              let gone = members_of-Lacks i g subs h.0 in
              let gone' = rw ((eq_iff i t).0 hit) at gone in
              let none_left = rw (is_empty-eq _ dropped, members_in_nil g) at inner in
              rw (hit, ih, gone', remove_nil id) none_left
          | inr miss ↦ rw (miss, ih)
        ])
        | inr kept ↦
            rw (kept, first)
              (elim (Bool-cases (i == t)) [ inl hit ↦ rw hit inner | inr miss ↦ rw (miss, ih) ])
      ])
