-- ===== src/TopicRouter/Unordered.antt =====
-- The subscriptions as what they are in the source, unordered maps of unordered maps: `route` on two
-- listings of the same maps.
use mathlib.Core.List.{Permᴰ}
use mathlib.Core.List.Permᴰ
use message_driven_event_que.Prelude.Listings.{exchange, both, of_eq}
use message_driven_event_que.Prelude.{ℕ, ap, Bool-cases, inl, inr, List, [], ◌∷◌, ◌++◌}
use message_driven_event_que.Message.{Bytes, Message}
use message_driven_event_que.TopicRouter.{
  GroupState, Groups, Subscriptions, Target, route_group, route_groups, route, matches,
}

-- Two listings of the same maps: the topics and, under each topic, the groups may stand in another
-- order.
pub data SameMaps : Subscriptions → Subscriptions → Type 0 where
  nil : SameMaps [] []
  cons :
      {t : Bytes} {gs gs' : Groups} {subs subs' : Subscriptions}
      → Permᴰ gs gs'
      → SameMaps subs subs'
      → SameMaps ((t, gs) ∷ subs) ((t, gs') ∷ subs')
  swap :
      {t t' : Bytes} {gs gs' : Groups} {subs : Subscriptions}
      → SameMaps ((t, gs) ∷ (t', gs') ∷ subs) ((t', gs') ∷ (t, gs) ∷ subs)
  trans :
      {subs subs' subs'' : Subscriptions}
      → SameMaps subs subs'
      → SameMaps subs' subs''
      → SameMaps subs subs''

pub SameMaps-refl : (subs : Subscriptions) → SameMaps subs subs
SameMaps-refl [] = SameMaps.nil
SameMaps-refl ((t, gs) ∷ subs) = SameMaps.cons (Permᴰ.refl gs) (SameMaps-refl subs)

abbrev Alike : List Target × Groups → List Target × Groups → Type 0
Alike r r' = Permᴰ r.0 r'.0 × Permᴰ r.1 r'.1

route_groups-Permᴰ :
    (msg_id : ℕ) {gs gs' : Groups}
    → Permᴰ gs gs'
    → Alike (route_groups msg_id gs) (route_groups msg_id gs')
unfolding route_groups
route_groups-Permᴰ msg_id Permᴰ.nil = (Permᴰ.nil, Permᴰ.nil)
route_groups-Permᴰ msg_id (Permᴰ.cons {a = a} {b = b} e p) =
    let rest = route_groups-Permᴰ msg_id p in
    (
      both (of_eq (ap (λ x. (route_group msg_id x.0 x.1).0) e)) rest.0,
      Permᴰ.cons (ap (λ x. (x.0, (route_group msg_id x.0 x.1).1)) e) rest.1,
    )
route_groups-Permᴰ msg_id (Permᴰ.swap {a = a} {b = b} {a' = a'} {b' = b'} {l = l} e e') =
    let at : Bytes × GroupState → List Target × GroupState = λ x. route_group msg_id x.0 x.1 in
    let rest = (route_groups msg_id l).0 in
    (
      Permᴰ.trans (exchange (at a).0 (at b).0 rest) (
          both (of_eq (ap (λ x. (at x).0) e'))
            (both (of_eq (ap (λ x. (at x).0) e)) (Permᴰ.refl rest))),
      Permᴰ.swap (ap (λ x. (x.0, (at x).1)) e) (ap (λ x. (x.0, (at x).1)) e'),
    )
route_groups-Permᴰ msg_id (Permᴰ.trans p q) =
    let here = route_groups-Permᴰ msg_id p in
    let next = route_groups-Permᴰ msg_id q in (Permᴰ.trans here.0 next.0, Permᴰ.trans here.1 next.1)

-- Routing does not see the order in which the unordered maps are walked: on two listings of the same
-- maps it gives the same targets, in some order, and leaves listings of the same maps, so that the
-- next messages are routed alike too.
pub route-SameMaps :
    (msg : Message) {subs subs' : Subscriptions}
    → SameMaps subs subs'
    → Permᴰ (route msg subs).0 (route msg subs').0 × SameMaps (route msg subs).1 (route msg subs').1
unfolding route
route-SameMaps msg SameMaps.nil = (Permᴰ.nil, SameMaps.nil)
route-SameMaps msg (SameMaps.cons {t = t} p s) =
    let here = route_groups-Permᴰ msg.msg_id p in
    let rest = route-SameMaps msg s in
    elim (Bool-cases (matches t msg.topic)) [
      | inl hit ↦ rw hit (both here.0 rest.0, SameMaps.cons here.1 rest.1)
      | inr miss ↦ rw miss (rest.0, SameMaps.cons p rest.1)
    ]
route-SameMaps msg (SameMaps.swap {t = t} {t' = t'} {gs = gs} {gs' = gs'} {subs = subs}) =
    let rest = (route msg subs).0 in
    let first = route_groups msg.msg_id gs in
    let second = route_groups msg.msg_id gs' in
    elim (Bool-cases (matches t msg.topic)) [
      | inl hit ↦ elim (Bool-cases (matches t' msg.topic)) [
        | inl hit' ↦ rw (hit, hit') (exchange first.0 second.0 rest, SameMaps.swap)
        | inr miss ↦ rw (hit, miss) (Permᴰ.refl (first.0 ++ rest), SameMaps.swap)
      ]
      | inr miss ↦ elim (Bool-cases (matches t' msg.topic)) [
        | inl hit ↦ rw (hit, miss) (Permᴰ.refl (second.0 ++ rest), SameMaps.swap)
        | inr miss' ↦ rw (miss, miss') (Permᴰ.refl rest, SameMaps.swap)
      ]
    ]
route-SameMaps msg (SameMaps.trans p q) =
    let here = route-SameMaps msg p in
    let next = route-SameMaps msg q in (Permᴰ.trans here.0 next.0, SameMaps.trans here.1 next.1)
