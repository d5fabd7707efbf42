-- ===== src/TopicRouter/Histories.antt =====
-- The histories of a router whose unordered maps are walked in any order, a new one after every call.
use mathlib.Core.List.{Permᴰ}
use mathlib.Core.List.Permᴰ
use message_driven_event_que.Prelude.Listings.{upsert-Permᴰ}
use message_driven_event_que.Prelude.{
  ◌≡◌, Bool-cases, inl, inr, List, [], ◌∷◌, ◌==◌, false, arith, nat_eq, list_eq, eq_iff,
}
use message_driven_event_que.Prelude.Maps.{upsert}
use message_driven_event_que.Message.{Bytes, ClientId, Message}
use message_driven_event_que.TopicRouter.{
  Subscriptions, route, join, no_group, group_key, subscribe,
}
use message_driven_event_que.TopicRouter.Invariant.{
  IsWf, Call, subscribes, unsubscribes, routes, run, run_from-IsWf,
}
use message_driven_event_que.TopicRouter.Unordered.{SameMaps, SameMaps-refl, route-SameMaps}
use message_driven_event_que.TopicRouter.Reordering.{unsubscribe-SameMaps, SameMaps-IsWf}

upsert-SameMaps :
    (t g : Bytes) (id : ClientId) {subs subs' : Subscriptions}
    → SameMaps subs subs'
    → IsWf subs
    → SameMaps
        (upsert t [] (upsert g no_group (join id)) subs)
        (upsert t [] (upsert g no_group (join id)) subs')
unfolding upsert
upsert-SameMaps t g id SameMaps.nil h = SameMaps-refl _
upsert-SameMaps t g id (SameMaps.cons {t = t'} p s) (h, hs) = elim (Bool-cases (t' == t)) [
  | inl hit ↦ rw hit (SameMaps.cons (upsert-Permᴰ g no_group (join id) p hs.0.1) s)
  | inr miss ↦ rw miss (SameMaps.cons p (upsert-SameMaps t g id s (h.1, hs.1)))
]
upsert-SameMaps t g id (SameMaps.swap {t = t₁} {t' = t₂}) (h, hs) = elim (Bool-cases (t₁ == t)) [
  | inl hit ↦
      let other : (t₂ == t) ≡ false = ground (arith, h.0.0, eq_iff t₁ t) in
      rw (hit, other) SameMaps.swap
  | inr miss ↦ elim (Bool-cases (t₂ == t)) [
    | inl hit ↦ rw (miss, hit) SameMaps.swap
    | inr miss' ↦ rw (miss, miss') SameMaps.swap
  ]
]
upsert-SameMaps t g id (SameMaps.trans p q) h =
    SameMaps.trans (upsert-SameMaps t g id p h) (upsert-SameMaps t g id q (SameMaps-IsWf p h))

-- Each call does the same to two listings of the same maps.
call-SameMaps :
    (c : Call) {subs subs' : Subscriptions}
    → SameMaps subs subs'
    → IsWf subs
    → SameMaps (run subs (c ∷ [])) (run subs' (c ∷ []))
unfolding run subscribe
call-SameMaps (subscribes t g id) p h = upsert-SameMaps t (group_key g id) id p h
call-SameMaps (unsubscribes id) p h = unsubscribe-SameMaps id p
call-SameMaps (routes msg) p h = (route-SameMaps msg p).1

-- The calls, the latest first, with any reordering of the maps after each.
pub data History : List Call → Subscriptions → Type 0 where
  start : History [] []
  next :
      {calls : List Call} {subs subs' : Subscriptions} (c : Call)
      → History calls subs
      → SameMaps (run subs (c ∷ [])) subs'
      → History (c ∷ calls) subs'

History-IsWf : {calls : List Call} {subs : Subscriptions} → History calls subs → IsWf subs
History-IsWf History.start = (tt, tt)
History-IsWf (History.next {subs = subs} c past p) =
    SameMaps-IsWf p (run_from-IsWf subs (c ∷ []) (History-IsWf past))

SameMaps-sym : {subs subs' : Subscriptions} → SameMaps subs subs' → SameMaps subs' subs
SameMaps-sym SameMaps.nil = SameMaps.nil
SameMaps-sym (SameMaps.cons p s) = SameMaps.cons (Permᴰ.symm p) (SameMaps-sym s)
SameMaps-sym SameMaps.swap = SameMaps.swap
SameMaps-sym (SameMaps.trans p q) = SameMaps.trans (SameMaps-sym q) (SameMaps-sym p)

Histories-SameMaps :
    {calls : List Call} {subs subs' : Subscriptions}
    → History calls subs
    → History calls subs'
    → SameMaps subs subs'
Histories-SameMaps History.start History.start = SameMaps.nil
Histories-SameMaps (History.next c past p) (History.next c' past' q) =
    SameMaps.trans (SameMaps-sym p)
      (SameMaps.trans (call-SameMaps c (Histories-SameMaps past past') (History-IsWf past)) q)

-- The order in which the unordered maps are walked decides nothing: after the same calls (subscribe,
-- unsubscribe, route), two routers whose maps are walked in any two orders, other ones after each
-- call, choose the same targets for the next message, up to their order.
pub same_targets :
    (msg : Message) {calls : List Call} {subs subs' : Subscriptions}
    → History calls subs
    → History calls subs'
    → Permᴰ (route msg subs).0 (route msg subs').0
same_targets msg past past' = (route-SameMaps msg (Histories-SameMaps past past')).0
