-- ===== src/TopicRouter/Tests.antt =====
-- The theorems on the router at concrete inputs: the subscriptions of broker/tests/test_core.cpp.
use mathlib.Core.List.{Perm, Permᴰ}
use message_driven_event_que.Prelude.{
  ◌%◌, ◌≡◌, ◌↔◌, refl, true, List, [], ◌∷◌, ◌++◌, arith, nat_eq, list_eq, take, drop, inr,
}
use message_driven_event_que.Prelude.Int.{pos}
use message_driven_event_que.Message.{Bytes, ClientId, Message}
use message_driven_event_que.TopicRouter.{
  GroupState, Subscriptions, subscribe, route, contains, group_key, matches, is_unique, join,
}
use message_driven_event_que.TopicRouter.Matching.{Covers, matches-iff-Covers}
use message_driven_event_que.TopicRouter.Invariant.{IsWf, Call, subscribes, routes, run, run-IsWf}
use message_driven_event_que.TopicRouter.Routing.{ServesAll, route-ServesAll}
use message_driven_event_que.TopicRouter.Reach.{clients, route-subscribe}
use message_driven_event_que.TopicRouter.Fairness.{picks, picks_round}
use message_driven_event_que.Prelude.Maps.{upsert}
use message_driven_event_que.TopicRouter.Unordered.{SameMaps, SameMaps-refl}
use message_driven_event_que.TopicRouter.Histories.{History, same_targets}

-- "o.c", "o.*", "A" and "B"
abbrev o_c : Bytes
o_c = 111 ∷ 46 ∷ 99 ∷ []

abbrev o_star : Bytes
o_star = 111 ∷ 46 ∷ 42 ∷ []

abbrev msg : Message
msg = record { msg_id = 101; topic = o_c; body = []; retry_count = 0 }

abbrev calls : List Call
calls =
    subscribes o_c (65 ∷ []) (pos 1)
    ∷ subscribes o_c (65 ∷ []) (pos 2)
    ∷ subscribes o_c (66 ∷ []) (pos 3)
    ∷ subscribes o_star [] (pos 4)
    ∷ routes msg
    ∷ []

run-IsWf_example : IsWf (run [] calls)
run-IsWf_example = run-IsWf calls

route-ServesAll_example : ServesAll msg (run [] calls) (route msg (run [] calls)).0
route-ServesAll_example = route-ServesAll msg (run [] calls) (run-IsWf calls)

route-subscribe_example :
    contains (pos 4) (clients (route msg (subscribe o_star [] (pos 4) (run [] calls))).0) ≡ true
route-subscribe_example =
    route-subscribe (pos 4) msg o_star (run [] calls)
      (inr (111 ∷ 46 ∷ [], [], 99 ∷ [], refl, ((omega arith), ((omega arith), tt)), refl))

matches-iff-Covers_example : (matches o_star o_c ≡ true) ↔ Covers o_star o_c
matches-iff-Covers_example = matches-iff-Covers o_star o_c

abbrev trio : GroupState
trio = record { members = pos 1 ∷ pos 2 ∷ pos 3 ∷ []; rr_idx = 4 }

picks_round_example :
    (picks (7 ∷ 8 ∷ 9 ∷ []) (65 ∷ []) trio ≡ drop (4 % 3) trio.members ++ take (4 % 3) trio.members)
    × Perm (picks (7 ∷ 8 ∷ 9 ∷ []) (65 ∷ []) trio) trio.members
picks_round_example =
    picks_round (7 ∷ 8 ∷ 9 ∷ []) (65 ∷ []) trio (unfold is_unique in refl) refl refl (omega arith)

abbrev seen : List Call
seen = subscribes o_star (66 ∷ []) (pos 4) ∷ subscribes o_c (65 ∷ []) (pos 1) ∷ []

abbrev alone : ClientId → GroupState
alone id = record { members = id ∷ []; rr_idx = 0 }

abbrev one_order : Subscriptions
one_order = (o_c, (65 ∷ [], alone (pos 1)) ∷ []) ∷ (o_star, (66 ∷ [], alone (pos 4)) ∷ []) ∷ []

abbrev other_order : Subscriptions
other_order = (o_star, (66 ∷ [], alone (pos 4)) ∷ []) ∷ (o_c, (65 ∷ [], alone (pos 1)) ∷ []) ∷ []

reached : History seen one_order
unfolding run subscribe join contains group_key upsert
reached =
    History.next (subscribes o_star (66 ∷ []) (pos 4))
      (History.next (subscribes o_c (65 ∷ []) (pos 1)) History.start (SameMaps-refl _))
      (SameMaps-refl one_order)

reached_otherwise : History seen other_order
unfolding run subscribe join contains group_key upsert
reached_otherwise =
    History.next (subscribes o_star (66 ∷ []) (pos 4))
      (History.next (subscribes o_c (65 ∷ []) (pos 1)) History.start (SameMaps-refl _))
      SameMaps.swap

same_targets_example : Permᴰ (route msg one_order).0 (route msg other_order).0
same_targets_example = same_targets msg reached reached_otherwise
