-- ===== src/AckEngine/Tests.antt =====
-- Runs of the engine, and the theorems at concrete inputs.
use message_driven_event_que.Prelude.{
  some, ℕ, ◌+◌, ◌≡◌, refl, List, [], ◌∷◌, ◌++◌, arith, All, nat_eq, pair_eq,
}
use message_driven_event_que.Prelude.Int.{pos, int_eq}
use message_driven_event_que.Prelude.Maps.{lookup, erase, insert_sorted}
use message_driven_event_que.Message.{Message}
use message_driven_event_que.AckEngine.{
  AckEngine, Key, Push, to_main, Event, tracked, acked, woke, start, run, step, redelivery, track,
  ack, expire, due, push_deadline, requeue_or_dlq,
}
use message_driven_event_que.AckEngine.Invariant.{IsWatched, run-IsWatched}
use message_driven_event_que.AckEngine.Expiry.{kept}
use message_driven_event_que.AckEngine.Conservation.{weigh, outstanding}
use message_driven_event_que.AckEngine.Redelivery.{redelivery-lookup, step-outstanding}
use message_driven_event_que.AckEngine.Retries.{
  Limited, run-Limited, unanswered, copies, dead_letter, unanswered_lem,
}

abbrev order : ℕ → Message
order id = record { msg_id = id; topic = 111 ∷ []; body = 123 ∷ 125 ∷ []; retry_count = 0 }

-- Two subscribers get message 7, the first of them message 8 as well, and acknowledges message 7.
abbrev calls : List Event
calls =
    tracked 0 (order 7) (pos 4)
    ∷ tracked 0 (order 7) (pos 5)
    ∷ tracked 3 (order 8) (pos 4)
    ∷ acked 7 (pos 4)
    ∷ []

abbrev busy : AckEngine
busy = (run calls (start 10 (pos 1))).1

busy-IsWatched : IsWatched busy
busy-IsWatched = run-IsWatched 10 (pos 1) calls

-- At time 12 only the second delivery has expired.
second_expires :
    (run (calls ++ woke 12 ∷ []) (start 10 (pos 1))).0
    ≡ to_main (record (order 7) { retry_count = 1 }) ∷ []
unfolding run step track ack redelivery expire due push_deadline insert_sorted lookup erase
    requeue_or_dlq
second_expires = refl

run-IsWatched_example : IsWatched (run calls (start 10 (pos 1))).1
run-IsWatched_example = run-IsWatched 10 (pos 1) calls

redelivery-lookup_example :
    lookup {K = Key} (8, pos 4) (redelivery 12 busy).1.in_flight
    ≡ kept 12 (lookup {K = Key} (8, pos 4) busy.in_flight)
redelivery-lookup_example = redelivery-lookup 12 (8, pos 4) busy busy-IsWatched

-- Every push weighs one, so that the weights count them.
abbrev one : Push → ℕ
one p = 1

step-outstanding_example :
    weigh one (step (woke 12) busy).0
      + outstanding one busy.max_retries (step (woke 12) busy).1.in_flight
    ≡ outstanding one busy.max_retries busy.in_flight
step-outstanding_example = step-outstanding one (woke 12) busy busy-IsWatched tt

run-Limited_example : All (Limited (pos 1)) (run (calls ++ woke 12 ∷ []) (start 10 (pos 1))).0
run-Limited_example = run-Limited (calls ++ woke 12 ∷ []) (start 10 (pos 1))

unanswered_lem_example :
    unanswered 9 100 5 (pos 4) (some (order 7)) (start 10 (pos 3))
    ≡ copies 3 (order 7) ++ dead_letter (order 7) ∷ []
unanswered_lem_example = unanswered_lem 3 9 100 5 (pos 4) (order 7) 10 3 (omega arith) (omega arith)
