-- ===== src/SafeQueue/Tests.antt =====
-- The theorems on the queue at concrete inputs.
use message_driven_event_que.Prelude.{List, ℕ, ◌≡◌, ◌⊎◌, refl, [], ◌∷◌, arith}
use message_driven_event_que.SafeQueue.{SafeQueue, create, push, pop}
use message_driven_event_que.SafeQueue.Fifo.{Run, start, pushes, pops, InOrder, Run-InOrder}
use message_driven_event_que.SafeQueue.Monitor.{
  Monitor, Reach, here, next, push_now, pop_sleep, notify_empty, idle, pop_woken, notify_full_none,
  no_lost_wakeup,
}

abbrev holding : List ℕ → SafeQueue ℕ
holding l = record { items = l; capacity = 2 }

two_through : Run {A = ℕ} (create 2) (4 ∷ 5 ∷ []) (4 ∷ []) (holding (5 ∷ []))
unfolding create push pop
two_through = pops 4 (pushes 5 (pushes 4 start refl) refl) refl

Run-InOrder_example : InOrder {A = ℕ} 2 (4 ∷ 5 ∷ []) (4 ∷ []) (holding (5 ∷ []))
Run-InOrder_example = Run-InOrder 2 (4 ∷ 5 ∷ []) (4 ∷ []) (holding (5 ∷ [])) two_through

-- A consumer sleeps, an item comes, and the consumer is woken and takes it.
abbrev served : Monitor
served = idle 1

sleeps_and_takes : Reach (idle 1) served
sleeps_and_takes =
    next
      (next
        (next (next (next here (pop_sleep refl)) (push_now (omega arith)))
          (notify_empty 0 0 refl refl))
        (pop_woken 0 0 refl refl))
      (notify_full_none 0 refl refl)

no_lost_wakeup_example :
    ((served.asleep_empty ≡ 0) ⊎ (served.size ≡ 0))
    × ((served.asleep_full ≡ 0) ⊎ (served.size ≡ served.capacity))
no_lost_wakeup_example = no_lost_wakeup 1 served sleeps_and_takes refl refl
