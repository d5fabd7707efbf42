-- ===== src/SafeQueue/Monitor.antt =====
-- The threads that wait on the two condition variables of a queue. A waiting thread sleeps, or has
-- been woken and has not yet got the mutex back; a `notify_one` is pending from the unlock until it
-- is made. The steps are those of `push`, `pop` and `try_pop_for` between two waits for the mutex.
use message_driven_event_que.Prelude.{ℕ, suc, ◌+◌, ◌≤◌, ◌<◌, ◌≡◌, ◌⊎◌, inl, refl, arith}

-- `_empty` is the condition variable not_empty_, where consumers wait; `_full` is not_full_.
pub record Monitor : Type 0 where
  pub size : ℕ
  pub capacity : ℕ
  pub asleep_empty : ℕ
  pub woken_empty : ℕ
  pub pending_empty : ℕ
  pub asleep_full : ℕ
  pub woken_full : ℕ
  pub pending_full : ℕ

pub data Step (m : Monitor) : Monitor → Type 0 where
  -- `push`: there is room, at once or after a wait.
  push_now :
      m.size < m.capacity
      → Step m (record m { size = m.size + 1; pending_empty = m.pending_empty + 1 })
  push_sleep : m.capacity ≤ m.size → Step m (record m { asleep_full = m.asleep_full + 1 })
  push_woken :
      (k : ℕ)
      → m.woken_full ≡ suc k
      → m.size < m.capacity
      → Step m (record m { size = m.size + 1; woken_full = k; pending_empty = m.pending_empty + 1 })
  push_again :
      (k : ℕ)
      → m.woken_full ≡ suc k
      → m.capacity ≤ m.size
      → Step m (record m { woken_full = k; asleep_full = m.asleep_full + 1 })
  -- `pop` and `try_pop_for`: there is an item, at once or after a wait.
  pop_now :
      (k : ℕ) → m.size ≡ suc k → Step m (record m { size = k; pending_full = m.pending_full + 1 })
  pop_sleep : m.size ≡ 0 → Step m (record m { asleep_empty = m.asleep_empty + 1 })
  pop_woken :
      (j k : ℕ)
      → m.woken_empty ≡ suc j
      → m.size ≡ suc k
      → Step m (record m { size = k; woken_empty = j; pending_full = m.pending_full + 1 })
  pop_again :
      (j : ℕ)
      → m.woken_empty ≡ suc j
      → m.size ≡ 0
      → Step m (record m { woken_empty = j; asleep_empty = m.asleep_empty + 1 })
  -- A timeout of `try_pop_for` that finds nothing.
  give_up : (j : ℕ) → m.woken_empty ≡ suc j → m.size ≡ 0 → Step m (record m { woken_empty = j })
  -- A sleeper wakes by itself, or its timeout is over.
  stir_empty :
      (j : ℕ)
      → m.asleep_empty ≡ suc j
      → Step m (record m { asleep_empty = j; woken_empty = m.woken_empty + 1 })
  stir_full :
      (j : ℕ)
      → m.asleep_full ≡ suc j
      → Step m (record m { asleep_full = j; woken_full = m.woken_full + 1 })
  -- `notify_one` wakes a sleeper, or nobody sleeps and it has no effect.
  notify_empty :
      (j k : ℕ)
      → m.pending_empty ≡ suc k
      → m.asleep_empty ≡ suc j
      → Step m (record m { pending_empty = k; asleep_empty = j; woken_empty = m.woken_empty + 1 })
  notify_empty_none :
      (k : ℕ)
      → m.pending_empty ≡ suc k
      → m.asleep_empty ≡ 0
      → Step m (record m { pending_empty = k })
  notify_full :
      (j k : ℕ)
      → m.pending_full ≡ suc k
      → m.asleep_full ≡ suc j
      → Step m (record m { pending_full = k; asleep_full = j; woken_full = m.woken_full + 1 })
  notify_full_none :
      (k : ℕ) → m.pending_full ≡ suc k → m.asleep_full ≡ 0 → Step m (record m { pending_full = k })

pub data Reach (m : Monitor) : Monitor → Type 0 where
  here : Reach m m
  next : {n o : Monitor} → Reach m n → Step n o → Reach m o

-- As long as somebody sleeps, every item, or every free place, has a wake-up on its way.
pub record Inv (m : Monitor) : Type 0 where
  pub bound : m.size ≤ m.capacity
  pub for_items : (m.asleep_empty ≡ 0) ⊎ (m.size ≤ m.woken_empty + m.pending_empty)
  pub for_places : (m.asleep_full ≡ 0) ⊎ (m.capacity ≤ m.size + m.woken_full + m.pending_full)

Step-Inv : (m n : Monitor) → Step m n → Inv m → Inv n
Step-Inv m _ (push_now room) v = ground arith
Step-Inv m _ (push_sleep full) v = ground arith
Step-Inv m _ (push_woken k w room) v = ground arith
Step-Inv m _ (push_again k w full) v = ground arith
Step-Inv m _ (pop_now k s) v = ground arith
Step-Inv m _ (pop_sleep e) v = ground arith
Step-Inv m _ (pop_woken j k w s) v = ground arith
Step-Inv m _ (pop_again j w e) v = ground arith
Step-Inv m _ (give_up j w e) v = ground arith
Step-Inv m _ (stir_empty j a) v = ground arith
Step-Inv m _ (stir_full j a) v = ground arith
Step-Inv m _ (notify_empty j k p a) v = ground arith
Step-Inv m _ (notify_empty_none k p a) v = ground arith
Step-Inv m _ (notify_full j k p a) v = ground arith
Step-Inv m _ (notify_full_none k p a) v = ground arith

Reach-Inv : (m n : Monitor) → Reach m n → Inv m → Inv n
Reach-Inv m _ here v = v
Reach-Inv m o (next {n = n} r st) v = Step-Inv n o st (Reach-Inv m n r v)

abbrev pub idle : ℕ → Monitor
idle c = record {
  size = 0;
  capacity = c;
  asleep_empty = 0;
  woken_empty = 0;
  pending_empty = 0;
  asleep_full = 0;
  woken_full = 0;
  pending_full = 0;
}

quiet :
    (m : Monitor)
    → Inv m
    → m.pending_empty + m.woken_empty ≡ 0
    → m.pending_full + m.woken_full ≡ 0
    → ((m.asleep_empty ≡ 0) ⊎ (m.size ≡ 0)) × ((m.asleep_full ≡ 0) ⊎ (m.size ≡ m.capacity))
quiet m v pe pf = ground arith

-- No wake-up is lost: once every notification has been made and every woken thread has run, no
-- consumer sleeps or the queue is empty, and no producer sleeps or the queue is full.
pub no_lost_wakeup :
    (c : ℕ) (m : Monitor)
    → Reach (idle c) m
    → m.pending_empty + m.woken_empty ≡ 0
    → m.pending_full + m.woken_full ≡ 0
    → ((m.asleep_empty ≡ 0) ⊎ (m.size ≡ 0)) × ((m.asleep_full ≡ 0) ⊎ (m.size ≡ m.capacity))
no_lost_wakeup c m r pe pf =
    quiet m
      (Reach-Inv (idle c) m r
        (record { bound = omega arith; for_items = inl refl; for_places = inl refl }))
      pe pf
