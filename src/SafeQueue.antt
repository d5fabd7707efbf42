-- ===== src/SafeQueue.antt =====
-- broker/include/SafeQueue.hpp: the bounded blocking queue. Each call holds the mutex, so it is one
-- function on the queue; `none` is a call that waits on its condition variable, with the queue as it
-- was, until another thread changes the queue. What the waiting threads do is in `SafeQueue.Monitor`.
pub mod Fifo
pub mod Monitor
mod Tests
use message_driven_event_que.Prelude.{
  ℕ, Bool, true, false, List, [], ◌∷◌, ◌++◌, Option, none, some, ltb, if◌then◌else◌, length,
}

-- The front of the queue is the head of the list.
pub record SafeQueue {ℓ} (A : Type ℓ) : Type ℓ where
  pub items : List A
  pub capacity : ℕ

module _ {ℓ} {A : Type ℓ} where
  unfoldable pub create : ℕ → SafeQueue A
  create capacity = record { items = []; capacity = capacity }

  unfoldable pub push : A → SafeQueue A → Option (SafeQueue A)
  push item q =
      if ltb (length q.items) q.capacity
      then some (record q { items = q.items ++ item ∷ [] })
      else none

  unfoldable pub pop : SafeQueue A → Option (A × SafeQueue A)
  pop q = elim q.items [ [] ↦ none | item ∷ rest ↦ some (item, record q { items = rest }) ]

  -- `none` is `std::nullopt`, after the timeout: here the call returns.
  unfoldable pub try_pop_for : SafeQueue A → Option A × SafeQueue A
  try_pop_for q = elim q.items [
    | [] ↦ (none, q)
    | item ∷ rest ↦ (some item, record q { items = rest })
  ]

  unfoldable pub size : SafeQueue A → ℕ
  size q = length q.items

  unfoldable pub empty : SafeQueue A → Bool
  empty q = elim q.items [ [] ↦ true | _ ∷ _ ↦ false ]

  -- Pushes in a row by one thread.
  unfoldable pub push_all : List A → SafeQueue A → Option (SafeQueue A)
  unfolding push
  push_all [] q = some q
  push_all (x ∷ xs) q = elim (push x q) [ none ↦ none | some q' ↦ push_all xs q' ]
