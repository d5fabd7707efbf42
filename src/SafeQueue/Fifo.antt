-- ===== src/SafeQueue/Fifo.antt =====
-- A queue is first in, first out, and never holds more than its capacity.
use message_driven_event_que.Prelude.{
  ℕ, ◌↔◌, true, false, ◌+◌, ◌≤◌, ◌<◌, ◌≡◌, inl, inr, refl, ap, sym, ◌∙◌, List, [], ◌∷◌, ◌++◌, none,
  some, arith, ltb, ltb_of_lt, Bool-cases, length, length-append, append_assoc, append-nil,
}
use message_driven_event_que.SafeQueue.{
  SafeQueue, push, pop, try_pop_for, push_all, create, size, empty,
}

module _ {ℓ} {A : Type ℓ} where
  -- The calls that came through, of all threads, in the order in which they held the mutex: what was
  -- pushed and what was popped since the queue was `q`.
  pub data Run (q : SafeQueue A) : List A → List A → SafeQueue A → Type ℓ where
    start : Run q [] [] q
    pushes :
        {ins outs : List A} {r r' : SafeQueue A} (x : A)
        → Run q ins outs r
        → push x r ≡ some r'
        → Run q (ins ++ x ∷ []) outs r'
    pops :
        {ins outs : List A} {r r' : SafeQueue A} (x : A)
        → Run q ins outs r
        → pop r ≡ some (x, r')
        → Run q ins (outs ++ x ∷ []) r'
    tries :
        {ins outs : List A} {r r' : SafeQueue A} (x : A)
        → Run q ins outs r
        → try_pop_for r ≡ (some x, r')
        → Run q ins (outs ++ x ∷ []) r'

  push-some :
      (x : A) (q r : SafeQueue A)
      → push x q ≡ some r
      → (r.items ≡ q.items ++ x ∷ []) × (r.capacity ≡ q.capacity) × (length q.items < q.capacity)
  unfolding push
  push-some x q r e = ground arith

  pop-some :
      (x : A) (q r : SafeQueue A)
      → pop q ≡ some (x, r)
      → (q.items ≡ x ∷ r.items) × (r.capacity ≡ q.capacity)
  unfolding pop
  pop-some x q r e = ground arith

  try_pop_for-some :
      (x : A) (q r : SafeQueue A)
      → try_pop_for q ≡ (some x, r)
      → (q.items ≡ x ∷ r.items) × (r.capacity ≡ q.capacity)
  unfolding try_pop_for
  try_pop_for-some x q r e = ground arith

  -- Items pushed so far are those popped, in the same order, and then those in the queue.
  abbrev pub InOrder : ℕ → List A → List A → SafeQueue A → Type ℓ
  InOrder c ins outs r = (ins ≡ outs ++ r.items) × (r.capacity ≡ c) × (length r.items ≤ c)

  taken :
      (c : ℕ) (ins outs : List A) (x : A) (r r' : SafeQueue A)
      → InOrder c ins outs r
      → (r.items ≡ x ∷ r'.items) × (r'.capacity ≡ r.capacity)
      → InOrder c ins (outs ++ x ∷ []) r'
  taken c ins outs x r r' (order, cap, bound) (front, same) = (
    order ∙ ap (λ (l : List A). outs ++ l) front ∙ sym (append_assoc outs (x ∷ []) r'.items),
    same ∙ cap,
    omega (arith, ap length front),
  )

  -- Whatever the threads do, items leave the queue in the order in which they came in, none is lost or
  -- duplicated, and the queue never holds more than its capacity.
  pub Run-InOrder :
      (c : ℕ) (ins outs : List A) (r : SafeQueue A)
      → Run (create c) ins outs r
      → InOrder c ins outs r
  Run-InOrder c ins outs r start = unfold create in (refl, refl, omega arith)
  Run-InOrder c _ outs r' (pushes {ins = ins} {r = r} x run e) =
      let (order, cap, bound) = Run-InOrder c ins outs r run in
      let (items, same, room) = push-some x r r' e in
      (
        ap (λ (l : List A). l ++ x ∷ []) order
            ∙ append_assoc outs r.items (x ∷ [])
            ∙ ap (λ (l : List A). outs ++ l) (sym items),
        same ∙ cap,
        omega (arith, ap length items, length-append r.items (x ∷ [])),
      )
  Run-InOrder c ins _ r' (pops {outs = outs} {r = r} x run e) =
      taken c ins outs x r r' (Run-InOrder c ins outs r run) (pop-some x r r' e)
  Run-InOrder c ins _ r' (tries {outs = outs} {r = r} x run e) =
      taken c ins outs x r r' (Run-InOrder c ins outs r run) (try_pop_for-some x r r' e)

  empty_iff : (q : SafeQueue A) (l : List A) → q.items ≡ l → (empty q ≡ true) ↔ (length l ≡ 0)
  unfolding empty
  empty_iff q [] e = ((λ _. refl), (λ _. rw e refl))
  empty_iff q (x ∷ xs) e =
      ((λ t. let f : empty q ≡ false = rw e refl in absurd cc), (λ n. absurd (omega (arith, n))))

  -- At any time `size` counts what was pushed and not yet popped, and `empty` holds exactly when as many
  -- items were popped as were pushed.
  size_lem :
      (c : ℕ) (ins outs : List A) (r : SafeQueue A)
      → Run (create c) ins outs r
      → (length outs + size r ≡ length ins) × ((empty r ≡ true) ↔ (length ins ≡ length outs))
  unfolding size
  size_lem c ins outs r run =
      let (order, cap, bound) = Run-InOrder c ins outs r run in
      let all : length ins ≡ length outs + length r.items =
        ap length order ∙ length-append outs r.items in
      let (to, from) = empty_iff r r.items refl in
      (sym all, ((λ e. omega (arith, all, to e)), (λ e. from (omega (arith, all, e)))))

  -- A run of pushes gets through exactly when there is room for all of them.
  pub push_all-some :
      (xs : List A) (q : SafeQueue A)
      → length q.items + length xs ≤ q.capacity
      → push_all xs q ≡ some (record q { items = q.items ++ xs })
  unfolding push_all push
  push_all-some [] q h =
      ap (λ (l : List A). some (record q { items = l })) (sym (append-nil q.items))
  push_all-some (x ∷ xs) q h =
      let more = record q { items = q.items ++ x ∷ [] } in
      let room = ltb_of_lt (length q.items) q.capacity (omega arith) in
      rw (room, push_all)
        (push_all-some xs more (omega (arith, length-append q.items (x ∷ [])))
          ∙ ap (λ (l : List A). some (record q { items = l })) (append_assoc q.items (x ∷ []) xs))

  pub push_all-none :
      (xs : List A) (q : SafeQueue A)
      → length q.items ≤ q.capacity
      → q.capacity < length q.items + length xs
      → push_all xs q ≡ none
  unfolding push_all push
  push_all-none [] q h lt = absurd (omega arith)
  push_all-none (x ∷ xs) q h lt = elim (Bool-cases (ltb (length q.items) q.capacity)) [
    | inl room ↦
        let more = record q { items = q.items ++ x ∷ [] } in
        let size = length-append q.items (x ∷ []) in
        rw (room, push_all) (push_all-none xs more (ground (arith, size)) (omega (arith, size)))
    | inr full ↦ rw (full, push_all)
  ]
