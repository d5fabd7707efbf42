-- ===== src/AckEngine/Deadlines.antt =====
-- The queue of the deadlines is in the order of time.
use message_driven_event_que.Prelude.{
  ℕ, ◌≤◌, ◌≡◌, ◌⊎◌, inl, inr, ap, true, false, List, [], ◌∷◌, arith, nat_eq, pair_eq, Bool-cases,
}
use message_driven_event_que.AckEngine.{Key, DeadlineEntry, lt_entry, push_deadline}

abbrev pub Listed : DeadlineEntry → List DeadlineEntry → Type 0
Listed d [] = ⊥
Listed d (x ∷ xs) = (d ≡ x) ⊎ Listed d xs

abbrev pub Earliest : ℕ → List DeadlineEntry → Type 0
Earliest t [] = Unit {0}
Earliest t ((u, _) ∷ ds) = (t ≤ u) × Earliest t ds

abbrev pub Sorted : List DeadlineEntry → Type 0
Sorted [] = Unit {0}
Sorted ((t, _) ∷ ds) = Earliest t ds × Sorted ds

pub Earliest-Listed :
    (t u : ℕ) (k : Key) (ds : List DeadlineEntry) → Earliest t ds → Listed (u, k) ds → t ≤ u
Earliest-Listed t u k [] h l = absurd l
Earliest-Listed t u k ((x, j) ∷ ds) h (inl e) =
    let same : u ≡ x = ap (λ (p : DeadlineEntry). p.0) e in omega arith
Earliest-Listed t u k ((x, j) ∷ ds) h (inr l) = Earliest-Listed t u k ds h.1 l

Earliest-push_deadline :
    (t u : ℕ) (k : Key) (ds : List DeadlineEntry)
    → t ≤ u
    → Earliest t ds
    → Earliest t (push_deadline (u, k) ds)
unfolding push_deadline
Earliest-push_deadline t u k [] h a = (h, tt)
Earliest-push_deadline t u k ((v, j) ∷ ds) h a = elim (Bool-cases (lt_entry (u, k) (v, j))) [
  | inl lt ↦ rw lt (h, a)
  | inr ge ↦ rw ge (a.0, Earliest-push_deadline t u k ds h a.1)
]

pub sooner_bound : (t u : ℕ) (ds : List DeadlineEntry) → t ≤ u → Earliest u ds → Earliest t ds
sooner_bound t u [] h a = tt
sooner_bound t u ((v, j) ∷ ds) h a = (omega (arith, a.0), sooner_bound t u ds h a.1)

lt_entry_le : (u v : ℕ) (k j : Key) → lt_entry (u, k) (v, j) ≡ true → u ≤ v
lt_entry_le u v (a, c) (b, d) h = ground arith

lt_entry_ge : (u v : ℕ) (k j : Key) → lt_entry (u, k) (v, j) ≡ false → v ≤ u
lt_entry_ge u v (a, c) (b, d) h = ground arith

pub Sorted-push_deadline :
    (u : ℕ) (k : Key) (ds : List DeadlineEntry) → Sorted ds → Sorted (push_deadline (u, k) ds)
unfolding push_deadline
Sorted-push_deadline u k [] s = (tt, tt)
Sorted-push_deadline u k ((v, j) ∷ ds) s = elim (Bool-cases (lt_entry (u, k) (v, j))) [
  | inl lt ↦ let le = lt_entry_le u v k j lt in rw lt ((le, sooner_bound u v ds le s.0), s)
  | inr ge ↦ rw ge (
    Earliest-push_deadline v u k ds (lt_entry_ge u v k j ge) s.0,
    Sorted-push_deadline u k ds s.1,
  )
]

pub Listed-push_deadline :
    (d x : DeadlineEntry) (ds : List DeadlineEntry)
    → (d ≡ x) ⊎ Listed d ds
    → Listed d (push_deadline x ds)
unfolding push_deadline
Listed-push_deadline d x [] h = h
Listed-push_deadline d x (y ∷ ds) h = elim (Bool-cases (lt_entry x y)) [
  | inl lt ↦ rw lt h
  | inr ge ↦ rw ge (elim h [
    | inl e ↦ inr (Listed-push_deadline d x ds (inl e))
    | inr (inl e) ↦ inl e
    | inr (inr l) ↦ inr (Listed-push_deadline d x ds (inr l))
  ])
]
