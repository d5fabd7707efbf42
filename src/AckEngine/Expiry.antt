-- ===== src/AckEngine/Expiry.antt =====
-- What a round of the scanner leaves in flight, and what it pushes.
use message_driven_event_que.Prelude.{
  ℕ, ◌≤◌, ◌<◌, ◌≡◌, inl, inr, refl, sym, ap, ◌∙◌, true, false, List, [], ◌∷◌, Option, none, some,
  arith, ◌==◌, eq_iff, nat_eq, pair_eq, ltb, leb, if◌then◌else◌, Bool-cases, Option-cases,
}
use message_driven_event_que.Prelude.Int.{ℤ, int_eq}
use message_driven_event_que.Prelude.Maps.{lookup, erase, lookup-erase}
use message_driven_event_que.AckEngine.{Key, InFlight, Flights, DeadlineEntry, due, expire}
use message_driven_event_que.AckEngine.Deadlines.{Listed, Sorted, Earliest-Listed}

-- Every delivery in flight has its deadline in the queue.
abbrev pub Covered : Flights → List DeadlineEntry → Type 0
Covered fl ds =
    (k : Key) (entry : InFlight) → lookup k fl ≡ some entry → Listed (entry.deadline, k) ds

abbrev pub kept : ℕ → Option InFlight → Option InFlight
kept now none = none
kept now (some entry) = if leb entry.deadline now then none else some entry

pub due-some :
    (t : ℕ) (k : Key) (fl : Flights) (entry : InFlight)
    → due (t, k) fl ≡ some entry
    → (lookup k fl ≡ some entry) × (entry.deadline ≤ t)
unfolding due
due-some t k fl entry e = ground arith

due-none :
    (t : ℕ) (k : Key) (fl : Flights) (entry : InFlight)
    → due (t, k) fl ≡ none
    → lookup k fl ≡ some entry
    → t < entry.deadline
unfolding due
due-none t k fl entry e l = ground arith

pub Covered-skip :
    (t : ℕ) (k : Key) (ds : List DeadlineEntry) (fl : Flights)
    → due (t, k) fl ≡ none
    → Covered fl ((t, k) ∷ ds)
    → Covered fl ds
Covered-skip t k ds fl e c j entry l = elim (c j entry l) [
  | inl same ↦
      let time : entry.deadline ≡ t = ap (λ (p : DeadlineEntry). p.0) same in
      let key : k ≡ j = sym (ap (λ (p : DeadlineEntry). p.1) same) in
      let there : lookup k fl ≡ some entry = rw key l in
      let late = due-none t k fl entry e there in absurd (omega arith)
  | inr later ↦ later
]

pub Covered-erase :
    (t : ℕ) (k : Key) (ds : List DeadlineEntry) (fl : Flights)
    → Covered fl ((t, k) ∷ ds)
    → Covered (erase k fl) ds
Covered-erase t k ds fl c j entry l = elim (Bool-cases (k == j)) [
  | inl hit ↦
      let gone : lookup j (erase k fl) ≡ none = lookup-erase k j fl ∙ rw hit refl in absurd cc
  | inr miss ↦
      let same : lookup j (erase k fl) ≡ lookup j fl = lookup-erase k j fl ∙ rw miss refl in
      elim (c j entry (sym same ∙ l)) [
        | inl e ↦
            let key : k ≡ j = sym (ap (λ (p : DeadlineEntry). p.1) e) in
            let hit = (eq_iff k j).1 key in absurd cc
        | inr later ↦ later
      ]
]

-- Nothing that is in flight is due before the earliest deadline.
kept_early :
    (now t : ℕ) (k j : Key) (ds : List DeadlineEntry) (fl : Flights)
    → now < t
    → Sorted ((t, k) ∷ ds)
    → Covered fl ((t, k) ∷ ds)
    → lookup j fl ≡ kept now (lookup j fl)
kept_early now t k j ds fl early s c = elim (Option-cases (lookup j fl)) [
  | inl absent ↦ rw absent refl
  | inr (entry, there) ↦
      let late =
        Earliest-Listed t entry.deadline j ((t, k) ∷ ds) (omega arith, s.0) (c j entry there) in
      let stays : leb entry.deadline now ≡ false = ground arith in rw (there, kept, stays) refl
]

same_fate :
    (now t : ℕ) (k j : Key) (fl : Flights) (entry : InFlight)
    → t ≤ now
    → due (t, k) fl ≡ some entry
    → kept now (lookup j (erase k fl)) ≡ kept now (lookup j fl)
same_fate now t k j fl entry h e =
    let (there, old) = due-some t k fl entry e in
    elim (Bool-cases (k == j)) [
      | inl hit ↦
          let key : k ≡ j = (eq_iff k j).0 hit in
          let gone : lookup j (erase k fl) ≡ none = lookup-erase k j fl ∙ rw hit refl in
          let here : lookup j fl ≡ some entry = rw (sym key) there in
          let leaves : leb entry.deadline now ≡ true = ground arith in
          rw (gone, here, kept, leaves) refl
      | inr miss ↦
          let same : lookup j (erase k fl) ≡ lookup j fl = lookup-erase k j fl ∙ rw miss refl in
          rw same refl
    ]

pub expire-lookup :
    (max_retries : ℤ) (now : ℕ) (ds : List DeadlineEntry) (fl : Flights) (j : Key)
    → Sorted ds
    → Covered fl ds
    → lookup j (expire max_retries now ds fl).1.1 ≡ kept now (lookup j fl)
unfolding expire
expire-lookup m now [] fl j s c = elim (Option-cases (lookup j fl)) [
  | inl absent ↦ rw absent refl
  | inr (entry, there) ↦ absurd (c j entry there)
]
expire-lookup m now ((t, k) ∷ ds) fl j s c = elim (Bool-cases (ltb now t)) [
  | inl early ↦ rw (early, expire) (kept_early now t k j ds fl (ground arith) s c)
  | inr reached ↦ elim (Option-cases (due (t, k) fl)) [
    | inl skip ↦
        rw (reached, expire, skip) (expire-lookup m now ds fl j s.1 (Covered-skip t k ds fl skip c))
    | inr (entry, hit) ↦
        rw (reached, expire, hit)
          (expire-lookup m now ds (erase k fl) j s.1 (Covered-erase t k ds fl c)
            ∙ same_fate now t k j fl entry (ground arith) hit)
  ]
]
