-- ===== src/AckEngine/Keys.antt =====
-- The map of the deliveries in flight stays in the order of its keys, each key once.
use message_driven_event_que.Prelude.{
  ◌≡◌, inl, inr, refl, sym, true, false, [], ◌∷◌, none, arith, ◌==◌, eq_iff, nat_eq, pair_eq,
  Bool-cases,
}
use message_driven_event_que.Prelude.Int.{int_eq}
use message_driven_event_que.Prelude.Maps.{lookup, erase, insert_sorted}
use message_driven_event_que.AckEngine.{Key, lt_key, InFlight, Flights}

lt_key_trans : (i j k : Key) → lt_key i j ≡ true → lt_key j k ≡ true → lt_key i k ≡ true
lt_key_trans (a, c) (b, d) (x, y) h g = ground arith

lt_key_distinct : (i j : Key) → lt_key i j ≡ true → (i == j) ≡ false
lt_key_distinct (a, c) (b, d) h = ground arith

lt_key_total : (i j : Key) → (j == i) ≡ false → lt_key i j ≡ false → lt_key j i ≡ true
lt_key_total (a, c) (b, d) h g = ground arith

abbrev pub Above : Key → Flights → Type 0
Above k [] = Unit {0}
Above k ((j, _) ∷ fl) = (lt_key k j ≡ true) × Above k fl

abbrev pub Ordered : Flights → Type 0
Ordered [] = Unit {0}
Ordered ((k, _) ∷ fl) = Above k fl × Ordered fl

lower_bound : (i k : Key) (fl : Flights) → lt_key i k ≡ true → Above k fl → Above i fl
lower_bound i k [] h a = tt
lower_bound i k ((j, _) ∷ fl) h a = (lt_key_trans i k j h a.0, lower_bound i k fl h a.1)

pub Above-lookup : (k : Key) (fl : Flights) → Above k fl → lookup k fl ≡ none
unfolding lookup
Above-lookup k [] a = refl
Above-lookup k ((j, entry) ∷ fl) a =
    let apart = lt_key_distinct k j a.0 in
    let symmetric : (j == k) ≡ false = ground arith in rw symmetric (Above-lookup k fl a.1)

pub erase-Above : (k : Key) (fl : Flights) → Above k fl → erase k fl ≡ fl
unfolding erase
erase-Above k [] a = refl
erase-Above k ((j, entry) ∷ fl) a =
    let apart = lt_key_distinct k j a.0 in
    let symmetric : (j == k) ≡ false = ground arith in rw symmetric (rw (erase-Above k fl a.1) refl)

Above-erase : (k i : Key) (fl : Flights) → Above k fl → Above k (erase i fl)
unfolding erase
Above-erase k i [] a = tt
Above-erase k i ((j, entry) ∷ fl) a = elim (Bool-cases (j == i)) [
  | inl hit ↦ rw hit (Above-erase k i fl a.1)
  | inr miss ↦ rw miss (a.0, Above-erase k i fl a.1)
]

pub Ordered-erase : (i : Key) (fl : Flights) → Ordered fl → Ordered (erase i fl)
unfolding erase
Ordered-erase i [] o = tt
Ordered-erase i ((j, entry) ∷ fl) o = elim (Bool-cases (j == i)) [
  | inl hit ↦ rw hit (Ordered-erase i fl o.1)
  | inr miss ↦ rw miss (Above-erase j i fl o.0, Ordered-erase i fl o.1)
]

Above-insert_sorted :
    (i k : Key) (v : InFlight) (fl : Flights)
    → lt_key i k ≡ true
    → Above i fl
    → Above i (insert_sorted lt_key k v fl)
unfolding insert_sorted
Above-insert_sorted i k v [] h a = (h, tt)
Above-insert_sorted i k v ((j, w) ∷ fl) h a = elim (Bool-cases (j == k)) [
  | inl hit ↦ rw hit (h, a.1)
  | inr miss ↦ elim (Bool-cases (lt_key k j)) [
    | inl lt ↦ rw (miss, lt) (h, a)
    | inr ge ↦ rw (miss, ge) (a.0, Above-insert_sorted i k v fl h a.1)
  ]
]

pub Ordered-insert_sorted :
    (k : Key) (v : InFlight) (fl : Flights) → Ordered fl → Ordered (insert_sorted lt_key k v fl)
unfolding insert_sorted
Ordered-insert_sorted k v [] o = (tt, tt)
Ordered-insert_sorted k v ((j, w) ∷ fl) o = elim (Bool-cases (j == k)) [
  | inl hit ↦ let e : k ≡ j = sym ((eq_iff j k).0 hit) in rw (hit, e) o
  | inr miss ↦ elim (Bool-cases (lt_key k j)) [
    | inl lt ↦ rw (miss, lt) ((lt, lower_bound k j fl lt o.0), o)
    | inr ge ↦
        rw (miss, ge)
          (
            Above-insert_sorted j k v fl (lt_key_total k j miss ge) o.0,
            Ordered-insert_sorted k v fl o.1,
          )
  ]
]
