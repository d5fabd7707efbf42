-- ===== src/AckEngine/Disconnection.antt =====
-- What a disconnection leaves in flight.
use message_driven_event_que.Prelude.{
  ◌≡◌, inl, inr, refl, sym, [], ◌∷◌, Option, none, some, ◌==◌, eq_iff, nat_eq, pair_eq,
  if◌then◌else◌, Bool-cases,
}
use message_driven_event_que.Prelude.Int.{ℤ, int_eq}
use message_driven_event_que.Prelude.Maps.{lookup}
use message_driven_event_que.Message.{ClientId}
use message_driven_event_que.AckEngine.{Key, InFlight, Flights, fail_client}
use message_driven_event_que.AckEngine.Keys.{Above, Above-lookup, Ordered}

abbrev pub spared : ClientId → Option InFlight → Option InFlight
spared id none = none
spared id (some entry) = if entry.subscriber_id == id then none else some entry

Above-fail_client :
    (m : ℤ) (id : ClientId) (k : Key) (fl : Flights) → Above k fl → Above k (fail_client m id fl).1
unfolding fail_client
Above-fail_client m id k [] a = tt
Above-fail_client m id k ((j, entry) ∷ fl) a = elim (Bool-cases (entry.subscriber_id == id)) [
  | inl hit ↦ rw (hit, fail_client) (Above-fail_client m id k fl a.1)
  | inr miss ↦ rw (miss, fail_client) (a.0, Above-fail_client m id k fl a.1)
]

pub Ordered-fail_client :
    (m : ℤ) (id : ClientId) (fl : Flights) → Ordered fl → Ordered (fail_client m id fl).1
unfolding fail_client
Ordered-fail_client m id [] o = tt
Ordered-fail_client m id ((j, entry) ∷ fl) o = elim (Bool-cases (entry.subscriber_id == id)) [
  | inl hit ↦ rw (hit, fail_client) (Ordered-fail_client m id fl o.1)
  | inr miss ↦
      rw (miss, fail_client) (Above-fail_client m id j fl o.0, Ordered-fail_client m id fl o.1)
]

pub fail_client-lookup :
    (m : ℤ) (id : ClientId) (k : Key) (fl : Flights)
    → Ordered fl
    → lookup k (fail_client m id fl).1 ≡ spared id (lookup k fl)
unfolding lookup fail_client
fail_client-lookup m id k [] o = refl
fail_client-lookup m id k ((j, entry) ∷ fl) o = elim (Bool-cases (entry.subscriber_id == id)) [
  | inl hit ↦ elim (Bool-cases (j == k)) [
    | inl here ↦
        let key : k ≡ j = sym ((eq_iff j k).0 here) in
        let gone : lookup k (fail_client m id fl).1 ≡ none =
          Above-lookup k (fail_client m id fl).1 (rw key (Above-fail_client m id j fl o.0)) in
        rw (hit, fail_client, here, gone) (rw hit refl)
    | inr there ↦ rw (hit, fail_client, there) (fail_client-lookup m id k fl o.1)
  ]
  | inr miss ↦ elim (Bool-cases (j == k)) [
    | inl here ↦ rw (miss, fail_client, here, miss) refl
    | inr there ↦ rw (miss, fail_client, there) (fail_client-lookup m id k fl o.1)
  ]
]
