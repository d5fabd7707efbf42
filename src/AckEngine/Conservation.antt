-- ===== src/AckEngine/Conservation.antt =====
-- A delivery that an operation takes out of the map, other than for an acknowledgement, is pushed.
use message_driven_event_que.Prelude.{
  ℕ, ◌+◌, ◌≡◌, inl, inr, refl, sym, ◌∙◌, List, [], ◌∷◌, some, arith, ◌==◌, eq_iff, nat_eq, pair_eq,
  ltb, Bool-cases, Option-cases,
}
use message_driven_event_que.Prelude.Int.{ℤ, int_eq}
use message_driven_event_que.Prelude.Maps.{lookup, erase}
use message_driven_event_que.Message.{ClientId}
use message_driven_event_que.AckEngine.{
  Key, InFlight, Flights, DeadlineEntry, Push, due, expire, requeue_or_dlq, fail_client,
}
use message_driven_event_que.AckEngine.Keys.{erase-Above, Ordered, Ordered-erase}
use message_driven_event_que.AckEngine.Expiry.{due-some}

module _ (w : Push → ℕ) where
  abbrev pub weigh : List Push → ℕ
  weigh [] = 0
  weigh (p ∷ ps) = w p + weigh ps

  -- What the entries of the map would weigh, if each were pushed now.
  abbrev pub outstanding : ℤ → Flights → ℕ
  outstanding max_retries [] = 0
  outstanding max_retries ((_, entry) ∷ fl) =
      w (requeue_or_dlq max_retries entry) + outstanding max_retries fl

  pub outstanding-erase :
      (m : ℤ) (k : Key) (fl : Flights) (entry : InFlight)
      → Ordered fl
      → lookup k fl ≡ some entry
      → outstanding m fl ≡ w (requeue_or_dlq m entry) + outstanding m (erase k fl)
  unfolding lookup erase
  outstanding-erase m k [] entry o l = absurd cc
  outstanding-erase m k ((j, v) ∷ fl) entry o l = elim (Bool-cases (j == k)) [
    | inl hit ↦
        let there : lookup k ((j, v) ∷ fl) ≡ some v = rw hit refl in
        let chosen : some v ≡ some entry = sym there ∙ l in
        let same : v ≡ entry = cc in
        let key : k ≡ j = sym ((eq_iff j k).0 hit) in
        let rest : erase k fl ≡ fl = erase-Above k fl (rw key o.0) in rw (hit, rest, same) refl
    | inr miss ↦
        let there : lookup k fl ≡ some entry = sym (rw miss refl) ∙ l in
        rw miss (omega (arith, outstanding-erase m k fl entry o.1 there))
  ]

  pub expire-outstanding :
      (m : ℤ) (now : ℕ) (ds : List DeadlineEntry) (fl : Flights)
      → Ordered fl
      → weigh (expire m now ds fl).0 + outstanding m (expire m now ds fl).1.1 ≡ outstanding m fl
  unfolding expire
  expire-outstanding m now [] fl o = omega arith
  expire-outstanding m now ((t, k) ∷ ds) fl o = elim (Bool-cases (ltb now t)) [
    | inl early ↦ rw (early, expire) (omega arith)
    | inr reached ↦ elim (Option-cases (due (t, k) fl)) [
      | inl skip ↦ rw (reached, expire, skip) (expire-outstanding m now ds fl o)
      | inr (entry, hit) ↦
          rw (reached, expire, hit)
            (omega (
              arith,
              expire-outstanding m now ds (erase k fl) (Ordered-erase k fl o),
              outstanding-erase m k fl entry o (due-some t k fl entry hit).0,
            ))
    ]
  ]

  pub fail_client-outstanding :
      (m : ℤ) (id : ClientId) (fl : Flights)
      → weigh (fail_client m id fl).0 + outstanding m (fail_client m id fl).1 ≡ outstanding m fl
  unfolding fail_client
  fail_client-outstanding m id [] = omega arith
  fail_client-outstanding m id ((k, entry) ∷ fl) = elim (Bool-cases (entry.subscriber_id == id)) [
    | inl hit ↦ rw (hit, fail_client) (omega (arith, fail_client-outstanding m id fl))
    | inr miss ↦ rw (miss, fail_client) (omega (arith, fail_client-outstanding m id fl))
  ]
