-- ===== src/TopicRouter/Reordering.antt =====
-- The unordered maps may be walked in another order after every call, and a new key may stand
-- anywhere: the histories of the router with such reorderings.
use mathlib.Core.List.{Permᴰ}
use mathlib.Core.List.Permᴰ
use message_driven_event_que.Prelude.Listings.{AllValues-Permᴰ, IsMap-Permᴰ}
use message_driven_event_que.Prelude.{
  ◌≡◌, refl, subst, Bool-cases, inl, inr, List, ◌∷◌, ◌==◌, false, arith, nat_eq, list_eq, eq_iff,
  sym, ◌∙◌,
}
use message_driven_event_que.Prelude.Int.{int_eq}
use message_driven_event_que.Prelude.Maps.{Lacks}
use message_driven_event_que.Message.{Bytes, ClientId}
use message_driven_event_que.TopicRouter.{
  GroupState, Groups, Subscriptions, leave, leave_groups, unsubscribe, is_empty,
}
use message_driven_event_que.TopicRouter.Invariant.{IsLive, IsWfGroups, IsWf}
use message_driven_event_que.TopicRouter.Unordered.{SameMaps, SameMaps-refl}

leave_groups-Permᴰ :
    (id : ClientId) {gs gs' : Groups}
    → Permᴰ gs gs'
    → Permᴰ (leave_groups id gs) (leave_groups id gs')
unfolding leave_groups
leave_groups-Permᴰ id Permᴰ.nil = Permᴰ.nil
leave_groups-Permᴰ id (Permᴰ.cons {a = x} {b = x'} {l₁ = l} {l₂ = l'} a p) =
    subst (λ (y : Bytes × GroupState). Permᴰ (leave_groups id (x ∷ l)) (leave_groups id (y ∷ l'))) a
      (elim (Bool-cases (is_empty (leave id x.1).members)) [
        | inl dropped ↦ rw dropped (leave_groups-Permᴰ id p)
        | inr kept ↦ rw kept (Permᴰ.cons refl (leave_groups-Permᴰ id p))
      ])
leave_groups-Permᴰ id (Permᴰ.swap {a = x} {b = y} {b' = x'} {l = l} a b) =
    let Goal : Bytes × GroupState → Bytes × GroupState → Type 0 =
      λ y' x''. Permᴰ (leave_groups id (x ∷ y ∷ l)) (leave_groups id (y' ∷ x'' ∷ l)) in
    let same = Permᴰ.refl (leave_groups id l) in
    subst (λ y'. Goal y' x') b
      (subst (λ x''. Goal y x'') a
        (elim (Bool-cases (is_empty (leave id x.1).members)) [
          | inl dropped ↦ elim (Bool-cases (is_empty (leave id y.1).members)) [
            | inl dropped' ↦ rw (dropped, dropped') same
            | inr kept ↦ rw (dropped, kept) (Permᴰ.cons refl same)
          ]
          | inr kept ↦ elim (Bool-cases (is_empty (leave id y.1).members)) [
            | inl dropped ↦ rw (kept, dropped) (Permᴰ.cons refl same)
            | inr kept' ↦ rw (kept, kept') (Permᴰ.swap refl refl)
          ]
        ]))
leave_groups-Permᴰ id (Permᴰ.trans p q) =
    Permᴰ.trans (leave_groups-Permᴰ id p) (leave_groups-Permᴰ id q)

is_empty-Permᴰ : {A : Type 0} {xs ys : List A} → Permᴰ xs ys → is_empty xs ≡ is_empty ys
is_empty-Permᴰ Permᴰ.nil = refl
is_empty-Permᴰ (Permᴰ.cons _ p) = refl
is_empty-Permᴰ (Permᴰ.swap _ _) = refl
is_empty-Permᴰ (Permᴰ.trans p q) = rw (is_empty-Permᴰ p) (is_empty-Permᴰ q)

pub unsubscribe-SameMaps :
    (id : ClientId) {subs subs' : Subscriptions}
    → SameMaps subs subs'
    → SameMaps (unsubscribe id subs) (unsubscribe id subs')
unfolding unsubscribe
unsubscribe-SameMaps id SameMaps.nil = SameMaps.nil
unsubscribe-SameMaps id (SameMaps.cons {gs = gs} {gs' = gs'} p s) =
    let rest = unsubscribe-SameMaps id s in
    let inner = leave_groups-Permᴰ id p in
    let alike = is_empty-Permᴰ inner in
    elim (Bool-cases (is_empty (leave_groups id gs'))) [
      | inl dropped ↦ rw (alike, dropped) rest
      | inr kept ↦ rw (alike, kept) (SameMaps.cons inner rest)
    ]
unsubscribe-SameMaps id (SameMaps.swap {gs = gs} {gs' = gs'} {subs = subs}) =
    let same = SameMaps-refl (unsubscribe id subs) in
    elim (Bool-cases (is_empty (leave_groups id gs))) [
      | inl dropped ↦ elim (Bool-cases (is_empty (leave_groups id gs'))) [
        | inl dropped' ↦ rw (dropped, dropped') same
        | inr kept ↦ rw (dropped, kept) (SameMaps.cons (Permᴰ.refl (leave_groups id gs')) same)
      ]
      | inr kept ↦ elim (Bool-cases (is_empty (leave_groups id gs'))) [
        | inl dropped ↦ rw (kept, dropped) (SameMaps.cons (Permᴰ.refl (leave_groups id gs)) same)
        | inr kept' ↦ rw (kept, kept') SameMaps.swap
      ]
    ]
unsubscribe-SameMaps id (SameMaps.trans p q) =
    SameMaps.trans (unsubscribe-SameMaps id p) (unsubscribe-SameMaps id q)

Lacks-SameMaps :
    (t : Bytes) {subs subs' : Subscriptions} → SameMaps subs subs' → Lacks t subs → Lacks t subs'
Lacks-SameMaps t SameMaps.nil h = tt
Lacks-SameMaps t (SameMaps.cons p s) h = (h.0, Lacks-SameMaps t s h.1)
Lacks-SameMaps t SameMaps.swap h = (h.1.0, (h.0, h.1.1))
Lacks-SameMaps t (SameMaps.trans p q) h = Lacks-SameMaps t q (Lacks-SameMaps t p h)

apart : (t t' : Bytes) → (t == t') ≡ false → (t' == t) ≡ false
apart t t' h = ground (arith, eq_iff t t', eq_iff t' t)

IsWfGroups-Permᴰ : {gs gs' : Groups} → Permᴰ gs gs' → IsWfGroups gs → IsWfGroups gs'
IsWfGroups-Permᴰ p h =
    (sym (is_empty-Permᴰ p) ∙ h.0, IsMap-Permᴰ p h.1, AllValues-Permᴰ IsLive p h.2)

pub SameMaps-IsWf : {subs subs' : Subscriptions} → SameMaps subs subs' → IsWf subs → IsWf subs'
SameMaps-IsWf SameMaps.nil h = h
SameMaps-IsWf (SameMaps.cons {t = t} p s) (h, hs) =
    let rest = SameMaps-IsWf s (h.1, hs.1) in
    ((Lacks-SameMaps t s h.0, rest.0), (IsWfGroups-Permᴰ p hs.0, rest.1))
SameMaps-IsWf (SameMaps.swap {t = t} {t' = t'}) (h, hs) =
    (((apart t' t h.0.0, h.1.0), (h.0.1, h.1.1)), (hs.1.0, (hs.0, hs.1.1)))
SameMaps-IsWf (SameMaps.trans p q) h = SameMaps-IsWf q (SameMaps-IsWf p h)
