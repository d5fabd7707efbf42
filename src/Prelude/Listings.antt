-- ===== src/Prelude/Listings.antt =====
-- Two listings of one map: the same entries in another order.
use message_driven_event_que.Prelude.Tests.{Bool-cases}
use message_driven_event_que.Prelude.Classes.{Eq, ◌==◌}
use message_driven_event_que.Prelude.Maps.{upsert, Lacks, IsMap, AllValues}
use mathlib.Core.Path.{◌≡◌, refl, subst}
use mathlib.Core.Logic.{inl, inr}
use mathlib.Core.Bool.{false}
use mathlib.Core.List.{List, [], ◌∷◌, ◌++◌, Permᴰ}
use mathlib.Core.List.Permᴰ
use native.Mathlib.Omega.{arith}

module _ {ℓ} {A : Type ℓ} where
  -- Two blocks of a list change places.
  pub exchange : (xs ys zs : List A) → Permᴰ (xs ++ (ys ++ zs)) (ys ++ (xs ++ zs))
  exchange [] ys zs = Permᴰ.refl (ys ++ zs)
  exchange (x ∷ xs) ys zs =
      Permᴰ.trans (Permᴰ.cons refl (exchange xs ys zs)) (Permᴰ.symm (Permᴰ.middle x ys (xs ++ zs)))

  pub both : {xs xs' ys ys' : List A} → Permᴰ xs xs' → Permᴰ ys ys' → Permᴰ (xs ++ ys) (xs' ++ ys')
  both {xs' = xs'} {ys = ys} p q = Permᴰ.trans (Permᴰ.append_right ys p) (Permᴰ.append_left xs' q)

  pub of_eq : {xs ys : List A} → xs ≡ ys → Permᴰ xs ys
  of_eq {xs = xs} e = subst (λ zs. Permᴰ xs zs) e (Permᴰ.refl xs)

module _ {ℓ} {K : Type ℓ} ⦃e : Eq K⦄ where
  apart : (j k : K) → (j == k) ≡ false → (k == j) ≡ false
  apart j k h = ground (arith, e.same_iff j k, e.same_iff k j)

module _ {ℓ κ} {K : Type ℓ} {V : Type κ} ⦃e : Eq K⦄ where
  pub AllValues-Permᴰ {μ} :
      (P : V → Type μ) {m m' : List (K × V)} → Permᴰ m m' → AllValues P m → AllValues P m'
  AllValues-Permᴰ P Permᴰ.nil h = tt
  AllValues-Permᴰ P (Permᴰ.cons a p) h =
      (subst (λ (x : K × V). P x.1) a h.0, AllValues-Permᴰ P p h.1)
  AllValues-Permᴰ P (Permᴰ.swap a b) h =
      (subst (λ (x : K × V). P x.1) b h.1.0, (subst (λ (x : K × V). P x.1) a h.0, h.1.1))
  AllValues-Permᴰ P (Permᴰ.trans p q) h = AllValues-Permᴰ P q (AllValues-Permᴰ P p h)

  pub Lacks-Permᴰ : (k : K) {m m' : List (K × V)} → Permᴰ m m' → Lacks k m → Lacks k m'
  Lacks-Permᴰ k Permᴰ.nil h = tt
  Lacks-Permᴰ k (Permᴰ.cons a p) h =
      (subst (λ (x : K × V). (x.0 == k) ≡ false) a h.0, Lacks-Permᴰ k p h.1)
  Lacks-Permᴰ k (Permᴰ.swap a b) h = (
    subst (λ (x : K × V). (x.0 == k) ≡ false) b h.1.0,
    (subst (λ (x : K × V). (x.0 == k) ≡ false) a h.0, h.1.1),
  )
  Lacks-Permᴰ k (Permᴰ.trans p q) h = Lacks-Permᴰ k q (Lacks-Permᴰ k p h)

  -- A reordering keeps every key once.
  pub IsMap-Permᴰ : {m m' : List (K × V)} → Permᴰ m m' → IsMap m → IsMap m'
  IsMap-Permᴰ Permᴰ.nil h = tt
  IsMap-Permᴰ (Permᴰ.cons {l₂ = l₂} a p) h =
      (subst (λ (x : K × V). Lacks x.0 l₂) a (Lacks-Permᴰ _ p h.0), IsMap-Permᴰ p h.1)
  IsMap-Permᴰ (Permᴰ.swap {a = x} {b = y} {b' = x''} {l = l} a b) h =
      subst (λ (y' : K × V). IsMap (y' ∷ x'' ∷ l)) b
        (subst (λ (x' : K × V). IsMap (y ∷ x' ∷ l)) a
          ((apart y.0 x.0 h.0.0, h.1.0), (h.0.1, h.1.1)))
  IsMap-Permᴰ (Permᴰ.trans p q) h = IsMap-Permᴰ q (IsMap-Permᴰ p h)

  -- Changing or adding the entry of one key is the same on every listing.
  pub upsert-Permᴰ :
      (k : K) (d : V) (f : V → V) {m m' : List (K × V)}
      → Permᴰ m m'
      → IsMap m
      → Permᴰ (upsert k d f m) (upsert k d f m')
  unfolding upsert
  upsert-Permᴰ k d f Permᴰ.nil h = Permᴰ.refl _
  upsert-Permᴰ k d f (Permᴰ.cons {a = x} {l₁ = l} {l₂ = l'} a p) h =
      subst (λ (x' : K × V). Permᴰ (upsert k d f (x ∷ l)) (upsert k d f (x' ∷ l'))) a
        (elim (Bool-cases (x.0 == k)) [
          | inl hit ↦ rw hit (Permᴰ.cons refl p)
          | inr miss ↦ rw miss (Permᴰ.cons refl (upsert-Permᴰ k d f p h.1))
        ])
  upsert-Permᴰ k d f (Permᴰ.swap {a = x} {b = y} {b' = x''} {l = l} a b) h =
      subst (λ (y' : K × V). Permᴰ (upsert k d f (x ∷ y ∷ l)) (upsert k d f (y' ∷ x'' ∷ l))) b
        (subst (λ (x' : K × V). Permᴰ (upsert k d f (x ∷ y ∷ l)) (upsert k d f (y ∷ x' ∷ l))) a
          (elim (Bool-cases (x.0 == k)) [
            | inl hit ↦
                let other : (y.0 == k) ≡ false = ground (arith, h.0.0, e.same_iff x.0 k) in
                rw (hit, other) (Permᴰ.swap refl refl)
            | inr miss ↦ elim (Bool-cases (y.0 == k)) [
              | inl hit ↦ rw (miss, hit) (Permᴰ.swap refl refl)
              | inr miss' ↦ rw (miss, miss') (Permᴰ.swap refl refl)
            ]
          ]))
  upsert-Permᴰ k d f (Permᴰ.trans p q) h =
      Permᴰ.trans (upsert-Permᴰ k d f p h) (upsert-Permᴰ k d f q (IsMap-Permᴰ p h))
