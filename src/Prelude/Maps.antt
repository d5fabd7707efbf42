-- ===== src/Prelude/Maps.antt =====
-- A map as the list of its entries, in the order of iteration. The keys are distinct in the code's
-- maps; the laws on `lookup` hold without that.
use message_driven_event_que.Prelude.Tests.{Bool-cases, if◌then◌else◌}
use message_driven_event_que.Prelude.Classes.{Eq, ◌==◌}
use mathlib.Core.Path.{◌≡◌, refl}
use mathlib.Core.Logic.{inl, inr}
use mathlib.Core.Bool.{Bool, false}
use mathlib.Core.List.{List, [], ◌∷◌}
use mathlib.Core.Option.{Option, none, some}
use mathlib.Core.Option
use native.Mathlib.Omega.{arith}

module _ {ℓ κ} {K : Type ℓ} {V : Type κ} ⦃e : Eq K⦄ where
  unfoldable pub lookup : K → List (K × V) → Option V
  lookup k [] = none
  lookup k ((j, v) ∷ m) = if j == k then some v else lookup k m

  -- `erase(it)`: the keys being distinct, this removes the one entry.
  unfoldable pub erase : K → List (K × V) → List (K × V)
  erase k [] = []
  erase k ((j, v) ∷ m) = let rest = erase k m in if j == k then rest else (j, v) ∷ rest

  -- `m[k] = v` of an ordered map: in place of the entry of `k`, or before the first greater key.
  unfoldable pub insert_sorted : (K → K → Bool) → K → V → List (K × V) → List (K × V)
  insert_sorted lt k v [] = (k, v) ∷ []
  insert_sorted lt k v ((j, w) ∷ m) =
      let later = insert_sorted lt k v m in
      if j == k then (k, v) ∷ m else if lt k j then (k, v) ∷ (j, w) ∷ m else (j, w) ∷ later

  -- `f(m[k])`: the entry of `k` is changed in place, or made from `d` if there is none. Where an
  -- unordered map puts a new entry is not specified; here it comes last.
  unfoldable pub upsert : K → V → (V → V) → List (K × V) → List (K × V)
  upsert k d f [] = (k, f d) ∷ []
  upsert k d f ((j, v) ∷ m) = if j == k then (j, f v) ∷ m else (j, v) ∷ upsert k d f m

  pub lookup-upsert :
      (k j : K) (d : V) (f : V → V) (m : List (K × V))
      → lookup j (upsert k d f m)
        ≡ (if k == j then some (f (Option.get_or (lookup k m) d)) else lookup j m)
  unfolding lookup upsert
  lookup-upsert k j d f [] = ground arith
  lookup-upsert k j d f ((i, v) ∷ m) =
      ground (arith, lookup-upsert k j d f m, e.same_iff i k, e.same_iff i j, e.same_iff k j)

  -- Every key once.
  abbrev pub Lacks : K → List (K × V) → Type 0
  Lacks k [] = Unit {0}
  Lacks k ((j, v) ∷ m) = ((j == k) ≡ false) × Lacks k m

  abbrev pub IsMap : List (K × V) → Type 0
  IsMap [] = Unit {0}
  IsMap ((j, v) ∷ m) = Lacks j m × IsMap m

  abbrev pub AllValues {μ} : (V → Type μ) → List (K × V) → Type μ
  AllValues P [] = Unit {μ}
  AllValues P ((j, v) ∷ m) = P v × AllValues P m

  pub lookup-Lacks : (k : K) (m : List (K × V)) → Lacks k m → lookup k m ≡ none
  unfolding lookup
  lookup-Lacks k [] h = refl
  lookup-Lacks k ((j, v) ∷ m) h = ground (arith, lookup-Lacks k m h.1, e.same_iff j k)

  Lacks-upsert :
      (k j : K) (d : V) (f : V → V) (m : List (K × V))
      → (k == j) ≡ false
      → Lacks j m
      → Lacks j (upsert k d f m)
  unfolding upsert
  Lacks-upsert k j d f [] ne h = (ne, tt)
  Lacks-upsert k j d f ((i, v) ∷ m) ne h = ground (arith, Lacks-upsert k j d f m ne h.1)

  pub IsMap-upsert :
      (k : K) (d : V) (f : V → V) (m : List (K × V)) → IsMap m → IsMap (upsert k d f m)
  unfolding upsert
  IsMap-upsert k d f [] h = (tt, tt)
  IsMap-upsert k d f ((i, v) ∷ m) h =
      ground
        (arith, IsMap-upsert k d f m h.1, Lacks-upsert k i d f m, e.same_iff i k, e.same_iff k i)

  pub AllValues-upsert {μ} :
      (P : V → Type μ) (k : K) (d : V) (f : V → V) (m : List (K × V))
      → P (f d)
      → ((v : V) → P v → P (f v))
      → AllValues P m
      → AllValues P (upsert k d f m)
  unfolding upsert
  AllValues-upsert P k d f [] new keep h = (new, tt)
  AllValues-upsert P k d f ((i, v) ∷ m) new keep h = elim (Bool-cases (i == k)) [
    | inl hit ↦ rw hit (keep v h.0, h.1)
    | inr miss ↦ rw miss (h.0, AllValues-upsert P k d f m new keep h.1)
  ]

  pub AllValues-lookup {μ} :
      (P : V → Type μ) (k : K) (d : V) (m : List (K × V))
      → P d
      → AllValues P m
      → P (Option.get_or (lookup k m) d)
  unfolding lookup
  AllValues-lookup P k d [] hd h = hd
  AllValues-lookup P k d ((i, v) ∷ m) hd h = elim (Bool-cases (i == k)) [
    | inl hit ↦ rw hit h.0
    | inr miss ↦ rw miss (AllValues-lookup P k d m hd h.1)
  ]

  pub lookup-erase :
      (k j : K) (m : List (K × V)) → lookup j (erase k m) ≡ (if k == j then none else lookup j m)
  unfolding lookup erase
  lookup-erase k j [] = ground arith
  lookup-erase k j ((i, v) ∷ m) =
      ground (arith, lookup-erase k j m, e.same_iff i k, e.same_iff i j, e.same_iff k j)

  pub lookup-insert_sorted :
      (lt : K → K → Bool) (k j : K) (v : V) (m : List (K × V))
      → lookup j (insert_sorted lt k v m) ≡ (if k == j then some v else lookup j m)
  unfolding lookup insert_sorted
  lookup-insert_sorted lt k j v [] = refl
  lookup-insert_sorted lt k j v ((i, w) ∷ m) =
      ground
        (arith, lookup-insert_sorted lt k j v m, e.same_iff i k, e.same_iff i j, e.same_iff k j)
