-- ===== src/Common/Keys.antt =====
-- Keys that Go compares by `==`, and Go's maps as association lists. The iteration order of a
-- map is not fixed by Go: the order of the list stands for the one that a run happens to take.
use mathlib.Core.Bool.{Bool, false, true, ◌||◌}
use mathlib.Core.List.{List, [], ◌∷◌}
use mathlib.Core.Logic.{inl, inr, ◌↔◌, ◌≢◌, ◌⊎◌}
use mathlib.Core.Option.{Option, none, some}
use mathlib.Core.Path.{refl, ◌≡◌}
use native.Mathlib.Omega.{arith}
use s_ingress.Common.Tests.{Bool-cases, if◌then◌else◌}
use s_ingress.Common.Lists.{In, here, there}

pub record Comparable {ℓ} (A : Type ℓ) : Type ℓ where
  pub beq : A → A → Bool
  pub beq_iff : (x y : A) → (beq x y ≡ true) ↔ (x ≡ y)

infix 50 ◌==◌
abbrev pub ◌==◌ {ℓ} : {A : Type ℓ} ⦃e : Comparable A⦄ → A → A → Bool
◌==◌ ⦃e⦄ = e.beq

abbrev pub Map {ℓ κ} : Type ℓ → Type κ → Type (ℓ ⊔ κ)
Map K V = List (K × V)

module _ {ℓ} {K : Type ℓ} ⦃e : Comparable K⦄ where
  -- `slices.Contains`
  abbrev pub contains : List K → K → Bool
  contains [] a = false
  contains (x ∷ xs) a = x == a || contains xs a

  pub contains-In : (xs : List K) (a : K) → contains xs a ≡ true → In a xs
  contains-In (x ∷ xs) a h = elim (Bool-cases (e.beq x a)) [
    | inl same ↦ let p : x ≡ a = (e.beq_iff x a).0 same in rw p here
    | inr other ↦ there (contains-In xs a (ground (arith, other)))
  ]
  contains-In [] a h = cc

  pub In-contains : {a : K} {xs : List K} → In a xs → contains xs a ≡ true
  In-contains {a} here = let p : e.beq a a ≡ true = (e.beq_iff a a).1 refl in rw p refl
  In-contains (there m) = ground (arith, In-contains m)

module _ {ℓ κ} {K : Type ℓ} {V : Type κ} ⦃e : Comparable K⦄ where
  -- `v, ok := m[k]`
  unfoldable pub lookup : K → Map K V → Option V
  lookup k [] = none
  lookup k ((j, v) ∷ m) = if j == k then some v else lookup k m

  -- `m[k] = v`
  unfoldable pub insert : K → V → Map K V → Map K V
  insert k v [] = (k, v) ∷ []
  insert k v ((j, w) ∷ m) = if j == k then (k, v) ∷ m else (j, w) ∷ insert k v m

  -- `delete(m, k)`
  unfoldable pub delete : K → Map K V → Map K V
  delete k [] = []
  delete k ((j, v) ∷ m) = let rest = delete k m in if j == k then rest else (j, v) ∷ rest

  pub lookup-insert :
      (new key : K) (v : V) (m : Map K V)
      → lookup key (insert new v m) ≡ (if new == key then some v else lookup key m)
  unfolding lookup insert
  lookup-insert new key v [] = refl
  lookup-insert new key v ((i, w) ∷ m) =
      ground (arith, lookup-insert new key v m, e.beq_iff i new, e.beq_iff i key, e.beq_iff new key)

  pub lookup-delete :
      (k j : K) (m : Map K V) → lookup j (delete k m) ≡ (if k == j then none else lookup j m)
  unfolding lookup delete
  lookup-delete k j [] = ground arith
  lookup-delete k j ((i, v) ∷ m) =
      ground (arith, lookup-delete k j m, e.beq_iff i k, e.beq_iff i j, e.beq_iff k j)

pub beq_refl {ℓ} : {K : Type ℓ} ⦃e : Comparable K⦄ (k : K) → e.beq k k ≡ true
beq_refl ⦃e⦄ k = (e.beq_iff k k).1 refl

pub beq_ne {ℓ} : {K : Type ℓ} ⦃e : Comparable K⦄ (j k : K) → j ≢ k → e.beq j k ≡ false
beq_ne ⦃e⦄ j k h = ground (arith, e.beq_iff j k)

module _ {ℓ κ} {K : Type ℓ} {V : Type κ} ⦃e : Comparable K⦄ where
  pub lookup-insert_same : (k : K) (v : V) (m : Map K V) → lookup k (insert k v m) ≡ some v
  lookup-insert_same k v m = rw (lookup-insert k k v m, beq_refl k) refl

  pub lookup-delete_same : (k : K) (m : Map K V) → lookup k (delete k m) ≡ none
  lookup-delete_same k m = rw (lookup-delete k k m, beq_refl k) refl

  -- What an insertion leaves at a key: the new value at its own, the old one elsewhere.
  pub lookup-insert_cases :
      (k j : K) (v : V) (m : Map K V)
      → ((k ≡ j) × (lookup j (insert k v m) ≡ some v)) ⊎ (lookup j (insert k v m) ≡ lookup j m)
  lookup-insert_cases k j v m = elim (Bool-cases (e.beq k j)) [
    | inl same ↦ inl ((e.beq_iff k j).0 same, rw (lookup-insert k j v m, same) refl)
    | inr other ↦ inr (rw (lookup-insert k j v m, other) refl)
  ]

  pub lookup-delete_cases :
      (k j : K) (m : Map K V)
      → (lookup j (delete k m) ≡ none) ⊎ (lookup j (delete k m) ≡ lookup j m)
  lookup-delete_cases k j m = elim (Bool-cases (e.beq k j)) [
    | inl same ↦ inl (rw (lookup-delete k j m, same) refl)
    | inr other ↦ inr (rw (lookup-delete k j m, other) refl)
  ]
