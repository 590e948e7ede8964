-- ===== src/Prelude/Map.antt =====
-- Go's `map`, as an association list. The order of the list is the order in which a `range` visits
-- the keys, which Go leaves open.
use Prim.Native.Nat.{ℕ, ◌+◌}
use mathlib.Core.Path.{◌≡◌, refl}
use mathlib.Core.Logic.{◌≢◌, ◌⊎◌, inl, inr}
use mathlib.Core.List.{List, [], ◌∷◌}
use mathlib.Core.Option.{Option, none, some}
use native.Mathlib.Omega.{arith}
use self_healing_distributed.Prelude.Tests.{Key, ◌==◌, if◌then◌else◌, Bool-cases}

abbrev pub Map {ℓ κ} : Type ℓ → Type κ → Type (ℓ ⊔ κ)
Map K V = List (K × V)

module _ {ℓ κ} {K : Type ℓ} {V : Type κ} ⦃key : Key K⦄ where
  unfoldable pub lookup : K → Map K V → Option V
  lookup k [] = none
  lookup k ((i, w) ∷ rest) = if i == k then some w else lookup k rest

  -- `delete(m, k)`
  unfoldable pub delete : K → Map K V → Map K V
  delete k [] = []
  delete k ((i, w) ∷ rest) = let kept = delete k rest in if i == k then kept else (i, w) ∷ kept

  -- `m[k] = v`
  unfoldable pub insert : K → V → Map K V → Map K V
  insert k v [] = (k, v) ∷ []
  insert k v ((i, w) ∷ rest) = if i == k then (k, v) ∷ rest else (i, w) ∷ insert k v rest

  -- Each key stands once.
  abbrev pub Distinct : Map K V → Type κ
  Distinct [] = Unit
  Distinct ((k, v) ∷ m) = (lookup k m ≡ none) × Distinct m

  pub lookup-delete :
      (k j : K) (m : Map K V) → lookup j (delete k m) ≡ (if k == j then none else lookup j m)
  unfolding lookup delete
  lookup-delete k j [] = ground arith
  lookup-delete k j ((i, w) ∷ m) =
      ground
        (arith, key.equals_iff k j, key.equals_iff i k, key.equals_iff i j, lookup-delete k j m)

  pub lookup-insert :
      (written k : K) (v : V) (m : Map K V)
      → lookup k (insert written v m) ≡ (if written == k then some v else lookup k m)
  unfolding lookup insert
  lookup-insert written k v [] = refl
  lookup-insert written k v ((i, w) ∷ rest) = ground (
    arith,
    lookup-insert written k v rest,
    key.equals_iff i k,
    key.equals_iff i written,
    key.equals_iff written k,
  )

  pub insert-Distinct : (k : K) (v : V) (m : Map K V) → Distinct m → Distinct (insert k v m)
  unfolding insert lookup
  insert-Distinct k v [] d = (refl, tt)
  insert-Distinct k v ((i, w) ∷ m) d = ground (
    arith,
    key.equals_iff i k,
    key.equals_iff k i,
    lookup-insert k i v m,
    insert-Distinct k v m d.1,
  )

  pub delete-Distinct : (k : K) (m : Map K V) → Distinct m → Distinct (delete k m)
  unfolding delete
  delete-Distinct k [] d = tt
  delete-Distinct k ((i, w) ∷ m) d =
      ground (
        arith,
        key.equals_iff i k,
        key.equals_iff k i,
        lookup-delete k i m,
        delete-Distinct k m d.1,
      )

-- The sum of a weight over the entries.
module _ {ℓ κ} {K : Type ℓ} {V : Type κ} (f : V → ℕ) where
  unfoldable pub total : Map K V → ℕ
  total [] = 0
  total ((k, v) ∷ m) = f v + total m

-- The weight of a value that may be missing.
abbrev pub weight {κ} : {V : Type κ} (f : V → ℕ) → Option V → ℕ
weight f none = 0
weight f (some v) = f v

module _ {ℓ κ} {K : Type ℓ} {V : Type κ} ⦃key : Key K⦄ (f : V → ℕ) where
  pub total-insert :
      (k : K) (v : V) (m : Map K V)
      → total f (insert k v m) + weight f (lookup k m) ≡ total f m + f v
  unfolding total insert lookup
  total-insert k v [] = omega arith
  total-insert k v ((j, w) ∷ m) = ground (arith, total-insert k v m)

  pub total-delete :
      (k : K) (m : Map K V) → Distinct m → total f (delete k m) + weight f (lookup k m) ≡ total f m
  unfolding total delete lookup
  total-delete k [] d = omega arith
  total-delete k ((j, w) ∷ m) d = ground (arith, key.equals_iff j k, total-delete k m d.1)

module _ {ℓ κ} {K : Type ℓ} {V : Type κ} ⦃key : Key K⦄ where
  pub lookup-insert_self : (k : K) (v : V) (m : Map K V) → lookup k (insert k v m) ≡ some v
  lookup-insert_self k v m = ground (arith, lookup-insert k k v m, key.equals_iff k k)

  pub lookup-insert_ne :
      (k j : K) (v : V) (m : Map K V) → k ≢ j → lookup j (insert k v m) ≡ lookup j m
  lookup-insert_ne k j v m h = ground (arith, lookup-insert k j v m, key.equals_iff k j)

  pub lookup-delete_self : (k : K) (m : Map K V) → lookup k (delete k m) ≡ none
  lookup-delete_self k m = ground (arith, lookup-delete k k m, key.equals_iff k k)

  pub lookup-delete_ne : (k j : K) (m : Map K V) → k ≢ j → lookup j (delete k m) ≡ lookup j m
  lookup-delete_ne k j m h = ground (arith, lookup-delete k j m, key.equals_iff k j)

  -- A lookup that hits after a deletion is of another key, and hit before.
  pub some-lookup-delete :
      (k j : K) (v : V) (m : Map K V)
      → lookup j (delete k m) ≡ some v
      → (k ≢ j) × (lookup j m ≡ some v)
  some-lookup-delete k j v m h = (
    (λ p. ground (arith, lookup-delete k j m, key.equals_iff k j)),
    ground (arith, lookup-delete k j m, key.equals_iff k j),
  )

  -- Where a hit after an insertion, or below a new head, comes from.
  pub lookup-insert_cases :
      (k j : K) (v w : V) (m : Map K V)
      → lookup j (insert k v m) ≡ some w
      → ((k ≡ j) × (v ≡ w)) ⊎ ((k ≢ j) × (lookup j m ≡ some w))
  lookup-insert_cases k j v w m h = elim (Bool-cases (k == j)) [
    | inl same ↦ inl ((key.equals_iff k j).0 same, ground (arith, lookup-insert k j v m))
    | inr other ↦
        inr ((λ p. ground (arith, key.equals_iff k j)), ground (arith, lookup-insert k j v m))
  ]

  pub lookup-cons_cases :
      (k j : K) (v w : V) (m : Map K V)
      → lookup j ((k, v) ∷ m) ≡ some w
      → ((k ≡ j) × (v ≡ w)) ⊎ ((k ≢ j) × (lookup j m ≡ some w))
  unfolding lookup
  lookup-cons_cases k j v w m h = elim (Bool-cases (k == j)) [
    | inl same ↦ inl ((key.equals_iff k j).0 same, ground arith)
    | inr other ↦ inr ((λ p. ground (arith, key.equals_iff k j)), ground arith)
  ]

  pub lookup-cons_self : (k : K) (v : V) (m : Map K V) → lookup k ((k, v) ∷ m) ≡ some v
  unfolding lookup
  lookup-cons_self k v m = ground (arith, key.equals_iff k k)

  pub lookup-cons_ne : (k j : K) (v : V) (m : Map K V) → k ≢ j → lookup j ((k, v) ∷ m) ≡ lookup j m
  unfolding lookup
  lookup-cons_ne k j v m h = ground (arith, key.equals_iff k j)

  -- What an insertion overwrites may as well be deleted first.
  pub lookup-insert-delete :
      (k j : K) (v : V) (m : Map K V) → lookup j (insert k v m) ≡ lookup j (insert k v (delete k m))
  lookup-insert-delete k j v m =
      ground (arith, lookup-insert k j v m, lookup-insert k j v (delete k m), lookup-delete k j m)

  pub delete-cons_ne :
      (k j : K) (v : V) (m : Map K V) → j ≢ k → delete k ((j, v) ∷ m) ≡ (j, v) ∷ delete k m
  unfolding delete
  delete-cons_ne k j v m h = ground (arith, key.equals_iff j k)

  -- A deletion of a key that is not there changes nothing.
  pub delete_absent : (k : K) (m : Map K V) → lookup k m ≡ none → delete k m ≡ m
  unfolding delete lookup
  delete_absent k [] h = refl
  delete_absent k ((j, v) ∷ m) h = ground (arith, delete_absent k m)

module _ {ℓ κ} {K : Type ℓ} {V : Type κ} ⦃key : Key K⦄ (f : V → ℕ) where
  pub total_empty : (m : Map K V) → ((k : K) → lookup k m ≡ none) → total f m ≡ 0
  unfolding total lookup
  total_empty [] h = refl
  total_empty ((k, v) ∷ m) h = absurd (ground (arith, h k, key.equals_iff k k))

  -- A map with one key at most weighs what stands there.
  pub total_single :
      (k : K) (m : Map K V)
      → Distinct m
      → ((j : K) (v : V) → lookup j m ≡ some v → k ≡ j)
      → total f m ≡ weight f (lookup k m)
  total_single k m d only =
      let rest : total f (delete k m) ≡ 0 =
        total_empty (delete k m) (λ j. gone j (lookup j (delete k m)) refl) in
      omega (arith, rest, total-delete f k m d)
    where
      gone : (j : K) (o : Option V) → lookup j (delete k m) ≡ o → lookup j (delete k m) ≡ none
      gone j none p = p
      gone j (some v) p = let (ne, q) = some-lookup-delete k j v m p in absurd (ne (only j v q))
