-- ===== src/Base/Map.antt =====
-- Go's `map[K]V` as an association list; the order of the list is one order of iteration.
use Prim.Native.Nat.{suc, ◌≤◌}
use mathlib.Core.Path.{◌≡◌, refl}
use mathlib.Core.Bool.{Bool, true, false, ◌||◌}
use mathlib.Core.Option.{Option, none, some}
use mathlib.Core.List.{List, [], ◌∷◌}
use native.Mathlib.Omega.{arith}
use btcdwatch_com.Base.Tests.{if◌then◌else◌}
use btcdwatch_com.Base.Lists.{length}
use btcdwatch_com.Base.Classes.{Eq, beq_refl}

abbrev pub is_some {ℓ} : {V : Type ℓ} → Option V → Bool
is_some none = false
is_some (some v) = true

-- What is left of a value that has to pass a test.
abbrev pub keep_if {ℓ} : {V : Type ℓ} → (V → Bool) → Option V → Option V
keep_if p none = none
keep_if p (some v) = if p v then some v else none

module _ {ℓ} {K : Type ℓ} ⦃e : Eq K⦄ where
  -- Membership in a set of keys.
  unfoldable pub elem : K → List K → Bool
  elem k [] = false
  elem k (j ∷ js) = e.beq j k || elem k js

  -- `delete(set, k)`.
  unfoldable pub remove : K → List K → List K
  remove k [] = []
  remove k (j ∷ js) = if e.beq j k then remove k js else j ∷ remove k js

  -- `set[k] = true`.
  unfoldable pub include : K → List K → List K
  unfolding elem
  include k js = if elem k js then js else k ∷ js

  pub elem-remove :
      (j k : K) (js : List K) → elem j (remove k js) ≡ (if e.beq k j then false else elem j js)
  unfolding elem remove
  elem-remove j k [] = ground arith
  elem-remove j k (i ∷ js) =
      ground (arith, elem-remove j k js, e.beq_iff k j, e.beq_iff i k, e.beq_iff i j)

  pub elem-include :
      (j k : K) (js : List K) → elem j (include k js) ≡ (if e.beq k j then true else elem j js)
  unfolding elem include
  elem-include j k js = ground (arith, e.beq_iff k j)

  pub length-include :
      (k : K) (js : List K)
      → length (include k js) ≡ (if elem k js then length js else suc (length js))
  unfolding include
  length-include k js = ground arith

  pub length-remove : (k : K) (js : List K) → length (remove k js) ≤ length js
  unfolding remove
  length-remove k [] = omega arith
  length-remove k (j ∷ js) = ground (arith, length-remove k js)

module _ {ℓ κ} {K : Type ℓ} {V : Type κ} where
  -- The map without the entries that fail a test.
  unfoldable pub retain : (V → Bool) → List (K × V) → List (K × V)
  retain p [] = []
  retain p ((k, v) ∷ m) = if p v then (k, v) ∷ retain p m else retain p m

module _ {ℓ κ} {K : Type ℓ} {V : Type κ} ⦃e : Eq K⦄ where
  unfoldable pub lookup : K → List (K × V) → Option V
  lookup k [] = none
  lookup k ((j, v) ∷ m) = if e.beq j k then some v else lookup k m

  unfoldable pub insert : K → V → List (K × V) → List (K × V)
  insert k v [] = (k, v) ∷ []
  insert k v ((j, w) ∷ m) = if e.beq j k then (k, v) ∷ m else (j, w) ∷ insert k v m

  unfoldable pub delete : K → List (K × V) → List (K × V)
  delete k [] = []
  delete k ((j, v) ∷ m) = if e.beq j k then delete k m else (j, v) ∷ delete k m

  pub lookup-insert :
      (j k : K) (v : V) (m : List (K × V))
      → lookup j (insert k v m) ≡ (if e.beq k j then some v else lookup j m)
  unfolding lookup insert
  lookup-insert j k v [] = refl
  lookup-insert j k v ((i, w) ∷ m) =
      ground (arith, lookup-insert j k v m, e.beq_iff k j, e.beq_iff i k, e.beq_iff i j)

  pub lookup-delete :
      (j k : K) (m : List (K × V))
      → lookup j (delete k m) ≡ (if e.beq k j then none else lookup j m)
  unfolding lookup delete
  lookup-delete j k [] = ground arith
  lookup-delete j k ((i, w) ∷ m) =
      ground (arith, lookup-delete j k m, e.beq_iff k j, e.beq_iff i k, e.beq_iff i j)

  pub lookup-delete_self : (k : K) (m : List (K × V)) → lookup k (delete k m) ≡ none
  lookup-delete_self k m = ground (arith, lookup-delete k k m, beq_refl e k)

  -- No key stands twice.
  abbrev pub Distinct : List (K × V) → Type κ
  Distinct [] = Unit
  Distinct ((k, v) ∷ m) = (lookup k m ≡ none) × Distinct m

  pub delete-Distinct : (k : K) (m : List (K × V)) → Distinct m → Distinct (delete k m)
  unfolding delete
  delete-Distinct k [] d = tt
  delete-Distinct k ((j, v) ∷ m) d = ground (arith, delete-Distinct k m d.1, lookup-delete j k m)

  pub insert-Distinct : (k : K) (v : V) (m : List (K × V)) → Distinct m → Distinct (insert k v m)
  unfolding insert lookup
  insert-Distinct k v [] d = (refl, tt)
  insert-Distinct k v ((j, w) ∷ m) d =
      ground (arith, insert-Distinct k v m d.1, lookup-insert j k v m, e.beq_iff j k, e.beq_iff k j)

  pub lookup-retain :
      (k : K) (p : V → Bool) (m : List (K × V))
      → Distinct m
      → lookup k (retain p m) ≡ keep_if p (lookup k m)
  unfolding retain lookup
  lookup-retain k p [] d = refl
  lookup-retain k p ((j, w) ∷ m) d = ground (arith, lookup-retain k p m d.1, e.beq_iff j k)

  pub retain-Distinct : (p : V → Bool) (m : List (K × V)) → Distinct m → Distinct (retain p m)
  unfolding retain
  retain-Distinct p [] d = tt
  retain-Distinct p ((j, w) ∷ m) d =
      ground (arith, retain-Distinct p m d.1, lookup-retain j p m d.1)
