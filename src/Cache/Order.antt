-- ===== src/Cache/Order.antt =====
-- internal/explorer/cache.go: the list of entries of the cache.
use btcdwatch_com.Base.{
  suc, ◌≤◌, ◌≡◌, refl, List, [], ◌∷◌, none, some, true, arith, if◌then◌else◌, Eq, length,
}
use btcdwatch_com.Base.Map.{lookup, delete, is_some, Distinct}
use btcdwatch_com.Cache.{back, drop_back}

module _ {ℓ κ} {K : Type ℓ} {V : Type κ} ⦃e : Eq K⦄ where
  pub length-delete : (k : K) (m : List (K × V)) → length (delete k m) ≤ length m
  unfolding delete
  length-delete k [] = omega arith
  length-delete k ((j, v) ∷ m) = ground (arith, length-delete k m)

  pub length-delete_held :
      (k : K) (m : List (K × V))
      → is_some (lookup k m) ≡ true
      → suc (length (delete k m)) ≤ length m
  unfolding delete lookup
  length-delete_held k [] h = cc
  length-delete_held k ((j, v) ∷ m) h = ground (arith, length-delete k m, length-delete_held k m)

  pub length-drop_back : (x : K × V) (m : List (K × V)) → length (drop_back (x ∷ m)) ≡ length m
  unfolding drop_back
  length-drop_back x [] = refl
  length-drop_back x (y ∷ m) = omega (arith, length-drop_back y m)

  pub lookup-back :
      (m : List (K × V)) (k : K) (v : V) → back m ≡ some (k, v) → is_some (lookup k m) ≡ true
  unfolding back lookup
  lookup-back [] k v h = cc
  lookup-back ((j, w) ∷ []) k v h = ground (arith, e.beq_iff j k)
  lookup-back ((j, w) ∷ y ∷ m) k v h = ground (arith, lookup-back (y ∷ m) k v h)

  -- Without its last entry the list has lost that key, and no other.
  pub lookup-drop_back :
      (j : K) (m : List (K × V)) (k : K) (v : V)
      → back m ≡ some (k, v)
      → Distinct m
      → lookup j (drop_back m) ≡ (if e.beq k j then none else lookup j m)
  unfolding back drop_back lookup
  lookup-drop_back j [] k v h d = cc
  lookup-drop_back j ((i, w) ∷ []) k v h d = ground (arith, e.beq_iff i j, e.beq_iff k j)
  lookup-drop_back j ((i, w) ∷ y ∷ m) k v h d = ground (
    arith,
    lookup-drop_back j (y ∷ m) k v h d.1,
    lookup-back (y ∷ m) k v h,
    e.beq_iff i j,
    e.beq_iff k j,
  )

  pub drop_back-Distinct :
      (m : List (K × V)) (k : K) (v : V)
      → back m ≡ some (k, v)
      → Distinct m
      → Distinct (drop_back m)
  unfolding back drop_back
  drop_back-Distinct [] k v h d = tt
  drop_back-Distinct ((i, w) ∷ []) k v h d = tt
  drop_back-Distinct ((i, w) ∷ y ∷ m) k v h d =
      ground (arith, lookup-drop_back i (y ∷ m) k v h d.1, drop_back-Distinct (y ∷ m) k v h d.1)

  pub back-cons : (x : K × V) (m : List (K × V)) → (y : K × V) × (back (x ∷ m) ≡ some y)
  unfolding back
  back-cons x [] = (x, refl)
  back-cons x (y ∷ m) = back-cons y m
