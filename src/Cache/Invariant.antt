-- ===== src/Cache/Invariant.antt =====
-- internal/explorer/cache.go: the index and the list agree, and the size is bounded.
use btcdwatch_com.Base.{
  ℕ, suc, ◌≤◌, ◌≡◌, refl, sym, ◌∙◌, ◌∷◌, none, some, true, false, arith, ltb, Eq, length,
  Bool-cases, Option-cases, inl, inr,
}
use btcdwatch_com.Base.Map.{
  elem, include, lookup, elem-include, elem-remove, lookup-delete, lookup-delete_self, is_some,
  Distinct, delete-Distinct,
}
use btcdwatch_com.Cache.Order.{
  length-delete_held, length-drop_back, lookup-drop_back, drop_back-Distinct, back-cons,
}
use btcdwatch_com.Cache.{LruCache, new_lru, clear, get, put, evict, move_to_front, back}

module _ {ℓ κ} {K : Type ℓ} {V : Type κ} ⦃e : Eq K⦄ where
  -- The list holds no key twice, the index holds the keys of the list, and neither passes the cap.
  pub record IsCoherent (c : LruCache K V) : Type (ℓ ⊔ κ) where
    pub distinct : Distinct c.order
    pub indexed : (k : K) → elem k c.items ≡ is_some (lookup k c.order)
    pub bounded : length c.order ≤ c.cap

  pub new_lru-IsCoherent : (capacity : ℕ) → IsCoherent (new_lru capacity)
  unfolding new_lru lookup elem
  new_lru-IsCoherent n = record { distinct = tt; indexed = λ k. refl; bounded = omega arith }

  pub clear-IsCoherent : (c : LruCache K V) → IsCoherent (clear c)
  unfolding clear lookup elem
  clear-IsCoherent c = record { distinct = tt; indexed = λ k. refl; bounded = omega arith }

  -- An entry that is held, moved to the front with a value.
  move-IsCoherent :
      (c : LruCache K V) (k : K) (v : V)
      → IsCoherent c
      → is_some (lookup k c.order) ≡ true
      → IsCoherent (record c { order = move_to_front k v c.order })
  unfolding move_to_front lookup
  move-IsCoherent c k v i h = record {
    distinct = (lookup-delete_self k c.order, delete-Distinct k c.order i.distinct);
    indexed = λ j. ground (arith, i.indexed j, lookup-delete j k c.order, e.beq_iff k j);
    bounded = omega (arith, length-delete_held k c.order h, i.bounded);
  }

  pub get-IsCoherent : (c : LruCache K V) (k : K) → IsCoherent c → IsCoherent (get c k).0
  unfolding get
  get-IsCoherent c k i = elim (Bool-cases (elem k c.items)) [
    | inl in_index ↦ elim (Option-cases (lookup k c.order)) [
      | inl gone ↦ rw (in_index, gone) i
      | inr (v, at) ↦ rw (in_index, at) (move-IsCoherent c k v i (rw at))
    ]
    | inr absent ↦ rw absent i
  ]

  -- The cache with a new entry at the front, before the eviction.
  pub grown : LruCache K V → K → V → LruCache K V
  grown c k v = record c { order = (k, v) ∷ c.order; items = include k c.items }

  pub absent-lookup :
      (c : LruCache K V) (k : K) → IsCoherent c → elem k c.items ≡ false → lookup k c.order ≡ none
  absent-lookup c k i h = ground (arith, i.indexed k)

  grown-indexed :
      (c : LruCache K V) (k : K) (v : V)
      → IsCoherent c
      → (j : K) → elem j (include k c.items) ≡ is_some (lookup j ((k, v) ∷ c.order))
  unfolding lookup
  grown-indexed c k v i j = ground (arith, i.indexed j, elem-include j k c.items)

  evict-IsCoherent :
      (c : LruCache K V) (k : K) (v : V) (last : K × V)
      → IsCoherent c
      → elem k c.items ≡ false
      → back ((k, v) ∷ c.order) ≡ some last
      → IsCoherent (evict (grown c k v) (some last))
  unfolding grown
  evict-IsCoherent c k v (j, w) i h at =
      let d : Distinct ((k, v) ∷ c.order) = (absent-lookup c k i h, i.distinct) in
      record {
        distinct = drop_back-Distinct ((k, v) ∷ c.order) j w at d;
        indexed = λ a. ground (
          arith,
          elem-remove a j (include k c.items),
          grown-indexed c k v i a,
          lookup-drop_back a ((k, v) ∷ c.order) j w at d,
        );
        bounded = omega (arith, length-drop_back (k, v) c.order, i.bounded);
      }

  -- Whatever is put, the index and the list stay in agreement and the cap holds.
  pub put-IsCoherent : (c : LruCache K V) (k : K) (v : V) → IsCoherent c → IsCoherent (put c k v)
  unfolding put grown
  put-IsCoherent c k v i = elim (Bool-cases (elem k c.items)) [
    | inl in_index ↦ rw in_index (move-IsCoherent c k v i (sym (i.indexed k) ∙ in_index))
    | inr absent ↦ rw absent (elim (Bool-cases (ltb c.cap (suc (length c.order)))) [
      | inl full ↦
          let (last, at) = back-cons (k, v) c.order in
          rw (full, at) (evict-IsCoherent c k v last i absent at)
      | inr room ↦ rw room (record {
        distinct = (absent-lookup c k i absent, i.distinct);
        indexed = grown-indexed c k v i;
        bounded = ground arith;
      })
    ])
  ]
