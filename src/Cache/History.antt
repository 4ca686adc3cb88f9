-- ===== src/Cache/History.antt =====
-- internal/explorer/cache.go: what the cache returns, over histories of calls.
use btcdwatch_com.Base.{
  ℕ, suc, ◌<◌, ◌≡◌, refl, sym, ◌∙◌, List, [], ◌∷◌, Option, none, some, true, false, arith,
  if◌then◌else◌, ltb, Eq, beq_refl, length, Bool-cases, Option-cases, inl, inr, ◌⊎◌, ◌&&◌, not,
  ◌==◌,
}
use btcdwatch_com.Base.Map.{elem, include, lookup, lookup-delete, Distinct}
use btcdwatch_com.Cache.Order.{lookup-drop_back, lookup-back, back-cons}
use btcdwatch_com.Cache.Invariant.{
  IsCoherent, new_lru-IsCoherent, clear-IsCoherent, get-IsCoherent, put-IsCoherent, absent-lookup,
}
use btcdwatch_com.Cache.{LruCache, new_lru, clear, get, put, evict, move_to_front, back, drop_back}

pub data Op {ℓ κ} (K : Type ℓ) (V : Type κ) : Type (ℓ ⊔ κ) where
  gets : K → Op K V
  puts : K → V → Op K V
  clears : Op K V

module _ {ℓ κ} {K : Type ℓ} {V : Type κ} ⦃e : Eq K⦄ where
  unfoldable pub call : LruCache K V → Op K V → LruCache K V
  call c (gets k) = (get c k).0
  call c (puts k v) = put c k v
  call c clears = clear c

  -- The cache after the calls, newest first.
  unfoldable pub after : ℕ → List (Op K V) → LruCache K V
  unfolding call
  after cap [] = new_lru cap
  after cap (o ∷ os) = call (after cap os) o

  -- The value of the last `put` of the key since the last `clear`.
  abbrev pub written : List (Op K V) → K → Option V
  written [] k = none
  written (gets j ∷ os) k = written os k
  written (puts j v ∷ os) k = if e.beq j k then some v else written os k
  written (clears ∷ os) k = none

  call-IsCoherent : (c : LruCache K V) (o : Op K V) → IsCoherent c → IsCoherent (call c o)
  unfolding call
  call-IsCoherent c (gets k) i = get-IsCoherent c k i
  call-IsCoherent c (puts k v) i = put-IsCoherent c k v i
  call-IsCoherent c clears i = clear-IsCoherent c

  -- After any calls the list has no key twice, the index holds its keys, and the cap is kept.
  pub after-IsCoherent : (cap : ℕ) (os : List (Op K V)) → IsCoherent (after cap os)
  unfolding after
  after-IsCoherent cap [] = new_lru-IsCoherent cap
  after-IsCoherent cap (o ∷ os) = call-IsCoherent (after cap os) o (after-IsCoherent cap os)

  -- A `get` moves an entry, and changes no value.
  pub lookup-get : (c : LruCache K V) (k j : K) → lookup j (get c k).0.order ≡ lookup j c.order
  unfolding get move_to_front lookup
  lookup-get c k j = elim (Bool-cases (elem k c.items)) [
    | inl in_index ↦ elim (Option-cases (lookup k c.order)) [
      | inl gone ↦ rw (in_index, gone)
      | inr (v, at) ↦ rw (in_index, at) (ground (arith, lookup-delete j k c.order, e.beq_iff k j))
    ]
    | inr absent ↦ rw absent
  ]

  lookup-evict :
      (c : LruCache K V) (k : K) (v : V) (last : K × V) (j : K)
      → Distinct ((k, v) ∷ c.order)
      → back ((k, v) ∷ c.order) ≡ some last
      → lookup j (drop_back ((k, v) ∷ c.order))
        ≡ (if e.beq last.0 j then none else lookup j ((k, v) ∷ c.order))
  lookup-evict c k v (i, w) j d at = lookup-drop_back j ((k, v) ∷ c.order) i w at d

  -- What a `put` leaves of the entries: the new value, and of the others all but at most the last.
  pub put_cases {ρ} :
      (P : LruCache K V → Type ρ) (c : LruCache K V) (k : K) (v : V)
      → (elem k c.items ≡ true → P (record c { order = move_to_front k v c.order }))
      → (elem k c.items ≡ false
          → ltb c.cap (suc (length c.order)) ≡ false
          → P (record c { order = (k, v) ∷ c.order; items = include k c.items }))
      → ((last : K × V)
          → elem k c.items ≡ false
          → ltb c.cap (suc (length c.order)) ≡ true
          → back ((k, v) ∷ c.order) ≡ some last
          → P (
              evict (record c { order = (k, v) ∷ c.order; items = include k c.items }) (some last)))
      → P (put c k v)
  unfolding put
  put_cases P c k v known room full = elim (Bool-cases (elem k c.items)) [
    | inl h ↦ rw h (known h)
    | inr h ↦ elim (Bool-cases (ltb c.cap (suc (length c.order)))) [
      | inl f ↦ let (last, at) = back-cons (k, v) c.order in rw (h, f, at) (full last h f at)
      | inr r ↦ rw (h, r) (room h r)
    ]
  ]

  pub put_sound :
      (c : LruCache K V) (k : K) (v : V) (j : K) (w : V)
      → IsCoherent c
      → lookup j (put c k v).order ≡ some w
      → (if e.beq k j then some v else lookup j c.order) ≡ some w
  unfolding move_to_front lookup
  put_sound c k v j w i =
      put_cases
        (λ d. lookup j d.order ≡ some w → (if e.beq k j then some v else lookup j c.order) ≡ some w)
        c k v (λ h s. ground (arith, lookup-delete j k c.order)) (λ h r s. s)
        (λ last h f at s.
          ground (arith, lookup-evict c k v last j (absent-lookup c k i h, i.distinct) at))

  pub stored_sound :
      (cap : ℕ) (os : List (Op K V)) (k : K) (v : V)
      → lookup k (after cap os).order ≡ some v
      → written os k ≡ some v
  unfolding after new_lru clear lookup
  stored_sound cap [] k v h = h
  stored_sound cap (gets j ∷ os) k v h =
      stored_sound cap os k v (sym (lookup-get (after cap os) j k) ∙ h)
  stored_sound cap (puts j u ∷ os) k v h =
      ground (
        arith,
        put_sound (after cap os) j u k v (after-IsCoherent cap os) h,
        stored_sound cap os k v,
      )
  stored_sound cap (clears ∷ os) k v h = h

  pub get-lookup : (c : LruCache K V) (k : K) → IsCoherent c → (get c k).1 ≡ lookup k c.order
  unfolding get
  get-lookup c k i = ground (arith, i.indexed k)

  back-cons_of_back :
      (x last : K × V) (m : List (K × V)) → back m ≡ some last → back (x ∷ m) ≡ some last
  unfolding back
  back-cons_of_back x last [] h = cc
  back-cons_of_back x last (y ∷ m) h = h

  -- A `put` of a new key into a full cache loses the last entry of the list. No other entry is lost or
  -- changed, and the key holds the new value.
  lookup-put :
      (c : LruCache K V) (k : K) (v : V) (last : K × V) (j : K)
      → IsCoherent c
      → back c.order ≡ some last
      → lookup j (put c k v).order ≡ (
          if e.beq k j
          then some v
          else if not (elem k c.items) && length c.order == c.cap && e.beq last.0 j
          then none
          else lookup j c.order)
  unfolding move_to_front lookup
  lookup-put c k v last j i at =
      put_cases
        (λ d. lookup j d.order ≡ (
          if e.beq k j
          then some v
          else if not (elem k c.items) && length c.order == c.cap && e.beq last.0 j
          then none
          else lookup j c.order))
        c k v (λ h. ground (arith, lookup-delete j k c.order, h))
        (λ h r. ground (arith, h, r, i.bounded))
        (λ l h f b. ground (
          arith,
          h,
          f,
          i.bounded,
          b,
          back-cons_of_back (k, v) last c.order at,
          lookup-evict c k v l j (absent-lookup c k i h, i.distinct) b,
          lookup-back c.order last.0 last.1 at,
          absent-lookup c k i h,
          e.beq_iff k j,
          e.beq_iff last.0 j,
        ))

  back_cases : (m : List (K × V)) → (length m ≡ 0) ⊎ ((last : K × V) × (back m ≡ some last))
  back_cases [] = inl refl
  back_cases (x ∷ m) = inr (back-cons x m)

  -- What was put is found, in a cache that can hold anything at all.
  pub get-put :
      (c : LruCache K V) (k : K) (v : V) → IsCoherent c → 0 < c.cap → (get (put c k v) k).1 ≡ some v
  unfolding move_to_front lookup
  get-put c k v i pos =
      get-lookup (put c k v) k (put-IsCoherent c k v i) ∙ elim (back_cases c.order) [
        | inl empty ↦
            put_cases (λ d. lookup k d.order ≡ some v) c k v (λ h. ground (arith, beq_refl e k))
              (λ h r. ground (arith, beq_refl e k))
              (λ last h f at. absurd (ground (arith, f, empty)))
        | inr (last, at) ↦ lookup-put c k v last k i at ∙ ground (arith, beq_refl e k)
      ]
