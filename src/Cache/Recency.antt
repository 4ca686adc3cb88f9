-- ===== src/Cache/Recency.antt =====
-- internal/explorer/cache.go: the cache as the list of its keys by their last use.
use btcdwatch_com.Base.{
  ℕ, ◌≤◌, ◌≡◌, refl, sym, ◌∙◌, ap, List, [], ◌∷◌, none, true, false, arith, if◌then◌else◌, Eq,
  length, take, take_all, Bool-cases, Option-cases, inl, inr,
}
use btcdwatch_com.Base.Map.{elem, remove, lookup, delete, is_some}
use btcdwatch_com.Cache.Invariant.{IsCoherent, put-IsCoherent}
use btcdwatch_com.Cache.History.{
  Op, gets, puts, clears, call, after, written, after-IsCoherent, put_cases, get-lookup,
  stored_sound,
}
use btcdwatch_com.Cache.{LruCache, new_lru, clear, get, put, move_to_front, drop_back}

module _ {ℓ κ} {K : Type ℓ} {V : Type κ} where
  abbrev pub keys : List (K × V) → List K
  keys [] = []
  keys ((k, v) ∷ m) = k ∷ keys m

  length-keys : (m : List (K × V)) → length (keys m) ≡ length m
  length-keys [] = refl
  length-keys ((k, v) ∷ m) = omega (arith, length-keys m)

  keys-drop_back :
      (x : K × V) (m : List (K × V)) → keys (drop_back (x ∷ m)) ≡ take (length m) (keys (x ∷ m))
  unfolding drop_back
  keys-drop_back (k, v) [] = refl
  keys-drop_back (k, v) ((j, w) ∷ m) = ap (λ ks. k ∷ ks) (keys-drop_back (j, w) m)

module _ {ℓ} {K : Type ℓ} ⦃e : Eq K⦄ where
  remove_absent : (k : K) (ks : List K) → elem k ks ≡ false → remove k ks ≡ ks
  unfolding elem remove
  remove_absent k [] h = refl
  remove_absent k (j ∷ ks) h = ground (arith, h, remove_absent k ks, e.beq_iff j k, e.beq_iff k j)

  abbrev pub used : List K → K → List K
  used ks k = if elem k ks then k ∷ remove k ks else ks

module _ {ℓ κ} {K : Type ℓ} {V : Type κ} ⦃e : Eq K⦄ where
  keys-delete : (k : K) (m : List (K × V)) → keys (delete k m) ≡ remove k (keys m)
  unfolding delete remove
  keys-delete k [] = refl
  keys-delete k ((j, v) ∷ m) = elim (Bool-cases (e.beq j k)) [
    | inl same ↦ rw same (keys-delete k m)
    | inr other ↦ rw other (ap (λ ks. j ∷ ks) (keys-delete k m))
  ]

  elem-keys : (k : K) (m : List (K × V)) → elem k (keys m) ≡ is_some (lookup k m)
  unfolding elem lookup
  elem-keys k [] = refl
  elem-keys k ((j, v) ∷ m) = ground (arith, elem-keys k m, e.beq_iff j k, e.beq_iff k j)

  -- The keys by their last use, the last first: a hit or a `put` brings its key to the front, and all
  -- but the first `cap` are forgotten.
  unfoldable pub recent : ℕ → List (Op K V) → List K
  recent cap [] = []
  recent cap (gets k ∷ os) = used (recent cap os) k
  recent cap (puts k v ∷ os) = take cap (k ∷ remove k (recent cap os))
  recent cap (clears ∷ os) = []

  cap-get : (c : LruCache K V) (k : K) → (get c k).0.cap ≡ c.cap
  unfolding get
  cap-get c k = elim (Bool-cases (elem k c.items)) [
    | inl held ↦ elim (Option-cases (lookup k c.order)) [
      | inl gone ↦ rw (held, gone) refl
      | inr (v, at) ↦ rw (held, at) refl
    ]
    | inr absent ↦ rw absent refl
  ]

  cap-put : (c : LruCache K V) (k : K) (v : V) → (put c k v).cap ≡ c.cap
  cap-put c k v =
      put_cases (λ d. d.cap ≡ c.cap) c k v (λ held. refl) (λ absent room. refl)
        (λ last absent full at. refl)

  cap-after : (cap : ℕ) (os : List (Op K V)) → (after cap os).cap ≡ cap
  unfolding after call new_lru clear
  cap-after cap [] = refl
  cap-after cap (gets k ∷ os) = cap-get (after cap os) k ∙ cap-after cap os
  cap-after cap (puts k v ∷ os) = cap-put (after cap os) k v ∙ cap-after cap os
  cap-after cap (clears ∷ os) = cap-after cap os

  keys-get :
      (c : LruCache K V) (k : K) → IsCoherent c → keys (get c k).0.order ≡ used (keys c.order) k
  unfolding get move_to_front
  keys-get c k i = elim (Option-cases (lookup k c.order)) [
    | inl gone ↦
        let absent : elem k c.items ≡ false = i.indexed k ∙ ap is_some gone in
        let no_key : elem k (keys c.order) ≡ false = elem-keys k c.order ∙ ap is_some gone in
        rw (absent, no_key) refl
    | inr (v, at) ↦
        let held : elem k c.items ≡ true = i.indexed k ∙ ap is_some at in
        let a_key : elem k (keys c.order) ≡ true = elem-keys k c.order ∙ ap is_some at in
        rw (held, at, a_key) (ap (λ ks. k ∷ ks) (keys-delete k c.order))
  ]

  keys-put :
      (c : LruCache K V) (k : K) (v : V)
      → IsCoherent c
      → keys (put c k v).order ≡ take c.cap (k ∷ remove k (keys c.order))
  unfolding move_to_front
  keys-put c k v i =
      put_cases
        (λ d. length d.order ≤ c.cap → keys d.order ≡ take c.cap (k ∷ remove k (keys c.order))) c k
        v
        (λ held few.
          ap (λ ks. k ∷ ks) (keys-delete k c.order)
          ∙ sym (
              take_all c.cap (k ∷ remove k (keys c.order)) (
                omega
                  (arith, few, length-keys (delete k c.order), ap length (keys-delete k c.order)))))
        (λ absent room few. sym (
          rw (remove_absent k (keys c.order) (no_key absent))
            (take_all c.cap (k ∷ keys c.order) (omega (arith, few, length-keys c.order)))))
        (λ last absent full at few.
          let whole : length c.order ≡ c.cap = ground (arith, full, i.bounded) in
          rw (remove_absent k (keys c.order) (no_key absent), ← whole)
            (keys-drop_back (k, v) c.order))
        (put_bounded)
    where
      no_key : elem k c.items ≡ false → elem k (keys c.order) ≡ false
      no_key absent = elem-keys k c.order ∙ sym (i.indexed k) ∙ absent

      put_bounded : length (put c k v).order ≤ c.cap
      put_bounded = omega (arith, (put-IsCoherent c k v i).bounded, cap-put c k v)

  keys-after : (cap : ℕ) (os : List (Op K V)) → keys (after cap os).order ≡ recent cap os
  unfolding after call recent new_lru clear
  keys-after cap [] = refl
  keys-after cap (gets k ∷ os) =
      keys-get (after cap os) k (after-IsCoherent cap os) ∙ ap (λ ks. used ks k) (keys-after cap os)
  keys-after cap (puts k v ∷ os) =
      keys-put (after cap os) k v (after-IsCoherent cap os)
      ∙ rw (cap-after cap os, keys-after cap os) refl
  keys-after cap (clears ∷ os) = refl

  -- After any calls the cache answers a `get` exactly for the keys that are among the `cap` last used,
  -- where each hit and each `put` is a use and a `clear` forgets all, and with the value last put.
  pub get-recent :
      (cap : ℕ) (os : List (Op K V)) (k : K)
      → (get (after cap os) k).1 ≡ (if elem k (recent cap os) then written os k else none)
  get-recent cap os k =
      get-lookup (after cap os) k (after-IsCoherent cap os)
      ∙ elim (Option-cases (lookup k (after cap os).order)) [
        | inl gone ↦
            let no_key : elem k (recent cap os) ≡ false =
              ap (elem k) (sym (keys-after cap os)) ∙ elem-keys k _ ∙ ap is_some gone in
            rw (gone, no_key) refl
        | inr (v, at) ↦
            let a_key : elem k (recent cap os) ≡ true =
              ap (elem k) (sym (keys-after cap os)) ∙ elem-keys k _ ∙ ap is_some at in
            rw (at, a_key) (sym (stored_sound cap os k v at))
      ]
