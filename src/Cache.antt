-- ===== src/Cache.antt =====
-- internal/explorer/cache.go: the LRU cache of prevouts, headers and address totals. `order` is the
-- linked list of entries, most recent first, and `items` the index from a key to its element. Each
-- element is made by `put` for one key, which is never written again, so the index is a set of keys
-- and stands for the map to the element that holds the key. The mutex makes each call one step.
pub mod Order
pub mod Invariant
pub mod History
pub mod Recency
use btcdwatch_com.Base.{
  ℕ, List, [], ◌∷◌, Option, none, some, Bool, true, false, if◌then◌else◌, ltb, Eq, length,
}
use btcdwatch_com.Base.Map.{elem, remove, include, lookup, delete}

pub record LruCache {ℓ κ} (K : Type ℓ) (V : Type κ) : Type (ℓ ⊔ κ) where
  pub cap : ℕ
  pub order : List (K × V)
  pub items : List K

module _ {ℓ κ} {K : Type ℓ} {V : Type κ} where
  unfoldable pub new_lru : ℕ → LruCache K V
  new_lru capacity = record { cap = capacity; order = []; items = [] }

  unfoldable pub clear : LruCache K V → LruCache K V
  clear c = record c { order = []; items = [] }

  -- `order.Back()`.
  unfoldable pub back : List (K × V) → Option (K × V)
  back [] = none
  back (x ∷ []) = some x
  back (x ∷ y ∷ xs) = back (y ∷ xs)

  -- `order.Remove(order.Back())`.
  unfoldable pub drop_back : List (K × V) → List (K × V)
  drop_back [] = []
  drop_back (x ∷ []) = []
  drop_back (x ∷ y ∷ xs) = x ∷ drop_back (y ∷ xs)

module _ {ℓ κ} {K : Type ℓ} {V : Type κ} ⦃e : Eq K⦄ where
  -- `order.MoveToFront(el)`, where the element of `k` now holds `v`.
  unfoldable pub move_to_front : K → V → List (K × V) → List (K × V)
  move_to_front k v order = (k, v) ∷ delete k order

  abbrev pub get_found : LruCache K V → K → Option V → LruCache K V × Option V
  get_found c k none = (c, none)
  get_found c k (some v) = (record c { order = move_to_front k v c.order }, some v)

  unfoldable pub get : LruCache K V → K → LruCache K V × Option V
  get c k = if elem k c.items then get_found c k (lookup k c.order) else (c, none)

  abbrev pub evict : LruCache K V → Option (K × V) → LruCache K V
  evict c none = c
  evict c (some (k, v)) = record c { order = drop_back c.order; items = remove k c.items }

  unfoldable pub put : LruCache K V → K → V → LruCache K V
  unfolding back
  put c k v =
      if elem k c.items
      then record c { order = move_to_front k v c.order }
      else let d = record c { order = (k, v) ∷ c.order; items = include k c.items } in
        if ltb c.cap (length d.order) then evict d (back d.order) else d
