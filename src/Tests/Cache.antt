-- ===== src/Tests/Cache.antt =====
-- A cache of two entries.
use btcdwatch_com.Base.{ℕ, ◌≡◌, refl, List, [], ◌∷◌, none, some, if◌then◌else◌, arith, nat_eq}
use btcdwatch_com.Base.Map.{elem, lookup, insert, delete, include, remove}
use btcdwatch_com.Cache.{new_lru, get, put, back, move_to_front, drop_back, clear}
use btcdwatch_com.Cache.History.{
  Op, gets, puts, clears, call, after, written, after-IsCoherent, get-put,
}
use btcdwatch_com.Cache.Recency.{recent, get-recent}

-- Newest first: the cache holds 1 and 3, since 1 was used after 2.
abbrev calls : List (Op ℕ ℕ)
calls = puts 3 30 ∷ gets 1 ∷ puts 2 20 ∷ puts 1 10 ∷ clears ∷ []

calls_lem :
    ((get (after 2 calls) 1).1 ≡ some 10)
    × (back (after 2 calls).order ≡ some (1, 10))
    × ((after 2 calls).cap ≡ 2)
unfolding after call get put clear new_lru move_to_front drop_back lookup elem include remove delete
    insert
calls_lem = (refl, refl, refl)

-- Since 1 was used after 2, the `put` of 3 loses 2.
get-recent_example :
    (get (after 2 calls) 2).1 ≡ (if elem 2 (recent 2 calls) then written calls 2 else none)
get-recent_example = get-recent 2 calls 2

calls_recent : recent 2 calls ≡ 3 ∷ 1 ∷ []
unfolding recent elem remove
calls_recent = refl

get-put_example : (get (put (after 2 calls) 4 40) 4).1 ≡ some 40
get-put_example =
    get-put (after 2 calls) 4 40 (after-IsCoherent 2 calls) (omega (arith, calls_lem.2))
