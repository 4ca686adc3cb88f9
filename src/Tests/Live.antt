-- ===== src/Tests/Live.antt =====
-- The live cache at four reads and a failed recompute.
use btcdwatch_com.Base.{ℕ, ◌≡◌, refl, [], ◌∷◌, none, some, true, arith}
use btcdwatch_com.Base.Map.{is_some}
use btcdwatch_com.Live.{Live, new_live, live_snapshot, refresh_live}
use btcdwatch_com.Live.Flight.{kicks, kicks-single}

-- The payloads are numbers.
abbrev warmed : Live ℕ ℕ ℕ
warmed = refresh_live new_live 1000000000 (some 1) none none

warmed_stats : is_some warmed.data_of.stats ≡ true
unfolding refresh_live new_live
warmed_stats = refl

warmed_kicks : (live_snapshot warmed 7000000000).1 ≡ true
unfolding refresh_live new_live live_snapshot
warmed_kicks = refl

kicks-single_example : kicks warmed (7000000000 ∷ 8000000000 ∷ 90000000000 ∷ 60000000000 ∷ []) ≡ 1
kicks-single_example =
    kicks-single warmed 7000000000 (8000000000 ∷ 90000000000 ∷ 60000000000 ∷ []) warmed_kicks
      (omega arith, (omega arith, (omega arith, tt)))
