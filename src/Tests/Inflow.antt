-- ===== src/Tests/Inflow.antt =====
-- The inflow counter at three events, over a minute apart in all.
use btcdwatch_com.Base.{ℕ, ◌*◌, ◌≡◌, refl, List, [], ◌∷◌, map, some, arith}
use btcdwatch_com.Inflow.{second, rotate, slot_of, noted, rate, rate_per_min, window, note, new}
use btcdwatch_com.Inflow.Window.{recent}
use btcdwatch_com.Inflow.Counter.{rate_per_min-recent}
use btcdwatch_com.Tests.Doubles.{milli}

-- Newest first.
abbrev seen : List ℕ
seen = 100 * second ∷ 95 * second ∷ 20 * second ∷ []

seen_started : (noted seen).started ≡ some (20 * second)
unfolding noted note new rotate
seen_started = refl

rate_per_min-recent_example :
    (rate_per_min milli (noted seen) (101 * second)).1
    ≡ rate milli
        (recent (slot_of (101 * second)) (map slot_of seen))
        (window (20 * second) (101 * second))
rate_per_min-recent_example =
    rate_per_min-recent milli seen (20 * second) (101 * second)
      ((omega arith, (omega arith, tt)), ((omega arith, tt), (tt, tt)))
      (omega arith, (omega arith, (omega arith, tt))) seen_started
