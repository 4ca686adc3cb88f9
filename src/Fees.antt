-- ===== src/Fees.antt =====
-- internal/explorer/fees.go: the three fee tiers. Doubles and `sort.Slice` are parameters, and the
-- products with 0.25, 0.50 and 0.90 are those of the quotients, which round to the same doubles.
pub mod Tiers
use btcdwatch_com.Base.{
  ℕ, ◌+◌, ◌*◌, ◌/◌, List, [], ◌∷◌, Option, none, some, Bool, true, false, if◌then◌else◌, ltb,
  length,
}
use btcdwatch_com.Base.Int.{pos}
use btcdwatch_com.Base.Float.{Float}
use btcdwatch_com.Base.Sort.{Sorter}
use btcdwatch_com.Snapshot.{Snapshot, MempoolEntry}
use btcdwatch_com.Queue.{entries, num}

pub data Source : Type 0 where
  from_mempool from_floor : Source

module _ (f : Float) where
  pub record FeeFloors : Type 0 where
    pub floor_slow : f.F
    pub floor_standard : f.F
    pub floor_urgent : f.F

  pub record Rates : Type 0 where
    pub slow : f.F
    pub standard : f.F
    pub urgent : f.F
    pub source : Source

  abbrev pub lower : f.F × ℕ → f.F × ℕ → Bool
  lower (a, v) (b, w) = f.lt a b

  unfoldable pub total_vsize : List (f.F × ℕ) → ℕ
  total_vsize [] = 0
  total_vsize ((rate, vsize) ∷ es) = vsize + total_vsize es

  -- The loop of `percentile` behind the entries that were added up, with the last rate seen.
  unfoldable pub percentile_from : f.F → ℕ → f.F → List (f.F × ℕ) → f.F
  percentile_from target cum last [] = last
  percentile_from target cum last ((rate, vsize) ∷ es) =
      let rest = percentile_from target (cum + vsize) rate es in
      if f.lt (num f (cum + vsize)) target then rest else rate

  -- `percentile(p)` of the sorted entries, where `p` is a number of hundredths.
  unfoldable pub percentile : ℕ → List (f.F × ℕ) → f.F
  percentile p es =
      percentile_from (f.mul (f.div (num f p) (num f 100)) (num f (total_vsize es))) 0 (num f 0) es

  -- To a tenth, and not below a bound.
  unfoldable pub settle : f.F → f.F → f.F
  settle rate bound = f.fmax (f.div (f.round (f.mul rate (num f 10))) (num f 10)) bound

  abbrev pub raw_rates : Sorter → FeeFloors → Snapshot f → Rates
  raw_rates s floors [] = record {
    slow = floors.floor_slow;
    standard = floors.floor_standard;
    urgent = floors.floor_urgent;
    source = from_floor;
  }
  raw_rates s floors (e ∷ snapshot) =
      let es = s.sort (f.F × ℕ) lower (entries f (e ∷ snapshot)) in
      record {
        slow = f.fmax (percentile 25 es) floors.floor_slow;
        standard = f.fmax (percentile 50 es) floors.floor_standard;
        urgent = f.fmax (percentile 90 es) floors.floor_urgent;
        source = from_mempool;
      }

  unfoldable pub tier_rates : Sorter → FeeFloors → Snapshot f → Rates
  unfolding settle
  tier_rates s floors snapshot =
      let raw = raw_rates s floors snapshot in
      let slow = settle raw.slow (num f 1) in
      let standard = settle raw.standard slow in
      record {
        slow = slow;
        standard = standard;
        urgent = settle raw.urgent standard;
        source = raw.source;
      }

pub data Eta : Type 0 where
  minutes hours days : ℕ → Eta

-- `int(math.Round(…))` of a number of nanoseconds over a unit, for a duration that is not negative.
abbrev pub round_to : ℕ → ℕ → ℕ
round_to d unit = (2 * d + unit) / (2 * unit)

unfoldable pub human_eta : ℕ → Eta
human_eta d =
    if ltb d 90000000000
    then minutes 1
    else if ltb d 5400000000000
    then minutes (round_to d 60000000000)
    else if ltb d 172800000000000
    then hours (round_to d 3600000000000)
    else days (round_to d 86400000000000)
