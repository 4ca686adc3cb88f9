-- ===== src/Inflow.antt =====
-- internal/explorer/inflow.go: the rolling count of accepted transactions. A time is a number of
-- nanoseconds since the Unix epoch, the zero `started` is `none`, and `counts` has six entries.
pub mod Window
pub mod Counter
use btcdwatch_com.Base.{
  ℕ, zero, suc, ◌+◌, ◌-◌, ◌*◌, ◌/◌, ◌%◌, min, max, List, [], ◌∷◌, Option, none, some, leb,
  if◌then◌else◌, get_or, set, replicate,
}
use btcdwatch_com.Base.Int.{pos}
use btcdwatch_com.Base.Float.{Float}

abbrev pub second : ℕ
second = 1000000000

abbrev pub bucket_seconds : ℕ
bucket_seconds = 10

abbrev pub buckets : ℕ
buckets = 6

pub record InflowCounter : Type 0 where
  pub started : Option ℕ
  pub slot : ℕ
  pub counts : List ℕ

-- The zero value of the struct.
unfoldable pub new : InflowCounter
new = record { started = none; slot = 0; counts = replicate buckets 0 }

-- `now.Unix() / inflowBucketSeconds`.
abbrev pub slot_of : ℕ → ℕ
slot_of now = now / second / bucket_seconds

-- The loop of `rotate` from `i`, with the number of rounds that are left.
unfoldable pub zero_buckets : ℕ → ℕ → ℕ → List ℕ → List ℕ
zero_buckets zero base i counts = counts
zero_buckets (suc left) base i counts =
    zero_buckets left base (i + 1) (set counts ((base + i) % buckets) 0)

unfoldable pub rotate : InflowCounter → ℕ → InflowCounter
rotate c slot = if leb slot c.slot then c else record c {
  counts = zero_buckets (min (slot - c.slot) buckets) c.slot 1 c.counts;
  slot = slot;
}

-- `c.counts[i]++`.
unfoldable pub bump : List ℕ → ℕ → List ℕ
bump counts i = set counts i (get_or counts i 0 + 1)

abbrev pub start_at : Option ℕ → ℕ → Option ℕ
start_at none now = some now
start_at (some t) now = some t

unfoldable pub note : InflowCounter → ℕ → InflowCounter
note c now =
    let d = rotate (record c { started = start_at c.started now }) (slot_of now) in
    record d { counts = bump d.counts (slot_of now % buckets) }

unfoldable pub sum : List ℕ → ℕ
sum [] = 0
sum (n ∷ ns) = n + sum ns

-- The measured window in nanoseconds, between one bucket and a minute.
unfoldable pub window : ℕ → ℕ → ℕ
window started now = max (min (now - started) (60 * second)) (bucket_seconds * second)

-- `math.Round(float64(total) / window.Seconds() * 60 * 10) / 10`.
unfoldable pub rate : (f : Float) → ℕ → ℕ → f.F
rate f total span =
    let r = f.mul (f.div (f.of_int (pos total)) (f.seconds span)) (f.of_int (pos 60)) in
    f.div (f.round (f.mul r (f.of_int (pos 10)))) (f.of_int (pos 10))

abbrev pub rate_since : (f : Float) → InflowCounter → ℕ → Option ℕ → InflowCounter × f.F
rate_since f c now none = (c, f.of_int (pos 0))
rate_since f c now (some t) =
    let d = rotate c (slot_of now) in (d, rate f (sum d.counts) (window t now))

-- `ratePerMin` rotates the counter too.
unfoldable pub rate_per_min : (f : Float) → InflowCounter → ℕ → InflowCounter × f.F
rate_per_min f c now = rate_since f c now c.started

-- The counter after the events of a history, newest first.
unfoldable pub noted : List ℕ → InflowCounter
noted [] = new
noted (t ∷ ts) = note (noted ts) t
