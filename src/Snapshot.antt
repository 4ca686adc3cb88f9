-- ===== src/Snapshot.antt =====
-- internal/explorer/mempool.go: one transaction of the shared mempool snapshot. A snapshot is Go's
-- map by transaction id, in one order of iteration; sizes and times are not negative.
use btcdwatch_com.Base.{ℕ, List}
use btcdwatch_com.Base.Int.{ℤ}
use btcdwatch_com.Base.Float.{Float}
use btcdwatch_com.Base.Text.{Text}

pub record MempoolEntry (f : Float) : Type 0 where
  pub fee_sats : ℤ
  pub vsize : ℕ
  pub size_bytes : ℕ
  pub time : ℕ
  pub fee_rate : f.F

abbrev pub Snapshot : Float → Type 0
Snapshot f = List (Text × MempoolEntry f)
