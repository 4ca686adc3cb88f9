-- ===== src/Live.antt =====
-- internal/explorer/live.go: the cached feeds and their recompute off the request path. Each call
-- under the mutex is one step at the time `now`; `S`, `E` and `U` are the payloads of stats, fees and
-- mempool, and the zero `attempt_at` is `none`. The recompute that a step starts is its `true`, and
-- `refresh_live` is its end, with the results of the three computations.
pub mod Flight
use btcdwatch_com.Base.{
  ℕ, ◌-◌, Option, none, some, Bool, true, false, not, ◌&&◌, ◌||◌, if◌then◌else◌, leb,
}

abbrev pub live_refresh_every : ℕ
live_refresh_every = 5000000000

abbrev pub live_refresh_stuck : ℕ
live_refresh_stuck = 120000000000

pub record LiveData (S E U : Type 0) : Type 0 where
  pub stats : Option S
  pub fees : Option E
  pub update : Option U

pub record Live (S E U : Type 0) : Type 0 where
  pub data_of : LiveData S E U
  pub attempt_at : Option ℕ
  pub kicked_at : ℕ
  pub in_flight : Bool

-- Whether a time, if there was one, is at least `limit` ago.
abbrev pub is_past : ℕ → ℕ → Option ℕ → Bool
is_past limit now none = true
is_past limit now (some t) = leb limit (now - t)

-- A computation that failed leaves the value that was there.
abbrev pub or_old : {A : Type 0} → Option A → Option A → Option A
or_old none old = old
or_old (some a) old = some a

module _ {S E U : Type 0} where
  unfoldable pub new_live : Live S E U
  new_live = record {
    data_of = record { stats = none; fees = none; update = none };
    attempt_at = none;
    kicked_at = 0;
    in_flight = false;
  }

  abbrev pub is_due : Live S E U → ℕ → Bool
  is_due l now =
      is_past live_refresh_every now l.attempt_at
      && (not l.in_flight || leb live_refresh_stuck (now - l.kicked_at))

  unfoldable pub live_snapshot : Live S E U → ℕ → Live S E U × Bool
  live_snapshot l now =
      if is_due l now then (record l { in_flight = true; kicked_at = now }, true) else (l, false)

  unfoldable pub refresh_live : Live S E U → ℕ → Option S → Option E → Option U → Live S E U
  refresh_live l now stats fees update = record l {
    data_of = record {
      stats = or_old stats l.data_of.stats;
      fees = or_old fees l.data_of.fees;
      update = or_old update l.data_of.update;
    };
    in_flight = false;
    attempt_at = some now;
  }

  -- `Stats`, `Fees` and `MempoolUpdate`: `none` is the answer that the node is unavailable.
  unfoldable pub read_stats : Live S E U → ℕ → Live S E U × Option S
  unfolding live_snapshot
  read_stats l now = ((live_snapshot l now).0, (live_snapshot l now).0.data_of.stats)

  unfoldable pub read_fees : Live S E U → ℕ → Live S E U × Option E
  unfolding live_snapshot
  read_fees l now = ((live_snapshot l now).0, (live_snapshot l now).0.data_of.fees)

  unfoldable pub read_update : Live S E U → ℕ → Live S E U × Option U
  unfolding live_snapshot
  read_update l now = ((live_snapshot l now).0, (live_snapshot l now).0.data_of.update)
