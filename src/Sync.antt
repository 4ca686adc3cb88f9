-- ===== src/Sync.antt =====
-- internal/explorer/stats.go: the cached state of the node's sync and its refresh off the request
-- path. Each call under the mutex is one step at the time `now`; a time that is zero is `none`.
pub mod Probes
use btcdwatch_com.Base.{
  ℕ, ◌-◌, ◌*◌, List, [], ◌∷◌, Option, none, some, Bool, true, false, not, ◌&&◌, ◌||◌, if◌then◌else◌,
  ltb, leb,
}
use btcdwatch_com.Base.Action.{Result, ok, err}
use btcdwatch_com.Chain.{Network}
use btcdwatch_com.Inflow.{second}
use btcdwatch_com.Live.{is_past}
use btcdwatch_com.Node.{Error}

abbrev pub synced_max_tip_age : ℕ
synced_max_tip_age = 4 * (3600 * second)

abbrev pub sync_check_every : ℕ
sync_check_every = 10 * second

abbrev pub sync_refresh_stuck : ℕ
sync_refresh_stuck = 120 * second

pub record SyncStatus : Type 0 where
  pub syncing : Bool
  pub tip_height : ℕ
  pub checked_at : Option ℕ

-- `attempt_at` is the end of the last attempt, and `kicked_at` the start of the last one.
pub record Sync : Type 0 where
  pub status : SyncStatus
  pub attempt_at : Option ℕ
  pub kicked_at : Option ℕ
  pub in_flight : Bool

-- Whether the age of the tip says something on a network.
unfoldable pub tip_age_gated : Network → Bool
tip_age_gated Network.regression_net = false
tip_age_gated Network.sim_net = false
tip_age_gated _ = true

-- Until the first answer, a network whose tip's age counts is taken to be syncing.
abbrev pub new_sync : Bool → Sync
new_sync gated = record {
  status = record { syncing = gated; tip_height = 0; checked_at = none };
  attempt_at = none;
  kicked_at = none;
  in_flight = false;
}

abbrev pub is_due : Sync → ℕ → Bool
is_due s now =
    is_past sync_check_every now s.attempt_at
    && (not s.in_flight || is_past sync_refresh_stuck now s.kicked_at)

-- `SyncStatus`: the status, which does not depend on the refresh that the call may start.
unfoldable pub sync_status : ℕ → Sync → SyncStatus × Sync
sync_status now s =
    (s.status, if is_due s now then record s { in_flight = true; kicked_at = some now } else s)

-- Whether a tip of that time, in seconds, is too old for a node that has caught up.
unfoldable pub is_behind : Bool → ℕ → ℕ → Bool
is_behind gated now tip_time = gated && ltb synced_max_tip_age (now - tip_time * second)

-- The end of `refreshSync`, with the height and the time of the tip.
abbrev pub judge : Bool → ℕ → SyncStatus → Result Error (ℕ × ℕ) → SyncStatus
judge gated now st (err x) = st
judge gated now st (ok (tip, tip_time)) = record {
  syncing = is_behind gated now tip_time;
  tip_height = tip;
  checked_at = some now;
}

unfoldable pub end_sync : Bool → ℕ → Result Error (ℕ × ℕ) → Sync → Sync
unfolding is_behind
end_sync gated now probe s = record s {
  status = judge gated now s.status probe;
  attempt_at = some now;
  in_flight = false;
}
