-- ===== src/Stats.antt =====
-- internal/explorer/stats.go and fees.go: the dashboard's numbers and the fee estimate, computed off the
-- request path. The steps of a computation are those of one call; the refresh of the sync state that
-- it may start is `refresh_sync`.
use btcdwatch_com.Base.{
  ℕ, ◌+◌, ◌-◌, ◌*◌, ◌/◌, max, List, [], ◌∷◌, length, Option, none, some, Bool, if◌then◌else◌,
}
use btcdwatch_com.Base.Action.{Action, Result, ok, err, ◌>>=◌, pure, lift, try, zoom, or_fail}
use btcdwatch_com.Base.Float.{Float}
use btcdwatch_com.Base.Text.{Text, codes_eq}
use btcdwatch_com.Chain.{blocks_until_halving}
use btcdwatch_com.Fees.{Eta, Rates, Source, tier_rates, human_eta}
use btcdwatch_com.Inflow.{second}
use btcdwatch_com.Node.{Error, other}
use btcdwatch_com.Price.{PriceSource, Quote}
use btcdwatch_com.Queue.{Queue}
use btcdwatch_com.Rpc.{Header}
use btcdwatch_com.Cache.{LruCache}
use btcdwatch_com.Arrivals.{Feed, MempoolUpdate, compute_mempool_update}
use btcdwatch_com.Live.{Live, refresh_live}
use btcdwatch_com.Base.Action.{◌>>◌}
use btcdwatch_com.Service.{refresh, on_mempool}
use btcdwatch_com.Service.{
  Env, Service, snapshot, snapshot_with_queue, avg_block_interval, header_time_at,
}
use btcdwatch_com.Snapshot.{Snapshot}
use btcdwatch_com.Sync.{SyncStatus, sync_status, end_sync}

pub record MempoolStats : Type 0 where
  pub tx_count : ℕ
  pub bytes : ℕ

pub record HalvingStats : Type 0 where
  pub blocks_remaining : ℕ
  pub eta_seconds : ℕ

pub record PriceStats (f : Float) : Type 0 where
  pub usd : f.F
  pub source : PriceSource
  pub updated_at : ℕ

pub record Stats (f : Float) : Type 0 where
  pub network : Text
  pub block_height : ℕ
  pub syncing : Bool
  pub mempool : MempoolStats
  pub queue : Queue f
  pub next_block_eta_seconds : ℕ
  pub avg_block_interval_seconds : ℕ
  pub halving : HalvingStats
  pub price : Option (PriceStats f)

pub data TierId : Type 0 where
  slow_tier standard_tier urgent_tier : TierId

pub record FeeTier (f : Float) : Type 0 where
  pub id : TierId
  pub sat_per_vb : f.F
  pub eta_blocks : ℕ
  pub label : Eta

pub record FeeEstimate (f : Float) : Type 0 where
  pub tiers : List (FeeTier f)
  pub source : Source

abbrev pub total_bytes : {f : Float} → Snapshot f → ℕ
total_bytes [] = 0
total_bytes ((txid, e) ∷ s) = e.size_bytes + total_bytes s

-- The mean interval less the tip's age, and not below five seconds; without the tip's time, the
-- mean. A tip from the future has an age below zero.
unfoldable pub next_eta : ℕ → ℕ → Result Error ℕ → ℕ
next_eta now interval (err x) = interval
next_eta now interval (ok tip_time) = max (interval + tip_time * second - now) (5 * second)

module _ {f : Float} {B H : Type 0} (env : Env f B H) where
  abbrev pub on_headers :
      {A : Type 0} → Action (LruCache Text Header) Error A → Action (Service f) Error A
  on_headers m = zoom (λ (s : Service f). s.headers) (λ c s. record s { headers = c }) m

  -- `refreshSync`: the query of the node, and what it changes.
  abbrev pub probe_sync : Action (Service f) Error (ℕ × ℕ)
  probe_sync = do
    tip ← lift env.backend.block_count
    tip_time ← on_headers (header_time_at env tip)
    pure (tip, tip_time)

  unfoldable pub refresh_sync : Service f → Service f
  unfolding header_time_at end_sync
  refresh_sync s =
      let (probe, s') = probe_sync s in
      record s' { sync = end_sync env.params.tip_age_gated env.now probe s'.sync }

  unfoldable pub read_sync : Service f → SyncStatus × Service f
  unfolding sync_status
  read_sync s = let (st, sync) = sync_status env.now s.sync in (st, record s { sync = sync })

  abbrev pub measured : Action (Service f) Error ℕ
  measured s = let (mean, s') = avg_block_interval env s in (ok mean, s')

  -- `Syncing`.
  abbrev pub syncing : Action (Service f) Error Bool
  syncing s = let (st, s') = read_sync s in (ok st.syncing, s')

  abbrev pub price_of : Quote f → Option (PriceStats f)
  price_of q =
      if q.available
      then some (record { usd = q.usd; source = q.source; updated_at = q.updated_at })
      else none

  abbrev pub stats_of : ℕ → Snapshot f → Queue f → ℕ → Result Error ℕ → ℕ → Bool → Stats f
  stats_of tip entries queue interval tip_time remaining is_syncing = record {
    network = env.params.name;
    block_height = tip;
    syncing = is_syncing;
    mempool = record { tx_count = length entries; bytes = total_bytes entries };
    queue = queue;
    next_block_eta_seconds = next_eta env.now interval tip_time / second;
    avg_block_interval_seconds = interval / second;
    halving = record {
      blocks_remaining = remaining;
      eta_seconds = remaining * (env.params.target_time_per_block / second);
    };
    price = price_of env.quote;
  }

  -- A reduction interval of zero is a panic of the source.
  unfoldable pub compute_stats : Action (Service f) Error (Stats f)
  unfolding snapshot snapshot_with_queue avg_block_interval header_time_at read_sync next_eta
      blocks_until_halving
  compute_stats = do
    tip ← lift env.backend.block_count
    entries ← snapshot env
    queued ← snapshot_with_queue env
    interval ← measured
    tip_time ← try (on_headers (header_time_at env tip))
    remaining ← or_fail (blocks_until_halving tip env.params.subsidy_reduction_interval) other
    is_syncing ← syncing
    pure (stats_of tip entries queued.1 interval tip_time remaining is_syncing)

  abbrev pub tier : ℕ → TierId → f.F → ℕ → FeeTier f
  tier interval id rate blocks = record {
    id = id;
    sat_per_vb = rate;
    eta_blocks = blocks;
    label = human_eta (blocks * interval);
  }

  abbrev pub estimate_of : Rates f → ℕ → FeeEstimate f
  estimate_of rates interval = record {
    tiers =
        tier interval slow_tier rates.slow 6
        ∷ tier interval standard_tier rates.standard 3
        ∷ tier interval urgent_tier rates.urgent 1
        ∷ [];
    source = rates.source;
  }

  unfoldable pub compute_fees : Action (Service f) Error (FeeEstimate f)
  unfolding snapshot tier_rates avg_block_interval human_eta
  compute_fees = do
    entries ← snapshot env
    interval ← measured
    pure (estimate_of (tier_rates f env.sorter env.floors entries) interval)

  -- `computeMempoolUpdate` with its refresh.
  abbrev pub update_now : Feed f → Result Error (MempoolUpdate f) × Feed f
  update_now s = let (s', u) = compute_mempool_update f env.sorter s env.now in (ok u, s')

  unfoldable pub mempool_update : Action (Service f) Error (MempoolUpdate f)
  unfolding refresh compute_mempool_update
  mempool_update = do
    on_mempool env (refresh env)
    zoom (λ (s : Service f). s.feed) (λ m s. record s { feed = m }) update_now

  abbrev pub or_none : {A : Type 0} → Result Error A → Option A
  or_none (ok a) = some a
  or_none (err x) = none

  abbrev pub Feeds : Type 0
  Feeds = Live (Stats f) (FeeEstimate f) (MempoolUpdate f)

  -- `refreshLive`.
  unfoldable pub recompute : Service f × Feeds → Service f × Feeds
  unfolding compute_stats compute_fees mempool_update refresh_live
  recompute (s, live) =
      let (stats, s1) = compute_stats s in
      let (fees, s2) = compute_fees s1 in
      let (update, s3) = mempool_update s2 in
      (s3, refresh_live live env.now (or_none stats) (or_none fees) (or_none update))
