-- ===== src/Service.antt =====
-- internal/explorer/tx.go and mempool.go: the state of the service and the calls that the derivations
-- share. `Env` is what does not change while a call is served: the node's answers, the parameters
-- of the chain, the configuration, the present price and the time. The mutexes of the parts make
-- each part's change one step; a call alone is modelled here, not two that interleave.
use btcdwatch_com.Base.{
  ℕ, ◌-◌, ◌*◌, ◌/◌, min, List, [], Option, none, some, Bool, if◌then◌else◌, ltb, leb, ◌==◌, nat_eq,
  pair_eq,
}
use btcdwatch_com.Base.Action.{
  Action, Result, ok, err, ◌>>=◌, ◌>>◌, pure, lift, gets, fail_if, zoom,
}
use btcdwatch_com.Base.Int.{ℤ, pos, negsuc}
use btcdwatch_com.Base.Float.{Float}
use btcdwatch_com.Base.Sort.{Sorter}
use btcdwatch_com.Base.Text.{Text, codes_eq}
use btcdwatch_com.Address.{AddressTotals}
use btcdwatch_com.Arrivals.{Feed}
use btcdwatch_com.Cache.{LruCache, new_lru, get, put, clear}
use btcdwatch_com.Chain.{ScriptType}
use btcdwatch_com.Fees.{FeeFloors}
use btcdwatch_com.Inflow
use btcdwatch_com.Inflow.{second}
use btcdwatch_com.Mempool.{
  Mempool, new_mempool, begin_refresh, finish_refresh, fail_refresh, invalidate, entries_of,
  entries_or, snapshot_and_queue,
}
use btcdwatch_com.Node.{Client, backend_of, Error, other, Codes, Backend}
use btcdwatch_com.Price.{Quote, fiat}
use btcdwatch_com.Queue.{Queue}
use btcdwatch_com.Rpc.{Header}
use btcdwatch_com.Snapshot.{Snapshot}
use btcdwatch_com.Sync.{Sync, new_sync}

-- `prevout`, an output that an input spends.
pub record Prevout : Type 0 where
  pub value_sats : ℤ
  pub addrs : List Text
  pub script_type : ScriptType

-- The parameters of a network that the service reads; the target time is in nanoseconds.
pub record Params : Type 0 where
  pub name : Text
  pub subsidy_reduction_interval : ℕ
  pub target_time_per_block : ℕ
  -- Whether the network is neither regtest nor simnet.
  pub tip_age_gated : Bool

pub record Env (f : Float) (B H : Type 0) : Type 1 where
  pub backend : Backend B H
  -- `chainhash.NewHashFromStr` and its `String`.
  pub parse_hash : Text → Option H
  pub show_hash : H → Text
  pub new_amount : B → Option ℤ
  pub to_btc : ℤ → f.F
  pub codes : Codes
  pub sorter : Sorter
  pub params : Params
  pub floors : FeeFloors f
  pub max_scan : ℕ
  pub quote : Quote f
  pub now : ℕ

-- The outpoint of an input, which the source prints as the key of the cache, is a pair here.
pub record Service (f : Float) : Type 0 where
  pub feed : Feed f
  pub prevouts : LruCache (Text × ℕ) Prevout
  pub headers : LruCache Text Header
  pub totals : LruCache Text AddressTotals
  pub interval_at : Option ℕ
  pub interval_mean : ℕ
  pub sync : Sync

abbrev pub max_scan_or : ℤ → ℕ
max_scan_or (pos n) = if n == 0 then 2000 else n
max_scan_or (negsuc n) = 2000

unfoldable pub new_service : (f : Float) → Bool → Service f
new_service f gated = record {
  feed = record { arrivals = []; inflow = Inflow.new; mempool = new_mempool f };
  prevouts = new_lru 4096;
  headers = new_lru 1024;
  totals = new_lru 256;
  interval_at = none;
  interval_mean = 0;
  sync = new_sync gated;
}

abbrev pub interval_ttl : ℕ
interval_ttl = 30 * second

module _ {f : Float} where
  abbrev pub with_mempool : Mempool f → Service f → Service f
  with_mempool m s = record s { feed = record s.feed { mempool = m } }

  -- `OnBlock`.
  unfoldable pub on_block : Service f → Service f
  on_block s = record (with_mempool (invalidate f s.feed.mempool) s) {
    totals = clear s.totals;
    interval_at = none;
  }

  module _ {B H : Type 0} (env : Env f B H) where
    -- `refresh`: the steps around the call of the node.
    abbrev pub end_refresh :
        Mempool f → ℕ → Result Error (Snapshot f) → Result Error (Unit {0}) × Mempool f
    end_refresh m gen (ok entries) = (ok tt, finish_refresh f m gen env.now entries)
    end_refresh m gen (err x) = (err x, fail_refresh f m)

    abbrev pub fetch : ℕ → Result Error (Snapshot f)
    fetch gen = elim (env.backend.raw_mempool gen) [
      | ok raw ↦ ok (entries_of f env.new_amount raw)
      | err x ↦ err x
    ]

    unfoldable pub refresh : Action (Mempool f) Error (Unit {0})
    refresh m =
        let (begun, gen) = begin_refresh f m env.now in
        elim gen [ none ↦ (ok tt, begun) | some g ↦ end_refresh begun g (fetch g) ]

    abbrev pub on_mempool : {A : Type 0} → Action (Mempool f) Error A → Action (Service f) Error A
    on_mempool m = zoom (λ s. s.feed.mempool) with_mempool m

    -- `Snapshot`.
    unfoldable pub snapshot : Action (Service f) Error (Snapshot f)
    unfolding refresh
    snapshot = on_mempool (do refresh; gets (λ m. entries_or f m.entries))

    -- The read of `SnapshotAndQueue` with its refresh.
    abbrev pub read_queue : Action (Mempool f) Error (Snapshot f × Queue f)
    read_queue m = let (m', s, q) = snapshot_and_queue f env.sorter m env.now in (ok (s, q), m')

    unfoldable pub snapshot_with_queue : Action (Service f) Error (Snapshot f × Queue f)
    unfolding refresh
    snapshot_with_queue = on_mempool (do refresh; read_queue)

    abbrev pub keep_header :
        Text
        → LruCache Text Header
        → Result Error Header
        → Result Error Header × LruCache Text Header
    keep_header hash_text c (err x) = (err x, c)
    keep_header hash_text c (ok h) = (ok h, put c hash_text h)

    abbrev pub fetch_header : Option H → Result Error Header
    fetch_header none = err other
    fetch_header (some hash) = env.backend.block_header hash

    abbrev pub header_or :
        Text → LruCache Text Header → Option Header → Result Error Header × LruCache Text Header
    header_or hash_text c (some h) = (ok h, c)
    header_or hash_text c none = keep_header hash_text c (fetch_header (env.parse_hash hash_text))

    -- `header`, by the hash's text.
    unfoldable pub header : Text → Action (LruCache Text Header) Error Header
    unfolding get put
    header hash_text c = let (d, cached) = get c hash_text in header_or hash_text d cached

    unfoldable pub header_time_at : ℕ → Action (LruCache Text Header) Error ℕ
    unfolding header
    header_time_at height = do
      hash ← lift (env.backend.block_hash height)
      h ← header (env.show_hash hash)
      pure h.time

    unfoldable pub measure_block_interval : Action (LruCache Text Header) Error ℕ
    unfolding header_time_at
    measure_block_interval = do
      tip ← lift env.backend.block_count
      let span = min 9 tip
      fail_if (ltb span 1) other
      tip_time ← header_time_at tip
      base_time ← header_time_at (tip - span)
      fail_if (leb tip_time base_time) other
      pure ((tip_time - base_time) / span * second)

    -- The cached mean, while it is not older than thirty seconds.
    abbrev pub cached_mean : Service f → Option ℕ → Option ℕ
    cached_mean s none = none
    cached_mean s (some at) = if ltb (env.now - at) interval_ttl then some s.interval_mean else none

    abbrev pub measured_or : ℕ → Result Error ℕ → ℕ
    measured_or target (ok mean) = if ltb 0 mean then mean else target
    measured_or target (err x) = target

    abbrev pub mean_or : Service f → Option ℕ → ℕ × Service f
    mean_or s (some mean) = (mean, s)
    mean_or s none =
        let (measured, headers) = measure_block_interval s.headers in
        let mean = measured_or env.params.target_time_per_block measured in
        (mean, record s { headers = headers; interval_mean = mean; interval_at = some env.now })

    -- `avgBlockInterval`, which does not fail.
    unfoldable pub avg_block_interval : Service f → ℕ × Service f
    unfolding measure_block_interval
    avg_block_interval s = mean_or s (cached_mean s s.interval_at)

    abbrev pub fiat_of : ℤ → Option f.F
    fiat_of = fiat f env.to_btc env.quote

-- The service on top of the node's client, as the daemon puts them together.
abbrev pub through : {f : Float} {B H : Type 0} → Client → Bool → Env f B H → Env f B H
through c disconnected env = record env { backend = backend_of c disconnected env.backend }
