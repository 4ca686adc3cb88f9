-- ===== src/Api.antt =====
-- internal/api/handlers.go and server.go: the endpoints. What the service derives is state passing
-- (Lookup, Block, Address, Live); `Response` is what a handler writes, with its payload as a value in
-- place of its JSON text.
pub mod Handlers
pub mod Answers
pub mod Limits
pub mod Routes
pub mod Contract
pub mod Endpoints
use btcdwatch_com.Base.{
  ℕ, ◌+◌, ◌-◌, min, max, ◌^◌, List, [], ◌∷◌, Option, none, some, Bool, true, false, if◌then◌else◌,
  ltb, ◌==◌,
}
use btcdwatch_com.Base.Int.{ℤ, pos, negsuc}
use btcdwatch_com.Base.Action.{Action, Result, ok, err}
use btcdwatch_com.Base.Float.{Float}
use btcdwatch_com.Base.Text.{Text, codes}
use btcdwatch_com.Address.{AddressSummary}
use btcdwatch_com.Arrivals.{MempoolUpdate}
use btcdwatch_com.Block.{Block}
use btcdwatch_com.Live.{Live}
use btcdwatch_com.Lookup.{Tx}
use btcdwatch_com.Node.{Error, unavailable}
use btcdwatch_com.Service.{Service}
use btcdwatch_com.Stats.{Stats, FeeEstimate}

-- The codes of the error bodies; the messages are left out.
pub data Code : Type 0 where
  busy node_syncing node_unavailable internal_error invalid_txid tx_missing : Code
  invalid_address invalid_block block_missing unknown_endpoint rate_limited : Code

pub data HealthStatus : Type 0 where
  degraded syncing healthy : HealthStatus

pub record Health : Type 0 where
  pub status : HealthStatus
  pub network : Text
  pub node_connected : Bool
  pub is_syncing : Bool
  pub block_height : ℕ

pub data Payload (f : Float) : Type 0 where
  error : Code → Payload f
  health : Health → Payload f
  tx : Tx f → Payload f
  address : AddressSummary f → Payload f
  block : Block f → Payload f
  fees : FeeEstimate f → Payload f
  stats : Stats f → Payload f
  found_tx : Tx f → Payload f
  found_block : Block f → Payload f
  found_address : AddressSummary f → Payload f
  invalid : Text → Payload f
  not_found : Text → Payload f

-- The header Cache-Control: none, `no-store`, or public for a number of seconds.
pub data Caching : Type 0 where
  unset no_store : Caching
  public_for : ℕ → Caching

pub record Response (f : Float) : Type 0 where
  pub status : ℕ
  pub caching : Caching
  pub retry_after : Option ℕ
  pub payload : Payload f

abbrev pub confirmed_ttl : ℕ
confirmed_ttl = 30

abbrev pub live_ttl : ℕ
live_ttl = 5

-- `Server` with the service's caches. `scans` is the number of tokens in the semaphore.
pub record Server (f : Float) : Type 0 where
  pub service : Service f
  pub live : Live (Stats f) (FeeEstimate f) (MempoolUpdate f)
  pub scans : ℕ
  pub network : Text
  pub started : ℕ

module _ {f : Float} where
  abbrev pub write_json : ℕ → Caching → Payload f → Response f
  write_json status caching payload = record {
    status = status;
    caching = caching;
    retry_after = none;
    payload = payload;
  }

  unfoldable pub write_error : ℕ → Code → Response f
  write_error status code = write_json status unset (error code)

  unfoldable pub write_service_error : Error → Response f
  unfolding write_error
  write_service_error unavailable = write_error 503 node_unavailable
  write_service_error _ = write_error 500 internal_error

  unfoldable pub write_scan_busy : Response f
  unfolding write_error
  write_scan_busy = record (write_error 503 busy) { retry_after = some 10 }

  unfoldable pub write_not_found : Text → Response f
  write_not_found q = write_json 200 no_store (not_found q)

  -- `acquireScan`: whether there is a token, for a limit that is zero when there is none. A wait that
  -- ends without one is `false`.
  unfoldable pub acquire_scan : ℕ → Server f → Bool × Server f
  acquire_scan limit s =
      if limit == 0
      then (true, s)
      else if ltb s.scans limit
      then (true, record s { scans = s.scans + 1 })
      else (false, s)

  unfoldable pub release_scan : ℕ → Server f → Server f
  release_scan limit s = if limit == 0 then s else record s { scans = s.scans - 1 }

-- `min(max(n, lo), hi)` for bounds that are not negative.
abbrev pub clamp : ℕ → ℕ → ℤ → ℕ
clamp lo hi (pos n) = min (max n lo) hi
clamp lo hi (negsuc n) = min lo hi

abbrev pub or_default : ℕ → ℕ → ℕ → Option ℤ → ℕ
or_default def lo hi none = def
or_default def lo hi (some n) = clamp lo hi n

-- `intParam`, of the text of the parameter; `atoi` is `strconv.Atoi`.
unfoldable pub int_param : (Text → Option ℤ) → Text → ℕ → ℕ → ℕ → ℕ
int_param atoi [] def lo hi = def
int_param atoi (c ∷ cs) def lo hi = or_default def lo hi (atoi (c ∷ cs))

abbrev pub default_activity_limit : ℕ
default_activity_limit = 25

abbrev pub max_activity_limit : ℕ
max_activity_limit = 100

abbrev pub default_block_tx_limit : ℕ
default_block_tx_limit = 25
