-- ===== src/Api/Handlers/Responses.antt =====
-- internal/api/handlers.go: what the handlers write, by the result of the call that they make.
use btcdwatch_com.Base.{
  ℕ, ◌-◌, ◌*◌, [], ◌∷◌, Option, none, some, Bool, true, false, not, if◌then◌else◌, ltb, ◌==◌,
}
use btcdwatch_com.Base.Int.{ℤ}
use btcdwatch_com.Base.Action.{Action, Result, ok, err, zoom}
use btcdwatch_com.Base.Float.{Float}
use btcdwatch_com.Base.Text.{Text, codes}
use btcdwatch_com.Address.{AddressSummary}
use btcdwatch_com.Api.{
  Response, Payload, Code, Caching, Server, HealthStatus, write_json, write_error,
  write_service_error, write_not_found, confirmed_ttl, live_ttl,
}
use btcdwatch_com.Block.{Block}
use btcdwatch_com.Chain.{AddressKind}
use btcdwatch_com.Inflow.{second}
use btcdwatch_com.Live.{read_stats, read_fees}
use btcdwatch_com.Lookup.{Tx, TxStatus, confirmed, pending}
use btcdwatch_com.Node.{Error, unavailable, tx_not_found, block_not_found}
use btcdwatch_com.Service.{Service}
use btcdwatch_com.Sync.{SyncStatus}

-- The address packages of btcd at the network of the server, `strconv.Atoi`, and the limit of the
-- concurrent scans, where zero is none.
pub record Net (Addr : Type 0) : Type 0 where
  pub decode : Text → Option Addr
  pub is_for_net : Addr → Bool
  pub encode : Addr → Text
  pub kind_of : Addr → AddressKind
  pub atoi : Text → Option ℤ
  pub max_scans : ℕ

abbrev pub is_not_found : Error → Bool
is_not_found tx_not_found = true
is_not_found block_not_found = true
is_not_found _ = false

abbrev pub starts_with : Text → Text → Bool
starts_with [] t = true
starts_with (c ∷ cs) [] = false
starts_with (c ∷ cs) (d ∷ ds) = let rest = starts_with cs ds in if c == d then rest else false

abbrev pub zeros : Text
zeros = codes "00000000"

abbrev pub health_max_stale : ℕ
health_max_stale = 15 * (60 * second)

abbrev pub or_started : ℕ → Option ℕ → ℕ
or_started started none = started
or_started started (some at) = at

abbrev pub caching_of : TxStatus → Caching
caching_of confirmed = Caching.public_for confirmed_ttl
caching_of pending = Caching.no_store

module _ {f : Float} where
  abbrev pub with_service : Service f → Server f → Server f
  with_service t s = record s { service = t }

  abbrev pub tx_response : Result Error (Tx f) → Response f
  tx_response (ok tx) = write_json 200 (caching_of tx.status) (Payload.tx tx)
  tx_response (err tx_not_found) = write_error 404 Code.tx_missing
  tx_response (err x) = write_service_error x

  abbrev pub block_response : Result Error (Block f) → Response f
  block_response (ok b) = write_json 200 (Caching.public_for confirmed_ttl) (Payload.block b)
  block_response (err block_not_found) = write_error 404 Code.block_missing
  block_response (err x) = write_service_error x

  -- What `handleAddress` and `handleSearch` write, by the payload for the summary.
  abbrev pub address_response :
      (AddressSummary f → Payload f) → Result Error (AddressSummary f) → Response f
  address_response payload (ok a) = write_json 200 Caching.no_store (payload a)
  address_response payload (err x) = write_service_error x

  abbrev pub feed_response : {A : Type 0} → (A → Payload f) → Option A → Response f
  feed_response payload none = write_service_error unavailable
  feed_response payload (some a) = write_json 200 (Caching.public_for live_ttl) (payload a)

  unfoldable pub handle_fees : ℕ → Server f → Response f × Server f
  unfolding read_fees write_service_error
  handle_fees now s =
      let (live, fees) = read_fees s.live now in
      (feed_response Payload.fees fees, record s { live = live })

  unfoldable pub handle_stats : ℕ → Server f → Response f × Server f
  unfolding read_stats write_service_error
  handle_stats now s =
      let (live, stats) = read_stats s.live now in
      (feed_response Payload.stats stats, record s { live = live })

  abbrev pub report : ℕ → HealthStatus → Text → Bool → Bool → ℕ → Response f
  report status health network node_connected is_syncing height = write_json status Caching.unset (
      Payload.health (record {
        status = health;
        network = network;
        node_connected = node_connected;
        is_syncing = is_syncing;
        block_height = height;
      }))

  abbrev pub health_of : Bool → ℕ → Text → ℕ → SyncStatus → Response f
  health_of connected now network started st =
      if not connected
      then report 503 HealthStatus.degraded network false false 0
      else if ltb health_max_stale (now - or_started started st.checked_at)
      then report 503 HealthStatus.degraded network true false st.tip_height
      else report 200 (if st.syncing then HealthStatus.syncing else HealthStatus.healthy) network
          true st.syncing st.tip_height

  abbrev pub on_service : {A : Type 0} → Action (Service f) Error A → Action (Server f) Error A
  on_service m = zoom (λ (s : Server f). s.service) with_service m

  -- The answer of a call, as a response.
  abbrev pub respond :
      {A : Type 0}
      → (Result Error A → Response f)
      → Action (Service f) Error A
      → Server f
      → Response f × Server f
  respond response m s = let (r, s') = on_service m s in (response r, s')

  abbrev pub search_response : Text → Result Error (Payload f × Caching) → Response f
  search_response q (ok (payload, caching)) = write_json 200 caching payload
  search_response q (err x) = if is_not_found x then write_not_found q else write_service_error x

  -- The second lookup, when the first one has found nothing.
  abbrev pub or_second :
      {A : Type 0} → Result Error A → Action (Service f) Error A → Action (Service f) Error A
  or_second (ok a) again s = (ok a, s)
  or_second (err x) again s = let other = again s in if is_not_found x then other else (err x, s)

  abbrev pub first_then :
      {A : Type 0}
      → Action (Service f) Error A
      → Action (Service f) Error A
      → Action (Service f) Error A
  first_then first again s = let (r, s') = first s in or_second r again s'

  abbrev pub found_block_response : Text → Result Error (Block f) → Response f
  found_block_response q (ok b) =
      write_json 200 (Caching.public_for confirmed_ttl) (Payload.found_block b)
  found_block_response q (err block_not_found) = write_not_found q
  found_block_response q (err x) = write_service_error x
