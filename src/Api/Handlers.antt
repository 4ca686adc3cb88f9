-- ===== src/Api/Handlers.antt =====
-- internal/api/handlers.go: the handlers, each from its request and the server's state to the response
-- and the state that it leaves. A handler that runs alone is one step here; what runs beside each
-- other is in the modules of the parts.
pub mod Responses
use btcdwatch_com.Base.{
  ℕ, ◌-◌, ◌*◌, ◌^◌, [], ◌∷◌, Option, none, some, Bool, true, false, not, if◌then◌else◌, ltb, ◌==◌,
}
use btcdwatch_com.Base.Int.{ℤ, pos}
use btcdwatch_com.Base.Action.{Action, Result, ok, err, ◌>>=◌, pure, zoom}
use btcdwatch_com.Base.Float.{Float}
use btcdwatch_com.Base.Text.{Text, codes}
use btcdwatch_com.Address.{AddressSummary, summary}
use btcdwatch_com.Api.{
  Response, Payload, Code, Caching, Server, HealthStatus, write_json, write_error,
  write_service_error, write_scan_busy, write_not_found, acquire_scan, release_scan, int_param,
  confirmed_ttl, live_ttl, default_activity_limit, max_activity_limit, default_block_tx_limit,
}
use btcdwatch_com.Block.{Block, block_by_height, block_by_hash}
use btcdwatch_com.Chain.{Query, AddressKind, classify_query, script_type_of}
use btcdwatch_com.Inflow.{second}
use btcdwatch_com.Live.{read_stats, read_fees}
use btcdwatch_com.Lookup.{Tx, TxStatus, confirmed, pending, get_tx}
use btcdwatch_com.Node.{Error, unavailable, tx_not_found, block_not_found}
use btcdwatch_com.Service.{Env, Service, fiat_of}
use btcdwatch_com.Stats.{read_sync}
use btcdwatch_com.Sync.{SyncStatus}
unfoldable pub use btcdwatch_com.Api.Handlers.Responses.*

module _ {f : Float} where
  module _ {B H : Type 0} (env : Env f B H) where
    unfoldable pub handle_healthz : Bool → Server f → Response f × Server f
    unfolding read_sync
    handle_healthz connected s =
        let (st, t) = read_sync env s.service in
        (health_of connected env.now s.network s.started st, with_service t s)

    -- `gateSyncing`, before the rest of a handler.
    unfoldable pub gate_syncing :
        (Server f → Response f × Server f) → Server f → Response f × Server f
    unfolding read_sync write_error
    gate_syncing rest s =
        let (st, t) = read_sync env s.service in
        let s' = with_service t s in
        let answer = rest s' in
        if st.syncing then (write_error 503 Code.node_syncing, s') else answer

    -- `txResult` and `blockResult`: a payload and how it may be cached.
    abbrev pub tx_result : Text → Action (Service f) Error (Payload f × Caching)
    tx_result txid = do t ← get_tx env txid; pure (Payload.found_tx t, caching_of t.status)

    abbrev pub block_result : Text → Action (Service f) Error (Payload f × Caching)
    block_result hash = do
      b ← block_by_hash env hash 0 default_block_tx_limit
      pure (Payload.found_block b, Caching.public_for confirmed_ttl)

    abbrev pub either_order : Bool → Text → Action (Service f) Error (Payload f × Caching)
    either_order true hex = first_then (block_result hex) (tx_result hex)
    either_order false hex = first_then (tx_result hex) (block_result hex)

    unfoldable pub search_hex : Text → Text → Server f → Response f × Server f
    unfolding get_tx block_by_hash write_service_error write_not_found
    search_hex q hex = respond (search_response q) (either_order (starts_with zeros hex) hex)

    unfoldable pub search_block_by_height : Text → ℕ → Server f → Response f × Server f
    unfolding block_by_height write_service_error write_not_found
    search_block_by_height q height =
        respond (found_block_response q) (block_by_height env (pos height) 0 default_block_tx_limit)

    module _ {Addr : Type 0} (net : Net Addr) where
      abbrev pub classify : Text → Query Addr
      classify = classify_query net.decode net.is_for_net

      abbrev pub answer_tx : Query Addr → Server f → Response f × Server f
      answer_tx (Query.hex txid) s = respond tx_response (get_tx env txid) s
      answer_tx _ s = (write_error 400 Code.invalid_txid, s)

      unfoldable pub handle_tx : Text → Server f → Response f × Server f
      unfolding gate_syncing classify_query get_tx write_service_error
      handle_tx text = gate_syncing (answer_tx (classify text))

      -- `Address` of the service.
      abbrev pub address_of : Addr → ℕ → ℕ → Action (Service f) Error (AddressSummary f)
      address_of a offset limit =
          zoom (λ (s : Service f). s.totals) (λ c s. record s { totals = c })
            (summary env.new_amount env.codes (env.backend.search (net.encode a)) f (fiat_of env)
              (script_type_of (net.kind_of a)) (net.encode a) env.max_scan env.now offset limit)

      -- A scan of an address's history, with a token of the semaphore.
      abbrev pub scanning : (Server f → Response f × Server f) → Server f → Response f × Server f
      scanning rest s =
          let (has_slot, s') = acquire_scan net.max_scans s in
          let (response, s'') = rest s' in
          if has_slot then (response, release_scan net.max_scans s'') else (write_scan_busy, s')

      abbrev pub offset_of : Text → ℕ
      offset_of text = int_param net.atoi text 0 0 (2 ^ 30)

      abbrev pub limit_of : Text → ℕ
      limit_of text = int_param net.atoi text default_activity_limit 1 max_activity_limit

      abbrev pub answer_address : ℕ → ℕ → Query Addr → Server f → Response f × Server f
      answer_address offset limit (Query.address a) s =
          scanning (respond (address_response Payload.address) (address_of a offset limit)) s
      answer_address offset limit _ s = (write_error 400 Code.invalid_address, s)

      unfoldable pub handle_address : Text → Text → Text → Server f → Response f × Server f
      unfolding gate_syncing classify_query summary script_type_of acquire_scan release_scan
          int_param write_service_error write_scan_busy
      handle_address text offset limit =
          gate_syncing (answer_address (offset_of offset) (limit_of limit) (classify text))

      abbrev pub answer_block : ℕ → ℕ → Query Addr → Server f → Response f × Server f
      answer_block offset limit (Query.block_height height) s =
          respond block_response (block_by_height env (pos height) offset limit) s
      answer_block offset limit (Query.hex hash) s =
          respond block_response (block_by_hash env hash offset limit) s
      answer_block offset limit _ s = (write_error 400 Code.invalid_block, s)

      unfoldable pub handle_block : Text → Text → Text → Server f → Response f × Server f
      unfolding gate_syncing classify_query block_by_height block_by_hash int_param
          write_service_error
      handle_block text offset limit =
          gate_syncing (answer_block (offset_of offset) (limit_of limit) (classify text))

      abbrev pub answer_search : Text → Query Addr → Server f → Response f × Server f
      answer_search q (Query.block_height height) s = search_block_by_height q height s
      answer_search q (Query.hex hex) s = search_hex q hex s
      answer_search q (Query.address a) s =
          scanning
            (respond (address_response Payload.found_address)
              (address_of a 0 default_activity_limit))
            s
      answer_search q Query.invalid s = (write_json 200 Caching.no_store (Payload.invalid q), s)

      unfoldable pub handle_search : Text → Server f → Response f × Server f
      unfolding gate_syncing classify_query search_hex search_block_by_height summary script_type_of
          acquire_scan release_scan write_service_error write_scan_busy
      handle_search q = gate_syncing (answer_search q (classify q))
