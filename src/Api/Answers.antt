-- ===== src/Api/Answers.antt =====
-- internal/api/handlers.go: what is answered while the node is syncing or unreachable.
use btcdwatch_com.Base.{
  ℕ, ◌-◌, ◌*◌, ◌≡◌, refl, ap, subst, sym, ◌∙◌, List, Option, none, some, Bool, true, false, ◌&&◌,
  ltb, if◌then◌else◌,
}
use btcdwatch_com.Base.Action.{Action, Result, err, bind_fails, pure}
use btcdwatch_com.Base.Float.{Float}
use btcdwatch_com.Base.Text.{Text}
use btcdwatch_com.Api.{
  Response, Code, Payload, Caching, default_block_tx_limit, confirmed_ttl, Server, write_error,
  write_service_error,
}
use btcdwatch_com.Api.Handlers.{
  Net, handle_tx, handle_address, handle_block, handle_search, gate_syncing, answer_tx,
  answer_address, answer_block, answer_search, classify, with_service, search_hex, either_order,
  first_then, is_not_found, caching_of, tx_result, block_result, starts_with, zeros, limit_of,
  offset_of,
}
use btcdwatch_com.Block.{block, block_by_hash}
use btcdwatch_com.Chain.{Query}
use btcdwatch_com.Lookup.{get_tx, raw_of}
use btcdwatch_com.Lookup.Payload.{get_tx-error}
use btcdwatch_com.Node.{
  Error, unavailable, Client, backend_of, call, is_available, is_no_tx_info, is_block_missing,
}
use btcdwatch_com.Service.{through, Env, Service}
use btcdwatch_com.Stats.{read_sync}
use btcdwatch_com.Sync.{Sync, SyncStatus, is_behind, sync_status}
use btcdwatch_com.Sync.Probes.{
  Event, after_events, last_answer, status_by, after_events-last_answer,
}

abbrev pub is_syncing : {f : Float} → Server f → Bool
is_syncing s = s.service.sync.status.syncing

module _ {f : Float} {B H : Type 0} (env : Env f B H) where
  -- The server after the read of the sync status.
  abbrev pub probed : Server f → Server f
  probed s = with_service (read_sync env s.service).1 s

  pub gate_syncing-syncing :
      (rest : Server f → Response f × Server f) (s : Server f)
      → is_syncing s ≡ true
      → gate_syncing env rest s ≡ (write_error 503 Code.node_syncing, probed s)
  unfolding gate_syncing read_sync sync_status
  gate_syncing-syncing rest s h = rw h refl

  pub gate_syncing-synced :
      (rest : Server f → Response f × Server f) (s : Server f)
      → is_syncing s ≡ false
      → gate_syncing env rest s ≡ rest (probed s)
  unfolding gate_syncing read_sync sync_status
  gate_syncing-synced rest s h = rw h refl

  -- The state of the sync probe after reads and probes, of which the last that the node answered, if
  -- any, was `last`; the gate is shut if its tip was too old then, or as it was at first without one.
  abbrev pub is_shut : Bool → Bool → Option (ℕ × (ℕ × ℕ)) → Bool
  is_shut gated at_first none = at_first
  is_shut gated at_first (some (now, (tip, tip_time))) =
      gated && ltb (4 * 3600 * 1000000000) (now - tip_time * 1000000000)

  is_shut-status_by :
      (gated : Bool) (st : SyncStatus) (last : Option (ℕ × (ℕ × ℕ)))
      → (status_by gated st last).syncing ≡ is_shut gated st.syncing last
  unfolding is_behind
  is_shut-status_by gated st none = refl
  is_shut-status_by gated st (some (now, (tip, tip_time))) = refl

  gate_lem :
      (gated : Bool) (s0 : Sync) (es : List Event) (s : Server f)
      → s.service.sync ≡ after_events gated s0 es
      → is_syncing s ≡ is_shut gated s0.status.syncing (last_answer none es)
  gate_lem gated s0 es s at =
      ap (λ (y : Sync). y.status.syncing) at
      ∙ ap SyncStatus.syncing (after_events-last_answer gated s0 es)
      ∙ is_shut-status_by gated s0.status (last_answer none es)

  gate_syncing-last_answer :
      (rest : Server f → Response f × Server f) (s : Server f) (shut : Bool)
      → is_syncing s ≡ shut
      → gate_syncing env rest s
        ≡ (if shut then (write_error 503 Code.node_syncing, probed s) else rest (probed s))
  gate_syncing-last_answer rest s true h = gate_syncing-syncing rest s h
  gate_syncing-last_answer rest s false h = gate_syncing-synced rest s h

  -- When the state of the sync probe has come about from a first one by reads of the status and ends
  -- of probes, in any order and with any errors, then the last probe that the node answered decides:
  -- if on a network where the age counts its tip was more than four hours old at that time, or if there
  -- is none and the first state was syncing, each of the four lookups answers `node_syncing` with
  -- status 503 and changes nothing but the state of the probe; else each is answered in full.
  pub handlers-gated :
      {Addr : Type 0} (net : Net Addr) (text offset limit : Text) (gated : Bool) (s0 : Sync)
      (es : List Event) (s : Server f)
      → s.service.sync ≡ after_events gated s0 es
      → let shut = is_shut gated s0.status.syncing (last_answer none es) in
        let refused : Response f × Server f = (write_error 503 Code.node_syncing, probed s) in
        let query = classify env net text in
        let from = offset_of env net offset in
        let most = limit_of env net limit in
        (handle_tx env net text s ≡ (if shut then refused else answer_tx env net query (probed s)))
        × (handle_address env net text offset limit s
            ≡ (if shut then refused else answer_address env net from most query (probed s)))
        × (handle_block env net text offset limit s
            ≡ (if shut then refused else answer_block env net from most query (probed s)))
        × (handle_search env net text s
            ≡ (if shut then refused else answer_search env net text query (probed s)))
  unfolding handle_tx handle_address handle_block handle_search
  handlers-gated net text offset limit gated s0 es s at =
      let decided = gate_lem gated s0 es s at in
      let query = classify env net text in
      let from = offset_of env net offset in
      let most = limit_of env net limit in
      (
        gate_syncing-last_answer (answer_tx env net query) s _ decided,
        gate_syncing-last_answer (answer_address env net from most query) s _ decided,
        gate_syncing-last_answer (answer_block env net from most query) s _ decided,
        gate_syncing-last_answer (answer_search env net text query) s _ decided,
      )

first_then-fails :
    {f : Float} {A : Type 0} (first again : Action (Service f) Error A) (x : Error)
    (s s' : Service f)
    → is_not_found x ≡ false
    → first s ≡ (err x, s')
    → first_then first again s ≡ (err x, s')
first_then-fails {f} {A} first again x s s' h e =
    subst (λ (q : Result Error A × Service f). first_then (λ _. q) again s ≡ (err x, s')) (sym e)
      (rw h refl)

module _ {f : Float} {B H : Type 0} (c : Client) (disconnected : Bool) (env : Env f B H)
    (away : is_available c disconnected ≡ false) where
  call-away : {A : Type 0} (answer : Result Error A) → call c disconnected answer ≡ err unavailable
  unfolding call
  call-away answer = rw away refl

  raw_of-away :
      (hex : Text) (hash : H)
      → env.parse_hash hex ≡ some hash
      → raw_of (through c disconnected env) hex ≡ err unavailable
  unfolding raw_of backend_of is_no_tx_info
  raw_of-away hex hash at = rw (at, call-away (env.backend.raw_transaction hash)) refl

  get_tx-away :
      (hex : Text) (hash : H) (s : Service f)
      → env.parse_hash hex ≡ some hash
      → get_tx (through c disconnected env) hex s ≡ (err unavailable, s)
  get_tx-away hex hash s at =
      get_tx-error (through c disconnected env) hex s unavailable (raw_of-away hex hash at)

  block_by_hash-away :
      (hex : Text) (hash : H) (offset limit : ℕ) (s : Service f)
      → env.parse_hash hex ≡ some hash
      → block_by_hash (through c disconnected env) hex offset limit s ≡ (err unavailable, s)
  unfolding block_by_hash block backend_of is_block_missing
  block_by_hash-away hex hash offset limit s at = rw (at, call-away (env.backend.block hash)) refl

  either_order-away :
      (zeros_first : Bool) (hex : Text) (hash : H) (s : Service f)
      → env.parse_hash hex ≡ some hash
      → either_order (through c disconnected env) zeros_first hex s ≡ (err unavailable, s)
  either_order-away true hex hash s at =
      let env' = through c disconnected env in
      first_then-fails (block_result env' hex) (tx_result env' hex) unavailable s s refl (
        bind_fails (block_by_hash env' hex 0 default_block_tx_limit)
          (λ b. pure (Payload.found_block b, Caching.public_for confirmed_ttl)) unavailable s s
          (block_by_hash-away hex hash 0 default_block_tx_limit s at))
  either_order-away false hex hash s at =
      let env' = through c disconnected env in
      first_then-fails (tx_result env' hex) (block_result env' hex) unavailable s s refl (
        bind_fails (get_tx env' hex) (λ t. pure (Payload.found_tx t, caching_of t.status))
          unavailable s s (get_tx-away hex hash s at))

  -- While the connection to the node is not there and the sync status is not syncing, a request with
  -- a text that is an id is answered by `node_unavailable` with status 503, by the transaction, the
  -- block and the search endpoint, so never as if there were none; and nothing changes but the state
  -- of the sync probe.
  pub handlers-unavailable :
      {Addr : Type 0} (net : Net Addr) (text hex offset limit : Text) (hash : H) (s : Server f)
      → classify (through c disconnected env) net text ≡ Query.hex hex
      → env.parse_hash hex ≡ some hash
      → is_syncing s ≡ false
      → let env' = through c disconnected env in
        let refused : Response f × Server f =
          (write_error 503 Code.node_unavailable, probed env' s) in
        (handle_tx env' net text s ≡ refused)
        × (handle_block env' net text offset limit s ≡ refused)
        × (handle_search env' net text s ≡ refused)
  unfolding handle_tx handle_block handle_search search_hex write_service_error
  handlers-unavailable net text hex offset limit hash s is_hex at synced =
      let env' = through c disconnected env in
      let t = (probed env' s).service in
      let first = starts_with zeros hex in
      (
        gate_syncing-synced env' (answer_tx env' net (classify env' net text)) s synced
            ∙ rw (is_hex, get_tx-away hex hash t at) refl,
        gate_syncing-synced env'
              (answer_block env' net (offset_of env' net offset) (limit_of env' net limit)
                (classify env' net text))
              s synced
            ∙ rw
                (
                  is_hex,
                  block_by_hash-away hex hash (offset_of env net offset) (limit_of env net limit) t
                      at,
                )
                refl,
        gate_syncing-synced env' (answer_search env' net text (classify env' net text)) s synced
            ∙ rw (is_hex, either_order-away first hex hash t at) refl,
      )
