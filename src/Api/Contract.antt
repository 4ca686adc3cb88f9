-- ===== src/Api/Contract.antt =====
-- internal/api: the contract of the endpoints on the status, the error code and the caching.
use btcdwatch_com.Base.{
  ℕ, ◌≡◌, refl, sym, Option, none, some, Bool, true, false, ◌&&◌, ◌||◌, ◌==◌, ltb, not, inl, inr,
  Bool-cases, subst, ◌-◌,
}
use btcdwatch_com.Base.Action.{Action, Result, ok, err, pure, Gives, gives_then, gives_pure, err≢ok}
use btcdwatch_com.Base.Float.{Float}
use btcdwatch_com.Base.Text.{Text, codes_eq}
use btcdwatch_com.Address.{AddressSummary}
use btcdwatch_com.Api.{
  Response, Payload, Caching, Code, Server, write_error, write_service_error, write_not_found,
  default_block_tx_limit, confirmed_ttl,
}
use btcdwatch_com.Api.Answers.{is_syncing, probed, gate_syncing-syncing, gate_syncing-synced}
use btcdwatch_com.Api.Handlers.{
  tx_response, block_response, address_response, feed_response, search_response,
  found_block_response, health_of, gate_syncing, is_not_found, caching_of, tx_result, block_result,
  or_second, either_order, or_started, health_max_stale,
}
use btcdwatch_com.Block.{Block, block_by_hash}
use btcdwatch_com.Lookup.{Tx, TxStatus, confirmed, pending, get_tx}
use btcdwatch_com.Node.{Error}
use btcdwatch_com.Service.{Env, Service}
use btcdwatch_com.Sync.{SyncStatus}

-- The status that belongs to an error code.
abbrev pub status_of : Code → ℕ
status_of Code.busy = 503
status_of Code.node_syncing = 503
status_of Code.node_unavailable = 503
status_of Code.internal_error = 500
status_of Code.invalid_txid = 400
status_of Code.tx_missing = 404
status_of Code.invalid_address = 400
status_of Code.invalid_block = 400
status_of Code.block_missing = 404
status_of Code.unknown_endpoint = 404
status_of Code.rate_limited = 429

-- No Cache-Control header is set, which leaves it to the client what it keeps.
abbrev pub is_unset : Caching → Bool
is_unset Caching.unset = true
is_unset _ = false

-- An error has the status of its code and sets no Cache-Control, what healthz reports has 200 or 503
-- and sets none either, and all else has 200 and sets one.
unfoldable pub keeps : {f : Float} → ℕ → Caching → Payload f → Bool
keeps status caching (Payload.error code) = status == status_of code && is_unset caching
keeps status caching (Payload.health h) = (status == 200 || status == 503) && is_unset caching
keeps status caching _ = status == 200 && not (is_unset caching)

abbrev pub IsContract : {f : Float} → Response f → Type 0
IsContract r = keeps r.status r.caching r.payload ≡ true

write_service_error-IsContract :
    (f : Float) (x : Error) → IsContract (write_service_error {f = f} x)
unfolding write_service_error keeps
write_service_error-IsContract f Error.unavailable = refl
write_service_error-IsContract f Error.tx_not_found = refl
write_service_error-IsContract f Error.block_not_found = refl
write_service_error-IsContract f Error.other = refl
write_service_error-IsContract f (Error.rpc code) = refl

caching_of-set : (st : TxStatus) → is_unset (caching_of st) ≡ false
caching_of-set confirmed = refl
caching_of-set pending = refl

pub health_of-IsContract :
    (f : Float) (connected : Bool) (now : ℕ) (network : Text) (started : ℕ) (st : SyncStatus)
    → IsContract {f = f} (health_of connected now network started st)
unfolding keeps
health_of-IsContract f false now network started st = refl
health_of-IsContract f true now network started st =
    elim (Bool-cases (ltb health_max_stale (now - or_started started st.checked_at))) [
      | inl stale ↦ rw stale refl
      | inr lively ↦ rw lively refl
    ]

module _ {f : Float} where
  pub tx_response-IsContract : (r : Result Error (Tx f)) → IsContract (tx_response r)
  unfolding write_service_error write_error keeps
  tx_response-IsContract (ok t) = rw (caching_of-set t.status) refl
  tx_response-IsContract (err Error.unavailable) = refl
  tx_response-IsContract (err Error.tx_not_found) = refl
  tx_response-IsContract (err Error.block_not_found) = refl
  tx_response-IsContract (err Error.other) = refl
  tx_response-IsContract (err (Error.rpc code)) = refl

  pub block_response-IsContract : (r : Result Error (Block f)) → IsContract (block_response r)
  unfolding write_service_error write_error keeps
  block_response-IsContract (ok b) = refl
  block_response-IsContract (err Error.unavailable) = refl
  block_response-IsContract (err Error.tx_not_found) = refl
  block_response-IsContract (err Error.block_not_found) = refl
  block_response-IsContract (err Error.other) = refl
  block_response-IsContract (err (Error.rpc code)) = refl

  pub found_block_response-IsContract :
      (q : Text) (r : Result Error (Block f)) → IsContract (found_block_response q r)
  unfolding write_service_error write_error write_not_found keeps
  found_block_response-IsContract q (ok b) = refl
  found_block_response-IsContract q (err Error.unavailable) = refl
  found_block_response-IsContract q (err Error.tx_not_found) = refl
  found_block_response-IsContract q (err Error.block_not_found) = refl
  found_block_response-IsContract q (err Error.other) = refl
  found_block_response-IsContract q (err (Error.rpc code)) = refl

  -- A payload and a rule for caches that a search may answer with.
  abbrev pub IsFound : Payload f × Caching → Type 0
  IsFound (payload, caching) = keeps 200 caching payload ≡ true

  pub search_response-IsContract :
      (q : Text) (r : Result Error (Payload f × Caching))
      → ((found : Payload f × Caching) → r ≡ ok found → IsFound found)
      → IsContract (search_response q r)
  unfolding write_not_found keeps
  search_response-IsContract q (ok found) h = h found refl
  search_response-IsContract q (err x) h = elim (Bool-cases (is_not_found x)) [
    | inl missing ↦ rw missing refl
    | inr failed ↦ rw failed (write_service_error-IsContract f x)
  ]

  pub address_response-IsContract :
      (payload : AddressSummary f → Payload f) (r : Result Error (AddressSummary f))
      → ((a : AddressSummary f) → IsFound (payload a, Caching.no_store))
      → IsContract (address_response payload r)
  address_response-IsContract payload (ok a) h = h a
  address_response-IsContract payload (err x) h = write_service_error-IsContract f x

  pub feed_response-IsContract :
      {A : Type 0} (payload : A → Payload f) (r : Option A)
      → ((a : A) → IsFound (payload a, Caching.public_for 5))
      → IsContract (feed_response payload r)
  feed_response-IsContract payload none h = write_service_error-IsContract f Error.unavailable
  feed_response-IsContract payload (some a) h = h a

  module _ {B H : Type 0} (env : Env f B H) where
    -- What a handler answers, whatever the state it starts in.
    abbrev pub Answers : (Server f → Response f × Server f) → Type 0
    Answers h = (s : Server f) → IsContract (h s).0

    pub gate_syncing-IsContract :
        (rest : Server f → Response f × Server f) → Answers rest → Answers (gate_syncing env rest)
    unfolding write_error keeps
    gate_syncing-IsContract rest h s = elim (Bool-cases (is_syncing s)) [
      | inl syncing ↦
          subst (λ (p : Response f × Server f). IsContract p.0)
            (sym (gate_syncing-syncing env rest s syncing)) refl
      | inr synced ↦
          subst (λ (p : Response f × Server f). IsContract p.0)
            (sym (gate_syncing-synced env rest s synced)) (h (probed env s))
    ]

    tx_result-IsFound : (txid : Text) → Gives (tx_result env txid) IsFound
    unfolding keeps
    tx_result-IsFound txid =
        gives_then IsFound (get_tx env txid) (λ t. pure (Payload.found_tx t, caching_of t.status))
          (λ t.
            gives_pure IsFound (Payload.found_tx t, caching_of t.status)
              (rw (caching_of-set t.status) refl))

    block_result-IsFound : (hash : Text) → Gives (block_result env hash) IsFound
    unfolding keeps
    block_result-IsFound hash =
        gives_then IsFound (block_by_hash env hash 0 default_block_tx_limit)
          (λ b. pure (Payload.found_block b, Caching.public_for confirmed_ttl))
          (λ b. gives_pure IsFound (Payload.found_block b, Caching.public_for confirmed_ttl) refl)

    or_second-IsFound :
        (r : Result Error (Payload f × Caching))
        (again : Action (Service f) Error (Payload f × Caching))
        → ((found : Payload f × Caching) → r ≡ ok found → IsFound found)
        → Gives again IsFound
        → Gives (or_second r again) IsFound
    or_second-IsFound (ok found) again h g s a e = h a e
    or_second-IsFound (err x) again h g s a e = elim (Bool-cases (is_not_found x)) [
      | inl missing ↦ g s a (rw missing at e)
      | inr failed ↦ absurd (err≢ok (rw failed at e))
    ]

    pub either_order-IsFound :
        (zeros_first : Bool) (hex : Text) → Gives (either_order env zeros_first hex) IsFound
    either_order-IsFound true hex s =
        or_second-IsFound (block_result env hex s).0 (tx_result env hex)
          (block_result-IsFound hex s) (tx_result-IsFound hex) (block_result env hex s).1
    either_order-IsFound false hex s =
        or_second-IsFound (tx_result env hex s).0 (block_result env hex) (tx_result-IsFound hex s)
          (block_result-IsFound hex) (tx_result env hex s).1
