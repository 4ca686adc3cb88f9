-- ===== src/Api/Endpoints.antt =====
-- internal/api: every endpoint keeps the contract, whatever the node answers and the caches hold.
use btcdwatch_com.Base.{ℕ, refl, Option, none, some, Bool, true, false, inl, inr, Bool-cases}
use btcdwatch_com.Base.Int.{pos}
use btcdwatch_com.Base.Float.{Float}
use btcdwatch_com.Base.Text.{Text, codes_eq}
use btcdwatch_com.Address.{AddressSummary}
use btcdwatch_com.Api.{
  Response, Payload, Caching, Server, write_error, write_scan_busy, acquire_scan,
}
use btcdwatch_com.Api.Contract.{
  keeps, IsContract, IsFound, Answers, tx_response-IsContract, block_response-IsContract,
  found_block_response-IsContract, search_response-IsContract, address_response-IsContract,
  feed_response-IsContract, health_of-IsContract, gate_syncing-IsContract, either_order-IsFound,
}
use btcdwatch_com.Api.Handlers.{
  Net, answer_tx, answer_address, answer_block, answer_search, scanning, search_hex,
  search_block_by_height, classify, limit_of, offset_of, either_order, starts_with, zeros,
  address_of, respond, address_response,
}
use btcdwatch_com.Api.Routes.{Route, Request, serve, handle_request, if_granted}
use btcdwatch_com.Block.{block_by_hash, block_by_height}
use btcdwatch_com.Chain.{Query}
use btcdwatch_com.Limiter.{RateLimiter, with_rate_limit}
use btcdwatch_com.Live.{read_fees, read_stats}
use btcdwatch_com.Lookup.{get_tx}
use btcdwatch_com.Service.{Env}
use btcdwatch_com.Stats.{read_sync}

module _ {f : Float} {B H Addr : Type 0} (env : Env f B H) (net : Net Addr) where
  answer_tx-IsContract : (q : Query Addr) → Answers env (answer_tx env net q)
  unfolding write_error keeps
  answer_tx-IsContract (Query.hex txid) s = tx_response-IsContract (get_tx env txid s.service).0
  answer_tx-IsContract (Query.block_height n) s = refl
  answer_tx-IsContract (Query.address a) s = refl
  answer_tx-IsContract Query.invalid s = refl

  answer_block-IsContract :
      (offset limit : ℕ) (q : Query Addr) → Answers env (answer_block env net offset limit q)
  unfolding write_error keeps
  answer_block-IsContract offset limit (Query.hex hash) s =
      block_response-IsContract (block_by_hash env hash offset limit s.service).0
  answer_block-IsContract offset limit (Query.block_height n) s =
      block_response-IsContract (block_by_height env (pos n) offset limit s.service).0
  answer_block-IsContract offset limit (Query.address a) s = refl
  answer_block-IsContract offset limit Query.invalid s = refl

  scanning-IsContract :
      (rest : Server f → Response f × Server f)
      → Answers env rest
      → Answers env (scanning env net rest)
  unfolding write_scan_busy write_error keeps
  scanning-IsContract rest h s = elim (Bool-cases (acquire_scan net.max_scans s).0) [
    | inl slot ↦ rw slot (h (acquire_scan net.max_scans s).1)
    | inr full ↦ rw full refl
  ]

  address-IsContract :
      (payload : AddressSummary f → Payload f) (a : Addr) (offset limit : ℕ)
      → ((x : AddressSummary f) → IsFound (payload x, Caching.no_store))
      → Answers env (
          scanning env net (respond (address_response payload) (address_of env net a offset limit)))
  address-IsContract payload a offset limit h =
      scanning-IsContract (respond (address_response payload) (address_of env net a offset limit))
        (λ s. address_response-IsContract payload (address_of env net a offset limit s.service).0 h)

  answer_address-IsContract :
      (offset limit : ℕ) (q : Query Addr) → Answers env (answer_address env net offset limit q)
  unfolding write_error keeps
  answer_address-IsContract offset limit (Query.address a) s =
      address-IsContract Payload.address a offset limit (λ x. refl) s
  answer_address-IsContract offset limit (Query.hex hash) s = refl
  answer_address-IsContract offset limit (Query.block_height n) s = refl
  answer_address-IsContract offset limit Query.invalid s = refl

  answer_search-IsContract :
      (q : Text) (query : Query Addr) → Answers env (answer_search env net q query)
  unfolding search_hex search_block_by_height keeps
  answer_search-IsContract q (Query.address a) s =
      address-IsContract Payload.found_address a 0 25 (λ x. refl) s
  answer_search-IsContract q (Query.hex hex) s =
      let first = starts_with zeros hex in
      search_response-IsContract q (either_order env first hex s.service).0
        (either_order-IsFound env first hex s.service)
  answer_search-IsContract q (Query.block_height n) s =
      found_block_response-IsContract q (block_by_height env (pos n) 0 25 s.service).0
  answer_search-IsContract q Query.invalid s = refl

  serve-IsContract :
      (connected : Bool) (route : Route) → Answers env (serve env net connected route)
  unfolding serve write_error keeps
  serve-IsContract connected Route.healthz s =
      health_of-IsContract f connected env.now s.network s.started (read_sync env s.service).0
  serve-IsContract connected Route.fees s =
      feed_response-IsContract Payload.fees (read_fees s.live env.now).1 (λ a. refl)
  serve-IsContract connected Route.stats s =
      feed_response-IsContract Payload.stats (read_stats s.live env.now).1 (λ a. refl)
  serve-IsContract connected Route.unknown s = refl
  serve-IsContract connected (Route.tx text) s =
      gate_syncing-IsContract env (answer_tx env net (classify env net text))
        (answer_tx-IsContract (classify env net text)) s
  serve-IsContract connected (Route.search q) s =
      gate_syncing-IsContract env (answer_search env net q (classify env net q))
        (answer_search-IsContract q (classify env net q)) s
  serve-IsContract connected (Route.address text offset limit) s =
      let o = offset_of env net offset in
      let l = limit_of env net limit in
      gate_syncing-IsContract env (answer_address env net o l (classify env net text))
        (answer_address-IsContract o l (classify env net text)) s
  serve-IsContract connected (Route.block text offset limit) s =
      let o = offset_of env net offset in
      let l = limit_of env net limit in
      gate_syncing-IsContract env (answer_block env net o l (classify env net text))
        (answer_block-IsContract o l (classify env net text)) s

  if_granted-IsContract :
      (granted connected : Bool) (route : Route) (l : RateLimiter Text) (s : Server f)
      → IsContract (if_granted env net granted connected route l s).0
  unfolding write_error keeps
  if_granted-IsContract true connected route l s = serve-IsContract connected route s
  if_granted-IsContract false connected route l s = refl

  -- Whatever the request, the limiter, the caches and the answers of the node are, a response keeps
  -- the contract: an error code comes with its one status, never with 200, and with no Cache-Control
  -- header; a health report has 200 or 503, and no such header either; and all else has 200 and says
  -- how it may be cached.
  pub handle_request-IsContract :
      (connected : Bool) (r : Request) (limiter : Option (RateLimiter Text)) (s : Server f)
      → IsContract (handle_request env net connected r (limiter, s)).0
  unfolding handle_request
  handle_request-IsContract connected r none s = serve-IsContract connected r.route s
  handle_request-IsContract connected r (some l) s =
      let (l', granted) = with_rate_limit l r.ip r.path env.now in
      if_granted-IsContract granted connected r.route l' s
