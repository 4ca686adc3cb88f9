-- ===== src/Api/Routes.antt =====
-- internal/api/server.go and middleware.go: the routes behind the limiter. The patterns are matched by
-- net/http: `Route` is the handler that it picks, with the parts of the request that the handler
-- reads. The upgrade to a WebSocket and the static files are not among them.
use btcdwatch_com.Base.{Option, none, some, Bool, true, false}
use btcdwatch_com.Base.Float.{Float}
use btcdwatch_com.Base.Text.{Text, codes_eq}
use btcdwatch_com.Api.{Response, Code, Server, write_error}
use btcdwatch_com.Api.Handlers.{
  Net, handle_healthz, handle_tx, handle_address, handle_search, handle_block, handle_fees,
  handle_stats,
}
use btcdwatch_com.Limiter.{RateLimiter, with_rate_limit}
use btcdwatch_com.Service.{Env}

-- The texts of an address or a block are its path's, and the parameters offset and limit.
pub data Route : Type 0 where
  healthz fees stats unknown : Route
  tx search : Text → Route
  address block : Text → Text → Text → Route

-- `ip` is the client's address and `path` the path of the URL, which the limiter reads.
pub record Request : Type 0 where
  pub ip : Text
  pub path : Text
  pub route : Route

module _ {f : Float} {B H Addr : Type 0} (env : Env f B H) (net : Net Addr) where
  -- The handler of a route, where `connected` is whether the node is.
  unfoldable pub serve : Bool → Route → Server f → Response f × Server f
  unfolding handle_healthz handle_tx handle_address handle_search handle_block handle_fees
      handle_stats write_error
  serve connected healthz s = handle_healthz env connected s
  serve connected fees s = handle_fees env.now s
  serve connected stats s = handle_stats env.now s
  serve connected unknown s = (write_error 404 Code.unknown_endpoint, s)
  serve connected (tx text) s = handle_tx env net text s
  serve connected (search q) s = handle_search env net q s
  serve connected (address text offset limit) s = handle_address env net text offset limit s
  serve connected (block text offset limit) s = handle_block env net text offset limit s

  -- The handler of `New` with a limiter, or without one when the limit is not set.
  abbrev pub if_granted :
      Bool
      → Bool
      → Route
      → RateLimiter Text
      → Server f
      → Response f × (Option (RateLimiter Text) × Server f)
  if_granted true connected route l s =
      let (response, s') = serve connected route s in (response, (some l, s'))
  if_granted false connected route l s =
      (record (write_error 429 Code.rate_limited) { retry_after = some 10 }, (some l, s))

  unfoldable pub handle_request :
      Bool
      → Request
      → Option (RateLimiter Text) × Server f
      → Response f × (Option (RateLimiter Text) × Server f)
  unfolding with_rate_limit serve write_error
  handle_request connected r (none, s) =
      let (response, s') = serve connected r.route s in (response, (none, s'))
  handle_request connected r (some l, s) =
      let (l', granted) = with_rate_limit l r.ip r.path env.now in
      if_granted granted connected r.route l' s
