-- ===== src/Daemon.antt =====
-- cmd/btcdwatchd/main.go: the daemon puts the node's client, the service, the server and the hub
-- together, and these are the handlers that it gives to the client. The listeners, the flags and the
-- signals are not modelled.
pub mod Rounds
pub mod Boot
pub mod Guard
pub mod Life
use btcdwatch_com.Base.{
  ℕ, List, [], ◌∷◌, Option, none, some, Bool, true, false, if◌then◌else◌, ◌==◌,
}
use btcdwatch_com.Base.Int.{ℤ, pos, negsuc}
use btcdwatch_com.Base.Float.{Float}
use btcdwatch_com.Base.Text.{Text, codes_eq}
use btcdwatch_com.Api.{Server, Response}
use btcdwatch_com.Api.Handlers.{Net}
use btcdwatch_com.Api.Routes.{Request, handle_request}
use btcdwatch_com.Limiter.{RateLimiter, new_rate_limiter}
use btcdwatch_com.Arrivals.{note_arrival}
use btcdwatch_com.Chain.{Network, params_for_network}
use btcdwatch_com.Config
use btcdwatch_com.Config.{Config}
use btcdwatch_com.Fees.{FeeFloors}
use btcdwatch_com.Hub
use btcdwatch_com.Hub.{Hub, new_hub, notify_block, notify_mempool}
use btcdwatch_com.Live.{live_snapshot, new_live}
use btcdwatch_com.Node
use btcdwatch_com.Node.{Client, new_client, on_client_connected, is_available}
use btcdwatch_com.Price
use btcdwatch_com.Price.{Quote, new_quote}
use btcdwatch_com.Rpc.{TxRaw}
use btcdwatch_com.Service
use btcdwatch_com.Sync.{tip_age_gated}
use btcdwatch_com.Service.{Env, new_service, max_scan_or, through}

pub record Daemon (f : Float) : Type 0 where
  pub client : Client
  pub limiter : Option (RateLimiter Text)
  pub server : Server f
  pub hub : Hub Text

-- A limit that is not positive is none.
abbrev pub limit_of : ℤ → ℕ
limit_of (pos n) = n
limit_of (negsuc n) = 0

abbrev pub limiter_of : ℕ → ℤ → Option (RateLimiter Text)
limiter_of per_min burst = if per_min == 0 then none else some (new_rate_limiter per_min burst)

module _ {f : Float} where
  -- What the configuration gives to the parts, for a network that is known.
  abbrev pub floors_of : Config f → FeeFloors f
  floors_of c = record {
    floor_slow = c.fees.floor_slow;
    floor_standard = c.fees.floor_standard;
    floor_urgent = c.fees.floor_urgent;
  }

  abbrev pub daemon_on : Config f → ℕ → Option Network → Option (Daemon f)
  daemon_on c now none = none
  daemon_on c now (some net) = some (record {
    client = Node.start new_client;
    limiter = limiter_of (limit_of c.server.rate_limit_per_min) c.server.rate_limit_burst;
    server = record {
      service = new_service f (tip_age_gated net);
      live = new_live;
      scans = 0;
      network = c.node.network;
      started = now;
    };
    hub = new_hub (limit_of c.server.max_ws_clients);
  })

  -- The parts as `run` leaves them when the server starts to listen.
  unfoldable pub new_daemon : Config f → ℕ → Option (Daemon f)
  unfolding params_for_network new_service tip_age_gated new_rate_limiter
  new_daemon c now = daemon_on c now (params_for_network c.node.network)

  -- What the service and the server read of the configuration.
  abbrev pub env_of : {B H : Type 0} → Config f → Quote f → Env f B H → Env f B H
  env_of c quote env = record env {
    floors = floors_of c;
    max_scan = max_scan_or c.address.max_scan_txs;
    quote = quote;
  }

  abbrev pub net_of : {Addr : Type 0} → Config f → Net Addr → Net Addr
  net_of c net = record net { max_scans = limit_of c.address.max_concurrent_scans }

  -- A request to the handler of `New`, on top of the client.
  unfoldable pub request :
      {B H Addr : Type 0} → Env f B H → Net Addr → Bool → Request → Daemon f → Response f × Daemon f
  unfolding handle_request is_available
  request env net disconnected r d =
      let connected = is_available d.client disconnected in
      let (response, (limiter, server)) =
        handle_request (through d.client disconnected env) net connected r (d.limiter, d.server) in
      (response, record d { limiter = limiter; server = server })

  abbrev pub quote_of : Config f → ℕ → Quote f
  quote_of c now = new_quote f c.price.static_usd now

  -- `OnConnect`: `WarmLive`.
  unfoldable pub node_connected : Daemon f → ℕ → Daemon f
  unfolding on_client_connected live_snapshot
  node_connected d now =
      let (client, fires) = on_client_connected d.client in
      let warm = (live_snapshot d.server.live now).0 in
      let server = if fires then record d.server { live = warm } else d.server in
      record d { client = client; server = server }

  -- `OnBlock`, behind the client's own filter.
  abbrev pub announce : Daemon f → Text → Daemon f
  announce d hash = record d {
    server = record d.server { service = Service.on_block d.server.service };
    hub = notify_block d.hub hash;
  }

  abbrev pub if_fired : Bool → Daemon f → Text → Daemon f
  if_fired true d hash = announce d hash
  if_fired false d hash = d

  unfoldable pub node_block : Daemon f → Text → Daemon f
  unfolding Node.on_block Service.on_block notify_block
  node_block d hash =
      let (client, fires) = Node.on_block d.client hash in
      if_fired fires (record d { client = client }) hash

  -- `OnTxAccepted`.
  unfoldable pub node_tx_accepted :
      {B : Type 0} → (B → Option ℤ) → Daemon f → TxRaw B → ℕ → Daemon f
  unfolding note_arrival notify_mempool
  node_tx_accepted new_amount d raw now =
      let service = d.server.service in
      let feed = note_arrival new_amount service.feed raw.txid raw.vout now in
      let noted = record d {
        server = record d.server { service = record service { feed = feed } };
        hub = notify_mempool d.hub;
      } in
      if d.client.has_handlers then noted else d
