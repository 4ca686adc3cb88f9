-- ===== src/Daemon/Life.antt =====
-- cmd/btcdwatchd/main.go: the daemon while it runs. The requests, the notifications of the node, the
-- connections and the hub's loop take turns in any order.
use btcdwatch_com.Base.{ℕ, ◌≡◌, List, [], Option, some, Bool, true, nat_eq}
use btcdwatch_com.Base.Float.{Float}
use btcdwatch_com.Base.Int.{ℤ}
use btcdwatch_com.Base.Text.{Text, codes_eq}
use btcdwatch_com.Api.Handlers.{Net}
use btcdwatch_com.Api.Routes.{Request}
use btcdwatch_com.Config.{Config}
use btcdwatch_com.Daemon.{
  Daemon, new_daemon, request, node_connected, node_block, node_tx_accepted, limit_of,
}
use btcdwatch_com.Hub.{Event}
use btcdwatch_com.Rpc.{TxRaw}
use btcdwatch_com.Service.{Env}
use btcdwatch_com.Ws.Sessions.{System, Runs}
use btcdwatch_com.Ws.Sessions

-- The daemon with the connections beside its hub.
pub record Site (f : Float) : Type 0 where
  pub daemon : Daemon f
  pub upgraded : ℕ
  pub streams : ℕ → List (Event Text)

module _ {f : Float} where
  abbrev pub system_of : Site f → System
  system_of w = record { hub = w.daemon.hub; upgraded = w.upgraded; streams = w.streams }

  abbrev pub with_system : Site f → System → Site f
  with_system w s = record {
    daemon = record w.daemon { hub = s.hub };
    upgraded = s.upgraded;
    streams = s.streams;
  }

  -- A double of BTC is a `B` and a hash an `H`, as in `Env`.
  module _ (B H : Type 0) {Addr : Type 0} (decode : Text → Option Addr)
      (is_for_net : Addr → Bool) where
    -- `hub` is a turn of a connection or of the loop.
    pub data Turn (w : Site f) : Site f → Type 1 where
      asked :
          (env : Env f B H) (net : Net Addr) (disconnected : Bool) (r : Request)
          → Turn w (record w { daemon = (request env net disconnected r w.daemon).1 })
      connected : (now : ℕ) → Turn w (record w { daemon = node_connected w.daemon now })
      told : (hash : Text) → Turn w (record w { daemon = node_block w.daemon hash })
      accepted :
          (new_amount : B → Option ℤ) (raw : TxRaw B) (now : ℕ)
          → Turn w (record w { daemon = node_tx_accepted new_amount w.daemon raw now })
      hub :
          (s : System) → Sessions.Turn decode is_for_net (system_of w) s → Turn w (with_system w s)

    pub data Lives (c : Config f) : Site f → Type 1 where
      start :
          (now : ℕ) (d : Daemon f)
          → new_daemon c now ≡ some d
          → Lives c (record { daemon = d; upgraded = 0; streams = λ j. [] })
      next : {w w' : Site f} → Lives c w → Turn w w' → Lives c w'

    record IsSite (c : Config f) (w : Site f) : Type 0 where
      runs : Runs decode is_for_net (limit_of c.server.max_ws_clients) (system_of w)
      handles : w.daemon.client.has_handlers ≡ true
