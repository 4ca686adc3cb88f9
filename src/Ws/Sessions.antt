-- ===== src/Ws/Sessions.antt =====
-- internal/api/ws.go and hub.go: the hub's loop beside the goroutines that send to it, one read pump
-- for each connection. What a connection has still to send stands in its stream. A move takes the
-- head of one stream, or is another event of the loop; so a run is any interleaving of the streams.
pub mod Invariant
use btcdwatch_com.Base.{
  ℕ, suc, ◌≤◌, ◌<◌, ◌≡◌, refl, sym, subst, ◌∙◌, ap, List, [], ◌∷◌, Option, Bool, true, false, arith,
  if◌then◌else◌, ◌==◌, ==_iff, ◌&&◌, nat_eq, inl, inr, Bool-cases, length,
}
use btcdwatch_com.Base.Map.{elem, lookup}
use btcdwatch_com.Base.Text.{Text, codes_eq}
use btcdwatch_com.Chain.Classify.{AllLowerHex}
use btcdwatch_com.Hub.{
  Hub, Event, done, block, mempool, mempool_tick, tick, log_tick, null, register, unregister,
  command, new_hub, watched_of, step, notify_block, notify_mempool,
}
use btcdwatch_com.Hub.Invariant.{IsHub, Reachable, Moves, IsAdmissible, Reachable-IsHub}
use btcdwatch_com.Hub.Others.{
  IsSparing, Asks, IsOut, AllWatched, step-watched_of, step-AllWatched, step-IsOut,
  unregister-IsOut,
}
use btcdwatch_com.Hub.Watchers.{watches}
use btcdwatch_com.Ws.{Inbound, read_pump}
use btcdwatch_com.Ws.Commands.{IsPump, gone, commanded, read_pump-IsPump}

-- The connections are numbered in the order in which they are upgraded.
pub record System : Type 0 where
  pub hub : Hub Text
  pub upgraded : ℕ
  pub streams : ℕ → List (Event Text)

abbrev pub put : ℕ → List (Event Text) → (ℕ → List (Event Text)) → ℕ → List (Event Text)
put c es streams j = if c == j then es else streams j

unfoldable pub new_system : ℕ → System
new_system max_clients = record { hub = new_hub max_clients; upgraded = 0; streams = λ c. [] }

-- The loop takes what connection `c` has sent next.
unfoldable pub take_from : System → ℕ → Event Text → List (Event Text) → System
take_from s c ev es = record s { hub = (step s.hub ev).0; streams = put c es s.streams }

-- The form of an id in which the node names a transaction.
abbrev pub IsTxid : Text → Type 0
IsTxid t = (length t ≡ 64) × AllLowerHex t

-- An event that is no connection's own: the hub's `send` unregisters too.
abbrev pub IsOwn : Event Text → Type 0
IsOwn (register c) = ⊥
IsOwn (command c watch t) = ⊥
IsOwn _ = Unit

module _ {Addr : Type 0} (decode : Text → Option Addr) (is_for_net : Addr → Bool) where
  -- `handleWS` behind the upgrade: the hub knows the connection before its read pump starts.
  unfoldable pub handle_ws : ℕ → List Inbound → List (Event Text)
  unfolding read_pump
  handle_ws c frames = register c ∷ read_pump decode is_for_net c frames

  -- A connection is upgraded, which will send these frames.
  unfoldable pub upgrade : System → List Inbound → System
  unfolding handle_ws
  upgrade s frames = record s {
    upgraded = suc s.upgraded;
    streams = put s.upgraded (handle_ws s.upgraded frames) s.streams;
  }

  -- `round` is also the hub's `send`, which unregisters a connection that is too slow.
  pub data Turn (s : System) : System → Type 0 where
    upgraded : (frames : List Inbound) → Turn s (upgrade s frames)
    taken :
        (c : ℕ) (ev : Event Text) (es : List (Event Text))
        → s.streams c ≡ ev ∷ es
        → Turn s (take_from s c ev es)
    round : (ev : Event Text) → IsOwn ev → Turn s (record s { hub = (step s.hub ev).0 })
    block_notified : (hash : Text) → Turn s (record s { hub = notify_block s.hub hash })
    mempool_notified : Turn s (record s { hub = notify_mempool s.hub })

  pub data Runs (max_clients : ℕ) : System → Type 0 where
    start : Runs max_clients (new_system max_clients)
    next : {s s' : System} → Runs max_clients s → Turn s s' → Runs max_clients s'
