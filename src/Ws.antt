-- ===== src/Ws.antt =====
-- internal/api/ws.go, and what hub.go sends to the connections. A connection's channel `send` holds
-- the messages that its write pump has not yet taken. Its read pump is the list of the frames that it
-- reads before the connection ends; deadlines and the upgrade itself are not modelled.
pub mod Commands
pub mod Sends
pub mod Sessions
pub mod Pump
use btcdwatch_com.Base.{
  ℕ, ◌+◌, List, [], ◌∷◌, ◌++◌, length, Option, none, some, Bool, true, false, not, ◌&&◌, ◌||◌,
  if◌then◌else◌, ltb, ◌==◌, nat_eq,
}
use btcdwatch_com.Base.Action.{Action, Result, ok, err, ◌>>=◌, pure}
use btcdwatch_com.Base.Float.{Float}
use btcdwatch_com.Base.Map.{lookup, insert}
use btcdwatch_com.Base.Text.{Text, codes, text_eq}
use btcdwatch_com.Api.{Server}
use btcdwatch_com.Api.Handlers.{Net, classify, with_service}
use btcdwatch_com.Arrivals.{MempoolUpdate}
use btcdwatch_com.Block.{BlockFlash, block_flash}
use btcdwatch_com.Chain.{Query, classify_query}
use btcdwatch_com.Hub.{Event, Push}
use btcdwatch_com.Live.{read_stats, read_update}
use btcdwatch_com.Lookup.{Tx, TxStatus, TxBlock, get_tx}
use btcdwatch_com.Node.{Error}
use btcdwatch_com.Service.{Env, Service}
use btcdwatch_com.Stats.{Stats}
use btcdwatch_com.Tx.{TxPending}

abbrev pub send_buffer_size : ℕ
send_buffer_size = 32

-- `wsInbound`.
pub record Inbound : Type 0 where
  pub kind : Text
  pub txid : Text

pub record WsClient (M : Type 0) : Type 0 where
  pub send : List M
  pub done : Bool

-- The connections by their numbers, and the channel `unregister`, which holds eight of them.
pub record Conns (M : Type 0) : Type 0 where
  pub clients : List (ℕ × WsClient M)
  pub unregister : List ℕ

abbrev pub unregister_size : ℕ
unregister_size = 8

abbrev pub or_unregister : Bool → ℕ → List ℕ → List ℕ
or_unregister true c q = q
or_unregister false c q = if ltb (length q) unregister_size then q ++ c ∷ [] else q

module _ {M : Type 0} where
  abbrev pub new_client : WsClient M
  new_client = record { send = []; done = false }

  -- `trySend`. A connection that is shut down and has room may or may not take the message: which
  -- one the `select` picks is `picks_send`.
  unfoldable pub try_send : Bool → M → WsClient M → Bool × WsClient M
  try_send picks_send msg c =
      if ltb (length c.send) send_buffer_size && (not c.done || picks_send)
      then (true, record c { send = c.send ++ msg ∷ [] })
      else (c.done, c)

  unfoldable pub shutdown : WsClient M → WsClient M
  shutdown c = record c { done = true }

  abbrev pub send_one : Bool → M → ℕ → Option (WsClient M) → Conns M → Conns M
  send_one picks msg c none s = s
  send_one picks msg c (some client) s =
      let (sent, client') = try_send picks msg client in
      record {
        clients = insert c client' s.clients;
        unregister = or_unregister sent c s.unregister;
      }

  -- The loop of `send`, for a message that was marshalled.
  unfoldable pub send_all : (ℕ → Bool) → M → List ℕ → Conns M → Conns M
  unfolding try_send
  send_all picks msg [] s = s
  send_all picks msg (c ∷ cs) s =
      send_all picks msg cs (send_one (picks c) msg c (lookup c s.clients) s)

module _ {Addr : Type 0} (decode : Text → Option Addr) (is_for_net : Addr → Bool) where
  abbrev pub command_of : ℕ → Bool → Query Addr → List (Event Text) → List (Event Text)
  command_of c watch (Query.hex txid) rest = Event.command c watch txid ∷ rest
  command_of c watch _ rest = rest

  -- What a read pump sends to the hub: the commands of its frames, and at the end that the
  -- connection is gone.
  unfoldable pub read_pump : ℕ → List Inbound → List (Event Text)
  unfolding classify_query text_eq
  read_pump c [] = Event.unregister c ∷ []
  read_pump c (msg ∷ frames) =
      let rest = read_pump c frames in
      let watch = text_eq msg.kind (codes "watch") in
      let sent = command_of c watch (classify_query decode is_for_net msg.txid) rest in
      if not watch && not (text_eq msg.kind (codes "unwatch")) then rest else sent

pub record TxUpdate (f : Float) : Type 0 where
  pub status : TxStatus
  pub confirmations : ℕ
  pub block_height : Option ℕ
  pub txs_ahead : Option ℕ
  pub eta_seconds : Option ℕ
  pub queue_vbytes_fraction : Option f.F

pub data Message (f : Float) : Type 0 where
  tell_stats : Stats f → Message f
  tell_mempool : MempoolUpdate f → Message f
  tell_block : BlockFlash → Message f
  tell_tx : Text → TxUpdate f → Message f

abbrev pub height_of : Option TxBlock → Option ℕ
height_of none = none
height_of (some b) = some b.height

module _ {f : Float} where
  abbrev pub place_of : {A : Type 0} → (TxPending f → A) → Option (TxPending f) → Option A
  place_of field none = none
  place_of field (some p) = some (field p)

  unfoldable pub tx_update : Tx f → TxUpdate f
  tx_update tx = record {
    status = tx.status;
    confirmations = tx.confirmations;
    block_height = height_of tx.block;
    txs_ahead = place_of (λ p. p.txs_ahead) tx.pending_at;
    eta_seconds = place_of (λ p. p.eta_seconds) tx.pending_at;
    queue_vbytes_fraction = place_of (λ p. p.queue_vbytes_fraction) tx.pending_at;
  }

  abbrev pub told : {A : Type 0} → (A → Message f) → Option A → Option (Message f)
  told message none = none
  told message (some a) = some (message a)

  abbrev pub told_ok : {A : Type 0} → (A → Message f) → Result Error A → Option (Message f)
  told_ok message (err x) = none
  told_ok message (ok a) = some (message a)

  -- What a push sends, if its data are there.
  unfoldable pub message_of :
      {B H : Type 0} → Env f B H → Push Text → Server f → Option (Message f) × Server f
  unfolding read_stats read_update block_flash get_tx tx_update
  message_of env (Push.push_stats cs) s =
      let (live, x) = read_stats s.live env.now in (told tell_stats x, record s { live = live })
  message_of env (Push.push_mempool cs) s =
      let (live, x) = read_update s.live env.now in (told tell_mempool x, record s { live = live })
  message_of env (Push.push_block_flash hash cs) s = (told_ok tell_block (block_flash env hash), s)
  message_of env (Push.push_tx txid cs) s =
      let (t, service) = get_tx env txid s.service in
      (told_ok (λ (x : Tx f). tell_tx txid (tx_update x)) t, with_service service s)
