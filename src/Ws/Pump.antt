-- ===== src/Ws/Pump.antt =====
-- internal/api/ws.go: the write pump of a connection beside the senders of the hub and the read pump,
-- which closes the connection when it returns. A turn of the pump is a case of its `select`, with
-- whether the connection takes the write; a closed one takes none. A case that cannot be taken leaves
-- all as it is.
pub mod Fifo
use btcdwatch_com.Base.{
  ℕ, List, [], ◌∷◌, ◌++◌, Bool, true, false, not, ◌&&◌, ◌||◌, if◌then◌else◌, ltb, length,
}
use btcdwatch_com.Ws.{WsClient, new_client, try_send, shutdown, send_buffer_size}

pub data Frame (M : Type 0) : Type 0 where
  text : M → Frame M
  ping : Frame M
  close : Frame M

pub data PumpTurn (M : Type 0) : Type 0 where
  -- A sender's `trySend`, the hub's `shutdown`, and the end of the read pump.
  offered : Bool → M → PumpTurn M
  dropped : PumpTurn M
  conn_closed : PumpTurn M
  takes_done : Bool → PumpTurn M
  takes_send : Bool → PumpTurn M
  takes_tick : Bool → PumpTurn M

pub record Pump (M : Type 0) : Type 0 where
  pub client : WsClient M
  pub conn_open : Bool
  -- The pump has returned.
  pub over : Bool

-- A frame that the pump writes, and whether the write succeeds.
abbrev pub Attempt : Type 0 → Type 0
Attempt M = Frame M × Bool

module _ {M : Type 0} where
  abbrev pub new_pump : Pump M
  new_pump = record { client = new_client; conn_open = true; over = false }

  -- The pump goes on if the write has succeeded. Else it returns, and closes the connection.
  abbrev pub go_on : Frame M → Bool → Pump M → List (Attempt M) × Pump M
  go_on frame written p =
      ((frame, written) ∷ [], record p { conn_open = p.conn_open && written; over = not written })

  -- A message is off the channel before it is written.
  abbrev pub drain : Bool → Pump M → List M → List (Attempt M) × Pump M
  drain takes p [] = ([], p)
  drain takes p (m ∷ ms) =
      go_on (text m) (takes && p.conn_open) (record p { client = record p.client { send = ms } })

  -- The outcome of the write of the close frame does not matter.
  abbrev pub say_goodbye : Bool → Pump M → List (Attempt M) × Pump M
  say_goodbye takes p =
      if p.client.done
      then ((close, takes && p.conn_open) ∷ [], record p { conn_open = false; over = true })
      else ([], p)

  abbrev pub unless_over : Pump M → List (Attempt M) × Pump M → List (Attempt M) × Pump M
  unless_over p next = if p.over then ([], p) else next

  unfoldable pub pump_step : Pump M → PumpTurn M → List (Attempt M) × Pump M
  unfolding try_send shutdown
  pump_step p (offered picks m) = ([], record p { client = (try_send picks m p.client).1 })
  pump_step p dropped = ([], record p { client = shutdown p.client })
  pump_step p conn_closed = ([], record p { conn_open = false })
  pump_step p (takes_done takes) = unless_over p (say_goodbye takes p)
  pump_step p (takes_send takes) = unless_over p (drain takes p p.client.send)
  pump_step p (takes_tick takes) = unless_over p (go_on ping (takes && p.conn_open) p)

  -- The writes that are tried, and what is left.
  unfoldable pub pump : Pump M → List (PumpTurn M) → List (Attempt M) × Pump M
  unfolding pump_step
  pump p [] = ([], p)
  pump p (t ∷ ts) =
      let (tried, p') = pump_step p t in let (rest, p'') = pump p' ts in (tried ++ rest, p'')

  -- The messages that were written, and those that a failed write has lost.
  abbrev pub delivered : List (Attempt M) → List M
  delivered [] = []
  delivered ((text m, true) ∷ tried) = m ∷ delivered tried
  delivered ((f, written) ∷ tried) = delivered tried

  abbrev pub lost : List (Attempt M) → List M
  lost [] = []
  lost ((text m, false) ∷ tried) = m ∷ lost tried
  lost ((f, written) ∷ tried) = lost tried

  -- The messages of a turn that `trySend` puts into the channel.
  abbrev pub taken_in : Pump M → PumpTurn M → List M
  taken_in p (offered picks m) =
      if ltb (length p.client.send) send_buffer_size && (not p.client.done || picks)
      then m ∷ []
      else []
  taken_in p _ = []

  unfoldable pub all_taken_in : Pump M → List (PumpTurn M) → List M
  all_taken_in p [] = []
  all_taken_in p (t ∷ ts) = taken_in p t ++ all_taken_in (pump_step p t).1 ts

  -- A write after which there may be another: no close frame, and none that has failed.
  abbrev pub goes_on : Attempt M → Bool
  goes_on (close, written) = false
  goes_on (f, written) = written

  abbrev pub ends_last : List (Attempt M) → Bool
  ends_last [] = true
  ends_last (a ∷ []) = true
  ends_last (a ∷ b ∷ tried) = goes_on a && ends_last (b ∷ tried)
