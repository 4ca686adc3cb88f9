-- ===== src/Tests/Ws.antt =====
-- A connection that sends three frames, and the write pump of one.
use btcdwatch_com.Base.{
  length, ◌≤◌, if◌then◌else◌, ℕ, ◌≡◌, refl, List, [], ◌∷◌, ◌++◌, true, false, nat_eq,
}
use btcdwatch_com.Base.Map.{lookup, elem, include}
use btcdwatch_com.Base.Text.{codes, codes_eq, byte_len, to_lower}
use btcdwatch_com.Chain.{parse_block_height, hex_decodes, parse_uint}
use btcdwatch_com.Ws.{Inbound, read_pump}
use btcdwatch_com.Hub.{
  register, command, unregister, step, handle, drop_client, new_hub, on_register, on_command,
  on_watch,
}
use btcdwatch_com.Hub.Invariant.{IsHub, Reachable}
use btcdwatch_com.Hub.Watchers.{watches, AllKeys}
use btcdwatch_com.Ws.Sessions.{
  System, IsTxid, new_system, take_from, upgrade, handle_ws, Runs, upgraded, taken, start, next,
}
use btcdwatch_com.Ws.Sessions.Invariant.{Runs-IsGuarded, Runs-ended}
use btcdwatch_com.Ws.{try_send, shutdown}
use btcdwatch_com.Ws.Pump.{
  PumpTurn, offered, dropped, conn_closed, takes_done, takes_send, takes_tick, ping, text, close,
  new_pump, pump, pump_step, delivered, lost, all_taken_in, ends_last,
}
use btcdwatch_com.Ws.Pump.Fifo.{pump-fifo}
use btcdwatch_com.Tests.Site.{small_net, coinbase_id}

abbrev frames : List Inbound
frames =
    record { kind = codes "watch"; txid = coinbase_id }
    ∷ record { kind = codes "ping"; txid = coinbase_id }
    ∷ record { kind = codes "unwatch"; txid = codes "7" }
    ∷ []

-- One connection is upgraded, watches a transaction and leaves.
abbrev upgraded_once : System
upgraded_once = upgrade small_net.decode small_net.is_for_net (new_system 2) frames

abbrev registered : System
registered =
    take_from upgraded_once 0 (register 0)
      (read_pump small_net.decode small_net.is_for_net 0 frames)

abbrev watching : System
watching = take_from registered 0 (command 0 true coinbase_id) (unregister 0 ∷ [])

abbrev ended : System
ended = take_from watching 0 (unregister 0) []

ended_run : Runs small_net.decode small_net.is_for_net 2 ended
unfolding upgrade handle_ws take_from new_system read_pump parse_block_height byte_len hex_decodes
    parse_uint to_lower
ended_run =
    next (next (next (next start (upgraded frames)) (taken 0 _ _ refl)) (taken 0 _ _ refl))
      (taken 0 _ _ refl)

Runs-IsGuarded_example : Reachable 2 ended.hub × IsHub ended.hub × AllKeys IsTxid ended.hub.watchers
Runs-IsGuarded_example = Runs-IsGuarded small_net.decode small_net.is_for_net 2 ended ended_run

Runs-ended_example :
    (elem 0 ended.hub.clients ≡ false) × (watches ended.hub.watchers 0 coinbase_id ≡ false)
unfolding upgrade take_from new_system handle_ws step handle drop_client new_hub on_register
    on_command on_watch read_pump elem include lookup
Runs-ended_example =
    Runs-ended small_net.decode small_net.is_for_net 2 ended 0 coinbase_id ended_run refl refl

-- A message is written, the read pump ends, and the next message is lost.
abbrev turns : List (PumpTurn ℕ)
turns =
    offered true 5
    ∷ takes_tick true
    ∷ takes_send true
    ∷ offered true 6
    ∷ offered true 7
    ∷ conn_closed
    ∷ takes_send true
    ∷ dropped
    ∷ takes_done true
    ∷ []

pump-fifo_example :
    (delivered (pump new_pump turns).0
        ++ lost (pump new_pump turns).0
        ++ (pump new_pump turns).1.client.send
      ≡ all_taken_in new_pump turns)
    × (length (lost (pump new_pump turns).0) ≤ (if (pump new_pump turns).1.over then 1 else 0))
    × (ends_last (pump new_pump turns).0 ≡ true)
pump-fifo_example = pump-fifo turns

turns_tried : (pump new_pump turns).0 ≡ (ping, true) ∷ (text 5, true) ∷ (text 6, false) ∷ []
unfolding pump pump_step try_send shutdown
turns_tried = refl

goodbye :
    (pump {M = ℕ} new_pump (dropped ∷ takes_done true ∷ takes_tick true ∷ [])).0
    ≡ (close, true) ∷ []
unfolding pump pump_step try_send shutdown
goodbye = refl
