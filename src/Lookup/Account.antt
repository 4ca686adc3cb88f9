-- ===== src/Lookup/Account.antt =====
-- internal/explorer/tx.go: the money of what `GetTx` answers with, from the node's own answers.
use btcdwatch_com.Base.{◌≡◌, List, [], ◌∷◌, false, map, none, some, if◌then◌else◌}
use btcdwatch_com.Base.Action.{Result, ok}
use btcdwatch_com.Base.Float.{Float}
use btcdwatch_com.Base.Int.{ℤ, pos, ◌+ℤ◌, ◌-ℤ◌}
use btcdwatch_com.Base.Text.{Text, codes_eq}
use btcdwatch_com.Lookup.{Tx, Spent, starts_with_coinbase}
use btcdwatch_com.Lookup.Prevouts.{prevouts_at}
use btcdwatch_com.Node.{Error}
use btcdwatch_com.Rpc.{TxRaw}
use btcdwatch_com.Service.{Env, Service, Prevout}
use btcdwatch_com.Tx.Outputs.{sum_rows, sum_vouts, sum_unflagged}
use btcdwatch_com.Tx.{TxIo, first_addr}
use btcdwatch_com.Tx.Rows.{rows_made}

abbrev pub sum_prevouts : List Prevout → ℤ
sum_prevouts [] = pos 0
sum_prevouts (p ∷ ps) = p.value_sats +ℤ sum_prevouts ps

-- The row of an output that is spent.
abbrev pub spent_row : Prevout → TxIo
spent_row p = record { address = first_addr p.addrs; amount_sats = p.value_sats; change = false }

-- What the loop over the inputs has added up: the rows, which come to `total`.
record IsSpent (s : Spent) (rows : List TxIo) (total : ℤ) : Type 0 where
  each : s.inputs ≡ rows
  whole : sum_rows s.inputs ≡ total
  summed : s.sum_in ≡ total

module _ {f : Float} {B H : Type 0} (env : Env f B H) where
  -- The outputs that a transaction spends, as the node answers; a coinbase spends none.
  abbrev pub spent_at : TxRaw B → Result Error (List Prevout)
  spent_at raw = if starts_with_coinbase raw.vin then ok [] else prevouts_at env raw.vin

  -- The rows are, one by one and in order, those of the outputs that are spent and made, with the first
  -- address and the amount of each and with what goes back to the senders flagged as change; the
  -- headline is what is not change, and the fee is what is between the sums.
  pub record IsBooked (raw : TxRaw B) (ps : List Prevout) (tx : Tx f) : Type 0 where
    pub inputs_each : tx.inputs ≡ map spent_row ps
    pub inputs_whole : sum_rows tx.inputs ≡ sum_prevouts ps
    pub outputs_each :
        tx.outputs ≡ rows_made env.new_amount tx.from (starts_with_coinbase raw.vin) raw.vout
    pub outputs_whole : sum_rows tx.outputs ≡ sum_vouts env.new_amount raw.vout
    pub headline : tx.amount_sats ≡ sum_unflagged tx.outputs
    pub fee : tx.fee_sats ≡ (
        if starts_with_coinbase raw.vin
        then none
        else some (sum_prevouts ps -ℤ sum_vouts env.new_amount raw.vout))
