-- ===== src/Lookup.antt =====
-- internal/explorer/tx.go: `GetTx` and what it looks up. The text of an error is left out: an error
-- that the source wraps is the error itself, as `errors.Is` and `errors.As` see it.
pub mod Inputs
pub mod Prevouts
pub mod Payload
pub mod Current
pub mod Account
use btcdwatch_com.Base.{
  ℕ, ◌+◌, ◌/◌, List, [], ◌∷◌, ◌++◌, map, get_elem?, length, Option, none, some, Bool, true, false,
  not, ◌&&◌, ◌||◌, if◌then◌else◌, ltb, ◌==◌, nat_eq, pair_eq,
}
use btcdwatch_com.Base.Action.{
  Action, Result, ok, err, ◌>>=◌, ◌>>◌, pure, lift, gets, modify, or_fail, fail_if, zoom,
}
use btcdwatch_com.Base.Int.{ℤ, pos, ◌+ℤ◌}
use btcdwatch_com.Base.Float.{Float}
use btcdwatch_com.Base.Map.{elem, lookup, insert, is_some}
use btcdwatch_com.Base.Text.{Text, codes_eq, text_eq}
use btcdwatch_com.Cache.{LruCache, get, put}
use btcdwatch_com.Chain.{ScriptType, script_type_from_rpc, unknown, script_type_eq, is_unknown}
use btcdwatch_com.Inflow.{second}
use btcdwatch_com.Mempool.{invalidate}
use btcdwatch_com.Node.{Error, other, tx_not_found, is_no_tx_info}
use btcdwatch_com.Queue.{num}
use btcdwatch_com.Rpc.{TxRaw, Header, Vin, Vout, sats_from_btc, vout_addrs}
use btcdwatch_com.Service.{
  Env, Service, Prevout, snapshot, header, avg_block_interval, with_mempool, fiat_of,
}
use btcdwatch_com.Snapshot.{Snapshot, MempoolEntry}
use btcdwatch_com.Tx.{
  TxIo, TxPending, Derived, add_new, first_addr, derive_outputs, fee_of, signals_rbf, dominant_code,
  pending_of,
}
unfoldable pub use btcdwatch_com.Lookup.Inputs.*

pub data TxStatus : Type 0 where
  confirmed pending : TxStatus

pub record TxBlock : Type 0 where
  pub height : ℕ
  pub hash : Text
  pub time : ℕ

pub record TxType : Type 0 where
  pub code : ScriptType
  pub in_code : ScriptType
  pub out_code : ScriptType

pub record Tx (f : Float) : Type 0 where
  pub txid : Text
  pub status : TxStatus
  pub amount_sats : ℤ
  pub fiat_usd : Option f.F
  pub from : List Text
  pub to : List Text
  pub is_coinbase : Bool
  pub inputs : List TxIo
  pub outputs : List TxIo
  pub confirmations : ℕ
  pub block : Option TxBlock
  pub fee_sats : Option ℤ
  pub fee_rate_sat_per_vb : Option f.F
  pub vsize : ℕ
  pub first_seen : ℕ
  pub type : Option TxType
  pub rbf : Bool
  pub pending_at : Option (TxPending f)

unfoldable pub derive_tx_type : List ScriptType → List ScriptType → Option TxType
unfolding dominant_code
derive_tx_type in_codes out_codes =
    let i = dominant_code unknown in_codes in
    let o = dominant_code unknown out_codes in
    let code = if is_unknown i then o else i in
    if is_unknown code then none else some (record { code = code; in_code = i; out_code = o })

-- What the loop over the inputs adds up.
pub record Spent : Type 0 where
  pub sum_in : ℤ
  pub in_codes : List ScriptType
  pub inputs : List TxIo
  pub from : List Text

unfoldable pub spend_all : Spent → List Prevout → Spent
spend_all s [] = s
spend_all s (p ∷ ps) =
    spend_all
      (record {
        sum_in = s.sum_in +ℤ p.value_sats;
        in_codes = s.in_codes ++ p.script_type ∷ [];
        inputs =
            s.inputs
            ++ record { address = first_addr p.addrs; amount_sats = p.value_sats; change = false }
              ∷ [];
        from = add_new p.addrs s.from;
      })
      ps

abbrev pub starts_with_coinbase : List Vin → Bool
starts_with_coinbase [] = false
starts_with_coinbase (v ∷ vins) = v.coinbase

module _ {f : Float} {B H : Type 0} (env : Env f B H) where
  -- `GetTx`'s part that derives the payload from the outputs and the resolved inputs; the state of a
  -- transaction that is in no block is not yet filled in.
  abbrev pub fee_rate_of : Option ℤ → ℕ → Option f.F
  fee_rate_of none vsize = none
  fee_rate_of (some fee) vsize =
      if ltb 0 vsize then some (f.div (f.of_int fee) (num f vsize)) else none

  abbrev pub vsize_of : TxRaw B → ℕ
  vsize_of raw = if raw.vsize == 0 then raw.size else raw.vsize

  abbrev pub nothing_spent : Spent
  nothing_spent = record { sum_in = pos 0; in_codes = []; inputs = []; from = [] }

  unfoldable pub derive : TxRaw B → List Prevout → Tx f
  unfolding spend_all derive_outputs derive_tx_type signals_rbf
  derive raw ins =
      let coinbase = starts_with_coinbase raw.vin in
      let spent = spend_all nothing_spent ins in
      let d = derive_outputs env.new_amount spent.from coinbase raw.vout in
      let fee = fee_of coinbase spent.sum_in d in
      record {
        txid = raw.txid;
        status = pending;
        amount_sats = d.amount;
        fiat_usd = fiat_of env d.amount;
        from = spent.from;
        to = d.to_addrs;
        is_coinbase = coinbase;
        inputs = spent.inputs;
        outputs = d.rows;
        confirmations = raw.confirmations;
        block = none;
        fee_sats = fee;
        fee_rate_sat_per_vb = fee_rate_of fee (vsize_of raw);
        vsize = vsize_of raw;
        first_seen = 0;
        type = derive_tx_type spent.in_codes d.out_codes;
        rbf = signals_rbf (map (λ (v : Vin). v.sequence) raw.vin) coinbase;
        pending_at = none;
      }

  abbrev pub or_retry : Bool → Snapshot f → Action (Service f) Error (Snapshot f)
  or_retry true s = pure s
  or_retry false s = do
    modify (λ (t : Service f). with_mempool (invalidate f t.feed.mempool) t)
    snapshot env

  -- The snapshot, fetched again if it was taken before the transaction came in.
  unfoldable pub snapshot_with : Text → Action (Service f) Error (Snapshot f)
  unfolding snapshot
  snapshot_with txid = do s ← snapshot env; or_retry (is_some (lookup txid s)) s

  abbrev pub measure : Action (Service f) Error ℕ
  measure s = let (mean, s') = avg_block_interval env s in (ok mean, s')

  abbrev pub or_zero_rate : Option f.F → f.F
  or_zero_rate none = num f 0
  or_zero_rate (some rate) = rate

  abbrev pub rate_of : Tx f → Option (MempoolEntry f) → f.F
  rate_of tx none = or_zero_rate tx.fee_rate_sat_per_vb
  rate_of tx (some x) = x.fee_rate

  abbrev pub first_seen_of : Option (MempoolEntry f) → ℕ
  first_seen_of none = 0
  first_seen_of (some x) = x.time

  abbrev pub at_queue : Tx f → Snapshot f → ℕ → Tx f
  at_queue tx s interval =
      let entry = lookup tx.txid s in
      record tx {
        first_seen = first_seen_of entry;
        pending_at = some (pending_of f tx.txid (rate_of tx entry) (interval / second) s);
      }

  unfoldable pub derive_pending : Tx f → Action (Service f) Error (Tx f)
  unfolding snapshot_with avg_block_interval pending_of
  derive_pending tx = do
    s ← snapshot_with tx.txid
    interval ← measure
    pure (at_queue tx s interval)

  abbrev pub header_of : Text → Action (Service f) Error Header
  header_of hash_text =
      zoom (λ (s : Service f). s.headers) (λ c s. record s { headers = c }) (header env hash_text)

  abbrev pub mined : Tx f → Header → Tx f
  mined tx h = record tx {
    status = confirmed;
    block = some (record { height = h.height; hash = h.hash; time = h.time });
    first_seen = h.time;
  }

  abbrev pub in_block : Tx f → Text → Action (Service f) Error (Tx f)
  in_block tx block_hash = do h ← header_of block_hash; pure (mined tx h)

  abbrev pub or_tx_missing : Result Error (TxRaw B) → Result Error (TxRaw B)
  or_tx_missing (ok raw) = ok raw
  or_tx_missing (err x) = if is_no_tx_info env.codes x then err tx_not_found else err x

  -- The node's answer for an id.
  abbrev pub raw_at : Option H → Result Error (TxRaw B)
  raw_at none = err tx_not_found
  raw_at (some hash) = or_tx_missing (env.backend.raw_transaction hash)

  unfoldable pub raw_of : Text → Result Error (TxRaw B)
  raw_of txid = raw_at (env.parse_hash txid)

  abbrev pub inputs_of : TxRaw B → Action (Service f) Error (List Prevout)
  inputs_of raw =
      if starts_with_coinbase raw.vin
      then pure []
      else zoom (λ (s : Service f). s.prevouts) (λ c s. record s { prevouts = c })
          (resolve_prevouts env raw.vin)

  abbrev pub settle_tx : TxRaw B → List Prevout → Action (Service f) Error (Tx f)
  settle_tx raw ins =
      if text_eq raw.block_hash []
      then derive_pending (derive raw ins)
      else in_block (derive raw ins) raw.block_hash

  unfoldable pub get_tx : Text → Action (Service f) Error (Tx f)
  unfolding derive derive_pending resolve_prevouts header raw_of
  get_tx txid = do raw ← lift (raw_of txid); ins ← inputs_of raw; settle_tx raw ins
