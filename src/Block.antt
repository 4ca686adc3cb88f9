-- ===== src/Block.antt =====
-- internal/explorer/block.go: a page of a block's transactions. `end` is the smaller of offset + limit
-- and the number of transactions, which are small enough that an `int` holds their sum.
pub mod Page
pub mod Served
use btcdwatch_com.Base.{
  ℕ, ◌+◌, ◌-◌, ◌/◌, List, [], ◌∷◌, map, take, drop, length, Option, none, some, Bool, true, false,
  not, ◌&&◌, if◌then◌else◌, ltb, ◌==◌,
}
use btcdwatch_com.Base.Action.{Action, Result, ok, err, ◌>>=◌, pure, lift, or_fail}
use btcdwatch_com.Base.Int.{ℤ, pos, negsuc, ◌-ℤ◌}
use btcdwatch_com.Base.Float.{Float}
use btcdwatch_com.Base.Text.{Text, text_eq}
use btcdwatch_com.Chain.{block_subsidy}
use btcdwatch_com.Lookup.{Tx, get_tx}
use btcdwatch_com.Node.{Error, other, block_not_found, is_block_missing}
use btcdwatch_com.Queue.{num}
use btcdwatch_com.Rpc.{BlockRaw}
use btcdwatch_com.Service.{Env, Service}

pub record BlockTx (f : Float) : Type 0 where
  pub txid : Text
  pub amount_sats : ℤ
  pub fee_rate_sat_per_vb : Option f.F
  pub is_coinbase : Bool

pub record Block (f : Float) : Type 0 where
  pub height : ℕ
  pub hash : Text
  pub time : ℕ
  pub confirmations : ℕ
  pub tx_count : ℕ
  pub avg_fee_sat_per_vb : f.F
  pub size_bytes : ℕ
  pub next_height : Option ℕ
  pub txs : List (BlockTx f)
  pub offset : ℕ
  pub limit : ℕ
  pub has_more : Bool

pub record BlockFlash : Type 0 where
  pub height : ℕ
  pub tx_count : ℕ

module _ {f : Float} {B H : Type 0} (env : Env f B H) where
  abbrev pub flash_of : Result Error BlockRaw → Result Error BlockFlash
  flash_of (err x) = err x
  flash_of (ok raw) = ok (record { height = raw.height; tx_count = length raw.txs - 1 })

  abbrev pub flash_at : Option H → Result Error BlockFlash
  flash_at none = err other
  flash_at (some hash) = flash_of (env.backend.block hash)

  unfoldable pub block_flash : Text → Result Error BlockFlash
  block_flash hash_text = flash_at (env.parse_hash hash_text)

  abbrev pub or_block_missing : {A : Type 0} → Result Error A → Result Error A
  or_block_missing (ok a) = ok a
  or_block_missing (err x) = if is_block_missing env.codes x then err block_not_found else err x

  abbrev pub row_of : Tx f → BlockTx f
  row_of tx = record {
    txid = tx.txid;
    amount_sats = tx.amount_sats;
    fee_rate_sat_per_vb = tx.fee_rate_sat_per_vb;
    is_coinbase = tx.is_coinbase;
  }

  -- The last transaction of a page that is a coinbase.
  abbrev pub last_coinbase : Tx f → Option (Tx f) → Option (Tx f)
  last_coinbase tx (some later) = some later
  last_coinbase tx none = if tx.is_coinbase then some tx else none

  -- The loop over the page: its rows and its coinbase.
  unfoldable pub page_rows : List Text → Action (Service f) Error (List (BlockTx f) × Option (Tx f))
  unfolding get_tx
  page_rows [] = pure ([], none)
  page_rows (txid ∷ txids) = do
    tx ← get_tx env txid
    rest ← page_rows txids
    pure (row_of tx ∷ rest.0, last_coinbase tx rest.1)

  -- What the fees paid come to for each byte.
  abbrev pub fee_over : ℤ → ℕ → f.F
  fee_over (negsuc n) vsize = num f 0
  fee_over (pos fees) vsize =
      if ltb 0 fees && ltb 0 vsize then f.div (f.of_int (pos fees)) (num f vsize) else num f 0

  abbrev pub block_vsize : BlockRaw → ℕ
  block_vsize raw = let v = (raw.weight + 3) / 4 in if v == 0 then raw.size else v

  abbrev pub avg_fee : BlockRaw → Tx f → f.F
  avg_fee raw coinbase =
      let subsidy = block_subsidy raw.height env.params.subsidy_reduction_interval in
      fee_over (coinbase.amount_sats -ℤ pos subsidy) (block_vsize raw - coinbase.vsize)

  abbrev pub coinbase_or : Text → Option (Tx f) → Action (Service f) Error (Tx f)
  coinbase_or txid (some tx) = pure tx
  coinbase_or txid none = get_tx env txid

  unfoldable pub derive_avg_fee :
      BlockRaw → List Text → Option (Tx f) → Action (Service f) Error f.F
  unfolding get_tx block_subsidy
  derive_avg_fee raw [] coinbase = pure (num f 0)
  derive_avg_fee raw (txid ∷ []) coinbase = pure (num f 0)
  derive_avg_fee raw (txid ∷ next ∷ txids) coinbase = do
    tx ← coinbase_or txid coinbase
    pure (avg_fee raw tx)

  abbrev pub block_of : BlockRaw → ℕ → ℕ → List (BlockTx f) → f.F → Block f
  block_of raw offset limit rows fee = record {
    height = raw.height;
    hash = raw.hash;
    time = raw.time;
    confirmations = raw.confirmations;
    tx_count = length raw.txs;
    avg_fee_sat_per_vb = fee;
    size_bytes = raw.size;
    next_height = if text_eq raw.next_hash [] then none else some (raw.height + 1);
    txs = rows;
    offset = offset;
    limit = limit;
    has_more = ltb (offset + limit) (length raw.txs);
  }

  abbrev pub page_of : BlockRaw → ℕ → ℕ → Action (Service f) Error (Block f)
  page_of raw offset limit = do
    rows ← page_rows (take limit (drop offset raw.txs))
    fee ← derive_avg_fee raw raw.txs rows.1
    pure (block_of raw offset limit rows.0 fee)

  unfoldable pub block : H → ℕ → ℕ → Action (Service f) Error (Block f)
  unfolding page_rows derive_avg_fee is_block_missing
  block hash offset limit = do
    raw ← lift (or_block_missing (env.backend.block hash))
    page_of raw offset limit

  unfoldable pub block_by_height : ℤ → ℕ → ℕ → Action (Service f) Error (Block f)
  unfolding block
  block_by_height (negsuc n) offset limit s = (err block_not_found, s)
  block_by_height (pos height) offset limit s =
      ((do hash ← lift (or_block_missing (env.backend.block_hash height)); block hash offset limit)
        s)

  unfoldable pub block_by_hash : Text → ℕ → ℕ → Action (Service f) Error (Block f)
  unfolding block
  block_by_hash hash_text offset limit = do
    hash ← or_fail (env.parse_hash hash_text) block_not_found
    block hash offset limit
