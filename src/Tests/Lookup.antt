-- ===== src/Tests/Lookup.antt =====
-- The coinbase of the small node, looked up, and the page of its block.
use btcdwatch_com.Base.{
  ℕ, ◌≡◌, ◌+◌, ◌∙◌, pair_eq, nat_eq, refl, sym, ap, List, [], ◌∷◌, take, drop, length, ltb, false,
  inl, inr, Bool-cases,
}
use btcdwatch_com.Base.Action.{ok, err≢ok, ok_inj}
use btcdwatch_com.Base.Map.{elem, lookup}
use btcdwatch_com.Base.Text.{Text, codes, codes_eq, text_eq, text_eq_iff}
use btcdwatch_com.Block.{block}
use btcdwatch_com.Block.Served.{shown, block-served}
use btcdwatch_com.Base.{subst, drop, length, ltb, arith}
use btcdwatch_com.Base.Action.{Always, Always-bind, is_ok, pure}
use btcdwatch_com.Base.{true}
use btcdwatch_com.Cache.{LruCache}
use btcdwatch_com.Rpc.{Header}
use btcdwatch_com.Service.{header_or}
use btcdwatch_com.Lookup.{header_of}
use btcdwatch_com.Cache.{get}
use btcdwatch_com.Service.{header}
use btcdwatch_com.Cache.{new_lru}
use btcdwatch_com.Cache.Invariant.{new_lru-IsCoherent}
use btcdwatch_com.Lookup.{Tx, get_tx, raw_of, derive, mined, resolve_prevouts}
use btcdwatch_com.Lookup.Payload.{IsPayload, get_tx-IsPayload}
use btcdwatch_com.Lookup.Prevouts.{IsCurrent, prevouts_at, resolve_prevouts-exact}
use btcdwatch_com.Node.{Error, is_no_tx_info}
use btcdwatch_com.Rpc.{TxRaw, Vin}
use btcdwatch_com.Base.{if◌then◌else◌, Option, none, some, pair_eq}
use btcdwatch_com.Mempool.{begin_refresh, new_mempool, finish_refresh, entries_of, invalidate}
use btcdwatch_com.Tx.{derive_output, add_new, book}
use btcdwatch_com.Rpc.{vout_addrs, sats_from_btc}
use btcdwatch_com.Base.Int.{ℤ, pos, ◌-ℤ◌, ◌+ℤ◌}
use btcdwatch_com.Base.Action.{Result, ok, err}
use btcdwatch_com.Base.{length}
use btcdwatch_com.Lookup.{TxStatus, pending}
use btcdwatch_com.Tests.Site.{small_node, known}
use btcdwatch_com.Service.{Env, new_service}
use btcdwatch_com.Tests.Doubles.{milli}
use btcdwatch_com.Tests.Site.{
  small_env, coinbase_id, coinbase_raw, block_id, block_raw, block_header,
}

abbrev coinbase_tx : Tx milli
coinbase_tx = mined small_env (derive small_env coinbase_raw []) block_header

get_tx-IsPayload_example : IsPayload small_env coinbase_raw coinbase_tx
unfolding get_tx new_service text_eq elem new_lru
get_tx-IsPayload_example =
    get_tx-IsPayload small_env coinbase_id (new_service milli false) coinbase_raw coinbase_tx refl
      refl

raw-named : (txid : Text) (raw : TxRaw ℕ) → raw_of small_env txid ≡ ok raw → raw.txid ≡ txid
unfolding raw_of is_no_tx_info
raw-named txid raw h = elim (Bool-cases (text_eq txid coinbase_id)) [
  | inl same ↦
      ap (λ (r : TxRaw ℕ). r.txid) (sym (ok_inj (rw same at h)))
      ∙ sym ((text_eq_iff txid coinbase_id).0 same)
  | inr other ↦ absurd (err≢ok (rw other at h))
]

header_or-found :
    (c : LruCache Text Header) (cached : Option Header)
    → is_ok (header_or small_env block_id c cached).0 ≡ true
unfolding text_eq
header_or-found c none = refl
header_or-found c (some h) = refl

header_of-Always : Always (header_of small_env block_id)
unfolding header
header_of-Always s = header_or-found (get s.headers block_id).0 (get s.headers block_id).1

coinbase-Always : Always (get_tx small_env coinbase_id)
unfolding get_tx text_eq
coinbase-Always =
    Always-bind (header_of small_env block_id)
      (λ h. pure (mined small_env (derive small_env coinbase_raw []) h)) header_of-Always
      (λ h s. refl)

coinbase_only : (txid : Text) → elem txid block_raw.txs ≡ true → Always (get_tx small_env txid)
unfolding elem
coinbase_only txid h =
    let same : coinbase_id ≡ txid = (text_eq_iff coinbase_id txid).0 (ground (arith, h)) in
    subst (λ t. Always (get_tx small_env t)) same coinbase-Always

block-served_example :
    shown (block small_env block_id 0 25 (new_service milli false)).0
    ≡ some
        (take 25 (drop 0 block_raw.txs), length block_raw.txs, ltb (0 + 25) (length block_raw.txs))
unfolding text_eq
block-served_example =
    block-served small_env block_id 0 25 (new_service milli false) block_raw refl coinbase_only
      raw-named

abbrev spender : List Vin
spender = record { txid = coinbase_id; vout = 0; sequence = 0; coinbase = false } ∷ []

empty-IsCurrent : IsCurrent small_env (new_lru 8)
unfolding new_lru lookup
empty-IsCurrent = record { coherent = new_lru-IsCoherent 8; agrees = λ k p h. cc }

resolve_prevouts-exact_example :
    ((resolve_prevouts small_env spender (new_lru 8)).0 ≡ prevouts_at small_env spender)
    × IsCurrent small_env (resolve_prevouts small_env spender (new_lru 8)).1
resolve_prevouts-exact_example =
    resolve_prevouts-exact small_env spender (new_lru 8) empty-IsCurrent

abbrev payment_id : Text
payment_id = codes "2222222222222222222222222222222222222222222222222222222222222222"

-- It spends the coinbase of 50 BTC: 30 go to bob and 19 back to the miner, so the fee is 1 BTC.
abbrev payment_raw : TxRaw ℕ
payment_raw = record {
  txid = payment_id;
  confirmations = 0;
  vsize = 200;
  size = 200;
  vin = spender;
  vout =
      record { value = 30; addresses = []; address = codes "bob"; class = codes "pubkeyhash" }
      ∷ record { value = 19; addresses = []; address = codes "miner"; class = codes "pubkeyhash" }
      ∷ [];
  block_hash = [];
}

abbrev paying_env : Env milli ℕ Text
paying_env = record small_env {
  backend = record small_node {
    raw_transaction =
        λ id. if text_eq id payment_id then ok payment_raw else known coinbase_id coinbase_raw id;
  };
}

abbrev summary_of : Result Error (Tx milli) → Option (TxStatus × ℤ × Option ℤ × List Text × ℕ)
summary_of (err x) = none
summary_of (ok t) = some (t.status, t.amount_sats, t.fee_sats, t.from, length t.outputs)

payment_found :
    summary_of (get_tx paying_env payment_id (new_service milli false)).0
    ≡ some (pending, pos 3000000000, some (pos 100000000), codes "miner" ∷ [], 2)
unfolding get_tx new_service text_eq elem new_lru lookup begin_refresh new_mempool finish_refresh
    entries_of invalidate derive_output ◌-ℤ◌ add_new book vout_addrs ◌+ℤ◌ sats_from_btc
payment_found = refl

abbrev given : Result Error (Tx milli) → Tx milli
given (err x) = coinbase_tx
given (ok tx) = tx

abbrev payment : Tx milli
payment = given (get_tx paying_env payment_id (new_service milli false)).0
