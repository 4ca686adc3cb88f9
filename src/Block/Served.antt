-- ===== src/Block/Served.antt =====
-- internal/explorer/block.go: a page of a block is given when the node knows its transactions.
use btcdwatch_com.Base.{
  ℕ, zero, suc, ◌+◌, ◌≡◌, refl, sym, ◌∙◌, ap, List, [], ◌∷◌, map, take, drop, length, Option, none,
  some, Bool, true, ltb, arith,
}
use btcdwatch_com.Base.Action.{Result, ok, err, pure, ◌>>=◌, is_ok, Always, Always-bind}
use btcdwatch_com.Base.Float.{Float}
use btcdwatch_com.Base.Map.{elem}
use btcdwatch_com.Base.Text.{Text, codes_eq, text_eq_iff}
use btcdwatch_com.Block.{
  Block, BlockTx, page_rows, page_of, block, block_of, row_of, last_coinbase, derive_avg_fee,
  coinbase_or, avg_fee,
}
use btcdwatch_com.Block.Page.{block-txids}
use btcdwatch_com.Lookup.{Tx, get_tx, raw_of}
use btcdwatch_com.Node.{Error}
use btcdwatch_com.Rpc.{BlockRaw, TxRaw}
use btcdwatch_com.Service.{Env, Service}
use mathlib.Core.Bool.{true≢false}

elem-drop : (t : Text) (n : ℕ) (ts : List Text) → elem t (drop n ts) ≡ true → elem t ts ≡ true
unfolding elem
elem-drop t zero ts h = h
elem-drop t (suc n) [] h = h
elem-drop t (suc n) (u ∷ ts) h = ground (arith, elem-drop t n ts, h)

elem-take : (t : Text) (n : ℕ) (ts : List Text) → elem t (take n ts) ≡ true → elem t ts ≡ true
unfolding elem
elem-take t zero ts h = absurd (true≢false (sym h))
elem-take t (suc n) [] h = h
elem-take t (suc n) (u ∷ ts) h = ground (arith, elem-take t n ts, h)

-- The ids of the rows, the number of transactions and whether there is more, of a page that is given.
abbrev pub shown : {f : Float} → Result Error (Block f) → Option (List Text × ℕ × Bool)
shown (err x) = none
shown {f} (ok b) = some (map (λ (t : BlockTx f). t.txid) b.txs, b.tx_count, b.has_more)

module _ {f : Float} {B H : Type 0} (env : Env f B H) where
  page_rows-Always :
      (txids : List Text)
      → ((txid : Text) → elem txid txids ≡ true → Always (get_tx env txid))
      → Always (page_rows env txids)
  unfolding page_rows elem
  page_rows-Always [] finds s = refl
  page_rows-Always (txid ∷ txids) finds s =
      Always-bind (get_tx env txid)
        (λ tx. page_rows env txids >>= λ rest.
          pure (row_of env tx ∷ rest.0, last_coinbase env tx rest.1))
        (finds txid (ground (arith, text_eq_iff txid txid)))
        (λ tx.
          Always-bind (page_rows env txids)
            (λ rest. pure (row_of env tx ∷ rest.0, last_coinbase env tx rest.1))
            (page_rows-Always txids (λ t h. finds t (ground (arith, h)))) (λ rest t. refl))
        s

  coinbase_or-Always :
      (txid : Text) (coinbase : Option (Tx f))
      → Always (get_tx env txid)
      → Always (coinbase_or env txid coinbase)
  coinbase_or-Always txid none h s = h s
  coinbase_or-Always txid (some tx) h s = refl

  derive_avg_fee-Always :
      (raw : BlockRaw) (txids : List Text) (coinbase : Option (Tx f))
      → ((txid : Text) → elem txid txids ≡ true → Always (get_tx env txid))
      → Always (derive_avg_fee env raw txids coinbase)
  unfolding derive_avg_fee elem
  derive_avg_fee-Always raw [] coinbase finds s = refl
  derive_avg_fee-Always raw (txid ∷ []) coinbase finds s = refl
  derive_avg_fee-Always raw (txid ∷ next ∷ txids) coinbase finds s =
      Always-bind (coinbase_or env txid coinbase) (λ tx. pure (avg_fee env raw tx))
        (coinbase_or-Always txid coinbase (finds txid (ground (arith, text_eq_iff txid txid))))
        (λ tx t. refl) s

  page_of-Always :
      (raw : BlockRaw) (offset limit : ℕ)
      → ((txid : Text) → elem txid raw.txs ≡ true → Always (get_tx env txid))
      → Always (page_of env raw offset limit)
  page_of-Always raw offset limit finds =
      let page = take limit (drop offset raw.txs) in
      Always-bind (page_rows env page)
        (λ rows. derive_avg_fee env raw raw.txs rows.1 >>= λ fee.
          pure (block_of env raw offset limit rows.0 fee))
        (page_rows-Always page
          (λ t h. finds t (elem-drop t offset raw.txs (elem-take t limit (drop offset raw.txs) h))))
        (λ rows.
          Always-bind (derive_avg_fee env raw raw.txs rows.1)
            (λ fee. pure (block_of env raw offset limit rows.0 fee))
            (derive_avg_fee-Always raw raw.txs rows.1 finds) (λ fee s. refl))

  block-Always :
      (hash : H) (offset limit : ℕ) (raw : BlockRaw)
      → env.backend.block hash ≡ ok raw
      → ((txid : Text) → elem txid raw.txs ≡ true → Always (get_tx env txid))
      → Always (block env hash offset limit)
  unfolding block
  block-Always hash offset limit raw at finds s = rw at (page_of-Always raw offset limit finds s)

  -- When the node knows the block, and `GetTx` finds each of its transactions under the id that it is
  -- asked for by, then a page of it is given: its rows are the block's transactions from the offset
  -- on, at most the limit of them and in their order, and there is more just when the block has
  -- transactions behind them.
  pub block-served :
      (hash : H) (offset limit : ℕ) (s : Service f) (raw : BlockRaw)
      → env.backend.block hash ≡ ok raw
      → ((txid : Text)
          → elem txid raw.txs ≡ true
          → (t : Service f) → is_ok (get_tx env txid t).0 ≡ true)
      → ((txid : Text) (tx : TxRaw B) → raw_of env txid ≡ ok tx → tx.txid ≡ txid)
      → shown (block env hash offset limit s).0
        ≡ some (
          take limit (drop offset raw.txs),
          length raw.txs,
          ltb (offset + limit) (length raw.txs),
        )
  block-served hash offset limit s raw at finds named =
      by_end (block env hash offset limit s).0 refl
    where
      by_end :
          (r : Result Error (Block f))
          → (block env hash offset limit s).0 ≡ r
          → shown r
            ≡ some (
              take limit (drop offset raw.txs),
              length raw.txs,
              ltb (offset + limit) (length raw.txs),
            )
      by_end (err x) e =
          absurd (true≢false (sym (block-Always hash offset limit raw at finds s) ∙ ap is_ok e))
      by_end (ok b) e =
          let (rows, count, more) = block-txids env named hash offset limit s raw b at e in
          rw (rows, count, more) refl
