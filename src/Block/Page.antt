-- ===== src/Block/Page.antt =====
-- internal/explorer/block.go: the rows of a page are those of the block, from the offset on.
use btcdwatch_com.Base.{
  ℕ, ◌+◌, ◌≤◌, ◌≡◌, refl, sym, ◌∙◌, ap, List, [], ◌∷◌, map, take, drop, length, none, ltb, suc,
  arith, length-take,
}
use mathlib.Core.Path.{ap₂}
use btcdwatch_com.Base.Action.{
  Result, ok, err, Gives, gives_bind, gives_then, gives_pure, pure, lift, or_fail, err≢ok, ◌>>=◌,
}
use btcdwatch_com.Base.Int.{pos}
use btcdwatch_com.Base.Float.{Float}
use btcdwatch_com.Base.Text.{Text}
use btcdwatch_com.Block.{
  Block, BlockTx, page_rows, page_of, block, block_of, row_of, last_coinbase, derive_avg_fee,
  or_block_missing, block_by_hash, block_by_height,
}
use btcdwatch_com.Lookup.{get_tx, raw_of}
use btcdwatch_com.Lookup.Payload.{get_tx-IsPayload, get_tx-error}
use btcdwatch_com.Node.{Error, block_not_found}
use btcdwatch_com.Rpc.{BlockRaw, TxRaw}
use btcdwatch_com.Service.{Env, Service}

-- A page of the block `raw`.
abbrev IsPage : {f : Float} → BlockRaw → ℕ → ℕ → Block f → Type 0
IsPage {f} raw offset limit b =
    (map (λ (t : BlockTx f). t.txid) b.txs ≡ take limit (drop offset raw.txs))
    × (b.tx_count ≡ length raw.txs)
    × (b.has_more ≡ ltb (offset + limit) (length raw.txs))

module _ {f : Float} {B H : Type 0} (env : Env f B H) where
  page_rows-length :
      (txids : List Text) → Gives (page_rows env txids) (λ rows. length rows.0 ≡ length txids)
  unfolding page_rows
  page_rows-length [] = gives_pure _ ([], none) refl
  page_rows-length (txid ∷ txids) =
      gives_then (λ rows. length rows.0 ≡ length (txid ∷ txids)) (get_tx env txid)
        (λ tx. page_rows env txids >>= λ rest.
          pure (row_of env tx ∷ rest.0, last_coinbase env tx rest.1))
        (λ tx.
          gives_bind (λ rows. length rows.0 ≡ length txids)
            (λ rows. length rows.0 ≡ length (txid ∷ txids)) (page_rows env txids)
            (λ rest. pure (row_of env tx ∷ rest.0, last_coinbase env tx rest.1))
            (page_rows-length txids) (λ rest same. gives_pure _ _ (ap suc same)))

  -- A page has at most as many rows as its limit.
  pub block-length :
      (hash : H) (offset limit : ℕ)
      → Gives (block env hash offset limit) (λ b. length b.txs ≤ limit)
  unfolding block
  block-length hash offset limit =
      gives_then (λ b. length b.txs ≤ limit) (lift (or_block_missing env (env.backend.block hash)))
        (λ raw. page_of env raw offset limit)
        (λ raw.
          gives_bind (λ rows. length rows.0 ≡ length (take limit (drop offset raw.txs)))
            (λ b. length b.txs ≤ limit) (page_rows env (take limit (drop offset raw.txs)))
            (λ rows. derive_avg_fee env raw raw.txs rows.1 >>= λ fee.
              pure (block_of env raw offset limit rows.0 fee))
            (page_rows-length (take limit (drop offset raw.txs)))
            (λ rows same.
              gives_then (λ b. length b.txs ≤ limit) (derive_avg_fee env raw raw.txs rows.1)
                (λ fee. pure (block_of env raw offset limit rows.0 fee))
                (λ fee.
                  gives_pure (λ b. length b.txs ≤ limit) _
                    (omega (arith, same, length-take limit (drop offset raw.txs))))))

  pub block_by_hash-length :
      (hash_text : Text) (offset limit : ℕ)
      → Gives (block_by_hash env hash_text offset limit) (λ b. length b.txs ≤ limit)
  unfolding block_by_hash
  block_by_hash-length hash_text offset limit =
      gives_then (λ b. length b.txs ≤ limit) (or_fail (env.parse_hash hash_text) block_not_found)
        (λ hash. block env hash offset limit) (λ hash. block-length hash offset limit)

  pub block_by_height-length :
      (height offset limit : ℕ)
      → Gives (block_by_height env (pos height) offset limit) (λ b. length b.txs ≤ limit)
  unfolding block_by_height
  block_by_height-length height offset limit =
      gives_then (λ b. length b.txs ≤ limit)
        (lift (or_block_missing env (env.backend.block_hash height)))
        (λ hash. block env hash offset limit) (λ hash. block-length hash offset limit)

  module _
      (named : (txid : Text) (raw : TxRaw B) → raw_of env txid ≡ ok raw → raw.txid ≡ txid) where
    get_tx-txid : (txid : Text) → Gives (get_tx env txid) (λ tx. tx.txid ≡ txid)
    get_tx-txid txid s tx h = by_raw (raw_of env txid) refl
      where
        by_raw : (r : Result Error (TxRaw B)) → raw_of env txid ≡ r → tx.txid ≡ txid
        by_raw (ok raw) at = (get_tx-IsPayload env txid s raw tx at h).same_txid ∙ named txid raw at
        by_raw (err x) at = absurd (err≢ok (ap (λ p. p.0) (sym (get_tx-error env txid s x at)) ∙ h))

    page_rows-txids :
        (txids : List Text)
        → Gives (page_rows env txids) (λ rows. map (λ (t : BlockTx f). t.txid) rows.0 ≡ txids)
    unfolding page_rows
    page_rows-txids [] = gives_pure _ ([], none) refl
    page_rows-txids (txid ∷ txids) =
        gives_bind (λ tx. tx.txid ≡ txid)
          (λ rows. map (λ (t : BlockTx f). t.txid) rows.0 ≡ txid ∷ txids) (get_tx env txid)
          (λ tx. page_rows env txids >>= λ rest.
            pure (row_of env tx ∷ rest.0, last_coinbase env tx rest.1))
          (get_tx-txid txid)
          (λ tx same.
            gives_bind (λ rows. map (λ (t : BlockTx f). t.txid) rows.0 ≡ txids)
              (λ rows. map (λ (t : BlockTx f). t.txid) rows.0 ≡ txid ∷ txids) (page_rows env txids)
              (λ rest. pure (row_of env tx ∷ rest.0, last_coinbase env tx rest.1))
              (page_rows-txids txids)
              (λ rest rest_same. gives_pure _ _ (ap₂ (λ t ts. t ∷ ts) same rest_same)))

    -- When each transaction of the node has the id that it was asked for by, then the rows of a page
    -- that is given are those of the block's transactions from the offset on, at most the limit of
    -- them and in their order, and there is more just when the block has transactions behind them.
    pub block-txids :
        (hash : H) (offset limit : ℕ) (s : Service f) (raw : BlockRaw) (b : Block f)
        → env.backend.block hash ≡ ok raw
        → (block env hash offset limit s).0 ≡ ok b
        → (map (λ (t : BlockTx f). t.txid) b.txs ≡ take limit (drop offset raw.txs))
          × (b.tx_count ≡ length raw.txs)
          × (b.has_more ≡ ltb (offset + limit) (length raw.txs))
    unfolding block
    block-txids hash offset limit s raw b at h =
        gives_bind
          (λ rows. map (λ (t : BlockTx f). t.txid) rows.0 ≡ take limit (drop offset raw.txs))
          (IsPage raw offset limit) (page_rows env (take limit (drop offset raw.txs)))
          (λ rows. derive_avg_fee env raw raw.txs rows.1 >>= λ fee.
            pure (block_of env raw offset limit rows.0 fee))
          (page_rows-txids (take limit (drop offset raw.txs)))
          (λ rows same.
            gives_then (IsPage raw offset limit) (derive_avg_fee env raw raw.txs rows.1)
              (λ fee. pure (block_of env raw offset limit rows.0 fee))
              (λ fee. gives_pure (IsPage raw offset limit) _ (same, refl, refl)))
          s b (rw at at h)
