-- ===== src/Lookup/Payload.antt =====
-- internal/explorer/tx.go: what `GetTx` answers with, by what the node knows of the transaction.
use btcdwatch_com.Base.{◌≡◌, refl, sym, ap, List, [], Bool, true, false, not, inl, inr, Bool-cases}
use btcdwatch_com.Base.Action.{ok, err, Gives, gives_then, gives_pure, pure, ◌>>=◌}
use btcdwatch_com.Base.Float.{Float}
use btcdwatch_com.Base.Map.{is_some}
use btcdwatch_com.Base.Text.{Text, text_eq}
use btcdwatch_com.Lookup.{
  Tx, TxStatus, confirmed, pending, derive, derive_pending, get_tx, in_block, settle_tx, inputs_of,
  snapshot_with, measure, at_queue, header_of, mined, raw_of,
}
use btcdwatch_com.Node.{Error}
use btcdwatch_com.Rpc.{TxRaw}
use btcdwatch_com.Service.{Env, Service, Prevout}

abbrev pub is_confirmed : TxStatus → Bool
is_confirmed confirmed = true
is_confirmed pending = false

module _ {f : Float} {B H : Type 0} (env : Env f B H) where
  -- A payload of the transaction `raw`: its id, and a block or a queue position by its status.
  pub record IsPayload (raw : TxRaw B) (tx : Tx f) : Type 0 where
    pub same_txid : tx.txid ≡ raw.txid
    pub in_a_block : is_confirmed tx.status ≡ not (text_eq raw.block_hash [])
    pub block_given : is_some tx.block ≡ is_confirmed tx.status
    pub pending_given : is_some tx.pending_at ≡ not (is_confirmed tx.status)

  derive_pending-IsPayload :
      (raw : TxRaw B) (ins : List Prevout)
      → text_eq raw.block_hash [] ≡ true
      → Gives (derive_pending env (derive env raw ins)) (IsPayload raw)
  unfolding derive_pending derive
  derive_pending-IsPayload raw ins unconfirmed =
      let tx = derive env raw ins in
      gives_then (IsPayload raw) (snapshot_with env raw.txid)
        (λ s. measure env >>= λ mean. pure (at_queue env tx s mean))
        (λ s.
          gives_then (IsPayload raw) (measure env) (λ mean. pure (at_queue env tx s mean))
            (λ mean. gives_pure (IsPayload raw) (at_queue env tx s mean) (record {
              same_txid = refl;
              in_a_block = sym (ap not unconfirmed);
              block_given = refl;
              pending_given = refl;
            })))

  in_block-IsPayload :
      (raw : TxRaw B) (ins : List Prevout)
      → text_eq raw.block_hash [] ≡ false
      → Gives (in_block env (derive env raw ins) raw.block_hash) (IsPayload raw)
  unfolding derive
  in_block-IsPayload raw ins is_mined =
      let tx = derive env raw ins in
      gives_then (IsPayload raw) (header_of env raw.block_hash) (λ h. pure (mined env tx h))
        (λ h. gives_pure (IsPayload raw) (mined env tx h) (record {
          same_txid = refl;
          in_a_block = sym (ap not is_mined);
          block_given = refl;
          pending_given = refl;
        }))

  settle_tx-IsPayload :
      (raw : TxRaw B) (ins : List Prevout) → Gives (settle_tx env raw ins) (IsPayload raw)
  settle_tx-IsPayload raw ins = elim (Bool-cases (text_eq raw.block_hash [])) [
    | inl unconfirmed ↦ rw unconfirmed (derive_pending-IsPayload raw ins unconfirmed)
    | inr is_mined ↦ rw is_mined (in_block-IsPayload raw ins is_mined)
  ]

  -- When `GetTx` gives a payload, it has the id that the node's transaction has; it is confirmed, and
  -- names a block, just when the node names one; and a payload that is not confirmed, and no other,
  -- has a place in the queue.
  pub get_tx-IsPayload :
      (txid : Text) (s : Service f) (raw : TxRaw B) (tx : Tx f)
      → raw_of env txid ≡ ok raw
      → (get_tx env txid s).0 ≡ ok tx
      → IsPayload raw tx
  unfolding get_tx
  get_tx-IsPayload txid s raw tx at h =
      gives_then (IsPayload raw) (inputs_of env raw) (settle_tx env raw) (settle_tx-IsPayload raw) s
        tx (rw at at h)

  -- An id that is none, or that the node knows no transaction of, is `tx_not_found`; any other
  -- error of the node is given as it is, and in both cases nothing is stored.
  pub get_tx-error :
      (txid : Text) (s : Service f) (x : Error)
      → raw_of env txid ≡ err x
      → get_tx env txid s ≡ (err x, s)
  unfolding get_tx
  get_tx-error txid s x at = rw at refl
