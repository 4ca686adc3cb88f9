-- ===== src/Ws/Sends.antt =====
-- internal/api/ws.go and hub.go: the buffers of the connections, and the update of a transaction.
use btcdwatch_com.Base.{
  ℕ, ◌≤◌, ◌≡◌, refl, ◌∙◌, List, [], ◌∷◌, length, length-append, Option, none, some, Bool, true,
  false, not, ◌&&◌, ◌||◌, inl, inr, Bool-cases, arith, ltb, nat_eq,
}
use btcdwatch_com.Base.Action.{ok}
use btcdwatch_com.Base.Float.{Float}
use btcdwatch_com.Base.Map.{lookup, lookup-insert, is_some}
use btcdwatch_com.Base.Text.{Text}
use btcdwatch_com.Lookup.{Tx, TxBlock, raw_of, get_tx}
use btcdwatch_com.Lookup.Payload.{is_confirmed, get_tx-IsPayload}
use btcdwatch_com.Rpc.{TxRaw}
use btcdwatch_com.Service.{Env, Service}
use btcdwatch_com.Tx.{TxPending}
use btcdwatch_com.Ws.{
  WsClient, Conns, try_send, send_one, send_all, send_buffer_size, unregister_size, or_unregister,
  tx_update, height_of, place_of,
}

or_unregister_bound :
    (sent : Bool) (c : ℕ) (q : List ℕ)
    → length q ≤ unregister_size
    → length (or_unregister sent c q) ≤ unregister_size
or_unregister_bound true c q h = h
or_unregister_bound false c q h = elim (Bool-cases (ltb (length q) unregister_size)) [
  | inl room ↦ rw room (ground (arith, length-append q (c ∷ [])))
  | inr full ↦ rw full h
]

module _ {M : Type 0} where
  -- No channel holds more than its size.
  pub record IsBounded (s : Conns M) : Type 0 where
    pub sends :
        (c : ℕ) (x : WsClient M) → lookup c s.clients ≡ some x → length x.send ≤ send_buffer_size
    pub leaving : length s.unregister ≤ unregister_size

  try_send_bound :
      (picks : Bool) (msg : M) (x : WsClient M)
      → length x.send ≤ send_buffer_size
      → length (try_send picks msg x).1.send ≤ send_buffer_size
  unfolding try_send
  try_send_bound picks msg x h =
      elim (Bool-cases (ltb (length x.send) send_buffer_size && (not x.done || picks))) [
        | inl room ↦ rw room (ground (arith, length-append x.send (msg ∷ [])))
        | inr full ↦ rw full h
      ]

  send_one-IsBounded :
      (picks : Bool) (msg : M) (c : ℕ) (found : Option (WsClient M)) (s : Conns M)
      → lookup c s.clients ≡ found
      → IsBounded s
      → IsBounded (send_one picks msg c found s)
  send_one-IsBounded picks msg c none s e i = i
  send_one-IsBounded picks msg c (some client) s e i =
      let (sent, client') = try_send picks msg client in
      record {
        sends = λ j x h. ground (
          arith,
          lookup-insert j c client' s.clients,
          i.sends j x,
          try_send_bound picks msg client (i.sends c client e),
          h,
        );
        leaving = or_unregister_bound sent c s.unregister i.leaving;
      }

  -- However many messages are sent to whichever connections, and whatever a `select` picks, no
  -- connection's channel ever holds more than 32 messages, nor the hub's more than eight that leave.
  pub send_all-IsBounded :
      (picks : ℕ → Bool) (msg : M) (cs : List ℕ) (s : Conns M)
      → IsBounded s
      → IsBounded (send_all picks msg cs s)
  unfolding send_all
  send_all-IsBounded picks msg [] s i = i
  send_all-IsBounded picks msg (c ∷ cs) s i =
      send_all-IsBounded picks msg cs (send_one (picks c) msg c (lookup c s.clients) s)
        (send_one-IsBounded (picks c) msg c (lookup c s.clients) s refl i)

height_of-is_some : (b : Option TxBlock) → is_some (height_of b) ≡ is_some b
height_of-is_some none = refl
height_of-is_some (some b) = refl

module _ {f : Float} where
  place_of-is_some :
      {A : Type 0} (field : TxPending f → A) (p : Option (TxPending f))
      → is_some (place_of field p) ≡ is_some p
  place_of-is_some field none = refl
  place_of-is_some field (some p) = refl

  -- The update that is pushed for a transaction that `GetTx` gives has the height of its block just
  -- when it is confirmed, and its place in the queue, the three numbers of it, just when it is not.
  pub tx_update-get_tx :
      {B H : Type 0} (env : Env f B H) (txid : Text) (s : Service f) (raw : TxRaw B) (t : Tx f)
      → raw_of env txid ≡ ok raw
      → (get_tx env txid s).0 ≡ ok t
      → (is_some (tx_update t).block_height ≡ is_confirmed (tx_update t).status)
        × (is_some (tx_update t).txs_ahead ≡ not (is_confirmed (tx_update t).status))
        × (is_some (tx_update t).eta_seconds ≡ not (is_confirmed (tx_update t).status))
        × (is_some (tx_update t).queue_vbytes_fraction ≡ not (is_confirmed (tx_update t).status))
  unfolding tx_update
  tx_update-get_tx env txid s raw t at h =
      let i = get_tx-IsPayload env txid s raw t at h in
      (
        height_of-is_some t.block ∙ i.block_given,
        place_of-is_some (λ p. p.txs_ahead) t.pending_at ∙ i.pending_given,
        place_of-is_some (λ p. p.eta_seconds) t.pending_at ∙ i.pending_given,
        place_of-is_some (λ p. p.queue_vbytes_fraction) t.pending_at ∙ i.pending_given,
      )
