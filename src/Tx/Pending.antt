-- ===== src/Tx/Pending.antt =====
-- internal/explorer/tx.go: the place of a pending transaction in the queue.
use btcdwatch_com.Base.{
  ℕ, ◌+◌, ◌*◌, ◌≤◌, ◌<◌, ◌≡◌, refl, [], ◌∷◌, Bool, true, false, not, ◌&&◌, arith, if◌then◌else◌, Eq,
}
use btcdwatch_com.Base.Float.{Float}
use btcdwatch_com.Base.Sort.{sum_by}
use btcdwatch_com.Base.Text.{Text}
use btcdwatch_com.Queue.{vbytes_per_block}
use btcdwatch_com.Snapshot.{Snapshot, MempoolEntry}
use btcdwatch_com.Tx.{Ahead, pass, count_ahead, pending_of}

pass-vbytes :
    (a : Ahead) (vsize : ℕ) (same more : Bool)
    → (pass a vsize same more).vbytes ≡ a.vbytes + (if not same && more then vsize else 0)
unfolding pass
pass-vbytes a vsize true more = omega arith
pass-vbytes a vsize false true = refl
pass-vbytes a vsize false false = omega arith

pass-txs :
    (a : Ahead) (vsize : ℕ) (same more : Bool)
    → (pass a vsize same more).txs ≡ a.txs + (if not same && more then 1 else 0)
unfolding pass
pass-txs a vsize true more = omega arith
pass-txs a vsize false true = refl
pass-txs a vsize false false = omega arith

module _ (f : Float) ⦃e : Eq Text⦄ where
  -- Another transaction that pays more than `my_rate`.
  abbrev pub is_ahead : Text → f.F → Text × MempoolEntry f → Bool
  is_ahead txid my_rate (k, x) = not (e.beq k txid) && f.lt my_rate x.fee_rate

  abbrev pub vbytes_if_ahead : Text → f.F → Text × MempoolEntry f → ℕ
  vbytes_if_ahead txid my_rate (k, x) = if is_ahead txid my_rate (k, x) then x.vsize else 0

  abbrev pub one_if_ahead : Text → f.F → Text × MempoolEntry f → ℕ
  one_if_ahead txid my_rate (k, x) = if is_ahead txid my_rate (k, x) then 1 else 0

  count_ahead-vbytes :
      (txid : Text) (my_rate : f.F) (snapshot : Snapshot f) (a : Ahead)
      → (count_ahead f txid my_rate a snapshot).vbytes
        ≡ a.vbytes + sum_by (vbytes_if_ahead txid my_rate) snapshot
  unfolding count_ahead sum_by
  count_ahead-vbytes txid my_rate [] a = omega arith
  count_ahead-vbytes txid my_rate ((k, x) ∷ s) a =
      let same = e.beq k txid in
      let more = f.lt my_rate x.fee_rate in
      omega (
        arith,
        pass-vbytes a x.vsize same more,
        count_ahead-vbytes txid my_rate s (pass a x.vsize same more),
      )

  count_ahead-txs :
      (txid : Text) (my_rate : f.F) (snapshot : Snapshot f) (a : Ahead)
      → (count_ahead f txid my_rate a snapshot).txs
        ≡ a.txs + sum_by (one_if_ahead txid my_rate) snapshot
  unfolding count_ahead sum_by
  count_ahead-txs txid my_rate [] a = omega arith
  count_ahead-txs txid my_rate ((k, x) ∷ s) a =
      let same = e.beq k txid in
      let more = f.lt my_rate x.fee_rate in
      omega (
        arith,
        pass-txs a x.vsize same more,
        count_ahead-txs txid my_rate s (pass a x.vsize same more),
      )

  -- The position of a pending transaction counts the transactions of the snapshot other than itself
  -- that pay more, and their vbytes, and the block it is expected in is the first that those vbytes,
  -- at a million each block, do not fill.
  pub pending_of-exact :
      (txid : Text) (my_rate : f.F) (interval : ℕ) (snapshot : Snapshot f)
      → let p = pending_of f txid my_rate interval snapshot in
        (p.txs_ahead ≡ sum_by (one_if_ahead txid my_rate) snapshot)
        × (p.vbytes_ahead ≡ sum_by (vbytes_if_ahead txid my_rate) snapshot)
        × (p.vbytes_ahead < p.eta_blocks * vbytes_per_block)
        × (p.eta_blocks * vbytes_per_block ≤ p.vbytes_ahead + vbytes_per_block)
  unfolding pending_of
  pending_of-exact txid my_rate interval snapshot =
      let a : Ahead = record { txs = 0; vbytes = 0; total = 0 } in
      (
        omega (arith, count_ahead-txs txid my_rate snapshot a),
        omega (arith, count_ahead-vbytes txid my_rate snapshot a),
        omega arith,
        omega arith,
      )
