-- ===== src/Tests/Queue.antt =====
-- The queue, the fee tiers and the place in the queue at a mempool of three transactions.
use btcdwatch_com.Base.{◌+◌, ◌*◌, ◌≤◌, ◌<◌, ◌≡◌, refl, [], ◌∷◌, false, ltb, arith, length}
use btcdwatch_com.Base.Int.{pos}
use btcdwatch_com.Base.Sort.{sum_by}
use btcdwatch_com.Base.Text.{codes, codes_eq}
use btcdwatch_com.Snapshot.{Snapshot}
use btcdwatch_com.Queue.{num, entries, queue_from_snapshot, vbytes_per_block}
use btcdwatch_com.Queue.Bands.{vbytes_at, in_band, queue-exact}
use btcdwatch_com.Fees.{FeeFloors, tier_rates, percentile, lower}
use btcdwatch_com.Fees.Tiers.{tier_rates-ordered, target_of, bytes_up_to, percentile-reaches}
use btcdwatch_com.Tx.{pending_of}
use btcdwatch_com.Tx.Pending.{one_if_ahead, vbytes_if_ahead, pending_of-exact}
use btcdwatch_com.Tests.Doubles.{milli, milli-IsOrder, insertion}

abbrev mempool : Snapshot milli
mempool =
    (
      codes "a",
      record { fee_sats = pos 1200; vsize = 400; size_bytes = 500; time = 1; fee_rate = 3000 },
    )
    ∷ (
      codes "b",
      record { fee_sats = pos 9000; vsize = 300; size_bytes = 300; time = 2; fee_rate = 30000 },
    )
    ∷ (
      codes "c",
      record { fee_sats = pos 2000; vsize = 200; size_bytes = 250; time = 3; fee_rate = 10000 },
    )
    ∷ []

queue-exact_example :
    (vbytes_at milli (queue_from_snapshot milli insertion mempool).bands 1
      ≡ sum_by (in_band milli 1) (entries milli mempool))
    × ((queue_from_snapshot milli insertion mempool).total_vbytes
        ≡ sum_by (λ y. y.1) (entries milli mempool))
    × ((queue_from_snapshot milli insertion mempool).tx_count ≡ length mempool)
queue-exact_example = queue-exact milli milli-IsOrder insertion mempool 1 (omega arith)

abbrev no_floors : FeeFloors milli
no_floors = record { floor_slow = 0; floor_standard = 0; floor_urgent = 5000 }

tier_rates-ordered_example :
    let r = tier_rates milli insertion no_floors mempool in
    (ltb r.slow (num milli 1) ≡ false)
    × (ltb r.standard r.slow ≡ false)
    × (ltb r.urgent r.standard ≡ false)
    × (ltb r.urgent (num milli 1) ≡ false)
tier_rates-ordered_example = tier_rates-ordered milli milli-IsOrder insertion no_floors mempool

-- The median of the bytes pays 10 sat/vB.
percentile-reaches_example :
    ltb
      (num milli (
        sum_by
          (bytes_up_to milli
            (percentile milli 50 (insertion.sort _ (lower milli) (entries milli mempool))))
          (entries milli mempool)))
      (target_of milli 50 (entries milli mempool))
    ≡ false
percentile-reaches_example =
    percentile-reaches milli milli-IsOrder insertion 50 (entries milli mempool)
      (unfold entries sum_by in refl)

pending_of-exact_example :
    let p = pending_of milli (codes "c") 10000 600 mempool in
    (p.txs_ahead ≡ sum_by (one_if_ahead milli (codes "c") 10000) mempool)
    × (p.vbytes_ahead ≡ sum_by (vbytes_if_ahead milli (codes "c") 10000) mempool)
    × (p.vbytes_ahead < p.eta_blocks * vbytes_per_block)
    × (p.eta_blocks * vbytes_per_block ≤ p.vbytes_ahead + vbytes_per_block)
pending_of-exact_example = pending_of-exact milli (codes "c") 10000 600 mempool
