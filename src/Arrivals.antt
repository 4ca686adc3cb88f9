-- ===== src/Arrivals.antt =====
-- internal/explorer/arrivals.go: the feed of accepted transactions. `Feed` is the part of the
-- service that a notification changes; `now` is the time of the call. `compute_mempool_update` runs
-- after the refresh of the snapshot.
pub mod Buffer
use btcdwatch_com.Base.{
  ℕ, ◌+◌, ◌-◌, List, [], ◌∷◌, Option, none, some, Bool, true, false, ◌||◌, if◌then◌else◌, ltb, ◌==◌,
  Eq,
}
use btcdwatch_com.Base.Int.{ℤ, pos, ◌+ℤ◌}
use btcdwatch_com.Base.Float.{Float}
use btcdwatch_com.Base.Map.{lookup}
use btcdwatch_com.Base.Sort.{Sorter}
use btcdwatch_com.Base.Text.{Text}
use btcdwatch_com.Inflow.{InflowCounter, note, rate_per_min}
use btcdwatch_com.Mempool.{Mempool, mark_dirty, snapshot_and_queue}
use btcdwatch_com.Queue.{Queue}
use btcdwatch_com.Rpc.{Vout, sats_from_btc}
use btcdwatch_com.Snapshot.{MempoolEntry, Snapshot}

abbrev pub arrivals_cap : ℕ
arrivals_cap = 12

abbrev pub arrival_max_age : ℕ
arrival_max_age = 300000000000

-- An entry of the buffer, `arrival` in the source.
pub record Unresolved : Type 0 where
  pub txid : Text
  pub amount_sats : ℤ
  pub seen : ℕ

pub record Arrival (f : Float) : Type 0 where
  pub txid : Text
  pub amount_sats : ℤ
  pub fee_rate_sat_per_vb : f.F
  pub vsize : ℕ
  pub time : ℕ

pub record MempoolUpdate (f : Float) : Type 0 where
  pub queue : Queue f
  pub arrivals : List (Arrival f)
  pub inflow_tx_per_min : f.F

pub record Feed (f : Float) : Type 0 where
  pub arrivals : List Unresolved
  pub inflow : InflowCounter
  pub mempool : Mempool f

-- The gross total of the outputs.
unfoldable pub gross : {B : Type 0} → (B → Option ℤ) → ℤ → List (Vout B) → ℤ
gross new_amount amount [] = amount
gross new_amount amount (v ∷ vs) = gross new_amount (amount +ℤ sats_from_btc new_amount v.value) vs

module _ ⦃e : Eq Text⦄ where
  -- The loop over the old entries, with `n` entries in the new buffer.
  unfoldable pub keep_arrivals : Text → ℕ → ℕ → List Unresolved → List Unresolved
  keep_arrivals txid now n [] = []
  keep_arrivals txid now n (a ∷ as') =
      let skipped = keep_arrivals txid now n as' in
      let kept = a ∷ keep_arrivals txid now (n + 1) as' in
      if n == arrivals_cap || ltb arrival_max_age (now - a.seen)
      then []
      else if e.beq a.txid txid
      then skipped
      else kept

  unfoldable pub buffer : List Unresolved → Text → ℤ → ℕ → List Unresolved
  unfolding keep_arrivals
  buffer old txid amount now =
      record { txid = txid; amount_sats = amount; seen = now } ∷ keep_arrivals txid now 1 old

  unfoldable pub note_arrival :
      {f : Float} {B : Type 0} → (B → Option ℤ) → Feed f → Text → List (Vout B) → ℕ → Feed f
  unfolding buffer gross
  note_arrival {f} new_amount s txid vouts now = record {
    arrivals = buffer s.arrivals txid (gross new_amount (pos 0) vouts) now;
    inflow = note s.inflow now;
    mempool = mark_dirty f s.mempool;
  }

  module _ (f : Float) where
    abbrev pub join_entry :
        Unresolved → Option (MempoolEntry f) → List (Arrival f) → List (Arrival f)
    join_entry a none rest = rest
    join_entry a (some x) rest =
        record {
          txid = a.txid;
          amount_sats = a.amount_sats;
          fee_rate_sat_per_vb = x.fee_rate;
          vsize = x.vsize;
          time = x.time;
        }
        ∷ rest

    -- An arrival that the snapshot does not hold is skipped.
    unfoldable pub resolve : Snapshot f → List Unresolved → List (Arrival f)
    resolve snapshot [] = []
    resolve snapshot (a ∷ as') = join_entry a (lookup a.txid snapshot) (resolve snapshot as')

    unfoldable pub compute_mempool_update : Sorter → Feed f → ℕ → Feed f × MempoolUpdate f
    unfolding resolve
    compute_mempool_update sorter s now =
        let (m, snapshot, q) = snapshot_and_queue f sorter s.mempool now in
        let (c, per_min) = rate_per_min f s.inflow now in
        (
          record s { mempool = m; inflow = c },
          record { queue = q; arrivals = resolve snapshot s.arrivals; inflow_tx_per_min = per_min },
        )
