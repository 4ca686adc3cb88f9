-- ===== src/Queue.antt =====
-- internal/explorer/queue.go: the fee-band histogram of the mempool and the next-block cutoff.
-- Doubles and `sort.Slice` are parameters; sums of sizes do not reach 2^63.
pub mod Bands
pub mod Cutoff
use btcdwatch_com.Base.{
  ℕ, zero, suc, ◌+◌, ◌-◌, List, [], ◌∷◌, map, Bool, true, false, not, ◌&&◌, if◌then◌else◌, leb,
  length, get_or, set, replicate,
}
use btcdwatch_com.Base.Int.{pos}
use btcdwatch_com.Base.Float.{Float}
use btcdwatch_com.Base.Sort.{Sorter}
use btcdwatch_com.Snapshot.{Snapshot, MempoolEntry}

-- internal/explorer/tx.go: the block space that one block clears.
abbrev pub vbytes_per_block : ℕ
vbytes_per_block = 1000000

pub record QueueBand (f : Float) : Type 0 where
  pub min_sat_per_vb : f.F
  pub max_sat_per_vb : f.F
  pub vbytes : ℕ

pub record Queue (f : Float) : Type 0 where
  pub tx_count : ℕ
  pub total_vbytes : ℕ
  pub peak_vbytes : ℕ
  pub bands : List (QueueBand f)
  pub cutoff_fraction : f.F
  pub next_block_rate : f.F

module _ (f : Float) where
  abbrev pub num : ℕ → f.F
  num n = f.of_int (pos n)

  -- Front first.
  abbrev pub queue_band_mins : List f.F
  queue_band_mins = num 15 ∷ num 10 ∷ num 6 ∷ num 4 ∷ num 1 ∷ []

  abbrev pub min_at : ℕ → f.F
  min_at i = get_or queue_band_mins i (num 0)

  abbrev pub last_band : ℕ
  last_band = 4

  -- `for band < len(q.Bands)-1 && e.rate < q.Bands[band].MinSatPerVb`, with the rounds left.
  unfoldable pub advance : f.F → ℕ → ℕ → ℕ
  advance rate zero band = band
  advance rate (suc left) band =
      let further = advance rate left (suc band) in
      if f.lt rate (min_at band) then further else band

  -- The variables of the walk; `vbytes` are the bands' sums.
  pub record Walk : Type 0 where
    pub band : ℕ
    pub vbytes : List ℕ
    pub total : ℕ
    pub cum : ℕ
    pub cutoff_rate : f.F
    pub cutoff_seen : Bool

  unfoldable pub visit : Walk → f.F → ℕ → Walk
  visit s rate vsize =
      let band = advance rate (last_band - s.band) s.band in
      let cum = s.cum + vsize in
      let reached = not s.cutoff_seen && leb vbytes_per_block cum in
      record {
        band = band;
        vbytes = set s.vbytes band (get_or s.vbytes band 0 + vsize);
        total = s.total + vsize;
        cum = cum;
        cutoff_rate = if reached then rate else s.cutoff_rate;
        cutoff_seen = if reached then true else s.cutoff_seen;
      }

  unfoldable pub walk : Walk → List (f.F × ℕ) → Walk
  walk s [] = s
  walk s ((rate, vsize) ∷ es) = walk (visit s rate vsize) es

  -- `entries[len(entries)-1].rate`; the empty list is not asked.
  unfoldable pub last_rate : List (f.F × ℕ) → f.F
  last_rate [] = num 1
  last_rate ((rate, vsize) ∷ []) = rate
  last_rate (e ∷ d ∷ es) = last_rate (d ∷ es)

  abbrev pub start : List (f.F × ℕ) → Walk
  start es = record {
    band = 0;
    vbytes = replicate 5 0;
    total = 0;
    cum = 0;
    cutoff_rate = last_rate es;
    cutoff_seen = false;
  }

  unfoldable pub entries : Snapshot f → List (f.F × ℕ)
  entries [] = []
  entries ((txid, e) ∷ s) = (e.fee_rate, e.vsize) ∷ entries s

  abbrev pub higher : f.F × ℕ → f.F × ℕ → Bool
  higher (a, v) (b, w) = f.lt b a

  -- The bands from band `i` on, whose upper bound is `top`.
  unfoldable pub bands_from : f.F → List f.F → List ℕ → List (QueueBand f)
  bands_from top [] vs = []
  bands_from top (lo ∷ mins) [] = []
  bands_from top (lo ∷ mins) (v ∷ vs) =
      record { min_sat_per_vb = lo; max_sat_per_vb = top; vbytes = v } ∷ bands_from lo mins vs

  unfoldable pub queue_of : ℕ → List (f.F × ℕ) → Queue f
  queue_of count [] = record {
    tx_count = count;
    total_vbytes = 0;
    peak_vbytes = 0;
    bands = bands_from (num 0) queue_band_mins (replicate 5 0);
    cutoff_fraction = num 1;
    next_block_rate = num 1;
  }
  queue_of count (e ∷ es) =
      let w = walk (start (e ∷ es)) (e ∷ es) in
      record {
        tx_count = count;
        total_vbytes = w.total;
        peak_vbytes = 0;
        bands = bands_from (num 0) queue_band_mins w.vbytes;
        cutoff_fraction = f.fmin (f.div (num vbytes_per_block) (num w.total)) (num 1);
        next_block_rate = w.cutoff_rate;
      }

  unfoldable pub queue_from_snapshot : Sorter → Snapshot f → Queue f
  unfolding entries queue_of
  queue_from_snapshot s snapshot =
      queue_of (length snapshot) (s.sort (f.F × ℕ) higher (entries snapshot))
