-- ===== src/Mempool.antt =====
-- internal/explorer/mempool.go: the shared snapshot. `refresh` calls the node with no lock held, so
-- it is three steps here: `begin_refresh` decides whether to fetch, and `finish_refresh` or
-- `fail_refresh` is the end of the fetch. Each is one step of the mutex at the time `now`. The zero
-- `fetched` is `none`, and so are the `entries` before the first fetch.
pub mod Refresh
pub mod Versions
pub mod Overlap
pub mod Peak
use btcdwatch_com.Base.{
  ℕ, ◌+◌, ◌-◌, ◌*◌, ◌%◌, max, List, [], ◌∷◌, ◌++◌, Option, none, some, Bool, true, false, not, ◌&&◌,
  ◌||◌, if◌then◌else◌, ltb, leb, ◌==◌,
}
use btcdwatch_com.Base.Int.{ℤ, pos}
use btcdwatch_com.Base.Float.{Float}
use btcdwatch_com.Base.Map.{is_some}
use btcdwatch_com.Base.Sort.{Sorter}
use btcdwatch_com.Base.Text.{Text}
use btcdwatch_com.Snapshot.{MempoolEntry, Snapshot}
use btcdwatch_com.Rpc.{RawEntry}
use btcdwatch_com.Queue.{Queue, num, queue_from_snapshot}

abbrev pub snapshot_max_age : ℕ
snapshot_max_age = 5000000000

abbrev pub snapshot_min_age : ℕ
snapshot_min_age = 1000000000

abbrev pub fetch_stuck : ℕ
fetch_stuck = 120000000000

abbrev pub peak_bucket_dur : ℕ
peak_bucket_dur = 600000000000

abbrev pub peak_buckets : ℕ
peak_buckets = 6

pub record PeakBucket : Type 0 where
  pub start : ℕ
  pub max_vbytes : ℕ

pub record Mempool (f : Float) : Type 0 where
  pub fetched : Option ℕ
  pub dirty : Bool
  pub gen : ℕ
  pub fetching : Bool
  pub fetch_started : ℕ
  pub entries : Option (Snapshot f)
  pub queue : Option (Queue f)
  pub peaks : List PeakBucket

-- `now.Truncate(peakBucketDur)`.
abbrev pub bucket_of : ℕ → ℕ
bucket_of now = now - now % peak_bucket_dur

unfoldable pub note_last : List PeakBucket → ℕ → ℕ → List PeakBucket
note_last [] bucket total = record { start = bucket; max_vbytes = total } ∷ []
note_last (b ∷ []) bucket total =
    if b.start == bucket
    then record b { max_vbytes = max b.max_vbytes total } ∷ []
    else b ∷ record { start = bucket; max_vbytes = total } ∷ []
note_last (b ∷ c ∷ bs) bucket total = b ∷ note_last (c ∷ bs) bucket total

-- The buckets in front that lie before the cutoff are dropped.
unfoldable pub drop_old : ℕ → List PeakBucket → List PeakBucket
drop_old cutoff [] = []
drop_old cutoff (b ∷ bs) = if ltb b.start cutoff then drop_old cutoff bs else b ∷ bs

unfoldable pub peak_from : ℕ → List PeakBucket → ℕ
peak_from peak [] = peak
peak_from peak (b ∷ bs) = peak_from (max peak b.max_vbytes) bs

-- The buckets after `notePeakLocked`. No bucket starts before the epoch of the clock.
unfoldable pub noted_peaks : List PeakBucket → ℕ → ℕ → List PeakBucket
unfolding note_last drop_old
noted_peaks peaks now total =
    drop_old (bucket_of now - (peak_buckets - 1) * peak_bucket_dur)
      (note_last peaks (bucket_of now) total)

module _ (f : Float) where
  unfoldable pub new_mempool : Mempool f
  new_mempool = record {
    fetched = none;
    dirty = false;
    gen = 0;
    fetching = false;
    fetch_started = 0;
    entries = none;
    queue = none;
    peaks = [];
  }

  unfoldable pub note_peak : Mempool f → ℕ → ℕ → Mempool f × ℕ
  unfolding noted_peaks peak_from
  note_peak m now total =
      let peaks = noted_peaks m.peaks now total in
      (record m { peaks = peaks }, peak_from total peaks)

  -- Whether a time, if there was one, is less than `limit` ago.
  abbrev pub is_within : ℕ → ℕ → Option ℕ → Bool
  is_within limit now none = false
  is_within limit now (some t) = ltb (now - t) limit

  unfoldable pub is_fresh : Mempool f → ℕ → Bool
  is_fresh m now =
      is_some m.entries
      && is_within snapshot_max_age now m.fetched
      && not (m.dirty && not (is_within snapshot_min_age now m.fetched))

  -- Another reader fetches, and there is a copy to serve meanwhile.
  unfoldable pub is_served : Mempool f → ℕ → Bool
  is_served m now = m.fetching && ltb (now - m.fetch_started) fetch_stuck && is_some m.entries

  -- The generation that the fetch starts at, or `none` if there is no fetch.
  unfoldable pub begin_refresh : Mempool f → ℕ → Mempool f × Option ℕ
  unfolding is_fresh is_served
  begin_refresh m now =
      if is_fresh m now
      then (m, none)
      else if is_served m now
      then (m, none)
      else (record m { fetching = true; fetch_started = now }, some m.gen)

  unfoldable pub fail_refresh : Mempool f → Mempool f
  fail_refresh m = record m { fetching = false }

  unfoldable pub finish_refresh : Mempool f → ℕ → ℕ → Snapshot f → Mempool f
  finish_refresh m gen now entries = record m {
    fetching = false;
    entries = some entries;
    queue = none;
    fetched = some now;
    dirty = if m.gen == gen then false else m.dirty;
  }

  unfoldable pub invalidate : Mempool f → Mempool f
  invalidate m = record m { fetched = none; dirty = true; gen = m.gen + 1 }

  unfoldable pub mark_dirty : Mempool f → Mempool f
  mark_dirty m = record m { dirty = true; gen = m.gen + 1 }

  abbrev pub entry_of : {B : Type 0} → RawEntry B → Option ℤ → ℕ → Option (MempoolEntry f)
  entry_of e none vsize = none
  entry_of e (some fee) vsize = some (record {
    fee_sats = fee;
    vsize = vsize;
    size_bytes = e.size;
    time = e.time;
    fee_rate = if ltb 0 vsize then f.div (f.of_int fee) (num f vsize) else num f 0;
  })

  abbrev pub keep_entry : Text → Option (MempoolEntry f) → Snapshot f → Snapshot f
  keep_entry txid none s = s
  keep_entry txid (some e) s = (txid, e) ∷ s

  -- The snapshot of the node's answer; an entry whose fee is no amount is left out.
  unfoldable pub entries_of : {B : Type 0} → (B → Option ℤ) → List (Text × RawEntry B) → Snapshot f
  entries_of new_amount [] = []
  entries_of new_amount ((txid, e) ∷ raw) =
      let vsize = if e.vsize == 0 then e.size else e.vsize in
      keep_entry txid (entry_of e (new_amount e.fee) vsize) (entries_of new_amount raw)

  -- A map that is nil reads as the empty one.
  abbrev pub entries_or : Option (Snapshot f) → Snapshot f
  entries_or none = []
  entries_or (some s) = s

  abbrev pub queue_or : Sorter → Mempool f → ℕ → Option (Queue f) → Mempool f × Queue f
  queue_or s m now (some q) = (m, q)
  queue_or s m now none =
      let q = queue_from_snapshot f s (entries_or m.entries) in
      let (m', peak) = note_peak m now q.total_vbytes in
      let q' = record q { peak_vbytes = peak } in (record m' { queue = some q' }, q')

  -- The locked read of `SnapshotAndQueue`, after a refresh.
  unfoldable pub snapshot_and_queue : Sorter → Mempool f → ℕ → Mempool f × Snapshot f × Queue f
  unfolding note_peak
  snapshot_and_queue s m now =
      let (m', q) = queue_or s m now m.queue in (m', entries_or m.entries, q)
