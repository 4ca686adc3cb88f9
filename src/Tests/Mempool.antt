-- ===== src/Tests/Mempool.antt =====
-- The shared snapshot at a fetch during which a block connects, and at three depths.
use btcdwatch_com.Base.{
  ℕ, ◌==◌, ◌≡◌, refl, List, [], ◌∷◌, some, none, false, if◌then◌else◌, inl, ◌≤◌, length, arith,
}
use btcdwatch_com.Snapshot.{Snapshot, MempoolEntry}
use btcdwatch_com.Base.Text.{codes}
use btcdwatch_com.Base.Int.{pos}
use btcdwatch_com.Queue.{num}
use btcdwatch_com.Mempool.{
  Mempool, new_mempool, begin_refresh, finish_refresh, mark_dirty, is_fresh, is_served, note_peak,
  invalidate,
}
use btcdwatch_com.Mempool.Refresh.{connected, changed}
use btcdwatch_com.Mempool.Versions.{
  World, read, Runs, start, next, reads, happens, accepted, missed, lands,
}
use btcdwatch_com.Mempool.Versions.Invariant.{IsSince, IsDerived, Runs-current}
use btcdwatch_com.Mempool.Overlap.{finish_refresh-overlap}
use btcdwatch_com.Mempool.Peak.{peaks_after, recent_peak, first_bucket, note_peak-exact}
use btcdwatch_com.Tests.Doubles.{milli, insertion}

abbrev fetching : Mempool milli
fetching = (begin_refresh milli (new_mempool milli) 1000000000).0

abbrev first_entry : MempoolEntry milli
first_entry = record {
  fee_sats = pos 200;
  vsize = 100;
  size_bytes = 100;
  time = 1;
  fee_rate = num milli 2;
}

-- The pool is empty until its first change.
abbrev pool : ℕ → Snapshot milli
pool v = if v == 0 then [] else (codes "t", first_entry) ∷ []

-- A transaction is accepted, and a lookup misses it, before the fetch that answers with it.
abbrev missing : World milli
missing = record {
  mempool = invalidate milli (mark_dirty milli (new_mempool milli));
  happened = 1;
  notified = 1;
  fetches = [];
}

abbrev seen : World milli
seen = record {
  mempool = finish_refresh milli (read missing 1000000000).mempool 2 2000000000 (pool 1);
  happened = 1;
  notified = 1;
  fetches = [];
}

seen_run : Runs (insertion) pool seen
unfolding read begin_refresh new_mempool mark_dirty is_fresh is_served invalidate
seen_run =
    next
      (next (next (next (next start happens) (accepted (omega arith))) missed)
        (reads 1000000000 (inl refl)))
      (lands (record { gen = 2; since = 1; told = 1 }) [] 2000000000 1 refl (omega arith)
        (omega arith))

seen_clean :
    (seen.mempool.dirty ≡ false) × (seen.mempool.entries ≡ some ((codes "t", first_entry) ∷ []))
unfolding read begin_refresh new_mempool mark_dirty is_fresh is_served invalidate finish_refresh
seen_clean = (refl, refl)

Runs-current_example :
    (length seen.fetches ≤ 1)
    × IsSince insertion pool
        (if seen.mempool.dirty then 0 else seen.notified)
        seen.happened
        seen.mempool.entries
    × IsDerived insertion pool seen.mempool.entries seen.mempool.queue
Runs-current_example = Runs-current insertion pool seen seen_run

finish_refresh-overlap_example :
    let m1 = changed milli fetching (connected ∷ []) in
    let (m2, fetch) = begin_refresh milli m1 130000000000 in
    let m3 = finish_refresh milli m2 m1.gen 131000000000 [] in
    let m4 = finish_refresh milli m3 fetching.gen 140000000000 [] in
    (fetch ≡ some m1.gen)
    × (m4.entries ≡ some [])
    × (m4.dirty ≡ false)
    × ((begin_refresh milli m4 144000000000).1 ≡ none)
finish_refresh-overlap_example =
    finish_refresh-overlap milli fetching connected [] 130000000000 131000000000 140000000000
      144000000000 [] [] (unfold begin_refresh is_fresh is_served new_mempool in refl)
      (unfold begin_refresh is_fresh is_served new_mempool in omega arith) (omega arith)
      (omega arith)

-- Newest first: the depth of the first note is out of the window by then.
abbrev depths : List (ℕ × ℕ)
depths = (3600000000000, 700) ∷ (100000000000, 900) ∷ []

abbrev watched : Mempool milli
watched = record (new_mempool milli) { peaks = peaks_after depths }

note_peak-exact_example :
    (note_peak milli watched 4000000000000 500).1
    ≡ recent_peak (first_bucket 4000000000000) ((4000000000000, 500) ∷ depths)
note_peak-exact_example =
    note_peak-exact milli watched depths 4000000000000 500
      ((omega arith, (omega arith, tt)), ((omega arith, tt), (tt, tt))) refl
