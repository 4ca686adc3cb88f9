-- ===== src/Mempool/Overlap.antt =====
-- internal/explorer/mempool.go: what two fetches that overlap leave behind.
use btcdwatch_com.Base.{
  ℕ, ◌+◌, ◌≤◌, ◌<◌, ◌≡◌, refl, List, [], ◌∷◌, some, none, true, false, arith, ==_iff,
}
use btcdwatch_com.Base.Float.{Float}
use btcdwatch_com.Snapshot.{Snapshot}
use btcdwatch_com.Mempool.{
  Mempool, begin_refresh, finish_refresh, invalidate, mark_dirty, is_fresh, is_served, fetch_stuck,
  snapshot_max_age, snapshot_min_age, is_within,
}
use btcdwatch_com.Mempool.Refresh.{Change, connected, accepted, changed}

module _ (f : Float) where
  changed-old :
      (m : Mempool f) (cs : List Change) (now : ℕ)
      → is_within f snapshot_min_age now m.fetched ≡ false
      → is_within f snapshot_min_age now (changed f m cs).fetched ≡ false
  unfolding changed invalidate mark_dirty
  changed-old m [] now old = old
  changed-old m (connected ∷ cs) now old = changed-old (invalidate f m) cs now refl
  changed-old m (accepted ∷ cs) now old = changed-old (mark_dirty f m) cs now old

  changed-dirty :
      (m : Mempool f) (cs : List Change) → m.dirty ≡ true → (changed f m cs).dirty ≡ true
  unfolding changed invalidate mark_dirty
  changed-dirty m [] d = d
  changed-dirty m (connected ∷ cs) d = changed-dirty (invalidate f m) cs refl
  changed-dirty m (accepted ∷ cs) d = changed-dirty (mark_dirty f m) cs refl

  changed-fetch_started :
      (m : Mempool f) (cs : List Change) → (changed f m cs).fetch_started ≡ m.fetch_started
  unfolding changed invalidate mark_dirty
  changed-fetch_started m [] = refl
  changed-fetch_started m (connected ∷ cs) = changed-fetch_started (invalidate f m) cs
  changed-fetch_started m (accepted ∷ cs) = changed-fetch_started (mark_dirty f m) cs

  changed-dirty_after :
      (m : Mempool f) (c : Change) (cs : List Change) → (changed f m (c ∷ cs)).dirty ≡ true
  unfolding changed invalidate mark_dirty
  changed-dirty_after m connected cs = changed-dirty (invalidate f m) cs refl
  changed-dirty_after m accepted cs = changed-dirty (mark_dirty f m) cs refl

  begin_refresh-stuck :
      (m : Mempool f) (now : ℕ)
      → m.dirty ≡ true
      → is_within f snapshot_min_age now m.fetched ≡ false
      → m.fetch_started + fetch_stuck ≤ now
      → (begin_refresh f m now).1 ≡ some m.gen
  unfolding begin_refresh is_fresh is_served
  begin_refresh-stuck m now d old stuck = ground (arith, d, old, stuck)

  begin_refresh-gen : (m : Mempool f) (now : ℕ) → (begin_refresh f m now).0.gen ≡ m.gen
  unfolding begin_refresh
  begin_refresh-gen m now = ground arith

  finish_refresh-clean :
      (m : Mempool f) (gen now : ℕ) (s : Snapshot f)
      → m.dirty ≡ false
      → (finish_refresh f m gen now s).dirty ≡ false
  unfolding finish_refresh
  finish_refresh-clean m gen now s clean = ground (arith, clean)

  finish_refresh-same :
      (m : Mempool f) (gen now : ℕ) (s : Snapshot f)
      → m.gen ≡ gen
      → (finish_refresh f m gen now s).dirty ≡ false
  unfolding finish_refresh
  finish_refresh-same m gen now s same = ground (arith, same, ==_iff m.gen gen)

  finish_refresh-served :
      (m : Mempool f) (gen now read_at : ℕ) (s : Snapshot f)
      → (finish_refresh f m gen now s).dirty ≡ false
      → now ≤ read_at
      → read_at < now + snapshot_max_age
      → (begin_refresh f (finish_refresh f m gen now s) read_at).1 ≡ none
  unfolding begin_refresh is_fresh finish_refresh
  finish_refresh-served m gen now read_at s clean later soon = ground (arith, clean, later, soon)

  -- A fetch is stuck while the pool changes, so that a reader fetches alongside it, and the new answer
  -- lands first. When the stuck fetch lands last, with its old answer, then the old entries are shown,
  -- as clean, and no read in the next five seconds fetches again.
  pub finish_refresh-overlap :
      (m : Mempool f) (c : Change) (cs : List Change) (retry landed late read_at : ℕ)
      (new old : Snapshot f)
      → is_within f snapshot_min_age retry m.fetched ≡ false
      → m.fetch_started + fetch_stuck ≤ retry
      → late ≤ read_at
      → read_at < late + snapshot_max_age
      → let m1 = changed f m (c ∷ cs) in
        let (m2, fetch) = begin_refresh f m1 retry in
        let m3 = finish_refresh f m2 m1.gen landed new in
        let m4 = finish_refresh f m3 m.gen late old in
        (fetch ≡ some m1.gen)
        × (m4.entries ≡ some old)
        × (m4.dirty ≡ false)
        × ((begin_refresh f m4 read_at).1 ≡ none)
  finish_refresh-overlap m c cs retry landed late read_at new old stale stuck later soon =
      let m1 = changed f m (c ∷ cs) in
      let m2 = (begin_refresh f m1 retry).0 in
      let m3 = finish_refresh f m2 m1.gen landed new in
      let clean =
        finish_refresh-clean m3 m.gen late old
          (finish_refresh-same m2 m1.gen landed new (begin_refresh-gen m1 retry)) in
      (
        begin_refresh-stuck m1 retry (changed-dirty_after m c cs)
            (changed-old m (c ∷ cs) retry stale)
            (omega (arith, stuck, changed-fetch_started m (c ∷ cs))),
        unfold finish_refresh in refl,
        clean,
        finish_refresh-served m3 m.gen late read_at old clean later soon,
      )
