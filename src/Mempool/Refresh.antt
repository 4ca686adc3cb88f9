-- ===== src/Mempool/Refresh.antt =====
-- internal/explorer/mempool.go: a change is never taken for seen.
use btcdwatch_com.Base.{
  ◌⊎◌, inl, inr, none, ltb, ◌-◌, ℕ, ◌+◌, ◌≤◌, ◌≡◌, refl, List, [], ◌∷◌, some, Bool, true, false,
  not, arith, ==_iff, Bool-cases,
}
use btcdwatch_com.Base.Float.{Float}
use btcdwatch_com.Base.Map.{is_some}
use btcdwatch_com.Snapshot.{Snapshot}
use btcdwatch_com.Mempool.{
  Mempool, begin_refresh, finish_refresh, invalidate, mark_dirty, is_fresh, is_served,
  snapshot_min_age, fetch_stuck,
}

-- What the notifications of the node do.
pub data Change : Type 0 where
  connected : Change
  accepted : Change

module _ (f : Float) where
  unfoldable pub changed : Mempool f → List Change → Mempool f
  changed m [] = m
  changed m (connected ∷ cs) = changed (invalidate f m) cs
  changed m (accepted ∷ cs) = changed (mark_dirty f m) cs

  abbrev pub nothing : List Change → Bool
  nothing [] = true
  nothing (c ∷ cs) = false

  changed-gen : (m : Mempool f) (cs : List Change) → m.gen ≤ (changed m cs).gen
  unfolding changed invalidate mark_dirty
  changed-gen m [] = omega arith
  changed-gen m (connected ∷ cs) = omega (arith, changed-gen (invalidate f m) cs)
  changed-gen m (accepted ∷ cs) = omega (arith, changed-gen (mark_dirty f m) cs)

  changed-dirty : (m : Mempool f) (cs : List Change) → m.dirty ≡ true → (changed m cs).dirty ≡ true
  unfolding changed invalidate mark_dirty
  changed-dirty m [] h = h
  changed-dirty m (connected ∷ cs) h = changed-dirty (invalidate f m) cs refl
  changed-dirty m (accepted ∷ cs) h = changed-dirty (mark_dirty f m) cs refl

  -- A fetch leaves the snapshot clean exactly if no block connected and no transaction was accepted
  -- while it ran.
  pub finish_refresh-dirty :
      (m : Mempool f) (cs : List Change) (now : ℕ) (entries : Snapshot f)
      → (finish_refresh f (changed m cs) m.gen now entries).dirty ≡ not (nothing cs)
  unfolding changed finish_refresh invalidate mark_dirty
  finish_refresh-dirty m [] now entries = ground (arith, ==_iff m.gen m.gen)
  finish_refresh-dirty m (connected ∷ cs) now entries = ground (
    arith,
    changed-gen (invalidate f m) cs,
    changed-dirty (invalidate f m) cs refl,
    ==_iff (changed (invalidate f m) cs).gen m.gen,
  )
  finish_refresh-dirty m (accepted ∷ cs) now entries = ground (
    arith,
    changed-gen (mark_dirty f m) cs,
    changed-dirty (mark_dirty f m) cs refl,
    ==_iff (changed (mark_dirty f m) cs).gen m.gen,
  )

  -- A dirty copy is refetched by the first read that comes a second after it was fetched.
  begin_refresh-dirty :
      (m : Mempool f) (now later : ℕ)
      → m.dirty ≡ true
      → m.fetching ≡ false
      → m.fetched ≡ some now
      → now + snapshot_min_age ≤ later
      → (begin_refresh f m later).1 ≡ some m.gen
  unfolding begin_refresh is_fresh is_served
  begin_refresh-dirty m now later d idle at h =
      rw (d, idle, at) (ground (arith, Bool-cases (is_some m.entries)))

  -- A change that falls into a fetch is not lost: the first read a second after the fetch ends
  -- fetches again, from the generation that the change made.
  pub begin_refresh-after_change :
      (m : Mempool f) (c : Change) (cs : List Change) (now later : ℕ) (entries : Snapshot f)
      → now + snapshot_min_age ≤ later
      → let n = finish_refresh f (changed m (c ∷ cs)) m.gen now entries in
        (begin_refresh f n later).1 ≡ some n.gen
  unfolding finish_refresh
  begin_refresh-after_change m c cs now later entries h =
      begin_refresh-dirty (finish_refresh f (changed m (c ∷ cs)) m.gen now entries) now later
        (finish_refresh-dirty m (c ∷ cs) now entries) refl refl h

  pub begin_cases :
      (m : Mempool f) (now : ℕ)
      → (begin_refresh f m now ≡ (m, none))
        ⊎ (begin_refresh f m now ≡ (record m { fetching = true; fetch_started = now }, some m.gen))
  unfolding begin_refresh
  begin_cases m now = elim (Bool-cases (is_fresh f m now)) [
    | inl fresh ↦ inl (rw fresh refl)
    | inr stale ↦ elim (Bool-cases (is_served f m now)) [
      | inl served ↦ inl (rw (stale, served) refl)
      | inr alone ↦ inr (rw (stale, alone) refl)
    ]
  ]

  pub served_lem :
      (m : Mempool f) (now : ℕ)
      → m.fetching ≡ true
      → is_some m.entries ≡ true
      → ltb (now - m.fetch_started) fetch_stuck ≡ true
      → (begin_refresh f m now).1 ≡ none
  unfolding begin_refresh is_served
  served_lem m now on copy moving = ground (arith, on, copy, moving)
