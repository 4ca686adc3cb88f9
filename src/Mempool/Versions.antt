-- ===== src/Mempool/Versions.antt =====
-- internal/explorer/mempool.go: what a clean snapshot has seen of the node's pool. The pool changes at
-- the node, and the notification of a change comes later, in the order of the changes; a fetch answers
-- with the pool as it is at some point between its start and its end. A lookup that misses its
-- transaction (`derivePending` of tx.go) invalidates the snapshot with no change at the node. Any
-- number of readers, notifications, lookups and fetches take turns at the mutex, in any order.
pub mod Invariant
use mathlib.Core.Bool.{true≢false}
use btcdwatch_com.Base.{
  ℕ, suc, ◌+◌, ◌-◌, ◌≤◌, ◌<◌, ◌≡◌, refl, sym, subst, ◌∙◌, ap, List, [], ◌∷◌, Option, none, some,
  Bool, true, false, not, ◌&&◌, arith, if◌then◌else◌, ltb, ◌==◌, ==_iff, inl, inr, ◌⊎◌, Bool-cases,
  Option-cases, length,
}
use btcdwatch_com.Base.Float.{Float}
use btcdwatch_com.Base.Map.{is_some}
use btcdwatch_com.Snapshot.{Snapshot}
use btcdwatch_com.Base.Sort.{Sorter}
use btcdwatch_com.Queue.{Queue, queue_from_snapshot}
use btcdwatch_com.Mempool.{
  Mempool, new_mempool, begin_refresh, finish_refresh, fail_refresh, invalidate, mark_dirty,
  is_fresh, snapshot_and_queue, queue_or, note_peak, entries_or, is_served, fetch_stuck,
}

-- A fetch: the generation that it has read, and how many changes had happened, and how many of them
-- had been notified, when it started.
pub record Fetch : Type 0 where
  pub gen : ℕ
  pub since : ℕ
  pub told : ℕ

pub record World (f : Float) : Type 0 where
  pub mempool : Mempool f
  -- How often the node's pool has changed.
  pub happened : ℕ
  -- How many of these changes the node has notified.
  pub notified : ℕ
  pub fetches : List Fetch

module _ {f : Float} where
  abbrev pub new_world : World f
  new_world = record { mempool = new_mempool f; happened = 0; notified = 0; fetches = [] }

  abbrev pub with_fetch : World f → Mempool f → Option ℕ → World f
  with_fetch w m none = record w { mempool = m }
  with_fetch w m (some gen) = record w {
    mempool = m;
    fetches = record { gen = gen; since = w.happened; told = w.notified } ∷ w.fetches;
  }

  -- The first half of `refresh`.
  unfoldable pub read : World f → ℕ → World f
  unfolding begin_refresh
  read w now = let (m, fetch) = begin_refresh f w.mempool now in with_fetch w m fetch

  -- A reader comes when no fetch is under way, or when there is a copy to serve meanwhile and the
  -- fetch is not stuck.
  abbrev pub IsTimely : World f → ℕ → Type 0
  IsTimely w now =
      (w.fetches ≡ [])
      ⊎ ((is_some w.mempool.entries ≡ true)
          × (ltb (now - w.mempool.fetch_started) fetch_stuck ≡ true))

  -- `pool v` is the node's pool after `v` changes.
  module _ (sorter : Sorter) (pool : ℕ → Snapshot f) where
    pub data Turn (w : World f) : World f → Type 0 where
      happens : Turn w (record w { happened = suc w.happened })
      connected :
          w.notified < w.happened
          → Turn w (record w { mempool = invalidate f w.mempool; notified = suc w.notified })
      accepted :
          w.notified < w.happened
          → Turn w (record w { mempool = mark_dirty f w.mempool; notified = suc w.notified })
      -- The lookup of a pending transaction that is not in the snapshot.
      missed : Turn w (record w { mempool = invalidate f w.mempool })
      derives :
          (now : ℕ) → Turn w (record w { mempool = (snapshot_and_queue f sorter w.mempool now).0 })
      reads : (now : ℕ) → IsTimely w now → Turn w (read w now)
      lands :
          (x : Fetch) (xs : List Fetch) (now v : ℕ)
          → w.fetches ≡ x ∷ xs
          → x.since ≤ v
          → v ≤ w.happened
          → Turn w
              (record w { mempool = finish_refresh f w.mempool x.gen now (pool v); fetches = xs })
      fails :
          (x : Fetch) (xs : List Fetch)
          → w.fetches ≡ x ∷ xs
          → Turn w (record w { mempool = fail_refresh f w.mempool; fetches = xs })

    pub data Runs : World f → Type 0 where
      start : Runs new_world
      next : {w w' : World f} → Runs w → Turn w w' → Runs w'
