-- ===== src/Mempool/Versions/Invariant.antt =====
-- internal/explorer/mempool.go: what holds of the snapshot between two turns at the mutex.
use mathlib.Core.Bool.{true≢false}
use btcdwatch_com.Base.{
  ℕ, suc, ◌+◌, ◌≤◌, ◌<◌, ◌≡◌, refl, sym, subst, ◌∙◌, ap, List, [], ◌∷◌, Option, none, some, Bool,
  true, false, arith, if◌then◌else◌, ◌==◌, ==_iff, inl, inr, ◌⊎◌, length,
}
use btcdwatch_com.Base.Float.{Float}
use btcdwatch_com.Base.Map.{is_some}
use btcdwatch_com.Snapshot.{Snapshot}
use btcdwatch_com.Base.Sort.{Sorter}
use btcdwatch_com.Queue.{Queue, queue_from_snapshot}
use btcdwatch_com.Mempool.Versions.{
  Fetch, World, new_world, with_fetch, read, IsTimely, Turn, happens, connected, accepted, derives,
  missed, reads, lands, fails, Runs, start, next,
}
use btcdwatch_com.Mempool.Refresh.{begin_cases, served_lem}
use btcdwatch_com.Mempool.{
  Mempool, new_mempool, begin_refresh, finish_refresh, fail_refresh, invalidate, mark_dirty,
  snapshot_and_queue, queue_or, note_peak, entries_or,
}

abbrev is_cons : {A : Type 0} → List A → Bool
is_cons [] = false
is_cons (x ∷ xs) = true

module _ {f : Float} where
  module _ (sorter : Sorter) (pool : ℕ → Snapshot f) where
    -- The entries are the node's pool as it was after at least `v` changes and at most `happened`.
    abbrev pub IsSince : ℕ → ℕ → Option (Snapshot f) → Type 0
    IsSince v happened none = Unit
    IsSince v happened (some s) = (k : ℕ) × (v ≤ k) × (k ≤ happened) × (s ≡ pool k)

    -- A histogram that is kept is the one of these entries, with the peak of the window.
    abbrev pub IsDerived : Option (Snapshot f) → Option (Queue f) → Type 0
    IsDerived entries none = Unit
    IsDerived entries (some q) =
        (peak : ℕ) × (q
          ≡ record (queue_from_snapshot f sorter (entries_or f entries)) { peak_vbytes = peak })

    -- At most one fetch is under way, which has started after all that was notified by then; and
    -- unless the generation is still the one that it read, with nothing notified since, the snapshot is
    -- dirty and the generation is another.
    abbrev IsFlight : World f → List Fetch → Type 0
    IsFlight w [] = Unit
    IsFlight w (x ∷ []) =
        (w.mempool.fetching ≡ true)
        × (x.told ≤ x.since)
        × (x.since ≤ w.happened)
        × (((w.mempool.gen ≡ x.gen) × (w.notified ≡ x.told))
            ⊎ ((x.gen < w.mempool.gen) × (w.mempool.dirty ≡ true)))
    IsFlight w (x ∷ y ∷ xs) = ⊥

    record IsWorld (w : World f) : Type 0 where
      notified : w.notified ≤ w.happened
      flight : IsFlight w w.fetches
      shown : IsSince 0 w.happened w.mempool.entries
      clean : w.mempool.dirty ≡ false → IsSince w.notified w.happened w.mempool.entries
      derived : IsDerived w.mempool.entries w.mempool.queue

    IsSince-later :
        (v happened : ℕ) (o : Option (Snapshot f))
        → IsSince v happened o
        → IsSince v (suc happened) o
    IsSince-later v happened none i = tt
    IsSince-later v happened (some s) (k, low, high, same) = (k, low, omega (arith, high), same)

    happens-IsWorld : (w : World f) → IsWorld w → IsWorld (record w { happened = suc w.happened })
    happens-IsWorld w i = record {
      notified = omega (arith, i.notified);
      flight = later w.fetches i.flight;
      shown = IsSince-later 0 w.happened w.mempool.entries i.shown;
      clean = λ c. IsSince-later w.notified w.happened w.mempool.entries (i.clean c);
      derived = i.derived;
    }
      where
        later :
            (xs : List Fetch) → IsFlight w xs → IsFlight (record w { happened = suc w.happened }) xs
        later [] l = tt
        later (x ∷ []) (on, read_at, at, seen) = (on, read_at, omega (arith, at), seen)
        later (x ∷ y ∷ xs) l = l

    -- A notification, or a lookup that misses, only leaves the snapshot dirty in another generation.
    dirtied-IsWorld :
        (w : World f) (m : Mempool f) (n : ℕ)
        → IsWorld w
        → n ≤ w.happened
        → m.gen ≡ w.mempool.gen + 1
        → m.dirty ≡ true
        → m.fetching ≡ w.mempool.fetching
        → m.entries ≡ w.mempool.entries
        → IsDerived m.entries m.queue
        → IsWorld (record w { mempool = m; notified = n })
    dirtied-IsWorld w m n i told more dirty same_on same_entries derived = record {
      notified = told;
      flight = still w.fetches i.flight;
      shown = subst (IsSince 0 w.happened) (sym same_entries) i.shown;
      clean = λ c. absurd (true≢false (sym dirty ∙ c));
      derived = derived;
    }
      where
        still :
            (xs : List Fetch) → IsFlight w xs → IsFlight (record w { mempool = m; notified = n }) xs
        still [] l = tt
        still (x ∷ []) (on, read_at, at, inl (same, none_told)) =
            (same_on ∙ on, read_at, at, inr (omega (arith, same, more), dirty))
        still (x ∷ []) (on, read_at, at, inr (later, was_dirty)) =
            (same_on ∙ on, read_at, at, inr (omega (arith, later, more), dirty))
        still (x ∷ y ∷ xs) l = l

    quiet_lem :
        (w : World f) (now : ℕ)
        → IsTimely w now
        → IsWorld w
        → begin_refresh f w.mempool now
          ≡ (record w.mempool { fetching = true; fetch_started = now }, some w.mempool.gen)
        → w.fetches ≡ []
    quiet_lem w now (inl quiet) i starts = quiet
    quiet_lem w now (inr (copy, moving)) i starts = by_fetches w.fetches i.flight
      where
        by_fetches : (xs : List Fetch) → IsFlight w xs → xs ≡ []
        by_fetches [] l = refl
        by_fetches (x ∷ []) (on, read_at, at, seen) = absurd (
            true≢false
              (ap is_some (sym (ap (λ p. p.1) starts) ∙ served_lem f w.mempool now on copy moving)))
        by_fetches (x ∷ y ∷ xs) l = absurd l

    seen_lem :
        (w : World f) (x : Fetch) {v : ℕ}
        → (if w.mempool.gen == x.gen then false else w.mempool.dirty) ≡ false
        → ((w.mempool.gen ≡ x.gen) × (w.notified ≡ x.told))
          ⊎ ((x.gen < w.mempool.gen) × (w.mempool.dirty ≡ true))
        → x.told ≤ x.since
        → x.since ≤ v
        → w.notified ≤ v
    seen_lem w x c (inl (same, told)) read_at low = omega (arith, told, read_at, low)
    seen_lem w x c (inr (later, dirty)) read_at low =
        ground (arith, dirty, c, later, ==_iff w.mempool.gen x.gen)

    started-IsWorld :
        (w : World f) (now : ℕ)
        → w.fetches ≡ []
        → IsWorld w
        → IsWorld (
            with_fetch w
              (record w.mempool { fetching = true; fetch_started = now })
              (some w.mempool.gen))
    started-IsWorld w now quiet i = record {
      notified = i.notified;
      flight = one w.fetches quiet;
      shown = i.shown;
      clean = i.clean;
      derived = i.derived;
    }
      where
        one :
            (xs : List Fetch)
            → xs ≡ []
            → IsFlight
                (with_fetch w
                  (record w.mempool { fetching = true; fetch_started = now })
                  (some w.mempool.gen))
                (record { gen = w.mempool.gen; since = w.happened; told = w.notified } ∷ xs)
        one [] e = (refl, i.notified, omega arith, inl (refl, refl))
        one (x ∷ xs) e = absurd (true≢false (ap is_cons e))

    read-IsWorld : (w : World f) (now : ℕ) → IsTimely w now → IsWorld w → IsWorld (read w now)
    unfolding read
    read-IsWorld w now timely i = elim (begin_cases f w.mempool now) [
      | inl kept ↦ subst (λ p. IsWorld (with_fetch w p.0 p.1)) (sym kept) i
      | inr starts ↦
          subst (λ p. IsWorld (with_fetch w p.0 p.1)) (sym starts)
            (started-IsWorld w now (quiet_lem w now timely i starts) i)
    ]

    landed-IsWorld :
        (w : World f) (x : Fetch) (xs : List Fetch) (now v : ℕ)
        → IsFlight w (x ∷ xs)
        → x.since ≤ v
        → v ≤ w.happened
        → IsWorld w
        → IsWorld
            (record w { mempool = finish_refresh f w.mempool x.gen now (pool v); fetches = xs })
    unfolding finish_refresh
    landed-IsWorld w x [] now v (on, read_at, at, seen) low high i = record {
      notified = i.notified;
      flight = tt;
      shown = (v, omega arith, high, refl);
      clean = λ c. (v, seen_lem w x c seen read_at low, high, refl);
      derived = tt;
    }
    landed-IsWorld w x (y ∷ xs) now v none_such low high i = absurd none_such

    failed-IsWorld :
        (w : World f) (x : Fetch) (xs : List Fetch)
        → IsFlight w (x ∷ xs)
        → IsWorld w
        → IsWorld (record w { mempool = fail_refresh f w.mempool; fetches = xs })
    unfolding fail_refresh
    failed-IsWorld w x [] flight i = record {
      notified = i.notified;
      flight = tt;
      shown = i.shown;
      clean = i.clean;
      derived = i.derived;
    }
    failed-IsWorld w x (y ∷ xs) none_such i = absurd none_such

    derives-IsWorld :
        (w : World f) (q : Option (Queue f)) (now : ℕ)
        → w.mempool.queue ≡ q
        → IsWorld w
        → IsWorld (record w { mempool = (snapshot_and_queue f sorter w.mempool now).0 })
    unfolding snapshot_and_queue note_peak
    derives-IsWorld w none now e i =
        subst (λ q. IsWorld (record w { mempool = (queue_or f sorter w.mempool now q).0 })) (sym e)
          (record {
            notified = i.notified;
            flight = same w.fetches i.flight;
            shown = i.shown;
            clean = i.clean;
            derived = (_, refl);
          })
      where
        same :
            (xs : List Fetch)
            → IsFlight w xs
            → IsFlight (record w { mempool = (queue_or f sorter w.mempool now none).0 }) xs
        same [] l = tt
        same (x ∷ []) l = l
        same (x ∷ y ∷ xs) l = l
    derives-IsWorld w (some q) now e i =
        subst (λ q. IsWorld (record w { mempool = (queue_or f sorter w.mempool now q).0 })) (sym e)
          i

    new_world-IsWorld : IsWorld new_world
    unfolding new_mempool
    new_world-IsWorld = record {
      notified = omega arith;
      flight = tt;
      shown = tt;
      clean = λ c. tt;
      derived = tt;
    }

    Turn-IsWorld : {w w' : World f} → Turn sorter pool w w' → IsWorld w → IsWorld w'
    unfolding invalidate mark_dirty
    Turn-IsWorld {w = w} happens i = happens-IsWorld w i
    Turn-IsWorld {w = w} (connected told) i =
        dirtied-IsWorld w (invalidate f w.mempool) (suc w.notified) i (omega (arith, told)) refl
          refl refl refl i.derived
    Turn-IsWorld {w = w} (accepted told) i =
        dirtied-IsWorld w (mark_dirty f w.mempool) (suc w.notified) i (omega (arith, told)) refl
          refl refl refl i.derived
    Turn-IsWorld {w = w} missed i =
        dirtied-IsWorld w (invalidate f w.mempool) w.notified i i.notified refl refl refl refl
          i.derived
    Turn-IsWorld {w = w} (derives now) i = derives-IsWorld w w.mempool.queue now refl i
    Turn-IsWorld {w = w} (reads now timely) i = read-IsWorld w now timely i
    Turn-IsWorld {w = w} (lands x xs now v e low high) i =
        landed-IsWorld w x xs now v (subst (IsFlight w) e i.flight) low high i
    Turn-IsWorld {w = w} (fails x xs e) i = failed-IsWorld w x xs (subst (IsFlight w) e i.flight) i

    Runs-IsWorld : {w : World f} → Runs sorter pool w → IsWorld w
    Runs-IsWorld start = new_world-IsWorld
    Runs-IsWorld (next runs turn) = Turn-IsWorld turn (Runs-IsWorld runs)

    length-IsFlight : (w : World f) (xs : List Fetch) → IsFlight w xs → length xs ≤ 1
    length-IsFlight w [] l = omega arith
    length-IsFlight w (x ∷ []) l = omega arith
    length-IsFlight w (x ∷ y ∷ xs) l = absurd l

    -- If a reader comes only when no fetch is under way, or there is a copy to serve while the fetch is
    -- not stuck, then whatever the order of the changes, notifications, lookups that miss, reads and
    -- ends of fetches: at most one fetch is under way, the entries that are kept are the node's pool as
    -- it was after some of its changes, and if they are clean after at least as many as were notified,
    -- and a histogram that is kept is that of the entries beside it.
    pub Runs-current :
        (w : World f)
        → Runs sorter pool w
        → (length w.fetches ≤ 1)
          × IsSince (if w.mempool.dirty then 0 else w.notified) w.happened w.mempool.entries
          × IsDerived w.mempool.entries w.mempool.queue
    Runs-current w runs =
        let i = Runs-IsWorld runs in
        (length-IsFlight w w.fetches i.flight, by_dirty w.mempool.dirty refl i, i.derived)
      where
        by_dirty :
            (dirty : Bool)
            → w.mempool.dirty ≡ dirty
            → IsWorld w
            → IsSince (if dirty then 0 else w.notified) w.happened w.mempool.entries
        by_dirty true e i = i.shown
        by_dirty false e i = i.clean e
