-- ===== src/Live/Flight.antt =====
-- internal/explorer/live.go: one recompute at a time, and no value lost.
use btcdwatch_com.Base.{
  ℕ, ◌+◌, ◌<◌, ◌≡◌, refl, List, [], ◌∷◌, Option, none, some, true, false, if◌then◌else◌, arith, inl,
  inr, Bool-cases, sym, ◌∙◌,
}
use mathlib.Core.Bool.{true≢false}
use btcdwatch_com.Base.Map.{is_some}
use btcdwatch_com.Live.{Live, live_refresh_stuck, is_due, live_snapshot, refresh_live, or_old}

-- One read of a feed, or the end of a recompute.
pub data Call (S E U : Type 0) : Type 0 where
  read : ℕ → Call S E U
  landed : ℕ → Option S → Option E → Option U → Call S E U

abbrev pub AllBefore : List ℕ → ℕ → Type 0
AllBefore [] end = Unit {0}
AllBefore (t ∷ ts) end = (t < end) × AllBefore ts end

is_some-or_old :
    {A : Type 0} (new old : Option A) → is_some old ≡ true → is_some (or_old new old) ≡ true
is_some-or_old none old h = h
is_some-or_old (some a) old h = refl

module _ {S E U : Type 0} where
  -- The number of recomputes that reads at these times start.
  unfoldable pub kicks : Live S E U → List ℕ → ℕ
  kicks l [] = 0
  kicks l (t ∷ ts) =
      let rest = kicks (live_snapshot l t).0 ts in if (live_snapshot l t).1 then rest + 1 else rest

  no_kick :
      (l : Live S E U) (t : ℕ)
      → l.in_flight ≡ true
      → t < l.kicked_at + live_refresh_stuck
      → live_snapshot l t ≡ (l, false)
  unfolding live_snapshot
  no_kick l t f h = ground arith

  in_flight-kicks :
      (l : Live S E U) (ts : List ℕ)
      → l.in_flight ≡ true
      → AllBefore ts (l.kicked_at + live_refresh_stuck)
      → kicks l ts ≡ 0
  unfolding kicks
  in_flight-kicks l [] f a = refl
  in_flight-kicks l (t ∷ ts) f (h, a) = rw (no_kick l t f h) (in_flight-kicks l ts f a)

  kicked_lem :
      (l : Live S E U) (now : ℕ)
      → (live_snapshot l now).1 ≡ true
      → live_snapshot l now ≡ (record l { in_flight = true; kicked_at = now }, true)
  unfolding live_snapshot
  kicked_lem l now k = elim (Bool-cases (is_due l now)) [
    | inl due ↦ rw due refl
    | inr not_due ↦ absurd (true≢false (sym k ∙ rw not_due refl))
  ]

  stats-live_snapshot :
      (l : Live S E U) (now : ℕ) → (live_snapshot l now).0.data_of.stats ≡ l.data_of.stats
  unfolding live_snapshot
  stats-live_snapshot l now = elim (Bool-cases (is_due l now)) [
    | inl due ↦ rw due refl
    | inr not_due ↦ rw not_due refl
  ]

  -- Once a read has started a recompute, no read in the next two minutes starts another before it
  -- lands, however many there are and in whatever order their times come.
  pub kicks-single :
      (l : Live S E U) (now : ℕ) (ts : List ℕ)
      → (live_snapshot l now).1 ≡ true
      → AllBefore ts (now + live_refresh_stuck)
      → kicks l (now ∷ ts) ≡ 1
  unfolding kicks
  kicks-single l now ts k a =
      rw (kicked_lem l now k)
        (omega (arith, in_flight-kicks (record l { in_flight = true; kicked_at = now }) ts refl a))

  unfoldable pub after_calls : Live S E U → List (Call S E U) → Live S E U
  after_calls l [] = l
  after_calls l (read now ∷ cs) = after_calls (live_snapshot l now).0 cs
  after_calls l (landed now stats fees update ∷ cs) =
      after_calls (refresh_live l now stats fees update) cs

  -- Whatever fails later, a feed that was computed once is answered from then on.
  pub after_calls-keeps_stats :
      (l : Live S E U) (cs : List (Call S E U))
      → is_some l.data_of.stats ≡ true
      → is_some (after_calls l cs).data_of.stats ≡ true
  unfolding after_calls live_snapshot refresh_live
  after_calls-keeps_stats l [] h = h
  after_calls-keeps_stats l (read now ∷ cs) h =
      after_calls-keeps_stats (live_snapshot l now).0 cs (rw (stats-live_snapshot l now) h)
  after_calls-keeps_stats l (landed now stats fees update ∷ cs) h =
      after_calls-keeps_stats (refresh_live l now stats fees update) cs
        (is_some-or_old stats l.data_of.stats h)
