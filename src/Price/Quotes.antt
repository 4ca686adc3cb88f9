-- ===== src/Price/Quotes.antt =====
-- internal/price/price.go: a price that is given out is positive, and is not lost.
use btcdwatch_com.Base.{
  ℕ, ◌≡◌, refl, sym, ◌∙◌, List, [], ◌∷◌, Option, none, some, true, ◌&&◌, ◌==◌, if◌then◌else◌, inl,
  inr, Bool-cases,
}
use btcdwatch_com.Base.Float.{Float}
use btcdwatch_com.Base.Text.{Text}
use btcdwatch_com.Price.{
  Quote, Fetch, Turn, no_response, response, ticked, closed, coingecko, refresh, refreshes,
  new_quote, is_positive,
}

module _ (f : Float) where
  refresh-keeps :
      (q : Quote f) (outcome : Option f.F) (now : ℕ)
      → q.available ≡ is_positive f q.usd
      → ((refresh f q outcome now).available ≡ is_positive f (refresh f q outcome now).usd)
        × (q.available ≡ true → (refresh f q outcome now).available ≡ true)
  unfolding refresh
  refresh-keeps q none now h = (h, λ a. a)
  refresh-keeps q (some usd) now h = elim (Bool-cases (is_positive f usd)) [
    | inl p ↦ rw p (sym p, λ a. refl)
    | inr n ↦ rw n (h, λ a. a)
  ]

  refreshes-keeps :
      (q : Quote f) (rounds : List (Option f.F × ℕ))
      → q.available ≡ is_positive f q.usd
      → ((refreshes f q rounds).available ≡ is_positive f (refreshes f q rounds).usd)
        × (q.available ≡ true → (refreshes f q rounds).available ≡ true)
  unfolding refreshes
  refreshes-keeps q [] h = (h, λ a. a)
  refreshes-keeps q ((outcome, now) ∷ rounds) h =
      let (valid, kept) = refresh-keeps q outcome now h in
      let (valid', kept') = refreshes-keeps (refresh f q outcome now) rounds valid in
      (valid', λ a. kept' (kept a))

  -- Whatever the refreshes bring, a price is said to be available exactly if it is positive, and it
  -- stays available if the configured one was positive.
  pub refreshes-available :
      (static_usd : f.F) (now : ℕ) (rounds : List (Option f.F × ℕ))
      → is_positive f static_usd ≡ true
      → let q = refreshes f (new_quote f static_usd now) rounds in
        (q.available ≡ true) × (is_positive f q.usd ≡ true)
  unfolding new_quote
  refreshes-available static_usd now rounds h =
      let (valid, kept) = refreshes-keeps (new_quote f static_usd now) rounds refl in
      (kept h, sym valid ∙ kept h)

  -- A price that a fetch brings and `refresh` takes: the response is 200, and the price is positive.
  abbrev pub usable : Fetch f → Option f.F
  usable no_response = none
  usable (response status none) = none
  usable (response status (some usd)) =
      if status == 200 && is_positive f usd then some usd else none

  abbrev pub live : f.F → ℕ → Quote f
  live usd now = record { usd = usd; source = coingecko; updated_at = now; available = true }

  abbrev pub or_live : Quote f → Option f.F → ℕ → Quote f
  or_live q none now = q
  or_live q (some usd) now = live usd now

  -- The quote of the last usable fetch before the service is closed, or else `q`.
  abbrev pub last_live : Quote f → List (Turn f) → Quote f
  last_live q [] = q
  last_live q (ticked fetch now ∷ turns) = last_live (or_live q (usable fetch) now) turns
  last_live q (closed ∷ turns) = q
