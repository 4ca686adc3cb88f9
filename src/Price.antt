-- ===== src/Price.antt =====
-- internal/price/price.go, and the price as internal/explorer sees it: the quote, the loop of its
-- refreshes and the fiat values. HTTP and JSON are the outcome of a `Fetch`; a price that is decoded is
-- not NaN. `refreshes` is the loop by what its fetches come to, `none` for one that brings no price. `to_btc` is `btcutil.Amount.ToBTC`.
pub mod Quotes
use btcdwatch_com.Base.{
  ℕ, max, List, [], ◌∷◌, Option, none, some, Bool, true, false, if◌then◌else◌, ◌==◌,
}
use btcdwatch_com.Base.Map.{is_some}
use btcdwatch_com.Base.Int.{ℤ, pos}
use btcdwatch_com.Base.Float.{Float}
use btcdwatch_com.Base.Text.{Text, codes, text_eq}

pub data PriceSource : Type 0 where
  coingecko static : PriceSource

pub record Quote (f : Float) : Type 0 where
  pub usd : f.F
  pub source : PriceSource
  pub updated_at : ℕ
  pub available : Bool

-- The seconds between two refreshes, if the live source is configured.
unfoldable pub refresh_every : Text → ℕ → Option ℕ
unfolding text_eq
refresh_every source seconds =
    if text_eq source (codes "coingecko") then some (max seconds 10) else none

-- What the request to the price server brings: a response has its status, and the price that its body
-- decodes to, if it does.
pub data Fetch (f : Float) : Type 0 where
  no_response : Fetch f
  response : ℕ → Option f.F → Fetch f

-- What the `select` of `loop` takes.
pub data Turn (f : Float) : Type 0 where
  ticked : Fetch f → ℕ → Turn f
  closed : Turn f

module _ (f : Float) where
  unfoldable pub price_of : Fetch f → Option f.F
  price_of no_response = none
  price_of (response status price) = if status == 200 then price else none

  abbrev pub is_positive : f.F → Bool
  is_positive usd = f.lt (f.of_int (pos 0)) usd

  -- The quote of `New`.
  unfoldable pub new_quote : f.F → ℕ → Quote f
  new_quote static_usd now = record {
    usd = static_usd;
    source = static;
    updated_at = now;
    available = is_positive static_usd;
  }

  unfoldable pub refresh : Quote f → Option f.F → ℕ → Quote f
  refresh q none now = q
  refresh q (some usd) now =
      if is_positive usd
      then record { usd = usd; source = coingecko; updated_at = now; available = true }
      else q

  -- The rounds of `loop`, by their outcomes and times.
  unfoldable pub refreshes : Quote f → List (Option f.F × ℕ) → Quote f
  unfolding refresh
  refreshes q [] = q
  refreshes q ((outcome, now) ∷ rounds) = refreshes (refresh q outcome now) rounds

  -- `loop` behind its first refresh, for the turns that it takes until it is closed.
  unfoldable pub loop : Quote f → List (Turn f) → Quote f
  unfolding refresh price_of
  loop q [] = q
  loop q (ticked fetch now ∷ turns) = loop (refresh q (price_of fetch) now) turns
  loop q (closed ∷ turns) = q

  -- `New`, and the quote after these turns of what it starts.
  unfoldable pub price_service : Text → f.F → ℕ → ℕ → Fetch f × ℕ → List (Turn f) → Quote f
  unfolding new_quote refresh_every loop
  price_service source static_usd seconds now (fetch, at) turns =
      let q = new_quote static_usd now in
      if is_some (refresh_every source seconds)
      then loop (refresh q (price_of fetch) at) turns
      else q

  -- The value of an amount, if there is a price.
  unfoldable pub fiat : (ℤ → f.F) → Quote f → ℤ → Option f.F
  fiat to_btc q sats = if q.available then some (f.mul (to_btc sats) q.usd) else none
