-- ===== src/Limiter.antt =====
-- internal/api/middleware.go: the token bucket per client. A time is a number of nanoseconds, and
-- tokens are exact: one token is `unit` parts, of which `per_min` are refilled in a nanosecond, so
-- the quotients of the source's doubles are whole numbers here. A call that was given an earlier
-- time than the one before it takes tokens off, so the tokens are an integer.
pub mod Level
pub mod Bound
pub mod Grants
pub mod Headers
use btcdwatch_com.Base.{
  ℕ, ◌+◌, ◌-◌, ◌*◌, ◌/◌, List, [], ◌∷◌, Option, none, some, Bool, true, false, not, ◌&&◌, ◌||◌,
  if◌then◌else◌, ltb, leb, ◌==◌, Eq,
}
use btcdwatch_com.Base.Int.{ℤ, pos, negsuc, ◌+ℤ◌, ◌-ℤ◌, sub_ℕ, ltb_ℤ}
use btcdwatch_com.Base.Map.{lookup, insert, retain}
use btcdwatch_com.Base.Text.{Text, codes, text_eq, trim_space}

-- One token: the nanoseconds of a minute.
abbrev pub unit : ℕ
unit = 60000000000

abbrev pub sweep_every : ℕ
sweep_every = 300000000000

pub record Bucket : Type 0 where
  pub tokens : ℤ
  pub updated : ℕ

pub record RateLimiter {ℓ} (K : Type ℓ) : Type ℓ where
  pub buckets : List (K × Bucket)
  pub per_min : ℕ
  pub burst : ℕ
  pub sweep_at : ℕ

abbrev pub burst_or : ℕ → ℤ → ℕ
burst_or per_min (pos n) = if n == 0 then per_min else n
burst_or per_min (negsuc n) = per_min

unfoldable pub new_rate_limiter {ℓ} : {K : Type ℓ} → ℕ → ℤ → RateLimiter K
new_rate_limiter per_min burst = record {
  buckets = [];
  per_min = per_min;
  burst = burst_or per_min burst;
  sweep_at = 0;
}

abbrev pub min_ℤ : ℤ → ℤ → ℤ
min_ℤ a b = if ltb_ℤ b a then b else a

module _ {ℓ} {K : Type ℓ} where
  -- A full bucket.
  abbrev pub full : RateLimiter K → ℤ
  full l = pos (l.burst * unit)

  -- `min(l.burst, b.tokens + now.Sub(b.updated).Seconds()*l.perSec)`, without the rounding of the
  -- source's doubles, by which a cost that is met to the last fraction may be missed there.
  unfoldable pub refilled : RateLimiter K → Bucket → ℕ → ℤ
  refilled l b now = min_ℤ (full l) (b.tokens +ℤ sub_ℕ (now * l.per_min) (b.updated * l.per_min))

  -- `time.Duration(l.burst / l.perSec * float64(time.Second))`.
  abbrev pub refill_time : RateLimiter K → ℕ
  refill_time l = l.burst * unit / l.per_min

  abbrev pub is_idle : RateLimiter K → ℕ → Bucket → Bool
  is_idle l now b = ltb (refill_time l) (now - b.updated)

  -- Idle buckets are dropped.
  unfoldable pub sweep : RateLimiter K → ℕ → RateLimiter K
  sweep l now = record l { buckets = retain (λ b. not (is_idle l now b)) l.buckets }

  unfoldable pub swept : RateLimiter K → ℕ → RateLimiter K
  unfolding sweep
  swept l now =
      if ltb l.sweep_at now then record (sweep l now) { sweep_at = now + sweep_every } else l

module _ {ℓ} {K : Type ℓ} ⦃e : Eq K⦄ where
  -- The tokens of the client's bucket, which is made full if it is not there.
  abbrev pub tokens_of : RateLimiter K → ℕ → Option Bucket → ℤ
  tokens_of l now none = full l
  tokens_of l now (some b) = refilled l b now

  abbrev pub store : RateLimiter K → K → ℤ → ℕ → RateLimiter K
  store l key tokens now = record l {
    buckets = insert key (record { tokens = tokens; updated = now }) l.buckets;
  }

  -- The client spends its cost, or is refused.
  unfoldable pub spend : RateLimiter K → K → ℕ → ℕ → ℤ → RateLimiter K × Bool
  spend l key cost now tokens =
      if ltb_ℤ tokens (pos (cost * unit))
      then (store l key tokens now, false)
      else (store l key (tokens -ℤ pos (cost * unit)) now, true)

  unfoldable pub allow : RateLimiter K → K → ℕ → ℕ → RateLimiter K × Bool
  unfolding spend swept
  allow l key cost now =
      let m = swept l now in spend m key cost now (tokens_of m now (lookup key m.buckets))

unfoldable pub has_prefix : Text → Text → Bool
has_prefix [] s = true
has_prefix (c ∷ cs) [] = false
has_prefix (c ∷ cs) (d ∷ ds) = c == d && has_prefix cs ds

unfoldable pub route_cost : Text → ℕ
unfolding has_prefix text_eq
route_cost path =
    if has_prefix (codes "/api/address/") path
    then 8
    else if text_eq path (codes "/api/search") || text_eq path (codes "/api/ws")
    then 4
    else if has_prefix (codes "/api/tx/") path || has_prefix (codes "/api/block/") path
    then 2
    else 1

-- The text before the first comma.
unfoldable pub before_comma : Text → Text
before_comma [] = []
before_comma (c ∷ cs) = if c == b',' then [] else c ∷ before_comma cs

abbrev pub host_or : Text → Option Text → Text
host_or remote none = remote
host_or remote (some host) = host

-- `split_host` is the host of `net.SplitHostPort`, and `header` is `r.Header.Get`.
unfoldable pub client_ip : (Text → Option Text) → (Text → Text) → Text → Text → Text
unfolding before_comma trim_space text_eq
client_ip split_host header remote trusted =
    if not (text_eq trusted []) && not (text_eq (header trusted) [])
    then trim_space (before_comma (header trusted))
    else host_or remote (split_host remote)

-- `withRateLimit`: whether the request is served; `false` is the answer 429.
module _ ⦃e : Eq Text⦄ where
  unfoldable pub with_rate_limit : RateLimiter Text → Text → Text → ℕ → RateLimiter Text × Bool
  unfolding has_prefix route_cost allow
  with_rate_limit l ip path now =
      if has_prefix (codes "/api/") path then allow l ip (route_cost path) now else (l, true)
