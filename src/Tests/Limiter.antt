-- ===== src/Tests/Limiter.antt =====
-- A limiter of sixty tokens a minute, at most ten at a time, and two clients.
use btcdwatch_com.Base.{ℕ, ◌+◌, ◌-◌, ◌*◌, ◌≤◌, ◌≡◌, refl, List, [], ◌∷◌, true, arith, nat_eq}
use btcdwatch_com.Base.Int.{pos}
use btcdwatch_com.Limiter.{
  RateLimiter, unit, new_rate_limiter, sweep, swept, refilled, spend, allow,
}
use btcdwatch_com.Base.Map.{lookup, insert, retain}
use btcdwatch_com.Limiter.Level.{IsLimiter}
use btcdwatch_com.Limiter.Bound.{allow_lem}
use btcdwatch_com.Limiter.Grants.{Request, new-IsLimiter, granted, granted_bound, allow_after_wait}

abbrev limiter : RateLimiter ℕ
limiter = new_rate_limiter 60 (pos 10)

abbrev requests : List (Request ℕ)
requests =
    record { client = 1; cost = 8; at = 0 }
    ∷ record { client = 2; cost = 4; at = 1000000000 }
    ∷ record { client = 1; cost = 8; at = 2000000000 }
    ∷ record { client = 1; cost = 8; at = 7000000000 }
    ∷ []

granted_bound_example :
    granted 1 limiter requests * unit ≤ limiter.burst * unit + (7000000000 - 0) * 60
granted_bound_example =
    granted_bound 60 (pos 10) 1 requests 0 7000000000 (omega arith)
      (omega arith, (omega arith, (omega arith, (omega arith, omega arith))))

-- The client that spent its tokens is refused, and served after six seconds.
abbrev spent : RateLimiter ℕ
spent = (allow limiter 1 8 0).0

spent_settings : (spent.burst ≡ 10) × (spent.per_min ≡ 60)
unfolding allow spend swept sweep refilled new_rate_limiter lookup insert retain
spent_settings = (refl, refl)

spent_sound : IsLimiter spent 0
spent_sound = (allow_lem limiter 1 8 0 1 (new-IsLimiter 60 (pos 10) (omega arith))).2

allow_after_wait_example : (allow spent 1 8 8000000000).1 ≡ true
allow_after_wait_example =
    allow_after_wait spent 1 8 0 8000000000 spent_sound (omega arith)
      (omega (arith, spent_settings)) (omega (arith, spent_settings))
