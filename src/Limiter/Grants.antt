-- ===== src/Limiter/Grants.antt =====
-- internal/api/middleware.go: what a client is granted over a run of requests.
use btcdwatch_com.Base.{
  ℕ, ◌+◌, ◌-◌, ◌*◌, ◌≤◌, ◌<◌, ◌≡◌, List, [], ◌∷◌, true, ◌&&◌, arith, if◌then◌else◌, Eq, subst,
}
use btcdwatch_com.Base.Int.{ℤ, pos, pos_part, ◌≤ℤ◌, +ℤ_parts, -ℤ_parts}
use btcdwatch_com.Base.Map.{lookup}
use btcdwatch_com.Limiter.Level.{
  level, IsLimiter, level_bounds, level_later, later-IsLimiter, gain-add,
}
use btcdwatch_com.Limiter.Bound.{allow_lem}
use btcdwatch_com.Limiter.{RateLimiter, unit, allow, new_rate_limiter}

-- One call of `allow`: the client, the cost of its route and the time.
pub record Request {ℓ} (K : Type ℓ) : Type ℓ where
  pub client : K
  pub cost : ℕ
  pub at : ℕ

-- The times do not fall, and lie between two given ones.
abbrev pub InOrder {ℓ} : {K : Type ℓ} → ℕ → List (Request K) → ℕ → Type 0
InOrder t0 [] t = t0 ≤ t
InOrder t0 (r ∷ rs) t = (t0 ≤ r.at) × InOrder r.at rs t

pos_part-le : (x : ℤ) (f : ℕ) → x ≤ℤ pos f → pos_part x ≤ f
pos_part-le x f h = ground arith

module _ {ℓ} {K : Type ℓ} ⦃e : Eq K⦄ where
  -- The costs of the client's requests that are granted, in a run from a limiter.
  unfoldable pub granted : K → RateLimiter K → List (Request K) → ℕ
  granted k l [] = 0
  granted k l (r ∷ rs) =
      let (m, ok) = allow l r.client r.cost r.at in
      (if e.beq r.client k && ok then r.cost else 0) + granted k m rs

  allow_settings :
      (l : RateLimiter K) (key : K) (cost now : ℕ)
      → ((allow l key cost now).0.per_min ≡ l.per_min) × ((allow l key cost now).0.burst ≡ l.burst)
  unfolding allow
  allow_settings l key cost now = ground arith

  one_grant :
      (l : RateLimiter K) (k : K) (r : Request K) (t0 : ℕ)
      → IsLimiter l t0
      → t0 ≤ r.at
      → (if e.beq r.client k && (allow l r.client r.cost r.at).1 then r.cost else 0) * unit
          + pos_part (level (allow l r.client r.cost r.at).0 k r.at)
        ≤ pos_part (level l k t0) + (r.at - t0) * l.per_min
  one_grant l k r t0 i h =
      let j = later-IsLimiter l t0 r.at h i in
      let (ok, lev, _) = allow_lem l r.client r.cost r.at k j in
      let gain = (r.at - t0) * l.per_min in
      ground (
        arith,
        ok,
        lev,
        level_later l k t0 r.at i h,
        +ℤ_parts (level l k t0) (pos gain),
        -ℤ_parts (level l r.client r.at) (pos (r.cost * unit)),
        level_bounds l k t0 i,
        level_bounds l k r.at j,
        e.beq_iff r.client k,
      )

  InOrder-le : (t0 : ℕ) (rs : List (Request K)) (t : ℕ) → InOrder t0 rs t → t0 ≤ t
  InOrder-le t0 [] t o = o
  InOrder-le t0 (r ∷ rs) t o = omega (arith, InOrder-le r.at rs t o.1)

  granted_from :
      (k : K) (l : RateLimiter K) (rs : List (Request K)) (t0 t : ℕ)
      → IsLimiter l t0
      → InOrder t0 rs t
      → granted k l rs * unit ≤ pos_part (level l k t0) + (t - t0) * l.per_min
  unfolding granted
  granted_from k l [] t0 t i o = omega arith
  granted_from k l (r ∷ rs) t0 t i o =
      let m = (allow l r.client r.cost r.at).0 in
      let (_, _, j) = allow_lem l r.client r.cost r.at k (later-IsLimiter l t0 r.at o.0 i) in
      let rest : granted k m rs * unit ≤ pos_part (level m k r.at) + (t - r.at) * l.per_min =
        subst (λ p. granted k m rs * unit ≤ pos_part (level m k r.at) + (t - r.at) * p)
          (allow_settings l r.client r.cost r.at).0 (granted_from k m rs r.at t j o.1) in
      omega (
        arith,
        rest,
        one_grant l k r t0 i o.0,
        gain-add t0 r.at t l.per_min o.0 (InOrder-le r.at rs t o.1),
      )

  pub new-IsLimiter :
      (per_min : ℕ) (burst : ℤ) → 0 < per_min → IsLimiter (new_rate_limiter {K = K} per_min burst) 0
  unfolding new_rate_limiter lookup
  new-IsLimiter per_min burst h = record { distinct = tt; rate = h; sound = λ k b at. cc }

  -- From a new limiter, whatever the others do and however often the map is swept, a client is
  -- granted no more than the burst and the refill of the time that went by.
  pub granted_bound :
      (per_min : ℕ) (burst : ℤ) (k : K) (rs : List (Request K)) (t0 t : ℕ)
      → 0 < per_min
      → InOrder t0 rs t
      → granted k (new_rate_limiter per_min burst) rs * unit
        ≤ (new_rate_limiter {K = K} per_min burst).burst * unit + (t - t0) * per_min
  unfolding new_rate_limiter
  granted_bound per_min burst k rs t0 t h o =
      let l = new_rate_limiter {K = K} per_min burst in
      let i = later-IsLimiter l 0 t0 (omega arith) (new-IsLimiter per_min burst h) in
      let (lo, hi) = level_bounds l k t0 i in
      omega (arith, granted_from k l rs t0 t i o, pos_part-le (level l k t0) (l.burst * unit) hi)

  -- A client that waited for the refill of the cost is granted it, if the burst can hold it.
  pub allow_after_wait :
      (l : RateLimiter K) (k : K) (cost now t : ℕ)
      → IsLimiter l now
      → now ≤ t
      → cost ≤ l.burst
      → cost * unit ≤ (t - now) * l.per_min
      → (allow l k cost t).1 ≡ true
  allow_after_wait l k cost now t i h fits waited =
      let (ok, _, _) = allow_lem l k cost t k (later-IsLimiter l now t h i) in
      ground (
        arith,
        ok,
        level_later l k now t i h,
        +ℤ_parts (level l k now) (pos ((t - now) * l.per_min)),
        level_bounds l k now i,
      )
