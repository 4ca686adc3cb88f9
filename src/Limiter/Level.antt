-- ===== src/Limiter/Level.antt =====
-- internal/api/middleware.go: a limiter as the level of each client's tokens over time. The sweep
-- and the entries of the other clients do not show in it.
use native.Mathlib.Nat.{div-lt_iff_lt-mul, add-mul}
use btcdwatch_com.Base.{
  ℕ, ◌+◌, ◌-◌, ◌*◌, ◌≤◌, ◌<◌, ◌≡◌, sym, ◌∙◌, ap, some, true, not, arith, ltb, ltb→lt, Eq, inl, inr,
  Bool-cases, Option-cases,
}
use btcdwatch_com.Base.Int.{ℤ, pos, ◌+ℤ◌, sub_ℕ, ◌≤ℤ◌, +ℤ_parts, eq_of_parts}
use btcdwatch_com.Base.Map.{lookup, retain, Distinct, lookup-retain, retain-Distinct}
use btcdwatch_com.Limiter.{
  RateLimiter, Bucket, unit, full, refilled, is_idle, sweep, swept, tokens_of, min_ℤ, sweep_every,
}

-- The parts that a bucket gains between two times.
pub gain_lem : (now u p : ℕ) → u ≤ now → sub_ℕ (now * p) (u * p) ≡ pos ((now - u) * p)
gain_lem now u p h =
    let split : (now - u) * p + u * p ≡ now * p =
      sym (add-mul (now - u) u p) ∙ ap (λ (t : ℕ). t * p) (omega arith) in
    ground arith

min_ℤ-eq_left : (a b : ℤ) → a ≤ℤ b → min_ℤ a b ≡ a
min_ℤ-eq_left a b h = ground arith

min_ℤ-refill :
    (f x : ℤ) (a d : ℕ) → min_ℤ f (x +ℤ pos (a + d)) ≡ min_ℤ f (min_ℤ f (x +ℤ pos a) +ℤ pos d)
min_ℤ-refill f x a d = ground (
  arith,
  +ℤ_parts x (pos (a + d)),
  +ℤ_parts x (pos a),
  +ℤ_parts (x +ℤ pos a) (pos d),
  +ℤ_parts f (pos d),
  eq_of_parts (x +ℤ pos (a + d)) (x +ℤ pos a +ℤ pos d),
  eq_of_parts (x +ℤ pos (a + d)) (f +ℤ pos d),
  eq_of_parts f (f +ℤ pos d),
  eq_of_parts f (x +ℤ pos (a + d)),
)

min_ℤ-full : (f : ℤ) (d : ℕ) → f ≡ min_ℤ f (f +ℤ pos d)
min_ℤ-full f d = sym (min_ℤ-eq_left f (f +ℤ pos d) (omega (arith, +ℤ_parts f (pos d))))

min_ℤ-bounds :
    (f x : ℤ) (a : ℕ)
    → pos 0 ≤ℤ x
    → pos 0 ≤ℤ f
    → (pos 0 ≤ℤ min_ℤ f (x +ℤ pos a)) × (min_ℤ f (x +ℤ pos a) ≤ℤ f)
min_ℤ-bounds f x a h k = ground (arith, +ℤ_parts x (pos a))

-- Two spans of time make one.
pub gain-add : (u now t p : ℕ) → u ≤ now → now ≤ t → (t - u) * p ≡ (now - u) * p + (t - now) * p
gain-add u now t p h k = ap (λ (s : ℕ). s * p) (omega arith) ∙ add-mul (now - u) (t - now) p

module _ {ℓ} {K : Type ℓ} ⦃e : Eq K⦄ where
  -- The tokens that a client has at a time.
  unfoldable pub level : RateLimiter K → K → ℕ → ℤ
  level l key now = tokens_of l now (lookup key l.buckets)

  -- A bucket with no debt and no more than the burst, last used not after `now`.
  pub record IsSound (l : RateLimiter K) (now : ℕ) (b : Bucket) : Type 0 where
    pub no_debt : pos 0 ≤ℤ b.tokens
    pub capped : b.tokens ≤ℤ full l
    pub past : b.updated ≤ now

  pub record IsLimiter (l : RateLimiter K) (now : ℕ) : Type ℓ where
    pub distinct : Distinct l.buckets
    pub sound : (k : K) (b : Bucket) → lookup k l.buckets ≡ some b → IsSound l now b
    pub rate : 0 < l.per_min

  -- A bucket that the sweep drops would be full anyway.
  idle_full :
      (l : RateLimiter K) (now : ℕ) (b : Bucket)
      → IsSound l now b
      → 0 < l.per_min
      → is_idle l now b ≡ true
      → refilled l b now ≡ full l
  unfolding refilled
  idle_full l now b s p h = rw (gain_lem now b.updated l.per_min s.past) (
      min_ℤ-eq_left (full l) (b.tokens +ℤ pos ((now - b.updated) * l.per_min)) (
        omega (
          arith,
          +ℤ_parts b.tokens (pos ((now - b.updated) * l.per_min)),
          (div-lt_iff_lt-mul {x = l.burst * unit} {y = now - b.updated} p).0 (ltb→lt _ _ h),
          s.no_debt,
        )))

  pub later-IsLimiter : (l : RateLimiter K) (now t : ℕ) → now ≤ t → IsLimiter l now → IsLimiter l t
  later-IsLimiter l now t h i = record {
    distinct = i.distinct;
    rate = i.rate;
    sound = λ k b at.
        let s = i.sound k b at in
        record { no_debt = s.no_debt; capped = s.capped; past = omega (arith, s.past) };
  }

  sweep-IsLimiter : (l : RateLimiter K) (now : ℕ) → IsLimiter l now → IsLimiter (sweep l now) now
  unfolding sweep
  sweep-IsLimiter l now i = record {
    distinct = retain-Distinct (λ b. not (is_idle l now b)) l.buckets i.distinct;
    rate = i.rate;
    sound = λ k b at.
        let s = i.sound k b (kept k b at) in
        record { no_debt = s.no_debt; capped = s.capped; past = s.past };
  }
    where
      kept :
          (k : K) (b : Bucket)
          → lookup k (retain (λ c. not (is_idle l now c)) l.buckets) ≡ some b
          → lookup k l.buckets ≡ some b
      kept k b at =
          ground (arith, at, lookup-retain k (λ c. not (is_idle l now c)) l.buckets i.distinct)

  sweep-level :
      (l : RateLimiter K) (now : ℕ) (k : K)
      → IsLimiter l now
      → level (sweep l now) k now ≡ level l k now
  unfolding sweep level refilled
  sweep-level l now k i = elim (Option-cases (lookup k l.buckets)) [
    | inl e ↦ rw (lookup-retain k (λ c. not (is_idle l now c)) l.buckets i.distinct, e)
    | inr (b, e) ↦
        rw (lookup-retain k (λ c. not (is_idle l now c)) l.buckets i.distinct, e)
          (elim (Bool-cases (is_idle l now b)) [
            | inl idle ↦ rw idle (sym (idle_full l now b (i.sound k b e) i.rate idle))
            | inr busy ↦ rw busy
          ])
  ]

  pub swept-IsLimiter :
      (l : RateLimiter K) (now : ℕ) → IsLimiter l now → IsLimiter (swept l now) now
  unfolding swept
  swept-IsLimiter l now i = elim (Bool-cases (ltb l.sweep_at now)) [
    | inl due ↦
        let j = sweep-IsLimiter l now i in
        rw due
          (record { distinct = j.distinct; rate = j.rate; sound = λ k b at. same (j.sound k b at) })
    | inr early ↦ rw early i
  ]
    where
      same :
          {b : Bucket}
          → IsSound (sweep l now) now b
          → IsSound (record (sweep l now) { sweep_at = now + sweep_every }) now b
      same s = record { no_debt = s.no_debt; capped = s.capped; past = s.past }

  pub swept-level :
      (l : RateLimiter K) (now : ℕ) (k : K)
      → IsLimiter l now
      → level (swept l now) k now ≡ level l k now
  unfolding swept level refilled
  swept-level l now k i = elim (Bool-cases (ltb l.sweep_at now)) [
    | inl due ↦ rw due (sweep-level l now k i)
    | inr early ↦ rw early
  ]

  pub swept_settings :
      (l : RateLimiter K) (now : ℕ)
      → ((swept l now).per_min ≡ l.per_min) × ((swept l now).burst ≡ l.burst)
  unfolding swept sweep
  swept_settings l now = ground arith

  -- The level at a later time: what was there and what is refilled, up to the burst.
  pub level_later :
      (l : RateLimiter K) (k : K) (now t : ℕ)
      → IsLimiter l now
      → now ≤ t
      → level l k t ≡ min_ℤ (full l) (level l k now +ℤ pos ((t - now) * l.per_min))
  unfolding level refilled
  level_later l k now t i h = elim (Option-cases (lookup k l.buckets)) [
    | inl e ↦ rw e (min_ℤ-full (full l) ((t - now) * l.per_min))
    | inr (b, e) ↦
        let s = i.sound k b e in
        rw
          (
            e,
            gain_lem t b.updated l.per_min (omega (arith, s.past)),
            gain_lem now b.updated l.per_min s.past,
            gain-add b.updated now t l.per_min s.past h,
          )
          (min_ℤ-refill (full l) b.tokens ((now - b.updated) * l.per_min) ((t - now) * l.per_min))
  ]

  pub level_bounds :
      (l : RateLimiter K) (k : K) (now : ℕ)
      → IsLimiter l now
      → (pos 0 ≤ℤ level l k now) × (level l k now ≤ℤ full l)
  unfolding level refilled
  level_bounds l k now i = elim (Option-cases (lookup k l.buckets)) [
    | inl e ↦ rw e (omega arith, omega arith)
    | inr (b, e) ↦
        let s = i.sound k b e in
        rw (e, gain_lem now b.updated l.per_min s.past)
          (min_ℤ-bounds (full l) b.tokens ((now - b.updated) * l.per_min) s.no_debt (omega arith))
  ]
