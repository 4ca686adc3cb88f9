-- ===== src/Limiter/Bound.antt =====
-- internal/api/middleware.go: what `allow` answers, and how much a client is granted over time.
use btcdwatch_com.Base.{
  ℕ, ◌-◌, ◌*◌, ◌≡◌, sym, ◌∙◌, some, false, not, ◌&&◌, arith, if◌then◌else◌, Eq, inl, inr,
  Bool-cases,
}
use btcdwatch_com.Base.Int.{ℤ, pos, ◌+ℤ◌, ◌-ℤ◌, ltb_ℤ, ◌≤ℤ◌, +ℤ_parts, -ℤ_parts, eq_of_parts}
use btcdwatch_com.Base.Map.{lookup, lookup-insert, insert-Distinct}
use btcdwatch_com.Limiter.Level.{
  level, IsSound, IsLimiter, level_bounds, swept-level, swept-IsLimiter, gain_lem,
}
use btcdwatch_com.Limiter.{
  RateLimiter, Bucket, unit, full, refilled, swept, store, spend, allow, min_ℤ,
}

refill_none : (f x : ℤ) (now p : ℕ) → x ≤ℤ f → min_ℤ f (x +ℤ pos ((now - now) * p)) ≡ x
refill_none f x now p h =
    let zero_time : now - now ≡ 0 = omega arith in
    let nothing : (now - now) * p ≡ 0 = rw zero_time (omega arith) in
    ground (
      arith,
      nothing,
      +ℤ_parts x (pos ((now - now) * p)),
      eq_of_parts (x +ℤ pos ((now - now) * p)) x,
      eq_of_parts f x,
    )

spent_bounds :
    (x f : ℤ) (c : ℕ) → x ≤ℤ f → ltb_ℤ x (pos c) ≡ false → (pos 0 ≤ℤ x -ℤ pos c) × (x -ℤ pos c ≤ℤ f)
spent_bounds x f c h t = ground (arith, -ℤ_parts x (pos c))

module _ {ℓ} {K : Type ℓ} ⦃e : Eq K⦄ where
  store-IsLimiter :
      (l : RateLimiter K) (key : K) (tokens : ℤ) (now : ℕ)
      → IsLimiter l now
      → pos 0 ≤ℤ tokens
      → tokens ≤ℤ full l
      → IsLimiter (store l key tokens now) now
  store-IsLimiter l key tokens now i lo hi = record {
    distinct = insert-Distinct key (record { tokens = tokens; updated = now }) l.buckets i.distinct;
    rate = i.rate;
    sound = λ k b at.
        stored k b
          (sym (lookup-insert k key (record { tokens = tokens; updated = now }) l.buckets) ∙ at);
  }
    where
      stored :
          (k : K) (b : Bucket)
          → (if e.beq key k
              then some (let c : Bucket = record { tokens = tokens; updated = now } in c)
              else lookup k l.buckets)
            ≡ some b
          → IsSound (store l key tokens now) now b
      stored k b h = ground (arith, i.sound k b)

  -- With the tokens of a bucket written, its level is those tokens, and no other level changes.
  store-level :
      (l : RateLimiter K) (key : K) (tokens : ℤ) (now : ℕ) (j : K)
      → tokens ≤ℤ full l
      → level (store l key tokens now) j now ≡ (if e.beq key j then tokens else level l j now)
  unfolding level refilled
  store-level l key tokens now j h =
      rw (lookup-insert j key (record { tokens = tokens; updated = now }) l.buckets)
        (elim (Bool-cases (e.beq key j)) [
          | inl same ↦
              rw (same, gain_lem now now l.per_min (omega arith))
                (refill_none (full l) tokens now l.per_min h)
          | inr other ↦ rw other
        ])

  spend-level :
      (l : RateLimiter K) (key : K) (cost now : ℕ) (j : K)
      → IsLimiter l now
      → level (spend l key cost now (level l key now)).0 j now ≡ (
          if e.beq key j && not (ltb_ℤ (level l key now) (pos (cost * unit)))
          then level l key now -ℤ pos (cost * unit)
          else level l j now)
  unfolding spend
  spend-level l key cost now j i = elim (Bool-cases (ltb_ℤ (level l key now) (pos (cost * unit)))) [
    | inl poor ↦ rw poor (
        store-level l key (level l key now) now j (level_bounds l key now i).1
        ∙ ground (arith, e.beq_iff key j))
    | inr rich ↦ rw rich (
        store-level l key (level l key now -ℤ pos (cost * unit)) now j
          (spent_bounds (level l key now) (full l) (cost * unit) (level_bounds l key now i).1
            rich).1
        ∙ ground (arith, e.beq_iff key j))
  ]

  spend-IsLimiter :
      (l : RateLimiter K) (key : K) (cost now : ℕ)
      → IsLimiter l now
      → IsLimiter (spend l key cost now (level l key now)).0 now
  unfolding spend
  spend-IsLimiter l key cost now i =
      elim (Bool-cases (ltb_ℤ (level l key now) (pos (cost * unit)))) [
        | inl poor ↦
            let (lo, hi) = level_bounds l key now i in
            rw poor (store-IsLimiter l key (level l key now) now i lo hi)
        | inr rich ↦
            let (lo, hi) =
              spent_bounds (level l key now) (full l) (cost * unit) (level_bounds l key now i).1
                rich in
            rw rich (store-IsLimiter l key (level l key now -ℤ pos (cost * unit)) now i lo hi)
      ]

  spend_answer :
      (l : RateLimiter K) (key : K) (cost now : ℕ) (tokens : ℤ)
      → (spend l key cost now tokens).1 ≡ not (ltb_ℤ tokens (pos (cost * unit)))
  unfolding spend
  spend_answer l key cost now tokens = ground arith

  -- `allow` grants a request exactly if the client's level covers its cost, and takes the cost off
  -- that level alone: the sweep and the other clients' buckets do not show. The limiter stays sound.
  pub allow_lem :
      (l : RateLimiter K) (key : K) (cost now : ℕ) (j : K)
      → IsLimiter l now
      → ((allow l key cost now).1 ≡ not (ltb_ℤ (level l key now) (pos (cost * unit))))
        × (level (allow l key cost now).0 j now ≡ (
            if e.beq key j && (allow l key cost now).1
            then level l key now -ℤ pos (cost * unit)
            else level l j now))
        × IsLimiter (allow l key cost now).0 now
  unfolding allow level
  allow_lem l key cost now j i =
      let m = swept l now in
      let k = swept-IsLimiter l now i in
      let answer = spend_answer m key cost now (level m key now) in
      (
        rw answer (rw (swept-level l now key i)),
        rw answer (
            rw (spend-level m key cost now j k)
              (rw (swept-level l now key i, swept-level l now j i))),
        spend-IsLimiter m key cost now k,
      )
