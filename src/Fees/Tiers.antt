-- ===== src/Fees/Tiers.antt =====
-- internal/explorer/fees.go: the tiers rise, and what a percentile is.
use native.Mathlib.Nat.{add-zero, zero-add}
use btcdwatch_com.Base.{
  ℕ, ◌+◌, ◌≤◌, ◌≡◌, refl, ◌∙◌, ap, List, [], ◌∷◌, true, false, arith, if◌then◌else◌, inl, inr,
  Bool-cases, subst,
}
use btcdwatch_com.Base.Float.{Float, IsOrder}
use btcdwatch_com.Base.Sort.{All, Sorted, Sorter, IsStrictWeak, sum_by, sum_by-perm}
use btcdwatch_com.Snapshot.{Snapshot}
use btcdwatch_com.Queue.{num}
use btcdwatch_com.Fees.{
  FeeFloors, lower, percentile_from, percentile, total_vsize, settle, raw_rates, tier_rates,
}

module _ (f : Float) where
  -- The bytes of an entry that pays `rate` or less.
  abbrev pub bytes_up_to : f.F → f.F × ℕ → ℕ
  bytes_up_to rate (r, v) = if f.lt rate r then 0 else v

  -- The number of bytes that the percentile asks for.
  abbrev pub target_of : ℕ → List (f.F × ℕ) → f.F
  target_of p es = f.mul (f.div (num f p) (num f 100)) (num f (sum_by (λ (y : f.F × ℕ). y.1) es))

module _ (f : Float) (o : IsOrder f) where
  settle_bound : (rate bound : f.F) → f.lt (settle f rate bound) bound ≡ false
  unfolding settle
  settle_bound rate bound = o.fmax-right _ bound

  -- Whatever the mempool and the floors are, no tier is below 1 sat/vB and the tiers never fall.
  pub tier_rates-ordered :
      (s : Sorter) (floors : FeeFloors f) (snapshot : Snapshot f)
      → let r = tier_rates f s floors snapshot in
        (f.lt r.slow (num f 1) ≡ false)
        × (f.lt r.standard r.slow ≡ false)
        × (f.lt r.urgent r.standard ≡ false)
        × (f.lt r.urgent (num f 1) ≡ false)
  unfolding tier_rates
  tier_rates-ordered s floors snapshot =
      let raw = raw_rates f s floors snapshot in
      let low = settle_bound raw.slow (num f 1) in
      let middle = settle_bound raw.standard (settle f raw.slow (num f 1)) in
      let high = settle_bound raw.urgent (settle f raw.standard (settle f raw.slow (num f 1))) in
      (low, middle, high, o.le_trans _ _ _ (o.le_trans _ _ _ low middle) high)

  not_below : (a b c : f.F) → f.lt a b ≡ true → f.lt c b ≡ false → f.lt a c ≡ true
  not_below a b c h k = elim (Bool-cases (f.lt a c)) [
    | inl below ↦ below
    | inr above ↦ cc (h, o.le_trans b c a k above)
  ]

  none_up_to :
      (r rate : f.F) (v : ℕ) (es : List (f.F × ℕ))
      → f.lt r rate ≡ true
      → All (λ y. lower f y (rate, v) ≡ false) es
      → sum_by (bytes_up_to f r) es ≡ 0
  unfolding sum_by
  none_up_to r rate v [] h a = refl
  none_up_to r rate v ((s, w) ∷ es) h a =
      ground (arith, not_below r rate s h a.0, none_up_to r rate v es h a.1)

  percentile_from-lowest :
      (es : List (f.F × ℕ)) (target : f.F) (cum : ℕ) (last r : f.F)
      → Sorted (lower f) es
      → f.lt (num f cum) target ≡ true
      → f.lt r (percentile_from f target cum last es) ≡ true
      → f.lt (num f (cum + sum_by (bytes_up_to f r) es)) target ≡ true
  unfolding percentile_from sum_by
  percentile_from-lowest [] target cum last r so low h = rw add-zero low
  percentile_from-lowest ((rate, v) ∷ es) target cum last r so low h =
      elim (Bool-cases (f.lt r rate)) [
        | inl dear ↦
            let nothing : cum + (bytes_up_to f r (rate, v) + sum_by (bytes_up_to f r) es) ≡ cum =
              ground (arith, none_up_to r rate v es dear so.0) in
            rw nothing low
        | inr cheap ↦ elim (Bool-cases (f.lt (num f (cum + v)) target)) [
          | inl more ↦
              let all : cum + (bytes_up_to f r (rate, v) + sum_by (bytes_up_to f r) es)
                  ≡ cum + v + sum_by (bytes_up_to f r) es =
                ground arith in
              rw all (percentile_from-lowest es target (cum + v) rate r so.1 more (rw more at h))
          | inr reached ↦ cc (rw reached at h, cheap)
        ]
      ]

  percentile_above_last :
      (es : List (f.F × ℕ)) (target : f.F) (cum : ℕ) (last : f.F) (v : ℕ)
      → Sorted (lower f) es
      → All (λ y. lower f y (last, v) ≡ false) es
      → f.lt (percentile_from f target cum last es) last ≡ false
  unfolding percentile_from
  percentile_above_last [] target cum last v so a = o.irrefl last
  percentile_above_last ((rate, w) ∷ es) target cum last v so a =
      elim (Bool-cases (f.lt (num f (cum + w)) target)) [
        | inl more ↦ rw more (
            o.le_trans last rate _ a.0 (percentile_above_last es target (cum + w) rate w so.1 so.0))
        | inr reached ↦ rw reached a.0
      ]

  percentile_from-reaches :
      (es : List (f.F × ℕ)) (target : f.F) (cum : ℕ) (last c : f.F)
      → Sorted (lower f) es
      → f.lt (num f (cum + sum_by (λ (y : f.F × ℕ). y.1) es)) target ≡ false
      → percentile_from f target cum last es ≡ c
      → f.lt (num f (cum + sum_by (bytes_up_to f c) es)) target ≡ false
  unfolding percentile_from sum_by
  percentile_from-reaches [] target cum last c so h e = h
  percentile_from-reaches ((rate, v) ∷ es) target cum last c so h e =
      elim (Bool-cases (f.lt (num f (cum + v)) target)) [
        | inl more ↦
            let e' : percentile_from f target (cum + v) rate es ≡ c = rw more at e in
            let above : f.lt c rate ≡ false =
              subst (λ x. f.lt x rate ≡ false) e'
                (percentile_above_last es target (cum + v) rate v so.1 so.0) in
            let all : cum + (bytes_up_to f c (rate, v) + sum_by (bytes_up_to f c) es)
                ≡ cum + v + sum_by (bytes_up_to f c) es =
              ground arith in
            let whole : cum + (v + sum_by (λ (y : f.F × ℕ). y.1) es)
                ≡ cum + v + sum_by (λ (y : f.F × ℕ). y.1) es =
              omega arith in
            rw all (percentile_from-reaches es target (cum + v) rate c so.1 (rw whole at h) e')
        | inr reached ↦
            let here : rate ≡ c = rw reached at e in
            let counted : cum + v
                ≤ cum + (bytes_up_to f c (rate, v) + sum_by (bytes_up_to f c) es) =
              ground (arith, o.irrefl rate, here) in
            o.le_trans target (num f (cum + v)) _ reached (o.of_int-mono (cum + v) _ counted)
      ]

  total_vsize_lem : (es : List (f.F × ℕ)) → total_vsize f es ≡ sum_by (λ (y : f.F × ℕ). y.1) es
  unfolding total_vsize sum_by
  total_vsize_lem [] = refl
  total_vsize_lem ((r, v) ∷ es) = omega (arith, total_vsize_lem es)

  lower-IsStrictWeak : IsStrictWeak (lower f)
  lower-IsStrictWeak = record {
    irrefl = λ a. o.irrefl a.0;
    trans = λ a b c p q. o.trans a.0 b.0 c.0 p q;
    le_trans = λ a b c p q. o.le_trans a.0 b.0 c.0 p q;
  }

  -- The target of a percentile is that of the entries before they are sorted.
  percentile-percentile_from :
      (s : Sorter) (p : ℕ) (all : List (f.F × ℕ))
      → percentile f p (s.sort (f.F × ℕ) (lower f) all)
        ≡ percentile_from f (target_of f p all) 0 (num f 0) (s.sort (f.F × ℕ) (lower f) all)
  unfolding percentile
  percentile-percentile_from s p all =
      let es = s.sort (f.F × ℕ) (lower f) all in
      ap
        (λ (n : ℕ).
          percentile_from f (f.mul (f.div (num f p) (num f 100)) (num f n)) 0 (num f 0) es)
        (total_vsize_lem es
          ∙ sum_by-perm (λ (y : f.F × ℕ). y.1) (s.sort-perm (f.F × ℕ) (lower f) all))

  -- At a percentile of the sorted mempool, the bytes that pay that rate or less reach the target, if
  -- the target is not above the whole.
  pub percentile-reaches :
      (s : Sorter) (p : ℕ) (all : List (f.F × ℕ))
      → f.lt (num f (sum_by (λ (y : f.F × ℕ). y.1) all)) (target_of f p all) ≡ false
      → f.lt
          (num f (sum_by (bytes_up_to f (percentile f p (s.sort (f.F × ℕ) (lower f) all))) all))
          (target_of f p all)
        ≡ false
  percentile-reaches s p all whole =
      let es = s.sort (f.F × ℕ) (lower f) all in
      let same = s.sort-perm (f.F × ℕ) (lower f) all in
      let so = s.sort-sorted (f.F × ℕ) (lower f) lower-IsStrictWeak all in
      let bytes = sum_by-perm (λ (y : f.F × ℕ). y.1) same in
      let c = percentile_from f (target_of f p all) 0 (num f 0) es in
      rw (percentile-percentile_from s p all, ← sum_by-perm (bytes_up_to f c) same)
        (rw zero-add at (
          percentile_from-reaches es (target_of f p all) 0 (num f 0) c so
            (rw (zero-add, bytes) whole) refl))

  -- At no rate below the percentile do they reach it, if the target lies above zero.
  pub percentile-lowest :
      (s : Sorter) (p : ℕ) (all : List (f.F × ℕ)) (r : f.F)
      → f.lt (num f 0) (target_of f p all) ≡ true
      → f.lt r (percentile f p (s.sort (f.F × ℕ) (lower f) all)) ≡ true
      → f.lt (num f (sum_by (bytes_up_to f r) all)) (target_of f p all) ≡ true
  percentile-lowest s p all r pos below =
      let es = s.sort (f.F × ℕ) (lower f) all in
      let same = s.sort-perm (f.F × ℕ) (lower f) all in
      let so = s.sort-sorted (f.F × ℕ) (lower f) lower-IsStrictWeak all in
      rw (← sum_by-perm (bytes_up_to f r) same) (
        rw zero-add at (
          percentile_from-lowest es (target_of f p all) 0 (num f 0) r so pos
            (rw (percentile-percentile_from s p all) at below)))
