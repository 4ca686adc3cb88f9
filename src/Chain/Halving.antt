-- ===== src/Chain/Halving.antt =====
-- internal/chain/params.go: the subsidy, and how far away its next halving is.
use native.Mathlib.Nat.{
  mod-lt, div-add-mod, div-eq_of_lt-le, div-div-eq-div-mul, pow-suc, div-lt_iff_lt-mul,
  div-mul-le_self,
}
use native.Mathlib.Decide.{dec_lt}
use native.Mathlib.Numerals.{add-one}
use btcdwatch_com.Base.{
  ℕ, zero, suc, ◌+◌, ◌-◌, ◌/◌, ◌%◌, ◌^◌, ◌≤◌, ◌<◌, ◌≡◌, sym, subst, ◌∙◌, ap, some, false, arith,
  if◌then◌else◌, leb, ◌==◌, inl, inr, Bool-cases,
}
use btcdwatch_com.Chain.{blocks_until_halving, block_subsidy, initial_subsidy}

-- The subsidy after a number of halvings.
subsidy_after : ℕ → ℕ
subsidy_after q = if leb 64 q then 0 else initial_subsidy / 2 ^ q

block_subsidy-subsidy_after : (h i : ℕ) → 0 < i → block_subsidy h i ≡ subsidy_after (h / i)
unfolding block_subsidy subsidy_after
block_subsidy-subsidy_after h i p = ground arith

subsidy_after-suc : (q : ℕ) → subsidy_after (q + 1) ≡ subsidy_after q / 2
unfolding subsidy_after
subsidy_after-suc q = elim (Bool-cases (leb 64 q)) [
  | inl done ↦ ground arith
  | inr more ↦ elim (Bool-cases (q == 63)) [
    | inl last ↦ let e : q ≡ 63 = ground arith in rw e
    | inr before ↦
        let e : leb 64 (q + 1) ≡ false = ground arith in
        rw (e, more, add-one, pow-suc) (sym (div-div-eq-div-mul initial_subsidy (2 ^ q) 2))
  ]
]

subsidy_after-antitone : (q k : ℕ) → subsidy_after (q + k) ≤ subsidy_after q
subsidy_after-antitone q zero = ground arith
subsidy_after-antitone q (suc k) =
    let e : q + k + 1 ≡ q + suc k = omega arith in
    let drop : subsidy_after (q + k) / 2 ≤ subsidy_after (q + k) = omega arith in
    subst (λ n. subsidy_after n ≤ subsidy_after q) e
      (omega (arith, subsidy_after-suc (q + k), subsidy_after-antitone q k))

-- Between two multiples of the interval the quotient stays, and at the next it grows by one.
same_quotient : (h i s : ℕ) → 0 < i → h % i + s < i → (h + s) / i ≡ h / i
same_quotient h i s p lt =
    div-eq_of_lt-le i (grind (arith, div-add-mod h i)) (grind (arith, div-add-mod h i))

next_quotient : (h i : ℕ) → 0 < i → (h + (i - h % i)) / i ≡ h / i + 1
next_quotient h i p =
    div-eq_of_lt-le i (grind (arith, div-add-mod h i, mod-lt h p))
      (grind (arith, div-add-mod h i, mod-lt h p))

-- The number of blocks that the page counts down is exactly the distance to the next halving: it
-- is between one and the interval, the subsidy is the same at every height before it, and there it
-- is half as much.
pub halving_at_countdown :
    (height interval remaining s : ℕ)
    → blocks_until_halving height interval ≡ some remaining
    → s < remaining
    → (0 < remaining)
      × (remaining ≤ interval)
      × (block_subsidy (height + s) interval ≡ block_subsidy height interval)
      × (block_subsidy (height + remaining) interval ≡ block_subsidy height interval / 2)
unfolding blocks_until_halving
halving_at_countdown h i r s e lt =
    let pos : 0 < i = ground arith in
    let dist : r ≡ i - h % i = ground arith in
    (
      omega (arith, mod-lt h pos),
      omega arith,
      block_subsidy-subsidy_after (h + s) i pos
          ∙ ap subsidy_after (same_quotient h i s pos (omega arith))
          ∙ sym (block_subsidy-subsidy_after h i pos),
      rw (dist, block_subsidy-subsidy_after _ i pos, block_subsidy-subsidy_after h i pos)
          (ap subsidy_after (next_quotient h i pos) ∙ subsidy_after-suc (h / i)),
    )

quotient_mono : (h k i : ℕ) → 0 < i → h / i ≤ (h + k) / i
quotient_mono h k i p = elim (dec_lt ((h + k) / i) (h / i)) [
  | yes lt ↦
      absurd
        (omega (arith, (div-lt_iff_lt-mul {x = h + k} {y = h / i} p).0 lt, div-mul-le_self h i))
  | no ge ↦ omega arith
]

-- The subsidy never grows with the height, and never passes 50 BTC.
pub block_subsidy-antitone :
    (height k interval : ℕ)
    → (block_subsidy (height + k) interval ≤ block_subsidy height interval)
      × (block_subsidy height interval ≤ initial_subsidy)
unfolding block_subsidy
block_subsidy-antitone h k zero = ground arith
block_subsidy-antitone h k (suc j) = (
  rw
      (
        block_subsidy-subsidy_after (h + k) (suc j) (omega arith),
        block_subsidy-subsidy_after h (suc j) (omega arith),
      )
      (subst (λ q. subsidy_after q ≤ subsidy_after (h / suc j)) split
        (subsidy_after-antitone (h / suc j) ((h + k) / suc j - h / suc j))),
  ground arith,
)
  where
    split : h / suc j + ((h + k) / suc j - h / suc j) ≡ (h + k) / suc j
    split = omega (arith, quotient_mono h k (suc j) (omega arith))
