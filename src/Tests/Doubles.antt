-- ===== src/Tests/Doubles.antt =====
-- The parameters of the development at concrete functions: a number with three decimals in the
-- place of a double, and insertion for `sort.Slice`.
use btcdwatch_com.Base.{
  ℕ, ◌+◌, ◌*◌, ◌/◌, ◌≡◌, List, [], ◌∷◌, Bool, true, false, ltb, if◌then◌else◌, arith, inl, inr,
  Bool-cases, sym, ◌∙◌,
}
use btcdwatch_com.Base.Int.{pos, negsuc}
use btcdwatch_com.Base.Float.{Float, IsOrder}
use btcdwatch_com.Base.Sort.{All, Sorted, IsStrictWeak, Sorter}
use mathlib.Core.List.{Perm}
use mathlib.Core.List.Perm
use mathlib.Core.Bool.{true≢false}

abbrev pub milli : Float
milli = record {
  F = ℕ;
  lt = ltb;
  of_int = λ z. elim z [ pos n ↦ n * 1000 | negsuc n ↦ 0 ];
  mul = λ a b. a * b / 1000;
  div = λ a b. a * 1000 / b;
  round = λ a. (a + 500) / 1000 * 1000;
  fmax = λ a b. if ltb a b then b else a;
  fmin = λ a b. if ltb b a then b else a;
  seconds = λ n. n / 1000000;
}

pub milli-IsOrder : IsOrder milli
milli-IsOrder = record {
  irrefl = λ a. ground arith;
  trans = λ a b c p q. ground arith;
  le_trans = λ a b c p q. ground arith;
  of_int-mono = λ m n p. ground arith;
  fmax-left = λ a b. ground arith;
  fmax-right = λ a b. ground arith;
}

abbrev pub insert_by : {A : Type 0} → (A → A → Bool) → A → List A → List A
insert_by less x [] = x ∷ []
insert_by less x (y ∷ ys) = if less y x then y ∷ insert_by less x ys else x ∷ y ∷ ys

abbrev pub sort_by : {A : Type 0} → (A → A → Bool) → List A → List A
sort_by less [] = []
sort_by less (x ∷ xs) = insert_by less x (sort_by less xs)

insert_by-perm :
    {A : Type 0} (less : A → A → Bool) (x : A) (xs : List A) → Perm (insert_by less x xs) (x ∷ xs)
insert_by-perm less x [] = Perm.refl (x ∷ [])
insert_by-perm less x (y ∷ ys) = elim (Bool-cases (less y x)) [
  | inl h ↦ rw h (Perm.trans (Perm.cons y (insert_by-perm less x ys)) (Perm.swap x y ys))
  | inr h ↦ rw h (Perm.refl (x ∷ y ∷ ys))
]

pub sort_by-perm : {A : Type 0} (less : A → A → Bool) (xs : List A) → Perm (sort_by less xs) xs
sort_by-perm less [] = Perm.refl []
sort_by-perm less (x ∷ xs) =
    Perm.trans (insert_by-perm less x (sort_by less xs)) (Perm.cons x (sort_by-perm less xs))

module _ {A : Type 0} (less : A → A → Bool) (w : IsStrictWeak less) where
  insert_by-All :
      (b x : A) (xs : List A)
      → less x b ≡ false
      → All (λ y. less y b ≡ false) xs
      → All (λ y. less y b ≡ false) (insert_by less x xs)
  insert_by-All b x [] h a = (h, tt)
  insert_by-All b x (y ∷ ys) h (p, a) = elim (Bool-cases (less y x)) [
    | inl l ↦ rw l (p, insert_by-All b x ys h a)
    | inr g ↦ rw g (h, (p, a))
  ]

  All-weaken :
      (b c : A) (xs : List A)
      → less b c ≡ false
      → All (λ y. less y b ≡ false) xs
      → All (λ y. less y c ≡ false) xs
  All-weaken b c [] h a = tt
  All-weaken b c (y ∷ ys) h (p, a) = (w.le_trans c b y h p, All-weaken b c ys h a)

  not_both : (x y : A) → less y x ≡ true → less x y ≡ false
  not_both x y l = elim (Bool-cases (less x y)) [
    | inl g ↦ absurd (true≢false (sym (w.trans x y x g l) ∙ w.irrefl x))
    | inr g ↦ g
  ]

  insert_by-Sorted : (x : A) (xs : List A) → Sorted less xs → Sorted less (insert_by less x xs)
  insert_by-Sorted x [] s = (tt, tt)
  insert_by-Sorted x (y ∷ ys) (p, s) = elim (Bool-cases (less y x)) [
    | inl l ↦ rw l (insert_by-All y x ys (not_both x y l) p, insert_by-Sorted x ys s)
    | inr g ↦ rw g ((g, All-weaken y x ys g p), (p, s))
  ]

  pub sort_by-Sorted : (xs : List A) → Sorted less (sort_by less xs)
  sort_by-Sorted [] = tt
  sort_by-Sorted (x ∷ xs) = insert_by-Sorted x (sort_by less xs) (sort_by-Sorted xs)

abbrev pub insertion : Sorter
insertion = record {
  sort = λ A. sort_by {A = A};
  sort-perm = λ A. sort_by-perm {A = A};
  sort-sorted = λ A less w. sort_by-Sorted less w;
}
