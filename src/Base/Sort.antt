-- ===== src/Base/Sort.antt =====
-- Go's `sort.Slice`, which the standard library gives: some arrangement of the list in which no
-- later element comes before an earlier one, by a test that is a strict weak order.
use Prim.Native.Nat.{ℕ, ◌+◌}
use mathlib.Core.Path.{◌≡◌, refl, ◌∙◌, ap}
use mathlib.Core.Bool.{Bool, true, false}
use mathlib.Core.List.{List, [], ◌∷◌, Perm, Permᴰ}
use mathlib.Core.Logic.{∥∥₁_elim}
use native.Mathlib.Nat.{ℕ_set}
use native.Mathlib.Omega.{arith}

abbrev pub All {ℓ κ} : {A : Type ℓ} → (A → Type κ) → List A → Type κ
All P [] = Unit
All P (x ∷ xs) = P x × All P xs

abbrev pub Sorted : {A : Type 0} → (A → A → Bool) → List A → Type 0
Sorted less [] = Unit {0}
Sorted less (x ∷ xs) = All (λ y. less y x ≡ false) xs × Sorted less xs

pub record IsStrictWeak {A : Type 0} (less : A → A → Bool) : Type 0 where
  pub irrefl : (a : A) → less a a ≡ false
  pub trans : (a b c : A) → less a b ≡ true → less b c ≡ true → less a c ≡ true
  pub le_trans : (a b c : A) → less b a ≡ false → less c b ≡ false → less c a ≡ false

pub record Sorter : Type 1 where
  pub sort : (A : Type 0) → (A → A → Bool) → List A → List A
  pub sort-perm : (A : Type 0) (less : A → A → Bool) (xs : List A) → Perm (sort A less xs) xs
  pub sort-sorted :
      (A : Type 0) (less : A → A → Bool)
      → IsStrictWeak less
      → (xs : List A) → Sorted less (sort A less xs)

-- A weighted sum over a list, which no rearrangement changes.
unfoldable pub sum_by : {A : Type 0} → (A → ℕ) → List A → ℕ
sum_by f [] = 0
sum_by f (x ∷ xs) = f x + sum_by f xs

sum_of_permᴰ : {A : Type 0} (f : A → ℕ) {xs ys : List A} → Permᴰ xs ys → sum_by f xs ≡ sum_by f ys
unfolding sum_by
sum_of_permᴰ f Permᴰ.nil = refl
sum_of_permᴰ f (Permᴰ.cons e p) = omega (arith, ap f e, sum_of_permᴰ f p)
sum_of_permᴰ f (Permᴰ.swap e e') = omega (arith, ap f e, ap f e')
sum_of_permᴰ f (Permᴰ.trans p q) = sum_of_permᴰ f p ∙ sum_of_permᴰ f q

pub sum_by-perm : {A : Type 0} (f : A → ℕ) {xs ys : List A} → Perm xs ys → sum_by f xs ≡ sum_by f ys
sum_by-perm f p = ∥∥₁_elim p (ℕ_set _ _) (sum_of_permᴰ f)
