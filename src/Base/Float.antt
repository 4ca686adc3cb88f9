-- ===== src/Base/Float.antt =====
-- IEEE doubles, which the language gives and this development does not define: the operations that
-- the program uses, and the laws of their order where no operand is NaN.
use Prim.Native.Nat.{ℕ, ◌≤◌}
use mathlib.Core.Path.{◌≡◌}
use mathlib.Core.Bool.{Bool, true, false}
use btcdwatch_com.Base.Int.{ℤ, pos}

pub record Float : Type 1 where
  pub F : Type 0
  pub lt : F → F → Bool
  -- `float64(n)` of an int64.
  pub of_int : ℤ → F
  pub mul : F → F → F
  pub div : F → F → F
  -- `math.Round`, `math.Max`, `min`.
  pub round : F → F
  pub fmax : F → F → F
  pub fmin : F → F → F
  -- `time.Duration.Seconds` of a number of nanoseconds.
  pub seconds : ℕ → F

-- What holds of `<` on the doubles that are not NaN.
pub record IsOrder (f : Float) : Type 0 where
  pub irrefl : (a : f.F) → f.lt a a ≡ false
  pub trans : (a b c : f.F) → f.lt a b ≡ true → f.lt b c ≡ true → f.lt a c ≡ true
  pub le_trans : (a b c : f.F) → f.lt b a ≡ false → f.lt c b ≡ false → f.lt c a ≡ false
  -- The conversion of integers keeps their order.
  pub of_int-mono : (m n : ℕ) → m ≤ n → f.lt (f.of_int (pos n)) (f.of_int (pos m)) ≡ false
  pub fmax-left : (a b : f.F) → f.lt (f.fmax a b) a ≡ false
  pub fmax-right : (a b : f.F) → f.lt (f.fmax a b) b ≡ false
