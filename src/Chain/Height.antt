-- ===== src/Chain/Height.antt =====
-- internal/chain/params.go: which texts are block heights.
use native.Mathlib.Nat.{pow-suc, mul-le-mul_right, pow-le-pow_right}
use btcdwatch_com.Base.{
  ℕ, ◌+◌, ◌-◌, ◌*◌, ◌^◌, ◌≤◌, ◌<◌, ◌≡◌, refl, [], ◌∷◌, ◌↔◌, some, true, arith, length, inl, inr,
  Bool-cases,
}
use btcdwatch_com.Base.Text.{Text, byte_len, trim_space, drop_commas}
use btcdwatch_com.Chain.{is_digit, parse_digits, parse_uint, parse_block_height}

abbrev pub AllDigits : Text → Type 0
AllDigits [] = Unit {0}
AllDigits (c ∷ cs) = (is_digit c ≡ true) × AllDigits cs

-- The number that a row of digits denotes, behind those read so far.
abbrev pub value_from : ℕ → Text → ℕ
value_from acc [] = acc
value_from acc (c ∷ cs) = value_from (acc * 10 + (c - b'0')) cs

byte_len-pos : (q : Text) → length q ≤ byte_len q
unfolding byte_len
byte_len-pos [] = omega arith
byte_len-pos (c ∷ q) = ground (arith, byte_len-pos q)

pub byte_len-AllDigits : (q : Text) → AllDigits q → byte_len q ≡ length q
unfolding byte_len
byte_len-AllDigits [] d = refl
byte_len-AllDigits (c ∷ q) d = ground (arith, byte_len-AllDigits q d.1)

pub parse_digits-AllDigits :
    (acc : ℕ) (q : Text) → AllDigits q → parse_digits acc q ≡ some (value_from acc q)
unfolding parse_digits
parse_digits-AllDigits acc [] d = refl
parse_digits-AllDigits acc (c ∷ q) d = rw d.0 (parse_digits-AllDigits (acc * 10 + (c - b'0')) q d.1)

parse_digits_only :
    (acc : ℕ) (q : Text) (n : ℕ)
    → parse_digits acc q ≡ some n
    → AllDigits q × (n ≡ value_from acc q)
unfolding parse_digits
parse_digits_only acc [] n e = ground arith
parse_digits_only acc (c ∷ q) n e = elim (Bool-cases (is_digit c)) [
  | inl d ↦ let (ds, v) = parse_digits_only (acc * 10 + (c - b'0')) q n (rw d at e) in ((d, ds), v)
  | inr nd ↦ cc (rw nd at e)
]

lt-mul_ten : (x a b p : ℕ) → a ≤ b * 10 → x < a * p → x < b * (p * 10)
lt-mul_ten x a b p h k = omega (arith, mul-le-mul_right p h)

value_from-lt : (acc : ℕ) (q : Text) → AllDigits q → value_from acc q < (acc + 1) * 10 ^ length q
value_from-lt acc [] d = omega arith
value_from-lt acc (c ∷ q) d = rw pow-suc (
    lt-mul_ten (value_from (acc * 10 + (c - b'0')) q) (acc * 10 + (c - b'0') + 1) (acc + 1)
      (10 ^ length q) (ground arith) (value_from-lt (acc * 10 + (c - b'0')) q d.1))

pow_ten_bound : (n : ℕ) → n ≤ 10 → 10 ^ n ≤ 10 ^ 10
pow_ten_bound n h = pow-le-pow_right (omega arith) h

-- The text with its outer spaces and its commas taken off.
abbrev pub bare : Text → Text
bare raw = drop_commas (trim_space raw)

-- A text is a height exactly if, without its outer spaces and its commas, it is a row of one to ten
-- decimal digits, and then the height is their value, which is below 10^10.
pub parse_block_height_iff :
    (raw : Text) (n : ℕ)
    → (parse_block_height raw ≡ some n) ↔ (
        AllDigits (bare raw)
        × (0 < length (bare raw))
        × (length (bare raw) ≤ 10)
        × (n ≡ value_from 0 (bare raw))
        × (n < 10 ^ 10))
unfolding parse_block_height parse_uint
parse_block_height_iff raw n = (to, from)
  where
    q : Text
    q = bare raw

    to :
        parse_block_height raw ≡ some n
        → AllDigits q × (0 < length q) × (length q ≤ 10) × (n ≡ value_from 0 q) × (n < 10 ^ 10)
    to e =
        let parsed : parse_digits 0 q ≡ some n = ground arith in
        let some_bytes : 0 < byte_len q = ground arith in
        let few_bytes : byte_len q ≤ 10 = ground arith in
        let (d, v) = parse_digits_only 0 q n parsed in
        let width = byte_len-AllDigits q d in
        let short : length q ≤ 10 = omega arith in
        (
          d,
          omega arith,
          short,
          v,
          omega (arith, value_from-lt 0 q d, pow_ten_bound (length q) short),
        )

    from :
        AllDigits q × (0 < length q) × (length q ≤ 10) × (n ≡ value_from 0 q) × (n < 10 ^ 10)
        → parse_block_height raw ≡ some n
    from (d, pos, short, v, lt) =
        ground (arith, byte_len-AllDigits q d, parse_digits-AllDigits 0 q d)
