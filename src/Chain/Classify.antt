-- ===== src/Chain/Classify.antt =====
-- internal/chain/params.go: how a search text is classified.
use mathlib.Core.List.{reverse, reverse-reverse, reverse-cons}
use btcdwatch_com.Base.{
  ℕ, ◌≤◌, ◌≡◌, refl, sym, ◌∙◌, ap, [], ◌∷◌, ◌++◌, Option, none, some, Bool, true, false, ◌&&◌, ◌||◌,
  arith, leb, length, length-map,
}
use btcdwatch_com.Base.Text.{
  Text, byte_len, trim_space, trim_left, drop_commas, is_space, to_lower, lower_rune,
}
use btcdwatch_com.Chain.{
  is_digit, is_hex, all_hex, hex_decodes, parse_block_height, height_of, Query, classify_query,
}

all_hex-append : (p q : Text) → all_hex (p ++ q) ≡ (all_hex p && all_hex q)
unfolding all_hex
all_hex-append [] q = refl
all_hex-append (c ∷ p) q = ground (arith, all_hex-append p q)

all_hex-reverse : (q : Text) → all_hex (reverse q) ≡ all_hex q
unfolding all_hex
all_hex-reverse [] = refl
all_hex-reverse (c ∷ q) =
    ap all_hex (reverse-cons c q)
    ∙ all_hex-append (reverse q) (c ∷ [])
    ∙ ground (arith, all_hex-reverse q)

hex_range : (c : ℕ) → is_hex c ≡ true → (48 ≤ c) × (c ≤ 102)
hex_range c h = ground arith

is_space-low : (c : ℕ) → 48 ≤ c → c ≤ 102 → is_space c ≡ false
unfolding is_space
is_space-low c lo hi = ground arith

trim_left-hex : (q : Text) → all_hex q ≡ true → trim_left q ≡ q
unfolding all_hex trim_left
trim_left-hex [] h = refl
trim_left-hex (c ∷ q) h =
    let hex : is_hex c ≡ true = ground arith in
    rw (is_space-low c (hex_range c hex).0 (hex_range c hex).1)

trim_space-hex : (q : Text) → all_hex q ≡ true → trim_space q ≡ q
unfolding trim_space
trim_space-hex q h =
    rw (trim_left-hex q h, trim_left-hex (reverse q) (all_hex-reverse q ∙ h)) (reverse-reverse q)

drop_commas-hex : (q : Text) → all_hex q ≡ true → drop_commas q ≡ q
unfolding all_hex drop_commas
drop_commas-hex [] h = refl
drop_commas-hex (c ∷ q) h =
    let hex : is_hex c ≡ true = ground arith in ground (arith, hex_range c hex, drop_commas-hex q)

byte_len-hex : (q : Text) → all_hex q ≡ true → byte_len q ≡ length q
unfolding all_hex byte_len
byte_len-hex [] h = refl
byte_len-hex (c ∷ q) h =
    let hex : is_hex c ≡ true = ground arith in ground (arith, hex_range c hex, byte_len-hex q)

long_no_height : (q : Text) → byte_len q ≡ 64 → height_of q ≡ none
long_no_height q h = rw h

hex_no_height : (q : Text) → all_hex q ≡ true → length q ≡ 64 → parse_block_height q ≡ none
unfolding parse_block_height
hex_no_height q h n =
    ap height_of (ap drop_commas (trim_space-hex q h) ∙ drop_commas-hex q h)
    ∙ long_no_height q (byte_len-hex q h ∙ n)

abbrev pub is_lower_hex : ℕ → Bool
is_lower_hex c = is_digit c || (leb b'a' c && leb c b'f')

abbrev pub AllLowerHex : Text → Type 0
AllLowerHex [] = Unit {0}
AllLowerHex (c ∷ cs) = (is_lower_hex c ≡ true) × AllLowerHex cs

lower_rune-hex : (c : ℕ) → is_hex c ≡ true → is_lower_hex (lower_rune c) ≡ true
unfolding lower_rune
lower_rune-hex c h = ground arith

to_lower-hex : (q : Text) → all_hex q ≡ true → AllLowerHex (to_lower q)
unfolding all_hex to_lower
to_lower-hex [] h = tt
to_lower-hex (c ∷ q) h = (lower_rune-hex c (ground arith), to_lower-hex q (ground arith))

length-to_lower : (q : Text) → length (to_lower q) ≡ length q
unfolding to_lower
length-to_lower q = length-map q lower_rune

module _ {Addr : Type 0} (decode : Text → Option Addr) (is_for_net : Addr → Bool) where
  -- Whatever the address decoder says, 64 hexadecimal digits are an id, in lower case, even if all
  -- of them are decimal digits.
  pub classify_query-hex :
      (q : Text)
      → all_hex q ≡ true
      → length q ≡ 64
      → classify_query decode is_for_net q ≡ Query.hex (to_lower q)
  unfolding classify_query hex_decodes
  classify_query-hex q h n = rw (trim_space-hex q h, hex_no_height q h n, byte_len-hex q h, n, h)

  -- The id of a text that is classified as one has 64 digits, all hexadecimal and in lower case.
  pub hex-IsNormal :
      (raw id : Text)
      → classify_query decode is_for_net raw ≡ Query.hex id
      → (length id ≡ 64) × AllLowerHex id × (id ≡ to_lower (trim_space raw))
  unfolding classify_query hex_decodes
  hex-IsNormal raw id e =
      let wide : byte_len (trim_space raw) ≡ 64 = ground arith in
      let digits : all_hex (trim_space raw) ≡ true = ground arith in
      let same : id ≡ to_lower (trim_space raw) = ground arith in
      rw same (
        length-to_lower (trim_space raw) ∙ sym (byte_len-hex (trim_space raw) digits) ∙ wide,
        to_lower-hex (trim_space raw) digits,
        refl,
      )

  -- An address that is passed on decodes from the trimmed text, which is no height, and belongs to
  -- the network.
  pub address_for_net :
      (raw : Text) (a : Addr)
      → classify_query decode is_for_net raw ≡ Query.address a
      → (decode (trim_space raw) ≡ some a)
        × (is_for_net a ≡ true)
        × (parse_block_height (trim_space raw) ≡ none)
  unfolding classify_query
  address_for_net raw a e = ground arith
