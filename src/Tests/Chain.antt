-- ===== src/Tests/Chain.antt =====
-- The subsidy and the search texts at mainnet's interval and a few texts.
use btcdwatch_com.Base.{
  ℕ, ◌+◌, ◌/◌, ◌^◌, ◌≤◌, ◌<◌, ◌≡◌, ◌↔◌, refl, Option, none, some, true, arith, length,
  if◌then◌else◌, ◌==◌,
}
use btcdwatch_com.Base.Text.{Text, codes, byte_len, to_lower, trim_space, is_space, drop_commas}
use btcdwatch_com.Chain.{
  blocks_until_halving, block_subsidy, parse_block_height, Query, classify_query, all_hex,
  hex_decodes, parse_uint, parse_digits,
}
use btcdwatch_com.Chain.Halving.{halving_at_countdown}
use btcdwatch_com.Chain.Height.{AllDigits, bare, value_from, parse_block_height_iff}

halving_at_countdown_example :
    (0 < 100000)
    × (100000 ≤ 210000)
    × (block_subsidy (740000 + 99999) 210000 ≡ block_subsidy 740000 210000)
    × (block_subsidy (740000 + 100000) 210000 ≡ block_subsidy 740000 210000 / 2)
halving_at_countdown_example =
    halving_at_countdown 740000 210000 100000 99999 (unfold blocks_until_halving in refl)
      (omega arith)

parse_block_height_iff_example : (parse_block_height (codes " 840,000 ") ≡ some 840000) ↔ (
    AllDigits (bare (codes " 840,000 "))
    × (0 < length (bare (codes " 840,000 ")))
    × (length (bare (codes " 840,000 ")) ≤ 10)
    × (840000 ≡ value_from 0 (bare (codes " 840,000 ")))
    × (840000 < 10 ^ 10))
parse_block_height_iff_example = parse_block_height_iff (codes " 840,000 ") 840000

-- A decoder that takes the texts of eight letters, all of them for the network.
abbrev decode : Text → Option ℕ
decode q = if length q == 8 then some (byte_len q) else none

abbrev block_id : Text
block_id = codes "00000000000000000000000000000000000000000000000000000000000000Af"

block_id_hex : all_hex block_id ≡ true
unfolding all_hex
block_id_hex = refl

block_id_found : classify_query decode (λ a. true) block_id ≡ Query.hex (to_lower block_id)
unfolding classify_query hex_decodes all_hex to_lower trim_space is_space byte_len
    parse_block_height
block_id_found = refl

address_found : classify_query decode (λ a. true) (codes " bc1qtest ") ≡ Query.address 8
unfolding classify_query hex_decodes all_hex to_lower trim_space is_space byte_len
    parse_block_height parse_uint parse_digits drop_commas
address_found = refl
