-- ===== src/Chain.antt =====
-- internal/chain/params.go and internal/chain/scripttype.go. Heights are not negative. `decode` and
-- `is_for_net` stand for btcd's address package, and a division by zero, which panics, is `none`.

pub mod Halving
pub mod Height
pub mod Classify
use btcdwatch_com.Base.{
  ℕ, zero, suc, ◌+◌, ◌-◌, ◌*◌, ◌/◌, ◌%◌, ◌^◌, List, [], ◌∷◌, Option, none, some, Bool, true, false,
  ◌&&◌, ◌||◌, if◌then◌else◌, ltb, leb, ◌==◌, length, String, Eq, ==_iff, ap, sym, ◌∙◌, ◌≡◌, refl,
  ◌↔◌,
}
use btcdwatch_com.Base.Text.{Text, codes, text_eq, byte_len, trim_space, drop_commas, to_lower}

pub data Network : Type 0 where
  main_net test_net3 regression_net sig_net sim_net : Network

abbrev pub network_named : Text → Option Network
network_named n =
    if text_eq n (codes "mainnet")
    then some Network.main_net
    else if text_eq n (codes "testnet") || text_eq n (codes "testnet3")
    then some Network.test_net3
    else if text_eq n (codes "regtest")
    then some Network.regression_net
    else if text_eq n (codes "signet")
    then some Network.sig_net
    else if text_eq n (codes "simnet")
    then some Network.sim_net
    else none

unfoldable pub params_for_network : Text → Option Network
unfolding text_eq trim_space to_lower
params_for_network name = network_named (to_lower (trim_space name))

-- The distance to the next multiple of the interval; `height % 0` panics.
unfoldable pub blocks_until_halving : ℕ → ℕ → Option ℕ
blocks_until_halving height interval =
    if interval == 0 then none else some (interval - height % interval)

abbrev pub initial_subsidy : ℕ
initial_subsidy = 5000000000

unfoldable pub block_subsidy : ℕ → ℕ → ℕ
block_subsidy height interval =
    if interval == 0
    then initial_subsidy
    else if leb 64 (height / interval)
    then 0
    else initial_subsidy / 2 ^ (height / interval)

abbrev pub is_digit : ℕ → Bool
is_digit c = leb b'0' c && leb c b'9'

-- The digits of a decimal number behind those read so far.
unfoldable pub parse_digits : ℕ → Text → Option ℕ
parse_digits acc [] = some acc
parse_digits acc (c ∷ cs) =
    let rest = parse_digits (acc * 10 + (c - b'0')) cs in if is_digit c then rest else none

abbrev pub in_uint64 : Option ℕ → Option ℕ
in_uint64 none = none
in_uint64 (some n) = if ltb n (2 ^ 64) then some n else none

-- `strconv.ParseUint(q, 10, 64)` on a text that is not empty.
unfoldable pub parse_uint : Text → Option ℕ
unfolding parse_digits
parse_uint q = in_uint64 (parse_digits 0 q)

abbrev pub height_of : Text → Option ℕ
height_of q = if byte_len q == 0 || ltb 10 (byte_len q) then none else parse_uint q

unfoldable pub parse_block_height : Text → Option ℕ
unfolding trim_space drop_commas
parse_block_height raw = height_of (drop_commas (trim_space raw))

abbrev pub is_hex : ℕ → Bool
is_hex c = is_digit c || (leb b'a' c && leb c b'f') || (leb b'A' c && leb c b'F')

unfoldable pub all_hex : Text → Bool
all_hex [] = true
all_hex (c ∷ cs) = is_hex c && all_hex cs

-- Whether `hex.DecodeString` accepts the text.
unfoldable pub hex_decodes : Text → Bool
unfolding all_hex byte_len
hex_decodes q = byte_len q % 2 == 0 && all_hex q

pub data Query (Addr : Type 0) : Type 0 where
  hex : Text → Query Addr
  block_height : ℕ → Query Addr
  address : Addr → Query Addr
  invalid : Query Addr

module _ {Addr : Type 0} (decode : Text → Option Addr) (is_for_net : Addr → Bool) where
  abbrev pub classify_address : Option Addr → Query Addr
  classify_address none = Query.invalid
  classify_address (some a) = if is_for_net a then Query.address a else Query.invalid

  abbrev pub classify_text : Text → Query Addr
  classify_text q =
      if byte_len q == 64 && hex_decodes q
      then Query.hex (to_lower q)
      else classify_address (decode q)

  abbrev pub classify_height : Text → Option ℕ → Query Addr
  classify_height q (some height) = Query.block_height height
  classify_height q none = classify_text q

  unfoldable pub classify_query : Text → Query Addr
  classify_query raw = classify_height (trim_space raw) (parse_block_height (trim_space raw))

-- The concrete types of btcd's decoded addresses.
pub data AddressKind : Type 0 where
  taproot witness_script_hash witness_pub_key_hash script_hash pub_key_hash other : AddressKind

-- A script-type code; `unknown` is the empty string, which hides the type chips.
pub data ScriptType : Type 0 where
  p2tr p2wsh p2wpkh p2sh p2pkh unknown : ScriptType

-- Codes are compared as texts; here by their place.
abbrev pub rank : ScriptType → ℕ
rank p2tr = 0
rank p2wsh = 1
rank p2wpkh = 2
rank p2sh = 3
rank p2pkh = 4
rank unknown = 5

abbrev of_rank : ℕ → ScriptType
of_rank n =
    if n == 0
    then p2tr
    else if n == 1
    then p2wsh
    else if n == 2
    then p2wpkh
    else if n == 3
    then p2sh
    else if n == 4
    then p2pkh
    else unknown

of_rank-rank : (a : ScriptType) → of_rank (rank a) ≡ a
of_rank-rank p2tr = refl
of_rank-rank p2wsh = refl
of_rank-rank p2wpkh = refl
of_rank-rank p2sh = refl
of_rank-rank p2pkh = refl
of_rank-rank unknown = refl

pub rank_iff : (a b : ScriptType) → ((rank a == rank b) ≡ true) ↔ (a ≡ b)
rank_iff a b = (
  λ h. sym (of_rank-rank a) ∙ ap of_rank ((==_iff (rank a) (rank b)).0 h) ∙ of_rank-rank b,
  λ h. (==_iff (rank a) (rank b)).1 (ap rank h),
)

instance abbrev pub script_type_eq : Eq ScriptType
script_type_eq = record { beq = λ a b. rank a == rank b; beq_iff = rank_iff }

abbrev pub is_unknown : ScriptType → Bool
is_unknown a = rank a == 5

unfoldable pub script_type_of : AddressKind → ScriptType
script_type_of AddressKind.taproot = ScriptType.p2tr
script_type_of AddressKind.witness_script_hash = ScriptType.p2wsh
script_type_of AddressKind.witness_pub_key_hash = ScriptType.p2wpkh
script_type_of AddressKind.script_hash = ScriptType.p2sh
script_type_of AddressKind.pub_key_hash = ScriptType.p2pkh
script_type_of AddressKind.other = ScriptType.unknown

unfoldable pub script_type_from_rpc : Text → ScriptType
unfolding text_eq
script_type_from_rpc class =
    if text_eq class (codes "pubkeyhash")
    then ScriptType.p2pkh
    else if text_eq class (codes "scripthash")
    then ScriptType.p2sh
    else if text_eq class (codes "witness_v0_keyhash")
    then ScriptType.p2wpkh
    else if text_eq class (codes "witness_v0_scripthash")
    then ScriptType.p2wsh
    else if text_eq class (codes "witness_v1_taproot")
    then ScriptType.p2tr
    else ScriptType.unknown
