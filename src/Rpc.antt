-- ===== src/Rpc.antt =====
-- The parts of btcd's verbose results (package btcjson) that internal/explorer reads, and the helpers
-- of its tx.go on them. Heights, sizes and times are not negative. `B` is a BTC amount, a double, and `new_amount` is `btcutil.NewAmount`, which
-- refuses what is no number.
use btcdwatch_com.Base.{ℕ, Bool, List, [], ◌∷◌, Option, none, some, if◌then◌else◌}
use btcdwatch_com.Base.Int.{ℤ, pos}
use btcdwatch_com.Base.Text.{Text, text_eq}

pub record Vout (B : Type 0) : Type 0 where
  pub value : B
  pub addresses : List Text
  pub address : Text
  pub class : Text

pub record PrevOut (B : Type 0) : Type 0 where
  pub addresses : List Text
  pub value : B

-- A result of `searchrawtransactions`. An input is its previous output, if the node gives it.
pub record SearchResult (B : Type 0) : Type 0 where
  pub txid : Text
  pub vin : List (Option (PrevOut B))
  pub vout : List (Vout B)
  pub block_hash : Text
  pub blocktime : ℕ
  pub time : ℕ
  pub confirmations : ℕ

-- An entry of `getrawmempool`, whose fee is an amount in BTC.
pub record RawEntry (B : Type 0) : Type 0 where
  pub fee : B
  pub vsize : ℕ
  pub size : ℕ
  pub time : ℕ

-- An input: the output that it spends, unless it is a coinbase's.
pub record Vin : Type 0 where
  pub txid : Text
  pub vout : ℕ
  pub sequence : ℕ
  pub coinbase : Bool

pub record TxRaw (B : Type 0) : Type 0 where
  pub txid : Text
  pub confirmations : ℕ
  pub vsize : ℕ
  pub size : ℕ
  pub vin : List Vin
  pub vout : List (Vout B)
  pub block_hash : Text

pub record Header : Type 0 where
  pub height : ℕ
  pub hash : Text
  pub time : ℕ

pub record BlockRaw : Type 0 where
  pub height : ℕ
  pub hash : Text
  pub time : ℕ
  pub confirmations : ℕ
  pub txs : List Text
  pub size : ℕ
  pub weight : ℕ
  pub next_hash : Text

abbrev pub sats_or_zero : Option ℤ → ℤ
sats_or_zero none = pos 0
sats_or_zero (some n) = n

unfoldable pub sats_from_btc : {B : Type 0} → (B → Option ℤ) → B → ℤ
sats_from_btc new_amount btc = sats_or_zero (new_amount btc)

abbrev pub singular : Text → List Text
singular a = if text_eq a [] then [] else a ∷ []

abbrev pub addresses_or : List Text → Text → List Text
addresses_or [] a = singular a
addresses_or (x ∷ xs) a = x ∷ xs

unfoldable pub vout_addrs : {B : Type 0} → Vout B → List Text
unfolding text_eq
vout_addrs v = addresses_or v.addresses v.address
