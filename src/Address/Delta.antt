-- ===== src/Address/Delta.antt =====
-- internal/explorer/address.go: what one transaction means for an address.
use btcdwatch_com.Base.{ℕ, List, [], ◌∷◌, Option, none, some, Bool, false, not, if◌then◌else◌, ◌==◌}
use btcdwatch_com.Base.Int.{ℤ, pos, ◌+ℤ◌, ◌-ℤ◌, ltb_ℤ}
use btcdwatch_com.Base.Text.{Text, text_eq, codes_eq}
use btcdwatch_com.Rpc.{PrevOut, SearchResult, Vout, sats_from_btc, vout_addrs}

pub data Direction : Type 0 where
  received sent self : Direction

pub data Status : Type 0 where
  pending confirmed : Status

pub record AddressActivity : Type 0 where
  pub txid : Text
  pub direction : Direction
  pub amount_sats : ℤ
  pub status : Status
  pub confirmations : ℕ
  pub time : ℕ

-- `n == 0`.
abbrev pub is_zero : ℤ → Bool
is_zero (pos n) = n == 0
is_zero _ = false

-- `ok && net <= fee`.
abbrev pub is_covered : ℤ → Option ℤ → Bool
is_covered net none = false
is_covered net (some fee) = not (ltb_ℤ fee net)

unfoldable pub effect : ℤ → ℤ → Option ℤ → Direction × ℤ
effect recv spent fee =
    if is_zero spent
    then (received, recv)
    else if is_zero recv
    then (sent, spent)
    else if is_covered (spent -ℤ recv) fee
    then (self, spent -ℤ recv)
    else (sent, spent -ℤ recv)

module _ {B : Type 0} (new_amount : B → Option ℤ) where
  -- One credit of the value for each time the address is listed.
  unfoldable pub credit : Text → ℤ → ℤ → List Text → ℤ
  unfolding text_eq
  credit addr sats sum [] = sum
  credit addr sats sum (a ∷ addrs) =
      credit addr sats (if text_eq a addr then sum +ℤ sats else sum) addrs

  unfoldable pub received_from : Text → ℤ → List (Vout B) → ℤ
  unfolding credit
  received_from addr recv [] = recv
  received_from addr recv (v ∷ vs) =
      received_from addr (credit addr (sats_from_btc new_amount v.value) recv (vout_addrs v)) vs

  abbrev pub spent_from : Text → ℤ → List (Option (PrevOut B)) → ℤ
  spent_from addr spent [] = spent
  spent_from addr spent (none ∷ ins) = spent_from addr spent ins
  spent_from addr spent (some p ∷ ins) =
      spent_from addr (credit addr (sats_from_btc new_amount p.value) spent p.addresses) ins

  unfoldable pub address_delta : Text → SearchResult B → ℤ × ℤ
  unfolding received_from
  address_delta addr tx = (received_from addr (pos 0) tx.vout, spent_from addr (pos 0) tx.vin)

  unfoldable pub sum_ins : ℤ → List (Option (PrevOut B)) → Option ℤ
  sum_ins sum [] = some sum
  sum_ins sum (none ∷ ins) = none
  sum_ins sum (some p ∷ ins) = sum_ins (sum +ℤ sats_from_btc new_amount p.value) ins

  unfoldable pub sum_outs : ℤ → List (Vout B) → ℤ
  sum_outs sum [] = sum
  sum_outs sum (v ∷ vs) = sum_outs (sum +ℤ sats_from_btc new_amount v.value) vs

  abbrev pub minus_outs : List (Vout B) → Option ℤ → Option ℤ
  minus_outs vs none = none
  minus_outs vs (some ins) = some (ins -ℤ sum_outs (pos 0) vs)

  unfoldable pub tx_fee : SearchResult B → Option ℤ
  unfolding sum_ins sum_outs
  tx_fee tx = minus_outs tx.vout (sum_ins (pos 0) tx.vin)

  unfoldable pub activity_for : Text → SearchResult B → AddressActivity
  unfolding address_delta effect tx_fee
  activity_for addr tx =
      let (recv, spent) = address_delta addr tx in
      let (direction, amount) = effect recv spent (tx_fee tx) in
      let is_mined = not (text_eq tx.block_hash []) in
      record {
        txid = tx.txid;
        direction = direction;
        amount_sats = amount;
        status = if is_mined then confirmed else pending;
        confirmations = tx.confirmations;
        time = if is_mined then tx.blocktime else tx.time;
      }
