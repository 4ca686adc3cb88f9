-- ===== src/Address/Net.antt =====
-- internal/explorer/address.go: the amount and the direction of an activity.
use btcdwatch_com.Base.{◌≡◌, Option, none, some, ◌⊎◌}
use btcdwatch_com.Base.Int.{ℤ, pos, ◌-ℤ◌, ◌≤ℤ◌}
use btcdwatch_com.Base.Text.{Text}
use btcdwatch_com.Address.{Direction, received, sent, self}

-- A net spending that the fee of the transaction explains, where the fee is known.
abbrev pub IsCovered : ℤ → Option ℤ → Type 0
IsCovered net none = ⊥
IsCovered net (some fee) = net ≤ℤ fee

-- Which direction and amount belong to what an address received and spent in a transaction.
abbrev pub IsNet : ℤ → ℤ → Option ℤ → Direction → ℤ → Type 0
IsNet recv spent fee received amount = (spent ≡ pos 0) × (amount ≡ recv -ℤ spent)
IsNet recv spent fee sent amount =
    (¬ (spent ≡ pos 0))
    × ((recv ≡ pos 0) ⊎ (¬ IsCovered (spent -ℤ recv) fee))
    × (amount ≡ spent -ℤ recv)
IsNet recv spent fee self amount =
    (¬ (spent ≡ pos 0))
    × (¬ (recv ≡ pos 0))
    × IsCovered (spent -ℤ recv) fee
    × (amount ≡ spent -ℤ recv)
