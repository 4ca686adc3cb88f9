-- ===== src/Tests/Tx.antt =====
-- A transaction with a payment and its change.
use btcdwatch_com.Base.{ℕ, ◌*◌, List, [], ◌∷◌, Option, some}
use btcdwatch_com.Base.Int.{ℤ, pos}
use btcdwatch_com.Base.Text.{codes, codes_eq}
use btcdwatch_com.Rpc.{Vout}

-- Amounts in mBTC.
abbrev amount : ℕ → Option ℤ
amount n = some (pos (n * 100000))

abbrev outputs : List (Vout ℕ)
outputs =
    record { value = 3; addresses = []; address = codes "bob"; class = codes "witness_v0_keyhash" }
    ∷ record {
      value = 5;
      addresses = [];
      address = codes "alice";
      class = codes "witness_v0_keyhash";
    }
    ∷ []
