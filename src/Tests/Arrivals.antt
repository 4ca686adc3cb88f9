-- ===== src/Tests/Arrivals.antt =====
-- The feed at a rebroadcast, and an address at a payment with change.
use btcdwatch_com.Base.{◌≡◌, true, List, refl, take, drop, leb, ℕ, ◌*◌, [], ◌∷◌, Option, some}
use btcdwatch_com.Base.Int.{ℤ, pos, negsuc, ◌+ℤ◌, ◌-ℤ◌}
use btcdwatch_com.Base.Action.{Result, ok}
use btcdwatch_com.Node.{Error}
use btcdwatch_com.Tests.Site.{node_codes}
use btcdwatch_com.Base.Text.{codes, codes_eq}
use btcdwatch_com.Arrivals.Buffer.{IsBuffer, buffer_after, buffer_after-IsBuffer}
use btcdwatch_com.Rpc.{SearchResult, sats_from_btc, vout_addrs}
use btcdwatch_com.Address.{self, activity_for, scan, rounds, no_totals}
use btcdwatch_com.Address.Scan.{served, IsScan, scan-exact}

buffer_after-IsBuffer_example : IsBuffer 9000000000 (
    buffer_after (
      (codes "a", pos 5, 9000000000) ∷ (codes "b", pos 7, 8000000000) ∷ (codes "a", pos 5, 1) ∷ []))
buffer_after-IsBuffer_example =
    buffer_after-IsBuffer ((codes "b", pos 7, 8000000000) ∷ (codes "a", pos 5, 1) ∷ []) (codes "a")
      (pos 5) 9000000000

abbrev amount : ℕ → Option ℤ
amount n = some (pos (n * 100000))

abbrev payment : SearchResult ℕ
payment = record {
  txid = codes "t";
  vin = some (record { addresses = codes "alice" ∷ []; value = 9 }) ∷ [];
  vout =
      record {
        value = 3;
        addresses = [];
        address = codes "bob";
        class = codes "witness_v0_keyhash";
      }
      ∷ record {
        value = 5;
        addresses = [];
        address = codes "alice";
        class = codes "witness_v0_keyhash";
      }
      ∷ [];
  block_hash = [];
  blocktime = 0;
  time = 7;
  confirmations = 0;
}

abbrev serve : ℕ → ℕ → Result Error (List (SearchResult ℕ))
serve i n = served node_codes (take n (drop i (payment ∷ [])))

scan-exact_example :
    IsScan amount node_codes serve
      (codes "alice")
      no_totals
      (take 2000 (payment ∷ []))
      (leb 2000 1)
      (scan amount node_codes serve (codes "alice") 2000 5 (rounds 2000) 0 no_totals)
scan-exact_example =
    scan-exact amount node_codes serve (codes "alice") 2000 5 (payment ∷ []) (λ i n. refl)

-- Two owners pay together, and the first receives more than it spent.
abbrev joint : SearchResult ℕ
joint = record payment {
  vin =
      some (record { addresses = codes "alice" ∷ []; value = 1 })
      ∷ some (record { addresses = codes "bob" ∷ []; value = 9 })
      ∷ [];
}

joint_negative :
    ((activity_for amount (codes "alice") joint).direction ≡ self)
    × ((activity_for amount (codes "alice") joint).amount_sats ≡ negsuc 399999)
unfolding activity_for ◌+ℤ◌ sats_from_btc vout_addrs ◌-ℤ◌
joint_negative = (refl, refl)

-- The history is at the cap, and all of it is in the totals.
cap_approximate :
    scan amount node_codes serve (codes "alice") 1 5 (rounds 1) 0 no_totals
    ≡ ok (record {
      received_sats = pos 500000;
      sent_sats = pos 900000;
      tx_count = 1;
      approximate = true;
      fetched_at = 5;
    })
unfolding scan ◌+ℤ◌ sats_from_btc vout_addrs
cap_approximate = refl
