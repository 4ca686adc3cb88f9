-- ===== src/Tx.antt =====
-- internal/explorer/tx.go: what is derived from a transaction's outputs, inputs and place in the
-- mempool. Satoshi amounts are integers; the sums of a block chain's amounts do not reach 2^63.

pub mod Outputs
pub mod Rows
pub mod Pending
use btcdwatch_com.Base.{
  ℕ, suc, ◌+◌, ◌*◌, ◌/◌, List, [], ◌∷◌, ◌++◌, Option, none, some, Bool, true, false, not, ◌&&◌,
  ◌||◌, if◌then◌else◌, ltb, ◌==◌, Eq,
}
use btcdwatch_com.Base.Int.{ℤ, pos, ◌+ℤ◌, ◌-ℤ◌}
use btcdwatch_com.Base.Float.{Float}
use btcdwatch_com.Base.Map.{elem, lookup, insert}
use btcdwatch_com.Base.Text.{Text, codes, text_eq}
use btcdwatch_com.Chain.{ScriptType, script_type_from_rpc}
use btcdwatch_com.Rpc.{Vout, sats_from_btc, vout_addrs}
use btcdwatch_com.Snapshot.{Snapshot, MempoolEntry}
use btcdwatch_com.Queue.{num, vbytes_per_block}

abbrev pub non_standard_label : Text
non_standard_label = codes "(non-standard output)"

unfoldable pub first_addr : List Text → Text
first_addr [] = non_standard_label
first_addr (a ∷ as') = a

pub record TxIo : Type 0 where
  pub address : Text
  pub amount_sats : ℤ
  pub change : Bool

-- The variables of `deriveOutputs`: `to_addrs` are also the keys of `seen`.
pub record Derived : Type 0 where
  pub sum_out : ℤ
  pub amount : ℤ
  pub to_addrs : List Text
  pub rows : List TxIo
  pub out_codes : List ScriptType

abbrev pub no_outputs : Derived
no_outputs = record { sum_out = pos 0; amount = pos 0; to_addrs = []; rows = []; out_codes = [] }

abbrev pub or_label : List Text → List Text
or_label [] = non_standard_label ∷ []
or_label (a ∷ xs) = a ∷ xs

abbrev pub is_empty : List Text → Bool
is_empty [] = true
is_empty (a ∷ addrs) = false

abbrev pub unflag : List TxIo → List TxIo
unflag [] = []
unflag (r ∷ rows) = record r { change = false } ∷ unflag rows

module _ ⦃e : Eq Text⦄ where
  unfoldable pub all_in : List Text → List Text → Bool
  all_in [] set = true
  all_in (a ∷ addrs) set = elem a set && all_in addrs set

  unfoldable pub is_change : List Text → Bool → List Text → Bool
  unfolding all_in
  is_change from coinbase addrs = if coinbase || is_empty addrs then false else all_in addrs from

  unfoldable pub add_new : List Text → List Text → List Text
  add_new [] to = to
  add_new (a ∷ addrs) to = add_new addrs (if elem a to then to else to ++ a ∷ [])

  -- `addTo`.
  abbrev pub add_to : List Text → List Text → List Text
  add_to addrs to = add_new (or_label addrs) to

module _ {B : Type 0} ⦃e : Eq Text⦄ where
  -- What a round of the loop books for an output of `sats`, by whether it is change.
  unfoldable pub book : Vout B → ℤ → Derived → Bool → Derived
  book v sats d true = record d {
    sum_out = d.sum_out +ℤ sats;
    rows =
        d.rows
        ++ record { address = first_addr (vout_addrs v); amount_sats = sats; change = true } ∷ [];
  }
  book v sats d false = record {
    sum_out = d.sum_out +ℤ sats;
    amount = d.amount +ℤ sats;
    to_addrs = add_to (vout_addrs v) d.to_addrs;
    rows =
        d.rows
        ++ record { address = first_addr (vout_addrs v); amount_sats = sats; change = false } ∷ [];
    out_codes = d.out_codes ++ script_type_from_rpc v.class ∷ [];
  }

  -- The second loop, of a self-send, over the outputs and their rows.
  unfoldable pub count_all : Derived → List (Vout B) → Derived
  count_all d [] = d
  count_all d (v ∷ vs) =
      count_all
        (record d {
          to_addrs = add_to (vout_addrs v) d.to_addrs;
          out_codes = d.out_codes ++ script_type_from_rpc v.class ∷ [];
        })
        vs

  abbrev pub self_send : Derived → List (Vout B) → Derived
  self_send d vs = count_all (record d { amount = d.sum_out; rows = unflag d.rows }) vs

module _ {B : Type 0} (new_amount : B → Option ℤ) ⦃e : Eq Text⦄ where
  -- One round of the loop over the outputs.
  unfoldable pub derive_output : List Text → Bool → Derived → Vout B → Derived
  unfolding is_change
  derive_output from coinbase d v =
      book v (sats_from_btc new_amount v.value) d (is_change from coinbase (vout_addrs v))

  unfoldable pub derive_loop : List Text → Bool → Derived → List (Vout B) → Derived
  derive_loop from coinbase d [] = d
  derive_loop from coinbase d (v ∷ vs) =
      derive_loop from coinbase (derive_output from coinbase d v) vs

  unfoldable pub derive_outputs : List Text → Bool → List (Vout B) → Derived
  unfolding derive_loop
  derive_outputs from coinbase vs =
      let d = derive_loop from coinbase no_outputs vs in
      if is_empty d.to_addrs then self_send d vs else d

-- The fee of a transaction that is no coinbase.
abbrev pub fee_of : Bool → ℤ → Derived → Option ℤ
fee_of coinbase sum_in d = if coinbase then none else some (sum_in -ℤ d.sum_out)

-- `signalsRBF` over the inputs' sequence numbers.
unfoldable pub any_replaceable : List ℕ → Bool
any_replaceable [] = false
any_replaceable (s ∷ seqs) = if ltb s 0xfffffffe then true else any_replaceable seqs

unfoldable pub signals_rbf : List ℕ → Bool → Bool
unfolding any_replaceable
signals_rbf seqs coinbase = if coinbase then false else any_replaceable seqs

-- The variables of `dominantCode`.
pub record Tally (C : Type 0) : Type 0 where
  pub counts : List (C × ℕ)
  pub first_at : List (C × ℕ)
  pub best : C
  pub best_count : ℕ

-- A key that is not there reads as 0.
abbrev pub or_zero : Option ℕ → ℕ
or_zero none = 0
or_zero (some n) = n

module _ {C : Type 0} ⦃e : Eq C⦄ where
  abbrev pub first_or : List (C × ℕ) → C → ℕ → Option ℕ → List (C × ℕ)
  first_or m c i none = insert c i m
  first_or m c i (some j) = m

  -- A round for the code `c` at index `i`, if it is not the empty one.
  unfoldable pub tally : Tally C → ℕ → C → Tally C
  tally s i c =
      let first_at = first_or s.first_at c i (lookup c s.first_at) in
      let counts = insert c (or_zero (lookup c s.counts) + 1) s.counts in
      let n = or_zero (lookup c s.counts) + 1 in
      let better =
        ltb s.best_count n
        || (n == s.best_count
            && ltb (or_zero (lookup c first_at)) (or_zero (lookup s.best first_at))) in
      record {
        counts = counts;
        first_at = first_at;
        best = if better then c else s.best;
        best_count = if better then n else s.best_count;
      }

  unfoldable pub tally_all : C → Tally C → ℕ → List C → Tally C
  tally_all blank s i [] = s
  tally_all blank s i (c ∷ cs) =
      tally_all blank (if e.beq c blank then s else tally s i c) (i + 1) cs

  unfoldable pub dominant_code : C → List C → C
  unfolding tally_all
  dominant_code blank cs =
      (tally_all blank (record { counts = []; first_at = []; best = blank; best_count = 0 }) 0
        cs).best

pub record TxPending (f : Float) : Type 0 where
  pub txs_ahead : ℕ
  pub vbytes_ahead : ℕ
  pub eta_blocks : ℕ
  pub eta_seconds : ℕ
  pub queue_vbytes_fraction : f.F

-- The sums of the loop of `derivePending`.
pub record Ahead : Type 0 where
  pub txs : ℕ
  pub vbytes : ℕ
  pub total : ℕ

-- A round of the loop for a transaction of `vsize`: whether it is the one that is asked for, and
-- whether it pays more.
unfoldable pub pass : Ahead → ℕ → Bool → Bool → Ahead
pass a vsize true more = record a { total = a.total + vsize }
pass a vsize false true = record {
  txs = a.txs + 1;
  vbytes = a.vbytes + vsize;
  total = a.total + vsize;
}
pass a vsize false false = record a { total = a.total + vsize }

module _ (f : Float) ⦃e : Eq Text⦄ where
  unfoldable pub count_ahead : Text → f.F → Ahead → Snapshot f → Ahead
  count_ahead txid my_rate a [] = a
  count_ahead txid my_rate a ((k, x) ∷ s) =
      count_ahead txid my_rate (pass a x.vsize (e.beq k txid) (f.lt my_rate x.fee_rate)) s

  -- `derivePending` from a snapshot, the rate of the transaction and the interval in seconds.
  unfoldable pub pending_of : Text → f.F → ℕ → Snapshot f → TxPending f
  unfolding count_ahead
  pending_of txid my_rate interval snapshot =
      let a = count_ahead txid my_rate (record { txs = 0; vbytes = 0; total = 0 }) snapshot in
      let eta = a.vbytes / vbytes_per_block + 1 in
      record {
        txs_ahead = a.txs;
        vbytes_ahead = a.vbytes;
        eta_blocks = eta;
        eta_seconds = eta * interval;
        queue_vbytes_fraction =
            if ltb 0 a.total then f.div (num f a.vbytes) (num f a.total) else num f 0;
      }
