-- ===== src/Address.antt =====
-- internal/explorer/address.go: what an address received and sent, and its pages. A double of BTC is
-- a `B`, and `search` is the node's `searchrawtransactions` for the address by offset and count.
pub mod Delta
pub mod Net
pub mod Scan
use btcdwatch_com.Base.{
  ℕ, zero, suc, ◌+◌, ◌-◌, ◌*◌, ◌/◌, min, List, [], ◌∷◌, map, Option, none, some, Bool, true, false,
  not, if◌then◌else◌, ltb, ◌==◌, length, Eq,
}
use btcdwatch_com.Base.Int.{ℤ, pos, ◌+ℤ◌, ◌-ℤ◌, ltb_ℤ}
use btcdwatch_com.Base.Text.{Text, text_eq, codes_eq}
use btcdwatch_com.Cache.{LruCache, get, put}
use btcdwatch_com.Base.Action.{Action, Result, ok, err, ◌>>=◌, ◌>>◌, pure, lift}
use btcdwatch_com.Base.Float.{Float}
use btcdwatch_com.Chain.{ScriptType}
use btcdwatch_com.Node.{Error, Codes, is_no_tx_info}
use btcdwatch_com.Rpc.{PrevOut, SearchResult, Vout, sats_from_btc, vout_addrs}
unfoldable pub use btcdwatch_com.Address.Delta.*

abbrev pub scan_chunk : ℕ
scan_chunk = 100

abbrev pub totals_ttl : ℕ
totals_ttl = 30000000000

pub record AddressTotals : Type 0 where
  pub received_sats : ℤ
  pub sent_sats : ℤ
  pub tx_count : ℕ
  pub approximate : Bool
  pub fetched_at : ℕ

-- A summary with its totals, which the source copies field by field.
pub record AddressSummary (f : Float) : Type 0 where
  pub address : Text
  pub type : ScriptType
  pub balance_sats : ℤ
  pub fiat_usd : Option f.F
  pub totals : AddressTotals
  pub activity : List AddressActivity
  pub offset : ℕ
  pub limit : ℕ
  pub has_more : Bool

abbrev pub no_totals : AddressTotals
no_totals = record {
  received_sats = pos 0;
  sent_sats = pos 0;
  tx_count = 0;
  approximate = false;
  fetched_at = 0;
}

abbrev pub rounds : ℕ → ℕ
rounds max_scan = (max_scan + scan_chunk - 1) / scan_chunk

-- A cached total that is not too old.
abbrev pub current : ℕ → Option AddressTotals → Option AddressTotals
current now none = none
current now (some t) = if ltb (now - t.fetched_at) totals_ttl then some t else none

abbrev pub has_more : AddressTotals → ℕ → ℕ → ℕ → Bool
has_more t offset limit shown =
    if t.approximate then shown == limit else ltb (offset + shown) t.tx_count

module _ {B : Type 0} (new_amount : B → Option ℤ) where
  module _ (codes : Codes) (search : ℕ → ℕ → Result Error (List (SearchResult B))) where
    -- An address with no transactions is answered with an error, and has an empty page.
    abbrev pub page_of : Result Error (List (SearchResult B)) → Result Error (List (SearchResult B))
    page_of (ok page) = ok page
    page_of (err x) = if is_no_tx_info codes x then ok [] else err x

    unfoldable pub search_page : ℕ → ℕ → Result Error (List (SearchResult B))
    unfolding is_no_tx_info
    search_page skip count = page_of (search skip count)

    unfoldable pub add_page : Text → AddressTotals → List (SearchResult B) → AddressTotals
    unfolding address_delta
    add_page addr t [] = t
    add_page addr t (tx ∷ page) =
        let (recv, spent) = address_delta new_amount addr tx in
        add_page addr
          (record t { received_sats = t.received_sats +ℤ recv; sent_sats = t.sent_sats +ℤ spent })
          page

    abbrev pub count_page : Text → AddressTotals → List (SearchResult B) → AddressTotals
    count_page addr t page = record (add_page addr t page) { tx_count = t.tx_count + length page }

    -- A round that asked for `count` results, before the rest of the loop.
    unfoldable pub on_page :
        Text
        → ℕ
        → ℕ
        → AddressTotals
        → (AddressTotals → Result Error AddressTotals)
        → Result Error (List (SearchResult B))
        → Result Error AddressTotals
    unfolding add_page
    on_page addr now count t loop (err x) = err x
    on_page addr now count t loop (ok page) =
        if ltb (length page) count
        then ok (record (count_page addr t page) { fetched_at = now })
        else loop (count_page addr t page)

    -- The loop over the pages, with the number of rounds that are left, one for each hundred that
    -- the cap begins: then `skip` is at the cap.
    unfoldable pub scan : Text → ℕ → ℕ → ℕ → ℕ → AddressTotals → Result Error AddressTotals
    unfolding search_page on_page
    scan addr max_scan now zero skip t = ok (record t { approximate = true; fetched_at = now })
    scan addr max_scan now (suc left) skip t =
        on_page addr now (min scan_chunk (max_scan - skip)) t
          (λ u. scan addr max_scan now left (skip + scan_chunk) u)
          (search_page skip (min scan_chunk (max_scan - skip)))

    abbrev pub keep_totals :
        LruCache Text AddressTotals
        → Text
        → Result Error AddressTotals
        → Result Error AddressTotals × LruCache Text AddressTotals
    keep_totals c addr (err x) = (err x, c)
    keep_totals c addr (ok t) = (ok t, put c addr t)

    -- From the cache, or else from a scan of the history, capped at `max_scan` transactions.
    unfoldable pub address_totals :
        Text → ℕ → ℕ → Action (LruCache Text AddressTotals) Error AddressTotals
    unfolding scan get put
    address_totals addr max_scan now c =
        let (d, cached) = get c addr in
        elim (current now cached) [
          | some t ↦ (ok t, d)
          | none ↦ keep_totals d addr (scan addr max_scan now (rounds max_scan) 0 no_totals)
        ]

    abbrev pub summary_of :
        (f : Float)
        → (ℤ → Option f.F)
        → ScriptType
        → Text
        → ℕ
        → ℕ
        → AddressTotals
        → List (SearchResult B)
        → AddressSummary f
    summary_of f fiat_of kind addr offset limit t page =
        let balance = t.received_sats -ℤ t.sent_sats in
        record {
          address = addr;
          type = kind;
          balance_sats = balance;
          totals = t;
          fiat_usd = fiat_of balance;
          activity = map (activity_for new_amount addr) page;
          offset = offset;
          limit = limit;
          has_more = has_more t offset limit (length page);
        }

    -- `Address`: the summary of one page. `kind` is the script type of the address, and `fiat_of` the
    -- value of an amount at the present price.
    unfoldable pub summary :
        (f : Float)
        → (ℤ → Option f.F)
        → ScriptType
        → Text
        → ℕ
        → ℕ
        → ℕ
        → ℕ
        → Action (LruCache Text AddressTotals) Error (AddressSummary f)
    unfolding address_totals activity_for search_page
    summary f fiat_of kind addr max_scan now offset limit = do
      t ← address_totals addr max_scan now
      page ← lift (search_page offset limit)
      pure (summary_of f fiat_of kind addr offset limit t page)
