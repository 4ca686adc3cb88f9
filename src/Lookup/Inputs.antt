-- ===== src/Lookup/Inputs.antt =====
-- internal/explorer/tx.go: `resolvePrevouts`, the outputs that the inputs of a transaction spend. The parents
-- that a call has fetched are kept for the call, and what it resolves in the service's cache.
use btcdwatch_com.Base.{ℕ, List, [], ◌∷◌, get_elem?, Option, none, some, nat_eq, pair_eq}
use btcdwatch_com.Base.Action.{Action, Result, ok, err, ◌>>=◌, pure}
use btcdwatch_com.Base.Float.{Float}
use btcdwatch_com.Base.Map.{lookup, insert}
use btcdwatch_com.Base.Text.{Text, codes_eq}
use btcdwatch_com.Cache.{LruCache, get, put}
use btcdwatch_com.Chain.{script_type_from_rpc, script_type_eq}
use btcdwatch_com.Node.{Error, other}
use btcdwatch_com.Rpc.{TxRaw, Vin, Vout, sats_from_btc, vout_addrs}
use btcdwatch_com.Service.{Env, Prevout}

module _ {f : Float} {B H : Type 0} (env : Env f B H) where
  abbrev pub PrevoutCache : Type 0
  PrevoutCache = LruCache (Text × ℕ) Prevout

  abbrev pub Parents : Type 0
  Parents = List (Text × TxRaw B)

  -- The transaction of an id, from the node.
  abbrev pub fetch_hash : Option H → Result Error (TxRaw B)
  fetch_hash none = err other
  fetch_hash (some hash) = env.backend.raw_transaction hash

  unfoldable pub fetch_parent : Text → Result Error (TxRaw B)
  fetch_parent txid = fetch_hash (env.parse_hash txid)

  abbrev pub prevout_of : Vout B → Prevout
  prevout_of v = record {
    value_sats = sats_from_btc env.new_amount v.value;
    addrs = vout_addrs v;
    script_type = script_type_from_rpc v.class;
  }

  -- An index behind the last output is an error.
  abbrev pub output_at : Option (Vout B) → Result Error Prevout
  output_at none = err other
  output_at (some v) = ok (prevout_of v)

  -- The parent comes from those that this call has fetched, or from the node.
  abbrev pub keep_parent :
      Text → Parents → Result Error (TxRaw B) → Result Error (TxRaw B) × Parents
  keep_parent txid parents (err x) = (err x, parents)
  keep_parent txid parents (ok parent) = (ok parent, insert txid parent parents)

  abbrev pub parent_or : Text → Parents → Option (TxRaw B) → Result Error (TxRaw B) × Parents
  parent_or txid parents (some parent) = (ok parent, parents)
  parent_or txid parents none = keep_parent txid parents (fetch_parent txid)

  unfoldable pub parent_of : Text → Action Parents Error (TxRaw B)
  unfolding fetch_parent
  parent_of txid parents = parent_or txid parents (lookup txid parents)

  abbrev pub keep_prevout :
      Text × ℕ → PrevoutCache → Result Error Prevout → Result Error Prevout × PrevoutCache
  keep_prevout k c (err x) = (err x, c)
  keep_prevout k c (ok p) = (ok p, put c k p)

  abbrev pub output_in : ℕ → Result Error (TxRaw B) → Result Error Prevout
  output_in i (err x) = err x
  output_in i (ok parent) = output_at (get_elem? parent.vout i)

  -- A round of `resolvePrevouts`, by what the cache holds for the input.
  abbrev pub resolve_cached :
      Vin
      → PrevoutCache
      → Parents
      → Option Prevout
      → Result Error Prevout × (PrevoutCache × Parents)
  resolve_cached v c parents (some p) = (ok p, (c, parents))
  resolve_cached v c parents none =
      let (parent, parents') = parent_of v.txid parents in
      let (p, c') = keep_prevout (v.txid, v.vout) c (output_in v.vout parent) in (p, (c', parents'))

  unfoldable pub resolve_vin : Vin → Action (PrevoutCache × Parents) Error Prevout
  unfolding parent_of
  resolve_vin v (c, parents) =
      let (d, cached) = get c (v.txid, v.vout) in resolve_cached v d parents cached

  unfoldable pub resolve_vins : List Vin → Action (PrevoutCache × Parents) Error (List Prevout)
  unfolding resolve_vin
  resolve_vins [] = pure []
  resolve_vins (v ∷ vins) = do p ← resolve_vin v; ps ← resolve_vins vins; pure (p ∷ ps)

  unfoldable pub resolve_prevouts : List Vin → Action PrevoutCache Error (List Prevout)
  unfolding resolve_vins
  resolve_prevouts vins c = let (ps, (d, parents)) = resolve_vins vins (c, []) in (ps, d)
