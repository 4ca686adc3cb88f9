-- ===== src/Lookup/Prevouts.antt =====
-- internal/explorer/tx.go: the resolved inputs are those of the chain, whatever is cached.
use btcdwatch_com.Base.{
  ℕ, ◌≡◌, refl, sym, ◌∙◌, ap, List, [], ◌∷◌, Option, none, some, arith, nat_eq, pair_eq,
  pair_beq_iff,
}
use mathlib.Core.Path.{ap₂}
use btcdwatch_com.Base.Action.{Result, ok, err, ◌>>=◌, pure, bind_cases}
use btcdwatch_com.Base.Float.{Float}
use btcdwatch_com.Base.Map.{lookup, lookup-insert}
use btcdwatch_com.Base.Text.{Text, codes_eq, text_eq_iff}
use btcdwatch_com.Cache.{get}
use btcdwatch_com.Cache.Invariant.{IsCoherent, get-IsCoherent, put-IsCoherent}
use btcdwatch_com.Cache.History.{get-lookup, lookup-get, put_sound}
use btcdwatch_com.Lookup.{
  PrevoutCache, Parents, fetch_parent, output_in, parent_of, parent_or, keep_parent, keep_prevout,
  resolve_cached, resolve_vin, resolve_vins, resolve_prevouts,
}
use btcdwatch_com.Node.{Error}
use btcdwatch_com.Rpc.{TxRaw, Vin}
use btcdwatch_com.Service.{Env, Prevout}

module _ {f : Float} {B H : Type 0} (env : Env f B H) where
  -- The output of an outpoint, as the node answers.
  unfoldable pub prevout_at : Text × ℕ → Result Error Prevout
  prevout_at (txid, i) = output_in env i (fetch_parent env txid)

  -- The outputs of the inputs one after the other, or the first error.
  abbrev pub then_all :
      Result Error Prevout → Result Error (List Prevout) → Result Error (List Prevout)
  then_all (err x) ps = err x
  then_all (ok p) (err x) = err x
  then_all (ok p) (ok ps) = ok (p ∷ ps)

  unfoldable pub prevouts_at : List Vin → Result Error (List Prevout)
  prevouts_at [] = ok []
  prevouts_at (v ∷ vins) = then_all (prevout_at (v.txid, v.vout)) (prevouts_at vins)

  -- What is cached is what the node answers.
  pub record IsCurrent (c : PrevoutCache env) : Type 0 where
    pub coherent : IsCoherent c
    pub agrees : (k : Text × ℕ) (p : Prevout) → lookup k c.order ≡ some p → prevout_at k ≡ ok p

  record AreParents (parents : Parents env) : Type 0 where
    fetched :
        (txid : Text) (raw : TxRaw B)
        → lookup txid parents ≡ some raw
        → fetch_parent env txid ≡ ok raw

  keep_parent-AreParents :
      (txid : Text) (parents : Parents env) (answer : Result Error (TxRaw B))
      → AreParents parents
      → fetch_parent env txid ≡ answer
      → ((keep_parent env txid parents answer).0 ≡ answer)
        × AreParents (keep_parent env txid parents answer).1
  keep_parent-AreParents txid parents (err x) a at = (refl, a)
  keep_parent-AreParents txid parents (ok raw) a at = (
    refl,
    record {
      fetched = λ j other h.
          ground
            (arith, lookup-insert j txid raw parents, a.fetched j other, text_eq_iff txid j, at, h);
    },
  )

  parent_or-AreParents :
      (txid : Text) (parents : Parents env) (known : Option (TxRaw B))
      → AreParents parents
      → lookup txid parents ≡ known
      → ((parent_or env txid parents known).0 ≡ fetch_parent env txid)
        × AreParents (parent_or env txid parents known).1
  parent_or-AreParents txid parents (some raw) a at = (sym (a.fetched txid raw at), a)
  parent_or-AreParents txid parents none a at =
      keep_parent-AreParents txid parents (fetch_parent env txid) a refl

  keep_prevout-IsCurrent :
      (k : Text × ℕ) (c : PrevoutCache env) (answer : Result Error Prevout)
      → IsCurrent c
      → prevout_at k ≡ answer
      → ((keep_prevout env k c answer).0 ≡ answer) × IsCurrent (keep_prevout env k c answer).1
  keep_prevout-IsCurrent k c (err x) i at = (refl, i)
  keep_prevout-IsCurrent k c (ok p) i at = (
    refl,
    record {
      coherent = put-IsCoherent c k p i.coherent;
      agrees = λ j q h. ground (
        arith,
        put_sound c k p j q i.coherent h,
        i.agrees j q,
        pair_beq_iff codes_eq nat_eq k j,
        at,
      );
    },
  )

  get-IsCurrent : (c : PrevoutCache env) (k : Text × ℕ) → IsCurrent c → IsCurrent (get c k).0
  get-IsCurrent c k i = record {
    coherent = get-IsCoherent c k i.coherent;
    agrees = λ j p h. i.agrees j p (sym (lookup-get c k j) ∙ h);
  }

  parent_of-AreParents :
      (txid : Text) (parents : Parents env)
      → AreParents parents
      → ((parent_of env txid parents).0 ≡ fetch_parent env txid)
        × AreParents (parent_of env txid parents).1
  unfolding parent_of
  parent_of-AreParents txid parents a =
      parent_or-AreParents txid parents (lookup txid parents) a refl

  output_of_parent :
      (v : Vin) (parents : Parents env)
      → AreParents parents
      → prevout_at (v.txid, v.vout) ≡ output_in env v.vout (parent_of env v.txid parents).0
  unfolding prevout_at
  output_of_parent v parents a =
      ap (output_in env v.vout) (sym (parent_of-AreParents v.txid parents a).0)

  resolve_cached-IsCurrent :
      (v : Vin) (c : PrevoutCache env) (parents : Parents env) (known : Option Prevout)
      → IsCurrent c
      → AreParents parents
      → ((p : Prevout) → known ≡ some p → prevout_at (v.txid, v.vout) ≡ ok p)
      → let (p, (c', parents')) = resolve_cached env v c parents known in
        (p ≡ prevout_at (v.txid, v.vout)) × IsCurrent c' × AreParents parents'
  resolve_cached-IsCurrent v c parents (some p) i a at = (sym (at p refl), i, a)
  resolve_cached-IsCurrent v c parents none i a at =
      let parent = parent_of env v.txid parents in
      let same = output_of_parent v parents a in
      let (kept, i') =
        keep_prevout-IsCurrent (v.txid, v.vout) c (output_in env v.vout parent.0) i same in
      (kept ∙ sym same, i', (parent_of-AreParents v.txid parents a).1)

  resolve_vin-IsCurrent :
      (v : Vin) (c : PrevoutCache env) (parents : Parents env)
      → IsCurrent c
      → AreParents parents
      → let (p, (c', parents')) = resolve_vin env v (c, parents) in
        (p ≡ prevout_at (v.txid, v.vout)) × IsCurrent c' × AreParents parents'
  unfolding resolve_vin
  resolve_vin-IsCurrent v c parents i a =
      let k : Text × ℕ = (v.txid, v.vout) in
      resolve_cached-IsCurrent v (get c k).0 parents (get c k).1 (get-IsCurrent c k i) a
        (λ p h. i.agrees k p (sym (get-lookup c k i.coherent) ∙ h))

  resolve_vins-IsCurrent :
      (vins : List Vin) (c : PrevoutCache env) (parents : Parents env)
      → IsCurrent c
      → AreParents parents
      → ((resolve_vins env vins (c, parents)).0 ≡ prevouts_at vins)
        × IsCurrent (resolve_vins env vins (c, parents)).1.0
  unfolding resolve_vins prevouts_at
  resolve_vins-IsCurrent [] c parents i a = (refl, i)
  resolve_vins-IsCurrent (v ∷ vins) c parents i a =
      let (here, i', a') = resolve_vin-IsCurrent v c parents i a in
      bind_cases
        (λ (q : Result Error (List Prevout) × (PrevoutCache env × Parents env)).
          (q.0 ≡ then_all (prevout_at (v.txid, v.vout)) (prevouts_at vins)) × IsCurrent q.1.0)
        (resolve_vin env v) (λ p. resolve_vins env vins >>= λ ps. pure (p ∷ ps)) (c, parents)
        (λ p found.
          let (c', parents') = (resolve_vin env v (c, parents)).1 in
          let (rest, i'') = resolve_vins-IsCurrent vins c' parents' i' a' in
          bind_cases
            (λ (q : Result Error (List Prevout) × (PrevoutCache env × Parents env)).
              (q.0 ≡ then_all (prevout_at (v.txid, v.vout)) (prevouts_at vins)) × IsCurrent q.1.0)
            (resolve_vins env vins) (λ ps. pure (p ∷ ps)) (c', parents')
            (λ ps all. (ap₂ then_all (sym found ∙ here) (sym all ∙ rest), i''))
            (λ x bad. (ap₂ then_all (sym found ∙ here) (sym bad ∙ rest), i'')))
        (λ x bad. (ap (λ r. then_all r (prevouts_at vins)) (sym bad ∙ here), i'))

  -- Whatever the cache holds, as long as it is what the node answers, the resolved inputs are the
  -- outputs of the chain in the order of the inputs, or the first error of a lookup; and what the
  -- cache holds then is what the node answers.
  pub resolve_prevouts-exact :
      (vins : List Vin) (c : PrevoutCache env)
      → IsCurrent c
      → ((resolve_prevouts env vins c).0 ≡ prevouts_at vins)
        × IsCurrent (resolve_prevouts env vins c).1
  unfolding resolve_prevouts lookup
  resolve_prevouts-exact vins c i =
      resolve_vins-IsCurrent vins c [] i (record { fetched = λ txid raw h. cc })
