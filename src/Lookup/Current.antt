-- ===== src/Lookup/Current.antt =====
-- internal/explorer/tx.go: `GetTx` leaves the cache of earlier outputs as the node answers.
use btcdwatch_com.Base.{
  ℕ, ◌≡◌, refl, ◌∙◌, List, [], Option, none, some, Bool, true, false, inl, inr, Bool-cases,
}
use btcdwatch_com.Base.Action.{Action, pure, ◌>>=◌, bind_cases}
use btcdwatch_com.Base.Float.{Float}
use btcdwatch_com.Base.Text.{text_eq, codes_eq}
use btcdwatch_com.Lookup.{
  Tx, starts_with_coinbase, derive, derive_pending, settle_tx, inputs_of, snapshot_with, measure,
  at_queue, header_of, mined, or_retry,
}
use btcdwatch_com.Lookup.Prevouts.{IsCurrent, resolve_prevouts-exact}
use btcdwatch_com.Node.{Error}
use btcdwatch_com.Rpc.{TxRaw}
use btcdwatch_com.Service.{
  Env, Service, Prevout, snapshot, avg_block_interval, cached_mean, mean_or,
}
use btcdwatch_com.Snapshot.{Snapshot}
use btcdwatch_com.Base.Map.{is_some, lookup}

module _ {f : Float} {B H : Type 0} (env : Env f B H) where
  -- A call that leaves the cache of earlier outputs alone.
  abbrev pub Keeps : {A : Type 0} → Action (Service f) Error A → Type 0
  Keeps m = (s : Service f) → (m s).1.prevouts ≡ s.prevouts

  Keeps-bind :
      {A C : Type 0} (m : Action (Service f) Error A) (k : A → Action (Service f) Error C)
      → Keeps m
      → ((a : A) → Keeps (k a))
      → Keeps (m >>= k)
  Keeps-bind m k first second s =
      bind_cases (λ q. q.1.prevouts ≡ s.prevouts) m k s (λ a found. second a (m s).1 ∙ first s)
        (λ x bad. first s)

  mean_or-keeps : (s : Service f) (known : Option ℕ) → (mean_or env s known).1.prevouts ≡ s.prevouts
  mean_or-keeps s none = refl
  mean_or-keeps s (some mean) = refl

  measure-Keeps : Keeps (measure env)
  unfolding avg_block_interval
  measure-Keeps s = mean_or-keeps s (cached_mean env s s.interval_at)

  or_retry-Keeps : (found : Bool) (s : Snapshot f) → Keeps (or_retry env found s)
  unfolding snapshot
  or_retry-Keeps true s t = refl
  or_retry-Keeps false s t = refl

  derive_pending-Keeps : (tx : Tx f) → Keeps (derive_pending env tx)
  unfolding derive_pending snapshot_with snapshot
  derive_pending-Keeps tx =
      Keeps-bind (snapshot_with env tx.txid)
        (λ s. measure env >>= λ mean. pure (at_queue env tx s mean))
        (Keeps-bind (snapshot env) (λ s. or_retry env (is_some (lookup tx.txid s)) s) (λ s. refl)
          (λ s. or_retry-Keeps (is_some (lookup tx.txid s)) s))
        (λ s.
          Keeps-bind (measure env) (λ mean. pure (at_queue env tx s mean)) measure-Keeps
            (λ mean t. refl))

  pub settle_tx-Keeps : (raw : TxRaw B) (ps : List Prevout) → Keeps (settle_tx env raw ps)
  settle_tx-Keeps raw ps s = elim (Bool-cases (text_eq raw.block_hash [])) [
    | inl unconfirmed ↦ rw unconfirmed (derive_pending-Keeps (derive env raw ps) s)
    | inr is_mined ↦ rw is_mined (
        Keeps-bind (header_of env raw.block_hash) (λ h. pure (mined env (derive env raw ps) h))
          (λ t. refl) (λ h t. refl) s)
  ]

  pub inputs_of-IsCurrent :
      (raw : TxRaw B) (s : Service f)
      → IsCurrent env s.prevouts
      → IsCurrent env (inputs_of env raw s).1.prevouts
  inputs_of-IsCurrent raw s current = elim (Bool-cases (starts_with_coinbase raw.vin)) [
    | inl coinbase ↦ rw coinbase current
    | inr plain ↦ rw plain (resolve_prevouts-exact env raw.vin s.prevouts current).1
  ]
