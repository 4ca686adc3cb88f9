-- ===== src/Api/Limits.antt =====
-- internal/api/handlers.go: what one request, and all of them together, may ask of the node.
use btcdwatch_com.Base.{
  ℕ, zero, suc, ◌+◌, ◌≤◌, ◌≡◌, sym, ◌∙◌, ap, List, [], ◌∷◌, length, Option, none, some, true, false,
  if◌then◌else◌, inl, inr, Bool-cases, arith, ltb, ◌==◌,
}
use btcdwatch_com.Base.Int.{ℤ, pos, negsuc}
use btcdwatch_com.Base.Action.{Result, ok, err}
use btcdwatch_com.Base.Float.{Float}
use btcdwatch_com.Base.Text.{Text}
use btcdwatch_com.Api.{
  Payload, Code, Server, write_error, write_service_error, acquire_scan, release_scan, int_param,
  or_default,
}
use btcdwatch_com.Api.Answers.{is_syncing, probed, gate_syncing-syncing, gate_syncing-synced}
use btcdwatch_com.Api.Handlers.{
  Net, handle_block, answer_block, classify, block_response, limit_of, offset_of,
}
use btcdwatch_com.Block.{Block}
use btcdwatch_com.Block.Page.{block_by_hash-length, block_by_height-length}
use btcdwatch_com.Chain.{Query}
use btcdwatch_com.Node.{Error}
use btcdwatch_com.Service.{Env}

-- The parameter is its default or within its bounds.
pub int_param_bounds :
    (atoi : Text → Option ℤ) (text : Text) (def lo hi : ℕ)
    → lo ≤ def
    → def ≤ hi
    → (lo ≤ int_param atoi text def lo hi) × (int_param atoi text def lo hi ≤ hi)
unfolding int_param
int_param_bounds atoi [] def lo hi p q = (p, q)
int_param_bounds atoi (c ∷ cs) def lo hi p q = by_number (atoi (c ∷ cs))
  where
    by_number : (n : Option ℤ) → (lo ≤ or_default def lo hi n) × (or_default def lo hi n ≤ hi)
    by_number none = (p, q)
    by_number (some (pos n)) = (omega arith, omega arith)
    by_number (some (negsuc n)) = (omega arith, omega arith)

module _ {f : Float} where
  error≢block :
      (code : Code) (b : Block f) → ¬ Path (Payload f) (Payload.error code) (Payload.block b)
  error≢block code b h = cc

  payload-block_response :
      (r : Result Error (Block f)) (b : Block f)
      → (block_response r).payload ≡ Payload.block b
      → r ≡ ok b
  unfolding write_service_error write_error
  payload-block_response (ok c) b h = cc
  payload-block_response (err Error.unavailable) b h = cc
  payload-block_response (err Error.tx_not_found) b h = cc
  payload-block_response (err Error.block_not_found) b h = cc
  payload-block_response (err Error.other) b h = cc
  payload-block_response (err (Error.rpc code)) b h = cc

  module _ {B H Addr : Type 0} (env : Env f B H) (net : Net Addr) where
    answer_block-length :
        (offset limit : ℕ) (q : Query Addr) (s : Server f) (b : Block f)
        → (answer_block env net offset limit q s).0.payload ≡ Payload.block b
        → length b.txs ≤ limit
    unfolding write_error
    answer_block-length offset limit (Query.block_height height) s b h =
        block_by_height-length env height offset limit s.service b (payload-block_response _ b h)
    answer_block-length offset limit (Query.hex hash) s b h =
        block_by_hash-length env hash offset limit s.service b (payload-block_response _ b h)
    answer_block-length offset limit (Query.address a) s b h =
        absurd (error≢block Code.invalid_block b h)
    answer_block-length offset limit Query.invalid s b h =
        absurd (error≢block Code.invalid_block b h)

    -- Whatever a request for a block asks for, the page that it gets has at most a hundred rows.
    pub handle_block-length :
        (text offset limit : Text) (s : Server f) (b : Block f)
        → (handle_block env net text offset limit s).0.payload ≡ Payload.block b
        → length b.txs ≤ 100
    unfolding handle_block
    handle_block-length text offset limit s b h =
        let o = offset_of env net offset in
        let l = limit_of env net limit in
        let rest = answer_block env net o l (classify env net text) in
        let small : l ≤ 100 =
          (int_param_bounds net.atoi limit 25 1 100 (omega arith) (omega arith)).1 in
        elim (Bool-cases (is_syncing s)) [
          | inl syncing ↦ absurd (
              error≢block Code.node_syncing b
                (sym (ap (λ p. p.0.payload) (gate_syncing-syncing env rest s syncing)) ∙ h))
          | inr synced ↦
              let q = classify env net text in
              let few =
                answer_block-length o l q (probed env s) b
                  (sym (ap (λ p. p.0.payload) (gate_syncing-synced env rest s synced)) ∙ h) in
              omega (arith, few, small)
        ]

-- A handler that asks for a scan, or one that has scanned and gives its token back.
pub data ScanEvent : Type 0 where
  arrived left : ScanEvent

module _ {f : Float} where
  -- The server and the number of the handlers that scan.
  unfoldable pub scan_step : ℕ → ScanEvent → Server f × ℕ → Server f × ℕ
  unfolding acquire_scan release_scan
  scan_step limit arrived (s, n) =
      let (has_slot, s') = acquire_scan limit s in (s', if has_slot then n + 1 else n)
  scan_step limit left (s, zero) = (s, zero)
  scan_step limit left (s, suc n) = (release_scan limit s, n)

  unfoldable pub after_scans : ℕ → List ScanEvent → Server f × ℕ → Server f × ℕ
  unfolding scan_step
  after_scans limit [] r = r
  after_scans limit (e ∷ es) r = after_scans limit es (scan_step limit e r)

  pub record IsCounted (limit : ℕ) (r : Server f × ℕ) : Type 0 where
    pub tokens : r.0.scans ≡ r.1
    pub bounded : r.1 ≤ limit

  scan_step-IsCounted :
      (limit : ℕ) (e : ScanEvent) (r : Server f × ℕ)
      → ltb 0 limit ≡ true
      → IsCounted limit r
      → IsCounted limit (scan_step limit e r)
  unfolding scan_step acquire_scan release_scan
  scan_step-IsCounted limit arrived (s, n) h i = elim (Bool-cases (ltb s.scans limit)) [
    | inl free ↦
        let limited : (limit == 0) ≡ false = ground arith in
        rw (limited, free)
          (record { tokens = omega (arith, i.tokens); bounded = ground (arith, i.tokens) })
    | inr full ↦ let limited : (limit == 0) ≡ false = ground arith in rw (limited, full) i
  ]
  scan_step-IsCounted limit left (s, zero) h i = i
  scan_step-IsCounted limit left (s, suc n) h i =
      let limited : (limit == 0) ≡ false = ground arith in
      rw limited (record { tokens = omega (arith, i.tokens); bounded = omega (arith, i.bounded) })

  after_scans-IsCounted :
      (limit : ℕ) (es : List ScanEvent) (r : Server f × ℕ)
      → ltb 0 limit ≡ true
      → IsCounted limit r
      → IsCounted limit (after_scans limit es r)
  unfolding after_scans
  after_scans-IsCounted limit [] r h i = i
  after_scans-IsCounted limit (e ∷ es) r h i =
      after_scans-IsCounted limit es (scan_step limit e r) h (scan_step-IsCounted limit e r h i)

  -- With a limit, never more scans run beside each other than it says, in whatever order handlers come
  -- and end; and the semaphore holds a token for each of them, so that a slot is there again when
  -- one ends.
  pub after_scans_bound :
      (limit : ℕ) (es : List ScanEvent) (s : Server f)
      → ltb 0 limit ≡ true
      → s.scans ≡ 0
      → ((after_scans limit es (s, 0)).0.scans ≡ (after_scans limit es (s, 0)).1)
        × ((after_scans limit es (s, 0)).1 ≤ limit)
  after_scans_bound limit es s h none_yet =
      let i =
        after_scans-IsCounted limit es (s, 0) h
          (record { tokens = none_yet; bounded = omega arith }) in
      (i.tokens, i.bounded)
