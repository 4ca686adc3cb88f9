-- ===== src/Daemon/Rounds.antt =====
-- cmd/btcdwatchd/main.go: a block on its way from the node to the clients.
use btcdwatch_com.Base.{ℕ, ◌≡◌, refl, none, true, false, ◌&&◌, inl, inr, Bool-cases, nat_eq}
use btcdwatch_com.Base.Float.{Float}
use btcdwatch_com.Base.Map.{elem, lookup}
use btcdwatch_com.Base.Text.{Text, text_eq, text_eq_iff, codes_eq}
use btcdwatch_com.Daemon.{Daemon, node_block}
use btcdwatch_com.Hub.{step, block, watched_of}
use btcdwatch_com.Hub.Invariant.{Reachable}
use btcdwatch_com.Hub.Pushes.{brings, flashes, block-latest}
use btcdwatch_com.Cache.{clear}
use btcdwatch_com.Mempool.{invalidate}

module _ {f : Float} where
  node_block-same :
      (d : Daemon f) (hash : Text)
      → text_eq hash d.client.last_block_hash ≡ true
      → node_block d hash ≡ d
  unfolding node_block
  node_block-same d hash same = rw same refl

  last_block_hash-node_block :
      (d : Daemon f) (hash : Text) → text_eq hash (node_block d hash).client.last_block_hash ≡ true
  unfolding node_block
  last_block_hash-node_block d hash = elim (Bool-cases (text_eq hash d.client.last_block_hash)) [
    | inl same ↦ rw same same
    | inr new ↦
        let itself : text_eq hash hash ≡ true = (text_eq_iff hash hash).1 refl in
        rw new (elim (Bool-cases d.client.has_handlers) [
          | inl set ↦ rw set itself
          | inr unset ↦ rw unset itself
        ])
  ]

  -- However often the node tells of the same block in a row, the service and the hub hear of it once.
  pub node_block-once :
      (d : Daemon f) (hash : Text) → node_block (node_block d hash) hash ≡ node_block d hash
  node_block-once d hash =
      node_block-same (node_block d hash) hash (last_block_hash-node_block d hash)

  -- When the node tells of another block than the last one, and the handlers are set, then nothing
  -- that was derived from the chain before is served again: no address's totals are cached, the
  -- mempool's snapshot has no time and no mean interval is cached. If the hub's loop runs, in a state
  -- that it can reach, its next block round sends the banner of this block, and of no other, to each
  -- connected client, and the state of a transaction to exactly those that watch it.
  pub node_block-reaches :
      (n : ℕ) (d : Daemon f) (hash addr : Text) (c : ℕ) (t : Text)
      → text_eq hash d.client.last_block_hash ≡ false
      → d.client.has_handlers ≡ true
      → Reachable n d.hub
      → d.hub.stopped ≡ false
      → let d' = node_block d hash in
        let service = d'.server.service in
        let ps = (step d'.hub block).1 in
        (lookup addr service.totals.order ≡ none)
        × (service.feed.mempool.fetched ≡ none)
        × (service.interval_at ≡ none)
        × (flashes ps c t ≡ (text_eq hash t && elem c d.hub.clients))
        × (brings ps c t ≡ (elem c d.hub.clients && elem t (watched_of d.hub.watched c)))
  unfolding node_block lookup clear invalidate
  node_block-reaches n d hash addr c t new set r running =
      let (flash, bring, _, _) = block-latest n d.hub hash hash c t r running in
      rw (new, set) (refl, refl, refl, flash, bring)
