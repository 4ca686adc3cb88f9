-- ===== src/Hub/Pushes.antt =====
-- internal/api/hub.go: whom the loop pushes to.
use btcdwatch_com.Base.{
  ℕ, ◌≡◌, refl, sym, ◌∙◌, ap, List, [], ◌∷◌, ◌++◌, none, Bool, true, false, ◌&&◌, ◌||◌, arith,
  if◌then◌else◌, Eq, nat_eq, inl, inr, Bool-cases,
}
use btcdwatch_com.Base.Map.{elem, lookup, Distinct}
use btcdwatch_com.Hub.Watchers.{watches}
use btcdwatch_com.Hub.Agreement.{IsHub, same-IsHub}
use btcdwatch_com.Hub.Invariant.{Reachable, Reachable-IsHub}
use btcdwatch_com.Hub.{
  Hub, Push, push_stats, push_mempool, push_block_flash, push_tx, Event, block, watched_of,
  push_sets, push_all, unless_empty, handle, step, notify_block,
}

if_false {ℓ} : {A : Type ℓ} (b : Bool) (x y : A) → b ≡ false → (if b then x else y) ≡ y
if_false true x y h = cc
if_false false x y h = refl

module _ {T : Type 0} ⦃e : Eq T⦄ where
  -- Whether the pushes bring a connection the state of a transaction.
  abbrev pub brings : List (Push T) → ℕ → T → Bool
  brings [] c t = false
  brings (push_tx u s ∷ ps) c t = (e.beq u t && elem c s) || brings ps c t
  brings (_ ∷ ps) c t = brings ps c t

  push_sets-exact :
      (w : List (T × List ℕ)) (c : ℕ) (t : T)
      → Distinct w
      → brings (push_sets w) c t ≡ watches w c t
  unfolding push_sets lookup elem
  push_sets-exact [] c t d = refl
  push_sets-exact ((u, s) ∷ w) c t d =
      let rest = push_sets-exact w c t d.1 in
      elim (Bool-cases (e.beq u t)) [
        | inl same ↦
            let absent : lookup t w ≡ none =
              ap (λ x. lookup x w) (sym ((e.beq_iff u t).0 same)) ∙ d.0 in
            let alone : watches w c t ≡ false = rw absent in rw same (ground (arith, rest, alone))
        | inr other ↦ rw other rest
      ]

  brings-append :
      (ps qs : List (Push T)) (c : ℕ) (t : T)
      → brings (ps ++ qs) c t ≡ (brings ps c t || brings qs c t)
  brings-append [] qs c t = refl
  brings-append (push_tx u s ∷ ps) qs c t = ground (arith, brings-append ps qs c t)
  brings-append (push_stats s ∷ ps) qs c t = brings-append ps qs c t
  brings-append (push_mempool s ∷ ps) qs c t = brings-append ps qs c t
  brings-append (push_block_flash u s ∷ ps) qs c t = brings-append ps qs c t

  stats_brings_none :
      (cs ds : List ℕ) (c : ℕ) (t : T) → brings (unless_empty cs (push_stats ds ∷ [])) c t ≡ false
  stats_brings_none [] ds c t = refl
  stats_brings_none (x ∷ cs) ds c t = refl

  push_all-exact :
      (h : Hub T) (c : ℕ) (t : T)
      → IsHub h
      → brings (push_all h) c t ≡ (elem c h.clients && elem t (watched_of h.watched c))
  unfolding push_all
  push_all-exact h c t i = ground (
    arith,
    brings-append (unless_empty h.clients (push_stats h.clients ∷ [])) (push_sets h.watchers) c t,
    stats_brings_none h.clients h.clients c t,
    push_sets-exact h.watchers c t i.distinct,
    i.agree c t,
  )

  step_running : (h : Hub T) (ev : Event T) → h.stopped ≡ false → step h ev ≡ handle h ev
  unfolding step
  step_running h ev running = if_false h.stopped (h, []) (handle h ev) running

  -- Whether the pushes bring a connection the banner of a block.
  abbrev pub flashes : List (Push T) → ℕ → T → Bool
  flashes [] c hash = false
  flashes (push_block_flash u s ∷ ps) c hash = (e.beq u hash && elem c s) || flashes ps c hash
  flashes (_ ∷ ps) c hash = flashes ps c hash

  flashes-append :
      (ps qs : List (Push T)) (c : ℕ) (hash : T)
      → flashes (ps ++ qs) c hash ≡ (flashes ps c hash || flashes qs c hash)
  flashes-append [] qs c t = refl
  flashes-append (push_block_flash u s ∷ ps) qs c t = ground (arith, flashes-append ps qs c t)
  flashes-append (push_stats s ∷ ps) qs c t = flashes-append ps qs c t
  flashes-append (push_mempool s ∷ ps) qs c t = flashes-append ps qs c t
  flashes-append (push_tx u s ∷ ps) qs c t = flashes-append ps qs c t

  push_sets_flash_none :
      (w : List (T × List ℕ)) (c : ℕ) (hash : T) → flashes (push_sets w) c hash ≡ false
  unfolding push_sets
  push_sets_flash_none [] c hash = refl
  push_sets_flash_none ((u, s) ∷ w) c hash = push_sets_flash_none w c hash

  stats_flash_none :
      (cs ds : List ℕ) (c : ℕ) (t : T) → flashes (unless_empty cs (push_stats ds ∷ [])) c t ≡ false
  stats_flash_none [] ds c t = refl
  stats_flash_none (x ∷ cs) ds c t = refl

  push_all_flash_none : (h : Hub T) (c : ℕ) (hash : T) → flashes (push_all h) c hash ≡ false
  unfolding push_all
  push_all_flash_none h c hash = ground (
    arith,
    flashes-append (unless_empty h.clients (push_stats h.clients ∷ [])) (push_sets h.watchers) c
        hash,
    stats_flash_none h.clients h.clients c hash,
    push_sets_flash_none h.watchers c hash,
  )

  block_pushes : List ℕ → T → List (Push T)
  block_pushes cs hash = unless_empty cs (push_mempool cs ∷ push_block_flash hash cs ∷ [])

  brings-block_pushes :
      (cs : List ℕ) (hash : T) (c : ℕ) (t : T) → brings (block_pushes cs hash) c t ≡ false
  unfolding block_pushes
  brings-block_pushes [] hash c t = refl
  brings-block_pushes (x ∷ cs) hash c t = refl

  flashes-block_pushes :
      (cs : List ℕ) (hash : T) (c : ℕ) (t : T)
      → flashes (block_pushes cs hash) c t ≡ (e.beq hash t && elem c cs)
  unfolding block_pushes elem
  flashes-block_pushes [] hash c t = ground arith
  flashes-block_pushes (x ∷ cs) hash c t = ground arith

  -- After any number of notifications the next block round shows the latest block, and only that,
  -- to every connected client, sends each watched transaction to its watchers, and leaves the
  -- mempool clean and the channel empty.
  pub block-latest :
      (n : ℕ) (h : Hub T) (earlier hash : T) (c : ℕ) (t : T)
      → Reachable n h
      → h.stopped ≡ false
      → let (h', ps) = step (notify_block (notify_block h earlier) hash) block in
        (flashes ps c t ≡ (e.beq hash t && elem c h.clients))
        × (brings ps c t ≡ (elem c h.clients && elem t (watched_of h.watched c)))
        × (h'.mempool_dirty ≡ false)
        × (h'.pending_block ≡ none)
  unfolding handle notify_block block_pushes
  block-latest n h earlier hash c t r running =
      let i = Reachable-IsHub r in
      let g = notify_block (notify_block h earlier) hash in
      rw (step_running g block running) (
        flashes-append (push_all g) (block_pushes h.clients hash) c t
            ∙ ground (arith, push_all_flash_none g c t, flashes-block_pushes h.clients hash c t),
        brings-append (push_all g) (block_pushes h.clients hash) c t
            ∙ ground (
              arith,
              push_all-exact g c t (same-IsHub i refl refl refl refl),
              brings-block_pushes h.clients hash c t,
            ),
        refl,
        refl,
      )
