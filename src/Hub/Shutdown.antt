-- ===== src/Hub/Shutdown.antt =====
-- internal/api/hub.go: the loop over a run of events, until it is told to stop.
use mathlib.Core.Bool.{true≢false}
use btcdwatch_com.Base.{
  ℕ, ◌≡◌, refl, sym, subst, ◌∙◌, ap, List, [], ◌∷◌, ◌++◌, Option, none, some, Bool, true, false,
  ◌||◌, arith, if◌then◌else◌, ◌==◌, ==_iff, Eq, nat_eq, inl, inr, Bool-cases,
}
use btcdwatch_com.Base.Map.{elem, elem-remove, elem-include}
use btcdwatch_com.Hub.{
  Hub, Push, Event, done, register, unregister, command, block, mempool, mempool_tick, tick,
  log_tick, new_hub, drop_client, on_register, on_command, on_watch, on_unwatch, on_block, handle,
  step,
}

abbrev pub is_done : {T : Type 0} → Event T → Bool
is_done done = true
is_done _ = false

-- Whether the loop is told to stop.
abbrev pub stops : {T : Type 0} → List (Event T) → Bool
stops [] = false
stops (ev ∷ es) = is_done ev || stops es

-- The events up to the first that tells it so.
abbrev pub until_done : {T : Type 0} → List (Event T) → List (Event T)
until_done [] = []
until_done (ev ∷ es) = if is_done ev then ev ∷ [] else ev ∷ until_done es

abbrev pub is_register : {T : Type 0} → ℕ → Event T → Bool
is_register c (register j) = j == c
is_register c _ = false

-- Whether the loop is handed connection `c`.
abbrev pub registers : {T : Type 0} → ℕ → List (Event T) → Bool
registers c [] = false
registers c (ev ∷ es) = is_register c ev || registers c es

elem-++ : (c : ℕ) (xs ys : List ℕ) → elem c (xs ++ ys) ≡ (elem c xs || elem c ys)
unfolding elem
elem-++ c [] ys = refl
elem-++ c (x ∷ xs) ys = ground (arith, elem-++ c xs ys)

module _ {T : Type 0} ⦃e : Eq T⦄ where
  -- `Run`, for the events that its `select` takes in turn.
  unfoldable pub run : Hub T → List (Event T) → Hub T × List (Push T)
  unfolding step
  run h [] = (h, [])
  run h (ev ∷ es) = let (h', ps) = step h ev in let (h'', qs) = run h' es in (h'', ps ++ qs)

  -- The loop has the connection or has shut it down.
  abbrev is_held : ℕ → Hub T → Bool
  is_held c h = elem c h.clients || elem c h.closed

  drop_client-held : (h : Hub T) (c j : ℕ) → is_held c h ≡ true → is_held c (drop_client h j) ≡ true
  unfolding drop_client elem
  drop_client-held h c j was = ground (arith, was, elem-remove c j h.clients, ==_iff j c)

  on_register-held :
      (h : Hub T) (c j : ℕ) → (is_held c h || j == c) ≡ true → is_held c (on_register h j).0 ≡ true
  unfolding on_register elem
  on_register-held h c j was = ground (arith, was, elem-include c j h.clients, ==_iff j c)

  on_command-held :
      (h : Hub T) (j : ℕ) (watch : Bool) (t : T) (c : ℕ)
      → is_held c (on_command h j watch t).0 ≡ is_held c h
  unfolding on_command on_watch on_unwatch
  on_command-held h j watch t c = ground arith

  on_block-held : (h : Hub T) (o : Option T) (c : ℕ) → is_held c (on_block h o).0 ≡ is_held c h
  on_block-held h none c = refl
  on_block-held h (some hash) c = refl

  handle-held :
      (h : Hub T) (ev : Event T) (c : ℕ)
      → (is_held c h || is_register c ev) ≡ true
      → is_held c (handle h ev).0 ≡ true
  unfolding handle
  handle-held h done c was = ground (arith, was, elem-++ c h.clients h.closed)
  handle-held h (register j) c was = on_register-held h c j was
  handle-held h (unregister j) c was = drop_client-held h c j (ground (arith, was))
  handle-held h (command j watch t) c was = ground (arith, was, on_command-held h j watch t c)
  handle-held h block c was = ground (arith, was, on_block-held h h.pending_block c)
  handle-held h mempool c was = ground (arith, was)
  handle-held h mempool_tick c was = ground (arith, was)
  handle-held h tick c was = ground (arith, was)
  handle-held h log_tick c was = ground (arith, was)

  step-stopped : (h : Hub T) (ev : Event T) → h.stopped ≡ true → step h ev ≡ (h, [])
  unfolding step
  step-stopped h ev over =
      subst (λ b. (if b then (h, []) else handle h ev) ≡ (h, [])) (sym over) refl

  step-running : (h : Hub T) (ev : Event T) → h.stopped ≡ false → step h ev ≡ handle h ev
  unfolding step
  step-running h ev running =
      subst (λ b. (if b then (h, []) else handle h ev) ≡ handle h ev) (sym running) refl

  run-stopped : (h : Hub T) (es : List (Event T)) → h.stopped ≡ true → run h es ≡ (h, [])
  unfolding run
  run-stopped h [] over = refl
  run-stopped h (ev ∷ es) over =
      ap (λ p. ((run p.0 es).0, p.1 ++ (run p.0 es).1)) (step-stopped h ev over)
      ∙ run-stopped h es over

  on_block-stopped : (h : Hub T) (o : Option T) → (on_block h o).0.stopped ≡ h.stopped
  on_block-stopped h none = refl
  on_block-stopped h (some hash) = refl

  handle-stopped : (h : Hub T) (ev : Event T) → (handle h ev).0.stopped ≡ (h.stopped || is_done ev)
  unfolding handle on_register drop_client on_command on_watch on_unwatch
  handle-stopped h done = ground arith
  handle-stopped h (register j) = ground arith
  handle-stopped h (unregister j) = ground arith
  handle-stopped h (command j watch t) = ground arith
  handle-stopped h block = ground (arith, on_block-stopped h h.pending_block)
  handle-stopped h mempool = ground arith
  handle-stopped h mempool_tick = ground arith
  handle-stopped h tick = ground arith
  handle-stopped h log_tick = ground arith

  done-closed :
      (h : Hub T) (ev : Event T) (c : ℕ)
      → is_done ev ≡ true
      → (is_held c h || registers c (ev ∷ [])) ≡ true
      → elem c (handle h ev).0.closed ≡ true
  unfolding handle
  done-closed h done c end was = ground (arith, was, elem-++ c h.clients h.closed)
  done-closed h (register j) c end was = absurd (true≢false (sym end))
  done-closed h (unregister j) c end was = absurd (true≢false (sym end))
  done-closed h (command j watch t) c end was = absurd (true≢false (sym end))
  done-closed h block c end was = absurd (true≢false (sym end))
  done-closed h mempool c end was = absurd (true≢false (sym end))
  done-closed h mempool_tick c end was = absurd (true≢false (sym end))
  done-closed h tick c end was = absurd (true≢false (sym end))
  done-closed h log_tick c end was = absurd (true≢false (sym end))

  run-∷ :
      (h : Hub T) (ev : Event T) (es : List (Event T))
      → h.stopped ≡ false
      → (run h (ev ∷ es)).0 ≡ (run (handle h ev).0 es).0
  unfolding run
  run-∷ h ev es running = ap (λ p. (run p.0 es).0) (step-running h ev running)

  step-done : (h : Hub T) (ev : Event T) → is_done ev ≡ true → (step h ev).0.stopped ≡ true
  step-done h ev last = elim (Bool-cases h.stopped) [
    | inl over ↦ ap (λ p. p.0.stopped) (step-stopped h ev over) ∙ over
    | inr running ↦
        ap (λ p. p.0.stopped) (step-running h ev running)
        ∙ ground (arith, handle-stopped h ev, last)
  ]

  run-until_done : (h : Hub T) (es : List (Event T)) → run h es ≡ run h (until_done es)
  unfolding run
  run-until_done h [] = refl
  run-until_done h (ev ∷ es) = elim (Bool-cases (is_done ev)) [
    | inl last ↦
        rw last (
          ap (λ r. (r.0, (step h ev).1 ++ r.1))
            (run-stopped (step h ev).0 es (step-done h ev last)))
    | inr on ↦ rw on (ap (λ r. (r.0, (step h ev).1 ++ r.1)) (run-until_done (step h ev).0 es))
  ]

  held-handle :
      (h : Hub T) (ev : Event T) (c : ℕ) (later : Bool)
      → (is_held c h || (is_register c ev || later)) ≡ true
      → (is_held c (handle h ev).0 || later) ≡ true
  held-handle h ev c true was = ground arith
  held-handle h ev c false was = ground (arith, handle-held h ev c (ground (arith, was)))

  run-closed :
      (h : Hub T) (es : List (Event T))
      → h.stopped ≡ false
      → stops es ≡ true
      → ((run h es).0.stopped ≡ true)
        × ((c : ℕ)
            → (is_held c h || registers c (until_done es)) ≡ true
            → elem c (run h es).0.closed ≡ true)
  run-closed h [] running end = absurd (true≢false (sym end))
  run-closed h (ev ∷ es) running end = elim (Bool-cases (is_done ev)) [
    | inl last ↦
        let halted : (handle h ev).0.stopped ≡ true = ground (arith, handle-stopped h ev, last) in
        let at : (run h (ev ∷ es)).0 ≡ (handle h ev).0 =
          run-∷ h ev es running ∙ ap (λ p. p.0) (run-stopped (handle h ev).0 es halted) in
        (
          ap (λ g. g.stopped) at ∙ halted,
          λ c was.
              ap (λ g. elem c g.closed) at ∙ done-closed h ev c last (ground (arith, was, last)),
        )
    | inr on ↦
        let at = run-∷ h ev es running in
        let (halted, closes) =
          run-closed (handle h ev).0 es (ground (arith, handle-stopped h ev, on, running))
            (ground (arith, end, on)) in
        (
          ap (λ g. g.stopped) at ∙ halted,
          λ c was.
              ap (λ g. elem c g.closed) at
              ∙ closes c
                  (held-handle h ev c (registers c (until_done es)) (ground (arith, was, on))),
        )
  ]

  -- From its start the loop ends at the first event that tells it to stop: nothing behind that event has
  -- an effect, and every connection that the loop was handed before is shut down then.
  pub run-done :
      (max_clients : ℕ) (es : List (Event T)) (c : ℕ)
      → stops es ≡ true
      → registers c (until_done es) ≡ true
      → (run (new_hub max_clients) es ≡ run (new_hub max_clients) (until_done es))
        × ((run (new_hub max_clients) es).0.stopped ≡ true)
        × (elem c (run (new_hub max_clients) es).0.closed ≡ true)
  unfolding new_hub
  run-done n es c end there =
      let (halted, closes) = run-closed (new_hub n) es refl end in
      (run-until_done (new_hub n) es, halted, closes c (ground (arith, there)))
