-- ===== src/Hub/Others.antt =====
-- internal/api/hub.go: what an event of the loop leaves as it was for a connection that it does not
-- name.
use btcdwatch_com.Base.{
  ℕ, ◌≡◌, refl, subst, sym, ap, List, Option, none, some, Bool, true, false, arith, if◌then◌else◌,
  ◌==◌, ==_iff, Eq, nat_eq, inl, inr, Bool-cases, [],
}
use btcdwatch_com.Base.Map.{elem, remove, include, elem-remove, elem-include, lookup-insert}
use btcdwatch_com.Hub.{
  Hub, Event, done, register, unregister, command, block, mempool, mempool_tick, tick, log_tick,
  watched_of, drop_client, is_over_cap, on_register, on_watch, on_unwatch, on_command, handle, step,
  on_block, on_mempool, on_mempool_tick,
}

-- The event neither registers connection `j` nor is its command.
abbrev pub IsSparing : {T : Type 0} → ℕ → Event T → Type 0
IsSparing j (register c) = (c == j) ≡ false
IsSparing j (command c watch t) = (c == j) ≡ false
IsSparing j _ = Unit

-- The transaction of a command is one of those that `P` admits.
abbrev pub Asks : {T : Type 0} → (T → Type 0) → Event T → Type 0
Asks P (command c watch t) = P t
Asks P _ = Unit

module _ {T : Type 0} ⦃e : Eq T⦄ where
  -- While the loop runs, connection `j` is not among the clients.
  abbrev pub IsOut : ℕ → Hub T → Type 0
  IsOut j h = h.stopped ≡ false → elem j h.clients ≡ false

  abbrev pub AllWatched : (T → Type 0) → List (ℕ × List T) → Type 0
  AllWatched P w = (c : ℕ) (t : T) → elem t (watched_of w c) ≡ true → P t

  on_register-watched : (h : Hub T) (c : ℕ) → (on_register h c).0.watched ≡ h.watched
  unfolding on_register
  on_register-watched h c = ground arith

  drop_client-watched : (h : Hub T) (c : ℕ) → (drop_client h c).watched ≡ h.watched
  unfolding drop_client
  drop_client-watched h c = ground arith

  on_block-watched : (h : Hub T) (o : Option T) → (on_block h o).0.watched ≡ h.watched
  on_block-watched h none = refl
  on_block-watched h (some hash) = refl

  on_block-out :
      (h : Hub T) (o : Option T) (j : ℕ)
      → elem j h.clients ≡ false
      → elem j (on_block h o).0.clients ≡ false
  on_block-out h none j out = out
  on_block-out h (some hash) j out = out

  on_command-watched_of :
      (h : Hub T) (c : ℕ) (watch : Bool) (t : T) (j : ℕ)
      → (c == j) ≡ false
      → watched_of (on_command h c watch t).0.watched j ≡ watched_of h.watched j
  unfolding on_command on_watch on_unwatch
  on_command-watched_of h c watch t j apart = elim (Bool-cases (elem c h.clients)) [
    | inl here ↦ elim (Bool-cases watch) [
      | inl on ↦ elim (Bool-cases (is_over_cap h c t)) [
        | inl refused ↦ rw (here, on, refused) refl
        | inr room ↦
            rw (here, on, room)
              (ground
                (arith, apart, lookup-insert j c (include t (watched_of h.watched c)) h.watched))
      ]
      | inr off ↦
          rw (here, off)
            (ground (arith, apart, lookup-insert j c (remove t (watched_of h.watched c)) h.watched))
    ]
    | inr gone ↦ rw gone refl
  ]

  handle-watched_of :
      (h : Hub T) (ev : Event T) (j : ℕ)
      → IsSparing j ev
      → watched_of (handle h ev).0.watched j ≡ watched_of h.watched j
  unfolding handle
  handle-watched_of h done j a = refl
  handle-watched_of h (register c) j a = ap (λ w. watched_of w j) (on_register-watched h c)
  handle-watched_of h (unregister c) j a = ap (λ w. watched_of w j) (drop_client-watched h c)
  handle-watched_of h (command c watch t) j a = on_command-watched_of h c watch t j a
  handle-watched_of h block j a = ap (λ w. watched_of w j) (on_block-watched h h.pending_block)
  handle-watched_of h mempool j a = ground arith
  handle-watched_of h mempool_tick j a = ground arith
  handle-watched_of h tick j a = refl
  handle-watched_of h log_tick j a = refl

  step_cases :
      (Q : Hub T → Type 0) (h : Hub T) (ev : Event T)
      → (h.stopped ≡ true → Q h)
      → (h.stopped ≡ false → Q (handle h ev).0)
      → Q (step h ev).0
  unfolding step
  step_cases Q h ev stays moves = elim (Bool-cases h.stopped) [
    | inl over ↦ subst (λ b. Q (if b then (h, []) else handle h ev).0) (sym over) (stays over)
    | inr running ↦
        subst (λ b. Q (if b then (h, []) else handle h ev).0) (sym running) (moves running)
  ]

  -- Only its own commands change what a connection watches.
  pub step-watched_of :
      (h : Hub T) (ev : Event T) (j : ℕ)
      → IsSparing j ev
      → watched_of (step h ev).0.watched j ≡ watched_of h.watched j
  step-watched_of h ev j a =
      step_cases (λ g. watched_of g.watched j ≡ watched_of h.watched j) h ev (λ over. refl)
        (λ running. handle-watched_of h ev j a)

  on_command-elem :
      (h : Hub T) (c : ℕ) (watch : Bool) (t : T) (j : ℕ) (u : T)
      → elem u (watched_of (on_command h c watch t).0.watched j) ≡ true
      → elem u (watched_of h.watched j) ≡ false
      → t ≡ u
  unfolding on_command on_watch on_unwatch
  on_command-elem h c watch t j u there was = ground (
    arith,
    ==_iff c j,
    e.beq_iff t u,
    lookup-insert j c (include t (watched_of h.watched c)) h.watched,
    lookup-insert j c (remove t (watched_of h.watched c)) h.watched,
    elem-include u t (watched_of h.watched c),
    elem-remove u t (watched_of h.watched c),
  )

  on_mempool-watched : (h : Hub T) → (on_mempool h).0.watched ≡ h.watched
  on_mempool-watched h = ground arith

  on_mempool_tick-watched : (h : Hub T) → (on_mempool_tick h).0.watched ≡ h.watched
  on_mempool_tick-watched h = ground arith

  handle-AllWatched :
      {P : T → Type 0}
      → (h : Hub T) (ev : Event T) → Asks P ev
      → AllWatched P h.watched
      → AllWatched P (handle h ev).0.watched
  unfolding handle
  handle-AllWatched {P} h done p all = all
  handle-AllWatched {P} h (register c) p all =
      subst (AllWatched P) (sym (on_register-watched h c)) all
  handle-AllWatched {P} h (unregister c) p all =
      subst (AllWatched P) (sym (drop_client-watched h c)) all
  handle-AllWatched {P} h (command c watch t) p all = λ j u there.
      elim (Bool-cases (elem u (watched_of h.watched j))) [
        | inl was ↦ all j u was
        | inr new ↦ subst P (on_command-elem h c watch t j u there new) p
      ]
  handle-AllWatched {P} h block p all =
      subst (AllWatched P) (sym (on_block-watched h h.pending_block)) all
  handle-AllWatched {P} h mempool p all = subst (AllWatched P) (sym (on_mempool-watched h)) all
  handle-AllWatched {P} h mempool_tick p all =
      subst (AllWatched P) (sym (on_mempool_tick-watched h)) all
  handle-AllWatched {P} h tick p all = all
  handle-AllWatched {P} h log_tick p all = all

  pub step-AllWatched :
      {P : T → Type 0}
      → (h : Hub T) (ev : Event T) → Asks P ev
      → AllWatched P h.watched
      → AllWatched P (step h ev).0.watched
  step-AllWatched {P} h ev p all =
      step_cases (λ g. AllWatched P g.watched) h ev (λ over. all)
        (λ running. handle-AllWatched h ev p all)

  on_command-clients :
      (h : Hub T) (c : ℕ) (watch : Bool) (t : T) → (on_command h c watch t).0.clients ≡ h.clients
  unfolding on_command on_watch on_unwatch
  on_command-clients h c watch t = ground arith

  handle-IsOut :
      (h : Hub T) (ev : Event T) (j : ℕ)
      → IsSparing j ev
      → elem j h.clients ≡ false
      → elem j (handle h ev).0.clients ≡ false
  unfolding handle on_register drop_client
  handle-IsOut h done j a out = out
  handle-IsOut h (register c) j a out =
      ground (arith, elem-include j c h.clients, a, out, ==_iff c j)
  handle-IsOut h (unregister c) j a out = ground (arith, elem-remove j c h.clients, out)
  handle-IsOut h (command c watch t) j a out = rw (on_command-clients h c watch t) out
  handle-IsOut h block j a out = on_block-out h h.pending_block j out
  handle-IsOut h mempool j a out = ground (arith, out)
  handle-IsOut h mempool_tick j a out = ground (arith, out)
  handle-IsOut h tick j a out = out
  handle-IsOut h log_tick j a out = out

  pub step-IsOut :
      (h : Hub T) (ev : Event T) (j : ℕ) → IsSparing j ev → IsOut j h → IsOut j (step h ev).0
  step-IsOut h ev j a out =
      step_cases (IsOut j) h ev (λ over. out) (λ running still. handle-IsOut h ev j a (out running))

  drop_client-out : (h : Hub T) (c : ℕ) → elem c (drop_client h c).clients ≡ false
  unfolding drop_client
  drop_client-out h c = ground (arith, elem-remove c c h.clients, ==_iff c c)

  -- Who is unregistered is out.
  pub unregister-IsOut : (h : Hub T) (c : ℕ) → IsOut c (step h (unregister c)).0
  unfolding handle
  unregister-IsOut h c =
      step_cases (IsOut c) h (unregister c) (λ over still. cc)
        (λ running still. drop_client-out h c)
