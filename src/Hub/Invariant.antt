-- ===== src/Hub/Invariant.antt =====
-- internal/api/hub.go: what holds of the loop's state between two events.
use btcdwatch_com.Base.{
  ℕ, refl, sym, subst, [], Bool, arith, if◌then◌else◌, Eq, nat_eq, inl, inr, Bool-cases,
}
use btcdwatch_com.Base.Map.{elem, lookup}
use btcdwatch_com.Hub.{
  Hub, Event, done, register, unregister, command, block, mempool, mempool_tick, tick, log_tick,
  on_command, handle, step, new_hub, notify_block, notify_mempool,
}
pub use btcdwatch_com.Hub.Agreement.{IsHub, IsAdmissible}
use btcdwatch_com.Hub.Agreement.{
  same-IsHub, drop_client-IsHub, on_watch-IsHub, on_unwatch-IsHub, on_register-IsHub,
  on_block-IsHub, on_mempool-IsHub, on_mempool_tick-IsHub,
}

module _ {T : Type 0} ⦃e : Eq T⦄ where
  on_command-IsHub :
      (h : Hub T) (c : ℕ) (watch : Bool) (t : T) → IsHub h → IsHub (on_command h c watch t).0
  unfolding on_command
  on_command-IsHub h c watch t i = elim (Bool-cases (elem c h.clients)) [
    | inl here ↦ elim (Bool-cases watch) [
      | inl on ↦ rw (here, on) (on_watch-IsHub h c t here i)
      | inr off ↦ rw (here, off) (on_unwatch-IsHub h c t i)
    ]
    | inr gone ↦ rw gone i
  ]

  handle-IsHub : (h : Hub T) (ev : Event T) → IsAdmissible h ev → IsHub h → IsHub (handle h ev).0
  unfolding handle
  handle-IsHub h done a i = same-IsHub i refl refl refl refl
  handle-IsHub h (register c) a i = on_register-IsHub h c a i
  handle-IsHub h (unregister c) a i = drop_client-IsHub h c i
  handle-IsHub h (command c watch t) a i = on_command-IsHub h c watch t i
  handle-IsHub h block a i = on_block-IsHub h h.pending_block i
  handle-IsHub h mempool a i = on_mempool-IsHub h i
  handle-IsHub h mempool_tick a i = on_mempool_tick-IsHub h i
  handle-IsHub h tick a i = i
  handle-IsHub h log_tick a i = same-IsHub i refl refl refl refl

  -- Every round of the loop keeps the map of watchers and the clients' sets in agreement, leaves no
  -- empty set, and keeps both caps, if a connection registers only before it watches.
  pub step-IsHub : (h : Hub T) (ev : Event T) → IsAdmissible h ev → IsHub h → IsHub (step h ev).0
  unfolding step
  step-IsHub h ev a i = elim (Bool-cases h.stopped) [
    | inl over ↦ subst (λ b. IsHub (if b then (h, []) else handle h ev).0) (sym over) i
    | inr running ↦
        subst (λ b. IsHub (if b then (h, []) else handle h ev).0) (sym running)
          (handle-IsHub h ev a i)
  ]

  -- What else can happen to the loop's record: a notification lands in a channel.
  pub data Moves (h : Hub T) : Hub T → Type 0 where
    round : (ev : Event T) → IsAdmissible h ev → Moves h (step h ev).0
    block_notified : (hash : T) → Moves h (notify_block h hash)
    mempool_notified : Moves h (notify_mempool h)

  pub data Reachable (max_clients : ℕ) : Hub T → Type 0 where
    start : Reachable max_clients (new_hub max_clients)
    next : {h h' : Hub T} → Reachable max_clients h → Moves h h' → Reachable max_clients h'

  new_hub-IsHub : (max_clients : ℕ) → IsHub {T = T} (new_hub max_clients)
  unfolding new_hub lookup elem
  new_hub-IsHub n = record {
    agree = λ c t. refl;
    no_empty = λ t s at. cc;
    distinct = tt;
    watch_cap = λ c. omega arith;
    client_cap = λ m. omega arith;
  }

  Moves-IsHub : {h h' : Hub T} → Moves h h' → IsHub h → IsHub h'
  unfolding notify_block notify_mempool
  Moves-IsHub {h} (round ev a) i = step-IsHub h ev a i
  Moves-IsHub (block_notified hash) i = same-IsHub i refl refl refl refl
  Moves-IsHub mempool_notified i = same-IsHub i refl refl refl refl

  -- So it holds in every state that the loop can reach, whatever the order of its events.
  pub Reachable-IsHub : {n : ℕ} {h : Hub T} → Reachable n h → IsHub h
  Reachable-IsHub {n} start = new_hub-IsHub n
  Reachable-IsHub (next r m) = Moves-IsHub m (Reachable-IsHub r)
